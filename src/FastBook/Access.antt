-- ===== src/FastBook/Access.antt =====
-- Reads after writes of the pool and of the levels, and what unlinking an order changes in them.
use lob_project.Base.{
  ℕ, ◌<◌, Bool, true, false, ◌&&◌, Option, none, some, ◌==◌, ◌≡◌, refl, ◌∙◌, arith, Bool-cases,
  Option-cases, inl, inr, length, get_or-set, length-set, if◌then◌else◌,
}
use lob_project.Types.{Side, buy, sell}
use lob_project.FastBook.{
  FastOrder, PriceLevel, FastBook, blank_order, blank_level, pooled, level, at_side, put_order,
  put_level, unlink_prev, unlink_next,
}

abbrev pub same_side : Side → Side → Bool
same_side buy buy = true
same_side sell sell = true
same_side _ _ = false

abbrev pub same_level : Side → ℕ → Side → ℕ → Bool
same_level s i s' j = same_side s s' && (i == j)

pub same_side-eq : (s s' : Side) → same_side s s' ≡ true → s ≡ s'
same_side-eq buy buy h = refl
same_side-eq sell sell h = refl
same_side-eq buy sell h = cc
same_side-eq sell buy h = cc

pub pooled-put_order :
    (b : FastBook) (i : ℕ) (o : FastOrder) (a : ℕ)
    → i < length b.pool
    → pooled (put_order b i o) a ≡ (if i == a then o else pooled b a)
unfolding put_order
pooled-put_order b i o a h = get_or-set b.pool i a o blank_order h

pub level-put_level :
    (b : FastBook) (s : Side) (i : ℕ) (l : PriceLevel) (s' : Side) (j : ℕ)
    → i < length (b.levels s)
    → level (put_level b s i l) s' j ≡ (if same_level s i s' j then l else level b s' j)
unfolding put_level
level-put_level b buy i l buy j h = get_or-set (b.levels buy) i j l blank_level h
level-put_level b sell i l sell j h = get_or-set (b.levels sell) i j l blank_level h
level-put_level b buy i l sell j h = refl
level-put_level b sell i l buy j h = refl

pub length-levels-put_level :
    (b : FastBook) (s : Side) (i : ℕ) (l : PriceLevel) (s' : Side)
    → length ((put_level b s i l).levels s') ≡ length (b.levels s')
unfolding put_level
length-levels-put_level b buy i l buy = length-set (b.levels buy) i l
length-levels-put_level b sell i l sell = length-set (b.levels sell) i l
length-levels-put_level b buy i l sell = refl
length-levels-put_level b sell i l buy = refl

-- The members that linking leaves alone.
pub record Apart (b b' : FastBook) : Type 0 where
  pub pool : length b'.pool ≡ length b.pool
  pub levels : (s : Side) → length (b'.levels s) ≡ length (b.levels s)
  pub min_price : b'.min_price ≡ b.min_price
  pub max_price : b'.max_price ≡ b.max_price
  pub num_levels : b'.num_levels ≡ b.num_levels
  pub num_orders : b'.num_orders ≡ b.num_orders
  pub bitsets : (s : Side) → b'.bitsets s ≡ b.bitsets s
  pub table : b'.table ≡ b.table
  pub free_list : b'.free_list ≡ b.free_list

pub put_order-Apart : (b : FastBook) (i : ℕ) (o : FastOrder) → Apart b (put_order b i o)
unfolding put_order
put_order-Apart b i o = record {
  pool = length-set b.pool i o;
  levels = λ s. refl;
  min_price = refl;
  max_price = refl;
  num_levels = refl;
  num_orders = refl;
  bitsets = λ s. refl;
  table = refl;
  free_list = refl;
}

pub put_level-Apart :
    (b : FastBook) (s : Side) (i : ℕ) (l : PriceLevel) → Apart b (put_level b s i l)
unfolding put_level
put_level-Apart b s i l = record {
  pool = refl;
  levels = λ s'. length-levels-put_level b s i l s';
  min_price = refl;
  max_price = refl;
  num_levels = refl;
  num_orders = refl;
  bitsets = λ s'. refl;
  table = refl;
  free_list = refl;
}

pub Apart-trans : (a b c : FastBook) → Apart a b → Apart b c → Apart a c
Apart-trans a b c h k = record {
  pool = k.pool ∙ h.pool;
  levels = λ s. k.levels s ∙ h.levels s;
  min_price = k.min_price ∙ h.min_price;
  max_price = k.max_price ∙ h.max_price;
  num_levels = k.num_levels ∙ h.num_levels;
  num_orders = k.num_orders ∙ h.num_orders;
  bitsets = λ s. k.bitsets s ∙ h.bitsets s;
  table = k.table ∙ h.table;
  free_list = k.free_list ∙ h.free_list;
}

abbrev pub is : Option ℕ → ℕ → Bool
is none a = false
is (some p) a = p == a

-- The orders before and behind `o`, and its level, without it.
abbrev pub relinked : FastOrder → ℕ → FastOrder → FastOrder
relinked o a r = record r {
  prev = if is o.next a then o.prev else r.prev;
  next = if is o.prev a then o.next else r.next;
}

abbrev pub unless : Option ℕ → Option ℕ → Option ℕ → Option ℕ
unless none new old = new
unless (some p) new old = old

pub level_same :
    (b : FastBook) (s : Side) (i : ℕ) (s' : Side) (j : ℕ)
    → level b s' j ≡ (if same_level s i s' j then level b s i else level b s' j)
level_same b s i s' j = elim (Bool-cases (same_side s s')) [
  | inl f ↦ elim (Bool-cases (i == j)) [
    | inl at ↦ let g : j ≡ i = ground arith in rw (f, at, g, same_side-eq s s' f) refl
    | inr off ↦ rw (f, off) refl
  ]
  | inr off ↦ rw off refl
]

module _ (b : FastBook) (s : Side) (i : ℕ) (o : FastOrder) where
  abbrev pub unlinked : FastBook
  unlinked = unlink_next (unlink_prev b s i o) s i o

  unlink_prev-Apart : Apart b (unlink_prev b s i o)
  unfolding unlink_prev
  unlink_prev-Apart = elim (Option-cases o.prev) [
    | inl e ↦ rw e (put_level-Apart b s i _)
    | inr (p, e) ↦ rw e (put_order-Apart b p _)
  ]

  unlink_next-Apart : Apart b (unlink_next b s i o)
  unfolding unlink_next
  unlink_next-Apart = elim (Option-cases o.next) [
    | inl e ↦ rw e (put_level-Apart b s i _)
    | inr (p, e) ↦ rw e (put_order-Apart b p _)
  ]

  pooled-unlink_prev :
      (a : ℕ)
      → ((p : ℕ) → o.prev ≡ some p → p < length b.pool)
      → pooled (unlink_prev b s i o) a
        ≡ record (pooled b a) { next = if is o.prev a then o.next else (pooled b a).next }
  unfolding unlink_prev put_level
  pooled-unlink_prev a h = elim (Option-cases o.prev) [
    | inl e ↦ rw e refl
    | inr (p, e) ↦ rw e (
        pooled-put_order b p _ a (h p e) ∙ (elim (Bool-cases (p == a)) [
          | inl at ↦ let f : p ≡ a = ground arith in rw (at, f) refl
          | inr off ↦ rw off refl
        ]))
  ]

  pooled-unlink_next :
      (a : ℕ)
      → ((p : ℕ) → o.next ≡ some p → p < length b.pool)
      → pooled (unlink_next b s i o) a
        ≡ record (pooled b a) { prev = if is o.next a then o.prev else (pooled b a).prev }
  unfolding unlink_next put_level
  pooled-unlink_next a h = elim (Option-cases o.next) [
    | inl e ↦ rw e refl
    | inr (p, e) ↦ rw e (
        pooled-put_order b p _ a (h p e) ∙ (elim (Bool-cases (p == a)) [
          | inl at ↦ let f : p ≡ a = ground arith in rw (at, f) refl
          | inr off ↦ rw off refl
        ]))
  ]

  level-unlink_prev :
      (s' : Side) (j : ℕ)
      → i < length (b.levels s)
      → level (unlink_prev b s i o) s' j ≡ (
          if same_level s i s' j
          then record (level b s i) { head = unless o.prev o.next (level b s i).head }
          else level b s' j)
  unfolding unlink_prev put_order
  level-unlink_prev s' j h = elim (Option-cases o.prev) [
    | inl e ↦ rw e (level-put_level b s i _ s' j h)
    | inr (p, e) ↦ rw e (level_same b s i s' j)
  ]

  level-unlink_next :
      (s' : Side) (j : ℕ)
      → i < length (b.levels s)
      → level (unlink_next b s i o) s' j ≡ (
          if same_level s i s' j
          then record (level b s i) { tail = unless o.next o.prev (level b s i).tail }
          else level b s' j)
  unfolding unlink_next put_order
  level-unlink_next s' j h = elim (Option-cases o.next) [
    | inl e ↦ rw e (level-put_level b s i _ s' j h)
    | inr (p, e) ↦ rw e (level_same b s i s' j)
  ]

pub same_level_refl : (s : Side) (i : ℕ) → same_level s i s i ≡ true
same_level_refl buy i = ground arith
same_level_refl sell i = ground arith

module _ (b : FastBook) (s : Side) (i : ℕ) (o : FastOrder) where
  pub unlinked-Apart : Apart b (unlinked b s i o)
  unlinked-Apart =
      Apart-trans b (unlink_prev b s i o) (unlinked b s i o) (unlink_prev-Apart b s i o)
        (unlink_next-Apart (unlink_prev b s i o) s i o)

  pub pooled-unlinked :
      (a : ℕ)
      → ((p : ℕ) → o.prev ≡ some p → p < length b.pool)
      → ((p : ℕ) → o.next ≡ some p → p < length b.pool)
      → pooled (unlinked b s i o) a ≡ relinked o a (pooled b a)
  pooled-unlinked a hp hn =
      let first = pooled-unlink_prev b s i o a hp in
      let size = (unlink_prev-Apart b s i o).pool in
      pooled-unlink_next (unlink_prev b s i o) s i o a (λ p e. rw size (hn p e)) ∙ rw first refl

  pub level-unlinked :
      (s' : Side) (j : ℕ)
      → i < length (b.levels s)
      → level (unlinked b s i o) s' j ≡ (
          if same_level s i s' j
          then record (level b s i) {
            head = unless o.prev o.next (level b s i).head;
            tail = unless o.next o.prev (level b s i).tail;
          }
          else level b s' j)
  level-unlinked s' j h =
      let size = (unlink_prev-Apart b s i o).levels s in
      let here = level-unlink_prev b s i o s i h in
      level-unlink_next (unlink_prev b s i o) s i o s' j (rw size h)
      ∙ elim (Bool-cases (same_level s i s' j)) [
        | inl at ↦ rw (at, here, same_level_refl s i) refl
        | inr off ↦ rw (off, level-unlink_prev b s i o s' j h, off) refl
      ]

pub at_side-eq {ℓ} :
    {A : Type ℓ} (s : Side) (x : A) (f : Side → A) (s' : Side)
    → at_side s x f s' ≡ (if same_side s s' then x else f s')
at_side-eq buy x f buy = refl
at_side-eq buy x f sell = refl
at_side-eq sell x f buy = refl
at_side-eq sell x f sell = refl
