-- ===== src/FastBook/Unlink.antt =====
-- Unlinking an order takes exactly it out of the queue of its level.
use mathlib.Core.Path.{subst}
use lob_project.Base.{
  ℕ, ◌<◌, true, false, List, [], ◌∷◌, ◌++◌, Option, none, some, ◌≡◌, ◌≢◌, refl, sym, ap, ◌∙◌, arith,
  Bool-cases, inl, inr, length, if◌then◌else◌,
}
use lob_project.Types.{Side}
use lob_project.FastBook.{FastOrder, FastBook, pooled, level, unlink_prev, unlink_next}
use lob_project.FastBook.Links.{
  has, Distinct, first_or, last_or, without, Seg, Seg-append, Seg-split, Seg-frame, Seg-reend,
  Seg-restart, has-append, first_in, last_in, without-split, Distinct-split, Distinct-without,
}
use lob_project.FastBook.Access.{
  same_level, is, unless, relinked, unlinked, unlinked-Apart, pooled-unlinked, level-unlinked,
  same_level_refl,
}

abbrev pub prevs : FastBook → ℕ → Option ℕ
prevs b a = (pooled b a).prev

abbrev pub nexts : FastBook → ℕ → Option ℕ
nexts b a = (pooled b a).next

-- The list of a level leads along `xs`, from its head to its tail and back.
pub record Queued (b : FastBook) (s : Side) (i : ℕ) (xs : List ℕ) : Type 0 where
  pub links : Seg (prevs b) (nexts b) none xs none
  pub head : (level b s i).head ≡ first_or xs none
  pub tail : (level b s i).tail ≡ last_or none xs
  pub distinct : Distinct xs
  pub inside : (a : ℕ) → has a xs ≡ true → a < length b.pool

pub is-eq : (p : Option ℕ) (a : ℕ) → is p a ≡ true → p ≡ some a
is-eq none a h = cc
is-eq (some p) a h = let e : p ≡ a = ground arith in ap (λ x. some x) e

pub is_not : (p : Option ℕ) (a : ℕ) → some a ≢ p → is p a ≡ false
is_not p a h = elim (Bool-cases (is p a)) [
  | inl at ↦ absurd (h (sym (is-eq p a at)))
  | inr off ↦ off
]

last-some : (x : ℕ) (xs : List ℕ) → (l : ℕ) × (last_or (some x) xs ≡ some l)
last-some x [] = (x, refl)
last-some x (y ∷ xs) = last-some y xs

pub last-append : (p : Option ℕ) (xs ys : List ℕ) → last_or p (xs ++ ys) ≡ last_or (last_or p xs) ys
last-append p [] ys = refl
last-append p (x ∷ xs) ys = last-append (some x) xs ys

unless-first :
    (k : ℕ) (pre post : List ℕ)
    → unless (last_or none pre) (first_or post none) (first_or (pre ++ k ∷ post) none)
      ≡ first_or (pre ++ post) none
unless-first k [] post = refl
unless-first k (x ∷ pre) post = let (l, e) = last-some x pre in rw e refl

unless-last :
    (k : ℕ) (pre post : List ℕ)
    → unless (first_or post none) (last_or none pre) (last_or none (pre ++ k ∷ post))
      ≡ last_or none (pre ++ post)
unless-last k pre [] = sym (last-append none pre [])
unless-last k pre (y ∷ post) =
    last-append none pre (k ∷ y ∷ post) ∙ sym (last-append none pre (y ∷ post))

outside : (a : ℕ) (xs : List ℕ) → has a xs ≡ false → some a ≢ first_or xs none
outside a xs out e = let m = first_in xs a (sym e) in cc

not_last : (a : ℕ) (xs : List ℕ) → has a xs ≡ false → some a ≢ last_or none xs
not_last a xs out e = let m = last_in xs a (sym e) in cc

has_not :
    (a : ℕ) (xs ys : List ℕ)
    → (has a xs ≡ true → has a ys ≡ false)
    → has a ys ≡ true
    → has a xs ≡ false
has_not a xs ys h m = elim (Bool-cases (has a xs)) [ inl at ↦ let out = h at in cc | inr off ↦ off ]

-- The orders around an order of the queue.
module _ (b : FastBook) (s : Side) (i k : ℕ) (pre post : List ℕ)
    (h : Queued b s i (pre ++ k ∷ post)) (i_n : i < length (b.levels s)) where
  abbrev o : FastOrder
  o = pooled b k

  abbrev after : FastBook
  after = unlinked b s i o

  parts :
      Seg (prevs b) (nexts b) none pre (some k)
      × (o.prev ≡ last_or none pre)
      × (o.next ≡ first_or post none)
      × Seg (prevs b) (nexts b) (some k) post none
  parts =
      let (l, r) = Seg-split (prevs b) (nexts b) pre (k ∷ post) none none h.links in
      (l, r.0, r.1, r.2)

  in_pre : (a : ℕ) → has a pre ≡ true → has a (pre ++ k ∷ post) ≡ true
  in_pre a m = rw (has-append a pre (k ∷ post), m) refl

  in_post : (a : ℕ) → has a post ≡ true → has a (pre ++ k ∷ post) ≡ true
  in_post a m = let e = has-append a pre (k ∷ post) in ground (arith, m, e)

  pub entry_after : (a : ℕ) → pooled after a ≡ relinked o a (pooled b a)
  entry_after a =
      pooled-unlinked b s i o a (λ p e. h.inside p (in_pre p (last_in pre p (sym parts.1 ∙ e))))
        (λ p e. h.inside p (in_post p (first_in post p (sym parts.2 ∙ e))))

  abbrev apart :
      Distinct pre
      × Distinct post
      × (has k pre ≡ false)
      × (has k post ≡ false)
      × ((a : ℕ) → has a pre ≡ true → has a post ≡ false)
  apart = Distinct-split k pre post h.distinct

  pub prev_after : (a : ℕ) → prevs after a ≡ (if is o.next a then o.prev else prevs b a)
  prev_after a = ap (λ (r : FastOrder). r.prev) (entry_after a)

  pub next_after : (a : ℕ) → nexts after a ≡ (if is o.prev a then o.next else nexts b a)
  next_after a = ap (λ (r : FastOrder). r.next) (entry_after a)

  prev_kept : (a : ℕ) → some a ≢ first_or post none → prevs after a ≡ prevs b a
  prev_kept a ne =
      let off : is o.next a ≡ false = rw parts.2 (is_not (first_or post none) a ne) in
      prev_after a ∙ rw off refl

  next_kept : (a : ℕ) → some a ≢ last_or none pre → nexts after a ≡ nexts b a
  next_kept a ne =
      let off : is o.prev a ≡ false = rw parts.1 (is_not (last_or none pre) a ne) in
      next_after a ∙ rw off refl

  prev_first : (a : ℕ) → first_or post none ≡ some a → prevs after a ≡ last_or none pre
  prev_first a e =
      let on : is o.next a ≡ true = rw (parts.2, e) (ground arith) in prev_after a ∙ rw on parts.1

  next_last : (a : ℕ) → last_or none pre ≡ some a → nexts after a ≡ first_or post none
  next_last a e =
      let on : is o.prev a ≡ true = rw (parts.1, e) (ground arith) in next_after a ∙ rw on parts.2

  links_after : Seg (prevs after) (nexts after) none (pre ++ post) none
  links_after =
      Seg-append (prevs after) (nexts after) pre post none none
        (Seg-reend (prevs b) (nexts b) (prevs after) (nexts after) pre none (some k)
          (first_or post none) apart.0 (λ a m. prev_kept a (outside a post (apart.4 a m)))
          (λ a m. next_kept a) next_last parts.0)
        (Seg-restart (prevs b) (nexts b) (prevs after) (nexts after) post (some k)
          (last_or none pre) none apart.1
          (λ a m. next_kept a (not_last a pre (has_not a pre post (apart.4 a) m)))
          (λ a m. prev_kept a) prev_first parts.3)

  level-after : level after s i ≡ record (level b s i) {
    head = unless o.prev o.next (level b s i).head;
    tail = unless o.next o.prev (level b s i).tail;
  }
  level-after = level-unlinked b s i o s i i_n ∙ rw (same_level_refl s i) refl

  inside_after : (a : ℕ) → has a (pre ++ post) ≡ true → a < length after.pool
  inside_after a m =
      let e = has-append a pre post in
      let f = has-append a pre (k ∷ post) in
      rw ((unlinked-Apart b s i o).pool) (h.inside a (ground (arith, m, e, f)))

  pub split-Queued : Distinct (pre ++ post) → Queued after s i (pre ++ post)
  split-Queued d = record {
    links = links_after;
    head = ap (λ l. l.head) level-after ∙ rw (parts.1, parts.2, h.head) (unless-first k pre post);
    tail = ap (λ l. l.tail) level-after ∙ rw (parts.1, parts.2, h.tail) (unless-last k pre post);
    distinct = d;
    inside = inside_after;
  }

  -- A queue that shares no order with this one is as it was.
  pub other-Queued :
      (s' : Side) (j : ℕ) (ys : List ℕ)
      → same_level s i s' j ≡ false
      → ((a : ℕ) → has a ys ≡ true → has a (pre ++ k ∷ post) ≡ false)
      → Queued b s' j ys
      → Queued after s' j ys
  other-Queued s' j ys off apart_ys q = record {
    links =
        Seg-frame (prevs b) (nexts b) (prevs after) (nexts after) ys none none
          (λ a m.
            let out = apart_ys a m in
            let e = has-append a pre (k ∷ post) in
            let l : has a pre ≡ false = ground (arith, out, e) in
            let r : has a post ≡ false = ground (arith, out, e) in
            (prev_kept a (outside a post r), next_kept a (not_last a pre l)))
          q.links;
    head = ap (λ l. l.head) same ∙ q.head;
    tail = ap (λ l. l.tail) same ∙ q.tail;
    distinct = q.distinct;
    inside = λ a m. rw ((unlinked-Apart b s i o).pool) (q.inside a m);
  }
    where
      same : level after s' j ≡ level b s' j
      same = level-unlinked b s i o s' j i_n ∙ rw off refl

-- Where the list of a level leads along a queue, unlinking an order of it leaves the list leading
-- along the queue without that order.
pub unlinked-Queued :
    (b : FastBook) (s : Side) (i k : ℕ) (xs : List ℕ)
    → i < length (b.levels s)
    → Queued b s i xs
    → has k xs ≡ true
    → Queued (unlink_next (unlink_prev b s i (pooled b k)) s i (pooled b k)) s i (without k xs)
unlinked-Queued b s i k xs i_n h m =
    let (pre, post, e, w) = without-split k xs m in
    rw w (
      split-Queued b s i k pre post (subst (λ ys. Queued b s i ys) e h) i_n
        (subst Distinct w (Distinct-without k xs h.distinct)))

pub other_level-Queued :
    (b : FastBook) (s : Side) (i k : ℕ) (xs : List ℕ) (s' : Side) (j : ℕ) (ys : List ℕ)
    → i < length (b.levels s)
    → Queued b s i xs
    → has k xs ≡ true
    → same_level s i s' j ≡ false
    → ((a : ℕ) → has a ys ≡ true → has a xs ≡ false)
    → Queued b s' j ys
    → Queued (unlinked b s i (pooled b k)) s' j ys
other_level-Queued b s i k xs s' j ys i_n h m off apart_ys q =
    let (pre, post, e, w) = without-split k xs m in
    other-Queued b s i k pre post (subst (λ zs. Queued b s i zs) e h) i_n s' j ys off
      (λ a n. subst (λ zs. has a zs ≡ false) e (apart_ys a n)) q

-- Unlinking leaves the data of the orders.
pub record SameData (r o : FastOrder) : Type 0 where
  pub id : r.id ≡ o.id
  pub price : r.price ≡ o.price
  pub quantity : r.quantity ≡ o.quantity
  pub side : r.side ≡ o.side

pub unlinked-SameData :
    (b : FastBook) (s : Side) (i k : ℕ) (xs : List ℕ) (a : ℕ)
    → i < length (b.levels s)
    → Queued b s i xs
    → has k xs ≡ true
    → SameData (pooled (unlinked b s i (pooled b k)) a) (pooled b a)
unlinked-SameData b s i k xs a i_n h m =
    let (pre, post, e, w) = without-split k xs m in
    let at = entry_after b s i k pre post (subst (λ ys. Queued b s i ys) e h) i_n a in
    record {
      id = ap (λ (r : FastOrder). r.id) at;
      price = ap (λ (r : FastOrder). r.price) at;
      quantity = ap (λ (r : FastOrder). r.quantity) at;
      side = ap (λ (r : FastOrder). r.side) at;
    }
