-- ===== src/FastBook/Linking.antt =====
-- Linking a new order in behind the tail of its level.
use lob_project.Base.{
  ℕ, ◌<◌, true, false, List, [], ◌∷◌, ◌++◌, Option, none, some, ◌==◌, ◌≡◌, ◌≢◌, refl, sym, ap, ◌∙◌,
  arith, Bool-cases, inl, inr, length, if◌then◌else◌,
}
use lob_project.Types.{Side}
use lob_project.FastBook.{FastOrder, PriceLevel, FastBook, pooled, level, put_order, put_level}
use lob_project.FastBook.Adding.{link_tail, append_level}
use lob_project.FastBook.Links.{
  has, Distinct, first_or, last_or, last_in, Seg-append, Seg-reend, Seg-frame, has-append, has-snoc,
}
use lob_project.FastBook.Access.{
  same_level, same_level_refl, is, pooled-put_order, level-put_level, Apart, Apart-trans,
  put_order-Apart, put_level-Apart,
}
use lob_project.FastBook.Unlink.{Queued, prevs, nexts, SameData, is_not, last-append}

pooled-link_tail :
    (b : FastBook) (tail : Option ℕ) (slot a : ℕ)
    → ((p : ℕ) → tail ≡ some p → p < length b.pool)
    → pooled (link_tail b tail slot) a
      ≡ record (pooled b a) { next = if is tail a then some slot else (pooled b a).next }
unfolding link_tail
pooled-link_tail b none slot a h = refl
pooled-link_tail b (some p) slot a h =
    pooled-put_order b p _ a (h p refl) ∙ (elim (Bool-cases (p == a)) [
      | inl at ↦ let f : p ≡ a = ground arith in rw (at, f) refl
      | inr off ↦ rw off refl
    ])

level-link_tail :
    (b : FastBook) (tail : Option ℕ) (slot : ℕ) (s : Side) (j : ℕ)
    → level (link_tail b tail slot) s j ≡ level b s j
unfolding link_tail put_order
level-link_tail b none slot s j = refl
level-link_tail b (some p) slot s j = refl

link_tail-Apart : (b : FastBook) (tail : Option ℕ) (slot : ℕ) → Apart b (link_tail b tail slot)
unfolding link_tail
link_tail-Apart b none slot = record {
  pool = refl;
  levels = λ s. refl;
  min_price = refl;
  max_price = refl;
  num_levels = refl;
  num_orders = refl;
  bitsets = λ s. refl;
  table = refl;
  free_list = refl;
}
link_tail-Apart b (some p) slot = put_order-Apart b p _

abbrev pub new_order : FastBook → Side → ℕ → ℕ → ℕ → ℕ → FastOrder
new_order b s i id price quantity = record {
  id = id;
  price = price;
  quantity = quantity;
  prev = (level b s i).tail;
  next = none;
  side = s;
}

-- The order stands in the pool and behind the tail of its level.
abbrev pub linked : FastBook → Side → ℕ → ℕ → ℕ → ℕ → ℕ → FastBook
linked b s i slot id price quantity =
    put_level
      (link_tail (put_order b slot (new_order b s i id price quantity)) (level b s i).tail slot) s i
      (append_level (level b s i) slot quantity)

module _ (b : FastBook) (s : Side) (i slot id price quantity : ℕ) (xs : List ℕ)
    (i_n : i < length (b.levels s)) (slot_n : slot < length b.pool) (h : Queued b s i xs)
    (out : has slot xs ≡ false) where
  abbrev after : FastBook
  after = linked b s i slot id price quantity

  abbrev o : FastOrder
  o = new_order b s i id price quantity

  abbrev placed : FastBook
  placed = put_order b slot o

  pub linked-Apart : Apart b after
  linked-Apart =
      let first = put_order-Apart b slot o in
      let second = link_tail-Apart placed (level b s i).tail slot in
      Apart-trans b (link_tail placed (level b s i).tail slot) after
        (Apart-trans b placed (link_tail placed (level b s i).tail slot) first second)
        (put_level-Apart (link_tail placed (level b s i).tail slot) s i _)

  entry_after :
      (a : ℕ)
      → pooled after a ≡ record (pooled placed a) {
        next = if is (level b s i).tail a then some slot else (pooled placed a).next;
      }
  unfolding put_level
  entry_after a =
      pooled-link_tail placed (level b s i).tail slot a
        (λ p e. rw ((put_order-Apart b slot o).pool) (h.inside p (last_in xs p (sym h.tail ∙ e))))

  pub level-linked :
      (s' : Side) (j : ℕ)
      → level after s' j
        ≡ (if same_level s i s' j then append_level (level b s i) slot quantity else level b s' j)
  unfolding put_order
  level-linked s' j =
      let size = (put_order-Apart b slot o).levels s in
      let size' = (link_tail-Apart placed (level b s i).tail slot).levels s in
      level-put_level (link_tail placed (level b s i).tail slot) s i _ s' j (rw (size', size) i_n)
      ∙ rw (level-link_tail placed (level b s i).tail slot s' j) refl

  placed_at : pooled placed slot ≡ o
  placed_at =
      let here : (slot == slot) ≡ true = ground arith in
      pooled-put_order b slot o slot slot_n ∙ rw here refl

  placed_other : (a : ℕ) → slot ≢ a → pooled placed a ≡ pooled b a
  placed_other a ne =
      let off : (slot == a) ≡ false = ground arith in
      pooled-put_order b slot o a slot_n ∙ rw off refl

  pub linked-SameData : (a : ℕ) → slot ≢ a → SameData (pooled after a) (pooled b a)
  linked-SameData a ne =
      let e = entry_after a in
      let f = placed_other a ne in
      record {
        id = ap (λ (r : FastOrder). r.id) e ∙ ap (λ (r : FastOrder). r.id) f;
        price = ap (λ (r : FastOrder). r.price) e ∙ ap (λ (r : FastOrder). r.price) f;
        quantity = ap (λ (r : FastOrder). r.quantity) e ∙ ap (λ (r : FastOrder). r.quantity) f;
        side = ap (λ (r : FastOrder). r.side) e ∙ ap (λ (r : FastOrder). r.side) f;
      }

  pub linked_at : SameData (pooled after slot) o
  linked_at =
      let e = entry_after slot in
      let f = placed_at in
      record {
        id = ap (λ (r : FastOrder). r.id) e ∙ ap (λ (r : FastOrder). r.id) f;
        price = ap (λ (r : FastOrder). r.price) e ∙ ap (λ (r : FastOrder). r.price) f;
        quantity = ap (λ (r : FastOrder). r.quantity) e ∙ ap (λ (r : FastOrder). r.quantity) f;
        side = ap (λ (r : FastOrder). r.side) e ∙ ap (λ (r : FastOrder). r.side) f;
      }

  apart : (a : ℕ) → has a xs ≡ true → slot ≢ a
  apart a m same = let n : has slot xs ≡ true = rw same m in cc

  prev_other : (a : ℕ) → slot ≢ a → prevs after a ≡ prevs b a
  prev_other a ne =
      ap (λ (r : FastOrder). r.prev) (entry_after a)
      ∙ ap (λ (r : FastOrder). r.prev) (placed_other a ne)

  next_other : (a : ℕ) → slot ≢ a → some a ≢ last_or none xs → nexts after a ≡ nexts b a
  next_other a ne inner =
      let off : is (level b s i).tail a ≡ false = rw h.tail (is_not (last_or none xs) a inner) in
      ap (λ (r : FastOrder). r.next) (entry_after a)
      ∙ rw off (ap (λ (r : FastOrder). r.next) (placed_other a ne))

  next_tail : (a : ℕ) → last_or none xs ≡ some a → nexts after a ≡ some slot
  next_tail a e =
      let on : is (level b s i).tail a ≡ true = rw (h.tail, e) (ground arith) in
      ap (λ (r : FastOrder). r.next) (entry_after a) ∙ rw on refl

  not_tail : some slot ≢ last_or none xs
  not_tail e = let m = last_in xs slot (sym e) in cc

  new_prev : prevs after slot ≡ last_or none xs
  new_prev =
      ap (λ (r : FastOrder). r.prev) (entry_after slot)
      ∙ (ap (λ (r : FastOrder). r.prev) placed_at ∙ h.tail)

  new_next : nexts after slot ≡ none
  new_next =
      let off : is (level b s i).tail slot ≡ false =
        rw h.tail (is_not (last_or none xs) slot not_tail) in
      ap (λ (r : FastOrder). r.next) (entry_after slot)
      ∙ rw off (ap (λ (r : FastOrder). r.next) placed_at)

  append_head :
      (ys : List ℕ) (l : PriceLevel)
      → l.head ≡ first_or ys none
      → (append_level l slot quantity).head ≡ first_or (ys ++ slot ∷ []) none
  unfolding append_level
  append_head [] l e = rw (append_level, e) refl
  append_head (y ∷ ys) l e = rw (append_level, e) e

  Distinct-snoc : (ys : List ℕ) → Distinct ys → has slot ys ≡ false → Distinct (ys ++ slot ∷ [])
  Distinct-snoc [] d e = (refl, tt)
  Distinct-snoc (y ∷ ys) d e =
      let f = has-append y ys (slot ∷ []) in
      (ground (arith, f, d.0, e), Distinct-snoc ys d.1 (ground (arith, e)))

  level_here : level after s i ≡ append_level (level b s i) slot quantity
  level_here = level-linked s i ∙ rw (same_level_refl s i) refl

  pub linked-Queued : Queued after s i (xs ++ slot ∷ [])
  unfolding append_level
  linked-Queued = record {
    links =
        Seg-append (prevs after) (nexts after) xs (slot ∷ []) none none
          (Seg-reend (prevs b) (nexts b) (prevs after) (nexts after) xs none none (some slot)
            h.distinct (λ a m. prev_other a (apart a m)) (λ a m. next_other a (apart a m)) next_tail
            h.links)
          (new_prev, new_next, tt);
    head = ap (λ (l : PriceLevel). l.head) level_here ∙ append_head xs (level b s i) h.head;
    tail = ap (λ (l : PriceLevel). l.tail) level_here ∙ sym (last-append none xs (slot ∷ []));
    distinct = Distinct-snoc xs h.distinct out;
    inside = λ a m.
        rw linked-Apart.pool
          (elim (has-snoc slot a xs m) [ inl e ↦ rw e slot_n | inr g ↦ h.inside a g.1 ]);
  }

  pub other_queue-Queued :
      (s' : Side) (j : ℕ) (ys : List ℕ)
      → same_level s i s' j ≡ false
      → has slot ys ≡ false
      → ((a : ℕ) → has a ys ≡ true → has a xs ≡ false)
      → Queued b s' j ys
      → Queued after s' j ys
  other_queue-Queued s' j ys off new others q = record {
    links =
        Seg-frame (prevs b) (nexts b) (prevs after) (nexts after) ys none none
          (λ a m.
            let ne : slot ≢ a = λ same. (let n : has slot ys ≡ true = rw same m in cc) in
            let inner : some a ≢ last_or none xs =
              λ e. (let n = last_in xs a (sym e) in let o' = others a m in cc) in
            (prev_other a ne, next_other a ne inner))
          q.links;
    head = ap (λ (l : PriceLevel). l.head) same ∙ q.head;
    tail = ap (λ (l : PriceLevel). l.tail) same ∙ q.tail;
    distinct = q.distinct;
    inside = λ a m. rw linked-Apart.pool (q.inside a m);
  }
    where
      same : level after s' j ≡ level b s' j
      same = level-linked s' j ∙ rw off refl
