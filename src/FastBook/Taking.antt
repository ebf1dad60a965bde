-- ===== src/FastBook/Taking.antt =====
-- A change of an order's quantity and of its level's total leaves the links and the other orders.
use lob_project.Base.{
  ℕ, ◌<◌, false, List, none, ◌==◌, ◌≡◌, ◌≢◌, refl, sym, ap, ◌∙◌, arith, Bool-cases, inl, inr,
  length, if◌then◌else◌,
}
use lob_project.Types.{Side}
use lob_project.FastBook.{FastOrder, PriceLevel, FastBook, pooled, level, put_order, put_level}
use lob_project.FastBook.Links.{Seg-frame}
use lob_project.FastBook.Access.{
  same_level, level_same, pooled-put_order, level-put_level, Apart, Apart-trans, put_order-Apart,
  put_level-Apart,
}
use lob_project.FastBook.Unlink.{Queued, prevs, nexts, SameData}

abbrev pub requantified : FastBook → Side → ℕ → ℕ → ℕ → ℕ → FastBook
requantified b s i k total quantity =
    put_order (put_level b s i (record (level b s i) { total_quantity = total })) k
      (record (pooled b k) { quantity = quantity })

module _ (b : FastBook) (s : Side) (i k total quantity : ℕ) (i_n : i < length (b.levels s))
    (k_n : k < length b.pool) where
  abbrev taken : FastBook
  taken = requantified b s i k total quantity

  pub taken-Apart : Apart b taken
  taken-Apart =
      Apart-trans b (put_level b s i _) taken (put_level-Apart b s i _)
        (put_order-Apart (put_level b s i _) k _)

  pub pooled-taken :
      (a : ℕ)
      → pooled taken a
        ≡ (if k == a then record (pooled b k) { quantity = quantity } else pooled b a)
  unfolding put_level
  pooled-taken a = pooled-put_order (put_level b s i _) k _ a k_n

  pub level-taken :
      (s' : Side) (j : ℕ)
      → level taken s' j ≡ (
          if same_level s i s' j
          then record (level b s i) { total_quantity = total }
          else level b s' j)
  unfolding put_order
  level-taken s' j = level-put_level b s i _ s' j i_n

  links_kept : (a : ℕ) → (prevs taken a ≡ prevs b a) × (nexts taken a ≡ nexts b a)
  links_kept a = elim (Bool-cases (k == a)) [
    | inl at ↦
        let e : k ≡ a = ground arith in
        let f : pooled taken a ≡ record (pooled b a) { quantity = quantity } =
          pooled-taken a ∙ rw (at, e) refl in
        (ap (λ (r : FastOrder). r.prev) f, ap (λ (r : FastOrder). r.next) f)
    | inr off ↦
        let f : pooled taken a ≡ pooled b a = pooled-taken a ∙ rw off refl in
        (ap (λ (r : FastOrder). r.prev) f, ap (λ (r : FastOrder). r.next) f)
  ]

  level_ends :
      (s' : Side) (j : ℕ)
      → ((level taken s' j).head ≡ (level b s' j).head)
        × ((level taken s' j).tail ≡ (level b s' j).tail)
  level_ends s' j = elim (Bool-cases (same_level s i s' j)) [
    | inl at ↦
        let f : level taken s' j ≡ record (level b s i) { total_quantity = total } =
          level-taken s' j ∙ rw at refl in
        let g : level b s' j ≡ level b s i = level_same b s i s' j ∙ rw at refl in
        (
          ap (λ (l : PriceLevel). l.head) f ∙ sym (ap (λ (l : PriceLevel). l.head) g),
          ap (λ (l : PriceLevel). l.tail) f ∙ sym (ap (λ (l : PriceLevel). l.tail) g),
        )
    | inr off ↦
        let f : level taken s' j ≡ level b s' j = level-taken s' j ∙ rw off refl in
        (ap (λ (l : PriceLevel). l.head) f, ap (λ (l : PriceLevel). l.tail) f)
  ]

  pub taken-Queued : (s' : Side) (j : ℕ) (xs : List ℕ) → Queued b s' j xs → Queued taken s' j xs
  taken-Queued s' j xs q = record {
    links =
        Seg-frame (prevs b) (nexts b) (prevs taken) (nexts taken) xs none none (λ a m. links_kept a)
          q.links;
    head = (level_ends s' j).0 ∙ q.head;
    tail = (level_ends s' j).1 ∙ q.tail;
    distinct = q.distinct;
    inside = λ a m. rw taken-Apart.pool (q.inside a m);
  }

  pub taken-SameData : (a : ℕ) → k ≢ a → SameData (pooled taken a) (pooled b a)
  taken-SameData a ne =
      let off : (k == a) ≡ false = ground arith in
      let e : pooled taken a ≡ pooled b a = pooled-taken a ∙ rw off refl in
      record {
        id = ap (λ (r : FastOrder). r.id) e;
        price = ap (λ (r : FastOrder). r.price) e;
        quantity = ap (λ (r : FastOrder). r.quantity) e;
        side = ap (λ (r : FastOrder). r.side) e;
      }
