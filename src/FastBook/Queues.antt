-- ===== src/FastBook/Queues.antt =====
-- What the invariant tells of an order: its level, and that no other queue has it.
use lob_project.Base.{
  ℕ, ◌+◌, ◌<◌, true, false, List, [], ◌∷◌, ◌==◌, ◌≡◌, refl, sym, ap, ◌∙◌, arith, Bool-cases, inl,
  inr,
}
use lob_project.Types.{Side, buy, sell}
use lob_project.OrderTable.{OrderTable, slot}
use lob_project.OrderTable.Valid.{IsTable, Maps}
use lob_project.FastBook.{FastBook, pooled, price_to_index}
use lob_project.FastBook.Links.{has, without}
use lob_project.FastBook.Access.{same_level, same_side, same_side-eq}
use lob_project.FastBook.Unlink.{SameData}
use lob_project.FastBook.Valid.{IsBook, shares}

pub Maps-functional : (t : OrderTable) (id v w : ℕ) → IsTable t → Maps t id v → Maps t id w → v ≡ w
Maps-functional t id v w table m n =
    let e = table.distinct m.0 n.0 m.1 n.1 m.2 n.2 (m.3 ∙ sym n.3) in
    sym m.4 ∙ (ap (λ x. (slot t x).val) e ∙ n.4)

pub same_level-eq :
    (s : Side) (i : ℕ) (s' : Side) (j : ℕ) → same_level s i s' j ≡ true → (s' ≡ s) × (j ≡ i)
same_level-eq s i s' j h = elim (Bool-cases (same_side s s')) [
  | inl at ↦ let f : (i == j) ≡ true = rw at at h in (sym (same_side-eq s s' at), ground arith)
  | inr off ↦ let f : false ≡ true = rw off at h in cc
]

same_side_refl : (s : Side) → same_side s s ≡ true
same_side_refl buy = refl
same_side_refl sell = refl

module _ (b : FastBook) (q : Side → ℕ → List ℕ) (book : IsBook b q) where
  pub queues-apart :
      (s : Side) (i : ℕ) (s' : Side) (j a : ℕ)
      → i < b.num_levels
      → j < b.num_levels
      → same_level s i s' j ≡ false
      → has a (q s' j) ≡ true
      → has a (q s i) ≡ false
  queues-apart s i s' j a i_n j_n off m = elim (Bool-cases (has a (q s i))) [
    | inr out ↦ out
    | inl at ↦
        let e = book.entry s i a i_n at in
        let f = book.entry s' j a j_n m in
        let sides : s' ≡ s = sym f.side ∙ e.side in
        let prices : j ≡ i = omega (arith, e.price, f.price) in
        let on : same_level s i s i ≡ true = rw (same_side_refl s) (ground arith) in
        let not_on : same_level s i s i ≡ false = rw (sides, prices) at off in cc
  ]

  pub price_to_index-entry :
      (s : Side) (i a : ℕ)
      → i < b.num_levels
      → has a (q s i) ≡ true
      → price_to_index b (pooled b a).price ≡ i
  unfolding price_to_index
  price_to_index-entry s i a i_n m =
      rw ((book.entry s i a i_n m).price) (omega (arith, book.range, book.max_small, i_n))

pub shares-without :
    (b : FastBook) (k : ℕ) (xs : List ℕ)
    → has k xs ≡ true
    → shares b xs ≡ (pooled b k).quantity + shares b (without k xs)
shares-without b k [] h = cc
shares-without b k (x ∷ xs) h = elim (Bool-cases (k == x)) [
  | inl at ↦ let e : x ≡ k = ground arith in rw (at, e) refl
  | inr off ↦ rw off (omega (arith, shares-without b k xs (ground (arith, h))))
]

pub shares-SameData :
    (b b' : FastBook) (xs : List ℕ)
    → ((a : ℕ) → has a xs ≡ true → SameData (pooled b' a) (pooled b a))
    → shares b' xs ≡ shares b xs
shares-SameData b b' [] h = refl
shares-SameData b b' (x ∷ xs) h =
    omega (
      arith,
      (h x (ground arith)).quantity,
      shares-SameData b b' xs (λ a m. h a (ground (arith, m))),
    )
