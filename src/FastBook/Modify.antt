-- ===== src/FastBook/Modify.antt =====
-- Changing the quantity of an order of the book.
use lob_project.Base.{
  ℕ, suc, ◌+◌, ◌%◌, ◌<◌, true, false, ltb, ◌==◌, List, [], ◌∷◌, some, ◌≡◌, ◌≢◌, ◌⊎◌, inl, inr, refl,
  ap, arith, Bool-cases, add32, sub32, u32_mod,
}
use lob_project.Types.{Side, order_modified}
use lob_project.OrderTable.{ht_find}
use lob_project.FastBook.{
  FastOrder, FastBook, pooled, level, modify, modify_slot, resize_level, price_to_index,
}
use lob_project.FastBook.Links.{has, without}
use lob_project.FastBook.Unlink.{SameData}
use lob_project.FastBook.Taking.{requantified}
use lob_project.FastBook.Valid.{IsBook, shares}
use lob_project.FastBook.Queues.{price_to_index-entry, shares-without}
use lob_project.FastBook.Cancel.{Unknown, Located, find-cases}
use lob_project.FastBook.Requantified.{requantified-SameData, requantified-IsBook, entry_now}

-- The total of the level as `modify` computes it.
abbrev resized : FastBook → Side → ℕ → ℕ → ℕ → ℕ
resized b s i k quantity =
    (resize_level (level b s i) (pooled b k).quantity quantity).total_quantity

modify_slot-eq :
    (b : FastBook) (id quantity : ℕ) (s : Side) (i k : ℕ)
    → (quantity == 0) ≡ false
    → ht_find b.table id ≡ some (some k)
    → (pooled b k).side ≡ s
    → price_to_index b (pooled b k).price ≡ i
    → modify b id quantity
      ≡ some (record {
        book = requantified b s i k (resized b s i k quantity) quantity;
        events = order_modified id quantity ∷ [];
      })
unfolding modify modify_slot resize_level
modify_slot-eq b id quantity s i k ne e side index =
    rw (modify, ne, e, modify_slot, side, index) refl

-- The wrapping steps of `modify` keep the total a sum modulo 2^32.
resized-eq :
    (b : FastBook) (q : Side → ℕ → List ℕ) (s : Side) (i k quantity : ℕ)
    → IsBook b q
    → i < b.num_levels
    → has k (q s i) ≡ true
    → quantity < u32_mod
    → resized b s i k quantity ≡ (shares b (without k (q s i)) + quantity) % u32_mod
unfolding resize_level add32 sub32
resized-eq b q s i k quantity book i_n m small =
    let old = (book.entry s i k i_n m).small in
    let all = shares-without b k (q s i) m in
    let total = book.total s i i_n in
    elim (Bool-cases (ltb (pooled b k).quantity quantity)) [
      | inl less ↦
          rw (less, total, all)
            (let h : (pooled b k).quantity < quantity = ground arith in
              omega (arith, h, old, small))
      | inr more ↦
          rw (more, total, all)
            (let h : (quantity < suc (pooled b k).quantity) = ground arith in
              omega (arith, h, old, small))
    ]

-- What modifying the id does: an order of the book keeps its place and has the new quantity.
abbrev pub ModifyResult : (b : FastBook) → (Side → ℕ → List ℕ) → ℕ → ℕ → Type 0
ModifyResult b q id quantity =
    ((at : Located b q id) × (b' : FastBook) × (modify b id quantity
        ≡ some (record { book = b'; events = order_modified id quantity ∷ [] }))
      × IsBook b' q
      × ((pooled b' at.slot).quantity ≡ quantity)
      × ((a : ℕ) → at.slot ≢ a → SameData (pooled b' a) (pooled b a)))
    ⊎ (Unknown b q id × (modify b id quantity ≡ some (record { book = b; events = [] })))

-- On a well-formed book modifying an id to a quantity of 1 to 2^32 - 1 ends. Where an order of the
-- queues has the id, that order gets the quantity and keeps its place in its queue, which is
-- reported, all other orders keep their data, and the book is well formed with the same queues.
-- Where none has it, nothing changes and nothing is reported.
pub modify-ModifyResult :
    (b : FastBook) (q : Side → ℕ → List ℕ) (id quantity : ℕ)
    → IsBook b q
    → 0 < quantity
    → quantity < u32_mod
    → ModifyResult b q id quantity
unfolding modify
modify-ModifyResult b q id quantity book pos small =
    let ne : (quantity == 0) ≡ false = ground arith in
    elim (find-cases b q book id) [
      | inr (unknown, e) ↦ inr (unknown, rw (modify, ne, e) refl)
      | inl (at, e) ↦
          let s = at.side in
          let i = at.index in
          let k = at.slot in
          let total = resized b s i k quantity in
          let entry = book.entry s i k at.in_range at.queued in
          let index = price_to_index-entry b q book s i k at.in_range at.queued in
          let sum = resized-eq b q s i k quantity book at.in_range at.queued small in
          inl (
            at,
            requantified b s i k total quantity,
            modify_slot-eq b id quantity s i k ne e entry.side index,
            requantified-IsBook b q book s i k total quantity at.in_range at.queued pos small sum,
            ap (λ (r : FastOrder). r.quantity)
                (entry_now b q book s i k total quantity at.in_range at.queued pos small sum),
            requantified-SameData b q book s i k total quantity at.in_range at.queued pos small sum,
          )
    ]
