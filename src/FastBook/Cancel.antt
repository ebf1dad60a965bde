-- ===== src/FastBook/Cancel.antt =====
-- Cancelling an order of the book, and an id that the book does not have.
use lob_project.Base.{
  ℕ, ◌<◌, true, List, [], ◌∷◌, Option, none, some, ◌≡◌, ◌≢◌, ◌⊎◌, inl, inr, refl, sym,
}
use lob_project.Types.{Side, order_canceled}
use lob_project.OrderTable.{ht_find}
use lob_project.OrderTable.Valid.{Answers}
use lob_project.OrderTable.Find.{ht_find-Answers}
use lob_project.FastBook.{FastBook, pooled, cancel, cancel_slot, remove_order, price_to_index}
use lob_project.FastBook.Links.{has}
use lob_project.FastBook.Unlink.{SameData}
use lob_project.FastBook.Valid.{IsBook}
use lob_project.FastBook.Queues.{price_to_index-entry}
use lob_project.FastBook.Dropping.{dropped, remove_order-dropped}
use lob_project.FastBook.Dropped.{queues_without, data_kept, dropped-IsBook}

-- No order of the queues has the id.
abbrev pub Unknown : FastBook → (Side → ℕ → List ℕ) → ℕ → Type 0
Unknown b q id =
    (s : Side) (i a : ℕ) → i < b.num_levels → has a (q s i) ≡ true → (pooled b a).id ≢ id

-- The order at index `k` of the queue of a level has the id.
pub record Located (b : FastBook) (q : Side → ℕ → List ℕ) (id : ℕ) : Type 0 where
  pub side : Side
  pub index : ℕ
  pub slot : ℕ
  pub in_range : index < b.num_levels
  pub queued : has slot (q side index) ≡ true
  pub at_slot : (pooled b slot).id ≡ id

module _ (b : FastBook) (q : Side → ℕ → List ℕ) (book : IsBook b q) (id : ℕ) where
  pub find-cases :
      ((at : Located b q id) × (ht_find b.table id ≡ some (some at.slot)))
      ⊎ (Unknown b q id × (ht_find b.table id ≡ some none))
  find-cases = go (ht_find b.table id) refl (ht_find-Answers b.table id book.table)
    where
      go :
          (r : Option (Option ℕ))
          → ht_find b.table id ≡ r
          → Answers b.table id r
          → ((at : Located b q id) × (ht_find b.table id ≡ some (some at.slot)))
            ⊎ (Unknown b q id × (ht_find b.table id ≡ some none))
      go none e a = absurd a
      go (some none) e a =
          inr ((λ s i k i_n m same. a k (rw (sym same) ((book.entry s i k i_n m).found))), e)
      go (some (some k)) e a =
          let (s, i, i_n, m, same) = book.mapped id k a in
          inl (
            record { side = s; index = i; slot = k; in_range = i_n; queued = m; at_slot = same },
            e,
          )

  -- What cancelling the id does: an order of the book leaves its queue and its quantity is
  -- reported, the other orders keep their data, and the book stays well formed; an id that the
  -- book does not have changes nothing.
  abbrev pub CancelResult : Type 0
  CancelResult =
      ((at : Located b q id) × (b' : FastBook) × (cancel b id
          ≡ some
              (record { book = b'; events = order_canceled id (pooled b at.slot).quantity 0 ∷ [] }))
        × IsBook b' (queues_without q at.side at.index at.slot)
        × ((a : ℕ) → at.slot ≢ a → SameData (pooled b' a) (pooled b a)))
      ⊎ (Unknown b q id × (cancel b id ≡ some (record { book = b; events = [] })))

cancel-removed :
    (b : FastBook) (id : ℕ) (s : Side) (i k : ℕ) (b' : FastBook)
    → ht_find b.table id ≡ some (some k)
    → (pooled b k).side ≡ s
    → price_to_index b (pooled b k).price ≡ i
    → remove_order b s i k (pooled b k).quantity ≡ some b'
    → cancel b id
      ≡ some (record { book = b'; events = order_canceled id (pooled b k).quantity 0 ∷ [] })
unfolding cancel cancel_slot
cancel-removed b id s i k b' e side index removed =
    rw (cancel, e, cancel_slot, side, index, removed) refl

-- On a well-formed book cancelling an id ends. Where an order of the queues has the id, exactly
-- that order leaves its queue, its quantity is reported, all other orders keep their data, and the
-- book is well formed with the queue that is left. Where none has it, nothing changes and nothing
-- is reported.
pub cancel-CancelResult :
    (b : FastBook) (q : Side → ℕ → List ℕ) (book : IsBook b q) (id : ℕ) → CancelResult b q book id
unfolding cancel
cancel-CancelResult b q book id = elim (find-cases b q book id) [
  | inr (unknown, e) ↦ inr (unknown, rw (cancel, e) refl)
  | inl (at, e) ↦
      let s = at.side in
      let i = at.index in
      let k = at.slot in
      let (t, removed, erased) = remove_order-dropped b q book s i k at.in_range at.queued in
      let entry = book.entry s i k at.in_range at.queued in
      let index = price_to_index-entry b q book s i k at.in_range at.queued in
      inl (
        at,
        dropped b q book s i k at.in_range at.queued t,
        cancel-removed b id s i k _ e entry.side index removed,
        dropped-IsBook b q book s i k at.in_range at.queued t erased,
        data_kept b q book s i k at.in_range at.queued t erased,
      )
]
