-- ===== src/RefBook/Lookup.antt =====
-- What `cancel` and `modify` find at the location of an id, and the shares of a level.
use mathlib.Core.Option.{none-ne-some}
use lob_project.Base.{
  ℕ, ◌+◌, List, [], ◌∷◌, ◌≡◌, refl, ap, ◌∙◌, sym, arith, All, All-map, inl, inr, some, Bool-cases,
  some_inj, ◌==◌, ltb,
}
use lob_project.Types.{Order, Side, buy, sell}
use lob_project.SortedMap.{keys, find, update, erase}
use lob_project.SortedMap.Laws.{Ascending, find_below}
use lob_project.RefBook.{
  RefBook, Levels, OrderLocation, side_levels, level_at, find_order, erase_order,
}
use lob_project.RefBook.Queue.{queue}
use lob_project.RefBook.Trading.{volume}
use lob_project.RefBook.Locate.{HasOrder-find, HasId-find_order}
use lob_project.RefBook.Valid.{IsSide, IsValid}

abbrev pub shares : List Order → ℕ
shares [] = 0
shares (o ∷ os) = o.quantity + shares os

pub All-erase_order :
    (P : Order → Type 0) (id : ℕ) (os : List Order) → All P os → All P (erase_order id os)
unfolding erase_order
All-erase_order P id [] h = tt
All-erase_order P id (o ∷ os) h = elim (Bool-cases (o.id == id)) [
  | inl same ↦ rw same h.1
  | inr other ↦ rw other (h.0, All-erase_order P id os h.1)
]

pub shares-erase_order :
    (id : ℕ) (os : List Order) (o : Order)
    → find_order id os ≡ some o
    → shares (erase_order id os) + o.quantity ≡ shares os
unfolding find_order erase_order
shares-erase_order id [] o h = cc
shares-erase_order id (r ∷ os) o h = elim (Bool-cases (r.id == id)) [
  | inl same ↦
      let e : r ≡ o = some_inj (rw same at h) in
      rw same (omega (arith, ap (λ (x : Order). x.quantity) e))
  | inr other ↦ rw other (omega (arith, shares-erase_order id os o (rw other at h)))
]

shares-at_price :
    (p : ℕ) (os : List Order) (m : Levels)
    → volume (queue ((p, os) ∷ m)) ≡ shares os + volume (queue m)
shares-at_price p [] m = omega arith
shares-at_price p (o ∷ os) m = omega (arith, shares-at_price p os m)

pub volume-update_found :
    (k : ℕ) (os : List Order) (f : List Order → List Order) (m : Levels)
    → Ascending m
    → find k m ≡ some os
    → volume (queue (update k [] f m)) + shares os ≡ volume (queue m) + shares (f os)
unfolding find update
volume-update_found k os f [] a h = cc
volume-update_found k os f ((j, rs) ∷ m) a h = elim (Bool-cases (j == k)) [
  | inl same ↦
      let e : rs ≡ os = some_inj (rw same at h) in
      rw (same, shares-at_price k (f rs) m, shares-at_price j rs m, e) (omega arith)
  | inr other ↦ rw other (elim (Bool-cases (ltb k j)) [
    | inl below ↦ absurd (
        none-ne-some os
          (sym (find_below k m (All-map _ _ (keys m) (λ i lt. ground arith) a.0)) ∙ rw other at h))
    | inr above ↦
        rw (above, shares-at_price j rs m, shares-at_price j rs (update k [] f m))
          (omega (arith, volume-update_found k os f m a.1 (rw other at h)))
  ])
]

pub volume-erase :
    (k : ℕ) (os : List Order) (m : Levels)
    → find k m ≡ some os
    → volume (queue (erase k m)) + shares os ≡ volume (queue m)
unfolding find erase
volume-erase k os [] h = cc
volume-erase k os ((j, rs) ∷ m) h = elim (Bool-cases (j == k)) [
  | inl same ↦
      let e : rs ≡ os = some_inj (rw same at h) in
      rw (same, shares-at_price j rs m, e) (omega arith)
  | inr other ↦
      rw (other, shares-at_price j rs m, shares-at_price j rs (erase k m))
        (omega (arith, volume-erase k os m (rw other at h)))
]

pub level_at-found : (p : ℕ) (os : List Order) (m : Levels) → find p m ≡ some os → level_at m p ≡ os
unfolding level_at
level_at-found p os m h = rw (h, level_at) refl

-- What the code finds at a location of a well-formed book.
pub record Found (b : RefBook) (id : ℕ) (l : OrderLocation) : Type 0 where
  pub os : List Order
  pub o : Order
  pub there : find l.price (side_levels b l.side) ≡ some os
  pub found : find_order id os ≡ some o

pub side_valid : (s : Side) (b : RefBook) → IsValid b → IsSide s (side_levels b s)
side_valid buy b v = v.bids
side_valid sell b v = v.asks

pub locate :
    (b : RefBook) (id : ℕ) (l : OrderLocation) → IsValid b → b.locations id ≡ some l → Found b id l
locate b id l v h =
    let s = side_valid l.side b v in
    let (os, there, has) =
      HasOrder-find l.price id (side_levels b l.side) s.ascending (v.located id l h) in
    let (o, found) = HasId-find_order id os has in
    record { os = os; o = o; there = there; found = found }
