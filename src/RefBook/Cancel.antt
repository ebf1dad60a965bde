-- ===== src/RefBook/Cancel.antt =====
-- `cancel` on a well-formed book.
use mathlib.Core.Path.{subst}
use mathlib.Core.Option.{none-ne-some}
use lob_project.Base.{
  ℕ, ◌+◌, false, List, [], ◌∷◌, ◌≡◌, refl, ap, ◌∙◌, sym, arith, All, All-map, inl, inr, some, none,
  is_empty, is_empty-eq, Bool-cases, ◌==◌, ==_refl, if◌then◌else◌,
}
use lob_project.Types.{Order, Side, buy, sell, order_canceled}
use lob_project.SortedMap.{keys, find, update, erase}
use lob_project.SortedMap.Laws.{
  find-update, find-erase, update-Ascending, erase-Ascending, All-update_found, All-erase, All-find,
  keys-find, keys-update, keys-erase, erase-update, update_found,
}
use lob_project.RefBook.{
  RefBook, Levels, OrderLocation, assign, side_levels, opposite, with_side_levels, with_locations,
  level_at, Step, find_order, erase_order, cancel_at, cancel,
}
use lob_project.RefBook.Queue.{queue}
use lob_project.RefBook.Trading.{volume}
use lob_project.RefBook.Locate.{HasId-erase_order, HasOrder-erase, HasOrder-update}
use lob_project.RefBook.Valid.{IsSide, IsValid, Located, HasId, HasOrder, IsResting}
use lob_project.RefBook.Lookup.{
  shares, All-erase_order, shares-erase_order, volume-update_found, volume-erase, level_at-found,
  Found, side_valid, locate,
}
use lob_project.RefBook.Places.{find_order-Place, TakenFrom}

-- What `cancel` makes of the levels of a side.
abbrev cancelled : ℕ → ℕ → Levels → Levels
cancelled p id m =
    let erased = update p [] (erase_order id) m in
    if is_empty (level_at erased p) then erase p erased else erased

-- The level `os` of the price holds the order `o`.
module _ (side : Side) (p id : ℕ) (os : List Order) (o : Order) (m : Levels) (s : IsSide side m)
    (there : find p m ≡ some os) (found : find_order id os ≡ some o) where
  level_erased : level_at (update p [] (erase_order id) m) p ≡ erase_order id os
  level_erased =
      level_at-found p (erase_order id os) (update p [] (erase_order id) m)
        (find-update p p [] (erase_order id) m s.ascending ∙ rw (==_refl p, there) refl)

  -- A proof about both ends of `cancel`: the level is dropped, or kept without the order.
  by_level {ℓ} :
      (P : Levels → Type ℓ)
      → (erase_order id os ≡ [] → P (erase p m))
      → (is_empty (erase_order id os) ≡ false → P (update p [] (erase_order id) m))
      → P (cancelled p id m)
  by_level P dropped kept = elim (Bool-cases (is_empty (erase_order id os))) [
    | inl none_left ↦
        rw (level_erased, none_left, erase-update p [] (erase_order id) m s.ascending)
          (dropped (is_empty-eq (erase_order id os) none_left))
    | inr some_left ↦ rw (level_erased, some_left) (kept some_left)
  ]

  cancelled-IsSide : IsSide side (cancelled p id m)
  cancelled-IsSide =
      by_level (IsSide side)
        (λ e. record {
          ascending = erase-Ascending p m s.ascending;
          full = All-erase _ p m s.full;
          resting = All-erase _ p m s.resting;
        })
        (λ left. record {
          ascending = update-Ascending p [] (erase_order id) m s.ascending;
          full = All-update_found _ p [] os (erase_order id) m s.ascending there left s.full;
          resting =
              All-update_found (λ level. All (IsResting side level.0) level.1) p [] os
                (erase_order id) m s.ascending there
                (All-erase_order (IsResting side p) id os
                  (All-find (λ level. All (IsResting side level.0) level.1) p os m there s.resting))
                s.resting;
        })

  keys-cancelled : (P : ℕ → Type 0) → All P (keys m) → All P (keys (cancelled p id m))
  keys-cancelled P h =
      by_level (λ levels. All P (keys levels)) (λ e. keys-erase P p m h)
        (λ left. keys-update P p [] (erase_order id) m (keys-find P p os m there h) h)

  cancelled-HasOrder :
      (price id' : ℕ)
      → (id == id') ≡ false
      → HasOrder price id' m
      → HasOrder price id' (cancelled p id m)
  cancelled-HasOrder price id' ne h =
      by_level (HasOrder price id')
        (λ e.
          HasOrder-erase price id' p os m there
            (λ has. subst (HasId id') e (HasId-erase_order id id' os ne has)) h)
        (λ left.
          HasOrder-update price id' p (erase_order id) m
            (λ e rs has. HasId-erase_order id id' rs ne has) h)

  volume-cancelled : volume (queue (cancelled p id m)) + o.quantity ≡ volume (queue m)
  volume-cancelled =
      let gone = shares-erase_order id os o found in
      by_level (λ levels. volume (queue levels) + o.quantity ≡ volume (queue m))
        (λ e. omega (arith, volume-erase p os m there, gone, ap shares e))
        (λ left. omega (arith, volume-update_found p os (erase_order id) m s.ascending there, gone))

  cancelled-TakenFrom : TakenFrom p id o m (cancelled p id m)
  cancelled-TakenFrom =
      let place = find_order-Place id os o found in
      let left =
        by_level
          (λ levels.
            find p levels
            ≡ (if is_empty (erase_order id os) then none else some (erase_order id os)))
          (λ e. rw e (find-erase p p m s.ascending ∙ rw (==_refl p) refl))
          (λ some_left.
            rw some_left
              (find-update p p [] (erase_order id) m s.ascending ∙ rw (==_refl p, there) refl)) in
      let others : (p' : ℕ) → (p == p') ≡ false → find p' (cancelled p id m) ≡ find p' m = λ p' ne.
        by_level (λ levels. find p' levels ≡ find p' m)
          (λ e. find-erase p p' m s.ascending ∙ rw ne refl)
          (λ some_left. find-update p p' [] (erase_order id) m s.ascending ∙ rw ne refl) in
      record {
        pre = place.pre;
        post = place.post;
        level = there ∙ ap (λ x. some x) place.whole;
        own = place.own;
        earliest = place.earliest;
        left = rw place.erased at left;
        others = others;
      }

-- Writing the levels of one side back.
with_cancelled : RefBook → ℕ → OrderLocation → RefBook
with_cancelled b id l =
    with_locations (with_side_levels b l.side (cancelled l.price id (side_levels b l.side)))
      (assign id none b.locations)

cancel-with_cancelled :
    (b : RefBook) (id : ℕ) (l : OrderLocation) (v : IsValid b)
    → b.locations id ≡ some l
    → (f : Found b id l)
    → cancel b id
      ≡ record { book = with_cancelled b id l; events = order_canceled id f.o.quantity 0 ∷ [] }
unfolding cancel cancel_at with_cancelled
cancel-with_cancelled b id l v h f =
    let s = side_valid l.side b v in
    let same = update_found l.price [] f.os (side_levels b l.side) s.ascending f.there in
    rw (h, cancel)
      (rw (same, level_at-found l.price f.os (side_levels b l.side) f.there, f.found, cancel_at)
        (rw same refl))

cancelled-Located :
    (b b' : RefBook) (id : ℕ)
    → Located b
    → ((s : Side) (p id' : ℕ)
        → (id == id') ≡ false
        → HasOrder p id' (side_levels b s)
        → HasOrder p id' (side_levels b' s))
    → (id' : ℕ) (l : OrderLocation) → assign id none b.locations id' ≡ some l
    → HasOrder l.price id' (side_levels b' l.side)
cancelled-Located b b' id loc keep id' l h = elim (Bool-cases (id == id')) [
  | inl same ↦ absurd (none-ne-some l (rw same at h))
  | inr other ↦ keep l.side l.price id' other (loc id' l (rw other at h))
]

module _ (b : RefBook) (v : IsValid b) (id p : ℕ) (os : List Order) (o : Order) where
  cancelled_buy :
      find p b.buy_orders ≡ some os
      → find_order id os ≡ some o
      → IsValid (with_cancelled b id (record { price = p; side = buy }))
  unfolding with_cancelled
  cancelled_buy there found = record {
    bids = cancelled-IsSide buy p id os o b.buy_orders v.bids there found;
    asks = v.asks;
    uncrossed = keys-cancelled buy p id os o b.buy_orders v.bids there found _ v.uncrossed;
    located =
        cancelled-Located b (with_cancelled b id (record { price = p; side = buy })) id v.located
          keep;
  }
    where
      keep :
          (s : Side) (q id' : ℕ)
          → (id == id') ≡ false
          → HasOrder q id' (side_levels b s)
          → HasOrder q id' (side_levels (record b { buy_orders = cancelled p id b.buy_orders }) s)
      keep buy q id' ne h =
          cancelled-HasOrder buy p id os o b.buy_orders v.bids there found q id' ne h
      keep sell q id' ne h = h

  cancelled_sell :
      find p b.sell_orders ≡ some os
      → find_order id os ≡ some o
      → IsValid (with_cancelled b id (record { price = p; side = sell }))
  unfolding with_cancelled
  cancelled_sell there found = record {
    bids = v.bids;
    asks = cancelled-IsSide sell p id os o b.sell_orders v.asks there found;
    uncrossed =
        All-map _ _ (keys b.buy_orders)
          (λ bid h. keys-cancelled sell p id os o b.sell_orders v.asks there found _ h) v.uncrossed;
    located =
        cancelled-Located b (with_cancelled b id (record { price = p; side = sell })) id v.located
          keep;
  }
    where
      keep :
          (s : Side) (q id' : ℕ)
          → (id == id') ≡ false
          → HasOrder q id' (side_levels b s)
          → HasOrder q id' (side_levels (record b { sell_orders = cancelled p id b.sell_orders }) s)
      keep sell q id' ne h =
          cancelled-HasOrder sell p id os o b.sell_orders v.asks there found q id' ne h
      keep buy q id' ne h = h

  cancelled_side :
      (s : Side)
      → find p (side_levels b s) ≡ some os
      → find_order id os ≡ some o
      → IsValid (with_cancelled b id (record { price = p; side = s }))
  cancelled_side buy = cancelled_buy
  cancelled_side sell = cancelled_sell

  cancelled_volume :
      (s : Side)
      → find p (side_levels b s) ≡ some os
      → find_order id os ≡ some o
      → let b' = with_cancelled b id (record { price = p; side = s }) in
        TakenFrom p id o (side_levels b s) (side_levels b' s)
        × (volume (queue (side_levels b' s)) + o.quantity ≡ volume (queue (side_levels b s)))
        × (side_levels b' (opposite s) ≡ side_levels b (opposite s))
        × (b'.locations ≡ assign id none b.locations)
  unfolding with_cancelled
  cancelled_volume buy there found = (
    cancelled-TakenFrom buy p id os o b.buy_orders v.bids there found,
    volume-cancelled buy p id os o b.buy_orders v.bids there found,
    refl,
    refl,
  )
  cancelled_volume sell there found = (
    cancelled-TakenFrom sell p id os o b.sell_orders v.asks there found,
    volume-cancelled sell p id os o b.sell_orders v.asks there found,
    refl,
    refl,
  )

-- The order under the id has been cancelled.
pub record Cancelled (b : RefBook) (id : ℕ) (l : OrderLocation) (after : Step) : Type 0 where
  pub valid : IsValid after.book
  pub order : Order
  pub told : after.events ≡ order_canceled id order.quantity 0 ∷ []
  pub removed : TakenFrom l.price id order (side_levels b l.side) (side_levels after.book l.side)
  pub shares :
      volume (queue (side_levels after.book l.side)) + order.quantity
      ≡ volume (queue (side_levels b l.side))
  pub other_side : side_levels after.book (opposite l.side) ≡ side_levels b (opposite l.side)
  pub forgotten : after.book.locations ≡ assign id none b.locations

-- Cancelling an id that has a location finds an order with the id in a well-formed book. The first
-- such order of the location's price leaves its level and the others at the price stay in their
-- order; the level goes with its last order; every other price and the other side hold what they
-- did; the listener is told the order's whole quantity, which is what the shares on its side fall
-- by; the location and no other is forgotten; and the book stays well formed.
pub cancel-Cancelled :
    (b : RefBook) (id : ℕ) (l : OrderLocation)
    → IsValid b
    → b.locations id ≡ some l
    → Cancelled b id l (cancel b id)
cancel-Cancelled b id l v h =
    let f = locate b id l v h in
    let moved = cancelled_volume b v id l.price f.os f.o l.side f.there f.found in
    subst (Cancelled b id l) (sym (cancel-with_cancelled b id l v h f)) (record {
      valid = cancelled_side b v id l.price f.os f.o l.side f.there f.found;
      order = f.o;
      told = refl;
      removed = moved.0;
      shares = moved.1;
      other_side = moved.2;
      forgotten = moved.3;
    })
