-- ===== src/RefBook/Modify.antt =====
-- `modify` on a well-formed book.
use mathlib.Core.Path.{subst}
use lob_project.Base.{
  ℕ, ◌+◌, ◌<◌, false, List, [], ◌∷◌, ◌≡◌, refl, ap, sym, arith, All, All-map, inl, inr, some,
  is_empty, Bool-cases, some_inj, ◌==◌, ==_refl, ◌∙◌, u32_mod,
}
use lob_project.Types.{Order, Side, buy, sell, order_modified}
use lob_project.SortedMap.{keys, find, update}
use lob_project.SortedMap.Laws.{
  find-update, update-Ascending, All-update_found, All-find, keys-find, keys-update, update_found,
}
use lob_project.RefBook.{
  RefBook, Levels, OrderLocation, side_levels, opposite, with_side_levels, Step, find_order,
  set_quantity, modify_at, modify,
}
use lob_project.RefBook.Queue.{queue}
use lob_project.RefBook.Trading.{volume}
use lob_project.RefBook.Locate.{HasId-set_quantity, HasOrder-update}
use lob_project.RefBook.Valid.{IsSide, IsValid, HasOrder, IsResting}
use lob_project.RefBook.Lookup.{
  shares, volume-update_found, level_at-found, Found, side_valid, locate,
}
use lob_project.RefBook.Places.{find_order-Place, ChangedIn}

-- `modify` of an order that rests: only its quantity changes.
with_quantity : RefBook → ℕ → ℕ → OrderLocation → RefBook
with_quantity b id q l =
    with_side_levels b l.side (update l.price [] (set_quantity id q) (side_levels b l.side))

modify-with_quantity :
    (b : RefBook) (id q : ℕ) (l : OrderLocation) (v : IsValid b)
    → b.locations id ≡ some l
    → (f : Found b id l)
    → modify b id q ≡ record { book = with_quantity b id q l; events = order_modified id q ∷ [] }
unfolding modify modify_at with_quantity
modify-with_quantity b id q l v h f =
    let s = side_valid l.side b v in
    let same = update_found l.price [] f.os (side_levels b l.side) s.ascending f.there in
    rw (h, modify)
      (rw (same, level_at-found l.price f.os (side_levels b l.side) f.there, f.found, modify_at)
        (rw same refl))

All-set_quantity :
    (side : Side) (p id q : ℕ) (os : List Order)
    → q < u32_mod
    → All (IsResting side p) os
    → All (IsResting side p) (set_quantity id q os)
unfolding set_quantity
All-set_quantity side p id q [] w h = tt
All-set_quantity side p id q (o ∷ os) w h = elim (Bool-cases (o.id == id)) [
  | inl same ↦ rw same ((w, h.0.1, h.0.2, h.0.3), h.1)
  | inr other ↦ rw other (h.0, All-set_quantity side p id q os w h.1)
]

set_quantity_full :
    (id q : ℕ) (os : List Order) → is_empty os ≡ false → is_empty (set_quantity id q os) ≡ false
unfolding set_quantity
set_quantity_full id q [] h = h
set_quantity_full id q (o ∷ os) h = elim (Bool-cases (o.id == id)) [
  | inl same ↦ rw same refl
  | inr other ↦ rw other refl
]

shares-set_quantity :
    (id q : ℕ) (os : List Order) (o : Order)
    → find_order id os ≡ some o
    → shares (set_quantity id q os) + o.quantity ≡ shares os + q
unfolding find_order set_quantity
shares-set_quantity id q [] o h = cc
shares-set_quantity id q (r ∷ os) o h = elim (Bool-cases (r.id == id)) [
  | inl same ↦
      let e : r ≡ o = some_inj (rw same at h) in
      rw same (omega (arith, ap (λ (x : Order). x.quantity) e))
  | inr other ↦ rw other (omega (arith, shares-set_quantity id q os o (rw other at h)))
]

module _ (side : Side) (p id q : ℕ) (os : List Order) (m : Levels) (s : IsSide side m)
    (there : find p m ≡ some os) (w : q < u32_mod) where
  modified : Levels
  modified = update p [] (set_quantity id q) m

  modified-IsSide : IsSide side modified
  unfolding modified
  modified-IsSide = record {
    ascending = update-Ascending p [] (set_quantity id q) m s.ascending;
    full =
        All-update_found _ p [] os (set_quantity id q) m s.ascending there
          (set_quantity_full id q os
            (All-find (λ level. is_empty level.1 ≡ false) p os m there s.full))
          s.full;
    resting =
        All-update_found (λ level. All (IsResting side level.0) level.1) p [] os (set_quantity id q)
          m s.ascending there
          (All-set_quantity side p id q os w
            (All-find (λ level. All (IsResting side level.0) level.1) p os m there s.resting))
          s.resting;
  }

  keys-modified : (P : ℕ → Type 0) → All P (keys m) → All P (keys modified)
  unfolding modified
  keys-modified P h = keys-update P p [] (set_quantity id q) m (keys-find P p os m there h) h

  modified-HasOrder : (price id' : ℕ) → HasOrder price id' m → HasOrder price id' modified
  unfolding modified
  modified-HasOrder price id' h =
      HasOrder-update price id' p (set_quantity id q) m
        (λ e rs has. HasId-set_quantity id id' q rs has) h

  volume-modified :
      (o : Order)
      → find_order id os ≡ some o
      → volume (queue modified) + o.quantity ≡ volume (queue m) + q
  unfolding modified
  volume-modified o found = omega (
    arith,
    volume-update_found p os (set_quantity id q) m s.ascending there,
    shares-set_quantity id q os o found,
  )

  modified-ChangedIn : (o : Order) → find_order id os ≡ some o → ChangedIn p id q o m modified
  unfolding modified
  modified-ChangedIn o found =
      let place = find_order-Place id os o found in
      record {
        pre = place.pre;
        post = place.post;
        level = there ∙ ap (λ x. some x) place.whole;
        own = place.own;
        earliest = place.earliest;
        left =
            find-update p p [] (set_quantity id q) m s.ascending
            ∙ rw (==_refl p, there) (ap (λ x. some x) (place.changed q));
        others = λ p' ne. find-update p p' [] (set_quantity id q) m s.ascending ∙ rw ne refl;
      }

module _ (b : RefBook) (v : IsValid b) (id p q : ℕ) (os : List Order) (w : q < u32_mod) where
  abbrev after : Side → RefBook
  after s = with_quantity b id q (record { price = p; side = s })

  modified_buy : find p b.buy_orders ≡ some os → IsValid (after buy)
  unfolding with_quantity modified
  modified_buy there = record {
    bids = modified-IsSide buy p id q os b.buy_orders v.bids there w;
    asks = v.asks;
    uncrossed = keys-modified buy p id q os b.buy_orders v.bids there w _ v.uncrossed;
    located = λ id' l h. keep l.side l.price id' (v.located id' l h);
  }
    where
      keep :
          (s : Side) (price id' : ℕ)
          → HasOrder price id' (side_levels b s)
          → HasOrder price id' (side_levels (after buy) s)
      keep buy price id' h = modified-HasOrder buy p id q os b.buy_orders v.bids there w price id' h
      keep sell price id' h = h

  modified_sell : find p b.sell_orders ≡ some os → IsValid (after sell)
  unfolding with_quantity modified
  modified_sell there = record {
    bids = v.bids;
    asks = modified-IsSide sell p id q os b.sell_orders v.asks there w;
    uncrossed =
        All-map _ _ (keys b.buy_orders)
          (λ bid h. keys-modified sell p id q os b.sell_orders v.asks there w _ h) v.uncrossed;
    located = λ id' l h. keep l.side l.price id' (v.located id' l h);
  }
    where
      keep :
          (s : Side) (price id' : ℕ)
          → HasOrder price id' (side_levels b s)
          → HasOrder price id' (side_levels (after sell) s)
      keep sell price id' h =
          modified-HasOrder sell p id q os b.sell_orders v.asks there w price id' h
      keep buy price id' h = h

  modified_side : (s : Side) → find p (side_levels b s) ≡ some os → IsValid (after s)
  modified_side buy = modified_buy
  modified_side sell = modified_sell

  modified_volume :
      (s : Side) (o : Order)
      → find p (side_levels b s) ≡ some os
      → find_order id os ≡ some o
      → ChangedIn p id q o (side_levels b s) (side_levels (after s) s)
        × (volume (queue (side_levels (after s) s)) + o.quantity
            ≡ volume (queue (side_levels b s)) + q)
        × (side_levels (after s) (opposite s) ≡ side_levels b (opposite s))
        × ((after s).locations ≡ b.locations)
  unfolding with_quantity modified
  modified_volume buy o there found = (
    modified-ChangedIn buy p id q os b.buy_orders v.bids there w o found,
    volume-modified buy p id q os b.buy_orders v.bids there w o found,
    refl,
    refl,
  )
  modified_volume sell o there found = (
    modified-ChangedIn sell p id q os b.sell_orders v.asks there w o found,
    volume-modified sell p id q os b.sell_orders v.asks there w o found,
    refl,
    refl,
  )

-- The order under the id has another quantity.
pub record Modified (b : RefBook) (id q : ℕ) (l : OrderLocation) (after : Step) : Type 0 where
  pub valid : IsValid after.book
  pub old : Order
  pub told : after.events ≡ order_modified id q ∷ []
  pub changed : ChangedIn l.price id q old (side_levels b l.side) (side_levels after.book l.side)
  pub shares :
      volume (queue (side_levels after.book l.side)) + old.quantity
      ≡ volume (queue (side_levels b l.side)) + q
  pub other_side : side_levels after.book (opposite l.side) ≡ side_levels b (opposite l.side)
  pub same_locations : after.book.locations ≡ b.locations

-- Modifying an id that has a location, to any quantity of 32 bits, finds an order with the id in a
-- well-formed book. The first such order of the location's price gets the quantity, is as it was in
-- all else and keeps its place between the others of its level; every other price, the other side
-- and all locations are as they were; the shares on its side change by the difference of the
-- quantities; the listener is told the new quantity; and the book stays well formed.
pub modify-Modified :
    (b : RefBook) (id q : ℕ) (l : OrderLocation)
    → IsValid b
    → q < u32_mod
    → b.locations id ≡ some l
    → Modified b id q l (modify b id q)
modify-Modified b id q l v w h =
    let f = locate b id l v h in
    let moved = modified_volume b v id l.price q f.os w l.side f.o f.there f.found in
    subst (Modified b id q l) (sym (modify-with_quantity b id q l v h f)) (record {
      valid = modified_side b v id l.price q f.os w l.side f.there;
      old = f.o;
      told = refl;
      changed = moved.0;
      shares = moved.1;
      other_side = moved.2;
      same_locations = moved.3;
    })
