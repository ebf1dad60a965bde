-- ===== src/RefBook/Adding.antt =====
-- `add_limit_order` and `execute_market_order` on a well-formed book.
use mathlib.Core.Path.{subst}
use mathlib.Core.List.{reverse-reverse}
use lob_project.Base.{
  ℕ, ◌+◌, ◌<◌, false, List, [], ◌∷◌, ◌++◌, ◌≡◌, refl, sym, reverse, arith, All, All-map, All-append,
  All-zip, inl, inr, Pairwise, some, is_empty, is_empty-eq, u64_mod, Bool-cases, some_inj, ◌==◌,
  ==_iff, leb,
}
use lob_project.Types.{
  Order, Side, buy, sell, Event, order_added, order_canceled, order_modified, order_filled,
}
use lob_project.SortedMap.{keys, update, first_key}
use lob_project.SortedMap.Laws.{update-Ascending, All-update, keys-update}
use lob_project.RefBook.{
  RefBook, Levels, OrderLocation, assign, crosses, match_orders, side_levels, opposite, Outcome,
  push_back, rest_order, marketable, is_marketable, best_ask, best_bid, add_limit_order,
}
use lob_project.RefBook.Levels.{All-keys-reverse, volume-queue_update, Pairwise-keys-reverse}
use lob_project.RefBook.Queue.{queue}
use lob_project.RefBook.Trading.{IsWord, traded, volume}
use lob_project.RefBook.Locate.{HasId-append, HasOrder-update, HasOrder-update_new}
use lob_project.RefBook.Valid.{IsSide, IsValid, Located, HasOrder, IsResting}
use lob_project.RefBook.Matching.{RefusesLevels, Matched, match_orders-Matched}

-- `push_back` at a price of a side.
module _ (o : Order) where
  snoc : List Order → List Order
  snoc os = os ++ o ∷ []

  snoc_full : (os : List Order) → is_empty (snoc os) ≡ false
  unfolding snoc
  snoc_full [] = refl
  snoc_full (r ∷ os) = refl

  snoc-IsSide :
      (side : Side) (levels : Levels)
      → IsResting side o.price o
      → IsSide side levels
      → IsSide side (update o.price [] (λ os. os ++ o ∷ []) levels)
  unfolding snoc
  snoc-IsSide side levels r s = record {
    ascending = update-Ascending o.price [] snoc levels s.ascending;
    full = All-update _ o.price [] snoc levels refl (λ os h. snoc_full os) s.full;
    resting =
        All-update (λ level. All (IsResting side level.0) level.1) o.price [] snoc levels (r, tt)
          (λ os h. All-append (IsResting side o.price) os (o ∷ []) h (r, tt)) s.resting;
  }

  assigned_old :
      (b b' : RefBook)
      → Located b
      → ((s : Side) (p id : ℕ) → HasOrder p id (side_levels b s) → HasOrder p id (side_levels b' s))
      → HasOrder o.price o.id (side_levels b' o.side)
      → (id : ℕ) (l : OrderLocation)
      → assign o.id (some (record { price = o.price; side = o.side })) b.locations id ≡ some l
      → HasOrder l.price id (side_levels b' l.side)
  assigned_old b b' loc old new id l h = elim (Bool-cases (o.id == id)) [
    | inl same ↦
        let e : record { price = o.price; side = o.side } ≡ l = some_inj (rw same at h) in
        subst (λ (l : OrderLocation). HasOrder l.price id (side_levels b' l.side)) e
          (subst (λ i. HasOrder o.price i (side_levels b' o.side)) ((==_iff o.id id).0 same) new)
    | inr other ↦ old l.side l.price id (loc id l (rw other at h))
  ]

  snoc_located_new :
      (levels : Levels) → HasOrder o.price o.id (update o.price [] (λ os. os ++ o ∷ []) levels)
  snoc_located_new levels =
      HasOrder-update_new o.id o.price (λ os. os ++ o ∷ []) levels
        (λ os. HasId-append o.id os (o ∷ []) (inr (inl refl)))

  snoc_located_old :
      (levels : Levels) (p id : ℕ)
      → HasOrder p id levels
      → HasOrder p id (update o.price [] (λ os. os ++ o ∷ []) levels)
  snoc_located_old levels p id =
      HasOrder-update p id o.price (λ os. os ++ o ∷ []) levels
        (λ e os h. HasId-append id os (o ∷ []) (inl h))

refused_asks :
    (o : Order) (asks : Levels)
    → o.side ≡ buy
    → RefusesLevels o asks
    → All (λ ask. o.price < ask) (keys asks)
refused_asks o asks e h =
    All-map _ _ (keys asks) (λ p c. above p (subst (λ s. crosses s o.price p ≡ false) e c)) h
  where
    above : (p : ℕ) → leb p o.price ≡ false → o.price < p
    above p c = ground arith

refused_bids :
    (o : Order) (bids : Levels)
    → o.side ≡ sell
    → RefusesLevels o bids
    → All (λ bid. bid < o.price) (keys bids)
refused_bids o bids e h =
    All-map _ _ (keys bids) (λ p c. below p (subst (λ s. crosses s o.price p ≡ false) e c)) h
  where
    below : (p : ℕ) → leb o.price p ≡ false → p < o.price
    below p c = ground arith

rest_buy :
    (b : RefBook) (o : Order)
    → IsValid b
    → IsWord o
    → o.price < u64_mod
    → o.side ≡ buy
    → RefusesLevels o b.sell_orders
    → IsValid (push_back buy b o)
unfolding push_back
rest_buy b o v w lt e refuses = record {
  bids = snoc-IsSide o buy b.buy_orders (w, refl, e, lt) v.bids;
  asks = v.asks;
  uncrossed =
      keys-update _ o.price [] (λ os. os ++ o ∷ []) b.buy_orders
        (refused_asks o b.sell_orders e refuses) v.uncrossed;
  located = assigned_old o b (push_back buy b o) v.located old (
      subst (λ s. HasOrder o.price o.id (side_levels (push_back buy b o) s)) (sym e)
        (snoc_located_new o b.buy_orders));
}
  where
    old :
        (s : Side) (p id : ℕ)
        → HasOrder p id (side_levels b s)
        → HasOrder p id (side_levels (push_back buy b o) s)
    old buy p id h = snoc_located_old o b.buy_orders p id h
    old sell p id h = h

rest_sell :
    (b : RefBook) (o : Order)
    → IsValid b
    → IsWord o
    → o.price < u64_mod
    → o.side ≡ sell
    → RefusesLevels o b.buy_orders
    → IsValid (push_back sell b o)
unfolding push_back
rest_sell b o v w lt e refuses = record {
  bids = v.bids;
  asks = snoc-IsSide o sell b.sell_orders (w, refl, e, lt) v.asks;
  uncrossed =
      All-zip _ _ _ (keys b.buy_orders)
        (λ bid below h. keys-update _ o.price [] (λ os. os ++ o ∷ []) b.sell_orders below h)
        (refused_bids o b.buy_orders e refuses) v.uncrossed;
  located = assigned_old o b (push_back sell b o) v.located old (
      subst (λ s. HasOrder o.price o.id (side_levels (push_back sell b o) s)) (sym e)
        (snoc_located_new o b.sell_orders));
}
  where
    old :
        (s : Side) (p id : ℕ)
        → HasOrder p id (side_levels b s)
        → HasOrder p id (side_levels (push_back sell b o) s)
    old buy p id h = h
    old sell p id h = snoc_located_old o b.sell_orders p id h

rest_side :
    (s : Side) (b : RefBook) (o : Order)
    → IsValid b
    → IsWord o
    → o.price < u64_mod
    → o.side ≡ s
    → RefusesLevels o (side_levels b (opposite s))
    → IsValid (push_back s b o)
rest_side buy b o = rest_buy b o
rest_side sell b o = rest_sell b o

pub rest_order-IsValid :
    (b : RefBook) (o : Order)
    → IsValid b
    → IsWord o
    → o.price < u64_mod
    → RefusesLevels o (side_levels b (opposite o.side))
    → IsValid (rest_order b o)
unfolding rest_order
rest_order-IsValid b o v w lt = rest_side o.side b o v w lt refl

dear_asks :
    (asks : Levels) (price : ℕ)
    → Pairwise ◌<◌ (keys asks)
    → leb (first_key asks) price ≡ false
    → All (λ p. leb p price ≡ false) (keys asks)
dear_asks [] price a h = tt
dear_asks ((p, os) ∷ asks) price a h = (h, All-map _ _ (keys asks) (λ q lt. ground arith) a.0)

low_bids :
    (bids : Levels) (price : ℕ)
    → Pairwise (λ x y. y < x) (keys bids)
    → leb price (first_key bids) ≡ false
    → All (λ p. leb price p ≡ false) (keys bids)
low_bids [] price a h = tt
low_bids ((p, os) ∷ bids) price a h = (h, All-map _ _ (keys bids) (λ q lt. ground arith) a.0)

-- The test of `add_limit_order` fails only if the order accepts no price of the other side.
unmarketable :
    (s : Side) (b : RefBook) (price : ℕ)
    → IsValid b
    → marketable s b price ≡ false
    → All (λ p. crosses s price p ≡ false) (keys (side_levels b (opposite s)))
unfolding marketable best_ask best_bid
unmarketable buy b price v h = elim (Bool-cases (is_empty b.sell_orders)) [
  | inl none_left ↦ rw (is_empty-eq b.sell_orders none_left) tt
  | inr some_left ↦ dear_asks b.sell_orders price v.asks.ascending (rw some_left at h)
]
unmarketable sell b price v h = elim (Bool-cases (is_empty b.buy_orders)) [
  | inl none_left ↦ rw (is_empty-eq b.buy_orders none_left) tt
  | inr some_left ↦
      subst (λ m. All (λ p. leb price p ≡ false) (keys m)) (reverse-reverse b.buy_orders)
        (All-keys-reverse _ (reverse b.buy_orders) (
          low_bids (reverse b.buy_orders) price
            (Pairwise-keys-reverse ◌<◌ b.buy_orders v.bids.ascending) (rw some_left at h)))
]

traded-append : (es fs : List Event) → traded (es ++ fs) ≡ traded es + traded fs
traded-append [] fs = omega arith
traded-append (order_added o ∷ es) fs = traded-append es fs
traded-append (order_canceled a b c ∷ es) fs = traded-append es fs
traded-append (order_modified a b ∷ es) fs = traded-append es fs
traded-append (order_filled a b p q ∷ es) fs = omega (arith, traded-append es fs)

-- What a limit order does to a well-formed book: it stays well formed, so that no bid reaches an
-- ask, and every share of the order either trades with the other side or rests on its own.
pub record Added (s : Side) (b : RefBook) (o : Order) (out : Outcome) : Type 0 where
  pub valid : IsValid out.book
  pub taken :
      traded out.events + volume (queue (side_levels out.book (opposite s)))
      ≡ volume (queue (side_levels b (opposite s)))
  pub placed :
      traded out.events + volume (queue (side_levels out.book s))
      ≡ o.quantity + volume (queue (side_levels b s))

placed_volume :
    (s : Side) (b : RefBook) (o : Order)
    → (volume (queue (side_levels (push_back s b o) s))
        ≡ volume (queue (side_levels b s)) + o.quantity)
      × (side_levels (push_back s b o) (opposite s) ≡ side_levels b (opposite s))
unfolding push_back
placed_volume buy b o = (volume-queue_update o o.price b.buy_orders, refl)
placed_volume sell b o = (volume-queue_update o o.price b.sell_orders, refl)

abbrev rested : Outcome → Order → Outcome
rested m r = record m { book = rest_order m.book r; events = m.events ++ order_added r ∷ [] }

-- The end of `add_limit_order`, for an order that has been matched.
rest-Matched :
    (b : RefBook) (o : Order) (m : Outcome)
    → Matched o.side b o m
    → IsWord o
    → o.price < u64_mod
    → RefusesLevels o (side_levels m.book (opposite o.side))
    → Added o.side b o (rested m m.order)
unfolding rest_order
rest-Matched b o m done w lt refuses =
    let r : Order = record o { quantity = m.order.quantity } in
    let volumes = placed_volume o.side m.book r in
    subst (λ r. Added o.side b o (rested m r)) (sym done.keeps)
      (record {
        valid = rest_order-IsValid m.book r done.valid (omega (arith, done.less)) lt refuses;
        taken =
            rw (traded-append m.events (order_added r ∷ []), volumes.1)
              (omega (arith, done.volume));
        placed =
            rw (traded-append m.events (order_added r ∷ []), volumes.0, done.own)
              (omega (arith, done.less));
      })

-- An order that is not matched at all.
unmatched :
    (b : RefBook) (o : Order)
    → IsValid b
    → RefusesLevels o (side_levels b (opposite o.side))
    → Matched o.side b o (record { book = b; order = o; events = [] })
unmatched b o v refuses = record {
  valid = v;
  keeps = refl;
  less = omega arith;
  volume = omega arith;
  own = refl;
  stops = inr refuses;
}

-- Adding a limit order to a well-formed book keeps it well formed: both sides stay sorted with no
-- empty level, every bid stays below every ask and every location leads to an order. What trades
-- leaves the other side, and with what comes to rest on the order's own side it makes up the
-- order's quantity.
pub add_limit_order-Added :
    (b : RefBook) (o : Order)
    → IsValid b
    → IsWord o
    → o.price < u64_mod
    → Added o.side b o (add_limit_order b o)
unfolding add_limit_order
add_limit_order-Added b o v w lt = elim (Bool-cases (is_marketable b o)) [
  | inr no_trade ↦
      let refuses = unmarketable o.side b o.price v no_trade in
      rw no_trade (rest-Matched b o _ (unmatched b o v refuses) w lt refuses)
  | inl trade ↦
      let done = match_orders-Matched b o v w in
      let m = match_orders b o in
      rw trade (elim (Bool-cases (m.order.quantity == 0)) [
        | inl filled ↦
            let zero : m.order.quantity ≡ 0 = ground arith in
            rw filled (record {
              valid = done.valid;
              taken = done.volume;
              placed = rw done.own (omega (arith, done.less));
            })
        | inr left ↦ rw left (elim done.stops [
          | inl zero ↦ absurd (ground arith)
          | inr refuses ↦ rest-Matched b o m done w lt refuses
        ])
      ])
]
