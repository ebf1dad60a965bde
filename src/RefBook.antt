-- ===== src/RefBook.antt =====
-- engine/include/ref_book.hpp, engine/src/ref_book.cpp and the dispatch of
-- engine/include/order_book.hpp: the reference book over two `std::map`s of price levels.
-- The hash map `order_id_to_location_` is a function; it is never iterated. A method returns the
-- new book with the calls that it makes on its listener; a null listener would drop them.
pub mod Queue
pub mod Priority
pub mod Queries
mod Examples
pub mod Lookup
pub mod Places
pub mod Cancel
pub mod Modify
pub mod Market
pub mod Adding
pub mod Matching
pub mod Locate
pub mod Valid
pub mod Levels
pub mod Trading
use lob_project.Base.{
  ℕ, zero, suc, Bool, ◌&&◌, not, List, [], ◌∷◌, ◌++◌, reverse, Option, none, some, min, ltb, leb,
  ◌==◌, if◌then◌else◌, is_empty, add32, sub32,
}
use lob_project.Types.{
  Side, buy, sell, limit, market, Order, Event, order_added, order_canceled, order_modified,
  order_filled,
}
use lob_project.SortedMap.{SortedMap, first_key, find, update, erase}

pub record OrderLocation : Type 0 where
  pub price : ℕ
  pub side : Side

abbrev pub Levels : Type 0
Levels = SortedMap (List Order)

abbrev pub Locations : Type 0
Locations = ℕ → Option OrderLocation

pub record RefBook : Type 0 where
  pub buy_orders : Levels
  pub sell_orders : Levels
  pub locations : Locations

abbrev pub empty_book : RefBook
empty_book = record { buy_orders = []; sell_orders = []; locations = λ id. none }

-- `order_id_to_location_[id] = l` and `order_id_to_location_.erase(id)`.
abbrev pub assign : ℕ → Option OrderLocation → Locations → Locations
assign id l locs q = if id == q then l else locs q

-- What a method hands back: the book, the order as it was changed by reference, and the calls.
pub record Outcome : Type 0 where
  pub book : RefBook
  pub order : Order
  pub events : List Event

unfoldable pub best_bid : RefBook → ℕ
best_bid b = first_key (reverse b.buy_orders)

unfoldable pub best_ask : RefBook → ℕ
best_ask b = first_key b.sell_orders

unfoldable pub sum_quantities : ℕ → List Order → ℕ
sum_quantities total [] = total
sum_quantities total (o ∷ os) = sum_quantities (add32 total o.quantity) os

abbrev pub side_levels : RefBook → Side → Levels
side_levels b buy = b.buy_orders
side_levels b sell = b.sell_orders

unfoldable pub total_quantity_at_price : RefBook → ℕ → Side → ℕ
total_quantity_at_price b price side = elim (find price (side_levels b side)) [
  | none ↦ 0
  | some os ↦ sum_quantities 0 os
]

-- `order.quantity -= q`.
unfoldable pub fill : Order → ℕ → Order
fill o q = record o { quantity = sub32 o.quantity q }

-- `order_id_to_location_.erase(order.id)` for an order that has no quantity left.
unfoldable pub release : Order → Locations → Locations
release o locs = if o.quantity == 0 then assign o.id none locs else locs

-- The inner loop of `match_orders`, over the orders of one level.
pub record LevelFills : Type 0 where
  pub incoming : Order
  pub resting : List Order
  pub locations : Locations
  pub events : List Event

unfoldable pub match_level : ℕ → Order → List Order → Locations → LevelFills
match_level price incoming [] locs = record {
  incoming = incoming;
  resting = [];
  locations = locs;
  events = [];
}
match_level price incoming (o ∷ os) locs =
    let quantity = min incoming.quantity o.quantity in
    let o' = fill o quantity in
    let rest = match_level price (fill incoming quantity) os (release o' locs) in
    if incoming.quantity == 0
    then record { incoming = incoming; resting = o ∷ os; locations = locs; events = [] }
    else record rest {
      resting = if o'.quantity == 0 then rest.resting else o' ∷ rest.resting;
      events = order_filled incoming.id o.id price quantity ∷ rest.events;
    }

-- `incoming_order.price >= it->first` for a buy, `<=` for a sell.
abbrev pub crosses : Side → ℕ → ℕ → Bool
crosses buy bound price = leb price bound
crosses sell bound price = leb bound price

-- The outer loop of `match_orders`, over the levels of the other side, best price first.
pub record Fills : Type 0 where
  pub incoming : Order
  pub levels : Levels
  pub locations : Locations
  pub events : List Event

unfoldable pub match_levels : Order → Levels → Locations → Fills
match_levels incoming [] locs = record {
  incoming = incoming;
  levels = [];
  locations = locs;
  events = [];
}
match_levels incoming ((price, os) ∷ levels) locs =
    let here = match_level price incoming os locs in
    let rest = match_levels here.incoming levels here.locations in
    if ltb 0 incoming.quantity && crosses incoming.side incoming.price price
    then record rest {
      levels = if is_empty here.resting then rest.levels else (price, here.resting) ∷ rest.levels;
      events = here.events ++ rest.events;
    }
    else record {
      incoming = incoming;
      levels = (price, os) ∷ levels;
      locations = locs;
      events = [];
    }

-- The asks are met from `begin` and the bids from `rbegin`.
match_side : Side → RefBook → Order → Outcome
match_side buy b incoming =
    let f = match_levels incoming b.sell_orders b.locations in
    record {
      book = record b { sell_orders = f.levels; locations = f.locations };
      order = f.incoming;
      events = f.events;
    }
match_side sell b incoming =
    let f = match_levels incoming (reverse b.buy_orders) b.locations in
    record {
      book = record b { buy_orders = reverse f.levels; locations = f.locations };
      order = f.incoming;
      events = f.events;
    }

unfoldable pub match_orders : RefBook → Order → Outcome
unfolding match_side
match_orders b incoming = match_side incoming.side b incoming

abbrev pub opposite : Side → Side
opposite buy = sell
opposite sell = buy

-- `while (!opposite.empty() && order.quantity > 0) match_orders(order)`, on fuel.
unfoldable pub execute_market_order : ℕ → RefBook → Order → Option Outcome
execute_market_order zero b order = none
execute_market_order (suc fuel) b order =
    let m = match_orders b order in
    let rest = execute_market_order fuel m.book m.order in
    if not (is_empty (side_levels b (opposite order.side))) && ltb 0 order.quantity
    then elim rest [ none ↦ none | some r ↦ some (record r { events = m.events ++ r.events }) ]
    else some (record { book = b; order = order; events = [] })

-- `orders[order.price].push_back(order)` on the order's own side, with its location.
push_back : Side → RefBook → Order → RefBook
push_back buy b o = record b {
  buy_orders = update o.price [] (λ os. os ++ o ∷ []) b.buy_orders;
  locations = assign o.id (some (record { price = o.price; side = o.side })) b.locations;
}
push_back sell b o = record b {
  sell_orders = update o.price [] (λ os. os ++ o ∷ []) b.sell_orders;
  locations = assign o.id (some (record { price = o.price; side = o.side })) b.locations;
}

unfoldable pub rest_order : RefBook → Order → RefBook
unfolding push_back
rest_order b o = push_back o.side b o

-- The test of `add_limit_order`: the order can trade at the best price of the other side.
unfoldable pub marketable : Side → RefBook → ℕ → Bool
marketable buy b price = not (is_empty b.sell_orders) && leb (best_ask b) price
marketable sell b price = not (is_empty b.buy_orders) && leb price (best_bid b)

abbrev pub is_marketable : RefBook → Order → Bool
is_marketable b o = marketable o.side b o.price

unfoldable pub add_limit_order : RefBook → Order → Outcome
add_limit_order b o =
    let m =
      if is_marketable b o then match_orders b o else record { book = b; order = o; events = [] } in
    if is_marketable b o && m.order.quantity == 0 then m else record m {
      book = rest_order m.book m.order;
      events = m.events ++ order_added m.order ∷ [];
    }

-- `Orderbook::add`.
unfoldable pub add : ℕ → RefBook → Order → Option Outcome
add fuel b o = elim o.type [
  | market ↦ execute_market_order fuel b o
  | limit ↦ some (add_limit_order b o)
]

-- The order with the id, and the orders of its level without the first such one.
unfoldable pub find_order : ℕ → List Order → Option Order
find_order id [] = none
find_order id (o ∷ os) = if o.id == id then some o else find_order id os

unfoldable pub erase_order : ℕ → List Order → List Order
erase_order id [] = []
erase_order id (o ∷ os) = if o.id == id then os else o ∷ erase_order id os

unfoldable pub set_quantity : ℕ → ℕ → List Order → List Order
set_quantity id q [] = []
set_quantity id q (o ∷ os) =
    if o.id == id then record o { quantity = q } ∷ os else o ∷ set_quantity id q os

abbrev pub with_side_levels : RefBook → Side → Levels → RefBook
with_side_levels b buy levels = record b { buy_orders = levels }
with_side_levels b sell levels = record b { sell_orders = levels }

abbrev pub with_locations : RefBook → Locations → RefBook
with_locations b locs = record b { locations = locs }

-- `orders_map[price]` where the level may be missing: `operator[]` would make it empty.
unfoldable pub level_at : Levels → ℕ → List Order
level_at levels price = elim (find price levels) [ none ↦ [] | some os ↦ os ]

-- A method that changes the book and may notify the listener.
pub record Step : Type 0 where
  pub book : RefBook
  pub events : List Event

-- `operator[]` on the level, then the loop of `cancel` over it: the first order with the id is
-- erased, and its level too if that leaves it empty.
unfoldable pub cancel_at : RefBook → ℕ → OrderLocation → Step
cancel_at b id loc =
    let levels = update loc.price [] (λ os. os) (side_levels b loc.side) in
    let erased = update loc.price [] (erase_order id) levels in
    elim (find_order id (level_at levels loc.price)) [
      | none ↦ record { book = with_side_levels b loc.side levels; events = [] }
      | some o ↦ record {
        book =
            with_locations
              (with_side_levels b loc.side
                (if is_empty (level_at erased loc.price) then erase loc.price erased else erased))
              (assign id none b.locations);
        events = order_canceled id o.quantity 0 ∷ [];
      }
    ]

unfoldable pub cancel : RefBook → ℕ → Step
cancel b id = elim (b.locations id) [
  | none ↦ record { book = b; events = [] }
  | some loc ↦ cancel_at b id loc
]

-- The loop of `modify` over the level: the first order with the id gets the new quantity.
unfoldable pub modify_at : RefBook → ℕ → ℕ → OrderLocation → Step
modify_at b id quantity loc =
    let levels = update loc.price [] (λ os. os) (side_levels b loc.side) in
    elim (find_order id (level_at levels loc.price)) [
      | none ↦ record { book = with_side_levels b loc.side levels; events = [] }
      | some o ↦ record {
        book = with_side_levels b loc.side (update loc.price [] (set_quantity id quantity) levels);
        events = order_modified id quantity ∷ [];
      }
    ]

unfoldable pub modify : RefBook → ℕ → ℕ → Step
modify b id quantity = elim (b.locations id) [
  | none ↦ record { book = b; events = [] }
  | some loc ↦ modify_at b id quantity loc
]

unfoldable pub empty : RefBook → Bool
empty b = is_empty b.buy_orders && is_empty b.sell_orders
