-- ===== src/FastBook/Adding.antt =====
-- engine/src/fast_book.cpp: matching an incoming order and resting what is left of it.
use lob_project.Base.{
  ℕ, zero, suc, ◌+◌, ◌%◌, u64_mod, Bool, true, false, not, ◌&&◌, ◌||◌, List, [], ◌∷◌, ◌++◌, Option,
  none, some, ltb, ◌==◌, min, if◌then◌else◌, add32, sub32, length,
}
use lob_project.Types.{
  Side, buy, sell, limit, market, Order, Event, order_added, order_canceled, order_filled,
}
use lob_project.Bitset.{
  set_bit, any, find_first_set_bit, find_last_set_bit, find_next_set_bit, find_prev_set_bit,
}
use lob_project.OrderTable.{ht_insert}
use lob_project.FastBook.{
  FastOrder, PriceLevel, FastBook, Step, pooled, level, put_order, put_level, put_bits, noted,
  price_to_index, remove_order,
}

-- The book, the incoming order as it was changed, and the calls.
pub record Match : Type 0 where
  pub book : FastBook
  pub order : Order
  pub events : List Event

abbrev pub before_events : List Event → Option Match → Option Match
before_events es none = none
before_events es (some m) = some (record m { events = es ++ m.events })

abbrev pub opposite : Side → Side
opposite buy = sell
opposite sell = buy

-- The inner loop of `match_orders_impl`, over the orders of a level from `current` on.
unfoldable pub match_level : ℕ → FastBook → Order → ℕ → Option ℕ → Option Match
match_level zero b order index current = none
match_level (suc fuel) b order index none = some (record { book = b; order = order; events = [] })
match_level (suc fuel) b order index (some slot) =
    let o = pooled b slot in
    let quantity = min order.quantity o.quantity in
    let order' : Order = record order { quantity = sub32 order.quantity quantity } in
    let rest = λ (b' : FastBook).
      before_events (order_filled order.id o.id ((index + b.min_price) % u64_mod) quantity ∷ [])
        (match_level fuel b' order' index o.next) in
    elim (ltb 0 order.quantity) [
      | false ↦ some (record { book = b; order = order; events = [] })
      | true ↦ elim (remove_order b (opposite order.side) index slot quantity) [
        | none ↦ none
        | some b' ↦ rest b'
      ]
    ]

-- The test of a limit order's price against a level.
unfoldable pub out_of_reach : FastBook → Order → ℕ → Bool
out_of_reach b order index = elim order.type [
  | market ↦ false
  | limit ↦ elim order.side [
    | buy ↦ ltb (price_to_index b order.price) index
    | sell ↦ ltb index (price_to_index b order.price)
  ]
]

unfoldable pub best_index : FastBook → Side → ℕ
best_index b buy = find_first_set_bit (b.bitsets sell)
best_index b sell = find_last_set_bit (b.bitsets buy)

unfoldable pub next_index : FastBook → Side → ℕ → Option ℕ
next_index b buy index = find_next_set_bit (b.bitsets sell) index
next_index b sell index = find_prev_set_bit (b.bitsets buy) index

-- The outer loop, over the levels from the best one on.
unfoldable pub match_levels : ℕ → FastBook → Order → Option ℕ → Option Match
match_levels zero b order index = none
match_levels (suc fuel) b order none = some (record { book = b; order = order; events = [] })
match_levels (suc fuel) b order (some index) =
    elim (ltb 0 order.quantity && not (out_of_reach b order index)) [
      | false ↦ some (record { book = b; order = order; events = [] })
      | true ↦
          elim (match_level (suc (length b.pool)) b order index
            (level b (opposite order.side) index).head) [
              | none ↦ none
              | some m ↦
                  before_events m.events
                    (match_levels fuel m.book m.order (next_index m.book order.side index))
            ]
    ]

-- `match_orders` picks the template by the order's own side and type.
unfoldable pub match_orders : FastBook → Order → Option Match
match_orders b order =
    if any (b.bitsets (opposite order.side))
    then match_levels (suc (suc b.num_levels)) b order (some (best_index b order.side))
    else some (record { book = b; order = order; events = [] })

-- The order is linked in behind the tail of its level.
unfoldable pub link_tail : FastBook → Option ℕ → ℕ → FastBook
link_tail b tail slot = elim tail [
  | none ↦ b
  | some p ↦ put_order b p (record (pooled b p) { next = some slot })
]

unfoldable pub append_level : PriceLevel → ℕ → ℕ → PriceLevel
append_level l slot quantity = record {
  head = elim l.head [ none ↦ some slot | some h ↦ l.head ];
  tail = some slot;
  total_quantity = add32 l.total_quantity quantity;
}

unfoldable pub rest_at : FastBook → Order → ℕ → Option FastBook
rest_at b order slot =
    let index = price_to_index b order.price in
    let l = level b order.side index in
    let o : FastOrder = record {
      id = order.id;
      price = order.price;
      quantity = order.quantity;
      prev = l.tail;
      next = none;
      side = order.side;
    } in
    let linked =
      put_level (link_tail (put_order b slot o) l.tail slot) order.side index
        (append_level l slot order.quantity) in
    let marked = put_bits linked order.side (set_bit (linked.bitsets order.side) index) in
    elim (ht_insert marked.table order.id slot) [
      | none ↦ none
      | some t ↦ some (record marked { table = t; num_orders = (b.num_orders + 1) % u64_mod })
    ]

unfoldable pub rest_order : FastBook → Order → Option FastBook
rest_order b order = elim b.free_list [
  | [] ↦ none
  | slot ∷ free ↦ rest_at (record b { free_list = free }) order slot
]

unfoldable pub rest_match : Match → Option Step
rest_match m =
    if m.order.quantity == 0
    then some (record { book = m.book; events = m.events })
    else elim m.order.type [
      | market ↦ some (record { book = m.book; events = m.events })
      | limit ↦ noted (m.events ++ order_added m.order ∷ []) (rest_order m.book m.order)
    ]

unfoldable pub out_of_range : FastBook → Order → Bool
out_of_range b order = elim order.type [
  | market ↦ false
  | limit ↦ ltb order.price b.min_price || ltb b.max_price order.price
]

-- `add_order_impl`, which `add` picks by the order's side and type.
unfoldable pub add : FastBook → Order → Option Step
add b order =
    if out_of_range b order
    then some (record { book = b; events = order_canceled order.id order.quantity 0 ∷ [] })
    else elim (match_orders b order) [ none ↦ none | some m ↦ rest_match m ]
