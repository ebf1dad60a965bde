-- ===== src/FastBook.antt =====
-- engine/include/fast_book.hpp and engine/src/fast_book.cpp: the book on a pool of orders, with an
-- array of price levels and a bitset for each side, and a hash table from ids to the pool. An index
-- of type `int32_t` is an option, `none` for -1. `free_list_` is kept with its back first. A method
-- returns the new book with its calls on the listener; a result `none` stands for a loop of the
-- hash table that does not end, or for a pool that is exhausted where the source asserts that it is
-- not. The other assertions are not run: the bounds that they state are left to the theorems.
pub mod Adding
pub mod Links
pub mod Access
pub mod Unlink
pub mod Taking
pub mod Valid
pub mod Queues
pub mod Dropping
pub mod Dropped
pub mod Cancel
pub mod Linking
pub mod Resting
pub mod Rest
pub mod Requantified
pub mod Modify
pub mod Add
pub mod Queries
pub mod Best
pub mod Trade
pub mod Examples
mod Runs
pub mod New
use lob_project.Base.{
  ℕ, zero, suc, ◌+◌, ◌-◌, ◌%◌, u64_mod, Bool, true, false, not, ◌&&◌, ◌||◌, List, [], ◌∷◌, ◌++◌,
  Option, none, some, ltb, ◌==◌, min, if◌then◌else◌, add32, sub32, length, get_or, set, replicate,
}
use lob_project.Types.{
  Side, buy, sell, limit, market, Order, Event, order_added, order_canceled, order_modified,
  order_filled,
}
use lob_project.Bitset.{
  HierarchicalBitset, new_bitset, set_bit, reset_bit, any, find_first_set_bit, find_last_set_bit,
  find_next_set_bit, find_prev_set_bit,
}
use lob_project.OrderTable.{OrderTable, new_table, ht_find, ht_insert, ht_erase}

-- `FastOrderv2`.
pub record FastOrder : Type 0 where
  pub id : ℕ
  pub price : ℕ
  pub quantity : ℕ
  pub prev : Option ℕ
  pub next : Option ℕ
  pub side : Side

abbrev pub blank_order : FastOrder
blank_order = record { id = 0; price = 0; quantity = 0; prev = none; next = none; side = buy }

pub record PriceLevel : Type 0 where
  pub head : Option ℕ
  pub tail : Option ℕ
  pub total_quantity : ℕ

abbrev pub blank_level : PriceLevel
blank_level = record { head = none; tail = none; total_quantity = 0 }

-- `levels_` and `bitsets_` are indexed by the side.
pub record FastBook : Type 0 where
  pub min_price : ℕ
  pub max_price : ℕ
  pub num_levels : ℕ
  pub num_orders : ℕ
  pub levels : Side → List PriceLevel
  pub bitsets : Side → HierarchicalBitset
  pub table : OrderTable
  pub pool : List FastOrder
  pub free_list : List ℕ

-- The loop that fills the free list: the last index comes to its back.
unfoldable pub all_free : ℕ → List ℕ
all_free zero = []
all_free (suc n) = n ∷ all_free n

unfoldable pub new_book : ℕ → ℕ → ℕ → FastBook
new_book min_price max_price max_orders =
    let num_levels = ((max_price + u64_mod - min_price) % u64_mod + 1) % u64_mod in
    record {
      min_price = min_price;
      max_price = max_price;
      num_levels = num_levels;
      num_orders = 0;
      levels = λ side. replicate num_levels blank_level;
      bitsets = λ side. new_bitset num_levels;
      table = new_table max_orders;
      pool = replicate max_orders blank_order;
      free_list = all_free max_orders;
    }

unfoldable pub price_to_index : FastBook → ℕ → ℕ
price_to_index b price = (price + u64_mod - b.min_price) % u64_mod

abbrev pub pooled : FastBook → ℕ → FastOrder
pooled b i = get_or b.pool i blank_order

abbrev pub level : FastBook → Side → ℕ → PriceLevel
level b side i = get_or (b.levels side) i blank_level

-- A member of an array of two that is changed at one side.
abbrev pub at_side {ℓ} : {A : Type ℓ} → Side → A → (Side → A) → Side → A
at_side buy a f buy = a
at_side buy a f sell = f sell
at_side sell a f buy = f buy
at_side sell a f sell = a

unfoldable pub put_order : FastBook → ℕ → FastOrder → FastBook
put_order b i o = record b { pool = set b.pool i o }

unfoldable pub put_level : FastBook → Side → ℕ → PriceLevel → FastBook
put_level b side i l = record b { levels = at_side side (set (b.levels side) i l) b.levels }

unfoldable pub put_bits : FastBook → Side → HierarchicalBitset → FastBook
put_bits b side s = record b { bitsets = at_side side s b.bitsets }

-- `remove_order`: the shares leave the level and the order, and an order without shares leaves its
-- level's list, the bitset if it was the last one, the table and the pool.
unfoldable pub take_shares : FastBook → Side → ℕ → ℕ → ℕ → FastBook
take_shares b side index slot quantity =
    let l = level b side index in
    let o = pooled b slot in
    put_order
      (put_level b side index (record l { total_quantity = sub32 l.total_quantity quantity })) slot
      (record o { quantity = sub32 o.quantity quantity })

unfoldable pub unlink_prev : FastBook → Side → ℕ → FastOrder → FastBook
unlink_prev b side index o = elim o.prev [
  | some p ↦ put_order b p (record (pooled b p) { next = o.next })
  | none ↦ put_level b side index (record (level b side index) { head = o.next })
]

unfoldable pub unlink_next : FastBook → Side → ℕ → FastOrder → FastBook
unlink_next b side index o = elim o.next [
  | some n ↦ put_order b n (record (pooled b n) { prev = o.prev })
  | none ↦ put_level b side index (record (level b side index) { tail = o.prev })
]

unfoldable pub clear_bit : FastBook → Side → ℕ → FastOrder → FastBook
clear_bit b side index o = elim (level b side index).head [
  | some h ↦ b
  | none ↦ put_bits b side (reset_bit (b.bitsets side) (price_to_index b o.price))
]

unfoldable pub free_slot : FastBook → ℕ → OrderTable → FastBook
free_slot b slot t = record b {
  table = t;
  num_orders = (b.num_orders + u64_mod - 1) % u64_mod;
  free_list = slot ∷ b.free_list;
}

unfoldable pub drop_order : FastBook → Side → ℕ → ℕ → Option FastBook
drop_order b side index slot =
    let o = pooled b slot in
    let unlinked = unlink_next (unlink_prev b side index o) side index o in
    let cleared = clear_bit unlinked side index o in
    elim (ht_erase cleared.table o.id) [ none ↦ none | some t ↦ some (free_slot cleared slot t) ]

unfoldable pub remove_order : FastBook → Side → ℕ → ℕ → ℕ → Option FastBook
remove_order b side index slot quantity =
    let taken = take_shares b side index slot quantity in
    if (pooled taken slot).quantity == 0 then drop_order taken side index slot else some taken

-- A book with the calls on the listener.
pub record Step : Type 0 where
  pub book : FastBook
  pub events : List Event

abbrev pub noted : List Event → Option FastBook → Option Step
noted es none = none
noted es (some b) = some (record { book = b; events = es })

unfoldable pub cancel_slot : FastBook → ℕ → ℕ → Option Step
cancel_slot b id slot =
    let o = pooled b slot in
    noted (order_canceled id o.quantity 0 ∷ [])
      (remove_order b o.side (price_to_index b o.price) slot o.quantity)

unfoldable pub cancel : FastBook → ℕ → Option Step
cancel b id = elim (ht_find b.table id) [
  | none ↦ none
  | some none ↦ some (record { book = b; events = [] })
  | some (some slot) ↦ cancel_slot b id slot
]

unfoldable pub resize_level : PriceLevel → ℕ → ℕ → PriceLevel
resize_level l old new = record l {
  total_quantity =
      if ltb old new
      then add32 l.total_quantity (sub32 new old)
      else sub32 l.total_quantity (sub32 old new);
}

unfoldable pub modify_slot : FastBook → ℕ → ℕ → ℕ → Step
modify_slot b id quantity slot =
    let o = pooled b slot in
    let index = price_to_index b o.price in
    record {
      book =
          put_order
            (put_level b o.side index (resize_level (level b o.side index) o.quantity quantity))
            slot (record o { quantity = quantity });
      events = order_modified id quantity ∷ [];
    }

unfoldable pub modify : FastBook → ℕ → ℕ → Option Step
modify b id quantity = if quantity == 0 then cancel b id else elim (ht_find b.table id) [
  | none ↦ none
  | some none ↦ some (record { book = b; events = [] })
  | some (some slot) ↦ some (modify_slot b id quantity slot)
]

unfoldable pub best_bid : FastBook → ℕ
best_bid b =
    if any (b.bitsets buy) then (find_last_set_bit (b.bitsets buy) + b.min_price) % u64_mod else 0

unfoldable pub best_ask : FastBook → ℕ
best_ask b =
    if any (b.bitsets sell)
    then (find_first_set_bit (b.bitsets sell) + b.min_price) % u64_mod
    else 0

unfoldable pub total_quantity_at_price : FastBook → ℕ → Side → ℕ
total_quantity_at_price b price side =
    if ltb price b.min_price || ltb b.max_price price
    then 0
    else (level b side (price_to_index b price)).total_quantity

unfoldable pub empty : FastBook → Bool
empty b = not (any (b.bitsets buy)) && not (any (b.bitsets sell))
