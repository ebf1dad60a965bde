-- ===== src/FastBook/Rest.antt =====
-- Resting an order, and adding a limit order that no resting order can trade with.
use mathlib.Core.Path.{subst}
use lob_project.Base.{
  ℕ, ◌+◌, ◌-◌, ◌%◌, ◌<◌, ◌≤◌, List, ◌∷◌, some, ◌≡◌, ◌≢◌, refl, arith, u32_mod, u64_mod,
}
use lob_project.Types.{Side, Order}
use lob_project.Bitset.{set_bit}
use lob_project.OrderTable.{OrderTable, ht_insert}
use lob_project.FastBook.{FastBook, pooled, at_side, put_bits, price_to_index}
use lob_project.FastBook.Adding.{rest_order, rest_at}
use lob_project.FastBook.Unlink.{SameData}
use lob_project.FastBook.Valid.{IsBook}
use lob_project.FastBook.Cancel.{Unknown}
use lob_project.FastBook.Linking.{linked}
use lob_project.FastBook.Resting.{
  queues_with, rested, inserted, rested-IsBook, frame, data_kept, new_data,
}

abbrev placed : FastBook → Order → ℕ → FastBook
placed b order slot =
    linked b order.side (price_to_index b order.price) slot order.id order.price order.quantity

rest_at-eq :
    (b : FastBook) (order : Order) (slot : ℕ) (t : OrderTable)
    → ht_insert (placed b order slot).table order.id slot ≡ some t
    → rest_at b order slot
      ≡ some (record (placed b order slot) {
        bitsets =
            at_side order.side
              (set_bit ((placed b order slot).bitsets order.side) (price_to_index b order.price))
              (placed b order slot).bitsets;
        table = t;
        num_orders = (b.num_orders + 1) % u64_mod;
      })
unfolding rest_at put_bits
rest_at-eq b order slot t f = rw (rest_at, f) refl

price_to_index-eq :
    (b : FastBook) (free : List ℕ) (price : ℕ)
    → b.min_price ≤ price
    → price < u64_mod
    → price_to_index (record b { free_list = free }) price ≡ price - b.min_price
unfolding price_to_index
price_to_index-eq b free price low small = omega arith

-- What resting an order does: it takes a slot of the pool, with its id, quantity and side, and
-- stands behind the queue of its level; the other orders keep their data.
abbrev pub Rested : FastBook → (Side → ℕ → List ℕ) → Order → ℕ → ℕ → Type 0
Rested b q order slot i =
    (b' : FastBook) × (rest_order b order ≡ some b')
    × IsBook b' (queues_with q order.side i slot)
    × ((pooled b' slot).id ≡ order.id)
    × ((pooled b' slot).quantity ≡ order.quantity)
    × ((a : ℕ) → slot ≢ a → SameData (pooled b' a) (pooled b a))

rest_order-at :
    (b : FastBook) (q : Side → ℕ → List ℕ) (order : Order) (slot : ℕ) (free : List ℕ)
    → IsBook b q
    → price_to_index (record b { free_list = free }) order.price < b.num_levels
    → order.price ≡ b.min_price + price_to_index (record b { free_list = free }) order.price
    → 0 < order.quantity
    → order.quantity < u32_mod
    → Unknown b q order.id
    → b.free_list ≡ slot ∷ free
    → Rested b q order slot (price_to_index (record b { free_list = free }) order.price)
unfolding rest_order
rest_order-at b q order slot free book i_n at_price pos small new top =
    let i = price_to_index (record b { free_list = free }) order.price in
    let (t, e, ok) =
      inserted b q book order.side i slot order.id order.price order.quantity free i_n top at_price
        pos small new in
    let same =
      frame b q book order.side i slot order.id order.price order.quantity free i_n top at_price pos
        small new in
    let d =
      new_data b q book order.side i slot order.id order.price order.quantity free i_n top at_price
        pos small new t ok in
    (
      rested b q book order.side i slot order.id order.price order.quantity free i_n top at_price
          pos small new t,
      rw (rest_order, top)
          (rest_at-eq (record b { free_list = free }) order slot t (rw same.table e)),
      rested-IsBook b q book order.side i slot order.id order.price order.quantity free i_n top
          at_price pos small new t ok,
      d.id,
      d.quantity,
      (λ a ne.
          let k =
            data_kept b q book order.side i slot order.id order.price order.quantity free i_n top
              at_price pos small new a ne in
          record { id = k.id; price = k.price; quantity = k.quantity; side = k.side }),
    )

-- A limit order of the book's range that has shares and an id that is new rests in a well-formed
-- book whose pool is not exhausted: the insertion in the table ends, the order takes the last free
-- slot and stands behind the orders of its price, the other orders keep their data, and the book is
-- well formed.
pub rest_order-Rested :
    (b : FastBook) (q : Side → ℕ → List ℕ) (order : Order) (slot : ℕ) (free : List ℕ)
    → IsBook b q
    → b.min_price ≤ order.price
    → order.price ≤ b.max_price
    → 0 < order.quantity
    → order.quantity < u32_mod
    → Unknown b q order.id
    → b.free_list ≡ slot ∷ free
    → Rested b q order slot (order.price - b.min_price)
rest_order-Rested b q order slot free book low high pos small new top =
    let at = price_to_index-eq b free order.price low (omega (arith, book.max_small, high)) in
    subst (λ j. Rested b q order slot j) at
      (rest_order-at b q order slot free book (omega (arith, at, book.range, high))
        (omega (arith, at, low)) pos small new top)
