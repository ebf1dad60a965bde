-- ===== src/FastBook/Add.antt =====
-- Adding a limit order that no resting order can trade with, or that the first one fills.
use mathlib.Core.Path.{subst}
use lob_project.Base.{
  ℕ, suc, ◌+◌, ◌∙◌, ◌-◌, ◌<◌, ◌≤◌, true, false, ltb, ◌&&◌, not, List, [], ◌∷◌, Option, some, ◌==◌,
  ◌≡◌, ◌≢◌, ◌⊎◌, refl, sym, arith, Bool-cases, inl, inr, u32_mod,
}
use lob_project.Types.{Side, OrderType, limit, market, Order, order_added, order_filled}
use lob_project.Bitset.{any}
use lob_project.FastBook.{FastBook, Step, pooled, noted}
use lob_project.FastBook.Adding.{
  rest_order, rest_match, match_orders, match_levels, add, out_of_range, out_of_reach, best_index,
  opposite,
}
use lob_project.FastBook.Unlink.{SameData}
use lob_project.FastBook.Valid.{IsBook}
use lob_project.FastBook.Cancel.{Unknown}
use lob_project.FastBook.Resting.{queues_with}
use lob_project.FastBook.Rest.{rest_order-Rested}
use lob_project.FastBook.{level}
use lob_project.FastBook.Links.{has}
use lob_project.FastBook.Best.{
  Reaches, IsBest, NoneInReach, best_index-IsBest, any-set, reach-test, none_met,
}
use lob_project.FastBook.Trade.{served, served-IsBook, served-SameData, served_quantity, add-part}

match_levels-stop :
    (fuel : ℕ) (b : FastBook) (order : Order) (index : ℕ)
    → (ltb 0 order.quantity && not (out_of_reach b order index)) ≡ false
    → match_levels (suc fuel) b order (some index)
      ≡ some (record { book = b; order = order; events = [] })
unfolding match_levels
match_levels-stop fuel b order index stop = rw (match_levels, stop) refl

match_orders-none :
    (b : FastBook) (order : Order)
    → (any (b.bitsets (opposite order.side)) ≡ false)
      ⊎ (out_of_reach b order (best_index b order.side) ≡ true)
    → match_orders b order ≡ some (record { book = b; order = order; events = [] })
unfolding match_orders match_levels
match_orders-none b order (inl empty) = rw (match_orders, empty) refl
match_orders-none b order (inr far) = elim (Bool-cases (any (b.bitsets (opposite order.side)))) [
  | inr empty ↦ rw (match_orders, empty) refl
  | inl some_bit ↦
      let stop : (ltb 0 order.quantity && not (out_of_reach b order (best_index b order.side)))
          ≡ false =
        rw far (ground arith) in
      rw (match_orders, some_bit) (match_levels-stop (suc b.num_levels) b order _ stop)
]

in_range-test :
    (b : FastBook) (order : Order)
    → order.type ≡ limit
    → b.min_price ≤ order.price
    → order.price ≤ b.max_price
    → out_of_range b order ≡ false
unfolding out_of_range
in_range-test b order type low high = rw (out_of_range, type) (ground (arith, low, high))

rest_match-limit :
    (b b' : FastBook) (order : Order)
    → (order.quantity == 0) ≡ false
    → order.type ≡ limit
    → rest_order b order ≡ some b'
    → rest_match (record { book = b; order = order; events = [] })
      ≡ some (record { book = b'; events = order_added order ∷ [] })
unfolding rest_match
rest_match-limit b b' order some_shares type rests =
    let ends : Option Step = some (record { book = b'; events = order_added order ∷ [] }) in
    let other : Option Step = some (record { book = b; events = [] }) in
    rw (rest_match, some_shares)
      (subst
        (λ (ty : OrderType).
          (elim ty [ market ↦ other | limit ↦ noted (order_added order ∷ []) (rest_order b order) ])
          ≡ ends)
        (sym type) (rw rests refl))

add-rests :
    (b b' : FastBook) (order : Order)
    → out_of_range b order ≡ false
    → match_orders b order ≡ some (record { book = b; order = order; events = [] })
    → (order.quantity == 0) ≡ false
    → order.type ≡ limit
    → rest_order b order ≡ some b'
    → add b order ≡ some (record { book = b'; events = order_added order ∷ [] })
unfolding add
add-rests b b' order range none_met some_shares type rests =
    rw (add, range, none_met) (rest_match-limit b b' order some_shares type rests)

-- What adding such an order does: as `Rested`, and the order is reported as added.
abbrev pub Added : FastBook → (Side → ℕ → List ℕ) → Order → ℕ → ℕ → Type 0
Added b q order slot i =
    (b' : FastBook) × (add b order ≡ some (record { book = b'; events = order_added order ∷ [] }))
    × IsBook b' (queues_with q order.side i slot)
    × ((pooled b' slot).id ≡ order.id)
    × ((pooled b' slot).quantity ≡ order.quantity)
    × ((a : ℕ) → slot ≢ a → SameData (pooled b' a) (pooled b a))

add-Added :
    (b : FastBook) (q : Side → ℕ → List ℕ) (order : Order) (slot : ℕ) (free : List ℕ)
    → IsBook b q
    → order.type ≡ limit
    → b.min_price ≤ order.price
    → order.price ≤ b.max_price
    → 0 < order.quantity
    → order.quantity < u32_mod
    → Unknown b q order.id
    → b.free_list ≡ slot ∷ free
    → NoneInReach b q order
    → Added b q order slot (order.price - b.min_price)
add-Added b q order slot free book type low high pos small new top far =
    let r = rest_order-Rested b q order slot free book low high pos small new top in
    (
      r.0,
      add-rests b r.0 order (in_range-test b order type low high)
          (match_orders-none b order (none_met b q book order type low high far)) (ground arith)
          type r.1,
      r.2,
      r.3,
      r.4,
      r.5,
    )

-- What adding an order does that the order `k` at level `i` of the other side fills: one trade is
-- reported, at the level's price, the order `k` keeps its place with what is left of it, and the
-- queues are as they were.
abbrev pub FilledBy : FastBook → (Side → ℕ → List ℕ) → Order → ℕ → ℕ → Type 0
FilledBy b q order i k =
    (b' : FastBook) × (add b order
      ≡ some (record {
        book = b';
        events = order_filled order.id (pooled b k).id (b.min_price + i) order.quantity ∷ [];
      }))
    × IsBook b' q
    × ((pooled b' k).quantity ≡ (pooled b k).quantity - order.quantity)
    × ((a : ℕ) → k ≢ a → SameData (pooled b' a) (pooled b a))

add-FilledBy :
    (b : FastBook) (q : Side → ℕ → List ℕ) (order : Order)
    → IsBook b q
    → order.type ≡ limit
    → b.min_price ≤ order.price
    → order.price ≤ b.max_price
    → 0 < order.quantity
    → (i k : ℕ) (ys : List ℕ) → IsBest b q (opposite order.side) i
    → Reaches order.side order.price (b.min_price + i)
    → q (opposite order.side) i ≡ k ∷ ys
    → order.quantity < (pooled b k).quantity
    → FilledBy b q order i k
add-FilledBy b q order book type low high pos i k ys best reach top less =
    let s = opposite order.side in
    let m : has k (q s i) ≡ true = rw top (ground arith) in
    let first : (level b s i).head ≡ some k = (book.queued s i best.0).head ∙ rw top refl in
    (
      served b q book order i k best.0 m pos less,
      add-part b q book order i k best.0 m pos less (in_range-test b order type low high) first
          (reach-test b q book order type low high i reach) (any-set b q book s i best.0 best.1)
          (best_index-IsBest b q book order.side i best),
      served-IsBook b q book order i k best.0 m pos less,
      served_quantity b q book order i k best.0 m pos less,
      served-SameData b q book order i k best.0 m pos less,
    )

-- Both ends of adding a limit order: no resting order is in reach, or the first one is and fills it.
abbrev pub AddResult : FastBook → (Side → ℕ → List ℕ) → Order → ℕ → Type 0
AddResult b q order slot =
    (NoneInReach b q order → Added b q order slot (order.price - b.min_price))
    × ((i k : ℕ) (ys : List ℕ)
        → IsBest b q (opposite order.side) i
        → Reaches order.side order.price (b.min_price + i)
        → q (opposite order.side) i ≡ k ∷ ys
        → order.quantity < (pooled b k).quantity
        → FilledBy b q order i k)

-- Adding a limit order of the book's range, with 1 to 2^32 - 1 shares and an id that is new, to a
-- well-formed book whose pool is not exhausted ends in these cases. Where no order of the other side
-- has a price that the order reaches, nothing trades: the order is reported as added and stands
-- behind the orders of its price. Where the order reaches the best price of the other side and the
-- first order there has more shares, that order fills it: the one trade is reported at the best
-- price, and that order keeps its place with the rest of its shares. In both the other orders keep
-- their data, and the book is well formed.
pub add-AddResult :
    (b : FastBook) (q : Side → ℕ → List ℕ) (order : Order) (slot : ℕ) (free : List ℕ)
    → IsBook b q
    → order.type ≡ limit
    → b.min_price ≤ order.price
    → order.price ≤ b.max_price
    → 0 < order.quantity
    → order.quantity < u32_mod
    → Unknown b q order.id
    → b.free_list ≡ slot ∷ free
    → AddResult b q order slot
add-AddResult b q order slot free book type low high pos small new top = (
  add-Added b q order slot free book type low high pos small new top,
  add-FilledBy b q order book type low high pos,
)
