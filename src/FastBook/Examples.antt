-- ===== src/FastBook/Examples.antt =====
-- A book for ten prices and four orders, with one order resting in it.
use lob_project.Base.{
  ltb, ◌||◌, ◌-◌, ◌%◌, if◌then◌else◌, u32_mod, ℕ, ◌<◌, ◌≡◌, refl, arith, length, List, [], ◌∷◌,
}
use lob_project.Types.{Side, buy, limit, Order}
use lob_project.FastBook.{
  total_quantity_at_price, FastBook, new_book, all_free, pooled, unlink_prev, unlink_next,
}
use lob_project.FastBook.Unlink.{Queued, unlinked-Queued}
use lob_project.FastBook.Valid.{IsBook, shares}
use lob_project.FastBook.New.{no_queue, new_book-IsBook}
use lob_project.FastBook.Cancel.{CancelResult, cancel-CancelResult}
use lob_project.FastBook.Access.{Apart}
use lob_project.FastBook.Linking.{linked, linked-Apart, linked-Queued}
use lob_project.FastBook.Resting.{queues_with}
use lob_project.FastBook.Rest.{Rested, rest_order-Rested}
use lob_project.FastBook.Modify.{ModifyResult, modify-ModifyResult}
use lob_project.FastBook.Add.{AddResult, add-AddResult}
use lob_project.FastBook.Queries.{BestPrices, best_bid-BestPrices, total_quantity_at_price-shares}

abbrev no_orders : FastBook
no_orders = new_book 100 109 4

abbrev bid : Order
bid = record { id = 7; price = 105; seq_num = 1; quantity = 30; side = buy; type = limit }

new_book-IsBook_example : IsBook no_orders no_queue
new_book-IsBook_example =
    new_book-IsBook 100 109 4 (omega arith) (omega arith) (omega arith) (omega arith)

rest_order-Rested_example : Rested no_orders no_queue bid 3 5
unfolding new_book all_free
rest_order-Rested_example =
    rest_order-Rested no_orders no_queue bid 3 (2 ∷ 1 ∷ 0 ∷ []) new_book-IsBook_example
      (omega arith) (omega arith) (omega arith) (omega arith) (λ s i a h m. cc) refl

abbrev one_order : FastBook
one_order = rest_order-Rested_example.0

abbrev one_queue : Side → ℕ → List ℕ
one_queue = queues_with no_queue buy 5 3

cancel-CancelResult_example : CancelResult one_order one_queue rest_order-Rested_example.2 7
cancel-CancelResult_example = cancel-CancelResult one_order one_queue rest_order-Rested_example.2 7

no_orders-Queued : Queued no_orders buy 5 []
unfolding new_book
no_orders-Queued = new_book-IsBook_example.queued buy 5 (omega arith)

-- The order at index 3 of the pool, and then the one at index 2, behind the level of price 105.
abbrev one_linked : FastBook
one_linked = linked no_orders buy 5 3 7 105 30

abbrev two_linked : FastBook
two_linked = linked one_linked buy 5 2 8 105 10

level_5 : 5 < length (no_orders.levels buy)
unfolding new_book
level_5 = omega arith

slots : length no_orders.pool ≡ 4
unfolding new_book
slots = refl

one_linked-Apart : Apart no_orders one_linked
one_linked-Apart =
    linked-Apart no_orders buy 5 3 7 105 30 [] level_5 (rw slots (omega arith)) no_orders-Queued
      refl

one_linked-Queued : Queued one_linked buy 5 (3 ∷ [])
one_linked-Queued =
    linked-Queued no_orders buy 5 3 7 105 30 [] level_5 (rw slots (omega arith)) no_orders-Queued
      refl

one_level_5 : 5 < length (one_linked.levels buy)
one_level_5 = rw (one_linked-Apart.levels buy) level_5

one_slots : 2 < length one_linked.pool
one_slots = rw (one_linked-Apart.pool, slots) (omega arith)

linked-Queued_example : Queued two_linked buy 5 (3 ∷ 2 ∷ [])
linked-Queued_example =
    linked-Queued one_linked buy 5 2 8 105 10 (3 ∷ []) one_level_5 one_slots one_linked-Queued refl

two_linked-Apart : Apart one_linked two_linked
two_linked-Apart =
    linked-Apart one_linked buy 5 2 8 105 10 (3 ∷ []) one_level_5 one_slots one_linked-Queued refl

unlinked-Queued_example :
    Queued
      (unlink_next (unlink_prev two_linked buy 5 (pooled two_linked 3)) buy 5 (pooled two_linked 3))
      buy
      5
      (2 ∷ [])
unlinked-Queued_example =
    unlinked-Queued two_linked buy 5 3 (3 ∷ 2 ∷ []) (rw (two_linked-Apart.levels buy) one_level_5)
      linked-Queued_example refl

modify-ModifyResult_example : ModifyResult one_order one_queue 7 12
modify-ModifyResult_example =
    modify-ModifyResult one_order one_queue 7 12 rest_order-Rested_example.2 (omega arith)
      (omega arith)

add-AddResult_example : AddResult no_orders no_queue bid 3
unfolding new_book all_free
add-AddResult_example =
    add-AddResult no_orders no_queue bid 3 (2 ∷ 1 ∷ 0 ∷ []) new_book-IsBook_example refl
      (omega arith) (omega arith) (omega arith) (omega arith) (λ s i a h m. cc) refl

best_bid-BestPrices_example : BestPrices one_order one_queue
best_bid-BestPrices_example = best_bid-BestPrices one_order one_queue rest_order-Rested_example.2

total_quantity_at_price-shares_example : total_quantity_at_price one_order 105 buy ≡ (
    if ltb 105 one_order.min_price || ltb one_order.max_price 105
    then 0
    else shares one_order (one_queue buy (105 - one_order.min_price)) % u32_mod)
total_quantity_at_price-shares_example =
    total_quantity_at_price-shares one_order one_queue 105 buy rest_order-Rested_example.2
