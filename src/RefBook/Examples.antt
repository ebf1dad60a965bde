-- ===== src/RefBook/Examples.antt =====
-- Tests of the reference book, and its theorems at a book with two asks and a bid.
use mathlib.Core.Option.{none-ne-some}
use lob_project.Base.{◌%◌, u32_mod, ◌≡◌, refl, [], ◌∷◌, some, none, arith, sub32, add32, Pairwise}
use lob_project.Types.{Order, buy, sell, limit_order, market_order, order_filled}
use lob_project.SortedMap.{update, find, erase}
use lob_project.RefBook.{
  RefBook, empty_book, OrderLocation, add, add_limit_order, match_orders, execute_market_order,
  cancel, modify, best_bid, best_ask, total_quantity_at_price, Outcome, best_bid, best_ask,
  match_level, match_levels, fill, release, rest_order, marketable, cancel_at, modify_at,
  find_order, erase_order, set_quantity, level_at, side_levels, sum_quantities,
}
use lob_project.RefBook.Queue.{match_levels-execute, flat, execute}
use lob_project.RefBook.Trading.{Worse, Served}
use lob_project.RefBook.Valid.{IsValid}
use lob_project.RefBook.Queries.{TopOfBook, best_bid-TopOfBook, shares, total_quantity_at_price-eq}
use lob_project.RefBook.Adding.{Added, add_limit_order-Added}
use lob_project.RefBook.Market.{Executed, execute_market_order-Executed}
use lob_project.RefBook.Cancel.{Cancelled, cancel-Cancelled}
use lob_project.RefBook.Modify.{Modified, modify-Modified}
use lob_project.RefBook.Priority.{due, execution, match_orders-Served}

-- The name stands for all that a run of the book computes with.
ref_book : Unit {0}
unfolding add add_limit_order match_orders execute_market_order cancel modify best_bid best_ask
    total_quantity_at_price match_level match_levels fill release rest_order marketable cancel_at
    modify_at find_order erase_order set_quantity level_at sum_quantities update find erase sub32
    add32 execute
ref_book = tt

abbrev ask_five : Order
ask_five = limit_order 1 105 1 5 sell

abbrev ask_four : Order
ask_four = limit_order 2 104 2 4 sell

abbrev bid_three : Order
bid_three = limit_order 3 100 3 3 buy

empty-IsValid : IsValid empty_book
empty-IsValid = record {
  bids = record { ascending = tt; full = tt; resting = tt };
  asks = record { ascending = tt; full = tt; resting = tt };
  uncrossed = tt;
  located = λ id l h. absurd (none-ne-some l h);
}

abbrev one_ask : RefBook
one_ask = (add_limit_order empty_book ask_five).book

abbrev two_asks : RefBook
two_asks = (add_limit_order one_ask ask_four).book

abbrev three_orders : RefBook
three_orders = (add_limit_order two_asks bid_three).book

one_ask-IsValid : IsValid one_ask
one_ask-IsValid =
    (add_limit_order-Added empty_book ask_five empty-IsValid (omega arith) (omega arith)).valid

two_asks-IsValid : IsValid two_asks
two_asks-IsValid =
    (add_limit_order-Added one_ask ask_four one_ask-IsValid (omega arith) (omega arith)).valid

three_orders-IsValid : IsValid three_orders
three_orders-IsValid =
    (add_limit_order-Added two_asks bid_three two_asks-IsValid (omega arith) (omega arith)).valid

abbrev sweep : Order
sweep = limit_order 4 110 4 7 buy

-- The better price trades first, and the rest of the order at the next price.
sweep_fills :
    (add_limit_order three_orders sweep).events
    ≡ order_filled 4 2 104 4 ∷ order_filled 4 1 105 3 ∷ []
unfolding ref_book
sweep_fills = refl

best_prices : (best_bid three_orders ≡ 100) × (best_ask three_orders ≡ 104)
unfolding ref_book
best_prices = (refl, refl)

left_at_price : total_quantity_at_price (add_limit_order three_orders sweep).book 105 sell ≡ 2
unfolding ref_book
left_at_price = refl

add_limit_order-Added_example : Added buy three_orders sweep (add_limit_order three_orders sweep)
add_limit_order-Added_example =
    add_limit_order-Added three_orders sweep three_orders-IsValid (omega arith) (omega arith)

match_orders-Served_example :
    Pairwise (λ x y. Worse buy x.0 y.0) (due buy three_orders)
    × Served sweep (due buy three_orders) (execution buy (match_orders three_orders sweep))
match_orders-Served_example =
    match_orders-Served three_orders sweep three_orders-IsValid (omega arith)

abbrev sell_all : Order
sell_all = market_order 5 5 8 sell

execute_market_order-Executed_example :
    (out : Outcome) × (execute_market_order 2 three_orders sell_all ≡ some out)
    × Executed sell three_orders sell_all out
execute_market_order-Executed_example =
    execute_market_order-Executed 0 three_orders sell_all three_orders-IsValid (omega arith) refl

abbrev at_105 : OrderLocation
at_105 = record { price = 105; side = sell }

cancel-Cancelled_example : Cancelled three_orders 1 at_105 (cancel three_orders 1)
unfolding ref_book
cancel-Cancelled_example = cancel-Cancelled three_orders 1 at_105 three_orders-IsValid refl

modify-Modified_example : Modified three_orders 1 9 at_105 (modify three_orders 1 9)
unfolding ref_book
modify-Modified_example =
    modify-Modified three_orders 1 9 at_105 three_orders-IsValid (omega arith) refl

match_levels-execute_example :
    flat (match_levels sweep ((104, ask_four ∷ []) ∷ (105, ask_five ∷ []) ∷ []) (λ id. none))
    ≡ execute sweep ((104, ask_four) ∷ (105, ask_five) ∷ []) (λ id. none)
match_levels-execute_example =
    match_levels-execute sweep ((104, ask_four ∷ []) ∷ (105, ask_five ∷ []) ∷ []) (λ id. none)
      (refl, (refl, tt))

best_bid-TopOfBook_example : TopOfBook three_orders
best_bid-TopOfBook_example = best_bid-TopOfBook three_orders three_orders-IsValid

total_quantity_at_price-eq_example :
    total_quantity_at_price three_orders 105 sell
    ≡ shares (level_at (side_levels three_orders sell) 105) % u32_mod
total_quantity_at_price-eq_example = total_quantity_at_price-eq three_orders 105 sell
