-- ===== src/FastBook/Runs.antt =====
-- Runs of the book for ten prices and four orders.
use lob_project.Base.{◌≡◌, refl, List, [], ◌∷◌, Option, none, some, add32, sub32}
use lob_project.Types.{Order, Event, buy, sell, limit, order_added, order_filled}
use lob_project.Bitset.{
  new_bitset, make_tiers, set_bit, set_tiers, set_word, reset_bit, reset_tiers, reset_word, any,
  top_word, first_in, last_in, find_first_set_bit, find_last_set_bit, find_next_set_bit,
  find_prev_set_bit, next_in, prev_in, flat, bits_from, bits_to, climb_next, climb_prev,
  descend_first, descend_last,
}
use lob_project.Bitset.Bits.{bit, ctz_below, clz_below}
use lob_project.OrderTable.{
  new_table, grow, slot, write_slot, home, next_slot, probed, find_from, ht_find, insert_from,
  ht_insert, shift_back, erase_from, ht_erase,
}
use lob_project.FastBook.{
  Step, new_book, all_free, price_to_index, put_order, put_level, put_bits, take_shares,
  unlink_prev, unlink_next, clear_bit, free_slot, drop_order, remove_order,
}
use lob_project.FastBook.Adding.{
  match_level, out_of_reach, best_index, next_index, match_levels, match_orders, link_tail,
  append_level, rest_at, rest_order, rest_match, out_of_range, add,
}

abbrev no_orders : Option Step
no_orders = some (record { book = new_book 100 109 4; events = [] })

abbrev bid : Order
bid = record { id = 7; price = 105; seq_num = 1; quantity = 30; side = buy; type = limit }

abbrev ask : Order
ask = record { id = 8; price = 104; seq_num = 2; quantity = 10; side = sell; type = limit }

abbrev large_ask : Order
large_ask = record { id = 9; price = 105; seq_num = 3; quantity = 50; side = sell; type = limit }

abbrev added : Option Step → Order → Option Step
added none order = none
added (some s) order = add s.book order

abbrev events_of : Option Step → List Event
events_of none = []
events_of (some s) = s.events

-- An ask below the bid is filled at the bid's price.
small_trade : events_of (added (added no_orders bid) ask) ≡ order_filled 8 7 105 10 ∷ []
unfolding add32 sub32 new_bitset make_tiers set_bit set_tiers set_word reset_bit reset_tiers
    reset_word any top_word first_in last_in find_first_set_bit find_last_set_bit find_next_set_bit
    find_prev_set_bit next_in prev_in flat bits_from bits_to climb_next climb_prev descend_first
    descend_last bit ctz_below clz_below new_table grow slot write_slot home next_slot probed
    find_from ht_find insert_from ht_insert shift_back erase_from ht_erase new_book all_free
    price_to_index put_order put_level put_bits take_shares unlink_prev unlink_next clear_bit
    free_slot drop_order remove_order match_level out_of_reach best_index next_index match_levels
    match_orders link_tail append_level rest_at rest_order rest_match out_of_range add
small_trade = refl

-- A larger ask takes what is left of the bid and rests.
large_trade :
    events_of (added (added (added no_orders bid) ask) large_ask)
    ≡ order_filled 9 7 105 20 ∷ order_added (record large_ask { quantity = 30 }) ∷ []
unfolding add32 sub32 new_bitset make_tiers set_bit set_tiers set_word reset_bit reset_tiers
    reset_word any top_word first_in last_in find_first_set_bit find_last_set_bit find_next_set_bit
    find_prev_set_bit next_in prev_in flat bits_from bits_to climb_next climb_prev descend_first
    descend_last bit ctz_below clz_below new_table grow slot write_slot home next_slot probed
    find_from ht_find insert_from ht_insert shift_back erase_from ht_erase new_book all_free
    price_to_index put_order put_level put_bits take_shares unlink_prev unlink_next clear_bit
    free_slot drop_order remove_order match_level out_of_reach best_index next_index match_levels
    match_orders link_tail append_level rest_at rest_order rest_match out_of_range add
large_trade = refl
