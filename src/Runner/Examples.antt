-- ===== src/Runner/Examples.antt =====
-- The runner with the reference book, fed two orders that trade and a cancel.
use lob_project.Base.{◌≡◌, ◌↔◌, ◌≤◌, none, length, refl, [], ◌∷◌, some, arith, inl, List, ◌++◌}
use lob_project.Types.{Event, order_added, order_filled, order_modified, limit_order, buy}
use lob_project.RefBook.{RefBook, Outcome, Step, empty_book, add_limit_order, cancel, modify}
use lob_project.Protocol.Message.{EnterOrder, CancelOrder, IsEnterOrder, IsCancelOrder, Trade}
use lob_project.Protocol.MsgType
use lob_project.Protocol.Codec.{
  InboundMsg, OutboundMsg, decode_inbound, encode, peek_type, msg_size,
}
use lob_project.Protocol.RoundTrip.{layout, decode_inbound-layout}
use lob_project.Protocol.Framing.{length-encode, decode_inbound-ne-none, IsInboundType}
use lob_project.Runner.{Book, Running, new_writer, run_stream, on_events}
use lob_project.Runner.Input.{layouts, handle_all, run_stream-layouts}
use lob_project.Runner.Output.{Numbered, nothing, on_events-Numbered}

abbrev outcome : Outcome → RefBook × List Event
outcome out = (out.book, out.events)

abbrev changed : Step → RefBook × List Event
changed out = (out.book, out.events)

-- The runner's orders are limit orders.
abbrev reference : Book
reference = record {
  State = RefBook;
  add = λ b o. outcome (add_limit_order b o);
  cancel = λ b id. changed (cancel b id);
  modify = λ b id quantity. changed (modify b id quantity);
}

abbrev idle : Running reference
idle = record { state = empty_book; writer = new_writer }

abbrev sell_five : EnterOrder
sell_five = record {
  msg_type = MsgType.enter_order;
  side = 1;
  padding = 0;
  quantity = 5;
  order_id = 7;
  price = 1000;
  seq_num = 1;
}

abbrev buy_two : EnterOrder
buy_two = record {
  msg_type = MsgType.enter_order;
  side = 0;
  padding = 0;
  quantity = 2;
  order_id = 8;
  price = 1001;
  seq_num = 2;
}

abbrev cancel_seven : CancelOrder
cancel_seven = record {
  msg_type = MsgType.cancel_order;
  padding = 0;
  quantity = 0;
  order_id = 7;
  seq_num = 3;
  remaining_qty = 0;
  padding2 = 0;
}

abbrev session : List InboundMsg
session =
    InboundMsg.enter sell_five ∷ InboundMsg.enter buy_two ∷ InboundMsg.cancel cancel_seven ∷ []

sell_five-IsEnterOrder : IsEnterOrder sell_five
sell_five-IsEnterOrder = record {
  msg_type = refl;
  side = omega arith;
  padding = omega arith;
  quantity = omega arith;
  order_id = omega arith;
  price = omega arith;
  seq_num = omega arith;
}

buy_two-IsEnterOrder : IsEnterOrder buy_two
buy_two-IsEnterOrder = record {
  msg_type = refl;
  side = omega arith;
  padding = omega arith;
  quantity = omega arith;
  order_id = omega arith;
  price = omega arith;
  seq_num = omega arith;
}

cancel_seven-IsCancelOrder : IsCancelOrder cancel_seven
cancel_seven-IsCancelOrder = record {
  msg_type = refl;
  padding = omega arith;
  quantity = omega arith;
  order_id = omega arith;
  seq_num = omega arith;
  remaining_qty = omega arith;
  padding2 = omega arith;
}

-- The session ends in a byte that is no message type.
run_stream-layouts_example :
    run_stream reference idle (layouts session ++ 9 ∷ []) ≡ handle_all reference idle session
unfolding msg_size
run_stream-layouts_example =
    run_stream-layouts reference idle session (9 ∷ [])
      (sell_five-IsEnterOrder, (buy_two-IsEnterOrder, (cancel_seven-IsCancelOrder, tt))) (inl refl)

decode_inbound-layout_example :
    decode_inbound (layout (InboundMsg.cancel cancel_seven) ++ 1 ∷ [])
    ≡ some (InboundMsg.cancel cancel_seven)
decode_inbound-layout_example =
    decode_inbound-layout (InboundMsg.cancel cancel_seven) (1 ∷ []) cancel_seven-IsCancelOrder

abbrev a_trade : Trade
a_trade = record {
  msg_type = MsgType.trade;
  padding = 0;
  qty = 2;
  out_seq = 1;
  trade_id = 1;
  passive_id = 7;
  aggressor_id = 8;
  price = 1000;
}

length-encode_example :
    length (encode (OutboundMsg.traded a_trade))
    ≡ msg_size (peek_type (encode (OutboundMsg.traded a_trade)))
length-encode_example = length-encode (OutboundMsg.traded a_trade) refl

decode_inbound-ne-none_example :
    (¬ (decode_inbound (1 ∷ 2 ∷ []) ≡ none)) ↔ ((32 ≤ 2) × IsInboundType 1)
decode_inbound-ne-none_example = decode_inbound-ne-none (1 ∷ 2 ∷ [])

abbrev some_events : List Event
some_events =
    order_added (limit_order 3 100 3 3 buy) ∷ order_modified 3 2 ∷ order_filled 4 3 100 2 ∷ []

on_events-Numbered_example :
    Numbered (on_events new_writer some_events).out (on_events new_writer some_events).out_seq
    × ((on_events new_writer some_events).out_seq ≡ 2)
on_events-Numbered_example = on_events-Numbered new_writer some_events (omega arith) nothing
