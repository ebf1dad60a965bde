-- ===== src/Runner.antt =====
-- engine/src/runner.cpp: the listener that writes events as messages, and the dispatch loop.
-- A stream is the list of its bytes. The book is a parameter: the runner only calls it.
pub mod Output
pub mod Input
mod Examples
use lob_project.Base.{
  ℕ, zero, suc, ◌+◌, ◌-◌, ◌%◌, u64_mod, Bool, true, false, List, [], ◌∷◌, ◌++◌, Option, none, some,
  ltb, leb, ◌==◌, if◌then◌else◌, length, take, drop,
}
use lob_project.Types.{
  Side, buy, sell, Order, limit_order, Event, order_added, order_canceled, order_modified,
  order_filled,
}
use lob_project.Protocol.Message.{EnterOrder, CancelOrder, ReplaceOrder}
use lob_project.Protocol.MsgType
use lob_project.Protocol.Codec.{
  InboundMsg, enter, cancel, replace, OutboundMsg, added, cancelled, traded, msg_size,
  decode_inbound, encode,
}

-- `ProtocolWriter`.
pub record Writer : Type 0 where
  pub out_seq : ℕ
  pub trade_id : ℕ
  pub out : List ℕ

abbrev pub new_writer : Writer
new_writer = record { out_seq = 0; trade_id = 0; out = [] }

abbrev pub side_byte : Side → ℕ
side_byte buy = 0
side_byte sell = 1

-- `++out_seq_` on a `uint64_t`.
unfoldable pub next64 : ℕ → ℕ
next64 n = (n + 1) % u64_mod

unfoldable pub write_msg : Writer → OutboundMsg → Writer
write_msg w m = record w { out = w.out ++ encode m }

unfoldable pub on_order_added : Writer → Order → Writer
on_order_added w o =
    let seq = next64 w.out_seq in
    write_msg (record w { out_seq = seq })
      (added (record {
        msg_type = MsgType.order_added;
        side = side_byte o.side;
        padding = 0;
        qty = o.quantity;
        out_seq = seq;
        order_id = o.id;
        price = o.price;
      }))

unfoldable pub on_order_canceled : Writer → ℕ → ℕ → Writer
on_order_canceled w id quantity =
    let seq = next64 w.out_seq in
    write_msg (record w { out_seq = seq })
      (cancelled (record {
        msg_type = MsgType.order_cancelled;
        padding = 0;
        cancelled_qty = quantity;
        out_seq = seq;
        order_id = id;
      }))

unfoldable pub on_order_filled : Writer → ℕ → ℕ → ℕ → ℕ → Writer
on_order_filled w aggressor passive price quantity =
    let seq = next64 w.out_seq in
    let trade = next64 w.trade_id in
    write_msg (record w { out_seq = seq; trade_id = trade })
      (traded (record {
        msg_type = MsgType.trade;
        padding = 0;
        qty = quantity;
        out_seq = seq;
        trade_id = trade;
        passive_id = passive;
        aggressor_id = aggressor;
        price = price;
      }))

-- The calls of the listener; `on_order_modified` writes nothing.
unfoldable pub on_event : Writer → Event → Writer
on_event w (order_added o) = on_order_added w o
on_event w (order_canceled id quantity left) = on_order_canceled w id quantity
on_event w (order_modified id quantity) = w
on_event w (order_filled aggressor passive price quantity) =
    on_order_filled w aggressor passive price quantity

unfoldable pub on_events : Writer → List Event → Writer
on_events w [] = w
on_events w (e ∷ es) = on_events (on_event w e) es

-- A book that the runner drives: each method returns the new book and its calls on the listener.
pub record Book : Type 1 where
  pub State : Type 0
  pub add : State → Order → State × List Event
  pub cancel : State → ℕ → State × List Event
  pub modify : State → ℕ → ℕ → State × List Event

module _ (book : Book) where
  abbrev pub Running : Type 0
  Running = record { state : book.State; writer : Writer }

  abbrev pub after_call : Writer → book.State × List Event → Running
  after_call w (s, es) = record { state = s; writer = on_events w es }

  -- The visitor of the dispatch loop.
  unfoldable pub handle : Running → InboundMsg → Running
  handle r (enter m) = after_call r.writer (
      book.add r.state
        (limit_order m.order_id m.price m.seq_num m.quantity (if m.side == 0 then buy else sell)))
  handle r (cancel m) = after_call r.writer (
      if m.quantity == 0
      then book.cancel r.state m.order_id
      else book.modify r.state m.order_id m.remaining_qty)
  handle r (replace m) = after_call r.writer (book.cancel r.state m.order_id)

  abbrev pub handle_decoded : Running → Option InboundMsg → Running
  handle_decoded r none = r
  handle_decoded r (some m) = handle r m

  -- The loop of `run`, on fuel: each round reads the type byte and the rest of the message, and
  -- stops at the end of the stream and at an unknown type.
  unfoldable pub run : ℕ → Running → List ℕ → Running
  run zero r stream = r
  run (suc fuel) r [] = r
  run (suc fuel) r (t ∷ stream) =
      let size = msg_size t in
      let buf = t ∷ take (size - 1) stream in
      let rest = run fuel (handle_decoded r (decode_inbound buf)) (drop (size - 1) stream) in
      if size == 0 then r else if ltb (length stream) (size - 1) then r else rest

  -- Every round uses up a byte, so the length of the stream is fuel enough.
  unfoldable pub run_stream : Running → List ℕ → Running
  run_stream r stream = run (length stream + 1) r stream
