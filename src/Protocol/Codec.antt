-- ===== src/Protocol/Codec.antt =====
-- engine/include/codec.h and engine/src/codec.cpp. A buffer is the list of its bytes; `decode`
-- returns `none` for false. `encode` returns the bytes that it writes, whose number is its result.
use lob_project.Base.{ℕ, Bool, List, [], ◌∷◌, Option, none, some, ltb, ◌==◌, if◌then◌else◌, length}
use lob_project.Bytes.{read_le}
use lob_project.Bytes.Slices.{slice}
use lob_project.Protocol.Message.{
  EnterOrder, CancelOrder, ReplaceOrder, OrderAdded, OrderExecuted, OrderCancelled, Trade,
}
use lob_project.Protocol.MsgType
use lob_project.Protocol.Layout

-- 0 for an empty buffer.
abbrev pub peek_type : List ℕ → ℕ
peek_type [] = 0
peek_type (b ∷ buf) = b

-- `sizeof` of each message, 0 for an unknown type.
unfoldable pub msg_size : ℕ → ℕ
msg_size t =
    if t == MsgType.enter_order
    then 32
    else if t == MsgType.cancel_order
    then 32
    else if t == MsgType.replace_order
    then 32
    else if t == MsgType.order_added
    then 32
    else if t == MsgType.order_executed
    then 48
    else if t == MsgType.order_cancelled
    then 24
    else if t == MsgType.trade
    then 48
    else 0

-- The two tests of each `decode`: the length and the type byte.
unfoldable pub is_message : ℕ → List ℕ → Bool
is_message t buf = if ltb (length buf) 32 then Bool.false else peek_type buf == t

unfoldable pub decode_enter_order : List ℕ → Option EnterOrder
decode_enter_order buf =
    if is_message MsgType.enter_order buf
    then some (record {
      msg_type = read_le (slice 0 1 buf);
      side = read_le (slice 1 1 buf);
      padding = read_le (slice 2 2 buf);
      quantity = read_le (slice 4 4 buf);
      order_id = read_le (slice 8 8 buf);
      price = read_le (slice 16 8 buf);
      seq_num = read_le (slice 24 8 buf);
    })
    else none

unfoldable pub decode_cancel_order : List ℕ → Option CancelOrder
decode_cancel_order buf =
    if is_message MsgType.cancel_order buf
    then some (record {
      msg_type = read_le (slice 0 1 buf);
      padding = read_le (slice 1 3 buf);
      quantity = read_le (slice 4 4 buf);
      order_id = read_le (slice 8 8 buf);
      seq_num = read_le (slice 16 8 buf);
      remaining_qty = read_le (slice 24 4 buf);
      padding2 = read_le (slice 28 4 buf);
    })
    else none

unfoldable pub decode_replace_order : List ℕ → Option ReplaceOrder
decode_replace_order buf =
    if is_message MsgType.replace_order buf
    then some (record {
      msg_type = read_le (slice 0 1 buf);
      padding = read_le (slice 1 3 buf);
      new_qty = read_le (slice 4 4 buf);
      order_id = read_le (slice 8 8 buf);
      new_price = read_le (slice 16 8 buf);
      seq_num = read_le (slice 24 8 buf);
    })
    else none

pub data InboundMsg : Type 0 where
  enter : EnterOrder → InboundMsg
  cancel : CancelOrder → InboundMsg
  replace : ReplaceOrder → InboundMsg

abbrev pub and_then {ℓ} : {A : Type ℓ} → Option A → (A → InboundMsg) → Option InboundMsg
and_then none f = none
and_then (some a) f = some (f a)

unfoldable pub decode_inbound : List ℕ → Option InboundMsg
decode_inbound [] = none
decode_inbound (b ∷ buf) =
    if b == MsgType.enter_order
    then and_then (decode_enter_order (b ∷ buf)) enter
    else if b == MsgType.cancel_order
    then and_then (decode_cancel_order (b ∷ buf)) cancel
    else if b == MsgType.replace_order
    then and_then (decode_replace_order (b ∷ buf)) replace
    else none

pub data OutboundMsg : Type 0 where
  added : OrderAdded → OutboundMsg
  executed : OrderExecuted → OutboundMsg
  cancelled : OrderCancelled → OutboundMsg
  traded : Trade → OutboundMsg

unfoldable pub encode : OutboundMsg → List ℕ
encode (added m) = Layout.order_added m
encode (executed m) = Layout.order_executed m
encode (cancelled m) = Layout.order_cancelled m
encode (traded m) = Layout.trade m
