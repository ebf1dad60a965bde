-- ===== src/Protocol/RoundTrip.antt =====
-- What is laid out in memory is decoded again, field by field.
use lob_project.Base.{
  ℕ, [], ◌<◌, ◌≡◌, refl, ◌∙◌, List, ◌++◌, some, none, true, if◌then◌else◌, ◌==◌, ◌≤◌, ◌∷◌, ◌%◌,
  length, arith,
}
use lob_project.Bytes.{le_bytes, read_le-le_bytes}
use lob_project.Protocol.Message.{
  EnterOrder, CancelOrder, ReplaceOrder, IsEnterOrder, IsCancelOrder, IsReplaceOrder,
}
use lob_project.Protocol.MsgType
use lob_project.Protocol.Layout
use lob_project.Protocol.Codec.{
  InboundMsg, enter, cancel, replace, is_message, peek_type, and_then, decode_enter_order,
  decode_cancel_order, decode_replace_order, decode_inbound,
}

is_message_long :
    (t : ℕ) (buf : List ℕ) → 32 ≤ length buf → peek_type buf ≡ t → is_message t buf ≡ true
unfolding is_message
is_message_long t buf h e = ground arith

type_byte : (t m : ℕ) → m ≡ t → t < 256 → m % 256 ≡ t
type_byte t m e h = omega arith

module _ (m : EnterOrder) (rest : List ℕ) (h : IsEnterOrder m) where
  decode_enter_order-enter_order : decode_enter_order (Layout.enter_order m ++ rest) ≡ some m
  unfolding decode_enter_order Layout.enter_order le_bytes
  decode_enter_order-enter_order =
      rw
        (
          is_message_long MsgType.enter_order (Layout.enter_order m ++ rest) (omega arith)
              (type_byte MsgType.enter_order m.msg_type h.msg_type (omega arith)),
          read_le-le_bytes 1 m.msg_type (omega arith),
          read_le-le_bytes 1 m.side h.side,
          read_le-le_bytes 2 m.padding h.padding,
          read_le-le_bytes 4 m.quantity h.quantity,
          read_le-le_bytes 8 m.order_id h.order_id,
          read_le-le_bytes 8 m.price h.price,
          read_le-le_bytes 8 m.seq_num h.seq_num,
        )
        refl

  enter_order_pos : 0 < length (Layout.enter_order m ++ rest)
  unfolding Layout.enter_order le_bytes
  enter_order_pos = omega arith

  enter_order_type : peek_type (Layout.enter_order m ++ rest) ≡ MsgType.enter_order
  unfolding Layout.enter_order le_bytes
  enter_order_type = type_byte MsgType.enter_order m.msg_type h.msg_type (omega arith)

module _ (m : CancelOrder) (rest : List ℕ) (h : IsCancelOrder m) where
  decode_cancel_order-cancel_order : decode_cancel_order (Layout.cancel_order m ++ rest) ≡ some m
  unfolding decode_cancel_order Layout.cancel_order le_bytes
  decode_cancel_order-cancel_order =
      rw
        (
          is_message_long MsgType.cancel_order (Layout.cancel_order m ++ rest) (omega arith)
              (type_byte MsgType.cancel_order m.msg_type h.msg_type (omega arith)),
          read_le-le_bytes 1 m.msg_type (omega arith),
          read_le-le_bytes 3 m.padding h.padding,
          read_le-le_bytes 4 m.quantity h.quantity,
          read_le-le_bytes 8 m.order_id h.order_id,
          read_le-le_bytes 8 m.seq_num h.seq_num,
          read_le-le_bytes 4 m.remaining_qty h.remaining_qty,
          read_le-le_bytes 4 m.padding2 h.padding2,
        )
        refl

  cancel_order_pos : 0 < length (Layout.cancel_order m ++ rest)
  unfolding Layout.cancel_order le_bytes
  cancel_order_pos = omega arith

  cancel_order_type : peek_type (Layout.cancel_order m ++ rest) ≡ MsgType.cancel_order
  unfolding Layout.cancel_order le_bytes
  cancel_order_type = type_byte MsgType.cancel_order m.msg_type h.msg_type (omega arith)

module _ (m : ReplaceOrder) (rest : List ℕ) (h : IsReplaceOrder m) where
  decode_replace_order-replace_order :
      decode_replace_order (Layout.replace_order m ++ rest) ≡ some m
  unfolding decode_replace_order Layout.replace_order le_bytes
  decode_replace_order-replace_order =
      rw
        (
          is_message_long MsgType.replace_order (Layout.replace_order m ++ rest) (omega arith)
              (type_byte MsgType.replace_order m.msg_type h.msg_type (omega arith)),
          read_le-le_bytes 1 m.msg_type (omega arith),
          read_le-le_bytes 3 m.padding h.padding,
          read_le-le_bytes 4 m.new_qty h.new_qty,
          read_le-le_bytes 8 m.order_id h.order_id,
          read_le-le_bytes 8 m.new_price h.new_price,
          read_le-le_bytes 8 m.seq_num h.seq_num,
        )
        refl

  replace_order_pos : 0 < length (Layout.replace_order m ++ rest)
  unfolding Layout.replace_order le_bytes
  replace_order_pos = omega arith

  replace_order_type : peek_type (Layout.replace_order m ++ rest) ≡ MsgType.replace_order
  unfolding Layout.replace_order le_bytes
  replace_order_type = type_byte MsgType.replace_order m.msg_type h.msg_type (omega arith)

-- The layout of an inbound message, and the ranges of its fields.
abbrev pub layout : InboundMsg → List ℕ
layout (enter m) = Layout.enter_order m
layout (cancel m) = Layout.cancel_order m
layout (replace m) = Layout.replace_order m

abbrev pub IsInbound : InboundMsg → Type 0
IsInbound (enter m) = IsEnterOrder m
IsInbound (cancel m) = IsCancelOrder m
IsInbound (replace m) = IsReplaceOrder m

dispatch :
    (t : ℕ) (buf : List ℕ)
    → 0 < length buf
    → peek_type buf ≡ t
    → decode_inbound buf ≡ (
        if t == MsgType.enter_order
        then and_then (decode_enter_order buf) enter
        else if t == MsgType.cancel_order
        then and_then (decode_cancel_order buf) cancel
        else if t == MsgType.replace_order
        then and_then (decode_replace_order buf) replace
        else none)
unfolding decode_inbound
dispatch t [] h e = absurd (omega arith)
dispatch t (b ∷ buf) h e = rw e refl

-- A message whose fields fit is decoded from its layout, whatever bytes follow it.
pub decode_inbound-layout :
    (m : InboundMsg) (rest : List ℕ) → IsInbound m → decode_inbound (layout m ++ rest) ≡ some m
decode_inbound-layout (enter m) rest h =
    dispatch MsgType.enter_order (layout (enter m) ++ rest) (enter_order_pos m rest h)
      (enter_order_type m rest h)
    ∙ rw (decode_enter_order-enter_order m rest h) refl
decode_inbound-layout (cancel m) rest h =
    dispatch MsgType.cancel_order (layout (cancel m) ++ rest) (cancel_order_pos m rest h)
      (cancel_order_type m rest h)
    ∙ rw (decode_cancel_order-cancel_order m rest h) refl
decode_inbound-layout (replace m) rest h =
    dispatch MsgType.replace_order (layout (replace m) ++ rest) (replace_order_pos m rest h)
      (replace_order_type m rest h)
    ∙ rw (decode_replace_order-replace_order m rest h) refl
