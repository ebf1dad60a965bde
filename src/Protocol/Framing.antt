-- ===== src/Protocol/Framing.antt =====
-- Which buffers are decoded, and how long the encoded messages are.
use lob_project.Base.{ℕ, ◌≤◌, ◌%◌, ◌≡◌, refl, ◌↔◌, ◌⊎◌, List, [], ◌∷◌, none, length, arith}
use lob_project.Bytes.{le_bytes}
use lob_project.Protocol.MsgType
use lob_project.Protocol.Layout
use lob_project.Protocol.Codec.{
  OutboundMsg, added, executed, cancelled, traded, is_message, peek_type, decode_enter_order,
  decode_cancel_order, decode_replace_order, decode_inbound, msg_size, encode,
}

abbrev pub IsInboundType : ℕ → Type 0
IsInboundType t =
    (t ≡ MsgType.enter_order) ⊎ ((t ≡ MsgType.cancel_order) ⊎ (t ≡ MsgType.replace_order))

-- A buffer is decoded exactly when it has 32 bytes and begins with an inbound type.
pub decode_inbound-ne-none :
    (buf : List ℕ)
    → (¬ (decode_inbound buf ≡ none)) ↔ ((32 ≤ length buf) × IsInboundType (peek_type buf))
unfolding decode_inbound decode_enter_order decode_cancel_order decode_replace_order is_message
decode_inbound-ne-none [] = (λ h. absurd (h refl), λ h. absurd (omega arith))
decode_inbound-ne-none (b ∷ buf) = ground arith

-- The type byte of an outbound message.
abbrev pub IsOutbound : OutboundMsg → Type 0
IsOutbound (added m) = m.msg_type ≡ MsgType.order_added
IsOutbound (executed m) = m.msg_type ≡ MsgType.order_executed
IsOutbound (cancelled m) = m.msg_type ≡ MsgType.order_cancelled
IsOutbound (traded m) = m.msg_type ≡ MsgType.trade

-- The encoded bytes of an outbound message are as many as the size that a reader looks up under
-- the first of them.
pub length-encode :
    (m : OutboundMsg) → IsOutbound m → length (encode m) ≡ msg_size (peek_type (encode m))
unfolding encode msg_size Layout.order_added Layout.order_executed Layout.order_cancelled
    Layout.trade le_bytes
length-encode (added m) h =
    let t : m.msg_type % 256 ≡ MsgType.order_added = omega arith in rw t refl
length-encode (executed m) h =
    let t : m.msg_type % 256 ≡ MsgType.order_executed = omega arith in rw t refl
length-encode (cancelled m) h =
    let t : m.msg_type % 256 ≡ MsgType.order_cancelled = omega arith in rw t refl
length-encode (traded m) h = let t : m.msg_type % 256 ≡ MsgType.trade = omega arith in rw t refl
