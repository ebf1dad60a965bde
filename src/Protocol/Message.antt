-- ===== src/Protocol/Message.antt =====
-- The structs of protocol/messages.h. An array of padding bytes is kept as the number that it
-- stands for in little-endian order.
use lob_project.Base.{ℕ, ◌<◌, ◌^◌, ◌≡◌}
use lob_project.Protocol.MsgType

pub record EnterOrder : Type 0 where
  pub msg_type : ℕ
  pub side : ℕ
  pub padding : ℕ
  pub quantity : ℕ
  pub order_id : ℕ
  pub price : ℕ
  pub seq_num : ℕ

pub record CancelOrder : Type 0 where
  pub msg_type : ℕ
  pub padding : ℕ
  pub quantity : ℕ
  pub order_id : ℕ
  pub seq_num : ℕ
  pub remaining_qty : ℕ
  pub padding2 : ℕ

pub record ReplaceOrder : Type 0 where
  pub msg_type : ℕ
  pub padding : ℕ
  pub new_qty : ℕ
  pub order_id : ℕ
  pub new_price : ℕ
  pub seq_num : ℕ

pub record OrderAdded : Type 0 where
  pub msg_type : ℕ
  pub side : ℕ
  pub padding : ℕ
  pub qty : ℕ
  pub out_seq : ℕ
  pub order_id : ℕ
  pub price : ℕ

pub record OrderExecuted : Type 0 where
  pub msg_type : ℕ
  pub padding : ℕ
  pub out_seq : ℕ
  pub order_id : ℕ
  pub aggressor_id : ℕ
  pub price : ℕ
  pub exec_qty : ℕ
  pub remaining_qty : ℕ

pub record OrderCancelled : Type 0 where
  pub msg_type : ℕ
  pub padding : ℕ
  pub cancelled_qty : ℕ
  pub out_seq : ℕ
  pub order_id : ℕ

pub record Trade : Type 0 where
  pub msg_type : ℕ
  pub padding : ℕ
  pub qty : ℕ
  pub out_seq : ℕ
  pub trade_id : ℕ
  pub passive_id : ℕ
  pub aggressor_id : ℕ
  pub price : ℕ

-- The ranges of the fields, with the type byte of the message.
pub record IsEnterOrder (m : EnterOrder) : Type 0 where
  pub msg_type : m.msg_type ≡ MsgType.enter_order
  pub side : m.side < 256 ^ 1
  pub padding : m.padding < 256 ^ 2
  pub quantity : m.quantity < 256 ^ 4
  pub order_id : m.order_id < 256 ^ 8
  pub price : m.price < 256 ^ 8
  pub seq_num : m.seq_num < 256 ^ 8

pub record IsCancelOrder (m : CancelOrder) : Type 0 where
  pub msg_type : m.msg_type ≡ MsgType.cancel_order
  pub padding : m.padding < 256 ^ 3
  pub quantity : m.quantity < 256 ^ 4
  pub order_id : m.order_id < 256 ^ 8
  pub seq_num : m.seq_num < 256 ^ 8
  pub remaining_qty : m.remaining_qty < 256 ^ 4
  pub padding2 : m.padding2 < 256 ^ 4

pub record IsReplaceOrder (m : ReplaceOrder) : Type 0 where
  pub msg_type : m.msg_type ≡ MsgType.replace_order
  pub padding : m.padding < 256 ^ 3
  pub new_qty : m.new_qty < 256 ^ 4
  pub order_id : m.order_id < 256 ^ 8
  pub new_price : m.new_price < 256 ^ 8
  pub seq_num : m.seq_num < 256 ^ 8
