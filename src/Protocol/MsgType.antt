-- ===== src/Protocol/MsgType.antt =====
-- protocol/message_types.h: `MsgType`, by the byte that stands for it.
use lob_project.Base.{ℕ}

abbrev pub enter_order : ℕ
enter_order = 0x01

abbrev pub cancel_order : ℕ
cancel_order = 0x02

abbrev pub replace_order : ℕ
replace_order = 0x03

abbrev pub order_added : ℕ
order_added = 0x81

abbrev pub order_executed : ℕ
order_executed = 0x82

abbrev pub order_cancelled : ℕ
order_cancelled = 0x83

abbrev pub trade : ℕ
trade = 0x84
