-- ===== src/Protocol/Layout.antt =====
-- The layout of the structs of protocol/messages.h in memory, which is their layout on the wire.
use lob_project.Base.{ℕ, List, ◌++◌}
use lob_project.Bytes.{le_bytes}
use lob_project.Protocol.Message.{
  EnterOrder, CancelOrder, ReplaceOrder, OrderAdded, OrderExecuted, OrderCancelled, Trade,
}

unfoldable pub enter_order : EnterOrder → List ℕ
enter_order m =
    le_bytes 1 m.msg_type
    ++ (le_bytes 1 m.side
        ++ (le_bytes 2 m.padding
            ++ (le_bytes 4 m.quantity
                ++ (le_bytes 8 m.order_id ++ (le_bytes 8 m.price ++ le_bytes 8 m.seq_num)))))

unfoldable pub cancel_order : CancelOrder → List ℕ
cancel_order m =
    le_bytes 1 m.msg_type
    ++ (le_bytes 3 m.padding
        ++ (le_bytes 4 m.quantity
            ++ (le_bytes 8 m.order_id
                ++ (le_bytes 8 m.seq_num
                    ++ (le_bytes 4 m.remaining_qty ++ le_bytes 4 m.padding2)))))

unfoldable pub replace_order : ReplaceOrder → List ℕ
replace_order m =
    le_bytes 1 m.msg_type
    ++ (le_bytes 3 m.padding
        ++ (le_bytes 4 m.new_qty
            ++ (le_bytes 8 m.order_id ++ (le_bytes 8 m.new_price ++ le_bytes 8 m.seq_num))))

unfoldable pub order_added : OrderAdded → List ℕ
order_added m =
    le_bytes 1 m.msg_type
    ++ (le_bytes 1 m.side
        ++ (le_bytes 2 m.padding
            ++ (le_bytes 4 m.qty
                ++ (le_bytes 8 m.out_seq ++ (le_bytes 8 m.order_id ++ le_bytes 8 m.price)))))

unfoldable pub order_executed : OrderExecuted → List ℕ
order_executed m =
    le_bytes 1 m.msg_type
    ++ (le_bytes 7 m.padding
        ++ (le_bytes 8 m.out_seq
            ++ (le_bytes 8 m.order_id
                ++ (le_bytes 8 m.aggressor_id
                    ++ (le_bytes 8 m.price
                        ++ (le_bytes 4 m.exec_qty ++ le_bytes 4 m.remaining_qty))))))

unfoldable pub order_cancelled : OrderCancelled → List ℕ
order_cancelled m =
    le_bytes 1 m.msg_type
    ++ (le_bytes 3 m.padding
        ++ (le_bytes 4 m.cancelled_qty ++ (le_bytes 8 m.out_seq ++ le_bytes 8 m.order_id)))

unfoldable pub trade : Trade → List ℕ
trade m =
    le_bytes 1 m.msg_type
    ++ (le_bytes 3 m.padding
        ++ (le_bytes 4 m.qty
            ++ (le_bytes 8 m.out_seq
                ++ (le_bytes 8 m.trade_id
                    ++ (le_bytes 8 m.passive_id
                        ++ (le_bytes 8 m.aggressor_id ++ le_bytes 8 m.price))))))
