-- ===== src/Ingest.antt =====
-- engine/include/ingest_book.h and engine/src/ingest_book.cpp: the book that is rebuilt from ITCH
-- events, and the fixture messages and fills that it writes. `live_` is a hash map that is never
-- iterated, so its order does not show; it is kept sorted as the other maps are. A handler returns
-- the new book with the messages that it writes to the fixture; their bytes are their layouts.
pub mod Levels
pub mod Balance
pub mod Handlers
use lob_project.Base.{
  ℕ, zero, suc, ◌+◌, ◌-◌, ◌%◌, u64_mod, Bool, List, [], ◌∷◌, ◌++◌, reverse, Option, none, some, min,
  leb, ◌==◌, if◌then◌else◌, add32, sub32, take,
}
use lob_project.SortedMap.{SortedMap, find, update, erase}
use lob_project.Protocol.Message.{EnterOrder, CancelOrder, Trade}
use lob_project.Protocol.MsgType
use lob_project.Protocol.Layout
use lob_project.Protocol.Codec.{InboundMsg, enter, cancel}
use lob_project.Bytes.{le_bytes}

pub record LiveOrder : Type 0 where
  pub order_ref : ℕ
  pub price : ℕ
  pub shares : ℕ
  pub side : ℕ

pub record IngestBook : Type 0 where
  pub live : SortedMap LiveOrder
  pub bids : SortedMap ℕ
  pub asks : SortedMap ℕ
  pub fills : List Trade
  pub seq_num : ℕ
  pub out_seq : ℕ

abbrev pub new_book : IngestBook
new_book = record { live = []; bids = []; asks = []; fills = []; seq_num = 0; out_seq = 0 }

-- A book, and what has been written to the fixture.
pub record Written : Type 0 where
  pub book : IngestBook
  pub fixture : List InboundMsg

unfoldable pub is_bid : ℕ → Bool
is_bid side = side == b'B'

abbrev pub next64 : ℕ → ℕ
next64 n = (n + 1) % u64_mod

unfoldable pub emit_enter : IngestBook → LiveOrder → Written
emit_enter b o =
    let seq = next64 b.seq_num in
    record {
      book = record b { seq_num = seq };
      fixture =
          enter (record {
            msg_type = MsgType.enter_order;
            side = if is_bid o.side then 0 else 1;
            padding = 0;
            quantity = o.shares;
            order_id = o.order_ref;
            price = o.price;
            seq_num = seq;
          })
          ∷ [];
    }

unfoldable pub emit_cancel : IngestBook → ℕ → ℕ → ℕ → Written
emit_cancel b order_ref quantity remaining =
    let seq = next64 b.seq_num in
    record {
      book = record b { seq_num = seq };
      fixture =
          cancel (record {
            msg_type = MsgType.cancel_order;
            padding = 0;
            quantity = quantity;
            order_id = order_ref;
            seq_num = seq;
            remaining_qty = remaining;
            padding2 = 0;
          })
          ∷ [];
    }

-- The map of a side, and the book with that map changed.
abbrev pub side_map : IngestBook → Bool → SortedMap ℕ
side_map b bid = if bid then b.bids else b.asks

abbrev pub with_side_map : IngestBook → Bool → SortedMap ℕ → IngestBook
with_side_map b bid m = record b {
  bids = if bid then m else b.bids;
  asks = if bid then b.asks else m;
}

unfoldable pub add_to_level : IngestBook → ℕ → ℕ → ℕ → IngestBook
add_to_level b side price quantity =
    with_side_map b (is_bid side)
      (update price 0 (λ total. add32 total quantity) (side_map b (is_bid side)))

unfoldable pub take_from_level : ℕ → ℕ → SortedMap ℕ → SortedMap ℕ
take_from_level price quantity m = elim (find price m) [
  | none ↦ m
  | some total ↦
      if leb total quantity then erase price m else update price 0 (λ t. sub32 t quantity) m
]

unfoldable pub remove_from_level : IngestBook → ℕ → ℕ → ℕ → IngestBook
remove_from_level b side price quantity =
    with_side_map b (is_bid side) (take_from_level price quantity (side_map b (is_bid side)))

unfoldable pub record_fill : IngestBook → ℕ → ℕ → ℕ → ℕ → IngestBook
record_fill b passive_ref price shares match_num =
    let seq = next64 b.out_seq in
    record b {
      out_seq = seq;
      fills =
          b.fills
          ++ record {
            msg_type = MsgType.trade;
            padding = 0;
            qty = shares;
            out_seq = seq;
            trade_id = match_num;
            passive_id = passive_ref;
            aggressor_id = 0;
            price = price;
          }
            ∷ [];
    }

unfoldable pub is_tracked : IngestBook → ℕ → Bool
is_tracked b ref = elim (find ref b.live) [ none ↦ Bool.false | some o ↦ Bool.true ]

-- `live_[ref] = o`.
unfoldable pub put_live : IngestBook → ℕ → LiveOrder → IngestBook
put_live b ref o = record b { live = update ref o (λ old. o) b.live }

unfoldable pub drop_live : IngestBook → ℕ → IngestBook
drop_live b ref = record b { live = erase ref b.live }

unfoldable pub on_add : IngestBook → ℕ → ℕ → ℕ → ℕ → Written
on_add b ref side shares price =
    let o : LiveOrder = record { order_ref = ref; price = price; shares = shares; side = side } in
    emit_enter (add_to_level (put_live b ref o) side price shares) o

-- The common end of the two executions: the shares leave the order, and the order goes with them.
unfoldable pub execute_live : IngestBook → ℕ → LiveOrder → ℕ → IngestBook
execute_live b ref o shares =
    if leb o.shares shares
    then drop_live b ref
    else put_live b ref (record o { shares = sub32 o.shares shares })

unfoldable pub on_executed : IngestBook → ℕ → ℕ → ℕ → IngestBook
on_executed b ref shares match_num = elim (find ref b.live) [
  | none ↦ b
  | some o ↦
      execute_live
        (remove_from_level (record_fill b ref o.price shares match_num) o.side o.price shares) ref o
        shares
]

unfoldable pub on_executed_price : IngestBook → ℕ → ℕ → ℕ → ℕ → IngestBook
on_executed_price b ref shares match_num price = elim (find ref b.live) [
  | none ↦ b
  | some o ↦
      execute_live
        (remove_from_level (record_fill b ref price shares match_num) o.side o.price shares) ref o
        shares
]

unfoldable pub on_cancel : IngestBook → ℕ → ℕ → Written
on_cancel b ref cancelled_shares = elim (find ref b.live) [
  | none ↦ record { book = b; fixture = [] }
  | some o ↦
      let actual = min cancelled_shares o.shares in
      let left = record o { shares = sub32 o.shares actual } in
      let w =
        emit_cancel (put_live (remove_from_level b o.side o.price actual) ref left) ref actual
          left.shares in
      if left.shares == 0 then record w { book = drop_live w.book ref } else w
]

unfoldable pub on_delete : IngestBook → ℕ → Written
on_delete b ref = elim (find ref b.live) [
  | none ↦ record { book = b; fixture = [] }
  | some o ↦
      let w = emit_cancel (remove_from_level b o.side o.price o.shares) ref 0 0 in
      record w { book = drop_live w.book ref }
]

unfoldable pub on_replace : IngestBook → ℕ → ℕ → ℕ → ℕ → Written
on_replace b orig neo shares price = elim (find orig b.live) [
  | none ↦ record { book = b; fixture = [] }
  | some old ↦
      let w = emit_cancel (remove_from_level b old.side old.price old.shares) orig 0 0 in
      let o : LiveOrder = record {
        order_ref = neo;
        price = price;
        shares = shares;
        side = old.side;
      } in
      let placed = add_to_level (put_live (drop_live w.book orig) neo o) old.side price shares in
      let e = emit_enter placed o in record e { fixture = w.fixture ++ e.fixture }
]

unfoldable pub trade_bytes : List Trade → List ℕ
trade_bytes [] = []
trade_bytes (t ∷ ts) = Layout.trade t ++ trade_bytes ts

unfoldable pub write_fills : IngestBook → List ℕ
write_fills b = trade_bytes b.fills

-- One line of the snapshot: side, price and quantity.
unfoldable pub snapshot_lines : ℕ → SortedMap ℕ → List ℕ
snapshot_lines side [] = []
snapshot_lines side ((price, quantity) ∷ m) =
    side ∷ (le_bytes 8 price ++ (le_bytes 4 quantity ++ snapshot_lines side m))

unfoldable pub write_snapshot : IngestBook → List ℕ
unfolding snapshot_lines
write_snapshot b = snapshot_lines 0 (take 10 (reverse b.bids)) ++ snapshot_lines 1 (take 10 b.asks)
