-- ===== src/Itch/Main.antt =====
-- engine/src/itch_ingest.cpp: the loop of `main` over the ITCH stream and the visitor of a message.
-- The arguments, the files' paths and their opening are left out: the files are what is written to
-- them. `stale total` is what the uninitialised buffer holds when message `total` is read.
use lob_project.Base.{
  ℕ, zero, suc, ◌%◌, ◌+◌, u64_mod, List, [], ◌++◌, Option, none, some, if◌then◌else◌,
}
use lob_project.Protocol.Codec.{InboundMsg}
use lob_project.Ingest.{
  IngestBook, Written, new_book, is_tracked, on_add, on_executed, on_executed_price, on_cancel,
  on_delete, on_replace, write_fills, write_snapshot,
}
use lob_project.Itch.{
  ItchMsg, added, executed, cancelled, deleted, replaced, unknown, ParseError, message,
  end_of_stream, throws, read_itch_message, matches_symbol,
}

-- The book with what is in `fixture.bin` so far, and the two counters.
pub record Ingest : Type 0 where
  pub book : IngestBook
  pub fixture : List InboundMsg
  pub total : ℕ
  pub kept : ℕ

abbrev pub start : Ingest
start = record { book = new_book; fixture = []; total = 0; kept = 0 }

-- A handler's result, where the message counts as kept.
unfoldable pub keep : Ingest → Written → Ingest
keep s w = record s {
  book = w.book;
  fixture = s.fixture ++ w.fixture;
  kept = (s.kept + 1) % u64_mod;
}

abbrev pub silent : IngestBook → Written
silent b = record { book = b; fixture = [] }

unfoldable pub visit : List ℕ → Ingest → ItchMsg → Ingest
visit symbol s (added m) =
    if matches_symbol m.stock symbol
    then keep s (on_add s.book m.order_ref m.side m.shares m.price)
    else s
visit symbol s (executed m) =
    if is_tracked s.book m.order_ref
    then keep s (
        silent (
          if m.has_price
          then on_executed_price s.book m.order_ref m.exec_shares m.match_number m.price
          else on_executed s.book m.order_ref m.exec_shares m.match_number))
    else s
visit symbol s (cancelled m) =
    if is_tracked s.book m.order_ref
    then keep s (on_cancel s.book m.order_ref m.cancelled_shares)
    else s
visit symbol s (deleted m) =
    if is_tracked s.book m.order_ref then keep s (on_delete s.book m.order_ref) else s
visit symbol s (replaced m) =
    if is_tracked s.book m.orig_order_ref
    then keep s (on_replace s.book m.orig_order_ref m.new_order_ref m.shares m.price)
    else s
visit symbol s unknown = s

-- One pass of the loop's body: `++total`, then the visitor.
unfoldable pub step : List ℕ → Ingest → ItchMsg → Ingest
step symbol s m = visit symbol (record s { total = (s.total + 1) % u64_mod }) m

-- How `main` ends: the exit code is 0 or 1, and after a parse error the last two files are empty.
pub data Exit : Type 0 where
  parsed : Ingest → Exit
  failed : ParseError → Ingest → Exit

-- The fuel bounds the number of messages; `none` stands for a loop that has not ended by then.
unfoldable pub ingest : ℕ → (ℕ → List ℕ) → List ℕ → Ingest → List ℕ → Option Exit
ingest zero stale symbol s input = none
ingest (suc fuel) stale symbol s input = elim (read_itch_message (stale s.total) input) [
  | message m rest ↦ ingest fuel stale symbol (step symbol s m) rest
  | end_of_stream ↦ some (parsed s)
  | throws e ↦ some (failed e s)
]

unfoldable pub exit_code : Exit → ℕ
exit_code (parsed s) = 0
exit_code (failed e s) = 1

unfoldable pub fills_file : Exit → List ℕ
fills_file (parsed s) = write_fills s.book
fills_file (failed e s) = []

unfoldable pub snapshot_file : Exit → List ℕ
snapshot_file (parsed s) = write_snapshot s.book
snapshot_file (failed e s) = []
