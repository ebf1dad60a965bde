-- ===== src/Itch/Examples.antt =====
-- A feed of four messages for one symbol: an order that is executed in part, then replaced.
use lob_project.Base.{
  ℕ, ◌≡◌, ◌↔◌, ◌≤◌, ◌-◌, refl, ap, some_inj, Bool, true, false, List, [], ◌∷◌, ◌++◌, some, arith,
  replicate, length, All, map,
}
use lob_project.SortedMap.{find, update}
use lob_project.Ingest.{
  LiveOrder, is_bid, side_map, new_book, on_add, add_to_level, put_live, emit_enter, is_tracked,
  record_fill, execute_live, take_from_level, remove_from_level, on_executed,
}
use lob_project.Ingest.Levels.{shown}
use lob_project.Ingest.Balance.{Balanced}
use lob_project.Itch.{message, matches_symbol, matches_chars, is_padding, read_itch_message}
use lob_project.Itch.Main.{Exit, parsed, start, step, visit, keep, ingest}
use lob_project.Itch.Feed.{Fed, Fitting, replay, replay-Balanced}
use lob_project.Itch.Ending.{ingest-ends}
use lob_project.Itch.Wire.{Head, WireMsg, IsWire, frame, meaning}
use lob_project.Itch.RoundTrip.{frames, ingest-frames, read_itch_message-frame}
use lob_project.Itch.Symbol.{matches_symbol_iff}

-- "AB", and the field that holds it.
abbrev symbol : List ℕ
symbol = 65 ∷ 66 ∷ []

abbrev field : List ℕ
field = 65 ∷ 66 ∷ 32 ∷ 32 ∷ 32 ∷ 32 ∷ 32 ∷ 32 ∷ []

abbrev head : Head
head = record { locate = 1; tracking = 0; timestamp_ns = 1000 }

abbrev bid : WireMsg
bid = WireMsg.add_order head 7 b'B' 100 field 5000

abbrev part : WireMsg
part = WireMsg.order_executed head 7 40 1

abbrev cut : WireMsg
cut = WireMsg.order_cancel head 7 10

-- A system event, which the parser skips.
abbrev event : WireMsg
event = WireMsg.other_message b'S' (0 ∷ 1 ∷ [])

abbrev feed : List WireMsg
feed = event ∷ bid ∷ part ∷ cut ∷ []

feed-IsWire : All IsWire feed
feed-IsWire = (
  (
    (
      (λ e. omega (arith, e)),
      (λ e. omega (arith, e)),
      (λ e. omega (arith, e)),
      (λ e. omega (arith, e)),
      (λ e. omega (arith, e)),
      (λ e. omega (arith, e)),
      (λ e. omega (arith, e)),
    ),
    omega arith,
  ),
  (
    (omega arith, omega arith, omega arith, refl, omega arith),
    (
      (omega arith, omega arith, omega arith, omega arith),
      ((omega arith, omega arith, omega arith), tt),
    ),
  ),
)

read_itch_message-frame_example :
    read_itch_message [] (frame event ++ 0 ∷ []) ≡ message (meaning event) (0 ∷ [])
read_itch_message-frame_example = read_itch_message-frame [] (0 ∷ []) event feed-IsWire.0

ingest-frames_example :
    ingest 5 (λ n. []) symbol start (frames feed)
    ≡ some (parsed (replay symbol start (map meaning feed)))
ingest-frames_example = ingest-frames feed 5 (λ n. []) symbol start feed-IsWire (omega arith)

ingest-ends_example : (e : Exit) × (ingest 3 (λ n. []) symbol start (0 ∷ 0 ∷ []) ≡ some e)
ingest-ends_example = ingest-ends 3 (λ n. []) symbol start (0 ∷ 0 ∷ []) (omega arith)

matches_symbol_iff_example :
    (matches_symbol field symbol ≡ true)
    ↔ ((length symbol ≤ 8) × (field ≡ symbol ++ replicate (8 - length symbol) b' '))
matches_symbol_iff_example = matches_symbol_iff field symbol refl

empty_level : (bid : Bool) (p : ℕ) → shown p (side_map new_book bid) ≡ 0
unfolding find
empty_level true p = refl
empty_level false p = refl

new_book-Balanced : Balanced new_book
unfolding find
new_book-Balanced = record {
  live_sorted = tt;
  sorted = (tt, tt);
  levels = λ bid p. empty_level bid p;
  small = λ bid p. omega arith;
}

feed-Fed : Fed symbol start (map meaning feed)
unfolding find update step visit keep on_add emit_enter add_to_level put_live is_bid is_tracked
    on_executed record_fill execute_live take_from_level remove_from_level matches_symbol
    matches_chars is_padding
feed-Fed = (
  tt,
  (
    (λ ours. refl),
    ((λ o h. let q = ap (λ (x : LiveOrder). x.shares) (some_inj h) in omega (arith, q)), (tt, tt)),
  ),
)

feed-Fitting : Fitting symbol start (map meaning feed)
unfolding find update step visit keep on_add emit_enter add_to_level put_live is_bid is_tracked
    on_executed record_fill execute_live take_from_level remove_from_level matches_symbol
    matches_chars is_padding
feed-Fitting = (tt, ((λ ours. omega arith), (tt, (tt, tt))))

replay-Balanced_example : Balanced (replay symbol start (map meaning feed)).book
replay-Balanced_example =
    replay-Balanced symbol start (map meaning feed) new_book-Balanced feed-Fed feed-Fitting
