-- ===== src/Itch/RoundTrip.antt =====
-- What is framed as ITCH 5.0 lays it out is read as it is meant.
use mathlib.Core.List.{append_assoc}
use lob_project.Itch.Main.{Ingest, parsed, step, ingest}
use lob_project.Itch.Feed.{replay}
use lob_project.Base.{
  ℕ, ◌<◌, ◌≤◌, ◌≡◌, refl, List, [], ◌∷◌, ◌++◌, arith, some, length, length-append, ltb, ◌==◌, ◌||◌,
  ◌-◌, false, zero, suc, drop, All, map,
}
use lob_project.Bytes.{le_bytes}
use lob_project.Bytes.Slices.{take-append, drop-append}
use lob_project.Itch.{
  parse_body, parse_add, parse_executed, parse_executed_price, parse_cancel, parse_delete,
  parse_replace, message, unknown, read_body, read_itch_message,
}
use lob_project.Itch.Wire.{
  Head, WireMsg, add_order, add_order_mpid, order_executed, order_executed_price, order_cancel,
  order_delete, order_replace, other_message, IsOther, be_bytes, body, frame, meaning, IsWire,
  read_be-be_bytes, read_be48-be_bytes,
}

module _ (h : Head) (tail : List ℕ) where
  parse_body-order_delete :
      (ref : ℕ)
      → IsWire (order_delete h ref)
      → parse_body (body (order_delete h ref) ++ tail) ≡ meaning (order_delete h ref)
  unfolding parse_body parse_delete body be_bytes le_bytes
  parse_body-order_delete ref w =
      rw (read_be48-be_bytes h.timestamp_ns w.0, read_be-be_bytes 8 ref w.1) refl

  parse_body-order_cancel :
      (ref shares : ℕ)
      → IsWire (order_cancel h ref shares)
      → parse_body (body (order_cancel h ref shares) ++ tail) ≡ meaning (order_cancel h ref shares)
  unfolding parse_body parse_cancel body be_bytes le_bytes
  parse_body-order_cancel ref shares w =
      rw
        (
          read_be48-be_bytes h.timestamp_ns w.0,
          read_be-be_bytes 8 ref w.1,
          read_be-be_bytes 4 shares w.2,
        )
        refl

  parse_body-order_executed :
      (ref shares match_number : ℕ)
      → IsWire (order_executed h ref shares match_number)
      → parse_body (body (order_executed h ref shares match_number) ++ tail)
        ≡ meaning (order_executed h ref shares match_number)
  unfolding parse_body parse_executed body be_bytes le_bytes
  parse_body-order_executed ref shares match_number w =
      rw
        (
          read_be48-be_bytes h.timestamp_ns w.0,
          read_be-be_bytes 8 ref w.1,
          read_be-be_bytes 4 shares w.2,
          read_be-be_bytes 8 match_number w.3,
        )
        refl

  parse_body-order_executed_price :
      (ref shares match_number printable price : ℕ)
      → IsWire (order_executed_price h ref shares match_number printable price)
      → parse_body (body (order_executed_price h ref shares match_number printable price) ++ tail)
        ≡ meaning (order_executed_price h ref shares match_number printable price)
  unfolding parse_body parse_executed_price body be_bytes le_bytes
  parse_body-order_executed_price ref shares match_number printable price w =
      rw
        (
          read_be48-be_bytes h.timestamp_ns w.0,
          read_be-be_bytes 8 ref w.1,
          read_be-be_bytes 4 shares w.2,
          read_be-be_bytes 8 match_number w.3,
          read_be-be_bytes 4 price w.4,
        )
        refl

  parse_body-order_replace :
      (orig neo shares price : ℕ)
      → IsWire (order_replace h orig neo shares price)
      → parse_body (body (order_replace h orig neo shares price) ++ tail)
        ≡ meaning (order_replace h orig neo shares price)
  unfolding parse_body parse_replace body be_bytes le_bytes
  parse_body-order_replace orig neo shares price w =
      rw
        (
          read_be48-be_bytes h.timestamp_ns w.0,
          read_be-be_bytes 8 orig w.1,
          read_be-be_bytes 8 neo w.2,
          read_be-be_bytes 4 shares w.3,
          read_be-be_bytes 4 price w.4,
        )
        refl

  parse_body-add_order :
      (ref side shares : ℕ) (stock : List ℕ) (price : ℕ)
      → IsWire (add_order h ref side shares stock price)
      → parse_body (body (add_order h ref side shares stock price) ++ tail)
        ≡ meaning (add_order h ref side shares stock price)
  unfolding parse_body parse_add body be_bytes le_bytes
  parse_body-add_order ref side shares stock price w =
      rw
        (
          append_assoc stock (be_bytes 4 price) tail,
          take-append 8 stock (be_bytes 4 price ++ tail) w.3,
          drop-append 8 8 stock (be_bytes 4 price ++ tail) w.3 (omega arith),
          read_be48-be_bytes h.timestamp_ns w.0,
          read_be-be_bytes 8 ref w.1,
          read_be-be_bytes 4 shares w.2,
          read_be-be_bytes 4 price w.4,
        )
        refl

  parse_body-add_order_mpid :
      (ref side shares : ℕ) (stock : List ℕ) (price mpid : ℕ)
      → IsWire (add_order_mpid h ref side shares stock price mpid)
      → parse_body (body (add_order_mpid h ref side shares stock price mpid) ++ tail)
        ≡ meaning (add_order_mpid h ref side shares stock price mpid)
  unfolding parse_body parse_add body be_bytes le_bytes
  parse_body-add_order_mpid ref side shares stock price mpid w =
      let end = be_bytes 4 price ++ be_bytes 4 mpid in
      rw
        (
          append_assoc stock end tail,
          take-append 8 stock (end ++ tail) w.3,
          drop-append 8 8 stock (end ++ tail) w.3 (omega arith),
          read_be48-be_bytes h.timestamp_ns w.0,
          read_be-be_bytes 8 ref w.1,
          read_be-be_bytes 4 shares w.2,
          read_be-be_bytes 4 price w.4,
        )
        refl

parse_body-other_message :
    (tail : List ℕ) (type : ℕ) (fields : List ℕ)
    → IsOther type
    → parse_body (body (other_message type fields) ++ tail) ≡ unknown
unfolding parse_body body
parse_body-other_message tail type fields w =
    let a : (type == b'A') ≡ false = ground (arith, w.0) in
    let f : (type == b'F') ≡ false = ground (arith, w.1) in
    let e : (type == b'E') ≡ false = ground (arith, w.2) in
    let c : (type == b'C') ≡ false = ground (arith, w.3) in
    let x : (type == b'X') ≡ false = ground (arith, w.4) in
    let d : (type == b'D') ≡ false = ground (arith, w.5) in
    let u : (type == b'U') ≡ false = ground (arith, w.6) in rw (a, f, e, c, x, d, u) refl

-- Whatever follows the body in the buffer, the message is read from the body.
parse_body-body : (w : WireMsg) (tail : List ℕ) → IsWire w → parse_body (body w ++ tail) ≡ meaning w
parse_body-body (add_order h ref side shares stock price) tail =
    parse_body-add_order h tail ref side shares stock price
parse_body-body (add_order_mpid h ref side shares stock price mpid) tail =
    parse_body-add_order_mpid h tail ref side shares stock price mpid
parse_body-body (order_executed h ref shares match_number) tail =
    parse_body-order_executed h tail ref shares match_number
parse_body-body (order_executed_price h ref shares match_number printable price) tail =
    parse_body-order_executed_price h tail ref shares match_number printable price
parse_body-body (order_cancel h ref shares) tail = parse_body-order_cancel h tail ref shares
parse_body-body (order_delete h ref) tail = parse_body-order_delete h tail ref
parse_body-body (order_replace h orig neo shares price) tail =
    parse_body-order_replace h tail orig neo shares price
parse_body-body (other_message type fields) tail =
    λ w. parse_body-other_message tail type fields w.0

-- The sizes that engine/include/itch_parser.h lists, and that of a message of another type.
abbrev size : WireMsg → ℕ
size (add_order h ref side shares stock price) = 36
size (add_order_mpid h ref side shares stock price mpid) = 40
size (order_executed h ref shares match_number) = 31
size (order_executed_price h ref shares match_number printable price) = 36
size (order_cancel h ref shares) = 23
size (order_delete h ref) = 19
size (order_replace h orig neo shares price) = 35
size (other_message type fields) = suc (length fields)

length-body : (w : WireMsg) → IsWire w → length (body w) ≡ size w
unfolding body be_bytes le_bytes
length-body (add_order h ref side shares stock price) w =
    omega (arith, length-append stock (be_bytes 4 price), w.3)
length-body (add_order_mpid h ref side shares stock price mpid) w =
    omega (arith, length-append stock (be_bytes 4 price ++ be_bytes 4 mpid), w.3)
length-body (order_executed h ref shares match_number) w = refl
length-body (order_executed_price h ref shares match_number printable price) w = refl
length-body (order_cancel h ref shares) w = refl
length-body (order_delete h ref) w = refl
length-body (order_replace h orig neo shares price) w = refl
length-body (other_message type fields) w = refl

size_range : (w : WireMsg) → IsWire w → (0 < size w) × (size w ≤ 255)
size_range (add_order h ref side shares stock price) w = omega arith
size_range (add_order_mpid h ref side shares stock price mpid) w = omega arith
size_range (order_executed h ref shares match_number) w = omega arith
size_range (order_executed_price h ref shares match_number printable price) w = omega arith
size_range (order_cancel h ref shares) w = omega arith
size_range (order_delete h ref) w = omega arith
size_range (order_replace h orig neo shares price) w = omega arith
size_range (other_message type fields) w = omega (arith, w.1)

read_body-body :
    (stale rest : List ℕ) (w : WireMsg)
    → IsWire w
    → read_body stale (length (body w)) (body w ++ rest) ≡ message (meaning w) rest
unfolding read_body
read_body-body stale rest w h =
    let n = length-body w h in
    let range = size_range w h in
    let plausible : (length (body w) == 0 || ltb 255 (length (body w))) ≡ false = ground arith in
    let whole : ltb (length (body w ++ rest)) (length (body w)) ≡ false =
      (let l = length-append (body w) rest in ground arith) in
    let none_left : length (body w) - length (body w) ≡ 0 = omega arith in
    rw
      (
        plausible,
        whole,
        take-append (length (body w)) (body w) rest refl,
        drop-append (length (body w)) (length (body w)) (body w) rest refl (omega arith),
        none_left,
        parse_body-body w (drop (length (body w)) stale) h,
      )
      refl

-- A framed message of at most 255 bytes is read as it is meant and leaves the rest of the stream,
-- whatever the buffer held before: one of the seven types that the parser reads, whose fields fit,
-- as its fields, and one of any other type as `unknown`.
pub read_itch_message-frame :
    (stale rest : List ℕ) (w : WireMsg)
    → IsWire w
    → read_itch_message stale (frame w ++ rest) ≡ message (meaning w) rest
unfolding read_itch_message be_bytes le_bytes
read_itch_message-frame stale rest w h =
    let long : ltb (length (frame w ++ rest)) 2 ≡ false = ground arith in
    let n = length-body w h in
    let range = size_range w h in
    rw (long, read_be-be_bytes 2 (length (body w)) (omega arith)) (read_body-body stale rest w h)

-- The stream of a list of messages.
abbrev pub frames : List WireMsg → List ℕ
frames [] = []
frames (w ∷ ws) = frame w ++ frames ws

-- From a stream of framed messages, each of one of the seven types with fields that fit, or of
-- another type with at most 255 bytes, the loop ends cleanly at the end of the stream, with what
-- replaying the messages' meanings in their order leaves, given fuel for each of them and one pass
-- more, and whatever the buffer held before.
pub ingest-frames :
    (ws : List WireMsg) (fuel : ℕ) (stale : ℕ → List ℕ) (symbol : List ℕ) (s : Ingest)
    → All IsWire ws
    → length ws < fuel
    → ingest fuel stale symbol s (frames ws) ≡ some (parsed (replay symbol s (map meaning ws)))
unfolding ingest read_itch_message
ingest-frames ws zero stale symbol s h enough = absurd (omega arith)
ingest-frames [] (suc fuel) stale symbol s h enough = refl
ingest-frames (w ∷ ws) (suc fuel) stale symbol s h enough =
    rw (read_itch_message-frame (stale s.total) (frames ws) w h.0, ingest)
      (ingest-frames ws fuel stale symbol (step symbol s (meaning w)) h.1 (omega arith))
