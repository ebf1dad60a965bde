-- ===== src/Itch.antt =====
-- engine/include/itch_parser.h and engine/src/itch_parser.cpp: the parser of ITCH 5.0. The stream
-- is the list of the bytes still to be read; an exception is a result of its own. `buf` is not
-- initialised, so that a body that is shorter than its type's fields leaves bytes of the stack in
-- it: they are an argument of `read_itch_message`.
pub mod Wire
pub mod Symbol
pub mod Main
pub mod Feed
pub mod Ending
pub mod RoundTrip
mod Examples
use lob_project.Base.{
  ℕ, ◌+◌, ◌*◌, ◌^◌, Bool, List, [], ◌∷◌, ◌++◌, reverse, ltb, ◌==◌, ◌||◌, if◌then◌else◌, length,
  is_empty, get_or, take, drop,
}
use lob_project.Bytes.{le_bytes, read_le}
use lob_project.Bytes.Slices.{slice}

-- `__builtin_bswap` of a word of `n` bytes.
unfoldable pub bswap : ℕ → ℕ → ℕ
bswap n v = read_le (reverse (le_bytes n v))

unfoldable pub read_be : ℕ → List ℕ → ℕ
read_be n p = bswap n (read_le p)

-- The shifted bytes have no bit in common: `|` is the sum.
unfoldable pub read_be48 : List ℕ → ℕ
read_be48 p =
    get_or p 0 0 * 2 ^ 40
    + get_or p 1 0 * 2 ^ 32
    + get_or p 2 0 * 2 ^ 24
    + get_or p 3 0 * 2 ^ 16
    + get_or p 4 0 * 2 ^ 8
    + get_or p 5 0

pub record ParsedAddOrder : Type 0 where
  pub order_ref : ℕ
  pub timestamp_ns : ℕ
  pub shares : ℕ
  pub price : ℕ
  pub stock : List ℕ
  pub side : ℕ

pub record ParsedOrderExecuted : Type 0 where
  pub order_ref : ℕ
  pub match_number : ℕ
  pub timestamp_ns : ℕ
  pub exec_shares : ℕ
  pub price : ℕ
  pub has_price : Bool

pub record ParsedOrderCancel : Type 0 where
  pub order_ref : ℕ
  pub timestamp_ns : ℕ
  pub cancelled_shares : ℕ

pub record ParsedOrderDelete : Type 0 where
  pub order_ref : ℕ
  pub timestamp_ns : ℕ

pub record ParsedOrderReplace : Type 0 where
  pub orig_order_ref : ℕ
  pub new_order_ref : ℕ
  pub timestamp_ns : ℕ
  pub shares : ℕ
  pub price : ℕ

-- `std::monostate` is `unknown`.
pub data ItchMsg : Type 0 where
  added : ParsedAddOrder → ItchMsg
  executed : ParsedOrderExecuted → ItchMsg
  cancelled : ParsedOrderCancel → ItchMsg
  deleted : ParsedOrderDelete → ItchMsg
  replaced : ParsedOrderReplace → ItchMsg
  unknown : ItchMsg

unfoldable pub parse_add : List ℕ → ParsedAddOrder
parse_add buf = record {
  order_ref = read_be 8 (slice 11 8 buf);
  timestamp_ns = read_be48 (slice 5 6 buf);
  side = get_or buf 19 0;
  shares = read_be 4 (slice 20 4 buf);
  stock = slice 24 8 buf;
  price = read_be 4 (slice 32 4 buf);
}

unfoldable pub parse_executed : List ℕ → ParsedOrderExecuted
parse_executed buf = record {
  order_ref = read_be 8 (slice 11 8 buf);
  timestamp_ns = read_be48 (slice 5 6 buf);
  exec_shares = read_be 4 (slice 19 4 buf);
  match_number = read_be 8 (slice 23 8 buf);
  has_price = Bool.false;
  price = 0;
}

unfoldable pub parse_executed_price : List ℕ → ParsedOrderExecuted
parse_executed_price buf = record {
  order_ref = read_be 8 (slice 11 8 buf);
  timestamp_ns = read_be48 (slice 5 6 buf);
  exec_shares = read_be 4 (slice 19 4 buf);
  match_number = read_be 8 (slice 23 8 buf);
  has_price = Bool.true;
  price = read_be 4 (slice 32 4 buf);
}

unfoldable pub parse_cancel : List ℕ → ParsedOrderCancel
parse_cancel buf = record {
  order_ref = read_be 8 (slice 11 8 buf);
  timestamp_ns = read_be48 (slice 5 6 buf);
  cancelled_shares = read_be 4 (slice 19 4 buf);
}

unfoldable pub parse_delete : List ℕ → ParsedOrderDelete
parse_delete buf = record {
  order_ref = read_be 8 (slice 11 8 buf);
  timestamp_ns = read_be48 (slice 5 6 buf);
}

unfoldable pub parse_replace : List ℕ → ParsedOrderReplace
parse_replace buf = record {
  orig_order_ref = read_be 8 (slice 11 8 buf);
  new_order_ref = read_be 8 (slice 19 8 buf);
  timestamp_ns = read_be48 (slice 5 6 buf);
  shares = read_be 4 (slice 27 4 buf);
  price = read_be 4 (slice 31 4 buf);
}

-- The `switch` on the first byte.
unfoldable pub parse_body : List ℕ → ItchMsg
parse_body buf =
    let t = get_or buf 0 0 in
    if t == b'A'
    then added (parse_add buf)
    else if t == b'F'
    then added (parse_add buf)
    else if t == b'E'
    then executed (parse_executed buf)
    else if t == b'C'
    then executed (parse_executed_price buf)
    else if t == b'X'
    then cancelled (parse_cancel buf)
    else if t == b'D'
    then deleted (parse_delete buf)
    else if t == b'U'
    then replaced (parse_replace buf)
    else unknown

pub data ParseError : Type 0 where
  truncated_prefix : ParseError
  implausible_length : ParseError
  truncated_body : ParseError

-- A message with the rest of the stream, its clean end, or an exception.
pub data ReadResult : Type 0 where
  message : ItchMsg → List ℕ → ReadResult
  end_of_stream : ReadResult
  throws : ParseError → ReadResult

-- The body is read into the front of `buf`, which held `stale`.
unfoldable pub read_body : List ℕ → ℕ → List ℕ → ReadResult
read_body stale body_len input =
    if body_len == 0 || ltb 255 body_len
    then throws implausible_length
    else if ltb (length input) body_len
    then throws truncated_body
    else message (parse_body (take body_len input ++ drop body_len stale)) (drop body_len input)

unfoldable pub read_itch_message : List ℕ → List ℕ → ReadResult
read_itch_message stale input =
    if ltb (length input) 2
    then if is_empty input then end_of_stream else throws truncated_prefix
    else read_body stale (read_be 2 (slice 0 2 input)) (drop 2 input)

-- The two loops over `stock`: the characters of the symbol, then the padding.
unfoldable pub is_padding : List ℕ → Bool
is_padding [] = Bool.true
is_padding (b ∷ stock) = if b == b' ' then is_padding stock else Bool.false

unfoldable pub matches_chars : List ℕ → List ℕ → Bool
matches_chars stock [] = is_padding stock
matches_chars [] (c ∷ symbol) = Bool.false
matches_chars (b ∷ stock) (c ∷ symbol) = if b == c then matches_chars stock symbol else Bool.false

unfoldable pub matches_symbol : List ℕ → List ℕ → Bool
matches_symbol stock symbol =
    if ltb 8 (length symbol) then Bool.false else matches_chars stock symbol
