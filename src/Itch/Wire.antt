-- ===== src/Itch/Wire.antt =====
-- The ITCH 5.0 layout of the messages that the parser reads: big-endian fields behind a length.
use mathlib.Core.Path.{subst}
use mathlib.Core.List.{reverse-reverse}
use lob_project.Base.{
  ℕ, ◌^◌, ◌<◌, ◌≡◌, ◌≢◌, ◌∙◌, List, ◌∷◌, ◌++◌, reverse, arith, length, length-reverse, true, false,
  All-reverse,
}
use lob_project.Bytes.{
  le_bytes, read_le, IsByte, length-le_bytes, read_le-le_bytes, le_bytes-read_le, le_bytes-IsByte,
}
use lob_project.Itch.{
  bswap, read_be, read_be48, ItchMsg, added, executed, cancelled, deleted, replaced, unknown,
}

unfoldable pub be_bytes : ℕ → ℕ → List ℕ
be_bytes n x = reverse (le_bytes n x)

pub length-be_bytes : (n x : ℕ) → length (be_bytes n x) ≡ n
unfolding be_bytes
length-be_bytes n x = length-reverse (le_bytes n x) ∙ length-le_bytes n x

-- Swapping the bytes of a big-endian word that is loaded as a little-endian one gives its value.
pub read_be-be_bytes : (n x : ℕ) → x < 256 ^ n → read_be n (be_bytes n x) ≡ x
unfolding read_be bswap be_bytes
read_be-be_bytes n x h =
    let bytes : le_bytes n (read_le (reverse (le_bytes n x))) ≡ reverse (le_bytes n x) =
      subst (λ k. le_bytes k (read_le (reverse (le_bytes n x))) ≡ reverse (le_bytes n x))
        (length-be_bytes n x)
        (le_bytes-read_le (reverse (le_bytes n x))
          (All-reverse IsByte (le_bytes n x) (le_bytes-IsByte n x))) in
    rw (bytes, reverse-reverse (le_bytes n x)) (read_le-le_bytes n x h)

pub read_be48-be_bytes : (x : ℕ) → x < 256 ^ 6 → read_be48 (be_bytes 6 x) ≡ x
unfolding read_be48 be_bytes le_bytes
read_be48-be_bytes x h = omega arith

-- The fields that every message that the parser reads starts with.
pub record Head : Type 0 where
  pub locate : ℕ
  pub tracking : ℕ
  pub timestamp_ns : ℕ

-- The seven types that the parser reads, and a message of any other type with what it holds.
pub data WireMsg : Type 0 where
  add_order : Head → (ref side shares : ℕ) → (stock : List ℕ) → (price : ℕ) → WireMsg
  add_order_mpid : Head → (ref side shares : ℕ) → (stock : List ℕ) → (price mpid : ℕ) → WireMsg
  order_executed : Head → (ref shares match_number : ℕ) → WireMsg
  order_executed_price : Head → (ref shares match_number printable price : ℕ) → WireMsg
  order_cancel : Head → (ref shares : ℕ) → WireMsg
  order_delete : Head → (ref : ℕ) → WireMsg
  order_replace : Head → (orig neo shares price : ℕ) → WireMsg
  other_message : (type : ℕ) → (fields : List ℕ) → WireMsg

-- The type byte and the head, in front of the fields.
abbrev pub headed : ℕ → Head → List ℕ → List ℕ
headed t h fields =
    t ∷ (be_bytes 2 h.locate ++ (be_bytes 2 h.tracking ++ (be_bytes 6 h.timestamp_ns ++ fields)))

unfoldable pub body : WireMsg → List ℕ
body (add_order h ref side shares stock price) =
    headed b'A' h (be_bytes 8 ref ++ side ∷ (be_bytes 4 shares ++ (stock ++ be_bytes 4 price)))
body (add_order_mpid h ref side shares stock price mpid) = headed b'F' h (
    be_bytes 8 ref
    ++ side ∷ (be_bytes 4 shares ++ (stock ++ (be_bytes 4 price ++ be_bytes 4 mpid))))
body (order_executed h ref shares match_number) =
    headed b'E' h (be_bytes 8 ref ++ (be_bytes 4 shares ++ be_bytes 8 match_number))
body (order_executed_price h ref shares match_number printable price) = headed b'C' h (
    be_bytes 8 ref
    ++ (be_bytes 4 shares ++ (be_bytes 8 match_number ++ printable ∷ be_bytes 4 price)))
body (order_cancel h ref shares) = headed b'X' h (be_bytes 8 ref ++ be_bytes 4 shares)
body (order_delete h ref) = headed b'D' h (be_bytes 8 ref)
body (order_replace h orig neo shares price) =
    headed b'U' h (be_bytes 8 orig ++ (be_bytes 8 neo ++ (be_bytes 4 shares ++ be_bytes 4 price)))
body (other_message type fields) = type ∷ fields

abbrev pub frame : WireMsg → List ℕ
frame w = be_bytes 2 (length (body w)) ++ body w

-- What the parser should make of it.
abbrev pub meaning : WireMsg → ItchMsg
meaning (add_order h ref side shares stock price) = added (record {
  order_ref = ref;
  timestamp_ns = h.timestamp_ns;
  shares = shares;
  price = price;
  stock = stock;
  side = side;
})
meaning (add_order_mpid h ref side shares stock price mpid) = added (record {
  order_ref = ref;
  timestamp_ns = h.timestamp_ns;
  shares = shares;
  price = price;
  stock = stock;
  side = side;
})
meaning (order_executed h ref shares match_number) = executed (record {
  order_ref = ref;
  match_number = match_number;
  timestamp_ns = h.timestamp_ns;
  exec_shares = shares;
  price = 0;
  has_price = false;
})
meaning (order_executed_price h ref shares match_number printable price) = executed (record {
  order_ref = ref;
  match_number = match_number;
  timestamp_ns = h.timestamp_ns;
  exec_shares = shares;
  price = price;
  has_price = true;
})
meaning (order_cancel h ref shares) =
    cancelled (record { order_ref = ref; timestamp_ns = h.timestamp_ns; cancelled_shares = shares })
meaning (order_delete h ref) = deleted (record { order_ref = ref; timestamp_ns = h.timestamp_ns })
meaning (order_replace h orig neo shares price) = replaced (record {
  orig_order_ref = orig;
  new_order_ref = neo;
  timestamp_ns = h.timestamp_ns;
  shares = shares;
  price = price;
})
meaning (other_message type fields) = unknown

-- The type is none of those that the parser reads.
abbrev pub IsOther : ℕ → Type 0
IsOther t = (t ≢ b'A') × (t ≢ b'F') × (t ≢ b'E') × (t ≢ b'C') × (t ≢ b'X') × (t ≢ b'D') × (t ≢ b'U')

-- The ranges of the fields that the parser reads, and the length of a message of another type.
abbrev pub IsWire : WireMsg → Type 0
IsWire (add_order h ref side shares stock price) =
    (h.timestamp_ns < 256 ^ 6)
    × (ref < 256 ^ 8)
    × (shares < 256 ^ 4)
    × (length stock ≡ 8)
    × (price < 256 ^ 4)
IsWire (add_order_mpid h ref side shares stock price mpid) =
    (h.timestamp_ns < 256 ^ 6)
    × (ref < 256 ^ 8)
    × (shares < 256 ^ 4)
    × (length stock ≡ 8)
    × (price < 256 ^ 4)
IsWire (order_executed h ref shares match_number) =
    (h.timestamp_ns < 256 ^ 6) × (ref < 256 ^ 8) × (shares < 256 ^ 4) × (match_number < 256 ^ 8)
IsWire (order_executed_price h ref shares match_number printable price) =
    (h.timestamp_ns < 256 ^ 6)
    × (ref < 256 ^ 8)
    × (shares < 256 ^ 4)
    × (match_number < 256 ^ 8)
    × (price < 256 ^ 4)
IsWire (order_cancel h ref shares) =
    (h.timestamp_ns < 256 ^ 6) × (ref < 256 ^ 8) × (shares < 256 ^ 4)
IsWire (order_delete h ref) = (h.timestamp_ns < 256 ^ 6) × (ref < 256 ^ 8)
IsWire (order_replace h orig neo shares price) =
    (h.timestamp_ns < 256 ^ 6)
    × (orig < 256 ^ 8)
    × (neo < 256 ^ 8)
    × (shares < 256 ^ 4)
    × (price < 256 ^ 4)
IsWire (other_message type fields) = IsOther type × (length fields < 255)
