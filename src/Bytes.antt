-- ===== src/Bytes.antt =====
-- Bytes in memory: the little-endian layout of the structs that the code copies by `memcpy`.
pub mod Slices
use native.Mathlib.Nat.{pow-suc}
use lob_project.Base.{
  ℕ, zero, suc, ◌+◌, ◌*◌, ◌/◌, ◌%◌, ◌^◌, ◌<◌, ◌≡◌, refl, ap, List, [], ◌∷◌, ◌++◌, reverse, arith,
  length, All,
}

abbrev pub IsByte : ℕ → Type 0
IsByte b = b < 256

-- The `n` bytes of a number, least significant first.
unfoldable pub le_bytes : ℕ → ℕ → List ℕ
le_bytes zero x = []
le_bytes (suc n) x = (x % 256) ∷ le_bytes n (x / 256)

unfoldable pub read_le : List ℕ → ℕ
read_le [] = 0
read_le (b ∷ bs) = b + 256 * read_le bs

pub length-le_bytes : (n x : ℕ) → length (le_bytes n x) ≡ n
unfolding le_bytes
length-le_bytes zero x = refl
length-le_bytes (suc n) x = ap suc (length-le_bytes n (x / 256))

-- A number that fits is read back from its bytes.
pub read_le-le_bytes : (n x : ℕ) → x < 256 ^ n → read_le (le_bytes n x) ≡ x
unfolding le_bytes read_le
read_le-le_bytes zero x h = omega arith
read_le-le_bytes (suc n) x h =
    omega (arith, read_le-le_bytes n (x / 256) (omega (arith, pow-suc 256 n)))

-- Bytes are the bytes of the number that they stand for.
pub le_bytes-read_le : (bs : List ℕ) → All IsByte bs → le_bytes (length bs) (read_le bs) ≡ bs
unfolding le_bytes read_le
le_bytes-read_le [] h = refl
le_bytes-read_le (b ∷ bs) h =
    let low : (b + 256 * read_le bs) % 256 ≡ b = omega arith in
    let high : (b + 256 * read_le bs) / 256 ≡ read_le bs = omega arith in
    rw (low, high, le_bytes-read_le bs h.1) refl

pub le_bytes-IsByte : (n x : ℕ) → All IsByte (le_bytes n x)
unfolding le_bytes
le_bytes-IsByte zero x = tt
le_bytes-IsByte (suc n) x = (omega arith, le_bytes-IsByte n (x / 256))

pub read_le-lt : (bs : List ℕ) → All IsByte bs → read_le bs < 256 ^ length bs
unfolding read_le
read_le-lt [] h = omega arith
read_le-lt (b ∷ bs) h = omega (arith, read_le-lt bs h.1, pow-suc 256 (length bs))
