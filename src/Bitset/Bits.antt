-- ===== src/Bitset/Bits.antt =====
-- The bits of a 64-bit word, `__builtin_ctzll`, which counts the zeros below the lowest one, and
-- `__builtin_clzll`, which counts those above the highest one.
use native.Mathlib.Nat.{pow-suc}
use lob_project.Base.{
  ℕ, zero, suc, ◌/◌, ◌%◌, ◌^◌, ◌<◌, ◌≤◌, ◌-◌, ◌≢◌, ◌≡◌, refl, ◌==◌, if◌then◌else◌, arith,
  Bool-cases, inl, inr,
}

unfoldable pub bit : ℕ → ℕ → ℕ
bit w zero = w % 2
bit w (suc i) = bit (w / 2) i

unfoldable pub ctz_below : ℕ → ℕ → ℕ
ctz_below zero w = 0
ctz_below (suc n) w = let more = suc (ctz_below n (w / 2)) in if w % 2 == 1 then 0 else more

abbrev pub ctz : ℕ → ℕ
ctz w = ctz_below 64 w

unfoldable pub clz_below : ℕ → ℕ → ℕ
clz_below zero w = 0
clz_below (suc n) w = let more = suc (clz_below n w) in if bit w n == 1 then 0 else more

abbrev pub clz : ℕ → ℕ
clz w = clz_below 64 w

abbrev pub last_one : ℕ → ℕ
last_one w = 63 - clz w

pub bit-zero : (i : ℕ) → bit 0 i ≡ 0
unfolding bit
bit-zero zero = refl
bit-zero (suc i) = bit-zero i

-- The counted position holds a one, and only zeros are below it.
pub bit-ctz_below : (n w : ℕ) → 0 < w → w < 2 ^ n → bit w (ctz_below n w) ≡ 1
unfolding bit ctz_below
bit-ctz_below zero w pos h = absurd (omega arith)
bit-ctz_below (suc n) w pos h = elim (Bool-cases (w % 2 == 1)) [
  | inl odd ↦ rw odd (ground arith)
  | inr even ↦
      let rest : w % 2 ≡ 0 = ground arith in
      rw even (bit-ctz_below n (w / 2) (omega arith) (omega (arith, pow-suc 2 n)))
]

pub ctz_below-lt : (n w : ℕ) → 0 < w → w < 2 ^ n → ctz_below n w < n
unfolding ctz_below
ctz_below-lt zero w pos h = absurd (omega arith)
ctz_below-lt (suc n) w pos h = elim (Bool-cases (w % 2 == 1)) [
  | inl odd ↦ rw odd (omega arith)
  | inr even ↦
      let rest : w % 2 ≡ 0 = ground arith in
      rw even (omega (arith, ctz_below-lt n (w / 2) (omega arith) (omega (arith, pow-suc 2 n))))
]

pub bit-below_ctz : (n w i : ℕ) → i < ctz_below n w → bit w i ≡ 0
unfolding bit ctz_below
bit-below_ctz zero w i h = absurd (omega arith)
bit-below_ctz (suc n) w zero h = elim (Bool-cases (w % 2 == 1)) [
  | inl odd ↦ absurd (let no : 0 < 0 = rw odd at h in omega arith)
  | inr even ↦ ground arith
]
bit-below_ctz (suc n) w (suc i) h = elim (Bool-cases (w % 2 == 1)) [
  | inl odd ↦ absurd (let no : suc i < 0 = rw odd at h in omega arith)
  | inr even ↦
      let below : suc i < suc (ctz_below n (w / 2)) = rw even at h in
      bit-below_ctz n (w / 2) i (omega arith)
]

-- A number whose top bit is zero has one bit less.
top_bit : (n w : ℕ) → w < 2 ^ suc n → bit w n ≢ 1 → w < 2 ^ n
unfolding bit
top_bit zero w h z = omega (arith, h, pow-suc 2 0)
top_bit (suc n) w h z =
    omega (
      arith,
      top_bit n (w / 2) (omega (arith, pow-suc 2 (suc n))) z,
      pow-suc 2 n,
      pow-suc 2 (suc n),
    )

pub bit_above : (k w i : ℕ) → w < 2 ^ k → k ≤ i → bit w i ≡ 0
unfolding bit
bit_above zero w i h le = let e : w ≡ 0 = omega arith in rw e (bit-zero i)
bit_above (suc k) w zero h le = absurd (omega arith)
bit_above (suc k) w (suc i) h le = bit_above k (w / 2) i (omega (arith, pow-suc 2 k)) (omega arith)

-- The same for the highest one: the counted position, from the top, holds a one, and only zeros
-- are above it.
pub clz_below-IsTop :
    (n w : ℕ)
    → 0 < w
    → w < 2 ^ n
    → (clz_below n w < n)
      × (bit w (n - 1 - clz_below n w) ≡ 1)
      × ((i : ℕ) → n - 1 - clz_below n w < i → bit w i ≡ 0)
unfolding clz_below
clz_below-IsTop zero w pos h = absurd (omega arith)
clz_below-IsTop (suc n) w pos h = elim (Bool-cases (bit w n == 1)) [
  | inl one ↦
      let e : bit w n ≡ 1 = ground arith in
      let here : suc n - 1 - 0 ≡ n = omega arith in
      rw (one, here) (omega arith, e, λ i above. bit_above (suc n) w i h (omega arith))
  | inr other ↦
      let less : bit w n ≢ 1 = ground arith in
      let (lt, on, off) = clz_below-IsTop n w pos (top_bit n w h less) in
      let shift : suc n - 1 - suc (clz_below n w) ≡ n - 1 - clz_below n w = omega arith in
      rw (other, shift) (omega arith, on, off)
]
