-- ===== src/Bitset/Or.antt =====
-- The bits of a word in which one bit is set, from the digits that `bit_or` stands for.
use Prim.Native.Nat.{max, digits, bit_or-bitwise}
use native.Mathlib.Nat.{pow-suc, pow-le-pow_right}
use lob_project.Base.{
  ℕ, zero, suc, ◌+◌, ◌*◌, ◌/◌, ◌%◌, ◌^◌, ◌<◌, ◌≤◌, ◌≡◌, refl, ◌==◌, ==_refl, false, if◌then◌else◌,
  arith, u64_mod, Bool-cases, inl, inr,
}
use lob_project.Bitset.{set_word}
use lob_project.Bitset.Bits.{bit, bit-zero}

abbrev or_digits : ℕ → ℕ → ℕ → ℕ
or_digits n a b = digits (λ b. b) max n a b

bit-or_digits : (n a b i : ℕ) → a ≤ n → bit (or_digits n a b) i ≡ max (bit a i) (bit b i)
unfolding bit
bit-or_digits zero zero b i h = rw (bit-zero i) (omega arith)
bit-or_digits zero (suc a) b i h = absurd (omega arith)
bit-or_digits (suc n) zero b i h = rw (bit-zero i) (omega arith)
bit-or_digits (suc n) (suc a) b zero h = omega arith
bit-or_digits (suc n) (suc a) b (suc i) h =
    let half : (or_digits n (suc a / 2) (b / 2) * 2 + max (suc a % 2) (b % 2)) / 2
        ≡ or_digits n (suc a / 2) (b / 2) =
      omega arith in
    rw half (bit-or_digits n (suc a / 2) (b / 2) i (omega arith))

or_digits-lt : (n a b k : ℕ) → a < 2 ^ k → b < 2 ^ k → or_digits n a b < 2 ^ k
or_digits-lt zero a b k ha hb = hb
or_digits-lt (suc n) zero b k ha hb = hb
or_digits-lt (suc n) (suc a) b zero ha hb = absurd (omega arith)
or_digits-lt (suc n) (suc a) b (suc k) ha hb =
    let p = pow-suc 2 k in
    omega (arith, or_digits-lt n (suc a / 2) (b / 2) k (omega arith) (omega arith))

pub bit-le-one : (w i : ℕ) → bit w i ≤ 1
unfolding bit
bit-le-one w zero = omega arith
bit-le-one w (suc i) = bit-le-one (w / 2) i

pub bit-pow : (k i : ℕ) → bit (2 ^ k) i ≡ (if i == k then 1 else 0)
unfolding bit
bit-pow zero zero = refl
bit-pow zero (suc i) = let no : (suc i == 0) ≡ false = ground arith in rw no (bit-zero i)
bit-pow (suc k) zero = let p = pow-suc 2 k in ground arith
bit-pow (suc k) (suc i) =
    let half : 2 ^ suc k / 2 ≡ 2 ^ k = omega (arith, pow-suc 2 k) in
    let same : (suc i == suc k) ≡ (i == k) = ground arith in rw (half, same) (bit-pow k i)

-- The set bit is one, and the other bits are as they were.
pub bit-set_word : (w b i : ℕ) → bit (set_word w b) i ≡ (if i == b then 1 else bit w i)
unfolding set_word
bit-set_word w b i =
    let top = bit-le-one w i in
    rw (bit_or-bitwise w (2 ^ b), bit-or_digits w w (2 ^ b) i (omega arith), bit-pow b i)
      (ground arith)

pub pow-pos : (n : ℕ) → 0 < 2 ^ n
pow-pos zero = omega arith
pow-pos (suc n) = omega (arith, pow-pos n, pow-suc 2 n)

pub pow-lt_word : (b : ℕ) → b < 64 → 2 ^ b < u64_mod
pow-lt_word b h =
    let top : 2 ^ b ≤ 2 ^ 63 =
      pow-le-pow_right {n = 2} (omega arith) {i = b} {j = 63} (omega arith) in
    omega arith

pub set_word-lt : (w b : ℕ) → w < u64_mod → b < 64 → set_word w b < u64_mod
unfolding set_word
set_word-lt w b h hb =
    rw (bit_or-bitwise w (2 ^ b)) (or_digits-lt w w (2 ^ b) 64 h (pow-lt_word b hb))

pub set_word-pos : (w b : ℕ) → 0 < set_word w b
set_word-pos w b = elim (Bool-cases (set_word w b == 0)) [
  | inl zero_word ↦
      let e : set_word w b ≡ 0 = ground arith in
      let one : bit (set_word w b) b ≡ 1 = rw (bit-set_word w b b, ==_refl b) refl in
      absurd (let none : bit 0 b ≡ 1 = rw e at one in omega (arith, bit-zero b))
  | inr other ↦ ground arith
]
