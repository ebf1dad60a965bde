-- ===== src/Bitset/Masks.antt =====
-- The masks of the searches: the bits of a word from one on, and those up to one.
use native.Mathlib.Nat.{pow-suc, div-div-eq-div-mul}
use lob_project.Base.{
  ℕ, zero, suc, ◌+◌, ◌-◌, ◌*◌, ◌/◌, ◌%◌, ◌^◌, ◌<◌, ◌≤◌, ◌≡◌, refl, ap, sym, ◌∙◌, ltb, if◌then◌else◌,
  arith, u64_mod, Bool-cases, inl, inr,
}
use lob_project.Bitset.{bits_from, bits_to}
use lob_project.Bitset.Bits.{bit, bit_above, bit-zero}
use lob_project.Bitset.Or.{pow-pos, bit-le-one, pow-lt_word}
use lob_project.Bitset.And.{bit-bit_and, bit_and-le, bit_complement}

bit-div_pow : (k x i : ℕ) → bit (x / 2 ^ k) i ≡ bit x (k + i)
unfolding bit
bit-div_pow zero x i =
    let e : x / 2 ^ 0 ≡ x = omega arith in let j : 0 + i ≡ i = omega arith in rw (e, j) refl
bit-div_pow (suc k) x i =
    let e : x / 2 ^ suc k ≡ x / 2 / 2 ^ k =
      ap (λ (d : ℕ). x / d) (omega (arith, pow-suc 2 k)) ∙ sym (div-div-eq-div-mul x 2 (2 ^ k)) in
    let j : suc k + i ≡ suc (k + i) = omega arith in rw (e, j) (bit-div_pow k (x / 2) i)

-- A number of `n` ones.
bit_ones : (n i : ℕ) → bit (2 ^ n - 1) i ≡ (if ltb i n then 1 else 0)
bit_ones n i = elim (Bool-cases (ltb i n)) [
  | inl inside ↦
      let e : 2 ^ n - 1 - 0 ≡ 2 ^ n - 1 = omega arith in
      let one = bit_complement n 0 i (pow-pos n) (ground arith) in
      rw inside (rw (e, bit-zero i) at one)
  | inr outside ↦ rw outside (bit_above n (2 ^ n - 1) i (omega (arith, pow-pos n)) (ground arith))
]

pub bit-bits_from :
    (w b i : ℕ) → w < u64_mod → b < 64 → bit (bits_from w b) i ≡ (if ltb i b then 0 else bit w i)
unfolding bits_from
bit-bits_from w b i h hb =
    let small = pow-lt_word b hb in
    let pos = pow-pos b in
    let value : (u64_mod - 1) * 2 ^ b % u64_mod ≡ u64_mod - 1 - (2 ^ b - 1) = omega arith in
    let top = bit-le-one w i in
    rw (bit-bit_and w ((u64_mod - 1) * 2 ^ b % u64_mod) i) (elim (Bool-cases (ltb i 64)) [
      | inl inside ↦
          rw (value, bit_complement 64 (2 ^ b - 1) i (omega arith) (ground arith), bit_ones b i)
            (ground arith)
      | inr outside ↦ rw (bit_above 64 w i h (ground arith)) (ground arith)
    ])

pub bits_from-le : (w b : ℕ) → bits_from w b ≤ w
unfolding bits_from
bits_from-le w b = bit_and-le w ((u64_mod - 1) * 2 ^ b % u64_mod)

pub bit-bits_to :
    (w b i : ℕ) → w < u64_mod → b < 64 → bit (bits_to w b) i ≡ (if ltb b i then 0 else bit w i)
unfolding bits_to
bit-bits_to w b i h hb =
    let top = bit-le-one w i in
    rw
      (
        bit-bit_and w ((u64_mod - 1) / 2 ^ (63 - b)) i,
        bit-div_pow (63 - b) (2 ^ 64 - 1) i,
        bit_ones 64 (63 - b + i),
      )
      (elim (Bool-cases (ltb i 64)) [
        | inl inside ↦ ground arith
        | inr outside ↦ rw (bit_above 64 w i h (ground arith)) (ground arith)
      ])

pub bits_to-le : (w b : ℕ) → bits_to w b ≤ w
unfolding bits_to
bits_to-le w b = bit_and-le w ((u64_mod - 1) / 2 ^ (63 - b))
