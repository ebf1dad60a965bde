-- ===== src/Bitset/And.antt =====
-- The bits of a word in which one bit is reset, from the digits that `bit_and` stands for.
use Prim.Native.Nat.{digits, bit_and, bit_and-bitwise}
use native.Mathlib.Nat.{
  pow-suc, zero-mod, mod-add-div, mod-lt, mod-eq_of_lt, add-mul-mod_self_left, mul_assoc,
}
use lob_project.Base.{
  ℕ, zero, suc, ◌+◌, ◌-◌, ◌*◌, ◌/◌, ◌%◌, ◌^◌, ◌<◌, ◌≤◌, ◌≡◌, sym, ap, ◌∙◌, ◌==◌, if◌then◌else◌, min,
  arith, u64_mod, Bool-cases, inl, inr, ltb,
}
use lob_project.Bitset.{reset_word}
use lob_project.Bitset.Bits.{bit, bit-zero, bit_above}
use lob_project.Bitset.Or.{pow-pos, bit-le-one, bit-pow, pow-lt_word}

abbrev and_word : ℕ → ℕ → ℕ → ℕ
and_word n a b = digits (λ b. zero) min n a b

bit-and_word : (n a b i : ℕ) → a ≤ n → bit (and_word n a b) i ≡ min (bit a i) (bit b i)
unfolding bit
bit-and_word zero zero b i h = rw (bit-zero i) (omega arith)
bit-and_word zero (suc a) b i h = absurd (omega arith)
bit-and_word (suc n) zero b i h = rw (bit-zero i) (omega arith)
bit-and_word (suc n) (suc a) b zero h = omega arith
bit-and_word (suc n) (suc a) b (suc i) h =
    let half : (and_word n (suc a / 2) (b / 2) * 2 + min (suc a % 2) (b % 2)) / 2
        ≡ and_word n (suc a / 2) (b / 2) =
      omega arith in
    rw half (bit-and_word n (suc a / 2) (b / 2) i (omega arith))

and_word-le : (n a b : ℕ) → and_word n a b ≤ a
and_word-le zero a b = omega arith
and_word-le (suc n) zero b = omega arith
and_word-le (suc n) (suc a) b = omega (arith, and_word-le n (suc a / 2) (b / 2))

-- The bits of the complement.
pub bit_complement : (k x i : ℕ) → x < 2 ^ k → i < k → bit (2 ^ k - 1 - x) i ≡ 1 - bit x i
unfolding bit
bit_complement zero x i h lt = absurd (omega arith)
bit_complement (suc k) x zero h lt = omega (arith, pow-suc 2 k)
bit_complement (suc k) x (suc i) h lt =
    let half : (2 ^ suc k - 1 - x) / 2 ≡ 2 ^ k - 1 - x / 2 = omega (arith, pow-suc 2 k) in
    rw half (bit_complement k (x / 2) i (omega (arith, pow-suc 2 k)) (omega arith))

pub bit-bit_and : (a b i : ℕ) → bit (bit_and a b) i ≡ min (bit a i) (bit b i)
bit-bit_and a b i = rw (bit_and-bitwise a b) (bit-and_word a a b i (omega arith))

pub bit_and-le : (a b : ℕ) → bit_and a b ≤ a
bit_and-le a b = rw (bit_and-bitwise a b) (and_word-le a a b)

-- The reset bit is zero, and the other bits are as they were.
pub bit-reset_word :
    (w b i : ℕ) → w < u64_mod → b < 64 → bit (reset_word w b) i ≡ (if i == b then 0 else bit w i)
unfolding reset_word
bit-reset_word w b i h hb =
    let top = bit-le-one w i in
    rw (bit-bit_and w (u64_mod - 1 - 2 ^ b) i) (elim (Bool-cases (ltb i 64)) [
      | inl inside ↦
          rw (bit_complement 64 (2 ^ b) i (pow-lt_word b hb) (ground arith), bit-pow b i)
            (ground arith)
      | inr outside ↦ rw (bit_above 64 w i h (ground arith)) (ground arith)
    ])

pub reset_word-le : (w b : ℕ) → reset_word w b ≤ w
unfolding reset_word
reset_word-le w b = bit_and-le w (u64_mod - 1 - 2 ^ b)

twice_mod : (x m : ℕ) → 0 < m → x / 2 % m * 2 + x % 2 ≡ x % (2 * m)
twice_mod x m pos =
    let q = x / 2 / m in
    let r = x / 2 % m * 2 + x % 2 in
    let whole = mod-add-div (x / 2) m in
    let small = mod-lt (x / 2) pos in
    let e : x ≡ r + 2 * m * q = omega (arith, whole, mul_assoc 2 m q) in
    sym (mod-eq_of_lt (omega arith))
    ∙ sym (add-mul-mod_self_left r (2 * m) q)
    ∙ ap (λ (y : ℕ). y % (2 * m)) (sym e)

and_word-ones : (k n x : ℕ) → x ≤ n → and_word n x (2 ^ k - 1) ≡ x % 2 ^ k
and_word-ones k zero x h = let e : x ≡ 0 = omega arith in rw e (sym (zero-mod (2 ^ k)))
and_word-ones k (suc n) zero h = sym (zero-mod (2 ^ k))
and_word-ones zero (suc n) (suc x) h = omega (arith, and_word-ones zero n (suc x / 2) (omega arith))
and_word-ones (suc k) (suc n) (suc x) h =
    let p = pow-suc 2 k in
    let half : (2 ^ suc k - 1) / 2 ≡ 2 ^ k - 1 = omega arith in
    let odd : (2 ^ suc k - 1) % 2 ≡ 1 = omega (arith, pow-pos k) in
    rw (half, odd, and_word-ones k n (suc x / 2) (omega arith))
      (let t = twice_mod (suc x) (2 ^ k) (pow-pos k) in
        let m : 2 ^ suc k ≡ 2 * 2 ^ k = omega arith in rw m (omega (arith, t)))

-- A mask of `k` ones takes the remainder.
pub bit_and_ones : (k x : ℕ) → bit_and x (2 ^ k - 1) ≡ x % 2 ^ k
bit_and_ones k x = rw (bit_and-bitwise x (2 ^ k - 1)) (and_word-ones k x x (omega arith))
