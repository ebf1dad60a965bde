-- ===== src/OrderTable/Masking.antt =====
-- In a table whose capacity is a power of 2, the masks and the shift of the source are steps on the
-- circle of its slots.
use native.Mathlib.Nat.{
  pow-suc, mod-eq_of_lt, add-mul-mod_self_left, div-lt_iff_lt-mul, mul_assoc, mul_comm, mod_self,
  mul-suc,
}
use lob_project.Base.{
  ℕ, zero, suc, ◌+◌, ◌-◌, ◌*◌, ◌%◌, ◌^◌, ◌<◌, ◌≡◌, ap, ◌∙◌, u64_mod, length, leb, ◌==◌, Bool-cases,
  inl, inr, arith,
}
use lob_project.Bitset.Or.{pow-pos, pow-lt_word}
use lob_project.Bitset.And.{bit_and_ones}
use lob_project.OrderTable.{OrderTable, home, next_slot, probed}
use lob_project.OrderTable.Cyclic.{step, steps}

-- The capacity is a power of 2 from 2 up to 2^63, and the shift belongs to it.
pub record IsShaped (t : OrderTable) : Type 0 where
  pub log : ℕ
  pub small : log < 64
  pub size : length t.slots ≡ 2 ^ log
  pub shift : t.ht_shift ≡ 64 - log

pow_split : (k d : ℕ) → 2 ^ k * 2 ^ d ≡ 2 ^ (k + d)
pow_split zero d = let e : 0 + d ≡ d = omega arith in rw e (omega arith)
pow_split (suc k) d =
    let e : suc k + d ≡ suc (k + d) = omega arith in
    rw e (
      omega (
        arith,
        pow_split k d,
        pow-suc 2 k,
        pow-suc 2 (k + d),
        mul_assoc 2 (2 ^ k) (2 ^ d),
        ap (λ (n : ℕ). n * 2 ^ d) (pow-suc 2 k),
        mul_comm (2 ^ k) 2,
      ))

module _ (t : OrderTable) (shaped : IsShaped t) where
  shaped-pos : 0 < length t.slots
  shaped-pos = rw shaped.size (pow-pos shaped.log)

  mask-eq-mod : (x : ℕ) → Prim.Native.Nat.bit_and x (length t.slots - 1) ≡ x % length t.slots
  mask-eq-mod x = rw shaped.size (bit_and_ones shaped.log x)

  pub next_slot-step : (i : ℕ) → i < length t.slots → next_slot t i ≡ step (length t.slots) i
  unfolding next_slot step
  next_slot-step i h = mask-eq-mod (i + 1) ∙ elim (Bool-cases (i + 1 == length t.slots)) [
    | inl last ↦
        let e : i + 1 ≡ length t.slots = ground arith in rw (last, e) (mod_self (length t.slots))
    | inr inside ↦ rw inside (mod-eq_of_lt (ground arith))
  ]

  whole : 2 ^ shaped.log * 2 ^ (64 - shaped.log) ≡ u64_mod
  whole =
      let e : shaped.log + (64 - shaped.log) ≡ 64 = omega (arith, shaped.small) in
      pow_split shaped.log (64 - shaped.log) ∙ ap (λ (n : ℕ). 2 ^ n) e

  -- A difference that wraps around 64 bits keeps its remainder by the capacity.
  wrapped : (x : ℕ) → x < length t.slots → (x + (u64_mod - length t.slots)) % length t.slots ≡ x
  wrapped x h =
      let n = length t.slots in
      let d = 2 ^ (64 - shaped.log) in
      let d_pos = pow-pos (64 - shaped.log) in
      let e : u64_mod - n ≡ n * (d - 1) = rw shaped.size (
        let d_suc : suc (d - 1) ≡ d = omega arith in
        let product = mul-suc (2 ^ shaped.log) (d - 1) in
        omega (arith, whole, product, ap (λ (y : ℕ). 2 ^ shaped.log * y) d_suc)) in
      ap (λ (y : ℕ). (x + y) % n) e ∙ add-mul-mod_self_left x n (d - 1) ∙ mod-eq_of_lt h

  pub probed-steps :
      (h j : ℕ)
      → h < length t.slots
      → j < length t.slots
      → probed t h j ≡ steps (length t.slots) h j
  unfolding probed steps
  probed-steps h j hn jn =
      let n = length t.slots in
      let small : n < u64_mod = rw shaped.size (pow-lt_word shaped.log shaped.small) in
      mask-eq-mod ((j + u64_mod - h) % u64_mod) ∙ elim (Bool-cases (leb h j)) [
        | inl ahead ↦
            let e : (j + u64_mod - h) % u64_mod ≡ j - h = ground arith in
            rw (ahead, e) (mod-eq_of_lt (omega arith))
        | inr behind ↦
            let e : (j + u64_mod - h) % u64_mod ≡ j + n - h + (u64_mod - n) = ground arith in
            rw (behind, e) (wrapped (j + n - h) (ground arith))
      ]

  pub home-lt : (id : ℕ) → home t id < length t.slots
  unfolding home
  home-lt id =
      rw (shaped.size, shaped.shift)
        ((div-lt_iff_lt-mul (pow-pos (64 - shaped.log))).1 (rw whole (omega arith)))
