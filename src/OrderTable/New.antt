-- ===== src/OrderTable/New.antt =====
-- The table that the constructor makes: empty, well formed, and at least twice as large as the
-- number of orders.
use native.Mathlib.Nat.{pow-suc, pow-le-pow_right}
use lob_project.Base.{
  ℕ, zero, suc, ◌+◌, ◌-◌, ◌*◌, ◌/◌, ◌%◌, ◌^◌, ◌<◌, ◌≤◌, ◌≡◌, refl, sym, ◌∙◌, ap, length,
  length-replicate, get_or-replicate, replicate, get_or, ltb, ◌==◌, Bool-cases, inl, inr, false,
  arith,
}
use lob_project.Bitset.Bits.{ctz, ctz_below}
use lob_project.Bitset.Or.{pow-pos}
use lob_project.OrderTable.{empty_slot, slot, grow, new_table}
use lob_project.OrderTable.Slots.{used}
use lob_project.OrderTable.Valid.{IsTable, Maps}

-- A capacity is a power of 2 below 2^64, twice as large as the number of orders.
abbrev IsCapacity : ℕ → ℕ → Type 0
IsCapacity max_orders cap = (k : ℕ) × (k < 64) × (cap ≡ 2 ^ k) × (2 * max_orders ≤ cap)

grow-IsCapacity :
    (fuel k max_orders : ℕ)
    → k < 64
    → 64 ≤ fuel + k
    → 2 * max_orders ≤ 2 ^ 63
    → IsCapacity max_orders (grow fuel (2 ^ k) max_orders)
unfolding grow
grow-IsCapacity zero k max_orders h enough top = absurd (omega arith)
grow-IsCapacity (suc fuel) k max_orders h enough top =
    elim (Bool-cases (ltb (2 ^ k) (2 * max_orders))) [
      | inl short ↦
          let less : 2 ^ k < 2 ^ 63 = ground arith in
          let below : k < 63 = elim (Bool-cases (ltb k 63)) [
            | inl low ↦ ground arith
            | inr high ↦
                let le : 2 ^ 63 ≤ 2 ^ k =
                  pow-le-pow_right {n = 2} (omega arith) {i = 63} {j = k} (ground arith) in
                absurd (omega arith)
          ] in
          let twice : 2 ^ k * 2 ≡ 2 ^ suc k = sym (pow-suc 2 k) in
          rw (short, twice)
            (grow-IsCapacity fuel (suc k) max_orders (omega arith) (omega arith) top)
      | inr enough_slots ↦ rw enough_slots (k, h, refl, ground arith)
    ]

ctz-pow : (n k : ℕ) → k < n → ctz_below n (2 ^ k) ≡ k
unfolding ctz_below
ctz-pow zero k h = absurd (omega arith)
ctz-pow (suc n) zero h = refl
ctz-pow (suc n) (suc k) h =
    let p = pow-suc 2 k in
    let even : (2 ^ suc k % 2 == 1) ≡ false = ground arith in
    let half : 2 ^ suc k / 2 ≡ 2 ^ k = omega arith in
    rw (even, half) (ap suc (ctz-pow n k (omega arith)))

used-blank : (n : ℕ) → used (replicate n empty_slot) ≡ 0
used-blank zero = refl
used-blank (suc n) = omega (arith, used-blank n)

blank-IsTable :
    (n k : ℕ)
    → k < 64
    → n ≡ 2 ^ k
    → IsTable (record { slots = replicate n empty_slot; ht_shift = 64 - ctz n })
unfolding slot
blank-IsTable n k h e = record {
  shaped = record {
    log = k;
    small = h;
    size = length-replicate n empty_slot ∙ e;
    shift = rw e (ap (λ (m : ℕ). 64 - m) (ctz-pow 64 k h));
  };
  path = λ i x i_n x_n busy before. absurd (idle i busy);
  distinct = λ i j i_n j_n bi bj same. absurd (idle i bi);
  room = rw (used-blank n, length-replicate n empty_slot, e) (pow-pos k);
}
  where
    idle : (i : ℕ) → ¬ (0 < (get_or (replicate n empty_slot) i empty_slot).pad)
    idle i busy = let at : 0 < 0 = rw (get_or-replicate n i empty_slot) at busy in omega arith

-- For at most 2^62 orders the constructor makes a well-formed table that maps nothing and has twice
-- as many slots as there are orders.
pub new_table-IsTable :
    (max_orders : ℕ)
    → max_orders ≤ 2 ^ 62
    → IsTable (new_table max_orders)
      × ((q w : ℕ) → ¬ Maps (new_table max_orders) q w)
      × (used (new_table max_orders).slots ≡ 0)
      × (2 * max_orders ≤ length (new_table max_orders).slots)
unfolding new_table slot
new_table-IsTable max_orders h =
    let (k, small, e, enough) =
      grow-IsCapacity 64 1 max_orders (omega arith) (omega arith) (omega arith) in
    let n = grow 64 2 max_orders in
    (
      blank-IsTable n k small e,
      (λ q w m. let at : 0 < 0 = rw (get_or-replicate n m.0 empty_slot) at m.2 in omega arith),
      used-blank n,
      rw (length-replicate n empty_slot) enough,
    )
