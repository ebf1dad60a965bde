-- ===== src/Bitset/New.antt =====
-- A new bitset is empty and well formed.
use native.Mathlib.Nat.{pow-suc}
use lob_project.Base.{
  ℕ, zero, suc, ◌+◌, ◌/◌, ◌%◌, ◌^◌, ◌<◌, ◌≤◌, ◌≡◌, refl, ◌↔◌, inl, inr, arith, length-replicate,
  get_or-replicate, replicate, leb, Bool-cases,
}
use lob_project.Bitset.{make_tiers, new_bitset}
use lob_project.Bitset.Bits.{bit-zero}
use lob_project.Bitset.First.{word, has, Words, Linked, contains, IsBitset}

blank-Words : (n : ℕ) → Words (replicate n 0)
blank-Words n i = rw (get_or-replicate {A = ℕ} n i 0) (omega arith)

has-blank : (n i : ℕ) → has (replicate n 0) i ≡ 0
has-blank n i = rw (get_or-replicate {A = ℕ} n (i / 64) 0) (bit-zero (i % 64))

blank_link : (n m i : ℕ) → (has (replicate m 0) i ≡ 1) ↔ (0 < word (replicate n 0) i)
blank_link n m i = rw (get_or-replicate {A = ℕ} n i 0, has-blank m i) (ground arith)

make_tiers-Linked : (fuel n : ℕ) → 0 < n → n ≤ 64 ^ suc fuel → Linked (make_tiers (suc fuel) n)
unfolding make_tiers
make_tiers-Linked zero n pos h =
    let one : (n + 63) / 64 ≡ 1 = omega arith in rw one (blank-Words 1, refl)
make_tiers-Linked (suc fuel) n pos h = elim (Bool-cases (leb ((n + 63) / 64) 1)) [
  | inl single ↦ let one : (n + 63) / 64 ≡ 1 = ground arith in rw one (blank-Words 1, refl)
  | inr many ↦
      let size = (n + 63) / 64 in
      rw many (
        blank-Words size,
        blank_link size _,
        make_tiers-Linked fuel size (omega arith) (omega (arith, pow-suc 64 (suc fuel))),
        (let a = length-replicate {A = ℕ} size 0 in
            let b = length-replicate {A = ℕ} ((size + 63) / 64) 0 in omega arith),
      )
]

-- For 1 to 64^4 indices the constructor makes a well-formed bitset of no index.
pub new_bitset-IsBitset :
    (n : ℕ)
    → 0 < n
    → n ≤ 64 ^ 4
    → IsBitset (new_bitset n) × ((i : ℕ) → contains (new_bitset n).tiers i ≡ 0)
unfolding new_bitset make_tiers
new_bitset-IsBitset n pos h = (
  (make_tiers-Linked 3 n pos h, omega (arith, length-replicate {A = ℕ} ((n + 63) / 64) 0)),
  λ i. has-blank ((n + 63) / 64) i,
)
