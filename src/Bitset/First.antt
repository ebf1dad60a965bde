-- ===== src/Bitset/First.antt =====
-- The tiers as summaries of each other, and the search for the lowest bit through them.
use lob_project.Base.{
  ℕ, ◌+◌, ◌*◌, ◌/◌, ◌%◌, ◌<◌, ◌≤◌, ◌≡◌, ◌↔◌, inl, inr, List, [], ◌∷◌, arith, get_or, length,
  u64_mod, ◌==◌, true, Bool-cases,
}
use lob_project.Bitset.{Tiers, HierarchicalBitset, first_in, top_word, find_first_set_bit, any}
use lob_project.Bitset.Bits.{bit, ctz, bit-zero, bit-ctz_below, bit-below_ctz, ctz_below-lt}

abbrev pub word : List ℕ → ℕ → ℕ
word tier i = get_or tier i 0

-- The bit of a tier at an index.
abbrev pub has : List ℕ → ℕ → ℕ
has tier i = bit (word tier (i / 64)) (i % 64)

abbrev pub Words : List ℕ → Type 0
Words tier = (i : ℕ) → word tier i < u64_mod

-- A bit of the upper tier tells whether the word under it is zero, and the top tier has one word.
abbrev pub Linked : Tiers → Type 0
Linked [] = Unit
Linked (tier ∷ []) = Words tier × (length tier ≡ 1)
Linked (tier ∷ upper ∷ tiers) =
    Words tier
    × ((i : ℕ) → (has upper i ≡ 1) ↔ (0 < word tier i))
    × Linked (upper ∷ tiers)
    × (length tier ≤ 64 * length upper)

abbrev pub IsFirst : List ℕ → ℕ → Type 0
IsFirst tier k = (has tier k ≡ 1) × ((j : ℕ) → j < k → has tier j ≡ 0)

-- The lowest bit of the lowest word that is not zero is the lowest bit of the tier.
word-IsFirst :
    (tier : List ℕ) (w : ℕ)
    → word tier w < u64_mod
    → 0 < word tier w
    → ((v : ℕ) → v < w → word tier v ≡ 0)
    → IsFirst tier (w * 64 + ctz (word tier w))
word-IsFirst tier w small pos zeros =
    let c = ctz_below-lt 64 (word tier w) pos small in
    let high : (w * 64 + ctz (word tier w)) / 64 ≡ w = omega arith in
    let low : (w * 64 + ctz (word tier w)) % 64 ≡ ctz (word tier w) = omega arith in
    (
      rw (high, low) (bit-ctz_below 64 (word tier w) pos small),
      λ j h. elim (Bool-cases (j / 64 == w)) [
        | inl same ↦
            let e : j / 64 ≡ w = ground arith in
            rw e (bit-below_ctz 64 (word tier w) (j % 64) (omega arith))
        | inr other ↦
            let below : j / 64 < w = ground arith in rw (zeros (j / 64) below) (bit-zero (j % 64))
      ],
    )

pub no_bit : (w n : ℕ) → (w ≡ 1) ↔ (0 < n) → w ≡ 0 → n ≡ 0
no_bit w n link e = ground (arith, link.1)

pub first_in-IsFirst :
    (tier : List ℕ) (upper : Tiers)
    → Linked (tier ∷ upper)
    → 0 < top_word (tier ∷ upper)
    → IsFirst tier (first_in (tier ∷ upper))
unfolding first_in top_word
first_in-IsFirst tier [] l pos = word-IsFirst tier 0 (l.0 0) pos (λ v h. absurd (omega arith))
first_in-IsFirst tier (upper ∷ tiers) l pos =
    let above = first_in-IsFirst upper tiers l.2 pos in
    word-IsFirst tier (first_in (upper ∷ tiers)) (l.0 _) ((l.1 _).0 above.0)
      (λ v h. no_bit (has upper v) (word tier v) (l.1 v) (above.1 v h))

-- The lowest tier is the set, one bit for each index in range.
abbrev pub contains : Tiers → ℕ → ℕ
contains [] i = 0
contains (tier ∷ upper) i = has tier i

abbrev pub IsTiers : ℕ → Tiers → Type 0
IsTiers n [] = ⊥
IsTiers n (tier ∷ upper) = Linked (tier ∷ upper) × (n ≤ 64 * length tier)

abbrev pub IsBitset : HierarchicalBitset → Type 0
IsBitset s = IsTiers s.num_bits s.tiers

first_in-contains :
    (n : ℕ) (tiers : Tiers)
    → IsTiers n tiers
    → 0 < top_word tiers
    → (contains tiers (first_in tiers) ≡ 1) × ((j : ℕ) → j < first_in tiers → contains tiers j ≡ 0)
first_in-contains n [] t pos = absurd t
first_in-contains n (tier ∷ upper) t pos = first_in-IsFirst tier upper t.0 pos

-- In a well-formed bitset for which `any` holds, the search finds an index of the set below which
-- there is none.
pub find_first_set_bit-IsFirst :
    (s : HierarchicalBitset)
    → IsBitset s
    → any s ≡ true
    → (contains s.tiers (find_first_set_bit s) ≡ 1)
      × ((j : ℕ) → j < find_first_set_bit s → contains s.tiers j ≡ 0)
unfolding find_first_set_bit any
find_first_set_bit-IsFirst s t some_bit =
    first_in-contains s.num_bits s.tiers t (ground (arith, some_bit))
