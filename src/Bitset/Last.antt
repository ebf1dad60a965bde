-- ===== src/Bitset/Last.antt =====
-- The search for the last index, and that `any` tells whether there is one.
use lob_project.Base.{
  ℕ, ◌+◌, ◌*◌, ◌/◌, ◌%◌, ◌<◌, ◌≡◌, inl, inr, List, [], ◌∷◌, arith, u64_mod, ◌==◌, true, false,
  Bool-cases,
}
use lob_project.Bitset.{Tiers, HierarchicalBitset, last_in, top_word, any, find_last_set_bit}
use lob_project.Bitset.Bits.{last_one, bit-zero}
use lob_project.Bitset.First.{word, has, Linked, contains, IsTiers, IsBitset, no_bit}
use lob_project.Bitset.Next.{beyond}
use lob_project.Bitset.Prev.{word-IsTop}

abbrev IsLast : (ℕ → ℕ) → ℕ → Type 0
IsLast member k = (member k ≡ 1) × ((j : ℕ) → k < j → member j ≡ 0)

word-IsLast :
    (tier : List ℕ) (w : ℕ)
    → word tier w < u64_mod
    → 0 < word tier w
    → ((v : ℕ) → w < v → word tier v ≡ 0)
    → IsLast (has tier) (w * 64 + last_one (word tier w))
word-IsLast tier w small pos zeros =
    let (lt, on, off) = word-IsTop (word tier w) pos small in
    let high : (w * 64 + last_one (word tier w)) / 64 ≡ w = omega arith in
    let low : (w * 64 + last_one (word tier w)) % 64 ≡ last_one (word tier w) = omega arith in
    (
      rw (high, low) on,
      λ j h. elim (Bool-cases (j / 64 == w)) [
        | inl same ↦ let e : j / 64 ≡ w = ground arith in rw e (off (j % 64) (omega arith))
        | inr other ↦
            let later : w < j / 64 = ground arith in rw (zeros (j / 64) later) (bit-zero (j % 64))
      ],
    )

last_in-IsLast :
    (tier : List ℕ) (upper : Tiers)
    → Linked (tier ∷ upper)
    → 0 < top_word (tier ∷ upper)
    → IsLast (has tier) (last_in (tier ∷ upper))
unfolding last_in top_word
last_in-IsLast tier [] l pos =
    word-IsLast tier 0 (l.0 0) pos (λ v h. beyond tier v (omega (arith, l.1)))
last_in-IsLast tier (upper ∷ tiers) l pos =
    let above = last_in-IsLast upper tiers l.2 pos in
    word-IsLast tier (last_in (upper ∷ tiers)) (l.0 _) ((l.1 _).0 above.0)
      (λ v h. no_bit (has upper v) (word tier v) (l.1 v) (above.1 v h))

-- An empty top word stands for an empty set.
none_below :
    (tier : List ℕ) (upper : Tiers)
    → Linked (tier ∷ upper)
    → top_word (tier ∷ upper) ≡ 0
    → (v : ℕ) → word tier v ≡ 0
unfolding top_word
none_below tier [] l e v = elim (Bool-cases (v == 0)) [
  | inl first ↦ let at : v ≡ 0 = ground arith in rw at e
  | inr later ↦ beyond tier v (ground (arith, l.1))
]
none_below tier (upper ∷ tiers) l e v =
    let zeros = none_below upper tiers l.2 e (v / 64) in
    no_bit (has upper v) (word tier v) (l.1 v) (rw zeros (bit-zero (v % 64)))

last_in-contains :
    (n : ℕ) (tiers : Tiers)
    → IsTiers n tiers
    → 0 < top_word tiers
    → IsLast (contains tiers) (last_in tiers)
last_in-contains n [] t pos = absurd t
last_in-contains n (tier ∷ upper) t pos = last_in-IsLast tier upper t.0 pos

-- In a well-formed bitset for which `any` holds, the search finds an index of the set above which
-- there is none.
pub find_last_set_bit-IsLast :
    (s : HierarchicalBitset)
    → IsBitset s
    → any s ≡ true
    → (contains s.tiers (find_last_set_bit s) ≡ 1)
      × ((j : ℕ) → find_last_set_bit s < j → contains s.tiers j ≡ 0)
unfolding find_last_set_bit any
find_last_set_bit-IsLast s t some_bit =
    last_in-contains s.num_bits s.tiers t (ground (arith, some_bit))

empty_top :
    (n : ℕ) (tiers : Tiers) → IsTiers n tiers → top_word tiers ≡ 0 → (i : ℕ) → contains tiers i ≡ 0
empty_top n [] t e i = absurd t
empty_top n (tier ∷ upper) t e i = rw (none_below tier upper t.0 e (i / 64)) (bit-zero (i % 64))

-- Where `any` does not hold the set is empty.
pub any-contains :
    (s : HierarchicalBitset) → IsBitset s → any s ≡ false → (i : ℕ) → contains s.tiers i ≡ 0
unfolding any
any-contains s t no_bits i = empty_top s.num_bits s.tiers t (ground (arith, no_bits)) i
