-- ===== src/Bitset/Next.antt =====
-- The search for the next index: the climb of the source is the search in the summaries, and that
-- finds the nearest bit.
use lob_project.Base.{
  get_or, get_or-append, ℕ, zero, suc, ◌+◌, ◌*◌, ◌/◌, ◌%◌, ◌<◌, ◌≤◌, ◌≡◌, refl, ◌∙◌, ◌↔◌, inl, inr,
  List, [], ◌∷◌, arith, length, u64_mod, ◌==◌, leb, false, Bool-cases, Option, some, none,
  if◌then◌else◌,
}
use lob_project.Bitset.{
  flat, Tiers, HierarchicalBitset, bits_from, descend_first, climb_next, next_in, find_next_set_bit,
}
use lob_project.Bitset.Bits.{bit, ctz, bit-zero, bit-ctz_below, bit-below_ctz, ctz_below-lt}
use lob_project.Bitset.Masks.{bit-bits_from, bits_from-le}
use lob_project.Bitset.First.{word, has, Words, Linked, contains, IsTiers, IsBitset, no_bit}

-- The result of a search from an index on: the first member that is not below it.
abbrev pub IsNext : (ℕ → ℕ) → ℕ → Option ℕ → Type 0
IsNext member pos none = (j : ℕ) → pos ≤ j → member j ≡ 0
IsNext member pos (some k) = (pos ≤ k) × (member k ≡ 1) × ((j : ℕ) → pos ≤ j → j < k → member j ≡ 0)

-- In the summaries: where a word has no bit left, the next word that is not zero.
abbrev pub descended : List ℕ → Option ℕ → Option ℕ
descended tier none = none
descended tier (some w) = some (w * 64 + ctz (word tier w))

unfoldable pub above : Tiers → ℕ → Option ℕ
above [] pos = none
above (tier ∷ upper) pos =
    let mask = bits_from (word tier (pos / 64)) (pos % 64) in
    let higher = descended tier (above upper (pos / 64 + 1)) in
    if mask == 0 then higher else some (pos / 64 * 64 + ctz mask)

module _ (w b : ℕ) (small : w < u64_mod) (low : b < 64) where
  -- The lowest bit of the mask is the word's lowest one that is not before `b`.
  masked :
      0 < bits_from w b
      → (b ≤ ctz (bits_from w b))
        × (ctz (bits_from w b) < 64)
        × (bit w (ctz (bits_from w b)) ≡ 1)
        × ((i : ℕ) → b ≤ i → i < ctz (bits_from w b) → bit w i ≡ 0)
  masked pos =
      let le = bits_from-le w b in
      let c = ctz (bits_from w b) in
      let on = bit-ctz_below 64 (bits_from w b) pos (omega arith) in
      let kept = bit-bits_from w b c small low in
      (
        ground (arith, on, kept),
        ctz_below-lt 64 (bits_from w b) pos (omega arith),
        ground (arith, on, kept),
        λ i ge lt.
            let off = bit-below_ctz 64 (bits_from w b) i lt in
            ground (arith, off, bit-bits_from w b i small low),
      )

  unmasked : bits_from w b ≡ 0 → (i : ℕ) → b ≤ i → bit w i ≡ 0
  unmasked e i ge =
      let kept = bit-bits_from w b i small low in
      let off : bit (bits_from w b) i ≡ 0 = rw e (bit-zero i) in ground (arith, off, kept)

module _ (tier : List ℕ) (pos : ℕ) (words : Words tier) where
  in_word : (j : ℕ) → j / 64 ≡ pos / 64 → bit (word tier (pos / 64)) (j % 64) ≡ 0 → has tier j ≡ 0
  in_word j e off = rw e off

  here-IsNext :
      0 < bits_from (word tier (pos / 64)) (pos % 64)
      → IsNext
          (has tier)
          pos
          (some (pos / 64 * 64 + ctz (bits_from (word tier (pos / 64)) (pos % 64))))
  here-IsNext some_bit =
      let w = word tier (pos / 64) in
      let (ge, lt, on, off) = masked w (pos % 64) (words (pos / 64)) (omega arith) some_bit in
      let c = ctz (bits_from w (pos % 64)) in
      let high : (pos / 64 * 64 + c) / 64 ≡ pos / 64 = omega arith in
      let low : (pos / 64 * 64 + c) % 64 ≡ c = omega arith in
      (
        omega arith,
        rw (high, low) on,
        λ j from below. in_word j (omega arith) (off (j % 64) (omega arith) (omega arith)),
      )

  module _ (blank : bits_from (word tier (pos / 64)) (pos % 64) ≡ 0) where
    blank_here : (j : ℕ) → pos ≤ j → j / 64 ≡ pos / 64 → has tier j ≡ 0
    blank_here j from e = in_word j e (
        unmasked (word tier (pos / 64)) (pos % 64) (words (pos / 64)) (omega arith) blank (j % 64)
          (omega arith))

    -- Only zero words follow.
    none-IsNext :
        ((v : ℕ) → pos / 64 + 1 ≤ v → word tier v ≡ 0) → (j : ℕ) → pos ≤ j → has tier j ≡ 0
    none-IsNext zeros j from = elim (Bool-cases (j / 64 == pos / 64)) [
      | inl same ↦ blank_here j from (ground arith)
      | inr other ↦
          let later : pos / 64 + 1 ≤ j / 64 = ground arith in
          rw (zeros (j / 64) later) (bit-zero (j % 64))
    ]

    -- The next word that is not zero has the bit.
    some-IsNext :
        (w : ℕ)
        → pos / 64 + 1 ≤ w
        → 0 < word tier w
        → ((v : ℕ) → pos / 64 + 1 ≤ v → v < w → word tier v ≡ 0)
        → IsNext (has tier) pos (some (w * 64 + ctz (word tier w)))
    some-IsNext w from some_bit zeros =
        let c = ctz_below-lt 64 (word tier w) some_bit (words w) in
        let high : (w * 64 + ctz (word tier w)) / 64 ≡ w = omega arith in
        let low : (w * 64 + ctz (word tier w)) % 64 ≡ ctz (word tier w) = omega arith in
        (
          omega arith,
          rw (high, low) (bit-ctz_below 64 (word tier w) some_bit (words w)),
          λ j start below. elim (Bool-cases (j / 64 == w)) [
            | inl same ↦
                let e : j / 64 ≡ w = ground arith in
                rw e (bit-below_ctz 64 (word tier w) (j % 64) (omega arith))
            | inr other ↦ elim (Bool-cases (j / 64 == pos / 64)) [
              | inl first ↦ blank_here j start (ground arith)
              | inr later ↦
                  let after : pos / 64 + 1 ≤ j / 64 = ground arith in
                  let before : j / 64 < w = ground arith in
                  rw (zeros (j / 64) after before) (bit-zero (j % 64))
            ]
          ],
        )

pub beyond : (tier : List ℕ) (v : ℕ) → length tier ≤ v → word tier v ≡ 0
beyond [] v h = refl
beyond (w ∷ tier) zero h = absurd (omega arith)
beyond (w ∷ tier) (suc v) h = beyond tier v (omega arith)

-- A result in the summary is one in the tier under it.
descended-IsNext :
    (tier upper : List ℕ) (pos : ℕ) (r : Option ℕ)
    → Words tier
    → ((i : ℕ) → (has upper i ≡ 1) ↔ (0 < word tier i))
    → bits_from (word tier (pos / 64)) (pos % 64) ≡ 0
    → IsNext (has upper) (pos / 64 + 1) r
    → IsNext (has tier) pos (descended tier r)
descended-IsNext tier upper pos none words link blank n =
    none-IsNext tier pos words blank (λ v h. no_bit (has upper v) (word tier v) (link v) (n v h))
descended-IsNext tier upper pos (some w) words link blank (from, on, off) =
    some-IsNext tier pos words blank w from ((link w).0 on)
      (λ v h lt. no_bit (has upper v) (word tier v) (link v) (off v h lt))

pub above-IsNext :
    (tier : List ℕ) (upper : Tiers) (pos : ℕ)
    → Linked (tier ∷ upper)
    → IsNext (has tier) pos (above (tier ∷ upper) pos)
unfolding above
above-IsNext tier [] pos l = elim (Bool-cases (bits_from (word tier (pos / 64)) (pos % 64) == 0)) [
  | inl blank ↦
      rw blank (none-IsNext tier pos l.0 (ground arith) (λ v h. beyond tier v (omega (arith, l.1))))
  | inr full ↦ rw full (here-IsNext tier pos l.0 (ground arith))
]
above-IsNext tier (upper ∷ tiers) pos l =
    elim (Bool-cases (bits_from (word tier (pos / 64)) (pos % 64) == 0)) [
      | inl blank ↦ rw blank (
          descended-IsNext tier upper pos (above (upper ∷ tiers) (pos / 64 + 1)) l.0 l.1
            (ground arith) (above-IsNext upper tiers (pos / 64 + 1) l.2))
      | inr full ↦ rw full (here-IsNext tier pos l.0 (ground arith))
    ]

-- The way down from a word that the climb found.
abbrev finished : Tiers → Option ℕ → Option ℕ
finished below none = none
finished below (some w) = some (descend_first below w)

finished-descended :
    (tier : List ℕ) (below : Tiers) (r : Option ℕ)
    → finished (tier ∷ below) r ≡ finished below (descended tier r)
unfolding descend_first
finished-descended tier below none = refl
finished-descended tier below (some w) = refl

-- The climb finds what the summaries do; above a tier's last word it only climbs on.
climb_next-above :
    (below tiers : Tiers) (pos : ℕ) → climb_next below tiers pos ≡ finished below (above tiers pos)
unfolding climb_next above
climb_next-above below [] pos = refl
climb_next-above below (tier ∷ upper) pos =
    let higher =
      climb_next-above (tier ∷ below) upper (pos / 64 + 1)
      ∙ finished-descended tier below (above upper (pos / 64 + 1)) in
    elim (Bool-cases (bits_from (word tier (pos / 64)) (pos % 64) == 0)) [
      | inl blank ↦ rw blank (elim (Bool-cases (leb (length tier) (pos / 64))) [
        | inl outside ↦ rw outside higher
        | inr inside ↦ rw inside higher
      ])
      | inr full ↦
          let le = bits_from-le (word tier (pos / 64)) (pos % 64) in
          let inside : leb (length tier) (pos / 64) ≡ false =
            grind (arith, beyond tier (pos / 64)) in
          rw (inside, full) refl
    ]

first_read :
    (tier : List ℕ) (upper : Tiers) (w : ℕ)
    → w < length tier
    → get_or (flat (tier ∷ upper)) w 0 ≡ word tier w
unfolding flat
first_read tier upper w h = get_or-append tier (flat upper) w 0 h

next_in-above :
    (tier : List ℕ) (upper : Tiers) (pos : ℕ)
    → pos / 64 < length tier
    → next_in (tier ∷ upper) pos ≡ above (tier ∷ upper) pos
unfolding next_in above descend_first
next_in-above tier upper pos h =
    let read = first_read tier upper (pos / 64) h in
    elim (Bool-cases (bits_from (word tier (pos / 64)) (pos % 64) == 0)) [
      | inl blank ↦
          rw (read, blank)
            (climb_next-above (tier ∷ []) upper (pos / 64 + 1)
              ∙ one_step (above upper (pos / 64 + 1)))
      | inr full ↦ rw (read, full) refl
    ]
  where
    one_step : (r : Option ℕ) → finished (tier ∷ []) r ≡ descended tier r
    one_step none = refl
    one_step (some w) = refl

next_in-IsNext :
    (n : ℕ) (tiers : Tiers) (pos : ℕ)
    → IsTiers n tiers
    → pos < n
    → IsNext (contains tiers) pos (next_in tiers pos)
next_in-IsNext n [] pos t h = absurd t
next_in-IsNext n (tier ∷ upper) pos t h =
    rw (next_in-above tier upper pos (omega (arith, t.1, h))) (above-IsNext tier upper pos t.0)

-- In a well-formed bitset the search from an index in range finds the first index of the set that is
-- not below it, and nothing exactly where there is none.
pub find_next_set_bit-IsNext :
    (s : HierarchicalBitset) (pos : ℕ)
    → IsBitset s
    → pos < s.num_bits
    → IsNext (contains s.tiers) pos (find_next_set_bit s pos)
unfolding find_next_set_bit
find_next_set_bit-IsNext s pos t h = next_in-IsNext s.num_bits s.tiers pos t h
