-- ===== src/Bitset/Prev.antt =====
-- The searches from above: for the last index, and for the one before a position.
use lob_project.Base.{
  get_or, get_or-append, ℕ, ◌+◌, ◌-◌, ◌*◌, ◌/◌, ◌%◌, ◌<◌, ◌≤◌, ◌≡◌, refl, ◌∙◌, ◌↔◌, inl, inr, List,
  [], ◌∷◌, arith, length, u64_mod, ◌==◌, ltb, true, Bool-cases, Option, some, none, if◌then◌else◌,
}
use lob_project.Bitset.{
  flat, Tiers, HierarchicalBitset, bits_to, descend_last, climb_prev, prev_in, find_prev_set_bit,
}
use lob_project.Bitset.Bits.{bit, last_one, bit-zero, clz_below-IsTop}
use lob_project.Bitset.Masks.{bit-bits_to, bits_to-le}
use lob_project.Bitset.First.{word, has, Words, Linked, contains, IsTiers, IsBitset, no_bit}

-- The last member that is not above an index.
abbrev pub IsPrev : (ℕ → ℕ) → ℕ → Option ℕ → Type 0
IsPrev member pos none = (j : ℕ) → j ≤ pos → member j ≡ 0
IsPrev member pos (some k) = (k ≤ pos) × (member k ≡ 1) × ((j : ℕ) → k < j → j ≤ pos → member j ≡ 0)

-- The highest bit of a word.
pub word-IsTop :
    (w : ℕ)
    → 0 < w
    → w < u64_mod
    → (last_one w < 64) × (bit w (last_one w) ≡ 1) × ((i : ℕ) → last_one w < i → bit w i ≡ 0)
word-IsTop w pos small =
    let (lt, on, off) = clz_below-IsTop 64 w pos small in (omega arith, on, off)

module _ (w b : ℕ) (small : w < u64_mod) (low : b < 64) where
  masked :
      0 < bits_to w b
      → (last_one (bits_to w b) ≤ b)
        × (bit w (last_one (bits_to w b)) ≡ 1)
        × ((i : ℕ) → last_one (bits_to w b) < i → i ≤ b → bit w i ≡ 0)
  masked pos =
      let le = bits_to-le w b in
      let c = last_one (bits_to w b) in
      let (lt, on, off) = word-IsTop (bits_to w b) pos (omega arith) in
      let kept = bit-bits_to w b c small low in
      (
        ground (arith, on, kept),
        ground (arith, on, kept),
        λ i gt le. ground (arith, off i gt, bit-bits_to w b i small low),
      )

  unmasked : bits_to w b ≡ 0 → (i : ℕ) → i ≤ b → bit w i ≡ 0
  unmasked e i le =
      let kept = bit-bits_to w b i small low in
      let off : bit (bits_to w b) i ≡ 0 = rw e (bit-zero i) in ground (arith, off, kept)

abbrev pub descended : List ℕ → Option ℕ → Option ℕ
descended tier none = none
descended tier (some w) = some (w * 64 + last_one (word tier w))

unfoldable pub under : Tiers → ℕ → Option ℕ
under [] pos = none
under (tier ∷ upper) pos =
    let mask = bits_to (word tier (pos / 64)) (pos % 64) in
    let higher = descended tier (under upper (pos / 64 - 1)) in
    if mask == 0
    then if pos / 64 == 0 then none else higher
    else some (pos / 64 * 64 + last_one mask)

module _ (tier : List ℕ) (pos : ℕ) (words : Words tier) where
  in_word : (j : ℕ) → j / 64 ≡ pos / 64 → bit (word tier (pos / 64)) (j % 64) ≡ 0 → has tier j ≡ 0
  in_word j e off = rw e off

  here-IsPrev :
      0 < bits_to (word tier (pos / 64)) (pos % 64)
      → IsPrev
          (has tier)
          pos
          (some (pos / 64 * 64 + last_one (bits_to (word tier (pos / 64)) (pos % 64))))
  here-IsPrev some_bit =
      let w = word tier (pos / 64) in
      let (le, on, off) = masked w (pos % 64) (words (pos / 64)) (omega arith) some_bit in
      let c = last_one (bits_to w (pos % 64)) in
      let high : (pos / 64 * 64 + c) / 64 ≡ pos / 64 = omega arith in
      let low : (pos / 64 * 64 + c) % 64 ≡ c = omega arith in
      (
        omega arith,
        rw (high, low) on,
        λ j above upto. in_word j (omega arith) (off (j % 64) (omega arith) (omega arith)),
      )

  module _ (blank : bits_to (word tier (pos / 64)) (pos % 64) ≡ 0) where
    blank_here : (j : ℕ) → j ≤ pos → j / 64 ≡ pos / 64 → has tier j ≡ 0
    blank_here j upto e = in_word j e (
        unmasked (word tier (pos / 64)) (pos % 64) (words (pos / 64)) (omega arith) blank (j % 64)
          (omega arith))

    -- Only zero words come before.
    none-IsPrev : ((v : ℕ) → v < pos / 64 → word tier v ≡ 0) → (j : ℕ) → j ≤ pos → has tier j ≡ 0
    none-IsPrev zeros j upto = elim (Bool-cases (j / 64 == pos / 64)) [
      | inl same ↦ blank_here j upto (ground arith)
      | inr other ↦
          let before : j / 64 < pos / 64 = ground arith in
          rw (zeros (j / 64) before) (bit-zero (j % 64))
    ]

    some-IsPrev :
        (w : ℕ)
        → w < pos / 64
        → 0 < word tier w
        → ((v : ℕ) → w < v → v < pos / 64 → word tier v ≡ 0)
        → IsPrev (has tier) pos (some (w * 64 + last_one (word tier w)))
    some-IsPrev w before some_bit zeros =
        let (lt, on, off) = word-IsTop (word tier w) some_bit (words w) in
        let high : (w * 64 + last_one (word tier w)) / 64 ≡ w = omega arith in
        let low : (w * 64 + last_one (word tier w)) % 64 ≡ last_one (word tier w) = omega arith in
        (
          omega arith,
          rw (high, low) on,
          λ j above upto. elim (Bool-cases (j / 64 == w)) [
            | inl same ↦ let e : j / 64 ≡ w = ground arith in rw e (off (j % 64) (omega arith))
            | inr other ↦ elim (Bool-cases (j / 64 == pos / 64)) [
              | inl first ↦ blank_here j upto (ground arith)
              | inr later ↦
                  let after : w < j / 64 = ground arith in
                  let less : j / 64 < pos / 64 = ground arith in
                  rw (zeros (j / 64) after less) (bit-zero (j % 64))
            ]
          ],
        )

descended-IsPrev :
    (tier upper : List ℕ) (pos : ℕ) (r : Option ℕ)
    → Words tier
    → ((i : ℕ) → (has upper i ≡ 1) ↔ (0 < word tier i))
    → bits_to (word tier (pos / 64)) (pos % 64) ≡ 0
    → 0 < pos / 64
    → IsPrev (has upper) (pos / 64 - 1) r
    → IsPrev (has tier) pos (descended tier r)
descended-IsPrev tier upper pos none words link blank later n =
    none-IsPrev tier pos words blank
      (λ v h. no_bit (has upper v) (word tier v) (link v) (n v (omega arith)))
descended-IsPrev tier upper pos (some w) words link blank later (upto, on, off) =
    some-IsPrev tier pos words blank w (omega arith) ((link w).0 on)
      (λ v h lt. no_bit (has upper v) (word tier v) (link v) (off v h (omega arith)))

pub under-IsPrev :
    (tier : List ℕ) (upper : Tiers) (pos : ℕ)
    → Linked (tier ∷ upper)
    → pos < 64 * length tier
    → IsPrev (has tier) pos (under (tier ∷ upper) pos)
unfolding under
under-IsPrev tier [] pos l h =
    let first : pos / 64 ≡ 0 = omega (arith, l.1) in
    elim (Bool-cases (bits_to (word tier (pos / 64)) (pos % 64) == 0)) [
      | inl blank ↦
          let lowest : (pos / 64 == 0) ≡ true = ground arith in
          rw (blank, lowest) (none-IsPrev tier pos l.0 (ground arith) (λ v h. absurd (omega arith)))
      | inr full ↦ rw full (here-IsPrev tier pos l.0 (ground arith))
    ]
under-IsPrev tier (upper ∷ tiers) pos l h =
    elim (Bool-cases (bits_to (word tier (pos / 64)) (pos % 64) == 0)) [
      | inl blank ↦ rw blank (elim (Bool-cases (pos / 64 == 0)) [
        | inl lowest ↦
            let first : pos / 64 ≡ 0 = ground arith in
            rw lowest (none-IsPrev tier pos l.0 (ground arith) (λ v h. absurd (omega arith)))
        | inr later ↦ rw later (
            descended-IsPrev tier upper pos (under (upper ∷ tiers) (pos / 64 - 1)) l.0 l.1
              (ground arith) (ground arith)
              (under-IsPrev upper tiers (pos / 64 - 1) l.2 (omega (arith, l.3))))
      ])
      | inr full ↦ rw full (here-IsPrev tier pos l.0 (ground arith))
    ]

abbrev finished : Tiers → Option ℕ → Option ℕ
finished below none = none
finished below (some w) = some (descend_last below w)

finished-descended :
    (tier : List ℕ) (below : Tiers) (r : Option ℕ)
    → finished (tier ∷ below) r ≡ finished below (descended tier r)
unfolding descend_last
finished-descended tier below none = refl
finished-descended tier below (some w) = refl

climb_prev-under :
    (below tiers : Tiers) (pos : ℕ) → climb_prev below tiers pos ≡ finished below (under tiers pos)
unfolding climb_prev under
climb_prev-under below [] pos = refl
climb_prev-under below (tier ∷ upper) pos =
    let higher =
      climb_prev-under (tier ∷ below) upper (pos / 64 - 1)
      ∙ finished-descended tier below (under upper (pos / 64 - 1)) in
    elim (Bool-cases (bits_to (word tier (pos / 64)) (pos % 64) == 0)) [
      | inl blank ↦ rw blank (elim (Bool-cases (pos / 64 == 0)) [
        | inl lowest ↦ rw lowest refl
        | inr later ↦ rw later higher
      ])
      | inr full ↦ rw full refl
    ]

first_read :
    (tier : List ℕ) (upper : Tiers) (w : ℕ)
    → w < length tier
    → get_or (flat (tier ∷ upper)) w 0 ≡ word tier w
unfolding flat
first_read tier upper w h = get_or-append tier (flat upper) w 0 h

prev_in-under :
    (tier : List ℕ) (upper : Tiers) (pos : ℕ)
    → pos / 64 < length tier
    → prev_in (tier ∷ upper) pos ≡ under (tier ∷ upper) pos
unfolding prev_in under descend_last
prev_in-under tier upper pos h =
    let read = first_read tier upper (pos / 64) h in
    let low : ltb pos 64 ≡ (pos / 64 == 0) = ground arith in
    elim (Bool-cases (bits_to (word tier (pos / 64)) (pos % 64) == 0)) [
      | inl blank ↦
          rw (read, blank, low)
            (elim (Bool-cases (pos / 64 == 0)) [
              | inl lowest ↦ rw lowest refl
              | inr later ↦ rw later (
                  climb_prev-under (tier ∷ []) upper (pos / 64 - 1)
                  ∙ one_step (under upper (pos / 64 - 1)))
            ])
      | inr full ↦ rw (read, full) refl
    ]
  where
    one_step : (r : Option ℕ) → finished (tier ∷ []) r ≡ descended tier r
    one_step none = refl
    one_step (some w) = refl

prev_in-IsPrev :
    (n : ℕ) (tiers : Tiers) (pos : ℕ)
    → IsTiers n tiers
    → pos < n
    → IsPrev (contains tiers) pos (prev_in tiers pos)
prev_in-IsPrev n [] pos t h = absurd t
prev_in-IsPrev n (tier ∷ upper) pos t h =
    rw (prev_in-under tier upper pos (omega (arith, t.1, h)))
      (under-IsPrev tier upper pos t.0 (omega (arith, t.1)))

-- In a well-formed bitset the search from an index in range finds the last index of the set that is
-- not above it, and nothing exactly where there is none.
pub find_prev_set_bit-IsPrev :
    (s : HierarchicalBitset) (pos : ℕ)
    → IsBitset s
    → pos < s.num_bits
    → IsPrev (contains s.tiers) pos (find_prev_set_bit s pos)
unfolding find_prev_set_bit
find_prev_set_bit-IsPrev s pos t h = prev_in-IsPrev s.num_bits s.tiers pos t h
