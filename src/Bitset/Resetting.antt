-- ===== src/Bitset/Resetting.antt =====
-- Resetting a bit keeps the tiers summaries of each other.
use mathlib.Core.Path.{subst}
use lob_project.Base.{
  ℕ, ◌*◌, ◌/◌, ◌%◌, ◌<◌, ◌≡◌, refl, ◌∙◌, ◌↔◌, inl, inr, List, [], ◌∷◌, arith, get_or-set, set,
  length-set, length, false, ◌==◌, ==_iff, if◌then◌else◌, Bool-cases,
}
use lob_project.Bitset.{Tiers, HierarchicalBitset, reset_tiers, reset_word, reset_bit}
use lob_project.Bitset.Setting.{link_kept}
use lob_project.Bitset.And.{bit-reset_word, reset_word-le}
use lob_project.Bitset.First.{word, has, Words, Linked, contains, IsTiers, IsBitset}

-- The tier with a bit reset.
abbrev cleared : List ℕ → ℕ → List ℕ
cleared tier idx = set tier (idx / 64) (reset_word (word tier (idx / 64)) (idx % 64))

word-cleared :
    (tier : List ℕ) (idx v : ℕ)
    → idx / 64 < length tier
    → word (cleared tier idx) v
      ≡ (if idx / 64 == v then reset_word (word tier (idx / 64)) (idx % 64) else word tier v)
word-cleared tier idx v h = get_or-set tier (idx / 64) v _ 0 h

has-cleared :
    (tier : List ℕ) (idx i : ℕ)
    → idx / 64 < length tier
    → Words tier
    → has (cleared tier idx) i ≡ (if i == idx then 0 else has tier i)
has-cleared tier idx i h small = elim (Bool-cases (idx / 64 == i / 64)) [
  | inl same ↦
      let e : i / 64 ≡ idx / 64 = ground arith in
      let low : (i % 64 == idx % 64) ≡ (i == idx) = ground arith in
      rw
        (
          word-cleared tier idx (i / 64) h,
          same,
          bit-reset_word (word tier (idx / 64)) (idx % 64) (i % 64) (small _) (omega arith),
          low,
          e,
        )
        refl
  | inr other ↦
      let apart : (i == idx) ≡ false = ground arith in
      rw (word-cleared tier idx (i / 64) h, other, apart) refl
]

cleared-Words :
    (tier : List ℕ) (idx : ℕ) → idx / 64 < length tier → Words tier → Words (cleared tier idx)
cleared-Words tier idx h small i = elim (Bool-cases (idx / 64 == i)) [
  | inl same ↦
      rw (word-cleared tier idx i h, same)
        (let le = reset_word-le (word tier (idx / 64)) (idx % 64) in
          omega (arith, le, small (idx / 64)))
  | inr other ↦ rw (word-cleared tier idx i h, other) (small i)
]

-- The link at a word that becomes zero with its bit.
link_off :
    (w v u n m : ℕ)
    → m ≡ 0
    → (u ≡ 1) ↔ (0 < n)
    → ((if v == w then 0 else u) ≡ 1) ↔ (0 < (if w == v then m else n))
link_off w v u n m off link = ground (arith, link.0, link.1)

upper-Words : (tier : List ℕ) (upper : Tiers) → Linked (tier ∷ upper) → Words tier
upper-Words tier [] l = l.0
upper-Words tier (upper ∷ tiers) l = l.0

pub reset_tiers-Linked :
    (tier : List ℕ) (upper : Tiers) (idx : ℕ)
    → Linked (tier ∷ upper)
    → idx < 64 * length tier
    → Linked (reset_tiers idx (tier ∷ upper))
unfolding reset_tiers
reset_tiers-Linked tier [] idx l h =
    elim (Bool-cases (reset_word (word tier (idx / 64)) (idx % 64) == 0)) [
      | inl empty ↦ rw empty (cleared-Words tier idx (omega arith) l.0, length-set tier _ _ ∙ l.1)
      | inr full ↦ rw full (cleared-Words tier idx (omega arith) l.0, length-set tier _ _ ∙ l.1)
    ]
reset_tiers-Linked tier (upper ∷ tiers) idx l h =
    let within : idx / 64 < length tier = omega arith in
    let w = idx / 64 in
    let after = reset_word (word tier w) (idx % 64) in
    let size : length (cleared tier idx) ≡ length tier = length-set tier _ _ in
    elim (Bool-cases (reset_word (word tier (idx / 64)) (idx % 64) == 0)) [
      | inl empty ↦ rw empty (
        cleared-Words tier idx within l.0,
        (λ v.
            rw
              (
                has-cleared upper w v (omega arith) (upper-Words upper tiers l.2),
                word-cleared tier idx v within,
              )
              (link_off w v (has upper v) (word tier v) after (ground arith) (l.1 v))),
        reset_tiers-Linked upper tiers w l.2 (omega arith),
        omega (arith, length-set upper (w / 64) (reset_word (word upper (w / 64)) (w % 64))),
      )
      | inr full ↦ rw full (
        cleared-Words tier idx within l.0,
        (λ v. rw (word-cleared tier idx v within) (
            link_kept w v (has upper v) (word tier v) after (ground arith)
              (λ same.
                let le = reset_word-le (word tier (idx / 64)) (idx % 64) in
                let pos : 0 < word tier (idx / 64) = ground arith in
                subst (λ k. 0 < word tier k) ((==_iff (idx / 64) v).0 same) pos)
              (l.1 v))),
        l.2,
        omega arith,
      )
    ]

reset_tiers-IsTiers :
    (n : ℕ) (tiers : Tiers) (idx : ℕ)
    → IsTiers n tiers
    → idx < n
    → IsTiers n (reset_tiers idx tiers)
      × ((i : ℕ) → contains (reset_tiers idx tiers) i ≡ (if i == idx then 0 else contains tiers i))
unfolding reset_tiers
reset_tiers-IsTiers n [] idx t h = absurd t
reset_tiers-IsTiers n (tier ∷ upper) idx t h = (
  (
    reset_tiers-Linked tier upper idx t.0 (omega (arith, t.1)),
    omega (arith, t.1, length-set tier (idx / 64) (reset_word (word tier (idx / 64)) (idx % 64))),
  ),
  λ i. has-cleared tier idx i (omega (arith, t.1)) (upper-Words tier upper t.0),
)

-- Resetting a bit in range keeps a bitset well formed; the set then has the indices that it had but
-- that one.
pub reset_bit-contains :
    (s : HierarchicalBitset) (index : ℕ)
    → IsBitset s
    → index < s.num_bits
    → IsBitset (reset_bit s index)
      × ((i : ℕ)
          → contains (reset_bit s index).tiers i ≡ (if i == index then 0 else contains s.tiers i))
unfolding reset_bit
reset_bit-contains s index t h = reset_tiers-IsTiers s.num_bits s.tiers index t h
