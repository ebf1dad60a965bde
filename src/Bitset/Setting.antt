-- ===== src/Bitset/Setting.antt =====
-- Setting a bit keeps the tiers summaries of each other.
use mathlib.Core.Path.{subst}
use lob_project.Base.{
  ℕ, ◌*◌, ◌/◌, ◌%◌, ◌<◌, ◌≡◌, refl, ◌∙◌, ◌↔◌, inl, inr, List, [], ◌∷◌, arith, set, get_or-set,
  length-set, length, true, false, ◌==◌, ==_iff, if◌then◌else◌, Bool-cases,
}
use lob_project.Bitset.{Tiers, HierarchicalBitset, set_tiers, set_word, set_bit}
use lob_project.Bitset.Or.{bit-set_word, set_word-lt, set_word-pos}
use lob_project.Bitset.First.{word, has, Words, Linked, contains, IsTiers, IsBitset}

-- The tier with a bit set.
abbrev pub marked : List ℕ → ℕ → List ℕ
marked tier idx = set tier (idx / 64) (set_word (word tier (idx / 64)) (idx % 64))

word-marked :
    (tier : List ℕ) (idx v : ℕ)
    → idx / 64 < length tier
    → word (marked tier idx) v
      ≡ (if idx / 64 == v then set_word (word tier (idx / 64)) (idx % 64) else word tier v)
word-marked tier idx v h = get_or-set tier (idx / 64) v _ 0 h

pub has-marked :
    (tier : List ℕ) (idx i : ℕ)
    → idx / 64 < length tier
    → has (marked tier idx) i ≡ (if i == idx then 1 else has tier i)
has-marked tier idx i h = elim (Bool-cases (idx / 64 == i / 64)) [
  | inl same ↦
      let e : i / 64 ≡ idx / 64 = ground arith in
      let low : (i % 64 == idx % 64) ≡ (i == idx) = ground arith in
      rw
        (
          word-marked tier idx (i / 64) h,
          same,
          bit-set_word (word tier (idx / 64)) (idx % 64) (i % 64),
          low,
          e,
        )
        refl
  | inr other ↦
      let apart : (i == idx) ≡ false = ground arith in
      rw (word-marked tier idx (i / 64) h, other, apart) refl
]

marked-Words :
    (tier : List ℕ) (idx : ℕ) → idx / 64 < length tier → Words tier → Words (marked tier idx)
marked-Words tier idx h w i = elim (Bool-cases (idx / 64 == i)) [
  | inl same ↦ rw (word-marked tier idx i h, same) (set_word-lt _ _ (w _) (omega arith))
  | inr other ↦ rw (word-marked tier idx i h, other) (w i)
]

-- The link at a word that is no longer zero, whose bit above is set.
link_both :
    (w v u n m : ℕ)
    → 0 < m
    → (u ≡ 1) ↔ (0 < n)
    → ((if v == w then 1 else u) ≡ 1) ↔ (0 < (if w == v then m else n))
link_both w v u n m pos link = ground (arith, link.0, link.1)

-- The link at a word that stays other than zero.
pub link_kept :
    (w v u n m : ℕ)
    → 0 < m
    → ((w == v) ≡ true → 0 < n)
    → (u ≡ 1) ↔ (0 < n)
    → (u ≡ 1) ↔ (0 < (if w == v then m else n))
link_kept w v u n m pos there link = elim (Bool-cases (w == v)) [
  | inl same ↦ rw same (λ h. pos, λ h. link.1 (there same))
  | inr other ↦ rw other link
]

pub set_tiers-Linked :
    (tier : List ℕ) (upper : Tiers) (idx : ℕ)
    → Linked (tier ∷ upper)
    → idx < 64 * length tier
    → Linked (set_tiers idx (tier ∷ upper))
unfolding set_tiers
set_tiers-Linked tier [] idx l h = elim (Bool-cases (word tier (idx / 64) == 0)) [
  | inl empty ↦ rw empty (marked-Words tier idx (omega arith) l.0, length-set tier _ _ ∙ l.1)
  | inr full ↦ rw full (marked-Words tier idx (omega arith) l.0, length-set tier _ _ ∙ l.1)
]
set_tiers-Linked tier (upper ∷ tiers) idx l h =
    let within : idx / 64 < length tier = omega arith in
    let w = idx / 64 in
    let size : length (marked tier idx) ≡ length tier = length-set tier _ _ in
    elim (Bool-cases (word tier w == 0)) [
      | inl empty ↦ rw empty (
        marked-Words tier idx within l.0,
        (λ v.
            rw (has-marked upper w v (omega arith), word-marked tier idx v within)
              (link_both w v (has upper v) (word tier v) (set_word (word tier w) (idx % 64))
                (set_word-pos _ _) (l.1 v))),
        set_tiers-Linked upper tiers w l.2 (omega arith),
        omega (arith, length-set upper (w / 64) (set_word (word upper (w / 64)) (w % 64))),
      )
      | inr full ↦ rw full (
        marked-Words tier idx within l.0,
        (λ v. rw (word-marked tier idx v within) (
            link_kept w v (has upper v) (word tier v) (set_word (word tier w) (idx % 64))
              (set_word-pos _ _)
              (λ same.
                let pos : 0 < word tier (idx / 64) = ground arith in
                subst (λ k. 0 < word tier k) ((==_iff (idx / 64) v).0 same) pos)
              (l.1 v))),
        l.2,
        omega arith,
      )
    ]

set_tiers-IsTiers :
    (n : ℕ) (tiers : Tiers) (idx : ℕ)
    → IsTiers n tiers
    → idx < n
    → IsTiers n (set_tiers idx tiers)
      × ((i : ℕ) → contains (set_tiers idx tiers) i ≡ (if i == idx then 1 else contains tiers i))
unfolding set_tiers
set_tiers-IsTiers n [] idx t h = absurd t
set_tiers-IsTiers n (tier ∷ upper) idx t h = (
  (
    set_tiers-Linked tier upper idx t.0 (omega (arith, t.1)),
    omega (arith, t.1, length-set tier (idx / 64) (set_word (word tier (idx / 64)) (idx % 64))),
  ),
  λ i. has-marked tier idx i (omega (arith, t.1)),
)

-- Setting a bit in range keeps a bitset well formed; the set then has that index and otherwise the
-- ones that it had.
pub set_bit-contains :
    (s : HierarchicalBitset) (index : ℕ)
    → IsBitset s
    → index < s.num_bits
    → IsBitset (set_bit s index)
      × ((i : ℕ)
          → contains (set_bit s index).tiers i ≡ (if i == index then 1 else contains s.tiers i))
unfolding set_bit
set_bit-contains s index t h = set_tiers-IsTiers s.num_bits s.tiers index t h
