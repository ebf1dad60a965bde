-- ===== src/Itch/Symbol.antt =====
-- What it means that a symbol matches: the field is the symbol, padded with spaces.
use mathlib.Core.Path.{subst}
use lob_project.Base.{
  ℕ, ◌-◌, ◌≤◌, ◌≡◌, refl, ap, ◌↔◌, true, false, List, [], ◌∷◌, ◌++◌, ltb, ◌==◌, ==_iff, ==_refl,
  Bool-cases, inl, inr, length, replicate, arith, zero, suc,
}
use lob_project.Itch.{is_padding, matches_chars, matches_symbol}

is_padding-eq : (stock : List ℕ) → is_padding stock ≡ true → stock ≡ replicate (length stock) b' '
unfolding is_padding
is_padding-eq [] h = refl
is_padding-eq (b ∷ stock) h = elim (Bool-cases (b == b' ')) [
  | inl same ↦ rw ((==_iff b b' ').0 same) (ap (◌∷◌ b' ') (is_padding-eq stock (rw same at h)))
  | inr other ↦ (let no : false ≡ true = rw other at h in cc)
]

replicate-is_padding : (n : ℕ) → is_padding (replicate n b' ') ≡ true
unfolding is_padding
replicate-is_padding zero = refl
replicate-is_padding (suc n) = replicate-is_padding n

matches_chars-eq :
    (stock symbol : List ℕ)
    → matches_chars stock symbol ≡ true
    → stock ≡ symbol ++ replicate (length stock - length symbol) b' '
unfolding matches_chars
matches_chars-eq stock [] h =
    let e : length stock - 0 ≡ length stock = omega arith in rw e (is_padding-eq stock h)
matches_chars-eq [] (c ∷ symbol) h = cc
matches_chars-eq (b ∷ stock) (c ∷ symbol) h = elim (Bool-cases (b == c)) [
  | inl same ↦
      let e : suc (length stock) - suc (length symbol) ≡ length stock - length symbol =
        omega arith in
      rw ((==_iff b c).0 same, e) (ap (◌∷◌ c) (matches_chars-eq stock symbol (rw same at h)))
  | inr other ↦ (let no : false ≡ true = rw other at h in cc)
]

padded-matches_chars :
    (symbol : List ℕ) (n : ℕ) → matches_chars (symbol ++ replicate n b' ') symbol ≡ true
unfolding matches_chars
padded-matches_chars [] n = replicate-is_padding n
padded-matches_chars (c ∷ symbol) n = rw (==_refl c) (padded-matches_chars symbol n)

-- A field of eight bytes matches a symbol exactly where the symbol has at most eight characters and
-- the field is the symbol followed by spaces.
pub matches_symbol_iff :
    (stock symbol : List ℕ)
    → length stock ≡ 8
    → (matches_symbol stock symbol ≡ true)
      ↔ ((length symbol ≤ 8) × (stock ≡ symbol ++ replicate (8 - length symbol) b' '))
unfolding matches_symbol
matches_symbol_iff stock symbol eight = elim (Bool-cases (ltb 8 (length symbol))) [
  | inl long ↦ rw long (λ h. cc, λ h. absurd (ground (arith, h.0)))
  | inr short ↦ rw short (
    (λ h. (
      ground arith,
      subst (λ n. stock ≡ symbol ++ replicate (n - length symbol) b' ') eight
          (matches_chars-eq stock symbol h),
    )),
    λ h. rw (h.1) (padded-matches_chars symbol (8 - length symbol)),
  )
]
