-- ===== src/FastBook/Links.antt =====
-- Doubly linked segments: the indices of `xs` follow each other by `prev` and `next`, from behind
-- `p` to before `e`.
use lob_project.Base.{
  ℕ, Bool, true, false, not, ◌&&◌, ◌||◌, List, [], ◌∷◌, ◌++◌, Option, none, some, ◌==◌, ◌≡◌, ◌≢◌,
  refl, ap, sym, ◌∙◌, some_inj, if◌then◌else◌, arith, Bool-cases, ◌⊎◌, inl, inr,
}

abbrev pub has : ℕ → List ℕ → Bool
has a [] = false
has a (x ∷ xs) = (a == x) || has a xs

abbrev pub Distinct : List ℕ → Type 0
Distinct [] = Unit
Distinct (x ∷ xs) = (has x xs ≡ false) × Distinct xs

abbrev pub first_or : List ℕ → Option ℕ → Option ℕ
first_or [] e = e
first_or (x ∷ xs) e = some x

abbrev pub last_or : Option ℕ → List ℕ → Option ℕ
last_or p [] = p
last_or p (x ∷ xs) = last_or (some x) xs

-- The list without the index, which it has at most once.
abbrev pub without : ℕ → List ℕ → List ℕ
without k [] = []
without k (x ∷ xs) = let rest = without k xs in if k == x then xs else x ∷ rest

pub has-append : (a : ℕ) (xs ys : List ℕ) → has a (xs ++ ys) ≡ (has a xs || has a ys)
has-append a [] ys = refl
has-append a (x ∷ xs) ys = ground (arith, has-append a xs ys)

-- A member of the list with `y` behind it.
pub has-snoc :
    (y a : ℕ) (xs : List ℕ) → has a (xs ++ y ∷ []) ≡ true → (a ≡ y) ⊎ ((y ≢ a) × (has a xs ≡ true))
has-snoc y a xs m = elim (Bool-cases (a == y)) [
  | inl at ↦ inl (ground arith)
  | inr off ↦ inr (ground arith, (let e = has-append a xs (y ∷ []) in ground (arith, e, m)))
]

last-has : (x : ℕ) (xs : List ℕ) (l : ℕ) → last_or (some x) xs ≡ some l → has l (x ∷ xs) ≡ true
last-has x [] l h = let e : x ≡ l = some_inj h in ground arith
last-has x (y ∷ xs) l h = ground (arith, last-has y xs l h)

pub last_in : (xs : List ℕ) (l : ℕ) → last_or none xs ≡ some l → has l xs ≡ true
last_in [] l h = cc
last_in (x ∷ xs) l h = last-has x xs l h

pub first_in : (xs : List ℕ) (l : ℕ) → first_or xs none ≡ some l → has l xs ≡ true
first_in [] l h = cc
first_in (x ∷ xs) l h = let e : x ≡ l = some_inj h in ground arith

pub without-split :
    (k : ℕ) (xs : List ℕ)
    → has k xs ≡ true
    → (pre : List ℕ) × (post : List ℕ) × (xs ≡ pre ++ k ∷ post) × (without k xs ≡ pre ++ post)
without-split k [] h = cc
without-split k (x ∷ xs) h = elim (Bool-cases (k == x)) [
  | inl same ↦ let e : x ≡ k = ground arith in rw same ([], xs, rw e refl, refl)
  | inr other ↦
      let (pre, post, e, w) = without-split k xs (ground (arith, h)) in
      rw other (x ∷ pre, post, ap (λ ys. x ∷ ys) e, ap (λ ys. x ∷ ys) w)
]

pub has-without :
    (k a : ℕ) (xs : List ℕ) → Distinct xs → has a (without k xs) ≡ (has a xs && not (a == k))
has-without k a [] d = refl
has-without k a (x ∷ xs) d = elim (Bool-cases (k == x)) [
  | inl same ↦
      let e : x ≡ k = ground arith in
      rw same (elim (Bool-cases (a == k)) [
        | inl at ↦
            let f : a ≡ x = ground arith in let m : has a xs ≡ false = rw f d.0 in ground (arith, m)
        | inr off ↦ ground arith
      ])
  | inr other ↦ rw other (ground (arith, has-without k a xs d.1))
]

pub Distinct-without : (k : ℕ) (xs : List ℕ) → Distinct xs → Distinct (without k xs)
Distinct-without k [] d = tt
Distinct-without k (x ∷ xs) d = elim (Bool-cases (k == x)) [
  | inl same ↦ rw same d.1
  | inr other ↦ rw other (rw (has-without k x xs d.1, d.0) refl, Distinct-without k xs d.1)
]

pub Distinct-split :
    (k : ℕ) (pre post : List ℕ)
    → Distinct (pre ++ k ∷ post)
    → Distinct pre
      × Distinct post
      × (has k pre ≡ false)
      × (has k post ≡ false)
      × ((a : ℕ) → has a pre ≡ true → has a post ≡ false)
Distinct-split k [] post d = (tt, d.1, refl, d.0, λ a m. cc)
Distinct-split k (x ∷ pre) post d =
    let (l, r, kl, kr, apart) = Distinct-split k pre post d.1 in
    let out : (has x pre || has x (k ∷ post)) ≡ false =
      rw (sym (has-append x pre (k ∷ post))) d.0 in
    (
      (ground (arith, out), l),
      r,
      ground (arith, out, kl),
      kr,
      λ a m. elim (Bool-cases (a == x)) [
        | inl at ↦ let e : a ≡ x = ground arith in rw e (ground (arith, out))
        | inr off ↦ apart a (ground (arith, m))
      ],
    )

abbrev pub Seg : (ℕ → Option ℕ) → (ℕ → Option ℕ) → Option ℕ → List ℕ → Option ℕ → Type 0
Seg prev next p [] e = Unit
Seg prev next p (x ∷ xs) e = (prev x ≡ p) × (next x ≡ first_or xs e) × Seg prev next (some x) xs e

module _ (prev next : ℕ → Option ℕ) where
  pub Seg-append :
      (xs ys : List ℕ) (p e : Option ℕ)
      → Seg prev next p xs (first_or ys e)
      → Seg prev next (last_or p xs) ys e
      → Seg prev next p (xs ++ ys) e
  Seg-append [] ys p e h k = k
  Seg-append (x ∷ []) ys p e h k = (h.0, h.1, k)
  Seg-append (x ∷ y ∷ xs) ys p e h k = (h.0, h.1, Seg-append (y ∷ xs) ys (some x) e h.2 k)

  pub Seg-split :
      (xs ys : List ℕ) (p e : Option ℕ)
      → Seg prev next p (xs ++ ys) e
      → Seg prev next p xs (first_or ys e) × Seg prev next (last_or p xs) ys e
  Seg-split [] ys p e h = (tt, h)
  Seg-split (x ∷ []) ys p e h = ((h.0, h.1, tt), h.2)
  Seg-split (x ∷ y ∷ xs) ys p e h =
      let (s, t) = Seg-split (y ∷ xs) ys (some x) e h.2 in ((h.0, h.1, s), t)

  module _ (prev' next' : ℕ → Option ℕ) where
    pub Seg-frame :
        (xs : List ℕ) (p e : Option ℕ)
        → ((a : ℕ) → has a xs ≡ true → (prev' a ≡ prev a) × (next' a ≡ next a))
        → Seg prev next p xs e
        → Seg prev' next' p xs e
    Seg-frame [] p e same h = tt
    Seg-frame (x ∷ xs) p e same h =
        let here = same x (ground arith) in
        (
          here.0 ∙ h.0,
          here.1 ∙ h.1,
          Seg-frame xs (some x) e (λ a m. same a (ground (arith, m))) h.2,
        )

    -- Only the link behind the last index changes.
    pub Seg-reend :
        (xs : List ℕ) (p e e' : Option ℕ)
        → Distinct xs
        → ((a : ℕ) → has a xs ≡ true → prev' a ≡ prev a)
        → ((a : ℕ) → has a xs ≡ true → some a ≢ last_or none xs → next' a ≡ next a)
        → ((a : ℕ) → last_or none xs ≡ some a → next' a ≡ e')
        → Seg prev next p xs e
        → Seg prev' next' p xs e'
    Seg-reend [] p e e' d ps ns l h = tt
    Seg-reend (x ∷ []) p e e' d ps ns l h = (ps x (ground arith) ∙ h.0, l x refl, tt)
    Seg-reend (x ∷ y ∷ xs) p e e' d ps ns l h =
        let inner : some x ≢ last_or (some y) xs =
          λ same. let m = last-has y xs x (sym same) in ground (arith, m, d.0) in
        (
          ps x (ground arith) ∙ h.0,
          ns x (ground arith) inner ∙ h.1,
          Seg-reend (y ∷ xs) (some x) e e' d.1 (λ a m. ps a (ground (arith, m)))
              (λ a m. ns a (ground (arith, m))) l h.2,
        )

    -- Only the link before the first index changes.
    pub Seg-restart :
        (xs : List ℕ) (p p' e : Option ℕ)
        → Distinct xs
        → ((a : ℕ) → has a xs ≡ true → next' a ≡ next a)
        → ((a : ℕ) → has a xs ≡ true → some a ≢ first_or xs none → prev' a ≡ prev a)
        → ((a : ℕ) → first_or xs none ≡ some a → prev' a ≡ p')
        → Seg prev next p xs e
        → Seg prev' next' p' xs e
    Seg-restart [] p p' e d ns ps f h = tt
    Seg-restart (x ∷ xs) p p' e d ns ps f h =
        let later : (a : ℕ) → has a xs ≡ true → some a ≢ some x = λ a m same.
          let s : a ≡ x = some_inj same in let out : has a xs ≡ false = rw s d.0 in cc in
        (
          f x refl,
          ns x (ground arith) ∙ h.1,
          Seg-frame xs (some x) e
              (λ a m. (ps a (ground (arith, m)) (later a m), ns a (ground (arith, m)))) h.2,
        )
