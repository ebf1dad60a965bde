-- ===== src/Base/Predicates.antt =====
-- Predicates on lists by recursion: they compute to tuples, which the tactics read and build.
use mathlib.Core.List.{List, [], ◌∷◌, ◌++◌, reverse, reverse-cons}

abbrev pub All {ℓ κ} : {A : Type ℓ} → (A → Type κ) → List A → Type κ
All P [] = Unit
All P (x ∷ xs) = P x × All P xs

-- Every element stands in the relation to all that follow it.
abbrev pub Pairwise {ℓ κ} : {A : Type ℓ} → (A → A → Type κ) → List A → Type κ
Pairwise R [] = Unit
Pairwise R (x ∷ xs) = All (R x) xs × Pairwise R xs

module _ {ℓ κ} {A : Type ℓ} (P : A → Type κ) where
  pub All-append : (xs ys : List A) → All P xs → All P ys → All P (xs ++ ys)
  All-append [] ys hx hy = hy
  All-append (x ∷ xs) ys hx hy = (hx.0, All-append xs ys hx.1 hy)

  pub All-append_split : (xs ys : List A) → All P (xs ++ ys) → All P xs × All P ys
  All-append_split [] ys h = (tt, h)
  All-append_split (x ∷ xs) ys h = let (hx, hy) = All-append_split xs ys h.1 in ((h.0, hx), hy)

  pub All-reverse : (xs : List A) → All P xs → All P (reverse xs)
  All-reverse [] h = tt
  All-reverse (x ∷ xs) h =
      rw (reverse-cons x xs) (All-append (reverse xs) (x ∷ []) (All-reverse xs h.1) (h.0, tt))

pub All-map {ℓ κ μ} :
    {A : Type ℓ} (P : A → Type κ) (Q : A → Type μ) (xs : List A)
    → ((x : A) → P x → Q x)
    → All P xs
    → All Q xs
All-map P Q [] f h = tt
All-map P Q (x ∷ xs) f h = (f x h.0, All-map P Q xs f h.1)

module _ {ℓ κ} {A : Type ℓ} (R : A → A → Type κ) where
  pub Pairwise-snoc :
      (xs : List A) (y : A) → Pairwise R xs → All (λ x. R x y) xs → Pairwise R (xs ++ y ∷ [])
  Pairwise-snoc [] y h a = (tt, tt)
  Pairwise-snoc (x ∷ xs) y h a =
      (All-append (R x) xs (y ∷ []) h.0 (a.0, tt), Pairwise-snoc xs y h.1 a.1)

pub Pairwise-reverse {ℓ κ} :
    {A : Type ℓ} (R : A → A → Type κ) (xs : List A)
    → Pairwise R xs
    → Pairwise (λ x y. R y x) (reverse xs)
Pairwise-reverse R [] h = tt
Pairwise-reverse R (x ∷ xs) h = rw (reverse-cons x xs) (
    Pairwise-snoc (λ a b. R b a) (reverse xs) x (Pairwise-reverse R xs h.1)
      (All-reverse (R x) xs h.0))

pub All-zip {ℓ κ μ ν} :
    {A : Type ℓ} (P : A → Type κ) (Q : A → Type μ) (R : A → Type ν) (xs : List A)
    → ((x : A) → P x → Q x → R x)
    → All P xs
    → All Q xs
    → All R xs
All-zip P Q R [] f h k = tt
All-zip P Q R (x ∷ xs) f h k = (f x h.0 k.0, All-zip P Q R xs f h.1 k.1)

pub Pairwise-map {ℓ κ μ} :
    {A : Type ℓ} (R : A → A → Type κ) (S : A → A → Type μ) (xs : List A)
    → ((x y : A) → R x y → S x y)
    → Pairwise R xs
    → Pairwise S xs
Pairwise-map R S [] f h = tt
Pairwise-map R S (x ∷ xs) f h = (All-map (R x) (S x) xs (f x) h.0, Pairwise-map R S xs f h.1)
