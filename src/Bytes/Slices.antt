-- ===== src/Bytes/Slices.antt =====
-- A field of a struct: the bytes from an offset on.
use lob_project.Base.{
  ℕ, zero, suc, ◌-◌, ◌≤◌, ◌≡◌, refl, ap, ◌∙◌, List, [], ◌∷◌, ◌++◌, arith, length, take, drop,
}

abbrev pub slice : ℕ → ℕ → List ℕ → List ℕ
slice offset n bs = take n (drop offset bs)

pub take-append : (n : ℕ) (xs ys : List ℕ) → length xs ≡ n → take n (xs ++ ys) ≡ xs
take-append zero [] ys h = refl
take-append zero (x ∷ xs) ys h = absurd (omega arith)
take-append (suc n) [] ys h = absurd (omega arith)
take-append (suc n) (x ∷ xs) ys h = ap (◌∷◌ x) (take-append n xs ys (omega arith))

pub drop-append :
    (n k : ℕ) (xs ys : List ℕ) → length xs ≡ k → k ≤ n → drop n (xs ++ ys) ≡ drop (n - k) ys
drop-append n k [] ys h le = ap (λ (i : ℕ). drop i ys) (omega arith)
drop-append zero k (x ∷ xs) ys h le = absurd (omega arith)
drop-append (suc n) k (x ∷ xs) ys h le =
    drop-append n (length xs) xs ys refl (omega arith) ∙ ap (λ (i : ℕ). drop i ys) (omega arith)
