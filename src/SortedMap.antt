-- ===== src/SortedMap.antt =====
-- `std::map` with `uint64_t` keys, as the list of its entries in ascending order of the keys:
-- `begin` is the head of the list and `rbegin` the head of its reverse.
pub mod Laws
pub mod Sums
use lob_project.Base.{ℕ, Bool, List, [], ◌∷◌, Option, none, some, ltb, ◌==◌, if◌then◌else◌}

abbrev pub SortedMap {ℓ} : Type ℓ → Type ℓ
SortedMap V = List (ℕ × V)

module _ {ℓ} {V : Type ℓ} where
  abbrev pub keys : SortedMap V → List ℕ
  keys [] = []
  keys ((k, v) ∷ m) = k ∷ keys m

  unfoldable pub find : ℕ → SortedMap V → Option V
  find k [] = none
  find k ((j, v) ∷ m) = if j == k then some v else find k m

  -- `f` applied to `m[k]`, which `operator[]` creates as `d` where the key is missing.
  unfoldable pub update : ℕ → V → (V → V) → SortedMap V → SortedMap V
  update k d f [] = (k, f d) ∷ []
  update k d f ((j, v) ∷ m) =
      if j == k
      then (k, f v) ∷ m
      else if ltb k j
      then (k, f d) ∷ (j, v) ∷ m
      else (j, v) ∷ update k d f m

  unfoldable pub erase : ℕ → SortedMap V → SortedMap V
  erase k [] = []
  erase k ((j, v) ∷ m) = if j == k then m else (j, v) ∷ erase k m

  -- The key at the head, 0 for an empty map.
  abbrev pub first_key : SortedMap V → ℕ
  first_key [] = 0
  first_key ((k, v) ∷ m) = k
