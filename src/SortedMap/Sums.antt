-- ===== src/SortedMap/Sums.antt =====
-- The sum of a weight over the values of a map, and how a write changes it.
use mathlib.Core.Option.{none-ne-some}
use lob_project.Base.{
  ℕ, ◌+◌, ◌<◌, ◌≡◌, sym, ◌∙◌, [], ◌∷◌, some, none, false, arith, inl, inr, ltb, ◌==◌, Bool-cases,
  some_inj, All-map,
}
use lob_project.SortedMap.{SortedMap, keys, find, update, erase}
use lob_project.SortedMap.Laws.{Ascending, find_below}

module _ {ℓ} {V : Type ℓ} (weight : V → ℕ) where
  abbrev pub sum : SortedMap V → ℕ
  sum [] = 0
  sum ((k, v) ∷ m) = weight v + sum m

  no_key_below :
      (k j : ℕ) (v w : V) (m : SortedMap V)
      → Ascending ((j, w) ∷ m)
      → (j == k) ≡ false
      → k < j
      → ¬ (find k ((j, w) ∷ m) ≡ some v)
  unfolding find
  no_key_below k j v w m a other lt h =
      none-ne-some v
        (sym (find_below k m (All-map _ _ (keys m) (λ i more. omega arith) a.0)) ∙ rw other at h)

  -- A new entry adds its weight.
  pub sum-update_new :
      (k : ℕ) (d : V) (f : V → V) (m : SortedMap V)
      → find k m ≡ none
      → sum (update k d f m) ≡ sum m + weight (f d)
  unfolding find update
  sum-update_new k d f [] h = omega arith
  sum-update_new k d f ((j, w) ∷ m) h = elim (Bool-cases (j == k)) [
    | inl same ↦ absurd (none-ne-some w (sym (rw same at h)))
    | inr other ↦ rw other (elim (Bool-cases (ltb k j)) [
      | inl below ↦ rw below (omega arith)
      | inr above ↦ rw above (omega (arith, sum-update_new k d f m (rw other at h)))
    ])
  ]

  -- A changed entry trades its weight.
  pub sum-update_found :
      (k : ℕ) (d v : V) (f : V → V) (m : SortedMap V)
      → Ascending m
      → find k m ≡ some v
      → sum (update k d f m) + weight v ≡ sum m + weight (f v)
  unfolding find update
  sum-update_found k d v f [] a h = absurd (none-ne-some v h)
  sum-update_found k d v f ((j, w) ∷ m) a h = elim (Bool-cases (j == k)) [
    | inl same ↦ let e : w ≡ v = some_inj (rw same at h) in rw (same, e) (omega arith)
    | inr other ↦ rw other (elim (Bool-cases (ltb k j)) [
      | inl below ↦ absurd (no_key_below k j v w m a other (ground arith) h)
      | inr above ↦ rw above (omega (arith, sum-update_found k d v f m a.1 (rw other at h)))
    ])
  ]

  pub sum-erase :
      (k : ℕ) (v : V) (m : SortedMap V) → find k m ≡ some v → sum (erase k m) + weight v ≡ sum m
  unfolding find erase
  sum-erase k v [] h = absurd (none-ne-some v h)
  sum-erase k v ((j, w) ∷ m) h = elim (Bool-cases (j == k)) [
    | inl same ↦ let e : w ≡ v = some_inj (rw same at h) in rw (same, e) (omega arith)
    | inr other ↦ rw other (omega (arith, sum-erase k v m (rw other at h)))
  ]
