-- ===== src/SortedMap/Laws.antt =====
-- How `update` and `erase` act on the lookups and on the order of the keys.
use lob_project.Base.{
  ℕ, ◌<◌, ◌≡◌, refl, ap, sym, ◌∙◌, ==_iff, ==_refl, some_inj, [], ◌∷◌, Option, none, some, false,
  arith, ltb, ◌==◌, if◌then◌else◌, All, inl, inr, Bool-cases, Pairwise, All-map,
}
use mathlib.Core.Path.{subst}
use mathlib.Core.Option.{none-ne-some}
use lob_project.SortedMap.{SortedMap, keys, find, update, erase}

abbrev pub Ascending {ℓ} : {V : Type ℓ} → SortedMap V → Type 0
Ascending m = Pairwise ◌<◌ (keys m)

module _ {ℓ} {V : Type ℓ} where
  pub find_below : (k : ℕ) (m : SortedMap V) → All (λ j. k < j) (keys m) → find k m ≡ none
  unfolding find
  find_below k [] h = refl
  find_below k ((j, v) ∷ m) h = ground (arith, find_below k m h.1)

  above_trans :
      (k j : ℕ) (m : SortedMap V) → k < j → All (λ i. j < i) (keys m) → All (λ i. k < i) (keys m)
  above_trans k j m lt = All-map (λ i. j < i) (λ i. k < i) (keys m) (λ i h. omega arith)

  -- The value that `operator[]` finds or creates.
  abbrev pub value_or : Option V → V → V
  value_or none d = d
  value_or (some v) d = v

  -- A write is read back under its key and leaves every other key as it was.
  pub find-update :
      (k q : ℕ) (d : V) (f : V → V) (m : SortedMap V)
      → Ascending m
      → find q (update k d f m) ≡ (if k == q then some (f (value_or (find k m) d)) else find q m)
  unfolding find update
  find-update k q d f [] h = refl
  find-update k q d f ((j, v) ∷ m) h = elim (Bool-cases (j == k)) [
    | inl same ↦ rw same (ground arith)
    | inr other ↦ rw other (elim (Bool-cases (ltb k j)) [
      | inl below ↦ rw (below, find_below k m (above_trans k j m (ground arith) h.0)) refl
      | inr above ↦ rw above (ground (arith, find-update k q d f m h.1))
    ])
  ]

  pub find-erase :
      (k q : ℕ) (m : SortedMap V)
      → Ascending m
      → find q (erase k m) ≡ (if k == q then none else find q m)
  unfolding find erase
  find-erase k q [] h = ground arith
  find-erase k q ((j, v) ∷ m) h = ground (arith, find-erase k q m h.1, find_below j m h.0)

  pub keys-update :
      (P : ℕ → Type 0) (k : ℕ) (d : V) (f : V → V) (m : SortedMap V)
      → P k
      → All P (keys m)
      → All P (keys (update k d f m))
  unfolding update
  keys-update P k d f [] p h = (p, tt)
  keys-update P k d f ((j, v) ∷ m) p h = ground (arith, keys-update P k d f m p h.1)

  pub keys-erase :
      (P : ℕ → Type 0) (k : ℕ) (m : SortedMap V) → All P (keys m) → All P (keys (erase k m))
  unfolding erase
  keys-erase P k [] h = tt
  keys-erase P k ((j, v) ∷ m) h = ground (arith, keys-erase P k m h.1)

  pub update-Ascending :
      (k : ℕ) (d : V) (f : V → V) (m : SortedMap V) → Ascending m → Ascending (update k d f m)
  unfolding update
  update-Ascending k d f [] h = (tt, tt)
  update-Ascending k d f ((j, v) ∷ m) h =
      ground
        (arith, update-Ascending k d f m h.1, keys-update (λ i. j < i) k d f m, above_trans k j m)

  pub erase-Ascending : (k : ℕ) (m : SortedMap V) → Ascending m → Ascending (erase k m)
  unfolding erase
  erase-Ascending k [] h = tt
  erase-Ascending k ((j, v) ∷ m) h =
      ground (arith, erase-Ascending k m h.1, keys-erase (λ i. j < i) k m)

  -- What holds of every entry, and of the written one, holds after the write.
  pub All-update {κ} :
      (Q : ℕ × V → Type κ) (k : ℕ) (d : V) (f : V → V) (m : SortedMap V)
      → Q (k, f d)
      → ((v : V) → Q (k, v) → Q (k, f v))
      → All Q m
      → All Q (update k d f m)
  unfolding update
  All-update Q k d f [] new old h = (new, tt)
  All-update Q k d f ((j, v) ∷ m) new old h = elim (Bool-cases (j == k)) [
    | inl same ↦ rw same (old v (subst (λ i. Q (i, v)) ((==_iff j k).0 same) h.0), h.1)
    | inr other ↦ rw other (elim (Bool-cases (ltb k j)) [
      | inl below ↦ rw below (new, h)
      | inr above ↦ rw above (h.0, All-update Q k d f m new old h.1)
    ])
  ]

  pub All-erase {κ} : (Q : ℕ × V → Type κ) (k : ℕ) (m : SortedMap V) → All Q m → All Q (erase k m)
  unfolding erase
  All-erase Q k [] h = tt
  All-erase Q k ((j, v) ∷ m) h = elim (Bool-cases (j == k)) [
    | inl same ↦ rw same h.1
    | inr other ↦ rw other (h.0, All-erase Q k m h.1)
  ]

  skip_head :
      (k j : ℕ) (w v : V) (m : SortedMap V)
      → (j == k) ≡ false
      → find k ((j, w) ∷ m) ≡ some v
      → find k m ≡ some v
  unfolding find
  skip_head k j w v m e h = rw e at h

  -- Reading by `operator[]` makes no entry where there is one.
  pub update_found :
      (k : ℕ) (d v : V) (m : SortedMap V)
      → Ascending m
      → find k m ≡ some v
      → update k d (λ w. w) m ≡ m
  unfolding find update
  update_found k d v [] a h = cc
  update_found k d v ((j, w) ∷ m) a h = elim (Bool-cases (j == k)) [
    | inl same ↦ rw (same, (==_iff j k).0 same) refl
    | inr other ↦ rw other (elim (Bool-cases (ltb k j)) [
      | inl below ↦ absurd (
          none-ne-some v (
            sym (find_below k m (above_trans k j m (ground arith) a.0))
            ∙ skip_head k j w v m other h))
      | inr above ↦
          rw above (ap (◌∷◌ (j, w)) (update_found k d v m a.1 (skip_head k j w v m other h)))
    ])
  ]

  -- The same where the entry is there.
  pub All-update_found {κ} :
      (Q : ℕ × V → Type κ) (k : ℕ) (d v : V) (f : V → V) (m : SortedMap V)
      → Ascending m
      → find k m ≡ some v
      → Q (k, f v)
      → All Q m
      → All Q (update k d f m)
  unfolding find update
  All-update_found Q k d v f [] a h new q = cc
  All-update_found Q k d v f ((j, w) ∷ m) a h new q = elim (Bool-cases (j == k)) [
    | inl same ↦ rw same (subst (λ x. Q (k, f x)) (sym (some_inj (rw same at h))) new, q.1)
    | inr other ↦ rw other (elim (Bool-cases (ltb k j)) [
      | inl below ↦ absurd (
          none-ne-some v (
            sym (find_below k m (above_trans k j m (ground arith) a.0))
            ∙ skip_head k j w v m other h))
      | inr above ↦
          rw above (q.0, All-update_found Q k d v f m a.1 (skip_head k j w v m other h) new q.1)
    ])
  ]

  pub All-find {κ} :
      (Q : ℕ × V → Type κ) (k : ℕ) (v : V) (m : SortedMap V)
      → find k m ≡ some v
      → All Q m
      → Q (k, v)
  unfolding find
  All-find Q k v [] h q = cc
  All-find Q k v ((j, w) ∷ m) h q = elim (Bool-cases (j == k)) [
    | inl same ↦
        subst (λ i. Q (i, v)) ((==_iff j k).0 same)
          (subst (λ x. Q (j, x)) (some_inj (rw same at h)) q.0)
    | inr other ↦ All-find Q k v m (skip_head k j w v m other h) q.1
  ]

  pub keys-find :
      (P : ℕ → Type 0) (k : ℕ) (v : V) (m : SortedMap V) → find k m ≡ some v → All P (keys m) → P k
  unfolding find
  keys-find P k v [] h p = cc
  keys-find P k v ((j, w) ∷ m) h p = elim (Bool-cases (j == k)) [
    | inl same ↦ subst P ((==_iff j k).0 same) p.0
    | inr other ↦ keys-find P k v m (skip_head k j w v m other h) p.1
  ]

  erase_below : (k : ℕ) (m : SortedMap V) → All (λ j. k < j) (keys m) → erase k m ≡ m
  unfolding erase
  erase_below k [] h = refl
  erase_below k ((j, w) ∷ m) h =
      let other : (j == k) ≡ false = ground (arith, h.0) in rw (other, erase_below k m h.1) refl

  -- A write that is erased again leaves no trace but the erasure.
  pub erase-update :
      (k : ℕ) (d : V) (f : V → V) (m : SortedMap V)
      → Ascending m
      → erase k (update k d f m) ≡ erase k m
  unfolding erase update
  erase-update k d f [] a = rw (==_refl k) refl
  erase-update k d f ((j, w) ∷ m) a = elim (Bool-cases (j == k)) [
    | inl same ↦ rw (same, ==_refl k) refl
    | inr other ↦ rw other (elim (Bool-cases (ltb k j)) [
      | inl below ↦
          rw (below, ==_refl k, erase_below k m (above_trans k j m (ground arith) a.0)) refl
      | inr above ↦ rw (above, other, erase-update k d f m a.1) refl
    ])
  ]
