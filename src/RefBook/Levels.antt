-- ===== src/RefBook/Levels.antt =====
-- Price levels and their queue: what holds of every level or key carries over to the queue, to
-- the levels in reverse, and to what matching leaves.
use mathlib.Core.List.{reverse-cons, append_assoc, append-nil}
use lob_project.Base.{
  ℕ, ◌+◌, ◌≤◌, ◌&&◌, List, [], ◌∷◌, ◌++◌, ◌≡◌, refl, ap, ◌∙◌, sym, min, ltb, ◌==◌, reverse, arith,
  All, All-append, All-reverse, Bool-cases, inl, inr, Pairwise, Pairwise-reverse, is_empty,
}
use lob_project.Types.{Order}
use lob_project.SortedMap.{SortedMap, keys, update}
use lob_project.RefBook.{Levels, Locations, fill, release, crosses, match_level, match_levels}
use lob_project.RefBook.Trading.{volume}
use lob_project.RefBook.Queue.{at_price, queue, NoEmptyLevel}

pub keys-append {ℓ} : {V : Type ℓ} (m n : SortedMap V) → keys (m ++ n) ≡ keys m ++ keys n
keys-append [] n = refl
keys-append ((k, v) ∷ m) n = ap (◌∷◌ k) (keys-append m n)

pub keys-reverse {ℓ} : {V : Type ℓ} (m : SortedMap V) → keys (reverse m) ≡ reverse (keys m)
keys-reverse [] = refl
keys-reverse ((k, v) ∷ m) =
    rw
      (
        reverse-cons (k, v) m,
        reverse-cons k (keys m),
        keys-append (reverse m) ((k, v) ∷ []),
        keys-reverse m,
      )
      refl

pub All-keys-reverse {ℓ} :
    {V : Type ℓ} (P : ℕ → Type 0) (m : SortedMap V) → All P (keys m) → All P (keys (reverse m))
All-keys-reverse P m h = rw (keys-reverse m) (All-reverse P (keys m) h)

pub Pairwise-keys-reverse {ℓ} :
    {V : Type ℓ} (R : ℕ → ℕ → Type 0) (m : SortedMap V)
    → Pairwise R (keys m)
    → Pairwise (λ a b. R b a) (keys (reverse m))
Pairwise-keys-reverse R m h = rw (keys-reverse m) (Pairwise-reverse R (keys m) h)

-- A predicate on the price of a level and each of its orders.
abbrev pub EachOrder : (ℕ → Order → Type 0) → Levels → Type 0
EachOrder P = All (λ level. All (P level.0) level.1)

module _ (P : ℕ → Order → Type 0) where
  All-at_price : (p : ℕ) (os : List Order) → All (P p) os → All (λ e. P e.0 e.1) (at_price p os)
  All-at_price p [] h = tt
  All-at_price p (o ∷ os) h = (h.0, All-at_price p os h.1)

  pub All-queue : (levels : Levels) → EachOrder P levels → All (λ e. P e.0 e.1) (queue levels)
  All-queue [] h = tt
  All-queue ((p, os) ∷ levels) h =
      All-append (λ e. P e.0 e.1) (at_price p os) (queue levels) (All-at_price p os h.0)
        (All-queue levels h.1)

module _ (P : ℕ → Type 0) where
  pub keys-queue :
      (levels : Levels)
      → NoEmptyLevel levels
      → All (λ e. P e.0) (queue levels)
      → All P (keys levels)
  keys-queue [] full h = tt
  keys-queue ((p, []) ∷ levels) full h = cc
  keys-queue ((p, o ∷ os) ∷ levels) full h = (h.0, keys-queue levels full.1 (rest os h.1))
    where
      rest :
          (os : List Order)
          → All (λ e. P e.0) (at_price p os ++ queue levels)
          → All (λ e. P e.0) (queue levels)
      rest [] h = h
      rest (o ∷ os) h = rest os h.1

  at_price-keys : (p : ℕ) (os : List Order) → P p → All (λ e. P e.0) (at_price p os)
  at_price-keys p [] h = tt
  at_price-keys p (o ∷ os) h = (h, at_price-keys p os h)

  pub queue-keys : (levels : Levels) → All P (keys levels) → All (λ e. P e.0) (queue levels)
  queue-keys [] h = tt
  queue-keys ((p, os) ∷ levels) h =
      All-append (λ e. P e.0) (at_price p os) (queue levels) (at_price-keys p os h.0)
        (queue-keys levels h.1)

  -- Matching makes no new level.
  pub keys-match_levels :
      (incoming : Order) (levels : Levels) (locs : Locations)
      → All P (keys levels)
      → All P (keys (match_levels incoming levels locs).levels)
  unfolding match_levels
  keys-match_levels incoming [] locs h = tt
  keys-match_levels incoming ((p, os) ∷ levels) locs h =
      let l = match_level p incoming os locs in
      let ih = keys-match_levels l.incoming levels l.locations h.1 in
      elim (Bool-cases (ltb 0 incoming.quantity && crosses incoming.side incoming.price p)) [
        | inr stop ↦ rw stop h
        | inl go ↦ rw go (elim (Bool-cases (is_empty l.resting)) [
          | inl gone ↦ rw gone ih
          | inr left ↦ rw left (h.0, ih)
        ])
      ]

module _ (R : ℕ → ℕ → Type 0) (same : (p : ℕ) → R p p) where
  at_price-Pairwise :
      (p : ℕ) (os : List Order) (rest : List (ℕ × Order))
      → All (λ e. R p e.0) rest
      → Pairwise (λ a b. R a.0 b.0) rest
      → Pairwise (λ a b. R a.0 b.0) (at_price p os ++ rest)
  at_price-Pairwise p [] rest h w = w
  at_price-Pairwise p (o ∷ os) rest h w = (
    All-append (λ e. R p e.0) (at_price p os) rest (at_price-keys (R p) p os (same p)) h,
    at_price-Pairwise p os rest h w,
  )

  pub queue-Pairwise :
      (levels : Levels) → Pairwise R (keys levels) → Pairwise (λ a b. R a.0 b.0) (queue levels)
  queue-Pairwise [] h = tt
  queue-Pairwise ((p, os) ∷ levels) h =
      at_price-Pairwise p os (queue levels) (queue-keys (R p) levels h.0)
        (queue-Pairwise levels h.1)

pub Pairwise-match_levels :
    (R : ℕ → ℕ → Type 0) (incoming : Order) (levels : Levels) (locs : Locations)
    → Pairwise R (keys levels)
    → Pairwise R (keys (match_levels incoming levels locs).levels)
unfolding match_levels
Pairwise-match_levels R incoming [] locs h = tt
Pairwise-match_levels R incoming ((p, os) ∷ levels) locs h =
    let l = match_level p incoming os locs in
    let ih = Pairwise-match_levels R l.incoming levels l.locations h.1 in
    elim (Bool-cases (ltb 0 incoming.quantity && crosses incoming.side incoming.price p)) [
      | inr stop ↦ rw stop h
      | inl go ↦ rw go (elim (Bool-cases (is_empty l.resting)) [
        | inl gone ↦ rw gone ih
        | inr left ↦ rw left (keys-match_levels (R p) l.incoming levels l.locations h.0, ih)
      ])
    ]

pub match_levels-NoEmptyLevel :
    (incoming : Order) (levels : Levels) (locs : Locations)
    → NoEmptyLevel levels
    → NoEmptyLevel (match_levels incoming levels locs).levels
unfolding match_levels
match_levels-NoEmptyLevel incoming [] locs h = tt
match_levels-NoEmptyLevel incoming ((p, os) ∷ levels) locs h =
    let l = match_level p incoming os locs in
    let ih = match_levels-NoEmptyLevel l.incoming levels l.locations h.1 in
    elim (Bool-cases (ltb 0 incoming.quantity && crosses incoming.side incoming.price p)) [
      | inr stop ↦ rw stop h
      | inl go ↦ rw go (elim (Bool-cases (is_empty l.resting)) [
        | inl gone ↦ rw gone ih
        | inr left ↦ rw left (left, ih)
      ])
    ]

-- What filling an order in part keeps holds of all orders that matching leaves.
module _ (P : ℕ → Order → Type 0)
    (keep : (p : ℕ) (o : Order) (n : ℕ) → n ≤ o.quantity → P p o → P p (fill o n)) where
  All-match_level :
      (p : ℕ) (incoming : Order) (os : List Order) (locs : Locations)
      → All (P p) os
      → All (P p) (match_level p incoming os locs).resting
  unfolding match_level
  All-match_level p incoming [] locs h = tt
  All-match_level p incoming (o ∷ os) locs h =
      let n = min incoming.quantity o.quantity in
      let ih = All-match_level p (fill incoming n) os (release (fill o n) locs) h.1 in
      elim (Bool-cases (incoming.quantity == 0)) [
        | inl done ↦ rw done h
        | inr more ↦ rw more (elim (Bool-cases ((fill o n).quantity == 0)) [
          | inl filled ↦ rw filled ih
          | inr left ↦ rw left (keep p o n (omega arith) h.0, ih)
        ])
      ]

  pub match_levels-EachOrder :
      (incoming : Order) (levels : Levels) (locs : Locations)
      → EachOrder P levels
      → EachOrder P (match_levels incoming levels locs).levels
  unfolding match_levels
  match_levels-EachOrder incoming [] locs h = tt
  match_levels-EachOrder incoming ((p, os) ∷ levels) locs h =
      let l = match_level p incoming os locs in
      let ih = match_levels-EachOrder l.incoming levels l.locations h.1 in
      elim (Bool-cases (ltb 0 incoming.quantity && crosses incoming.side incoming.price p)) [
        | inr stop ↦ rw stop h
        | inl go ↦ rw go (elim (Bool-cases (is_empty l.resting)) [
          | inl gone ↦ rw gone ih
          | inr left ↦ rw left (All-match_level p incoming os locs h.0, ih)
        ])
      ]

pub queue-append : (m n : Levels) → queue (m ++ n) ≡ queue m ++ queue n
queue-append [] n = refl
queue-append ((p, os) ∷ m) n =
    ap (◌++◌ (at_price p os)) (queue-append m n)
    ∙ sym (append_assoc (at_price p os) (queue m) (queue n))

pub volume-append : (q r : List (ℕ × Order)) → volume (q ++ r) ≡ volume q + volume r
volume-append [] r = omega arith
volume-append ((p, o) ∷ q) r = omega (arith, volume-append q r)

-- The shares that rest on a side do not depend on the end from which it is read.
pub volume-queue_reverse : (m : Levels) → volume (queue (reverse m)) ≡ volume (queue m)
volume-queue_reverse [] = refl
volume-queue_reverse ((p, os) ∷ m) =
    rw
      (
        reverse-cons (p, os) m,
        queue-append (reverse m) ((p, os) ∷ []),
        volume-append (queue (reverse m)) (at_price p os ++ []),
        append-nil (at_price p os),
        volume-append (at_price p os) (queue m),
        volume-queue_reverse m,
      )
      (omega arith)

pub volume-queue_update :
    (o : Order) (k : ℕ) (m : Levels)
    → volume (queue (update k [] (λ os. os ++ o ∷ []) m)) ≡ volume (queue m) + o.quantity
unfolding update
volume-queue_update o k [] = omega arith
volume-queue_update o k ((j, os) ∷ m) = elim (Bool-cases (j == k)) [
  | inl same ↦ rw same (at_end os k j)
  | inr other ↦ rw other (elim (Bool-cases (ltb k j)) [
    | inl below ↦ rw below (omega arith)
    | inr above ↦
        rw
          (
            above,
            volume-append (at_price j os) (queue m),
            volume-append (at_price j os) (queue (update k [] (λ os. os ++ o ∷ []) m)),
            volume-queue_update o k m,
          )
          (omega arith)
  ])
]
  where
    at_end :
        (os : List Order) (k j : ℕ)
        → volume (at_price k (os ++ o ∷ []) ++ queue m)
          ≡ volume (at_price j os ++ queue m) + o.quantity
    at_end [] k j = omega arith
    at_end (r ∷ os) k j = omega (arith, at_end os k j)
