-- ===== src/Ingest/Balance.antt =====
-- The book balances: what a level shows is what the live orders at its price still have. How an
-- order that comes, shrinks or goes keeps the balance.
use lob_project.Base.{
  ℕ, ◌+◌, ◌-◌, ◌<◌, ◌≤◌, ◌≡◌, refl, sym, ◌∙◌, Bool, true, false, some, none, arith, if◌then◌else◌,
  add32, add32-eq-add, u32_mod,
}
use mathlib.Core.Path.{subst}
use lob_project.SortedMap.{SortedMap, find, update, erase}
use lob_project.SortedMap.Laws.{Ascending, update-Ascending, erase-Ascending}
use lob_project.SortedMap.Sums.{sum, sum-update_new, sum-update_found, sum-erase}
use lob_project.Ingest.{
  IngestBook, LiveOrder, is_bid, side_map, add_to_level, remove_from_level, put_live, drop_live,
}
use lob_project.Ingest.Levels.{
  shown, hits, Sorted, add_to_level-Sorted, remove_from_level-Sorted, shown-add_to_level,
  shown-remove_from_level, hits-own, hits_refl,
}

-- The shares that an order has at a side and a price, and those that all live orders have there.
abbrev pub weight : Bool → ℕ → LiveOrder → ℕ
weight bid p o = if hits bid p o.side o.price then o.shares else 0

abbrev pub resting : Bool → ℕ → SortedMap LiveOrder → ℕ
resting bid p live = sum (weight bid p) live

pub record Balanced (b : IngestBook) : Type 0 where
  pub live_sorted : Ascending b.live
  pub sorted : Sorted b
  pub levels : (bid : Bool) (p : ℕ) → shown p (side_map b bid) ≡ resting bid p b.live
  pub small : (bid : Bool) (p : ℕ) → resting bid p b.live < u32_mod

level_small :
    (b : IngestBook) (bid : Bool) (p : ℕ) → Balanced b → shown p (side_map b bid) < u32_mod
level_small b bid p h = rw (h.levels bid p) (h.small bid p)

-- A level has room for an order.
abbrev pub Fits : IngestBook → ℕ → ℕ → ℕ → Type 0
Fits b side price shares = resting (is_bid side) price b.live + shares < u32_mod

-- The arithmetic of a level: what comes is added, what leaves is taken off.
gained :
    (hit : Bool) (x r n : ℕ)
    → x ≡ r
    → r < u32_mod
    → (hit ≡ true → r + n < u32_mod)
    → ((if hit then add32 x n else x) ≡ r + (if hit then n else 0))
      × (r + (if hit then n else 0) < u32_mod)
gained true x r n e small room = rw e (add32-eq-add r n (room refl), room refl)
gained false x r n e small room = rw e (omega arith, omega (arith, small))

lost :
    (hit : Bool) (x r r' old new n : ℕ)
    → x ≡ r
    → r' + (if hit then old else 0) ≡ r + (if hit then new else 0)
    → r < u32_mod
    → new + n ≡ old
    → ((if hit then x - n else x) ≡ r') × (r' < u32_mod)
lost true x r r' old new n e same small split = (omega arith, omega arith)
lost false x r r' old new n e same small split = (omega arith, omega arith)

no_gain : (hit : Bool) (r : ℕ) → r ≡ r + (if hit then 0 else 0)
no_gain true r = omega arith
no_gain false r = omega arith

-- A hit level is the order's own, which has room.
own_room :
    (b : IngestBook) (o : LiveOrder) (bid : Bool) (p : ℕ)
    → Fits b o.side o.price o.shares
    → hits bid p o.side o.price ≡ true
    → resting bid p b.live + o.shares < u32_mod
own_room b o bid p room hit =
    let own = hits-own bid p o.side o.price hit in
    subst (λ x. resting x p b.live + o.shares < u32_mod) own.0
      (subst (λ q. resting (is_bid o.side) q b.live + o.shares < u32_mod) own.1 room)

-- What a level shows in a book is what rests there, and no word overflows.
abbrev pub Level : IngestBook → Bool → ℕ → Type 0
Level b bid p = (shown p (side_map b bid) ≡ resting bid p b.live) × (resting bid p b.live < u32_mod)

placed-Level :
    (b : IngestBook) (ref : ℕ) (o : LiveOrder) (bid : Bool) (p : ℕ)
    → Balanced b
    → find ref b.live ≡ none
    → Fits b o.side o.price o.shares
    → Level (add_to_level (put_live b ref o) o.side o.price o.shares) bid p
unfolding put_live add_to_level
placed-Level b ref o bid p h new room =
    let grown = sum-update_new (weight bid p) ref o (λ old. o) b.live new in
    let step =
      gained (hits bid p o.side o.price) (shown p (side_map b bid)) (resting bid p b.live) o.shares
        (h.levels bid p) (h.small bid p) (own_room b o bid p room) in
    (
      shown-add_to_level (put_live b ref o) o.side o.price o.shares bid p h.sorted
          ∙ (step.0 ∙ sym grown),
      subst (λ n. n < u32_mod) (sym grown) step.1,
    )

-- An order comes.
pub placed-Balanced :
    (b : IngestBook) (ref : ℕ) (o : LiveOrder)
    → Balanced b
    → find ref b.live ≡ none
    → Fits b o.side o.price o.shares
    → Balanced (add_to_level (put_live b ref o) o.side o.price o.shares)
unfolding put_live add_to_level
placed-Balanced b ref o h new room = record {
  live_sorted = update-Ascending ref o (λ old. o) b.live h.live_sorted;
  sorted = add_to_level-Sorted (put_live b ref o) o.side o.price o.shares h.sorted;
  levels = λ bid p. (placed-Level b ref o bid p h new room).0;
  small = λ bid p. (placed-Level b ref o bid p h new room).1;
}

-- The shares of an order change to those of `left`, which has the order's side and price.
trimmed-Level :
    (b : IngestBook) (ref n : ℕ) (o : LiveOrder) (bid : Bool) (p : ℕ)
    → Balanced b
    → find ref b.live ≡ some o
    → n ≤ o.shares
    → Level
        (put_live (remove_from_level b o.side o.price n) ref (record o { shares = o.shares - n }))
        bid
        p
unfolding put_live remove_from_level
trimmed-Level b ref n o bid p h found within =
    let left : LiveOrder = record o { shares = o.shares - n } in
    let step =
      lost (hits bid p o.side o.price) (shown p (side_map b bid)) (resting bid p b.live)
        (resting bid p (update ref left (λ old. left) b.live)) o.shares (o.shares - n) n
        (h.levels bid p)
        (sum-update_found (weight bid p) ref left o (λ old. left) b.live h.live_sorted found)
        (h.small bid p) (omega arith) in
    (
      shown-remove_from_level b o.side o.price n bid p h.sorted
            (level_small b (is_bid o.side) o.price h)
          ∙ step.0,
      step.1,
    )

pub trimmed-Balanced :
    (b : IngestBook) (ref n : ℕ) (o : LiveOrder)
    → Balanced b
    → find ref b.live ≡ some o
    → n ≤ o.shares
    → Balanced
        (put_live (remove_from_level b o.side o.price n) ref (record o { shares = o.shares - n }))
unfolding put_live remove_from_level
trimmed-Balanced b ref n o h found within = record {
  live_sorted = update-Ascending ref _ _ b.live h.live_sorted;
  sorted = remove_from_level-Sorted b o.side o.price n h.sorted;
  levels = λ bid p. (trimmed-Level b ref n o bid p h found within).0;
  small = λ bid p. (trimmed-Level b ref n o bid p h found within).1;
}

-- An order goes with all its shares.
gone-Level :
    (b : IngestBook) (ref : ℕ) (o : LiveOrder) (bid : Bool) (p : ℕ)
    → Balanced b
    → find ref b.live ≡ some o
    → Level (drop_live (remove_from_level b o.side o.price o.shares) ref) bid p
unfolding drop_live remove_from_level
gone-Level b ref o bid p h found =
    let step =
      lost (hits bid p o.side o.price) (shown p (side_map b bid)) (resting bid p b.live)
        (resting bid p (erase ref b.live)) o.shares 0 o.shares (h.levels bid p)
        (sum-erase (weight bid p) ref o b.live found ∙ no_gain _ _) (h.small bid p) (omega arith) in
    (
      shown-remove_from_level b o.side o.price o.shares bid p h.sorted
            (level_small b (is_bid o.side) o.price h)
          ∙ step.0,
      step.1,
    )

pub gone-Balanced :
    (b : IngestBook) (ref : ℕ) (o : LiveOrder)
    → Balanced b
    → find ref b.live ≡ some o
    → Balanced (drop_live (remove_from_level b o.side o.price o.shares) ref)
unfolding drop_live remove_from_level
gone-Balanced b ref o h found = record {
  live_sorted = erase-Ascending ref b.live h.live_sorted;
  sorted = remove_from_level-Sorted b o.side o.price o.shares h.sorted;
  levels = λ bid p. (gone-Level b ref o bid p h found).0;
  small = λ bid p. (gone-Level b ref o bid p h found).1;
}

no_weight : (hit : Bool) (n : ℕ) → n ≡ 0 → (if hit then n else 0) ≡ 0
no_weight true n e = e
no_weight false n e = refl

unchanged :
    (b : IngestBook) (ref : ℕ) (o : LiveOrder) (bid : Bool) (p : ℕ)
    → find ref b.live ≡ some o
    → o.shares ≡ 0
    → resting bid p (erase ref b.live) ≡ resting bid p b.live
unchanged b ref o bid p found spent = omega (
  arith,
  sum-erase (weight bid p) ref o b.live found,
  no_weight (hits bid p o.side o.price) o.shares spent,
)

-- An order without shares goes.
pub spent-Balanced :
    (b : IngestBook) (ref : ℕ) (o : LiveOrder)
    → Balanced b
    → find ref b.live ≡ some o
    → o.shares ≡ 0
    → Balanced (drop_live b ref)
unfolding drop_live
spent-Balanced b ref o h found spent = record {
  live_sorted = erase-Ascending ref b.live h.live_sorted;
  sorted = h.sorted;
  levels = λ bid p. h.levels bid p ∙ sym (unchanged b ref o bid p found spent);
  small =
      λ bid p. subst (λ n. n < u32_mod) (sym (unchanged b ref o bid p found spent)) (h.small bid p);
}

-- What an order has is part of what rests at its level, and fits the word.
pub live_word :
    (b : IngestBook) (ref : ℕ) (o : LiveOrder)
    → Balanced b
    → find ref b.live ≡ some o
    → o.shares < u32_mod
live_word b ref o h found =
    let own : weight (is_bid o.side) o.price o ≡ o.shares = rw (hits_refl o.side o.price) refl in
    omega (
      arith,
      own,
      sum-erase (weight (is_bid o.side) o.price) ref o b.live found,
      h.small (is_bid o.side) o.price,
    )
