-- ===== src/RefBook/Valid.antt =====
-- The well-formedness of the reference book, and that matching keeps it.
use mathlib.Core.Path.{subst}
use lob_project.Base.{
  ℕ, ◌<◌, ◌≤◌, false, ◌&&◌, List, [], ◌∷◌, ◌≡◌, refl, ap, ◌∙◌, sym, min, ltb, ◌==◌, reverse, arith,
  All, All-reverse, Bool-cases, inl, inr, ◌⊎◌, Pairwise, u64_mod, some,
}
use lob_project.Types.{Order, Side, buy, sell}
use lob_project.SortedMap.{keys}
use lob_project.SortedMap.Laws.{Ascending}
use lob_project.RefBook.{
  RefBook, Levels, Locations, OrderLocation, fill, release, crosses, match_level, match_levels,
  side_levels,
}
use lob_project.RefBook.Queue.{queue, NoEmptyLevel, match_levels-execute, Execution}
use lob_project.RefBook.Trading.{IsWord, fill-IsWord, execute-Refuses, Worse, Refuses}
use lob_project.RefBook.Levels.{
  EachOrder, All-queue, keys-queue, queue-Pairwise, match_levels-EachOrder,
  match_levels-NoEmptyLevel, keys-match_levels, Pairwise-match_levels, All-keys-reverse,
  Pairwise-keys-reverse,
}

-- An order that rests at a price of a side.
abbrev pub IsResting : Side → ℕ → Order → Type 0
IsResting side p o = IsWord o × (o.price ≡ p) × (o.side ≡ side) × (p < u64_mod)

pub record IsSide (side : Side) (levels : Levels) : Type 0 where
  pub ascending : Ascending levels
  pub full : NoEmptyLevel levels
  pub resting : EachOrder (IsResting side) levels

-- Every bid is below every ask.
abbrev pub Uncrossed : Levels → Levels → Type 0
Uncrossed bids asks = All (λ bid. All (λ ask. bid < ask) (keys asks)) (keys bids)

abbrev pub HasId : ℕ → List Order → Type 0
HasId id [] = ⊥
HasId id (o ∷ os) = (o.id ≡ id) ⊎ HasId id os

-- An order with the id rests at the price.
abbrev pub HasOrder : ℕ → ℕ → Levels → Type 0
HasOrder price id [] = ⊥
HasOrder price id ((p, os) ∷ levels) = ((p ≡ price) × HasId id os) ⊎ HasOrder price id levels

-- Every location leads to an order.
abbrev pub Located : RefBook → Type 0
Located b =
    (id : ℕ) (l : OrderLocation)
    → b.locations id ≡ some l
    → HasOrder l.price id (side_levels b l.side)

pub record IsValid (b : RefBook) : Type 0 where
  pub bids : IsSide buy b.buy_orders
  pub asks : IsSide sell b.sell_orders
  pub uncrossed : Uncrossed b.buy_orders b.sell_orders
  pub located : Located b

-- The levels of a side in the order in which they are matched.
abbrev pub best_first : Side → Levels → Levels
best_first buy levels = reverse levels
best_first sell levels = levels

fill-IsResting :
    (side : Side) (p : ℕ) (o : Order) (n : ℕ)
    → n ≤ o.quantity
    → IsResting side p o
    → IsResting side p (fill o n)
unfolding fill
fill-IsResting side p o n h r = (fill-IsWord o n r.0 h, r.1, r.2, r.3)

module _ (incoming : Order) (locs : Locations) where
  abbrev matched : Levels → Levels
  matched levels = (match_levels incoming levels locs).levels

  -- Matching leaves a side well formed.
  pub match_levels-IsSide :
      (side : Side) (levels : Levels)
      → IsSide side levels
      → IsSide side (best_first side (matched (best_first side levels)))
  match_levels-IsSide sell levels s = record {
    ascending = Pairwise-match_levels ◌<◌ incoming levels locs s.ascending;
    full = match_levels-NoEmptyLevel incoming levels locs s.full;
    resting =
        match_levels-EachOrder (IsResting sell) (fill-IsResting sell) incoming levels locs
          s.resting;
  }
  match_levels-IsSide buy levels s = record {
    ascending =
        Pairwise-keys-reverse (λ a b. b < a) (matched (reverse levels))
          (Pairwise-match_levels (λ a b. b < a) incoming (reverse levels) locs
            (Pairwise-keys-reverse ◌<◌ levels s.ascending));
    full =
        All-reverse _ (matched (reverse levels))
          (match_levels-NoEmptyLevel incoming (reverse levels) locs (All-reverse _ levels s.full));
    resting = All-reverse _ (matched (reverse levels)) (
        match_levels-EachOrder (IsResting buy) (fill-IsResting buy) incoming (reverse levels) locs
          (All-reverse _ levels s.resting));
  }

  pub keys-matched :
      (P : ℕ → Type 0) (side : Side) (levels : Levels)
      → All P (keys levels)
      → All P (keys (best_first side (matched (best_first side levels))))
  keys-matched P sell levels h = keys-match_levels P incoming levels locs h
  keys-matched P buy levels h =
      All-keys-reverse P (matched (reverse levels))
        (keys-match_levels P incoming (reverse levels) locs (All-keys-reverse P levels h))

-- The order that matching hands back is the incoming one with another quantity.
level_keeps :
    (p : ℕ) (o : Order) (os : List Order) (l : Locations)
    → (match_level p o os l).incoming
      ≡ record o { quantity = (match_level p o os l).incoming.quantity }
unfolding match_level fill
level_keeps p o [] l = refl
level_keeps p o (r ∷ os) l = elim (Bool-cases (o.quantity == 0)) [
  | inl done ↦ rw done refl
  | inr more ↦
      let n = min o.quantity r.quantity in
      rw more (level_keeps p (fill o n) os (release (fill r n) l))
]

pub match_levels_keeps :
    (o : Order) (levels : Levels) (l : Locations)
    → (match_levels o levels l).incoming
      ≡ record o { quantity = (match_levels o levels l).incoming.quantity }
unfolding match_levels
match_levels_keeps o [] l = refl
match_levels_keeps o ((p, os) ∷ levels) l =
    elim (Bool-cases (ltb 0 o.quantity && crosses o.side o.price p)) [
      | inr stop ↦ rw stop refl
      | inl go ↦
          let here = match_level p o os l in
          rw go (
            match_levels_keeps here.incoming levels here.locations
            ∙ ap
                (λ (r : Order). record r {
                  quantity = (match_levels here.incoming levels here.locations).incoming.quantity;
                })
                (level_keeps p o os l))
    ]

pub Worse-refl : (side : Side) (p : ℕ) → Worse side p p
Worse-refl buy p = omega arith
Worse-refl sell p = omega arith

module _ (incoming : Order) (locs : Locations) (w : IsWord incoming) where
  pub refuses_rest :
      (levels : Levels)
      → EachOrder (λ p o. IsWord o) levels
      → NoEmptyLevel levels
      → Pairwise (Worse incoming.side) (keys levels)
      → ((match_levels incoming levels locs).incoming.quantity ≡ 0)
        ⊎ All
            (λ p. crosses incoming.side incoming.price p ≡ false)
            (keys (match_levels incoming levels locs).levels)
  refuses_rest levels words full sorted =
      let same = match_levels-execute incoming levels locs full in
      elim (execute-Refuses incoming (queue levels) locs w
        (All-queue (λ p o. IsWord o) levels words)
        (queue-Pairwise (Worse incoming.side) (Worse-refl incoming.side) levels sorted)) [
          | inl z ↦ inl (ap (λ (e : Execution). e.incoming.quantity) same ∙ z)
          | inr h ↦ inr (
              keys-queue (λ p. crosses incoming.side incoming.price p ≡ false) _
                (match_levels-NoEmptyLevel incoming levels locs full)
                (subst (All (Refuses incoming)) (sym (ap (λ (e : Execution). e.queue) same)) h))
        ]
