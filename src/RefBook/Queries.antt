-- ===== src/RefBook/Queries.antt =====
-- What the queries of the reference book answer: the best prices and the quantity at a price.
use mathlib.Core.Path.{subst}
use mathlib.Core.List.{reverse-cons, reverse-reverse}
use lob_project.Base.{
  ℕ, ◌+◌, ◌%◌, ◌<◌, ◌≤◌, ◌≡◌, refl, ap, sym, ◌∙◌, ◌⊎◌, inl, inr, List, [], ◌∷◌, ◌++◌, reverse,
  arith, add32, u32_mod, All, All-map, Pairwise, Option-cases,
}
use lob_project.Types.{Order, Side}
use lob_project.SortedMap.{keys, first_key, find}
use lob_project.SortedMap.Laws.{Ascending}
use lob_project.RefBook.{
  RefBook, Levels, best_bid, best_ask, sum_quantities, total_quantity_at_price, side_levels,
  level_at,
}
use lob_project.RefBook.Levels.{All-keys-reverse, Pairwise-keys-reverse}
use lob_project.RefBook.Valid.{IsValid}

abbrev pub HasLevel : ℕ → Levels → Type 0
HasLevel p [] = ⊥
HasLevel p ((q, os) ∷ levels) = (q ≡ p) ⊎ HasLevel p levels

HasLevel-append : (p : ℕ) (xs ys : Levels) → HasLevel p (xs ++ ys) → HasLevel p xs ⊎ HasLevel p ys
HasLevel-append p [] ys h = inr h
HasLevel-append p ((q, os) ∷ xs) ys (inl e) = inl (inl e)
HasLevel-append p ((q, os) ∷ xs) ys (inr h) = elim (HasLevel-append p xs ys h) [
  | inl left ↦ inl (inr left)
  | inr right ↦ inr right
]

HasLevel-reverse : (p : ℕ) (m : Levels) → HasLevel p (reverse m) → HasLevel p m
HasLevel-reverse p [] h = h
HasLevel-reverse p ((q, os) ∷ m) h =
    elim (HasLevel-append p (reverse m) ((q, os) ∷ [])
      (subst (HasLevel p) (reverse-cons (q, os) m) h)) [
        | inl before ↦ inr (HasLevel-reverse p m before)
        | inr (inl e) ↦ inl e
        | inr (inr none_left) ↦ absurd none_left
      ]

-- The best prices of a book: those of levels where the side has any, at least as good as those of
-- the other levels, and 0 where it has none.
pub record TopOfBook (b : RefBook) : Type 0 where
  pub no_bid : b.buy_orders ≡ [] → best_bid b ≡ 0
  pub no_ask : b.sell_orders ≡ [] → best_ask b ≡ 0
  pub bid : (b.buy_orders ≡ []) ⊎ HasLevel (best_bid b) b.buy_orders
  pub ask : (b.sell_orders ≡ []) ⊎ HasLevel (best_ask b) b.sell_orders
  pub highest : All (λ p. p ≤ best_bid b) (keys b.buy_orders)
  pub lowest : All (λ p. best_ask b ≤ p) (keys b.sell_orders)

first-HasLevel : (m : Levels) → (m ≡ []) ⊎ HasLevel (first_key m) m
first-HasLevel [] = inl refl
first-HasLevel ((p, os) ∷ m) = inr (inl refl)

first_lowest : (m : Levels) → Ascending m → All (λ p. first_key m ≤ p) (keys m)
first_lowest [] a = tt
first_lowest ((p, os) ∷ m) a =
    (omega arith, All-map (λ q. p < q) (λ q. p ≤ q) (keys m) (λ q h. omega arith) a.0)

first_highest :
    (m : Levels) → Pairwise (λ p q. q < p) (keys m) → All (λ p. p ≤ first_key m) (keys m)
first_highest [] a = tt
first_highest ((p, os) ∷ m) a =
    (omega arith, All-map (λ q. q < p) (λ q. q ≤ p) (keys m) (λ q h. omega arith) a.0)

-- In a well-formed book the best bid is the highest price of a bid and the best ask the lowest one
-- of an ask, each the price of a level, or 0 where the side is empty.
pub best_bid-TopOfBook : (b : RefBook) → IsValid b → TopOfBook b
unfolding best_bid best_ask
best_bid-TopOfBook b v = record {
  no_bid = λ e. rw e refl;
  no_ask = λ e. rw e refl;
  bid = elim (first-HasLevel (reverse b.buy_orders)) [
    | inl e ↦ inl (sym (reverse-reverse b.buy_orders) ∙ ap reverse e)
    | inr h ↦ inr (HasLevel-reverse _ b.buy_orders h)
  ];
  ask = first-HasLevel b.sell_orders;
  highest =
      subst (λ (m : Levels). All (λ p. p ≤ first_key (reverse b.buy_orders)) (keys m))
        (reverse-reverse b.buy_orders)
        (All-keys-reverse (λ p. p ≤ first_key (reverse b.buy_orders)) (reverse b.buy_orders)
          (first_highest (reverse b.buy_orders)
            (Pairwise-keys-reverse ◌<◌ b.buy_orders v.bids.ascending)));
  lowest = first_lowest b.sell_orders v.asks.ascending;
}

abbrev pub shares : List Order → ℕ
shares [] = 0
shares (o ∷ os) = o.quantity + shares os

sum_quantities-eq :
    (total : ℕ) (os : List Order)
    → total < u32_mod
    → sum_quantities total os ≡ (total + shares os) % u32_mod
unfolding sum_quantities add32
sum_quantities-eq total [] h = omega arith
sum_quantities-eq total (o ∷ os) h =
    omega (arith, sum_quantities-eq ((total + o.quantity) % u32_mod) os (omega arith))

-- The quantity at a price is the sum of the quantities of the orders there, as 32 bits hold it.
pub total_quantity_at_price-eq :
    (b : RefBook) (price : ℕ) (side : Side)
    → total_quantity_at_price b price side ≡ shares (level_at (side_levels b side) price) % u32_mod
unfolding total_quantity_at_price level_at
total_quantity_at_price-eq b price side = elim (Option-cases (find price (side_levels b side))) [
  | inl e ↦ rw (e, total_quantity_at_price, level_at) refl
  | inr (os, e) ↦
      rw (e, total_quantity_at_price, level_at)
        (let e = sum_quantities-eq 0 os (omega arith) in omega (arith, e))
]
