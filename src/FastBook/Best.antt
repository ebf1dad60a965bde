-- ===== src/FastBook/Best.antt =====
-- The level at which the matching begins, and the test of its price, told by the queues.
use lob_project.Base.{
  ℕ, ◌+◌, ◌-◌, ◌<◌, ◌≤◌, Bool, true, false, ltb, List, [], ◌≡◌, ◌⊎◌, inl, inr, refl, ◌∙◌, arith,
  Bool-cases, is_empty,
}
use lob_project.Types.{Side, OrderType, buy, sell, limit, market, Order}
use lob_project.Bitset.{any, find_first_set_bit, find_last_set_bit}
use lob_project.Bitset.First.{contains, find_first_set_bit-IsFirst}
use lob_project.Bitset.Last.{find_last_set_bit-IsLast}
use lob_project.FastBook.{FastBook, price_to_index}
use lob_project.FastBook.Adding.{out_of_reach, best_index, opposite}
use lob_project.FastBook.Valid.{IsBook}
use lob_project.FastBook.Queries.{some_bit, all_empty}

-- An order of the side may trade at the price of a level.
abbrev pub Reaches : Side → ℕ → ℕ → Type 0
Reaches buy price p = p ≤ price
Reaches sell price p = price ≤ p

-- On its side, level `j` is matched before level `i`.
abbrev pub Before : Side → ℕ → ℕ → Type 0
Before buy j i = i < j
Before sell j i = j < i

-- Level `i` is the first level of the side with orders.
abbrev pub IsBest : FastBook → (Side → ℕ → List ℕ) → Side → ℕ → Type 0
IsBest b q s i =
    (i < b.num_levels)
    × (is_empty (q s i) ≡ false)
    × ((j : ℕ) → j < b.num_levels → Before s j i → q s j ≡ [])

-- No level of the other side with orders is in the order's reach.
abbrev pub NoneInReach : FastBook → (Side → ℕ → List ℕ) → Order → Type 0
NoneInReach b q order =
    (j : ℕ)
    → j < b.num_levels
    → is_empty (q (opposite order.side) j) ≡ false
    → ¬ Reaches order.side order.price (b.min_price + j)

abbrev beyond : Side → ℕ → ℕ → Bool
beyond buy p i = ltb p i
beyond sell p i = ltb i p

in_reach :
    (s : Side) (price low i : ℕ)
    → low ≤ price
    → Reaches s price (low + i)
    → beyond s (price - low) i ≡ false
in_reach buy price low i h r = ground (arith, h, r)
in_reach sell price low i h r = ground (arith, h, r)

not_in_reach :
    (s : Side) (price low i : ℕ)
    → low ≤ price
    → ¬ Reaches s price (low + i)
    → beyond s (price - low) i ≡ true
not_in_reach buy price low i h r = ground (arith, h, r)
not_in_reach sell price low i h r = ground (arith, h, r)

limit_test :
    (type : OrderType) (s : Side) (p i : ℕ)
    → type ≡ limit
    → (elim type [ market ↦ false | limit ↦ elim s [ buy ↦ ltb p i | sell ↦ ltb i p ] ])
      ≡ beyond s p i
limit_test limit buy p i e = refl
limit_test limit sell p i e = refl
limit_test market s p i e = cc

out_of_reach-limit :
    (b : FastBook) (order : Order) (i : ℕ)
    → order.type ≡ limit
    → out_of_reach b order i ≡ beyond order.side (price_to_index b order.price) i
unfolding out_of_reach
out_of_reach-limit b order i e = limit_test order.type order.side (price_to_index b order.price) i e

module _ (b : FastBook) (q : Side → ℕ → List ℕ) (book : IsBook b q) where
  -- The index that the search finds has orders.
  best_index-bit :
      (side : Side)
      → any (b.bitsets (opposite side)) ≡ true
      → contains (b.bitsets (opposite side)).tiers (best_index b side) ≡ 1
  unfolding best_index
  best_index-bit buy set = (find_first_set_bit-IsFirst (b.bitsets sell) (book.bitset sell) set).0
  best_index-bit sell set = (find_last_set_bit-IsLast (b.bitsets buy) (book.bitset buy) set).0

  pub any-set :
      (s : Side) (i : ℕ) → i < b.num_levels → is_empty (q s i) ≡ false → any (b.bitsets s) ≡ true
  any-set s i i_n full = elim (Bool-cases (any (b.bitsets s))) [
    | inl set ↦ set
    | inr none_set ↦
        let e : is_empty (q s i) ≡ true = rw (all_empty b q book s none_set i i_n) refl in cc
  ]

  full_bit :
      (s : Side) (i : ℕ)
      → i < b.num_levels
      → is_empty (q s i) ≡ false
      → contains (b.bitsets s).tiers i ≡ 1
  full_bit s i i_n full = book.tick s i i_n ∙ rw full refl

  empty_not : (s : Side) (i : ℕ) → q s i ≡ [] → is_empty (q s i) ≡ false → ⊥
  empty_not s i e full = let f : is_empty (q s i) ≡ true = rw e refl in cc

  -- The search begins at the best level.
  pub best_index-IsBest :
      (side : Side) (i : ℕ) → IsBest b q (opposite side) i → best_index b side ≡ i
  unfolding best_index
  best_index-IsBest buy i best =
      let set = any-set sell i best.0 best.1 in
      let low = find_first_set_bit-IsFirst (b.bitsets sell) (book.bitset sell) set in
      let f = find_first_set_bit (b.bitsets sell) in
      let at = some_bit b q book sell f low.0 in
      let one = full_bit sell i best.0 best.1 in
      let not_below : ¬ (f < i) = λ h. empty_not sell f (best.2 f at.0 h) at.1 in
      let not_above : ¬ (i < f) = λ h. (let zero_bit = low.1 i h in omega (arith, one, zero_bit)) in
      omega (arith, not_below, not_above)
  best_index-IsBest sell i best =
      let set = any-set buy i best.0 best.1 in
      let top = find_last_set_bit-IsLast (b.bitsets buy) (book.bitset buy) set in
      let f = find_last_set_bit (b.bitsets buy) in
      let at = some_bit b q book buy f top.0 in
      let one = full_bit buy i best.0 best.1 in
      let not_above : ¬ (i < f) = λ h. empty_not buy f (best.2 f at.0 h) at.1 in
      let not_below : ¬ (f < i) = λ h. (let zero_bit = top.1 i h in omega (arith, one, zero_bit)) in
      omega (arith, not_below, not_above)

  module _ (order : Order) (type : order.type ≡ limit) (low : b.min_price ≤ order.price)
      (high : order.price ≤ b.max_price) where
    index_at : price_to_index b order.price ≡ order.price - b.min_price
    unfolding price_to_index
    index_at = omega (arith, low, high, book.max_small)

    -- The test tells whether the level is in reach.
    pub reach-test :
        (i : ℕ) → Reaches order.side order.price (b.min_price + i) → out_of_reach b order i ≡ false
    reach-test i r =
        out_of_reach-limit b order i type
        ∙ rw index_at (in_reach order.side order.price b.min_price i low r)

    pub no_reach-test :
        (i : ℕ) → ¬ Reaches order.side order.price (b.min_price + i) → out_of_reach b order i ≡ true
    no_reach-test i r =
        out_of_reach-limit b order i type
        ∙ rw index_at (not_in_reach order.side order.price b.min_price i low r)

    -- Where no order is in reach, the matching has nothing to do.
    pub none_met :
        NoneInReach b q order
        → (any (b.bitsets (opposite order.side)) ≡ false)
          ⊎ (out_of_reach b order (best_index b order.side) ≡ true)
    none_met far = elim (Bool-cases (any (b.bitsets (opposite order.side)))) [
      | inr none_set ↦ inl none_set
      | inl set ↦
          let at =
            some_bit b q book (opposite order.side) (best_index b order.side)
              (best_index-bit order.side set) in
          inr (no_reach-test (best_index b order.side) (far (best_index b order.side) at.0 at.1))
    ]
