-- ===== src/FastBook/Queries.antt =====
-- What the queries tell of a well-formed book.
use lob_project.Base.{
  ℕ, ◌+◌, ◌-◌, ◌%◌, ◌<◌, ◌≤◌, false, ltb, ◌||◌, List, [], ◌≡◌, ◌⊎◌, inl, inr, refl, ◌∙◌, arith,
  Bool-cases, is_empty, is_empty-eq, u32_mod, u64_mod, if◌then◌else◌,
}
use lob_project.Types.{Side, buy, sell}
use lob_project.Bitset.{any, find_first_set_bit, find_last_set_bit}
use lob_project.Bitset.First.{contains, find_first_set_bit-IsFirst}
use lob_project.Bitset.Last.{find_last_set_bit-IsLast, any-contains}
use lob_project.FastBook.{FastBook, best_bid, best_ask, total_quantity_at_price, price_to_index}
use lob_project.FastBook.Valid.{IsBook, shares}

module _ (b : FastBook) (q : Side → ℕ → List ℕ) (book : IsBook b q) where
  pub no_bit :
      (s : Side) (i : ℕ) → i < b.num_levels → contains (b.bitsets s).tiers i ≡ 0 → q s i ≡ []
  no_bit s i i_n zero_bit = elim (Bool-cases (is_empty (q s i))) [
    | inl e ↦ is_empty-eq (q s i) e
    | inr e ↦
        let one : contains (b.bitsets s).tiers i ≡ 1 = book.tick s i i_n ∙ rw e refl in
        absurd (omega (arith, one, zero_bit))
  ]

  pub some_bit :
      (s : Side) (i : ℕ)
      → contains (b.bitsets s).tiers i ≡ 1
      → (i < b.num_levels) × (is_empty (q s i) ≡ false)
  some_bit s i one = elim (Bool-cases (ltb i b.num_levels)) [
    | inr out ↦
        let h : b.num_levels ≤ i = ground arith in absurd (omega (arith, one, book.spare s i h))
    | inl at ↦
        let i_n : i < b.num_levels = ground arith in
        elim (Bool-cases (is_empty (q s i))) [
          | inl e ↦
              let zero_bit : contains (b.bitsets s).tiers i ≡ 0 = book.tick s i i_n ∙ rw e refl in
              absurd (omega (arith, one, zero_bit))
          | inr e ↦ (i_n, e)
        ]
  ]

  pub all_empty : (s : Side) → any (b.bitsets s) ≡ false → (i : ℕ) → i < b.num_levels → q s i ≡ []
  all_empty s e i i_n = no_bit s i i_n (any-contains (b.bitsets s) (book.bitset s) e i)

-- The price is that of level `i` of the side, which has orders.
abbrev pub AtLevel : FastBook → (Side → ℕ → List ℕ) → Side → ℕ → ℕ → Type 0
AtLevel b q s price i = (i < b.num_levels) × (price ≡ b.min_price + i) × (is_empty (q s i) ≡ false)

-- The best prices are those of the outermost levels with orders, and 0 where a side has none.
abbrev pub BestPrices : FastBook → (Side → ℕ → List ℕ) → Type 0
BestPrices b q =
    (((best_bid b ≡ 0) × ((i : ℕ) → i < b.num_levels → q buy i ≡ []))
      ⊎ ((i : ℕ) × AtLevel b q buy (best_bid b) i
          × ((j : ℕ) → j < b.num_levels → i < j → q buy j ≡ [])))
    × (((best_ask b ≡ 0) × ((i : ℕ) → i < b.num_levels → q sell i ≡ []))
        ⊎ ((i : ℕ) × AtLevel b q sell (best_ask b) i
            × ((j : ℕ) → j < b.num_levels → j < i → q sell j ≡ [])))

-- In a well-formed book best_bid is the price of the highest level with bids and best_ask that of
-- the lowest level with asks, and each is 0 where its side has no orders.
pub best_bid-BestPrices : (b : FastBook) (q : Side → ℕ → List ℕ) → IsBook b q → BestPrices b q
unfolding best_bid best_ask
best_bid-BestPrices b q book = (
  elim (Bool-cases (any (b.bitsets buy))) [
    | inr none_set ↦ inl (rw (best_bid, none_set) refl, all_empty b q book buy none_set)
    | inl set ↦
        let top = find_last_set_bit-IsLast (b.bitsets buy) (book.bitset buy) set in
        let at = some_bit b q book buy (find_last_set_bit (b.bitsets buy)) top.0 in
        inr (
          find_last_set_bit (b.bitsets buy),
          (at.0, rw (best_bid, set) (omega (arith, at.0, book.range, book.max_small)), at.1),
          λ j j_n h. no_bit b q book buy j j_n (top.1 j h),
        )
  ],
  elim (Bool-cases (any (b.bitsets sell))) [
    | inr none_set ↦ inl (rw (best_ask, none_set) refl, all_empty b q book sell none_set)
    | inl set ↦
        let low = find_first_set_bit-IsFirst (b.bitsets sell) (book.bitset sell) set in
        let at = some_bit b q book sell (find_first_set_bit (b.bitsets sell)) low.0 in
        inr (
          find_first_set_bit (b.bitsets sell),
          (at.0, rw (best_ask, set) (omega (arith, at.0, book.range, book.max_small)), at.1),
          λ j j_n h. no_bit b q book sell j j_n (low.1 j h),
        )
  ],
)

-- In a well-formed book total_quantity_at_price is the sum of the quantities of the orders at the
-- price, as 32 bits hold it, and 0 out of the book's range.
pub total_quantity_at_price-shares :
    (b : FastBook) (q : Side → ℕ → List ℕ) (price : ℕ) (s : Side)
    → IsBook b q
    → total_quantity_at_price b price s ≡ (
        if ltb price b.min_price || ltb b.max_price price
        then 0
        else shares b (q s (price - b.min_price)) % u32_mod)
unfolding total_quantity_at_price price_to_index
total_quantity_at_price-shares b q price s book =
    elim (Bool-cases (ltb price b.min_price || ltb b.max_price price)) [
      | inl out ↦ rw (total_quantity_at_price, out) refl
      | inr inside ↦
          let low : b.min_price ≤ price = ground (arith, inside) in
          let high : price ≤ b.max_price = ground (arith, inside) in
          let index : (price + u64_mod - b.min_price) % u64_mod ≡ price - b.min_price =
            omega (arith, low, high, book.max_small) in
          rw (total_quantity_at_price, inside, index)
            (book.total s (price - b.min_price) (omega (arith, low, high, book.range)))
    ]
