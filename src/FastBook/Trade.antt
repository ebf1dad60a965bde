-- ===== src/FastBook/Trade.antt =====
-- An incoming order that the first order of the best level can fill.
use lob_project.Base.{
  ℕ, zero, suc, ◌+◌, ◌-◌, ◌%◌, ◌<◌, true, false, ltb, ◌&&◌, not, min, List, [], ◌∷◌, Option, none,
  some, ◌==◌, ◌≡◌, ◌≢◌, refl, ap, ◌∙◌, arith, length, sub32, sub32-eq-sub, u32_mod, u64_mod,
}
use lob_project.Types.{Side, Order, Event, order_filled}
use lob_project.Bitset.{any}
use lob_project.FastBook.{FastOrder, FastBook, pooled, level, take_shares, remove_order}
use lob_project.FastBook.Adding.{
  Match, match_level, match_levels, match_orders, out_of_reach, out_of_range, best_index,
  next_index, opposite, rest_match, add, before_events,
}
use lob_project.FastBook.Links.{has, without}
use lob_project.FastBook.Unlink.{SameData}
use lob_project.FastBook.Taking.{requantified}
use lob_project.FastBook.Valid.{IsBook, shares}
use lob_project.FastBook.Queues.{shares-without}
use lob_project.FastBook.Requantified.{requantified-SameData, requantified-IsBook, entry_now}

-- Without shares left the loops stop.
match_level-stop :
    (fuel : ℕ) (b : FastBook) (order : Order) (i : ℕ) (current : Option ℕ)
    → 0 < fuel
    → order.quantity ≡ 0
    → match_level fuel b order i current ≡ some (record { book = b; order = order; events = [] })
unfolding match_level
match_level-stop zero b order i current h e = absurd (omega arith)
match_level-stop (suc fuel) b order i none h e = refl
match_level-stop (suc fuel) b order i (some k) h e =
    let stop : ltb 0 order.quantity ≡ false = ground (arith, e) in rw (match_level, stop) refl

match_levels-stop :
    (fuel : ℕ) (b : FastBook) (order : Order) (index : Option ℕ)
    → order.quantity ≡ 0
    → match_levels (suc fuel) b order index ≡ some (record { book = b; order = order; events = [] })
unfolding match_levels
match_levels-stop fuel b order none e = refl
match_levels-stop fuel b order (some i) e =
    let stop : ltb 0 order.quantity ≡ false = ground (arith, e) in rw (match_levels, stop) refl

-- A level that is in reach is matched, and then the next one.
match_levels-step :
    (fuel : ℕ) (b : FastBook) (order : Order) (i : ℕ) (m : Match)
    → (ltb 0 order.quantity && not (out_of_reach b order i)) ≡ true
    → match_level (suc (length b.pool)) b order i (level b (opposite order.side) i).head ≡ some m
    → match_levels (suc fuel) b order (some i)
      ≡ before_events m.events (match_levels fuel m.book m.order (next_index m.book order.side i))
unfolding match_levels
match_levels-step fuel b order i m go here = rw (match_levels, go, here) refl

module _ (b : FastBook) (q : Side → ℕ → List ℕ) (book : IsBook b q) (order : Order) (i k : ℕ)
    (i_n : i < b.num_levels) (m : has k (q (opposite order.side) i) ≡ true)
    (pos : 0 < order.quantity) (less : order.quantity < (pooled b k).quantity) where
  abbrev s : Side
  s = opposite order.side

  abbrev left : ℕ
  left = (pooled b k).quantity - order.quantity

  abbrev total : ℕ
  total = sub32 (level b s i).total_quantity order.quantity

  abbrev pub served : FastBook
  served = requantified b s i k total left

  sum : total ≡ (shares b (without k (q s i)) + left) % u32_mod
  unfolding sub32
  sum =
      rw (book.total s i i_n, shares-without b k (q s i) m)
        (omega (arith, less, (book.entry s i k i_n m).small))

  pub served-IsBook : IsBook served q
  served-IsBook =
      requantified-IsBook b q book s i k total left i_n m (omega (arith, less))
        (omega (arith, (book.entry s i k i_n m).small)) sum

  pub served-SameData : (a : ℕ) → k ≢ a → SameData (pooled served a) (pooled b a)
  served-SameData =
      requantified-SameData b q book s i k total left i_n m (omega (arith, less))
        (omega (arith, (book.entry s i k i_n m).small)) sum

  pub served_quantity : (pooled served k).quantity ≡ left
  served_quantity =
      ap (λ (r : FastOrder). r.quantity)
        (entry_now b q book s i k total left i_n m (omega (arith, less))
          (omega (arith, (book.entry s i k i_n m).small)) sum)

  take_part : take_shares b s i k order.quantity ≡ served
  unfolding take_shares
  take_part =
      ap (λ (n : ℕ). requantified b s i k total n)
        (sub32-eq-sub (pooled b k).quantity order.quantity (omega (arith, less))
          (book.entry s i k i_n m).small)

  remove_part : remove_order b s i k order.quantity ≡ some served
  unfolding remove_order
  remove_part =
      let some_left : ((pooled served k).quantity == 0) ≡ false =
        rw served_quantity (let h : 0 < left = omega (arith, less) in ground (arith, h)) in
      rw (take_part, some_left) refl

  abbrev pub filled : Event
  filled = order_filled order.id (pooled b k).id (b.min_price + i) order.quantity

  abbrev spent : Order
  spent = record order { quantity = 0 }

  match_level-part :
      match_level (suc (length b.pool)) b order i (some k)
      ≡ some (record { book = served; order = spent; events = filled ∷ [] })
  unfolding match_level
  match_level-part =
      let go : ltb 0 order.quantity ≡ true = ground (arith, pos) in
      let whole : min order.quantity (pooled b k).quantity ≡ order.quantity = omega (arith, less) in
      let small = (book.entry s i k i_n m).small in
      let nothing : sub32 order.quantity order.quantity ≡ 0 =
        sub32-eq-sub order.quantity order.quantity (omega arith) (omega (arith, less, small))
        ∙ omega arith in
      let price : (i + b.min_price) % u64_mod ≡ b.min_price + i =
        omega (arith, i_n, book.range, book.max_small) in
      let room : 0 < length b.pool =
        (let k_n = (book.queued s i i_n).inside k m in omega (arith, k_n)) in
      rw
        (
          match_level,
          go,
          whole,
          remove_part,
          whole,
          nothing,
          price,
          match_level-stop (length b.pool) served spent i (pooled b k).next room refl,
        )
        refl

  match_levels-part :
      (level b s i).head ≡ some k
      → out_of_reach b order i ≡ false
      → match_levels (suc (suc b.num_levels)) b order (some i)
        ≡ some (record { book = served; order = spent; events = filled ∷ [] })
  match_levels-part head reach =
      let go : (ltb 0 order.quantity && not (out_of_reach b order i)) ≡ true =
        rw reach (ground (arith, pos)) in
      match_levels-step (suc b.num_levels) b order i
        (record { book = served; order = spent; events = filled ∷ [] }) go
        (ap (λ (h : Option ℕ). match_level (suc (length b.pool)) b order i h) head
          ∙ match_level-part)
      ∙ rw (match_levels-stop b.num_levels served spent (next_index served order.side i) refl) refl

  pub match_orders-part :
      (level b s i).head ≡ some k
      → out_of_reach b order i ≡ false
      → any (b.bitsets s) ≡ true
      → best_index b order.side ≡ i
      → match_orders b order ≡ some (record { book = served; order = spent; events = filled ∷ [] })
  unfolding match_orders
  match_orders-part head reach set best =
      rw (match_orders, set, best) (match_levels-part head reach)

  pub add-part :
      out_of_range b order ≡ false
      → (level b s i).head ≡ some k
      → out_of_reach b order i ≡ false
      → any (b.bitsets s) ≡ true
      → best_index b order.side ≡ i
      → add b order ≡ some (record { book = served; events = filled ∷ [] })
  unfolding add rest_match
  add-part range head reach set best =
      rw (add, range, match_orders-part head reach set best, rest_match) refl
