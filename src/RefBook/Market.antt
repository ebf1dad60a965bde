-- ===== src/RefBook/Market.antt =====
-- `execute_market_order`: its loop ends, after one round at most.
use mathlib.Core.Path.{subst}
use mathlib.Core.List.{append-nil}
use lob_project.Base.{
  ℕ, suc, ◌+◌, ◌<◌, false, ◌&&◌, not, [], ◌∷◌, ◌++◌, ◌≡◌, refl, ap, arith, All, inl, inr, ◌⊎◌, some,
  is_empty, u64_mod, Bool-cases, ltb,
}
use lob_project.Types.{Order, Side, buy, sell, market_price}
use lob_project.SortedMap.{keys}
use lob_project.RefBook.{
  RefBook, Levels, crosses, match_orders, side_levels, opposite, Outcome, execute_market_order,
}
use lob_project.RefBook.Queue.{queue, NoEmptyLevel}
use lob_project.RefBook.Trading.{IsWord, traded, volume}
use lob_project.RefBook.Valid.{IsSide, IsValid}
use lob_project.RefBook.Matching.{Matched, match_orders-Matched}

-- A market order accepts every price, so it refuses all levels only if there are none.
accepts :
    (s t : Side) (levels : Levels)
    → IsSide t levels
    → All (λ p. crosses s (market_price s) p ≡ false) (keys levels)
    → levels ≡ []
accepts s t [] v h = refl
accepts buy t ((p, []) ∷ levels) v h = absurd (no_empty (v.full))
  where
    no_empty : NoEmptyLevel ((p, []) ∷ levels) → ⊥
    no_empty f = cc
accepts buy t ((p, o ∷ os) ∷ levels) v h =
    let small : p < u64_mod = v.resting.0.0.3 in absurd (ground arith)
accepts sell t ((p, os) ∷ levels) v h = absurd (ground (arith, h.0))

-- The outcome of a market order that has run.
pub record Executed (s : Side) (b : RefBook) (o : Order) (out : Outcome) : Type 0 where
  pub valid : IsValid out.book
  pub less : traded out.events + out.order.quantity ≡ o.quantity
  pub taken :
      traded out.events + volume (queue (side_levels out.book (opposite s)))
      ≡ volume (queue (side_levels b (opposite s)))
  pub own : side_levels out.book s ≡ side_levels b s
  pub stops : (out.order.quantity ≡ 0) ⊎ (side_levels out.book (opposite s) ≡ [])

side_IsSide : (s : Side) (b : RefBook) → IsValid b → IsSide s (side_levels b s)
side_IsSide buy b v = v.bids
side_IsSide sell b v = v.asks

stops_empty :
    (b : RefBook) (o : Order) (m : Outcome)
    → o.price ≡ market_price o.side
    → Matched o.side b o m
    → (m.order.quantity ≡ 0) ⊎ (side_levels m.book (opposite o.side) ≡ [])
stops_empty b o m e done = elim done.stops [
  | inl zero ↦ inl zero
  | inr refuses ↦
      let others = side_levels m.book (opposite o.side) in
      inr (
        accepts o.side (opposite o.side) others (side_IsSide (opposite o.side) m.book done.valid)
          (subst (λ p. All (λ q. crosses o.side p q ≡ false) (keys others)) e refuses))
]

-- The loop's test, after a round.
no_more :
    (levels : Levels) (quantity : ℕ)
    → (quantity ≡ 0) ⊎ (levels ≡ [])
    → (not (is_empty levels) && ltb 0 quantity) ≡ false
no_more [] quantity h = refl
no_more (l ∷ levels) quantity (inl z) = ground arith
no_more (l ∷ levels) quantity (inr e) = cc

ends :
    (fuel : ℕ) (b : RefBook) (o : Order)
    → (not (is_empty (side_levels b (opposite o.side))) && ltb 0 o.quantity) ≡ false
    → execute_market_order (suc fuel) b o ≡ some (record { book = b; order = o; events = [] })
unfolding execute_market_order
ends fuel b o h = rw h refl

still_more :
    (levels : Levels) (quantity : ℕ)
    → (not (is_empty levels) && ltb 0 quantity) ≡ false
    → (quantity ≡ 0) ⊎ (levels ≡ [])
still_more [] quantity h = inr refl
still_more (l ∷ levels) quantity h = inl (ground arith)

-- With fuel for two rounds the loop of a market order ends, on any well-formed book: either the
-- order is filled or the other side is empty. The book stays well formed, the order's own side is
-- as it was, and what trades is what the order and the other side lose.
pub execute_market_order-Executed :
    (fuel : ℕ) (b : RefBook) (o : Order)
    → IsValid b
    → IsWord o
    → o.price ≡ market_price o.side
    → (out : Outcome) × (execute_market_order (suc (suc fuel)) b o ≡ some out)
      × Executed o.side b o out
unfolding execute_market_order
execute_market_order-Executed fuel b o v w e =
    let m = match_orders b o in
    let done = match_orders-Matched b o v w in
    let more = not (is_empty (side_levels b (opposite o.side))) && ltb 0 o.quantity in
    elim (Bool-cases more) [
      | inr stop ↦ (
        record { book = b; order = o; events = [] },
        rw stop refl,
        record {
          valid = v;
          less = omega arith;
          taken = omega arith;
          own = refl;
          stops = still_more (side_levels b (opposite o.side)) o.quantity stop;
        },
      )
      | inl go ↦
          let stops = stops_empty b o m e done in
          let same : m.order.side ≡ o.side = ap (λ (r : Order). r.side) done.keeps in
          (
            record m { events = m.events ++ [] },
            rw
                (
                  go,
                  ends fuel m.book m.order (
                      rw same
                        (no_more (side_levels m.book (opposite o.side)) m.order.quantity stops)),
                )
                refl,
            record {
              valid = done.valid;
              less = rw (append-nil m.events) done.less;
              taken = rw (append-nil m.events) done.volume;
              own = done.own;
              stops = stops;
            },
          )
    ]
