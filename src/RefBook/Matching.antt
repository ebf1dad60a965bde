-- ===== src/RefBook/Matching.antt =====
-- `match_orders` as a whole, for both sides: it keeps the book well formed, and what it hands back
-- is the incoming order with what is left of its quantity.
use mathlib.Core.Path.{subst}
use lob_project.Base.{
  ℕ, ◌+◌, ◌<◌, false, ◌≡◌, refl, ap, ◌∙◌, sym, reverse, arith, All, All-map, All-reverse, inl, inr,
  ◌⊎◌, Pairwise, Pairwise-map,
}
use lob_project.Types.{Order, Side, buy, sell}
use lob_project.SortedMap.{keys}
use lob_project.RefBook.{
  RefBook, Levels, Locations, crosses, match_levels, match_side, match_orders, side_levels,
  opposite, Outcome,
}
use lob_project.RefBook.Queue.{queue, NoEmptyLevel, match_levels-execute, Execution}
use lob_project.RefBook.Trading.{IsWord, execute-volume, Worse, traded, volume}
use lob_project.RefBook.Levels.{
  EachOrder, All-queue, volume-queue_reverse, Pairwise-keys-reverse, All-keys-reverse,
}
use lob_project.RefBook.Locate.{match_levels_shrinks, match_levels-HasOrder, HasOrder-reverse}
use lob_project.RefBook.Valid.{
  IsSide, IsValid, Located, HasOrder, match_levels-IsSide, keys-matched, match_levels_keeps,
  refuses_rest,
}

-- The prices that are left are none that the order accepts.
abbrev pub RefusesLevels : Order → Levels → Type 0
RefusesLevels o levels = All (λ p. crosses o.side o.price p ≡ false) (keys levels)

abbrev pub Words : Levels → Type 0
Words = EachOrder (λ p o. IsWord o)

pub Words-IsSide : (side : Side) (levels : Levels) → IsSide side levels → Words levels
Words-IsSide side levels s =
    All-map _ _ levels (λ level h. All-map _ _ level.1 (λ o r. r.0) h) s.resting

-- An order of side `s` has been matched.
pub record Matched (s : Side) (b : RefBook) (o : Order) (out : Outcome) : Type 0 where
  pub valid : IsValid out.book
  pub keeps : out.order ≡ record o { quantity = out.order.quantity }
  pub less : traded out.events + out.order.quantity ≡ o.quantity
  pub volume :
      traded out.events + volume (queue (side_levels out.book (opposite s)))
      ≡ volume (queue (side_levels b (opposite s)))
  pub own : side_levels out.book s ≡ side_levels b s
  pub stops : (out.order.quantity ≡ 0) ⊎ RefusesLevels o (side_levels out.book (opposite s))

execution_volume :
    (o : Order) (levels : Levels) (locs : Locations)
    → IsWord o
    → Words levels
    → NoEmptyLevel levels
    → let f = match_levels o levels locs in
      (traded f.events + f.incoming.quantity ≡ o.quantity)
      × (traded f.events + volume (queue f.levels) ≡ volume (queue levels))
execution_volume o levels locs w words full =
    subst
      (λ (e : Execution).
        (traded e.events + e.incoming.quantity ≡ o.quantity)
        × (traded e.events + volume e.queue ≡ volume (queue levels)))
      (sym (match_levels-execute o levels locs full))
      (execute-volume o (queue levels) locs w (All-queue (λ p o. IsWord o) levels words))

-- Any order of the book that keeps its location is found again after matching.
Located-buy :
    (b : RefBook) (o : Order)
    → Located b
    → let f = match_levels o b.sell_orders b.locations in
      Located (record b { sell_orders = f.levels; locations = f.locations })
Located-buy b o loc id l h =
    again l.side (loc id l (match_levels_shrinks o b.sell_orders b.locations id l h))
  where
    again :
        (s : Side)
        → HasOrder l.price id (side_levels b s)
        → HasOrder l.price id (
            side_levels
              (record b {
                sell_orders = (match_levels o b.sell_orders b.locations).levels;
                locations = (match_levels o b.sell_orders b.locations).locations;
              })
              s)
    again buy has = has
    again sell has = match_levels-HasOrder o b.sell_orders b.locations l.price id l h has

Located-sell :
    (b : RefBook) (o : Order)
    → Located b
    → let f = match_levels o (reverse b.buy_orders) b.locations in
      Located (record b { buy_orders = reverse f.levels; locations = f.locations })
Located-sell b o loc id l h =
    again l.side (loc id l (match_levels_shrinks o (reverse b.buy_orders) b.locations id l h))
  where
    again :
        (s : Side)
        → HasOrder l.price id (side_levels b s)
        → HasOrder l.price id (
            side_levels
              (record b {
                buy_orders = reverse (match_levels o (reverse b.buy_orders) b.locations).levels;
                locations = (match_levels o (reverse b.buy_orders) b.locations).locations;
              })
              s)
    again sell has = has
    again buy has = HasOrder-reverse l.price id _ (
        match_levels-HasOrder o (reverse b.buy_orders) b.locations l.price id l h
          (HasOrder-reverse l.price id b.buy_orders has))

Matched-buy :
    (b : RefBook) (o : Order)
    → IsValid b
    → IsWord o
    → o.side ≡ buy
    → Matched buy b o (match_side buy b o)
unfolding match_side
Matched-buy b o v w s =
    let levels = b.sell_orders in
    let words = Words-IsSide sell levels v.asks in
    let moved = execution_volume o levels b.locations w words v.asks.full in
    record {
      valid = record {
        bids = v.bids;
        asks = match_levels-IsSide o b.locations sell levels v.asks;
        uncrossed =
            All-map _ _ (keys b.buy_orders)
              (λ bid h. keys-matched o b.locations (λ ask. bid < ask) sell levels h) v.uncrossed;
        located = Located-buy b o v.located;
      };
      keeps = match_levels_keeps o levels b.locations;
      less = moved.0;
      volume = moved.1;
      own = refl;
      stops =
          (refuses_rest o b.locations w levels words v.asks.full (
            subst (λ side. Pairwise (Worse side) (keys levels)) (sym s)
              (Pairwise-map ◌<◌ (Worse buy) (keys levels) (λ x y h. omega arith)
                v.asks.ascending)));
    }

Matched-sell :
    (b : RefBook) (o : Order)
    → IsValid b
    → IsWord o
    → o.side ≡ sell
    → Matched sell b o (match_side sell b o)
unfolding match_side
Matched-sell b o v w s =
    let bids = b.buy_orders in
    let levels = reverse bids in
    let words = All-reverse _ bids (Words-IsSide buy bids v.bids) in
    let full = All-reverse _ bids v.bids.full in
    let moved = execution_volume o levels b.locations w words full in
    let left = (match_levels o levels b.locations).levels in
    record {
      valid = record {
        bids = match_levels-IsSide o b.locations buy bids v.bids;
        asks = v.asks;
        uncrossed = keys-matched o b.locations _ buy bids v.uncrossed;
        located = Located-sell b o v.located;
      };
      keeps = match_levels_keeps o levels b.locations;
      less = moved.0;
      volume =
          ap (λ (n : ℕ). traded (match_levels o levels b.locations).events + n)
            (volume-queue_reverse left)
          ∙ moved.1
          ∙ volume-queue_reverse bids;
      own = refl;
      stops =
          elim (refuses_rest o b.locations w levels words full (
            subst (λ side. Pairwise (Worse side) (keys levels)) (sym s)
              (Pairwise-map (λ x y. y < x) (Worse sell) (keys levels) (λ x y h. omega arith)
                (Pairwise-keys-reverse ◌<◌ bids v.bids.ascending)))) [
                  | inl zero ↦ inl zero
                  | inr none_left ↦ inr (All-keys-reverse _ left none_left)
                ];
    }

Matched-side :
    (b : RefBook) (o : Order) (s : Side)
    → IsValid b
    → IsWord o
    → o.side ≡ s
    → Matched s b o (match_side s b o)
Matched-side b o buy v w e = Matched-buy b o v w e
Matched-side b o sell v w e = Matched-sell b o v w e

-- Matching an order against a well-formed book keeps the book well formed, and leaves the levels
-- of the order's own side alone; the order keeps all but its quantity, which falls by what has
-- traded, as does the quantity that rests on the other side; and if some of it is left, the order
-- accepts no price that is left on the other side.
pub match_orders-Matched :
    (b : RefBook) (o : Order) → IsValid b → IsWord o → Matched o.side b o (match_orders b o)
unfolding match_orders
match_orders-Matched b o v w = Matched-side b o o.side v w refl
