-- ===== src/RefBook/Priority.antt =====
-- Price-time priority of `match_orders`, on the whole book.
use mathlib.Core.Path.{subst}
use mathlib.Core.List.{reverse-reverse}
use lob_project.Base.{ℕ, ◌<◌, sym, List, arith, All-reverse, Pairwise, Pairwise-map, reverse}
use lob_project.Types.{Order, Side, buy, sell}
use lob_project.SortedMap.{keys}
use lob_project.RefBook.{
  RefBook, Levels, Locations, match_levels, match_side, match_orders, side_levels, opposite,
  Outcome,
}
use lob_project.RefBook.Queue.{queue, NoEmptyLevel, match_levels-execute, Execution}
use lob_project.RefBook.Trading.{IsWord, Worse, Served, execute-Served}
use lob_project.RefBook.Levels.{All-queue, queue-Pairwise, Pairwise-keys-reverse}
use lob_project.RefBook.Valid.{IsValid, best_first, Worse-refl}
use lob_project.RefBook.Matching.{Words, Words-IsSide}

-- The orders that an order of side `s` can trade with, in the order in which they are due: the
-- best price first, and at one price the order that was added first.
abbrev pub due : Side → RefBook → List (ℕ × Order)
due s b = queue (best_first (opposite s) (side_levels b (opposite s)))

abbrev pub execution : Side → Outcome → Execution
execution s out = record {
  incoming = out.order;
  queue = due s out.book;
  locations = out.book.locations;
  events = out.events;
}

Served-levels :
    (o : Order) (levels : Levels) (locs : Locations)
    → IsWord o
    → Words levels
    → NoEmptyLevel levels
    → let f = match_levels o levels locs in
      Served o (queue levels) (record {
        incoming = f.incoming;
        queue = queue f.levels;
        locations = f.locations;
        events = f.events;
      })
Served-levels o levels locs w words full =
    subst (Served o (queue levels)) (sym (match_levels-execute o levels locs full))
      (execute-Served o (queue levels) locs w (All-queue (λ p o. IsWord o) levels words))

Served-side :
    (s : Side) (b : RefBook) (o : Order)
    → IsValid b
    → IsWord o
    → Served o (due s b) (execution s (match_side s b o))
unfolding match_side
Served-side buy b o v w =
    Served-levels o b.sell_orders b.locations w (Words-IsSide sell b.sell_orders v.asks) v.asks.full
Served-side sell b o v w =
    let bids = b.buy_orders in
    let f = match_levels o (reverse bids) b.locations in
    subst
      (λ levels. Served o (queue (reverse bids)) (record {
        incoming = f.incoming;
        queue = queue levels;
        locations = f.locations;
        events = f.events;
      }))
      (sym (reverse-reverse f.levels))
      (Served-levels o (reverse bids) b.locations w
        (All-reverse _ bids (Words-IsSide buy bids v.bids)) (All-reverse _ bids v.bids.full))

due_sorted : (s : Side) (b : RefBook) → IsValid b → Pairwise (λ x y. Worse s x.0 y.0) (due s b)
due_sorted buy b v =
    queue-Pairwise (Worse buy) (Worse-refl buy) b.sell_orders
      (Pairwise-map ◌<◌ (Worse buy) (keys b.sell_orders) (λ x y h. omega arith) v.asks.ascending)
due_sorted sell b v = queue-Pairwise (Worse sell) (Worse-refl sell) (reverse b.buy_orders) (
    Pairwise-map (λ x y. y < x) (Worse sell) (keys (reverse b.buy_orders)) (λ x y h. omega arith)
      (Pairwise-keys-reverse ◌<◌ b.buy_orders v.bids.ascending))

-- Price-time priority. On a well-formed book the resting orders that an order may trade with are
-- due best price first; matching fills a front part of them whole, in that order and at the
-- prices at which they rest, and at most the next one in part, and then the order is used up. The
-- fills are reported in that order, and all orders behind stay as they were.
pub match_orders-Served :
    (b : RefBook) (o : Order)
    → IsValid b
    → IsWord o
    → Pairwise (λ x y. Worse o.side x.0 y.0) (due o.side b)
      × Served o (due o.side b) (execution o.side (match_orders b o))
unfolding match_orders
match_orders-Served b o v w = (due_sorted o.side b v, Served-side o.side b o v w)
