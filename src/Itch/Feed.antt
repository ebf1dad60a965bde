-- ===== src/Itch/Feed.antt =====
-- The loop over a feed: the book stays balanced while the feed keeps the rules of ITCH
-- and no level overflows.
use lob_project.Base.{
  ℕ, ◌+◌, ◌<◌, ◌≡◌, true, some, none, inl, inr, Bool-cases, u32_mod, List, [], ◌∷◌,
}
use lob_project.SortedMap.{find, erase}
use lob_project.Ingest.{IngestBook, LiveOrder, is_bid, is_tracked}
use lob_project.Ingest.Balance.{Balanced, Fits, resting}
use lob_project.Ingest.Handlers.{
  Covered, on_add-Balanced, on_executed-Balanced, on_executed_price-Balanced, on_cancel-Balanced,
  on_delete-Balanced, on_replace-Balanced,
}
use lob_project.Itch.{
  ItchMsg, added, executed, cancelled, deleted, replaced, unknown, matches_symbol,
}
use lob_project.Itch.Main.{Ingest, keep, visit, step}

-- What ITCH promises of a message for the symbol: the reference of an order is new, and no more
-- shares are executed than the order has.
abbrev pub Sound : List ℕ → IngestBook → ItchMsg → Type 0
Sound symbol b (added m) = (matches_symbol m.stock symbol ≡ true) → find m.order_ref b.live ≡ none
Sound symbol b (executed m) = Covered b m.order_ref m.exec_shares
Sound symbol b (cancelled m) = Unit
Sound symbol b (deleted m) = Unit
Sound symbol b (replaced m) =
    (o : LiveOrder)
    → find m.orig_order_ref b.live ≡ some o
    → find m.new_order_ref (erase m.orig_order_ref b.live) ≡ none
Sound symbol b unknown = Unit

-- The shares at the price of a new order stay below 2^32, the range of a level's `uint32_t`. ITCH
-- does not promise this, and the book does not test it: a level that passes it wraps around.
abbrev pub Roomy : List ℕ → IngestBook → ItchMsg → Type 0
Roomy symbol b (added m) = (matches_symbol m.stock symbol ≡ true) → Fits b m.side m.price m.shares
Roomy symbol b (executed m) = Unit
Roomy symbol b (cancelled m) = Unit
Roomy symbol b (deleted m) = Unit
Roomy symbol b (replaced m) =
    (o : LiveOrder)
    → find m.orig_order_ref b.live ≡ some o
    → resting (is_bid o.side) m.price (erase m.orig_order_ref b.live) + m.shares < u32_mod
Roomy symbol b unknown = Unit

-- The messages of a feed in their order, each one applied to what the earlier ones left.
abbrev pub replay : List ℕ → Ingest → List ItchMsg → Ingest
replay symbol s [] = s
replay symbol s (m ∷ ms) = replay symbol (step symbol s m) ms

abbrev pub Fed : List ℕ → Ingest → List ItchMsg → Type 0
Fed symbol s [] = Unit
Fed symbol s (m ∷ ms) = Sound symbol s.book m × Fed symbol (step symbol s m) ms

abbrev pub Fitting : List ℕ → Ingest → List ItchMsg → Type 0
Fitting symbol s [] = Unit
Fitting symbol s (m ∷ ms) = Roomy symbol s.book m × Fitting symbol (step symbol s m) ms

visit-Balanced :
    (symbol : List ℕ) (s : Ingest) (m : ItchMsg)
    → Balanced s.book
    → Sound symbol s.book m
    → Roomy symbol s.book m
    → Balanced (visit symbol s m).book
unfolding visit keep
visit-Balanced symbol s (added m) h rules room = elim (Bool-cases (matches_symbol m.stock symbol)) [
  | inl ours ↦
      rw ours
        (on_add-Balanced s.book m.order_ref m.side m.shares m.price h (rules ours) (room ours))
  | inr other ↦ rw other h
]
visit-Balanced symbol s (executed m) h rules room =
    elim (Bool-cases (is_tracked s.book m.order_ref)) [
      | inl live ↦ rw live (elim (Bool-cases m.has_price) [
        | inl priced ↦ rw priced (
            on_executed_price-Balanced s.book m.order_ref m.exec_shares m.match_number m.price h
              rules)
        | inr plain ↦
            rw plain (on_executed-Balanced s.book m.order_ref m.exec_shares m.match_number h rules)
      ])
      | inr other ↦ rw other h
    ]
visit-Balanced symbol s (cancelled m) h rules room =
    elim (Bool-cases (is_tracked s.book m.order_ref)) [
      | inl live ↦ rw live (on_cancel-Balanced s.book m.order_ref m.cancelled_shares h)
      | inr other ↦ rw other h
    ]
visit-Balanced symbol s (deleted m) h rules room =
    elim (Bool-cases (is_tracked s.book m.order_ref)) [
      | inl live ↦ rw live (on_delete-Balanced s.book m.order_ref h)
      | inr other ↦ rw other h
    ]
visit-Balanced symbol s (replaced m) h rules room =
    elim (Bool-cases (is_tracked s.book m.orig_order_ref)) [
      | inl live ↦ rw live (
          on_replace-Balanced s.book m.orig_order_ref m.new_order_ref m.shares m.price h
            (λ o e. (rules o e, room o e)))
      | inr other ↦ rw other h
    ]
visit-Balanced symbol s unknown h rules room = h

-- From a balanced book, a feed that keeps the rules of ITCH for the symbol, and on which the shares
-- at a price never reach 2^32, leaves a balanced book: both maps are sorted by price, and each shows
-- at each price the sum of the shares of the live orders there.
pub replay-Balanced :
    (symbol : List ℕ) (s : Ingest) (ms : List ItchMsg)
    → Balanced s.book
    → Fed symbol s ms
    → Fitting symbol s ms
    → Balanced (replay symbol s ms).book
unfolding step
replay-Balanced symbol s [] h rules room = h
replay-Balanced symbol s (m ∷ ms) h rules room =
    replay-Balanced symbol (step symbol s m) ms (visit-Balanced symbol _ m h rules.0 room.0) rules.1
      room.1
