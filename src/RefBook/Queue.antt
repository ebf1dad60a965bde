-- ===== src/RefBook/Queue.antt =====
-- The specification of matching: one queue of resting orders, in the order in which they are due
-- to trade. The two nested loops of `RefBook::match_orders` implement it.
use lob_project.Base.{
  ℕ, true, false, ◌&&◌, List, [], ◌∷◌, ◌++◌, ◌≡◌, refl, ap, ◌∙◌, sym, min, ltb, ◌==◌, if◌then◌else◌,
  arith, All, Bool-cases, List-cases, inl, inr, is_empty,
}
use lob_project.Types.{Order, Event, order_filled}
use lob_project.RefBook.{
  Levels, Locations, fill, release, LevelFills, match_level, crosses, Fills, match_levels,
}

abbrev pub at_price : ℕ → List Order → List (ℕ × Order)
at_price p [] = []
at_price p (o ∷ os) = (p, o) ∷ at_price p os

abbrev pub queue : Levels → List (ℕ × Order)
queue [] = []
queue ((p, os) ∷ levels) = at_price p os ++ queue levels

pub record Execution : Type 0 where
  pub incoming : Order
  pub queue : List (ℕ × Order)
  pub locations : Locations
  pub events : List Event

-- The order at the head of the queue trades as long as the incoming order has quantity left and
-- accepts the price; it leaves the queue when it is filled.
unfoldable pub execute : Order → List (ℕ × Order) → Locations → Execution
execute incoming [] locs = record { incoming = incoming; queue = []; locations = locs; events = [] }
execute incoming ((p, o) ∷ rest) locs =
    let quantity = min incoming.quantity o.quantity in
    let o' = fill o quantity in
    let e = execute (fill incoming quantity) rest (release o' locs) in
    if ltb 0 incoming.quantity && crosses incoming.side incoming.price p
    then record e {
      queue = if o'.quantity == 0 then e.queue else (p, o') ∷ e.queue;
      events = order_filled incoming.id o.id p quantity ∷ e.events;
    }
    else record { incoming = incoming; queue = (p, o) ∷ rest; locations = locs; events = [] }

-- A run over one level, put in front of the run over what follows.
abbrev before : ℕ → LevelFills → Execution → Execution
before p l e = record e { queue = at_price p l.resting ++ e.queue; events = l.events ++ e.events }

abbrev after_level : ℕ → LevelFills → List (ℕ × Order) → Execution
after_level p l rest = before p l (execute l.incoming rest l.locations)

-- An order with no quantity trades nothing.
pub at_rest :
    (incoming : Order) (rest : List (ℕ × Order)) (locs : Locations)
    → (incoming.quantity == 0) ≡ true
    → execute incoming rest locs
      ≡ record { incoming = incoming; queue = rest; locations = locs; events = [] }
unfolding execute
at_rest incoming [] locs h = refl
at_rest incoming ((p, o) ∷ rest) locs h =
    let e : ltb 0 incoming.quantity ≡ false = ground arith in rw e refl

crosses-fill :
    (o : Order) (q p : ℕ)
    → crosses o.side o.price p ≡ true
    → crosses (fill o q).side (fill o q).price p ≡ true
unfolding fill
crosses-fill o q p h = h

execute-level :
    (p : ℕ) (incoming : Order) (os : List Order) (rest : List (ℕ × Order)) (locs : Locations)
    → crosses incoming.side incoming.price p ≡ true
    → execute incoming (at_price p os ++ rest) locs
      ≡ after_level p (match_level p incoming os locs) rest
unfolding match_level execute
execute-level p incoming [] rest locs h = refl
execute-level p incoming (o ∷ os) rest locs h = elim (Bool-cases (incoming.quantity == 0)) [
  | inl done ↦
      let stop : ltb 0 incoming.quantity ≡ false = ground arith in
      rw (done, stop, at_rest incoming rest locs done) refl
  | inr more ↦
      let go : ltb 0 incoming.quantity ≡ true = ground arith in
      let q = min incoming.quantity o.quantity in
      rw
        (
          more,
          go,
          h,
          execute-level p (fill incoming q) os rest (release (fill o q) locs)
              (crosses-fill incoming q p h),
        )
        (elim (Bool-cases ((fill o q).quantity == 0)) [
          | inl filled ↦ rw filled refl
          | inr left ↦ rw left refl
        ])
]

abbrev pub flat : Fills → Execution
flat f = record {
  incoming = f.incoming;
  queue = queue f.levels;
  locations = f.locations;
  events = f.events;
}

-- The loops leave no level empty, and the code relies on it.
abbrev pub NoEmptyLevel : Levels → Type 0
NoEmptyLevel = All (λ level. is_empty level.1 ≡ false)

empty_queue :
    (incoming : Order) (locs : Locations)
    → record { incoming = incoming; queue = []; locations = locs; events = [] }
      ≡ execute incoming [] locs
unfolding execute
empty_queue incoming locs = refl

refused :
    (incoming : Order) (p : ℕ) (o : Order) (rest : List (ℕ × Order)) (locs : Locations)
    → (ltb 0 incoming.quantity && crosses incoming.side incoming.price p) ≡ false
    → execute incoming ((p, o) ∷ rest) locs
      ≡ record { incoming = incoming; queue = (p, o) ∷ rest; locations = locs; events = [] }
unfolding execute
refused incoming p o rest locs h = rw h refl

flat-cons :
    (p : ℕ) (l : LevelFills) (f : Fills)
    → flat (record f {
      levels = if is_empty l.resting then f.levels else (p, l.resting) ∷ f.levels;
      events = l.events ++ f.events;
    })
      ≡ before p l (flat f)
flat-cons p l f = elim (List-cases l.resting) [
  | inl none_left ↦ rw none_left refl
  | inr (o, os, left) ↦ rw left refl
]

-- Matching level by level is matching along the queue: for a side of the book without empty
-- levels it leaves the same incoming order, the same resting orders in the same order and the
-- same locations, and reports the same fills in the same order.
pub match_levels-execute :
    (incoming : Order) (levels : Levels) (locs : Locations)
    → NoEmptyLevel levels
    → flat (match_levels incoming levels locs) ≡ execute incoming (queue levels) locs
unfolding match_levels
match_levels-execute incoming [] locs h = empty_queue incoming locs
match_levels-execute incoming ((p, []) ∷ levels) locs h = cc
match_levels-execute incoming ((p, o ∷ os) ∷ levels) locs h =
    elim (Bool-cases (ltb 0 incoming.quantity && crosses incoming.side incoming.price p)) [
      | inr stop ↦ rw stop (sym (refused incoming p o (at_price p os ++ queue levels) locs stop))
      | inl go ↦
          let l = match_level p incoming (o ∷ os) locs in
          let through = execute-level p incoming (o ∷ os) (queue levels) locs (ground arith) in
          let rest = match_levels-execute l.incoming levels l.locations h.1 in
          rw go (flat-cons p l _ ∙ ap (before p l) rest ∙ sym through)
    ]
