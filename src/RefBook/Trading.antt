-- ===== src/RefBook/Trading.antt =====
-- What trading along a queue does: quantities are conserved, the queue is served in its order,
-- and an incoming order stops only when it is filled or meets a price that it does not accept.
use lob_project.Base.{
  ℕ, ◌+◌, ◌-◌, ◌<◌, ◌≤◌, true, false, ◌&&◌, List, [], ◌∷◌, ◌++◌, ◌≡◌, refl, ap, ◌∙◌, min, ltb, ◌==◌,
  arith, All, All-map, Bool-cases, inl, inr, ◌⊎◌, ◌≢◌, u32_mod, sub32-eq-sub, Pairwise,
}
use lob_project.Types.{
  Side, buy, sell, Order, Event, order_added, order_canceled, order_modified, order_filled,
}
use lob_project.RefBook.{Locations, fill, release, crosses}
use lob_project.RefBook.Queue.{Execution, execute, at_rest}

abbrev pub IsWord : Order → Type 0
IsWord o = o.quantity < u32_mod

abbrev pub volume : List (ℕ × Order) → ℕ
volume [] = 0
volume ((p, o) ∷ q) = o.quantity + volume q

abbrev pub traded : List Event → ℕ
traded [] = 0
traded (order_filled a b p quantity ∷ es) = quantity + traded es
traded (order_added o ∷ es) = traded es
traded (order_canceled id cancelled left ∷ es) = traded es
traded (order_modified id quantity ∷ es) = traded es

pub quantity-fill :
    (o : Order) (n : ℕ) → IsWord o → n ≤ o.quantity → (fill o n).quantity ≡ o.quantity - n
unfolding fill
quantity-fill o n w h = sub32-eq-sub o.quantity n h w

pub fill-IsWord : (o : Order) (n : ℕ) → IsWord o → n ≤ o.quantity → IsWord (fill o n)
fill-IsWord o n w h = omega (arith, quantity-fill o n w h)

-- No share is made or lost: what the incoming order no longer asks for has traded, and so has what
-- the queue no longer offers.
pub execute-volume :
    (incoming : Order) (q : List (ℕ × Order)) (locs : Locations)
    → IsWord incoming
    → All (λ e. IsWord e.1) q
    → (traded (execute incoming q locs).events + (execute incoming q locs).incoming.quantity
        ≡ incoming.quantity)
      × (traded (execute incoming q locs).events + volume (execute incoming q locs).queue
          ≡ volume q)
unfolding execute
execute-volume incoming [] locs w ws = (omega arith, omega arith)
execute-volume incoming ((p, o) ∷ q) locs w ws =
    let n = min incoming.quantity o.quantity in
    let ih =
      execute-volume (fill incoming n) q (release (fill o n) locs)
        (fill-IsWord incoming n w (omega arith)) ws.1 in
    let left = quantity-fill incoming n w (omega arith) in
    let left' = quantity-fill o n ws.0 (omega arith) in
    elim (Bool-cases (ltb 0 incoming.quantity && crosses incoming.side incoming.price p)) [
      | inr stop ↦ rw stop (omega arith, omega arith)
      | inl go ↦ rw go (
        omega (arith, ih, left, left'),
        elim (Bool-cases ((fill o n).quantity == 0)) [
          | inl filled ↦
              let z : (fill o n).quantity ≡ 0 = ground arith in rw filled (omega (arith, ih, left'))
          | inr more ↦ rw more (omega (arith, ih, left'))
        ],
      )
    ]

-- The fills of orders that are filled whole.
abbrev pub whole_fills : ℕ → List (ℕ × Order) → List Event
whole_fills id [] = []
whole_fills id ((p, o) ∷ q) = order_filled id o.id p o.quantity ∷ whole_fills id q

-- A front part of the queue is filled whole, in order and at the prices at which it rested; at
-- most the next order is filled in part, and then the incoming order is used up.
pub data Served (incoming : Order) (q : List (ℕ × Order)) (e : Execution) : Type 0 where
  whole :
      (done : List (ℕ × Order))
      → q ≡ done ++ e.queue
      → e.events ≡ whole_fills incoming.id done
      → Served incoming q e
  part :
      (done rest : List (ℕ × Order)) (p : ℕ) (o : Order) (n : ℕ)
      → q ≡ done ++ (p, o) ∷ rest
      → n < o.quantity
      → e.queue ≡ (p, fill o n) ∷ rest
      → e.events ≡ whole_fills incoming.id done ++ order_filled incoming.id o.id p n ∷ []
      → e.incoming.quantity ≡ 0
      → Served incoming q e

Served-cons :
    (incoming : Order) (p : ℕ) (o : Order) (n : ℕ) (q : List (ℕ × Order)) (e : Execution)
    → n ≡ o.quantity
    → Served (fill incoming n) q e
    → Served incoming
        ((p, o) ∷ q)
        (record e { events = order_filled incoming.id o.id p n ∷ e.events })
unfolding fill
Served-cons incoming p o n q e h (whole done a b) =
    whole ((p, o) ∷ done) (ap (◌∷◌ (p, o)) a) (rw (b, h) refl)
Served-cons incoming p o n q e h (part done rest p' o' n' a b c d z) =
    part ((p, o) ∷ done) rest p' o' n' (ap (◌∷◌ (p, o)) a) b c (rw (d, h) refl) z

-- Price-time priority, for a queue that is in that order: no order trades before the ones in
-- front of it are filled.
pub execute-Served :
    (incoming : Order) (q : List (ℕ × Order)) (locs : Locations)
    → IsWord incoming
    → All (λ e. IsWord e.1) q
    → Served incoming q (execute incoming q locs)
unfolding execute
execute-Served incoming [] locs w ws = whole [] refl refl
execute-Served incoming ((p, o) ∷ q) locs w ws =
    let n = min incoming.quantity o.quantity in
    let ih =
      execute-Served (fill incoming n) q (release (fill o n) locs)
        (fill-IsWord incoming n w (omega arith)) ws.1 in
    let left = quantity-fill incoming n w (omega arith) in
    let left' = quantity-fill o n ws.0 (omega arith) in
    elim (Bool-cases (ltb 0 incoming.quantity && crosses incoming.side incoming.price p)) [
      | inr stop ↦ rw stop (whole [] refl refl)
      | inl go ↦ rw go (elim (Bool-cases ((fill o n).quantity == 0)) [
        | inl filled ↦
            let z : (fill o n).quantity ≡ 0 = ground arith in
            rw filled (Served-cons incoming p o n q _ (omega arith) ih)
        | inr more ↦
            let nz : (fill o n).quantity ≢ 0 = ground arith in
            rw (more, at_rest (fill incoming n) q (release (fill o n) locs) (ground arith))
              (part [] q p o n refl (omega arith) refl refl (omega arith))
      ])
    ]

-- An order that still asks for quantity accepts none of the prices that are left, where the queue
-- is sorted so that a price after a refused one is refused too.
abbrev pub Worse : Side → ℕ → ℕ → Type 0
Worse buy p p' = p ≤ p'
Worse sell p p' = p' ≤ p

abbrev pub Refuses : Order → ℕ × Order → Type 0
Refuses incoming e = crosses incoming.side incoming.price e.0 ≡ false

refuses-Worse :
    (side : Side) (bound p p' : ℕ)
    → Worse side p p'
    → crosses side bound p ≡ false
    → crosses side bound p' ≡ false
refuses-Worse buy bound p p' h c = ground arith
refuses-Worse sell bound p p' h c = ground arith

Refuses-fill :
    (o : Order) (n : ℕ) (q : List (ℕ × Order)) → All (Refuses (fill o n)) q → All (Refuses o) q
unfolding fill
Refuses-fill o n q h = h

Pairwise-fill :
    (o : Order) (n : ℕ) (q : List (ℕ × Order))
    → Pairwise (λ a b. Worse o.side a.0 b.0) q
    → Pairwise (λ a b. Worse (fill o n).side a.0 b.0) q
unfolding fill
Pairwise-fill o n q h = h

quantity-at_rest :
    (incoming : Order) (q : List (ℕ × Order)) (locs : Locations)
    → (incoming.quantity == 0) ≡ true
    → (execute incoming q locs).incoming.quantity ≡ incoming.quantity
quantity-at_rest incoming q locs h = rw (at_rest incoming q locs h) refl

pub execute-Refuses :
    (incoming : Order) (q : List (ℕ × Order)) (locs : Locations)
    → IsWord incoming
    → All (λ e. IsWord e.1) q
    → Pairwise (λ a b. Worse incoming.side a.0 b.0) q
    → ((execute incoming q locs).incoming.quantity ≡ 0)
      ⊎ All (Refuses incoming) (execute incoming q locs).queue
unfolding execute
execute-Refuses incoming [] locs w ws s = inr tt
execute-Refuses incoming ((p, o) ∷ q) locs w ws s =
    let n = min incoming.quantity o.quantity in
    let ih =
      execute-Refuses (fill incoming n) q (release (fill o n) locs)
        (fill-IsWord incoming n w (omega arith)) ws.1 (Pairwise-fill incoming n q s.1) in
    let left = quantity-fill incoming n w (omega arith) in
    let left' = quantity-fill o n ws.0 (omega arith) in
    elim (Bool-cases (ltb 0 incoming.quantity && crosses incoming.side incoming.price p)) [
      | inr stop ↦ rw stop (elim (Bool-cases (incoming.quantity == 0)) [
        | inl zero ↦ inl (ground arith)
        | inr more ↦
            let c : crosses incoming.side incoming.price p ≡ false = ground arith in
            inr (c, All-map _ _ q (λ e h. refuses-Worse incoming.side incoming.price p e.0 h c) s.0)
      ])
      | inl go ↦ rw go (elim ih [
        | inl zero ↦ inl zero
        | inr none_cross ↦ elim (Bool-cases ((fill o n).quantity == 0)) [
          | inl filled ↦ rw filled (inr (Refuses-fill incoming n _ none_cross))
          | inr more ↦
              let nz : (fill o n).quantity ≢ 0 = ground arith in
              inl (quantity-at_rest (fill incoming n) q _ (ground arith) ∙ omega arith)
        ]
      ])
    ]
