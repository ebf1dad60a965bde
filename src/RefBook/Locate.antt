-- ===== src/RefBook/Locate.antt =====
-- `order_id_to_location_`: matching forgets the locations of the orders that it removes, and of no
-- others, and what a location says of the book finds the order.
use mathlib.Core.Path.{subst}
use mathlib.Core.Option.{none-ne-some}
use mathlib.Core.List.{reverse-cons}
use lob_project.Base.{
  ℕ, true, false, ◌&&◌, List, [], ◌∷◌, ◌++◌, ◌≡◌, refl, ap, ◌∙◌, sym, min, ltb, ◌==◌, ==_iff,
  reverse, if◌then◌else◌, arith, Bool-cases, some_inj, inl, inr, ◌⊎◌, is_empty, some,
}
use lob_project.Types.{Order}
use lob_project.SortedMap.{find, update, erase}
use lob_project.SortedMap.Laws.{Ascending, find_below}
use lob_project.RefBook.{
  Levels, Locations, OrderLocation, fill, release, crosses, match_level, match_levels, find_order,
  erase_order, set_quantity,
}
use lob_project.RefBook.Valid.{HasId, HasOrder}

release_shrinks :
    (o : Order) (locs : Locations) (id : ℕ) (l : OrderLocation)
    → release o locs id ≡ some l
    → locs id ≡ some l
unfolding release
release_shrinks o locs id l h = elim (Bool-cases (o.quantity == 0)) [
  | inl filled ↦ elim (Bool-cases (o.id == id)) [
    | inl same ↦ absurd (none-ne-some l (rw (filled, same) at h))
    | inr other ↦ rw (filled, other) at h
  ]
  | inr left ↦ rw left at h
]

level_shrinks :
    (p : ℕ) (incoming : Order) (os : List Order) (locs : Locations) (id : ℕ) (l : OrderLocation)
    → (match_level p incoming os locs).locations id ≡ some l
    → locs id ≡ some l
unfolding match_level
level_shrinks p incoming [] locs id l h = h
level_shrinks p incoming (o ∷ os) locs id l h = elim (Bool-cases (incoming.quantity == 0)) [
  | inl done ↦ rw done at h
  | inr more ↦
      let n = min incoming.quantity o.quantity in
      release_shrinks (fill o n) locs id l
        (level_shrinks p (fill incoming n) os (release (fill o n) locs) id l (rw more at h))
]

-- Matching adds no location and changes none.
pub match_levels_shrinks :
    (incoming : Order) (levels : Levels) (locs : Locations) (id : ℕ) (l : OrderLocation)
    → (match_levels incoming levels locs).locations id ≡ some l
    → locs id ≡ some l
unfolding match_levels
match_levels_shrinks incoming [] locs id l h = h
match_levels_shrinks incoming ((p, os) ∷ levels) locs id l h =
    elim (Bool-cases (ltb 0 incoming.quantity && crosses incoming.side incoming.price p)) [
      | inr stop ↦ rw stop at h
      | inl go ↦
          let here = match_level p incoming os locs in
          level_shrinks p incoming os locs id l
            (match_levels_shrinks here.incoming levels here.locations id l (rw go at h))
    ]

release_forgets :
    (o : Order) (locs : Locations) (l : OrderLocation)
    → (o.quantity == 0) ≡ true
    → ¬ (release o locs o.id ≡ some l)
unfolding release
release_forgets o locs l filled h =
    let same : (o.id == o.id) ≡ true = ground arith in none-ne-some l (rw (filled, same) at h)

id-fill : (o : Order) (n : ℕ) → (fill o n).id ≡ o.id
unfolding fill
id-fill o n = refl

level-HasId :
    (p : ℕ) (incoming : Order) (os : List Order) (locs : Locations) (id : ℕ) (l : OrderLocation)
    → (match_level p incoming os locs).locations id ≡ some l
    → HasId id os
    → HasId id (match_level p incoming os locs).resting
unfolding match_level
level-HasId p incoming [] locs id l h has = has
level-HasId p incoming (o ∷ os) locs id l h has = elim (Bool-cases (incoming.quantity == 0)) [
  | inl done ↦ rw done has
  | inr more ↦
      let n = min incoming.quantity o.quantity in
      let later = rw more at h in
      let ih = level-HasId p (fill incoming n) os (release (fill o n) locs) id l later in
      let kept = level_shrinks p (fill incoming n) os (release (fill o n) locs) id l later in
      rw more (elim (Bool-cases ((fill o n).quantity == 0)) [
        | inr left ↦ rw left (elim has [ inl e ↦ inl (id-fill o n ∙ e) | inr t ↦ inr (ih t) ])
        | inl filled ↦ rw filled (elim has [
          | inl e ↦ absurd (
              release_forgets (fill o n) locs l filled
                (ap (release (fill o n) locs) (id-fill o n ∙ e) ∙ kept))
          | inr t ↦ ih t
        ])
      ])
]

-- An order that still has a location after matching still rests at its price.
pub match_levels-HasOrder :
    (incoming : Order) (levels : Levels) (locs : Locations) (price id : ℕ) (l : OrderLocation)
    → (match_levels incoming levels locs).locations id ≡ some l
    → HasOrder price id levels
    → HasOrder price id (match_levels incoming levels locs).levels
unfolding match_levels
match_levels-HasOrder incoming [] locs price id l h has = has
match_levels-HasOrder incoming ((p, os) ∷ levels) locs price id l h has =
    elim (Bool-cases (ltb 0 incoming.quantity && crosses incoming.side incoming.price p)) [
      | inr stop ↦ rw stop has
      | inl go ↦
          let here = match_level p incoming os locs in
          let later = rw go at h in
          let ih = match_levels-HasOrder here.incoming levels here.locations price id l later in
          let kept = match_levels_shrinks here.incoming levels here.locations id l later in
          rw go (elim has [
            | inl (e, own) ↦
                still p price id here.resting _ e (level-HasId p incoming os locs id l kept own)
            | inr t ↦ drop_level p price id here.resting _ (ih t)
          ])
    ]
  where
    still :
        (p price id : ℕ) (os : List Order) (rest : Levels)
        → p ≡ price
        → HasId id os
        → HasOrder price id (if is_empty os then rest else (p, os) ∷ rest)
    still p price id [] rest e has = absurd has
    still p price id (o ∷ os) rest e has = inl (e, has)

    drop_level :
        (p price id : ℕ) (os : List Order) (rest : Levels)
        → HasOrder price id rest
        → HasOrder price id (if is_empty os then rest else (p, os) ∷ rest)
    drop_level p price id [] rest has = has
    drop_level p price id (o ∷ os) rest has = inr has

HasOrder-append :
    (price id : ℕ) (m n : Levels)
    → HasOrder price id m ⊎ HasOrder price id n
    → HasOrder price id (m ++ n)
HasOrder-append price id [] n (inl h) = absurd h
HasOrder-append price id [] n (inr h) = h
HasOrder-append price id ((p, os) ∷ m) n (inl (inl h)) = inl h
HasOrder-append price id ((p, os) ∷ m) n (inl (inr h)) = inr (HasOrder-append price id m n (inl h))
HasOrder-append price id ((p, os) ∷ m) n (inr h) = inr (HasOrder-append price id m n (inr h))

pub HasOrder-reverse :
    (price id : ℕ) (m : Levels) → HasOrder price id m → HasOrder price id (reverse m)
HasOrder-reverse price id [] h = h
HasOrder-reverse price id ((p, os) ∷ m) h = rw (reverse-cons (p, os) m) (
    HasOrder-append price id (reverse m) ((p, os) ∷ [])
      (elim h [ inl own ↦ inr (inl own) | inr t ↦ inl (HasOrder-reverse price id m t) ]))

pub HasId-append :
    (id : ℕ) (os rest : List Order) → HasId id os ⊎ HasId id rest → HasId id (os ++ rest)
HasId-append id [] rest (inl h) = absurd h
HasId-append id [] rest (inr h) = h
HasId-append id (o ∷ os) rest (inl (inl h)) = inl h
HasId-append id (o ∷ os) rest (inl (inr h)) = inr (HasId-append id os rest (inl h))
HasId-append id (o ∷ os) rest (inr h) = inr (HasId-append id os rest (inr h))

-- A write at a level keeps the orders of the other levels, and those that it keeps in its own.
pub HasOrder-update :
    (price id k : ℕ) (f : List Order → List Order) (m : Levels)
    → (k ≡ price → (os : List Order) → HasId id os → HasId id (f os))
    → HasOrder price id m
    → HasOrder price id (update k [] f m)
unfolding update
HasOrder-update price id k f [] keep h = absurd h
HasOrder-update price id k f ((j, os) ∷ m) keep h = elim (Bool-cases (j == k)) [
  | inl same ↦ rw same (elim h [
    | inl (e, own) ↦ let e' : k ≡ price = sym ((==_iff j k).0 same) ∙ e in inl (e', keep e' os own)
    | inr t ↦ inr t
  ])
  | inr other ↦ rw other (elim (Bool-cases (ltb k j)) [
    | inl below ↦ rw below (inr h)
    | inr above ↦
        rw above
          (elim h [ inl own ↦ inl own | inr t ↦ inr (HasOrder-update price id k f m keep t) ])
  ])
]

pub HasOrder-update_new :
    (id k : ℕ) (f : List Order → List Order) (m : Levels)
    → ((os : List Order) → HasId id (f os))
    → HasOrder k id (update k [] f m)
unfolding update
HasOrder-update_new id k f [] new = inl (refl, new [])
HasOrder-update_new id k f ((j, os) ∷ m) new = elim (Bool-cases (j == k)) [
  | inl same ↦ rw same (inl (refl, new os))
  | inr other ↦ rw other (elim (Bool-cases (ltb k j)) [
    | inl below ↦ rw below (inl (refl, new []))
    | inr above ↦ rw above (inr (HasOrder-update_new id k f m new))
  ])
]

-- The order that a location promises is found by the code.
pub HasOrder-find :
    (price id : ℕ) (m : Levels)
    → Ascending m
    → HasOrder price id m
    → (os : List Order) × (find price m ≡ some os) × HasId id os
unfolding find
HasOrder-find price id [] a h = absurd h
HasOrder-find price id ((j, os) ∷ m) a (inl (e, own)) =
    let same : (j == price) ≡ true = ground arith in (os, rw same refl, own)
HasOrder-find price id ((j, os) ∷ m) a (inr t) =
    let (found, e, own) = HasOrder-find price id m a.1 t in
    elim (Bool-cases (j == price)) [
      | inr other ↦ (found, rw other e, own)
      | inl same ↦
          let none_there = find_below j m a.0 in
          absurd
            (none-ne-some found (sym none_there ∙ ap (λ k. find k m) ((==_iff j price).0 same) ∙ e))
    ]

pub HasId-find_order :
    (id : ℕ) (os : List Order) → HasId id os → (o : Order) × (find_order id os ≡ some o)
unfolding find_order
HasId-find_order id [] h = absurd h
HasId-find_order id (o ∷ os) h = elim (Bool-cases (o.id == id)) [
  | inl same ↦ (o, rw same refl)
  | inr other ↦ elim h [
    | inl e ↦ absurd (ground arith)
    | inr t ↦ let (found, e) = HasId-find_order id os t in (found, rw other e)
  ]
]

pub HasId-erase_order :
    (id id' : ℕ) (os : List Order)
    → (id == id') ≡ false
    → HasId id' os
    → HasId id' (erase_order id os)
unfolding erase_order
HasId-erase_order id id' [] ne h = h
HasId-erase_order id id' (o ∷ os) ne h = elim (Bool-cases (o.id == id)) [
  | inl same ↦ rw same (elim h [ inl e ↦ absurd (ground arith) | inr t ↦ t ])
  | inr other ↦ rw other (elim h [ inl e ↦ inl e | inr t ↦ inr (HasId-erase_order id id' os ne t) ])
]

pub HasId-set_quantity :
    (id id' q : ℕ) (os : List Order) → HasId id' os → HasId id' (set_quantity id q os)
unfolding set_quantity
HasId-set_quantity id id' q [] h = h
HasId-set_quantity id id' q (o ∷ os) h = elim (Bool-cases (o.id == id)) [
  | inl same ↦ rw same (elim h [ inl e ↦ inl e | inr t ↦ inr t ])
  | inr other ↦ rw other (elim h [ inl e ↦ inl e | inr t ↦ inr (HasId-set_quantity id id' q os t) ])
]

-- Erasing a level keeps the orders that it does not hold.
pub HasOrder-erase :
    (price id k : ℕ) (os : List Order) (m : Levels)
    → find k m ≡ some os
    → ¬ (HasId id os)
    → HasOrder price id m
    → HasOrder price id (erase k m)
unfolding find erase
HasOrder-erase price id k os [] e no_id h = absurd h
HasOrder-erase price id k os ((j, rs) ∷ m) e no_id h = elim (Bool-cases (j == k)) [
  | inl same ↦ rw same (elim h [
    | inl (_, own) ↦ absurd (no_id (subst (HasId id) (some_inj (rw same at e)) own))
    | inr t ↦ t
  ])
  | inr other ↦ rw other (elim h [
    | inl own ↦ inl own
    | inr t ↦ inr (HasOrder-erase price id k os m (rw other at e) no_id t)
  ])
]
