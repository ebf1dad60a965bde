-- ===== src/RefBook/Places.antt =====
-- The place of an order in its level: what `cancel` and `modify` do to a side, told by what each
-- price holds before and after.
use lob_project.Base.{
  ℕ, false, List, [], ◌∷◌, ◌++◌, ◌≡◌, refl, ap, ◌∙◌, sym, arith, inl, inr, some, none, is_empty,
  Bool-cases, some_inj, ◌==◌, if◌then◌else◌,
}
use lob_project.Types.{Order}
use lob_project.SortedMap.{find}
use lob_project.RefBook.{Levels, find_order, erase_order, set_quantity}
use lob_project.RefBook.Valid.{HasId}

-- The first order with the id, and the orders before and behind it.
pub record Place (id : ℕ) (os : List Order) (o : Order) : Type 0 where
  pub pre : List Order
  pub post : List Order
  pub whole : os ≡ pre ++ o ∷ post
  pub own : o.id ≡ id
  pub earliest : ¬ HasId id pre
  pub erased : erase_order id os ≡ pre ++ post
  pub changed : (q : ℕ) → set_quantity id q os ≡ pre ++ record o { quantity = q } ∷ post

pub find_order-Place :
    (id : ℕ) (os : List Order) (o : Order) → find_order id os ≡ some o → Place id os o
unfolding find_order erase_order set_quantity
find_order-Place id [] o h = cc
find_order-Place id (r ∷ os) o h = elim (Bool-cases (r.id == id)) [
  | inl same ↦
      let e : r ≡ o = some_inj (rw same at h) in
      record {
        pre = [];
        post = os;
        whole = ap (λ x. x ∷ os) e;
        own = ap (λ (x : Order). x.id) (sym e) ∙ (ground arith);
        earliest = λ has. has;
        erased = rw same refl;
        changed = λ q. rw same (ap (λ (x : Order). record x { quantity = q } ∷ os) e);
      }
  | inr other ↦
      let p = find_order-Place id os o (rw other at h) in
      record {
        pre = r ∷ p.pre;
        post = p.post;
        whole = ap (λ xs. r ∷ xs) p.whole;
        own = p.own;
        earliest = λ has. elim has [ inl e ↦ ground arith | inr t ↦ p.earliest t ];
        erased = rw other (ap (λ xs. r ∷ xs) p.erased);
        changed = λ q. rw other (ap (λ xs. r ∷ xs) (p.changed q));
      }
]

-- The first order of price `p` with the id, `o`, is in `before` and has gone from `after`; the
-- others at the price are there in the same order, the level goes with its last order, and every
-- other price holds what it did.
pub record TakenFrom (p id : ℕ) (o : Order) (before after : Levels) : Type 0 where
  pub pre : List Order
  pub post : List Order
  pub level : find p before ≡ some (pre ++ o ∷ post)
  pub own : o.id ≡ id
  pub earliest : ¬ HasId id pre
  pub left : find p after ≡ (if is_empty (pre ++ post) then none else some (pre ++ post))
  pub others : (p' : ℕ) → (p == p') ≡ false → find p' after ≡ find p' before

-- The first order of price `p` with the id, `o`, has the quantity `q` in `after` and is as it was
-- in all else; it stands in its place between the others, and every other price holds what it did.
pub record ChangedIn (p id q : ℕ) (o : Order) (before after : Levels) : Type 0 where
  pub pre : List Order
  pub post : List Order
  pub level : find p before ≡ some (pre ++ o ∷ post)
  pub own : o.id ≡ id
  pub earliest : ¬ HasId id pre
  pub left : find p after ≡ some (pre ++ record o { quantity = q } ∷ post)
  pub others : (p' : ℕ) → (p == p') ≡ false → find p' after ≡ find p' before
