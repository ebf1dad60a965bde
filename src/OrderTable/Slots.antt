-- ===== src/OrderTable/Slots.antt =====
-- Reads after writes of slots, and the number of slots in use.
use lob_project.Base.{
  ℕ, zero, suc, ◌+◌, ◌<◌, ◌≡◌, refl, List, [], ◌∷◌, length, get_or, set, get_or-set, length-set,
  ◌==◌, if◌then◌else◌, Bool-cases, inl, inr, arith,
}
use lob_project.OrderTable.{HtSlot, OrderTable, empty_slot, slot, write_slot}

pub slot-write_slot :
    (t : OrderTable) (i j : ℕ) (s : HtSlot)
    → i < length t.slots
    → slot (write_slot t i s) j ≡ (if i == j then s else slot t j)
unfolding slot write_slot
slot-write_slot t i j s h = get_or-set t.slots i j s empty_slot h

pub length-write_slot :
    (t : OrderTable) (i : ℕ) (s : HtSlot) → length (write_slot t i s).slots ≡ length t.slots
unfolding write_slot
length-write_slot t i s = length-set t.slots i s

abbrev pub in_use : HtSlot → ℕ
in_use s = if s.pad == 0 then 0 else 1

abbrev pub used : List HtSlot → ℕ
used [] = 0
used (s ∷ slots) = in_use s + used slots

used-set :
    (slots : List HtSlot) (i : ℕ) (s : HtSlot)
    → i < length slots
    → used (set slots i s) + in_use (get_or slots i empty_slot) ≡ used slots + in_use s
used-set [] i s h = absurd (omega arith)
used-set (r ∷ slots) zero s h = omega arith
used-set (r ∷ slots) (suc i) s h = omega (arith, used-set slots i s (omega arith))

pub used-write_slot :
    (t : OrderTable) (i : ℕ) (s : HtSlot)
    → i < length t.slots
    → used (write_slot t i s).slots + in_use (slot t i) ≡ used t.slots + in_use s
unfolding slot write_slot
used-write_slot t i s h = used-set t.slots i s h

-- A table that is not full has an empty slot.
free_in :
    (slots : List HtSlot)
    → used slots < length slots
    → (e : ℕ) × (e < length slots) × ((get_or slots e empty_slot).pad ≡ 0)
free_in [] h = absurd (omega arith)
free_in (s ∷ slots) h = elim (Bool-cases (s.pad == 0)) [
  | inl free ↦ (0, omega arith, ground arith)
  | inr busy ↦
      let one : in_use s ≡ 1 = rw busy refl in
      let (e, lt, free) = free_in slots (omega arith) in (suc e, omega arith, free)
]

pub free_slot :
    (t : OrderTable)
    → used t.slots < length t.slots
    → (e : ℕ) × (e < length t.slots) × ((slot t e).pad ≡ 0)
unfolding slot
free_slot t h = free_in t.slots h
