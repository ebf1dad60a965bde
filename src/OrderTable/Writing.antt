-- ===== src/OrderTable/Writing.antt =====
-- What a write of one slot changes and keeps.
use mathlib.Core.Path.{subst}
use lob_project.Base.{ℕ, ◌<◌, ◌≡◌, ◌≢◌, refl, sym, ap, ◌∙◌, length, ◌==◌, ==_refl, false, arith}
use lob_project.OrderTable.{HtSlot, OrderTable, slot, write_slot, home}
use lob_project.OrderTable.Cyclic.{steps}
use lob_project.OrderTable.Masking.{IsShaped}
use lob_project.OrderTable.Slots.{slot-write_slot, length-write_slot}
use lob_project.OrderTable.Valid.{Busy, Before}

module _ (t : OrderTable) (i : ℕ) (s : HtSlot) (h : i < length t.slots) where
  abbrev pub written : OrderTable
  written = write_slot t i s

  pub slot_same : slot written i ≡ s
  slot_same = rw (slot-write_slot t i i s h, ==_refl i) refl

  pub slot_other : (j : ℕ) → j ≢ i → slot written j ≡ slot t j
  slot_other j ne =
      let apart : (i == j) ≡ false = ground arith in rw (slot-write_slot t i j s h, apart) refl

  pub home-write_slot : (id : ℕ) → home written id ≡ home t id
  unfolding home write_slot
  home-write_slot id = refl

  pub write_slot-IsShaped : IsShaped t → IsShaped written
  unfolding write_slot
  write_slot-IsShaped shaped = record {
    log = shaped.log;
    small = shaped.small;
    size = length-write_slot t i s ∙ shaped.size;
    shift = shaped.shift;
  }

  pub size_kept : (j : ℕ) → j < length written.slots → j < length t.slots
  size_kept j lt = subst (λ n. j < n) (length-write_slot t i s) lt

  -- What lies before a slot is told by the key in it.
  pub Before-write_slot :
      (x j : ℕ) (r : HtSlot)
      → slot written j ≡ r
      → Before written x j
      → steps (length t.slots) (home t r.key) x < steps (length t.slots) (home t r.key) j
  Before-write_slot x j r e before =
      rw (e, length-write_slot t i s, home-write_slot r.key) at before

  pub Busy-same : 0 < s.pad → Busy written i
  Busy-same lt = rw slot_same lt

  pub Busy-other : (j : ℕ) → j ≢ i → Busy t j → Busy written j
  Busy-other j ne busy = rw (slot_other j ne) busy

  pub other-Busy : (j : ℕ) → j ≢ i → Busy written j → Busy t j
  other-Busy j ne busy = rw (slot_other j ne) at busy

  pub key_same : (j : ℕ) → j ≡ i → (slot written j).key ≡ s.key
  key_same j e =
      subst (λ k. (slot written k).key ≡ s.key) (sym e) (ap (λ (r : HtSlot). r.key) slot_same)

  pub val_same : (j : ℕ) → j ≡ i → (slot written j).val ≡ s.val
  val_same j e =
      subst (λ k. (slot written k).val ≡ s.val) (sym e) (ap (λ (r : HtSlot). r.val) slot_same)

  pub key_other : (j : ℕ) → j ≢ i → (slot written j).key ≡ (slot t j).key
  key_other j ne = ap (λ (r : HtSlot). r.key) (slot_other j ne)

  pub val_other : (j : ℕ) → j ≢ i → (slot written j).val ≡ (slot t j).val
  val_other j ne = ap (λ (r : HtSlot). r.val) (slot_other j ne)

  pub size_back : (j : ℕ) → j < length t.slots → j < length written.slots
  size_back j lt = subst (λ n. j < n) (sym (length-write_slot t i s)) lt
