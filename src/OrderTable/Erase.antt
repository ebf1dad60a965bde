-- ===== src/OrderTable/Erase.antt =====
-- The deletion ends, and takes out exactly the id.
use mathlib.Core.Path.{subst}
use lob_project.Base.{
  ℕ, zero, suc, ◌+◌, ◌<◌, ◌≡◌, ◌≢◌, ◌↔◌, refl, sym, ◌∙◌, ap, length, some, ◌==◌, leb, Bool-cases,
  inl, inr, arith,
}
use lob_project.OrderTable.{OrderTable, slot, write_slot, home, shift_back, erase_from, ht_erase}
use lob_project.OrderTable.Cyclic.{
  step, steps, step-lt, steps-lt, step_nearer, steps_pos, steps_last,
}
use lob_project.OrderTable.Masking.{next_slot-step, probed-steps, home-lt}
use lob_project.OrderTable.Slots.{used, free_slot, length-write_slot}
use lob_project.OrderTable.Valid.{Busy, IsTable, Maps}
use lob_project.OrderTable.Writing.{slot_other, size_back}
use lob_project.OrderTable.Find.{Passed, Passed-home, Passed-step, absent}
use lob_project.OrderTable.Hole.{Holed, Fixed, Shifted, filled, filled-Shifted}
use lob_project.OrderTable.Moving.{moved-Holed, Shifted-moved, Fixed-step, Fixed-start}

Busy-apart : (t : OrderTable) (i e : ℕ) → Busy t i → (slot t e).pad ≡ 0 → i ≢ e
Busy-apart t i e busy empty same = let at : Busy t e = subst (Busy t) same busy in omega arith

-- The search does not come round to the hole: it would pass the empty slot.
not_around :
    (t : OrderTable) (i j e : ℕ)
    → Holed t i
    → j < length t.slots
    → Fixed t i j
    → e < length t.slots
    → (slot t e).pad ≡ 0
    → step (length t.slots) j ≢ i
not_around t i j e holed j_n fixed e_n empty around =
    let n = length t.slots in
    let apart = Busy-apart t i e holed.hole_busy empty in
    let at =
      fixed e e_n (steps_pos n i e holed.hole_n e_n apart)
        (steps_last n i j e holed.hole_n j_n e_n around) in
    let busy = at.0 in omega arith

-- The hole moves towards the empty slot `e` and is closed at the latest before it.
shift_back-Shifted :
    (fuel : ℕ) (t : OrderTable) (i j e : ℕ)
    → Holed t i
    → j < length t.slots
    → Busy t j
    → Fixed t i j
    → e < length t.slots
    → (slot t e).pad ≡ 0
    → steps (length t.slots) j e < fuel
    → (t' : OrderTable) × (shift_back fuel t i j ≡ some t') × Shifted t i t'
unfolding shift_back
shift_back-Shifted zero t i j e holed j_n busy_j fixed e_n empty near = absurd (omega arith)
shift_back-Shifted (suc fuel) t i j e holed j_n busy_j fixed e_n empty near =
    let n = length t.slots in
    let k = step n j in
    let k_n = step-lt n j j_n in
    let h_n = home-lt t holed.shaped (slot t k).key in
    let closer = step_nearer n j e j_n e_n (Busy-apart t j e busy_j empty) in
    rw
      (
        next_slot-step t holed.shaped j j_n,
        probed-steps t holed.shaped i k holed.hole_n k_n,
        probed-steps t holed.shaped (home t (slot t k).key) k h_n k_n,
      )
      (elim (Bool-cases ((slot t k).pad == 0)) [
        | inl free ↦ rw free (
          filled t i j holed j_n fixed (ground arith),
          refl,
          filled-Shifted t i j holed j_n fixed (ground arith),
        )
        | inr taken ↦
            let there : Busy t k = ground arith in
            let apart = not_around t i j e holed j_n fixed e_n empty in
            rw taken (elim (Bool-cases (leb (steps n i k) (steps n (home t (slot t k).key) k))) [
              | inl fits ↦
                  let near_k : steps n k e < fuel = omega arith in
                  let (t', ends, s) =
                    shift_back-Shifted fuel (write_slot t i (slot t k)) k k e
                      (moved-Holed t i k holed k_n there apart (ground arith))
                      (size_back t i (slot t k) holed.hole_n k k_n)
                      (moved-Holed t i k holed k_n there apart (ground arith)).hole_busy
                      (Fixed-start (write_slot t i (slot t k)) k)
                      (size_back t i (slot t k) holed.hole_n e e_n)
                      (rw
                        (slot_other t i (slot t k) holed.hole_n e
                          (λ same. Busy-apart t i e holed.hole_busy empty (sym same)))
                        empty)
                      (rw (length-write_slot t i (slot t k)) near_k) in
                  rw fits (t', ends, Shifted-moved t i k holed k_n there apart (ground arith) t' s)
              | inr stays ↦ rw stays (
                  shift_back-Shifted fuel t i k e holed k_n there
                    (Fixed-step t i j holed.hole_n j_n apart there (ground arith) fixed) e_n empty
                    (omega arith))
            ])
      ])

-- The table after the deletion of an id.
pub record Erased (t : OrderTable) (id : ℕ) (t' : OrderTable) : Type 0 where
  pub valid : IsTable t'
  pub maps : (q w : ℕ) → Maps t' q w ↔ ((q ≢ id) × Maps t q w)
  pub count : (val : ℕ) → Maps t id val → used t'.slots + 1 ≡ used t.slots
  pub size : length t'.slots ≡ length t.slots

module _ (t : OrderTable) (table : IsTable t) (id : ℕ) where
  table-Holed : (i : ℕ) → i < length t.slots → Busy t i → Holed t i
  table-Holed i i_n busy = record {
    shaped = table.shaped;
    hole_n = i_n;
    hole_busy = busy;
    path = λ j x ne. table.path j x;
    distinct = λ j l jn ln. table.distinct j l;
    room = table.room;
  }

  Erased-Shifted :
      (i : ℕ) (t' : OrderTable)
      → i < length t.slots
      → Busy t i
      → (slot t i).key ≡ id
      → Shifted t i t'
      → Erased t id t'
  Erased-Shifted i t' i_n busy at s = record {
    valid = s.valid;
    maps = λ q w. (
      λ m.
          let (j, j_n, ne, b, ke, ve) = (s.maps q w).0 m in
          (
            (λ same. ne (table.distinct j i j_n i_n b busy (ke ∙ (same ∙ sym at)))),
            (j, j_n, b, ke, ve),
          ),
      λ h.
          let (ne, m) = h in
          let (j, j_n, b, ke, ve) = m in
          (s.maps q w).1
            (j, j_n, (λ same. ne (sym ke ∙ (ap (λ x. (slot t x).key) same ∙ at))), b, ke, ve),
    );
    count = λ val m. s.count;
    size = s.size;
  }

  absent-Erased : ((l : ℕ) → l < length t.slots → Busy t l → (slot t l).key ≢ id) → Erased t id t
  absent-Erased none_at = record {
    valid = table;
    maps = λ q w. (λ m. ((λ same. none_at m.0 m.1 m.2 (m.3 ∙ same)), m), λ h. h.1);
    count = λ val m. absurd (none_at m.0 m.1 m.2 m.3);
    size = refl;
  }

  erase_from-Erased :
      (fuel i e : ℕ)
      → i < length t.slots
      → e < length t.slots
      → (slot t e).pad ≡ 0
      → steps (length t.slots) i e < fuel
      → Passed t table id i
      → (t' : OrderTable) × (erase_from fuel t id i ≡ some t') × Erased t id t'
  unfolding erase_from
  erase_from-Erased zero i e i_n e_n empty near passed = absurd (omega arith)
  erase_from-Erased (suc fuel) i e i_n e_n empty near passed =
      elim (Bool-cases ((slot t i).pad == 0)) [
        | inl free ↦
            rw free (t, refl, absent-Erased (absent t table id i i_n passed (ground arith)))
        | inr taken ↦
            let there : Busy t i = ground arith in
            rw taken (elim (Bool-cases ((slot t i).key == id)) [
              | inl same ↦
                  let (t', ends, s) =
                    shift_back-Shifted (length t.slots) t i i e (table-Holed i i_n there) i_n there
                      (Fixed-start t i) e_n empty (steps-lt (length t.slots) i e i_n e_n) in
                  rw same (t', ends, Erased-Shifted i t' i_n there (ground arith) s)
              | inr other ↦
                  rw (other, next_slot-step t table.shaped i i_n)
                    (erase_from-Erased fuel (step (length t.slots) i) e
                      (step-lt (length t.slots) i i_n) e_n empty
                      (omega (
                        arith,
                        step_nearer (length t.slots) i e i_n e_n (Busy-apart t i e there empty),
                      ))
                      (Passed-step t table id i i_n there (ground arith) passed))
            ])
      ]

  -- In a well-formed table the deletion of an id ends, and the table that it leaves is well formed,
  -- maps exactly the other ids as before, and has one slot less in use if the id was mapped.
  pub ht_erase-Erased : (t' : OrderTable) × (ht_erase t id ≡ some t') × Erased t id t'
  unfolding ht_erase
  ht_erase-Erased =
      let (e, e_n, empty) = free_slot t table.room in
      let h = home-lt t table.shaped id in
      erase_from-Erased (length t.slots) (home t id) e h e_n empty
        (steps-lt (length t.slots) (home t id) e h e_n) (Passed-home t table id)
