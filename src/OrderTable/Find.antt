-- ===== src/OrderTable/Find.antt =====
-- The search ends, and finds exactly what the table maps.
use lob_project.Base.{
  ℕ, zero, suc, ◌<◌, ◌≡◌, ◌≢◌, refl, sym, length, ltb, ◌==◌, Bool-cases, inl, inr, arith,
}
use mathlib.Core.Path.{subst}
use lob_project.OrderTable.{OrderTable, slot, home, find_from, ht_find}
use lob_project.OrderTable.Cyclic.{
  step, steps, step-lt, steps-lt, steps_self, steps_inj, steps-step, step_nearer,
}
use lob_project.OrderTable.Masking.{next_slot-step, home-lt}
use lob_project.OrderTable.Slots.{free_slot}
use lob_project.OrderTable.Valid.{Busy, IsTable, Answers}

module _ (t : OrderTable) (table : IsTable t) (id : ℕ) where
  -- The slots from the home of the id up to `i` are in use by other keys.
  abbrev pub Passed : ℕ → Type 0
  Passed i =
      (x : ℕ)
      → x < length t.slots
      → steps (length t.slots) (home t id) x < steps (length t.slots) (home t id) i
      → Busy t x × ((slot t x).key ≢ id)

  home_n : home t id < length t.slots
  home_n = home-lt t table.shaped id

  pub Passed-home : Passed (home t id)
  Passed-home x h lt = absurd (omega (arith, steps_self (length t.slots) (home t id)))

  pub Passed-step :
      (i : ℕ)
      → i < length t.slots
      → Busy t i
      → (slot t i).key ≢ id
      → Passed i
      → Passed (step (length t.slots) i)
  Passed-step i h busy other passed x x_n lt =
      elim (Bool-cases (step (length t.slots) i == home t id)) [
        | inl around ↦
            let e : step (length t.slots) i ≡ home t id = ground arith in
            let none_left : steps (length t.slots) (home t id) (step (length t.slots) i) ≡ 0 =
              rw e (steps_self (length t.slots) (home t id)) in
            absurd (omega arith)
        | inr ahead ↦
            let apart : step (length t.slots) i ≢ home t id = ground arith in
            let far = steps-step (length t.slots) (home t id) i home_n h apart in
            elim (Bool-cases (x == i)) [
              | inl same ↦ let e : x ≡ i = ground arith in rw e (busy, other)
              | inr different ↦ passed x x_n (
                  let ne : x ≢ i = ground arith in
                  let inj = steps_inj (length t.slots) (home t id) x i home_n x_n h in
                  ground (arith, inj))
            ]
      ]

  -- At an empty slot that the search comes to, the id is in no slot.
  pub absent :
      (i : ℕ)
      → i < length t.slots
      → Passed i
      → (slot t i).pad ≡ 0
      → (l : ℕ) → l < length t.slots
      → Busy t l
      → (slot t l).key ≢ id
  absent i h passed empty l l_n busy e =
      let inj = steps_inj (length t.slots) (home t id) l i home_n l_n h in
      let n = length t.slots in
      let before : steps n (home t id) i < steps n (home t id) l → Busy t i = λ lt.
        table.path l i l_n h busy
          (subst (λ k. steps n (home t k) i < steps n (home t k) l) (sym e) lt) in
      elim (Bool-cases (ltb (steps n (home t id) l) (steps n (home t id) i))) [
        | inl early ↦ (passed l l_n (ground arith)).1 e
        | inr late ↦ elim (Bool-cases (steps n (home t id) l == steps n (home t id) i)) [
          | inl here ↦ let at : Busy t i = subst (Busy t) (inj (ground arith)) busy in omega arith
          | inr after ↦ let at = before (ground arith) in omega arith
        ]
      ]

  find_from-Answers :
      (fuel i e : ℕ)
      → i < length t.slots
      → e < length t.slots
      → (slot t e).pad ≡ 0
      → steps (length t.slots) i e < fuel
      → Passed i
      → Answers t id (find_from fuel t id i)
  unfolding find_from
  find_from-Answers zero i e i_n e_n empty near passed = absurd (omega arith)
  find_from-Answers (suc fuel) i e i_n e_n empty near passed =
      elim (Bool-cases ((slot t i).pad == 0)) [
        | inl free ↦ rw free (λ val m. absent i i_n passed (ground arith) m.0 m.1 m.2 m.3)
        | inr busy ↦ rw busy (elim (Bool-cases ((slot t i).key == id)) [
          | inl same ↦ rw same (i, i_n, ground arith, ground arith, refl)
          | inr other ↦
              rw (other, next_slot-step t table.shaped i i_n)
                (find_from-Answers fuel (step (length t.slots) i) e (step-lt (length t.slots) i i_n)
                  e_n empty
                  (let apart : i ≢ e = λ same.
                      let free : (slot t i).pad ≡ 0 =
                        subst (λ k. (slot t k).pad ≡ 0) (sym same) empty in
                      ground arith in
                    omega (arith, step_nearer (length t.slots) i e i_n e_n apart))
                  (Passed-step i i_n (ground arith) (ground arith) passed))
        ])
      ]

-- In a well-formed table the search ends, and it finds an index exactly where the table maps the
-- id to it.
pub ht_find-Answers : (t : OrderTable) (id : ℕ) → IsTable t → Answers t id (ht_find t id)
unfolding ht_find
ht_find-Answers t id table =
    let (e, e_n, empty) = free_slot t table.room in
    find_from-Answers t table id (length t.slots) (home t id) e (home-lt t table.shaped id) e_n
      empty (steps-lt (length t.slots) (home t id) e (home-lt t table.shaped id) e_n)
      (Passed-home t table id)
