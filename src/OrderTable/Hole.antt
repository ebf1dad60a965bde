-- ===== src/OrderTable/Hole.antt =====
-- A table with a hole: a slot whose entry no longer counts. The deletion moves the hole until it
-- may stay empty.
use mathlib.Core.Path.{subst}
use lob_project.Base.{
  ℕ, ◌+◌, ◌<◌, ◌≤◌, ◌≡◌, ◌≢◌, ◌↔◌, sym, ◌∙◌, length, leb, Bool-cases, inl, inr, arith,
}
use lob_project.OrderTable.{HtSlot, OrderTable, slot, write_slot, home}
use lob_project.OrderTable.Cyclic.{
  step, steps, steps-lt, step-lt, steps_inj, steps_through, steps_add, steps-step, steps_pos,
}
use lob_project.OrderTable.Masking.{IsShaped, home-lt}
use lob_project.OrderTable.Slots.{used, in_use, length-write_slot, used-write_slot}
use lob_project.OrderTable.Valid.{Busy, Before, IsTable, Maps}
use lob_project.OrderTable.Writing.{
  slot_same, slot_other, write_slot-IsShaped, size_kept, Before-write_slot, Busy-other, other-Busy,
  key_other, val_other, size_back,
}

pub record Holed (t : OrderTable) (i : ℕ) : Type 0 where
  pub shaped : IsShaped t
  pub hole_n : i < length t.slots
  pub hole_busy : Busy t i
  pub path :
      (j x : ℕ)
      → j ≢ i
      → j < length t.slots
      → x < length t.slots
      → Busy t j
      → Before t x j
      → Busy t x
  pub distinct :
      (j l : ℕ)
      → j ≢ i
      → l ≢ i
      → j < length t.slots
      → l < length t.slots
      → Busy t j
      → Busy t l
      → (slot t j).key ≡ (slot t l).key
      → j ≡ l
  pub room : used t.slots < length t.slots

-- The map without the entry in the hole.
abbrev pub MapsBut : OrderTable → ℕ → ℕ → ℕ → Type 0
MapsBut t i id val =
    (j : ℕ) × (j < length t.slots)
    × (j ≢ i)
    × Busy t j
    × ((slot t j).key ≡ id)
    × ((slot t j).val ≡ val)

-- The entries from the hole up to `j` cannot fill it: their homes are behind it.
abbrev pub Fixed : OrderTable → ℕ → ℕ → Type 0
Fixed t i j =
    (x : ℕ)
    → x < length t.slots
    → 0 < steps (length t.slots) i x
    → steps (length t.slots) i x ≤ steps (length t.slots) i j
    → Busy t x × (steps (length t.slots) (home t (slot t x).key) x < steps (length t.slots) i x)

pub record Shifted (t : OrderTable) (i : ℕ) (t' : OrderTable) : Type 0 where
  pub valid : IsTable t'
  pub maps : (q w : ℕ) → Maps t' q w ↔ MapsBut t i q w
  pub count : used t'.slots + 1 ≡ used t.slots
  pub size : length t'.slots ≡ length t.slots

pub in_use-busy : (s : HtSlot) → 0 < s.pad → in_use s ≡ 1
in_use-busy s lt = ground arith

-- The slot after those that cannot fill the hole is empty: the hole becomes empty.
module _ (t : OrderTable) (i j : ℕ) (holed : Holed t i) (j_n : j < length t.slots)
    (fixed : Fixed t i j) (empty : (slot t (step (length t.slots) j)).pad ≡ 0) where
  abbrev cleared : HtSlot
  cleared = record (slot t i) { pad = 0 }

  abbrev pub filled : OrderTable
  filled = write_slot t i cleared

  end_apart : (l : ℕ) → Busy t l → step (length t.slots) j ≢ l
  end_apart l busy e =
      let at : (slot t l).pad ≡ 0 = subst (λ k. (slot t k).pad ≡ 0) e empty in omega arith

  live : (l : ℕ) → Busy filled l → l ≢ i
  live l busy e =
      let at : 0 < 0 = rw (slot_same t i cleared holed.hole_n) at (subst (Busy filled) e busy) in
      omega arith

  -- No entry is reached through the hole.
  not_through : (l : ℕ) → l ≢ i → l < length t.slots → Busy t l → ¬ Before t i l
  not_through l ne l_n busy before =
      let n = length t.slots in
      let h = home t (slot t l).key in
      let hn = home-lt t holed.shaped (slot t l).key in
      let i_n = holed.hole_n in
      let e = step n j in
      let e_n = step-lt n j j_n in
      let far = steps-step n i j i_n j_n (end_apart i holed.hole_busy) in
      let through = steps_through n h i l hn i_n l_n (omega arith) in
      let bound = steps-lt n h l hn l_n in
      let pos = steps_pos n i l i_n l_n (λ same. ne (sym same)) in
      elim (Bool-cases (leb (steps n i l) (steps n i j))) [
        | inl near ↦ let ahead = (fixed l l_n pos (ground arith)).1 in omega arith
        | inr beyond ↦
            let apart : steps n i e ≢ steps n i l =
              λ same. end_apart l busy (steps_inj n i e l i_n e_n l_n same) in
            let later : steps n i j < steps n i l = ground arith in
            let sum = steps_add n h i e hn i_n e_n (omega arith) in
            let there = holed.path l e ne l_n e_n busy (omega arith) in omega arith
      ]

  filled-path :
      (l x : ℕ)
      → l < length filled.slots
      → x < length filled.slots
      → Busy filled l
      → Before filled x l
      → Busy filled x
  filled-path l x l_n x_n busy before =
      let ne = live l busy in
      let ln = size_kept t i cleared holed.hole_n l l_n in
      let there = other-Busy t i cleared holed.hole_n l ne busy in
      let b =
        Before-write_slot t i cleared holed.hole_n x l (slot t l)
          (slot_other t i cleared holed.hole_n l ne) before in
      let apart : x ≢ i = λ e. not_through l ne ln there (subst (λ k. Before t k l) e b) in
      Busy-other t i cleared holed.hole_n x apart
        (holed.path l x ne ln (size_kept t i cleared holed.hole_n x x_n) there b)

  pub filled-Shifted : Shifted t i filled
  filled-Shifted =
      let h = holed.hole_n in
      let count : used filled.slots + 1 ≡ used t.slots =
        omega (arith, used-write_slot t i cleared h, in_use-busy (slot t i) holed.hole_busy) in
      record {
        valid = record {
          shaped = write_slot-IsShaped t i cleared h holed.shaped;
          path = filled-path;
          distinct = λ l m l_n m_n bl bm e.
              let ln = live l bl in
              let mn = live m bm in
              holed.distinct l m ln mn (size_kept t i cleared h l l_n)
                (size_kept t i cleared h m m_n) (other-Busy t i cleared h l ln bl)
                (other-Busy t i cleared h m mn bm)
                (sym (key_other t i cleared h l ln) ∙ (e ∙ key_other t i cleared h m mn));
          room = omega (arith, holed.room, count, length-write_slot t i cleared);
        };
        maps = λ q w. (
          λ m.
              let ne = live m.0 m.2 in
              (
                m.0,
                size_kept t i cleared h m.0 m.1,
                ne,
                other-Busy t i cleared h m.0 ne m.2,
                sym (key_other t i cleared h m.0 ne) ∙ m.3,
                sym (val_other t i cleared h m.0 ne) ∙ m.4,
              ),
          λ m. (
            m.0,
            size_back t i cleared h m.0 m.1,
            Busy-other t i cleared h m.0 m.2 m.3,
            key_other t i cleared h m.0 m.2 ∙ m.4,
            val_other t i cleared h m.0 m.2 ∙ m.5,
          ),
        );
        count = count;
        size = length-write_slot t i cleared;
      }
