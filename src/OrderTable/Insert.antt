-- ===== src/OrderTable/Insert.antt =====
-- The insertion ends in the first empty slot from the home of the id.
use mathlib.Core.Path.{subst}
use lob_project.Base.{
  ℕ, zero, suc, ◌+◌, ◌<◌, ◌≡◌, ◌≢◌, ◌↔◌, ◌⊎◌, refl, sym, ◌∙◌, length, some, ◌==◌, Bool-cases, inl,
  inr, arith,
}
use lob_project.OrderTable.{HtSlot, OrderTable, slot, write_slot, home, insert_from, ht_insert}
use lob_project.OrderTable.Cyclic.{step, steps, step-lt, steps-lt, step_nearer}
use lob_project.OrderTable.Masking.{next_slot-step, home-lt}
use lob_project.OrderTable.Slots.{used, in_use, free_slot, length-write_slot, used-write_slot}
use lob_project.OrderTable.Valid.{Busy, Before, IsTable, Maps}
use lob_project.OrderTable.Find.{Passed, Passed-home, Passed-step}
use lob_project.OrderTable.Writing.{
  slot_same, slot_other, write_slot-IsShaped, size_kept, Before-write_slot, Busy-same, Busy-other,
  other-Busy, key_same, val_same, key_other, val_other, size_back,
}

pub record Inserted (t : OrderTable) (id val : ℕ) (t' : OrderTable) : Type 0 where
  pub valid : IsTable t'
  pub maps : (q w : ℕ) → Maps t' q w ↔ (((q ≡ id) × (w ≡ val)) ⊎ Maps t q w)
  pub count : used t'.slots ≡ used t.slots + 1
  pub size : length t'.slots ≡ length t.slots

module _ (t : OrderTable) (table : IsTable t) (id val : ℕ) (new : (w : ℕ) → ¬ Maps t id w)
    (fits : used t.slots + 1 < length t.slots) where
  abbrev entry : HtSlot
  entry = record { key = id; val = val; pad = 1 }

  absent : (l : ℕ) → l < length t.slots → Busy t l → (slot t l).key ≢ id
  absent l h busy e = new (slot t l).val (l, h, busy, e, refl)

  module _ (i : ℕ) (h : i < length t.slots) (free : (slot t i).pad ≡ 0)
      (passed : Passed t table id i) where
    abbrev after : OrderTable
    after = write_slot t i entry

    not_free : (j : ℕ) → Busy t j → j ≢ i
    not_free j busy e = let at : Busy t i = subst (Busy t) e busy in omega arith

    after-path :
        (j x : ℕ)
        → j < length after.slots
        → x < length after.slots
        → Busy after j
        → Before after x j
        → Busy after x
    after-path j x j_n x_n busy before = elim (Bool-cases (x == i)) [
      | inl same ↦ let e : x ≡ i = ground arith in rw e (Busy-same t i entry h (omega arith))
      | inr other ↦
          let ne : x ≢ i = ground arith in
          Busy-other t i entry h x ne (elim (Bool-cases (j == i)) [
            | inl at ↦
                let e : j ≡ i = ground arith in
                let b : Before after x i = subst (Before after x) e before in
                (passed x (size_kept t i entry h x x_n)
                  (Before-write_slot t i entry h x i entry (slot_same t i entry h) b)).0
            | inr away ↦
                let away_ne : j ≢ i = ground arith in
                table.path j x (size_kept t i entry h j j_n) (size_kept t i entry h x x_n)
                  (other-Busy t i entry h j away_ne busy)
                  (Before-write_slot t i entry h x j (slot t j) (slot_other t i entry h j away_ne)
                    before)
          ])
    ]

    -- No other slot has the new key.
    clash :
        (l j : ℕ)
        → l ≢ i
        → j ≡ i
        → l < length after.slots
        → Busy after l
        → (slot after l).key ≡ (slot after j).key
        → ⊥
    clash l j ne at l_n busy e =
        absent l (size_kept t i entry h l l_n) (other-Busy t i entry h l ne busy)
          (sym (key_other t i entry h l ne) ∙ (e ∙ key_same t i entry h j at))

    after-Maps : (q w : ℕ) → Maps after q w → ((q ≡ id) × (w ≡ val)) ⊎ Maps t q w
    after-Maps q w (j, j_n, busy, ke, ve) = elim (Bool-cases (j == i)) [
      | inl same ↦
          let at : j ≡ i = ground arith in
          inl (sym ke ∙ key_same t i entry h j at, sym ve ∙ val_same t i entry h j at)
      | inr other ↦
          let ne : j ≢ i = ground arith in
          inr (
            j,
            size_kept t i entry h j j_n,
            other-Busy t i entry h j ne busy,
            sym (key_other t i entry h j ne) ∙ ke,
            sym (val_other t i entry h j ne) ∙ ve,
          )
    ]

    Maps-after : (q w : ℕ) → ((q ≡ id) × (w ≡ val)) ⊎ Maps t q w → Maps after q w
    Maps-after q w (inl (qe, we)) = (
      i,
      size_back t i entry h i h,
      Busy-same t i entry h (omega arith),
      key_same t i entry h i refl ∙ sym qe,
      val_same t i entry h i refl ∙ sym we,
    )
    Maps-after q w (inr (j, j_n, busy, ke, ve)) =
        let ne = not_free j busy in
        (
          j,
          size_back t i entry h j j_n,
          Busy-other t i entry h j ne busy,
          key_other t i entry h j ne ∙ ke,
          val_other t i entry h j ne ∙ ve,
        )

    count : used after.slots ≡ used t.slots + 1
    count =
        let none_before : in_use (slot t i) ≡ 0 = ground (arith, free) in
        omega (arith, used-write_slot t i entry h, none_before)

    after-distinct :
        (j l : ℕ)
        → j < length after.slots
        → l < length after.slots
        → Busy after j
        → Busy after l
        → (slot after j).key ≡ (slot after l).key
        → j ≡ l
    after-distinct j l j_n l_n bj bl e = elim (Bool-cases (j == i)) [
      | inl ji ↦ elim (Bool-cases (l == i)) [
        | inl li ↦ ground arith
        | inr l_away ↦ absurd (clash l j (ground arith) (ground arith) l_n bl (sym e))
      ]
      | inr j_away ↦ elim (Bool-cases (l == i)) [
        | inl li ↦ absurd (clash j l (ground arith) (ground arith) j_n bj e)
        | inr l_away ↦
            let jn : j ≢ i = ground arith in
            let ln : l ≢ i = ground arith in
            table.distinct j l (size_kept t i entry h j j_n) (size_kept t i entry h l l_n)
              (other-Busy t i entry h j jn bj) (other-Busy t i entry h l ln bl)
              (sym (key_other t i entry h j jn) ∙ (e ∙ key_other t i entry h l ln))
      ]
    ]

    insert_here-Inserted : Inserted t id val after
    insert_here-Inserted = record {
      valid = record {
        shaped = write_slot-IsShaped t i entry h table.shaped;
        path = after-path;
        distinct = after-distinct;
        room = omega (arith, count, length-write_slot t i entry);
      };
      maps = λ q w. (after-Maps q w, Maps-after q w);
      count = count;
      size = length-write_slot t i entry;
    }

  insert_from-Inserted :
      (fuel i e : ℕ)
      → i < length t.slots
      → e < length t.slots
      → (slot t e).pad ≡ 0
      → steps (length t.slots) i e < fuel
      → Passed t table id i
      → (t' : OrderTable) × (insert_from fuel t id val i ≡ some t') × Inserted t id val t'
  unfolding insert_from
  insert_from-Inserted zero i e i_n e_n empty near passed = absurd (omega arith)
  insert_from-Inserted (suc fuel) i e i_n e_n empty near passed =
      elim (Bool-cases ((slot t i).pad == 0)) [
        | inl free ↦ rw free (_, refl, insert_here-Inserted i i_n (ground arith) passed)
        | inr busy ↦
            let there : Busy t i = ground arith in
            let apart : i ≢ e =
              λ same. let at : Busy t e = subst (Busy t) same there in omega arith in
            rw (busy, next_slot-step t table.shaped i i_n)
              (insert_from-Inserted fuel (step (length t.slots) i) e
                (step-lt (length t.slots) i i_n) e_n empty
                (omega (arith, step_nearer (length t.slots) i e i_n e_n apart))
                (Passed-step t table id i i_n there (absent i i_n there) passed))
      ]

  -- An id that the table does not map is inserted in a well-formed table that keeps an empty slot:
  -- the loop ends, and the new table is well formed and maps that id to the index and all other ids
  -- as before, with one slot more in use.
  pub ht_insert-Inserted : (t' : OrderTable) × (ht_insert t id val ≡ some t') × Inserted t id val t'
  unfolding ht_insert
  ht_insert-Inserted =
      let (e, e_n, empty) = free_slot t table.room in
      let h = home-lt t table.shaped id in
      insert_from-Inserted (length t.slots) (home t id) e h e_n empty
        (steps-lt (length t.slots) (home t id) e h e_n) (Passed-home t table id)
