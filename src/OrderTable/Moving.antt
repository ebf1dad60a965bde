-- ===== src/OrderTable/Moving.antt =====
-- One step of the deletion: the next entry fills the hole, or stays.
use mathlib.Core.Path.{subst}
use lob_project.Base.{
  ℕ, ◌<◌, ◌≤◌, ◌≡◌, ◌≢◌, refl, sym, ◌∙◌, ap, length, ◌==◌, Bool-cases, inl, inr, arith,
}
use lob_project.OrderTable.{OrderTable, slot, write_slot, home}
use lob_project.OrderTable.Cyclic.{
  step, steps, step-lt, steps_inj, steps_from, steps-step, steps_self,
}
use lob_project.OrderTable.Masking.{home-lt}
use lob_project.OrderTable.Slots.{used, length-write_slot, used-write_slot}
use lob_project.OrderTable.Valid.{Busy, Before}
use lob_project.OrderTable.Writing.{
  slot_same, slot_other, write_slot-IsShaped, size_kept, Before-write_slot, Busy-same, Busy-other,
  other-Busy, key_same, val_same, key_other, val_other, size_back,
}
use lob_project.OrderTable.Hole.{Holed, MapsBut, Fixed, Shifted, in_use-busy}

module _ (t : OrderTable) (i j : ℕ) (holed : Holed t i) (j_n : j < length t.slots)
    (busy_j : Busy t j) (apart : j ≢ i)
    (fits : steps (length t.slots) i j ≤ steps (length t.slots) (home t (slot t j).key) j) where
  abbrev pub moved : OrderTable
  moved = write_slot t i (slot t j)

  i_n : i < length t.slots
  i_n = holed.hole_n

  kept : (x : ℕ) → Busy t x → Busy moved x
  kept x busy = elim (Bool-cases (x == i)) [
    | inl same ↦
        let e : x ≡ i = ground arith in
        subst (Busy moved) (sym e) (Busy-same t i (slot t j) i_n busy_j)
    | inr other ↦ Busy-other t i (slot t j) i_n x (ground arith) busy
  ]

  moved-path :
      (l x : ℕ)
      → l ≢ j
      → l < length moved.slots
      → x < length moved.slots
      → Busy moved l
      → Before moved x l
      → Busy moved x
  moved-path l x ne l_n x_n busy before =
      let xn = size_kept t i (slot t j) i_n x x_n in
      let ln = size_kept t i (slot t j) i_n l l_n in
      kept x (elim (Bool-cases (l == i)) [
        | inl same ↦
            let e : l ≡ i = ground arith in
            let b : Before moved x i = subst (Before moved x) e before in
            let early =
              Before-write_slot t i (slot t j) i_n x i (slot t j) (slot_same t i (slot t j) i_n)
                b in
            let h = home-lt t holed.shaped (slot t j).key in
            let through = steps_from (length t.slots) (home t (slot t j).key) i j h i_n j_n fits in
            holed.path j x apart j_n xn busy_j (omega arith)
        | inr other ↦
            let li : l ≢ i = ground arith in
            holed.path l x li ln xn (other-Busy t i (slot t j) i_n l li busy) (
              Before-write_slot t i (slot t j) i_n x l (slot t l)
                (slot_other t i (slot t j) i_n l li) before)
      ])

  -- The key of the moved entry is in no other slot that counts.
  moved_clash :
      (l m : ℕ)
      → l ≡ i
      → m ≢ i
      → m ≢ j
      → m < length moved.slots
      → Busy moved m
      → (slot moved l).key ≡ (slot moved m).key
      → ⊥
  moved_clash l m at mi mj m_n busy e = mj (
      sym (
        holed.distinct j m apart mi j_n (size_kept t i (slot t j) i_n m m_n) busy_j
          (other-Busy t i (slot t j) i_n m mi busy)
          (sym (key_same t i (slot t j) i_n l at) ∙ (e ∙ key_other t i (slot t j) i_n m mi))))

  moved-distinct :
      (l m : ℕ)
      → l ≢ j
      → m ≢ j
      → l < length moved.slots
      → m < length moved.slots
      → Busy moved l
      → Busy moved m
      → (slot moved l).key ≡ (slot moved m).key
      → l ≡ m
  moved-distinct l m lj mj l_n m_n bl bm e = elim (Bool-cases (l == i)) [
    | inl l_at ↦ elim (Bool-cases (m == i)) [
      | inl m_at ↦ ground arith
      | inr m_off ↦ absurd (moved_clash l m (ground arith) (ground arith) mj m_n bm e)
    ]
    | inr l_off ↦ elim (Bool-cases (m == i)) [
      | inl m_at ↦ absurd (moved_clash m l (ground arith) (ground arith) lj l_n bl (sym e))
      | inr m_off ↦
          let li : l ≢ i = ground arith in
          let mi : m ≢ i = ground arith in
          holed.distinct l m li mi (size_kept t i (slot t j) i_n l l_n)
            (size_kept t i (slot t j) i_n m m_n) (other-Busy t i (slot t j) i_n l li bl)
            (other-Busy t i (slot t j) i_n m mi bm)
            (sym (key_other t i (slot t j) i_n l li) ∙ (e ∙ key_other t i (slot t j) i_n m mi))
    ]
  ]

  pub used-moved : used moved.slots ≡ used t.slots
  used-moved = omega (
    arith,
    used-write_slot t i (slot t j) i_n,
    in_use-busy (slot t i) holed.hole_busy,
    in_use-busy (slot t j) busy_j,
  )

  -- The hole is now where the entry was.
  pub moved-Holed : Holed moved j
  moved-Holed = record {
    shaped = write_slot-IsShaped t i (slot t j) i_n holed.shaped;
    hole_n = size_back t i (slot t j) i_n j j_n;
    hole_busy = kept j busy_j;
    path = moved-path;
    distinct = moved-distinct;
    room = omega (arith, holed.room, used-moved, length-write_slot t i (slot t j));
  }

  pub moved-MapsBut : (q w : ℕ) → MapsBut moved j q w → MapsBut t i q w
  moved-MapsBut q w (l, l_n, lj, busy, ke, ve) = elim (Bool-cases (l == i)) [
    | inl at ↦
        let e : l ≡ i = ground arith in
        (
          j,
          j_n,
          apart,
          busy_j,
          sym (key_same t i (slot t j) i_n l e) ∙ ke,
          sym (val_same t i (slot t j) i_n l e) ∙ ve,
        )
    | inr off ↦
        let li : l ≢ i = ground arith in
        (
          l,
          size_kept t i (slot t j) i_n l l_n,
          li,
          other-Busy t i (slot t j) i_n l li busy,
          sym (key_other t i (slot t j) i_n l li) ∙ ke,
          sym (val_other t i (slot t j) i_n l li) ∙ ve,
        )
  ]

  pub MapsBut-moved : (q w : ℕ) → MapsBut t i q w → MapsBut moved j q w
  MapsBut-moved q w (l, l_n, li, busy, ke, ve) = elim (Bool-cases (l == j)) [
    | inl at ↦
        let e : j ≡ l = ground arith in
        (
          i,
          size_back t i (slot t j) i_n i i_n,
          (λ same. apart (sym same)),
          Busy-same t i (slot t j) i_n busy_j,
          key_same t i (slot t j) i_n i refl ∙ (ap (λ k. (slot t k).key) e ∙ ke),
          val_same t i (slot t j) i_n i refl ∙ (ap (λ k. (slot t k).val) e ∙ ve),
        )
    | inr off ↦ (
      l,
      size_back t i (slot t j) i_n l l_n,
      (λ same. ground arith),
      Busy-other t i (slot t j) i_n l li busy,
      key_other t i (slot t j) i_n l li ∙ ke,
      val_other t i (slot t j) i_n l li ∙ ve,
    )
  ]

  -- What the moved hole leaves is what this one would.
  pub Shifted-moved : (t' : OrderTable) → Shifted moved j t' → Shifted t i t'
  Shifted-moved t' s = record {
    valid = s.valid;
    maps = λ q w.
        (λ m. moved-MapsBut q w ((s.maps q w).0 m), λ m. (s.maps q w).1 (MapsBut-moved q w m));
    count = s.count ∙ used-moved;
    size = s.size ∙ length-write_slot t i (slot t j);
  }

-- An entry that cannot fill the hole joins those that stay.
pub Fixed-step :
    (t : OrderTable) (i j : ℕ)
    → i < length t.slots
    → j < length t.slots
    → step (length t.slots) j ≢ i
    → Busy t (step (length t.slots) j)
    → steps
        (length t.slots)
        (home t (slot t (step (length t.slots) j)).key)
        (step (length t.slots) j)
      < steps (length t.slots) i (step (length t.slots) j)
    → Fixed t i j
    → Fixed t i (step (length t.slots) j)
Fixed-step t i j i_n j_n apart busy stays fixed x x_n pos le =
    let n = length t.slots in
    let far = steps-step n i j i_n j_n apart in
    elim (Bool-cases (x == step n j)) [
      | inl same ↦
          let e : step n j ≡ x = ground arith in
          subst (λ k. Busy t k × (steps n (home t (slot t k).key) k < steps n i k)) e (busy, stays)
      | inr other ↦
          let ne : steps n i x ≢ steps n i (step n j) = λ same.
            let e = steps_inj n i x (step n j) i_n x_n (step-lt n j j_n) same in ground arith in
          fixed x x_n pos (omega arith)
    ]

pub Fixed-start : (t : OrderTable) (i : ℕ) → Fixed t i i
Fixed-start t i x x_n pos le = absurd (omega (arith, steps_self (length t.slots) i))
