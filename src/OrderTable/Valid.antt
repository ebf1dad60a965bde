-- ===== src/OrderTable/Valid.antt =====
-- The invariant of the table, and the map that it stands for.
use lob_project.Base.{ℕ, ◌<◌, ◌≡◌, length, Option, none, some}
use lob_project.OrderTable.{OrderTable, slot, home}
use lob_project.OrderTable.Cyclic.{steps}
use lob_project.OrderTable.Masking.{IsShaped}
use lob_project.OrderTable.Slots.{used}

abbrev pub Busy : OrderTable → ℕ → Type 0
Busy t i = 0 < (slot t i).pad

-- From the home of the key in slot `i`, slot `x` is met before `i`.
abbrev pub Before : OrderTable → ℕ → ℕ → Type 0
Before t x i =
    steps (length t.slots) (home t (slot t i).key) x
    < steps (length t.slots) (home t (slot t i).key) i

-- A power of 2 of slots; no slot between the home of a key and its slot is empty; no key stands in
-- two slots; and not all slots are in use.
pub record IsTable (t : OrderTable) : Type 0 where
  pub shaped : IsShaped t
  pub path :
      (i x : ℕ) → i < length t.slots → x < length t.slots → Busy t i → Before t x i → Busy t x
  pub distinct :
      (i j : ℕ)
      → i < length t.slots
      → j < length t.slots
      → Busy t i
      → Busy t j
      → (slot t i).key ≡ (slot t j).key
      → i ≡ j
  pub room : used t.slots < length t.slots

-- The table maps the id to the index.
abbrev pub Maps : OrderTable → ℕ → ℕ → Type 0
Maps t id val =
    (i : ℕ) × (i < length t.slots) × Busy t i × ((slot t i).key ≡ id) × ((slot t i).val ≡ val)

-- What a search that has ended tells.
abbrev pub Answers : OrderTable → ℕ → Option (Option ℕ) → Type 0
Answers t id none = ⊥
Answers t id (some none) = (val : ℕ) → ¬ Maps t id val
Answers t id (some (some val)) = Maps t id val
