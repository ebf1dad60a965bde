-- ===== src/OrderTable/Examples.antt =====
-- A table for three orders with two of them in it.
use lob_project.Base.{ℕ, ◌*◌, ◌≤◌, ◌≡◌, length, some, arith}
use lob_project.OrderTable.{OrderTable, new_table, ht_find, ht_insert, ht_erase}
use lob_project.OrderTable.Slots.{used}
use lob_project.OrderTable.Valid.{IsTable, Maps, Answers}
use lob_project.OrderTable.Find.{ht_find-Answers}
use lob_project.OrderTable.Insert.{Inserted, ht_insert-Inserted}
use lob_project.OrderTable.Erase.{Erased, ht_erase-Erased}
use lob_project.OrderTable.New.{new_table-IsTable}

new_table-IsTable_example :
    IsTable (new_table 3)
    × ((q w : ℕ) → ¬ Maps (new_table 3) q w)
    × (used (new_table 3).slots ≡ 0)
    × (2 * 3 ≤ length (new_table 3).slots)
new_table-IsTable_example = new_table-IsTable 3 (omega arith)

ht_insert-Inserted_example :
    (t' : OrderTable) × (ht_insert (new_table 3) 7 2 ≡ some t') × Inserted (new_table 3) 7 2 t'
ht_insert-Inserted_example =
    ht_insert-Inserted (new_table 3) (new_table-IsTable 3 (omega arith)).0 7 2
      (λ w. (new_table-IsTable 3 (omega arith)).1 7 w)
      (omega (arith, new_table-IsTable_example.2, new_table-IsTable_example.3))

abbrev one_order : OrderTable
one_order = ht_insert-Inserted_example.0

ht_find-Answers_example : Answers one_order 7 (ht_find one_order 7)
ht_find-Answers_example = ht_find-Answers one_order 7 ht_insert-Inserted_example.2.valid

ht_erase-Erased_example :
    (t' : OrderTable) × (ht_erase one_order 7 ≡ some t') × Erased one_order 7 t'
ht_erase-Erased_example = ht_erase-Erased one_order ht_insert-Inserted_example.2.valid 7
