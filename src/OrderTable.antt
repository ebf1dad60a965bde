-- ===== src/OrderTable.antt =====
-- The hash table of engine/src/fast_book.cpp: `order_id_to_index` with `ht_find`, `ht_insert` and
-- `ht_erase`, open addressing with linear probing and deletion by shifting back. A result `none`
-- stands for a loop that has not ended after as many rounds as there are slots.
pub mod Cyclic
pub mod Masking
pub mod Slots
pub mod Valid
pub mod Find
pub mod Writing
pub mod Insert
pub mod Hole
pub mod Moving
pub mod Erase
pub mod New
mod Examples
use Prim.Native.Nat.{bit_and}
use lob_project.Base.{
  ℕ, zero, suc, ◌+◌, ◌-◌, ◌*◌, ◌/◌, ◌%◌, ◌^◌, u64_mod, List, Option, none, some, ltb, leb, ◌==◌,
  if◌then◌else◌, length, get_or, set, replicate,
}
use lob_project.Bitset.Bits.{ctz}

-- `pad` is `HT_EMPTY` or `HT_OCCUPIED`; `val` is an index of the pool.
pub record HtSlot : Type 0 where
  pub key : ℕ
  pub val : ℕ
  pub pad : ℕ

abbrev pub empty_slot : HtSlot
empty_slot = record { key = 0; val = 0; pad = 0 }

pub record OrderTable : Type 0 where
  pub slots : List HtSlot
  pub ht_shift : ℕ

abbrev pub ht_golden : ℕ
ht_golden = 11400714819323198485

-- The loop that doubles the capacity, and the table that the constructor makes.
unfoldable pub grow : ℕ → ℕ → ℕ → ℕ
grow zero cap max_orders = cap
grow (suc fuel) cap max_orders =
    let more = grow fuel (cap * 2) max_orders in if ltb cap (2 * max_orders) then more else cap

unfoldable pub new_table : ℕ → OrderTable
new_table max_orders =
    let cap = grow 64 2 max_orders in
    record { slots = replicate cap empty_slot; ht_shift = 64 - ctz cap }

unfoldable pub slot : OrderTable → ℕ → HtSlot
slot t i = get_or t.slots i empty_slot

unfoldable pub write_slot : OrderTable → ℕ → HtSlot → OrderTable
write_slot t i s = record t { slots = set t.slots i s }

-- `(id * HT_GOLDEN) >> ht_shift_`.
unfoldable pub home : OrderTable → ℕ → ℕ
home t id = id * ht_golden % u64_mod / 2 ^ t.ht_shift

-- `(i + 1) & mask` and `(j - h) & mask`.
unfoldable pub next_slot : OrderTable → ℕ → ℕ
next_slot t i = bit_and (i + 1) (length t.slots - 1)

unfoldable pub probed : OrderTable → ℕ → ℕ → ℕ
probed t h j = bit_and ((j + u64_mod - h) % u64_mod) (length t.slots - 1)

-- The result of the search is `none` for -1.
unfoldable pub find_from : ℕ → OrderTable → ℕ → ℕ → Option (Option ℕ)
find_from zero t id i = none
find_from (suc fuel) t id i =
    let rest = find_from fuel t id (next_slot t i) in
    if (slot t i).pad == 0
    then some none
    else if (slot t i).key == id
    then some (some (slot t i).val)
    else rest

unfoldable pub ht_find : OrderTable → ℕ → Option (Option ℕ)
ht_find t id = find_from (length t.slots) t id (home t id)

unfoldable pub insert_from : ℕ → OrderTable → ℕ → ℕ → ℕ → Option OrderTable
insert_from zero t id val i = none
insert_from (suc fuel) t id val i =
    let rest = insert_from fuel t id val (next_slot t i) in
    if (slot t i).pad == 0
    then some (write_slot t i (record { key = id; val = val; pad = 1 }))
    else rest

unfoldable pub ht_insert : OrderTable → ℕ → ℕ → Option OrderTable
ht_insert t id val = insert_from (length t.slots) t id val (home t id)

-- The two loops that shift back: `i` is the hole, `j` the slot that is looked at last.
unfoldable pub shift_back : ℕ → OrderTable → ℕ → ℕ → Option OrderTable
shift_back zero t i j = none
shift_back (suc fuel) t i j =
    let j' = next_slot t j in
    let s = slot t j' in
    let fits = leb (probed t i j') (probed t (home t s.key) j') in
    let rest = shift_back fuel (if fits then write_slot t i s else t) (if fits then j' else i) j' in
    if s.pad == 0 then some (write_slot t i (record (slot t i) { pad = 0 })) else rest

-- The loop that looks for the key.
unfoldable pub erase_from : ℕ → OrderTable → ℕ → ℕ → Option OrderTable
erase_from zero t id i = none
erase_from (suc fuel) t id i =
    let rest = erase_from fuel t id (next_slot t i) in
    if (slot t i).pad == 0
    then some t
    else if (slot t i).key == id
    then shift_back (length t.slots) t i i
    else rest

unfoldable pub ht_erase : OrderTable → ℕ → Option OrderTable
ht_erase t id = erase_from (length t.slots) t id (home t id)
