-- ===== src/FastBook/Valid.antt =====
-- The invariant of the book: what its parts hold together, told by the queues of its levels.
use lob_project.Base.{
  ℕ, ◌+◌, ◌*◌, ◌%◌, ◌^◌, ◌<◌, ◌≤◌, ◌≡◌, true, false, List, [], ◌∷◌, length, is_empty, if◌then◌else◌,
  u32_mod, u64_mod,
}
use lob_project.Types.{Side}
use lob_project.Bitset.First.{contains, IsBitset}
use lob_project.OrderTable.Slots.{used}
use lob_project.OrderTable.Valid.{IsTable, Maps}
use lob_project.FastBook.{FastBook, pooled, level}
use lob_project.FastBook.Links.{has, Distinct}
use lob_project.FastBook.Unlink.{Queued}

-- The order at index `a` belongs to the level and has shares, and its id leads to it.
pub record IsEntry (b : FastBook) (s : Side) (i a : ℕ) : Type 0 where
  pub side : (pooled b a).side ≡ s
  pub price : (pooled b a).price ≡ b.min_price + i
  pub some_shares : 0 < (pooled b a).quantity
  pub small : (pooled b a).quantity < u32_mod
  pub found : Maps b.table (pooled b a).id a

abbrev pub shares : FastBook → List ℕ → ℕ
shares b [] = 0
shares b (x ∷ xs) = (pooled b x).quantity + shares b xs

-- The pool holds at most 2^31 orders, the number of indices that an `int32_t` has.
pub record IsBook (b : FastBook) (q : Side → ℕ → List ℕ) : Type 0 where
  pub range : b.min_price + b.num_levels ≡ b.max_price + 1
  pub max_small : b.max_price < u64_mod
  pub level_count : (s : Side) → length (b.levels s) ≡ b.num_levels
  pub bit_count : (s : Side) → (b.bitsets s).num_bits ≡ b.num_levels
  pub bitset : (s : Side) → IsBitset (b.bitsets s)
  pub tick :
      (s : Side) (i : ℕ)
      → i < b.num_levels
      → contains (b.bitsets s).tiers i ≡ (if is_empty (q s i) then 0 else 1)
  pub spare : (s : Side) (i : ℕ) → b.num_levels ≤ i → contains (b.bitsets s).tiers i ≡ 0
  pub queued : (s : Side) (i : ℕ) → i < b.num_levels → Queued b s i (q s i)
  pub entry : (s : Side) (i a : ℕ) → i < b.num_levels → has a (q s i) ≡ true → IsEntry b s i a
  pub total :
      (s : Side) (i : ℕ)
      → i < b.num_levels
      → (level b s i).total_quantity ≡ shares b (q s i) % u32_mod
  pub table : IsTable b.table
  pub mapped :
      (id a : ℕ)
      → Maps b.table id a
      → (s : Side) × (i : ℕ) × (i < b.num_levels) × (has a (q s i) ≡ true) × ((pooled b a).id ≡ id)
  pub free : (a : ℕ) → has a b.free_list ≡ true → a < length b.pool
  pub free_distinct : Distinct b.free_list
  pub free_apart :
      (s : Side) (i a : ℕ) → i < b.num_levels → has a (q s i) ≡ true → has a b.free_list ≡ false
  pub balance : used b.table.slots + length b.free_list ≡ length b.pool
  pub wide : 2 * length b.pool ≤ length b.table.slots
  pub count : b.num_orders ≡ used b.table.slots
  pub pool_small : length b.pool ≤ 2 ^ 31
