-- ===== src/FastBook/New.antt =====
-- The constructor makes a book without orders.
use lob_project.Base.{
  ℕ, zero, suc, ◌+◌, ◌-◌, ◌%◌, ◌^◌, ◌<◌, ◌≤◌, ◌≡◌, true, false, List, [], ◌==◌, refl, arith, length,
  get_or-replicate, length-replicate, u64_mod, Bool-cases, inl, inr,
}
use lob_project.Types.{Side}
use lob_project.Bitset.{new_bitset}
use lob_project.Bitset.New.{new_bitset-IsBitset}
use lob_project.OrderTable.New.{new_table-IsTable}
use lob_project.FastBook.{new_book, all_free, blank_level, blank_order}
use lob_project.FastBook.Links.{has, Distinct}
use lob_project.FastBook.Valid.{IsBook}

all_free-has : (n a : ℕ) → has a (all_free n) ≡ true → a < n
unfolding all_free
all_free-has zero a h = cc
all_free-has (suc n) a h = elim (Bool-cases (a == n)) [
  | inl at ↦ ground arith
  | inr off ↦ omega (arith, all_free-has n a (ground (arith, h)))
]

all_free_out : (n a : ℕ) → n ≤ a → has a (all_free n) ≡ false
all_free_out n a h = elim (Bool-cases (has a (all_free n))) [
  | inl at ↦ absurd (omega (arith, all_free-has n a at))
  | inr off ↦ off
]

all_free-Distinct : (n : ℕ) → Distinct (all_free n)
unfolding all_free
all_free-Distinct zero = tt
all_free-Distinct (suc n) = (all_free_out n n (omega arith), all_free-Distinct n)

length-all_free : (n : ℕ) → length (all_free n) ≡ n
unfolding all_free
length-all_free zero = refl
length-all_free (suc n) = omega (arith, length-all_free n)

abbrev pub no_queue : Side → ℕ → List ℕ
no_queue s i = []

-- For a range of 1 to 64^4 prices and at most 2^31 orders the constructor makes a well-formed book
-- whose levels are all empty.
pub new_book-IsBook :
    (min_price max_price max_orders : ℕ)
    → min_price ≤ max_price
    → max_price < u64_mod
    → max_price < min_price + 64 ^ 4
    → max_orders ≤ 2 ^ 31
    → IsBook (new_book min_price max_price max_orders) no_queue
unfolding new_book new_bitset
new_book-IsBook min_price max_price max_orders order max_small ticks orders =
    let n = ((max_price + u64_mod - min_price) % u64_mod + 1) % u64_mod in
    let width : n ≡ max_price - min_price + 1 = omega arith in
    let bits = new_bitset-IsBitset n (omega arith) (omega arith) in
    let t = new_table-IsTable max_orders (omega arith) in
    let pool = length-replicate max_orders blank_order in
    let free = length-all_free max_orders in
    record {
      range = omega arith;
      max_small = max_small;
      level_count = λ s. length-replicate n blank_level;
      bit_count = λ s. refl;
      bitset = λ s. bits.0;
      tick = λ s i h. bits.1 i;
      spare = λ s i h. bits.1 i;
      queued = λ s i h. record {
        links = tt;
        head = rw (get_or-replicate n i blank_level) refl;
        tail = rw (get_or-replicate n i blank_level) refl;
        distinct = tt;
        inside = λ a m. cc;
      };
      entry = λ s i a h m. cc;
      total = λ s i h. rw (get_or-replicate n i blank_level) refl;
      table = t.0;
      mapped = λ id a m. absurd (t.1 id a m);
      free = λ a m. rw pool (all_free-has max_orders a m);
      free_distinct = all_free-Distinct max_orders;
      free_apart = λ s i a h m. cc;
      balance = omega (arith, t.2, pool, free);
      wide = omega (arith, t.3, pool);
      count = omega (arith, t.2);
      pool_small = omega (arith, pool);
    }
