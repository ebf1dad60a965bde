-- ===== src/Bitset/Examples.antt =====
-- A set of a hundred ticks, in which two are set.
use lob_project.Base.{◌≡◌, ◌<◌, ℕ, refl, arith, if◌then◌else◌, ◌==◌, some, none}
use lob_project.Bitset.{
  HierarchicalBitset, new_bitset, make_tiers, set_bit, reset_bit, set_tiers, set_word, any,
  top_word, first_in, find_first_set_bit, find_last_set_bit, find_next_set_bit, find_prev_set_bit,
  last_in, next_in, prev_in, bits_from, bits_to, flat, climb_next, climb_prev, descend_first,
  descend_last,
}
use lob_project.Bitset.Bits.{bit, ctz_below, clz_below}
use lob_project.Bitset.First.{contains, IsBitset, find_first_set_bit-IsFirst}
use lob_project.Bitset.Last.{find_last_set_bit-IsLast, any-contains}
use lob_project.Bitset.Next.{IsNext, find_next_set_bit-IsNext}
use lob_project.Bitset.Prev.{IsPrev, find_prev_set_bit-IsPrev}
use lob_project.Bitset.Resetting.{reset_bit-contains}
use lob_project.Bitset.New.{new_bitset-IsBitset}
use lob_project.Bitset.Setting.{set_bit-contains}

abbrev ticks : HierarchicalBitset
ticks = new_bitset 100

abbrev one_tick : HierarchicalBitset
one_tick = set_bit ticks 70

abbrev two_ticks : HierarchicalBitset
two_ticks = set_bit one_tick 90

in_range : 90 < two_ticks.num_bits
unfolding new_bitset set_bit
in_range = omega arith

new_bitset-IsBitset_example :
    IsBitset (new_bitset 100) × ((i : ℕ) → contains (new_bitset 100).tiers i ≡ 0)
new_bitset-IsBitset_example = new_bitset-IsBitset 100 (omega arith) (omega arith)

one_tick-IsBitset : IsBitset one_tick
unfolding new_bitset set_bit
one_tick-IsBitset =
    (set_bit-contains ticks 70 (new_bitset-IsBitset 100 (omega arith) (omega arith)).0
      (omega arith)).0

set_bit-contains_example :
    IsBitset two_ticks
    × ((i : ℕ) → contains two_ticks.tiers i ≡ (if i == 90 then 1 else contains one_tick.tiers i))
unfolding new_bitset set_bit
set_bit-contains_example = set_bit-contains one_tick 90 one_tick-IsBitset (omega arith)

find_first_set_bit-IsFirst_example :
    (contains two_ticks.tiers (find_first_set_bit two_ticks) ≡ 1)
    × ((j : ℕ) → j < find_first_set_bit two_ticks → contains two_ticks.tiers j ≡ 0)
unfolding new_bitset make_tiers set_bit set_tiers set_word any top_word
find_first_set_bit-IsFirst_example =
    find_first_set_bit-IsFirst two_ticks set_bit-contains_example.0 refl

lowest_tick : find_first_set_bit two_ticks ≡ 70
unfolding new_bitset make_tiers set_bit set_tiers set_word find_first_set_bit first_in ctz_below
lowest_tick = refl

reset_bit-contains_example :
    IsBitset (reset_bit one_tick 70)
    × ((i : ℕ)
        → contains (reset_bit one_tick 70).tiers i
          ≡ (if i == 70 then 0 else contains one_tick.tiers i))
unfolding new_bitset set_bit
reset_bit-contains_example = reset_bit-contains one_tick 70 one_tick-IsBitset (omega arith)

find_last_set_bit-IsLast_example :
    (contains two_ticks.tiers (find_last_set_bit two_ticks) ≡ 1)
    × ((j : ℕ) → find_last_set_bit two_ticks < j → contains two_ticks.tiers j ≡ 0)
unfolding new_bitset make_tiers set_bit set_tiers set_word any top_word
find_last_set_bit-IsLast_example =
    find_last_set_bit-IsLast two_ticks set_bit-contains_example.0 refl

find_next_set_bit-IsNext_example :
    IsNext (contains two_ticks.tiers) 71 (find_next_set_bit two_ticks 71)
unfolding new_bitset set_bit
find_next_set_bit-IsNext_example =
    find_next_set_bit-IsNext two_ticks 71 set_bit-contains_example.0 (omega arith)

find_prev_set_bit-IsPrev_example :
    IsPrev (contains two_ticks.tiers) 89 (find_prev_set_bit two_ticks 89)
unfolding new_bitset set_bit
find_prev_set_bit-IsPrev_example =
    find_prev_set_bit-IsPrev two_ticks 89 set_bit-contains_example.0 (omega arith)

any-contains_example : contains ticks.tiers 70 ≡ 0
unfolding new_bitset make_tiers any top_word
any-contains_example = any-contains ticks new_bitset-IsBitset_example.0 refl 70

highest_tick : find_last_set_bit two_ticks ≡ 90
unfolding new_bitset make_tiers set_bit set_tiers set_word find_last_set_bit last_in clz_below bit
highest_tick = refl

next_tick : find_next_set_bit two_ticks 71 ≡ some 90
unfolding new_bitset make_tiers set_bit set_tiers set_word find_next_set_bit next_in flat bits_from
    climb_next descend_first ctz_below
next_tick = refl

next_word : find_next_set_bit two_ticks 3 ≡ some 70
unfolding new_bitset make_tiers set_bit set_tiers set_word find_next_set_bit next_in flat bits_from
    climb_next descend_first ctz_below
next_word = refl

prev_tick : find_prev_set_bit two_ticks 89 ≡ some 70
unfolding new_bitset make_tiers set_bit set_tiers set_word find_prev_set_bit prev_in flat bits_to
    climb_prev descend_last clz_below bit
prev_tick = refl

no_prev_tick : find_prev_set_bit two_ticks 69 ≡ none
unfolding new_bitset make_tiers set_bit set_tiers set_word find_prev_set_bit prev_in flat bits_to
    climb_prev descend_last clz_below bit
no_prev_tick = refl

-- Past the lowest tier the source reads a word of the next one.
misread : find_next_set_bit one_tick 128 ≡ some 129
unfolding new_bitset make_tiers set_bit set_tiers set_word find_next_set_bit next_in flat bits_from
    climb_next descend_first ctz_below
misread = refl
