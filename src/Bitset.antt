-- ===== src/Bitset.antt =====
-- engine/include/hierarchical_bitset.hpp and engine/src/hierarchical_bitset.cpp: the set of price
-- ticks that have orders. `words_` holds the tiers one after the other, from `tier_offsets_` on;
-- here it is the list of its tiers, the lowest first, each the list of its words.
pub mod Bits
pub mod First
pub mod Or
pub mod Setting
pub mod And
pub mod Resetting
pub mod New
pub mod Masks
pub mod Next
pub mod Prev
pub mod Last
mod Examples
use Prim.Native.Nat.{bit_and, bit_or}
use lob_project.Base.{
  ℕ, zero, suc, ◌+◌, ◌-◌, ◌*◌, ◌/◌, ◌%◌, ◌^◌, u64_mod, Bool, not, List, [], ◌∷◌, ◌++◌, ◌==◌,
  if◌then◌else◌, get_or, set, replicate, length, Option, none, some, leb, ltb,
}
use lob_project.Bitset.Bits.{ctz, last_one}

abbrev pub Tiers : Type 0
Tiers = List (List ℕ)

pub record HierarchicalBitset : Type 0 where
  pub num_bits : ℕ
  pub tiers : Tiers

-- `w | (1ULL << bit)` and `w & ~(1ULL << bit)`.
unfoldable pub set_word : ℕ → ℕ → ℕ
set_word w bit = bit_or w (2 ^ bit)

unfoldable pub reset_word : ℕ → ℕ → ℕ
reset_word w bit = bit_and w (u64_mod - 1 - 2 ^ bit)

-- The loop of the constructor, at most four times, and the tiers that it sizes.
unfoldable pub make_tiers : ℕ → ℕ → Tiers
make_tiers zero n = []
make_tiers (suc fuel) n =
    let size = (n + 63) / 64 in
    let upper = make_tiers fuel size in replicate size 0 ∷ (if leb size 1 then [] else upper)

unfoldable pub new_bitset : ℕ → HierarchicalBitset
new_bitset num_bits = record { num_bits = num_bits; tiers = make_tiers 4 num_bits }

unfoldable pub set_tiers : ℕ → Tiers → Tiers
set_tiers idx [] = []
set_tiers idx (tier ∷ upper) =
    let word = idx / 64 in
    let before = get_or tier word 0 in
    let above = set_tiers word upper in
    set tier word (set_word before (idx % 64)) ∷ (if before == 0 then above else upper)

unfoldable pub set_bit : HierarchicalBitset → ℕ → HierarchicalBitset
set_bit s index = record s { tiers = set_tiers index s.tiers }

unfoldable pub reset_tiers : ℕ → Tiers → Tiers
reset_tiers idx [] = []
reset_tiers idx (tier ∷ upper) =
    let word = idx / 64 in
    let after = reset_word (get_or tier word 0) (idx % 64) in
    let above = reset_tiers word upper in
    set tier word after ∷ (if after == 0 then above else upper)

unfoldable pub reset_bit : HierarchicalBitset → ℕ → HierarchicalBitset
reset_bit s index = record s { tiers = reset_tiers index s.tiers }

-- The loop runs from the top tier down; its `word_idx` after the tiers above is the argument of
-- the next.
unfoldable pub first_in : Tiers → ℕ
first_in [] = 0
first_in (tier ∷ upper) =
    let word_idx = first_in upper in word_idx * 64 + ctz (get_or tier word_idx 0)

unfoldable pub find_first_set_bit : HierarchicalBitset → ℕ
find_first_set_bit s = first_in s.tiers

unfoldable pub last_in : Tiers → ℕ
last_in [] = 0
last_in (tier ∷ upper) =
    let word_idx = last_in upper in word_idx * 64 + last_one (get_or tier word_idx 0)

unfoldable pub find_last_set_bit : HierarchicalBitset → ℕ
find_last_set_bit s = last_in s.tiers

unfoldable pub top_word : Tiers → ℕ
top_word [] = 0
top_word (tier ∷ []) = get_or tier 0 0
top_word (tier ∷ upper ∷ tiers) = top_word (upper ∷ tiers)

unfoldable pub any : HierarchicalBitset → Bool
any s = not (top_word s.tiers == 0)

-- `w & (~0ULL << bit)` and `w & (~0ULL >> (63 - bit))`.
unfoldable pub bits_from : ℕ → ℕ → ℕ
bits_from w bit = bit_and w ((u64_mod - 1) * 2 ^ bit % u64_mod)

unfoldable pub bits_to : ℕ → ℕ → ℕ
bits_to w bit = bit_and w ((u64_mod - 1) / 2 ^ (63 - bit))

-- The loop down from a found word: `below` are the tiers under it, the nearest first.
unfoldable pub descend_first : Tiers → ℕ → ℕ
descend_first [] word_idx = word_idx
descend_first (tier ∷ below) word_idx =
    descend_first below (word_idx * 64 + ctz (get_or tier word_idx 0))

unfoldable pub descend_last : Tiers → ℕ → ℕ
descend_last [] word_idx = word_idx
descend_last (tier ∷ below) word_idx =
    descend_last below (word_idx * 64 + last_one (get_or tier word_idx 0))

-- The loop up the tiers; `none` is `SIZE_MAX`.
unfoldable pub climb_next : Tiers → Tiers → ℕ → Option ℕ
climb_next below [] word_idx = none
climb_next below (tier ∷ upper) word_idx =
    let tw = word_idx / 64 in
    let mask = bits_from (get_or tier tw 0) (word_idx % 64) in
    let higher = climb_next (tier ∷ below) upper (tw + 1) in
    if leb (length tier) tw
    then higher
    else if mask == 0
    then higher
    else some (descend_first below (tw * 64 + ctz mask))

-- `words_` as it is laid out, the lowest tier first. The word of an index at which a search begins
-- is read from it without a test: behind the lowest tier are the words of the next ones. A read
-- past the end of the vector is undefined, 0 here.
unfoldable pub flat : Tiers → List ℕ
flat [] = []
flat (tier ∷ upper) = tier ++ flat upper

unfoldable pub next_in : Tiers → ℕ → Option ℕ
next_in [] pos = none
next_in (tier ∷ upper) pos =
    let w = pos / 64 in
    let mask = bits_from (get_or (flat (tier ∷ upper)) w 0) (pos % 64) in
    if mask == 0 then climb_next (tier ∷ []) upper (w + 1) else some (w * 64 + ctz mask)

unfoldable pub find_next_set_bit : HierarchicalBitset → ℕ → Option ℕ
find_next_set_bit s pos = next_in s.tiers pos

unfoldable pub climb_prev : Tiers → Tiers → ℕ → Option ℕ
climb_prev below [] word_idx = none
climb_prev below (tier ∷ upper) word_idx =
    let tw = word_idx / 64 in
    let mask = bits_to (get_or tier tw 0) (word_idx % 64) in
    let higher = climb_prev (tier ∷ below) upper (tw - 1) in
    if mask == 0
    then if tw == 0 then none else higher
    else some (descend_last below (tw * 64 + last_one mask))

unfoldable pub prev_in : Tiers → ℕ → Option ℕ
prev_in [] pos = none
prev_in (tier ∷ upper) pos =
    let w = pos / 64 in
    let mask = bits_to (get_or (flat (tier ∷ upper)) w 0) (pos % 64) in
    let higher = climb_prev (tier ∷ []) upper (w - 1) in
    if mask == 0 then if ltb pos 64 then none else higher else some (w * 64 + last_one mask)

unfoldable pub find_prev_set_bit : HierarchicalBitset → ℕ → Option ℕ
find_prev_set_bit s pos = prev_in s.tiers pos

unfoldable pub num_levels : HierarchicalBitset → ℕ
num_levels s = length s.tiers
