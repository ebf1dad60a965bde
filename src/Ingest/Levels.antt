-- ===== src/Ingest/Levels.antt =====
-- The quantity that the maps of levels show at a price, and how the helpers change it.
use lob_project.Base.{
  ℕ, ◌-◌, ◌<◌, ◌≡◌, refl, sym, Bool, true, false, ◌&&◌, arith, inl, inr, leb, ◌==◌, ==_refl,
  if◌then◌else◌, Bool-cases, Option-cases, add32, sub32, sub32-eq-sub, u32_mod,
}
use lob_project.SortedMap.{SortedMap, find, update}
use lob_project.SortedMap.Laws.{
  Ascending, value_or, find-update, find-erase, update-Ascending, erase-Ascending,
}
use lob_project.Ingest.{
  IngestBook, is_bid, side_map, with_side_map, add_to_level, take_from_level, remove_from_level,
}

abbrev pub shown : ℕ → SortedMap ℕ → ℕ
shown p m = value_or (find p m) 0

abbrev pub same_side : Bool → Bool → Bool
same_side true b = b
same_side false true = false
same_side false false = true

-- A side and a price are those of a level.
abbrev pub hits : Bool → ℕ → ℕ → ℕ → Bool
hits bid p side price = same_side (is_bid side) bid && price == p

side_map-with_side_map :
    (b : IngestBook) (x y : Bool) (m : SortedMap ℕ)
    → side_map (with_side_map b x m) y ≡ (if same_side x y then m else side_map b y)
side_map-with_side_map b true true m = refl
side_map-with_side_map b true false m = refl
side_map-with_side_map b false true m = refl
side_map-with_side_map b false false m = refl

same_side-eq : (x y : Bool) → same_side x y ≡ true → x ≡ y
same_side-eq true true h = refl
same_side-eq true false h = sym h
same_side-eq false true h = h
same_side-eq false false h = refl

shown-add :
    (p price quantity : ℕ) (m : SortedMap ℕ)
    → Ascending m
    → shown p (update price 0 (λ t. add32 t quantity) m)
      ≡ (if price == p then add32 (shown p m) quantity else shown p m)
shown-add p price quantity m a = elim (Bool-cases (price == p)) [
  | inl same ↦
      let e : price ≡ p = ground arith in
      rw (find-update price p 0 (λ t. add32 t quantity) m a, same, e) refl
  | inr other ↦ rw (find-update price p 0 (λ t. add32 t quantity) m a, other) refl
]

shown-take :
    (p price quantity : ℕ) (m : SortedMap ℕ)
    → Ascending m
    → shown price m < u32_mod
    → shown p (take_from_level price quantity m)
      ≡ (if price == p then shown p m - quantity else shown p m)
unfolding take_from_level
shown-take p price quantity m a small = elim (Option-cases (find price m)) [
  | inl e ↦
      rw (e, take_from_level)
        (elim (Bool-cases (price == p)) [
          | inl same ↦ let q : price ≡ p = ground arith in rw (same, sym q, e) (omega arith)
          | inr other ↦ rw other refl
        ])
  | inr (t, e) ↦
      rw (e, take_from_level)
        (elim (Bool-cases (leb t quantity)) [
          | inl all_gone ↦ rw all_gone (elim (Bool-cases (price == p)) [
            | inl same ↦
                let q : price ≡ p = ground arith in
                rw (find-erase price p m a, same, sym q, e) (ground arith)
            | inr other ↦ rw (find-erase price p m a, other) refl
          ])
          | inr some_left ↦ rw some_left (elim (Bool-cases (price == p)) [
            | inl same ↦
                let q : price ≡ p = ground arith in
                let below : t < u32_mod = rw e at small in
                rw (find-update price p 0 (λ t. sub32 t quantity) m a, same, sym q, e)
                  (sub32-eq-sub t quantity (ground arith) below)
            | inr other ↦ rw (find-update price p 0 (λ t. sub32 t quantity) m a, other) refl
          ])
        ])
]

-- A change of one map, seen through both.
side_change :
    (b : IngestBook) (x y : Bool) (price p : ℕ) (f : ℕ → ℕ) (m : SortedMap ℕ)
    → shown p m ≡ (if price == p then f (shown p (side_map b x)) else shown p (side_map b x))
    → shown p (side_map (with_side_map b x m) y)
      ≡ (if same_side x y && price == p then f (shown p (side_map b y)) else shown p (side_map b y))
side_change b true true price p f m h = h
side_change b true false price p f m h = refl
side_change b false true price p f m h = refl
side_change b false false price p f m h = h

-- Both maps are in ascending order of the prices.
abbrev pub Sorted : IngestBook → Type 0
Sorted b = Ascending b.bids × Ascending b.asks

side_map-Ascending : (b : IngestBook) (x : Bool) → Sorted b → Ascending (side_map b x)
side_map-Ascending b true s = s.0
side_map-Ascending b false s = s.1

with_side_map-Sorted :
    (b : IngestBook) (x : Bool) (m : SortedMap ℕ)
    → Sorted b
    → Ascending m
    → Sorted (with_side_map b x m)
with_side_map-Sorted b true m s a = (a, s.1)
with_side_map-Sorted b false m s a = (s.0, a)

pub add_to_level-Sorted :
    (b : IngestBook) (side price quantity : ℕ)
    → Sorted b
    → Sorted (add_to_level b side price quantity)
unfolding add_to_level
add_to_level-Sorted b side price quantity s =
    with_side_map-Sorted b (is_bid side) _ s
      (update-Ascending price 0 _ _ (side_map-Ascending b (is_bid side) s))

take_from_level-Ascending :
    (price quantity : ℕ) (m : SortedMap ℕ)
    → Ascending m
    → Ascending (take_from_level price quantity m)
unfolding take_from_level
take_from_level-Ascending price quantity m a = elim (Option-cases (find price m)) [
  | inl e ↦ rw (e, take_from_level) a
  | inr (t, e) ↦
      rw (e, take_from_level)
        (elim (Bool-cases (leb t quantity)) [
          | inl all_gone ↦ rw all_gone (erase-Ascending price m a)
          | inr some_left ↦ rw some_left (update-Ascending price 0 (λ t. sub32 t quantity) m a)
        ])
]

pub remove_from_level-Sorted :
    (b : IngestBook) (side price quantity : ℕ)
    → Sorted b
    → Sorted (remove_from_level b side price quantity)
unfolding remove_from_level
remove_from_level-Sorted b side price quantity s =
    with_side_map-Sorted b (is_bid side) _ s
      (take_from_level-Ascending price quantity _ (side_map-Ascending b (is_bid side) s))

pub shown-add_to_level :
    (b : IngestBook) (side price quantity : ℕ) (bid : Bool) (p : ℕ)
    → Sorted b
    → shown p (side_map (add_to_level b side price quantity) bid) ≡ (
        if hits bid p side price
        then add32 (shown p (side_map b bid)) quantity
        else shown p (side_map b bid))
unfolding add_to_level
shown-add_to_level b side price quantity bid p s =
    side_change b (is_bid side) bid price p (λ t. add32 t quantity) _
      (shown-add p price quantity _ (side_map-Ascending b (is_bid side) s))

pub shown-remove_from_level :
    (b : IngestBook) (side price quantity : ℕ) (bid : Bool) (p : ℕ)
    → Sorted b
    → shown price (side_map b (is_bid side)) < u32_mod
    → shown p (side_map (remove_from_level b side price quantity) bid) ≡ (
        if hits bid p side price
        then shown p (side_map b bid) - quantity
        else shown p (side_map b bid))
unfolding remove_from_level
shown-remove_from_level b side price quantity bid p s small =
    side_change b (is_bid side) bid price p (λ t. t - quantity) _
      (shown-take p price quantity _ (side_map-Ascending b (is_bid side) s) small)

-- An order's own side and price are the only ones that it hits.
pub hits-own :
    (bid : Bool) (p side price : ℕ)
    → hits bid p side price ≡ true
    → (is_bid side ≡ bid) × (price ≡ p)
hits-own bid p side price h = elim (Bool-cases (same_side (is_bid side) bid)) [
  | inl same ↦ (same_side-eq (is_bid side) bid same, ground (arith, rw same at h))
  | inr other ↦ (let no : false ≡ true = rw other at h in cc)
]

pub hits_refl : (side price : ℕ) → hits (is_bid side) price side price ≡ true
hits_refl side price = elim (Bool-cases (is_bid side)) [
  | inl e ↦ rw (e, ==_refl price) refl
  | inr e ↦ rw (e, ==_refl price) refl
]
