-- ===== src/FastBook/Dropped.antt =====
-- The book that is left when all shares of an order are removed is well formed.
use mathlib.Core.Path.{subst}
use lob_project.Base.{
  ℕ, ◌≤◌, suc, ◌+◌, ◌-◌, ◌%◌, ◌<◌, true, false, ◌&&◌, List, [], ◌∷◌, ◌==◌, ◌≡◌, ◌≢◌, refl, sym, ap,
  ◌∙◌, arith, Bool-cases, inl, inr, length, is_empty, sub32, u32_mod, u64_mod, if◌then◌else◌,
}
use lob_project.Types.{Side}
use lob_project.Bitset.{HierarchicalBitset, reset_bit}
use lob_project.Bitset.First.{contains, IsBitset}
use lob_project.Bitset.Resetting.{reset_bit-contains}
use lob_project.OrderTable.{OrderTable}
use lob_project.OrderTable.Valid.{Maps}
use lob_project.OrderTable.Erase.{Erased}
use lob_project.FastBook.{FastOrder, PriceLevel, FastBook, pooled, level, price_to_index}
use lob_project.FastBook.Links.{has, without, Distinct, has-without}
use lob_project.FastBook.Access.{
  same_level, same_level_refl, same_side, same_side-eq, at_side-eq, level-unlinked,
}
use lob_project.FastBook.Unlink.{Queued, SameData, other_level-Queued, unlinked-SameData}
use lob_project.FastBook.Taking.{taken-Queued, taken-SameData, level-taken}
use lob_project.FastBook.Valid.{IsEntry, IsBook, shares}
use lob_project.FastBook.Queues.{
  Maps-functional, same_level-eq, queues-apart, price_to_index-entry, shares-without,
  shares-SameData,
}
use lob_project.FastBook.Dropping.{
  emptied, outside, dropped, in_levels, in_pool, emptied-Queued, outside-Queued, emptied-Apart,
  outside-Apart, entry_emptied,
}

-- The queues without an order of one of them.
abbrev pub queues_without : (Side → ℕ → List ℕ) → Side → ℕ → ℕ → Side → ℕ → List ℕ
queues_without q s i k s' j = if same_level s i s' j then without k (q s i) else q s' j

module _ (b : FastBook) (q : Side → ℕ → List ℕ) (book : IsBook b q) (s : Side) (i k : ℕ)
    (i_n : i < b.num_levels) (m : has k (q s i) ≡ true) (t : OrderTable)
    (erased : Erased b.table (pooled b k).id t) where
  abbrev b' : FastBook
  b' = dropped b q book s i k i_n m t

  abbrev q' : Side → ℕ → List ℕ
  q' = queues_without q s i k

  same_count : b'.num_levels ≡ b.num_levels
  same_count =
      (outside-Apart b q book s i k i_n m).num_levels
      ∙ (emptied-Apart b q book s i k i_n m).num_levels

  same_min : b'.min_price ≡ b.min_price
  same_min =
      (outside-Apart b q book s i k i_n m).min_price
      ∙ (emptied-Apart b q book s i k i_n m).min_price

  same_max : b'.max_price ≡ b.max_price
  same_max =
      (outside-Apart b q book s i k i_n m).max_price
      ∙ (emptied-Apart b q book s i k i_n m).max_price

  same_pool : length b'.pool ≡ length b.pool
  same_pool = (outside-Apart b q book s i k i_n m).pool ∙ (emptied-Apart b q book s i k i_n m).pool

  same_levels : (s' : Side) → length (b'.levels s') ≡ length (b.levels s')
  same_levels s' =
      (outside-Apart b q book s i k i_n m).levels s'
      ∙ (emptied-Apart b q book s i k i_n m).levels s'

  same_bits : (s' : Side) → (outside b q book s i k i_n m).bitsets s' ≡ b.bitsets s'
  same_bits s' =
      (outside-Apart b q book s i k i_n m).bitsets s'
      ∙ (emptied-Apart b q book s i k i_n m).bitsets s'

  same_free : b'.free_list ≡ k ∷ b.free_list
  same_free =
      ap (λ (xs : List ℕ). k ∷ xs)
        ((outside-Apart b q book s i k i_n m).free_list
          ∙ (emptied-Apart b q book s i k i_n m).free_list)

  one_less : b'.num_orders ≡ (b.num_orders + u64_mod - 1) % u64_mod
  one_less =
      ap (λ (n : ℕ). (n + u64_mod - 1) % u64_mod)
        ((outside-Apart b q book s i k i_n m).num_orders
          ∙ (emptied-Apart b q book s i k i_n m).num_orders)

  in_emptied : i < length ((emptied b q book s i k i_n m).levels s)
  in_emptied = rw ((emptied-Apart b q book s i k i_n m).levels s) (in_levels b q book s i k i_n m)

  pub data_kept : (a : ℕ) → k ≢ a → SameData (pooled b' a) (pooled b a)
  data_kept a ne =
      let first =
        taken-SameData b s i k (sub32 (level b s i).total_quantity (pooled b k).quantity) 0
          (in_levels b q book s i k i_n m) (in_pool b q book s i k i_n m) a ne in
      let second =
        unlinked-SameData (emptied b q book s i k i_n m) s i k (q s i) a in_emptied
          (emptied-Queued b q book s i k i_n m) m in
      record {
        id = second.id ∙ first.id;
        price = second.price ∙ first.price;
        quantity = second.quantity ∙ first.quantity;
        side = second.side ∙ first.side;
      }

  -- An order of the queues that are left is an order of the same queue, and not the one removed.
  kept :
      (s' : Side) (j a : ℕ)
      → j < b.num_levels
      → has a (q' s' j) ≡ true
      → (k ≢ a) × (has a (q s' j) ≡ true)
  kept s' j a j_n h = elim (Bool-cases (same_level s i s' j)) [
    | inl at ↦
        let e = same_level-eq s i s' j at in
        let g : has a (without k (q s i)) ≡ true = rw at at h in
        let w = has-without k a (q s i) (book.queued s i i_n).distinct in
        (ground (arith, w, g), rw (e.0, e.1) (ground (arith, w, g)))
    | inr off ↦
        let g : has a (q s' j) ≡ true = rw off at h in
        let out = queues-apart b q book s i s' j a i_n j_n off g in
        (λ same. (let n : has a (q s i) ≡ true = subst (λ x. has x (q s i) ≡ true) same m in cc), g)
  ]

  left-Queued : (s' : Side) (j : ℕ) → j < b.num_levels → Queued b' s' j (q' s' j)
  left-Queued s' j j_n = elim (Bool-cases (same_level s i s' j)) [
    | inl at ↦
        let e = same_level-eq s i s' j at in
        let h = outside-Queued b q book s i k i_n m in
        rw at (
          rw (e.0, e.1)
            (record {
              links = h.links;
              head = h.head;
              tail = h.tail;
              distinct = h.distinct;
              inside = h.inside;
            }))
    | inr off ↦
        let h =
          other_level-Queued (emptied b q book s i k i_n m) s i k (q s i) s' j (q s' j) in_emptied
            (emptied-Queued b q book s i k i_n m) m off
            (λ a g. queues-apart b q book s i s' j a i_n j_n off g)
            (taken-Queued b s i k (sub32 (level b s i).total_quantity (pooled b k).quantity) 0
              (in_levels b q book s i k i_n m) (in_pool b q book s i k i_n m) s' j (q s' j)
              (book.queued s' j j_n)) in
        rw off (record {
          links = h.links;
          head = h.head;
          tail = h.tail;
          distinct = h.distinct;
          inside = h.inside;
        })
  ]

  entry_left : (s' : Side) (j a : ℕ) → j < b.num_levels → has a (q' s' j) ≡ true → IsEntry b' s' j a
  entry_left s' j a j_n h =
      let (ne, g) = kept s' j a j_n h in
      let e = book.entry s' j a j_n g in
      let d = data_kept a ne in
      let gone_found = (book.entry s i k i_n m).found in
      record {
        side = d.side ∙ e.side;
        price = rw (d.price, same_min) e.price;
        some_shares = rw d.quantity e.some_shares;
        small = rw d.quantity e.small;
        found = rw d.id (
            (erased.maps (pooled b a).id a).1 (
              (λ same. ne (
                  Maps-functional b.table (pooled b k).id k a book.table gone_found
                    (subst (λ x. Maps b.table x a) same e.found))),
              e.found,
            ));
      }

  mapped_left :
      (id a : ℕ)
      → Maps t id a
      → (s' : Side) × (j : ℕ) × (j < b'.num_levels)
        × (has a (q' s' j) ≡ true)
        × ((pooled b' a).id ≡ id)
  mapped_left id a h =
      let (other, old) = (erased.maps id a).0 h in
      let (s', j, j_n, g, e) = book.mapped id a old in
      let ne : k ≢ a = λ same. other (sym e ∙ sym (ap (λ x. (pooled b x).id) same)) in
      (
        s',
        j,
        rw same_count j_n,
        elim (Bool-cases (same_level s i s' j)) [
          | inl at ↦
              let f = same_level-eq s i s' j at in
              let g' : has a (q s i) ≡ true = rw (f.0, f.1) at g in
              let w = has-without k a (q s i) (book.queued s i i_n).distinct in
              rw at (ground (arith, w, g', ne))
          | inr off ↦ rw off g
        ],
        (data_kept a ne).id ∙ e,
      )

  total_left :
      (s' : Side) (j : ℕ)
      → j < b.num_levels
      → (level b' s' j).total_quantity ≡ shares b' (q' s' j) % u32_mod
  unfolding sub32
  total_left s' j j_n =
      let lu =
        level-unlinked (emptied b q book s i k i_n m) s i (pooled (emptied b q book s i k i_n m) k)
          s' j in_emptied in
      let lt =
        level-taken b s i k (sub32 (level b s i).total_quantity (pooled b k).quantity) 0
          (in_levels b q book s i k i_n m) (in_pool b q book s i k i_n m) in
      let same = shares-SameData b b' (q' s' j) (λ a h. data_kept a (kept s' j a j_n h).0) in
      rw same (elim (Bool-cases (same_level s i s' j)) [
        | inl at ↦
            let e = same_level-eq s i s' j at in
            let here : (level b' s' j).total_quantity
                ≡ sub32 (level b s i).total_quantity (pooled b k).quantity =
              ap (λ (l : PriceLevel). l.total_quantity) lu
              ∙ rw at (
                  ap (λ (l : PriceLevel). l.total_quantity) (lt s i)
                  ∙ rw (same_level_refl s i) refl) in
            rw (here, at, book.total s i i_n, shares-without b k (q s i) m)
              (omega (arith, (book.entry s i k i_n m).small))
        | inr off ↦
            let here : (level b' s' j).total_quantity ≡ (level b s' j).total_quantity =
              ap (λ (l : PriceLevel). l.total_quantity) lu
              ∙ rw off (ap (λ (l : PriceLevel). l.total_quantity) (lt s' j) ∙ rw off refl) in
            rw (here, off) (book.total s' j j_n)
      ])

  same_index :
      price_to_index (outside b q book s i k i_n m) (pooled (emptied b q book s i k i_n m) k).price
      ≡ i
  unfolding price_to_index
  same_index =
      rw (same_min, ap (λ (r : FastOrder). r.price) (entry_emptied b q book s i k i_n m))
        (price_to_index-entry b q book s i k i_n m)

  abbrev cleared : HierarchicalBitset
  cleared = reset_bit (b.bitsets s) i

  bits_left :
      (s' : Side)
      → b'.bitsets s'
        ≡ (if is_empty (without k (q s i)) && same_side s s' then cleared else b.bitsets s')
  bits_left s' = elim (Bool-cases (is_empty (without k (q s i)))) [
    | inl none_left ↦
        rw (none_left, same_index, same_bits s)
          (at_side-eq s cleared (outside b q book s i k i_n m).bitsets s' ∙ rw (same_bits s') refl)
    | inr some_left ↦ rw some_left (same_bits s')
  ]

  clear_ok :
      IsBitset cleared
      × ((j : ℕ)
          → contains cleared.tiers j ≡ (if j == i then 0 else contains (b.bitsets s).tiers j))
  clear_ok = reset_bit-contains (b.bitsets s) i (book.bitset s) (rw (book.bit_count s) i_n)

  left-IsBitset :
      (s' : Side) → IsBitset (b'.bitsets s') × ((b'.bitsets s').num_bits ≡ b'.num_levels)
  unfolding reset_bit
  left-IsBitset s' =
      rw (bits_left s', same_count)
        (elim (Bool-cases (is_empty (without k (q s i)) && same_side s s')) [
          | inl on ↦ rw on (clear_ok.0, book.bit_count s)
          | inr off ↦ rw off (book.bitset s', book.bit_count s')
        ])

  not_empty : (xs : List ℕ) → has k xs ≡ true → is_empty xs ≡ false
  not_empty [] h = cc
  not_empty (x ∷ xs) h = refl

  spare_left : (s' : Side) (j : ℕ) → b.num_levels ≤ j → contains (b'.bitsets s').tiers j ≡ 0
  spare_left s' j h =
      rw (bits_left s') (elim (Bool-cases (is_empty (without k (q s i)) && same_side s s')) [
        | inl on ↦
            let off : (j == i) ≡ false = ground (arith, i_n, h) in
            rw on (clear_ok.1 j ∙ rw off (book.spare s j h))
        | inr off ↦ rw off (book.spare s' j h)
      ])

  tick_here :
      (j : ℕ)
      → j < b.num_levels
      → contains (if is_empty (without k (q s i)) && true then cleared else b.bitsets s).tiers j
        ≡ (if is_empty (if true && (i == j) then without k (q s i) else q s j) then 0 else 1)
  tick_here j j_n =
      let old = book.tick s j j_n in
      elim (Bool-cases (i == j)) [
        | inl at ↦
            let f : j ≡ i = ground arith in
            let g : (j == i) ≡ true = ground arith in
            let some_at : is_empty (q s j) ≡ false = rw f (not_empty (q s i) m) in
            elim (Bool-cases (is_empty (without k (q s i)))) [
              | inl e ↦ rw (at, e) (clear_ok.1 j ∙ rw g refl)
              | inr e ↦ rw (at, e) (old ∙ rw some_at refl)
            ]
        | inr off ↦
            let g : (j == i) ≡ false = ground arith in
            elim (Bool-cases (is_empty (without k (q s i)))) [
              | inl e ↦ rw (off, e) (clear_ok.1 j ∙ rw g old)
              | inr e ↦ rw (off, e) old
            ]
      ]

  tick_left :
      (s' : Side) (j : ℕ)
      → j < b.num_levels
      → contains (b'.bitsets s').tiers j ≡ (if is_empty (q' s' j) then 0 else 1)
  tick_left s' j j_n = rw (bits_left s') (elim (Bool-cases (same_side s s')) [
    | inr off ↦ rw off (elim (Bool-cases (is_empty (without k (q s i)))) [
      | inl e ↦ rw e (book.tick s' j j_n)
      | inr e ↦ rw e (book.tick s' j j_n)
    ])
    | inl on ↦ rw (on, sym (same_side-eq s s' on)) (tick_here j j_n)
  ])

  free_left : (a : ℕ) → has a b'.free_list ≡ true → a < length b'.pool
  free_left a h = rw same_pool (elim (Bool-cases (a == k)) [
    | inl at ↦ let e : a ≡ k = ground arith in rw e (in_pool b q book s i k i_n m)
    | inr off ↦ book.free a (
        let g : has a (k ∷ b.free_list) ≡ true = subst (λ xs. has a xs ≡ true) same_free h in
        ground (arith, g))
  ])

  apart_left :
      (s' : Side) (j a : ℕ) → j < b.num_levels → has a (q' s' j) ≡ true → has a b'.free_list ≡ false
  apart_left s' j a j_n h =
      let (ne, g) = kept s' j a j_n h in
      let out = book.free_apart s' j a j_n g in
      subst (λ xs. has a xs ≡ false) (sym same_free) (ground (arith, out, ne))

  pub dropped-IsBook : IsBook b' q'
  dropped-IsBook =
      let back : (j : ℕ) → j < b'.num_levels → j < b.num_levels = λ j h. rw same_count at h in
      let size = length_eq in
      let less = erased.count k (book.entry s i k i_n m).found in
      record {
        range = rw (same_min, same_max, same_count) book.range;
        max_small = rw same_max book.max_small;
        level_count = λ s'. rw (same_levels s', same_count) (book.level_count s');
        bit_count = λ s'. (left-IsBitset s').1;
        bitset = λ s'. (left-IsBitset s').0;
        spare = λ s' j h. spare_left s' j (rw same_count at h);
        tick = λ s' j h. tick_left s' j (back j h);
        queued = λ s' j h. left-Queued s' j (back j h);
        entry = λ s' j a h. entry_left s' j a (back j h);
        total = λ s' j h. total_left s' j (back j h);
        table = erased.valid;
        mapped = mapped_left;
        free = free_left;
        free_distinct =
            subst Distinct (sym same_free) (book.free_apart s i k i_n m, book.free_distinct);
        free_apart = λ s' j a h. apart_left s' j a (back j h);
        balance = omega (arith, less, book.balance, size, same_pool);
        wide = rw (same_pool, erased.size) book.wide;
        count = rw one_less (omega (arith, less, book.count, book.balance, book.pool_small));
        pool_small = rw same_pool book.pool_small;
      }
    where
      length_eq : length b'.free_list ≡ suc (length b.free_list)
      length_eq = ap (λ (xs : List ℕ). length xs) same_free
