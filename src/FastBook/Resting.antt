-- ===== src/FastBook/Resting.antt =====
-- The book in which a new order rests is well formed.
use mathlib.Core.Path.{subst}
use lob_project.Base.{
  ℕ, ◌≤◌, suc, ◌+◌, ◌%◌, ◌<◌, true, false, List, [], ◌∷◌, ◌++◌, none, some, ◌==◌, ◌≡◌, ◌≢◌, ◌⊎◌,
  ◌&&◌, refl, sym, ap, ◌∙◌, arith, Bool-cases, inl, inr, length, is_empty, add32, u32_mod, u64_mod,
  if◌then◌else◌,
}
use lob_project.Types.{Side}
use lob_project.Bitset.{HierarchicalBitset, set_bit}
use lob_project.Bitset.First.{contains, IsBitset}
use lob_project.Bitset.Setting.{set_bit-contains}
use lob_project.OrderTable.{OrderTable, ht_insert}
use lob_project.OrderTable.Valid.{Maps}
use lob_project.OrderTable.Insert.{Inserted, ht_insert-Inserted}
use lob_project.FastBook.{PriceLevel, FastBook, pooled, level, at_side}
use lob_project.FastBook.Adding.{append_level}
use lob_project.FastBook.Links.{has, has-snoc, has-append, Distinct}
use lob_project.FastBook.Access.{
  same_level, same_side, same_side-eq, same_level_refl, at_side-eq, Apart,
}
use lob_project.FastBook.Unlink.{Queued, SameData}
use lob_project.FastBook.Valid.{IsEntry, IsBook, shares}
use lob_project.FastBook.Queues.{same_level-eq, queues-apart, shares-SameData}
use lob_project.FastBook.Cancel.{Unknown}
use lob_project.FastBook.Linking.{
  linked, linked-Apart, level-linked, linked-SameData, linked_at, linked-Queued, other_queue-Queued,
}

-- The queues with an order behind one of them.
abbrev pub queues_with : (Side → ℕ → List ℕ) → Side → ℕ → ℕ → Side → ℕ → List ℕ
queues_with q s i slot s' j = if same_level s i s' j then q s i ++ slot ∷ [] else q s' j

module _ (b : FastBook) (q : Side → ℕ → List ℕ) (book : IsBook b q) (s : Side)
    (i slot id price quantity : ℕ) (free : List ℕ) (i_n : i < b.num_levels)
    (top : b.free_list ≡ slot ∷ free) (at_price : price ≡ b.min_price + i) (pos : 0 < quantity)
    (small : quantity < u32_mod) (new : Unknown b q id) where
  abbrev pub popped : FastBook
  popped = record b { free_list = free }

  abbrev pub rested : OrderTable → FastBook
  rested t =
      let u = linked popped s i slot id price quantity in
      record u {
        bitsets = at_side s (set_bit (u.bitsets s) i) u.bitsets;
        table = t;
        num_orders = (b.num_orders + 1) % u64_mod;
      }

  pub inserted :
      (t : OrderTable) × (ht_insert b.table id slot ≡ some t) × Inserted b.table id slot t
  inserted =
      let size : length b.free_list ≡ suc (length free) = ap (λ (xs : List ℕ). length xs) top in
      ht_insert-Inserted b.table book.table id slot
        (λ w h. (let (s', j, j_n, m, same) = book.mapped id w h in new s' j w j_n m same))
        (omega (arith, size, book.balance, book.wide))

  in_free : has slot b.free_list ≡ true
  in_free = rw top (ground arith)

  slot_n : slot < length b.pool
  slot_n = book.free slot in_free

  unused : (s' : Side) (j : ℕ) → j < b.num_levels → has slot (q s' j) ≡ false
  unused s' j j_n = elim (Bool-cases (has slot (q s' j))) [
    | inl m ↦ let out = book.free_apart s' j slot j_n m in let m' = in_free in cc
    | inr out ↦ out
  ]

  in_levels : i < length (b.levels s)
  in_levels = rw (book.level_count s) i_n

  popped-Queued : (s' : Side) (j : ℕ) → j < b.num_levels → Queued popped s' j (q s' j)
  popped-Queued s' j j_n =
      let h = book.queued s' j j_n in
      record {
        links = h.links;
        head = h.head;
        tail = h.tail;
        distinct = h.distinct;
        inside = h.inside;
      }

  abbrev u : FastBook
  u = linked popped s i slot id price quantity

  pub frame : Apart popped u
  frame =
      linked-Apart popped s i slot id price quantity (q s i) in_levels slot_n
        (popped-Queued s i i_n) (unused s i i_n)

  pub data_kept : (a : ℕ) → slot ≢ a → SameData (pooled u a) (pooled b a)
  data_kept a ne =
      let d =
        linked-SameData popped s i slot id price quantity (q s i) in_levels slot_n
          (popped-Queued s i i_n) (unused s i i_n) a ne in
      record { id = d.id; price = d.price; quantity = d.quantity; side = d.side }

  -- An order of the queues is the new one at its level, or one that was in the queue.
  kept :
      (s' : Side) (j a : ℕ)
      → j < b.num_levels
      → has a (queues_with q s i slot s' j) ≡ true
      → ((a ≡ slot) × (s' ≡ s) × (j ≡ i)) ⊎ ((slot ≢ a) × (has a (q s' j) ≡ true))
  kept s' j a j_n m = elim (Bool-cases (same_level s i s' j)) [
    | inl at ↦
        let e = same_level-eq s i s' j at in
        let g : has a (q s i ++ slot ∷ []) ≡ true = rw at at m in
        elim (has-snoc slot a (q s i) g) [
          | inl f ↦ inl (f, e.0, e.1)
          | inr f ↦ inr (f.0, rw (e.0, e.1) f.1)
        ]
    | inr off ↦
        let g : has a (q s' j) ≡ true = rw off at m in
        let out = unused s' j j_n in
        inr (
          (λ same.
              (let n : has a (q s' j) ≡ false = subst (λ x. has x (q s' j) ≡ false) same out in
                cc)),
          g,
        )
  ]

  module _ (t : OrderTable) (ok : Inserted b.table id slot t) where
    abbrev b' : FastBook
    b' = rested t

    abbrev q' : Side → ℕ → List ℕ
    q' = queues_with q s i slot

    now-Queued : (s' : Side) (j : ℕ) → j < b.num_levels → Queued b' s' j (q' s' j)
    now-Queued s' j j_n = elim (Bool-cases (same_level s i s' j)) [
      | inl at ↦
          let e = same_level-eq s i s' j at in
          let h =
            linked-Queued popped s i slot id price quantity (q s i) in_levels slot_n
              (popped-Queued s i i_n) (unused s i i_n) in
          rw at (
            rw (e.0, e.1)
              (record {
                links = h.links;
                head = h.head;
                tail = h.tail;
                distinct = h.distinct;
                inside = h.inside;
              }))
      | inr off ↦
          let h =
            other_queue-Queued popped s i slot id price quantity (q s i) in_levels slot_n
              (popped-Queued s i i_n) (unused s i i_n) s' j (q s' j) off (unused s' j j_n)
              (λ a m. queues-apart b q book s i s' j a i_n j_n off m) (popped-Queued s' j j_n) in
          rw off (record {
            links = h.links;
            head = h.head;
            tail = h.tail;
            distinct = h.distinct;
            inside = h.inside;
          })
    ]

    pub new_data : SameData (pooled u slot) (record {
      id = id;
      price = price;
      quantity = quantity;
      prev = (level b s i).tail;
      next = none;
      side = s;
    })
    new_data =
        linked_at popped s i slot id price quantity (q s i) in_levels slot_n (popped-Queued s i i_n)
          (unused s i i_n)

    entry_now :
        (s' : Side) (j a : ℕ) → j < b.num_levels → has a (q' s' j) ≡ true → IsEntry b' s' j a
    entry_now s' j a j_n m = elim (kept s' j a j_n m) [
      | inl e ↦
          let d = new_data in
          rw (e.0, e.1, e.2)
            (record {
              side = d.side;
              price = rw (d.price, frame.min_price) at_price;
              some_shares = rw d.quantity pos;
              small = rw d.quantity small;
              found = rw d.id ((ok.maps id slot).1 (inl (refl, refl)));
            })
      | inr e ↦
          let d = data_kept a e.0 in
          let old = book.entry s' j a j_n e.1 in
          record {
            side = d.side ∙ old.side;
            price = rw (d.price, frame.min_price) old.price;
            some_shares = rw d.quantity old.some_shares;
            small = rw d.quantity old.small;
            found = rw d.id ((ok.maps (pooled b a).id a).1 (inr old.found));
          }
    ]

    mapped_now :
        (id' a : ℕ)
        → Maps t id' a
        → (s' : Side) × (j : ℕ) × (j < b'.num_levels)
          × (has a (q' s' j) ≡ true)
          × ((pooled b' a).id ≡ id')
    mapped_now id' a h = elim ((ok.maps id' a).0 h) [
      | inl e ↦ (
        s,
        i,
        rw frame.num_levels i_n,
        rw (same_level_refl s i, e.1) (rw (has-append slot (q s i) (slot ∷ [])) (ground arith)),
        rw (e.0, e.1) (new_data.id),
      )
      | inr old ↦
          let (s', j, j_n, m, same) = book.mapped id' a old in
          let ne : slot ≢ a = λ f.
            (let n : has a (q s' j) ≡ false =
                subst (λ x. has x (q s' j) ≡ false) f (unused s' j j_n) in
              cc) in
          (
            s',
            j,
            rw frame.num_levels j_n,
            elim (Bool-cases (same_level s i s' j)) [
              | inl at ↦
                  let e = same_level-eq s i s' j at in
                  let g : has a (q s i) ≡ true = rw (e.0, e.1) at m in
                  rw at (rw (has-append a (q s i) (slot ∷ []), g) refl)
              | inr off ↦ rw off m
            ],
            (data_kept a ne).id ∙ same,
          )
    ]

    shares-snoc : (xs : List ℕ) → shares b' (xs ++ slot ∷ []) ≡ shares b' xs + quantity
    shares-snoc [] = omega (arith, new_data.quantity)
    shares-snoc (x ∷ xs) = omega (arith, shares-snoc xs)

    shares_kept : (s' : Side) (j : ℕ) → j < b.num_levels → shares b' (q s' j) ≡ shares b (q s' j)
    shares_kept s' j j_n = shares-SameData b b' (q s' j) (λ a m. data_kept a (λ f.
        (let n : has a (q s' j) ≡ false = subst (λ x. has x (q s' j) ≡ false) f (unused s' j j_n) in
          cc)))

    total_now :
        (s' : Side) (j : ℕ)
        → j < b.num_levels
        → (level b' s' j).total_quantity ≡ shares b' (q' s' j) % u32_mod
    unfolding append_level add32
    total_now s' j j_n =
        let l =
          level-linked popped s i slot id price quantity (q s i) in_levels slot_n
            (popped-Queued s i i_n) (unused s i i_n) s' j in
        elim (Bool-cases (same_level s i s' j)) [
          | inl at ↦
              let here : (level b' s' j).total_quantity
                  ≡ add32 (level b s i).total_quantity quantity =
                ap (λ (l : PriceLevel). l.total_quantity) l ∙ rw at refl in
              rw (here, at, shares-snoc (q s i), shares_kept s i i_n, book.total s i i_n)
                (omega arith)
          | inr off ↦
              let here : (level b' s' j).total_quantity ≡ (level b s' j).total_quantity =
                ap (λ (l : PriceLevel). l.total_quantity) l ∙ rw off refl in
              rw (here, off, shares_kept s' j j_n) (book.total s' j j_n)
        ]

    abbrev marked : HierarchicalBitset
    marked = set_bit (b.bitsets s) i

    bits_now : (s' : Side) → b'.bitsets s' ≡ (if same_side s s' then marked else b.bitsets s')
    bits_now s' =
        rw (frame.bitsets s) (at_side-eq s marked u.bitsets s' ∙ rw (frame.bitsets s') refl)

    mark_ok :
        IsBitset marked
        × ((j : ℕ)
            → contains marked.tiers j ≡ (if j == i then 1 else contains (b.bitsets s).tiers j))
    mark_ok = set_bit-contains (b.bitsets s) i (book.bitset s) (rw (book.bit_count s) i_n)

    now-IsBitset :
        (s' : Side) → IsBitset (b'.bitsets s') × ((b'.bitsets s').num_bits ≡ b'.num_levels)
    unfolding set_bit
    now-IsBitset s' =
        rw (bits_now s', frame.num_levels)
          (elim (Bool-cases (same_side s s')) [
            | inl on ↦ rw on (mark_ok.0, book.bit_count s)
            | inr off ↦ rw off (book.bitset s', book.bit_count s')
          ])

    snoc-empty : (xs : List ℕ) → is_empty (xs ++ slot ∷ []) ≡ false
    snoc-empty [] = refl
    snoc-empty (x ∷ xs) = refl

    spare_now : (s' : Side) (j : ℕ) → b.num_levels ≤ j → contains (b'.bitsets s').tiers j ≡ 0
    spare_now s' j h = rw (bits_now s') (elim (Bool-cases (same_side s s')) [
      | inl on ↦
          let off : (j == i) ≡ false = ground (arith, i_n, h) in
          rw on (mark_ok.1 j ∙ rw off (book.spare s j h))
      | inr off ↦ rw off (book.spare s' j h)
    ])

    tick_here :
        (j : ℕ)
        → j < b.num_levels
        → contains marked.tiers j
          ≡ (if is_empty (if true && (i == j) then q s i ++ slot ∷ [] else q s j) then 0 else 1)
    tick_here j j_n = elim (Bool-cases (i == j)) [
      | inl at ↦
          let g : (j == i) ≡ true = ground arith in
          rw (at, snoc-empty (q s i)) (mark_ok.1 j ∙ rw g refl)
      | inr off ↦
          let g : (j == i) ≡ false = ground arith in rw off (mark_ok.1 j ∙ rw g (book.tick s j j_n))
    ]

    tick_now :
        (s' : Side) (j : ℕ)
        → j < b.num_levels
        → contains (b'.bitsets s').tiers j ≡ (if is_empty (q' s' j) then 0 else 1)
    tick_now s' j j_n = rw (bits_now s') (elim (Bool-cases (same_side s s')) [
      | inr off ↦ rw off (book.tick s' j j_n)
      | inl on ↦ rw (on, sym (same_side-eq s s' on)) (tick_here j j_n)
    ])

    free_now : (a : ℕ) → has a free ≡ true → has a b.free_list ≡ true
    free_now a m = rw top (ground (arith, m))

    free_split : (has slot free ≡ false) × Distinct free
    free_split = subst Distinct top book.free_distinct

    apart_now :
        (s' : Side) (j a : ℕ) → j < b.num_levels → has a (q' s' j) ≡ true → has a free ≡ false
    apart_now s' j a j_n m = elim (kept s' j a j_n m) [
      | inl e ↦ rw (e.0) free_split.0
      | inr e ↦
          let out : has a (slot ∷ free) ≡ false =
            subst (λ xs. has a xs ≡ false) top (book.free_apart s' j a j_n e.1) in
          ground (arith, out)
    ]

    pub rested-IsBook : IsBook b' q'
    rested-IsBook =
        let back : (j : ℕ) → j < b'.num_levels → j < b.num_levels =
          λ j h. rw frame.num_levels at h in
        let size : length b.free_list ≡ suc (length free) = ap (λ (xs : List ℕ). length xs) top in
        record {
          range = rw (frame.min_price, frame.max_price, frame.num_levels) book.range;
          max_small = rw frame.max_price book.max_small;
          level_count = λ s'. rw (frame.levels s', frame.num_levels) (book.level_count s');
          bit_count = λ s'. (now-IsBitset s').1;
          bitset = λ s'. (now-IsBitset s').0;
          spare = λ s' j h. spare_now s' j (rw frame.num_levels at h);
          tick = λ s' j h. tick_now s' j (back j h);
          queued = λ s' j h. now-Queued s' j (back j h);
          entry = λ s' j a h. entry_now s' j a (back j h);
          total = λ s' j h. total_now s' j (back j h);
          table = ok.valid;
          mapped = mapped_now;
          free = λ a m.
              rw frame.pool
                (book.free a (free_now a (subst (λ xs. has a xs ≡ true) frame.free_list m)));
          free_distinct = subst Distinct (sym frame.free_list) free_split.1;
          free_apart = λ s' j a h m.
              subst (λ xs. has a xs ≡ false) (sym frame.free_list) (apart_now s' j a (back j h) m);
          balance = rw (frame.free_list, frame.pool) (omega (arith, ok.count, size, book.balance));
          wide = rw (frame.pool, ok.size) book.wide;
          count = omega (arith, ok.count, book.count, book.balance, book.pool_small);
          pool_small = rw frame.pool book.pool_small;
        }
