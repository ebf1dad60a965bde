-- ===== src/FastBook/Requantified.antt =====
-- The book in which the quantity of an order and the total of its level are changed is well formed.
use lob_project.Base.{
  ℕ, ◌+◌, ◌%◌, ◌<◌, true, List, ◌==◌, ◌≡◌, ◌≢◌, refl, sym, ap, ◌∙◌, arith, Bool-cases, inl, inr,
  length, u32_mod,
}
use lob_project.Types.{Side}
use lob_project.OrderTable.Valid.{Maps}
use lob_project.FastBook.{FastOrder, PriceLevel, FastBook, pooled, level}
use lob_project.FastBook.Links.{has, without, has-without}
use lob_project.FastBook.Access.{Apart, same_level}
use lob_project.FastBook.Unlink.{SameData}
use lob_project.FastBook.Taking.{
  requantified, taken-Apart, pooled-taken, level-taken, taken-Queued, taken-SameData,
}
use lob_project.FastBook.Valid.{IsEntry, IsBook, shares}
use lob_project.FastBook.Queues.{same_level-eq, queues-apart, shares-without, shares-SameData}

module _ (b : FastBook) (q : Side → ℕ → List ℕ) (book : IsBook b q) (s : Side)
    (i k total quantity : ℕ) (i_n : i < b.num_levels) (m : has k (q s i) ≡ true)
    (pos : 0 < quantity) (small : quantity < u32_mod)
    (sum : total ≡ (shares b (without k (q s i)) + quantity) % u32_mod) where
  abbrev b' : FastBook
  b' = requantified b s i k total quantity

  in_levels : i < length (b.levels s)
  in_levels = rw (book.level_count s) i_n

  in_pool : k < length b.pool
  in_pool = (book.queued s i i_n).inside k m

  frame : Apart b b'
  frame = taken-Apart b s i k total quantity in_levels in_pool

  pub entry_now : pooled b' k ≡ record (pooled b k) { quantity = quantity }
  entry_now =
      let here : (k == k) ≡ true = ground arith in
      pooled-taken b s i k total quantity in_levels in_pool k ∙ rw here refl

  pub requantified-SameData : (a : ℕ) → k ≢ a → SameData (pooled b' a) (pooled b a)
  requantified-SameData = taken-SameData b s i k total quantity in_levels in_pool

  id_kept : (a : ℕ) → (pooled b' a).id ≡ (pooled b a).id
  id_kept a = elim (Bool-cases (k == a)) [
    | inl at ↦ let e : k ≡ a = ground arith in rw (sym e) (ap (λ (r : FastOrder). r.id) entry_now)
    | inr off ↦ (requantified-SameData a (ground arith)).id
  ]

  still_mapped : (id a : ℕ) → Maps b.table id a → Maps b'.table id a
  still_mapped id a h = rw frame.table h

  entry_kept : (s' : Side) (j a : ℕ) → j < b.num_levels → has a (q s' j) ≡ true → IsEntry b' s' j a
  entry_kept s' j a j_n h =
      let old = book.entry s' j a j_n h in
      elim (Bool-cases (k == a)) [
        | inl at ↦
            let e : k ≡ a = ground arith in
            let f : pooled b' a ≡ record (pooled b a) { quantity = quantity } =
              rw (sym e) entry_now in
            record {
              side = ap (λ (r : FastOrder). r.side) f ∙ old.side;
              price = rw frame.min_price (ap (λ (r : FastOrder). r.price) f ∙ old.price);
              some_shares = rw (ap (λ (r : FastOrder). r.quantity) f) pos;
              small = rw (ap (λ (r : FastOrder). r.quantity) f) small;
              found = rw (ap (λ (r : FastOrder). r.id) f) (still_mapped _ a old.found);
            }
        | inr off ↦
            let d = requantified-SameData a (ground arith) in
            record {
              side = d.side ∙ old.side;
              price = rw frame.min_price (d.price ∙ old.price);
              some_shares = rw d.quantity old.some_shares;
              small = rw d.quantity old.small;
              found = rw d.id (still_mapped _ a old.found);
            }
      ]

  shares_here : shares b' (q s i) ≡ quantity + shares b (without k (q s i))
  shares_here =
      let w : (a : ℕ) → has a (without k (q s i)) ≡ true → k ≢ a = λ a h.
        (let e = has-without k a (q s i) (book.queued s i i_n).distinct in ground (arith, e, h)) in
      rw
        (
          shares-without b' k (q s i) m,
          ap (λ (r : FastOrder). r.quantity) entry_now,
          shares-SameData b b' (without k (q s i)) (λ a h. requantified-SameData a (w a h)),
        )
        refl

  total_kept :
      (s' : Side) (j : ℕ)
      → j < b.num_levels
      → (level b' s' j).total_quantity ≡ shares b' (q s' j) % u32_mod
  total_kept s' j j_n =
      let l = level-taken b s i k total quantity in_levels in_pool s' j in
      elim (Bool-cases (same_level s i s' j)) [
        | inl at ↦
            let e = same_level-eq s i s' j at in
            let here : (level b' s' j).total_quantity ≡ total =
              ap (λ (l : PriceLevel). l.total_quantity) l ∙ rw at refl in
            rw (here, e.0, e.1, shares_here, sum) (omega arith)
        | inr off ↦
            let here : (level b' s' j).total_quantity ≡ (level b s' j).total_quantity =
              ap (λ (l : PriceLevel). l.total_quantity) l ∙ rw off refl in
            let ne : (a : ℕ) → has a (q s' j) ≡ true → k ≢ a = λ a h same.
              (let out = queues-apart b q book s i s' j a i_n j_n off h in
                let n : has a (q s i) ≡ true = rw (sym same) m in cc) in
            rw (here, shares-SameData b b' (q s' j) (λ a h. requantified-SameData a (ne a h)))
              (book.total s' j j_n)
      ]

  pub requantified-IsBook : IsBook b' q
  requantified-IsBook =
      let back : (j : ℕ) → j < b'.num_levels → j < b.num_levels = λ j h. rw frame.num_levels at h in
      record {
        range = rw (frame.min_price, frame.max_price, frame.num_levels) book.range;
        max_small = rw frame.max_price book.max_small;
        level_count = λ s'. rw (frame.levels s', frame.num_levels) (book.level_count s');
        bit_count = λ s'. rw (frame.bitsets s', frame.num_levels) (book.bit_count s');
        bitset = λ s'. rw (frame.bitsets s') (book.bitset s');
        spare = λ s' j h. rw (frame.bitsets s') (book.spare s' j (rw frame.num_levels at h));
        tick = λ s' j h. rw (frame.bitsets s') (book.tick s' j (back j h));
        queued = λ s' j h.
            taken-Queued b s i k total quantity in_levels in_pool s' j (q s' j)
              (book.queued s' j (back j h));
        entry = λ s' j a h. entry_kept s' j a (back j h);
        total = λ s' j h. total_kept s' j (back j h);
        table = rw frame.table book.table;
        mapped = λ id a h.
            (let (s', j, j_n, g, e) = book.mapped id a (rw frame.table at h) in
              (s', j, rw frame.num_levels j_n, g, id_kept a ∙ e));
        free = λ a h. rw frame.pool (book.free a (rw frame.free_list at h));
        free_distinct = rw frame.free_list book.free_distinct;
        free_apart = λ s' j a h g. rw frame.free_list (book.free_apart s' j a (back j h) g);
        balance = rw (frame.table, frame.free_list, frame.pool) book.balance;
        wide = rw (frame.pool, frame.table) book.wide;
        count = rw (frame.num_orders, frame.table) book.count;
        pool_small = rw frame.pool book.pool_small;
      }
