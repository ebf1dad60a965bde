-- ===== src/FastBook/Dropping.antt =====
-- Removing all shares of an order: the book that `remove_order` leaves.
use lob_project.Base.{
  ℕ, ◌+◌, ◌-◌, ◌%◌, ◌<◌, true, List, [], ◌∷◌, none, some, ◌==◌, ◌≡◌, refl, ap, ◌∙◌, arith, length,
  is_empty, sub32, u64_mod, if◌then◌else◌,
}
use lob_project.Types.{Side}
use lob_project.Bitset.{reset_bit}
use lob_project.OrderTable.{OrderTable, ht_erase}
use lob_project.OrderTable.Erase.{Erased, ht_erase-Erased}
use lob_project.FastBook.{
  FastOrder, FastBook, pooled, level, at_side, put_bits, price_to_index, take_shares, clear_bit,
  free_slot, drop_order, remove_order,
}
use lob_project.FastBook.Links.{has, without, first_or}
use lob_project.FastBook.Access.{unlinked, unlinked-Apart, Apart}
use lob_project.FastBook.Unlink.{Queued, unlinked-Queued}
use lob_project.FastBook.Taking.{requantified, taken-Apart, pooled-taken, taken-Queued}
use lob_project.FastBook.Valid.{IsBook}

clear_bit-eq :
    (b : FastBook) (s : Side) (i : ℕ) (o : FastOrder) (ys : List ℕ)
    → (level b s i).head ≡ first_or ys none
    → clear_bit b s i o ≡ record b {
      bitsets =
          if is_empty ys
          then at_side s (reset_bit (b.bitsets s) (price_to_index b o.price)) b.bitsets
          else b.bitsets;
    }
unfolding clear_bit put_bits
clear_bit-eq b s i o [] h = rw (clear_bit, h) refl
clear_bit-eq b s i o (y ∷ ys) h = rw (clear_bit, h) refl

-- The book that an order without shares leaves, where `ys` is left of its queue.
abbrev pub gone : FastBook → Side → ℕ → ℕ → List ℕ → OrderTable → FastBook
gone b s i k ys t =
    let u = unlinked b s i (pooled b k) in
    record u {
      bitsets =
          if is_empty ys
          then at_side s (reset_bit (u.bitsets s) (price_to_index u (pooled b k).price)) u.bitsets
          else u.bitsets;
      table = t;
      num_orders = (u.num_orders + u64_mod - 1) % u64_mod;
      free_list = k ∷ u.free_list;
    }

drop_order-gone :
    (b : FastBook) (s : Side) (i k : ℕ) (ys : List ℕ) (t : OrderTable)
    → (level (unlinked b s i (pooled b k)) s i).head ≡ first_or ys none
    → ht_erase (unlinked b s i (pooled b k)).table (pooled b k).id ≡ some t
    → drop_order b s i k ≡ some (gone b s i k ys t)
unfolding drop_order free_slot
drop_order-gone b s i k ys t h e =
    let cleared = clear_bit-eq (unlinked b s i (pooled b k)) s i (pooled b k) ys h in
    rw (drop_order, cleared, e, cleared) refl

module _ (b : FastBook) (q : Side → ℕ → List ℕ) (book : IsBook b q) (s : Side) (i k : ℕ)
    (i_n : i < b.num_levels) (m : has k (q s i) ≡ true) where
  abbrev pub all_shares : ℕ
  all_shares = (pooled b k).quantity

  abbrev pub emptied : FastBook
  emptied = requantified b s i k (sub32 (level b s i).total_quantity all_shares) 0

  abbrev pub outside : FastBook
  outside = unlinked emptied s i (pooled emptied k)

  abbrev pub left : List ℕ
  left = without k (q s i)

  abbrev pub dropped : OrderTable → FastBook
  dropped t = gone emptied s i k left t

  pub in_levels : i < length (b.levels s)
  in_levels = rw (book.level_count s) i_n

  pub in_pool : k < length b.pool
  in_pool = (book.queued s i i_n).inside k m

  pub emptied-Queued : Queued emptied s i (q s i)
  emptied-Queued =
      taken-Queued b s i k (sub32 (level b s i).total_quantity all_shares) 0 in_levels in_pool s i
        (q s i) (book.queued s i i_n)

  pub outside-Queued : Queued outside s i left
  outside-Queued =
      unlinked-Queued emptied s i k (q s i)
        (rw
          ((taken-Apart b s i k (sub32 (level b s i).total_quantity all_shares) 0 in_levels
              in_pool).levels
            s)
          in_levels)
        emptied-Queued m

  pub emptied-Apart : Apart b emptied
  emptied-Apart =
      taken-Apart b s i k (sub32 (level b s i).total_quantity all_shares) 0 in_levels in_pool

  pub outside-Apart : Apart emptied outside
  outside-Apart = unlinked-Apart emptied s i (pooled emptied k)

  -- The order in the pool once its shares are taken.
  pub entry_emptied : pooled emptied k ≡ record (pooled b k) { quantity = 0 }
  entry_emptied =
      let here : (k == k) ≡ true = ground arith in
      pooled-taken b s i k (sub32 (level b s i).total_quantity all_shares) 0 in_levels in_pool k
      ∙ rw here refl

  take_all : take_shares b s i k all_shares ≡ emptied
  unfolding take_shares sub32
  take_all =
      let zero_left : sub32 all_shares all_shares ≡ 0 =
        omega (arith, (book.entry s i k i_n m).small) in
      ap (λ (n : ℕ). requantified b s i k (sub32 (level b s i).total_quantity all_shares) n)
        zero_left

  same_table : outside.table ≡ b.table
  same_table = outside-Apart.table ∙ emptied-Apart.table

  -- The whole quantity of an order of the book is removed: the search in the table ends, and the
  -- book is `dropped`.
  pub remove_order-dropped :
      (t : OrderTable) × (remove_order b s i k all_shares ≡ some (dropped t))
      × Erased b.table (pooled b k).id t
  unfolding remove_order
  remove_order-dropped =
      let (t, e, erased) = ht_erase-Erased b.table book.table (pooled b k).id in
      let same_shares = take_all in
      let same_id : (pooled emptied k).id ≡ (pooled b k).id =
        ap (λ (r : FastOrder). r.id) entry_emptied in
      let none_left : (pooled emptied k).quantity ≡ 0 =
        ap (λ (r : FastOrder). r.quantity) entry_emptied in
      let none_left_test : ((pooled emptied k).quantity == 0) ≡ true = ground arith in
      (
        t,
        rw (same_shares, none_left_test)
            (drop_order-gone emptied s i k left t outside-Queued.head (rw (same_table, same_id) e)),
        erased,
      )
