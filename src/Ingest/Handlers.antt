-- ===== src/Ingest/Handlers.antt =====
-- Each handler keeps the book balanced, under what ITCH promises of its message.
use mathlib.Core.Path.{subst}
use lob_project.Base.{
  ℕ, ◌+◌, ◌-◌, ◌<◌, ◌≤◌, ◌≡◌, refl, sym, some, none, arith, inl, inr, leb, ◌==◌, min, Bool-cases,
  Option-cases, sub32-eq-sub, u32_mod, ==_refl,
}
use lob_project.SortedMap.{find, erase}
use lob_project.SortedMap.Laws.{Ascending, find-update}
use lob_project.Ingest.{
  IngestBook, LiveOrder, is_bid, put_live, drop_live, remove_from_level, record_fill, execute_live,
  on_add, on_executed, on_executed_price, on_cancel, on_delete, on_replace, emit_enter, emit_cancel,
}
use lob_project.Ingest.Balance.{
  Balanced, Fits, resting, placed-Balanced, trimmed-Balanced, gone-Balanced, spent-Balanced,
  live_word,
}

-- The counters and the fills are no part of the balance.
recorded-Balanced :
    (b : IngestBook) (ref price shares match_num : ℕ)
    → Balanced b
    → Balanced (record_fill b ref price shares match_num)
unfolding record_fill
recorded-Balanced b ref price shares match_num h = record {
  live_sorted = h.live_sorted;
  sorted = h.sorted;
  levels = h.levels;
  small = h.small;
}

numbered-Balanced : (b : IngestBook) (n : ℕ) → Balanced b → Balanced (record b { seq_num = n })
numbered-Balanced b n h = record {
  live_sorted = h.live_sorted;
  sorted = h.sorted;
  levels = h.levels;
  small = h.small;
}

pub on_add-Balanced :
    (b : IngestBook) (ref side shares price : ℕ)
    → Balanced b
    → find ref b.live ≡ none
    → Fits b side price shares
    → Balanced (on_add b ref side shares price).book
unfolding on_add emit_enter
on_add-Balanced b ref side shares price h new room =
    let o : LiveOrder = record { order_ref = ref; price = price; shares = shares; side = side } in
    numbered-Balanced _ _ (placed-Balanced b ref o h new room)

execute_live-Balanced :
    (b : IngestBook) (ref shares : ℕ) (o : LiveOrder)
    → Balanced b
    → find ref b.live ≡ some o
    → shares ≤ o.shares
    → Balanced (execute_live (remove_from_level b o.side o.price shares) ref o shares)
unfolding execute_live
execute_live-Balanced b ref shares o h found within = elim (Bool-cases (leb o.shares shares)) [
  | inl all_gone ↦
      let e : shares ≡ o.shares = ground arith in
      rw all_gone (
        subst (λ n. Balanced (drop_live (remove_from_level b o.side o.price n) ref)) (sym e)
          (gone-Balanced b ref o h found))
  | inr some_left ↦
      rw (some_left, sub32-eq-sub o.shares shares within (live_word b ref o h found))
        (trimmed-Balanced b ref shares o h found within)
]

-- No execution takes more than the order has.
abbrev pub Covered : IngestBook → ℕ → ℕ → Type 0
Covered b ref shares = (o : LiveOrder) → find ref b.live ≡ some o → shares ≤ o.shares

pub on_executed_price-Balanced :
    (b : IngestBook) (ref shares match_num price : ℕ)
    → Balanced b
    → Covered b ref shares
    → Balanced (on_executed_price b ref shares match_num price)
unfolding on_executed_price record_fill
on_executed_price-Balanced b ref shares match_num price h covered =
    elim (Option-cases (find ref b.live)) [
      | inl e ↦ rw (e, on_executed_price) h
      | inr (o, e) ↦
          rw (e, on_executed_price)
            (execute_live-Balanced (record_fill b ref price shares match_num) ref shares o
              (recorded-Balanced b ref price shares match_num h) e (covered o e))
    ]

pub on_executed-Balanced :
    (b : IngestBook) (ref shares match_num : ℕ)
    → Balanced b
    → Covered b ref shares
    → Balanced (on_executed b ref shares match_num)
unfolding on_executed record_fill
on_executed-Balanced b ref shares match_num h covered = elim (Option-cases (find ref b.live)) [
  | inl e ↦ rw (e, on_executed) h
  | inr (o, e) ↦
      rw (e, on_executed)
        (execute_live-Balanced (record_fill b ref o.price shares match_num) ref shares o
          (recorded-Balanced b ref o.price shares match_num h) e (covered o e))
]

pub on_delete-Balanced : (b : IngestBook) (ref : ℕ) → Balanced b → Balanced (on_delete b ref).book
unfolding on_delete emit_cancel drop_live
on_delete-Balanced b ref h = elim (Option-cases (find ref b.live)) [
  | inl e ↦ rw (e, on_delete) h
  | inr (o, e) ↦ rw (e, on_delete) (numbered-Balanced _ _ (gone-Balanced b ref o h e))
]

found_again :
    (b : IngestBook) (ref : ℕ) (o : LiveOrder)
    → Ascending b.live
    → find ref (put_live b ref o).live ≡ some o
unfolding put_live
found_again b ref o h = rw (find-update ref ref o (λ old. o) b.live h, ==_refl ref) refl

pub on_cancel-Balanced :
    (b : IngestBook) (ref cancelled_shares : ℕ)
    → Balanced b
    → Balanced (on_cancel b ref cancelled_shares).book
unfolding on_cancel emit_cancel drop_live put_live remove_from_level
on_cancel-Balanced b ref cancelled_shares h = elim (Option-cases (find ref b.live)) [
  | inl e ↦ rw (e, on_cancel) h
  | inr (o, e) ↦
      rw (e, on_cancel)
        (let actual = min cancelled_shares o.shares in
          let left : LiveOrder = record o { shares = o.shares - actual } in
          let within : actual ≤ o.shares = omega arith in
          let trimmed = trimmed-Balanced b ref actual o h e within in
          rw (sub32-eq-sub o.shares actual within (live_word b ref o h e))
            (elim (Bool-cases (o.shares - actual == 0)) [
              | inl spent ↦ rw spent (
                  numbered-Balanced _ _ (
                    spent-Balanced _ ref left trimmed
                      (found_again (remove_from_level b o.side o.price actual) ref left
                        h.live_sorted)
                      (ground arith)))
              | inr some_left ↦ rw some_left (numbered-Balanced _ _ trimmed)
            ]))
]

pub on_replace-Balanced :
    (b : IngestBook) (orig neo shares price : ℕ)
    → Balanced b
    → ((o : LiveOrder)
        → find orig b.live ≡ some o
        → (find neo (erase orig b.live) ≡ none)
          × (resting (is_bid o.side) price (erase orig b.live) + shares < u32_mod))
    → Balanced (on_replace b orig neo shares price).book
unfolding on_replace emit_cancel emit_enter drop_live remove_from_level
on_replace-Balanced b orig neo shares price h rules = elim (Option-cases (find orig b.live)) [
  | inl e ↦ rw (e, on_replace) h
  | inr (o, e) ↦
      rw (e, on_replace)
        (let new : LiveOrder = record {
          order_ref = neo;
          price = price;
          shares = shares;
          side = o.side;
        } in
          numbered-Balanced _ _ (
            placed-Balanced _ neo new (numbered-Balanced _ _ (gone-Balanced b orig o h e))
              (rules o e).0 (rules o e).1))
]
