-- ===== src/Runner/Output.antt =====
-- The messages that the runner writes are numbered without a gap.
use lob_project.Base.{ℕ, suc, ◌+◌, ◌<◌, ◌≡◌, refl, List, [], ◌∷◌, ◌++◌, arith, u64_mod}
use lob_project.Types.{Event, order_added, order_canceled, order_modified, order_filled}
use lob_project.Protocol.Codec.{OutboundMsg, added, executed, cancelled, traded, encode}
use lob_project.Protocol.Framing.{IsOutbound}
use lob_project.Runner.{
  Writer, next64, write_msg, on_order_added, on_order_canceled, on_order_filled, on_event,
  on_events,
}

abbrev pub out_seq_of : OutboundMsg → ℕ
out_seq_of (added m) = m.out_seq
out_seq_of (executed m) = m.out_seq
out_seq_of (cancelled m) = m.out_seq
out_seq_of (traded m) = m.out_seq

-- The bytes are those of messages numbered from 1 to `n`.
pub data Numbered : List ℕ → ℕ → Type 0 where
  nothing : Numbered [] 0
  then_message :
      {bytes : List ℕ} {n : ℕ} (m : OutboundMsg)
      → Numbered bytes n
      → IsOutbound m
      → out_seq_of m ≡ suc n
      → Numbered (bytes ++ encode m) (suc n)

-- The events that are written.
abbrev pub reported : List Event → ℕ
reported [] = 0
reported (order_modified id quantity ∷ es) = reported es
reported (order_added o ∷ es) = suc (reported es)
reported (order_canceled id quantity left ∷ es) = suc (reported es)
reported (order_filled a p price quantity ∷ es) = suc (reported es)

next64-eq-suc : (n : ℕ) → suc n < u64_mod → next64 n ≡ suc n
unfolding next64
next64-eq-suc n h = omega arith

abbrev Continues : Writer → ℕ → Writer → Type 0
Continues w k w' = Numbered w'.out w'.out_seq × (w'.out_seq ≡ w.out_seq + k)

on_event-Numbered :
    (w : Writer) (e : Event)
    → suc w.out_seq < u64_mod
    → Numbered w.out w.out_seq
    → Continues w (reported (e ∷ [])) (on_event w e)
unfolding on_event on_order_added on_order_canceled on_order_filled write_msg
on_event-Numbered w (order_modified id quantity) h n = (n, omega arith)
on_event-Numbered w (order_added o) h n =
    rw (next64-eq-suc w.out_seq h) (then_message _ n refl refl, omega arith)
on_event-Numbered w (order_canceled id quantity left) h n =
    rw (next64-eq-suc w.out_seq h) (then_message _ n refl refl, omega arith)
on_event-Numbered w (order_filled a p price quantity) h n =
    rw (next64-eq-suc w.out_seq h) (then_message _ n refl refl, omega arith)

reported-cons : (e : Event) (es : List Event) → reported (e ∷ es) ≡ reported (e ∷ []) + reported es
reported-cons (order_modified id quantity) es = omega arith
reported-cons (order_added o) es = omega arith
reported-cons (order_canceled id quantity left) es = omega arith
reported-cons (order_filled a p price quantity) es = omega arith

-- As long as the counter of 64 bits does not wrap, the output stays a sequence of well-formed
-- messages numbered 1, 2, 3 and so on, one for each event but a modification.
pub on_events-Numbered :
    (w : Writer) (es : List Event)
    → w.out_seq + reported es + 1 < u64_mod
    → Numbered w.out w.out_seq
    → Numbered (on_events w es).out (on_events w es).out_seq
      × ((on_events w es).out_seq ≡ w.out_seq + reported es)
unfolding on_events
on_events-Numbered w [] h n = (n, omega arith)
on_events-Numbered w (e ∷ es) h n =
    let more = reported-cons e es in
    let (n', seq) = on_event-Numbered w e (omega arith) n in
    let (last, total) = on_events-Numbered (on_event w e) es (omega (arith, more, seq)) n' in
    (last, omega (arith, more, seq, total))
