-- ===== src/Runner/Input.antt =====
-- The dispatch loop reads a stream of messages one by one.
use mathlib.Core.List.{append-nil, append_assoc}
use lob_project.Base.{
  ℕ, zero, suc, ◌+◌, ◌-◌, ◌%◌, ◌<◌, ◌≤◌, ◌≡◌, refl, ap, sym, ◌∙◌, ◌⊎◌, inl, inr, true, false, List,
  [], ◌∷◌, ◌++◌, some, arith, length, length-append, All, ltb, ◌==◌, Bool-cases,
}
use lob_project.Bytes.{le_bytes}
use lob_project.Bytes.Slices.{take-append, drop-append}
use lob_project.Protocol.MsgType
use lob_project.Protocol.Layout
use lob_project.Protocol.Codec.{
  InboundMsg, enter, cancel, replace, msg_size, peek_type, decode_inbound,
}
use lob_project.Protocol.RoundTrip.{layout, IsInbound, decode_inbound-layout}
use lob_project.Runner.{Book, Running, handle, run, run_stream}

abbrev pub layouts : List InboundMsg → List ℕ
layouts [] = []
layouts (m ∷ ms) = layout m ++ layouts ms

-- A stream ends where no whole message follows: at its end, at a byte that is no message type,
-- or inside a message.
abbrev pub IsEnd : List ℕ → Type 0
IsEnd rest = (msg_size (peek_type rest) ≡ 0) ⊎ (length rest < msg_size (peek_type rest))

length-layout : (m : InboundMsg) → length (layout m) ≡ 32
unfolding Layout.enter_order Layout.cancel_order Layout.replace_order le_bytes
length-layout (enter m) = refl
length-layout (cancel m) = refl
length-layout (replace m) = refl

msg_size-layout : (m : InboundMsg) → IsInbound m → msg_size (peek_type (layout m)) ≡ 32
unfolding Layout.enter_order Layout.cancel_order Layout.replace_order le_bytes msg_size
msg_size-layout (enter m) h =
    let t : m.msg_type % 256 ≡ MsgType.enter_order = omega (arith, h.msg_type) in rw t refl
msg_size-layout (cancel m) h =
    let t : m.msg_type % 256 ≡ MsgType.cancel_order = omega (arith, h.msg_type) in rw t refl
msg_size-layout (replace m) h =
    let t : m.msg_type % 256 ≡ MsgType.replace_order = omega (arith, h.msg_type) in rw t refl

module _ (book : Book) where
  pub handle_all : Running book → List InboundMsg → Running book
  handle_all r [] = r
  handle_all r (m ∷ ms) = handle_all (handle book r m) ms

  -- One round, for the bytes `l` of a message of 32 bytes.
  run_round :
      (fuel : ℕ) (r : Running book) (l rest : List ℕ) (m : InboundMsg)
      → length l ≡ 32
      → msg_size (peek_type l) ≡ 32
      → decode_inbound l ≡ some m
      → run book (suc fuel) r (l ++ rest) ≡ run book fuel (handle book r m) rest
  unfolding run
  run_round fuel r [] rest m n s d = absurd (omega arith)
  run_round fuel r (t ∷ body) rest m n s d =
      let long : ltb (length (body ++ rest)) 31 ≡ false = ground (arith, length-append body rest) in
      rw
        (
          s,
          take-append 31 body rest (omega arith),
          drop-append 31 31 body rest (omega arith) (omega arith),
          d,
          long,
        )
        refl

  run-layout :
      (fuel : ℕ) (r : Running book) (m : InboundMsg) (rest : List ℕ)
      → IsInbound m
      → run book (suc fuel) r (layout m ++ rest) ≡ run book fuel (handle book r m) rest
  run-layout fuel r m rest h =
      run_round fuel r (layout m) rest m (length-layout m) (msg_size-layout m h)
        (ap decode_inbound (sym (append-nil (layout m))) ∙ decode_inbound-layout m [] h)

  run_end : (fuel : ℕ) (r : Running book) (rest : List ℕ) → IsEnd rest → run book fuel r rest ≡ r
  unfolding run
  run_end zero r rest h = refl
  run_end (suc fuel) r [] h = refl
  run_end (suc fuel) r (t ∷ rest) (inl h) = rw h refl
  run_end (suc fuel) r (t ∷ rest) (inr h) = elim (Bool-cases (msg_size t == 0)) [
    | inl zero_size ↦ rw zero_size refl
    | inr sized ↦
        let short : ltb (length rest) (msg_size t - 1) ≡ true = ground arith in
        rw (sized, short) refl
  ]

  run-layouts :
      (fuel : ℕ) (r : Running book) (ms : List InboundMsg) (rest : List ℕ)
      → length ms ≤ fuel
      → All IsInbound ms
      → IsEnd rest
      → run book fuel r (layouts ms ++ rest) ≡ handle_all r ms
  unfolding handle_all
  run-layouts fuel r [] rest f h e = run_end fuel r rest e
  run-layouts zero r (m ∷ ms) rest f h e = absurd (omega arith)
  run-layouts (suc fuel) r (m ∷ ms) rest f h e =
      ap (run book (suc fuel) r) (append_assoc (layout m) (layouts ms) rest)
      ∙ run-layout fuel r m (layouts ms ++ rest) h.0
      ∙ run-layouts fuel (handle book r m) ms rest (omega arith) h.1 e

  length-layouts : (ms : List InboundMsg) → length ms ≤ length (layouts ms)
  length-layouts [] = omega arith
  length-layouts (m ∷ ms) =
      omega (arith, length-append (layout m) (layouts ms), length-layout m, length-layouts ms)

  -- For any book: the loop reads the layouts of inbound messages whose fields fit as those messages,
  -- hands them to the book in order, and ends where no whole message follows.
  pub run_stream-layouts :
      (r : Running book) (ms : List InboundMsg) (rest : List ℕ)
      → All IsInbound ms
      → IsEnd rest
      → run_stream book r (layouts ms ++ rest) ≡ handle_all r ms
  unfolding run_stream
  run_stream-layouts r ms rest h e =
      run-layouts (length (layouts ms ++ rest) + 1) r ms rest
        (omega (arith, length-append (layouts ms) rest, length-layouts ms)) h e
