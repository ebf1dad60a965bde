-- ===== src/Itch/Ending.antt =====
-- Each message takes bytes from the stream, so that the loop ends on every stream.
use mathlib.Core.Path.{subst}
use lob_project.Base.{
  ℕ, zero, suc, ◌≤◌, ◌<◌, ◌≡◌, ◌⊎◌, refl, false, some, arith, inl, inr, ltb, ◌==◌, ◌||◌, Bool-cases,
  List, [], ◌∷◌, drop, length,
}
use lob_project.Itch.{
  ItchMsg, ParseError, ReadResult, message, end_of_stream, throws, read_itch_message, read_body,
}
use lob_project.Itch.Main.{Ingest, Exit, step, ingest}

length-drop : (n : ℕ) (xs : List ℕ) → length (drop n xs) ≤ length xs
length-drop zero xs = omega arith
length-drop (suc n) [] = omega arith
length-drop (suc n) (x ∷ xs) = omega (arith, length-drop n xs)

-- What is left of a stream by a read.
abbrev Shrinks : ℕ → ReadResult → Type 0
Shrinks n (message m rest) = length rest < n
Shrinks n end_of_stream = Unit
Shrinks n (throws e) = Unit

read_body-Shrinks :
    (stale : List ℕ) (body_len n : ℕ) (input : List ℕ)
    → length input < n
    → Shrinks n (read_body stale body_len input)
unfolding read_body
read_body-Shrinks stale body_len n input h = elim (Bool-cases (body_len == 0 || ltb 255 body_len)) [
  | inl implausible ↦ rw implausible tt
  | inr plausible ↦ rw plausible (elim (Bool-cases (ltb (length input) body_len)) [
    | inl truncated ↦ rw truncated tt
    | inr whole ↦ rw whole (omega (arith, length-drop body_len input))
  ])
]

read_itch_message-Shrinks :
    (stale input : List ℕ) → Shrinks (length input) (read_itch_message stale input)
unfolding read_itch_message
read_itch_message-Shrinks stale [] = tt
read_itch_message-Shrinks stale (a ∷ []) = tt
read_itch_message-Shrinks stale (a ∷ b ∷ input) =
    let long : ltb (suc (suc (length input))) 2 ≡ false = ground arith in
    rw long (read_body-Shrinks stale _ (suc (suc (length input))) input (omega arith))

ReadResult-cases :
    (r : ReadResult)
    → ((m : ItchMsg) × (rest : List ℕ) × (r ≡ message m rest))
      ⊎ ((r ≡ end_of_stream) ⊎ ((e : ParseError) × (r ≡ throws e)))
ReadResult-cases (message m rest) = inl (m, rest, refl)
ReadResult-cases end_of_stream = inr (inl refl)
ReadResult-cases (throws e) = inr (inr (e, refl))

-- With more fuel than the stream has bytes the loop ends, by the end of the stream or by a parse
-- error, whatever the stream and the uninitialised buffer hold.
pub ingest-ends :
    (fuel : ℕ) (stale : ℕ → List ℕ) (symbol : List ℕ) (s : Ingest) (input : List ℕ)
    → length input < fuel
    → (e : Exit) × (ingest fuel stale symbol s input ≡ some e)
unfolding ingest
ingest-ends zero stale symbol s input h = absurd (omega arith)
ingest-ends (suc fuel) stale symbol s input h =
    elim (ReadResult-cases (read_itch_message (stale s.total) input)) [
      | inl (m, rest, e) ↦
          let less =
            subst (Shrinks (length input)) e (read_itch_message-Shrinks (stale s.total) input) in
          rw (e, ingest) (ingest-ends fuel stale symbol (step symbol s m) rest (omega arith))
      | inr (inl e) ↦ rw (e, ingest) (Exit.parsed s, refl)
      | inr (inr (error, e)) ↦ rw (e, ingest) (Exit.failed error s, refl)
    ]
