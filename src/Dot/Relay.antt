-- ===== src/Dot/Relay.antt =====
-- src/readers/dot.rs: one direction of the relay.
use mathlib.Core.List.{append_assoc, append-nil}
use dns_ingress.Prelude.{
  ℕ, ◌+◌, ◌≡◌, ◌≢◌, ◌↔◌, ◌⊎◌, inl, inr, refl, sym, ap, ap₂, ◌∙◌, arith, Option, some, List, [], ◌∷◌,
  ◌++◌, length, length-append, Result, ok, err, Result-cases,
}
use dns_ingress.Prelude.Text.{Text}
use dns_ingress.Prelude.Timed.{Timed, done, broken, late, awaited, awaited-ok}
use dns_ingress.Error.{DnsProxyError, timeout, io}
use dns_ingress.Dot.{Turn, Direction, relay_direction}

-- The turns read that data and then the end of the stream; each piece was written, and after the
-- end the writer was shut down.
abbrev pub Carried : List Turn → List ℕ → Type 0
Carried [] data_read = ⊥
Carried (turn ∷ turns) data_read =
    (turn.answered ≡ done tt)
    × (((turn.read ≡ done []) × (data_read ≡ []))
        ⊎ ((piece : List ℕ) × (rest : List ℕ) × (turn.read ≡ done piece)
            × (piece ≢ [])
            × (data_read ≡ piece ++ rest)
            × Carried turns rest))

-- The turn ends its direction: the end of the stream, an error, or no progress in time.
pub data Ends (turn : Turn) : Type 0 where
  end_of_stream : turn.read ≡ done [] → Ends turn
  read_failed : (e : Text) → turn.read ≡ broken e → Ends turn
  read_late : turn.read ≡ late → Ends turn
  answer_failed : (e : Text) → turn.answered ≡ broken e → Ends turn
  answer_late : turn.answered ≡ late → Ends turn

abbrev pub EndsOne : List Turn → Type 0
EndsOne [] = ⊥
EndsOne (turn ∷ turns) = Ends turn ⊎ EndsOne turns

not_ok :
    {e : DnsProxyError} {n : ℕ} {out out' : List ℕ}
    → ¬ (◌≡◌ {A = Option Direction} (some (err e, out)) (some (ok n, out')))
not_ok h = cc

nonempty : {b : ℕ} {s : List ℕ} → b ∷ s ≢ []
nonempty h = cc

module _ (u : Text) where
  abbrev reads : Turn → Result DnsProxyError (List ℕ)
  reads turn = awaited (timeout u) io turn.read

  abbrev answers : Turn → Result DnsProxyError (Unit {0})
  answers turn = awaited (timeout u) io turn.answered

  relay-read_error :
      (turn : Turn) (turns : List Turn) (total : ℕ) (out : List ℕ) {e : DnsProxyError}
      → reads turn ≡ err e
      → relay_direction u (turn ∷ turns) total out ≡ some (err e, out)
  unfolding relay_direction
  relay-read_error turn turns total out h = rw (relay_direction, h) refl

  relay-answer_error :
      (turn : Turn) (turns : List Turn) (total : ℕ) (out piece : List ℕ) {e : DnsProxyError}
      → reads turn ≡ ok piece
      → answers turn ≡ err e
      → relay_direction u (turn ∷ turns) total out ≡ some (err e, out)
  unfolding relay_direction
  relay-answer_error turn turns total out [] h k = rw (relay_direction, h, k) refl
  relay-answer_error turn turns total out (b ∷ bytes) h k = rw (relay_direction, h, k) refl

  relay-end :
      (turn : Turn) (turns : List Turn) (total : ℕ) (out : List ℕ)
      → reads turn ≡ ok []
      → answers turn ≡ ok tt
      → relay_direction u (turn ∷ turns) total out ≡ some (ok total, out)
  unfolding relay_direction
  relay-end turn turns total out h k = rw (relay_direction, h, k) refl

  relay-piece :
      (turn : Turn) (turns : List Turn) (total : ℕ) (out : List ℕ) {b : ℕ} {bytes : List ℕ}
      → reads turn ≡ ok (b ∷ bytes)
      → answers turn ≡ ok tt
      → relay_direction u (turn ∷ turns) total out
        ≡ relay_direction u turns (total + length (b ∷ bytes)) (out ++ (b ∷ bytes))
  unfolding relay_direction
  relay-piece turn turns total out h k = rw (relay_direction, h, k) refl

  abbrev Brought : List Turn → ℕ → List ℕ → ℕ → List ℕ → Type 0
  Brought turns total out n out' =
      (bytes : List ℕ) × Carried turns bytes × (out' ≡ out ++ bytes) × (n ≡ total + length bytes)

  ended :
      (turn : Turn) (turns : List Turn) (total : ℕ) (out : List ℕ) {n : ℕ} {out' : List ℕ}
      → turn.read ≡ done []
      → turn.answered ≡ done tt
      → ◌≡◌ {A = Option Direction} (some (ok total, out)) (some (ok n, out'))
      → Brought (turn ∷ turns) total out n out'
  ended turn turns total out {n} {out'} r a h =
      let count : total ≡ n = cc in
      let same : out ≡ out' = cc in
      ([], (a, inl (r, refl)), sym same ∙ sym (append-nil out), omega (arith, count))

  more :
      (turn : Turn) (turns : List Turn) (total : ℕ) (out : List ℕ) (b : ℕ) (bytes : List ℕ) {n : ℕ}
      {out' : List ℕ}
      → turn.read ≡ done (b ∷ bytes)
      → turn.answered ≡ done tt
      → Brought turns (total + length (b ∷ bytes)) (out ++ (b ∷ bytes)) n out'
      → Brought (turn ∷ turns) total out n out'
  more turn turns total out b bytes r a (rest, below, written, counted) = (
    (b ∷ bytes) ++ rest,
    (a, inr (b ∷ bytes, rest, r, nonempty, refl, below)),
    written ∙ append_assoc out (b ∷ bytes) rest,
    omega (arith, counted, length-append (b ∷ bytes) rest),
  )

  nothing_yet :
      (total : ℕ) (out : List ℕ) {r : Direction} → ¬ (relay_direction u [] total out ≡ some r)
  unfolding relay_direction
  nothing_yet total out h = cc

  pub carried :
      (turns : List Turn) (total : ℕ) (out : List ℕ) {n : ℕ} {out' : List ℕ}
      → relay_direction u turns total out ≡ some (ok n, out')
      → Brought turns total out n out'
  carried [] total out h = absurd (nothing_yet total out h)
  carried (turn ∷ turns) total out {n} {out'} h = elim (Result-cases (reads turn)) [
    | inr (e, bad) ↦ absurd (not_ok (sym (relay-read_error turn turns total out bad) ∙ h))
    | inl (piece, got) ↦ elim (Result-cases (answers turn)) [
      | inr (e, bad) ↦
          absurd (not_ok (sym (relay-answer_error turn turns total out piece got bad) ∙ h))
      | inl (v, good) ↦ step piece got good (λ b bytes l. carried turns _ _ {n = n} {out' = out'} l)
    ]
  ]
    where
      step :
          (piece : List ℕ)
          → reads turn ≡ ok piece
          → answers turn ≡ ok tt
          → ((b : ℕ) (bytes : List ℕ)
              → relay_direction u turns (total + length (b ∷ bytes)) (out ++ (b ∷ bytes))
                ≡ some (ok n, out')
              → Brought turns (total + length (b ∷ bytes)) (out ++ (b ∷ bytes)) n out')
          → Brought (turn ∷ turns) total out n out'
      step [] got good again =
          ended turn turns total out (awaited-ok _ _ turn.read got)
            (awaited-ok _ _ turn.answered good) (sym (relay-end turn turns total out got good) ∙ h)
      step (b ∷ bytes) got good again =
          more turn turns total out b bytes (awaited-ok _ _ turn.read got)
            (awaited-ok _ _ turn.answered good)
            (again b bytes (sym (relay-piece turn turns total out got good) ∙ h))

  awaited-done :
      {A : Type 0} (f : Text → DnsProxyError) (t : Timed A) {a : A}
      → t ≡ done a
      → awaited (timeout u) f t ≡ ok a
  awaited-done f t h = ap (awaited (timeout u) f) h

  delivered :
      (turns : List Turn) (total : ℕ) (out bytes : List ℕ)
      → Carried turns bytes
      → relay_direction u turns total out ≡ some (ok (total + length bytes), out ++ bytes)
  delivered [] total out bytes c = absurd c
  delivered (turn ∷ turns) total out bytes (a, inl (r, z)) =
      relay-end turn turns total out (awaited-done io turn.read r) (awaited-done io turn.answered a)
      ∙ ap₂ (λ n o. some (ok n, o)) (omega (arith, ap length z))
          (sym (append-nil out) ∙ ap (λ b. out ++ b) (sym z))
  delivered (turn ∷ turns) total out bytes (a, inr ([], rest, r, n, z, below)) = absurd (n refl)
  delivered (turn ∷ turns) total out bytes (a, inr (b ∷ piece, rest, r, n, z, below)) =
      relay-piece turn turns total out (awaited-done io turn.read r)
        (awaited-done io turn.answered a)
      ∙ (delivered turns (total + length (b ∷ piece)) (out ++ (b ∷ piece)) rest below
          ∙ ap₂ (λ k o. some (ok k, o)) (omega (arith, ap length z, length-append (b ∷ piece) rest))
              (append_assoc out (b ∷ piece) rest ∙ ap (λ t. out ++ t) (sym z)))

  -- A direction ends well exactly when its turns read some data and then the end of the stream,
  -- everything in time: its writer was then given just that data and was shut down, and its count is
  -- the size of the data.
  pub relay_direction_iff :
      (turns : List Turn) (total n : ℕ) (out out' : List ℕ)
      → (relay_direction u turns total out ≡ some (ok n, out')) ↔ (
          (bytes : List ℕ) × Carried turns bytes
          × (out' ≡ out ++ bytes)
          × (n ≡ total + length bytes))
  relay_direction_iff turns total n out out' = (
    carried turns total out,
    λ b. delivered turns total out b.0 b.1 ∙ ap₂ (λ k o. some (ok k, o)) (sym b.3) (sym b.2),
  )

  abbrev Stopped : List Turn → ℕ → List ℕ → Type 0
  Stopped turns total out = (d : Direction) × (relay_direction u turns total out ≡ some d)

  unanswered :
      (turn : Turn) (turns : List Turn) (total : ℕ) (out : List ℕ) {e : DnsProxyError}
      → answers turn ≡ err e
      → Stopped (turn ∷ turns) total out
  unanswered turn turns total out {e} bad = elim (Result-cases (reads turn)) [
    | inr (x, h) ↦ ((err x, out), relay-read_error turn turns total out h)
    | inl (piece, h) ↦ ((err e, out), relay-answer_error turn turns total out piece h bad)
  ]

  turn-Ends :
      (turn : Turn) (turns : List Turn) (total : ℕ) (out : List ℕ)
      → Ends turn
      → Stopped (turn ∷ turns) total out
  turn-Ends turn turns total out (read_failed e h) =
      ((err (io e), out), relay-read_error turn turns total out (ap (awaited (timeout u) io) h))
  turn-Ends turn turns total out (read_late h) = (
    (err (timeout u), out),
    relay-read_error turn turns total out (ap (awaited (timeout u) io) h),
  )
  turn-Ends turn turns total out (answer_failed e h) =
      unanswered turn turns total out {e = io e} (ap (awaited (timeout u) io) h)
  turn-Ends turn turns total out (answer_late h) =
      unanswered turn turns total out {e = timeout u} (ap (awaited (timeout u) io) h)
  turn-Ends turn turns total out (end_of_stream h) = elim (Result-cases (answers turn)) [
    | inr (e, bad) ↦ unanswered turn turns total out bad
    | inl (v, good) ↦
        ((ok total, out), relay-end turn turns total out (awaited-done io turn.read h) good)
  ]

  -- A direction stops at the end of its stream, at an error, and when a call makes no progress in
  -- time: one that has met any of these has come to a result.
  pub relay_direction-EndsOne :
      (turns : List Turn) (total : ℕ) (out : List ℕ)
      → EndsOne turns
      → (d : Direction) × (relay_direction u turns total out ≡ some d)
  relay_direction-EndsOne [] total out x = absurd x
  relay_direction-EndsOne (turn ∷ turns) total out (inl x) = turn-Ends turn turns total out x
  relay_direction-EndsOne (turn ∷ turns) total out (inr x) = elim (Result-cases (answers turn)) [
    | inr (e, bad) ↦ unanswered turn turns total out bad
    | inl (v, good) ↦ elim (Result-cases (reads turn)) [
      | inr (e, h) ↦ ((err e, out), relay-read_error turn turns total out h)
      | inl ([], h) ↦ ((ok total, out), relay-end turn turns total out h good)
      | inl (b ∷ bytes, h) ↦
          let (d, run) =
            relay_direction-EndsOne turns (total + length (b ∷ bytes)) (out ++ (b ∷ bytes)) x in
          (d, relay-piece turn turns total out h good ∙ run)
    ]
  ]
