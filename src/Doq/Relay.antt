-- ===== src/Doq/Relay.antt =====
-- The relay of the responses: nothing is changed on the way, and it ends.
use mathlib.Core.List.{append_assoc, append-nil}
use dns_ingress.Prelude.{
  ℕ, zero, suc, ◌+◌, ◌<◌, ◌≡◌, refl, sym, ap, ◌∙◌, ◌≢◌, Option, none, some, List, [], ◌++◌, length,
  length-append, arith, Bool-cases, inl, inr, ◌⊎◌, Result, ok, err, Result-cases,
}
use dns_ingress.Prelude.Text.{codes}
use dns_ingress.Error.{DnsProxyError, protocol}
use dns_ingress.Doq.{RecvStream, SendStream, read_doq_frame, write_doq_frame, bad_response, relay}
use dns_ingress.Doq.Frames.{frame, read_doq_frame-Taken, read_doq_frame-none, write_doq_frame-ok}

some-ne-none : {A : Type 0} {a : A} → ¬ (some a ≡ none)
some-ne-none h = cc

module _ (r : RecvStream) (w : SendStream) where
  -- What each way through one round comes to.
  abbrev Outcome : Type 0
  Outcome = Option (Result DnsProxyError ℕ × r.State × w.State)

  abbrev next : r.State → r.State
  next s = (read_doq_frame r s).1

  relay-end :
      (fuel n : ℕ) (s : r.State) (t : w.State)
      → (read_doq_frame r s).0 ≡ ok none
      → relay r w (suc fuel) n s t ≡ some (ok n, next s, t)
  unfolding relay
  relay-end fuel n s t e = rw (relay, e)

  relay-failed :
      (fuel n : ℕ) (s : r.State) (t : w.State) {x : DnsProxyError}
      → (read_doq_frame r s).0 ≡ err x
      → relay r w (suc fuel) n s t ≡ some (err x, next s, t)
  unfolding relay
  relay-failed fuel n s t e = rw (relay, e)

  abbrev mismatch : DnsProxyError
  mismatch = protocol (codes "DoQ upstream response has an invalid DNS message ID")

  -- A response that is read stops the relay with an error, or is sent on and the relay continues.
  relay-frame :
      (fuel n : ℕ) (s : r.State) (t : w.State) {m : List ℕ}
      → (read_doq_frame r s).0 ≡ ok (some m)
      → ((x : DnsProxyError) × (t' : w.State) × (relay r w (suc fuel) n s t
            ≡ some (err x, next s, t')))
        ⊎ (((write_doq_frame w m t).0 ≡ ok tt)
            × (relay r w (suc fuel) n s t
                ≡ relay r w fuel (n + (length m + 2)) (next s) (write_doq_frame w m t).1))
  unfolding relay
  relay-frame fuel n s t {m} e = elim (Bool-cases (bad_response r w m)) [
    | inl b ↦ inl (mismatch, t, rw (relay, e, b) refl)
    | inr f ↦ elim (Result-cases (write_doq_frame w m t).0) [
      | inr (x, bad) ↦ inl (x, (write_doq_frame w m t).1, rw (relay, e, f, bad) refl)
      | inl (u, good) ↦ inr (good, rw (relay, e, f, good) refl)
    ]
  ]

  stopped :
      (x : DnsProxyError) {total : ℕ} {s s' : r.State} {t t' : w.State}
      → ¬ (◌≡◌ {A = Outcome} (some (err x, s, t)) (some (ok total, s', t')))
  stopped x h = cc

  none-run :
      (n : ℕ) (s : r.State) (t : w.State) {total : ℕ} {s' : r.State} {t' : w.State}
      → ¬ (relay r w zero n s t ≡ some (ok total, s', t'))
  unfolding relay
  none-run n s t h = cc

  ended_well :
      (rest : List ℕ) {n total : ℕ} {s s' : r.State} {t t' : w.State}
      → rest ≡ []
      → ◌≡◌ {A = Outcome} (some (ok n, s, t)) (some (ok total, s', t'))
      → (w.sent t' ≡ w.sent t ++ rest) × (total ≡ n + length rest)
  ended_well rest {n} {total} {s} {s'} {t} {t'} e h =
      let same : t ≡ t' = cc in
      let count : n ≡ total = cc in
      (
        ap w.sent (sym same) ∙ (sym (append-nil (w.sent t)) ∙ ap (λ u. w.sent t ++ u) (sym e)),
        omega (arith, count, ap length e),
      )

  -- A relay that ends well has sent the client exactly what the upstream's stream held, and the
  -- count that it answers grows by the number of those bytes.
  pub relay-transparent :
      (fuel n : ℕ) (s : r.State) (t : w.State) {total : ℕ} {s' : r.State} {t' : w.State}
      → relay r w fuel n s t ≡ some (ok total, s', t')
      → (w.sent t' ≡ w.sent t ++ r.pending s) × (total ≡ n + length (r.pending s))
  relay-transparent zero n s t h = absurd (none-run n s t h)
  relay-transparent (suc fuel) n s t {total} {s'} {t'} h =
      elim (Result-cases (read_doq_frame r s).0) [
        | inr (e, failed) ↦ absurd (stopped _ (sym (relay-failed fuel n s t failed) ∙ h))
        | inl (none, ended) ↦
            ended_well (r.pending s) (read_doq_frame-none r s ended)
              (sym (relay-end fuel n s t ended) ∙ h)
        | inl (some m, e) ↦ elim (relay-frame fuel n s t {m = m} e) [
          | inl (x, t'', stop) ↦ absurd (stopped _ (sym stop ∙ h))
          | inr (sent, more) ↦
              let (copied, counted) =
                relay-transparent fuel (n + (length m + 2)) (next s) (write_doq_frame w m t).1
                  {total = total} {s' = s'} {t' = t'} (sym more ∙ h) in
              let (front, _, _) = read_doq_frame-Taken r s {m = m} e in
              let (written, _) = write_doq_frame-ok w m t sent in
              (
                copied
                    ∙ (ap (λ u. u ++ r.pending (next s)) written
                        ∙ (append_assoc (w.sent t) (frame m) (r.pending (next s))
                            ∙ ap (λ u. w.sent t ++ u) (sym front))),
                omega
                    (arith, counted, ap length front, length-append (frame m) (r.pending (next s))),
              )
        ]
      ]

  -- Fuel above the number of bytes that the upstream's stream holds is enough: each round that
  -- continues has taken a frame of at least three bytes.
  pub relay-enough_fuel :
      (fuel n : ℕ) (s : r.State) (t : w.State)
      → length (r.pending s) < fuel
      → relay r w fuel n s t ≢ none
  relay-enough_fuel zero n s t b h = absurd (omega (arith, b))
  relay-enough_fuel (suc fuel) n s t b h = elim (Result-cases (read_doq_frame r s).0) [
    | inr (e, failed) ↦ some-ne-none (sym (relay-failed fuel n s t failed) ∙ h)
    | inl (none, ended) ↦ some-ne-none (sym (relay-end fuel n s t ended) ∙ h)
    | inl (some m, e) ↦ elim (relay-frame fuel n s t {m = m} e) [
      | inl (x, t', stop) ↦ some-ne-none (sym stop ∙ h)
      | inr (sent, more) ↦
          let (front, positive, _) = read_doq_frame-Taken r s {m = m} e in
          relay-enough_fuel fuel (n + (length m + 2)) (next s) (write_doq_frame w m t).1
            (omega (arith, b, ap length front, length-append (frame m) (r.pending (next s))))
            (sym more ∙ h)
    ]
  ]
