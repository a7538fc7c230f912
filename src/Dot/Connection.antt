-- ===== src/Dot/Connection.antt =====
-- src/readers/dot.rs: a whole connection.
use dns_ingress.Prelude.{
  ℕ, ◌≡◌, refl, sym, ap, ◌∙◌, ap₂, arith, Bool, true, false, Option, none, some, List, [], length,
  inl, inr, Result, ok, err, Result-cases, err-ne-ok,
}
use dns_ingress.Prelude.Text.{Text}
use dns_ingress.Error.{DnsProxyError}
use dns_ingress.Rewriter.{BaseSniRewriter}
use dns_ingress.Metrics.{record_request}
use dns_ingress.Dot.{
  Direction, Exchanged, Dialing, Ending, written, relay_direction, dial, try_join, concluded,
  handle_connection,
}
use dns_ingress.Dot.Relay.{Carried, carried}

same_ending : {a b : Ending} → some a ≡ some b → a ≡ b
same_ending h = cc

not_joined :
    {e : DnsProxyError} {p : ℕ × ℕ}
    → ¬ (◌≡◌ {A = Option (Result DnsProxyError (ℕ × ℕ))} (some (err e)) (some (ok p)))
not_joined h = cc

not_ended : {p : ℕ × ℕ} → ¬ (◌≡◌ {A = Option (Result DnsProxyError (ℕ × ℕ))} none (some (ok p)))
not_ended h = cc

joined_ok :
    (client_first : Bool) (a b : Option Direction) {n m : ℕ}
    → try_join client_first a b ≡ some (ok (n, m))
    → (s : List ℕ) × (t : List ℕ) × (a ≡ some (ok n, s)) × (b ≡ some (ok m, t))
unfolding try_join
joined_ok first (some (ok a, s)) (some (ok b, t)) h =
    (s, t, ap (λ k. some (ok k, s)) (cc), ap (λ k. some (ok k, t)) (cc))
joined_ok true (some (err e, s)) (some (err x, t)) h = absurd (not_joined h)
joined_ok false (some (err e, s)) (some (err x, t)) h = absurd (not_joined h)
joined_ok first (some (err e, s)) (some (ok b, t)) h = absurd (not_joined h)
joined_ok first (some (err e, s)) none h = absurd (not_joined h)
joined_ok first (some (ok a, s)) (some (err x, t)) h = absurd (not_joined h)
joined_ok first none (some (err x, t)) h = absurd (not_joined h)
joined_ok first none (some (ok b, t)) h = absurd (not_ended h)
joined_ok first none none h = absurd (not_ended h)
joined_ok first (some (ok a, s)) none h = absurd (not_ended h)

concluded-ok :
    (duration : ℕ) (up down : Option Direction) (o : Option (Result DnsProxyError (ℕ × ℕ)))
    {ending : Ending}
    → concluded duration up down o ≡ some ending
    → ending.result ≡ ok tt
    → (n : ℕ) × (m : ℕ) × (o ≡ some (ok (n, m)))
      × (ending.recorded ≡ record_request true n m duration)
      × (ending.upstream_writer ≡ written up)
      × (ending.client_writer ≡ written down)
unfolding concluded
concluded-ok duration up down none h r = cc
concluded-ok duration up down (some (err e)) h r =
    absurd (err-ne-ok (ap (λ (t : Ending). t.result) (same_ending h) ∙ r))
concluded-ok duration up down (some (ok (n, m))) h r =
    let same = sym (same_ending h) in
    (
      n,
      m,
      refl,
      ap (λ (t : Ending). t.recorded) same,
      ap (λ (t : Ending). t.upstream_writer) same,
      ap (λ (t : Ending). t.client_writer) same,
    )

module _ (rewriter : BaseSniRewriter) (dialing : Dialing) where
  -- A connection that is served well has read all data of both directions to their ends; the writer
  -- of the upstream was given exactly what was read from the client and the writer of the client
  -- what was read from the upstream, and one success is recorded with the two sizes.
  pub handle_connection-ok :
      (source_hostname : Text) (upstream_port : ℕ) (x : Exchanged) {ending : Ending}
      → handle_connection rewriter dialing source_hostname upstream_port x ≡ some ending
      → ending.result ≡ ok tt
      → (up : List ℕ) × (down : List ℕ) × Carried x.from_client up
        × Carried x.from_upstream down
        × (ending.upstream_writer ≡ some up)
        × (ending.client_writer ≡ some down)
        × (ending.recorded ≡ record_request true (length up) (length down) x.duration)
  unfolding handle_connection
  handle_connection-ok source_hostname upstream_port x {ending} h r =
      elim (Result-cases (dial rewriter dialing source_hostname upstream_port)) [
        | inr (e, bad) ↦ absurd (
            err-ne-ok
              (ap (λ (t : Ending). t.result) (same_ending (rw (handle_connection, bad) at h)) ∙ r))
        | inl (name, good) ↦
            let (n, m, both, recorded, upstream, client) =
              concluded-ok x.duration (relay_direction name x.from_client 0 [])
                (relay_direction name x.from_upstream 0 []) _ {ending = ending}
                (rw (handle_connection, good) at h) r in
            let (s, t, one, other) = joined_ok x.client_first _ _ {n = n} {m = m} both in
            let (up, carried_up, out_up, count_up) =
              carried name x.from_client 0 [] {n = n} {out' = s} one in
            let (down, carried_down, out_down, count_down) =
              carried name x.from_upstream 0 [] {n = m} {out' = t} other in
            (
              up,
              down,
              carried_up,
              carried_down,
              upstream ∙ ap written one ∙ ap some out_up,
              client ∙ ap written other ∙ ap some out_down,
              recorded
                  ∙ ap₂ (λ a b. record_request true a b x.duration) (omega (arith, count_up))
                      (omega (arith, count_down)),
            )
      ]
