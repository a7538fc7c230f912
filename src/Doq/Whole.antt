-- ===== src/Doq/Whole.antt =====
-- src/upstream/quic.rs: what a DoQ transaction that succeeds has moved.
use dns_ingress.Prelude.{
  ℕ, ◌+◌, ◌≡◌, refl, sym, ap, ◌∙◌, arith, Option, none, some, List, ◌++◌, length, inl, inr, Result,
  ok, err, Result-cases, ◌>>=◌, map_err,
}
use dns_ingress.Prelude.Text.{Text, codes}
use dns_ingress.Prelude.Timed.{Timed, done, broken, late}
use dns_ingress.Error.{DnsProxyError, protocol}
use dns_ingress.QuicPool.{Lease, LeasePool}
use dns_ingress.QuicPool.Clients.{QuicKey}
use dns_ingress.Doq.{RecvStream, SendStream, read_doq_query, write_doq_frame, relay}
use dns_ingress.Doq.Frames.{frame, length-frame, read_doq_query-ok, write_doq_frame-ok}
use dns_ingress.Doq.Relay.{relay-transparent}
use dns_ingress.Doq.Stream.{
  request_error, Outcome, Lending, got, abandoned, conclude, transact, on_connection, with_query,
  forward_quic_stream,
}

module _ (r : RecvStream) (w : SendStream) where
  not_ok :
      {e : DnsProxyError} {a : ℕ × ℕ} {t t' : w.State}
      → ¬ (◌≡◌ {A = Outcome r w} (some (err e, t)) (some (ok a, t')))
  not_ok h = cc

  finished_eq :
      {received sent n m : ℕ} {t t' : w.State} (f : Result Text (Unit {0}))
      → ◌≡◌ {A = Outcome r w}
          (some (
            map_err (λ e. protocol (codes "Failed to finish client stream: " ++ e)) f >>= λ u.
                ok (received, sent),
            t,
          ))
          (some (ok (n, m), t'))
      → (received ≡ n) × (sent ≡ m) × (t ≡ t')
  finished_eq (ok u) h = (cc, cc, cc)
  finished_eq (err e) h = absurd (not_ok h)

  conclude-ok :
      (received : ℕ) (o : Option (Result DnsProxyError ℕ × r.State × w.State)) {n m : ℕ}
      {t' : w.State}
      → conclude r w received o ≡ some (ok (n, m), t')
      → (s : r.State) × (t : w.State) × (o ≡ some (ok m, s, t))
        × (received ≡ n)
        × (w.sent t' ≡ w.sent t)
  unfolding conclude
  conclude-ok received none h = cc
  conclude-ok received (some (err e, s, t)) h = absurd (not_ok h)
  conclude-ok received (some (ok sent, s, t)) h =
      let (same, count, ended) = finished_eq (w.finish t).0 h in
      (s, t, ap (λ k. some (ok k, s, t)) count, same, ap w.sent (sym ended) ∙ w.finish_law t)

  -- What a transaction on the streams to the upstream has moved.
  abbrev pub Moved : List ℕ → w.State → w.State → w.State → w.State → r.State → ℕ → ℕ → Type 0
  Moved query t t' upstream_send upstream_end upstream_recv received sent =
      (w.sent upstream_end ≡ w.sent upstream_send ++ frame query)
      × (w.sent t' ≡ w.sent t ++ r.pending upstream_recv)
      × (received ≡ length (frame query))
      × (sent ≡ length (r.pending upstream_recv))

  module _ (server_name : Text) (port fuel : ℕ) (query : List ℕ) (t : w.State) where
    transact-unwritten :
        (upstream_send : w.State) (upstream_recv : r.State) {e : DnsProxyError}
        → (write_doq_frame w query upstream_send).0 ≡ err e
        → (transact r w server_name port fuel query t (upstream_send, upstream_recv)).0
          ≡ some (err e, t)
    unfolding transact
    transact-unwritten upstream_send upstream_recv h = rw (transact, h) refl

    transact-unfinished :
        (upstream_send : w.State) (upstream_recv : r.State) {e : Text}
        → (write_doq_frame w query upstream_send).0 ≡ ok tt
        → (w.finish (write_doq_frame w query upstream_send).1).0 ≡ err e
        → (x : DnsProxyError) × ((transact r w server_name port fuel query t
              (upstream_send, upstream_recv)).0
            ≡ some (err x, t))
    unfolding transact
    transact-unfinished upstream_send upstream_recv {e} g h = (
      request_error server_name port (codes "Failed to finish DoQ query: " ++ e),
      rw (transact, g, h) refl,
    )

    transact-sent :
        (upstream_send : w.State) (upstream_recv : r.State)
        → (write_doq_frame w query upstream_send).0 ≡ ok tt
        → (w.finish (write_doq_frame w query upstream_send).1).0 ≡ ok tt
        → transact r w server_name port fuel query t (upstream_send, upstream_recv) ≡ (
          conclude r w (length query + 2) (relay r w fuel 0 upstream_recv t),
          (w.finish (write_doq_frame w query upstream_send).1).1,
        )
    unfolding transact
    transact-sent upstream_send upstream_recv g h = rw (transact, g, h) refl

    transact-ok :
        (upstream_send : w.State) (upstream_recv : r.State) {n m : ℕ} {t' : w.State}
        → (transact r w server_name port fuel query t (upstream_send, upstream_recv)).0
          ≡ some (ok (n, m), t')
        → Moved query t t' upstream_send
            (transact r w server_name port fuel query t (upstream_send, upstream_recv)).1
            upstream_recv
            n
            m
    transact-ok upstream_send upstream_recv {n} {m} {t'} h =
        let writing : w.State = (write_doq_frame w query upstream_send).1 in
        elim (Result-cases (write_doq_frame w query upstream_send).0) [
          | inr (e, bad) ↦
              absurd (not_ok (sym (transact-unwritten upstream_send upstream_recv bad) ∙ h))
          | inl (v, good) ↦ elim (Result-cases (w.finish writing).0) [
            | inr (e, bad) ↦
                let (x, stop) = transact-unfinished upstream_send upstream_recv good bad in
                absurd (not_ok (sym stop ∙ h))
            | inl (v, fine) ↦
                let run = transact-sent upstream_send upstream_recv good fine in
                let (s, t'', relayed, count, ended) =
                  conclude-ok (length query + 2) (relay r w fuel 0 upstream_recv t) {m = m}
                    (sym (ap (λ o. o.0) run) ∙ h) in
                let (copied, size) =
                  relay-transparent r w fuel 0 upstream_recv t {total = m} {s' = s} {t' = t''}
                    relayed in
                let (framed, _) = write_doq_frame-ok w query upstream_send good in
                (
                  ap (λ o. w.sent o.1) run ∙ (w.finish_law writing ∙ framed),
                  ended ∙ copied,
                  sym count ∙ sym (length-frame query),
                  omega (arith, size),
                )
          ]
        ]

  module _ {C : Type 0} (open_bi : C → Timed (w.State × r.State)) where
    -- The streams that the transaction used, and what was moved on them.
    pub record Transacted (server_name : Text) (port fuel : ℕ) (t t' : w.State) (s : r.State)
        (n m : ℕ) : Type 0 where
      pub connection : C
      pub upstream_send : w.State
      pub upstream_recv : r.State
      pub query : List ℕ
      pub opened : open_bi connection ≡ done (upstream_send, upstream_recv)
      pub asked : r.pending s ≡ frame query
      pub moved :
          Moved query t t' upstream_send
            (transact r w server_name port fuel query t (upstream_send, upstream_recv)).1
            upstream_recv
            n
            m

    opened-ok :
        (t : w.State) (s : r.State) (server_name : Text) (port fuel : ℕ) (query : List ℕ)
        (lease : Lease C) (pool : LeasePool QuicKey C) (o : Timed (w.State × r.State)) {n m : ℕ}
        {t' : w.State}
        → r.pending s ≡ frame query
        → open_bi lease.connection ≡ o
        → (on_connection r w open_bi server_name port fuel query t lease pool o).0
          ≡ some (ok (n, m), t')
        → Transacted server_name port fuel t t' s n m
    unfolding on_connection
    opened-ok t s server_name port fuel query lease pool late a o h = absurd (not_ok h)
    opened-ok t s server_name port fuel query lease pool (broken e) a o h = absurd (not_ok h)
    opened-ok t s server_name port fuel query lease pool (done (ws, rs)) a o h = record {
      connection = lease.connection;
      upstream_send = ws;
      upstream_recv = rs;
      query = query;
      opened = o;
      asked = a;
      moved = transact-ok server_name port fuel query t ws rs h;
    }

    queried-ok :
        (t : w.State) (s : r.State) (server_name : Text) (port fuel : ℕ) (query : List ℕ)
        (l : Lending C) {n m : ℕ} {t' : w.State}
        → r.pending s ≡ frame query
        → (with_query r w open_bi server_name port fuel t query l).0 ≡ some (ok (n, m), t')
        → Transacted server_name port fuel t t' s n m
    unfolding with_query
    queried-ok t s server_name port fuel query (abandoned pool) a h = absurd (not_ok h)
    queried-ok t s server_name port fuel query (got (err e) pool) a h = absurd (not_ok h)
    queried-ok t s server_name port fuel query (got (ok lease) pool) {n} {m} {t'} a h =
        opened-ok t s server_name port fuel query lease pool (open_bi lease.connection) {n = n}
          {m = m} {t' = t'} a refl h

    -- A transaction that succeeds took the one frame that the client's stream held and gave the
    -- upstream exactly this frame; the client was sent exactly what the upstream's stream held; and
    -- the two counts are the sizes of the two.
    pub forward_quic_stream-ok :
        (t : w.State) (s : r.State) (server_name : Text) (port fuel : ℕ)
        (before : LeasePool QuicKey C) (lending : Lending C) {n m : ℕ} {t' : w.State}
        → (forward_quic_stream r w open_bi t s server_name port fuel before lending).0
          ≡ some (ok (n, m), t')
        → Transacted server_name port fuel t t' s n m
    unfolding forward_quic_stream
    forward_quic_stream-ok t s server_name port fuel before lending {n} {m} {t'} h =
        elim (Result-cases (read_doq_query r s).0) [
          | inr (e, bad) ↦ absurd (not_ok (rw (forward_quic_stream, bad) at h))
          | inl (query, good) ↦
              queried-ok t s server_name port fuel query lending {n = n} {m = m} {t' = t'}
                (read_doq_query-ok r s {q = query} good).0 (rw (forward_quic_stream, good) at h)
        ]
