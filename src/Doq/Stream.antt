-- ===== src/Doq/Stream.antt =====
-- src/upstream/quic.rs: a whole DoQ transaction, from the query of the client to the end of the
-- relay, with the lease of its connection. What `open_bi` yields for a connection under the timeout
-- is a parameter, and so is the pool that an abandoned call of `get` leaves.
use dns_ingress.Prelude.{
  ℕ, ◌+◌, Option, none, some, List, ◌++◌, length, Result, ok, err, ◌>>=◌, map_err,
}
use dns_ingress.Prelude.Text.{Text, codes}
use dns_ingress.Prelude.Timed.{Timed, done, broken, late}
use dns_ingress.Error.{DnsProxyError, protocol, upstream, request_failed}
use dns_ingress.QuicPool.{Lease, LeasePool, drop_lease, peer}
use dns_ingress.QuicPool.Clients.{QuicKey, quic_key, QuicApplication, quic_invalidate}
use dns_ingress.Doq.{
  RecvStream, SendStream, read_doq_query, write_doq_frame, relay, doq_idle_timeout,
}

-- `pool.get` under the timeout.
pub data Lending (C : Type 0) : Type 0 where
  got : Result DnsProxyError (Lease C) → LeasePool QuicKey C → Lending C
  abandoned : LeasePool QuicKey C → Lending C

abbrev pub request_error : Text → ℕ → Text → DnsProxyError
request_error server_name port reason = upstream (request_failed (peer server_name port) reason)

module _ (r : RecvStream) (w : SendStream) where
  -- The result with the client's stream as it is left; `none` is out of fuel.
  abbrev pub Outcome : Type 0
  Outcome = Option (Result DnsProxyError (ℕ × ℕ) × w.State)

  -- After the relay: the client's stream is finished.
  unfoldable pub conclude : ℕ → Option (Result DnsProxyError ℕ × r.State × w.State) → Outcome
  conclude received none = none
  conclude received (some (err e, s, t)) = some (err e, t)
  conclude received (some (ok sent, s, t)) =
      let (finished, t') = w.finish t in
      some (
        map_err (λ e. protocol (codes "Failed to finish client stream: " ++ e)) finished >>= λ u.
            ok (received, sent),
        t',
      )

  -- On the streams to the upstream, which are left as the second component says.
  unfoldable pub transact : Text → ℕ → ℕ → List ℕ → w.State → w.State × r.State → Outcome × w.State
  unfolding write_doq_frame relay conclude
  transact server_name port fuel query t (upstream_send, upstream_recv) =
      let (written, writing) = write_doq_frame w query upstream_send in
      elim written [
        | err e ↦ (some (err e, t), writing)
        | ok u ↦
            let (finished, sent) = w.finish writing in
            elim finished [
              | err e ↦ (
                some (
                  err (request_error server_name port (codes "Failed to finish DoQ query: " ++ e)),
                  t,
                ),
                sent,
              )
              | ok v ↦ (conclude (length query + 2) (relay r w fuel 0 upstream_recv t), sent)
            ]
      ]

  module _ {C : Type 0} (open_bi : C → Timed (w.State × r.State)) where
    -- A connection that opens no stream is removed from the pool; the lease ends with the call.
    unfoldable pub on_connection :
        Text
        → ℕ
        → ℕ
        → List ℕ
        → w.State
        → Lease C
        → LeasePool QuicKey C
        → Timed (w.State × r.State)
        → Outcome × LeasePool QuicKey C
    unfolding transact quic_invalidate
    on_connection server_name port fuel query t lease pool (done streams) =
        ((transact server_name port fuel query t streams).0, drop_lease lease.slot pool)
    on_connection server_name port fuel query t lease pool (broken e) = (
      some (err (request_error server_name port (codes "Failed to open DoQ stream: " ++ e)), t),
      drop_lease lease.slot (quic_invalidate QuicApplication.doq server_name port pool),
    )
    on_connection server_name port fuel query t lease pool late = (
      some (err (doq_idle_timeout (codes "opening upstream stream")), t),
      drop_lease lease.slot (quic_invalidate QuicApplication.doq server_name port pool),
    )

    unfoldable pub with_query :
        Text → ℕ → ℕ → w.State → List ℕ → Lending C → Outcome × LeasePool QuicKey C
    unfolding on_connection
    with_query server_name port fuel t query (abandoned pool) =
        (some (err (doq_idle_timeout (codes "opening upstream connection")), t), pool)
    with_query server_name port fuel t query (got (err e) pool) = (some (err e, t), pool)
    with_query server_name port fuel t query (got (ok lease) pool) =
        on_connection server_name port fuel query t lease pool (open_bi lease.connection)

    -- `lending` is what the pool answers, `before` the pool of a call that does not ask it.
    unfoldable pub forward_quic_stream :
        w.State
        → r.State
        → Text
        → ℕ
        → ℕ
        → LeasePool QuicKey C
        → Lending C
        → Outcome × LeasePool QuicKey C
    unfolding with_query
    forward_quic_stream client_send client_recv server_name port fuel before lending =
        let (query, rest) = read_doq_query r client_recv in
        elim query [
          | err e ↦ (some (err e, client_send), before)
          | ok message ↦ with_query server_name port fuel client_send message lending
        ]
