-- ===== src/Doq/Lease.antt =====
-- src/upstream/quic.rs with src/upstream/quic_pool.rs: the pool after a DoQ transaction.
use dns_ingress.Prelude.{ℕ, ◌≡◌, subst, Bool, none, List, Result, ok}
use dns_ingress.Prelude.Text.{Text, codes}
use dns_ingress.Prelude.Timed.{Timed, done, broken, late}
use dns_ingress.Prelude.Assoc.{lookup}
use dns_ingress.QuicPool.{Lease, LeasePool, overloaded_error}
use dns_ingress.QuicPool.Valid.{Valid}
use dns_ingress.QuicPool.Sections.{Left, Cached}
use dns_ingress.QuicPool.Answers.{get-Left}
use dns_ingress.QuicPool.Held.{drop_lease-Left, discard-Left}
use dns_ingress.QuicPool.Clients.{
  QuicKey, quic_key, QuicApplication, quic_get, quic_invalidate, connect,
}
use dns_ingress.Doq.{RecvStream, SendStream}
use dns_ingress.Doq.Stream.{got, on_connection, with_query}

module _ (r : RecvStream) (w : SendStream) {C : Type 0}
    (open_bi : C → Timed (w.State × r.State)) where
  -- A connection that opened a stream is kept for the next transaction, and another is not.
  abbrev pub KeptIf : Text → ℕ → Lease C → Timed (w.State × r.State) → LeasePool QuicKey C → Type 0
  KeptIf server_name port lease (done streams) s =
      Cached (QuicApplication.doq, server_name, port) lease s
  KeptIf server_name port lease (broken e) s =
      lookup (QuicApplication.doq, server_name, port) s.entries ≡ none
  KeptIf server_name port lease late s =
      lookup (QuicApplication.doq, server_name, port) s.entries ≡ none

  module _ {max_entries : ℕ} (server_name : Text) (port fuel : ℕ) where
    on_connection-Kept :
        (query : List ℕ) (t : w.State) (lease : Lease C) (s p : LeasePool QuicKey C)
        (o : Timed (w.State × r.State))
        → Valid max_entries p
        → Left (QuicApplication.doq, server_name, port) s (ok lease, p)
        → Valid max_entries (on_connection r w open_bi server_name port fuel query t lease p o).1
          × ((on_connection r w open_bi server_name port fuel query t lease p o).1.borrowed
              ≡ s.borrowed)
          × ((on_connection r w open_bi server_name port fuel query t lease p o).1.reserved
              ≡ s.reserved)
          × KeptIf server_name port lease o
              (on_connection r w open_bi server_name port fuel query t lease p o).1
    unfolding on_connection quic_invalidate
    on_connection-Kept query t lease s p (done streams) v l =
        drop_lease-Left (QuicApplication.doq, server_name, port) lease s p v l
    on_connection-Kept query t lease s p (broken e) v l =
        discard-Left (QuicApplication.doq, server_name, port) lease s p v l
    on_connection-Kept query t lease s p late v l =
        discard-Left (QuicApplication.doq, server_name, port) lease s p v l

    -- A transaction that gets a connection returns its lease, whatever becomes of it: the pool has
    -- the references that it had, and stays valid. A connection that opens no stream is not cached.
    pub with_query-Kept :
        {Address : Type 0} (alive : ℕ → C → Bool) (now : ℕ → ℕ)
        (resolved : Result Text (List Address)) (handshake : Address → Result Text C)
        (query : List ℕ) (t : w.State) (lease : Lease C) (pool p : LeasePool QuicKey C)
        → Valid max_entries pool
        → quic_get alive now resolved handshake QuicApplication.doq server_name port pool
          ≡ (ok lease, p)
        → Valid max_entries
            (with_query r w open_bi server_name port fuel t query (got (ok lease) p)).1
          × ((with_query r w open_bi server_name port fuel t query (got (ok lease) p)).1.borrowed
              ≡ pool.borrowed)
          × ((with_query r w open_bi server_name port fuel t query (got (ok lease) p)).1.reserved
              ≡ pool.reserved)
          × KeptIf server_name port lease
              (open_bi lease.connection)
              (with_query r w open_bi server_name port fuel t query (got (ok lease) p)).1
    unfolding with_query quic_get
    with_query-Kept alive now resolved handshake query t lease pool p v h =
        let (v', l) =
          subst (λ a. Valid max_entries a.1 × Left (QuicApplication.doq, server_name, port) pool a)
            h
            (get-Left alive now (overloaded_error server_name port (codes "QUIC"))
              (connect server_name port resolved handshake) (QuicApplication.doq, server_name, port)
              pool v) in
        on_connection-Kept query t lease pool p (open_bi lease.connection) v' l
