-- ===== src/Http3/Session.antt =====
-- src/upstream/quic.rs with src/upstream/quic_pool.rs: the pool after a request over HTTP/3.
use dns_ingress.Prelude.{ℕ, ◌≡◌, subst, Bool, none, List, Result, ok, err}
use dns_ingress.Prelude.Text.{Text, codes}
use dns_ingress.Prelude.Assoc.{lookup}
use dns_ingress.Error.{DnsProxyError}
use dns_ingress.Message.{Method}
use dns_ingress.Forward.{HeaderMap, Response}
use dns_ingress.QuicPool.{Lease, LeasePool, overloaded_error}
use dns_ingress.QuicPool.Valid.{Valid}
use dns_ingress.QuicPool.Sections.{Left, Cached}
use dns_ingress.QuicPool.Answers.{get-Left}
use dns_ingress.QuicPool.Held.{drop_lease-Left, discard-Left}
use dns_ingress.QuicPool.Clients.{H3Key, h3_key, h3_get, h3_invalidate, connect_h3}
use dns_ingress.Http3.{H3Client, got, conclude, on_session, forward_http3_request}

module _ {S : Type 0} where
  -- A session that answered is kept for the next request, and one that failed is not.
  abbrev pub Kept :
      Text → ℕ → Lease S → Result DnsProxyError (Response × ℕ) → LeasePool H3Key S → Type 0
  Kept target port lease (ok answer) s = Cached (target, port) lease s
  Kept target port lease (err e) s = lookup (target, port) s.entries ≡ none

  conclude-Kept :
      {max_entries : ℕ} (c : H3Client S) (target : Text) (port : ℕ) (lease : Lease S)
      (s t : LeasePool H3Key S) (r : Result DnsProxyError (Response × ℕ))
      → Valid max_entries t
      → Left (target, port) s (ok lease, t)
      → Valid max_entries (conclude c target port lease t r).1
        × ((conclude c target port lease t r).1.borrowed ≡ s.borrowed)
        × ((conclude c target port lease t r).1.reserved ≡ s.reserved)
        × Kept target port lease
            (conclude c target port lease t r).0
            (conclude c target port lease t r).1
  unfolding conclude h3_invalidate
  conclude-Kept c target port lease s t (ok a) v l = drop_lease-Left (target, port) lease s t v l
  conclude-Kept c target port lease s t (err e) v l = discard-Left (target, port) lease s t v l

  -- A request over HTTP/3 that gets a session returns its lease, whatever becomes of the request:
  -- the pool has the references that it had, and stays valid. The session stays cached if it
  -- answered; after any error the cache has none for the host.
  pub forward_http3_request-Kept :
      {max_entries : ℕ} {Address Connection : Type 0} (c : H3Client S) (alive : ℕ → S → Bool)
      (now : ℕ → ℕ) (resolved : Result Text (List Address))
      (handshake : Address → Result Text Connection) (set_up : Connection → Result Text S)
      (pool t : LeasePool H3Key S) (uri target : Text) (port : ℕ) (method : Method)
      (headers : HeaderMap) (body : List ℕ) (lease : Lease S)
      → Valid max_entries pool
      → h3_get alive now resolved handshake set_up target port pool ≡ (ok lease, t)
      → Valid max_entries
          (forward_http3_request c (got (ok lease) t) uri target port method headers body).1
        × ((forward_http3_request c
              (got (ok lease) t)
              uri
              target
              port
              method
              headers
              body).1.borrowed
            ≡ pool.borrowed)
        × ((forward_http3_request c
              (got (ok lease) t)
              uri
              target
              port
              method
              headers
              body).1.reserved
            ≡ pool.reserved)
        × Kept target port lease
            (forward_http3_request c (got (ok lease) t) uri target port method headers body).0
            (forward_http3_request c (got (ok lease) t) uri target port method headers body).1
  unfolding forward_http3_request h3_get
  forward_http3_request-Kept {max_entries} c alive now resolved handshake set_up pool t uri target
        port method headers body lease v h =
      let (v', l) =
        subst (λ r. Valid max_entries r.1 × Left (target, port) pool r) h
          (get-Left alive now (overloaded_error target port (codes "HTTP/3"))
            (connect_h3 target port resolved handshake set_up) (target, port) pool v) in
      conclude-Kept c target port lease pool t
        (on_session c lease.connection uri target method headers body) v' l
