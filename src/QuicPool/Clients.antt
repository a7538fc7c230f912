-- ===== src/QuicPool/Clients.antt =====
-- src/upstream/quic_pool.rs: the pools of QUIC connections and of HTTP/3 sessions, with their keys
-- and the way each makes a connection. The lookup of a name, the handshake and the set-up of HTTP/3
-- are calls of tokio, quinn and h3: their outcomes are arguments. src/quic/config.rs: the
-- application protocols.
use dns_ingress.Prelude.{
  ℕ, ◌≡◌, ◌↔◌, ap, ap₂, Bool, true, false, ◌&&◌, ◌==◌, ==_iff, and_iff, arith, List, ◌++◌, head?,
  Result, ◌>>=◌, ok_or, map_err,
}
use dns_ingress.Prelude.Text.{Text, codes, text_eq, text_eq_iff}
use dns_ingress.Prelude.Assoc.{Eq}
use dns_ingress.Error.{DnsProxyError, protocol}
use dns_ingress.QuicPool.{Lease, LeasePool, get, discard, overloaded_error, upstream_error}

pub data QuicApplication : Type 0 where
  doq h3 : QuicApplication

abbrev pub alpn : QuicApplication → Text
alpn doq = codes "doq"
alpn h3 = codes "h3"

abbrev pub same_application : QuicApplication → QuicApplication → Bool
same_application doq doq = true
same_application h3 h3 = true
same_application _ _ = false

same_application_iff : (a b : QuicApplication) → (same_application a b ≡ true) ↔ (a ≡ b)
same_application_iff doq doq = ground arith
same_application_iff doq h3 = ground arith
same_application_iff h3 doq = ground arith
same_application_iff h3 h3 = ground arith

abbrev pub H3Key : Type 0
H3Key = Text × ℕ

abbrev pub QuicKey : Type 0
QuicKey = QuicApplication × Text × ℕ

abbrev pub same_h3 : H3Key → H3Key → Bool
same_h3 (hostname, port) (name, number) = text_eq hostname name && (port == number)

pub same_h3_iff : (a b : H3Key) → (same_h3 a b ≡ true) ↔ (a ≡ b)
same_h3_iff (hostname, port) (name, number) = (
  λ h.
      let (t, n) = (and_iff _ _).0 h in
      ap₂ (λ x y. (x, y)) ((text_eq_iff hostname name).0 t) ((==_iff port number).0 n),
  λ h.
      (and_iff _ _).1
        ((text_eq_iff hostname name).1 (ap (λ k. k.0) h), (==_iff port number).1 (ap (λ k. k.1) h)),
)

abbrev pub same_quic : QuicKey → QuicKey → Bool
same_quic (application, hostname, port) (other, name, number) =
    same_application application other && same_h3 (hostname, port) (name, number)

abbrev pair : QuicApplication → H3Key → QuicKey
pair application (hostname, port) = (application, hostname, port)

abbrev peer_of : QuicKey → H3Key
peer_of (application, hostname, port) = (hostname, port)

pub same_quic_iff : (a b : QuicKey) → (same_quic a b ≡ true) ↔ (a ≡ b)
same_quic_iff (application, hostname, port) (other, name, number) = (
  λ h.
      let (t, n) = (and_iff _ _).0 h in
      ap₂ pair ((same_application_iff application other).0 t)
        ((same_h3_iff (hostname, port) (name, number)).0 n),
  λ h. (and_iff _ _).1 (
    (same_application_iff application other).1 (ap (λ k. k.0) h),
    (same_h3_iff (hostname, port) (name, number)).1 (ap peer_of h),
  ),
)

instance abbrev pub h3_key : Eq H3Key
h3_key = record { beq = same_h3; beq_iff = same_h3_iff }

instance abbrev pub quic_key : Eq QuicKey
quic_key = record { beq = same_quic; beq_iff = same_quic_iff }

module _ {Address C : Type 0} where
  -- The lookup of the name, then the handshake with the first address.
  abbrev pub connect :
      Text → ℕ → Result Text (List Address) → (Address → Result Text C) → Result DnsProxyError C
  connect hostname port resolved handshake = do
    addresses ← map_err (upstream_error hostname port) resolved
    address ←
        ok_or (head? addresses)
          (upstream_error hostname port (codes "DNS lookup returned no addresses"))
    map_err (upstream_error hostname port) (handshake address)

  -- `Http3ConnectionPool::get`: the handshake, then a client session on the connection.
  abbrev pub connect_h3 :
      {Session : Type 0}
      → Text
      → ℕ
      → Result Text (List Address)
      → (Address → Result Text C)
      → (C → Result Text Session)
      → Result DnsProxyError Session
  connect_h3 hostname port resolved handshake set_up = do
    connection ← connect hostname port resolved handshake
    map_err (λ error. protocol (codes "HTTP/3 client setup failed: " ++ error)) (set_up connection)

-- `alive` and `now` are what the sections of the call see.
module _ {Address C : Type 0} (alive : ℕ → C → Bool) (now : ℕ → ℕ) where
  unfoldable pub quic_get :
      Result Text (List Address)
      → (Address → Result Text C)
      → QuicApplication
      → Text
      → ℕ
      → LeasePool QuicKey C
      → Result DnsProxyError (Lease C) × LeasePool QuicKey C
  unfolding get
  quic_get resolved handshake application hostname port pool =
      get alive now (overloaded_error hostname port (codes "QUIC"))
        (connect hostname port resolved handshake) (application, hostname, port) pool

module _ {Address Connection C : Type 0} (alive : ℕ → C → Bool) (now : ℕ → ℕ) where
  unfoldable pub h3_get :
      Result Text (List Address)
      → (Address → Result Text Connection)
      → (Connection → Result Text C)
      → Text
      → ℕ
      → LeasePool H3Key C
      → Result DnsProxyError (Lease C) × LeasePool H3Key C
  unfolding get
  h3_get resolved handshake set_up hostname port pool =
      get alive now (overloaded_error hostname port (codes "HTTP/3"))
        (connect_h3 hostname port resolved handshake set_up) (hostname, port) pool

module _ {C : Type 0} where
  unfoldable pub quic_invalidate :
      QuicApplication → Text → ℕ → LeasePool QuicKey C → LeasePool QuicKey C
  unfolding discard
  quic_invalidate application hostname port pool = discard (application, hostname, port) pool

  unfoldable pub h3_invalidate : Text → ℕ → LeasePool H3Key C → LeasePool H3Key C
  unfolding discard
  h3_invalidate hostname port pool = discard (hostname, port) pool
