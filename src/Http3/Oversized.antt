-- ===== src/Http3/Oversized.antt =====
-- src/upstream/quic.rs: an answer over HTTP/3 that is larger than a DNS message.
use dns_ingress.Prelude.{
  ℕ, ◌+◌, ◌<◌, ◌⊎◌, ◌≡◌, refl, ap, arith, ltb, Bool-cases, inl, inr, List, [], ◌∷◌, ◌++◌, is_empty,
  if◌then◌else◌, length, length-append, ok, err, ok->>=, err->>=,
}
use dns_ingress.Prelude.Text.{Text, codes}
use dns_ingress.Prelude.Timed.{Timed, done, broken, late, awaited}
use dns_ingress.Error.{DnsProxyError, timeout, protocol}
use dns_ingress.Message.{Method, max_dns_message_size}
use dns_ingress.Forward.{HeaderMap, UpstreamRequest}
use dns_ingress.QuicPool.{Lease, LeasePool}
use dns_ingress.QuicPool.Clients.{H3Key}
use dns_ingress.Http3.{
  Chunk, remaining, H3Client, H3Stream, got, failed, read_data, exchange, on_session, h3_request,
  conclude, forward_http3_request,
}

abbrev pub oversized : Text → DnsProxyError
oversized uri = failed uri (codes "HTTP/3 upstream response exceeds DNS message limit")

-- The pieces arrive until one brings the bytes, `read` before them, over the limit.
abbrev pub Exceeds : List (Timed Chunk) → ℕ → Type 0
Exceeds [] read = ⊥
Exceeds (late ∷ more) read = ⊥
Exceeds (broken e ∷ more) read = ⊥
Exceeds (done piece ∷ more) read =
    (max_dns_message_size < read + remaining piece) ⊎ Exceeds more (read + length piece.chunk)

-- The request is sent and answered, with more data than a DNS message has.
pub record IsOversized (stream : H3Stream) : Type 0 where
  pub opened : stream.opened ≡ done tt
  pub sent : stream.sent ≡ done tt
  pub finished : stream.finished ≡ done tt
  pub status : ℕ
  pub headers : HeaderMap
  pub head : stream.head ≡ done (status, headers)
  pub exceeds : Exceeds stream.chunks 0

read_data-Exceeds :
    (uri : Text) (chunks : List (Timed Chunk)) (before : List ℕ) {read : ℕ}
    → length before ≡ read
    → Exceeds chunks read
    → read_data uri chunks before ≡ err (oversized uri)
unfolding read_data
read_data-Exceeds uri [] before n x = absurd x
read_data-Exceeds uri (late ∷ more) before n x = absurd x
read_data-Exceeds uri (broken e ∷ more) before n x = absurd x
read_data-Exceeds uri (done piece ∷ more) before n x =
    elim (Bool-cases (ltb max_dns_message_size (length before + remaining piece))) [
      | inl t ↦ rw t refl
      | inr f ↦ rw f (elim x [
        | inl over ↦ absurd (ground (arith, over, n, f))
        | inr later ↦
            read_data-Exceeds uri more (before ++ piece.chunk)
              (omega (arith, n, length-append before piece.chunk)) later
      ])
    ]

module _ {S : Type 0} (c : H3Client S) where
  exchange-oversized :
      (uri : Text) (body : List ℕ) (stream : H3Stream)
      → IsOversized stream
      → exchange c uri body stream ≡ err (oversized uri)
  unfolding exchange
  exchange-oversized uri body stream w =
      let sent : (if is_empty body then ok tt else awaited (timeout uri) protocol stream.sent)
          ≡ ok tt =
        elim (Bool-cases (is_empty body)) [
          | inl t ↦ rw t refl
          | inr f ↦ rw f (ap (awaited (timeout uri) protocol) w.sent)
        ] in
      ok->>= (awaited (timeout uri) (failed uri) stream.opened) _
        (ap (awaited (timeout uri) (failed uri)) w.opened)
        (ok->>= (if is_empty body then ok tt else awaited (timeout uri) protocol stream.sent) _ sent
          (ok->>= (awaited (timeout uri) protocol stream.finished) _
            (ap (awaited (timeout uri) protocol) w.finished)
            (ok->>= (awaited (timeout uri) protocol stream.head) _
              (ap (awaited (timeout uri) protocol) w.head)
              (err->>= (read_data uri stream.chunks []) _
                (read_data-Exceeds uri stream.chunks [] refl w.exceeds)))))

  -- A session that answers too much fails the request.
  pub forward-oversized :
      (lease : Lease S) (pool : LeasePool H3Key S) (uri target : Text) (port : ℕ) (method : Method)
      (headers : HeaderMap) (body : List ℕ) {request : UpstreamRequest}
      → h3_request c uri target method headers body ≡ ok request
      → IsOversized (c.send_request lease.connection request)
      → (forward_http3_request c (got (ok lease) pool) uri target port method headers body).0
        ≡ err (oversized uri)
  unfolding forward_http3_request on_session conclude
  forward-oversized lease pool uri target port method headers body {request} built w =
      let failing : on_session c lease.connection uri target method headers body
          ≡ err (oversized uri) =
        ok->>= (h3_request c uri target method headers body) _ built
          (exchange-oversized uri body (c.send_request lease.connection request) w) in
      ap (λ r. (conclude c target port lease pool r).0) failing
