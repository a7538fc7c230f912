-- ===== src/Http3.antt =====
-- src/upstream/quic.rs: one DoH request sent over HTTP/3, with the lease of its session. The client
-- of h3 and the parsers of hyper are an interface record; the stream of a request is what its calls
-- yield under the timeout.
pub mod Exchange
pub mod Session
pub mod Oversized
mod Tests
use dns_ingress.Prelude.{
  ℕ, ◌+◌, ltb, not, Bool, List, [], ◌∷◌, ◌++◌, length, is_empty, if◌then◌else◌, Option, Result, ok,
  err, ◌>>=◌, map_err,
}
use dns_ingress.Prelude.Text.{Text, codes}
use dns_ingress.Prelude.Assoc.{insert, text_key}
use dns_ingress.Prelude.Timed.{Timed, done, broken, late, awaited}
use dns_ingress.Error.{DnsProxyError, timeout, protocol, upstream, UpstreamError, request_failed}
use dns_ingress.Message.{
  Method, is_dns_message_content_type, validate_dns_message, max_dns_message_size,
}
use dns_ingress.Forward.{
  HeaderMap, UpstreamRequest, Response, is_success, allowed_headers, header_text,
}
use dns_ingress.QuicPool.{Lease, LeasePool, drop_lease, peer}
use dns_ingress.QuicPool.Clients.{H3Key, h3_key, h3_invalidate}

-- A piece of the response is a `Buf`: its first contiguous slice, which `chunk` yields, and the bytes
-- behind that.
pub record Chunk : Type 0 where
  pub chunk : List ℕ
  pub behind : List ℕ

abbrev pub remaining : Chunk → ℕ
remaining piece = length piece.chunk + length piece.behind

-- What the calls on the stream of a request yield, in their order: `send_request`, `send_data`,
-- `finish`, `recv_response`, and each `recv_data` until the end of the response.
pub record H3Stream : Type 0 where
  pub opened : Timed (Unit {0})
  pub sent : Timed (Unit {0})
  pub finished : Timed (Unit {0})
  pub head : Timed (ℕ × HeaderMap)
  pub chunks : List (Timed Chunk)

pub record H3Client (Session : Type 0) : Type 0 where
  pub parse_uri : Text → Result Text Text
  pub parse_value : Text → Result Text Text
  pub to_str : Text → Option Text
  pub send_request : Session → UpstreamRequest → H3Stream

-- `pool.get` under the timeout: its answer, or the pool that the abandoned call leaves.
pub data Opening (S : Type 0) : Type 0 where
  got : Result DnsProxyError (Lease S) → LeasePool H3Key S → Opening S
  abandoned : LeasePool H3Key S → Opening S

abbrev pub failed : Text → Text → DnsProxyError
failed upstream_uri reason = upstream (request_failed upstream_uri reason)

-- The limit is tested with all bytes of a piece, and its first slice is appended.
unfoldable pub read_data : Text → List (Timed Chunk) → List ℕ → Result DnsProxyError (List ℕ)
read_data upstream_uri [] response_body = ok response_body
read_data upstream_uri (late ∷ more) response_body = err (timeout upstream_uri)
read_data upstream_uri (broken e ∷ more) response_body = err (protocol e)
read_data upstream_uri (done piece ∷ more) response_body =
    let rest = read_data upstream_uri more (response_body ++ piece.chunk) in
    if ltb max_dns_message_size (length response_body + remaining piece)
    then err (failed upstream_uri (codes "HTTP/3 upstream response exceeds DNS message limit"))
    else rest

module _ {S : Type 0} (c : H3Client S) where
  unfoldable pub h3_request :
      Text → Text → Method → HeaderMap → List ℕ → Result DnsProxyError UpstreamRequest
  h3_request upstream_uri target method headers body = do
    uri ← map_err (λ e. protocol (codes "Invalid HTTP/3 request: " ++ e)) (c.parse_uri upstream_uri)
    host ←
        map_err (λ e. protocol (codes "Invalid upstream Host header: " ++ e)) (c.parse_value target)
    ok (record {
      method = method;
      uri = uri;
      headers = insert (codes "host") host (allowed_headers headers []);
      body = body;
    })

  -- The checks on a successful answer.
  unfoldable pub check_response : Text → ℕ → HeaderMap → List ℕ → Result DnsProxyError (Unit {0})
  check_response upstream_uri status headers body =
      let not_dns =
        failed upstream_uri (codes "HTTP/3 upstream returned a successful non-DNS response") in
      if not (is_success status)
      then ok tt
      else if not
          (is_dns_message_content_type (header_text c.to_str (codes "content-type") headers))
      then err not_dns
      else map_err (failed upstream_uri)
          (validate_dns_message body (codes "HTTP/3 upstream DNS response"))

  unfoldable pub exchange : Text → List ℕ → H3Stream → Result DnsProxyError (Response × ℕ)
  unfolding read_data check_response
  exchange upstream_uri body stream = do
    _ ← awaited (timeout upstream_uri) (failed upstream_uri) stream.opened
    _ ← if is_empty body then ok tt else awaited (timeout upstream_uri) protocol stream.sent
    _ ← awaited (timeout upstream_uri) protocol stream.finished
    head ← awaited (timeout upstream_uri) protocol stream.head
    response_body ← read_data upstream_uri stream.chunks []
    _ ← check_response upstream_uri head.0 head.1 response_body
    ok (record { status = head.0; headers = head.1; body = response_body }, length response_body)

  -- The request on a session.
  unfoldable pub on_session :
      S → Text → Text → Method → HeaderMap → List ℕ → Result DnsProxyError (Response × ℕ)
  unfolding h3_request exchange
  on_session session upstream_uri target method headers body =
      h3_request upstream_uri target method headers body >>= λ request.
      exchange upstream_uri body (c.send_request session request)

  -- A session that failed a request is removed from the pool; the lease ends with the call.
  unfoldable pub conclude :
      Text
      → ℕ
      → Lease S
      → LeasePool H3Key S
      → Result DnsProxyError (Response × ℕ)
      → Result DnsProxyError (Response × ℕ) × LeasePool H3Key S
  unfolding h3_invalidate
  conclude target port lease pool (ok answer) = (ok answer, drop_lease lease.slot pool)
  conclude target port lease pool (err e) =
      (err e, drop_lease lease.slot (h3_invalidate target port pool))

  unfoldable pub forward_http3_request :
      Opening S
      → Text
      → Text
      → ℕ
      → Method
      → HeaderMap
      → List ℕ
      → Result DnsProxyError (Response × ℕ) × LeasePool H3Key S
  unfolding on_session conclude
  forward_http3_request (abandoned pool) upstream_uri target port method headers body =
      (err (timeout (peer target port)), pool)
  forward_http3_request (got (err e) pool) upstream_uri target port method headers body =
      (err e, pool)
  forward_http3_request (got (ok lease) pool) upstream_uri target port method headers body =
      conclude target port lease pool
        (on_session lease.connection upstream_uri target method headers body)
