-- ===== src/Doh3/Failure.antt =====
-- src/readers/doh3.rs: the status that a failed forwarding is answered with.
use dns_ingress.Prelude.{
  ℕ, ◌≡◌, ◌≢◌, ◌<◌, refl, ap, ◌∙◌, arith, true, ◌||◌, Bool, some, List, length, if◌then◌else◌,
  Result, ok, err,
}
use dns_ingress.Prelude.Text.{Text, codes, contains, contains-append, contains-after}
use dns_ingress.Error.{DnsProxyError, upstream, request_failed, to_string}
use dns_ingress.Rewriter.{RewriteResult}
use dns_ingress.Forward.{UpstreamRequest, Response}
use dns_ingress.QuicPool.{Lease, LeasePool}
use dns_ingress.QuicPool.Clients.{H3Key}
use dns_ingress.Http3.{H3Client, Opening, got, h3_request, forward_http3_request}
use dns_ingress.Http3.Oversized.{oversized, IsOversized, forward-oversized}
use dns_ingress.Doh.{Request, Context, upstream_uri}
use dns_ingress.Doh3.{admit, status_of, status_by_kind}
use dns_ingress.Doh3.Handling.{
  Run, ran, settled, body_of, forwarded, with_body, admitted, answer, send_error_response,
  process_request, handle_request,
}

-- The conditional that chooses a status, by the words that the message has.
chain : (a b c d : Bool) → ℕ → ℕ
chain a b c d kind =
    if a then 404 else if b then 405 else if c then 415 else if d then 413 else kind

chain-kind :
    (a b c d : Bool) (kind : ℕ)
    → kind ≡ 502
    → (chain a b c d kind ≢ 503) × (chain a b c d kind ≢ 504)
unfolding chain
chain-kind a b c d kind k = ground (arith, k)

chain-word : (a b c d : Bool) (kind : ℕ) → d ≡ true → chain a b c d kind < 500
unfolding chain
chain-word a b c d kind h = ground (arith, h)

unfoldable word : DnsProxyError → Text → Bool
word e text = contains (to_string e) text

status_of-chain :
    (e : DnsProxyError)
    → status_of e
      ≡ chain
          (word e (codes "request path"))
          (word e (codes "only supports GET and POST"))
          (word e (codes "Content-Type"))
          (word e (codes "exceeds") || word e (codes "65535 bytes"))
          (status_by_kind e)
unfolding status_of chain word
status_of-chain e = refl

oversized-word :
    (uri peer : Text)
    → word (upstream (request_failed uri (to_string (oversized peer)))) (codes "exceeds") ≡ true
unfolding word
oversized-word uri peer =
    let x = codes "exceeds" in
    let inner : contains (to_string (oversized peer)) x ≡ true =
      contains-after (codes "Upstream connection error: ") _ x (
        contains-after (codes "Upstream request failed to ") _ x (
          contains-after peer _ x (
            contains-append (codes ": HTTP/3 upstream response ") x
              (codes " DNS message limit")))) in
    contains-after (codes "Upstream connection error: ") _ x (
      contains-after (codes "Upstream request failed to ") _ x
        (contains-after uri _ x (contains-after (codes ": ") _ x inner)))

module _ {Client S : Type 0} (c : Context Client) (h : H3Client S) where
  -- A run that reaches its upstream, with what it sends on.
  pub record SentOn (method uri : Text) (req : Request) (run : Run S) (opening : Opening S)
      : Type 0 where
    pub rewritten : RewriteResult
    pub body : List ℕ
    pub passes : admit c method uri req ≡ ok rewritten
    pub read : body_of c h req.method run.polls ≡ ok (some body)
    pub uncut : run.forwarding ≡ ran opening

  -- The result of the forwarding of such a run.
  abbrev pub result_of :
      {method uri : Text} {req : Request} {run : Run S} {opening : Opening S}
      → SentOn method uri req run opening
      → Result DnsProxyError (Response × ℕ)
  result_of {req = req} {opening = opening} w =
      (forward_http3_request h opening
        (upstream_uri w.rewritten.target_hostname c.endpoint req.uri.query)
        w.rewritten.target_hostname c.endpoint.port req.method req.headers w.body).0

  process_request-failed :
      (method uri : Text) (pool : LeasePool H3Key S) (req : Request) (run : Run S)
      (opening : Opening S) {e : DnsProxyError} (w : SentOn method uri req run opening)
      → result_of w ≡ err e
      → (process_request c h method uri pool req run).0
        ≡ err (
            upstream (
              request_failed
                (upstream_uri w.rewritten.target_hostname c.endpoint req.uri.query)
                (to_string e)))
  unfolding process_request admitted with_body forwarded settled
  process_request-failed method uri pool req run opening w f =
      ap (λ r. (admitted c h pool req run r).0) w.passes
      ∙ (ap (λ b. (with_body c h pool req run w.rewritten b).0) w.read
          ∙ (ap (λ o. (forwarded c h pool req run w.rewritten w.body o).0) w.uncut
              ∙ ap
                  (λ r.
                    (settled run.sending
                      (upstream_uri w.rewritten.target_hostname c.endpoint req.uri.query)
                      (length w.body) run.duration r).0)
                  f))

  -- When the forwarding of a DoH3 request fails, by whatever error, a timeout and an overloaded
  -- pool included, the client is answered, but never with 503 or 504.
  pub handle_request-never_timeout :
      (method uri : Text) (pool : LeasePool H3Key S) (req : Request) (run : Run S)
      (opening : Opening S) {e : DnsProxyError} (w : SentOn method uri req run opening)
      → result_of w ≡ err e
      → (response : Response) × ((handle_request c h method uri pool req run).0 ≡ some response)
        × (response.status ≢ 503)
        × (response.status ≢ 504)
  unfolding handle_request answer send_error_response status_by_kind
  handle_request-never_timeout method uri pool req run opening {e} w f =
      let shown = upstream (
        request_failed (upstream_uri w.rewritten.target_hostname c.endpoint req.uri.query)
          (to_string e)) in
      let kind = chain-kind _ _ _ _ (status_by_kind shown) refl in
      (
        send_error_response shown,
        ap (λ r. answer c h r) (process_request-failed method uri pool req run opening w f),
        rw (status_of-chain shown) kind.0,
        rw (status_of-chain shown) kind.1,
      )

  -- When the upstream answers a request, on the session that was leased, with more data than a DNS
  -- message has, the client is answered with a status below 500, though its request was without
  -- fault.
  pub handle_request-oversized :
      (method uri : Text) (pool left : LeasePool H3Key S) (req : Request) (run : Run S)
      (lease : Lease S) (w : SentOn method uri req run (got (ok lease) left))
      {request : UpstreamRequest}
      → h3_request h
          (upstream_uri w.rewritten.target_hostname c.endpoint req.uri.query)
          w.rewritten.target_hostname
          req.method
          req.headers
          w.body
        ≡ ok request
      → IsOversized (h.send_request lease.connection request)
      → (response : Response) × ((handle_request c h method uri pool req run).0 ≡ some response)
        × (response.status < 500)
  unfolding handle_request answer send_error_response
  handle_request-oversized method uri pool left req run lease w built too_large =
      let target = w.rewritten.target_hostname in
      let sent_to = upstream_uri target c.endpoint req.uri.query in
      let shown = upstream (request_failed sent_to (to_string (oversized sent_to))) in
      let failing : result_of w ≡ err (oversized sent_to) =
        forward-oversized h lease left sent_to target c.endpoint.port req.method req.headers w.body
          built too_large in
      let words : (word shown (codes "exceeds") || word shown (codes "65535 bytes")) ≡ true =
        ground (arith, oversized-word sent_to sent_to) in
      (
        send_error_response shown,
        ap (λ r. answer c h r)
            (process_request-failed method uri pool req run (got (ok lease) left) w failing),
        rw (status_of-chain shown) (chain-word _ _ _ _ _ words),
      )
