-- ===== src/Doh3/Handling.antt =====
-- src/readers/doh3.rs: the whole handler of a DoH3 request, with its forwarding over HTTP/3, its
-- metrics and the response. The client stream is h3's: what its calls yield is a record, and so is
-- where a shutdown cuts a run.
use dns_ingress.Prelude.{
  ℕ, false, ◌==◌, Option, none, some, List, [], ◌∷◌, ◌++◌, length, if◌then◌else◌, Result, ok, err,
  ◌>>=◌,
}
use dns_ingress.Prelude.Text.{Text, codes}
use dns_ingress.Prelude.Timed.{Timed, awaited}
use dns_ingress.Error.{DnsProxyError, timeout, protocol, upstream, request_failed, to_string}
use dns_ingress.Rewriter.{RewriteResult}
use dns_ingress.Metrics.{Counter, record_request, record_sni_rewrite, record_upstream_error}
use dns_ingress.Message.{Method, get, post, other, Poll}
use dns_ingress.Forward.{Response, is_success}
use dns_ingress.QuicPool.{LeasePool}
use dns_ingress.QuicPool.Clients.{H3Key}
use dns_ingress.Http3.{H3Client, Opening, forward_http3_request}
use dns_ingress.Doh.{Request, Context, upstream_uri}
use dns_ingress.Doh3.{admit, post_body, status_of}

-- The three calls that send a response to the client.
pub record Sending : Type 0 where
  pub headers : Timed (Unit {0})
  pub body : Timed (Unit {0})
  pub finish : Timed (Unit {0})

-- How far a run gets before a shutdown: the polls of the body, `none` when it is cut there, and the
-- forwarding, or the pool that it leaves when it is cut there.
pub data Forwarding (S : Type 0) : Type 0 where
  ran : Opening S → Forwarding S
  cut : LeasePool H3Key S → Forwarding S

pub record Run (S : Type 0) : Type 0 where
  pub polls : Option (List Poll)
  pub forwarding : Forwarding S
  pub duration : ℕ
  pub sending : Sending

-- `none` is a run that a shutdown ended.
abbrev pub Ending : Type 0 → Type 0
Ending S = Result DnsProxyError (Option Response) × List (Counter × ℕ) × LeasePool H3Key S

unfoldable pub send : Sending → Response → Result DnsProxyError (Option Response)
send sending response = do
  _ ←
      awaited (timeout (codes "DoH3 client response headers"))
        (λ e. protocol (codes "Failed to send DoH3 response: " ++ e)) sending.headers
  _ ←
      awaited (timeout (codes "DoH3 client response body"))
        (λ e. protocol (codes "Failed to send DoH3 response body: " ++ e)) sending.body
  _ ←
      awaited (timeout (codes "DoH3 client response finish"))
        (λ e. protocol (codes "Failed to finish DoH3 response: " ++ e)) sending.finish
  ok (some response)

-- The match on the forwarding's result.
unfoldable pub settled :
    Sending
    → Text
    → ℕ
    → ℕ
    → Result DnsProxyError (Response × ℕ)
    → Result DnsProxyError (Option Response) × List (Counter × ℕ)
unfolding send
settled sending uri received duration (ok (response, sent)) =
    let success = is_success response.status in
    (
      send sending response,
      record_request success received sent duration
          ++ (if success then [] else record_upstream_error),
    )
settled sending uri received duration (err e) = (
  err (upstream (request_failed uri (to_string e))),
  record_request false received 0 duration ++ record_upstream_error,
)

-- What is answered for an error.
unfoldable pub send_error_response : DnsProxyError → Response
unfolding status_of
send_error_response e =
    let status = status_of e in
    let content_type : Text × Text = (codes "content-type", codes "text/plain; charset=utf-8") in
    record {
      status = status;
      headers =
          content_type ∷ (if status == 405 then (codes "allow", codes "GET, POST") ∷ [] else []);
      body = to_string e;
    }

module _ {Client S : Type 0} (c : Context Client) (h : H3Client S) where
  unfoldable pub body_of : Method → Option (List Poll) → Result DnsProxyError (Option (List ℕ))
  body_of post none = ok none
  body_of post (some polls) = post_body polls >>= λ body. ok (some body)
  body_of get polls = ok (some [])
  body_of (other name) polls = ok (some [])

  -- The request that is sent on, and what comes of it.
  unfoldable pub forwarded :
      LeasePool H3Key S → Request → Run S → RewriteResult → List ℕ → Forwarding S → Ending S
  unfolding settled forward_http3_request
  forwarded pool req run rewritten body (cut left) = (ok none, record_sni_rewrite, left)
  forwarded pool req run rewritten body (ran opening) =
      let target = rewritten.target_hostname in
      let uri = upstream_uri target c.endpoint req.uri.query in
      let (result, pool') =
        forward_http3_request h opening uri target c.endpoint.port req.method req.headers body in
      let (outcome, adds) = settled run.sending uri (length body) run.duration result in
      (outcome, record_sni_rewrite ++ adds, pool')

  unfoldable pub with_body :
      LeasePool H3Key S
      → Request
      → Run S
      → RewriteResult
      → Result DnsProxyError (Option (List ℕ))
      → Ending S
  unfolding forwarded
  with_body pool req run rewritten (err e) = (err e, record_sni_rewrite, pool)
  with_body pool req run rewritten (ok none) = (ok none, record_sni_rewrite, pool)
  with_body pool req run rewritten (ok (some body)) =
      forwarded pool req run rewritten body run.forwarding

  unfoldable pub admitted :
      LeasePool H3Key S → Request → Run S → Result DnsProxyError RewriteResult → Ending S
  unfolding with_body body_of
  admitted pool req run (err e) = (err e, [], pool)
  admitted pool req run (ok rewritten) =
      with_body pool req run rewritten (body_of req.method run.polls)

  -- The method and the URI in their printed forms are for the messages.
  unfoldable pub process_request : Text → Text → LeasePool H3Key S → Request → Run S → Ending S
  unfolding admitted
  process_request method uri pool req run = admitted pool req run (admit c method uri req)

  -- `handle_request`: the response that the client is sent, `none` if a shutdown ended the run.
  unfoldable pub answer : Result DnsProxyError (Option Response) → Option Response
  unfolding send_error_response
  answer (ok response) = response
  answer (err e) = some (send_error_response e)

  unfoldable pub handle_request :
      Text
      → Text
      → LeasePool H3Key S
      → Request
      → Run S
      → Option Response × List (Counter × ℕ) × LeasePool H3Key S
  unfolding process_request answer
  handle_request method uri pool req run =
      let (outcome, adds, pool') = process_request method uri pool req run in
      (answer outcome, adds, pool')
