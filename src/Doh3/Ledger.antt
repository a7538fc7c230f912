-- ===== src/Doh3/Ledger.antt =====
-- src/readers/doh3.rs: what a run records.
use dns_ingress.Prelude.{
  ℕ, refl, arith, Bool-cases, inl, inr, Option, none, some, List, ◌++◌, length, Result, ok, err,
}
use dns_ingress.Prelude.Text.{Text}
use dns_ingress.Error.{DnsProxyError}
use dns_ingress.Rewriter.{RewriteResult}
use dns_ingress.Metrics.{record_request, record_sni_rewrite, record_upstream_error}
use dns_ingress.Forward.{Response, is_success}
use dns_ingress.QuicPool.{LeasePool}
use dns_ingress.QuicPool.Clients.{H3Key}
use dns_ingress.Http3.{H3Client}
use dns_ingress.Doh.{Request, Context, upstream_uri}
use dns_ingress.Doh.Accounting.{IsBalanced}
use dns_ingress.Doh3.{admit}
use dns_ingress.Doh3.Handling.{
  Sending, Run, Forwarding, ran, cut, settled, body_of, forwarded, with_body, admitted,
  process_request, handle_request,
}

-- The books of a request that was sent on.
settled-IsBalanced :
    (sending : Sending) (uri : Text) (received duration : ℕ)
    (r : Result DnsProxyError (Response × ℕ))
    → IsBalanced (record_sni_rewrite ++ (settled sending uri received duration r).1)
unfolding settled record_request record_sni_rewrite record_upstream_error
settled-IsBalanced sending uri received duration (err e) = (refl, refl, omega arith, omega arith)
settled-IsBalanced sending uri received duration (ok (response, sent)) =
    elim (Bool-cases (is_success response.status)) [
      | inl t ↦ rw t (refl, refl, omega arith, omega arith)
      | inr f ↦ rw f (refl, refl, omega arith, omega arith)
    ]

module _ {Client S : Type 0} (c : Context Client) (h : H3Client S) where
  forwarded-IsBalanced :
      (pool : LeasePool H3Key S) (req : Request) (run : Run S) (x : RewriteResult) (body : List ℕ)
      (f : Forwarding S)
      → IsBalanced (forwarded c h pool req run x body f).1
  unfolding forwarded record_sni_rewrite
  forwarded-IsBalanced pool req run x body (cut left) = (refl, refl, omega arith, omega arith)
  forwarded-IsBalanced pool req run x body (ran opening) =
      settled-IsBalanced run.sending (upstream_uri x.target_hostname c.endpoint req.uri.query)
        (length body) run.duration _

  with_body-IsBalanced :
      (pool : LeasePool H3Key S) (req : Request) (run : Run S) (x : RewriteResult)
      (b : Result DnsProxyError (Option (List ℕ)))
      → IsBalanced (with_body c h pool req run x b).1
  unfolding with_body record_sni_rewrite
  with_body-IsBalanced pool req run x (err e) = (refl, refl, omega arith, omega arith)
  with_body-IsBalanced pool req run x (ok none) = (refl, refl, omega arith, omega arith)
  with_body-IsBalanced pool req run x (ok (some body)) =
      forwarded-IsBalanced pool req run x body run.forwarding

  admitted-IsBalanced :
      (pool : LeasePool H3Key S) (req : Request) (run : Run S)
      (a : Result DnsProxyError RewriteResult)
      → IsBalanced (admitted c h pool req run a).1
  unfolding admitted
  admitted-IsBalanced pool req run (err e) = (refl, refl, omega arith, omega arith)
  admitted-IsBalanced pool req run (ok x) =
      with_body-IsBalanced pool req run x (body_of c h req.method run.polls)

  -- A DoH3 run counts at most one rewrite and at most one request; a counted request is a success
  -- or a failure, and its failure is one upstream error. This holds of refused requests, of runs
  -- that a shutdown cuts, and of responses that the client does not take.
  pub handle_request-IsBalanced :
      (method uri : Text) (pool : LeasePool H3Key S) (req : Request) (run : Run S)
      → IsBalanced (handle_request c h method uri pool req run).1
  unfolding handle_request process_request
  handle_request-IsBalanced method uri pool req run =
      admitted-IsBalanced pool req run (admit c method uri req)
