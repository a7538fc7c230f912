-- ===== src/Doh/Branches.antt =====
-- The three ways that a run can go, each as an equation for the handler.
use dns_ingress.Prelude.{ℕ, ◌≡◌, List, [], ◌++◌, length, Result, ok, err}
use dns_ingress.Prelude.Text.{Text}
use dns_ingress.Rewriter.{RewriteResult}
use dns_ingress.Metrics.{Counter, record_sni_rewrite}
use dns_ingress.Pool.{Attempt, ConnectionPool}
use dns_ingress.Forward.{Response, ForwardError, forward_http_request}
use dns_ingress.Doh.{
  Request, Context, DohHttpError, admit, read_body, conclude, upstream_uri,
  handle_http_request_inner,
}

module _ {Client : Type 0} (c : Context Client) (attempt : Attempt Client) (duration : ℕ)
    (pool : ConnectionPool Client) (req : Request) where
  -- What is forwarded for a rewrite and a body.
  abbrev pub forwarded :
      RewriteResult → Text → Result ForwardError (Response × ℕ) × ConnectionPool Client
  forwarded x body =
      forward_http_request c.hyper attempt pool
        (upstream_uri x.target_hostname c.endpoint req.uri.query) x.target_hostname req.method
        req.headers body c.timeout

  abbrev pub concluded : RewriteResult → Text → Result DohHttpError Response × List (Counter × ℕ)
  concluded x body = conclude c (length body) duration (forwarded x body).0

  abbrev pub run : Result DohHttpError Response × List (Counter × ℕ) × ConnectionPool Client
  run = handle_http_request_inner c attempt duration pool req

  pub run-refused : {e : DohHttpError} → admit c req ≡ err e → run ≡ (err e, [], pool)
  unfolding handle_http_request_inner
  run-refused h = rw (handle_http_request_inner, h)

  pub run-no_body :
      {x : RewriteResult} {e : DohHttpError}
      → admit c req ≡ ok x
      → read_body c req ≡ err e
      → run ≡ (err e, record_sni_rewrite, pool)
  unfolding handle_http_request_inner
  run-no_body h k = rw (handle_http_request_inner, h, k)

  pub run-forwarded :
      {x : RewriteResult} {body : Text}
      → admit c req ≡ ok x
      → read_body c req ≡ ok body
      → run
        ≡ ((concluded x body).0, record_sni_rewrite ++ (concluded x body).1, (forwarded x body).1)
  unfolding handle_http_request_inner
  run-forwarded h k = rw (handle_http_request_inner, h, k)
