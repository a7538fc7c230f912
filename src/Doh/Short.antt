-- ===== src/Doh/Short.antt =====
-- src/proxy/http.rs: a POST whose body is too short for a DNS message.
use dns_ingress.Prelude.{ℕ, ◌<◌, ◌≡◌, ap, ◌∙◌, length, ok}
use dns_ingress.Rewriter.{RewriteResult}
use dns_ingress.Message.{post}
use dns_ingress.Message.Body.{Delivered, payload}
use dns_ingress.Pool.{Attempt, ConnectionPool}
use dns_ingress.Doh.{Request, Context, admit, respond, handle_http_request}
use dns_ingress.Doh.Branches.{run-no_body}
use dns_ingress.Doh.Body.{read_body-post}
use dns_ingress.Doh.Status.{bad_request-status}

module _ {Client : Type 0} (c : Context Client) (attempt : Attempt Client) (duration : ℕ)
    (pool : ConnectionPool Client) (req : Request) where
  -- It is answered as a bad request, when it passes the checks before its body.
  pub handle-short :
      {x : RewriteResult}
      → admit c req ≡ ok x
      → req.method ≡ post
      → Delivered req.body
      → length (payload req.body) < 12
      → (handle_http_request c attempt duration pool req).0.status ≡ 400
  unfolding handle_http_request respond
  handle-short {x} passes m d h =
      ap (λ r. (respond c r.0).status)
        (run-no_body c attempt duration pool req passes ((read_body-post c req m d).0 h))
      ∙ bad_request-status c
