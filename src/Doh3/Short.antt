-- ===== src/Doh3/Short.antt =====
-- A POST whose body is too short for a DNS message, over HTTP/3 (src/readers/doh3.rs) and over TCP
-- (src/proxy/http.rs).
use dns_ingress.Prelude.{ℕ, ◌<◌, ◌≡◌, ap, ◌∙◌, some, length, ok, err, err->>=}
use dns_ingress.Prelude.Text.{Text}
use dns_ingress.Rewriter.{RewriteResult}
use dns_ingress.Message.{post}
use dns_ingress.Message.Body.{Delivered, payload}
use dns_ingress.Pool.{Attempt, ConnectionPool}
use dns_ingress.Forward.{Response}
use dns_ingress.QuicPool.{LeasePool}
use dns_ingress.QuicPool.Clients.{H3Key}
use dns_ingress.Http3.{H3Client}
use dns_ingress.Doh
use dns_ingress.Doh.{Request, Context, handle_http_request}
use dns_ingress.Doh.Short.{handle-short}
use dns_ingress.Doh3.{admit, post_body}
use dns_ingress.Doh3.Refusal.{out_of_bounds, status-out_of_bounds}
use dns_ingress.Doh3.Body.{post_body-short}
use dns_ingress.Doh3.Handling.{
  Run, body_of, with_body, admitted, process_request, answer, send_error_response, handle_request,
}

module _ {Client S : Type 0} (c : Context Client) (h : H3Client S) where
  body_of-short :
      (req : Request) (run : Run S)
      → req.method ≡ post
      → run.polls ≡ some req.body
      → Delivered req.body
      → length (payload req.body) < 12
      → body_of c h req.method run.polls ≡ err out_of_bounds
  unfolding body_of
  body_of-short req run m polls d few =
      ap (λ k. body_of c h k run.polls) m
      ∙ ap (body_of c h post) polls
      ∙ err->>= (post_body req.body) _ (post_body-short req.body d few)

  process_request-short :
      (method uri : Text) (pool : LeasePool H3Key S) (req : Request) (run : Run S)
      {x : RewriteResult}
      → admit c method uri req ≡ ok x
      → req.method ≡ post
      → run.polls ≡ some req.body
      → Delivered req.body
      → length (payload req.body) < 12
      → (process_request c h method uri pool req run).0 ≡ err out_of_bounds
  unfolding process_request admitted with_body
  process_request-short method uri pool req run {x} passes m polls d few =
      ap (λ r. (admitted c h pool req run r).0) passes
      ∙ ap (λ b. (with_body c h pool req run x b).0) (body_of-short req run m polls d few)

  -- A POST that passes the checks of both handlers before its body, and whose body arrives in time
  -- with fewer than 12 bytes, is answered 400 over HTTPS, and over HTTP/3, where the status is chosen
  -- by the words of the message, 413, as if it were too large.
  pub short_body-statuses :
      (attempt : Attempt Client) (duration : ℕ) (clients : ConnectionPool Client)
      (method uri : Text) (pool : LeasePool H3Key S) (req : Request) (run : Run S)
      {x y : RewriteResult}
      → Doh.admit c req ≡ ok x
      → admit c method uri req ≡ ok y
      → req.method ≡ post
      → run.polls ≡ some req.body
      → Delivered req.body
      → length (payload req.body) < 12
      → ((handle_http_request c attempt duration clients req).0.status ≡ 400)
        × (response : Response) × ((handle_request c h method uri pool req run).0 ≡ some response)
        × (response.status ≡ 413)
  unfolding handle_request answer send_error_response
  short_body-statuses attempt duration clients method uri pool req run over_tcp passes m polls d
        few =
      (
        handle-short c attempt duration clients req over_tcp m d few,
        send_error_response out_of_bounds,
        ap (answer c h) (process_request-short method uri pool req run passes m polls d few),
        status-out_of_bounds,
      )
