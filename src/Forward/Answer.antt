-- ===== src/Forward/Answer.antt =====
-- What an answer with a success status holds.
use dns_ingress.Prelude.{
  ℕ, ◌≤◌, ◌≡◌, refl, inl, inr, true, Option, ◌++◌, length, arith, Bool-cases, Result, ok, >>=-eq-ok,
  map_err, map_err-ok, subst,
}
use dns_ingress.Prelude.Text.{Text, codes}
use dns_ingress.Message.{
  Method, is_dns_message_content_type, max_dns_message_size, collect_body_with_progress,
}
use dns_ingress.Message.Query.{validate_dns_message_iff}
use dns_ingress.Pool.{Attempt, ConnectionPool, get_client}
use dns_ingress.Forward.{
  HeaderMap, Incoming, Response, Exchange, answered, refused, late, Hyper, ForwardError, is_success,
  header_text, check_answer, answer, forward_http_request, upstream_request,
}

-- A response whose body is one DNS message, by its headers and its size.
abbrev pub IsDnsResponse : (Text → Option Text) → Response → Type 0
IsDnsResponse to_str r =
    (is_dns_message_content_type (header_text to_str (codes "content-type") r.headers) ≡ true)
    × (12 ≤ length r.body)
    × (length r.body ≤ max_dns_message_size)

result_eq : {E A : Type 0} {a b : A} → ◌≡◌ {A = Result E A} (ok a) (ok b) → a ≡ b
result_eq h = cc

module _ {Client : Type 0} (h : Hyper Client) where
  check_answer-ok :
      (uri : Text) (resp : Incoming) (body : Text)
      → check_answer h uri resp body ≡ ok tt
      → is_success resp.status ≡ true
      → (is_dns_message_content_type (header_text h.to_str (codes "content-type") resp.headers)
          ≡ true)
        × (12 ≤ length body)
        × (length body ≤ max_dns_message_size)
  unfolding check_answer
  check_answer-ok uri resp body e s =
      elim (Bool-cases
        (is_dns_message_content_type (header_text h.to_str (codes "content-type") resp.headers))) [
          | inr f ↦ absurd (ground (arith, rw (check_answer, s, f) at e))
          | inl t ↦
              let checked = map_err-ok _ _ (rw (check_answer, s, t) at e) in
              let (header, bound) =
                (validate_dns_message_iff body (codes "HTTP upstream DNS response")).0 checked in
              (t, header, bound)
        ]

  IsAnswer : Response × ℕ → Type 0
  IsAnswer (r, n) = (n ≡ length r.body) × (is_success r.status ≡ true → IsDnsResponse h.to_str r)

  answer-ok :
      (uri timeout : Text) (x : Exchange) {a : Response × ℕ}
      → answer h uri timeout x ≡ ok a
      → IsAnswer a
  unfolding answer IsAnswer
  answer-ok uri timeout (refused e) {a} k =
      subst IsAnswer {y = a} (result_eq k) (refl, λ s. ground arith)
  answer-ok uri timeout late {a} k = subst IsAnswer {y = a} (result_eq k) (refl, λ s. ground arith)
  answer-ok uri timeout (answered resp) {a} k =
      let collected =
        collect_body_with_progress resp.body (codes "Upstream response body for " ++ uri) in
      let (body, _, e) = >>=-eq-ok (map_err ForwardError.collection collected) _ k in
      let (u, checked, e') = >>=-eq-ok (check_answer h uri resp body) _ e in
      let r : Response = record { status = resp.status; headers = resp.headers; body = body } in
      subst IsAnswer {x = (r, length body)} {y = a} (result_eq e')
        (refl, λ s. check_answer-ok uri resp body checked s)

  -- An answer with a success status is a DNS message of 12 to 65535 bytes with its media type, and
  -- the size that is reported is the body's.
  pub forward_http_request-ok :
      (attempt : Attempt Client) (pool : ConnectionPool Client) (uri target : Text)
      (method : Method) (headers : HeaderMap) (body timeout : Text) {r : Response} {n : ℕ}
      → (forward_http_request h attempt pool uri target method headers body timeout).0 ≡ ok (r, n)
      → (n ≡ length r.body) × (is_success r.status ≡ true → IsDnsResponse h.to_str r)
  unfolding forward_http_request IsAnswer
  forward_http_request-ok attempt pool uri target method headers body timeout {r} {n} k =
      let (q, _, e) = >>=-eq-ok (upstream_request h uri target method headers body) _ k in
      answer-ok uri timeout (h.request (get_client attempt pool target).0 q) {a = (r, n)} e
