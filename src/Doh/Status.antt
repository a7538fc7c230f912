-- ===== src/Doh/Status.antt =====
-- What the client is answered.
use dns_ingress.Prelude.{
  ℕ, ◌≡◌, refl, sym, ap, ◌∙◌, inl, inr, true, false, Bool, ◌≢◌, length, Result, ok, err,
  Result-cases, err-ne-ok, subst,
}
use dns_ingress.Prelude.Assoc.{text_key}
use dns_ingress.Pool.{Attempt, ConnectionPool}
use dns_ingress.Forward.{Response, ForwardError, is_success}
use dns_ingress.Forward.Answer.{IsDnsResponse, forward_http_request-ok}
use dns_ingress.Doh.{
  Request, Context, DohHttpError, admit, read_body, conclude, doh_error_response,
  handle_http_request, respond, text_response,
}
use dns_ingress.Doh.Branches.{forwarded, run, run-refused, run-no_body, run-forwarded}

false-ne-true : ◌≢◌ {A = Bool} false true
false-ne-true h = cc

module _ {Client : Type 0} (c : Context Client) where
  error-is_success : (e : DohHttpError) → is_success (doh_error_response c e).status ≡ false
  unfolding doh_error_response text_response
  error-is_success DohHttpError.bad_request = refl
  error-is_success DohHttpError.not_found = refl
  error-is_success DohHttpError.method_not_allowed = refl
  error-is_success DohHttpError.unsupported_media_type = refl
  error-is_success DohHttpError.payload_too_large = refl
  error-is_success DohHttpError.request_timeout = refl
  error-is_success DohHttpError.gateway_timeout = refl
  error-is_success DohHttpError.bad_gateway = refl

  pub bad_request-status : (doh_error_response c DohHttpError.bad_request).status ≡ 400
  unfolding doh_error_response text_response
  bad_request-status = refl

  conclude-ok :
      (received duration : ℕ) (result : Result ForwardError (Response × ℕ)) {r : Response}
      → (conclude c received duration result).0 ≡ ok r
      → (n : ℕ) × (result ≡ ok (r, n))
  unfolding conclude
  conclude-ok received duration (ok (r', n)) {r} h =
      (n, let same : r' ≡ r = cc in ap (λ x. ok (x, n)) same)
  conclude-ok received duration (err e) h = absurd (err-ne-ok h)

  -- A run's response, if it is one, is the upstream's.
  inner-ok :
      (attempt : Attempt Client) (duration : ℕ) (pool : ConnectionPool Client) (req : Request)
      {r : Response}
      → (run c attempt duration pool req).0 ≡ ok r
      → is_success r.status ≡ true
      → IsDnsResponse c.hyper.to_str r
  inner-ok attempt duration pool req {r} k s = elim (Result-cases (admit c req)) [
    | inr (e, refuse) ↦
        absurd
          (err-ne-ok (sym (ap (λ t. t.0) (run-refused c attempt duration pool req refuse)) ∙ k))
    | inl (x, admitted) ↦ elim (Result-cases (read_body c req)) [
      | inr (e, refuse) ↦ absurd (
          err-ne-ok
            (sym (ap (λ t. t.0) (run-no_body c attempt duration pool req admitted refuse)) ∙ k))
      | inl (body, present) ↦
          let same =
            sym (ap (λ t. t.0) (run-forwarded c attempt duration pool req admitted present)) ∙ k in
          let (n, e) =
            conclude-ok (length body) duration (forwarded c attempt duration pool req x body).0
              {r = r} same in
          (forward_http_request-ok c.hyper attempt pool _ _ _ _ _ _ {r = r} {n = n} e).1 s
    ]
  ]

  -- What the client is answered with a success status is a DNS message of 12 to 65535 bytes with the
  -- DNS media type: a refusal or a failure never has a success status.
  pub handle-success :
      (attempt : Attempt Client) (duration : ℕ) (pool : ConnectionPool Client) (req : Request)
      → is_success (handle_http_request c attempt duration pool req).0.status ≡ true
      → IsDnsResponse c.hyper.to_str (handle_http_request c attempt duration pool req).0
  unfolding handle_http_request respond
  handle-success attempt duration pool req s =
      elim (Result-cases (run c attempt duration pool req).0) [
        | inl (r, e) ↦
            subst (λ o. IsDnsResponse c.hyper.to_str (respond c o)) (sym e)
              (inner-ok attempt duration pool req e
                (subst (λ o. is_success (respond c o).status ≡ true) e s))
        | inr (e, f) ↦ absurd (
            false-ne-true
              (sym (error-is_success e) ∙ subst (λ o. is_success (respond c o).status ≡ true) f s))
      ]
