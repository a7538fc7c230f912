-- ===== src/Doh/Accounting.antt =====
-- What a run records, and when it touches the upstream.
use dns_ingress.Prelude.{
  ℕ, ◌+◌, ◌≤◌, ◌≡◌, refl, sym, ◌∙◌, ◌↔◌, inl, inr, true, false, List, ◌++◌, length, arith,
  Bool-cases, Result, ok, err, Result-cases, err-ne-ok, subst,
}
use dns_ingress.Prelude.Text.{Text}
use dns_ingress.Rewriter.{RewriteResult}
use dns_ingress.Metrics.{
  Counter, total, successful, failed, rewrites, errors, record_request, record_sni_rewrite,
  record_upstream_error,
}
use dns_ingress.Metrics.Tally.{tally}
use dns_ingress.Pool.{Attempt, ConnectionPool}
use dns_ingress.Forward.{Response, ForwardError, is_success}
use dns_ingress.Doh.{
  Request, Context, DohHttpError, admit, read_body, conclude, handle_http_request_inner,
}
use dns_ingress.Doh.Branches.{forwarded, run-refused, run-no_body, run-forwarded}
use dns_ingress.Doh.Admission.{IsAdmitted, admit_iff}

-- The books of one run: a request that is counted succeeded or failed, a failed one is an upstream
-- error, and one is counted only where a rewrite is.
abbrev pub IsBalanced : List (Counter × ℕ) → Type 0
IsBalanced adds =
    (tally total adds ≡ tally successful adds + tally failed adds)
    × (tally errors adds ≡ tally failed adds)
    × (tally total adds ≤ tally rewrites adds)
    × (tally rewrites adds ≤ 1)

-- The run ended in a response of the upstream with a success status.
abbrev pub IsServed : Result DohHttpError Response → Type 0
IsServed outcome = (r : Response) × (outcome ≡ ok r) × (is_success r.status ≡ true)

unserved : (response : Response) → is_success response.status ≡ false → ¬ IsServed (ok response)
unserved response f (r, k, s) = let same : response ≡ r = cc in ground (arith, f, s, same)

refused : (e : DohHttpError) → ¬ IsServed (err e)
refused e (r, k, s) = cc

module _ {Client : Type 0} (c : Context Client) where
  conclude-books :
      (received duration : ℕ) (result : Result ForwardError (Response × ℕ))
      → IsBalanced (record_sni_rewrite ++ (conclude c received duration result).1)
        × (tally total (conclude c received duration result).1 ≡ 1)
        × ((tally successful (conclude c received duration result).1 ≡ 1)
            ↔ IsServed (conclude c received duration result).0)
  unfolding conclude record_request record_sni_rewrite record_upstream_error
  conclude-books received duration (ok (response, sent)) =
      elim (Bool-cases (is_success response.status)) [
        | inl t ↦ rw t (
          (refl, refl, omega arith, omega arith),
          refl,
          ((λ _. (response, refl, t)), (λ _. refl)),
        )
        | inr f ↦ rw f (
          (refl, refl, omega arith, omega arith),
          refl,
          ((λ h. absurd (omega (arith, h))), (λ t. absurd (unserved response f t))),
        )
      ]
  conclude-books received duration (err e) = (
    (refl, refl, omega arith, omega arith),
    refl,
    ((λ h. absurd (omega (arith, h))), (λ t. absurd (refused _ t))),
  )

  abbrev pub outcome_of :
      Attempt Client → ℕ → ConnectionPool Client → Request → Result DohHttpError Response
  outcome_of attempt duration pool req = (handle_http_request_inner c attempt duration pool req).0

  abbrev pub adds_of : Attempt Client → ℕ → ConnectionPool Client → Request → List (Counter × ℕ)
  adds_of attempt duration pool req = (handle_http_request_inner c attempt duration pool req).1

  Books : Result DohHttpError Response × List (Counter × ℕ) × ConnectionPool Client → Type 0
  Books run = IsBalanced run.1 × ((tally successful run.1 ≡ 1) ↔ IsServed run.0)

  Contact :
      ConnectionPool Client
      → Request
      → Result DohHttpError Response × List (Counter × ℕ) × ConnectionPool Client
      → Type 0
  Contact pool req run =
      ((tally total run.1 ≡ 1) ↔ (
        ((x : RewriteResult) × IsAdmitted c req x) × ((body : Text) × (read_body c req ≡ ok body))))
      × (¬ (tally total run.1 ≡ 1) → run.2 ≡ pool)

  -- A run counts at most one rewrite and at most one request; a counted request is a success or a
  -- failure, and its failure is one upstream error; and it is a success exactly when the run ends in
  -- a response of the upstream with a success status.
  pub handle-IsBalanced :
      (attempt : Attempt Client) (duration : ℕ) (pool : ConnectionPool Client) (req : Request)
      → IsBalanced (adds_of attempt duration pool req)
        × ((tally successful (adds_of attempt duration pool req) ≡ 1)
            ↔ IsServed (outcome_of attempt duration pool req))
  unfolding record_sni_rewrite Books
  handle-IsBalanced attempt duration pool req = elim (Result-cases (admit c req)) [
    | inr (e, refuse) ↦ subst Books (sym (run-refused c attempt duration pool req refuse)) (
      (refl, refl, omega arith, omega arith),
      ((λ h. absurd (omega (arith, h))), (λ t. absurd (refused e t))),
    )
    | inl (x, admitted) ↦ elim (Result-cases (read_body c req)) [
      | inr (e, refuse) ↦
          subst Books (sym (run-no_body c attempt duration pool req admitted refuse)) (
            (refl, refl, omega arith, omega arith),
            ((λ h. absurd (omega (arith, h))), (λ t. absurd (refused e t))),
          )
      | inl (body, present) ↦
          let (books, counted, served) =
            conclude-books (length body) duration
              (forwarded c attempt duration pool req x body).0 in
          subst Books (sym (run-forwarded c attempt duration pool req admitted present))
            (books, ((λ h. served.0 (omega (arith, h))), (λ t. omega (arith, served.1 t))))
    ]
  ]

  contact :
      (attempt : Attempt Client) (duration : ℕ) (pool : ConnectionPool Client) (req : Request)
      → Contact pool req (handle_http_request_inner c attempt duration pool req)
  unfolding record_sni_rewrite Contact
  contact attempt duration pool req = elim (Result-cases (admit c req)) [
    | inr (e, refuse) ↦
        subst (Contact pool req) (sym (run-refused c attempt duration pool req refuse)) (
          (
            (λ h. absurd (omega (arith, h))),
            (λ t. absurd (err-ne-ok (sym refuse ∙ (admit_iff c req t.0.0).1 t.0.1))),
          ),
          λ _. refl,
        )
    | inl (x, admitted) ↦ elim (Result-cases (read_body c req)) [
      | inr (e, refuse) ↦
          subst (Contact pool req) (sym (run-no_body c attempt duration pool req admitted refuse)) (
            ((λ h. absurd (omega (arith, h))), (λ t. absurd (err-ne-ok (sym refuse ∙ t.1.1)))),
            λ _. refl,
          )
      | inl (body, present) ↦
          let (books, counted, served) =
            conclude-books (length body) duration
              (forwarded c attempt duration pool req x body).0 in
          subst (Contact pool req)
            (sym (run-forwarded c attempt duration pool req admitted present))
            (
              (
                (λ h. ((x, (admit_iff c req x).0 admitted), (body, present))),
                (λ t. omega (arith, counted)),
              ),
              λ n. absurd (n (omega (arith, counted))),
            )
    ]
  ]

  -- A request is counted exactly when it passes the checks and its body can be read.
  pub handle-counted :
      (attempt : Attempt Client) (duration : ℕ) (pool : ConnectionPool Client) (req : Request)
      → (tally total (adds_of attempt duration pool req) ≡ 1) ↔ (
          ((x : RewriteResult) × IsAdmitted c req x)
          × ((body : Text) × (read_body c req ≡ ok body)))
  unfolding Contact
  handle-counted attempt duration pool req = (contact attempt duration pool req).0

  -- A request that is not counted leaves the pool of upstream clients as it is.
  pub handle-uncounted :
      (attempt : Attempt Client) (duration : ℕ) (pool : ConnectionPool Client) (req : Request)
      → ¬ (tally total (adds_of attempt duration pool req) ≡ 1)
      → (handle_http_request_inner c attempt duration pool req).2 ≡ pool
  unfolding Contact
  handle-uncounted attempt duration pool req = (contact attempt duration pool req).1
