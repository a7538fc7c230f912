-- ===== src/Health/Readiness.antt =====
-- Where the service says that it is not ready.
use dns_ingress.Prelude.{
  ◌≡◌, refl, sym, ◌∙◌, ◌↔◌, ◌⊎◌, inl, inr, ◌≢◌, true, false, Bool, List, [], ◌∷◌, All, arith,
  Bool-cases, Result, ok, >>=-eq-ok,
}
use dns_ingress.Prelude.Text.{Text, codes, text_eq, text_eq_iff}
use dns_ingress.Metrics.{Metrics, snapshot}
use dns_ingress.Message.{Method}
use dns_ingress.Forward.{Response}
use dns_ingress.Health.{Printer, is_get, ready_status, handle_healthcheck}

-- The paths that are served before the configured one.
abbrev pub fixed_paths : List Text
fixed_paths =
    codes "/live" ∷ codes "/ready" ∷ codes "/metrics" ∷ codes "/stats" ∷ codes "/metrics/json" ∷ []

-- A path that answers by readiness.
abbrev pub Reports : Text → Text → Type 0
Reports path healthcheck_path =
    (path ≡ codes "/ready") ⊎ ((path ≡ healthcheck_path) × All (λ fixed. path ≢ fixed) fixed_paths)

same : (s t : Text) → text_eq s t ≡ true → s ≡ t
same s t = (text_eq_iff s t).0

different : (s t : Text) → text_eq s t ≡ false → s ≢ t
different s t f e = ground (arith, f, (text_eq_iff s t).1 e)

status-ok : {r s : Response} → ◌≡◌ {A = Result Text Response} (ok r) (ok s) → r.status ≡ s.status
status-ok h = cc

-- The statuses of an answer by readiness.
ready_status-unready : (ready : Bool) → (ready_status ready ≡ 503) ↔ (ready ≡ false)
ready_status-unready ready = ground arith

module _ (print : Printer) (path healthcheck_path : Text) (metrics : Metrics) (ready : Bool) where
  Unready : Bool → Response → Type 0
  Unready getting r =
      (r.status ≡ 503) ↔ ((getting ≡ true) × (ready ≡ false) × Reports path healthcheck_path)

  -- A branch that does not answer by readiness.
  never :
      (getting : Bool) (r : Response)
      → r.status ≢ 503
      → ((getting ≡ true) → ¬ Reports path healthcheck_path)
      → Unready getting r
  unfolding Unready
  never getting r n f = ((λ k. absurd (n k)), (λ t. absurd (f t.0 t.2)))

  -- A branch that does.
  always :
      (r : Response)
      → ready_status ready ≡ r.status
      → Reports path healthcheck_path
      → Unready true r
  unfolding Unready
  always r e k = (
    (λ s. (refl, (ready_status-unready ready).0 (e ∙ s), k)),
    (λ t. sym e ∙ (ready_status-unready ready).1 t.1),
  )

  -- A fixed path other than `/ready` does not report.
  served :
      (fixed : Text)
      → path ≡ fixed
      → fixed ≢ codes "/ready"
      → (All (λ f. path ≢ f) fixed_paths → path ≢ fixed)
      → ¬ Reports path healthcheck_path
  served fixed e n member (inl k) = absurd (n (sym e ∙ k))
  served fixed e n member (inr (k, all)) = absurd (member all e)

  -- The configured path, or an unknown one, after the fixed ones.
  last-branch :
      (r : Response)
      → All (λ f. path ≢ f) fixed_paths
      → (text_eq path healthcheck_path ≡ false → 404 ≡ r.status)
      → (text_eq path healthcheck_path ≡ true → ready_status ready ≡ r.status)
      → Unready true r
  last-branch r all missing present = elim (Bool-cases (text_eq path healthcheck_path)) [
    | inl t ↦ always r (present t) (inr (same path healthcheck_path t, all))
    | inr f ↦
        let status = missing f in
        never true r (λ k. ground (arith, status, k))
          (λ _ w. elim w [ inl k ↦ all.1.0 k | inr (k, _) ↦ different path healthcheck_path f k ])
  ]

  get-branch :
      (r : Response)
      → handle_healthcheck print Method.get path healthcheck_path metrics ready ≡ ok r
      → Unready true r
  unfolding handle_healthcheck
  get-branch r h = elim (Bool-cases (text_eq path (codes "/live"))) [
    | inl t ↦
        let status = status-ok (rw (handle_healthcheck, t) at h) in
        never true r (λ k. ground (arith, status, k))
          (λ _. served (codes "/live") (same _ _ t) (λ e. cc) (λ a. a.0))
    | inr live ↦ elim (Bool-cases (text_eq path (codes "/ready"))) [
      | inl t ↦
          let status = status-ok (rw (handle_healthcheck, live, t) at h) in
          always r status (inl (same path (codes "/ready") t))
      | inr unready ↦ elim (Bool-cases (text_eq path (codes "/metrics"))) [
        | inl t ↦
            let status = status-ok (rw (handle_healthcheck, live, unready, t) at h) in
            never true r (λ k. ground (arith, status, k))
              (λ _. served (codes "/metrics") (same _ _ t) (λ e. cc) (λ a. a.1.1.0))
        | inr metric ↦ elim (Bool-cases (text_eq path (codes "/stats"))) [
          | inl t ↦
              let status = status-ok (rw (handle_healthcheck, live, unready, metric, t) at h) in
              never true r (λ k. ground (arith, status, k))
                (λ _. served (codes "/stats") (same _ _ t) (λ e. cc) (λ a. a.1.1.1.0))
          | inr stat ↦ elim (Bool-cases (text_eq path (codes "/metrics/json"))) [
            | inl t ↦
                let (body, _, e) =
                  >>=-eq-ok (print.snapshot_json (snapshot metrics)) _
                    (rw (handle_healthcheck, live, unready, metric, stat, t) at h) in
                let status = status-ok e in
                never true r (λ k. ground (arith, status, k))
                  (λ _. served (codes "/metrics/json") (same _ _ t) (λ e. cc) (λ a. a.1.1.1.1.0))
            | inr json ↦
                last-branch r
                  (
                    different _ _ live,
                    (
                      different _ _ unready,
                      (different _ _ metric, (different _ _ stat, (different _ _ json, tt))),
                    ),
                  )
                  (λ f.
                    status-ok (rw (handle_healthcheck, live, unready, metric, stat, json, f) at h))
                  (λ t.
                    status-ok (rw (handle_healthcheck, live, unready, metric, stat, json, t) at h))
          ]
        ]
      ]
    ]
  ]

-- An answer has the status 503 exactly when the service is not ready and a GET asks for `/ready`, or
-- for the configured path where that is none of the fixed ones.
pub handle_healthcheck-unready :
    (print : Printer) (path healthcheck_path : Text) (metrics : Metrics) (ready : Bool)
    (method : Method) {r : Response}
    → handle_healthcheck print method path healthcheck_path metrics ready ≡ ok r
    → (r.status ≡ 503) ↔ ((is_get method ≡ true) × (ready ≡ false) × Reports path healthcheck_path)
unfolding handle_healthcheck Unready
handle_healthcheck-unready print path healthcheck_path metrics ready Method.get {r} h =
    get-branch print path healthcheck_path metrics ready r h
handle_healthcheck-unready print path healthcheck_path metrics ready Method.post {r} h =
    let status = status-ok h in
    never print path healthcheck_path metrics ready false r (λ k. ground (arith, status, k))
      (λ e. cc)
handle_healthcheck-unready print path healthcheck_path metrics ready (Method.other name) {r} h =
    let status = status-ok h in
    never print path healthcheck_path metrics ready false r (λ k. ground (arith, status, k))
      (λ e. cc)
