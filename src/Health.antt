-- ===== src/Health.antt =====
-- src/readers/healthcheck.rs: the handler of a request for the service's health. The JSON printer is
-- a parameter: of a snapshot, which may fail, and of the two fields of the status object.
pub mod Readiness
mod Tests
use dns_ingress.Prelude.{
  ℕ, Bool, true, false, not, ◌||◌, Option, none, some, List, [], ◌∷◌, if◌then◌else◌, Result, ok,
  err, ◌>>=◌,
}
use dns_ingress.Prelude.Text.{Text, codes, text_eq}
use dns_ingress.Metrics.{Metrics, MetricsSnapshot, snapshot, prometheus}
use dns_ingress.Message.{Method, get, post, other}
use dns_ingress.Forward.{Response}

-- What the handler asks of the JSON printer and of the printer of numbers.
pub record Printer : Type 0 where
  pub snapshot_json : MetricsSnapshot → Result Text Text
  pub status_json : Text → Text → Text
  pub seconds : ℕ → Text

abbrev pub is_get : Method → Bool
is_get get = true
is_get post = false
is_get (other name) = false

-- `Response::builder()` with a status, perhaps a content type, and a body.
abbrev plain : ℕ → Text → Result Text Response
plain status body = ok (record { status = status; headers = []; body = body })

abbrev typed : ℕ → Text → Text → Result Text Response
typed status kind body =
    ok (record { status = status; headers = (codes "content-type", kind) ∷ []; body = body })

abbrev json_type : Text
json_type = codes "application/json"

-- The status of a readiness answer.
abbrev pub ready_status : Bool → ℕ
ready_status ready = if ready then 200 else 503

pub handle_healthcheck : Printer → Method → Text → Text → Metrics → Bool → Result Text Response
handle_healthcheck print method path healthcheck_path metrics ready =
    let stats = print.snapshot_json (snapshot metrics) >>= λ body. typed 200 json_type body in
    if not (is_get method)
    then plain 405 (codes "Method not allowed")
    else if text_eq path (codes "/live")
    then typed 200 json_type (codes "{\"status\":\"live\"}")
    else if text_eq path (codes "/ready")
    then typed (ready_status ready) json_type
        (if ready then codes "{\"status\":\"ready\"}" else codes "{\"status\":\"not_ready\"}")
    else if text_eq path (codes "/metrics") || text_eq path (codes "/stats")
    then typed 200 (codes "text/plain; version=0.0.4") (prometheus print.seconds metrics)
    else if text_eq path (codes "/metrics/json")
    then stats
    else if not (text_eq path healthcheck_path)
    then plain 404 (codes "Not found")
    else typed (ready_status ready) json_type
        (print.status_json (if ready then codes "ready" else codes "not_ready") (codes "dns-proxy"))
