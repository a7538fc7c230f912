-- ===== src/Metrics.antt =====
-- src/metrics.rs: the counters and their recording methods. An `Arc<AtomicU64>` is its value, and a
-- method is the sequence of its atomic additions, each of which wraps at 2 ^ 64. Durations are in
-- microseconds. Debug lines are left out.
pub mod Tally
pub mod Inflight
mod Tests
use dns_ingress.Prelude.{
  ℕ, ◌+◌, ◌-◌, ◌%◌, ◌^◌, min, Bool, true, false, List, [], ◌∷◌, ◌++◌, if◌then◌else◌,
}
use dns_ingress.Prelude.Text.{Text, codes, decimal}

abbrev pub u64_mod : ℕ
u64_mod = 2 ^ 64

abbrev pub u64_max : ℕ
u64_max = 2 ^ 64 - 1

pub record Metrics : Type 0 where
  pub total_requests : ℕ
  pub successful_requests : ℕ
  pub failed_requests : ℕ
  pub bytes_received : ℕ
  pub bytes_sent : ℕ
  pub sni_rewrites : ℕ
  pub upstream_errors : ℕ
  pub processing_duration_micros : ℕ

pub record MetricsSnapshot : Type 0 where
  pub total_requests : ℕ
  pub successful_requests : ℕ
  pub failed_requests : ℕ
  pub bytes_received : ℕ
  pub bytes_sent : ℕ
  pub sni_rewrites : ℕ
  pub upstream_errors : ℕ
  pub processing_duration_micros : ℕ

-- The name of a counter, for one atomic addition.
pub data Counter : Type 0 where
  total successful failed received sent rewrites errors micros : Counter

pub new : Metrics
new = record {
  total_requests = 0;
  successful_requests = 0;
  failed_requests = 0;
  bytes_received = 0;
  bytes_sent = 0;
  sni_rewrites = 0;
  upstream_errors = 0;
  processing_duration_micros = 0;
}

abbrev wrapping_add : ℕ → ℕ → ℕ
wrapping_add a b = (a + b) % u64_mod

pub fetch_add : Counter → ℕ → Metrics → Metrics
fetch_add total n m = record m { total_requests = wrapping_add m.total_requests n }
fetch_add successful n m = record m { successful_requests = wrapping_add m.successful_requests n }
fetch_add failed n m = record m { failed_requests = wrapping_add m.failed_requests n }
fetch_add received n m = record m { bytes_received = wrapping_add m.bytes_received n }
fetch_add sent n m = record m { bytes_sent = wrapping_add m.bytes_sent n }
fetch_add rewrites n m = record m { sni_rewrites = wrapping_add m.sni_rewrites n }
fetch_add errors n m = record m { upstream_errors = wrapping_add m.upstream_errors n }
fetch_add micros n m = record m {
  processing_duration_micros = wrapping_add m.processing_duration_micros n;
}

pub fetch_adds : List (Counter × ℕ) → Metrics → Metrics
fetch_adds [] m = m
fetch_adds ((c, n) ∷ more) m = fetch_adds more (fetch_add c n m)

-- `duration.as_micros()` is a u128, cut at the largest u64.
unfoldable pub record_request : Bool → ℕ → ℕ → ℕ → List (Counter × ℕ)
record_request success bytes_received_val bytes_sent_val duration_micros =
    (total, 1)
    ∷ (if success then successful else failed, 1)
    ∷ (received, bytes_received_val)
    ∷ (sent, bytes_sent_val)
    ∷ (micros, min duration_micros u64_max)
    ∷ []

unfoldable pub record_sni_rewrite : List (Counter × ℕ)
record_sni_rewrite = (rewrites, 1) ∷ []

unfoldable pub record_upstream_error : List (Counter × ℕ)
record_upstream_error = (errors, 1) ∷ []

-- The loads of `snapshot`, with no other thread between them.
pub snapshot : Metrics → MetricsSnapshot
snapshot m = record {
  total_requests = m.total_requests;
  successful_requests = m.successful_requests;
  failed_requests = m.failed_requests;
  bytes_received = m.bytes_received;
  bytes_sent = m.bytes_sent;
  sni_rewrites = m.sni_rewrites;
  upstream_errors = m.upstream_errors;
  processing_duration_micros = m.processing_duration_micros;
}

-- `format!`: the pieces one after another.
abbrev joined : List Text → Text
joined [] = []
joined (piece ∷ more) = piece ++ joined more

abbrev newline : Text
newline = 10 ∷ []

-- A metric of the exposition: its type line and its value line.
abbrev exposed : Text → ℕ → Text
exposed name value = joined (
    codes "# TYPE "
    ∷ name
    ∷ codes " counter"
    ∷ newline
    ∷ name
    ∷ codes " "
    ∷ decimal value
    ∷ newline
    ∷ [])

-- The text that is scraped. The printed form of microseconds as seconds with six decimals is a
-- parameter.
pub prometheus : (ℕ → Text) → Metrics → Text
prometheus seconds m =
    let s = snapshot m in
    let duration = codes "dns_ingress_request_duration_seconds" in
    joined (
      exposed (codes "dns_ingress_requests_total") s.total_requests
      ∷ exposed (codes "dns_ingress_requests_success_total") s.successful_requests
      ∷ exposed (codes "dns_ingress_requests_failed_total") s.failed_requests
      ∷ exposed (codes "dns_ingress_bytes_received_total") s.bytes_received
      ∷ exposed (codes "dns_ingress_bytes_sent_total") s.bytes_sent
      ∷ exposed (codes "dns_ingress_sni_rewrites_total") s.sni_rewrites
      ∷ exposed (codes "dns_ingress_upstream_errors_total") s.upstream_errors
      ∷ codes "# TYPE "
      ∷ duration
      ∷ codes " summary"
      ∷ newline
      ∷ duration
      ∷ codes "_sum "
      ∷ seconds s.processing_duration_micros
      ∷ newline
      ∷ duration
      ∷ codes "_count "
      ∷ decimal s.total_requests
      ∷ newline
      ∷ [])
