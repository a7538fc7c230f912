-- ===== src/Doh.antt =====
-- src/proxy/http.rs: the handler of one DoH request. The base64 decoder, the parser of an authority
-- and hyper are parameters; the metrics that a run records are its atomic additions in order.
pub mod Admission
mod Branches
pub mod Accounting
pub mod Body
pub mod Status
pub mod Short
mod Tests
use dns_ingress.Prelude.{
  ℕ, Bool, true, false, not, ◌&&◌, ◌||◌, Option, none, some, List, [], ◌∷◌, ◌++◌, length,
  if◌then◌else◌, Result, ok, err, ◌>>=◌, ok_or, map_err,
}
use dns_ingress.Prelude.Text.{Text, codes, text_eq, decimal}
use dns_ingress.Config.{HttpUpstreamConfig}
use dns_ingress.Hostname.{normalize_hostname}
use dns_ingress.Rewriter.{BaseSniRewriter, RewriteResult, rewrite}
use dns_ingress.Metrics.{Counter, record_request, record_sni_rewrite, record_upstream_error}
use dns_ingress.Message.{
  Method, get, post, other, Uri, Poll, BodyCollectionError, stalled, too_large, read,
  validate_dns_message, is_dns_message_content_type, validate_doh_get_query,
  collect_body_with_progress,
}
use dns_ingress.Pool.{Attempt, ConnectionPool}
use dns_ingress.Forward.{
  HeaderMap, Response, Hyper, ForwardError, collection, message, is_success, header_text,
  forward_http_request,
}

pub record Request : Type 0 where
  pub method : Method
  pub uri : Uri
  pub headers : HeaderMap
  pub body : List Poll

pub data DohHttpError : Type 0 where
  bad_request not_found method_not_allowed unsupported_media_type payload_too_large : DohHttpError
  request_timeout gateway_timeout bad_gateway : DohHttpError

-- What a listener gives to each of its requests: the libraries, the rewriter and its settings, with
-- the printed form of its timeout.
pub record Context (Client : Type 0) : Type 0 where
  pub hyper : Hyper Client
  pub decode : Text → Option (List ℕ)
  pub parse_host : Text → Option Text
  pub rewriter : BaseSniRewriter
  pub endpoint : HttpUpstreamConfig
  pub request_path : Text
  pub tls_sni : Text
  pub timeout : Text

-- The `Host` header if it is text, else the authority of the URI.
unfoldable pub host_of : (Text → Option Text) → HeaderMap → Uri → Option Text
host_of to_str headers uri = elim (header_text to_str (codes "host") headers) [
  | some host ↦ some host
  | none ↦ uri.authority
]

abbrev pub guard : Bool → DohHttpError → Result DohHttpError (Unit {0})
guard test e = if test then ok tt else err e

-- `impl From<anyhow::Error> for DohHttpError`
abbrev pub from_anyhow {ℓ κ} : {E : Type κ} {A : Type ℓ} → Result E A → Result DohHttpError A
from_anyhow m = map_err (λ e. bad_request) m

abbrev pub query_suffix : Option Text → Text
query_suffix none = []
query_suffix (some query) = b'?' ∷ query

abbrev pub upstream_uri : Text → HttpUpstreamConfig → Option Text → Text
upstream_uri target endpoint query =
    codes "https://"
    ++ (target ++ (b':' ∷ (decimal endpoint.port ++ (endpoint.path ++ query_suffix query))))

module _ {Client : Type 0} (c : Context Client) where
  -- The method and what must come with it.
  unfoldable pub check_method : Method → Request → Result DohHttpError (Unit {0})
  check_method (other name) req = err method_not_allowed
  check_method get req = from_anyhow (validate_doh_get_query c.decode req.uri (codes "DoH"))
  check_method post req =
      guard
        (is_dns_message_content_type
          (header_text c.hyper.to_str (codes "content-type") req.headers))
        unsupported_media_type

  -- The checks that come before any metric, up to the rewrite.
  unfoldable pub admit : Request → Result DohHttpError RewriteResult
  admit req = do
    _ ← guard (text_eq req.uri.path c.request_path) not_found
    authority ← ok_or (host_of c.hyper.to_str req.headers req.uri) bad_request
    host ← ok_or (normalize_hostname c.parse_host authority) bad_request
    _ ← guard (text_eq host c.tls_sni) bad_request
    _ ← check_method req.method req
    ok_or (rewrite c.rewriter host) bad_request

  body_error : BodyCollectionError → DohHttpError
  body_error (stalled operation) = request_timeout
  body_error (too_large operation) = payload_too_large
  body_error (read operation reason) = bad_request

  post_body : List Poll → Result DohHttpError (List ℕ)
  post_body polls = do
    body ← map_err body_error (collect_body_with_progress polls (codes "DoH request body"))
    _ ← from_anyhow (validate_dns_message body (codes "DoH POST body"))
    ok body

  pub read_body : Request → Result DohHttpError (List ℕ)
  read_body req = elim req.method [ post ↦ post_body req.body | get ↦ ok [] | other name ↦ ok [] ]

  forward_error : ForwardError → DohHttpError
  forward_error (message text) = bad_gateway
  forward_error (collection (stalled operation)) = gateway_timeout
  forward_error (collection (too_large operation)) = bad_gateway
  forward_error (collection (read operation reason)) = bad_gateway

  -- The match on the forwarding's result, with the size of the request and the elapsed time.
  pub conclude :
      ℕ → ℕ → Result ForwardError (Response × ℕ) → Result DohHttpError Response × List (Counter × ℕ)
  conclude received duration (ok (response, sent)) =
      let success = is_success response.status in
      (
        ok response,
        record_request success received sent duration
            ++ (if success then [] else record_upstream_error),
      )
  conclude received duration (err e) =
      (err (forward_error e), record_request false received 0 duration ++ record_upstream_error)

  -- The outcome, the metrics of the run, and the pool after it. `attempt` is what the
  -- run finds at the pool, and `duration` what its timer yields.
  pub handle_http_request_inner :
      Attempt Client
      → ℕ
      → ConnectionPool Client
      → Request
      → Result DohHttpError Response × List (Counter × ℕ) × ConnectionPool Client
  handle_http_request_inner attempt duration pool req = elim (admit req) [
    | err e ↦ (err e, [], pool)
    | ok rewritten ↦ elim (read_body req) [
      | err e ↦ (err e, record_sni_rewrite, pool)
      | ok body ↦
          let target = rewritten.target_hostname in
          let (result, pool') =
            forward_http_request c.hyper attempt pool (upstream_uri target c.endpoint req.uri.query)
              target req.method req.headers body c.timeout in
          let (outcome, adds) = conclude (length body) duration result in
          (outcome, record_sni_rewrite ++ adds, pool')
    ]
  ]

  text_response : ℕ → Text → HeaderMap → Response
  text_response status text allow = record {
    status = status;
    headers = (codes "content-type", codes "text/plain; charset=utf-8") ∷ allow;
    body = text;
  }

  pub doh_error_response : DohHttpError → Response
  doh_error_response bad_request = text_response 400 (codes "invalid DoH request") []
  doh_error_response not_found = text_response 404 (codes "DoH endpoint not found") []
  doh_error_response method_not_allowed =
      text_response 405 (codes "method not allowed") ((codes "allow", codes "GET, POST") ∷ [])
  doh_error_response unsupported_media_type =
      text_response 415 (codes "Content-Type must be application/dns-message") []
  doh_error_response payload_too_large =
      text_response 413 (codes "DNS message exceeds 65535 bytes") []
  doh_error_response request_timeout = text_response 408 (codes "request body timed out") []
  doh_error_response gateway_timeout = text_response 504 (codes "upstream timed out") []
  doh_error_response bad_gateway = text_response 502 (codes "upstream request failed") []

  respond : Result DohHttpError Response → Response
  respond (ok response) = response
  respond (err e) = doh_error_response e

  pub handle_http_request :
      Attempt Client
      → ℕ
      → ConnectionPool Client
      → Request
      → Response × List (Counter × ℕ) × ConnectionPool Client
  handle_http_request attempt duration pool req =
      let (outcome, adds, pool') = handle_http_request_inner attempt duration pool req in
      (respond outcome, adds, pool')
