-- ===== src/Doh3.antt =====
-- src/readers/doh3.rs: the checks on a DoH3 request up to its rewrite, its body, and the status that
-- an error is answered with. The printed forms of a method and a URI are third-party: parameters.
pub mod Refusal
pub mod Body
pub mod Handling
pub mod Ledger
pub mod Failure
pub mod Short
mod Tests
mod RunTests
use dns_ingress.Prelude.{
  ℕ, ◌+◌, Bool, true, false, ◌&&◌, ◌||◌, ltb, Option, none, some, List, [], ◌∷◌, ◌++◌, length,
  if◌then◌else◌, Result, ok, err, ◌>>=◌, ok_or, map_err,
}
use dns_ingress.Prelude.Text.{Text, codes, text_eq, to_ascii_lowercase, contains}
use dns_ingress.Error.{
  DnsProxyError, SniRewriteError, no_matching_base_domain, sni_rewrite, timeout, overloaded,
  upstream, protocol, invalid_input, to_string,
}
use dns_ingress.Hostname.{normalize_hostname}
use dns_ingress.Rewriter.{RewriteResult, rewrite}
use dns_ingress.Message.{
  Method, get, post, other, Poll, frame, trailers, failed, late, validate_dns_message,
  validate_doh_get_query, is_dns_message_content_type, max_dns_message_size,
}
use dns_ingress.Forward.{header_text}
use dns_ingress.Doh.{Request, Context, host_of}

abbrev pub require : Bool → DnsProxyError → Result DnsProxyError (Unit {0})
require test e = if test then ok tt else err e

abbrev pub wrong_path : Text → DnsProxyError
wrong_path request_path = invalid_input (codes "DoH3 request path must be " ++ request_path)

abbrev pub no_host : Text → Text → DnsProxyError
no_host method uri =
    invalid_input
      (codes "Missing or invalid Host header in " ++ (method ++ (codes " request to " ++ uri)))

abbrev pub wrong_method : DnsProxyError
wrong_method = invalid_input (codes "DoH3 only supports GET and POST")

abbrev pub wrong_type : DnsProxyError
wrong_type = invalid_input (codes "DoH3 POST Content-Type must be application/dns-message")

abbrev pub invalid {ℓ} : {A : Type ℓ} → Result Text A → Result DnsProxyError A
invalid m = map_err invalid_input m

module _ {Client : Type 0} (c : Context Client) where
  unfoldable pub check_method : Method → Request → Result DnsProxyError (Unit {0})
  check_method (other name) req = err wrong_method
  check_method get req = invalid (validate_doh_get_query c.decode req.uri (codes "DoH3"))
  check_method post req =
      require
        (is_dns_message_content_type
          (header_text c.hyper.to_str (codes "content-type") req.headers))
        wrong_type

  -- The checks in their order, with the printed method and URI of the request.
  pub admit : Text → Text → Request → Result DnsProxyError RewriteResult
  admit method uri req = do
    _ ← require (text_eq req.uri.path c.request_path) (wrong_path c.request_path)
    authority ← ok_or (host_of c.hyper.to_str req.headers req.uri) (no_host method uri)
    host ←
        ok_or (normalize_hostname c.parse_host authority)
          (invalid_input (codes "Invalid DoH3 Host header"))
    _ ←
        require (text_eq host (to_ascii_lowercase c.tls_sni))
          (invalid_input (codes "DoH3 Host does not match TLS SNI"))
    _ ← check_method req.method req
    ok_or (rewrite c.rewriter host) (sni_rewrite (no_matching_base_domain host))

-- The loop that reads a POST body, when no shutdown comes: a poll yields a chunk, an error, or
-- nothing in time. Trailers are not a poll of this loop.
pub read_chunks : List Poll → List ℕ → Result DnsProxyError (List ℕ)
read_chunks [] collected = ok collected
read_chunks (late ∷ body) collected = err (timeout (codes "DoH3 request body"))
read_chunks (failed reason ∷ body) collected =
    err (protocol (codes "Failed to read DoH3 request body: " ++ reason))
read_chunks (trailers ∷ body) collected = read_chunks body collected
read_chunks (frame bytes ∷ body) collected =
    let rest = read_chunks body (collected ++ bytes) in
    if ltb max_dns_message_size (length collected + length bytes)
    then err (invalid_input (codes "DoH3 POST body exceeds the DNS message limit"))
    else rest

pub post_body : List Poll → Result DnsProxyError (List ℕ)
post_body polls = do
  body ← read_chunks polls []
  _ ← invalid (validate_dns_message body (codes "DoH3 POST body"))
  ok body

-- `send_error_response`: the status by the printed message, then by the kind of the error.
unfoldable pub status_by_kind : DnsProxyError → ℕ
status_by_kind (timeout peer) = 504
status_by_kind (overloaded peer kind) = 503
status_by_kind (upstream e) = 502
status_by_kind _ = 400

unfoldable pub status_of : DnsProxyError → ℕ
unfolding status_by_kind
status_of e =
    let message = to_string e in
    if contains message (codes "request path")
    then 404
    else if contains message (codes "only supports GET and POST")
    then 405
    else if contains message (codes "Content-Type")
    then 415
    else if contains message (codes "exceeds") || contains message (codes "65535 bytes")
    then 413
    else status_by_kind e
