-- ===== src/Forward.antt =====
-- src/upstream/http.rs: one request sent to the upstream over HTTPS, and what its answer must be.
-- hyper's client and its parsers are an interface record. Log lines are left out.
pub mod Authority
pub mod Answer
mod Tests
use dns_ingress.Prelude.{
  ℕ, Bool, true, false, not, ◌&&◌, ◌||◌, leb, Option, none, some, List, [], ◌∷◌, ◌++◌, length,
  if◌then◌else◌, Result, ok, err, ◌>>=◌, map_err,
}
use dns_ingress.Prelude.Text.{Text, codes, text_eq}
use dns_ingress.Prelude.Assoc.{lookup, insert, text_key}
use dns_ingress.Message.{
  Method, Poll, BodyCollectionError, collect_body_with_progress, is_dns_message_content_type,
  validate_dns_message,
}
use dns_ingress.Pool.{Attempt, ConnectionPool, get_client}

abbrev pub HeaderMap : Type 0
HeaderMap = List (Text × Text)

pub record UpstreamRequest : Type 0 where
  pub method : Method
  pub uri : Text
  pub headers : HeaderMap
  pub body : List ℕ

-- A response whose body is still to be polled, and one whose body is there.
pub record Incoming : Type 0 where
  pub status : ℕ
  pub headers : HeaderMap
  pub body : List Poll

pub record Response : Type 0 where
  pub status : ℕ
  pub headers : HeaderMap
  pub body : List ℕ

-- The outcome of `client.request` under its timeout.
pub data Exchange : Type 0 where
  answered : Incoming → Exchange
  refused : Text → Exchange
  late : Exchange

-- What the code asks of hyper: the parsers of a URI and of a header value, the text of a value,
-- and the exchange of one client.
pub record Hyper (Client : Type 0) : Type 0 where
  pub parse_uri : Text → Result Text Text
  pub parse_value : Text → Result Text Text
  pub to_str : Text → Option Text
  pub request : Client → UpstreamRequest → Exchange

-- An `anyhow` error, with the one type that is downcast to.
pub data ForwardError : Type 0 where
  collection : BodyCollectionError → ForwardError
  message : Text → ForwardError

-- `status.is_success()`
abbrev pub is_success : ℕ → Bool
is_success status = leb 200 status && leb status 299

abbrev pub is_allowed : Text → Bool
is_allowed key = text_eq key (codes "accept") || text_eq key (codes "content-type")

-- The loop over the client's headers.
unfoldable pub allowed_headers : HeaderMap → HeaderMap → HeaderMap
allowed_headers [] sent = sent
allowed_headers ((key, value) ∷ more) sent =
    allowed_headers more (if is_allowed key then insert key value sent else sent)

-- `headers.get(name).and_then(|value| value.to_str().ok())`
abbrev pub header_text : (Text → Option Text) → Text → HeaderMap → Option Text
header_text to_str name headers = elim (lookup name headers) [
  | none ↦ none
  | some value ↦ to_str value
]

module _ {Client : Type 0} (h : Hyper Client) where
  unfoldable pub upstream_request :
      Text → Text → Method → HeaderMap → List ℕ → Result ForwardError UpstreamRequest
  upstream_request upstream_uri target method headers body = do
    uri ←
        map_err (λ e. message (codes "Failed to build HTTP request: " ++ e))
          (h.parse_uri upstream_uri)
    host ←
        map_err (λ e. message (codes "Invalid target hostname: " ++ target)) (h.parse_value target)
    ok (record {
      method = method;
      uri = uri;
      headers = insert (codes "host") host (allowed_headers headers []);
      body = body;
    })

  -- The checks on a successful answer.
  unfoldable pub check_answer : Text → Incoming → List ℕ → Result ForwardError (Unit {0})
  check_answer upstream_uri resp body =
      let malformed =
        message (codes "HTTP upstream response for " ++ (upstream_uri ++ codes " is malformed")) in
      let not_dns = message (
        codes "HTTP upstream response for "
        ++ (upstream_uri ++ codes " is successful but not application/dns-message")) in
      if not (is_success resp.status)
      then ok tt
      else if not
          (is_dns_message_content_type (header_text h.to_str (codes "content-type") resp.headers))
      then err not_dns
      else map_err (λ e. malformed) (validate_dns_message body (codes "HTTP upstream DNS response"))

  abbrev synthetic : ℕ → Text → Result ForwardError (Response × ℕ)
  synthetic status text = ok (record { status = status; headers = []; body = text }, length text)

  unfoldable pub answer : Text → Text → Exchange → Result ForwardError (Response × ℕ)
  answer upstream_uri timeout (refused e) = synthetic 502 (codes "Upstream error: " ++ e)
  answer upstream_uri timeout late = synthetic 504 (codes "Upstream timeout after " ++ timeout)
  answer upstream_uri timeout (answered resp) = do
    body ←
        map_err collection (
          collect_body_with_progress resp.body
            (codes "Upstream response body for " ++ upstream_uri))
    _ ← check_answer upstream_uri resp body
    ok (record { status = resp.status; headers = resp.headers; body = body }, length body)

  -- `attempt` is the call to the pool, `timeout` the printed duration.
  unfoldable pub forward_http_request :
      Attempt Client
      → ConnectionPool Client
      → Text
      → Text
      → Method
      → HeaderMap
      → List ℕ
      → Text
      → Result ForwardError (Response × ℕ) × ConnectionPool Client
  forward_http_request attempt pool upstream_uri target method headers body timeout =
      let (client, pool') = get_client attempt pool target in
      (
        upstream_request upstream_uri target method headers body >>= λ request.
            answer upstream_uri timeout (h.request client request),
        pool',
      )
