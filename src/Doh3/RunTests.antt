-- ===== src/Doh3/RunTests.antt =====
-- Runs of the DoH3 handler, and examples of the theorems on them.
use dns_ingress.Prelude.{
  ℕ, zero, suc, List, length, arith, inl, inr, ◌≡◌, ◌≢◌, ◌<◌, refl, some, none, [], ◌∷◌, ok, err,
}
use dns_ingress.Prelude.Text.{
  Text, codes, text_eq, split, push_head, to_lower, trim_end_matches, starts_with, strip_suffix,
  ends_with, decimal,
}
use dns_ingress.Prelude.Timed.{done, late}
use dns_ingress.Prelude.Assoc.{lookup, insert}
use dns_ingress.Error.{timeout}
use dns_ingress.Hostname.{normalize_hostname, canonical_host}
use dns_ingress.Rewriter.{RewriteResult, rewrite, extract_prefix, prefix_under}
use dns_ingress.Message.{post, frame, is_dns_message_content_type, trim_end, validate_dns_message}
use dns_ingress.Forward.{Exchange, Response, UpstreamRequest, allowed_headers}
use dns_ingress.QuicPool.{Lease, LeasePool, with_root_store}
use dns_ingress.QuicPool.Clients.{H3Key, h3_key}
use dns_ingress.Http3.{
  H3Client, H3Stream, Opening, got, abandoned, h3_request, forward_http3_request,
}
use dns_ingress.Http3.Oversized.{IsOversized}
use dns_ingress.Doh
use dns_ingress.Pool
use dns_ingress.Doh3.Short.{short_body-statuses}
use dns_ingress.Doh.{handle_http_request, Request, Context, host_of, upstream_uri}
use dns_ingress.Doh.Accounting.{IsBalanced}
use dns_ingress.Doh3.{admit, check_method, post_body, read_chunks}
use dns_ingress.Doh3.Handling.{Run, ran, body_of, handle_request}
use dns_ingress.Doh3.Ledger.{handle_request-IsBalanced}
use dns_ingress.Doh3.Failure.{
  SentOn, result_of, handle_request-never_timeout, handle_request-oversized,
}

abbrev dns_message : Text
dns_message = 0 ∷ 0 ∷ 1 ∷ 0 ∷ 0 ∷ 1 ∷ 0 ∷ 0 ∷ 0 ∷ 0 ∷ 0 ∷ 0 ∷ []

abbrev sample : Context ℕ
sample = record {
  hyper = record {
    parse_uri = λ uri. ok uri;
    parse_value = λ value. ok value;
    to_str = λ value. some value;
    request = λ client q. Exchange.late;
  };
  decode = λ value. none;
  parse_host = λ authority. some authority;
  rewriter = record {
    config = record { base_domains = codes "example.com" ∷ []; target_suffix = codes ".test" };
  };
  endpoint = record { port = 443; path = codes "/dns-query" };
  request_path = codes "/dns-query";
  tls_sni = codes "a.example.com";
  timeout = codes "30s";
}

abbrev query : Request
query = record {
  method = post;
  uri = record { path = codes "/dns-query"; query = none; authority = none };
  headers =
      (codes "content-type", codes "application/dns-message")
      ∷ (codes "host", codes "a.example.com")
      ∷ [];
  body = [];
}

abbrev expected : RewriteResult
expected = record {
  original = codes "a.example.com";
  prefix = codes "a";
  target_hostname = codes "a.test";
}

admit_run : admit sample (codes "POST") (codes "/dns-query") query ≡ ok expected
unfolding admit check_method host_of lookup normalize_hostname canonical_host rewrite extract_prefix
    prefix_under text_eq split push_head to_lower trim_end_matches starts_with strip_suffix
    ends_with is_dns_message_content_type trim_end
admit_run = refl

abbrev client : H3Client ℕ
client = record {
  parse_uri = λ uri. ok uri;
  parse_value = λ value. ok value;
  to_str = λ value. some value;
  send_request = λ session request. record {
    opened = late;
    sent = late;
    finished = late;
    head = late;
    chunks = [];
  };
}

abbrev no_pool : LeasePool H3Key ℕ
no_pool = with_root_store 1

abbrev run_of : Opening ℕ → Run ℕ
run_of opening = record {
  polls = some (frame dns_message ∷ []);
  forwarding = ran opening;
  duration = 5;
  sending = record { headers = done tt; body = done tt; finish = done tt };
}

body_run : body_of sample client post (some (frame dns_message ∷ [])) ≡ ok (some dns_message)
unfolding body_of post_body read_chunks validate_dns_message
body_run = refl

abbrev sent_on :
    (opening : Opening ℕ)
    → SentOn sample client (codes "POST") (codes "/dns-query") query (run_of opening) opening
sent_on opening = record {
  rewritten = expected;
  body = dns_message;
  passes = admit_run;
  read = body_run;
  uncut = refl;
}

handle_request-IsBalanced_example :
    IsBalanced
      (handle_request sample client
        (codes "POST")
        (codes "/dns-query")
        no_pool
        query
        (run_of (abandoned no_pool))).1
handle_request-IsBalanced_example =
    handle_request-IsBalanced sample client (codes "POST") (codes "/dns-query") no_pool query
      (run_of (abandoned no_pool))

timed_out :
    result_of sample client (sent_on (abandoned no_pool)) ≡ err (timeout (codes "a.test:443"))
unfolding forward_http3_request decimal
timed_out = refl

handle_request-never_timeout_example :
    (response : Response) × ((handle_request sample client
        (codes "POST")
        (codes "/dns-query")
        no_pool
        query
        (run_of (abandoned no_pool))).0
      ≡ some response)
    × (response.status ≢ 503)
    × (response.status ≢ 504)
handle_request-never_timeout_example =
    handle_request-never_timeout sample client (codes "POST") (codes "/dns-query") no_pool query
      (run_of (abandoned no_pool)) (abandoned no_pool) (sent_on (abandoned no_pool)) timed_out

-- A session whose second piece brings the answer over the limit.
zeros : ℕ → List ℕ
zeros zero = []
zeros (suc n) = 0 ∷ zeros n

abbrev two_pieces : H3Stream
two_pieces = record {
  opened = done tt;
  sent = done tt;
  finished = done tt;
  head = done (200, []);
  chunks =
      done (record { chunk = dns_message; behind = [] })
      ∷ done (record { chunk = dns_message; behind = zeros 65530 })
      ∷ [];
}

abbrev talkative : H3Client ℕ
talkative = record client { send_request = λ session request. two_pieces }

abbrev leased : Lease ℕ
leased = record { connection = 7; slot = 0 }

abbrev sent_request : UpstreamRequest
sent_request = record {
  method = post;
  uri = codes "https://a.test:443/dns-query";
  headers =
      (codes "content-type", codes "application/dns-message") ∷ (codes "host", codes "a.test") ∷ [];
  body = dns_message;
}

length-zeros : (n : ℕ) → length (zeros n) ≡ n
unfolding zeros
length-zeros zero = refl
length-zeros (suc n) = omega (arith, length-zeros n)

two_pieces-IsOversized : IsOversized two_pieces
two_pieces-IsOversized = record {
  opened = refl;
  sent = refl;
  finished = refl;
  status = 200;
  headers = [];
  head = refl;
  exceeds = inr (inl (omega (arith, length-zeros 65530)));
}

talkative_body :
    body_of sample talkative post (some (frame dns_message ∷ [])) ≡ ok (some dns_message)
unfolding body_of post_body read_chunks validate_dns_message
talkative_body = refl

abbrev talkative_sent :
    SentOn sample talkative
      (codes "POST")
      (codes "/dns-query")
      query
      (run_of (got (ok leased) no_pool))
      (got (ok leased) no_pool)
talkative_sent = record {
  rewritten = expected;
  body = dns_message;
  passes = admit_run;
  read = talkative_body;
  uncut = refl;
}

built :
    h3_request talkative
      (upstream_uri (codes "a.test") sample.endpoint none)
      (codes "a.test")
      post
      query.headers
      dns_message
    ≡ ok sent_request
unfolding h3_request allowed_headers insert lookup text_eq decimal
built = refl

handle_request-oversized_example :
    (response : Response) × ((handle_request sample talkative
        (codes "POST")
        (codes "/dns-query")
        no_pool
        query
        (run_of (got (ok leased) no_pool))).0
      ≡ some response)
    × (response.status < 500)
handle_request-oversized_example =
    handle_request-oversized sample talkative (codes "POST") (codes "/dns-query") no_pool no_pool
      query (run_of (got (ok leased) no_pool)) leased talkative_sent {request = sent_request} built
      two_pieces-IsOversized

abbrev few_bytes : Request
few_bytes = record query { body = frame (0 ∷ 0 ∷ []) ∷ [] }

abbrev few_run : Run ℕ
few_run = record (run_of (abandoned no_pool)) { polls = some few_bytes.body }

few_admitted : admit sample (codes "POST") (codes "/dns-query") few_bytes ≡ ok expected
unfolding admit check_method host_of lookup normalize_hostname canonical_host rewrite extract_prefix
    prefix_under text_eq split push_head to_lower trim_end_matches starts_with strip_suffix
    ends_with is_dns_message_content_type trim_end
few_admitted = refl

few_admitted_over_tcp : Doh.admit sample few_bytes ≡ ok expected
unfolding Doh.admit Doh.check_method host_of lookup normalize_hostname canonical_host rewrite
    extract_prefix prefix_under text_eq split push_head to_lower trim_end_matches starts_with
    strip_suffix ends_with is_dns_message_content_type trim_end
few_admitted_over_tcp = refl

short_body-statuses_example :
    ((handle_http_request sample (Pool.alone 1) 5 Pool.new few_bytes).0.status ≡ 400)
    × (response : Response) × ((handle_request sample client
          (codes "POST")
          (codes "/dns-query")
          no_pool
          few_bytes
          few_run).0
        ≡ some response)
    × (response.status ≡ 413)
short_body-statuses_example =
    short_body-statuses sample client (Pool.alone 1) 5 Pool.new (codes "POST") (codes "/dns-query")
      no_pool few_bytes few_run few_admitted_over_tcp few_admitted refl refl tt (omega arith)
