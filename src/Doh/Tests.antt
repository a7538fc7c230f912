-- ===== src/Doh/Tests.antt =====
-- Runs of the handler, and examples of the theorems on it.
use dns_ingress.Prelude.{ℕ, ◌≡◌, ◌↔◌, refl, true, some, none, List, [], ◌∷◌, ok}
use dns_ingress.Prelude.Text.{
  Text, codes, text_eq, split, push_head, to_lower, trim_end_matches, starts_with, strip_suffix,
  ends_with,
}
use dns_ingress.Prelude.Assoc.{lookup, insert}
use dns_ingress.Hostname.{normalize_hostname, canonical_host}
use dns_ingress.Rewriter.{RewriteResult, rewrite, extract_prefix, prefix_under}
use dns_ingress.Metrics.{successful}
use dns_ingress.Metrics.Tally.{tally}
use dns_ingress.Message.{
  post, frame, is_dns_message_content_type, trim_end, validate_dns_message, collect_frames,
  collect_body_with_progress,
}
use dns_ingress.Pool.{alone, new, get_client, make_room, or_insert, stored}
use dns_ingress.Forward.{
  Hyper, answered, is_success, allowed_headers, upstream_request, check_answer, answer,
  forward_http_request,
}
use dns_ingress.Forward.Answer.{IsDnsResponse}
use dns_ingress.Doh.{
  Request, Context, host_of, check_method, admit, read_body, post_body, body_error, conclude,
  handle_http_request_inner, handle_http_request, respond,
}
use dns_ingress.Doh.Admission.{IsAdmitted, admit_iff}
use dns_ingress.Doh.Accounting.{IsBalanced, IsServed, adds_of, outcome_of, handle-IsBalanced}
use dns_ingress.Doh.Status.{handle-success}

abbrev dns_message : Text
dns_message = 0 ∷ 0 ∷ 1 ∷ 0 ∷ 0 ∷ 1 ∷ 0 ∷ 0 ∷ 0 ∷ 0 ∷ 0 ∷ 0 ∷ []

abbrev dns_headers : List (Text × Text)
dns_headers =
    (codes "content-type", codes "application/dns-message")
    ∷ (codes "host", codes "a.example.com")
    ∷ []

-- An upstream that answers every request with the message of its body.
abbrev echo : Hyper ℕ
echo = record {
  parse_uri = λ uri. ok uri;
  parse_value = λ value. ok value;
  to_str = λ value. some value;
  request = λ client q.
      answered (record { status = 200; headers = dns_headers; body = frame q.body ∷ [] });
}

abbrev sample : Context ℕ
sample = record {
  hyper = echo;
  decode = λ value. none;
  parse_host = λ authority. some authority;
  rewriter = record {
    config = record { base_domains = codes "example.com" ∷ []; target_suffix = codes ".test" };
  };
  endpoint = record { port = 443; path = codes "/dns-query" };
  request_path = codes "/dns-query";
  tls_sni = codes "a.example.com";
  timeout = codes "30s";
}

abbrev sample_request : Request
sample_request = record {
  method = post;
  uri = record { path = codes "/dns-query"; query = none; authority = none };
  headers = dns_headers;
  body = frame dns_message ∷ [];
}

abbrev expected : RewriteResult
expected = record {
  original = codes "a.example.com";
  prefix = codes "a";
  target_hostname = codes "a.test";
}

admit_run : admit sample sample_request ≡ ok expected
unfolding admit host_of check_method normalize_hostname canonical_host lookup text_eq rewrite
    extract_prefix prefix_under starts_with strip_suffix ends_with to_lower trim_end_matches
    is_dns_message_content_type trim_end split push_head
admit_run = refl

admit_iff_example : IsAdmitted sample sample_request expected
admit_iff_example = (admit_iff sample sample_request expected).0 admit_run

handle-IsBalanced_example :
    IsBalanced (adds_of sample (alone 1) 5 new sample_request)
    × ((tally successful (adds_of sample (alone 1) 5 new sample_request) ≡ 1)
        ↔ IsServed (outcome_of sample (alone 1) 5 new sample_request))
handle-IsBalanced_example = handle-IsBalanced sample (alone 1) 5 new sample_request

body_run : read_body sample sample_request ≡ ok dns_message
unfolding read_body post_body body_error collect_body_with_progress collect_frames
    validate_dns_message
body_run = refl

success_run : is_success (handle_http_request sample (alone 1) 5 new sample_request).0.status ≡ true
unfolding handle_http_request respond handle_http_request_inner conclude forward_http_request
    upstream_request answer check_answer get_client make_room or_insert stored insert
    allowed_headers read_body post_body body_error collect_body_with_progress collect_frames
    validate_dns_message admit host_of check_method normalize_hostname canonical_host lookup text_eq
    rewrite extract_prefix prefix_under starts_with strip_suffix ends_with to_lower trim_end_matches
    is_dns_message_content_type trim_end split push_head
success_run = refl

handle-success_example :
    IsDnsResponse echo.to_str (handle_http_request sample (alone 1) 5 new sample_request).0
handle-success_example = handle-success sample (alone 1) 5 new sample_request success_run
