-- ===== src/Doh3/Tests.antt =====
-- Refused requests, and examples of the theorems on their statuses.
use dns_ingress.Prelude.{ℕ, ◌≢◌, some, none, [], ◌∷◌, ok}
use dns_ingress.Prelude.Text.{codes}
use dns_ingress.Message.{post, frame}
use dns_ingress.Forward.{Hyper, Exchange}
use dns_ingress.Doh.{Request, Context}
use dns_ingress.Doh3.{admit}
use dns_ingress.Doh3.Refusal.{Answered, Refused, admit-Answered}

abbrev silent : Hyper ℕ
silent = record {
  parse_uri = λ uri. ok uri;
  parse_value = λ value. ok value;
  to_str = λ value. some value;
  request = λ client q. Exchange.late;
}

abbrev sample : Context ℕ
sample = record {
  hyper = silent;
  decode = λ value. none;
  parse_host = λ authority. some authority;
  rewriter = record {
    config = record { base_domains = codes "example.com" ∷ []; target_suffix = codes ".test" };
  };
  endpoint = record { port = 443; path = codes "/dns-query" };
  request_path = codes "/dns-query";
  tls_sni = codes "a.example.com";
  timeout = codes "30s";
}

abbrev short_post : Request
short_post = record {
  method = post;
  uri = record { path = codes "/"; query = none; authority = none };
  headers = [];
  body = frame (0 ∷ 0 ∷ []) ∷ [];
}

other_path : short_post.uri.path ≢ sample.request_path
other_path h = cc

admit-Answered_example : Answered (admit sample (codes "POST") (codes "/") short_post) 404
admit-Answered_example =
    admit-Answered sample (codes "POST") (codes "/") short_post (Refused.by_path other_path)
