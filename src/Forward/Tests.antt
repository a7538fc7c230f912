-- ===== src/Forward/Tests.antt =====
-- A request for the upstream, and the example of the theorem on it.
use dns_ingress.Prelude.{ℕ, ◌≡◌, refl, some, [], ◌∷◌, All, ok}
use dns_ingress.Prelude.Text.{Text, codes, text_eq}
use dns_ingress.Prelude.Assoc.{lookup, insert, text_key}
use dns_ingress.Message.{get}
use dns_ingress.Forward.{
  HeaderMap, UpstreamRequest, Hyper, Exchange, allowed_headers, upstream_request,
}
use dns_ingress.Forward.Authority.{Crosses, upstream_request-Crosses}

abbrev sample_hyper : Hyper ℕ
sample_hyper = record {
  parse_uri = λ uri. ok uri;
  parse_value = λ value. ok value;
  to_str = λ value. some value;
  request = λ client q. Exchange.late;
}

abbrev given : HeaderMap
given =
    (codes "cookie", codes "secret")
    ∷ (codes "accept", codes "*/*")
    ∷ (codes "host", codes "a.test")
    ∷ []

abbrev built : UpstreamRequest
built = record {
  method = get;
  uri = codes "https://b.test/dns-query";
  headers = (codes "accept", codes "*/*") ∷ (codes "host", codes "b.test") ∷ [];
  body = [];
}

built_run :
    upstream_request sample_hyper (codes "https://b.test/dns-query") (codes "b.test") get given []
    ≡ ok built
unfolding upstream_request allowed_headers insert text_eq
built_run = refl

upstream_request-Crosses_example :
    (host : Text) × (sample_hyper.parse_value (codes "b.test") ≡ ok host)
    × (lookup (codes "host") built.headers ≡ some host)
    × All (Crosses given host) built.headers
upstream_request-Crosses_example =
    upstream_request-Crosses sample_hyper (codes "https://b.test/dns-query") (codes "b.test") get
      given [] {q = built} built_run
