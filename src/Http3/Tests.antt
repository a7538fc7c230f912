-- ===== src/Http3/Tests.antt =====
-- A session that answers a DNS message in two chunks, as an example.
use dns_ingress.Prelude.{ℕ, ◌+◌, ◌≡◌, refl, arith, Bool, true, some, List, [], ◌∷◌, ◌++◌, ok}
use dns_ingress.Prelude.Text.{Text, codes, text_eq, split, to_lower}
use dns_ingress.Prelude.Timed.{done}
use dns_ingress.Prelude.Assoc.{lookup, insert}
use dns_ingress.Message.{post, validate_dns_message, is_dns_message_content_type, trim_end}
use dns_ingress.Forward.{Response, UpstreamRequest, allowed_headers}
use dns_ingress.QuicPool.{Lease, LeasePool, count, slots_of, hit, look, looked, get}
use dns_ingress.QuicPool.Slots.{distinct}
use dns_ingress.QuicPool.Valid.{Valid}
use dns_ingress.QuicPool.Clients.{H3Key, h3_key, h3_get}
use dns_ingress.Http3.{
  H3Client, H3Stream, got, on_session, h3_request, exchange, read_data, check_response,
  forward_http3_request,
}
use dns_ingress.Http3.Exchange.{IsAnswer, on_session-ok}
use dns_ingress.Http3.Session.{Kept, forward_http3_request-Kept}

abbrev dns_type : List (Text × Text)
dns_type = (codes "content-type", codes "application/dns-message") ∷ []

abbrev half : List ℕ
half = 0 ∷ 0 ∷ 0 ∷ 0 ∷ 0 ∷ 0 ∷ []

abbrev two_chunks : H3Stream
two_chunks = record {
  opened = done tt;
  sent = done tt;
  finished = done tt;
  head = done (200, dns_type);
  chunks =
      done (record { chunk = half; behind = [] })
      ∷ done (record { chunk = half; behind = [] })
      ∷ [];
}

abbrev answering : H3Client ℕ
answering = record {
  parse_uri = λ uri. ok uri;
  parse_value = λ value. ok value;
  to_str = λ value. some value;
  send_request = λ session request. two_chunks;
}

abbrev whole : Response × ℕ
whole = (record { status = 200; headers = dns_type; body = half ++ half }, 12)

abbrev sent_request : UpstreamRequest
sent_request = record {
  method = post;
  uri = codes "u";
  headers = (codes "host", codes "a") ∷ [];
  body = half ++ half;
}

answered : on_session answering 7 (codes "u") (codes "a") post [] (half ++ half) ≡ ok whole
unfolding on_session h3_request exchange read_data check_response allowed_headers insert lookup
    text_eq validate_dns_message is_dns_message_content_type split trim_end to_lower
answered = refl

on_session-ok_example :
    (request : UpstreamRequest) × (h3_request answering
        (codes "u")
        (codes "a")
        post
        []
        (half ++ half)
      ≡ ok request)
    × IsAnswer answering.to_str two_chunks whole
on_session-ok_example =
    on_session-ok answering 7 (codes "u") (codes "a") post [] (half ++ half) {a = whole}
      (λ request. (refl, (refl, tt))) answered

-- The one session, with and without a lease in use.
abbrev cached : ℕ → List ℕ → LeasePool H3Key ℕ
cached used borrowed = record {
  entries =
      ((codes "a", 443), record { lease = record { connection = 7; slot = 0 }; last_used = used })
      ∷ [];
  available = 0;
  reserved = [];
  borrowed = borrowed;
  next_slot = 1;
}

cached-Valid : Valid 1 (cached 3 [])
unfolding count slots_of distinct
cached-Valid = record {
  mapped = (tt, tt);
  apart = refl;
  fresh = λ x l. ground arith;
  permits = refl;
}

abbrev session : Lease ℕ
session = record { connection = 7; slot = 0 }

abbrev live : ℕ → ℕ → Bool
live moment connection = true

abbrev clock : ℕ → ℕ
clock moment = 10 + moment

found :
    h3_get {Address = ℕ} {Connection = ℕ} live clock
      (ok [])
      (λ a. ok a)
      (λ c. ok c)
      (codes "a")
      443
      (cached 3 [])
    ≡ (ok session, cached 10 (0 ∷ []))
unfolding h3_get get looked look hit lookup insert text_eq
found = refl

forward_http3_request-Kept_example :
    Valid 1
      (forward_http3_request answering
        (got (ok session) (cached 10 (0 ∷ [])))
        (codes "u")
        (codes "a")
        443
        post
        []
        (half ++ half)).1
    × ((forward_http3_request answering
          (got (ok session) (cached 10 (0 ∷ [])))
          (codes "u")
          (codes "a")
          443
          post
          []
          (half ++ half)).1.borrowed
        ≡ [])
    × ((forward_http3_request answering
          (got (ok session) (cached 10 (0 ∷ [])))
          (codes "u")
          (codes "a")
          443
          post
          []
          (half ++ half)).1.reserved
        ≡ [])
    × Kept
        (codes "a")
        443
        session
        (forward_http3_request answering
          (got (ok session) (cached 10 (0 ∷ [])))
          (codes "u")
          (codes "a")
          443
          post
          []
          (half ++ half)).0
        (forward_http3_request answering
          (got (ok session) (cached 10 (0 ∷ [])))
          (codes "u")
          (codes "a")
          443
          post
          []
          (half ++ half)).1
forward_http3_request-Kept_example =
    forward_http3_request-Kept {Address = ℕ} {Connection = ℕ} answering live clock (ok [])
      (λ a. ok a) (λ c. ok c) (cached 3 []) (cached 10 (0 ∷ [])) (codes "u") (codes "a") 443 post []
      (half ++ half) session cached-Valid found
