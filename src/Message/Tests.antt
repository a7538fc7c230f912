-- ===== src/Message/Tests.antt =====
-- A query and a body, and examples of the theorems on them.
use dns_ingress.Prelude.{
  ℕ, ◌≡◌, ◌≤◌, refl, some, none, Option, List, [], ◌∷◌, length, ok, if◌then◌else◌,
}
use dns_ingress.Prelude.Text.{Text, codes, split, push_head, text_eq}
use dns_ingress.Message.{
  Uri, Poll, frame, trailers, validate_doh_get_query, validate_dns_message, find_dns, dns_value,
  split_once, non_empty, collect_body_with_progress, collect_frames, max_dns_message_size,
}
use dns_ingress.Message.Query.{IsDnsQuery, validate_doh_get_query_iff}
use dns_ingress.Message.Body.{Delivered, payload, collect_body_iff}

abbrev header : List ℕ
header = 0 ∷ 0 ∷ 1 ∷ 0 ∷ 0 ∷ 1 ∷ 0 ∷ 0 ∷ 0 ∷ 0 ∷ 0 ∷ 0 ∷ []

-- A decoder that knows one text.
abbrev sample_decode : Text → Option (List ℕ)
sample_decode value = if text_eq value (codes "AAABAAABAAAAAAAA") then some header else none

abbrev sample_uri : Uri
sample_uri = record {
  path = codes "/dns-query";
  query = some (codes "ct&dns=AAABAAABAAAAAAAA");
  authority = none;
}

query_run : validate_doh_get_query sample_decode sample_uri (codes "DoH") ≡ ok tt
unfolding validate_doh_get_query validate_dns_message non_empty find_dns dns_value split_once split
    push_head text_eq
query_run = refl

validate_doh_get_query_iff_example : IsDnsQuery sample_decode sample_uri
validate_doh_get_query_iff_example =
    (validate_doh_get_query_iff sample_decode sample_uri (codes "DoH")).0 query_run

abbrev two_frames : List Poll
two_frames = frame (1 ∷ 2 ∷ []) ∷ trailers ∷ frame (3 ∷ []) ∷ []

body_run : collect_body_with_progress two_frames (codes "body") ≡ ok (1 ∷ 2 ∷ 3 ∷ [])
unfolding collect_body_with_progress collect_frames
body_run = refl

collect_body_iff_example :
    Delivered two_frames
    × ((1 ∷ 2 ∷ 3 ∷ []) ≡ payload two_frames)
    × (length (payload two_frames) ≤ max_dns_message_size)
collect_body_iff_example = (collect_body_iff two_frames (codes "body") (1 ∷ 2 ∷ 3 ∷ [])).0 body_run
