-- ===== src/Message/Query.antt =====
-- Which queries of a GET request are accepted.
use dns_ingress.Prelude.{
  ℕ, ◌≤◌, ◌≡◌, refl, ap, ◌∙◌, ◌↔◌, ◌≢◌, ◌==◌, ==_iff, Option, none, some, List, [], ◌∷◌, ◌++◌,
  length, arith, ok, Option-cases, Bool-cases, inl, inr,
}
use dns_ingress.Prelude.Text.{Text, codes, split, text_eq, text_eq_iff}
use dns_ingress.Message.{
  Uri, split_once, dns_value, find_dns, validate_doh_get_query, validate_dns_message,
  max_dns_message_size,
}

-- A parameter `dns=value`.
abbrev pub IsDns : Text → Text → Type 0
IsDns parameter value = parameter ≡ codes "dns=" ++ value

-- The value of the first parameter of that form.
pub data FirstDns : List Text → Text → Type 0 where
  here :
      {parameter value : Text} {more : List Text}
      → IsDns parameter value
      → FirstDns (parameter ∷ more) value
  there :
      {parameter value : Text} {more : List Text}
      → ((other : Text) → ¬ IsDns parameter other)
      → FirstDns more value
      → FirstDns (parameter ∷ more) value

split_once-some : (c : ℕ) (s : Text) {a b : Text} → split_once c s ≡ some (a, b) → s ≡ a ++ (c ∷ b)
unfolding split_once
split_once-some c [] h = cc
split_once-some c (x ∷ s) {a} {b} h = elim (Bool-cases (x == c)) [
  | inl t ↦ ground (arith, t, ==_iff x c)
  | inr f ↦ elim (Option-cases (split_once c s)) [
    | inl e ↦ absurd (ground (arith, f, e))
    | inr ((p, q), e) ↦
        let whole = split_once-some c s {a = p} {b = q} e in ground (arith, f, e, whole)
  ]
]

dns_value-append : (v : Text) → dns_value (codes "dns=" ++ v) ≡ some v
unfolding dns_value split_once text_eq
dns_value-append v = refl

dns_value_iff :
    (parameter value : Text) → (dns_value parameter ≡ some value) ↔ IsDns parameter value
unfolding dns_value
dns_value_iff parameter value = (forth, λ h. ap dns_value h ∙ dns_value-append value)
  where
    forth : dns_value parameter ≡ some value → IsDns parameter value
    forth h = elim (Option-cases (split_once b'=' parameter)) [
      | inl e ↦ absurd (ground (arith, e))
      | inr ((name, v), e) ↦ elim (Bool-cases (text_eq name (codes "dns"))) [
        | inr f ↦ absurd (ground (arith, e, f))
        | inl t ↦
            let whole = split_once-some b'=' parameter {a = name} {b = v} e in
            let named : name ≡ codes "dns" = (text_eq_iff name (codes "dns")).0 t in
            let valued : v ≡ value = ground (arith, e, t) in
            whole
            ∙ (ap (λ (n : Text). n ++ (b'=' ∷ v)) named
                ∙ ap (λ (u : Text). codes "dns=" ++ u) valued)
      ]
    ]

first_dns :
    (p : Text) (ps : List Text) (value : Text)
    → (find_dns ps ≡ some value → FirstDns ps value)
    → find_dns (p ∷ ps) ≡ some value
    → FirstDns (p ∷ ps) value
unfolding find_dns
first_dns p ps value later h = elim (Option-cases (dns_value p)) [
  | inl e ↦
      FirstDns.there (λ other d. ground (arith, e, (dns_value_iff p other).1 d))
        (later (rw (e, find_dns) at h))
  | inr (v, e) ↦
      let same : v ≡ value = ground (arith, e) in
      FirstDns.here ((dns_value_iff p value).0 (e ∙ ap some same))
]

found_dns :
    (p : Text) (ps : List Text) (value : Text)
    → (FirstDns ps value → find_dns ps ≡ some value)
    → FirstDns (p ∷ ps) value
    → find_dns (p ∷ ps) ≡ some value
unfolding find_dns
found_dns p ps value later (FirstDns.here d) = rw (find_dns, (dns_value_iff p value).1 d)
found_dns p ps value later (FirstDns.there n w) = elim (Option-cases (dns_value p)) [
  | inl e ↦ rw (find_dns, e) (later w)
  | inr (v, e) ↦ absurd (n v ((dns_value_iff p v).0 e))
]

find_dns_iff : (ps : List Text) (value : Text) → (find_dns ps ≡ some value) ↔ FirstDns ps value
unfolding find_dns
find_dns_iff [] value = (λ h. cc, λ w. (elim w [ ]))
find_dns_iff (p ∷ ps) value =
    (first_dns p ps value (find_dns_iff ps value).0, found_dns p ps value (find_dns_iff ps value).1)

-- What an accepted GET query is.
pub record IsDnsQuery (decode : Text → Option (List ℕ)) (uri : Uri) : Type 0 where
  pub query : Text
  pub value : Text
  pub message : List ℕ
  pub given : uri.query ≡ some query
  pub first : FirstDns (split b'&' query) value
  pub some_value : value ≢ []
  pub decoded : decode value ≡ some message
  pub header : 12 ≤ length message
  pub bound : length message ≤ max_dns_message_size

pub validate_dns_message_iff :
    (message context : Text)
    → (validate_dns_message message context ≡ ok tt)
      ↔ ((12 ≤ length message) × (length message ≤ max_dns_message_size))
unfolding validate_dns_message
validate_dns_message_iff message context = ground arith

-- The query of a GET request is accepted exactly when its first `dns=` parameter has a value, and
-- that value decodes to a message of 12 to 65535 bytes.
pub validate_doh_get_query_iff :
    (decode : Text → Option (List ℕ)) (uri : Uri) (protocol : Text)
    → (validate_doh_get_query decode uri protocol ≡ ok tt) ↔ IsDnsQuery decode uri
unfolding validate_doh_get_query
validate_doh_get_query_iff decode uri protocol = (forth, back)
  where
    missing : uri.query ≡ none → ¬ (validate_doh_get_query decode uri protocol ≡ ok tt)
    missing e h = ground (arith, e)

    forth : validate_doh_get_query decode uri protocol ≡ ok tt → IsDnsQuery decode uri
    forth h = elim (Option-cases uri.query) [
      | inl e ↦ absurd (missing e h)
      | inr (query, e) ↦ elim (Option-cases (find_dns (split b'&' query))) [
        | inl n ↦ absurd (ground (arith, e, n))
        | inr (value, found) ↦ elim (Option-cases (decode value)) [
          | inl n ↦ absurd (ground (arith, e, found, n))
          | inr (message, decoded) ↦
              let (header, bound) =
                (validate_dns_message_iff message (protocol ++ codes " GET dns query parameter")).0
                  (ground (arith, e, found, decoded)) in
              record {
                query = query;
                value = value;
                message = message;
                given = e;
                first = (find_dns_iff (split b'&' query) value).0 found;
                some_value = λ z. ground (arith, e, found, z);
                decoded = decoded;
                header = header;
                bound = bound;
              }
        ]
      ]
    ]

    back : IsDnsQuery decode uri → validate_doh_get_query decode uri protocol ≡ ok tt
    back w =
        let found = (find_dns_iff (split b'&' w.query) w.value).1 w.first in
        let sized =
          (validate_dns_message_iff w.message (protocol ++ codes " GET dns query parameter")).1
            (w.header, w.bound) in
        ground (arith, w.given, found, w.some_value, w.decoded, sized)
