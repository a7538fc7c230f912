-- ===== src/Hostname/Canonical.antt =====
-- What `normalize_hostname` yields, and what the rewriter makes of it.
use dns_ingress.Prelude.{
  ◌≡◌, refl, ◌∙◌, ◌≢◌, ℕ, true, Option, some, [], ◌∷◌, arith, all, Option-cases, inl, inr,
}
use dns_ingress.Prelude.Text.{
  Text, to_lower, to_ascii_lowercase, to_ascii_lowercase_idem, trim_end_matches,
  trim_end_matches_idem, trim_end_matches-to_ascii_lowercase,
}
use dns_ingress.Hostname.{is_host_byte, normalize_hostname}
use dns_ingress.Rewriter.{canonical_domain, is_dns_byte, BaseSniRewriter, RewriteResult, rewrite}
use dns_ingress.Rewriter.Rewrite.{rewrite_iff}

pub canonical_domain_idem : (s : Text) → canonical_domain (canonical_domain s) ≡ canonical_domain s
canonical_domain_idem s = rw (
  trim_end_matches-to_ascii_lowercase (trim_end_matches b'.' s),
  trim_end_matches_idem b'.' s,
  to_ascii_lowercase_idem (trim_end_matches b'.' s),
)

is_dns_byte-to_lower : (b : ℕ) → is_host_byte (to_lower b) ≡ true → is_dns_byte (to_lower b) ≡ true
unfolding to_lower
is_dns_byte-to_lower b h = ground arith

all-is_dns_byte :
    (s : Text)
    → all is_host_byte (to_ascii_lowercase s) ≡ true
    → all is_dns_byte (to_ascii_lowercase s) ≡ true
all-is_dns_byte [] h = refl
all-is_dns_byte (b ∷ s) h = ground (arith, is_dns_byte-to_lower b, all-is_dns_byte s)

-- A host that `normalize_hostname` yields is the parsed host in lower case without its trailing
-- dots; it is not empty, it is its own canonical form, and it holds DNS bytes only.
pub normalize_hostname-some :
    (parse_host : Text → Option Text) (authority : Text) {host : Text}
    → normalize_hostname parse_host authority ≡ some host
    → ((parsed : Text) × (parse_host authority ≡ some parsed) × (host ≡ canonical_domain parsed))
      × (host ≢ [])
      × (canonical_domain host ≡ host)
      × (all is_dns_byte host ≡ true)
unfolding normalize_hostname
normalize_hostname-some parse_host authority {host} h = elim (Option-cases (parse_host authority)) [
  | inl e ↦ absurd (ground (arith, e))
  | inr (parsed, e) ↦
      let same : host ≡ canonical_domain parsed = ground (arith, e) in
      let bytes : all is_host_byte (canonical_domain parsed) ≡ true = ground (arith, e) in
      let some_host : host ≢ [] = ground (arith, e) in
      (
        (parsed, e, same),
        some_host,
        rw same (canonical_domain_idem parsed),
        rw same (all-is_dns_byte (trim_end_matches b'.' parsed) bytes),
      )
]

-- The rewriter keeps such a host as it is: the name in its result is the host.
pub rewrite-normalize_hostname :
    (parse_host : Text → Option Text) (r : BaseSniRewriter) (authority : Text) {host : Text}
    {x : RewriteResult}
    → normalize_hostname parse_host authority ≡ some host
    → rewrite r host ≡ some x
    → x.original ≡ host
rewrite-normalize_hostname parse_host r authority {host} {x} n w =
    ((rewrite_iff r host x).0 w).original ∙ (normalize_hostname-some parse_host authority n).2
