-- ===== src/Tls/Select.antt =====
-- src/tls_utils.rs: which certificate a name gets.
use dns_ingress.Prelude.{
  suc, ◌≤◌, ◌≡◌, sym, ap, ◌∙◌, ◌↔◌, ◌⊎◌, inl, inr, true, false, Option, none, some, List, [], ◌∷◌,
  ◌++◌, length, suffix_unique, arith, All, Option-cases, Result-cases, ok, err, >>=-eq-ok, subst,
}
use dns_ingress.Prelude.Text.{Text, to_ascii_lowercase, trim_end_matches}
use dns_ingress.Prelude.Assoc.{
  lookup, insert, text_key, IsMap, IsMap-insert, Listed, Listed-lookup, lookup-Listed,
}
use dns_ingress.Config.{CertificateConfig, TlsConfig}
use dns_ingress.Error.{DnsProxyError, certificate, not_configured}
use dns_ingress.Tls.{
  Backend, CertifiedKey, CertificateResolver, covers, longest, base_or_default, get_cert_for_domain,
  load_each, load_default, load_certificate, new, resolve,
}
use dns_ingress.Tls.Covers.{covers_iff, longest-some, longest-none}

-- `base` is the name less a first part and a dot.
abbrev pub IsBaseOf : Text → Text → Type 0
IsBaseOf base domain = (p : Text) × (domain ≡ p ++ (b'.' ∷ base))

module _ (b : Backend) where
  -- The priority of the certificates, by what the map answers alone: the one of the name, else the
  -- one of its longest configured base domain, else the default.
  pub data Selects (r : CertificateResolver b) (domain : Text) (k : CertifiedKey b) : Type 0 where
    exact : lookup domain r.certs ≡ some k → Selects r domain k
    by_base :
        (base : Text)
        → lookup domain r.certs ≡ none
        → lookup base r.certs ≡ some k
        → IsBaseOf base domain
        → ((other : Text) (j : CertifiedKey b)
            → lookup other r.certs ≡ some j
            → IsBaseOf other domain
            → length other ≤ length base)
        → Selects r domain k
    fallback :
        lookup domain r.certs ≡ none
        → ((other : Text) (j : CertifiedKey b)
            → lookup other r.certs ≡ some j
            → ¬ IsBaseOf other domain)
        → r.default ≡ some k
        → Selects r domain k

  All-Listed :
      (P : Text × CertifiedKey b → Type 0) (es : List (Text × CertifiedKey b))
      (w : Text × CertifiedKey b)
      → All P es
      → Listed w es
      → P w
  All-Listed P [] w h l = absurd l
  All-Listed P (e ∷ es) w h (inl l) = subst P (sym l) h.0
  All-Listed P (e ∷ es) w h (inr l) = All-Listed P es w h.1 l

  canonical : Text → Text
  canonical asked = to_ascii_lowercase (trim_end_matches b'.' asked)

  longest-Selects :
      (r : CertificateResolver b) (domain : Text) (w : Text × CertifiedKey b)
      → IsMap r.certs
      → lookup domain r.certs ≡ none
      → longest domain r.certs none ≡ some w
      → Selects r domain w.1
  longest-Selects r domain w v missing e =
      let (origin, most, _) = longest-some domain r.certs none {w = w} e in
      by_base w.0 missing (Listed-lookup w r.certs v (listed origin))
        ((covers_iff domain w.0).0 (covered origin))
        (λ other j found base.
          All-Listed (λ c. covers domain c.0 ≡ true → length c.0 ≤ length w.0) r.certs (other, j)
            most (lookup-Listed other r.certs found) ((covers_iff domain other).1 base))
    where
      listed :
          ((◌≡◌ {A = Option (Text × CertifiedKey b)} none (some w))
            ⊎ (Listed w r.certs × (covers domain w.0 ≡ true)))
          → Listed w r.certs
      listed (inl h) = cc
      listed (inr h) = h.0

      covered :
          ((◌≡◌ {A = Option (Text × CertifiedKey b)} none (some w))
            ⊎ (Listed w r.certs × (covers domain w.0 ≡ true)))
          → covers domain w.0 ≡ true
      covered (inl h) = cc
      covered (inr h) = h.1

  none-covers :
      (r : CertificateResolver b) (domain : Text)
      → longest domain r.certs none ≡ none
      → (other : Text) (j : CertifiedKey b) → lookup other r.certs ≡ some j
      → ¬ IsBaseOf other domain
  none-covers r domain e other j found base = absurd (
      ground (
        arith,
        (covers_iff domain other).1 base,
        All-Listed (λ w. covers domain w.0 ≡ false) r.certs (other, j)
            (longest-none domain r.certs e) (lookup-Listed other r.certs found),
      ))

  -- A certificate is the one selected, whichever way.
  get_cert-Selects :
      (r : CertificateResolver b) (asked : Text) {k : CertifiedKey b}
      → IsMap r.certs
      → get_cert_for_domain b r asked ≡ ok k
      → Selects r (canonical asked) k
  unfolding get_cert_for_domain base_or_default canonical
  get_cert-Selects r asked {k} v h = elim (Option-cases (lookup (canonical asked) r.certs)) [
    | inl missing ↦ elim (Option-cases (longest (canonical asked) r.certs none)) [
      | inl e ↦ fallback missing (none-covers r (canonical asked) e) (ground (arith, missing, e))
      | inr (w, e) ↦
          let same : w.1 ≡ k = ground (arith, missing, e) in
          subst (λ j. Selects r (canonical asked) j) same
            (longest-Selects r (canonical asked) w v missing e)
    ]
    | inr (j, found) ↦ exact (ground (arith, found))
  ]

  Selects-unique :
      (r : CertificateResolver b) (domain : Text) {j k : CertifiedKey b}
      → Selects r domain j
      → Selects r domain k
      → j ≡ k
  Selects-unique r domain (exact p) (exact q) = ground arith
  Selects-unique r domain (exact p) (by_base base q found is most) = ground arith
  Selects-unique r domain (exact p) (fallback q none_covers d) = ground arith
  Selects-unique r domain (by_base base q found is most) (exact p) = ground arith
  Selects-unique r domain {j} {k} (by_base base q found is most)
        (by_base base' q' found' is' most') =
      let size : length base ≡ length base' =
        omega (arith, most base' k found' is', most' base j found is) in
      let same : base ≡ base' = tails is.0 is'.0 base base' (sym is.1 ∙ is'.1) size in
      ground (arith, same)
    where
      tails : (p q c d : Text) → p ++ (b'.' ∷ c) ≡ q ++ (b'.' ∷ d) → length c ≡ length d → c ≡ d
      tails p q c d e h = let whole = suffix_unique p q (b'.' ∷ c) (b'.' ∷ d) e (ap suc h) in cc
  Selects-unique r domain {j} (by_base base q found is most) (fallback q' none_covers d) =
      absurd (none_covers base j found is)
  Selects-unique r domain (fallback q none_covers d) (exact p) = ground arith
  Selects-unique r domain {k} (fallback q none_covers d) (by_base base q' found is most) =
      absurd (none_covers base k found is)
  Selects-unique r domain (fallback q none_covers d) (fallback q' none_covers' d') = ground arith

  none-Selects :
      (r : CertificateResolver b) (domain : Text)
      → lookup domain r.certs ≡ none
      → ((other : Text) (j : CertifiedKey b)
          → lookup other r.certs ≡ some j
          → ¬ IsBaseOf other domain)
      → ◌≡◌ {A = Option (CertifiedKey b)} r.default none
      → (k : CertifiedKey b) → ¬ Selects r domain k
  none-Selects r domain missing none_covers d k (exact p) = ground arith
  none-Selects r domain missing none_covers d k (by_base base q found is most) =
      absurd (none_covers base k found is)
  none-Selects r domain missing none_covers d k (fallback q n p) = ground arith

  -- A lookup that fails names the domain it was asked for, in its canonical form, and no certificate
  -- is selected for it.
  pub get_cert_for_domain-err :
      (r : CertificateResolver b) (asked : Text) {e : DnsProxyError}
      → IsMap r.certs
      → get_cert_for_domain b r asked ≡ err e
      → (e ≡ certificate (not_configured (to_ascii_lowercase (trim_end_matches b'.' asked))))
        × ((k : CertifiedKey b) → ¬ Selects r (to_ascii_lowercase (trim_end_matches b'.' asked)) k)
  unfolding get_cert_for_domain base_or_default canonical
  get_cert_for_domain-err r asked {e} v h = elim (Option-cases (lookup (canonical asked) r.certs)) [
    | inr (j, found) ↦ absurd (ground (arith, found))
    | inl missing ↦ elim (Option-cases (longest (canonical asked) r.certs none)) [
      | inr (w, l) ↦ absurd (ground (arith, missing, l))
      | inl l ↦ elim (Option-cases r.default) [
        | inr (k, d) ↦ absurd (ground (arith, missing, l, d))
        | inl d ↦ (
          ground (arith, missing, l, d),
          none-Selects r (canonical asked) missing (none-covers r (canonical asked) l) d,
        )
      ]
    ]
  ]

  Selects-get_cert :
      (r : CertificateResolver b) (asked : Text) {k : CertifiedKey b}
      → IsMap r.certs
      → Selects r (canonical asked) k
      → get_cert_for_domain b r asked ≡ ok k
  unfolding canonical
  Selects-get_cert r asked {k} v h = elim (Result-cases (get_cert_for_domain b r asked)) [
    | inl (j, e) ↦ e ∙ ap ok (Selects-unique r (canonical asked) (get_cert-Selects r asked v e) h)
    | inr (e, f) ↦ absurd ((get_cert_for_domain-err r asked v f).1 k h)
  ]

  -- From a map with one entry for a key, a name gets its own certificate if there is one, else the
  -- one of its longest configured base domain, else the default.
  pub get_cert_for_domain_iff :
      (r : CertificateResolver b) (asked : Text) (k : CertifiedKey b)
      → IsMap r.certs
      → (get_cert_for_domain b r asked ≡ ok k)
        ↔ Selects r (to_ascii_lowercase (trim_end_matches b'.' asked)) k
  unfolding canonical
  get_cert_for_domain_iff r asked k v = (get_cert-Selects r asked v, Selects-get_cert r asked v)

-- The map that the loader builds has one entry for a key.
load_each-IsMap :
    (b : Backend) (given : List (Text × CertificateConfig)) (certs : List (Text × CertifiedKey b))
    {loaded : List (Text × CertifiedKey b)}
    → IsMap certs
    → load_each b given certs ≡ ok loaded
    → IsMap loaded
unfolding load_each
load_each-IsMap b [] certs v h = ground (arith, v)
load_each-IsMap b ((domain, c) ∷ more) certs v h =
    let (key, _, rest) = >>=-eq-ok (load_certificate b c) _ h in
    load_each-IsMap b more (insert (to_ascii_lowercase domain) key certs)
      (IsMap-insert (to_ascii_lowercase domain) key certs v) rest

new-IsMap :
    (b : Backend) (tls : TlsConfig) {r : CertificateResolver b} → new b tls ≡ ok r → IsMap r.certs
unfolding new
new-IsMap b tls {r} h =
    let (default, _, h') = >>=-eq-ok (load_default b tls.default) _ h in
    let (certs, loaded, e) = >>=-eq-ok (load_each b tls.certs []) _ h' in
    let same : certs ≡ r.certs = cc in
    subst (λ m. IsMap m) same (load_each-IsMap b tls.certs [] tt loaded)

resolve_iff :
    (b : Backend) (r : CertificateResolver b) (sni : Text) (k : CertifiedKey b)
    → (resolve b r (some sni) ≡ some k) ↔ (get_cert_for_domain b r sni ≡ ok k)
unfolding resolve
resolve_iff b r sni k = elim (Result-cases (get_cert_for_domain b r sni)) [
  | inl (j, e) ↦ rw e ((λ h. cc), (λ h. cc))
  | inr (x, e) ↦ rw e ((λ h. cc), (λ h. cc))
]

-- A resolver that the loader returns answers a handshake with a certificate exactly when the
-- priority selects that certificate for its name.
pub new-resolve :
    (b : Backend) (tls : TlsConfig) (r : CertificateResolver b) (sni : Text) (k : CertifiedKey b)
    → new b tls ≡ ok r
    → (resolve b r (some sni) ≡ some k)
      ↔ Selects b r (to_ascii_lowercase (trim_end_matches b'.' sni)) k
new-resolve b tls r sni k h =
    let selected = get_cert_for_domain_iff b r sni k (new-IsMap b tls h) in
    let resolved = resolve_iff b r sni k in
    (λ e. selected.0 (resolved.0 e), λ s. resolved.1 (selected.1 s))
