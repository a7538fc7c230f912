-- ===== src/Tls.antt =====
-- src/tls_utils.rs: the inbound certificates, loaded once and selected by SNI. The file system, the
-- PEM readers and the signing keys are third-party: a backend record. The resolver's map is an
-- association list in its iteration order. Log lines are left out.
pub mod Covers
pub mod Select
mod Tests
use mathlib.Core.Option.{get_or}
use dns_ingress.Prelude.{
  ℕ, zero, suc, ◌-◌, Bool, true, false, ◌&&◌, ◌==◌, ltb, leb, Option, none, some, List, [], ◌∷◌,
  ◌++◌, length, is_empty, if◌then◌else◌, Result, ok, err, ◌>>=◌, ok_or, map_err,
}
use dns_ingress.Prelude.Text.{Text, codes, ends_with, to_ascii_lowercase, trim_end_matches}
use dns_ingress.Prelude.Assoc.{lookup, insert, text_key}
use dns_ingress.Config.{CertificateConfig, TlsConfig}
use dns_ingress.Error.{
  DnsProxyError, certificate, CertificateError, load_failed, not_configured, invalid_format,
  private_key,
}

-- What the loader asks of the file system and of the TLS libraries; an error is its message.
pub record Backend : Type 1 where
  pub Cert : Type 0
  pub PrivateKey : Type 0
  pub SigningKey : Type 0
  pub read : Text → Result Text Text
  pub pem_certs : Text → Result Text (List Cert)
  pub first_pkcs8_key : Text → Option (Result Text PrivateKey)
  pub any_supported_type : PrivateKey → Result Text SigningKey

module _ (b : Backend) where
  open b use {Cert, PrivateKey, SigningKey, read, pem_certs, first_pkcs8_key, any_supported_type}

  pub record CertifiedKey : Type 0 where
    pub certs : List Cert
    pub key : SigningKey

  pub record CertificateResolver : Type 0 where
    pub certs : List (Text × CertifiedKey)
    pub default : Option CertifiedKey

  unfoldable pub read_file : Text → Result DnsProxyError Text
  read_file path =
      map_err (λ e. certificate (load_failed path (codes "Failed to read: " ++ e))) (read path)

  unfoldable pub some_certs : List Cert → Result DnsProxyError (List Cert)
  some_certs certs =
      if is_empty certs
      then err (certificate (invalid_format (codes "No certificates found in certificate file")))
      else ok certs

  unfoldable pub load_certificate : CertificateConfig → Result DnsProxyError CertifiedKey
  load_certificate c = do
    cert_bytes ← read_file c.cert_file
    key_bytes ← read_file c.key_file
    parsed ←
        map_err (λ e. certificate (invalid_format (codes "Failed to parse certificate: " ++ e)))
          (pem_certs cert_bytes)
    certs ← some_certs parsed
    first ←
        ok_or (first_pkcs8_key key_bytes)
          (certificate (private_key (codes "No private key found in key file")))
    key ←
        map_err (λ e. certificate (private_key (codes "Failed to parse private key: " ++ e))) first
    signing_key ←
        map_err (λ e. certificate (private_key (codes "Failed to create signing key: " ++ e)))
          (any_supported_type key)
    ok (record { certs = certs; key = signing_key })

  -- `.map(Self::load_certificate).transpose()`
  unfoldable pub load_default :
      Option CertificateConfig → Result DnsProxyError (Option CertifiedKey)
  load_default none = ok none
  load_default (some c) = do key ← load_certificate c; ok (some key)

  -- The loop of `CertificateResolver::new`.
  unfoldable pub load_each :
      List (Text × CertificateConfig)
      → List (Text × CertifiedKey)
      → Result DnsProxyError (List (Text × CertifiedKey))
  load_each [] certs = ok certs
  load_each ((domain, c) ∷ more) certs = do
    key ← load_certificate c
    load_each more (insert (to_ascii_lowercase domain) key certs)

  unfoldable pub new : TlsConfig → Result DnsProxyError CertificateResolver
  new tls = do
    default ← load_default tls.default
    certs ← load_each tls.certs []
    ok (record { certs = certs; default = default })

-- `domain.as_bytes()[i]`, which is in range where it is read.
abbrev pub byte_at : Text → ℕ → ℕ
byte_at [] i = 0
byte_at (c ∷ s) zero = c
byte_at (c ∷ s) (suc i) = byte_at s i

-- The closure of the `filter`.
pub covers : Text → Text → Bool
covers domain base =
    ends_with domain base
    && ltb (length base) (length domain)
    && byte_at domain (length domain - length base - 1) == b'.'

module _ {K : Type 0} where
  -- `max_by_key` keeps the later of two equals.
  better : Option (Text × K) → Text × K → Option (Text × K)
  better none entry = some entry
  better (some best) entry = if leb (length best.0) (length entry.0) then some entry else some best

  pub longest : Text → List (Text × K) → Option (Text × K) → Option (Text × K)
  longest domain [] best = best
  longest domain (entry ∷ more) best =
      longest domain more (if covers domain entry.0 then better best entry else best)

module _ (b : Backend) where
  base_or_default :
      CertificateResolver b
      → Text
      → Option (Text × CertifiedKey b)
      → Result DnsProxyError (CertifiedKey b)
  base_or_default resolver domain (some (base, cert)) = ok cert
  base_or_default resolver domain none =
      ok_or resolver.default (certificate (not_configured domain))

  pub get_cert_for_domain : CertificateResolver b → Text → Result DnsProxyError (CertifiedKey b)
  get_cert_for_domain resolver asked =
      let domain = to_ascii_lowercase (trim_end_matches b'.' asked) in
      elim (lookup domain resolver.certs) [
        | some cert ↦ ok cert
        | none ↦ base_or_default resolver domain (longest domain resolver.certs none)
      ]

  -- `DynamicCertResolver::resolve`: a handshake without a name, or without a certificate, fails.
  pub resolve : CertificateResolver b → Option Text → Option (CertifiedKey b)
  resolve resolver none = none
  resolve resolver (some sni) = elim (get_cert_for_domain resolver sni) [
    | ok cert ↦ some cert
    | err e ↦ none
  ]
