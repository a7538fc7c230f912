-- ===== src/Tls/Tests.antt =====
-- A loaded resolver, and examples of the theorems on it.
use dns_ingress.Prelude.{◌≡◌, refl, true, some, none, [], ◌∷◌, ok, err}
use dns_ingress.Prelude.Text.{
  Text, codes, to_lower, trim_end_matches, strip_suffix, ends_with, text_eq, to_ascii_lowercase,
}
use dns_ingress.Prelude.Assoc.{lookup, insert, text_key, IsMap}
use dns_ingress.Config.{CertificateConfig, TlsConfig}
use dns_ingress.Error.{DnsProxyError, certificate, not_configured}
use dns_ingress.Tls.{
  Backend, CertifiedKey, CertificateResolver, read_file, some_certs, load_certificate, load_default,
  load_each, new, covers, better, longest, base_or_default, get_cert_for_domain, resolve,
}
use dns_ingress.Tls.Select.{Selects, new-resolve}

-- A file holds its own name, which is its certificate and its key.
abbrev sample_backend : Backend
sample_backend = record {
  Cert = Text;
  PrivateKey = Text;
  SigningKey = Text;
  read = λ path. ok path;
  pem_certs = λ bytes. ok (bytes ∷ []);
  first_pkcs8_key = λ bytes. some (ok bytes);
  any_supported_type = λ key. ok key;
}

abbrev pair : Text → CertificateConfig
pair name = record { cert_file = name; key_file = name }

abbrev sample_tls : TlsConfig
sample_tls = record {
  default = none;
  certs =
      (codes "Example.com", pair (codes "top")) ∷ (codes "a.example.com", pair (codes "sub")) ∷ [];
  upstream_ca_file = none;
}

abbrev certified : Text → CertifiedKey sample_backend
certified name = record { certs = name ∷ []; key = name }

abbrev loaded : CertificateResolver sample_backend
loaded = record {
  certs =
      (codes "example.com", certified (codes "top"))
      ∷ (codes "a.example.com", certified (codes "sub"))
      ∷ [];
  default = none;
}

loaded_run : new sample_backend sample_tls ≡ ok loaded
unfolding new load_default load_each load_certificate read_file some_certs insert text_eq to_lower
loaded_run = refl

resolve_run :
    resolve sample_backend loaded (some (codes "X.a.Example.com.")) ≡ some (certified (codes "sub"))
unfolding resolve get_cert_for_domain base_or_default longest better covers lookup text_eq to_lower
    trim_end_matches strip_suffix ends_with
resolve_run = refl

new-resolve_example :
    Selects sample_backend loaded
      (to_ascii_lowercase (trim_end_matches b'.' (codes "X.a.Example.com.")))
      (certified (codes "sub"))
new-resolve_example =
    (new-resolve sample_backend sample_tls loaded (codes "X.a.Example.com.")
        (certified (codes "sub")) loaded_run).0
      resolve_run

loaded-IsMap : IsMap loaded.certs
unfolding text_eq
loaded-IsMap = ((refl, tt), (tt, tt))

found_run :
    get_cert_for_domain sample_backend loaded (codes "b.example.com") ≡ ok (certified (codes "top"))
unfolding get_cert_for_domain base_or_default longest better covers lookup text_eq to_lower
    trim_end_matches strip_suffix ends_with
found_run = refl

abbrev missing : DnsProxyError
missing = certificate (not_configured (codes "badexample.com"))

missing_run : get_cert_for_domain sample_backend loaded (codes "badexample.com") ≡ err missing
unfolding get_cert_for_domain base_or_default longest better covers lookup text_eq to_lower
    trim_end_matches strip_suffix ends_with
missing_run = refl

covers_run : covers (codes "a.example.com") (codes "example.com") ≡ true
unfolding covers strip_suffix ends_with text_eq
covers_run = refl
