-- ===== src/Config/Validate/Tests.antt =====
-- A configuration that passes, and examples of the theorems on the validation.
use dns_ingress.Prelude.{
  ℕ, ◌+◌, ◌*◌, ◌-◌, ◌≡◌, refl, true, Bool, Option, none, some, List, [], ◌∷◌, ok, all,
}
use dns_ingress.Prelude.Text.{
  Text, codes, split, push_head, starts_with, text_eq, decimal, to_lower, trim_end_matches,
  strip_suffix, ends_with,
}
use dns_ingress.Config.{AppConfig, default_config}
use dns_ingress.Config.Names.{is_ascii_dns_name, is_ascii_dns_suffix, is_label}
use dns_ingress.Config.Validate.{
  SocketAddr, check_listeners, claim_each, claim, standard_servers, healthcheck_server, bind_addr,
  same_socket, validate_structure, check_default_certificate, check_certificates, check_upstream_ca,
  check_rewrite, check_limits, check_tls, check_paths,
}
use dns_ingress.Config.Validate.Accepted.{IsAccepted, validate_structure_iff}
use dns_ingress.Config.Validate.Rewriting.{rewrite-validate_structure, Written}
use dns_ingress.Rewriter.{
  new, rewrite, extract_prefix, prefix_under, canonical_domain, is_dns_byte, RewriteResult,
}

-- A parser for addresses of the form `host:port`.
abbrev number : ℕ → Text → ℕ
number n [] = n
number n (c ∷ s) = number (10 * n + (c - b'0')) s

abbrev host_and_port : List Text → Option SocketAddr
host_and_port (host ∷ port ∷ []) = some (record { ip = host; port = number 0 port })
host_and_port _ = none

abbrev sample_parse : Text → Option SocketAddr
sample_parse s = host_and_port (split b':' s)

abbrev every_file : Text → Bool
every_file f = true

abbrev sample : AppConfig
sample = record default_config {
  tls = record {
    default = some (record { cert_file = codes "cert.pem"; key_file = codes "key.pem" });
    certs = [];
    upstream_ca_file = none;
  };
}

listeners_run : check_listeners sample_parse sample.servers ≡ ok tt
unfolding check_listeners claim_each claim standard_servers healthcheck_server bind_addr same_socket
    split push_head decimal text_eq
listeners_run = refl

sample_run : validate_structure sample_parse every_file sample ≡ ok tt
unfolding validate_structure check_listeners claim_each claim standard_servers healthcheck_server
    bind_addr same_socket split push_head decimal text_eq check_default_certificate
    check_certificates check_upstream_ca check_rewrite check_limits check_tls check_paths
    starts_with is_ascii_dns_name is_ascii_dns_suffix is_label
sample_run = refl

validate_structure_iff_example : IsAccepted sample_parse every_file sample
validate_structure_iff_example =
    (validate_structure_iff sample_parse every_file sample).0 sample_run

abbrev asked : Text
asked = codes "www.example.org"

abbrev answered : RewriteResult
answered = record {
  original = asked;
  prefix = codes "www";
  target_hostname = codes "www.example.cn";
}

asked_bytes : all is_dns_byte (canonical_domain asked) ≡ true
unfolding to_lower trim_end_matches
asked_bytes = refl

asked_run : rewrite (new sample.rewrite) asked ≡ some answered
unfolding new rewrite extract_prefix starts_with to_lower trim_end_matches prefix_under strip_suffix
    ends_with
asked_run = refl

rewrite-validate_structure_example :
    Written sample_parse every_file sample asked answered sample.rewrite
rewrite-validate_structure_example =
    (rewrite-validate_structure sample_parse every_file sample asked answered sample_run
        asked_bytes).0
      asked_run

name_run : is_ascii_dns_name (codes "xn--a.example.org") ≡ true
unfolding is_ascii_dns_name is_label split push_head
name_run = refl
