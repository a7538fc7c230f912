-- ===== src/Hostname/Tests.antt =====
-- A run on a host with a trailing dot.
use dns_ingress.Prelude.{◌≡◌, refl, Option, some}
use dns_ingress.Prelude.Text.{Text, codes, to_lower, trim_end_matches}
use dns_ingress.Hostname.{normalize_hostname, canonical_host}

abbrev accept : Text → Option Text
accept authority = some authority

abbrev host : Text
host = codes "a.example.com"

host_run : normalize_hostname accept (codes "A.Example.com.") ≡ some host
unfolding normalize_hostname canonical_host to_lower trim_end_matches
host_run = refl
