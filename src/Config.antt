-- ===== src/Config.antt =====
-- src/config.rs: the configuration as it is read, its defaults, and the children that check it.
pub mod Names
pub mod Validate
pub mod Removed
use dns_ingress.Prelude.{ℕ, ◌*◌, Bool, true, false, Option, none, List, [], ◌∷◌}
use dns_ingress.Prelude.Text.{Text, codes}

pub record RewriteConfig : Type 0 where
  pub base_domains : List Text
  pub target_suffix : Text

pub record ServerPortConfig : Type 0 where
  pub enabled : Bool
  pub bind_address : Text
  pub port : ℕ
  pub path : Text

pub record HealthcheckConfig : Type 0 where
  pub enabled : Bool
  pub bind_address : Text
  pub port : ℕ
  pub path : Text

pub record ServersConfig : Type 0 where
  pub dot : ServerPortConfig
  pub doh : ServerPortConfig
  pub doq : ServerPortConfig
  pub doh3 : ServerPortConfig
  pub healthcheck : HealthcheckConfig

pub record DnsUpstreamConfig : Type 0 where
  pub port : ℕ

pub record HttpUpstreamConfig : Type 0 where
  pub port : ℕ
  pub path : Text

pub record UpstreamConfig : Type 0 where
  pub dot : DnsUpstreamConfig
  pub doh : HttpUpstreamConfig
  pub doq : DnsUpstreamConfig
  pub doh3 : HttpUpstreamConfig

pub record CertificateConfig : Type 0 where
  pub cert_file : Text
  pub key_file : Text

-- `certs` lists the map's entries in its iteration order.
pub record TlsConfig : Type 0 where
  pub default : Option CertificateConfig
  pub certs : List (Text × CertificateConfig)
  pub upstream_ca_file : Option Text

pub record LoggingConfig : Type 0 where
  pub level : Text
  pub file : Option Text
  pub json : Bool
  pub rotation : Bool
  pub max_file_size : ℕ
  pub max_files : ℕ

pub record LimitsConfig : Type 0 where
  pub max_connections_per_listener : ℕ
  pub max_inflight_requests_per_connection : ℕ
  pub max_upstream_pool_entries : ℕ
  pub transaction_timeout_seconds : ℕ

pub record AppConfig : Type 0 where
  pub rewrite : RewriteConfig
  pub servers : ServersConfig
  pub upstream : UpstreamConfig
  pub tls : TlsConfig
  pub logging : LoggingConfig
  pub limits : LimitsConfig

abbrev pub default_dns_port : ℕ
default_dns_port = 853

abbrev pub default_https_port : ℕ
default_https_port = 443

abbrev pub default_doh_path : Text
default_doh_path = codes "/dns-query"

-- `impl Default` of each section
abbrev pub default_limits : LimitsConfig
default_limits = record {
  max_connections_per_listener = 1024;
  max_inflight_requests_per_connection = 64;
  max_upstream_pool_entries = 256;
  transaction_timeout_seconds = 30;
}

abbrev pub default_logging : LoggingConfig
default_logging = record {
  level = codes "info";
  file = none;
  json = false;
  rotation = true;
  max_file_size = 10 * 1024 * 1024;
  max_files = 5;
}

abbrev pub default_healthcheck : HealthcheckConfig
default_healthcheck = record {
  enabled = true;
  bind_address = codes "0.0.0.0";
  port = 8080;
  path = codes "/health";
}

abbrev pub default_tls : TlsConfig
default_tls = record { default = none; certs = []; upstream_ca_file = none }

abbrev listener : Bool → ℕ → ServerPortConfig
listener enabled port = record {
  enabled = enabled;
  bind_address = codes "0.0.0.0";
  port = port;
  path = default_doh_path;
}

abbrev pub default_config : AppConfig
default_config = record {
  rewrite = record {
    base_domains = codes "example.com" ∷ codes "example.org" ∷ [];
    target_suffix = codes ".example.cn";
  };
  servers = record {
    dot = listener true 853;
    doh = listener true 443;
    doq = listener true 853;
    doh3 = listener false 443;
    healthcheck = default_healthcheck;
  };
  upstream = record {
    dot = record { port = default_dns_port };
    doh = record { port = default_https_port; path = default_doh_path };
    doq = record { port = default_dns_port };
    doh3 = record { port = default_https_port; path = default_doh_path };
  };
  tls = default_tls;
  logging = default_logging;
  limits = default_limits;
}
