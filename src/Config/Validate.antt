-- ===== src/Config/Validate.antt =====
-- src/config.rs: `AppConfig::validate_structure`. The parser of socket addresses and the existence
-- of a file are parameters. The error values stand for the messages.
pub mod Listeners
pub mod Accepted
pub mod Rewriting
mod Tests
use dns_ingress.Prelude.{
  ℕ, Bool, true, false, not, ◌&&◌, ◌||◌, ◌==◌, Option, none, some, List, [], ◌∷◌, ◌++◌, is_empty,
  any, if◌then◌else◌, Result, ok, err, ◌>>=◌, ◌>>◌,
}
use dns_ingress.Prelude.Text.{Text, codes, text_eq, starts_with, decimal}
use dns_ingress.Config.{
  AppConfig, ServersConfig, ServerPortConfig, HealthcheckConfig, CertificateConfig, LimitsConfig,
  RewriteConfig, TlsConfig,
}
use dns_ingress.Config.Names.{is_ascii_dns_name, is_ascii_dns_suffix}

pub data Transport : Type 0 where
  tcp udp : Transport

-- The octets of the address, 4 or 16, and the port.
pub record SocketAddr : Type 0 where
  pub ip : Text
  pub port : ℕ

-- An element of the set of sockets in use.
pub record Socket : Type 0 where
  pub transport : Transport
  pub ip : Text
  pub port : ℕ

pub data ConfigError : Type 0 where
  port_conflict : ℕ → ConfigError
  invalid_bind_address : Text → Text → ConfigError
  default_certificate_not_found : Text → ConfigError
  default_key_not_found : Text → ConfigError
  certificate_not_found : Text → Text → ConfigError
  key_not_found : Text → Text → ConfigError
  upstream_ca_not_found : Text → ConfigError
  no_base_domain suffix_without_dot not_dns_names : ConfigError
  zero_limit no_certificate : ConfigError
  upstream_path listener_path : Text → ConfigError

-- A listener as the loop sees it.
pub record Candidate : Type 0 where
  pub name : Text
  pub transport : Transport
  pub enabled : Bool
  pub bind_address : Text
  pub port : ℕ

abbrev same_transport : Transport → Transport → Bool
same_transport tcp tcp = true
same_transport udp udp = true
same_transport _ _ = false

unfoldable pub same_socket : Socket → Socket → Bool
unfolding text_eq
same_socket a b = same_transport a.transport b.transport && text_eq a.ip b.ip && a.port == b.port

-- `anyhow::bail!` under a test
abbrev pub bail_if : Bool → ConfigError → Result ConfigError (Unit {0})
bail_if true e = err e
bail_if false e = ok tt

abbrev candidate : Text → Transport → ServerPortConfig → Candidate
candidate name transport config = record {
  name = name;
  transport = transport;
  enabled = config.enabled;
  bind_address = config.bind_address;
  port = config.port;
}

unfoldable pub standard_servers : ServersConfig → List Candidate
standard_servers servers =
    candidate (codes "dot") tcp servers.dot
    ∷ candidate (codes "doh") tcp servers.doh
    ∷ candidate (codes "doq") udp servers.doq
    ∷ candidate (codes "doh3") udp servers.doh3
    ∷ []

unfoldable pub healthcheck_server : HealthcheckConfig → Candidate
healthcheck_server config = record {
  name = codes "healthcheck";
  transport = tcp;
  enabled = config.enabled;
  bind_address = config.bind_address;
  port = config.port;
}

-- `format!("{}:{}", bind_address, port)`
unfoldable pub bind_addr : Candidate → Text
bind_addr c = c.bind_address ++ (codes ":" ++ decimal c.port)

module _ (parse_socket_addr : Text → Option SocketAddr) where
  -- The body of the loop, and of the block for the health check.
  unfoldable pub claim : Candidate → List Socket → Result ConfigError (List Socket)
  claim c ports =
      if c.enabled
      then (elim (parse_socket_addr (bind_addr c)) [
        | none ↦ err (invalid_bind_address c.name (bind_addr c))
        | some a ↦
            let socket : Socket = record { transport = c.transport; ip = a.ip; port = a.port } in
            if any (same_socket socket) ports
            then err (port_conflict a.port)
            else ok (socket ∷ ports)
      ])
      else ok ports

  unfoldable pub claim_each : List Candidate → List Socket → Result ConfigError (List Socket)
  claim_each [] ports = ok ports
  claim_each (c ∷ more) ports = do ports' ← claim c ports; claim_each more ports'

  unfoldable pub check_listeners : ServersConfig → Result ConfigError (Unit {0})
  check_listeners servers = do
    ports ← claim_each (standard_servers servers) []
    _ ← claim (healthcheck_server servers.healthcheck) ports
    ok tt

module _ (file_exists : Text → Bool) where
  unfoldable pub check_default_certificate :
      Option CertificateConfig → Result ConfigError (Unit {0})
  check_default_certificate none = ok tt
  check_default_certificate (some c) = do
    bail_if (not (file_exists c.cert_file)) (default_certificate_not_found c.cert_file)
    bail_if (not (file_exists c.key_file)) (default_key_not_found c.key_file)

  unfoldable pub check_certificates :
      List (Text × CertificateConfig) → Result ConfigError (Unit {0})
  check_certificates [] = ok tt
  check_certificates ((domain, c) ∷ more) = do
    bail_if (not (file_exists c.cert_file)) (certificate_not_found domain c.cert_file)
    bail_if (not (file_exists c.key_file)) (key_not_found domain c.key_file)
    check_certificates more

  unfoldable pub check_upstream_ca : Option Text → Result ConfigError (Unit {0})
  check_upstream_ca none = ok tt
  check_upstream_ca (some file) = bail_if (not (file_exists file)) (upstream_ca_not_found file)

unfoldable pub check_rewrite : RewriteConfig → Result ConfigError (Unit {0})
check_rewrite rewrite = do
  bail_if (is_empty rewrite.base_domains) no_base_domain
  bail_if (not (starts_with rewrite.target_suffix (codes "."))) suffix_without_dot
  bail_if
      (any (λ domain. not (is_ascii_dns_name domain)) rewrite.base_domains
        || not (is_ascii_dns_suffix rewrite.target_suffix))
      not_dns_names

unfoldable pub check_limits : LimitsConfig → Result ConfigError (Unit {0})
check_limits limits =
    bail_if
      (limits.max_connections_per_listener == 0
        || limits.max_inflight_requests_per_connection == 0
        || limits.max_upstream_pool_entries == 0
        || limits.transaction_timeout_seconds == 0)
      zero_limit

abbrev pub is_none {ℓ} : {A : Type ℓ} → Option A → Bool
is_none none = true
is_none (some a) = false

-- `[dot, doh, doq, doh3].into_iter().any(|enabled| enabled)`
abbrev pub any_dns_enabled : ServersConfig → Bool
any_dns_enabled servers =
    servers.dot.enabled || servers.doh.enabled || servers.doq.enabled || servers.doh3.enabled

unfoldable pub check_tls : ServersConfig → TlsConfig → Result ConfigError (Unit {0})
check_tls servers tls =
    bail_if (any_dns_enabled servers && is_none tls.default && is_empty tls.certs) no_certificate

unfoldable pub check_paths : AppConfig → Result ConfigError (Unit {0})
check_paths config = do
  bail_if (not (starts_with config.upstream.doh.path (codes "/"))) (upstream_path (codes "doh"))
  bail_if (not (starts_with config.upstream.doh3.path (codes "/"))) (upstream_path (codes "doh3"))
  bail_if (not (starts_with config.servers.doh.path (codes "/"))) (listener_path (codes "doh"))
  bail_if (not (starts_with config.servers.doh3.path (codes "/"))) (listener_path (codes "doh3"))

unfoldable pub validate_structure :
    (Text → Option SocketAddr) → (Text → Bool) → AppConfig → Result ConfigError (Unit {0})
validate_structure parse_socket_addr file_exists config = do
  check_listeners parse_socket_addr config.servers
  check_default_certificate file_exists config.tls.default
  check_certificates file_exists config.tls.certs
  check_upstream_ca file_exists config.tls.upstream_ca_file
  check_rewrite config.rewrite
  check_limits config.limits
  check_tls config.servers config.tls
  check_paths config
