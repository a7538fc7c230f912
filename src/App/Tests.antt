-- ===== src/App/Tests.antt =====
-- A start that succeeds, one that a listener refuses, and examples of the theorems.
use dns_ingress.Prelude.{◌≡◌, refl, ap, All, true, false, none, some, [], ◌∷◌, ok, err, any}
use dns_ingress.Prelude.Text.{Text, codes, split, push_head, starts_with, text_eq, decimal}
use dns_ingress.Error.{protocol}
use dns_ingress.Prelude.Assoc.{insert}
use dns_ingress.Config.{AppConfig, default_config}
use dns_ingress.Config.Names.{is_ascii_dns_name, is_ascii_dns_suffix, is_label}
use dns_ingress.Config.Validate.{
  check_listeners, claim_each, claim, standard_servers, healthcheck_server, bind_addr, same_socket,
  validate_structure, check_default_certificate, check_certificates, check_upstream_ca,
  check_rewrite, check_limits, check_tls, check_paths,
}
use dns_ingress.Tls.{Backend, read_file, some_certs, load_certificate, load_default, load_each, new}
use dns_ingress.App
use dns_ingress.App.{
  Server, healthcheck, dot, doh, doq, doh3, Report, bound, refused, dropped, App, new_app, exited,
  without, exits, spawn_each, wait, enabled_servers, World, validate_and_load_upstream_roots,
  settled, certified, validated, start,
}
use dns_ingress.App.Start.{is_failure, AllBound, start_iff}
use dns_ingress.App.Readiness.{run_ended, after, IsQuiet, after-ready_iff}

-- A file holds its own name, which is its certificate and its key.
abbrev sample_backend : Backend
sample_backend = record {
  Cert = Text;
  PrivateKey = Text;
  SigningKey = Text;
  read = λ path. ok path;
  pem_certs = λ bytes. ok (bytes ∷ []);
  first_pkcs8_key = λ bytes. some (ok bytes);
  any_supported_type = λ key. ok key;
}

abbrev sample : AppConfig
sample = record default_config {
  tls = record {
    default = some (record { cert_file = codes "cert.pem"; key_file = codes "key.pem" });
    certs = [];
    upstream_ca_file = none;
  };
}

-- Every address is its own text, and one listener ends after the test of the failure flag.
abbrev world : (Server → Report) → World
world report = record {
  parse_socket_addr = λ s. some (record { ip = s; port = 0 });
  file_exists = λ f. true;
  print = λ e. [];
  load_upstream_root_store = λ file. ok tt;
  backend = sample_backend;
  report = report;
  early = [];
  late = (dot, err (protocol [])) ∷ [];
  in_time = λ server. false;
}

abbrev all_bound : Server → Report
all_bound server = bound

abbrev doq_dropped : Server → Report
doq_dropped doq = dropped
doq_dropped server = bound

abbrev running : App
running = record {
  ready = true;
  cancelled = false;
  failed = true;
  handles = healthcheck ∷ dot ∷ doh ∷ doq ∷ [];
  task_groups = healthcheck ∷ dot ∷ doh ∷ doq ∷ [];
  running = healthcheck ∷ doh ∷ doq ∷ [];
  open_groups = healthcheck ∷ dot ∷ doh ∷ doq ∷ [];
  aborted = [];
}

start_run : start (world all_bound) sample new_app ≡ (ok tt, running)
unfolding start validated validate_and_load_upstream_roots certified settled wait spawn_each exits
    exited without App.check_certificates new load_default load_each load_certificate read_file
    some_certs insert validate_structure check_listeners claim_each claim standard_servers
    healthcheck_server bind_addr same_socket decimal text_eq check_default_certificate
    check_certificates check_upstream_ca check_rewrite check_limits check_tls check_paths
    starts_with is_ascii_dns_name is_ascii_dns_suffix is_label split push_head
start_run = refl

start_iff_example :
    (validate_and_load_upstream_roots (world all_bound) sample ≡ ok tt)
    × (App.check_certificates (world all_bound) sample ≡ ok tt)
    × AllBound (world all_bound) sample
    × (any is_failure (world all_bound).early ≡ false)
start_iff_example = (start_iff (world all_bound) sample).0 (ap (λ r. r.0) start_run)

after_run : (after (run_ended doh (ok tt) ∷ []) (record running { failed = false })).ready ≡ true
unfolding after exited
after_run = refl

after-ready_iff_example : All IsQuiet (run_ended doh (ok tt) ∷ [])
after-ready_iff_example =
    (after-ready_iff (run_ended doh (ok tt) ∷ []) (record running { failed = false }) refl refl).0
      after_run
