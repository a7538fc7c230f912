-- ===== src/Config/Validate/Accepted.antt =====
-- `validate_structure` accepts exactly the configurations of a description.
use dns_ingress.Prelude.{
  ◌≡◌, refl, ◌≢◌, ◌<◌, ◌↔◌, ◌⊎◌, inl, inr, true, false, Bool, not, ◌&&◌, Option, none, some, List,
  [], ◌∷◌, arith, any, All, is_empty, ok, >>_iff,
}
use dns_ingress.Prelude.Text.{Text, codes, starts_with}
use dns_ingress.Config.{
  AppConfig, CertificateConfig, RewriteConfig, LimitsConfig, TlsConfig, ServersConfig,
}
use dns_ingress.Config.Names.{is_ascii_dns_name, is_ascii_dns_suffix}
use dns_ingress.Config.Validate.{
  SocketAddr, Socket, ConfigError, bail_if, check_listeners, check_default_certificate,
  check_certificates, check_upstream_ca, check_rewrite, check_limits, check_tls, check_paths,
  any_dns_enabled, validate_structure, is_none,
}
use dns_ingress.Config.Validate.Listeners.{Sockets, candidates, Distinct, onto, check_listeners_iff}

abbrev pub Slash : Text → Type 0
Slash path = starts_with path (codes "/") ≡ true

module _ (parse_socket_addr : Text → Option SocketAddr) (file_exists : Text → Bool) where
  abbrev pub FilesExist : CertificateConfig → Type 0
  FilesExist c = (file_exists c.cert_file ≡ true) × (file_exists c.key_file ≡ true)

  abbrev pub OfOption {ℓ} : {A : Type ℓ} → (A → Type 0) → Option A → Type 0
  OfOption P none = Unit {0}
  OfOption P (some a) = P a

  -- What an accepted configuration promises.
  pub record IsAccepted (c : AppConfig) : Type 0 where
    pub sockets : List Socket
    pub listeners : Sockets parse_socket_addr (candidates parse_socket_addr c.servers) sockets
    pub distinct : Distinct (onto sockets [])
    pub default_files : OfOption FilesExist c.tls.default
    pub files : All (λ (e : Text × CertificateConfig). FilesExist e.1) c.tls.certs
    pub upstream_ca : OfOption (λ f. file_exists f ≡ true) c.tls.upstream_ca_file
    pub some_domain : c.rewrite.base_domains ≢ []
    pub domains : All (λ d. is_ascii_dns_name d ≡ true) c.rewrite.base_domains
    pub suffix : is_ascii_dns_suffix c.rewrite.target_suffix ≡ true
    pub connections : 0 < c.limits.max_connections_per_listener
    pub inflight : 0 < c.limits.max_inflight_requests_per_connection
    pub entries : 0 < c.limits.max_upstream_pool_entries
    pub deadline : 0 < c.limits.transaction_timeout_seconds
    pub certificate :
        (any_dns_enabled c.servers ≡ false) ⊎ ((c.tls.default ≢ none) ⊎ (c.tls.certs ≢ []))
    pub upstream_paths : Slash c.upstream.doh.path × Slash c.upstream.doh3.path
    pub listener_paths : Slash c.servers.doh.path × Slash c.servers.doh3.path

  default_certificate_iff :
      (o : Option CertificateConfig)
      → (check_default_certificate file_exists o ≡ ok tt) ↔ OfOption FilesExist o
  unfolding check_default_certificate
  default_certificate_iff none = (λ h. tt, λ h. refl)
  default_certificate_iff (some c) = ground arith

  certificates_iff :
      (cs : List (Text × CertificateConfig))
      → (check_certificates file_exists cs ≡ ok tt)
        ↔ All (λ (e : Text × CertificateConfig). FilesExist e.1) cs
  unfolding check_certificates
  certificates_iff [] = (λ h. tt, λ h. refl)
  certificates_iff ((domain, c) ∷ more) = ground (arith, certificates_iff more)

  upstream_ca_iff :
      (o : Option Text)
      → (check_upstream_ca file_exists o ≡ ok tt) ↔ OfOption (λ f. file_exists f ≡ true) o
  unfolding check_upstream_ca
  upstream_ca_iff none = (λ h. tt, λ h. refl)
  upstream_ca_iff (some f) = ground arith

-- The three tests on the rewriting, one inside the other.
any-not_iff :
    (ds : List Text)
    → (any (λ d. not (is_ascii_dns_name d)) ds ≡ false) ↔ All (λ d. is_ascii_dns_name d ≡ true) ds
any-not_iff [] = (λ h. tt, λ h. refl)
any-not_iff (d ∷ ds) = ground (arith, any-not_iff ds)

suffix-dot :
    (suffix : Text) → is_ascii_dns_suffix suffix ≡ true → starts_with suffix (codes ".") ≡ true
unfolding is_ascii_dns_suffix
suffix-dot [] h = cc
suffix-dot (c ∷ s) h = ground arith

rewrite_parts :
    (r : RewriteConfig)
    → (check_rewrite r ≡ ok tt) ↔ (
        (r.base_domains ≢ [])
        × All (λ d. is_ascii_dns_name d ≡ true) r.base_domains
        × (is_ascii_dns_suffix r.target_suffix ≡ true))
unfolding check_rewrite
rewrite_parts r = ground (arith, any-not_iff r.base_domains, suffix-dot r.target_suffix)

limits_iff :
    (l : LimitsConfig)
    → (check_limits l ≡ ok tt) ↔ (
        (0 < l.max_connections_per_listener)
        × (0 < l.max_inflight_requests_per_connection)
        × (0 < l.max_upstream_pool_entries)
        × (0 < l.transaction_timeout_seconds))
unfolding check_limits
limits_iff l = ground arith

tls_cases :
    (enabled : Bool) (o : Option CertificateConfig) (cs : List (Text × CertificateConfig))
    → (bail_if (enabled && is_none o && is_empty cs) ConfigError.no_certificate ≡ ok tt)
      ↔ ((enabled ≡ false) ⊎ ((o ≢ none) ⊎ (cs ≢ [])))
tls_cases false o cs = (λ h. inl refl, λ h. refl)
tls_cases true (some c) cs = (λ h. inr (inl (λ e. cc)), λ h. refl)
tls_cases true none (c ∷ cs) = (λ h. inr (inr (λ e. cc)), λ h. refl)
tls_cases true none [] = ground arith

tls_iff :
    (s : ServersConfig) (t : TlsConfig)
    → (check_tls s t ≡ ok tt)
      ↔ ((any_dns_enabled s ≡ false) ⊎ ((t.default ≢ none) ⊎ (t.certs ≢ [])))
unfolding check_tls
tls_iff s t = tls_cases (any_dns_enabled s) t.default t.certs

paths_iff :
    (c : AppConfig)
    → (check_paths c ≡ ok tt) ↔ (
        (Slash c.upstream.doh.path × Slash c.upstream.doh3.path)
        × (Slash c.servers.doh.path × Slash c.servers.doh3.path))
unfolding check_paths
paths_iff c = ground arith

module _ (parse_socket_addr : Text → Option SocketAddr) (file_exists : Text → Bool) where
  validate_structure-IsAccepted :
      (c : AppConfig)
      → validate_structure parse_socket_addr file_exists c ≡ ok tt
      → IsAccepted parse_socket_addr file_exists c
  unfolding validate_structure
  validate_structure-IsAccepted c h =
      let (a, h₁) = (>>_iff (check_listeners parse_socket_addr c.servers) _).0 h in
      let (b, h₂) = (>>_iff (check_default_certificate file_exists c.tls.default) _).0 h₁ in
      let (d, h₃) = (>>_iff (check_certificates file_exists c.tls.certs) _).0 h₂ in
      let (e, h₄) = (>>_iff (check_upstream_ca file_exists c.tls.upstream_ca_file) _).0 h₃ in
      let (f, h₅) = (>>_iff (check_rewrite c.rewrite) _).0 h₄ in
      let (g, h₆) = (>>_iff (check_limits c.limits) _).0 h₅ in
      let (t, p) = (>>_iff (check_tls c.servers c.tls) _).0 h₆ in
      let (sockets, listeners, distinct) = (check_listeners_iff parse_socket_addr c.servers).0 a in
      let (some_domain, domains, suffix) = (rewrite_parts c.rewrite).0 f in
      let (connections, inflight, entries, deadline) = (limits_iff c.limits).0 g in
      let (upstream_paths, listener_paths) = (paths_iff c).0 p in
      record {
        sockets = sockets;
        listeners = listeners;
        distinct = distinct;
        default_files = (default_certificate_iff parse_socket_addr file_exists c.tls.default).0 b;
        files = (certificates_iff parse_socket_addr file_exists c.tls.certs).0 d;
        upstream_ca = (upstream_ca_iff parse_socket_addr file_exists c.tls.upstream_ca_file).0 e;
        some_domain = some_domain;
        domains = domains;
        suffix = suffix;
        connections = connections;
        inflight = inflight;
        entries = entries;
        deadline = deadline;
        certificate = (tls_iff c.servers c.tls).0 t;
        upstream_paths = upstream_paths;
        listener_paths = listener_paths;
      }

  IsAccepted-validate_structure :
      (c : AppConfig)
      → IsAccepted parse_socket_addr file_exists c
      → validate_structure parse_socket_addr file_exists c ≡ ok tt
  unfolding validate_structure
  IsAccepted-validate_structure c v =
      let a =
        (check_listeners_iff parse_socket_addr c.servers).1 (v.sockets, v.listeners, v.distinct) in
      let b =
        (default_certificate_iff parse_socket_addr file_exists c.tls.default).1 v.default_files in
      let d = (certificates_iff parse_socket_addr file_exists c.tls.certs).1 v.files in
      let e =
        (upstream_ca_iff parse_socket_addr file_exists c.tls.upstream_ca_file).1 v.upstream_ca in
      let f = (rewrite_parts c.rewrite).1 (v.some_domain, v.domains, v.suffix) in
      let g = (limits_iff c.limits).1 (v.connections, v.inflight, v.entries, v.deadline) in
      let t = (tls_iff c.servers c.tls).1 v.certificate in
      let p = (paths_iff c).1 (v.upstream_paths, v.listener_paths) in rw (a, b, d, e, f, g, t, p)

  -- A configuration passes exactly when its enabled listeners ask for sockets that parse and differ,
  -- its files exist, its rewriting is by DNS names, its limits are positive, a certificate is there
  -- for any enabled DNS listener, and its four HTTP paths start with a slash.
  pub validate_structure_iff :
      (c : AppConfig)
      → (validate_structure parse_socket_addr file_exists c ≡ ok tt)
        ↔ IsAccepted parse_socket_addr file_exists c
  validate_structure_iff c = (validate_structure-IsAccepted c, IsAccepted-validate_structure c)
