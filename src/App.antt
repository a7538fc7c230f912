-- ===== src/App.antt =====
-- src/app.rs: the start of the listeners and their shutdown. What a listener reports on its channel,
-- and how the runs of listeners end, are the outcomes of src/readers, arguments here. The parsers,
-- the file system and the PEM readers are parameters, as in Config.Validate and Tls.
pub mod Stop
pub mod Start
pub mod Readiness
mod Tests
use dns_ingress.Prelude.{
  ℕ, Bool, true, false, not, ◌&&◌, ◌||◌, any, is_empty, ◌==◌, Option, none, some, List, [], ◌∷◌,
  ◌++◌, if◌then◌else◌, Result, ok, err, ◌>>=◌, map_err,
}
use dns_ingress.Prelude.Text.{Text, codes}
use dns_ingress.Error.{DnsProxyError, tls, protocol}
use dns_ingress.Config.{AppConfig}
use dns_ingress.Config.Validate.{SocketAddr, ConfigError, validate_structure}
use dns_ingress.Tls.{Backend, new}

pub data Server : Type 0 where
  healthcheck dot doh doq doh3 : Server

abbrev pub name : Server → Text
name healthcheck = codes "healthcheck"
name dot = codes "DoT"
name doh = codes "DoH"
name doq = codes "DoQ"
name doh3 = codes "DoH3"

-- What the receiver of a listener's channel yields.
pub data Report : Type 0 where
  bound : Report
  refused : DnsProxyError → Report
  dropped : Report

abbrev number : Server → ℕ
number healthcheck = 0
number dot = 1
number doh = 2
number doq = 3
number doh3 = 4

abbrev pub same : Server → Server → Bool
same a b = number a == number b

unfoldable pub without : Server → List Server → List Server
without server [] = []
without server (other ∷ more) =
    let rest = without server more in if same server other then rest else other ∷ rest

unfoldable pub withouts : List Server → List Server → List Server
unfolding without
withouts [] servers = servers
withouts (server ∷ more) servers = withouts more (without server servers)

-- The handles and the task groups that the application holds are those of the servers in their
-- order. Beside them stands what they are of: the tasks that run, the groups that are open, and the
-- tasks that were aborted.
pub record App : Type 0 where
  pub ready : Bool
  pub cancelled : Bool
  pub failed : Bool
  pub handles : List Server
  pub task_groups : List Server
  pub running : List Server
  pub open_groups : List Server
  pub aborted : List Server

abbrev pub new_app : App
new_app = record {
  ready = false;
  cancelled = false;
  failed = false;
  handles = [];
  task_groups = [];
  running = [];
  open_groups = [];
  aborted = [];
}

-- The task that `spawn_server` makes ends, when the run of its listener does.
unfoldable pub exited : Server → Result DnsProxyError (Unit {0}) → App → App
unfolding without
exited server (ok u) s = record s { running = without server s.running }
exited server (err e) s = record s {
  running = without server s.running;
  failed = if s.cancelled then s.failed else true;
  ready = if s.cancelled then s.ready else false;
}

unfoldable pub exits : List (Server × Result DnsProxyError (Unit {0})) → App → App
unfolding exited
exits [] s = s
exits ((server, outcome) ∷ more) s = exits more (exited server outcome s)

abbrev pub spawn_server : Server → App → App
spawn_server server s = record s {
  handles = s.handles ++ (server ∷ []);
  task_groups = s.task_groups ++ (server ∷ []);
  running = s.running ++ (server ∷ []);
  open_groups = s.open_groups ++ (server ∷ []);
}

unfoldable pub spawn_each : List Server → App → App
spawn_each [] s = s
spawn_each (server ∷ more) s = spawn_each more (spawn_server server s)

-- The groups that were held are closed and waited for until the deadline.
unfoldable pub close_each : List Server → App → App
unfolding without
close_each [] s = s
close_each (group ∷ more) s =
    close_each more (record s { open_groups = without group s.open_groups })

-- Every handle is joined; at the deadline its task is aborted first. `in_time` tells which task ends
-- before the deadline.
unfoldable pub drain : (Server → Bool) → List Server → App → App
unfolding without
drain in_time [] s = s
drain in_time (handle ∷ more) s = drain in_time more (record s {
  running = without handle s.running;
  aborted = if in_time handle then s.aborted else s.aborted ++ (handle ∷ []);
})

unfoldable pub shutdown : (Server → Bool) → App → App
unfolding close_each drain
shutdown in_time s = drain in_time s.handles (
    close_each s.task_groups
      (record s { ready = false; cancelled = true; task_groups = []; handles = [] }))

-- The wait for the reports, in the order of the servers.
unfoldable pub wait : (Server → Report) → List Server → Result DnsProxyError (Unit {0})
wait report [] = ok tt
wait report (server ∷ more) =
    let rest = wait report more in
    elim (report server) [
      | bound ↦ rest
      | refused e ↦ err e
      | dropped ↦
          err (protocol (name server ++ codes " server exited before reporting listener readiness"))
    ]

abbrev pub when : Bool → Server → List Server
when enabled server = if enabled then server ∷ [] else []

-- The servers that are spawned, in their order.
abbrev pub enabled_servers : AppConfig → List Server
enabled_servers c =
    when c.servers.healthcheck.enabled healthcheck
    ++ (when c.servers.dot.enabled dot
        ++ (when c.servers.doh.enabled doh
            ++ (when c.servers.doq.enabled doq ++ when c.servers.doh3.enabled doh3)))

abbrev pub any_listener : AppConfig → Bool
any_listener c =
    any (λ enabled. enabled)
      (c.servers.dot.enabled ∷ c.servers.doh.enabled ∷ c.servers.doq.enabled
        ∷ c.servers.doh3.enabled ∷ [])

abbrev no_certificate : AppConfig → Bool
no_certificate c =
    elim c.tls.default [ none ↦ true | some certificate ↦ false ] && is_empty c.tls.certs

-- What a start meets outside of this code: the parsers and the files, the trust store, the reports of
-- the listeners, the runs that end before and after the test of the failure flag, and the tasks that
-- end before the deadline of a shutdown.
pub record World : Type 1 where
  pub parse_socket_addr : Text → Option SocketAddr
  pub file_exists : Text → Bool
  pub print : ConfigError → Text
  pub load_upstream_root_store : Option Text → Result Text (Unit {0})
  pub backend : Backend
  pub report : Server → Report
  pub early : List (Server × Result DnsProxyError (Unit {0}))
  pub late : List (Server × Result DnsProxyError (Unit {0}))
  pub in_time : Server → Bool

module _ (w : World) (config : AppConfig) where
  -- `Config::validate_and_load_upstream_roots`, with the conversion of its error.
  unfoldable pub validate_and_load_upstream_roots : Result DnsProxyError (Unit {0})
  validate_and_load_upstream_roots = do
    _ ←
        map_err (λ e. protocol (w.print e))
          (validate_structure w.parse_socket_addr w.file_exists config)
    map_err (λ e. protocol (codes "Invalid upstream CA certificate bundle: " ++ e))
        (w.load_upstream_root_store config.tls.upstream_ca_file)

  unfoldable pub check_certificates : Result DnsProxyError (Unit {0})
  check_certificates =
      if not (any_listener config)
      then ok tt
      else if no_certificate config
      then err (tls (codes "at least one TLS certificate is required for an enabled DNS listener"))
      else new w.backend config.tls >>= λ resolver. ok tt

  -- After the listeners were spawned.
  unfoldable pub settled :
      App → Result DnsProxyError (Unit {0}) → Result DnsProxyError (Unit {0}) × App
  unfolding exits shutdown
  settled s (err e) = (err e, shutdown w.in_time s)
  settled s (ok u) =
      if s.failed
      then (err (protocol (codes "a listener exited during startup")), shutdown w.in_time s)
      else (ok tt, record (exits w.late s) { ready = true })

  unfoldable pub certified :
      App → Result DnsProxyError (Unit {0}) → Result DnsProxyError (Unit {0}) × App
  unfolding settled wait spawn_each exits
  certified s (err e) = (err e, s)
  certified s (ok u) =
      settled (exits w.early (spawn_each (enabled_servers config) s))
        (wait w.report (enabled_servers config))

  unfoldable pub validated :
      App → Result DnsProxyError (Unit {0}) → Result DnsProxyError (Unit {0}) × App
  unfolding certified check_certificates
  validated s (err e) = (err e, s)
  validated s (ok u) = certified (record s { ready = false; failed = false }) check_certificates

  unfoldable pub start : App → Result DnsProxyError (Unit {0}) × App
  unfolding validated validate_and_load_upstream_roots
  start s = validated s validate_and_load_upstream_roots
