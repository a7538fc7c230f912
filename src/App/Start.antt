-- ===== src/App/Start.antt =====
-- src/app.rs: when a start succeeds, and what it leaves behind.
use mathlib.Core.List.{append_assoc, append-nil}
use dns_ingress.Prelude.{
  ◌≡◌, ◌↔◌, refl, sym, ap, ◌∙◌, subst, arith, Bool, true, false, ◌||◌, ◌⊎◌, Bool-cases, inl, inr,
  List, [], ◌∷◌, ◌++◌, All, any, Result, ok, err, Result-cases, err-ne-ok,
}
use dns_ingress.Prelude.Text.{codes}
use dns_ingress.Error.{DnsProxyError, protocol}
use dns_ingress.Config.{AppConfig}
use dns_ingress.App.{
  Server, name, Report, bound, refused, dropped, App, new_app, exited, exits, spawn_server,
  spawn_each, wait, enabled_servers, World, validate_and_load_upstream_roots, check_certificates,
  settled, certified, validated, start, without, withouts,
}
use dns_ingress.App.Stop.{IsDown}

abbrev pub is_failure : Server × Result DnsProxyError (Unit {0}) → Bool
is_failure (server, ok u) = false
is_failure (server, err e) = true

abbrev pub servers_of : List (Server × Result DnsProxyError (Unit {0})) → List Server
servers_of [] = []
servers_of ((server, outcome) ∷ more) = server ∷ servers_of more

bound-ne-refused : {e : DnsProxyError} → ¬ (bound ≡ refused e)
bound-ne-refused h = cc

bound-ne-dropped : ¬ (bound ≡ dropped)
bound-ne-dropped h = cc

-- What runs that end leave of an application that is not shut down.
record Lives (outcomes : List (Server × Result DnsProxyError (Unit {0}))) (s t : App) : Type 0 where
  handles : t.handles ≡ s.handles
  task_groups : t.task_groups ≡ s.task_groups
  open_groups : t.open_groups ≡ s.open_groups
  cancelled : t.cancelled ≡ false
  running : t.running ≡ withouts (servers_of outcomes) s.running
  failed : t.failed ≡ (any is_failure outcomes || s.failed)

exits-Lives :
    (outcomes : List (Server × Result DnsProxyError (Unit {0}))) (s : App)
    → s.cancelled ≡ false
    → Lives outcomes s (exits outcomes s)
unfolding exits exited withouts
exits-Lives [] s h = record {
  handles = refl;
  task_groups = refl;
  open_groups = refl;
  cancelled = h;
  running = refl;
  failed = refl;
}
exits-Lives ((server, ok u) ∷ more) s h =
    let v = exits-Lives more (record s { running = without server s.running }) h in
    record {
      handles = v.handles;
      task_groups = v.task_groups;
      open_groups = v.open_groups;
      cancelled = v.cancelled;
      running = v.running;
      failed = v.failed;
    }
exits-Lives ((server, err e) ∷ more) s h =
    let failing : App = record s {
      running = without server s.running;
      failed = true;
      ready = false;
    } in
    let same : exited server (err e) s ≡ failing = rw (exited, h) refl in
    subst (λ t. Lives ((server, err e) ∷ more) s (exits more t)) (sym same)
      (let v = exits-Lives more failing h in
        record {
          handles = v.handles;
          task_groups = v.task_groups;
          open_groups = v.open_groups;
          cancelled = v.cancelled;
          running = v.running;
          failed = ground (arith, v.failed);
        })

-- Every server spawned adds its handle, its group and its task.
abbrev pub spawned : List Server → App → App
spawned servers s = record s {
  handles = s.handles ++ servers;
  task_groups = s.task_groups ++ servers;
  running = s.running ++ servers;
  open_groups = s.open_groups ++ servers;
}

abbrev regrouped : App → List Server → List Server → List Server → List Server → App
regrouped s h g r o = record s { handles = h; task_groups = g; running = r; open_groups = o }

spawn_each-App : (servers : List Server) (s : App) → spawn_each servers s ≡ spawned servers s
unfolding spawn_each
spawn_each-App [] s = λ i.
    regrouped s (sym (append-nil s.handles) i) (sym (append-nil s.task_groups) i)
      (sym (append-nil s.running) i) (sym (append-nil s.open_groups) i)
spawn_each-App (x ∷ more) s = spawn_each-App more (spawn_server x s) ∙ (λ i.
    regrouped s (append_assoc s.handles (x ∷ []) more i)
      (append_assoc s.task_groups (x ∷ []) more i) (append_assoc s.running (x ∷ []) more i)
      (append_assoc s.open_groups (x ∷ []) more i))

Report-cases :
    (r : Report) → (r ≡ bound) ⊎ (((e : DnsProxyError) × (r ≡ refused e)) ⊎ (r ≡ dropped))
Report-cases bound = inl refl
Report-cases (refused e) = inr (inl (e, refl))
Report-cases dropped = inr (inr refl)

module _ (report : Server → Report) where
  wait-bound :
      (x : Server) (more : List Server)
      → report x ≡ bound
      → wait report (x ∷ more) ≡ wait report more
  unfolding wait
  wait-bound x more h = rw (wait, h) refl

  wait-err :
      (x : Server) (more : List Server)
      → ((e : DnsProxyError) × (report x ≡ refused e)) ⊎ (report x ≡ dropped)
      → (e : DnsProxyError) × (wait report (x ∷ more) ≡ err e)
  unfolding wait
  wait-err x more (inl (e, h)) = (e, rw (wait, h) refl)
  wait-err x more (inr h) = (
    protocol (name x ++ codes " server exited before reporting listener readiness"),
    rw (wait, h) refl,
  )

  unbound :
      (x : Server)
      → ((e : DnsProxyError) × (report x ≡ refused e)) ⊎ (report x ≡ dropped)
      → ¬ (report x ≡ bound)
  unbound x (inl (e, h)) b = bound-ne-refused (sym b ∙ h)
  unbound x (inr h) b = bound-ne-dropped (sym b ∙ h)

  -- The wait ends well exactly when every listener is bound.
  pub wait_iff :
      (servers : List Server) → (wait report servers ≡ ok tt) ↔ All (λ x. report x ≡ bound) servers
  unfolding wait
  wait_iff [] = (λ h. tt, λ h. refl)
  wait_iff (x ∷ more) = elim (Report-cases (report x)) [
    | inl b ↦ (
      (λ h. (b, (wait_iff more).0 (sym (wait-bound x more b) ∙ h))),
      (λ h. wait-bound x more b ∙ (wait_iff more).1 h.1),
    )
    | inr n ↦
        ((λ h. absurd (err-ne-ok (sym (wait-err x more n).1 ∙ h))), (λ h. absurd (unbound x n h.0)))
  ]

-- The application says that it is ready and holds a handle and an open task group of every enabled
-- server; the tasks that run are those whose run has not ended.
pub record IsRunning (w : World) (config : AppConfig) (t : App) : Type 0 where
  pub ready : t.ready ≡ true
  pub cancelled : t.cancelled ≡ false
  pub handles : t.handles ≡ enabled_servers config
  pub task_groups : t.task_groups ≡ enabled_servers config
  pub open_groups : t.open_groups ≡ enabled_servers config
  pub running :
      t.running
      ≡ withouts (servers_of w.late) (withouts (servers_of w.early) (enabled_servers config))

abbrev pub Left : World → AppConfig → Result DnsProxyError (Unit {0}) × App → Type 0
Left w config (ok u, t) = IsRunning w config t
Left w config (err e, t) = IsDown t

-- What was spawned, after the early runs that ended.
record Spawned (w : World) (config : AppConfig) (s : App) : Type 0 where
  cancelled : s.cancelled ≡ false
  handles : s.handles ≡ enabled_servers config
  task_groups : s.task_groups ≡ enabled_servers config
  open_groups : s.open_groups ≡ enabled_servers config
  running : s.running ≡ withouts (servers_of w.early) (enabled_servers config)

module _ (w : World) (config : AppConfig) where
  settled_iff :
      (s : App) (r : Result DnsProxyError (Unit {0}))
      → ((settled w config s r).0 ≡ ok tt) ↔ ((r ≡ ok tt) × (s.failed ≡ false))
  unfolding settled
  settled_iff s (err e) = ((λ h. absurd (err-ne-ok h)), (λ h. absurd (err-ne-ok h.0)))
  settled_iff s (ok u) = elim (Bool-cases s.failed) [
    | inl t ↦ rw (settled, t) ((λ h. absurd (err-ne-ok h)), (λ h. absurd (ground (arith, h.1))))
    | inr f ↦ rw (settled, f) ((λ h. (refl, refl)), (λ h. refl))
  ]

  -- What must hold for a listener to serve.
  abbrev pub AllBound : Type 0
  AllBound = All (λ x. w.report x ≡ bound) (enabled_servers config)

  certified_iff :
      (s : App) (r : Result DnsProxyError (Unit {0}))
      → s.cancelled ≡ false
      → s.failed ≡ false
      → ((certified w config s r).0 ≡ ok tt)
        ↔ ((r ≡ ok tt) × AllBound × (any is_failure w.early ≡ false))
  unfolding certified
  certified_iff s (err e) c f = ((λ h. absurd (err-ne-ok h)), (λ h. absurd (err-ne-ok h.0)))
  certified_iff s (ok u) c f =
      let servers = enabled_servers config in
      let begun : App = spawn_each servers s in
      let made = spawn_each-App servers s in
      let l = exits-Lives w.early begun (ap (λ t. t.cancelled) made ∙ c) in
      let flagged : (exits w.early begun).failed ≡ any is_failure w.early =
        ground (arith, l.failed, ap (λ t. t.failed) made, f) in
      let (to, from) = settled_iff (exits w.early begun) (wait w.report servers) in
      let (all, back) = wait_iff w.report servers in
      (
        (λ h. let (waited, live) = to h in (refl, all waited, sym flagged ∙ live)),
        (λ h. from (back h.1, flagged ∙ h.2)),
      )

  -- A start of a new application succeeds exactly when the configuration and the trust store are
  -- valid, the certificates resolve if a DNS listener is enabled, every enabled listener reports
  -- that it is bound, and no run of a listener had ended with an error by then.
  pub start_iff : ((start w config new_app).0 ≡ ok tt) ↔ (
      (validate_and_load_upstream_roots w config ≡ ok tt)
      × (check_certificates w config ≡ ok tt)
      × AllBound
      × (any is_failure w.early ≡ false))
  unfolding start validated
  start_iff = elim (Result-cases (validate_and_load_upstream_roots w config)) [
    | inr (e, bad) ↦ (
      (λ h. absurd (err-ne-ok (sym (ap (λ r. (validated w config new_app r).0) bad) ∙ h))),
      (λ h. absurd (err-ne-ok (sym bad ∙ h.0))),
    )
    | inl (u, good) ↦
        let (to, from) =
          certified_iff (record new_app { ready = false; failed = false })
            (check_certificates w config) refl refl in
        let run = ap (λ r. (validated w config new_app r).0) good in
        (
          (λ h. let (a, b, c) = to (sym run ∙ h) in (good, a, b, c)),
          (λ h. run ∙ from (h.1, h.2, h.3)),
        )
  ]
