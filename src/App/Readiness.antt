-- ===== src/App/Readiness.antt =====
-- src/app.rs: the readiness flag once the listeners are running.
use dns_ingress.Prelude.{◌≡◌, ◌↔◌, arith, Bool, true, false, List, [], ◌∷◌, All, Result, ok, err}
use dns_ingress.Error.{DnsProxyError}
use dns_ingress.App.{Server, App, exited, shutdown}
use dns_ingress.App.Stop.{shutdown-ready}

-- What happens to a running application: the run of a listener ends, or it is shut down.
pub data Event : Type 0 where
  run_ended : Server → Result DnsProxyError (Unit {0}) → Event
  shut_down : (Server → Bool) → Event

unfoldable pub after : List Event → App → App
unfolding exited
after [] s = s
after (run_ended server outcome ∷ more) s = after more (exited server outcome s)
after (shut_down in_time ∷ more) s = after more (shutdown in_time s)

abbrev pub IsQuiet : Event → Type 0
IsQuiet (run_ended server (ok u)) = Unit
IsQuiet (run_ended server (err e)) = ⊥
IsQuiet (shut_down in_time) = ⊥

-- A flag that is down stays down.
after-unready : (events : List Event) (s : App) → s.ready ≡ false → (after events s).ready ≡ false
unfolding after exited
after-unready [] s h = h
after-unready (run_ended server (ok u) ∷ more) s h = after-unready more (exited server (ok u) s) h
after-unready (run_ended server (err e) ∷ more) s h =
    after-unready more (exited server (err e) s) (ground (arith, h))
after-unready (shut_down in_time ∷ more) s h =
    after-unready more (shutdown in_time s) (shutdown-ready in_time s)

-- A running application says that it is ready exactly as long as no run of a listener has ended with
-- an error and no shutdown has begun; a run that ends without an error leaves it ready.
pub after-ready_iff :
    (events : List Event) (s : App)
    → s.ready ≡ true
    → s.cancelled ≡ false
    → ((after events s).ready ≡ true) ↔ All IsQuiet events
unfolding after exited
after-ready_iff [] s r c = (λ h. tt, λ h. r)
after-ready_iff (run_ended server (ok u) ∷ more) s r c =
    let (to, from) = after-ready_iff more (exited server (ok u) s) r c in
    (λ h. (tt, to h), λ h. from h.1)
after-ready_iff (run_ended server (err e) ∷ more) s r c =
    let down : (after more (exited server (err e) s)).ready ≡ false =
      after-unready more (exited server (err e) s) (ground (arith, c)) in
    (λ h. absurd (ground (arith, down, h)), λ h. absurd h.0)
after-ready_iff (shut_down in_time ∷ more) s r c =
    let down : (after more (shutdown in_time s)).ready ≡ false =
      after-unready more (shutdown in_time s) (shutdown-ready in_time s) in
    (λ h. absurd (ground (arith, down, h)), λ h. absurd h.0)
