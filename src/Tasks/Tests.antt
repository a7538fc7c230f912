-- ===== src/Tasks/Tests.antt =====
-- A group with one task that does not end by itself, as an example.
use dns_ingress.Prelude.{◌≡◌, refl, true, some, List, [], ◌∷◌}
use dns_ingress.Tasks.{
  Supervisor, default, Event, spawned, closing, received, deadline_passed, stopped, serving, spawn,
  shutdown, step, run, spawn_command, close, took, receiving, expired,
}
use dns_ingress.Tasks.Shutdown.{Ended, Stops, shut_down, run-stopped, run-Stops}

abbrev closes : List Event
closes = spawned 7 ∷ closing 10 ∷ []

abbrev waits : Supervisor
waits = record { queue = spawn 7 ∷ shutdown 10 ∷ []; running = []; phase = serving }

abbrev over : Supervisor
over = record { queue = []; running = []; phase = stopped }

abbrev whole : List Event
whole = spawned 7 ∷ closing 10 ∷ received ∷ received ∷ deadline_passed ∷ []

closed_group : (run closes default).closed ≡ true
unfolding run step spawn_command close
closed_group = refl

waits_group : (run closes default).commands ≡ some waits
unfolding run step spawn_command close
waits_group = refl

over_group : (run whole default).commands ≡ some over
unfolding run step spawn_command close receiving took expired
over_group = refl

run-stopped_example : Ended (run whole default) over
run-stopped_example = run-stopped whole {sup = over} over_group refl

run-Stops_example : Stops (run (shut_down waits.queue) (run closes default))
run-Stops_example = run-Stops closes {sup = waits} closed_group waits_group
