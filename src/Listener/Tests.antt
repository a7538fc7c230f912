-- ===== src/Listener/Tests.antt =====
-- A listener with one permit, and examples of the theorems on it.
use dns_ingress.Prelude.{◌-◌, ◌≤◌, ◌≡◌, refl, arith, false, List, [], ◌∷◌, ◌++◌, length, All}
use dns_ingress.Backoff.{BackoffCounter, next_delay, exponential_backoff}
use dns_ingress.Listener.{
  waiting, listening, arrive, fail, grant, wake, Event, arrived, accept_failed, granted, woken,
  step, run,
}
use dns_ingress.Listener.Served.{IsBounded, pending, run-IsBounded, run-in_order}
use dns_ingress.Listener.Progress.{IsTurn, run-serves}

abbrev counter : BackoffCounter
counter = record { counter = 3 }

-- The second connection waits while the first one is served.
abbrev busy : List Event
busy = accept_failed ∷ woken ∷ arrived 1 ∷ granted ∷ arrived 2 ∷ granted ∷ []

waits_run : (run busy (listening 1 counter)).phase ≡ waiting 2
unfolding run step arrive fail grant wake next_delay exponential_backoff
waits_run = refl

serving_run : (run busy (listening 1 counter)).serving ≡ 1 ∷ []
unfolding run step arrive fail grant wake next_delay exponential_backoff
serving_run = refl

unclosed_run : (run busy (listening 1 counter)).closed ≡ false
unfolding run step arrive fail grant wake next_delay exponential_backoff
unclosed_run = refl

run-IsBounded_example :
    (length (run busy (listening 1 counter)).serving ≤ 1)
    × ((run busy (listening 1 counter)).permits
        ≡ 1 - length (run busy (listening 1 counter)).serving)
    × IsBounded (run busy (listening 1 counter)).phase
run-IsBounded_example = run-IsBounded 1 counter busy

run-in_order_example :
    (run busy (listening 1 counter)).accepted
    ≡ (run busy (listening 1 counter)).started ++ pending (run busy (listening 1 counter)).phase
run-in_order_example = run-in_order 1 counter busy unclosed_run

run-serves_example :
    (more : List Event) × All IsTurn more
    × ((run more (run busy (listening 1 counter))).started
        ≡ (run busy (listening 1 counter)).started ++ (2 ∷ []))
run-serves_example = run-serves 1 counter busy (omega arith) waits_run unclosed_run
