-- ===== src/Listener/Progress.antt =====
-- src/readers/dot.rs: a stream that waits at the semaphore is served.
use dns_ingress.Prelude.{
  ℕ, zero, suc, ◌+◌, ◌==◌, ◌≤◌, ◌≡◌, refl, ap, ◌∙◌, arith, true, false, some, List, [], ◌∷◌, ◌++◌,
  length, All,
}
use dns_ingress.Backoff.{BackoffCounter}
use dns_ingress.Listener.{
  waiting, Listener, listening, grant, take_from, returned, Event, arrived, accept_failed, granted,
  woken, ended, cancel, seen, group_closed, step, run,
}
use dns_ingress.Listener.Served.{run-Inv}

-- Only connections that end, and permits that are handed out.
abbrev pub IsTurn : Event → Type 0
IsTurn (ended connection) = Unit
IsTurn granted = Unit
IsTurn (arrived connection) = ⊥
IsTurn accept_failed = ⊥
IsTurn woken = ⊥
IsTurn cancel = ⊥
IsTurn seen = ⊥
IsTurn group_closed = ⊥

grant-started :
    (s : Listener) {c m : ℕ}
    → s.phase ≡ waiting c
    → s.permits ≡ suc m
    → s.closed ≡ false
    → (grant s.phase s.permits s.closed s).started ≡ s.started ++ (c ∷ [])
unfolding grant
grant-started s {c} {m} waits free unclosed =
    ap (λ p. (grant p s.permits s.closed s).started) waits
    ∙ ap (λ n. (grant (waiting c) n s.closed s).started) free
    ∙ ap (λ b. (grant (waiting c) (suc m) b s).started) unclosed

take_from-head : (x : ℕ) (xs : List ℕ) → take_from x (x ∷ xs) ≡ some xs
unfolding take_from
take_from-head x xs = let same : x == x ≡ true = ground arith in rw (take_from, same) refl

-- With no permit left, the first connection that is served ends first.
started_by :
    {limit : ℕ} (n : ℕ) (served : List ℕ) (s : Listener) {c : ℕ}
    → 1 ≤ limit
    → n + length served ≡ limit
    → s.permits ≡ n
    → s.serving ≡ served
    → s.phase ≡ waiting c
    → s.closed ≡ false
    → (more : List Event) × All IsTurn more × ((run more s).started ≡ s.started ++ (c ∷ []))
unfolding run step
started_by (suc n) served s some_limit count free held waits unclosed =
    (granted ∷ [], (tt, tt), grant-started s waits free unclosed)
started_by zero [] s some_limit count free held waits unclosed =
    absurd (omega (arith, some_limit, count))
started_by zero (d ∷ ds) s some_limit count free held waits unclosed =
    let after : Listener = record s { permits = suc s.permits; serving = ds } in
    let gone : returned (take_from d s.serving) s ≡ after =
      ap (λ r. returned r s) (ap (take_from d) held ∙ take_from-head d ds) in
    (
      ended d ∷ granted ∷ [],
      (tt, (tt, tt)),
      ap (λ t. (grant t.phase t.permits t.closed t).started) gone
          ∙ grant-started after waits refl unclosed,
    )

-- A stream that waits while the task group is open is the next that is served, with no other event
-- than the end of connections and the grant of a permit, whenever the limit is positive.
pub run-serves :
    (limit : ℕ) (backoff : BackoffCounter) (events : List Event) {c : ℕ}
    → 1 ≤ limit
    → (run events (listening limit backoff)).phase ≡ waiting c
    → (run events (listening limit backoff)).closed ≡ false
    → (more : List Event) × All IsTurn more
      × ((run more (run events (listening limit backoff))).started
          ≡ (run events (listening limit backoff)).started ++ (c ∷ []))
run-serves limit backoff events some_limit waits unclosed =
    let s : Listener = run events (listening limit backoff) in
    let (count, _, _) =
      run-Inv {limit = limit} events (listening limit backoff) (omega arith, tt, (λ c. refl)) in
    started_by s.permits s.serving s some_limit count refl refl waits unclosed
