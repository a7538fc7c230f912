-- ===== src/Listener/Served.antt =====
-- src/readers/dot.rs: the limit of an accept loop, its delays, and the order it serves in.
use mathlib.Core.List.{append-nil}
use dns_ingress.Prelude.{
  ℕ, zero, suc, ◌+◌, ◌-◌, ◌==◌, ◌≤◌, ◌≡◌, refl, sym, ap, ◌∙◌, arith, Bool, true, false, Bool-cases,
  inl, inr, Option, none, some, List, [], ◌∷◌, ◌++◌, length,
}
use dns_ingress.Backoff.{BackoffCounter, next_delay, exponential_backoff}
use dns_ingress.Backoff.Delays.{exponential_backoff_bounds}
use dns_ingress.Listener.{
  Phase, accepting, waiting, sleeping, left, Listener, listening, arrive, fail, grant, wake, leave,
  kept, take_from, returned, Event, arrived, accept_failed, granted, woken, ended, cancel, seen,
  group_closed, step, run,
}

-- A sleep is as long as the backoff allows.
abbrev pub IsBounded : Phase → Type 0
IsBounded accepting = Unit
IsBounded (waiting connection) = Unit
IsBounded (sleeping delay) = (100 ≤ delay) × (delay ≤ 5000)
IsBounded left = Unit

-- The stream that waits for a permit.
abbrev pub pending : Phase → List ℕ
pending accepting = []
pending (waiting connection) = connection ∷ []
pending (sleeping delay) = []
pending left = []

-- What holds between events of a loop with `limit` permits.
abbrev pub Inv : ℕ → Listener → Type 0
Inv limit s =
    (s.permits + length s.serving ≡ limit)
    × IsBounded s.phase
    × ((s.closed ≡ false) → s.accepted ≡ s.started ++ pending s.phase)

delay-IsBounded : (counter : BackoffCounter) → IsBounded (sleeping (next_delay counter 100 5000).1)
unfolding next_delay exponential_backoff
delay-IsBounded counter =
    let (grows, capped, _) = exponential_backoff_bounds 0 counter.counter 100 5000 (omega arith) in
    (grows, capped)

-- One connection less is left.
abbrev pub Took : List ℕ → Option (List ℕ) → Type 0
Took xs none = Unit
Took xs (some rest) = length xs ≡ suc (length rest)

kept-Took : (y : ℕ) (ys : List ℕ) (r : Option (List ℕ)) → Took ys r → Took (y ∷ ys) (kept y r)
kept-Took y ys none h = tt
kept-Took y ys (some rest) h = ap suc h

take_from-Took : (x : ℕ) (xs : List ℕ) → Took xs (take_from x xs)
unfolding take_from
take_from-Took x [] = tt
take_from-Took x (y ∷ ys) = elim (Bool-cases (x == y)) [
  | inl t ↦ rw (take_from, t) refl
  | inr f ↦ rw (take_from, f) (kept-Took y ys (take_from x ys) (take_from-Took x ys))
]

returned-Inv :
    {limit : ℕ} (s : Listener) (r : Option (List ℕ))
    → Took s.serving r
    → Inv limit s
    → Inv limit (returned r s)
returned-Inv s none t i = i
returned-Inv s (some rest) t (count, delay, order) = (omega (arith, count, t), delay, order)

arrive-Inv :
    {limit : ℕ} (connection : ℕ) (p : Phase) (s : Listener)
    → s.phase ≡ p
    → Inv limit s
    → Inv limit (arrive connection p s)
unfolding arrive
arrive-Inv connection accepting s h (count, delay, order) = (
  count,
  tt,
  (λ c.
      let before : s.accepted ≡ s.started ++ [] = order c ∙ ap (λ q. s.started ++ pending q) h in
      ap (λ l. l ++ (connection ∷ [])) (before ∙ append-nil s.started)),
)
arrive-Inv connection (waiting other) s h i = i
arrive-Inv connection (sleeping delay) s h i = i
arrive-Inv connection left s h i = i

fail-Inv : {limit : ℕ} (p : Phase) (s : Listener) → s.phase ≡ p → Inv limit s → Inv limit (fail p s)
unfolding fail
fail-Inv accepting s h (count, delay, order) =
    (count, delay-IsBounded s.backoff, (λ c. order c ∙ ap (λ q. s.started ++ pending q) h))
fail-Inv (waiting connection) s h i = i
fail-Inv (sleeping delay) s h i = i
fail-Inv left s h i = i

grant-Inv :
    {limit : ℕ} (p : Phase) (n : ℕ) (b : Bool) (s : Listener)
    → s.phase ≡ p
    → s.permits ≡ n
    → s.closed ≡ b
    → Inv limit s
    → Inv limit (grant p n b s)
unfolding grant
grant-Inv (waiting connection) (suc n) false s h free unclosed (count, delay, order) = (
  omega (arith, count, free),
  tt,
  (λ c.
      order c
      ∙ ap (λ q. s.started ++ pending q) h
      ∙ sym (append-nil (s.started ++ (connection ∷ [])))),
)
grant-Inv (waiting connection) (suc n) true s h free shut (count, delay, order) =
    (count, tt, (λ c. absurd (ground (arith, c, shut))))
grant-Inv (waiting connection) zero b s h free shut i = i
grant-Inv accepting n b s h free shut i = i
grant-Inv (sleeping delay) n b s h free shut i = i
grant-Inv left n b s h free shut i = i

wake-Inv : {limit : ℕ} (p : Phase) (s : Listener) → s.phase ≡ p → Inv limit s → Inv limit (wake p s)
unfolding wake
wake-Inv (sleeping d) s h (count, delay, order) =
    (count, tt, (λ c. order c ∙ ap (λ q. s.started ++ pending q) h))
wake-Inv accepting s h i = i
wake-Inv (waiting connection) s h i = i
wake-Inv left s h i = i

leave-Inv :
    {limit : ℕ} (p : Phase) (b : Bool) (s : Listener) → Inv limit s → Inv limit (leave p b s)
unfolding leave
leave-Inv accepting true s (count, delay, order) = (count, tt, (λ c. absurd (ground (arith, c))))
leave-Inv (waiting connection) true s (count, delay, order) =
    (count, tt, (λ c. absurd (ground (arith, c))))
leave-Inv (sleeping d) b s i = i
leave-Inv left b s i = i
leave-Inv accepting false s i = i
leave-Inv (waiting connection) false s i = i

step-Inv : {limit : ℕ} (event : Event) (s : Listener) → Inv limit s → Inv limit (step event s)
unfolding step
step-Inv (arrived connection) s i = arrive-Inv connection s.phase s refl i
step-Inv accept_failed s i = fail-Inv s.phase s refl i
step-Inv granted s i = grant-Inv s.phase s.permits s.closed s refl refl refl i
step-Inv woken s i = wake-Inv s.phase s refl i
step-Inv (ended connection) s i =
    returned-Inv s (take_from connection s.serving) (take_from-Took connection s.serving) i
step-Inv cancel s i = i
step-Inv seen s i = leave-Inv s.phase s.cancelled s i
step-Inv group_closed s (count, delay, order) = (count, delay, (λ c. absurd (ground (arith, c))))

pub run-Inv :
    {limit : ℕ} (events : List Event) (s : Listener) → Inv limit s → Inv limit (run events s)
unfolding run
run-Inv [] s i = i
run-Inv (event ∷ events) s i = run-Inv events (step event s) (step-Inv event s i)

-- Whatever happens to a listener, it serves at most as many connections as its limit, the free
-- permits are those that no connection holds, and a sleep after an error lasts from 100 to 5000
-- milliseconds.
pub run-IsBounded :
    (limit : ℕ) (backoff : BackoffCounter) (events : List Event)
    → (length (run events (listening limit backoff)).serving ≤ limit)
      × ((run events (listening limit backoff)).permits
          ≡ limit - length (run events (listening limit backoff)).serving)
      × IsBounded (run events (listening limit backoff)).phase
run-IsBounded limit backoff events =
    let (count, delay, _) =
      run-Inv {limit = limit} events (listening limit backoff) (omega arith, tt, (λ c. refl)) in
    (omega (arith, count), omega (arith, count), delay)

-- As long as the task group is open, the connections are served in the order in which they were
-- accepted, none is left out, and at most the last one still waits for a permit.
pub run-in_order :
    (limit : ℕ) (backoff : BackoffCounter) (events : List Event)
    → (run events (listening limit backoff)).closed ≡ false
    → (run events (listening limit backoff)).accepted
      ≡ (run events (listening limit backoff)).started
        ++ pending (run events (listening limit backoff)).phase
run-in_order limit backoff events unclosed =
    (run-Inv {limit = limit} events (listening limit backoff) (omega arith, tt, (λ c. refl))).2
      unclosed
