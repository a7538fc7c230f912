-- ===== src/Listener.antt =====
-- src/readers/dot.rs: the accept loop of `run`, from the report that the listener is bound, as a
-- machine that events move; src/readers/doh.rs has the same loop. A connection is a number. The task
-- group takes up a connection as src/tasks.rs does: once it is closed, the future with its permit is
-- dropped.
pub mod Served
pub mod Progress
mod Tests
use dns_ingress.Prelude.{
  ℕ, zero, suc, ◌==◌, Bool, true, false, Option, none, some, List, [], ◌∷◌, ◌++◌, if◌then◌else◌,
}
use dns_ingress.Backoff.{BackoffCounter, next_delay}

-- Where the loop stands: at the `accept`, with a stream at the semaphore, in the sleep after an
-- error, or behind the loop.
pub data Phase : Type 0 where
  accepting : Phase
  waiting : ℕ → Phase
  sleeping : ℕ → Phase
  left : Phase

-- `serving` are the connections that hold a permit; `accepted` and `started` are the history, in
-- order: the streams that the listener accepted, and those whose task took a permit.
pub record Listener : Type 0 where
  pub permits : ℕ
  pub serving : List ℕ
  pub phase : Phase
  pub cancelled : Bool
  pub closed : Bool
  pub backoff : BackoffCounter
  pub accepted : List ℕ
  pub started : List ℕ

abbrev pub listening : ℕ → BackoffCounter → Listener
listening max_connections_per_listener backoff = record {
  permits = max_connections_per_listener;
  serving = [];
  phase = accepting;
  cancelled = false;
  closed = false;
  backoff = backoff;
  accepted = [];
  started = [];
}

unfoldable pub arrive : ℕ → Phase → Listener → Listener
arrive connection accepting s = record s {
  phase = waiting connection;
  accepted = s.accepted ++ (connection ∷ []);
}
arrive connection (waiting other) s = s
arrive connection (sleeping delay) s = s
arrive connection left s = s

-- `accept` yields an error.
unfoldable pub fail : Phase → Listener → Listener
fail accepting s =
    let (counter, delay) : BackoffCounter × ℕ = next_delay s.backoff 100 5000 in
    record s { backoff = counter; phase = sleeping delay }
fail (waiting connection) s = s
fail (sleeping delay) s = s
fail left s = s

-- The permit is taken and the connection given to the task group, which drops both when it is closed.
unfoldable pub grant : Phase → ℕ → Bool → Listener → Listener
grant (waiting connection) (suc n) false s = record s {
  permits = n;
  serving = connection ∷ s.serving;
  phase = accepting;
  started = s.started ++ (connection ∷ []);
}
grant (waiting connection) (suc n) true s = record s { phase = accepting }
grant (waiting connection) zero closed s = s
grant accepting permits closed s = s
grant (sleeping delay) permits closed s = s
grant left permits closed s = s

unfoldable pub wake : Phase → Listener → Listener
wake (sleeping delay) s = record s { phase = accepting }
wake accepting s = s
wake (waiting connection) s = s
wake left s = s

-- One of the two `select!` of the loop sees the token, and the group is closed behind the loop. The
-- sleep does not look at the token.
unfoldable pub leave : Phase → Bool → Listener → Listener
leave accepting true s = record s { phase = left; closed = true }
leave (waiting connection) true s = record s { phase = left; closed = true }
leave (sleeping delay) cancelled s = s
leave left cancelled s = s
leave accepting false s = s
leave (waiting connection) false s = s

abbrev pub kept : ℕ → Option (List ℕ) → Option (List ℕ)
kept x none = none
kept x (some rest) = some (x ∷ rest)

unfoldable pub take_from : ℕ → List ℕ → Option (List ℕ)
take_from x [] = none
take_from x (y ∷ ys) = let rest = take_from x ys in if x == y then some ys else kept y rest

-- The task of a connection ends, by itself or aborted, and drops its permit.
abbrev pub returned : Option (List ℕ) → Listener → Listener
returned none s = s
returned (some rest) s = record s { permits = suc s.permits; serving = rest }

pub data Event : Type 0 where
  arrived : ℕ → Event
  accept_failed : Event
  granted : Event
  woken : Event
  ended : ℕ → Event
  cancel : Event
  seen : Event
  group_closed : Event

unfoldable pub step : Event → Listener → Listener
unfolding arrive fail grant wake leave take_from
step (arrived connection) s = arrive connection s.phase s
step accept_failed s = fail s.phase s
step granted s = grant s.phase s.permits s.closed s
step woken s = wake s.phase s
step (ended connection) s = returned (take_from connection s.serving) s
step cancel s = record s { cancelled = true }
step seen s = leave s.phase s.cancelled s
step group_closed s = record s { closed = true }

unfoldable pub run : List Event → Listener → Listener
unfolding step
run [] s = s
run (event ∷ events) s = run events (step event s)
