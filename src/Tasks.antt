-- ===== src/Tasks.antt =====
-- src/tasks.rs: a group of tasks with its supervisor, as a machine that events move. The lock on the
-- state orders the calls; a task is a number, and may end at any time; the deadline of a shutdown may
-- pass at any time after it is taken up. The group is kept by its owner until it is closed.
pub mod Good
pub mod Shutdown
mod Tests
use dns_ingress.Prelude.{
  ℕ, Bool, true, false, Option, none, some, List, [], ◌∷◌, ◌++◌, if◌then◌else◌,
}
use dns_ingress.QuicPool.{remove_one}

-- A shutdown comes with its deadline.
pub data Command : Type 0 where
  spawn : ℕ → Command
  shutdown : ℕ → Command

-- The supervisor's loop: it takes commands, waits for the tasks that are left, or has ended and
-- told the caller of the shutdown.
pub data Phase : Type 0 where
  serving : Phase
  draining : ℕ → Phase
  stopped : Phase

pub record Supervisor : Type 0 where
  pub queue : List Command
  pub running : List ℕ
  pub phase : Phase

-- `accepted` and `started` are the history of the group, in order: the tasks that were sent to the
-- supervisor, and those that it has put on the `JoinSet`.
pub record TaskGroup : Type 0 where
  pub closed : Bool
  pub commands : Option Supervisor
  pub accepted : List ℕ
  pub started : List ℕ

abbrev pub default : TaskGroup
default = record { closed = false; commands = none; accepted = []; started = [] }

abbrev pub start_supervisor : Supervisor
start_supervisor = record { queue = []; running = []; phase = serving }

abbrev pub send : Command → Supervisor → Supervisor
send command sup = record sup { queue = sup.queue ++ (command ∷ []) }

abbrev pub started_sender : Option Supervisor → Supervisor
started_sender none = start_supervisor
started_sender (some sup) = sup

unfoldable pub spawn_command : ℕ → TaskGroup → TaskGroup
spawn_command task s = if s.closed then s else record s {
  commands = some (send (spawn task) (started_sender s.commands));
  accepted = s.accepted ++ (task ∷ []);
}

abbrev pub sent_shutdown : ℕ → Option Supervisor → Option Supervisor
sent_shutdown deadline none = none
sent_shutdown deadline (some sup) = some (send (shutdown deadline) sup)

-- The part of `close_and_wait_until` up to the wait for the supervisor.
unfoldable pub close : ℕ → TaskGroup → TaskGroup
close deadline s =
    if s.closed then s else record s { closed = true; commands = sent_shutdown deadline s.commands }

-- One command of the channel is taken up.
unfoldable pub took : Supervisor → List Command → TaskGroup → TaskGroup
took sup [] s = s
took sup (spawn task ∷ queue) s = record s {
  commands = some (record sup { queue = queue; running = task ∷ sup.running });
  started = s.started ++ (task ∷ []);
}
took sup (shutdown deadline ∷ queue) s = record s {
  commands = some (record sup { queue = queue; phase = draining deadline });
}

unfoldable pub receiving : Supervisor → Phase → TaskGroup → TaskGroup
unfolding took
receiving sup serving s = took sup sup.queue s
receiving sup (draining deadline) s = s
receiving sup stopped s = s

-- A task ends and is joined.
abbrev pub finished : ℕ → Supervisor → Supervisor
finished task sup = record sup { running = remove_one task sup.running }

-- The deadline passes: every task is aborted and joined.
unfoldable pub expired : Phase → Supervisor → Supervisor
expired serving sup = sup
expired (draining deadline) sup = record sup { running = []; phase = stopped }
expired stopped sup = sup

-- No task is left.
unfoldable pub drained : Phase → List ℕ → Supervisor → Supervisor
drained (draining deadline) [] sup = record sup { phase = stopped }
drained _ _ sup = sup

pub data Event : Type 0 where
  spawned : ℕ → Event
  closing : ℕ → Event
  received : Event
  ended : ℕ → Event
  deadline_passed : Event
  none_left : Event

abbrev pub on_supervisor : (Supervisor → TaskGroup) → TaskGroup → Option Supervisor → TaskGroup
on_supervisor f s none = s
on_supervisor f s (some sup) = f sup

unfoldable pub step : Event → TaskGroup → TaskGroup
unfolding spawn_command close receiving expired drained
step (spawned task) s = spawn_command task s
step (closing deadline) s = close deadline s
step received s = on_supervisor (λ sup. receiving sup sup.phase s) s s.commands
step (ended task) s =
    on_supervisor (λ sup. record s { commands = some (finished task sup) }) s s.commands
step deadline_passed s =
    on_supervisor (λ sup. record s { commands = some (expired sup.phase sup) }) s s.commands
step none_left s =
    on_supervisor (λ sup. record s { commands = some (drained sup.phase sup.running sup) }) s
      s.commands

unfoldable pub run : List Event → TaskGroup → TaskGroup
unfolding step
run [] s = s
run (e ∷ events) s = run events (step e s)
