-- ===== src/Tasks/Good.antt =====
-- src/tasks.rs: what holds of a group at any moment.
use mathlib.Core.List.{append_assoc}
use dns_ingress.Prelude.{
  ℕ, ◌≡◌, refl, sym, ap, ap₂, ◌∙◌, Bool, true, false, Option, none, some, List, [], ◌∷◌, ◌++◌,
}
use dns_ingress.QuicPool.{remove_one}
use dns_ingress.Tasks.{
  Command, spawn, shutdown, Phase, serving, draining, stopped, Supervisor, TaskGroup, default,
  spawn_command, close, took, receiving, expired, drained, Event, spawned, closing, received, ended,
  deadline_passed, none_left, step, run,
}

-- The tasks that wait in the channel.
abbrev pub waiting : List Command → List ℕ
waiting [] = []
waiting (spawn task ∷ queue) = task ∷ waiting queue
waiting (shutdown deadline ∷ queue) = waiting queue

abbrev pub OnlySpawns : List Command → Type 0
OnlySpawns [] = Unit
OnlySpawns (spawn task ∷ queue) = OnlySpawns queue
OnlySpawns (shutdown deadline ∷ queue) = ⊥

-- The shutdown is the last command, and the only one.
abbrev pub EndsInShutdown : List Command → Type 0
EndsInShutdown [] = ⊥
EndsInShutdown (spawn task ∷ queue) = EndsInShutdown queue
EndsInShutdown (shutdown deadline ∷ queue) = queue ≡ []

-- What the channel holds, by whether the group is closed and by the supervisor's phase.
abbrev pub Shape : Bool → Phase → List Command → Type 0
Shape false serving queue = OnlySpawns queue
Shape false (draining deadline) queue = ⊥
Shape false stopped queue = ⊥
Shape true serving queue = EndsInShutdown queue
Shape true (draining deadline) queue = queue ≡ []
Shape true stopped queue = queue ≡ []

abbrev pub Idle : Phase → List ℕ → Type 0
Idle stopped running = running ≡ []
Idle _ running = Unit

abbrev pub Inv : TaskGroup → Option Supervisor → Type 0
Inv s none = (s.accepted ≡ []) × (s.started ≡ [])
Inv s (some sup) =
    (s.accepted ≡ s.started ++ waiting sup.queue)
    × Shape s.closed sup.phase sup.queue
    × Idle sup.phase sup.running

waiting-send :
    (queue : List Command) (task : ℕ)
    → waiting (queue ++ (spawn task ∷ [])) ≡ waiting queue ++ (task ∷ [])
waiting-send [] task = refl
waiting-send (spawn t ∷ queue) task = ap (◌∷◌ t) (waiting-send queue task)
waiting-send (shutdown d ∷ queue) task = waiting-send queue task

waiting-shutdown :
    (queue : List Command) (d : ℕ) → waiting (queue ++ (shutdown d ∷ [])) ≡ waiting queue
waiting-shutdown [] d = refl
waiting-shutdown (spawn t ∷ queue) d = ap (◌∷◌ t) (waiting-shutdown queue d)
waiting-shutdown (shutdown x ∷ queue) d = waiting-shutdown queue d

OnlySpawns-send :
    (queue : List Command) (task : ℕ) → OnlySpawns queue → OnlySpawns (queue ++ (spawn task ∷ []))
OnlySpawns-send [] task o = tt
OnlySpawns-send (spawn t ∷ queue) task o = OnlySpawns-send queue task o
OnlySpawns-send (shutdown d ∷ queue) task o = absurd o

OnlySpawns-close :
    (queue : List Command) (d : ℕ) → OnlySpawns queue → EndsInShutdown (queue ++ (shutdown d ∷ []))
OnlySpawns-close [] d o = refl
OnlySpawns-close (spawn t ∷ queue) d o = OnlySpawns-close queue d o
OnlySpawns-close (shutdown x ∷ queue) d o = absurd o

abbrev pub supervisor : List Command → List ℕ → Phase → Supervisor
supervisor queue running phase = record { queue = queue; running = running; phase = phase }

abbrev pub group : Bool → Option Supervisor → List ℕ → List ℕ → TaskGroup
group is_closed commands accepted started = record {
  closed = is_closed;
  commands = commands;
  accepted = accepted;
  started = started;
}

abbrev pub Good : TaskGroup → Type 0
Good s = Inv s s.commands

spawn-Good :
    (c : Bool) (o : Option Supervisor) (a st : List ℕ) (task : ℕ)
    → Good (group c o a st)
    → Good (spawn_command task (group c o a st))
unfolding spawn_command
spawn-Good true o a st task g = g
spawn-Good false none a st task (x, y) = (ap₂ (λ p q. p ++ q) (x ∙ sym y) refl, tt, tt)
spawn-Good false (some sup) a st task (accepts, shape, idle) =
    serve sup.queue sup.phase accepts shape
  where
    serve :
        (q : List Command) (p : Phase)
        → a ≡ st ++ waiting q
        → Shape false p q
        → (a ++ (task ∷ []) ≡ st ++ waiting (q ++ (spawn task ∷ [])))
          × Shape false p (q ++ (spawn task ∷ []))
          × Idle p sup.running
    serve q serving h sh = (
      ap (λ b. b ++ (task ∷ [])) h
          ∙ (append_assoc st (waiting q) (task ∷ [])
              ∙ ap (λ b. st ++ b) (sym (waiting-send q task))),
      OnlySpawns-send q task sh,
      tt,
    )
    serve q (draining d) h sh = absurd sh
    serve q stopped h sh = absurd sh

close-Good :
    (c : Bool) (o : Option Supervisor) (a st : List ℕ) (d : ℕ)
    → Good (group c o a st)
    → Good (close d (group c o a st))
unfolding close
close-Good true o a st d g = g
close-Good false none a st d g = g
close-Good false (some sup) a st d (accepts, shape, idle) = serve sup.queue sup.phase accepts shape
  where
    serve :
        (q : List Command) (p : Phase)
        → a ≡ st ++ waiting q
        → Shape false p q
        → (a ≡ st ++ waiting (q ++ (shutdown d ∷ [])))
          × Shape true p (q ++ (shutdown d ∷ []))
          × Idle p sup.running
    serve q serving h sh =
        (h ∙ ap (λ b. st ++ b) (sym (waiting-shutdown q d)), OnlySpawns-close q d sh, tt)
    serve q (draining x) h sh = absurd sh
    serve q stopped h sh = absurd sh

receive-Good :
    (c : Bool) (q : List Command) (r : List ℕ) (p : Phase) (a st : List ℕ)
    → Good (group c (some (supervisor q r p)) a st)
    → Good (receiving (supervisor q r p) p (group c (some (supervisor q r p)) a st))
unfolding receiving took
receive-Good c q r (draining d) a st g = g
receive-Good c q r stopped a st g = g
receive-Good c [] r serving a st g = g
receive-Good true (spawn t ∷ q) r serving a st (h, sh, i) =
    (h ∙ sym (append_assoc st (t ∷ []) (waiting q)), sh, tt)
receive-Good false (spawn t ∷ q) r serving a st (h, sh, i) =
    (h ∙ sym (append_assoc st (t ∷ []) (waiting q)), sh, tt)
receive-Good true (shutdown d ∷ q) r serving a st (h, sh, i) = (h, sh, tt)
receive-Good false (shutdown d ∷ q) r serving a st (h, sh, i) = absurd sh

finish-Idle : (p : Phase) (r : List ℕ) (t : ℕ) → Idle p r → Idle p (remove_one t r)
unfolding remove_one
finish-Idle serving r t i = tt
finish-Idle (draining d) r t i = tt
finish-Idle stopped r t i = ap (remove_one t) i

expire-Good :
    (c : Bool) (q : List Command) (r : List ℕ) (p : Phase) (a st : List ℕ)
    → Good (group c (some (supervisor q r p)) a st)
    → Good (group c (some (expired p (supervisor q r p))) a st)
unfolding expired
expire-Good c q r serving a st g = g
expire-Good true q r (draining d) a st (h, sh, i) = (h, sh, refl)
expire-Good false q r (draining d) a st (h, sh, i) = absurd sh
expire-Good c q r stopped a st g = g

drain-Good :
    (c : Bool) (q : List Command) (r : List ℕ) (p : Phase) (a st : List ℕ)
    → Good (group c (some (supervisor q r p)) a st)
    → Good (group c (some (drained p r (supervisor q r p))) a st)
unfolding drained
drain-Good c q r serving a st g = g
drain-Good true q [] (draining d) a st (h, sh, i) = (h, sh, refl)
drain-Good false q [] (draining d) a st (h, sh, i) = absurd sh
drain-Good c q (t ∷ r) (draining d) a st g = g
drain-Good c q r stopped a st g = g

-- The events that move the supervisor.
supervised-Good :
    (e : Event) (c : Bool) (o : Option Supervisor) (a st : List ℕ)
    → Good (group c o a st)
    → Good (step e (group c o a st))
unfolding step
supervised-Good (spawned t) c o a st g = spawn-Good c o a st t g
supervised-Good (closing d) c o a st g = close-Good c o a st d g
supervised-Good received c none a st g = g
supervised-Good (ended t) c none a st g = g
supervised-Good deadline_passed c none a st g = g
supervised-Good none_left c none a st g = g
supervised-Good received c (some sup) a st g = receive-Good c sup.queue sup.running sup.phase a st g
supervised-Good (ended t) c (some sup) a st (h, sh, i) =
    (h, sh, finish-Idle sup.phase sup.running t i)
supervised-Good deadline_passed c (some sup) a st g =
    expire-Good c sup.queue sup.running sup.phase a st g
supervised-Good none_left c (some sup) a st g = drain-Good c sup.queue sup.running sup.phase a st g

pub run-Good : (events : List Event) (s : TaskGroup) → Good s → Good (run events s)
unfolding run
run-Good [] s g = g
run-Good (e ∷ events) s g =
    run-Good events (step e s) (supervised-Good e s.closed s.commands s.accepted s.started g)

pub default-Good : Good default
default-Good = (refl, refl)
