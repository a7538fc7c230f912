-- ===== src/Tasks/Shutdown.antt =====
-- src/tasks.rs: what a closed group comes to.
use mathlib.Core.List.{append_assoc, append-nil}
use dns_ingress.Prelude.{
  ℕ, ◌≡◌, refl, sym, ap, ap₂, ◌∙◌, subst, Bool, true, false, Option, none, some, List, [], ◌∷◌,
  ◌++◌,
}
use dns_ingress.Tasks.{
  Command, spawn, shutdown, Phase, serving, draining, stopped, Supervisor, TaskGroup, default,
  spawn_command, close, took, receiving, expired, Event, spawned, closing, received, ended,
  deadline_passed, none_left, step, run,
}
use dns_ingress.Tasks.Good.{
  waiting, Shape, Idle, Inv, supervisor, group, Good, run-Good, default-Good,
}

-- The supervisor has ended: no task runs or waits, and every task that was accepted was started.
abbrev pub Ended : TaskGroup → Supervisor → Type 0
Ended s sup = (s.closed ≡ true) × (sup.running ≡ []) × (sup.queue ≡ []) × (s.started ≡ s.accepted)

stopped-Ended :
    (s : TaskGroup) (c : Bool) (q : List Command) (r : List ℕ) (p : Phase)
    → p ≡ stopped
    → s.accepted ≡ s.started ++ waiting q
    → Shape c p q
    → Idle p r
    → (c ≡ true) × (r ≡ []) × (q ≡ []) × (s.started ≡ s.accepted)
stopped-Ended s true q r stopped e h sh i =
    (refl, i, sh, sym (h ∙ (ap (λ k. s.started ++ waiting k) sh ∙ append-nil s.started)))
stopped-Ended s false q r stopped e h sh i = absurd sh
stopped-Ended s c q r serving e h sh i = cc
stopped-Ended s c q r (draining d) e h sh i = cc

-- However spawns, a close, the commands and the ends of tasks interleave: when the supervisor has
-- told the caller of the shutdown, the group is closed, no task of it runs or waits in the channel,
-- and every task that was accepted was started.
pub run-stopped :
    (events : List Event) {sup : Supervisor}
    → (run events default).commands ≡ some sup
    → sup.phase ≡ stopped
    → Ended (run events default) sup
run-stopped events {sup} there over =
    let s : TaskGroup = run events default in
    let (h, sh, i) = subst (Inv s) there (run-Good events default default-Good) in
    stopped-Ended s s.closed sup.queue sup.running sup.phase over h sh i

-- The supervisor takes up what waits, and then the deadline passes.
abbrev pub shut_down : List Command → List Event
shut_down [] = deadline_passed ∷ []
shut_down (command ∷ queue) = received ∷ shut_down queue

abbrev pub Stops : TaskGroup → Type 0
Stops s = (sup : Supervisor) × (s.commands ≡ some sup) × (sup.phase ≡ stopped) × Ended s sup

none-cons : {A : Type 0} {x : A} {xs : List A} → ¬ (x ∷ xs ≡ [])
none-cons h = cc

live :
    (q : List Command) (r : List ℕ) (p : Phase) (a st : List ℕ)
    → Good (group true (some (supervisor q r p)) a st)
    → Stops (run (shut_down q) (group true (some (supervisor q r p)) a st))
unfolding run step receiving took expired
live [] r serving a st (h, sh, i) = absurd sh
live [] r (draining d) a st (h, sh, i) =
    (supervisor [] [] stopped, refl, refl, (refl, refl, refl, sym (h ∙ append-nil st)))
live [] r stopped a st (h, sh, i) =
    (supervisor [] r stopped, refl, refl, (refl, i, refl, sym (h ∙ append-nil st)))
live (spawn t ∷ q) r serving a st (h, sh, i) =
    live q (t ∷ r) serving a (st ++ (t ∷ []))
      (h ∙ sym (append_assoc st (t ∷ []) (waiting q)), sh, tt)
live (shutdown d ∷ []) r serving a st (h, sh, i) =
    (supervisor [] [] stopped, refl, refl, (refl, refl, refl, sym (h ∙ append-nil st)))
live (shutdown d ∷ x ∷ q) r serving a st (h, sh, i) = absurd (none-cons sh)
live (x ∷ q) r (draining d) a st (h, sh, i) = absurd (none-cons sh)
live (x ∷ q) r stopped a st (h, sh, i) = absurd (none-cons sh)

-- A close comes to its end whatever the tasks do: at any moment after the group was closed, with a
-- supervisor, it is enough that the supervisor takes up the commands that wait and that the deadline
-- passes; no task has to end by itself.
pub run-Stops :
    (events : List Event) {sup : Supervisor}
    → (run events default).closed ≡ true
    → (run events default).commands ≡ some sup
    → Stops (run (shut_down sup.queue) (run events default))
run-Stops events {sup} shut there =
    let s : TaskGroup = run events default in
    let same : s ≡ group true (some sup) s.accepted s.started =
      ap₂ (λ c o. group c o s.accepted s.started) shut there in
    let good : Good (group true (some sup) s.accepted s.started) =
      subst Good same (run-Good events default default-Good) in
    subst (λ g. Stops (run (shut_down sup.queue) g)) (sym same)
      (live sup.queue sup.running sup.phase s.accepted s.started good)

receiving-closed :
    (q : List Command) (p : Phase) (sup : Supervisor) (a st : List ℕ)
    → ((receiving (supervisor q sup.running p) p (group true (some sup) a st)).closed ≡ true)
      × ((receiving (supervisor q sup.running p) p (group true (some sup) a st)).accepted ≡ a)
unfolding receiving took
receiving-closed [] serving sup a st = (refl, refl)
receiving-closed (spawn t ∷ q) serving sup a st = (refl, refl)
receiving-closed (shutdown d ∷ q) serving sup a st = (refl, refl)
receiving-closed q (draining d) sup a st = (refl, refl)
receiving-closed q stopped sup a st = (refl, refl)

closed-step :
    (e : Event) (o : Option Supervisor) (a st : List ℕ)
    → ((step e (group true o a st)).closed ≡ true) × ((step e (group true o a st)).accepted ≡ a)
unfolding step spawn_command close
closed-step (spawned t) o a st = (refl, refl)
closed-step (closing d) o a st = (refl, refl)
closed-step received none a st = (refl, refl)
closed-step (ended t) none a st = (refl, refl)
closed-step deadline_passed none a st = (refl, refl)
closed-step none_left none a st = (refl, refl)
closed-step received (some sup) a st = receiving-closed sup.queue sup.phase sup a st
closed-step (ended t) (some sup) a st = (refl, refl)
closed-step deadline_passed (some sup) a st = (refl, refl)
closed-step none_left (some sup) a st = (refl, refl)

-- Once a group is closed it stays closed, and no later event makes it accept a task.
pub run-closed :
    (events : List Event) (s : TaskGroup)
    → s.closed ≡ true
    → ((run events s).closed ≡ true) × ((run events s).accepted ≡ s.accepted)
unfolding run
run-closed [] s shut = (shut, refl)
run-closed (e ∷ events) s shut =
    let same : s ≡ group true s.commands s.accepted s.started =
      ap (λ c. group c s.commands s.accepted s.started) shut in
    let (still, kept) =
      subst (λ g. ((step e g).closed ≡ true) × ((step e g).accepted ≡ g.accepted)) (sym same)
        (closed-step e s.commands s.accepted s.started) in
    let (later, all) = run-closed events (step e s) still in (later, all ∙ kept)
