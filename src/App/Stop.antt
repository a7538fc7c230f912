-- ===== src/App/Stop.antt =====
-- src/app.rs: what a shutdown leaves.
use dns_ingress.Prelude.{
  ◌≡◌, refl, ap, ◌∙◌, arith, Bool, true, false, Bool-cases, inl, inr, List, [], ◌∷◌, ◌++◌, All, any,
  if◌then◌else◌,
}
use dns_ingress.App.{
  Server, healthcheck, dot, doh, doq, doh3, same, without, withouts, App, close_each, drain,
  shutdown,
}

-- The server is one of them.
abbrev pub IsIn : List Server → Server → Type 0
IsIn servers x = any (λ y. same y x) servers ≡ true

abbrev pub Subset : List Server → List Server → Type 0
Subset xs ys = All (IsIn ys) xs

same_self : (x : Server) → same x x ≡ true
same_self healthcheck = refl
same_self dot = refl
same_self doh = refl
same_self doq = refl
same_self doh3 = refl

Subset-later : (y : Server) (xs ys : List Server) → Subset xs ys → Subset xs (y ∷ ys)
Subset-later y [] ys h = tt
Subset-later y (x ∷ xs) ys (h, hs) = (ground (arith, h), Subset-later y xs ys hs)

pub Subset_self : (xs : List Server) → Subset xs xs
Subset_self [] = tt
Subset_self (x ∷ xs) = (ground (arith, same_self x), Subset-later x xs xs (Subset_self xs))

without-Subset : (x : Server) (xs ys : List Server) → Subset xs ys → Subset (without x xs) ys
unfolding without
without-Subset x [] ys h = tt
without-Subset x (z ∷ xs) ys (h, hs) = elim (Bool-cases (same x z)) [
  | inl t ↦ rw (without, t) (without-Subset x xs ys hs)
  | inr f ↦ rw (without, f) (h, without-Subset x xs ys hs)
]

-- Those that have ended are no others.
pub withouts-Subset : (gone xs ys : List Server) → Subset xs ys → Subset (withouts gone xs) ys
unfolding withouts
withouts-Subset [] xs ys h = h
withouts-Subset (x ∷ gone) xs ys h =
    withouts-Subset gone (without x xs) ys (without-Subset x xs ys h)

without-tail : (y : Server) (xs ys : List Server) → Subset xs (y ∷ ys) → Subset (without y xs) ys
unfolding without
without-tail y [] ys h = tt
without-tail y (x ∷ xs) ys (h, hs) = elim (Bool-cases (same y x)) [
  | inl t ↦ rw (without, t) (without-tail y xs ys hs)
  | inr f ↦ rw (without, f) (ground (arith, h, f), without-tail y xs ys hs)
]

-- Nothing is left when all are taken.
pub withouts-all : (ys xs : List Server) → Subset xs ys → withouts ys xs ≡ []
unfolding withouts
withouts-all [] [] h = refl
withouts-all [] (x ∷ xs) (h, hs) = absurd (ground (arith, h))
withouts-all (y ∷ ys) xs h = withouts-all ys (without y xs) (without-tail y xs ys h)

close_each-App :
    (groups : List Server) (s : App)
    → close_each groups s ≡ record s { open_groups = withouts groups s.open_groups }
unfolding close_each withouts
close_each-App [] s = refl
close_each-App (g ∷ groups) s =
    close_each-App groups (record s { open_groups = without g s.open_groups })

drained :
    (in_time : Server → Bool) (handles : List Server) (s : App)
    → ((drain in_time handles s).ready ≡ s.ready)
      × ((drain in_time handles s).handles ≡ s.handles)
      × ((drain in_time handles s).task_groups ≡ s.task_groups)
      × ((drain in_time handles s).open_groups ≡ s.open_groups)
      × ((drain in_time handles s).running ≡ withouts handles s.running)
unfolding drain withouts
drained in_time [] s = (refl, refl, refl, refl, refl)
drained in_time (h ∷ handles) s = drained in_time handles (record s {
  running = without h s.running;
  aborted = if in_time h then s.aborted else s.aborted ++ (h ∷ []);
})

-- No task of a server runs, no task group is open, none is held, and the application says so.
abbrev pub IsDown : App → Type 0
IsDown t =
    (t.ready ≡ false)
    × (t.handles ≡ [])
    × (t.task_groups ≡ [])
    × (t.running ≡ [])
    × (t.open_groups ≡ [])

-- A shutdown stops every task that runs, when the application holds its handle and its group.
pub shutdown-IsDown :
    (in_time : Server → Bool) (s : App)
    → Subset s.running s.handles
    → Subset s.open_groups s.task_groups
    → IsDown (shutdown in_time s)
unfolding shutdown
shutdown-IsDown in_time s tasks groups =
    let begun : App = record s {
      ready = false;
      cancelled = true;
      task_groups = [];
      handles = [];
    } in
    let closed : App = close_each s.task_groups begun in
    let made = close_each-App s.task_groups begun in
    let (ready, handles, held, opened, running) = drained in_time s.handles closed in
    (
      ready ∙ ap (λ t. t.ready) made,
      handles ∙ ap (λ t. t.handles) made,
      held ∙ ap (λ t. t.task_groups) made,
      running
          ∙ ap (λ t. withouts s.handles t.running) made
          ∙ withouts-all s.handles s.running tasks,
      opened ∙ ap (λ t. t.open_groups) made ∙ withouts-all s.task_groups s.open_groups groups,
    )

pub shutdown-ready : (in_time : Server → Bool) (s : App) → (shutdown in_time s).ready ≡ false
unfolding shutdown
shutdown-ready in_time s =
    let begun : App = record s {
      ready = false;
      cancelled = true;
      task_groups = [];
      handles = [];
    } in
    (drained in_time s.handles (close_each s.task_groups begun)).0
    ∙ ap (λ t. t.ready) (close_each-App s.task_groups begun)
