-- ===== src/Metrics/Inflight.antt =====
-- Many threads record at once: what the request counters say of each other at any moment.
use dns_ingress.Prelude.{ℕ, ◌+◌, ◌%◌, ◌≤◌, ◌≡◌, arith, Bool, true, false, List, [], ◌∷◌, suc, All}
use dns_ingress.Metrics.{
  Metrics, Counter, total, successful, failed, u64_mod, fetch_add, new, record_request,
  record_sni_rewrite, record_upstream_error,
}
use dns_ingress.Metrics.Tally.{load, tally}

-- The recording calls of the program.
pub data Call : Type 0 where
  request : Bool → ℕ → ℕ → ℕ → Call
  sni_rewrite upstream_error : Call

abbrev pub additions : Call → List (Counter × ℕ)
additions (request success received sent micros) = record_request success received sent micros
additions sni_rewrite = record_sni_rewrite
additions upstream_error = record_upstream_error

-- `pending` holds what each call has still to add, nothing once it has returned; `done` is what was
-- added, newest first.
pub record State : Type 0 where
  pub metrics : Metrics
  pub done : List (Counter × ℕ)
  pub pending : List (List (Counter × ℕ))

-- One of the running calls makes its next addition.
pub data Advance
    : List (List (Counter × ℕ)) → Counter × ℕ → List (List (Counter × ℕ)) → Type 0 where
  here :
      {a : Counter × ℕ} {p : List (Counter × ℕ)} {ps : List (List (Counter × ℕ))}
      → Advance ((a ∷ p) ∷ ps) a (p ∷ ps)
  there :
      {a : Counter × ℕ} {p : List (Counter × ℕ)} {ps qs : List (List (Counter × ℕ))}
      → Advance ps a qs
      → Advance (p ∷ ps) a (p ∷ qs)

pub data Step : State → State → Type 0 where
  start : (s : State) (c : Call) → Step s (record s { pending = additions c ∷ s.pending })
  add :
      (s : State) (c : Counter) (n : ℕ) (qs : List (List (Counter × ℕ)))
      → Advance s.pending (c, n) qs
      → Step s (record { metrics = fetch_add c n s.metrics; done = (c, n) ∷ s.done; pending = qs })

pub data Reach (s : State) : State → Type 0 where
  nil : Reach s s
  snoc : {t u : State} → Reach s t → Step t u → Reach s u

abbrev pub idle : State
idle = record { metrics = new; done = []; pending = [] }

-- The outcomes that a sequence of additions counts.
abbrev pub outcomes : List (Counter × ℕ) → ℕ
outcomes adds = tally successful adds + tally failed adds

-- The calls that have still something to add.
abbrev pub running : List (List (Counter × ℕ)) → ℕ
running [] = 0
running ([] ∷ ps) = running ps
running ((a ∷ p) ∷ ps) = suc (running ps)

-- What is left of a call owes at most one outcome more than requests.
abbrev IsOrdered : List (Counter × ℕ) → Type 0
IsOrdered [] = Unit
IsOrdered (a ∷ p) =
    (tally total (a ∷ p) ≤ outcomes (a ∷ p))
    × (outcomes (a ∷ p) ≤ tally total (a ∷ p) + 1)
    × IsOrdered p

abbrev sum_of : (List (Counter × ℕ) → ℕ) → List (List (Counter × ℕ)) → ℕ
sum_of f [] = 0
sum_of f (p ∷ ps) = f p + sum_of f ps

record Inv (s : State) : Type 0 where
  loads : (c : Counter) → load c s.metrics ≡ tally c s.done % u64_mod
  ordered : All IsOrdered s.pending
  balance :
      tally total s.done + sum_of (tally total) s.pending
      ≡ outcomes s.done + (sum_of (tally successful) s.pending + sum_of (tally failed) s.pending)

additions-IsOrdered : (c : Call) → IsOrdered (additions c)
unfolding record_request record_sni_rewrite record_upstream_error
additions-IsOrdered (request true received sent micros) = ground arith
additions-IsOrdered (request false received sent micros) = ground arith
additions-IsOrdered sni_rewrite = omega arith
additions-IsOrdered upstream_error = omega arith

additions-balance : (c : Call) → tally total (additions c) ≡ outcomes (additions c)
unfolding record_request record_sni_rewrite record_upstream_error
additions-balance (request true received sent micros) = ground arith
additions-balance (request false received sent micros) = ground arith
additions-balance sni_rewrite = omega arith
additions-balance upstream_error = omega arith

Advance-sum :
    (c : Counter) {ps qs : List (List (Counter × ℕ))} {a : Counter × ℕ}
    → Advance ps a qs
    → sum_of (tally c) ps ≡ tally c (a ∷ []) + sum_of (tally c) qs
Advance-sum c (here {a}) = omega arith
Advance-sum c (there {a} v) = omega (arith, Advance-sum c v)

Advance-IsOrdered :
    {ps qs : List (List (Counter × ℕ))} {a : Counter × ℕ}
    → Advance ps a qs
    → All IsOrdered ps
    → All IsOrdered qs
Advance-IsOrdered here (o, os) = (o.2, os)
Advance-IsOrdered (there v) (o, os) = (o, Advance-IsOrdered v os)

load-step :
    (c d : Counter) (n : ℕ) (m : Metrics) (done : List (Counter × ℕ))
    → load c m ≡ tally c done % u64_mod
    → load c (fetch_add d n m) ≡ tally c ((d, n) ∷ done) % u64_mod
unfolding fetch_add
load-step c d n m done h = ground arith

Step-Inv : {s t : State} → Step s t → Inv s → Inv t
Step-Inv (start s c) v = record {
  loads = v.loads;
  ordered = (additions-IsOrdered c, v.ordered);
  balance = omega (arith, v.balance, additions-balance c);
}
Step-Inv (add s c n qs a) v = record {
  loads = λ d. load-step d c n s.metrics s.done (v.loads d);
  ordered = Advance-IsOrdered a v.ordered;
  balance =
      omega (arith, v.balance, Advance-sum total a, Advance-sum successful a, Advance-sum failed a);
}

Reach-Inv : {s : State} → Reach idle s → Inv s
unfolding new
Reach-Inv nil = record { loads = λ c. ground arith; ordered = tt; balance = omega arith }
Reach-Inv (snoc r st) = Step-Inv st (Reach-Inv r)

owed_bounds :
    (ps : List (List (Counter × ℕ)))
    → All IsOrdered ps
    → (sum_of (tally total) ps ≤ sum_of (tally successful) ps + sum_of (tally failed) ps)
      × (sum_of (tally successful) ps + sum_of (tally failed) ps
          ≤ sum_of (tally total) ps + running ps)
owed_bounds [] o = omega arith
owed_bounds ([] ∷ ps) (o, os) = omega (arith, owed_bounds ps os)
owed_bounds ((a ∷ p) ∷ ps) (o, os) = omega (arith, owed_bounds ps os)

-- At every moment of every interleaving, the outcomes counted so far are at most the requests
-- counted, and fall short of them by at most one for each call that has still something to add; and every counter
-- is the sum of what was added to it, modulo 2 ^ 64.
pub Reach-counts :
    {s : State}
    → Reach idle s
    → (outcomes s.done ≤ tally total s.done)
      × (tally total s.done ≤ outcomes s.done + running s.pending)
      × ((c : Counter) → load c s.metrics ≡ tally c s.done % u64_mod)
Reach-counts {s} r =
    let v = Reach-Inv r in
    let b = owed_bounds s.pending v.ordered in
    (omega (arith, v.balance, b), omega (arith, v.balance, b), v.loads)

-- When every call has added all that it has to add, the counter of requests is the sum of the two outcome counters modulo 2 ^ 64.
pub Reach-balanced :
    {s : State}
    → Reach idle s
    → running s.pending ≡ 0
    → s.metrics.total_requests
      ≡ (s.metrics.successful_requests + s.metrics.failed_requests) % u64_mod
Reach-balanced {s} r e =
    let h = Reach-counts r in omega (arith, h.0, h.1, e, h.2 total, h.2 successful, h.2 failed)
