-- ===== src/Metrics/Tally.antt =====
-- The counters against unbounded sums, for every order of the atomic additions.
use mathlib.Core.List.{Perm, Permᴰ}
use mathlib.Core.Logic.{∥∥₁_elim}
use native.Mathlib.Nat.{ℕ_set}
use dns_ingress.Prelude.{ℕ, ◌+◌, ◌%◌, ◌<◌, ◌≡◌, refl, sym, ◌∙◌, ap, arith, List, [], ◌∷◌}
use dns_ingress.Metrics.{
  Metrics, Counter, total, successful, failed, received, sent, rewrites, errors, micros, u64_mod,
  fetch_add, fetch_adds, new,
}

-- The value of one counter.
abbrev pub load : Counter → Metrics → ℕ
load total m = m.total_requests
load successful m = m.successful_requests
load failed m = m.failed_requests
load received m = m.bytes_received
load sent m = m.bytes_sent
load rewrites m = m.sni_rewrites
load errors m = m.upstream_errors
load micros m = m.processing_duration_micros

-- What one addition contributes to a counter.
abbrev pub share : Counter → Counter → ℕ → ℕ
share total total n = n
share successful successful n = n
share failed failed n = n
share received received n = n
share sent sent n = n
share rewrites rewrites n = n
share errors errors n = n
share micros micros n = n
share _ _ n = 0

-- The unbounded sum of what was added to a counter.
abbrev pub tally : Counter → List (Counter × ℕ) → ℕ
tally c [] = 0
tally c ((d, n) ∷ more) = share c d n + tally c more

load-fetch_add :
    (c d : Counter) (n : ℕ) (m : Metrics)
    → load c (fetch_add d n m) % u64_mod ≡ (load c m + share c d n) % u64_mod
unfolding fetch_add
load-fetch_add c d n m = ground arith

load-fetch_adds :
    (c : Counter) (adds : List (Counter × ℕ)) (m : Metrics)
    → load c (fetch_adds adds m) % u64_mod ≡ (load c m + tally c adds) % u64_mod
unfolding fetch_adds
load-fetch_adds c [] m = omega arith
load-fetch_adds c ((d, n) ∷ more) m =
    omega (arith, load-fetch_adds c more (fetch_add d n m), load-fetch_add c d n m)

IsBounded-fetch_add :
    (c d : Counter) (n : ℕ) (m : Metrics) → load c m < u64_mod → load c (fetch_add d n m) < u64_mod
unfolding fetch_add
IsBounded-fetch_add c d n m h = ground arith

IsBounded-fetch_adds :
    (c : Counter) (adds : List (Counter × ℕ)) (m : Metrics)
    → load c m < u64_mod
    → load c (fetch_adds adds m) < u64_mod
unfolding fetch_adds
IsBounded-fetch_adds c [] m h = h
IsBounded-fetch_adds c ((d, n) ∷ more) m h =
    IsBounded-fetch_adds c more (fetch_add d n m) (IsBounded-fetch_add c d n m h)

load-new : (c : Counter) → load c new ≡ 0
unfolding new
load-new c = ground arith

-- From fresh counters, any sequence of atomic additions leaves each counter at the sum of what was
-- added to it, modulo 2 ^ 64.
pub load-fetch_adds-new :
    (c : Counter) (adds : List (Counter × ℕ))
    → load c (fetch_adds adds new) ≡ tally c adds % u64_mod
load-fetch_adds-new c adds = omega (
  arith,
  load-new c,
  load-fetch_adds c adds new,
  IsBounded-fetch_adds c adds new (omega (arith, load-new c)),
)

tally-perm_tree : (c : Counter) {xs ys : List (Counter × ℕ)} → Permᴰ xs ys → tally c xs ≡ tally c ys
tally-perm_tree c Permᴰ.nil = refl
tally-perm_tree c (Permᴰ.cons {a} e p) = rw (e, tally-perm_tree c p)
tally-perm_tree c (Permᴰ.swap e k) = rw (e, k) (omega arith)
tally-perm_tree c (Permᴰ.trans p q) = tally-perm_tree c p ∙ tally-perm_tree c q

tally-perm : (c : Counter) {xs ys : List (Counter × ℕ)} → Perm xs ys → tally c xs ≡ tally c ys
tally-perm c p = ∥∥₁_elim p (ℕ_set _ _) (tally-perm_tree c)

Metrics-ext : (m n : Metrics) → ((c : Counter) → load c m ≡ load c n) → m ≡ n
Metrics-ext m n h =
    ground
      (arith, h total, h successful, h failed, h received, h sent, h rewrites, h errors, h micros)

-- Threads may interleave their additions in any order: the counters end alike.
pub fetch_adds-perm :
    {xs ys : List (Counter × ℕ)} → Perm xs ys → fetch_adds xs new ≡ fetch_adds ys new
fetch_adds-perm {xs} {ys} p = Metrics-ext _ _ λ c.
    load-fetch_adds-new c xs
    ∙ (ap (λ (k : ℕ). k % u64_mod) (tally-perm c p) ∙ sym (load-fetch_adds-new c ys))
