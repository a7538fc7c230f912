-- ===== src/Metrics/Tests.antt =====
-- Two calls that interleave, and examples of the theorems on the counters.
use mathlib.Core.List.{Perm}
use mathlib.Core.List.Perm
use dns_ingress.Prelude.{ℕ, ◌+◌, ◌%◌, ◌≤◌, ◌≡◌, List, [], ◌∷◌, false}
use dns_ingress.Metrics.{
  Counter, total, failed, received, sent, micros, rewrites, u64_mod, new, fetch_add, record_request,
  record_sni_rewrite,
}
use dns_ingress.Metrics.Tally.{load, tally}
use dns_ingress.Metrics.Inflight.{
  State, Step, Reach, idle, outcomes, running, Advance, Reach-counts, request, sni_rewrite,
}

abbrev adds : List (Counter × ℕ)
adds = (rewrites, 1) ∷ (total, 1) ∷ []

swapped : Perm adds ((total, 1) ∷ (rewrites, 1) ∷ [])
swapped = Perm.swap (total, 1) (rewrites, 1) []

-- A failed request whose call has returned, beside a rewrite that has still to be counted.
abbrev counted : State
counted = record {
  metrics =
      fetch_add micros 5
        (fetch_add sent 0 (fetch_add received 9 (fetch_add failed 1 (fetch_add total 1 new))));
  done = (micros, 5) ∷ (sent, 0) ∷ (received, 9) ∷ (failed, 1) ∷ (total, 1) ∷ [];
  pending = [] ∷ ((rewrites, 1) ∷ []) ∷ [];
}

-- What the first of the calls adds next.
abbrev behind : List (List (Counter × ℕ)) → List (List (Counter × ℕ))
behind [] = []
behind ([] ∷ ps) = [] ∷ ps
behind ((a ∷ p) ∷ ps) = p ∷ ps

abbrev added : State → Counter → ℕ → State
added s c n = record {
  metrics = fetch_add c n s.metrics;
  done = (c, n) ∷ s.done;
  pending = behind s.pending;
}

counted_run : Reach idle counted
unfolding record_sni_rewrite record_request
counted_run =
    let s0 : State = record idle { pending = record_sni_rewrite ∷ [] } in
    let s1 : State = record idle {
      pending = record_request false 9 0 5 ∷ record_sni_rewrite ∷ [];
    } in
    let s2 = added s1 total 1 in
    let s3 = added s2 failed 1 in
    let s4 = added s3 received 9 in
    let s5 = added s4 sent 0 in
    Reach.snoc
      (Reach.snoc
        (Reach.snoc
          (Reach.snoc
            (Reach.snoc
              (Reach.snoc (Reach.snoc Reach.nil (Step.start idle sni_rewrite))
                (Step.start s0 (request false 9 0 5)))
              (Step.add s1 total 1 _ Advance.here))
            (Step.add s2 failed 1 _ Advance.here))
          (Step.add s3 received 9 _ Advance.here))
        (Step.add s4 sent 0 _ Advance.here))
      (Step.add s5 micros 5 _ Advance.here)

Reach-counts_example :
    (outcomes counted.done ≤ tally total counted.done)
    × (tally total counted.done ≤ outcomes counted.done + running counted.pending)
    × ((c : Counter) → load c counted.metrics ≡ tally c counted.done % u64_mod)
Reach-counts_example = Reach-counts {s = counted} counted_run
