-- ===== src/Backoff/Delays.antt =====
-- The bounds and the growth of the delay, and the period of the counter.
use native.Mathlib.Nat.{pow-le-pow_right}
use dns_ingress.Prelude.{
  ℕ, zero, suc, ◌+◌, ◌*◌, ◌%◌, ◌^◌, ◌≤◌, min, leb, ◌≡◌, refl, ap, ◌∙◌, arith, inl, inr, Bool-cases,
  List, [], ◌∷◌,
}
use dns_ingress.Backoff.{exponential_backoff, next_delay, new, delays, u64_max, u32_mod}

pow-le-1024 : (k : ℕ) → 2 ^ min k 10 ≤ 1024
pow-le-1024 k = pow-le-pow_right {n = 2} (omega arith) {i = min k 10} {j = 10} (omega arith)

pow_mono : (a b : ℕ) → a ≤ b → 2 ^ min a 10 ≤ 2 ^ min b 10
pow_mono a b h = pow-le-pow_right {n = 2} (omega arith) {i = min a 10} {j = min b 10} (omega arith)

mul_mono : (x p q : ℕ) → p ≤ q → x * p ≤ x * q
mul_mono x p q h = grind arith

-- Where no product overflows, the delay is the base times 2 to the attempt, capped twice.
pub exponential_backoff-closed :
    (attempt base max_delay : ℕ)
    → base * 1024 ≤ u64_max
    → exponential_backoff attempt base max_delay ≡ min (base * 2 ^ min attempt 10) max_delay
unfolding exponential_backoff
exponential_backoff-closed attempt base max_delay h =
    let small : min (2 ^ min attempt 10) u64_max ≡ 2 ^ min attempt 10 =
      omega (arith, pow-le-1024 attempt) in
    rw small (omega (arith, mul_mono base (2 ^ min attempt 10) 1024 (pow-le-1024 attempt)))

-- The delay never exceeds its cap, does not fall as the attempts grow, and is the same for every
-- attempt from the tenth on.
pub exponential_backoff_bounds :
    (a b base max_delay : ℕ)
    → a ≤ b
    → (exponential_backoff a base max_delay ≤ exponential_backoff b base max_delay)
      × (exponential_backoff b base max_delay ≤ max_delay)
      × (exponential_backoff (10 + a) base max_delay ≡ exponential_backoff 10 base max_delay)
unfolding exponential_backoff
exponential_backoff_bounds a b base max_delay h =
    let flat : min (10 + a) 10 ≡ min 10 10 = omega arith in
    (
      omega (
        arith,
        mul_mono base (min (2 ^ min a 10) u64_max) (min (2 ^ min b 10) u64_max)
            (omega (arith, pow_mono a b h)),
      ),
      omega arith,
      ap (λ (k : ℕ). min (min (base * min (2 ^ k) u64_max) u64_max) max_delay) flat,
    )

-- The reference: call number `i` after a counter that stands at `k` uses the exponent `(k + i) % 11`.
pub cycle : ℕ → ℕ → ℕ → ℕ → List ℕ
cycle zero k base max_delay = []
cycle (suc n) k base max_delay =
    exponential_backoff k base max_delay ∷ cycle n ((k + 1) % 11) base max_delay

cycle_from :
    (n k base max_delay : ℕ)
    → k ≤ 10
    → ((delays n (record { counter = k }) base max_delay).1 ≡ cycle n k base max_delay)
      × ((delays n (record { counter = k }) base max_delay).0.counter ≡ (k + n) % 11)
unfolding delays next_delay cycle
cycle_from zero k base max_delay h = (refl, omega arith)
cycle_from (suc n) k base max_delay h = elim (Bool-cases (leb 10 k)) [
  | inl last ↦
      let e : (k + 1) % 11 ≡ 0 = ground arith in
      rw (last, e)
        (let ih = cycle_from n 0 base max_delay (omega arith) in
          (ap (◌∷◌ (exponential_backoff k base max_delay)) ih.0, ih.1 ∙ ground arith))
  | inr more ↦
      let e : (k + 1) % 11 ≡ k + 1 = ground arith in
      let w : (k + 1) % u32_mod ≡ k + 1 = ground arith in
      rw (more, e, w)
        (let ih = cycle_from n (k + 1) base max_delay (ground arith) in
          (ap (◌∷◌ (exponential_backoff k base max_delay)) ih.0, ih.1 ∙ omega arith))
]

-- Calls one after another on a fresh counter yield the delays of the attempts 0 to 10 in a cycle of
-- eleven, and leave the counter at their number modulo 11.
pub delays-new :
    (n base max_delay : ℕ)
    → ((delays n new base max_delay).1 ≡ cycle n 0 base max_delay)
      × ((delays n new base max_delay).0.counter ≡ n % 11)
unfolding new
delays-new n base max_delay =
    let h = cycle_from n 0 base max_delay (omega arith) in (h.0, h.1 ∙ omega arith)
