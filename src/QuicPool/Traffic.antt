-- ===== src/QuicPool/Traffic.antt =====
-- src/upstream/quic_pool.rs: many calls at once. The sections of the calls, which the lock on the
-- entries or the semaphore makes atomic, come in any order; the leases end at any time.
use dns_ingress.Prelude.{
  ℕ, suc, ◌+◌, ◌≤◌, ◌≡◌, ◌≢◌, refl, sym, ◌∙◌, subst, arith, Bool, some, length, length-append, inl,
  inr, ◌∷◌, [],
}
use dns_ingress.Prelude.Assoc.{Eq, IsMap}
use dns_ingress.QuicPool.{
  count, Lease, LeasePool, slots_of, references, drop_lease, drop_slot, discard, hit, look, choose,
  publish, try_acquire, with_root_store,
}
use dns_ingress.QuicPool.Slots.{distinct, distinct-append}
use dns_ingress.QuicPool.Valid.{Valid, owned, Entries}
use dns_ingress.QuicPool.Steps.{
  pair_right, acquired, try_acquire-some, acquired-Valid, discard-Valid, drop_lease-Valid,
  drop_slot-Valid, new-Valid,
}
use dns_ingress.QuicPool.Calls.{zero-or-suc, look-Valid, hit-Valid, choose-Valid, publish-Valid}

module _ {K C : Type 0} ⦃e : Eq K⦄ where
  pub data Move (s : LeasePool K C) : LeasePool K C → Type 0 where
    look_up : (alive : C → Bool) (now : ℕ) (key : K) → Move s (look alive now key s).1
    acquire : {slot : ℕ} {t : LeasePool K C} → try_acquire s ≡ some (slot, t) → Move s t
    take_oldest : (alive : C → Bool) → Move s (choose alive s).1
    recheck :
        (alive : C → Bool) (now : ℕ) (key : K) {lease : Lease C} {t : LeasePool K C}
        → hit alive now key s ≡ some (lease, t)
        → Move s t
    give_up : (slot : ℕ) → count slot s.reserved ≢ 0 → Move s (drop_slot slot s)
    store :
        (alive : C → Bool) (now : ℕ) (key : K) (connection : C) (slot : ℕ)
        → count slot s.reserved ≢ 0
        → Move s (publish alive now key connection slot s).1
    return_lease : (slot : ℕ) → count slot s.borrowed ≢ 0 → Move s (drop_lease slot s)
    invalidated : (key : K) → Move s (discard key s)

  pub data Reach (s : LeasePool K C) : LeasePool K C → Type 0 where
    nil : Reach s s
    snoc : {t u : LeasePool K C} → Reach s t → Move t u → Reach s u

  try_acquire-cases :
      (s : LeasePool K C) {slot : ℕ} {t : LeasePool K C}
      → try_acquire s ≡ some (slot, t)
      → (n : ℕ) × (s.available ≡ suc n) × (t ≡ acquired n s)
  unfolding try_acquire
  try_acquire-cases s h = elim (zero-or-suc s.available) [
    | inl z ↦ absurd (ground (arith, rw (try_acquire, z) at h))
    | inr (n, p) ↦ (n, p, pair_right (sym h ∙ try_acquire-some s p))
  ]

  slots_of-length : (m : Entries K C) → length (slots_of m) ≡ length m
  unfolding slots_of
  slots_of-length [] = refl
  slots_of-length ((key, cached) ∷ m) = omega (arith, slots_of-length m)

  module _ {max_entries : ℕ} where
    Move-Valid : {s t : LeasePool K C} → Valid max_entries s → Move s t → Valid max_entries t
    Move-Valid {s} v (look_up alive now key) = look-Valid alive now key s v
    Move-Valid {s} v (acquire h) =
        let (n, free, after) = try_acquire-cases s h in
        subst (Valid max_entries) (sym after) (acquired-Valid s v free)
    Move-Valid {s} v (take_oldest alive) = choose-Valid alive s v
    Move-Valid {s} v (recheck alive now key h) = hit-Valid alive now key s v h
    Move-Valid {s} v (give_up slot n) = drop_slot-Valid slot s v n
    Move-Valid {s} v (store alive now key connection slot n) =
        publish-Valid alive now key connection slot s v n
    Move-Valid {s} v (return_lease slot n) = drop_lease-Valid slot s v n
    Move-Valid {s} v (invalidated key) = discard-Valid key s v

    Reach-Valid : {s t : LeasePool K C} → Valid max_entries s → Reach s t → Valid max_entries t
    Reach-Valid v nil = v
    Reach-Valid v (snoc r m) = Move-Valid (Reach-Valid v r) m

  -- Whatever calls run at once on a new pool, and however their sections interleave, the permits
  -- that are free and the slots with references make up the limit, so that the entries and the
  -- calls still connecting are together at most as many, and a key has one entry.
  pub Reach-bounded :
      (max_entries : ℕ) {s : LeasePool K C}
      → Reach (with_root_store max_entries) s
      → (s.available + distinct (references s) ≡ max_entries)
        × (length s.entries + length s.reserved ≤ max_entries)
        × IsMap s.entries
  Reach-bounded max_entries {s} r =
      let v : Valid max_entries s = Reach-Valid new-Valid r in
      (
        v.permits,
        omega (
          arith,
          v.permits,
          v.apart,
          distinct-append s.borrowed (owned s),
          length-append (slots_of s.entries) s.reserved,
          slots_of-length s.entries,
        ),
        v.mapped,
      )
