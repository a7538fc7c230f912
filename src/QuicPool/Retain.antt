-- ===== src/QuicPool/Retain.antt =====
-- src/upstream/quic_pool.rs: what is freed when leases leave the cache.
use dns_ingress.Prelude.{
  ℕ, suc, ◌≤◌, ◌==◌, ◌≡◌, ◌⊎◌, refl, ap, ◌∙◌, arith, Bool, false, ==_refl, some, [], ◌∷◌, ◌++◌,
  Bool-cases, Option-cases, inl, inr, if◌then◌else◌,
}
use dns_ingress.Prelude.Assoc.{Eq, lookup, remove}
use dns_ingress.QuicPool.{count, CachedLease, LeasePool, slots_of, strong_count, discard, retain}
use dns_ingress.QuicPool.Slots.{
  Inserted, Inserted-before, count-Inserted, count-append, apart-Inserted,
}
use dns_ingress.QuicPool.Valid.{Valid, owned, Entries, slots_of-remove}
use dns_ingress.QuicPool.Steps.{discard-none, discard-some, discard-Valid}
use dns_ingress.QuicPool.Calls.{discard-borrowed}

module _ {K C : Type 0} ⦃e : Eq K⦄ where
  -- The references to the slot of an entry: its own, and those of the leases in use.
  pub entry-count :
      {max_entries : ℕ} (key : K) (s : LeasePool K C) {cached : CachedLease C}
      → Valid max_entries s
      → lookup key s.entries ≡ some cached
      → (strong_count cached.lease.slot s ≡ suc (count cached.lease.slot s.borrowed))
        × (count cached.lease.slot (slots_of (remove key s.entries) ++ s.reserved) ≡ 0)
  entry-count key s {cached} v h =
      let less : Inserted cached.lease.slot (slots_of (remove key s.entries) ++ s.reserved)
          (owned s) =
        Inserted-before s.reserved (slots_of-remove key s.entries v.mapped h) in
      let alone : count cached.lease.slot (slots_of (remove key s.entries) ++ s.reserved) ≡ 0 =
        (apart-Inserted less v.apart).1 in
      (
        ground (
          arith,
          alone,
          count-Inserted less cached.lease.slot,
          ==_refl cached.lease.slot,
          count-append cached.lease.slot s.borrowed (owned s),
        ),
        alone,
      )

  -- A lease that is discarded frees its permit if no other holds it.
  pub discard-available :
      {max_entries : ℕ} (key : K) (s : LeasePool K C) {cached : CachedLease C}
      → Valid max_entries s
      → lookup key s.entries ≡ some cached
      → (discard key s).available
        ≡ (if count cached.lease.slot s.borrowed == 0 then suc s.available else s.available)
  discard-available key s {cached} v h =
      ap (λ p. p.available) (discard-some key s h)
      ∙ ground (
        arith,
        (entry-count key s v h).1,
        count-append cached.lease.slot s.borrowed (slots_of (remove key s.entries) ++ s.reserved),
      )

  pub discard-frees : (key : K) (s : LeasePool K C) → s.available ≤ (discard key s).available
  discard-frees key s = elim (Option-cases (lookup key s.entries)) [
    | inl n ↦ ground (arith, ap (λ p. p.available) (discard-none key s n))
    | inr (cached, h) ↦ ground (arith, ap (λ p. p.available) (discard-some key s h))
  ]

  pub retain-frees :
      (alive : C → Bool) (visited : Entries K C) (s : LeasePool K C)
      → s.available ≤ (retain alive visited s).available
  unfolding retain
  retain-frees alive [] s = omega arith
  retain-frees alive ((key, cached) ∷ visited) s =
      elim (Bool-cases (alive cached.lease.connection)) [
        | inl t ↦ rw (retain, t) (retain-frees alive visited s)
        | inr f ↦
            rw (retain, f)
              (omega (arith, discard-frees key s, retain-frees alive visited (discard key s)))
      ]

  lookup-remove_other :
      (j k : K) (m : Entries K C) → e.beq j k ≡ false → lookup k (remove j m) ≡ lookup k m
  unfolding lookup remove
  lookup-remove_other j k [] n = refl
  lookup-remove_other j k ((i, w) ∷ m) n =
      ground (arith, lookup-remove_other j k m n, e.beq_iff i j, e.beq_iff i k, e.beq_iff j k)

  pub lookup-discard_other :
      (j k : K) (s : LeasePool K C)
      → e.beq j k ≡ false
      → lookup k (discard j s).entries ≡ lookup k s.entries
  lookup-discard_other j k s n = elim (Option-cases (lookup j s.entries)) [
    | inl m ↦ ap (λ p. lookup k p.entries) (discard-none j s m)
    | inr (cached, h) ↦
        ap (λ p. lookup k p.entries) (discard-some j s h) ∙ lookup-remove_other j k s.entries n
  ]

  pub retain-borrowed :
      (alive : C → Bool) (visited : Entries K C) (s : LeasePool K C)
      → (retain alive visited s).borrowed ≡ s.borrowed
  unfolding retain
  retain-borrowed alive [] s = refl
  retain-borrowed alive ((key, cached) ∷ visited) s =
      elim (Bool-cases (alive cached.lease.connection)) [
        | inl t ↦ rw (retain, t) (retain-borrowed alive visited s)
        | inr f ↦
            rw (retain, f) (retain-borrowed alive visited (discard key s) ∙ discard-borrowed key s)
      ]

  -- An idle entry stays, or its permit is free.
  pub retain-idle :
      {max_entries : ℕ} (alive : C → Bool) (visited : Entries K C) (k : K) (s : LeasePool K C)
      {c : CachedLease C}
      → Valid max_entries s
      → lookup k s.entries ≡ some c
      → count c.lease.slot s.borrowed ≡ 0
      → (1 ≤ (retain alive visited s).available)
        ⊎ (lookup k (retain alive visited s).entries ≡ some c)
  unfolding retain
  retain-idle alive [] k s v h z = inr h
  retain-idle alive ((key, cached) ∷ visited) k s {c} v h z =
      elim (Bool-cases (alive cached.lease.connection)) [
        | inl t ↦ rw (retain, t) (retain-idle alive visited k s v h z)
        | inr f ↦
            rw (retain, f)
              (elim (Bool-cases (e.beq key k)) [
                | inl t ↦
                    let found : lookup key s.entries ≡ some c = rw ((e.beq_iff key k).0 t) h in
                    inl (
                      ground (
                        arith,
                        z,
                        discard-available key s v found,
                        retain-frees alive visited (discard key s),
                      ))
                | inr n ↦
                    retain-idle alive visited k (discard key s) {c = c} (discard-Valid key s v)
                      (lookup-discard_other key k s n ∙ h)
                      (ap (count c.lease.slot) (discard-borrowed key s) ∙ z)
              ])
      ]

  abbrev pub kept : (C → Bool) → LeasePool K C → LeasePool K C
  kept alive s = retain alive s.entries s
