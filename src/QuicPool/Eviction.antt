-- ===== src/QuicPool/Eviction.antt =====
-- src/upstream/quic_pool.rs: the entry that is evicted is the least recently used of the live idle
-- ones.
use dns_ingress.Prelude.{
  ℕ, ◌≤◌, ◌≡◌, refl, sym, ap, ◌∙◌, subst, arith, Bool, true, false, none, some, [], ◌∷◌, Bool-cases,
  Option-cases, inl, inr,
}
use dns_ingress.Prelude.Assoc.{Eq, lookup, IsMap, Lacks, Listed, Listed-lookup, lookup-Listed}
use dns_ingress.QuicPool.{
  count, CachedLease, LeasePool, is_idle, discard, retain, least_recent, choose,
}
use dns_ingress.QuicPool.Valid.{Valid, Entries}
use dns_ingress.QuicPool.Steps.{take_out-some}
use dns_ingress.QuicPool.Calls.{retain-Valid, discard-absent}
use dns_ingress.QuicPool.Retain.{kept, lookup-discard_other, retain-borrowed}
use dns_ingress.QuicPool.Oldest.{none-ne-some, some_same, least_recent-Oldest}
use dns_ingress.QuicPool.Capacity.{idle_iff, All-Listed}

module _ {K : Type 0} ⦃e : Eq K⦄ where
  differs : (a b : K) → e.beq b a ≡ false → e.beq a b ≡ false
  differs a b h = elim (Bool-cases (e.beq a b)) [
    | inl t ↦ absurd (ground (arith, (e.beq_iff b a).1 (sym ((e.beq_iff a b).0 t)), h))
    | inr f ↦ f
  ]

module _ {K C : Type 0} ⦃e : Eq K⦄ where
  discard-found :
      (j k : K) (s : LeasePool K C) {c : CachedLease C}
      → lookup k (discard j s).entries ≡ some c
      → (e.beq j k ≡ false) × (lookup k s.entries ≡ some c)
  discard-found j k s {c} h = elim (Bool-cases (e.beq j k)) [
    | inl t ↦
        let gone : lookup k (discard j s).entries ≡ none =
          rw (sym ((e.beq_iff j k).0 t)) (discard-absent j s) in
        absurd (none-ne-some (sym gone ∙ h))
    | inr n ↦ (n, sym (lookup-discard_other j k s n) ∙ h)
  ]

  -- What is in the cache after `retain` was there before.
  retain-found :
      (alive : C → Bool) (visited : Entries K C) (k : K) (s : LeasePool K C) {c : CachedLease C}
      → lookup k (retain alive visited s).entries ≡ some c
      → lookup k s.entries ≡ some c
  unfolding retain
  retain-found alive [] k s h = h
  retain-found alive ((key, cached) ∷ visited) k s {c} h =
      elim (Bool-cases (alive cached.lease.connection)) [
        | inl t ↦ retain-found alive visited k s {c = c} (rw (retain, t) at h)
        | inr f ↦
            (discard-found key k s {c = c}
              (retain-found alive visited k (discard key s) {c = c} (rw (retain, f) at h))).1
      ]

  Lacks-Listed :
      (k : K) (m : Entries K C) (entry : K × CachedLease C)
      → Lacks k m
      → Listed entry m
      → e.beq k entry.0 ≡ false
  Lacks-Listed k [] entry l h = absurd h
  Lacks-Listed k (x ∷ m) entry l (inl h) =
      subst (λ z. e.beq k z.0 ≡ false) (sym h) (differs k x.0 l.0)
  Lacks-Listed k (x ∷ m) entry l (inr h) = Lacks-Listed k m entry l.1 h

  -- `retain` keeps a live entry.
  retain-live :
      (alive : C → Bool) (visited : Entries K C) (k : K) (s : LeasePool K C) {c : CachedLease C}
      → IsMap visited
      → ((j : K) (d : CachedLease C) → Listed (j, d) visited → lookup j s.entries ≡ some d)
      → lookup k s.entries ≡ some c
      → alive c.lease.connection ≡ true
      → lookup k (retain alive visited s).entries ≡ some c
  unfolding retain
  retain-live alive [] k s m agree h a = h
  retain-live alive ((key, cached) ∷ visited) k s {c} m agree h a =
      elim (Bool-cases (alive cached.lease.connection)) [
        | inl t ↦
            rw (retain, t)
              (retain-live alive visited k s {c = c} m.1 (λ j d l. agree j d (inr l)) h a)
        | inr f ↦
            rw (retain, f)
              (elim (Bool-cases (e.beq key k)) [
                | inl t ↦
                    let there : lookup k s.entries ≡ some cached =
                      rw (sym ((e.beq_iff key k).0 t)) (agree key cached (inl refl)) in
                    let same : cached ≡ c = some_same (sym there ∙ h) in
                    absurd (ground (arith, f, a, ap (λ d. alive d.lease.connection) same))
                | inr n ↦
                    retain-live alive visited k (discard key s) {c = c} m.1
                      (λ j d l.
                        lookup-discard_other key j s (Lacks-Listed key visited (j, d) m.0 l)
                        ∙ agree j d (inr l))
                      (lookup-discard_other key k s n ∙ h) a
              ])
      ]

  choose-some :
      (alive : C → Bool) (s : LeasePool K C) {x : K × CachedLease C}
      → least_recent (kept alive s) (kept alive s).entries ≡ some x
      → lookup x.0 (kept alive s).entries ≡ some x.1
      → (choose alive s).0 ≡ some x.1.lease.slot
  unfolding choose
  choose-some alive s {x} h l = rw (choose, h) (ap (λ r. r.0) (take_out-some x.0 (kept alive s) l))

  choose-none :
      (alive : C → Bool) (s : LeasePool K C)
      → least_recent (kept alive s) (kept alive s).entries ≡ none
      → (choose alive s).0 ≡ none
  unfolding choose
  choose-none alive s h = rw (choose, h) refl

  -- The entry that is evicted is idle, and no live idle entry was used less recently.
  pub choose-least :
      {max_entries slot : ℕ} (alive : C → Bool) (s : LeasePool K C)
      → Valid max_entries s
      → (choose alive s).0 ≡ some slot
      → (key : K) × (cached : CachedLease C) × (cached.lease.slot ≡ slot)
        × (lookup key s.entries ≡ some cached)
        × (is_idle s cached.lease ≡ true)
        × ((k : K) (c : CachedLease C)
            → lookup k s.entries ≡ some c
            → alive c.lease.connection ≡ true
            → is_idle s c.lease ≡ true
            → cached.last_used ≤ c.last_used)
  choose-least {max_entries} alive s v h =
      let v' : Valid max_entries (kept alive s) = retain-Valid alive s.entries s v in
      let same : (kept alive s).borrowed ≡ s.borrowed = retain-borrowed alive s.entries s in
      elim (Option-cases (least_recent (kept alive s) (kept alive s).entries)) [
        | inl n ↦ absurd (none-ne-some (sym (choose-none alive s n) ∙ h))
        | inr (x, r) ↦
            let (l, idle, least) = least_recent-Oldest (kept alive s) (kept alive s).entries r in
            let found : lookup x.0 (kept alive s).entries ≡ some x.1 =
              Listed-lookup x (kept alive s).entries v'.mapped l in
            let before : lookup x.0 s.entries ≡ some x.1 =
              retain-found alive s.entries x.0 s found in
            (
              x.0,
              x.1,
              some_same (sym (choose-some alive s {x = x} r found) ∙ h),
              before,
              (idle_iff x.0 s v before).1 (
                  ap (count x.1.lease.slot) (sym same)
                  ∙ (idle_iff x.0 (kept alive s) v' found).0 idle),
              λ k c in_s live unused.
                  let stays : lookup k (kept alive s).entries ≡ some c =
                    retain-live alive s.entries k s {c = c} v.mapped
                      (λ j d i. Listed-lookup (j, d) s.entries v.mapped i) in_s live in
                  All-Listed
                    (λ entry.
                      is_idle (kept alive s) entry.1.lease ≡ true
                      → x.1.last_used ≤ entry.1.last_used)
                    (k, c) (kept alive s).entries least
                    (lookup-Listed k (kept alive s).entries stays)
                    ((idle_iff k (kept alive s) v' stays).1
                      (ap (count c.lease.slot) same ∙ (idle_iff k s v in_s).0 unused)),
            )
      ]
