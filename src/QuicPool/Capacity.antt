-- ===== src/QuicPool/Capacity.antt =====
-- src/upstream/quic_pool.rs: when a pool is overloaded.
use dns_ingress.Prelude.{
  ℕ, suc, ◌≤◌, ◌≡◌, ◌≢◌, ◌↔◌, refl, sym, ap, ◌∙◌, subst, arith, Bool, true, false, none, some, List,
  [], ◌∷◌, All, Bool-cases, Option-cases, inl, inr, Result, ok, err,
}
use dns_ingress.Prelude.Assoc.{Eq, lookup, Listed, Listed-lookup, lookup-Listed}
use dns_ingress.Error.{DnsProxyError}
use dns_ingress.QuicPool.{
  count, CachedLease, LeasePool, is_idle, discard, retain, least_recent, choose, make_room,
  acquire_slot,
}
use dns_ingress.QuicPool.Valid.{Valid, Entries}
use dns_ingress.QuicPool.Steps.{
  acquired, discard-none, discard-Valid, try_acquire-some, try_acquire-none,
}
use dns_ingress.QuicPool.Calls.{zero-or-suc, retain-Valid, discard-borrowed, discard-absent}
use dns_ingress.QuicPool.Retain.{
  entry-count, discard-available, lookup-discard_other, retain-borrowed, retain-idle, kept,
}
use dns_ingress.QuicPool.Oldest.{none-ne-some, least_recent-none, least_recent-Oldest}

pub All-Listed :
    {A B : Type 0} (P : A × B → Type 0) (x : A × B) (m : List (A × B)) → All P m → Listed x m → P x
All-Listed P x [] a h = absurd h
All-Listed P x (y ∷ m) a (inl h) = subst P (sym h) a.0
All-Listed P x (y ∷ m) a (inr h) = All-Listed P x m a.1 h

module _ {K C : Type 0} ⦃e : Eq K⦄ where
  -- Every entry is in use outside of the cache.
  abbrev pub InUse : LeasePool K C → Type 0
  InUse s = (k : K) (c : CachedLease C) → lookup k s.entries ≡ some c → is_idle s c.lease ≡ false

  abbrev Lent : LeasePool K C → Type 0
  Lent s =
      (k : K) (c : CachedLease C) → lookup k s.entries ≡ some c → count c.lease.slot s.borrowed ≢ 0

  discard-Lent : (key : K) (s : LeasePool K C) → Lent s → Lent (discard key s)
  discard-Lent key s u k c h = elim (Bool-cases (e.beq key k)) [
    | inl t ↦
        let gone : lookup k (discard key s).entries ≡ none =
          rw (sym ((e.beq_iff key k).0 t)) (discard-absent key s) in
        absurd (none-ne-some (sym gone ∙ h))
    | inr n ↦
        subst (λ b. count c.lease.slot b ≢ 0) (sym (discard-borrowed key s))
          (u k c (sym (lookup-discard_other key k s n) ∙ h))
  ]

  discard-full :
      {max_entries : ℕ} (key : K) (s : LeasePool K C)
      → Valid max_entries s
      → Lent s
      → (discard key s).available ≡ s.available
  discard-full key s v u = elim (Option-cases (lookup key s.entries)) [
    | inl n ↦ ap (λ p. p.available) (discard-none key s n)
    | inr (cached, h) ↦ ground (arith, discard-available key s v h, u key cached h)
  ]

  retain-full :
      {max_entries : ℕ} (alive : C → Bool) (visited : Entries K C) (s : LeasePool K C)
      → Valid max_entries s
      → Lent s
      → ((retain alive visited s).available ≡ s.available) × Lent (retain alive visited s)
  unfolding retain
  retain-full alive [] s v u = (refl, u)
  retain-full alive ((key, cached) ∷ visited) s v u =
      elim (Bool-cases (alive cached.lease.connection)) [
        | inl t ↦ rw (retain, t) (retain-full alive visited s v u)
        | inr f ↦
            rw (retain, f)
              (let (free, lent) =
                  retain-full alive visited (discard key s) (discard-Valid key s v)
                    (discard-Lent key s u) in
                (free ∙ discard-full key s v u, lent))
      ]

  pub make_room-none :
      (alive : C → Bool) (s : LeasePool K C)
      → least_recent (kept alive s) (kept alive s).entries ≡ none
      → make_room alive s ≡ kept alive s
  unfolding make_room choose
  make_room-none alive s h = rw (choose, h) refl

  pub make_room-some :
      (alive : C → Bool) (s : LeasePool K C) {x : K × CachedLease C}
      → least_recent (kept alive s) (kept alive s).entries ≡ some x
      → make_room alive s ≡ discard x.0 (kept alive s)
  unfolding make_room choose discard
  make_room-some alive s h = rw (choose, h) refl

  module _ {max_entries : ℕ} where
    -- An entry is idle exactly when no lease of it is in use.
    pub idle_iff :
        (key : K) (s : LeasePool K C) {cached : CachedLease C}
        → Valid max_entries s
        → lookup key s.entries ≡ some cached
        → (is_idle s cached.lease ≡ true) ↔ (count cached.lease.slot s.borrowed ≡ 0)
    idle_iff key s v h = ground (arith, (entry-count key s v h).0)

    discard-room :
        (key : K) (s : LeasePool K C) {cached : CachedLease C}
        → Valid max_entries s
        → lookup key s.entries ≡ some cached
        → is_idle s cached.lease ≡ true
        → 1 ≤ (discard key s).available
    discard-room key s v h i = ground (arith, discard-available key s v h, (idle_iff key s v h).0 i)

    -- An idle entry makes room.
    make_room-idle :
        (alive : C → Bool) (key : K) (s : LeasePool K C) {cached : CachedLease C}
        → Valid max_entries s
        → lookup key s.entries ≡ some cached
        → is_idle s cached.lease ≡ true
        → 1 ≤ (make_room alive s).available
    make_room-idle alive key s {cached} v h i =
        let v' : Valid max_entries (kept alive s) = retain-Valid alive s.entries s v in
        let z : count cached.lease.slot s.borrowed ≡ 0 = (idle_iff key s v h).0 i in
        elim (Option-cases (least_recent (kept alive s) (kept alive s).entries)) [
          | inr ((k, c), r) ↦
              let (l, idle, _) = least_recent-Oldest (kept alive s) (kept alive s).entries r in
              subst (λ p. 1 ≤ p.available) (sym (make_room-some alive s r))
                (discard-room k (kept alive s) v'
                  (Listed-lookup (k, c) (kept alive s).entries v'.mapped l) idle)
          | inl n ↦
              subst (λ p. 1 ≤ p.available) (sym (make_room-none alive s n))
                (elim (retain-idle alive s.entries key s v h z) [
                  | inl free ↦ free
                  | inr stays ↦
                      let idle : is_idle (kept alive s) cached.lease ≡ true =
                        (idle_iff key (kept alive s) v' stays).1
                          (ap (count cached.lease.slot) (retain-borrowed alive s.entries s) ∙ z) in
                      let busy : is_idle (kept alive s) cached.lease ≡ false =
                        All-Listed (λ entry. is_idle (kept alive s) entry.1.lease ≡ false)
                          (key, cached) (kept alive s).entries
                          (least_recent-none (kept alive s) (kept alive s).entries n)
                          (lookup-Listed key (kept alive s).entries stays) in
                      absurd (ground (arith, idle, busy))
                ])
        ]

    make_room-full :
        (alive : C → Bool) (s : LeasePool K C)
        → Valid max_entries s
        → Lent s
        → (make_room alive s).available ≡ s.available
    make_room-full alive s v u =
        let v' : Valid max_entries (kept alive s) = retain-Valid alive s.entries s v in
        let (same, lent) = retain-full alive s.entries s v u in
        elim (Option-cases (least_recent (kept alive s) (kept alive s).entries)) [
          | inl n ↦ ap (λ p. p.available) (make_room-none alive s n) ∙ same
          | inr ((k, c), r) ↦
              ap (λ p. p.available) (make_room-some alive s r)
              ∙ (discard-full k (kept alive s) v' lent ∙ same)
        ]

  pub acquire_slot-free :
      (alive : C → Bool) (busy : DnsProxyError) (s : LeasePool K C) {n : ℕ}
      → s.available ≡ suc n
      → acquire_slot alive busy s ≡ (ok s.next_slot, acquired n s)
  unfolding acquire_slot
  acquire_slot-free alive busy s h = rw (acquire_slot, try_acquire-some s h)

  pub acquire_slot-evicted :
      (alive : C → Bool) (busy : DnsProxyError) (s : LeasePool K C) {n : ℕ}
      → s.available ≡ 0
      → (make_room alive s).available ≡ suc n
      → acquire_slot alive busy s
        ≡ (ok (make_room alive s).next_slot, acquired n (make_room alive s))
  unfolding acquire_slot
  acquire_slot-evicted alive busy s z h =
      rw (acquire_slot, try_acquire-none s z, try_acquire-some (make_room alive s) h)

  pub acquire_slot-busy :
      (alive : C → Bool) (busy : DnsProxyError) (s : LeasePool K C)
      → s.available ≡ 0
      → (make_room alive s).available ≡ 0
      → acquire_slot alive busy s ≡ (err busy, make_room alive s)
  unfolding acquire_slot
  acquire_slot-busy alive busy s z h =
      rw (acquire_slot, try_acquire-none s z, try_acquire-none (make_room alive s) h)

  ok-ne-err :
      {x : DnsProxyError} {n : ℕ} {t : LeasePool K C} (r : Result DnsProxyError ℕ × LeasePool K C)
      → r ≡ (ok n, t)
      → ¬ (r.0 ≡ err x)
  ok-ne-err r h b = cc

  refused :
      {max_entries : ℕ} (alive : C → Bool) (busy : DnsProxyError) (s : LeasePool K C)
      → Valid max_entries s
      → (acquire_slot alive busy s).0 ≡ err busy
      → (s.available ≡ 0) × InUse s
  refused alive busy s v h = elim (zero-or-suc s.available) [
    | inr (n, p) ↦ absurd (ok-ne-err _ (acquire_slot-free alive busy s p) h)
    | inl z ↦ elim (zero-or-suc (make_room alive s).available) [
      | inr (n, p) ↦ absurd (ok-ne-err _ (acquire_slot-evicted alive busy s z p) h)
      | inl full ↦ (
        z,
        λ k c l. elim (Bool-cases (is_idle s c.lease)) [
          | inl t ↦ absurd (omega (arith, make_room-idle alive k s v l t, full))
          | inr f ↦ f
        ],
      )
    ]
  ]

  in_use :
      {max_entries : ℕ} (alive : C → Bool) (busy : DnsProxyError) (s : LeasePool K C)
      → Valid max_entries s
      → (s.available ≡ 0) × InUse s
      → acquire_slot alive busy s ≡ (err busy, make_room alive s)
  in_use alive busy s v (z, u) =
      let lent : Lent s = λ k c l. λ b. absurd (ground (arith, u k c l, (idle_iff k s v l).1 b)) in
      acquire_slot-busy alive busy s z (make_room-full alive s v lent ∙ z)

  -- A slot is refused, with the overload error, exactly when no permit is free and every cached
  -- connection is in use, whether it is alive or not: an entry that nobody uses is evicted first.
  pub acquire_slot_iff :
      {max_entries : ℕ} (alive : C → Bool) (busy : DnsProxyError) (s : LeasePool K C)
      → Valid max_entries s
      → ((acquire_slot alive busy s).0 ≡ err busy) ↔ ((s.available ≡ 0) × InUse s)
  acquire_slot_iff alive busy s v =
      (refused alive busy s v, λ h. ap (λ r. r.0) (in_use alive busy s v h))
