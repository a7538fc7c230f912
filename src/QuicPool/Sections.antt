-- ===== src/QuicPool/Sections.antt =====
-- src/upstream/quic_pool.rs: what the sections of a call leave behind.
use dns_ingress.Prelude.{
  ℕ, ◌≡◌, ◌≢◌, ◌⊎◌, refl, sym, ap, ◌∙◌, subst, arith, Bool, ==_refl, none, some, List, ◌∷◌,
  Option-cases, inl, inr, Result, ok, err,
}
use dns_ingress.Prelude.Assoc.{Eq, lookup, insert, lookup-insert, beq_refl}
use dns_ingress.Error.{DnsProxyError}
use dns_ingress.QuicPool.{
  count, remove_one, Lease, CachedLease, LeasePool, discard, hit, look, least_recent, make_room,
  publish, acquire_slot,
}
use dns_ingress.QuicPool.Slots.{remove_one-same}
use dns_ingress.QuicPool.Valid.{Valid, Entries}
use dns_ingress.QuicPool.Steps.{acquired, hit-some, acquired-Valid, discard-Valid}
use dns_ingress.QuicPool.Calls.{
  zero-or-suc, hit-reserved, discard-reserved, discard-borrowed, retain-reserved, retain-Valid,
}
use dns_ingress.QuicPool.Capacity.{
  make_room-none, make_room-some, acquire_slot-free, acquire_slot-evicted, acquire_slot-busy,
}
use dns_ingress.QuicPool.Retain.{kept, retain-borrowed}

pub own : (x : ℕ) (xs : List ℕ) → count x (x ∷ xs) ≢ 0
unfolding count
own x xs = ground (arith, ==_refl x)

module _ {K C : Type 0} ⦃e : Eq K⦄ where
  -- The cache has the lease for the key.
  abbrev pub Cached : K → Lease C → LeasePool K C → Type 0
  Cached key lease s =
      (cached : CachedLease C) × (lookup key s.entries ≡ some cached) × (cached.lease ≡ lease)

  -- The references that a call leaves: its lease is one more, and an error leaves none.
  abbrev pub Left : K → LeasePool K C → Result DnsProxyError (Lease C) × LeasePool K C → Type 0
  Left key s (ok lease, t) =
      (t.borrowed ≡ lease.slot ∷ s.borrowed) × (t.reserved ≡ s.reserved) × Cached key lease t
  Left key s (err x, t) = (t.borrowed ≡ s.borrowed) × (t.reserved ≡ s.reserved)

  -- The pool is valid, with the references that the answer says.
  abbrev pub Good : ℕ → K → LeasePool K C → Result DnsProxyError (Lease C) × LeasePool K C → Type 0
  Good max_entries key s r = Valid max_entries r.1 × Left key s r

  pub Left-same :
      (key : K) (s t : LeasePool K C) (r : Result DnsProxyError (Lease C) × LeasePool K C)
      → t.borrowed ≡ s.borrowed
      → t.reserved ≡ s.reserved
      → Left key t r
      → Left key s r
  Left-same key s t (ok lease, u) b o (b', o', c) = (b' ∙ ap (◌∷◌ lease.slot) b, o' ∙ o, c)
  Left-same key s t (err x, u) b o (b', o') = (b' ∙ b, o' ∙ o)

  lookup-insert_self :
      (key : K) (c : CachedLease C) (m : Entries K C) → lookup key (insert key c m) ≡ some c
  lookup-insert_self key c m = lookup-insert key key c m ∙ rw (beq_refl key) refl

  pub hit-Cached :
      (alive : C → Bool) (now : ℕ) (key : K) (s : LeasePool K C) {lease : Lease C}
      {t : LeasePool K C}
      → hit alive now key s ≡ some (lease, t)
      → Cached key lease t
  hit-Cached alive now key s h =
      let (cached, _, _, same, after) = hit-some alive now key s h in
      (
        record cached { last_used = now },
        ap (λ p. lookup key p.entries) after ∙ lookup-insert_self key _ s.entries,
        sym same,
      )

  pub look-hit :
      (alive : C → Bool) (now : ℕ) (key : K) (s : LeasePool K C) {lease : Lease C}
      {t : LeasePool K C}
      → hit alive now key s ≡ some (lease, t)
      → look alive now key s ≡ (some lease, t)
  unfolding look
  look-hit alive now key s h = rw (look, h) refl

  pub look-miss :
      (alive : C → Bool) (now : ℕ) (key : K) (s : LeasePool K C)
      → hit alive now key s ≡ none
      → look alive now key s ≡ (none, discard key s)
  unfolding look
  look-miss alive now key s h = rw (look, h) refl

  -- What holds of the slot that a call acquires.
  abbrev pub Acquired : ℕ → LeasePool K C → LeasePool K C → Type 0
  Acquired slot s t = (t.borrowed ≡ s.borrowed) × (t.reserved ≡ slot ∷ s.reserved)

  make_room-same :
      (alive : C → Bool) (s : LeasePool K C)
      → ((make_room alive s).borrowed ≡ s.borrowed) × ((make_room alive s).reserved ≡ s.reserved)
  make_room-same alive s =
      elim (Option-cases (least_recent (kept alive s) (kept alive s).entries)) [
        | inl n ↦ (
          ap (λ p. p.borrowed) (make_room-none alive s n) ∙ retain-borrowed alive s.entries s,
          ap (λ p. p.reserved) (make_room-none alive s n) ∙ retain-reserved alive s.entries s,
        )
        | inr ((k, c), r) ↦ (
          ap (λ p. p.borrowed) (make_room-some alive s r)
              ∙ (discard-borrowed k (kept alive s) ∙ retain-borrowed alive s.entries s),
          ap (λ p. p.reserved) (make_room-some alive s r)
              ∙ (discard-reserved k (kept alive s) ∙ retain-reserved alive s.entries s),
        )
      ]

  make_room-Valid :
      {max_entries : ℕ} (alive : C → Bool) (s : LeasePool K C)
      → Valid max_entries s
      → Valid max_entries (make_room alive s)
  make_room-Valid {max_entries} alive s v =
      let v' : Valid max_entries (kept alive s) = retain-Valid alive s.entries s v in
      elim (Option-cases (least_recent (kept alive s) (kept alive s).entries)) [
        | inl n ↦ subst (Valid max_entries) (sym (make_room-none alive s n)) v'
        | inr ((k, c), r) ↦
            subst (Valid max_entries) (sym (make_room-some alive s r))
              (discard-Valid k (kept alive s) v')
      ]

  -- A slot is the call's alone, or the call is refused and holds nothing.
  pub acquire_slot-cases :
      {max_entries : ℕ} (alive : C → Bool) (busy : DnsProxyError) (s : LeasePool K C)
      → Valid max_entries s
      → (t : LeasePool K C) × Valid max_entries t
        × (((slot : ℕ) × (acquire_slot alive busy s ≡ (ok slot, t)) × Acquired slot s t)
            ⊎ ((acquire_slot alive busy s ≡ (err busy, t))
                × (t.borrowed ≡ s.borrowed)
                × (t.reserved ≡ s.reserved)))
  acquire_slot-cases alive busy s v =
      let roomy : LeasePool K C = make_room alive s in
      let (lent, owns) = make_room-same alive s in
      elim (zero-or-suc s.available) [
        | inr (n, p) ↦ (
          acquired n s,
          acquired-Valid s v p,
          inl (s.next_slot, acquire_slot-free alive busy s p, (refl, refl)),
        )
        | inl z ↦ elim (zero-or-suc roomy.available) [
          | inr (n, p) ↦ (
            acquired n roomy,
            acquired-Valid roomy (make_room-Valid alive s v) p,
            inl (
              roomy.next_slot,
              acquire_slot-evicted alive busy s z p,
              (lent, ap (◌∷◌ roomy.next_slot) owns),
            ),
          )
          | inl full ↦ (
            roomy,
            make_room-Valid alive s v,
            inr (acquire_slot-busy alive busy s z full, lent, owns),
          )
        ]
      ]

  pub publish-Left :
      (alive : C → Bool) (now : ℕ) (key : K) (slot : ℕ) (s t : LeasePool K C) (c : C)
      → Acquired slot s t
      → Left key s (ok (publish alive now key c slot t).0, (publish alive now key c slot t).1)
  unfolding publish
  publish-Left alive now key slot s t c (lent, owns) = elim (Option-cases (hit alive now key t)) [
    | inl n ↦
        rw (publish, n)
          (
            ap (◌∷◌ slot) (discard-borrowed key t ∙ lent),
            ap (remove_one slot) (discard-reserved key t ∙ owns) ∙ remove_one-same slot s.reserved,
            (_, lookup-insert_self key _ (discard key t).entries, refl),
          )
    | inr ((lease, u), h) ↦
        let (owns', lent') = hit-reserved alive now key t h in
        rw (publish, h)
          (
            lent' ∙ ap (◌∷◌ lease.slot) lent,
            ap (remove_one slot) (owns' ∙ owns) ∙ remove_one-same slot s.reserved,
            hit-Cached alive now key t h,
          )
  ]
