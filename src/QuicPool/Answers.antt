-- ===== src/QuicPool/Answers.antt =====
-- src/upstream/quic_pool.rs: what a call of `get` answers, and the pool it leaves behind.
use dns_ingress.Prelude.{
  ℕ, ◌≡◌, ◌≢◌, refl, sym, ap, ◌∙◌, subst, Bool, Option, none, some, ◌∷◌, Option-cases, inl, inr,
  Result, ok, err,
}
use dns_ingress.Prelude.Assoc.{Eq}
use dns_ingress.Error.{DnsProxyError}
use dns_ingress.QuicPool.{
  count, remove_one, Lease, LeasePool, discard, hit, publish, acquire_slot, connected, rechecked,
  owning, looked, get, drop_slot,
}
use dns_ingress.QuicPool.Slots.{remove_one-same}
use dns_ingress.QuicPool.Valid.{Valid}
use dns_ingress.QuicPool.Steps.{discard-Valid, drop_slot-Valid}
use dns_ingress.QuicPool.Calls.{
  hit-Valid, hit-reserved, publish-Valid, discard-reserved, discard-borrowed,
}
use dns_ingress.QuicPool.Sections.{
  Acquired, Good, Left, Left-same, acquire_slot-cases, hit-Cached, look-hit, look-miss, own,
  publish-Left,
}

module _ {K C : Type 0} ⦃e : Eq K⦄ {max_entries : ℕ} (alive : ℕ → C → Bool) (now : ℕ → ℕ)
    (busy : DnsProxyError) (connecting : Result DnsProxyError C) (key : K) where
  drop_slot-Good :
      (slot : ℕ) (s t : LeasePool K C) (r : Result DnsProxyError (Lease C))
      → Valid max_entries t
      → t.reserved ≡ slot ∷ s.reserved
      → Left key s (r, record t { reserved = s.reserved })
      → Good max_entries key s (r, drop_slot slot t)
  drop_slot-Good slot s t r v h l =
      (drop_slot-Valid slot t v (rw h (own slot s.reserved)), kept_rest r l)
    where
      rest : remove_one slot t.reserved ≡ s.reserved
      rest = ap (remove_one slot) h ∙ remove_one-same slot s.reserved

      kept_rest :
          (r : Result DnsProxyError (Lease C))
          → Left key s (r, record t { reserved = s.reserved })
          → Left key s (r, drop_slot slot t)
      kept_rest (ok lease) l = (l.0, rest, l.2)
      kept_rest (err x) l = (l.0, rest)

  connected-Good :
      (slot : ℕ) (s t : LeasePool K C) (c : Result DnsProxyError C)
      → Valid max_entries t
      → Acquired slot s t
      → Good max_entries key s (connected alive now busy connecting key slot t c)
  unfolding connected
  connected-Good slot s t (err x) v (lent, owns) =
      drop_slot-Good slot s t (err x) v owns (lent, refl)
  connected-Good slot s t (ok c) v (lent, owns) =
      let own_slot : count slot t.reserved ≢ 0 = rw owns (own slot s.reserved) in
      let v' : Valid max_entries (publish (alive 3) (now 2) key c slot t).1 =
        publish-Valid (alive 3) (now 2) key c slot t v own_slot in
      (v', publish-Left (alive 3) (now 2) key slot s t c (lent, owns))

  rechecked-Good :
      (slot : ℕ) (s t : LeasePool K C) (o : Option (Lease C × LeasePool K C))
      → hit (alive 2) (now 1) key t ≡ o
      → Valid max_entries t
      → Acquired slot s t
      → Good max_entries key s (rechecked alive now busy connecting key slot t o)
  unfolding rechecked
  rechecked-Good slot s t none h v a = connected-Good slot s t connecting v a
  rechecked-Good slot s t (some (lease, u)) h v (lent, owns) =
      let (owns', lent') = hit-reserved (alive 2) (now 1) key t h in
      drop_slot-Good slot s u (ok lease) (hit-Valid (alive 2) (now 1) key t v h) (owns' ∙ owns)
        (lent' ∙ ap (◌∷◌ lease.slot) lent, refl, hit-Cached (alive 2) (now 1) key t h)

  owning-Good :
      (s : LeasePool K C)
      → Valid max_entries s
      → Good max_entries key s
          (owning alive now busy connecting key (acquire_slot (alive 1) busy s))
  unfolding owning
  owning-Good s v =
      let (t, v', c) = acquire_slot-cases (alive 1) busy s v in
      elim c [
        | inl (slot, same, a) ↦
            subst (λ r. Good max_entries key s (owning alive now busy connecting key r)) (sym same)
              (rechecked-Good slot s t (hit (alive 2) (now 1) key t) refl v' a)
        | inr (same, lent, owns) ↦
            subst (λ r. Good max_entries key s (owning alive now busy connecting key r)) (sym same)
              (v', (lent, owns))
      ]

  -- A call that answers a lease leaves it cached for its key and holds one reference more to its
  -- slot; a call that fails leaves no reference and no slot behind. Either way the pool stays valid.
  pub get-Left :
      (s : LeasePool K C)
      → Valid max_entries s
      → Valid max_entries (get alive now busy connecting key s).1
        × Left key s (get alive now busy connecting key s)
  unfolding get looked
  get-Left s v = elim (Option-cases (hit (alive 0) (now 0) key s)) [
    | inl n ↦
        let (v', l) = owning-Good (discard key s) (discard-Valid key s v) in
        subst (λ r. Good max_entries key s (looked alive now busy connecting key r))
          (sym (look-miss (alive 0) (now 0) key s n))
          (
            v',
            Left-same key s (discard key s) _ (discard-borrowed key s) (discard-reserved key s) l,
          )
    | inr ((lease, t), h) ↦
        let (owns, lent) = hit-reserved (alive 0) (now 0) key s h in
        subst (λ r. Good max_entries key s (looked alive now busy connecting key r))
          (sym (look-hit (alive 0) (now 0) key s h))
          (
            hit-Valid (alive 0) (now 0) key s v h,
            (lent, owns, hit-Cached (alive 0) (now 0) key s h),
          )
  ]
