-- ===== src/QuicPool/Held.antt =====
-- src/upstream/quic_pool.rs: a cached lease when another lease is dropped or its key is discarded.
use dns_ingress.Prelude.{ℕ, ◌≡◌, ap, ◌∙◌, none, ◌∷◌, ok}
use dns_ingress.Prelude.Assoc.{Eq, lookup}
use dns_ingress.QuicPool.{remove_one, Lease, LeasePool, discard, drop_lease}
use dns_ingress.QuicPool.Slots.{remove_one-same}
use dns_ingress.QuicPool.Valid.{Valid}
use dns_ingress.QuicPool.Steps.{discard-Valid, drop_lease-Valid}
use dns_ingress.QuicPool.Calls.{discard-reserved, discard-borrowed, discard-absent}
use dns_ingress.QuicPool.Sections.{Cached, Left, own}

module _ {K C : Type 0} ⦃e : Eq K⦄ {max_entries : ℕ} where
  -- A lease that ends gives back its reference, and its connection stays cached.
  pub drop_lease-Left :
      (key : K) (lease : Lease C) (s t : LeasePool K C)
      → Valid max_entries t
      → Left key s (ok lease, t)
      → Valid max_entries (drop_lease lease.slot t)
        × ((drop_lease lease.slot t).borrowed ≡ s.borrowed)
        × ((drop_lease lease.slot t).reserved ≡ s.reserved)
        × Cached key lease (drop_lease lease.slot t)
  drop_lease-Left key lease s t v (lent, owns, cached) = (
    drop_lease-Valid lease.slot t v (rw lent (own lease.slot s.borrowed)),
    ap (remove_one lease.slot) lent ∙ remove_one-same lease.slot s.borrowed,
    owns,
    cached,
  )

  -- After an invalidation it gives back its reference all the same, and nothing is cached.
  pub discard-Left :
      (key : K) (lease : Lease C) (s t : LeasePool K C)
      → Valid max_entries t
      → Left key s (ok lease, t)
      → Valid max_entries (drop_lease lease.slot (discard key t))
        × ((drop_lease lease.slot (discard key t)).borrowed ≡ s.borrowed)
        × ((drop_lease lease.slot (discard key t)).reserved ≡ s.reserved)
        × (lookup key (drop_lease lease.slot (discard key t)).entries ≡ none)
  discard-Left key lease s t v (lent, owns, cached) =
      let lent' : (discard key t).borrowed ≡ lease.slot ∷ s.borrowed =
        discard-borrowed key t ∙ lent in
      (
        drop_lease-Valid lease.slot (discard key t) (discard-Valid key t v)
            (rw lent' (own lease.slot s.borrowed)),
        ap (remove_one lease.slot) lent' ∙ remove_one-same lease.slot s.borrowed,
        discard-reserved key t ∙ owns,
        discard-absent key t,
      )
