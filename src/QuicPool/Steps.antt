-- ===== src/QuicPool/Steps.antt =====
-- src/upstream/quic_pool.rs: each change of a pool keeps it valid.
use dns_ingress.Prelude.{
  ℕ, suc, ◌≡◌, ◌≢◌, refl, sym, ap, ◌∙◌, subst, arith, ==_refl, Bool, true, Option, none, some, List,
  ◌∷◌, ◌++◌, length, Bool-cases, Option-cases, inl, inr,
}
use dns_ingress.Prelude.Assoc.{Eq, lookup, insert, remove, IsMap, IsMap-insert, IsMap-remove}
use dns_ingress.QuicPool.{
  count, remove_one, Lease, CachedLease, LeasePool, slots_of, references, settle, drop_lease,
  drop_slot, drop_taken, put, take_out, discard, hit, try_acquire, with_root_store,
}
use dns_ingress.QuicPool.Slots.{
  distinct, Inserted, here, Inserted-after, Inserted-before, count-Inserted, length-Inserted,
  distinct-Inserted, count-append, remove_one-Inserted, moved, apart-Inserted, remove_one-same,
}
use dns_ingress.QuicPool.Valid.{
  Valid, owned, settle-Valid, slots_of-remove, slots_of-insert, slots_of-replace, lookup-count,
}

pub pair_left :
    {A B : Type 0} {a a' : A} {b b' : B}
    → ◌≡◌ {A = Option (A × B)} (some (a, b)) (some (a', b'))
    → a ≡ a'
pair_left h = cc

pub pair_right :
    {A B : Type 0} {a a' : A} {b b' : B}
    → ◌≡◌ {A = Option (A × B)} (some (a, b)) (some (a', b'))
    → b ≡ b'
pair_right h = cc

module _ {K C : Type 0} ⦃e : Eq K⦄ where
  abbrev pub taken : K → CachedLease C → LeasePool K C → LeasePool K C
  taken key cached s = record s {
    entries = remove key s.entries;
    borrowed = cached.lease.slot ∷ s.borrowed;
  }

  abbrev pub touched : ℕ → K → CachedLease C → LeasePool K C → LeasePool K C
  touched now key cached s = record s {
    entries = insert key (record cached { last_used = now }) s.entries;
    borrowed = cached.lease.slot ∷ s.borrowed;
  }

  pub take_out-none :
      (key : K) (s : LeasePool K C) → lookup key s.entries ≡ none → take_out key s ≡ (none, s)
  unfolding take_out
  take_out-none key s h = rw (take_out, h)

  pub take_out-some :
      (key : K) (s : LeasePool K C) {cached : CachedLease C}
      → lookup key s.entries ≡ some cached
      → take_out key s ≡ (some cached.lease.slot, taken key cached s)
  unfolding take_out
  take_out-some key s h = rw (take_out, h)

  pub discard-none : (key : K) (s : LeasePool K C) → lookup key s.entries ≡ none → discard key s ≡ s
  unfolding discard
  discard-none key s h = ap drop_taken (take_out-none key s h)

  pub discard-some :
      (key : K) (s : LeasePool K C) {cached : CachedLease C}
      → lookup key s.entries ≡ some cached
      → discard key s ≡ settle cached.lease.slot (record s { entries = remove key s.entries })
  unfolding discard
  discard-some key s {cached} h =
      ap drop_taken (take_out-some key s h)
      ∙ ap
          (λ b.
            settle cached.lease.slot (record s { entries = remove key s.entries; borrowed = b }))
          (remove_one-same cached.lease.slot s.borrowed)

  -- A permit taken for a new slot.
  abbrev pub acquired : ℕ → LeasePool K C → LeasePool K C
  acquired left s = record s {
    available = left;
    reserved = s.next_slot ∷ s.reserved;
    next_slot = suc s.next_slot;
  }

  pub try_acquire-some :
      (s : LeasePool K C) {n : ℕ}
      → s.available ≡ suc n
      → try_acquire s ≡ some (s.next_slot, acquired n s)
  unfolding try_acquire
  try_acquire-some s h = rw (try_acquire, h)

  pub try_acquire-none : (s : LeasePool K C) → s.available ≡ 0 → try_acquire s ≡ none
  unfolding try_acquire
  try_acquire-none s h = rw (try_acquire, h)

  pub hit-none :
      (alive : C → Bool) (now : ℕ) (key : K) (s : LeasePool K C)
      → lookup key s.entries ≡ none
      → hit alive now key s ≡ none
  unfolding hit
  hit-none alive now key s h = rw (hit, h)

  -- A hit is on a live entry of the key.
  pub hit-some :
      (alive : C → Bool) (now : ℕ) (key : K) (s : LeasePool K C) {lease : Lease C}
      {t : LeasePool K C}
      → hit alive now key s ≡ some (lease, t)
      → (cached : CachedLease C) × (lookup key s.entries ≡ some cached)
        × (alive cached.lease.connection ≡ true)
        × (lease ≡ cached.lease)
        × (t ≡ touched now key cached s)
  unfolding hit
  hit-some alive now key s h = elim (Option-cases (lookup key s.entries)) [
    | inl n ↦ absurd (ground (arith, rw (hit, n) at h))
    | inr (cached, l) ↦ elim (Bool-cases (alive cached.lease.connection)) [
      | inr f ↦ absurd (ground (arith, rw (hit, l, f) at h))
      | inl t ↦
          let r : hit alive now key s ≡ some (cached.lease, touched now key cached s) =
            rw (hit, l, t) in
          (cached, l, t, pair_left (sym h ∙ r), pair_right (sym h ∙ r))
    ]
  ]

module _ {K C : Type 0} ⦃e : Eq K⦄ {max_entries : ℕ} where
  pub new-Valid : Valid max_entries (with_root_store {K = K} {C = C} max_entries)
  unfolding slots_of distinct count
  new-Valid = record { mapped = tt; apart = refl; fresh = λ x l. refl; permits = omega arith }

  pub drop_lease-Valid :
      (x : ℕ) (s : LeasePool K C)
      → Valid max_entries s
      → count x s.borrowed ≢ 0
      → Valid max_entries (drop_lease x s)
  drop_lease-Valid x s v n =
      settle-Valid x s (record s { borrowed = remove_one x s.borrowed }) v
        (Inserted-before (owned s) (remove_one-Inserted x s.borrowed n)) v.mapped v.apart refl refl

  pub drop_slot-Valid :
      (x : ℕ) (s : LeasePool K C)
      → Valid max_entries s
      → count x s.reserved ≢ 0
      → Valid max_entries (drop_slot x s)
  drop_slot-Valid x s v n =
      let less : Inserted x (slots_of s.entries ++ remove_one x s.reserved) (owned s) =
        Inserted-after (slots_of s.entries) (remove_one-Inserted x s.reserved n) in
      settle-Valid x s (record s { reserved = remove_one x s.reserved }) v
        (Inserted-after s.borrowed less) v.mapped (apart-Inserted less v.apart).0 refl refl

  -- The permits are where they were, and no number is given out.
  pub moved-Valid :
      {x : ℕ} {rest : List ℕ} (s t : LeasePool K C)
      → Valid max_entries s
      → Inserted x rest (references s)
      → Inserted x rest (references t)
      → IsMap t.entries
      → distinct (owned t) ≡ length (owned t)
      → t.available ≡ s.available
      → t.next_slot ≡ s.next_slot
      → Valid max_entries t
  moved-Valid s t v i j m a free next =
      let (same, _, counts) = moved i j in
      record {
        mapped = m;
        apart = a;
        fresh = λ y l. ground (arith, v.fresh y, next, l, counts y);
        permits = ground (arith, v.permits, same, free);
      }

  pub taken-Valid :
      (key : K) (s : LeasePool K C) {cached : CachedLease C}
      → Valid max_entries s
      → lookup key s.entries ≡ some cached
      → Valid max_entries (taken key cached s)
  taken-Valid key s {cached} v h =
      let out : Inserted cached.lease.slot (slots_of (remove key s.entries)) (slots_of s.entries) =
        slots_of-remove key s.entries v.mapped h in
      let less : Inserted cached.lease.slot (owned (taken key cached s)) (owned s) =
        Inserted-before s.reserved out in
      moved-Valid s (taken key cached s) v (Inserted-after s.borrowed less) here
        (IsMap-remove key s.entries v.mapped) (apart-Inserted less v.apart).0 refl refl

  pub discard-Valid :
      (key : K) (s : LeasePool K C) → Valid max_entries s → Valid max_entries (discard key s)
  discard-Valid key s v = elim (Option-cases (lookup key s.entries)) [
    | inl n ↦ subst (Valid max_entries) (sym (discard-none key s n)) v
    | inr (cached, h) ↦
        let less : Inserted cached.lease.slot (slots_of (remove key s.entries) ++ s.reserved)
            (owned s) =
          Inserted-before s.reserved (slots_of-remove key s.entries v.mapped h) in
        subst (Valid max_entries) (sym (discard-some key s h)) (
          settle-Valid cached.lease.slot s (record s { entries = remove key s.entries }) v
            (Inserted-after s.borrowed less) (IsMap-remove key s.entries v.mapped)
            (apart-Inserted less v.apart).0 refl refl)
  ]

  pub touched-Valid :
      (now : ℕ) (key : K) (s : LeasePool K C) {cached : CachedLease C}
      → Valid max_entries s
      → lookup key s.entries ≡ some cached
      → Valid max_entries (touched now key cached s)
  unfolding distinct count
  touched-Valid now key s {cached} v h =
      let slots : slots_of (insert key (record cached { last_used = now }) s.entries)
          ≡ slots_of s.entries =
        slots_of-replace key cached (record cached { last_used = now }) s.entries h refl in
      let listed : count cached.lease.slot (references s) ≢ 0 = grind (
        arith,
        lookup-count key s.entries h,
        count-append cached.lease.slot s.borrowed (owned s),
        count-append cached.lease.slot (slots_of s.entries) s.reserved,
      ) in
      record {
        mapped = IsMap-insert key (record cached { last_used = now }) s.entries v.mapped;
        apart = rw slots v.apart;
        fresh = λ y l. rw slots (ground (arith, v.fresh y l, listed));
        permits = rw slots (ground (arith, v.permits, listed));
      }

  pub acquired-Valid :
      (s : LeasePool K C) {n : ℕ}
      → Valid max_entries s
      → s.available ≡ suc n
      → Valid max_entries (acquired n s)
  unfolding distinct count
  acquired-Valid s {n} v h =
      let one : Inserted s.next_slot (owned s) (owned (acquired n s)) =
        Inserted-after (slots_of s.entries) here in
      let more : Inserted s.next_slot (references s) (references (acquired n s)) =
        Inserted-after s.borrowed one in
      let unused : count s.next_slot (references s) ≡ 0 = v.fresh s.next_slot (omega arith) in
      record {
        mapped = v.mapped;
        apart = ground (
          arith,
          v.apart,
          distinct-Inserted one,
          length-Inserted one,
          unused,
          count-append s.next_slot s.borrowed (owned s),
        );
        fresh = λ y l. ground (arith, v.fresh y, l, count-Inserted more y);
        permits = ground (arith, v.permits, h, unused, distinct-Inserted more);
      }

  pub put-Valid :
      (key : K) (connection : C) (slot now : ℕ) (s : LeasePool K C)
      → Valid max_entries s
      → lookup key s.entries ≡ none
      → count slot s.reserved ≢ 0
      → Valid max_entries (put key connection slot now s)
  unfolding distinct count
  put-Valid key connection slot now s v absent holds =
      let cached : CachedLease C = record {
        lease = record { connection = connection; slot = slot };
        last_used = now;
      } in
      let t : LeasePool K C = put key connection slot now s in
      let left : List ℕ = slots_of s.entries ++ remove_one slot s.reserved in
      let before : Inserted slot left (owned s) =
        Inserted-after (slots_of s.entries) (remove_one-Inserted slot s.reserved holds) in
      let after : Inserted slot left (owned t) =
        Inserted-before (remove_one slot s.reserved)
          (slots_of-insert key cached s.entries absent) in
      let (same, size, _) = moved before after in
      let (total, _, counts) =
        moved (Inserted-after s.borrowed before) (Inserted-after s.borrowed after) in
      let used : count slot (references s) ≢ 0 =
        grind (arith, count-Inserted (Inserted-after s.borrowed before) slot, ==_refl slot) in
      record {
        mapped = IsMap-insert key cached s.entries v.mapped;
        apart = sym same ∙ (v.apart ∙ size);
        fresh = λ y l. ground (arith, v.fresh y l, v.fresh slot, counts y, l, used);
        permits = ground (arith, v.permits, total, used, counts slot);
      }
