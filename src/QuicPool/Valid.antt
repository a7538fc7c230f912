-- ===== src/QuicPool/Valid.antt =====
-- src/upstream/quic_pool.rs: what holds of a pool at any moment, and that it holds after each of
-- the changes of which the sections of a call are made.
use dns_ingress.Prelude.{
  ℕ, ◌+◌, ◌≤◌, ◌≡◌, ◌≢◌, refl, sym, ap, ◌∙◌, arith, none, some, List, [], ◌∷◌, ◌++◌, length,
  Bool-cases, inl, inr,
}
use dns_ingress.Prelude.Assoc.{Eq, lookup, insert, remove, IsMap, Lacks}
use dns_ingress.QuicPool.{count, CachedLease, LeasePool, slots_of, references, settle}
use dns_ingress.QuicPool.Slots.{distinct, Inserted, here, there, count-Inserted, distinct-Inserted}

abbrev pub Entries : Type 0 → Type 0 → Type 0
Entries K C = List (K × CachedLease C)

module _ {K C : Type 0} ⦃e : Eq K⦄ where
  remove-Lacks : (k : K) (m : Entries K C) → Lacks k m → remove k m ≡ m
  unfolding remove
  remove-Lacks k [] l = refl
  remove-Lacks k ((j, w) ∷ m) l = rw (l.0, remove-Lacks k m l.1)

  pub slots_of-remove :
      (k : K) (m : Entries K C) {c : CachedLease C}
      → IsMap m
      → lookup k m ≡ some c
      → Inserted c.lease.slot (slots_of (remove k m)) (slots_of m)
  unfolding lookup remove slots_of
  slots_of-remove k [] v h = cc
  slots_of-remove k ((j, w) ∷ m) {c} v h = elim (Bool-cases (e.beq j k)) [
    | inl t ↦
        let same : w ≡ c = ground (arith, t) in
        let alone : remove k m ≡ m = remove-Lacks k m (rw ((e.beq_iff j k).0 t) at v.0) in
        rw (t, alone, sym same) here
    | inr f ↦ rw f (there (slots_of-remove k m v.1 (rw (f, lookup) at h)))
  ]

  pub slots_of-insert :
      (k : K) (c : CachedLease C) (m : Entries K C)
      → lookup k m ≡ none
      → Inserted c.lease.slot (slots_of m) (slots_of (insert k c m))
  unfolding lookup insert slots_of
  slots_of-insert k c [] h = here
  slots_of-insert k c ((j, w) ∷ m) h = elim (Bool-cases (e.beq j k)) [
    | inl t ↦ absurd (ground (arith, t))
    | inr f ↦ rw f (there (slots_of-insert k c m (rw (f, lookup) at h)))
  ]

  pub slots_of-replace :
      (k : K) (c d : CachedLease C) (m : Entries K C)
      → lookup k m ≡ some c
      → d.lease.slot ≡ c.lease.slot
      → slots_of (insert k d m) ≡ slots_of m
  unfolding lookup insert slots_of
  slots_of-replace k c d [] h s = cc
  slots_of-replace k c d ((j, w) ∷ m) h s = elim (Bool-cases (e.beq j k)) [
    | inl t ↦
        let same : w ≡ c = ground (arith, t) in
        rw t (ap (λ x. x ∷ slots_of m) (s ∙ ap (λ b. b.lease.slot) (sym same)))
    | inr f ↦ rw f (ap (◌∷◌ w.lease.slot) (slots_of-replace k c d m (rw (f, lookup) at h) s))
  ]

  pub lookup-count :
      (k : K) (m : Entries K C) {c : CachedLease C}
      → lookup k m ≡ some c
      → count c.lease.slot (slots_of m) ≢ 0
  unfolding lookup slots_of count
  lookup-count k [] h = cc
  lookup-count k ((j, w) ∷ m) {c} h = elim (Bool-cases (e.beq j k)) [
    | inl t ↦ let same : w ≡ c = ground (arith, t) in ground (arith, ap (λ d. d.lease.slot) same)
    | inr f ↦ ground (arith, lookup-count k m (rw (f, lookup) at h))
  ]

  -- The slots that no two owners share: those of the entries and of the calls still connecting.
  abbrev pub owned : LeasePool K C → List ℕ
  owned s = slots_of s.entries ++ s.reserved

  -- One entry for a key; every entry and every connecting call has a slot of its own; a number not
  -- yet given out has no reference; every permit is free or held for a slot with references.
  pub record Valid (max_entries : ℕ) (s : LeasePool K C) : Type 0 where
    pub mapped : IsMap s.entries
    pub apart : distinct (owned s) ≡ length (owned s)
    pub fresh : (x : ℕ) → s.next_slot ≤ x → count x (references s) ≡ 0
    pub permits : s.available + distinct (references s) ≡ max_entries

  module _ {max_entries : ℕ} where
    -- A reference to a slot is dropped.
    pub settle-Valid :
        (x : ℕ) (s t : LeasePool K C)
        → Valid max_entries s
        → Inserted x (references t) (references s)
        → IsMap t.entries
        → distinct (owned t) ≡ length (owned t)
        → t.available ≡ s.available
        → t.next_slot ≡ s.next_slot
        → Valid max_entries (settle x t)
    settle-Valid x s t v i m a free next = record {
      mapped = m;
      apart = a;
      fresh = λ y l. ground (arith, v.fresh y, next, l, count-Inserted i y);
      permits = ground (arith, v.permits, distinct-Inserted i, free);
    }
