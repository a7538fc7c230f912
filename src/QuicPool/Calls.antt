-- ===== src/QuicPool/Calls.antt =====
-- src/upstream/quic_pool.rs: the sections of a call keep a pool valid, and so does any interleaving
-- of the sections of many calls.
use dns_ingress.Prelude.{
  ℕ, zero, suc, ◌≡◌, ◌≢◌, refl, sym, ap, ◌∙◌, subst, ◌⊎◌, Bool, none, some, [], ◌∷◌, Bool-cases,
  Option-cases, inl, inr,
}
use dns_ingress.Prelude.Assoc.{Eq, lookup, lookup-remove_self}
use dns_ingress.QuicPool.{
  count, Lease, LeasePool, take_out, discard, hit, look, retain, least_recent, choose, publish,
}
use dns_ingress.QuicPool.Valid.{Valid, Entries}
use dns_ingress.QuicPool.Steps.{
  take_out-none, take_out-some, discard-none, discard-some, hit-some, discard-Valid, taken-Valid,
  touched-Valid, drop_slot-Valid, put-Valid,
}

pub zero-or-suc : (n : ℕ) → (n ≡ 0) ⊎ ((m : ℕ) × (n ≡ suc m))
zero-or-suc zero = inl refl
zero-or-suc (suc m) = inr (m, refl)

module _ {K C : Type 0} ⦃e : Eq K⦄ where
  pub discard-reserved : (key : K) (s : LeasePool K C) → (discard key s).reserved ≡ s.reserved
  discard-reserved key s = elim (Option-cases (lookup key s.entries)) [
    | inl n ↦ ap (λ p. p.reserved) (discard-none key s n)
    | inr (cached, h) ↦ ap (λ p. p.reserved) (discard-some key s h)
  ]

  pub discard-borrowed : (key : K) (s : LeasePool K C) → (discard key s).borrowed ≡ s.borrowed
  discard-borrowed key s = elim (Option-cases (lookup key s.entries)) [
    | inl n ↦ ap (λ p. p.borrowed) (discard-none key s n)
    | inr (cached, h) ↦ ap (λ p. p.borrowed) (discard-some key s h)
  ]

  pub discard-absent : (key : K) (s : LeasePool K C) → lookup key (discard key s).entries ≡ none
  discard-absent key s = elim (Option-cases (lookup key s.entries)) [
    | inl n ↦ ap (λ p. lookup key p.entries) (discard-none key s n) ∙ n
    | inr (cached, h) ↦
        ap (λ p. lookup key p.entries) (discard-some key s h) ∙ lookup-remove_self key s.entries
  ]

  pub retain-reserved :
      (alive : C → Bool) (visited : Entries K C) (s : LeasePool K C)
      → (retain alive visited s).reserved ≡ s.reserved
  unfolding retain
  retain-reserved alive [] s = refl
  retain-reserved alive ((key, cached) ∷ visited) s =
      elim (Bool-cases (alive cached.lease.connection)) [
        | inl t ↦ rw (retain, t) (retain-reserved alive visited s)
        | inr f ↦
            rw (retain, f) (retain-reserved alive visited (discard key s) ∙ discard-reserved key s)
      ]

  pub hit-reserved :
      (alive : C → Bool) (now : ℕ) (key : K) (s : LeasePool K C) {lease : Lease C}
      {t : LeasePool K C}
      → hit alive now key s ≡ some (lease, t)
      → (t.reserved ≡ s.reserved) × (t.borrowed ≡ lease.slot ∷ s.borrowed)
  hit-reserved alive now key s h =
      let (cached, _, _, same, after) = hit-some alive now key s h in
      (
        ap (λ p. p.reserved) after,
        ap (λ p. p.borrowed) after ∙ ap (λ l. l.slot ∷ s.borrowed) (sym same),
      )

module _ {K C : Type 0} ⦃e : Eq K⦄ {max_entries : ℕ} where
  pub retain-Valid :
      (alive : C → Bool) (visited : Entries K C) (s : LeasePool K C)
      → Valid max_entries s
      → Valid max_entries (retain alive visited s)
  unfolding retain
  retain-Valid alive [] s v = v
  retain-Valid alive ((key, cached) ∷ visited) s v =
      elim (Bool-cases (alive cached.lease.connection)) [
        | inl t ↦ rw (retain, t) (retain-Valid alive visited s v)
        | inr f ↦
            rw (retain, f) (retain-Valid alive visited (discard key s) (discard-Valid key s v))
      ]

  take_out-Valid :
      (key : K) (s : LeasePool K C) → Valid max_entries s → Valid max_entries (take_out key s).1
  take_out-Valid key s v = elim (Option-cases (lookup key s.entries)) [
    | inl n ↦ subst (λ p. Valid max_entries p.1) (sym (take_out-none key s n)) v
    | inr (cached, h) ↦
        subst (λ p. Valid max_entries p.1) (sym (take_out-some key s h)) (taken-Valid key s v h)
  ]

  pub choose-Valid :
      (alive : C → Bool) (s : LeasePool K C)
      → Valid max_entries s
      → Valid max_entries (choose alive s).1
  unfolding choose
  choose-Valid alive s v =
      let kept : LeasePool K C = retain alive s.entries s in
      let v' : Valid max_entries kept = retain-Valid alive s.entries s v in
      elim (Option-cases (least_recent kept kept.entries)) [
        | inl n ↦ rw (choose, n) v'
        | inr ((key, cached), h) ↦ rw (choose, h) (take_out-Valid key kept v')
      ]

  pub hit-Valid :
      (alive : C → Bool) (now : ℕ) (key : K) (s : LeasePool K C) {lease : Lease C}
      {t : LeasePool K C}
      → Valid max_entries s
      → hit alive now key s ≡ some (lease, t)
      → Valid max_entries t
  hit-Valid alive now key s v h =
      let (cached, l, _, _, after) = hit-some alive now key s h in
      subst (Valid max_entries) (sym after) (touched-Valid now key s v l)

  pub look-Valid :
      (alive : C → Bool) (now : ℕ) (key : K) (s : LeasePool K C)
      → Valid max_entries s
      → Valid max_entries (look alive now key s).1
  unfolding look
  look-Valid alive now key s v = elim (Option-cases (hit alive now key s)) [
    | inl n ↦ rw (look, n) (discard-Valid key s v)
    | inr ((lease, t), h) ↦ rw (look, h) (hit-Valid alive now key s v h)
  ]

  pub publish-Valid :
      (alive : C → Bool) (now : ℕ) (key : K) (connection : C) (slot : ℕ) (s : LeasePool K C)
      → Valid max_entries s
      → count slot s.reserved ≢ 0
      → Valid max_entries (publish alive now key connection slot s).1
  unfolding publish
  publish-Valid alive now key connection slot s v holds =
      elim (Option-cases (hit alive now key s)) [
        | inl n ↦
            rw (publish, n)
              (put-Valid key connection slot now (discard key s) (discard-Valid key s v)
                (discard-absent key s)
                (subst (λ r. count slot r ≢ 0) (sym (discard-reserved key s)) holds))
        | inr ((lease, t), h) ↦
            rw (publish, h)
              (drop_slot-Valid slot t (hit-Valid alive now key s v h)
                (subst (λ r. count slot r ≢ 0) (sym (hit-reserved alive now key s h).0) holds))
      ]
