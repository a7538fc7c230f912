-- ===== src/QuicPool/Oldest.antt =====
-- src/upstream/quic_pool.rs: the choice of the entry to evict.
use dns_ingress.Prelude.{
  ℕ, ◌≤◌, ◌≡◌, ◌⊎◌, refl, sym, ◌∙◌, subst, arith, true, false, leb, leb→le, none, some, [], ◌∷◌,
  All, Bool-cases, Option-cases, inl, inr,
}
use dns_ingress.Prelude.Assoc.{Eq, Listed}
use dns_ingress.QuicPool.{CachedLease, LeasePool, is_idle, earlier, least_recent}
use dns_ingress.QuicPool.Valid.{Entries}

pub none-ne-some : {A : Type 0} {a : A} → ¬ (none ≡ some a)
none-ne-some h = cc

pub some_same : {A : Type 0} {a b : A} → some a ≡ some b → a ≡ b
some_same h = cc

module _ {K C : Type 0} ⦃e : Eq K⦄ where
  -- An idle entry that no idle one of the list was used before.
  abbrev pub Oldest : LeasePool K C → K × CachedLease C → Entries K C → Type 0
  Oldest s first m =
      Listed first m
      × (is_idle s first.1.lease ≡ true)
      × All (λ entry. is_idle s entry.1.lease ≡ true → first.1.last_used ≤ entry.1.last_used) m

  least_recent-busy :
      (s : LeasePool K C) (x : K × CachedLease C) (m : Entries K C)
      → is_idle s x.1.lease ≡ false
      → least_recent s (x ∷ m) ≡ least_recent s m
  unfolding least_recent
  least_recent-busy s x m f = rw (least_recent, f) refl

  least_recent-idle :
      (s : LeasePool K C) (x : K × CachedLease C) (m : Entries K C)
      → is_idle s x.1.lease ≡ true
      → least_recent s (x ∷ m) ≡ some (earlier x (least_recent s m))
  unfolding least_recent
  least_recent-idle s x m t = rw (least_recent, t) refl

  pub least_recent-none :
      (s : LeasePool K C) (m : Entries K C)
      → least_recent s m ≡ none
      → All (λ entry. is_idle s entry.1.lease ≡ false) m
  least_recent-none s [] h = tt
  least_recent-none s (x ∷ m) h = elim (Bool-cases (is_idle s x.1.lease)) [
    | inl t ↦ absurd (none-ne-some (sym h ∙ least_recent-idle s x m t))
    | inr f ↦ (f, least_recent-none s m (sym (least_recent-busy s x m f) ∙ h))
  ]

  none_idle :
      (s : LeasePool K C) (n : ℕ) (m : Entries K C)
      → All (λ entry. is_idle s entry.1.lease ≡ false) m
      → All (λ entry. is_idle s entry.1.lease ≡ true → n ≤ entry.1.last_used) m
  none_idle s n [] a = tt
  none_idle s n (x ∷ m) a = (λ t. absurd (ground (arith, t, a.0)), none_idle s n m a.1)

  used_before :
      (s : LeasePool K C) (n o : ℕ) (m : Entries K C)
      → n ≤ o
      → All (λ entry. is_idle s entry.1.lease ≡ true → o ≤ entry.1.last_used) m
      → All (λ entry. is_idle s entry.1.lease ≡ true → n ≤ entry.1.last_used) m
  used_before s n o [] l a = tt
  used_before s n o (x ∷ m) l a = (λ t. omega (arith, l, a.0 t), used_before s n o m l a.1)

  earlier-cases :
      (x y : K × CachedLease C)
      → ((x.1.last_used ≤ y.1.last_used) × (earlier x (some y) ≡ x))
        ⊎ ((y.1.last_used ≤ x.1.last_used) × (earlier x (some y) ≡ y))
  unfolding earlier
  earlier-cases x y = elim (Bool-cases (leb x.1.last_used y.1.last_used)) [
    | inl t ↦ inl (leb→le _ _ t, rw (earlier, t) refl)
    | inr f ↦ inr (ground (arith, f), rw (earlier, f) refl)
  ]

  earlier-Oldest :
      (s : LeasePool K C) (x y : K × CachedLease C) (m : Entries K C)
      → is_idle s x.1.lease ≡ true
      → Oldest s y m
      → Oldest s (earlier x (some y)) (x ∷ m)
  earlier-Oldest s x y m t o = elim (earlier-cases x y) [
    | inl (le, same) ↦
        subst (λ z. Oldest s z (x ∷ m)) (sym same)
          (inl refl, t, ((λ u. omega arith), used_before s x.1.last_used y.1.last_used m le o.2))
    | inr (ge, same) ↦ subst (λ z. Oldest s z (x ∷ m)) (sym same) (inr o.0, o.1, ((λ u. ge), o.2))
  ]

  pub least_recent-Oldest :
      (s : LeasePool K C) (m : Entries K C) {x : K × CachedLease C}
      → least_recent s m ≡ some x
      → Oldest s x m
  unfolding least_recent earlier
  least_recent-Oldest s [] h = cc
  least_recent-Oldest s (y ∷ m) {x} h = elim (Bool-cases (is_idle s y.1.lease)) [
    | inr f ↦
        let (l, i, a) = least_recent-Oldest s m {x = x} (sym (least_recent-busy s y m f) ∙ h) in
        (inr l, i, ((λ t. absurd (ground (arith, t, f))), a))
    | inl t ↦
        let chosen : earlier y (least_recent s m) ≡ x =
          some_same (sym (least_recent-idle s y m t) ∙ h) in
        subst (λ z. Oldest s z (y ∷ m)) chosen
          (elim (Option-cases (least_recent s m)) [
            | inl n ↦
                rw (earlier, n)
                  (inl refl, t, ((λ u. omega arith), none_idle s _ m (least_recent-none s m n)))
            | inr (z, r) ↦
                subst (λ o. Oldest s (earlier y o) (y ∷ m)) (sym r)
                  (earlier-Oldest s y z m t (least_recent-Oldest s m {x = z} r))
          ])
  ]
