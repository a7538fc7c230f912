-- ===== src/Prelude/Assoc.antt =====
-- `HashMap` as an association list in its iteration order, with one entry for a key.
use mathlib.Core.Path.{◌≡◌, refl, sym}
use mathlib.Core.Logic.{◌↔◌, ◌⊎◌, inl, inr}
use mathlib.Core.Bool.{Bool, true, false}
use mathlib.Core.Option.{Option, none, some}
use mathlib.Core.List.{List, [], ◌∷◌}
use native.Mathlib.Omega.{arith}
use dns_ingress.Prelude.Tests.{if◌then◌else◌, Bool-cases}
use dns_ingress.Prelude.Text.{Text, text_eq, text_eq_iff}

-- `Eq` of a key type
pub record Eq {ℓ} (K : Type ℓ) : Type ℓ where
  pub beq : K → K → Bool
  pub beq_iff : (a b : K) → (beq a b ≡ true) ↔ (a ≡ b)

instance abbrev pub text_key : Eq Text
text_key = record { beq = text_eq; beq_iff = text_eq_iff }

pub beq_refl {ℓ} : {K : Type ℓ} ⦃e : Eq K⦄ (k : K) → e.beq k k ≡ true
beq_refl ⦃e⦄ k = (e.beq_iff k k).1 refl

module _ {ℓ κ} {K : Type ℓ} {V : Type κ} ⦃e : Eq K⦄ where
  unfoldable pub lookup : K → List (K × V) → Option V
  lookup k [] = none
  lookup k ((j, v) ∷ m) = if e.beq j k then some v else lookup k m

  unfoldable pub insert : K → V → List (K × V) → List (K × V)
  insert k v [] = (k, v) ∷ []
  insert k v ((j, w) ∷ m) = if e.beq j k then (k, v) ∷ m else (j, w) ∷ insert k v m

  unfoldable pub remove : K → List (K × V) → List (K × V)
  remove k [] = []
  remove k ((j, w) ∷ m) = if e.beq j k then remove k m else (j, w) ∷ remove k m

  -- No entry has the key.
  abbrev pub Lacks : K → List (K × V) → Type ℓ
  Lacks k [] = Unit
  Lacks k ((j, w) ∷ m) = (e.beq j k ≡ false) × Lacks k m

  -- No key has two entries.
  abbrev pub IsMap : List (K × V) → Type ℓ
  IsMap [] = Unit
  IsMap ((j, w) ∷ m) = Lacks j m × IsMap m

  pub lookup-Lacks : (k : K) (m : List (K × V)) → Lacks k m → lookup k m ≡ none
  unfolding lookup
  lookup-Lacks k [] h = refl
  lookup-Lacks k ((j, w) ∷ m) h = rw h.0 (lookup-Lacks k m h.1)

  pub Lacks-lookup : (k : K) (m : List (K × V)) → lookup k m ≡ none → Lacks k m
  unfolding lookup
  Lacks-lookup k [] h = tt
  Lacks-lookup k ((j, w) ∷ m) h = elim (Bool-cases (e.beq j k)) [
    | inl t ↦ absurd (ground (arith, t))
    | inr f ↦ (f, Lacks-lookup k m (rw (f, lookup) at h))
  ]

  Lacks-insert :
      (k j : K) (v : V) (m : List (K × V)) → e.beq j k ≡ false → Lacks k m → Lacks k (insert j v m)
  unfolding insert
  Lacks-insert k j v [] n h = (n, tt)
  Lacks-insert k j v ((i, w) ∷ m) n h = elim (Bool-cases (e.beq i j)) [
    | inl t ↦ rw t (n, h.1)
    | inr f ↦ rw f (h.0, Lacks-insert k j v m n h.1)
  ]

  pub IsMap-insert : (k : K) (v : V) (m : List (K × V)) → IsMap m → IsMap (insert k v m)
  unfolding insert
  IsMap-insert k v [] h = (tt, tt)
  IsMap-insert k v ((j, w) ∷ m) h = elim (Bool-cases (e.beq j k)) [
    | inl t ↦ rw t (rw ((e.beq_iff j k).0 t) at h)
    | inr f ↦ rw f (Lacks-insert j k v m (flip j k f) h.0, IsMap-insert k v m h.1)
  ]
    where
      flip : (a b : K) → e.beq a b ≡ false → e.beq b a ≡ false
      flip a b h = elim (Bool-cases (e.beq b a)) [
        | inl t ↦ absurd (ground (arith, (e.beq_iff a b).1 (sym ((e.beq_iff b a).0 t)), h))
        | inr f ↦ f
      ]

  Lacks-remove : (k j : K) (m : List (K × V)) → Lacks k m → Lacks k (remove j m)
  unfolding remove
  Lacks-remove k j [] h = tt
  Lacks-remove k j ((i, w) ∷ m) h = elim (Bool-cases (e.beq i j)) [
    | inl t ↦ rw t (Lacks-remove k j m h.1)
    | inr f ↦ rw f (h.0, Lacks-remove k j m h.1)
  ]

  pub IsMap-remove : (k : K) (m : List (K × V)) → IsMap m → IsMap (remove k m)
  unfolding remove
  IsMap-remove k [] h = tt
  IsMap-remove k ((j, w) ∷ m) h = elim (Bool-cases (e.beq j k)) [
    | inl t ↦ rw t (IsMap-remove k m h.1)
    | inr f ↦ rw f (Lacks-remove j k m h.0, IsMap-remove k m h.1)
  ]

  pub lookup-insert :
      (k j : K) (v : V) (m : List (K × V))
      → lookup j (insert k v m) ≡ (if e.beq k j then some v else lookup j m)
  unfolding lookup insert
  lookup-insert k j v [] = refl
  lookup-insert k j v ((i, w) ∷ m) =
      ground (arith, e.beq_iff k j, e.beq_iff i k, e.beq_iff i j, lookup-insert k j v m)

  pub lookup-remove_self : (k : K) (m : List (K × V)) → lookup k (remove k m) ≡ none
  unfolding lookup remove
  lookup-remove_self k [] = refl
  lookup-remove_self k ((j, w) ∷ m) = elim (Bool-cases (e.beq j k)) [
    | inl t ↦ rw t (lookup-remove_self k m)
    | inr f ↦ rw (f, lookup, f) (lookup-remove_self k m)
  ]

-- An entry of the list.
abbrev pub Listed : {K V : Type 0} → K × V → List (K × V) → Type 0
Listed entry [] = ⊥
Listed entry (first ∷ m) = (entry ≡ first) ⊎ Listed entry m

module _ {K V : Type 0} ⦃e : Eq K⦄ where
  Listed-Lacks :
      (k : K) (entry : K × V) (m : List (K × V))
      → Listed entry m
      → Lacks k m
      → e.beq entry.0 k ≡ false
  Listed-Lacks k entry [] h l = absurd h
  Listed-Lacks k entry ((j, w) ∷ m) (inl h) l = rw h l.0
  Listed-Lacks k entry ((j, w) ∷ m) (inr h) l = Listed-Lacks k entry m h l.1

  pub Listed-lookup :
      (entry : K × V) (m : List (K × V))
      → IsMap m
      → Listed entry m
      → lookup entry.0 m ≡ some entry.1
  unfolding lookup
  Listed-lookup entry [] v h = absurd h
  Listed-lookup entry ((j, w) ∷ m) v (inl h) = rw h (rw (beq_refl j))
  Listed-lookup entry ((j, w) ∷ m) v (inr h) = elim (Bool-cases (e.beq j entry.0)) [
    | inl t ↦ absurd (
        ground (
          arith,
          Listed-Lacks j entry m h v.0,
          (e.beq_iff entry.0 j).1 (sym ((e.beq_iff j entry.0).0 t)),
        ))
    | inr f ↦ rw f (Listed-lookup entry m v.1 h)
  ]

  pub lookup-Listed : (k : K) (m : List (K × V)) {v : V} → lookup k m ≡ some v → Listed (k, v) m
  unfolding lookup
  lookup-Listed k [] h = cc
  lookup-Listed k ((j, w) ∷ m) {v} h = elim (Bool-cases (e.beq j k)) [
    | inl t ↦
        let same : j ≡ k = (e.beq_iff j k).0 t in
        let value : w ≡ v = ground (arith, t) in inl (λ i. (sym same i, sym value i))
    | inr f ↦ inr (lookup-Listed k m (rw (f, lookup) at h))
  ]
