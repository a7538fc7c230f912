-- ===== src/Tls/Covers.antt =====
-- Which names a certificate's base domain covers, and the longest such base.
use mathlib.Core.List.{append_assoc}
use dns_ingress.Prelude.{
  ℕ, zero, suc, ◌+◌, ◌-◌, ◌≤◌, ◌≡◌, refl, sym, ap, ◌∙◌, ◌↔◌, ◌≢◌, ◌⊎◌, inl, inr, true, false, ltb,
  leb, lt→ltb, ltb→lt, Option, none, some, List, [], ◌∷◌, ◌++◌, length, length-append, arith,
  and_iff, Bool-cases, ==_iff, All, leb→le, subst,
}
use dns_ingress.Prelude.Text.{Text, ends_with, ends_with-some, ends_with-append}
use dns_ingress.Prelude.Assoc.{Listed}
use dns_ingress.Tls.{byte_at, covers, better, longest}

last_at :
    (r s : Text) (i : ℕ) → suc i ≡ length r → (p : Text) × (r ≡ p ++ (byte_at (r ++ s) i ∷ []))
last_at [] s i e = absurd (omega arith)
last_at (x ∷ []) s zero e = ([], refl)
last_at (x ∷ []) s (suc i) e = absurd (omega arith)
last_at (x ∷ y ∷ r) s zero e = absurd (omega arith)
last_at (x ∷ y ∷ r) s (suc i) e =
    let (p, h) = last_at (y ∷ r) s i (omega arith) in (x ∷ p, ap (◌∷◌ x) h)

byte_at-append : (p s : Text) (c : ℕ) → byte_at (p ++ (c ∷ s)) (length p) ≡ c
byte_at-append [] s c = refl
byte_at-append (x ∷ p) s c = byte_at-append p s c

covers-split :
    (domain base : Text) → covers domain base ≡ true → (p : Text) × (domain ≡ p ++ (b'.' ∷ base))
unfolding covers
covers-split domain base h =
    let (h₁, dotted) = (and_iff _ _).0 h in
    let (ends, longer) = (and_iff _ _).0 h₁ in
    let (r, e) = ends_with-some domain base ends in
    let size : length domain ≡ length r + length base = ap length e ∙ length-append r base in
    let i : ℕ = length domain - length base - 1 in
    let (p, k) = last_at r base i (omega (arith, size, ltb→lt _ _ longer)) in
    let dot : byte_at (r ++ base) i ≡ b'.' =
      ap (λ t. byte_at t i) (sym e) ∙ (==_iff _ _).0 dotted in
    (
      p,
      e
          ∙ (ap (λ t. t ++ base) k
              ∙ (append_assoc p (byte_at (r ++ base) i ∷ []) base
                  ∙ ap (λ (c : ℕ). p ++ (c ∷ base)) dot)),
    )

split-covers : (p base : Text) → covers (p ++ (b'.' ∷ base)) base ≡ true
unfolding covers
split-covers p base =
    let size : length (p ++ (b'.' ∷ base)) ≡ length p + suc (length base) =
      length-append p (b'.' ∷ base) in
    let index : length (p ++ (b'.' ∷ base)) - length base - 1 ≡ length p = omega (arith, size) in
    let whole : (p ++ (b'.' ∷ [])) ++ base ≡ p ++ (b'.' ∷ base) = append_assoc p (b'.' ∷ []) base in
    let ends : ends_with (p ++ (b'.' ∷ base)) base ≡ true =
      ap (λ t. ends_with t base) (sym whole) ∙ ends_with-append (p ++ (b'.' ∷ [])) base in
    let longer : ltb (length base) (length (p ++ (b'.' ∷ base))) ≡ true =
      lt→ltb _ _ (omega (arith, size)) in
    rw (ends, longer, index, byte_at-append p base b'.')

-- A base covers a name exactly when the name is something, a dot, and the base.
pub covers_iff :
    (domain base : Text)
    → (covers domain base ≡ true) ↔ ((p : Text) × (domain ≡ p ++ (b'.' ∷ base)))
covers_iff domain base =
    (covers-split domain base, λ t. ap (λ d. covers d base) t.1 ∙ split-covers t.0 base)

-- Where `longest` finds its entry, and that no covering base is longer.
module _ {K : Type 0} (domain : Text) where
  abbrev Within : Option (Text × K) → ℕ → Type 0
  Within none n = Unit {0}
  Within (some best) n = length best.0 ≤ n

  better-some :
      (best : Option (Text × K)) (entry : Text × K)
      → (w : Text × K) × (better best entry ≡ some w)
        × ((w ≡ entry) ⊎ (best ≡ some w))
        × (length entry.0 ≤ length w.0)
        × Within best (length w.0)
  unfolding better
  better-some none entry = (entry, refl, inl refl, omega arith, tt)
  better-some (some best) entry = elim (Bool-cases (leb (length best.0) (length entry.0))) [
    | inl t ↦ (entry, rw t, inl refl, omega arith, leb→le _ _ t)
    | inr f ↦ (best, rw f, inr refl, ground arith, omega arith)
  ]

  abbrev AtMost : ℕ → List (Text × K) → Type 0
  AtMost n = All (λ (entry : Text × K). covers domain entry.0 ≡ true → length entry.0 ≤ n)

  Within-mono : (o : Option (Text × K)) {m n : ℕ} → Within o m → m ≤ n → Within o n
  Within-mono none h k = tt
  Within-mono (some best) h k = omega arith

  longest-ne-none : (es : List (Text × K)) (best : Text × K) → longest domain es (some best) ≢ none
  unfolding longest better
  longest-ne-none [] best h = cc
  longest-ne-none (entry ∷ es) best h = elim (Bool-cases (covers domain entry.0)) [
    | inr f ↦ longest-ne-none es best (rw (f, longest) at h)
    | inl t ↦ elim (Bool-cases (leb (length best.0) (length entry.0))) [
      | inl l ↦ longest-ne-none es entry (rw (t, longest, l) at h)
      | inr l ↦ longest-ne-none es best (rw (t, longest, l) at h)
    ]
  ]

  -- Without an entry to start from and without a covering base there is none.
  pub longest-none :
      (es : List (Text × K))
      → longest domain es none ≡ none
      → All (λ (entry : Text × K). covers domain entry.0 ≡ false) es
  unfolding longest better
  longest-none [] h = tt
  longest-none (entry ∷ es) h = elim (Bool-cases (covers domain entry.0)) [
    | inr f ↦ (f, longest-none es (rw (f, longest) at h))
    | inl t ↦ absurd (longest-ne-none es entry (rw (t, longest) at h))
  ]

  pub longest-some :
      (es : List (Text × K)) (best : Option (Text × K)) {w : Text × K}
      → longest domain es best ≡ some w
      → ((best ≡ some w) ⊎ (Listed w es × (covers domain w.0 ≡ true)))
        × AtMost (length w.0) es
        × Within best (length w.0)
  unfolding longest
  longest-some [] best {w} h = (inl h, tt, rw h (omega arith))
  longest-some (entry ∷ es) best {w} h = elim (Bool-cases (covers domain entry.0)) [
    | inr f ↦
        let (from, most, within) = longest-some es best {w = w} (rw (f, longest) at h) in
        (widen from, (λ t. absurd (ground (arith, t, f)), most), within)
    | inl t ↦
        let (v, e, origin, longer, within) = better-some best entry in
        let (from, most, top) =
          longest-some es (better best entry) {w = w} (rw (t, longest) at h) in
        let bound : length v.0 ≤ length w.0 = subst (λ o. Within o (length w.0)) e top in
        (
          replaced v e origin t from,
          (λ _. omega (arith, longer, bound), most),
          Within-mono best within bound,
        )
  ]
    where
      widen :
          ((best ≡ some w) ⊎ (Listed w es × (covers domain w.0 ≡ true)))
          → (best ≡ some w) ⊎ (Listed w (entry ∷ es) × (covers domain w.0 ≡ true))
      widen (inl b) = inl b
      widen (inr (l, c)) = inr (inr l, c)

      replaced :
          (v : Text × K)
          → better best entry ≡ some v
          → (v ≡ entry) ⊎ (best ≡ some v)
          → covers domain entry.0 ≡ true
          → ((better best entry ≡ some w) ⊎ (Listed w es × (covers domain w.0 ≡ true)))
          → (best ≡ some w) ⊎ (Listed w (entry ∷ es) × (covers domain w.0 ≡ true))
      replaced v e origin t (inr (l, c)) = inr (inr l, c)
      replaced v e (inl first) t (inl same) = let here : w ≡ entry = cc in inr (inl here, rw here t)
      replaced v e (inr kept) t (inl same) = inl (cc)
