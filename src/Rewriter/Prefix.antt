-- ===== src/Rewriter/Prefix.antt =====
-- Which base domain `extract_prefix` takes, and which prefix it leaves.
use mathlib.Core.List.{append_assoc}
use dns_ingress.Prelude.{
  ◌≡◌, refl, sym, ap, ◌∙◌, ◌↔◌, ◌≢◌, inl, inr, none, some, List, [], ◌∷◌, ◌++◌, arith, Option-cases,
  All,
}
use dns_ingress.Prelude.Text.{
  Text, strip_suffix, ends_with, strip_suffix-some, strip_suffix-append, ends_with-append,
}
use dns_ingress.Rewriter.{dot, prefix_before, prefix_under, extract_prefix}

-- The name is a prefix that is not empty, a dot, and the base domain.
abbrev pub IsSplit : Text → Text → Text → Type 0
IsSplit base_domain sni prefix = (prefix ≢ []) × (sni ≡ prefix ++ (b'.' ∷ base_domain))

abbrev pub NoSplit : Text → Text → Type 0
NoSplit sni base_domain = (prefix : Text) → ¬ IsSplit base_domain sni prefix

-- The prefix under the first base domain that splits the name.
pub data FirstMatch (sni : Text) : List Text → Text → Type 0 where
  here : {d : Text} {ds : List Text} {p : Text} → IsSplit d sni p → FirstMatch sni (d ∷ ds) p
  there :
      {d : Text} {ds : List Text} {p : Text}
      → NoSplit sni d
      → FirstMatch sni ds p
      → FirstMatch sni (d ∷ ds) p

prefix_before-some :
    (rest : Text) {p : Text} → prefix_before rest ≡ some p → (p ≢ []) × (rest ≡ p ++ dot)
unfolding prefix_before ends_with
prefix_before-some rest {p} h = elim (Option-cases (strip_suffix rest dot)) [
  | inl e ↦ absurd (ground (arith, e))
  | inr (q, e) ↦
      let same : q ≡ p = ground (arith, e) in
      (ground (arith, e), ground (arith, strip_suffix-some rest dot e))
]

prefix_before-append : (p : Text) → p ≢ [] → prefix_before (p ++ dot) ≡ some p
unfolding prefix_before
prefix_before-append [] h = absurd (h refl)
prefix_before-append (c ∷ p) h = rw (ends_with-append (c ∷ p) dot, strip_suffix-append (c ∷ p) dot)

prefix_under_iff : (sni d : Text) (p : Text) → (prefix_under sni d ≡ some p) ↔ IsSplit d sni p
unfolding prefix_under
prefix_under_iff sni d p = (to, from)
  where
    to : prefix_under sni d ≡ some p → IsSplit d sni p
    to h = elim (Option-cases (strip_suffix sni d)) [
      | inl e ↦ absurd (ground (arith, e))
      | inr (rest, e) ↦
          let (some_p, split) = prefix_before-some rest {p = p} (rw (e, prefix_under) at h) in
          (some_p, strip_suffix-some sni d e ∙ (ap (λ t. t ++ d) split ∙ append_assoc p dot d))
    ]

    from : IsSplit d sni p → prefix_under sni d ≡ some p
    from (some_p, split) =
        let whole : sni ≡ (p ++ dot) ++ d = split ∙ sym (append_assoc p dot d) in
        rw (whole, prefix_under, strip_suffix-append (p ++ dot) d) (prefix_before-append p some_p)

FirstMatch-some :
    (ds : List Text) (sni : Text) {p : Text} → extract_prefix ds sni ≡ some p → FirstMatch sni ds p
unfolding extract_prefix
FirstMatch-some [] sni h = cc
FirstMatch-some (d ∷ ds) sni {p} h = elim (Option-cases (prefix_under sni d)) [
  | inl e ↦
      there (λ q s. ground (arith, e, (prefix_under_iff sni d q).1 s))
        (FirstMatch-some ds sni (rw (e, extract_prefix) at h))
  | inr (q, e) ↦
      let same : q ≡ p = ground (arith, e) in here ((prefix_under_iff sni d p).0 (rw same at e))
]

some-FirstMatch :
    {sni : Text} {ds : List Text} {p : Text} → FirstMatch sni ds p → extract_prefix ds sni ≡ some p
unfolding extract_prefix
some-FirstMatch {sni} (here {d} {p} s) = rw (extract_prefix, (prefix_under_iff sni d p).1 s)
some-FirstMatch {sni} (there {d} none_here later) = elim (Option-cases (prefix_under sni d)) [
  | inl e ↦ rw (extract_prefix, e) (some-FirstMatch later)
  | inr (q, e) ↦ absurd (none_here q ((prefix_under_iff sni d q).0 e))
]

-- `extract_prefix` yields exactly the prefix under the first base domain that splits the name.
pub extract_prefix_iff :
    (ds : List Text) (sni p : Text) → (extract_prefix ds sni ≡ some p) ↔ FirstMatch sni ds p
extract_prefix_iff ds sni p = (FirstMatch-some ds sni, some-FirstMatch)

-- It yields nothing exactly when no base domain splits the name.
pub extract_prefix-none_iff :
    (ds : List Text) (sni : Text) → (extract_prefix ds sni ≡ none) ↔ All (NoSplit sni) ds
unfolding extract_prefix
extract_prefix-none_iff [] sni = (λ h. tt, λ h. refl)
extract_prefix-none_iff (d ∷ ds) sni = elim (Option-cases (prefix_under sni d)) [
  | inl e ↦
      let (to, from) = extract_prefix-none_iff ds sni in
      (
        λ h. (
          λ q s. ground (arith, e, (prefix_under_iff sni d q).1 s),
          to (rw (e, extract_prefix) at h),
        ),
        λ h. rw (extract_prefix, e) (from h.1),
      )
  | inr (q, e) ↦
      (λ h. absurd (ground (arith, e)), λ h. absurd (h.0 q ((prefix_under_iff sni d q).0 e)))
]

pub append-ne-nil : (p r : Text) → p ≢ [] → (p ++ r) ≢ []
append-ne-nil [] r h k = h refl
append-ne-nil (c ∷ p) r h k = cc

pub FirstMatch-ne-nil : {sni : Text} {ds : List Text} {p : Text} → FirstMatch sni ds p → sni ≢ []
FirstMatch-ne-nil (here {p} (some_p, e)) empty = append-ne-nil p _ some_p (sym e ∙ empty)
FirstMatch-ne-nil (there n later) empty = FirstMatch-ne-nil later empty
