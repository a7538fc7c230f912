-- ===== src/Rewriter/Rewrite.antt =====
-- What `rewrite` answers, and that it does not see case or trailing dots.
use mathlib.Core.List.{append_cancel_right}
use dns_ingress.Prelude.{
  ◌≡◌, refl, sym, ◌∙◌, ◌↔◌, ◌≢◌, true, false, none, some, List, [], ◌∷◌, ◌++◌, arith, is_empty, all,
  Option-cases, inl, inr, All,
}
use dns_ingress.Prelude.Text.{Text, starts_with, trim_end_matches}
use dns_ingress.Rewriter.{
  dot, RewriteResult, BaseSniRewriter, canonical_domain, extract_prefix, is_dns_byte, rewrite,
}
use dns_ingress.Rewriter.Prefix.{
  FirstMatch, NoSplit, extract_prefix_iff, extract_prefix-none_iff, FirstMatch-ne-nil,
}

-- What a rewrite promises of its result.
pub record IsRewrite (r : BaseSniRewriter) (sni : Text) (x : RewriteResult) : Type 0 where
  pub suffix : starts_with r.config.target_suffix dot ≡ true
  pub original : x.original ≡ canonical_domain sni
  pub bytes : all is_dns_byte x.original ≡ true
  pub first : FirstMatch x.original r.config.base_domains x.prefix
  pub target : x.target_hostname ≡ x.prefix ++ r.config.target_suffix

FirstMatch-is_empty :
    {n : Text} {ds : List Text} {p : Text} → FirstMatch n ds p → is_empty ds ≡ false
FirstMatch-is_empty (FirstMatch.here s) = refl
FirstMatch-is_empty (FirstMatch.there n m) = refl

canonical-is_empty : (sni : Text) → canonical_domain sni ≢ [] → is_empty sni ≡ false
unfolding trim_end_matches
canonical-is_empty [] h = absurd (h refl)
canonical-is_empty (c ∷ s) h = refl

rewrite-some :
    (r : BaseSniRewriter) (sni : Text) {x : RewriteResult}
    → rewrite r sni ≡ some x
    → IsRewrite r sni x
unfolding rewrite
rewrite-some r sni {x} h =
    elim (Option-cases (extract_prefix r.config.base_domains (canonical_domain sni))) [
      | inl e ↦ absurd (ground (arith, e))
      | inr (p, e) ↦
          let o : x.original ≡ canonical_domain sni = ground (arith, e) in
          let q : x.prefix ≡ p = ground (arith, e) in
          record {
            suffix = ground (arith, e);
            original = o;
            bytes = ground (arith, e);
            first = (extract_prefix_iff r.config.base_domains x.original x.prefix).0 (rw (o, q) e);
            target = ground (arith, e);
          }
    ]

some-rewrite :
    (r : BaseSniRewriter) (sni : Text) {x : RewriteResult}
    → IsRewrite r sni x
    → rewrite r sni ≡ some x
unfolding rewrite
some-rewrite r sni {x} w =
    let taken : extract_prefix r.config.base_domains x.original ≡ some x.prefix =
      (extract_prefix_iff r.config.base_domains x.original x.prefix).1 w.first in
    let named : is_empty sni ≡ false =
      canonical-is_empty sni (λ e. FirstMatch-ne-nil w.first (w.original ∙ e)) in
    let some_domain : is_empty r.config.base_domains ≡ false = FirstMatch-is_empty w.first in
    ground (arith, w.suffix, w.original, w.bytes, w.target)

-- `rewrite` answers with a result exactly when the configured suffix starts with a dot, the name in
-- lower case without its trailing dots has DNS bytes only, and the result holds that name, its
-- prefix under the first base domain that splits it, and that prefix before the target suffix.
pub rewrite_iff :
    (r : BaseSniRewriter) (sni : Text) (x : RewriteResult)
    → (rewrite r sni ≡ some x) ↔ IsRewrite r sni x
rewrite_iff r sni x = (rewrite-some r sni, some-rewrite r sni)

rewrite-none : (r : BaseSniRewriter) (sni : Text) → canonical_domain sni ≡ [] → rewrite r sni ≡ none
rewrite-none r sni h = elim (Option-cases (rewrite r sni)) [
  | inl e ↦ e
  | inr (x, e) ↦ let w = rewrite-some r sni e in absurd (FirstMatch-ne-nil w.first (w.original ∙ h))
]

-- On a name of DNS bytes, a rewriter with a well-formed suffix gives up only where no base domain
-- splits the name.
pub rewrite-none_iff :
    (r : BaseSniRewriter) (sni : Text)
    → starts_with r.config.target_suffix dot ≡ true
    → all is_dns_byte (canonical_domain sni) ≡ true
    → (rewrite r sni ≡ none) ↔ All (NoSplit (canonical_domain sni)) r.config.base_domains
rewrite-none_iff r sni s b = (
  λ h. (extract_prefix-none_iff r.config.base_domains (canonical_domain sni)).0 (missing h),
  λ h. (elim (Option-cases (rewrite r sni)) [
    | inl e ↦ e
    | inr (x, e) ↦
        let w = rewrite-some r sni e in
        let found = (extract_prefix_iff r.config.base_domains x.original x.prefix).1 w.first in
        let gone = (extract_prefix-none_iff r.config.base_domains (canonical_domain sni)).1 h in
        absurd (ground (arith, found, gone, w.original))
  ]),
)
  where
    missing :
        rewrite r sni ≡ none → extract_prefix r.config.base_domains (canonical_domain sni) ≡ none
    missing h = elim (Option-cases (extract_prefix r.config.base_domains (canonical_domain sni))) [
      | inl e ↦ e
      | inr (p, e) ↦
          let x : RewriteResult = record {
            original = canonical_domain sni;
            prefix = p;
            target_hostname = p ++ r.config.target_suffix;
          } in
          let found : rewrite r sni ≡ some x = some-rewrite r sni (record {
            suffix = s;
            original = refl;
            bytes = b;
            first = (extract_prefix_iff r.config.base_domains (canonical_domain sni) p).0 e;
            target = refl;
          }) in
          absurd (ground (arith, found, h))
    ]

-- Names that differ in the case of ASCII letters and in trailing dots only are rewritten alike.
pub rewrite-canonical_domain :
    (r : BaseSniRewriter) (a b : Text)
    → canonical_domain a ≡ canonical_domain b
    → rewrite r a ≡ rewrite r b
rewrite-canonical_domain r a b h = elim (Option-cases (rewrite r a)) [
  | inl e ↦ elim (Option-cases (rewrite r b)) [
    | inl e' ↦ e ∙ sym e'
    | inr (x, e') ↦
        let w = rewrite-some r b e' in
        absurd (ground (arith, e, some-rewrite r a {x = x} (same h w)))
  ]
  | inr (x, e) ↦ let w = rewrite-some r a e in e ∙ sym (some-rewrite r b {x = x} (same (sym h) w))
]
  where
    same :
        {c d : Text} {x : RewriteResult}
        → canonical_domain d ≡ canonical_domain c
        → IsRewrite r c x
        → IsRewrite r d x
    same k w = record {
      suffix = w.suffix;
      original = w.original ∙ sym k;
      bytes = w.bytes;
      first = w.first;
      target = w.target;
    }

-- Two names that are sent to the same upstream host have the same prefix.
pub rewrite-prefix_unique :
    (r : BaseSniRewriter) (a b : Text) {x y : RewriteResult}
    → rewrite r a ≡ some x
    → rewrite r b ≡ some y
    → x.target_hostname ≡ y.target_hostname
    → x.prefix ≡ y.prefix
rewrite-prefix_unique r a b {x} {y} p q h =
    append_cancel_right x.prefix y.prefix r.config.target_suffix
      (sym (rewrite-some r a p).target ∙ (h ∙ (rewrite-some r b q).target))
