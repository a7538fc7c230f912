-- ===== src/Config/Validate/Rewriting.antt =====
-- What a validated configuration means for the rewriter built from it.
use dns_ingress.Prelude.{
  ◌≡◌, refl, sym, ap, ap₂, ◌∙◌, ◌↔◌, true, Bool, Option, none, some, List, [], ◌∷◌, ◌++◌, map,
  arith, All, ok, all, subst,
}
use dns_ingress.Prelude.Text.{Text, to_ascii_lowercase, starts_with, to_lower}
use dns_ingress.Config.{AppConfig, RewriteConfig}
use dns_ingress.Config.Names.{is_ascii_dns_name, is_ascii_dns_suffix}
use dns_ingress.Config.Names.Canonical.{
  canonical_domain-is_ascii_dns_name, to_ascii_lowercase-is_ascii_dns_name,
}
use dns_ingress.Config.Validate.{SocketAddr, validate_structure}
use dns_ingress.Config.Validate.Accepted.{validate_structure_iff}
use dns_ingress.Rewriter.{RewriteResult, new, rewrite, canonical_domain, is_dns_byte, dot}
use dns_ingress.Rewriter.Prefix.{FirstMatch, NoSplit}
use dns_ingress.Rewriter.Rewrite.{rewrite_iff, rewrite-none_iff}

map-canonical :
    (ds : List Text) → All (λ d. is_ascii_dns_name d ≡ true) ds → map canonical_domain ds ≡ ds
map-canonical [] v = refl
map-canonical (d ∷ ds) (v, vs) =
    ap₂ ◌∷◌ (canonical_domain-is_ascii_dns_name d v) (map-canonical ds vs)

suffix-lower :
    (suffix : Text) → is_ascii_dns_suffix suffix ≡ true → to_ascii_lowercase suffix ≡ suffix
unfolding is_ascii_dns_suffix starts_with to_lower
suffix-lower [] h = cc
suffix-lower (c ∷ s) h = ground (arith, to_ascii_lowercase-is_ascii_dns_name s)

suffix-dot : (suffix : Text) → is_ascii_dns_suffix suffix ≡ true → starts_with suffix dot ≡ true
unfolding is_ascii_dns_suffix
suffix-dot [] h = cc
suffix-dot (c ∷ s) h = ground arith

-- From a configuration that passes validation the rewriter keeps the base domains and the suffix as
-- they were written.
pub new-validate_structure :
    (parse_socket_addr : Text → Option SocketAddr) (file_exists : Text → Bool) (c : AppConfig)
    → validate_structure parse_socket_addr file_exists c ≡ ok tt
    → (new c.rewrite).config ≡ c.rewrite
unfolding new
new-validate_structure parse_socket_addr file_exists c h =
    let v = (validate_structure_iff parse_socket_addr file_exists c).0 h in
    let e = map-canonical c.rewrite.base_domains v.domains in
    let k = suffix-lower c.rewrite.target_suffix v.suffix in
    λ i. record { base_domains = e i; target_suffix = k i }

module _ (parse_socket_addr : Text → Option SocketAddr) (file_exists : Text → Bool) (c : AppConfig)
    (sni : Text) where
  dotted :
      validate_structure parse_socket_addr file_exists c ≡ ok tt
      → starts_with (new c.rewrite).config.target_suffix dot ≡ true
  dotted h =
      let v = (validate_structure_iff parse_socket_addr file_exists c).0 h in
      rw (new-validate_structure parse_socket_addr file_exists c h)
        (suffix-dot c.rewrite.target_suffix v.suffix)

  -- What a rewrite is, in the terms of the configuration as it was written.
  abbrev pub Written : RewriteResult → RewriteConfig → Type 0
  Written x config =
      (x.original ≡ canonical_domain sni)
      × FirstMatch x.original config.base_domains x.prefix
      × (x.target_hostname ≡ x.prefix ++ config.target_suffix)

  -- With a configuration that passes validation, a name whose canonical form has DNS bytes only is
  -- rewritten exactly where the first configured base domain that splits that form leaves a prefix,
  -- and its target is that prefix followed by the configured suffix.
  pub rewrite-validate_structure :
      (x : RewriteResult)
      → validate_structure parse_socket_addr file_exists c ≡ ok tt
      → all is_dns_byte (canonical_domain sni) ≡ true
      → (rewrite (new c.rewrite) sni ≡ some x) ↔ Written x c.rewrite
  rewrite-validate_structure x h b =
      let same = new-validate_structure parse_socket_addr file_exists c h in
      (
        λ e.
            (let w = (rewrite_iff (new c.rewrite) sni x).0 e in
              subst (Written x) same (w.original, w.first, w.target)),
        λ k.
            (let (original, first, target) = subst (Written x) (sym same) k in
              (rewrite_iff (new c.rewrite) sni x).1 (record {
                suffix = dotted h;
                original = original;
                bytes = ap (all is_dns_byte) original ∙ b;
                first = first;
                target = target;
              })),
      )

  -- With such a configuration, such a name is rejected exactly when no configured base domain splits
  -- its canonical form.
  pub rewrite_none-validate_structure :
      validate_structure parse_socket_addr file_exists c ≡ ok tt
      → all is_dns_byte (canonical_domain sni) ≡ true
      → (rewrite (new c.rewrite) sni ≡ none)
        ↔ All (NoSplit (canonical_domain sni)) c.rewrite.base_domains
  rewrite_none-validate_structure h b =
      subst
        (λ (k : RewriteConfig).
          (rewrite (new c.rewrite) sni ≡ none)
          ↔ All (NoSplit (canonical_domain sni)) k.base_domains)
        (new-validate_structure parse_socket_addr file_exists c h)
        (rewrite-none_iff (new c.rewrite) sni (dotted h) b)
