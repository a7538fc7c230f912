-- ===== src/Rewriter.antt =====
-- src/rewriters/base.rs, with the trait and the result of src/sni.rs and the constructor of
-- src/rewrite.rs. Log lines are left out.
pub mod Prefix
pub mod Rewrite
mod Tests
use mathlib.Core.Option.{get_or}
use dns_ingress.Prelude.{
  ℕ, Bool, not, ◌&&◌, ◌||◌, ◌==◌, Option, none, some, List, [], ◌∷◌, ◌++◌, map, if◌then◌else◌,
  is_empty, all,
}
use dns_ingress.Prelude.Text.{
  Text, codes, is_ascii_lowercase, is_ascii_digit, to_ascii_lowercase, trim_end_matches,
  strip_suffix, ends_with, starts_with,
}
use dns_ingress.Config.{RewriteConfig}

pub record RewriteResult : Type 0 where
  pub original : Text
  pub prefix : Text
  pub target_hostname : Text

pub record BaseSniRewriter : Type 0 where
  pub config : RewriteConfig

abbrev pub dot : Text
dot = b'.' ∷ []

-- One round of the loop of `BaseSniRewriter::new`.
abbrev pub canonical_domain : Text → Text
canonical_domain domain = to_ascii_lowercase (trim_end_matches b'.' domain)

-- `create_rewriter` only shares the value.
unfoldable pub new : RewriteConfig → BaseSniRewriter
new config = record {
  config = record {
    base_domains = map canonical_domain config.base_domains;
    target_suffix = to_ascii_lowercase config.target_suffix;
  };
}

-- The body of the `if let` in `extract_prefix`: `none` goes on with the next base domain.
unfoldable pub prefix_before : Text → Option Text
prefix_before rest =
    if not (is_empty rest) && ends_with rest dot
    then (let prefix = get_or (strip_suffix rest dot) rest in
        if not (is_empty prefix) then some prefix else none)
    else none

unfoldable pub prefix_under : Text → Text → Option Text
unfolding prefix_before
prefix_under sni base_domain = elim (strip_suffix sni base_domain) [
  | none ↦ none
  | some rest ↦ prefix_before rest
]

unfoldable pub extract_prefix : List Text → Text → Option Text
extract_prefix [] sni = none
extract_prefix (base_domain ∷ more) sni = elim (prefix_under sni base_domain) [
  | none ↦ extract_prefix more sni
  | some prefix ↦ some prefix
]

unfoldable pub build_target_hostname : BaseSniRewriter → Text → Text
build_target_hostname rewriter prefix = prefix ++ rewriter.config.target_suffix

-- `byte.is_ascii_lowercase() || byte.is_ascii_digit() || byte == b'.' || byte == b'-'`
abbrev pub is_dns_byte : ℕ → Bool
is_dns_byte byte = is_ascii_lowercase byte || is_ascii_digit byte || byte == b'.' || byte == b'-'

unfoldable pub rewritten : BaseSniRewriter → Text → Option Text → Option RewriteResult
unfolding build_target_hostname
rewritten rewriter normalized none = none
rewritten rewriter normalized (some prefix) = some (record {
  original = normalized;
  prefix = prefix;
  target_hostname = build_target_hostname rewriter prefix;
})

unfoldable pub rewrite : BaseSniRewriter → Text → Option RewriteResult
unfolding rewritten
rewrite rewriter sni =
    let normalized = canonical_domain sni in
    if is_empty sni
    then none
    else if is_empty rewriter.config.base_domains
    then none
    else if not (starts_with rewriter.config.target_suffix dot)
    then none
    else if not (all is_dns_byte normalized)
    then none
    else rewritten rewriter normalized (extract_prefix rewriter.config.base_domains normalized)
