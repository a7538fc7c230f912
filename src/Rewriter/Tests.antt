-- ===== src/Rewriter/Tests.antt =====
-- Runs at the names of the README, and examples of the theorems on the rewriter.
use dns_ingress.Prelude.{◌≡◌, refl, true, some, none, [], ◌∷◌, all}
use dns_ingress.Prelude.Text.{
  Text, codes, starts_with, to_lower, trim_end_matches, strip_suffix, ends_with,
}
use dns_ingress.Config.{default_config}
use dns_ingress.Rewriter.{
  new, rewrite, extract_prefix, prefix_under, BaseSniRewriter, RewriteResult, canonical_domain,
  is_dns_byte,
}
use dns_ingress.Rewriter.Rewrite.{IsRewrite, rewrite_iff}

abbrev readme_rewriter : BaseSniRewriter
readme_rewriter = record {
  config = record {
    base_domains = codes "example.com" ∷ codes "example.org" ∷ [];
    target_suffix = codes ".example.cn";
  };
}

abbrev asked : Text
asked = codes "WWW.example.org."

abbrev answered : RewriteResult
answered = record {
  original = codes "www.example.org";
  prefix = codes "www";
  target_hostname = codes "www.example.cn";
}

readme_match : rewrite readme_rewriter asked ≡ some answered
unfolding rewrite extract_prefix starts_with to_lower trim_end_matches prefix_under strip_suffix
    ends_with
readme_match = refl

new_run : new default_config.rewrite ≡ readme_rewriter
unfolding new to_lower trim_end_matches
new_run = refl

rewrite_iff_example : IsRewrite readme_rewriter asked answered
rewrite_iff_example = (rewrite_iff readme_rewriter asked answered).0 readme_match

prefix_run :
    extract_prefix readme_rewriter.config.base_domains (codes "www.example.org")
    ≡ some (codes "www")
unfolding extract_prefix starts_with to_lower trim_end_matches prefix_under strip_suffix ends_with
prefix_run = refl

same_name : canonical_domain asked ≡ canonical_domain (codes "www.EXAMPLE.org")
unfolding to_lower trim_end_matches
same_name = refl

abbrev elsewhere : Text
elsewhere = codes "badexample.com"

elsewhere_run : rewrite readme_rewriter elsewhere ≡ none
unfolding rewrite extract_prefix starts_with to_lower trim_end_matches prefix_under strip_suffix
    ends_with
elsewhere_run = refl

suffix_run : starts_with readme_rewriter.config.target_suffix (codes ".") ≡ true
unfolding starts_with
suffix_run = refl

bytes_run : all is_dns_byte (canonical_domain elsewhere) ≡ true
unfolding to_lower trim_end_matches
bytes_run = refl
