-- ===== src/Config/Removed/Tests.antt =====
-- A file that is loaded.
use dns_ingress.Prelude.{◌≡◌, refl, some, none, [], ◌∷◌, Result, ok, err, if◌then◌else◌}
use dns_ingress.Prelude.Text.{Text, codes, text_eq}
use dns_ingress.Config.{AppConfig, default_config}
use dns_ingress.Config.Removed.{
  Tables, from_file, reject_removed_v1_fields, reject_removed, refuse_tls,
}

abbrev sample_read : Text → Result Text Text
sample_read path =
    if text_eq path (codes "config.toml") then ok (codes "[tls]") else err (codes "not found")

abbrev sample_tables : Tables
sample_tables section = if text_eq section (codes "tls") then some (codes "certs" ∷ []) else none

abbrev sample_parse : Text → Result Text Tables
sample_parse content = ok sample_tables

abbrev sample_load : Text → Result Text AppConfig
sample_load content = ok default_config

file_run : from_file sample_read sample_parse sample_load (codes "config.toml") ≡ ok default_config
unfolding from_file reject_removed_v1_fields reject_removed refuse_tls text_eq
file_run = refl
