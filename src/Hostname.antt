-- ===== src/Hostname.antt =====
-- src/utils.rs, `normalize_hostname`. The parser of an HTTP authority is hyper's: a parameter that
-- yields the host part of a text that it accepts.
pub mod Canonical
mod Tests
use dns_ingress.Prelude.{
  Option, none, some, not, ◌&&◌, ◌||◌, Bool, ℕ, ◌==◌, if◌then◌else◌, is_empty, all,
}
use dns_ingress.Prelude.Text.{Text, to_ascii_lowercase, trim_end_matches, is_ascii_alphanumeric}

-- `b.is_ascii_alphanumeric() || b == b'.' || b == b'-'`
abbrev pub is_host_byte : ℕ → Bool
is_host_byte b = is_ascii_alphanumeric b || b == b'.' || b == b'-'

-- The steps behind the parse.
unfoldable pub canonical_host : Text → Option Text
canonical_host parsed =
    let host = to_ascii_lowercase (trim_end_matches b'.' parsed) in
    if not (is_empty host) && all is_host_byte host then some host else none

unfoldable pub normalize_hostname : (Text → Option Text) → Text → Option Text
unfolding canonical_host
normalize_hostname parse_host authority = elim (parse_host authority) [
  | none ↦ none
  | some parsed ↦ canonical_host parsed
]
