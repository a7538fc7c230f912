-- ===== src/Config/Names.antt =====
-- src/config.rs: `is_ascii_dns_name` and `is_ascii_dns_suffix`, which accept the domains of the
-- rewriter.
pub mod Shape
pub mod Canonical
use dns_ingress.Prelude.{
  ℕ, Bool, true, false, not, ◌&&◌, ◌||◌, ◌==◌, leb, Option, none, some, List, [], ◌∷◌, is_empty,
  all, head?, get_last?, length,
}
use dns_ingress.Prelude.Text.{
  Text, codes, split, starts_with, is_ascii_alphanumeric, is_ascii_lowercase, is_ascii_digit,
}

-- `option.is_some_and(u8::is_ascii_alphanumeric)`
abbrev pub is_some_alphanumeric : Option ℕ → Bool
is_some_alphanumeric none = false
is_some_alphanumeric (some c) = is_ascii_alphanumeric c

-- `byte.is_ascii_lowercase() || byte.is_ascii_digit() || *byte == b'-'`
abbrev pub is_label_byte : ℕ → Bool
is_label_byte byte = is_ascii_lowercase byte || is_ascii_digit byte || byte == b'-'

-- The closure over the labels.
unfoldable pub is_label : Text → Bool
is_label bytes =
    not (is_empty bytes)
    && leb (length bytes) 63
    && is_some_alphanumeric (head? bytes)
    && is_some_alphanumeric (get_last? bytes)
    && all is_label_byte bytes

unfoldable pub is_ascii_dns_name : Text → Bool
is_ascii_dns_name name =
    not (is_empty name) && leb (length name) 253 && all is_label (split b'.' name)

-- `&suffix[1..]` is the tail, behind the dot.
unfoldable pub is_ascii_dns_suffix : Text → Bool
is_ascii_dns_suffix [] = false
is_ascii_dns_suffix (c ∷ rest) = starts_with (c ∷ rest) (codes ".") && is_ascii_dns_name rest
