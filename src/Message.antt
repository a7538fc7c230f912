-- ===== src/Message.antt =====
-- src/proxy/http.rs: what a DNS message and its HTTP carriers must look like. The base64 decoder is
-- a third-party crate: a parameter. A body is the sequence of what its polls yield.
pub mod Query
pub mod Body
mod Tests
use dns_ingress.Prelude.{
  ℕ, ◌+◌, ◌-◌, ◌^◌, Bool, true, false, ◌&&◌, ◌||◌, ◌==◌, ltb, leb, Option, none, some, List, [],
  ◌∷◌, ◌++◌, length, is_empty, if◌then◌else◌, Result, ok, err, ◌>>=◌, ok_or, map_err, head?,
}
use dns_ingress.Prelude.Text.{Text, codes, to_ascii_lowercase, text_eq, split}

abbrev pub max_dns_message_size : ℕ
max_dns_message_size = 2 ^ 16 - 1

-- hyper's `Method` and the parts of its `Uri` that are read.
pub data Method : Type 0 where
  get post : Method
  other : Text → Method

pub record Uri : Type 0 where
  pub path : Text
  pub query : Option Text
  pub authority : Option Text

-- An `anyhow` error is its message.
unfoldable pub validate_dns_message : List ℕ → Text → Result Text (Unit {0})
validate_dns_message message context =
    if leb 12 (length message) && leb (length message) max_dns_message_size
    then ok tt
    else err (context ++ codes " must contain one DNS message between 12 and 65535 bytes")

-- `trim` on the ASCII text that `to_str` yields.
abbrev pub is_whitespace : ℕ → Bool
is_whitespace c = c == 32 || leb 9 c && leb c 13

abbrev pub trim_start : Text → Text
trim_start [] = []
trim_start (c ∷ s) = if is_whitespace c then trim_start s else c ∷ s

unfoldable pub trim_end : Text → Text
trim_end [] = []
trim_end (c ∷ s) =
    let rest = trim_end s in if is_empty rest && is_whitespace c then [] else c ∷ rest

abbrev pub trim : Text → Text
trim s = trim_end (trim_start s)

abbrev pub eq_ignore_ascii_case : Text → Text → Bool
eq_ignore_ascii_case s t = text_eq (to_ascii_lowercase s) (to_ascii_lowercase t)

abbrev pub dns_message_media_type : Text
dns_message_media_type = codes "application/dns-message"

media_type_eq : Option Text → Bool
media_type_eq none = false
media_type_eq (some piece) = eq_ignore_ascii_case (trim piece) dns_message_media_type

unfoldable pub is_dns_message_content_type : Option Text → Bool
unfolding media_type_eq
is_dns_message_content_type none = false
is_dns_message_content_type (some value) = media_type_eq (head? (split b';' value))

-- `s.split_once(c)`
unfoldable pub split_once : ℕ → Text → Option (Text × Text)
split_once c [] = none
split_once c (x ∷ s) =
    if x == c
    then some ([], s)
    else elim (split_once c s) [ none ↦ none | some (a, b) ↦ some (x ∷ a, b) ]

-- The closure of the `find_map`.
unfoldable pub dns_value : Text → Option Text
dns_value parameter = elim (split_once b'=' parameter) [
  | none ↦ none
  | some (name, value) ↦ if text_eq name (codes "dns") then some value else none
]

unfoldable pub find_dns : List Text → Option Text
find_dns [] = none
find_dns (parameter ∷ more) = elim (dns_value parameter) [
  | none ↦ find_dns more
  | some value ↦ some value
]

abbrev pub dns_parameter : Option Text → Option Text
dns_parameter none = none
dns_parameter (some query) = find_dns (split b'&' query)

abbrev unpadded : Text → Text
unpadded protocol = protocol ++ codes " dns query parameter must be unpadded base64url"

non_empty : Text → Text → Result Text (Unit {0})
non_empty protocol value = if is_empty value then err (unpadded protocol) else ok tt

unfoldable pub validate_doh_get_query :
    (Text → Option (List ℕ)) → Uri → Text → Result Text (Unit {0})
unfolding non_empty
validate_doh_get_query decode uri protocol = do
  value ←
      ok_or (dns_parameter uri.query)
        (protocol ++ codes " GET requests require a non-empty dns query parameter")
  _ ← non_empty protocol value
  message ← ok_or (decode value) (unpadded protocol)
  validate_dns_message message (protocol ++ codes " GET dns query parameter")

pub data BodyCollectionError : Type 0 where
  stalled : Text → BodyCollectionError
  too_large : Text → BodyCollectionError
  read : Text → Text → BodyCollectionError

-- What a poll of the body yields before its deadline: a frame of data, a frame of trailers, an
-- error, or nothing in time. The end of the list is the end of the body.
pub data Poll : Type 0 where
  frame : List ℕ → Poll
  trailers : Poll
  failed : Text → Poll
  late : Poll

unfoldable pub collect_frames : List Poll → Text → List ℕ → Result BodyCollectionError (List ℕ)
collect_frames [] operation collected = ok collected
collect_frames (late ∷ body) operation collected = err (stalled operation)
collect_frames (failed reason ∷ body) operation collected = err (read operation reason)
collect_frames (trailers ∷ body) operation collected = collect_frames body operation collected
collect_frames (frame bytes ∷ body) operation collected =
    let rest = collect_frames body operation (collected ++ bytes) in
    if ltb (max_dns_message_size - length collected) (length bytes)
    then err (too_large operation)
    else rest

unfoldable pub collect_body_with_progress : List Poll → Text → Result BodyCollectionError (List ℕ)
collect_body_with_progress body operation = collect_frames body operation []
