-- ===== src/Config/Removed.antt =====
-- src/config.rs: `from_file` and the fields of the first version that it refuses. The file system,
-- the TOML parser and the deserializer are parameters. A parsed file is the keys of each section
-- that is a table. An error is its message.
mod Tests
use dns_ingress.Prelude.{
  ◌≡◌, refl, sym, ◌↔◌, ◌∙◌, true, false, Bool, ◌||◌, Option, none, some, List, [], ◌∷◌, ◌++◌, All,
  any, arith, inl, inr, if◌then◌else◌, Bool-cases, Result, ok, err, ◌>>=◌, ◌>>◌, >>_iff, >>=-eq-ok,
  ok->>=,
}
use dns_ingress.Prelude.Text.{Text, codes, text_eq}
use dns_ingress.Config.{AppConfig}

abbrev pub Tables : Type 0
Tables = Text → Option (List Text)

abbrev pub has_key : Tables → Text → Text → Bool
has_key value section key = elim (value section) [
  | none ↦ false
  | some keys ↦ any (text_eq key) keys
]

abbrev refuse : Bool → Text → Result Text (Unit {0})
refuse test message = if test then err message else ok tt

abbrev pub removed_tls : List Text
removed_tls =
    codes "ca_file"
    ∷ codes "require_client_cert"
    ∷ codes "client_cert_file"
    ∷ codes "client_key_file"
    ∷ []

refuse_tls : Tables → List Text → Result Text (Unit {0})
refuse_tls value [] = ok tt
refuse_tls value (key ∷ more) =
    refuse (has_key value (codes "tls") key)
      (codes "tls." ++ (key ++ codes " was removed in v2; inbound mTLS is not supported"))
    >> refuse_tls value more

abbrev strategy_removed : Text
strategy_removed =
    codes
      "rewrite.rewrite_failure_strategy was removed in v2; unmatched domains are always rejected"

abbrev default_removed : Text
default_removed =
    codes "upstream.default was removed in v2; upstream hostnames are always derived from rewrite"

-- The checks on the parsed file.
pub reject_removed : Tables → Result Text (Unit {0})
reject_removed value =
    refuse (has_key value (codes "rewrite") (codes "rewrite_failure_strategy")) strategy_removed
    >> (refuse (has_key value (codes "upstream") (codes "default")) default_removed
        >> refuse_tls value removed_tls)

module _ (read_to_string : Text → Result Text Text) (parse : Text → Result Text Tables)
    (deserialize : Text → Result Text AppConfig) where
  pub reject_removed_v1_fields : Text → Result Text (Unit {0})
  reject_removed_v1_fields content = do value ← parse content; reject_removed value

  pub from_file : Text → Result Text AppConfig
  from_file path = do
    content ← read_to_string path
    _ ← reject_removed_v1_fields content
    deserialize content

-- The fields that the second version no longer has, with their sections.
abbrev pub removed_fields : List (Text × Text)
removed_fields =
    (codes "rewrite", codes "rewrite_failure_strategy")
    ∷ (codes "upstream", codes "default")
    ∷ (codes "tls", codes "ca_file")
    ∷ (codes "tls", codes "require_client_cert")
    ∷ (codes "tls", codes "client_cert_file")
    ∷ (codes "tls", codes "client_key_file")
    ∷ []

abbrev pub Clean : Tables → Type 0
Clean value = All (λ (f : Text × Text). has_key value f.0 f.1 ≡ false) removed_fields

refuse_iff : (test : Bool) (message : Text) → (refuse test message ≡ ok tt) ↔ (test ≡ false)
refuse_iff true message = (λ h. cc, λ h. cc)
refuse_iff false message = (λ h. refl, λ h. refl)

refuse_tls_iff :
    (value : Tables) (keys : List Text)
    → (refuse_tls value keys ≡ ok tt) ↔ All (λ k. has_key value (codes "tls") k ≡ false) keys
unfolding refuse_tls
refuse_tls_iff value [] = (λ h. tt, λ h. refl)
refuse_tls_iff value (key ∷ more) =
    let step =
      >>_iff
        (refuse (has_key value (codes "tls") key)
          (codes "tls." ++ (key ++ codes " was removed in v2; inbound mTLS is not supported")))
        (refuse_tls value more) in
    let first =
      refuse_iff (has_key value (codes "tls") key)
        (codes "tls." ++ (key ++ codes " was removed in v2; inbound mTLS is not supported")) in
    let rest = refuse_tls_iff value more in
    (λ h. let (a, b) = step.0 h in (first.0 a, rest.0 b), λ h. step.1 (first.1 h.0, rest.1 h.1))

reject_removed_iff : (value : Tables) → (reject_removed value ≡ ok tt) ↔ Clean value
unfolding reject_removed
reject_removed_iff value =
    let strategy = has_key value (codes "rewrite") (codes "rewrite_failure_strategy") in
    let default = has_key value (codes "upstream") (codes "default") in
    let tail = refuse default default_removed >> refuse_tls value removed_tls in
    let outer = >>_iff (refuse strategy strategy_removed) tail in
    let inner = >>_iff (refuse default default_removed) (refuse_tls value removed_tls) in
    let keys = refuse_tls_iff value removed_tls in
    (
      λ h.
          let (a, k) = outer.0 h in
          let (b, l) = inner.0 k in
          (
            (refuse_iff strategy strategy_removed).0 a,
            ((refuse_iff default default_removed).0 b, keys.0 l),
          ),
      λ h. outer.1 (
        (refuse_iff strategy strategy_removed).1 h.0,
        inner.1 ((refuse_iff default default_removed).1 h.1.0, keys.1 h.1.1),
      ),
    )

module _ (read_to_string : Text → Result Text Text) (parse : Text → Result Text Tables)
    (deserialize : Text → Result Text AppConfig) where
  -- A file is loaded exactly when it can be read, it parses with none of the six removed fields in a
  -- section that is a table, and it deserializes to the configuration.
  pub from_file_iff :
      (path : Text) (config : AppConfig)
      → (from_file read_to_string parse deserialize path ≡ ok config) ↔ (
          (content : Text) × (value : Tables) × (read_to_string path ≡ ok content)
          × (parse content ≡ ok value)
          × Clean value
          × (deserialize content ≡ ok config))
  unfolding from_file reject_removed_v1_fields
  from_file_iff path config = (forth, back)
    where
      forth :
          from_file read_to_string parse deserialize path ≡ ok config
          → (content : Text) × (value : Tables) × (read_to_string path ≡ ok content)
            × (parse content ≡ ok value)
            × Clean value
            × (deserialize content ≡ ok config)
      forth h =
          let (content, present, rest) = >>=-eq-ok (read_to_string path) _ h in
          let (u, checked, loaded) =
            >>=-eq-ok (reject_removed_v1_fields read_to_string parse deserialize content) _ rest in
          let (value, parsed, clean) = >>=-eq-ok (parse content) _ checked in
          (content, value, present, parsed, (reject_removed_iff value).0 clean, loaded)

      back :
          ((content : Text) × (value : Tables) × (read_to_string path ≡ ok content)
            × (parse content ≡ ok value)
            × Clean value
            × (deserialize content ≡ ok config))
          → from_file read_to_string parse deserialize path ≡ ok config
      back (content, value, present, parsed, clean, loaded) =
          ok->>= (read_to_string path) _ present (
            ok->>= (reject_removed_v1_fields read_to_string parse deserialize content) _
              (ok->>= (parse content) _ parsed ((reject_removed_iff value).1 clean)) loaded)
