-- ===== src/Config/Names/Shape.antt =====
-- The accepted names against a description by their labels.
use dns_ingress.Prelude.{
  ℕ, ◌≤◌, ◌≡◌, refl, sym, ap, ◌∙◌, ◌↔◌, ◌≢◌, inl, inr, true, not, leb, ◌==◌, List, [], ◌∷◌, ◌++◌,
  arith, is_empty, all, length, All, Bool-cases, some, Option, none, head?, get_last?, all_iff,
  get_last?-All, le→leb, leb→le, and_five, and_iff,
}
use dns_ingress.Prelude.Text.{Text, split, push_head}
use dns_ingress.Config.Names.{is_some_alphanumeric, is_label, is_label_byte, is_ascii_dns_name}

-- Labels joined by dots.
unfoldable pub join : List Text → Text
join [] = []
join (l ∷ []) = l
join (l ∷ m ∷ more) = l ++ (b'.' ∷ join (m ∷ more))

abbrev pub HasNoDot : Text → Type 0
HasNoDot = All (λ c. c ≢ b'.')

-- A label: 1 to 63 lower-case letters, digits and hyphens, with no hyphen at either end.
pub record IsLabel (l : Text) : Type 0 where
  pub nonempty : l ≢ []
  pub short : length l ≤ 63
  pub bytes : All (λ c. is_label_byte c ≡ true) l
  pub first : head? l ≢ some b'-'
  pub last : get_last? l ≢ some b'-'

split-push : (x : ℕ) (s : Text) → x ≢ b'.' → split b'.' (x ∷ s) ≡ push_head x (split b'.' s)
unfolding split
split-push x s h = ground arith

join-push_head : (x : ℕ) (ps : List Text) → join (push_head x ps) ≡ x ∷ join ps
unfolding join push_head
join-push_head x [] = refl
join-push_head x (p ∷ []) = refl
join-push_head x (p ∷ q ∷ ps) = refl

split-ne-nil : (s : Text) → split b'.' s ≢ []
unfolding split push_head
split-ne-nil [] h = cc
split-ne-nil (x ∷ s) h = ground arith

join-nil : (ps : List Text) → ps ≢ [] → join ([] ∷ ps) ≡ b'.' ∷ join ps
unfolding join
join-nil [] h = absurd (h refl)
join-nil (p ∷ ps) h = refl

join-split : (s : Text) → join (split b'.' s) ≡ s
unfolding split
join-split [] = unfold join in refl
join-split (x ∷ s) = elim (Bool-cases (x == b'.')) [
  | inl e ↦ rw e (join-nil (split b'.' s) (split-ne-nil s) ∙ ground (arith, join-split s))
  | inr e ↦ rw e (join-push_head x (split b'.' s) ∙ ap (◌∷◌ x) (join-split s))
]

split-label : (l : Text) → HasNoDot l → split b'.' l ≡ l ∷ []
unfolding split push_head
split-label [] h = refl
split-label (x ∷ l) (d, h) = ground (arith, split-label l h)

split-append : (l s : Text) → HasNoDot l → split b'.' (l ++ (b'.' ∷ s)) ≡ l ∷ split b'.' s
unfolding split push_head
split-append [] s h = refl
split-append (x ∷ l) s (d, h) = ground (arith, split-append l s h)

split-join : (ls : List Text) → ls ≢ [] → All HasNoDot ls → split b'.' (join ls) ≡ ls
unfolding join
split-join [] h d = absurd (h refl)
split-join (l ∷ []) h (d, _) = split-label l d
split-join (l ∷ m ∷ more) h (d, ds) =
    split-append l (join (m ∷ more)) d ∙ ap (◌∷◌ l) (split-join (m ∷ more) (λ e. cc) ds)

alphanumeric-ne-hyphen : (o : Option ℕ) → is_some_alphanumeric o ≡ true → o ≢ some b'-'
alphanumeric-ne-hyphen none h = cc
alphanumeric-ne-hyphen (some c) h = ground arith

ne-nil : (l : Text) → not (is_empty l) ≡ true → l ≢ []
ne-nil [] h = cc
ne-nil (c ∷ l) h = λ e. cc

nil-or : (l : Text) → l ≢ [] → not (is_empty l) ≡ true
nil-or [] h = absurd (h refl)
nil-or (c ∷ l) h = refl

is_label-IsLabel : (l : Text) → is_label l ≡ true → IsLabel l
unfolding is_label
is_label-IsLabel l h =
    let (some_byte, short, first, last, bytes) = and_five _ _ _ _ _ h in
    record {
      nonempty = ne-nil l some_byte;
      short = leb→le _ _ short;
      bytes = (all_iff is_label_byte l).0 bytes;
      first = alphanumeric-ne-hyphen (head? l) first;
      last = alphanumeric-ne-hyphen (get_last? l) last;
    }

IsLabel-is_label : (l : Text) → IsLabel l → is_label l ≡ true
unfolding is_label
IsLabel-is_label [] v = absurd (v.nonempty refl)
IsLabel-is_label (c ∷ r) v =
    let (z, e, p) = get_last?-All (λ c. is_label_byte c ≡ true) c r v.bytes in
    let bytes : all is_label_byte (c ∷ r) ≡ true = (all_iff is_label_byte (c ∷ r)).1 v.bytes in
    let short : leb (length (c ∷ r)) 63 ≡ true = le→leb _ _ v.short in
    ground (arith, v.first, v.last, e, p, bytes, short, v.bytes.0)

pub IsLabel-HasNoDot : (l : Text) → All (λ c. is_label_byte c ≡ true) l → HasNoDot l
IsLabel-HasNoDot [] v = tt
IsLabel-HasNoDot (c ∷ l) v = (ground arith, IsLabel-HasNoDot l v.1)

is_label-All : (ls : List Text) → all is_label ls ≡ true → All IsLabel ls
is_label-All [] h = tt
is_label-All (l ∷ ls) h =
    let (p, q) = (and_iff _ _).0 h in (is_label-IsLabel l p, is_label-All ls q)

All-is_label : (ls : List Text) → All IsLabel ls → all is_label ls ≡ true
All-is_label [] v = refl
All-is_label (l ∷ ls) (v, vs) = (and_iff _ _).1 (IsLabel-is_label l v, All-is_label ls vs)

All-HasNoDot : (ls : List Text) → All IsLabel ls → All HasNoDot ls
All-HasNoDot [] v = tt
All-HasNoDot (l ∷ ls) (v, vs) = (IsLabel-HasNoDot l v.bytes, All-HasNoDot ls vs)

-- A DNS name: labels joined by dots, of at most 253 bytes.
pub record IsDnsName (name : Text) : Type 0 where
  pub labels : List Text
  pub some_label : labels ≢ []
  pub joined : name ≡ join labels
  pub each : All IsLabel labels
  pub short : length name ≤ 253

join-ne-nil : (ls : List Text) → ls ≢ [] → All IsLabel ls → join ls ≢ []
unfolding join
join-ne-nil [] h v = absurd (h refl)
join-ne-nil (l ∷ []) h v = v.0.nonempty
join-ne-nil ([] ∷ m ∷ ls) h v = cc
join-ne-nil ((c ∷ l) ∷ m ∷ ls) h v = cc

is_ascii_dns_name-IsDnsName : (name : Text) → is_ascii_dns_name name ≡ true → IsDnsName name
unfolding is_ascii_dns_name
is_ascii_dns_name-IsDnsName name h =
    let (p, labels) = (and_iff _ _).0 h in
    let (named, short) = (and_iff _ _).0 p in
    record {
      labels = split b'.' name;
      some_label = split-ne-nil name;
      joined = sym (join-split name);
      each = is_label-All (split b'.' name) labels;
      short = leb→le _ _ short;
    }

IsDnsName-is_ascii_dns_name : (name : Text) → IsDnsName name → is_ascii_dns_name name ≡ true
unfolding is_ascii_dns_name
IsDnsName-is_ascii_dns_name name v =
    let back : split b'.' name ≡ v.labels =
      ap (split b'.') v.joined ∙ split-join v.labels v.some_label (All-HasNoDot v.labels v.each) in
    let named : name ≢ [] = λ e. join-ne-nil v.labels v.some_label v.each (sym v.joined ∙ e) in
    (and_iff _ _).1 (
      (and_iff _ _).1 (nil-or name named, le→leb _ _ v.short),
      rw back (All-is_label v.labels v.each),
    )

-- `is_ascii_dns_name` accepts exactly the texts that are labels joined by dots, each of 1 to 63
-- lower-case letters, digits and inner hyphens, with 253 bytes at most in all.
pub is_ascii_dns_name_iff : (name : Text) → (is_ascii_dns_name name ≡ true) ↔ IsDnsName name
is_ascii_dns_name_iff name = (is_ascii_dns_name-IsDnsName name, IsDnsName-is_ascii_dns_name name)
