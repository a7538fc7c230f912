-- ===== src/Config/Names/Canonical.antt =====
-- An accepted name is its own canonical form, so the rewriter uses it as it was configured.
use dns_ingress.Prelude.{ℕ, ◌≡◌, refl, ap, ◌≢◌, true, List, [], ◌∷◌, ◌++◌, map, arith, All}
use dns_ingress.Prelude.Text.{Text, to_lower, to_ascii_lowercase, trim_end_matches}
use dns_ingress.Rewriter.{canonical_domain}
use dns_ingress.Config.Names.{is_label_byte, is_ascii_dns_name}
use dns_ingress.Config.Names.Shape.{
  HasNoDot, IsLabel, IsLabel-HasNoDot, join, is_ascii_dns_name_iff,
}

trim-cons :
    (x : ℕ) (s : Text)
    → trim_end_matches b'.' s ≡ s
    → s ≢ []
    → trim_end_matches b'.' (x ∷ s) ≡ x ∷ s
unfolding trim_end_matches
trim-cons x [] h k = absurd (k refl)
trim-cons x (c ∷ s) h k = rw h

trim-append :
    (l s : Text) → trim_end_matches b'.' s ≡ s → s ≢ [] → trim_end_matches b'.' (l ++ s) ≡ l ++ s
trim-append [] s h k = h
trim-append (x ∷ l) s h k = trim-cons x (l ++ s) (trim-append l s h k) (some_byte l s k)
  where
    some_byte : (l s : Text) → s ≢ [] → (l ++ s) ≢ []
    some_byte [] s k e = k e
    some_byte (x ∷ l) s k e = cc

trim-HasNoDot : (l : Text) → HasNoDot l → trim_end_matches b'.' l ≡ l
unfolding trim_end_matches
trim-HasNoDot [] h = refl
trim-HasNoDot (x ∷ l) (d, h) = ground (arith, trim-HasNoDot l h)

join-some : (m : Text) (ls : List Text) → IsLabel m → join (m ∷ ls) ≢ []
unfolding join
join-some m [] v = v.nonempty
join-some [] (k ∷ ls) v = absurd (v.nonempty refl)
join-some (c ∷ m) (k ∷ ls) v = λ e. cc

trim-join : (ls : List Text) → All IsLabel ls → trim_end_matches b'.' (join ls) ≡ join ls
unfolding join
trim-join [] v = unfold trim_end_matches in refl
trim-join (l ∷ []) v = trim-HasNoDot l (IsLabel-HasNoDot l v.0.bytes)
trim-join (l ∷ m ∷ ls) (v, vs) =
    trim-append l (b'.' ∷ join (m ∷ ls))
      (trim-cons b'.' (join (m ∷ ls)) (trim-join (m ∷ ls) vs) (join-some m ls vs.0)) (λ e. cc)

lower-label : (l : Text) → All (λ c. is_label_byte c ≡ true) l → to_ascii_lowercase l ≡ l
unfolding to_lower
lower-label [] h = refl
lower-label (c ∷ l) (p, h) = ground (arith, lower-label l h)

lower-append :
    (l s : Text)
    → to_ascii_lowercase l ≡ l
    → to_ascii_lowercase s ≡ s
    → map to_lower (l ++ s) ≡ l ++ s
lower-append [] s h k = k
lower-append (c ∷ l) s h k = ground (arith, lower-append l s)

lower-join : (ls : List Text) → All IsLabel ls → to_ascii_lowercase (join ls) ≡ join ls
unfolding join to_lower
lower-join [] v = refl
lower-join (l ∷ []) v = lower-label l v.0.bytes
lower-join (l ∷ m ∷ ls) (v, vs) =
    lower-append l (b'.' ∷ join (m ∷ ls)) (lower-label l v.bytes)
      (ap (◌∷◌ b'.') (lower-join (m ∷ ls) vs))

-- A name that `is_ascii_dns_name` accepts has no upper-case letter and no trailing dot to remove.
pub canonical_domain-is_ascii_dns_name :
    (name : Text) → is_ascii_dns_name name ≡ true → canonical_domain name ≡ name
canonical_domain-is_ascii_dns_name name h =
    let v = (is_ascii_dns_name_iff name).0 h in
    rw (v.joined, trim-join v.labels v.each) (lower-join v.labels v.each)

pub to_ascii_lowercase-is_ascii_dns_name :
    (name : Text) → is_ascii_dns_name name ≡ true → to_ascii_lowercase name ≡ name
to_ascii_lowercase-is_ascii_dns_name name h =
    let v = (is_ascii_dns_name_iff name).0 h in rw v.joined (lower-join v.labels v.each)
