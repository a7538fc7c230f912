-- ===== src/Prelude/Text.antt =====
-- `str` and `String` as the list of their UTF-8 bytes, with the methods of the standard library
-- that the program calls.
use Prim.Native.Nat.{ℕ, zero, suc, ◌+◌, ◌/◌, ◌%◌}
use Prim.Native.Char.{code}
use Prim.Native.String.{String}
use mathlib.Core.Path.{◌≡◌, refl, ap}
use mathlib.Core.Logic.{◌↔◌, inl, inr}
use mathlib.Core.Bool.{Bool, true, false, ◌&&◌, ◌||◌}
use mathlib.Core.Option
use mathlib.Core.Option.{Option, none, some}
use mathlib.Core.List.{List, [], ◌∷◌, ◌++◌, map}
use native.Mathlib.Omega.{arith}
use dns_ingress.Prelude.Tests.{ltb, leb, ◌==◌, if◌then◌else◌, Bool-cases, Option-cases}
use dns_ingress.Prelude.Lists.{length, is_empty, length-append}

abbrev pub Text : Type 0
Text = List ℕ

-- The code points of a literal; these are its bytes, since the literals here are ASCII.
abbrev pub codes : String → Text
codes String.[] = []
codes (String.◌∷◌ c s) = code c ∷ codes s

abbrev pub is_ascii_lowercase : ℕ → Bool
is_ascii_lowercase c = leb b'a' c && leb c b'z'

abbrev pub is_ascii_uppercase : ℕ → Bool
is_ascii_uppercase c = leb b'A' c && leb c b'Z'

abbrev pub is_ascii_digit : ℕ → Bool
is_ascii_digit c = leb b'0' c && leb c b'9'

abbrev pub is_ascii_alphanumeric : ℕ → Bool
is_ascii_alphanumeric c = is_ascii_lowercase c || is_ascii_uppercase c || is_ascii_digit c

unfoldable pub to_lower : ℕ → ℕ
to_lower c = if is_ascii_uppercase c then c + 32 else c

abbrev pub to_ascii_lowercase : Text → Text
to_ascii_lowercase = map to_lower

unfoldable pub text_eq : Text → Text → Bool
text_eq [] [] = true
text_eq (a ∷ s) (b ∷ t) = a == b && text_eq s t
text_eq _ _ = false

unfoldable pub starts_with : Text → Text → Bool
starts_with s [] = true
starts_with [] (b ∷ t) = false
starts_with (a ∷ s) (b ∷ t) = a == b && starts_with s t

-- `s.strip_suffix(x)`
unfoldable pub strip_suffix : Text → Text → Option Text
unfolding text_eq
strip_suffix [] x = if text_eq [] x then some [] else none
strip_suffix (c ∷ s) x =
    if text_eq (c ∷ s) x then some [] else Option.map (◌∷◌ c) (strip_suffix s x)

-- `s.ends_with(x)`
unfoldable pub ends_with : Text → Text → Bool
unfolding strip_suffix
ends_with s x = elim (strip_suffix s x) [ none ↦ false | some r ↦ true ]

-- `s.trim_end_matches(c)` for a character
unfoldable pub trim_end_matches : ℕ → Text → Text
trim_end_matches c [] = []
trim_end_matches c (x ∷ s) =
    let rest = trim_end_matches c s in if is_empty rest && x == c then [] else x ∷ rest

-- `s.contains(x)`
unfoldable pub contains : Text → Text → Bool
unfolding starts_with
contains [] x = starts_with [] x
contains (c ∷ s) x = starts_with (c ∷ s) x || contains s x

-- `s.split(c)` for a character: always at least one piece
unfoldable pub push_head : ℕ → List Text → List Text
push_head x [] = (x ∷ []) ∷ []
push_head x (p ∷ ps) = (x ∷ p) ∷ ps

unfoldable pub split : ℕ → Text → List Text
unfolding push_head
split c [] = [] ∷ []
split c (x ∷ s) = let rest = split c s in if x == c then [] ∷ rest else push_head x rest

-- `n.to_string()`; the fuel bounds the digits, of which `n` has at most `n + 1`.
decimal_from : ℕ → ℕ → Text
decimal_from zero n = []
decimal_from (suc fuel) n =
    let front = decimal_from fuel (n / 10) in
    if ltb n 10 then (n + b'0') ∷ [] else front ++ ((n % 10 + b'0') ∷ [])

unfoldable pub decimal : ℕ → Text
unfolding decimal_from
decimal n = decimal_from (suc n) n

pub text_eq_iff : (s t : Text) → (text_eq s t ≡ true) ↔ (s ≡ t)
unfolding text_eq
text_eq_iff [] [] = (λ h. refl, λ h. refl)
text_eq_iff [] (b ∷ t) = (λ h. cc, λ h. cc)
text_eq_iff (a ∷ s) [] = (λ h. cc, λ h. cc)
text_eq_iff (a ∷ s) (b ∷ t) = ground (arith, text_eq_iff s t)

pub text_eq_refl : (s : Text) → text_eq s s ≡ true
text_eq_refl s = (text_eq_iff s s).1 refl

pub strip_suffix-some : (s x : Text) {r : Text} → strip_suffix s x ≡ some r → s ≡ r ++ x
unfolding strip_suffix
strip_suffix-some [] x h = ground (arith, text_eq_iff [] x)
strip_suffix-some (c ∷ s) x {r} h = elim (Bool-cases (text_eq (c ∷ s) x)) [
  | inl e ↦ ground (arith, text_eq_iff (c ∷ s) x)
  | inr e ↦ elim (Option-cases (strip_suffix s x)) [
    | inl gone ↦ ground (arith, gone, e)
    | inr (q, found) ↦ ground (arith, found, e, strip_suffix-some s x found)
  ]
]

text_eq-append_cons : (c : ℕ) (r x : Text) → text_eq (c ∷ (r ++ x)) x ≡ false
text_eq-append_cons c r x = elim (Bool-cases (text_eq (c ∷ (r ++ x)) x)) [
  | inl e ↦
      absurd (omega (arith, length-append r x, ap length ((text_eq_iff (c ∷ (r ++ x)) x).0 e)))
  | inr e ↦ e
]

strip_suffix_self : (x : Text) → strip_suffix x x ≡ some []
unfolding strip_suffix
strip_suffix_self [] = refl
strip_suffix_self (c ∷ x) = rw (text_eq_refl (c ∷ x))

-- `strip_suffix` finds the suffix of every text that ends with it.
pub strip_suffix-append : (r x : Text) → strip_suffix (r ++ x) x ≡ some r
unfolding strip_suffix
strip_suffix-append [] x = strip_suffix_self x
strip_suffix-append (c ∷ r) x = rw (text_eq-append_cons c r x, strip_suffix-append r x)

pub ends_with-append : (r x : Text) → ends_with (r ++ x) x ≡ true
unfolding ends_with
ends_with-append r x = rw (ends_with, strip_suffix-append r x)

pub ends_with-some : (s x : Text) → ends_with s x ≡ true → (r : Text) × (s ≡ r ++ x)
unfolding ends_with
ends_with-some s x h = elim (Option-cases (strip_suffix s x)) [
  | inl e ↦ ground (arith, e)
  | inr (r, e) ↦ (r, strip_suffix-some s x e)
]

pub to_lower_idem : (c : ℕ) → to_lower (to_lower c) ≡ to_lower c
unfolding to_lower
to_lower_idem c = ground arith

pub to_ascii_lowercase_idem :
    (s : Text) → to_ascii_lowercase (to_ascii_lowercase s) ≡ to_ascii_lowercase s
to_ascii_lowercase_idem [] = refl
to_ascii_lowercase_idem (c ∷ s) = cc (to_lower_idem c, to_ascii_lowercase_idem s)

pub trim_end_matches_idem :
    (c : ℕ) (s : Text) → trim_end_matches c (trim_end_matches c s) ≡ trim_end_matches c s
unfolding trim_end_matches
trim_end_matches_idem c [] = refl
trim_end_matches_idem c (x ∷ s) = elim (Bool-cases (is_empty (trim_end_matches c s) && x == c)) [
  | inl e ↦ rw e
  | inr e ↦ rw (e, trim_end_matches_idem c s, e)
]

to_lower-dot : (x : ℕ) → (to_lower x == b'.') ≡ (x == b'.')
unfolding to_lower
to_lower-dot x = ground arith

is_empty-map : (f : ℕ → ℕ) (s : Text) → is_empty (map f s) ≡ is_empty s
is_empty-map f [] = refl
is_empty-map f (x ∷ s) = refl

-- Lower case and the removal of trailing dots may be done in either order.
pub trim_end_matches-to_ascii_lowercase :
    (s : Text)
    → trim_end_matches b'.' (to_ascii_lowercase s) ≡ to_ascii_lowercase (trim_end_matches b'.' s)
unfolding trim_end_matches
trim_end_matches-to_ascii_lowercase [] = refl
trim_end_matches-to_ascii_lowercase (x ∷ s) =
    rw
      (
        trim_end_matches-to_ascii_lowercase s,
        to_lower-dot x,
        is_empty-map to_lower (trim_end_matches b'.' s),
      )
      (ground arith)

starts_with_self : (x y : Text) → starts_with (x ++ y) x ≡ true
unfolding starts_with
starts_with_self [] [] = refl
starts_with_self [] (b ∷ y) = refl
starts_with_self (a ∷ x) y = ground (arith, starts_with_self x y)

-- A text contains every part of it.
pub contains-append : (s x t : Text) → contains (s ++ (x ++ t)) x ≡ true
unfolding contains
contains-append [] [] [] = refl
contains-append [] [] (b ∷ t) = refl
contains-append [] (a ∷ x) t = ground (arith, starts_with_self (a ∷ x) t)
contains-append (c ∷ s) x t = ground (arith, contains-append s x t)

pub contains-after : (s t x : Text) → contains t x ≡ true → contains (s ++ t) x ≡ true
unfolding contains
contains-after [] t x h = h
contains-after (c ∷ s) t x h = ground (arith, contains-after s t x h)
