-- ===== src/QuicPool/Slots.antt =====
-- src/upstream/quic_pool.rs: counting the references to slots.
use dns_ingress.Prelude.{
  ℕ, suc, ◌+◌, ◌≤◌, ◌==◌, ◌≡◌, ◌≢◌, refl, ◌∙◌, arith, List, [], ◌∷◌, ◌++◌, length, if◌then◌else◌,
  Bool-cases, inl, inr, sym, ==_iff, ==_refl,
}
use dns_ingress.QuicPool.{count, remove_one}

-- How many slots a list of references has.
unfoldable pub distinct : List ℕ → ℕ
unfolding count
distinct [] = 0
distinct (x ∷ xs) = if count x xs == 0 then suc (distinct xs) else distinct xs

-- The second list has one more `x`.
pub data Inserted (x : ℕ) : List ℕ → List ℕ → Type 0 where
  here : {xs : List ℕ} → Inserted x xs (x ∷ xs)
  there : {y : ℕ} {xs ys : List ℕ} → Inserted x xs ys → Inserted x (y ∷ xs) (y ∷ ys)

pub Inserted-after :
    {x : ℕ} (front : List ℕ) {xs ys : List ℕ}
    → Inserted x xs ys
    → Inserted x (front ++ xs) (front ++ ys)
Inserted-after [] i = i
Inserted-after (y ∷ front) i = there (Inserted-after front i)

pub Inserted-before :
    {x : ℕ} (rest : List ℕ) {xs ys : List ℕ}
    → Inserted x xs ys
    → Inserted x (xs ++ rest) (ys ++ rest)
Inserted-before rest here = here
Inserted-before rest (there i) = there (Inserted-before rest i)

pub count-Inserted :
    {x : ℕ} {xs ys : List ℕ}
    → Inserted x xs ys
    → (y : ℕ) → count y ys ≡ (if y == x then suc (count y xs) else count y xs)
unfolding count
count-Inserted here y = refl
count-Inserted (there i) y = ground (arith, count-Inserted i y)

pub length-Inserted : {x : ℕ} {xs ys : List ℕ} → Inserted x xs ys → length ys ≡ suc (length xs)
length-Inserted here = refl
length-Inserted (there i) = omega (arith, length-Inserted i)

pub distinct-Inserted :
    {x : ℕ} {xs ys : List ℕ}
    → Inserted x xs ys
    → distinct ys ≡ (if count x xs == 0 then suc (distinct xs) else distinct xs)
unfolding distinct count
distinct-Inserted here = refl
distinct-Inserted {x} (there {y} {xs} {ys} i) =
    ground (arith, distinct-Inserted i, count-Inserted i y)

pub count-append : (x : ℕ) (xs ys : List ℕ) → count x (xs ++ ys) ≡ count x xs + count x ys
unfolding count
count-append x [] ys = omega arith
count-append x (y ∷ xs) ys = ground (arith, count-append x xs ys)

pub distinct-length : (xs : List ℕ) → distinct xs ≤ length xs
unfolding distinct count
distinct-length [] = omega arith
distinct-length (x ∷ xs) = ground (arith, distinct-length xs)

pub distinct-append : (xs ys : List ℕ) → distinct ys ≤ distinct (xs ++ ys)
unfolding distinct count
distinct-append [] ys = omega arith
distinct-append (x ∷ xs) ys = ground (arith, distinct-append xs ys)

pub remove_one-Inserted : (x : ℕ) (xs : List ℕ) → count x xs ≢ 0 → Inserted x (remove_one x xs) xs
unfolding remove_one count
remove_one-Inserted x [] n = absurd (n refl)
remove_one-Inserted x (y ∷ xs) n = elim (Bool-cases (x == y)) [
  | inl t ↦ rw t (rw (sym ((==_iff x y).0 t)) here)
  | inr f ↦ rw f (there (remove_one-Inserted x xs (rw (f, count) at n)))
]

-- What a change that only moves references says of the two lists.
pub moved :
    {x : ℕ} {rest xs ys : List ℕ}
    → Inserted x rest xs
    → Inserted x rest ys
    → (distinct xs ≡ distinct ys) × (length xs ≡ length ys) × ((y : ℕ) → count y xs ≡ count y ys)
moved i j = (
  distinct-Inserted i ∙ sym (distinct-Inserted j),
  length-Inserted i ∙ sym (length-Inserted j),
  λ y. count-Inserted i y ∙ sym (count-Inserted j y),
)

-- Owners stay apart when one of them goes.
pub apart-Inserted :
    {x : ℕ} {xs ys : List ℕ}
    → Inserted x xs ys
    → distinct ys ≡ length ys
    → (distinct xs ≡ length xs) × (count x xs ≡ 0)
apart-Inserted {x} {xs} i a =
    ground (arith, a, distinct-Inserted i, length-Inserted i, distinct-length xs)

pub remove_one-same : (x : ℕ) (xs : List ℕ) → remove_one x (x ∷ xs) ≡ xs
unfolding remove_one
remove_one-same x xs = rw (==_refl x)
