-- ===== src/Doq/RoundTrip.antt =====
-- src/upstream/quic.rs: a frame that is written is read back.
use dns_ingress.Prelude.{
  ℕ, ◌/◌, ◌%◌, ◌≡◌, refl, sym, ap, ap₂, ◌∙◌, arith, some, List, [], ◌∷◌, ◌++◌, length, ok,
}
use dns_ingress.Doq.{RecvStream, SendStream, read_doq_frame, write_doq_frame}
use dns_ingress.Doq.Frames.{frame, read_doq_frame-Taken, write_doq_frame-ok}

tail : {a b : ℕ} {s t : List ℕ} → a ∷ s ≡ b ∷ t → s ≡ t
tail h = cc

-- Two texts whose fronts have one length share the fronts and the rests.
append-split :
    (x m : List ℕ) {p q : List ℕ} → length x ≡ length m → x ++ p ≡ m ++ q → (x ≡ m) × (p ≡ q)
append-split [] [] l h = (refl, h)
append-split [] (b ∷ m) l h = absurd (omega (arith, l))
append-split (a ∷ x) [] l h = absurd (omega (arith, l))
append-split (a ∷ x) (b ∷ m) l h =
    let (same, rest) = append-split x m (omega (arith, l)) (tail h) in
    let head : a ≡ b = cc in (ap₂ (λ c t. c ∷ t) head same, rest)

-- A length of two bytes is its bytes.
be_bytes-length : (n k : ℕ) → n / 256 ≡ k / 256 → n % 256 ≡ k % 256 → n ≡ k
be_bytes-length n k h l = omega (arith, h, l)

frame-split : (x m : List ℕ) {p q : List ℕ} → frame x ++ p ≡ frame m ++ q → (x ≡ m) × (p ≡ q)
frame-split x m h =
    let hi : length x / 256 ≡ length m / 256 = cc in
    let lo : length x % 256 ≡ length m % 256 = cc in
    append-split x m (be_bytes-length (length x) (length m) hi lo) (tail (tail h))

module _ (r : RecvStream) (w : SendStream) where
  -- What a frame that was written to a fresh stream says is what is read from a stream that yields
  -- its bytes, and what follows it is left for the next read.
  pub read-write_doq_frame :
      (m x rest : List ℕ) (t : w.State) (s : r.State)
      → w.sent t ≡ []
      → (write_doq_frame w m t).0 ≡ ok tt
      → r.pending s ≡ w.sent (write_doq_frame w m t).1 ++ rest
      → (read_doq_frame r s).0 ≡ ok (some x)
      → (x ≡ m) × (r.pending (read_doq_frame r s).1 ≡ rest)
  read-write_doq_frame m x rest t s fresh written carried taken =
      let (front, _, _) = read_doq_frame-Taken r s {m = x} taken in
      let (sent, _) = write_doq_frame-ok w m t written in
      frame-split x m
        (sym front ∙ (carried ∙ ap (λ u. u ++ rest) (sent ∙ ap (λ u. u ++ frame m) fresh)))
