-- ===== src/Doq/Frames.antt =====
-- A frame on the wire, and what reading and writing one does to a stream.
use mathlib.Core.List.{append_assoc, append-nil}
use dns_ingress.Prelude.{
  ℕ, zero, suc, ◌+◌, ◌*◌, ◌/◌, ◌%◌, ◌≤◌, ◌<◌, ◌≡◌, refl, sym, ap, ◌∙◌, ◌≢◌, ltb, ◌==◌, Option, none,
  some, List, [], ◌∷◌, ◌++◌, length, take, All, arith, Bool-cases, inl, inr, Result, ok, err,
  err-ne-ok, Result-cases, subst,
}
use dns_ingress.Prelude.Text.{Text, codes, text_eq, text_eq_iff}
use dns_ingress.Error.{DnsProxyError}
use dns_ingress.Message.{max_dns_message_size}
use dns_ingress.Doq.{
  Read, exact, early, broken, late, Write, written, refused, RecvStream, SendStream, from_be_bytes,
  to_be_bytes, message_read, read_message, length_read, read_doq_frame, check_query, only_query,
  read_doq_query, wrote, write_doq_frame,
}

abbrev pub frame : List ℕ → List ℕ
frame message = to_be_bytes (length message) ++ message

pub length-frame : (m : List ℕ) → length (frame m) ≡ length m + 2
length-frame m = omega arith

be_bytes :
    (b : List ℕ)
    → length b ≡ 2
    → All (λ x. x < 256) b
    → (to_be_bytes (from_be_bytes b) ≡ b) × (from_be_bytes b ≤ max_dns_message_size)
be_bytes [] e h = absurd (omega (arith, e))
be_bytes (hi ∷ []) e h = absurd (omega (arith, e))
be_bytes (hi ∷ lo ∷ x ∷ b) e h = absurd (omega (arith, e))
be_bytes (hi ∷ lo ∷ []) e h =
    let top : (hi * 256 + lo) / 256 ≡ hi = omega (arith, h.0, h.1.0) in
    let low : (hi * 256 + lo) % 256 ≡ lo = omega (arith, h.0, h.1.0) in
    (rw (top, low) refl, omega (arith, h.0, h.1.0))

-- A frame at the front of `whole`, with what is left behind it.
abbrev pub Taken : List ℕ → List ℕ → List ℕ → Type 0
Taken whole m rest = (whole ≡ frame m ++ rest) × (0 < length m) × (length m ≤ max_dns_message_size)

module _ (r : RecvStream) where
  message_read-some :
      (p : Read × r.State) {m : List ℕ}
      → (message_read r p).0 ≡ ok (some m)
      → (p.0 ≡ exact m) × ((message_read r p).1 ≡ p.1)
  unfolding message_read
  message_read-some (exact b, s) h = (cc, refl)
  message_read-some (early n, s) h = absurd (err-ne-ok h)
  message_read-some (broken e, s) h = absurd (err-ne-ok h)
  message_read-some (late, s) h = absurd (err-ne-ok h)

  message_read-none : (p : Read × r.State) → (message_read r p).0 ≢ ok none
  unfolding message_read
  message_read-none (exact b, s) h = cc
  message_read-none (early n, s) h = absurd (err-ne-ok h)
  message_read-none (broken e, s) h = absurd (err-ne-ok h)
  message_read-none (late, s) h = absurd (err-ne-ok h)

  read_message-some :
      (n : ℕ) (s : r.State) {m : List ℕ}
      → (read_message r n s).0 ≡ ok (some m)
      → (0 < n) × (length m ≡ n) × (r.pending s ≡ m ++ r.pending (read_message r n s).1)
  unfolding read_message
  read_message-some n s {m} h = elim (Bool-cases (n == 0)) [
    | inl t ↦ absurd (err-ne-ok (rw (read_message, t) at h))
    | inr f ↦
        let (e, same) = message_read-some (r.read_exact n s) {m = m} (rw (read_message, f) at h) in
        let (whole, size, _) = r.exact_law n s m e in
        (
          ground (arith, f),
          size,
          rw (read_message, f) (whole ∙ ap (λ u. m ++ r.pending u) (sym same)),
        )
  ]

  read_message-none : (n : ℕ) (s : r.State) → (read_message r n s).0 ≢ ok none
  unfolding read_message
  read_message-none n s h = elim (Bool-cases (n == 0)) [
    | inl t ↦ absurd (err-ne-ok (rw (read_message, t) at h))
    | inr f ↦ message_read-none (r.read_exact n s) (rw (read_message, f) at h)
  ]

  length_read-some :
      (whole : List ℕ) (p : Read × r.State) {m : List ℕ}
      → ((b : List ℕ)
          → p.0 ≡ exact b
          → (whole ≡ b ++ r.pending p.1) × (length b ≡ 2) × All (λ x. x < 256) b)
      → (length_read r p).0 ≡ ok (some m)
      → Taken whole m (r.pending (length_read r p).1)
  unfolding length_read
  length_read-some whole (late, s) law h = absurd (err-ne-ok h)
  length_read-some whole (early zero, s) law h = cc
  length_read-some whole (early (suc n), s) law h = absurd (err-ne-ok h)
  length_read-some whole (broken e, s) law h = absurd (err-ne-ok h)
  length_read-some whole (exact b, s) {m} law h =
      let (front, size, bytes) = law b refl in
      let (positive, counted, rest) = read_message-some (from_be_bytes b) s {m = m} h in
      let (back, bound) = be_bytes b size bytes in
      let behind = r.pending (read_message r (from_be_bytes b) s).1 in
      let header : to_be_bytes (length m) ≡ b = ap to_be_bytes counted ∙ back in
      (
        front
            ∙ (ap (λ u. b ++ u) rest
                ∙ (sym (append_assoc b m behind) ∙ ap (λ u. (u ++ m) ++ behind) (sym header))),
        omega (arith, positive, counted),
        omega (arith, bound, counted),
      )

  length_read-none :
      (p : Read × r.State)
      → (length_read r p).0 ≡ ok none
      → (p.0 ≡ early 0) × ((length_read r p).1 ≡ p.1)
  unfolding length_read
  length_read-none (exact b, s) h = absurd (read_message-none (from_be_bytes b) s h)
  length_read-none (late, s) h = absurd (err-ne-ok h)
  length_read-none (early zero, s) h = (refl, refl)
  length_read-none (early (suc n), s) h = absurd (err-ne-ok h)
  length_read-none (broken e, s) h = absurd (err-ne-ok h)

  -- A frame that is read stood at the front of the stream, with its length before it; it has 1 to
  -- 65535 bytes, and what is left behind it is what the stream yields next.
  pub read_doq_frame-Taken :
      (s : r.State) {m : List ℕ}
      → (read_doq_frame r s).0 ≡ ok (some m)
      → Taken (r.pending s) m (r.pending (read_doq_frame r s).1)
  unfolding read_doq_frame
  read_doq_frame-Taken s {m} h =
      length_read-some (r.pending s) (r.read_exact 2 s) {m = m} (r.exact_law 2 s) h

  pub read_doq_frame-none : (s : r.State) → (read_doq_frame r s).0 ≡ ok none → r.pending s ≡ []
  unfolding read_doq_frame
  read_doq_frame-none s h =
      empty (r.pending s) (r.early_law 2 0 s (length_read-none (r.read_exact 2 s) h).0)
    where
      empty : (xs : List ℕ) → length xs ≡ 0 → xs ≡ []
      empty [] e = refl
      empty (x ∷ xs) e = absurd (omega (arith, e))

  check_query-ok :
      (q : List ℕ) → check_query r q ≡ ok tt → (12 ≤ length q) × (take 2 q ≡ 0 ∷ 0 ∷ [])
  unfolding check_query
  check_query-ok q h = elim (Bool-cases (ltb (length q) 12)) [
    | inl t ↦ absurd (err-ne-ok (rw (check_query, t) at h))
    | inr f ↦ elim (Bool-cases (text_eq (take 2 q) (0 ∷ 0 ∷ []))) [
      | inl t ↦ (ground (arith, f), (text_eq_iff (take 2 q) (0 ∷ 0 ∷ [])).0 t)
      | inr g ↦ absurd (err-ne-ok (rw (check_query, f, g) at h))
    ]
  ]

  only_query-ok :
      (q : List ℕ) (o : Result DnsProxyError (Option (List ℕ))) {m : List ℕ}
      → only_query r q o ≡ ok m
      → (o ≡ ok none) × (q ≡ m)
  unfolding only_query
  only_query-ok q (err e) h = absurd (err-ne-ok h)
  only_query-ok q (ok none) h = (refl, cc)
  only_query-ok q (ok (some another)) h = absurd (err-ne-ok h)

  -- A query that is accepted is all that the client's stream held: one frame of 12 to 65535 bytes
  -- whose DNS message identifier is zero, then the end of the stream.
  pub read_doq_query-ok :
      (s : r.State) {q : List ℕ}
      → (read_doq_query r s).0 ≡ ok q
      → (r.pending s ≡ frame q)
        × (12 ≤ length q)
        × (length q ≤ max_dns_message_size)
        × (take 2 q ≡ 0 ∷ 0 ∷ [])
  unfolding read_doq_query
  read_doq_query-ok s {q} h = elim (Result-cases (read_doq_frame r s).0) [
    | inr (e, first) ↦ absurd (err-ne-ok (rw (read_doq_query, first) at h))
    | inl (o, first) ↦ query o first h
  ]
    where
      query :
          (o : Option (List ℕ))
          → (read_doq_frame r s).0 ≡ ok o
          → (read_doq_query r s).0 ≡ ok q
          → (r.pending s ≡ frame q)
            × (12 ≤ length q)
            × (length q ≤ max_dns_message_size)
            × (take 2 q ≡ 0 ∷ 0 ∷ [])
      query none first h = absurd (err-ne-ok (rw (read_doq_query, first) at h))
      query (some m) first h = elim (Result-cases (check_query r m)) [
        | inr (e, bad) ↦ absurd (err-ne-ok (rw (read_doq_query, first, bad) at h))
        | inl (u, good) ↦
            let (alone, same) =
              only_query-ok m (read_doq_frame r (read_doq_frame r s).1).0
                (rw (read_doq_query, first, good) at h) in
            let (front, _, bound) = read_doq_frame-Taken s {m = m} first in
            let behind = read_doq_frame-none (read_doq_frame r s).1 alone in
            let (header, zero_id) = check_query-ok m good in
            subst
              (λ t.
                (r.pending s ≡ frame t)
                × (12 ≤ length t)
                × (length t ≤ max_dns_message_size)
                × (take 2 t ≡ 0 ∷ 0 ∷ []))
              same
              (
                front ∙ (ap (λ u. frame m ++ u) behind ∙ append-nil (frame m)),
                header,
                bound,
                zero_id,
              )
      ]

-- Writing a frame.
module _ (w : SendStream) where
  wrote-ok : (operation part : Text) (x : Write) → wrote w operation part x ≡ ok tt → x ≡ written
  unfolding wrote
  wrote-ok operation part written h = refl
  wrote-ok operation part late h = absurd (err-ne-ok h)
  wrote-ok operation part (refused e) h = absurd (err-ne-ok h)

  -- A message that is written without error is within the limit, and the stream was given its frame.
  pub write_doq_frame-ok :
      (m : List ℕ) (t : w.State)
      → (write_doq_frame w m t).0 ≡ ok tt
      → (w.sent (write_doq_frame w m t).1 ≡ w.sent t ++ frame m) × (length m ≤ max_dns_message_size)
  unfolding write_doq_frame
  write_doq_frame-ok m t h = elim (Bool-cases (ltb max_dns_message_size (length m))) [
    | inl b ↦ absurd (err-ne-ok (rw (write_doq_frame, b) at h))
    | inr f ↦ elim (Result-cases (wrote w operation (codes "length") header)) [
      | inr (e, bad) ↦ absurd (err-ne-ok (rw (write_doq_frame, f, bad) at h))
      | inl (u, good) ↦
          let first = w.written_law (to_be_bytes (length m)) t (wrote-ok operation _ header good) in
          let body =
            wrote-ok (codes "writing DoQ message") (codes "body") _
              (rw (write_doq_frame, f, good) at h) in
          let second = w.written_law m (w.write_all (to_be_bytes (length m)) t).1 body in
          (
            rw (write_doq_frame, f, good)
                (second
                  ∙ (ap (λ u. u ++ m) first ∙ append_assoc (w.sent t) (to_be_bytes (length m)) m)),
            ground (arith, f),
          )
    ]
  ]
    where
      operation : Text
      operation = codes "writing DoQ frame length"

      header : Write
      header = (w.write_all (to_be_bytes (length m)) t).0
