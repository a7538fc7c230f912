-- ===== src/Http3/Exchange.antt =====
-- src/upstream/quic.rs: what an answer over HTTP/3 holds.
use mathlib.Core.List.{append_assoc, append-nil}
use dns_ingress.Prelude.{
  ℕ, ◌+◌, ◌≤◌, ◌≡◌, refl, sym, ap, ◌∙◌, subst, arith, true, ltb, Bool-cases, inl, inr, List, [],
  ◌∷◌, ◌++◌, is_empty, if◌then◌else◌, length, length-append, Option, Result, ok, >>=-eq-ok,
  map_err-ok, err-ne-ok,
}
use dns_ingress.Prelude.Text.{Text, codes}
use dns_ingress.Prelude.Timed.{Timed, done, broken, late, awaited, awaited-ok}
use dns_ingress.Error.{timeout, protocol}
use dns_ingress.Message.{Method, is_dns_message_content_type, max_dns_message_size}
use dns_ingress.Message.Query.{validate_dns_message_iff}
use dns_ingress.Forward.{HeaderMap, UpstreamRequest, Response, is_success, header_text}
use dns_ingress.Forward.Answer.{IsDnsResponse}
use dns_ingress.Http3.{
  Chunk, remaining, H3Client, H3Stream, read_data, check_response, exchange, on_session, h3_request,
  failed,
}

value_eq : {E A : Type 0} {a b : A} → ◌≡◌ {A = Result E A} (ok a) (ok b) → a ≡ b
value_eq h = cc

-- The pieces of a response that all arrived, and all their bytes.
abbrev pub Arrived : List (Timed Chunk) → List ℕ → Type 0
Arrived [] body = body ≡ []
Arrived (arrival ∷ more) body =
    (piece : Chunk) × (rest : List ℕ) × (arrival ≡ done piece)
    × (body ≡ (piece.chunk ++ piece.behind) ++ rest)
    × Arrived more rest

-- Every piece that arrives is one slice.
abbrev pub Contiguous : List (Timed Chunk) → Type 0
Contiguous [] = Unit
Contiguous (done piece ∷ more) = (piece.behind ≡ []) × Contiguous more
Contiguous (broken e ∷ more) = Contiguous more
Contiguous (late ∷ more) = Contiguous more

-- A body that is read from contiguous pieces is their bytes one after another, and within the limit.
pub read_data-ok :
    (uri : Text) (chunks : List (Timed Chunk)) (before : List ℕ) {body : List ℕ}
    → Contiguous chunks
    → read_data uri chunks before ≡ ok body
    → length before ≤ max_dns_message_size
    → (rest : List ℕ) × (body ≡ before ++ rest)
      × Arrived chunks rest
      × (length body ≤ max_dns_message_size)
unfolding read_data
read_data-ok uri [] before {body} slices h b =
    let same : before ≡ body = value_eq h in
    (
      [],
      sym same ∙ sym (append-nil before),
      refl,
      subst (λ t. length t ≤ max_dns_message_size) same b,
    )
read_data-ok uri (late ∷ more) before slices h b = absurd (err-ne-ok h)
read_data-ok uri (broken e ∷ more) before slices h b = absurd (err-ne-ok h)
read_data-ok uri (done piece ∷ more) before {body} (slice, slices) h b =
    elim (Bool-cases (ltb max_dns_message_size (length before + remaining piece))) [
      | inl t ↦ absurd (err-ne-ok (rw t at h))
      | inr f ↦
          let (rest, whole, arrived, bound) =
            read_data-ok uri more (before ++ piece.chunk) {body = body} slices (rw f at h)
              (ground (arith, f, length-append before piece.chunk)) in
          let all : piece.chunk ++ piece.behind ≡ piece.chunk =
            ap (λ l. piece.chunk ++ l) slice ∙ append-nil piece.chunk in
          (
            piece.chunk ++ rest,
            whole ∙ append_assoc before piece.chunk rest,
            (piece, rest, refl, sym (ap (λ l. l ++ rest) all), arrived),
            bound,
          )
    ]

-- What an answer is, with the stream that it was read from.
pub record IsAnswer (to_str : Text → Option Text) (stream : H3Stream) (a : Response × ℕ)
    : Type 0 where
  pub counted : a.1 ≡ length a.0.body
  pub bounded : length a.0.body ≤ max_dns_message_size
  pub headed : stream.head ≡ done (a.0.status, a.0.headers)
  pub whole : Arrived stream.chunks a.0.body
  pub dns : is_success a.0.status ≡ true → IsDnsResponse to_str a.0

module _ {S : Type 0} (c : H3Client S) where
  check_response-ok :
      (uri : Text) (r : Response)
      → check_response c uri r.status r.headers r.body ≡ ok tt
      → is_success r.status ≡ true
      → IsDnsResponse c.to_str r
  unfolding check_response
  check_response-ok uri r e s =
      elim (Bool-cases
        (is_dns_message_content_type (header_text c.to_str (codes "content-type") r.headers))) [
          | inr f ↦ absurd (err-ne-ok (rw (check_response, s, f) at e))
          | inl t ↦
              let checked = map_err-ok _ _ (rw (check_response, s, t) at e) in
              let (header, bound) =
                (validate_dns_message_iff r.body (codes "HTTP/3 upstream DNS response")).0
                  checked in
              (t, header, bound)
        ]

  exchange-ok :
      (uri : Text) (body : List ℕ) (stream : H3Stream) {a : Response × ℕ}
      → Contiguous stream.chunks
      → exchange c uri body stream ≡ ok a
      → IsAnswer c.to_str stream a
  unfolding exchange
  exchange-ok uri body stream {a} slices h =
      let (_, _, h1) = >>=-eq-ok (awaited (timeout uri) (failed uri) stream.opened) _ h in
      let (_, _, h2) =
        >>=-eq-ok (if is_empty body then ok tt else awaited (timeout uri) protocol stream.sent) _
          h1 in
      let (_, _, h3) = >>=-eq-ok (awaited (timeout uri) protocol stream.finished) _ h2 in
      let (head, e4, h4) = >>=-eq-ok (awaited (timeout uri) protocol stream.head) _ h3 in
      let (bytes, e5, h5) = >>=-eq-ok (read_data uri stream.chunks []) _ h4 in
      let (_, checked, h6) = >>=-eq-ok (check_response c uri head.0 head.1 bytes) _ h5 in
      let r : Response = record { status = head.0; headers = head.1; body = bytes } in
      let (rest, same, arrived, bound) =
        read_data-ok uri stream.chunks [] {body = bytes} slices e5 (omega arith) in
      subst (IsAnswer c.to_str stream) {x = (r, length bytes)} {y = a} (value_eq h6) (record {
        counted = refl;
        bounded = bound;
        headed = awaited-ok _ _ stream.head e4;
        whole = subst (Arrived stream.chunks) (sym same) arrived;
        dns = λ s. check_response-ok uri r checked s;
      })

  -- A request that a session answers is built from the checked parts, and its answer has the status
  -- and the headers that were received, and as its body, within 65535 bytes, all bytes of all pieces
  -- of data, provided that the client yields each piece as one slice. With a success status it is one
  -- DNS message with its media type.
  pub on_session-ok :
      (session : S) (uri target : Text) (method : Method) (headers : HeaderMap) (body : List ℕ)
      {a : Response × ℕ}
      → ((request : UpstreamRequest) → Contiguous (c.send_request session request).chunks)
      → on_session c session uri target method headers body ≡ ok a
      → (request : UpstreamRequest) × (h3_request c uri target method headers body ≡ ok request)
        × IsAnswer c.to_str (c.send_request session request) a
  unfolding on_session
  on_session-ok session uri target method headers body {a} slices h =
      let (request, built, h') = >>=-eq-ok (h3_request c uri target method headers body) _ h in
      (
        request,
        built,
        exchange-ok uri body (c.send_request session request) {a = a} (slices request) h',
      )
