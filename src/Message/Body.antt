-- ===== src/Message/Body.antt =====
-- What a collected body holds, and which bodies are refused.
use mathlib.Core.List.{append_assoc, append-nil}
use dns_ingress.Prelude.{
  ℕ, ◌+◌, ◌-◌, ◌≤◌, ◌<◌, ◌≡◌, sym, ap, ◌∙◌, ◌↔◌, false, ltb, List, [], ◌∷◌, ◌++◌, length,
  length-append, arith, ok, err, Bool-cases, inl, inr, subst,
}
use dns_ingress.Prelude.Text.{Text}
use dns_ingress.Message.{
  Poll, frame, trailers, failed, late, collect_frames, collect_body_with_progress, too_large,
  max_dns_message_size,
}

-- Every poll yields a frame in time.
abbrev pub Delivered : List Poll → Type 0
Delivered [] = Unit {0}
Delivered (frame bytes ∷ body) = Delivered body
Delivered (trailers ∷ body) = Delivered body
Delivered (failed reason ∷ body) = ⊥
Delivered (late ∷ body) = ⊥

-- The bytes of the data frames, in order.
abbrev pub payload : List Poll → List ℕ
payload [] = []
payload (frame bytes ∷ body) = bytes ++ payload body
payload (trailers ∷ body) = payload body
payload (failed reason ∷ body) = payload body
payload (late ∷ body) = payload body

collect-ok :
    (body : List Poll) (operation : Text) (collected : List ℕ) {all : List ℕ}
    → length collected ≤ max_dns_message_size
    → collect_frames body operation collected ≡ ok all
    → Delivered body × (all ≡ collected ++ payload body) × (length all ≤ max_dns_message_size)
unfolding collect_frames
collect-ok [] operation collected {all} b h =
    let same : collected ≡ all = cc in
    (tt, sym same ∙ sym (append-nil collected), subst (λ t. length t ≤ max_dns_message_size) same b)
collect-ok (late ∷ body) operation collected b h = absurd (ground arith)
collect-ok (failed reason ∷ body) operation collected b h = absurd (ground arith)
collect-ok (trailers ∷ body) operation collected b h = collect-ok body operation collected b h
collect-ok (frame bytes ∷ body) operation collected {all} b h =
    elim (Bool-cases (ltb (max_dns_message_size - length collected) (length bytes))) [
      | inl t ↦ absurd (ground (arith, t))
      | inr f ↦
          let fits : length (collected ++ bytes) ≤ max_dns_message_size =
            ground (arith, length-append collected bytes, f, b) in
          let (d, e, l) =
            collect-ok body operation (collected ++ bytes) {all = all} fits
              (rw (f, collect_frames) at h) in
          (d, e ∙ append_assoc collected bytes (payload body), l)
    ]

ok-collect :
    (body : List Poll) (operation : Text) (collected : List ℕ)
    → Delivered body
    → length collected + length (payload body) ≤ max_dns_message_size
    → collect_frames body operation collected ≡ ok (collected ++ payload body)
unfolding collect_frames
ok-collect [] operation collected d b = ap ok (sym (append-nil collected))
ok-collect (late ∷ body) operation collected d b = absurd d
ok-collect (failed reason ∷ body) operation collected d b = absurd d
ok-collect (trailers ∷ body) operation collected d b = ok-collect body operation collected d b
ok-collect (frame bytes ∷ body) operation collected d b =
    let size = length-append bytes (payload body) in
    let grown = length-append collected bytes in
    let rest = ok-collect body operation (collected ++ bytes) d (omega (arith, size, grown, b)) in
    let f : ltb (max_dns_message_size - length collected) (length bytes) ≡ false =
      ground (arith, size, b) in
    rw f (rest ∙ ap ok (append_assoc collected bytes (payload body)))

-- A body is collected exactly when every poll yields a frame in time and the data is at most 65535
-- bytes; what is collected is then the data of its frames, however it is cut into frames.
pub collect_body_iff :
    (body : List Poll) (operation : Text) (all : List ℕ)
    → (collect_body_with_progress body operation ≡ ok all)
      ↔ (Delivered body × (all ≡ payload body) × (length (payload body) ≤ max_dns_message_size))
unfolding collect_body_with_progress
collect_body_iff body operation all = (
  λ h.
      let (d, e, l) = collect-ok body operation [] {all = all} (omega arith) h in
      (d, e, subst (λ t. length t ≤ max_dns_message_size) e l),
  λ w. (ok-collect body operation [] w.0 (omega (arith, w.2)) ∙ ap ok (sym w.1)),
)

too_large-collect :
    (body : List Poll) (operation : Text) (collected : List ℕ)
    → Delivered body
    → length collected ≤ max_dns_message_size
    → max_dns_message_size < length collected + length (payload body)
    → collect_frames body operation collected ≡ err (too_large operation)
unfolding collect_frames
too_large-collect [] operation collected d b h = absurd (omega (arith, b, h))
too_large-collect (late ∷ body) operation collected d b h = absurd d
too_large-collect (failed reason ∷ body) operation collected d b h = absurd d
too_large-collect (trailers ∷ body) operation collected d b h =
    too_large-collect body operation collected d b h
too_large-collect (frame bytes ∷ body) operation collected d b h =
    elim (Bool-cases (ltb (max_dns_message_size - length collected) (length bytes))) [
      | inl t ↦ rw t
      | inr f ↦
          let fits : length (collected ++ bytes) ≤ max_dns_message_size =
            ground (arith, length-append collected bytes, f, b) in
          rw f (
            too_large-collect body operation (collected ++ bytes) d fits
              (omega (arith, length-append collected bytes, length-append bytes (payload body), h)))
    ]

-- A body that is delivered in time but holds more than 65535 bytes is refused as too large.
pub collect_body-too_large :
    (body : List Poll) (operation : Text)
    → Delivered body
    → max_dns_message_size < length (payload body)
    → collect_body_with_progress body operation ≡ err (too_large operation)
unfolding collect_body_with_progress
collect_body-too_large body operation d h =
    too_large-collect body operation [] d (omega arith) (omega (arith, h))
