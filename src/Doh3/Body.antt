-- ===== src/Doh3/Body.antt =====
-- The bodies of a POST over HTTP/3, beside those over TCP.
use mathlib.Core.List.{append_assoc, append-nil}
use dns_ingress.Prelude.{
  ℕ, ◌+◌, ◌≤◌, ◌<◌, ◌≡◌, sym, ap, ◌∙◌, false, ltb, List, [], ◌∷◌, ◌++◌, length, length-append,
  arith, ok, err, map_err, ok->>=, err->>=,
}
use dns_ingress.Prelude.Text.{Text, codes}
use dns_ingress.Error.{invalid_input}
use dns_ingress.Message.{
  Poll, frame, trailers, failed, late, validate_dns_message, max_dns_message_size,
}
use dns_ingress.Message.Body.{Delivered, payload}
use dns_ingress.Doh3.{read_chunks, post_body}
use dns_ingress.Doh3.Refusal.{out_of_bounds}

read_chunks-Delivered :
    (body : List Poll) (collected : List ℕ)
    → Delivered body
    → length collected + length (payload body) ≤ max_dns_message_size
    → read_chunks body collected ≡ ok (collected ++ payload body)
unfolding read_chunks
read_chunks-Delivered [] collected d b = ap ok (sym (append-nil collected))
read_chunks-Delivered (late ∷ body) collected d b = absurd d
read_chunks-Delivered (failed reason ∷ body) collected d b = absurd d
read_chunks-Delivered (trailers ∷ body) collected d b = read_chunks-Delivered body collected d b
read_chunks-Delivered (frame bytes ∷ body) collected d b =
    let size = length-append bytes (payload body) in
    let rest =
      read_chunks-Delivered body (collected ++ bytes) d
        (omega (arith, size, length-append collected bytes, b)) in
    let f : ltb max_dns_message_size (length collected + length bytes) ≡ false =
      ground (arith, size, b) in
    rw f (rest ∙ ap ok (append_assoc collected bytes (payload body)))

short :
    (body : List ℕ) (context : Text)
    → length body < 12
    → validate_dns_message body context
      ≡ err (context ++ codes " must contain one DNS message between 12 and 65535 bytes")
unfolding validate_dns_message
short body context h = ground arith

-- A POST body that arrives in time with fewer than 12 bytes is refused by its bounds.
pub post_body-short :
    (polls : List Poll)
    → Delivered polls
    → length (payload polls) < 12
    → post_body polls ≡ err out_of_bounds
unfolding post_body out_of_bounds
post_body-short polls d h =
    ok->>= (read_chunks polls []) _ (read_chunks-Delivered polls [] d (omega (arith, h))) (
      err->>=
        (map_err invalid_input (validate_dns_message (payload polls) (codes "DoH3 POST body"))) _
        (ap (map_err invalid_input) (short (payload polls) (codes "DoH3 POST body") h)))
