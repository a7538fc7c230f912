-- ===== src/Doh/Body.antt =====
-- The body of a POST that arrives in time, by its size.
use dns_ingress.Prelude.{
  ℕ, ◌≤◌, ◌<◌, ◌≡◌, refl, ap, List, length, arith, ok, err, map_err, ok->>=, err->>=,
}
use dns_ingress.Prelude.Text.{Text, codes}
use dns_ingress.Message.{
  Poll, post, validate_dns_message, max_dns_message_size, collect_body_with_progress,
}
use dns_ingress.Message.Query.{validate_dns_message_iff}
use dns_ingress.Message.Body.{Delivered, payload, collect_body_iff, collect_body-too_large}
use dns_ingress.Doh.{Request, Context, DohHttpError, read_body, post_body, body_error, from_anyhow}

abbrev operation : Text
operation = codes "DoH request body"

validate-short :
    (body : List ℕ) (context : Text)
    → length body < 12
    → from_anyhow (validate_dns_message body context) ≡ err DohHttpError.bad_request
unfolding validate_dns_message
validate-short body context h = ground arith

module _ {Client : Type 0} (c : Context Client) where
  body-collected :
      (polls : List Poll)
      → Delivered polls
      → length (payload polls) ≤ max_dns_message_size
      → map_err (body_error c) (collect_body_with_progress polls operation) ≡ ok (payload polls)
  body-collected polls d b =
      ap (map_err (body_error c))
        ((collect_body_iff polls operation (payload polls)).1 (d, refl, b))

  -- A POST body that arrives in time is refused as a bad request below 12 bytes and as too large
  -- above 65535, and is read whole in between.
  pub read_body-post :
      (req : Request)
      → req.method ≡ post
      → Delivered req.body
      → (length (payload req.body) < 12 → read_body c req ≡ err DohHttpError.bad_request)
        × (max_dns_message_size < length (payload req.body)
            → read_body c req ≡ err DohHttpError.payload_too_large)
        × (12 ≤ length (payload req.body)
            → length (payload req.body) ≤ max_dns_message_size
            → read_body c req ≡ ok (payload req.body))
  unfolding post_body body_error read_body
  read_body-post req m d = (
    λ h.
        rw (read_body, m)
          (ok->>= (map_err (body_error c) (collect_body_with_progress req.body operation)) _
            (body-collected req.body d (omega (arith, h)))
            (err->>= (from_anyhow (validate_dns_message (payload req.body) (codes "DoH POST body")))
              _ (validate-short (payload req.body) (codes "DoH POST body") h))),
    λ h.
        rw (read_body, m)
          (err->>= (map_err (body_error c) (collect_body_with_progress req.body operation)) _
            (ap (map_err (body_error c)) (collect_body-too_large req.body operation d h))),
    λ h b.
        rw (read_body, m)
          (ok->>= (map_err (body_error c) (collect_body_with_progress req.body operation)) _
            (body-collected req.body d b)
            (ok->>= (from_anyhow (validate_dns_message (payload req.body) (codes "DoH POST body")))
              _
              (ap from_anyhow
                ((validate_dns_message_iff (payload req.body) (codes "DoH POST body")).1 (h, b)))
              refl)),
  )
