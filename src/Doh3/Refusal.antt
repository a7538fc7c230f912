-- ===== src/Doh3/Refusal.antt =====
-- The status of each refusal.
use dns_ingress.Prelude.{
  ℕ, ◌≡◌, refl, ap, ◌∙◌, ◌≢◌, inl, inr, true, false, Bool, some, ◌++◌, Bool-cases, Result, ok, err,
  ok_or, ok->>=, err->>=,
}
use dns_ingress.Prelude.Text.{
  Text, codes, text_eq, text_eq_iff, text_eq_refl, to_ascii_lowercase, contains, contains-append,
  starts_with,
}
use dns_ingress.Error.{DnsProxyError, invalid_input}
use dns_ingress.Hostname.{normalize_hostname}
use dns_ingress.Message.{post, other, is_dns_message_content_type}
use dns_ingress.Forward.{header_text}
use dns_ingress.Doh.{Request, Context, host_of}
use dns_ingress.Doh.Admission.{ok_or-ok}
use dns_ingress.Doh3.{
  no_host, require, wrong_path, wrong_method, wrong_type, check_method, admit, status_of,
}

-- The status of each message that does not depend on the request.
status-wrong_method : status_of wrong_method ≡ 405
unfolding status_of contains starts_with
status-wrong_method = refl

status-wrong_type : status_of wrong_type ≡ 415
unfolding status_of contains starts_with
status-wrong_type = refl

status-wrong_path : (path : Text) → status_of (wrong_path path) ≡ 404
unfolding status_of
status-wrong_path path =
    rw
      (
        status_of,
        contains-append (codes "Invalid input: DoH3 ") (codes "request path")
            (codes " must be " ++ path),
      )
      refl

unfoldable pub out_of_bounds : DnsProxyError
out_of_bounds =
    invalid_input (codes "DoH3 POST body must contain one DNS message between 12 and 65535 bytes")

pub status-out_of_bounds : status_of out_of_bounds ≡ 413
unfolding status_of contains starts_with out_of_bounds
status-out_of_bounds = refl

-- The request is refused, and answered with that status.
abbrev pub Answered : {A : Type 0} → Result DnsProxyError A → ℕ → Type 0
Answered m status = (e : DnsProxyError) × (m ≡ err e) × (status_of e ≡ status)

require-ok : (test : Bool) (e : DnsProxyError) → test ≡ true → require test e ≡ ok tt
require-ok test e h = rw h refl

require-err : (test : Bool) (e : DnsProxyError) → test ≡ false → require test e ≡ err e
require-err test e h = rw h refl

text_eq-false : (s t : Text) → s ≢ t → text_eq s t ≡ false
text_eq-false s t n = elim (Bool-cases (text_eq s t)) [
  | inl e ↦ absurd (n ((text_eq_iff s t).0 e))
  | inr f ↦ f
]

abbrev bad_host : DnsProxyError
bad_host = invalid_input (codes "Invalid DoH3 Host header")

module _ {Client : Type 0} (c : Context Client) where
  -- The path is the endpoint's, and the canonical host is the name of the handshake.
  pub record IsAddressed (req : Request) : Type 0 where
    pub authority : Text
    pub path : req.uri.path ≡ c.request_path
    pub named : host_of c.hyper.to_str req.headers req.uri ≡ some authority
    pub same_name : normalize_hostname c.parse_host authority ≡ some (to_ascii_lowercase c.tls_sni)

  path-Answered :
      (method uri : Text) (req : Request)
      → req.uri.path ≢ c.request_path
      → Answered (admit c method uri req) 404
  unfolding admit
  path-Answered method uri req n = (
    wrong_path c.request_path,
    err->>= (require (text_eq req.uri.path c.request_path) (wrong_path c.request_path)) _
        (require-err _ (wrong_path c.request_path) (text_eq-false req.uri.path c.request_path n)),
    status-wrong_path c.request_path,
  )

  method-err :
      (method uri : Text) (req : Request) {e : DnsProxyError}
      → IsAddressed req
      → check_method c req.method req ≡ err e
      → admit c method uri req ≡ err e
  unfolding admit
  method-err method uri req w h =
      let path =
        require-ok _ (wrong_path c.request_path)
          ((text_eq_iff req.uri.path c.request_path).1 w.path) in
      let name =
        require-ok _ (invalid_input (codes "DoH3 Host does not match TLS SNI"))
          (text_eq_refl (to_ascii_lowercase c.tls_sni)) in
      ok->>= (require (text_eq req.uri.path c.request_path) _) _ path (
        ok->>= (ok_or (host_of c.hyper.to_str req.headers req.uri) (no_host method uri)) _
          ((ok_or-ok _ (no_host method uri)).1 w.named)
          (ok->>= (ok_or (normalize_hostname c.parse_host w.authority) bad_host) _
            ((ok_or-ok _ bad_host).1 w.same_name)
            (ok->>=
              (require (text_eq (to_ascii_lowercase c.tls_sni) (to_ascii_lowercase c.tls_sni)) _) _
              name (err->>= (check_method c req.method req) _ h))))

  -- A request that is refused for its path, its method or its media type, with the status for it.
  pub data Refused (req : Request) : ℕ → Type 0 where
    by_path : req.uri.path ≢ c.request_path → Refused req 404
    by_method : (name : Text) → IsAddressed req → req.method ≡ other name → Refused req 405
    by_type :
        IsAddressed req
        → req.method ≡ post
        → is_dns_message_content_type
            (header_text c.hyper.to_str (codes "content-type") req.headers)
          ≡ false
        → Refused req 415

  -- A request for another path is answered 404, whatever else it holds. One that is addressed to the
  -- endpoint under the name of its handshake is answered 405 for a method other than GET and POST,
  -- and 415 for a POST that is not of the DNS media type.
  pub admit-Answered :
      (method uri : Text) (req : Request) {status : ℕ}
      → Refused req status
      → Answered (admit c method uri req) status
  unfolding check_method
  admit-Answered method uri req (by_path n) = path-Answered method uri req n
  admit-Answered method uri req (by_method name w m) = (
    wrong_method,
    method-err method uri req w (ap (λ k. check_method c k req) m),
    status-wrong_method,
  )
  admit-Answered method uri req (by_type w m f) = (
    wrong_type,
    method-err method uri req w (ap (λ k. check_method c k req) m ∙ require-err _ wrong_type f),
    status-wrong_type,
  )
