-- ===== src/Doh/Admission.antt =====
-- Which requests pass the checks that come before the rewrite is counted.
use dns_ingress.Prelude.{
  ◌≡◌, refl, sym, ap, ◌∙◌, ◌↔◌, true, Bool, Option, none, some, arith, ok, >>=-eq-ok, map_err-ok,
  ok_or, ok->>=,
}
use dns_ingress.Prelude.Text.{Text, codes, text_eq, text_eq_iff, text_eq_refl}
use dns_ingress.Hostname.{normalize_hostname}
use dns_ingress.Rewriter.{RewriteResult, rewrite}
use dns_ingress.Message.{Method, get, post, other, is_dns_message_content_type}
use dns_ingress.Message.Query.{IsDnsQuery, validate_doh_get_query_iff}
use dns_ingress.Forward.{header_text}
use dns_ingress.Doh.{
  Request, Context, DohHttpError, host_of, guard, check_method, admit, from_anyhow,
}

pub ok_or-ok : {E A : Type 0} (o : Option A) (e : E) {a : A} → (ok_or o e ≡ ok a) ↔ (o ≡ some a)
ok_or-ok none e = (λ h. cc, λ h. cc)
ok_or-ok (some b) e = (λ h. cc, λ h. cc)

pub guard-ok : (test : Bool) (e : DohHttpError) → (guard test e ≡ ok tt) ↔ (test ≡ true)
guard-ok test e = ground arith

module _ {Client : Type 0} (c : Context Client) where
  -- A method that is served, with what must come with it.
  pub data Carries (req : Request) : Type 0 where
    by_query : req.method ≡ get → IsDnsQuery c.decode req.uri → Carries req
    by_body :
        req.method ≡ post
        → is_dns_message_content_type
            (header_text c.hyper.to_str (codes "content-type") req.headers)
          ≡ true
        → Carries req

  -- What an admitted request is: its path is the endpoint's, its host is the name of the handshake,
  -- it carries a query in one of the two ways, and the rewriter sends that name to `x`.
  pub record IsAdmitted (req : Request) (x : RewriteResult) : Type 0 where
    pub authority : Text
    pub path : req.uri.path ≡ c.request_path
    pub named : host_of c.hyper.to_str req.headers req.uri ≡ some authority
    pub same_name : normalize_hostname c.parse_host authority ≡ some c.tls_sni
    pub carries : Carries req
    pub rewritten : rewrite c.rewriter c.tls_sni ≡ some x

  check_method-ok :
      (m : Method) (req : Request) → req.method ≡ m → check_method c m req ≡ ok tt → Carries req
  unfolding check_method
  check_method-ok (other name) req m h = absurd (ground (arith, h))
  check_method-ok get req m h =
      by_query m ((validate_doh_get_query_iff c.decode req.uri (codes "DoH")).0 (map_err-ok _ _ h))
  check_method-ok post req m h = by_body m ((guard-ok _ DohHttpError.unsupported_media_type).0 h)

  Carries-check_method : (req : Request) → Carries req → check_method c req.method req ≡ ok tt
  unfolding check_method
  Carries-check_method req (by_query m q) =
      ap (λ method. check_method c method req) m
      ∙ ap from_anyhow ((validate_doh_get_query_iff c.decode req.uri (codes "DoH")).1 q)
  Carries-check_method req (by_body m t) =
      ap (λ method. check_method c method req) m
      ∙ (guard-ok _ DohHttpError.unsupported_media_type).1 t

  admit-ok : (req : Request) {x : RewriteResult} → admit c req ≡ ok x → IsAdmitted req x
  unfolding admit
  admit-ok req {x} h =
      let (_, path, h₁) =
        >>=-eq-ok (guard (text_eq req.uri.path c.request_path) DohHttpError.not_found) _ h in
      let (authority, named, h₂) =
        >>=-eq-ok (ok_or (host_of c.hyper.to_str req.headers req.uri) DohHttpError.bad_request) _
          h₁ in
      let (host, normal, h₃) =
        >>=-eq-ok (ok_or (normalize_hostname c.parse_host authority) DohHttpError.bad_request) _
          h₂ in
      let (_, name, h₄) =
        >>=-eq-ok (guard (text_eq host c.tls_sni) DohHttpError.bad_request) _ h₃ in
      let (_, method, h₅) = >>=-eq-ok (check_method c req.method req) _ h₄ in
      let same : host ≡ c.tls_sni =
        (text_eq_iff host c.tls_sni).0 ((guard-ok _ DohHttpError.bad_request).0 name) in
      record {
        authority = authority;
        path =
            (text_eq_iff req.uri.path c.request_path).0
              ((guard-ok _ DohHttpError.not_found).0 path);
        named = (ok_or-ok _ DohHttpError.bad_request).0 named;
        same_name = (ok_or-ok _ DohHttpError.bad_request).0 normal ∙ ap some same;
        carries = check_method-ok req.method req refl method;
        rewritten = ap (rewrite c.rewriter) (sym same) ∙ (ok_or-ok _ DohHttpError.bad_request).0 h₅;
      }

  IsAdmitted-admit : (req : Request) {x : RewriteResult} → IsAdmitted req x → admit c req ≡ ok x
  unfolding admit
  IsAdmitted-admit req w =
      let path =
        (guard-ok _ DohHttpError.not_found).1
          ((text_eq_iff req.uri.path c.request_path).1 w.path) in
      let name = (guard-ok _ DohHttpError.bad_request).1 (text_eq_refl c.tls_sni) in
      ok->>= (guard (text_eq req.uri.path c.request_path) DohHttpError.not_found) _ path (
        ok->>= (ok_or (host_of c.hyper.to_str req.headers req.uri) DohHttpError.bad_request) _
          ((ok_or-ok _ DohHttpError.bad_request).1 w.named)
          (ok->>= (ok_or (normalize_hostname c.parse_host w.authority) DohHttpError.bad_request) _
            ((ok_or-ok _ DohHttpError.bad_request).1 w.same_name)
            (ok->>= (guard (text_eq c.tls_sni c.tls_sni) DohHttpError.bad_request) _ name (
              ok->>= (check_method c req.method req) _ (Carries-check_method req w.carries)
                ((ok_or-ok _ DohHttpError.bad_request).1 w.rewritten)))))

  -- A request passes the checks, with `x` as its rewrite, exactly when its path is the endpoint's,
  -- the canonical form of its host is the name of the TLS handshake, it is a GET with a valid `dns`
  -- parameter or a POST of the DNS media type, and the rewriter answers `x` for that name.
  pub admit_iff : (req : Request) (x : RewriteResult) → (admit c req ≡ ok x) ↔ IsAdmitted req x
  admit_iff req x = (admit-ok req, IsAdmitted-admit req)
