-- ===== src/Forward/Authority.antt =====
-- What a request carries across to the upstream's authority.
use dns_ingress.Prelude.{
  ◌≡◌, refl, sym, ap, ◌∙◌, ◌⊎◌, inl, inr, true, some, [], ◌∷◌, All, Bool-cases, ok, >>=-eq-ok,
  map_err, map_err-ok, subst,
}
use dns_ingress.Prelude.Text.{Text, codes, text_eq}
use dns_ingress.Prelude.Assoc.{lookup, insert, text_key, beq_refl, lookup-insert, Listed}
use dns_ingress.Message.{Method}
use dns_ingress.Forward.{
  HeaderMap, UpstreamRequest, Hyper, is_allowed, allowed_headers, upstream_request,
}

All-insert :
    (P : Text × Text → Type 0) (k v : Text) (m : HeaderMap)
    → All P m
    → P (k, v)
    → All P (insert k v m)
unfolding insert
All-insert P k v [] h p = (p, tt)
All-insert P k v ((j, w) ∷ m) h p = elim (Bool-cases (text_eq j k)) [
  | inl t ↦ rw t (p, h.1)
  | inr f ↦ rw f (h.0, All-insert P k v m h.1 p)
]

allowed_headers-All :
    (P : Text × Text → Type 0) (given sent : HeaderMap)
    → ((e : Text × Text) → Listed e given → is_allowed e.0 ≡ true → P e)
    → All P sent
    → All P (allowed_headers given sent)
unfolding allowed_headers
allowed_headers-All P [] sent g h = h
allowed_headers-All P ((k, v) ∷ more) sent g h = elim (Bool-cases (is_allowed k)) [
  | inl t ↦
      rw (allowed_headers, t)
        (allowed_headers-All P more (insert k v sent) (λ e l. g e (inr l))
          (All-insert P k v sent h (g (k, v) (inl refl) t)))
  | inr f ↦ rw (allowed_headers, f) (allowed_headers-All P more sent (λ e l. g e (inr l)) h)
]

-- A header that may cross: the target's own name as the host, or an allowed header of the client.
abbrev pub Crosses : HeaderMap → Text → Text × Text → Type 0
Crosses given host entry =
    (entry ≡ (codes "host", host)) ⊎ ((is_allowed entry.0 ≡ true) × Listed entry given)

-- A request that is built for the upstream has the parsed target as its host, and no header but
-- that one and the client's `accept` and `content-type`.
pub upstream_request-Crosses :
    {Client : Type 0} (h : Hyper Client) (upstream_uri target : Text) (method : Method)
    (given : HeaderMap) (body : Text) {q : UpstreamRequest}
    → upstream_request h upstream_uri target method given body ≡ ok q
    → (host : Text) × (h.parse_value target ≡ ok host)
      × (lookup (codes "host") q.headers ≡ some host)
      × All (Crosses given host) q.headers
unfolding upstream_request
upstream_request-Crosses h upstream_uri target method given body {q} e =
    let (uri, _, e') = >>=-eq-ok (map_err _ (h.parse_uri upstream_uri)) _ e in
    let (host, parsed, e'') = >>=-eq-ok (map_err _ (h.parse_value target)) _ e' in
    let sent = allowed_headers given [] in
    let same : insert (codes "host") host sent ≡ q.headers = cc in
    let crosses : All (Crosses given host) sent =
      allowed_headers-All (Crosses given host) given [] (λ x l a. inr (a, l)) tt in
    (
      host,
      map_err-ok _ _ parsed,
      ap (lookup (codes "host")) (sym same)
          ∙ (lookup-insert (codes "host") (codes "host") host sent ∙ rw (beq_refl (codes "host"))),
      subst (All (Crosses given host)) same
          (All-insert (Crosses given host) (codes "host") host sent crosses (inl refl)),
    )
