-- ===== src/Config/Validate/Listeners.antt =====
-- The listeners that pass have sockets of their own.
use dns_ingress.Prelude.{
  ◌≡◌, refl, sym, ◌∙◌, ◌↔◌, ◌≢◌, inl, inr, true, false, Option, none, some, List, [], ◌∷◌, ◌++◌,
  arith, any, All, ok, ◌>>=◌, >>=-eq-ok, Option-cases, Bool-cases, Result-cases,
}
use dns_ingress.Prelude.Text.{Text, text_eq_iff}
use dns_ingress.Config.{ServersConfig}
use dns_ingress.Config.Validate.{
  SocketAddr, Socket, Candidate, same_socket, standard_servers, healthcheck_server, bind_addr,
  claim, claim_each, check_listeners,
}

same_socket_iff : (a b : Socket) → (same_socket a b ≡ true) ↔ (a ≡ b)
unfolding same_socket
same_socket_iff a b = ground (arith, text_eq_iff a.ip b.ip)

abbrev pub NotIn : Socket → List Socket → Type 0
NotIn s = All (λ t. s ≢ t)

-- No socket stands twice.
abbrev pub Distinct : List Socket → Type 0
Distinct [] = Unit
Distinct (s ∷ ss) = NotIn s ss × Distinct ss

any-NotIn : (s : Socket) (ss : List Socket) → (any (same_socket s) ss ≡ false) ↔ NotIn s ss
any-NotIn s [] = (λ h. tt, λ h. refl)
any-NotIn s (t ∷ ss) = ground (arith, same_socket_iff s t, any-NotIn s ss)

-- The sockets onto a set, the last one first.
abbrev pub onto : List Socket → List Socket → List Socket
onto [] ss = ss
onto (t ∷ ts) ss = onto ts (t ∷ ss)

Distinct-onto : (ts ss : List Socket) → Distinct (onto ts ss) → Distinct ss
Distinct-onto [] ss d = d
Distinct-onto (t ∷ ts) ss d = (Distinct-onto ts (t ∷ ss) d).1

module _ (parse_socket_addr : Text → Option SocketAddr) where
  -- The socket that an enabled listener asks for.
  abbrev pub socket_of : Candidate → Option Socket
  socket_of c = elim (parse_socket_addr (bind_addr c)) [
    | none ↦ none
    | some a ↦ some (record { transport = c.transport; ip = a.ip; port = a.port })
  ]

  -- The sockets that the enabled listeners ask for, if each of their addresses parses.
  pub data Sockets : List Candidate → List Socket → Type 0 where
    nil : Sockets [] []
    off :
        {c : Candidate} {cs : List Candidate} {ss : List Socket}
        → c.enabled ≡ false
        → Sockets cs ss
        → Sockets (c ∷ cs) ss
    on :
        {c : Candidate} {cs : List Candidate} {s : Socket} {ss : List Socket}
        → c.enabled ≡ true
        → socket_of c ≡ some s
        → Sockets cs ss
        → Sockets (c ∷ cs) (s ∷ ss)

  claim-off :
      (c : Candidate) (ports : List Socket)
      → c.enabled ≡ false
      → claim parse_socket_addr c ports ≡ ok ports
  unfolding claim
  claim-off c ports h = rw h

  claim-on :
      (c : Candidate) (s : Socket) (ports : List Socket)
      → c.enabled ≡ true
      → socket_of c ≡ some s
      → NotIn s ports
      → claim parse_socket_addr c ports ≡ ok (s ∷ ports)
  unfolding claim
  claim-on c s ports h e n = ground (arith, any-NotIn s ports)

  claim-ok :
      (c : Candidate) (ports : List Socket) {ps : List Socket}
      → c.enabled ≡ true
      → claim parse_socket_addr c ports ≡ ok ps
      → (s : Socket) × (socket_of c ≡ some s) × NotIn s ports × (ps ≡ s ∷ ports)
  unfolding claim
  claim-ok c ports {ps} enabled h = elim (Option-cases (parse_socket_addr (bind_addr c))) [
    | inl e ↦ absurd (ground (arith, e))
    | inr (a, e) ↦
        let s : Socket = record { transport = c.transport; ip = a.ip; port = a.port } in
        (s, rw (socket_of, e), (any-NotIn s ports).0 (ground (arith, e)), ground (arith, e))
  ]

  claim_each-Sockets :
      (cs : List Candidate) (ports ps : List Socket)
      → claim_each parse_socket_addr cs ports ≡ ok ps
      → Distinct ports
      → (ss : List Socket) × Sockets cs ss × (ps ≡ onto ss ports) × Distinct ps
  unfolding claim_each
  claim_each-Sockets [] ports ps h d = ([], nil, cc, ground arith)
  claim_each-Sockets (c ∷ cs) ports ps h d = elim (Bool-cases c.enabled) [
    | inl enabled ↦
        let (mid, first, rest) = >>=-eq-ok (claim parse_socket_addr c ports) _ h in
        let (s, e, n, m) = claim-ok c ports {ps = mid} enabled first in
        let (ss, v, p, q) = claim_each-Sockets cs (s ∷ ports) ps (rw m at rest) (n, d) in
        (s ∷ ss, on enabled e v, p, q)
    | inr disabled ↦
        let (ss, v, p, q) =
          claim_each-Sockets cs ports ps (rw (claim-off c ports disabled) at h) d in
        (ss, off disabled v, p, q)
  ]

  Sockets-claim_each :
      {cs : List Candidate} {ss : List Socket} (ports : List Socket)
      → Sockets cs ss
      → Distinct (onto ss ports)
      → claim_each parse_socket_addr cs ports ≡ ok (onto ss ports)
  unfolding claim_each
  Sockets-claim_each ports nil d = refl
  Sockets-claim_each ports (off {c} disabled v) d =
      rw (claim-off c ports disabled) (Sockets-claim_each ports v d)
  Sockets-claim_each ports (on {c} {s} {ss} enabled e v) d =
      rw (claim-on c s ports enabled e (Distinct-onto ss (s ∷ ports) d).0)
        (Sockets-claim_each (s ∷ ports) v d)

  claim_each-append :
      (xs ys : List Candidate) (ports : List Socket)
      → claim_each parse_socket_addr (xs ++ ys) ports
        ≡ (claim_each parse_socket_addr xs ports >>= claim_each parse_socket_addr ys)
  unfolding claim_each
  claim_each-append [] ys ports = refl
  claim_each-append (x ∷ xs) ys ports = elim (Result-cases (claim parse_socket_addr x ports)) [
    | inl (mid, e) ↦ rw e (claim_each-append xs ys mid)
    | inr (why, e) ↦ rw e
  ]

  -- All candidates, the health check last.
  abbrev pub candidates : ServersConfig → List Candidate
  candidates servers = standard_servers servers ++ (healthcheck_server servers.healthcheck ∷ [])

  check_listeners-claim_each :
      (servers : ServersConfig)
      → check_listeners parse_socket_addr servers ≡ ok tt
      → (ps : List Socket) × (claim_each parse_socket_addr (candidates servers) [] ≡ ok ps)
  unfolding check_listeners claim_each
  check_listeners-claim_each servers h =
      let health = healthcheck_server servers.healthcheck in
      let (ports, first, rest) =
        >>=-eq-ok (claim_each parse_socket_addr (standard_servers servers) []) _ h in
      let (ps, last, _) = >>=-eq-ok (claim parse_socket_addr health ports) _ rest in
      (
        ps,
        claim_each-append (standard_servers servers) (health ∷ []) []
            ∙ rw (first, claim_each, last) refl,
      )

  claim_each-check_listeners :
      (servers : ServersConfig) {ps : List Socket}
      → claim_each parse_socket_addr (candidates servers) [] ≡ ok ps
      → check_listeners parse_socket_addr servers ≡ ok tt
  unfolding check_listeners claim_each
  claim_each-check_listeners servers {ps} h =
      let health = healthcheck_server servers.healthcheck in
      let (ports, first, rest) =
        >>=-eq-ok (claim_each parse_socket_addr (standard_servers servers) []) _
          (sym (claim_each-append (standard_servers servers) (health ∷ []) []) ∙ h) in
      let (qs, last, _) = >>=-eq-ok (claim parse_socket_addr health ports) _ rest in
      rw (first, last)

  -- The check passes exactly when the enabled listeners' addresses parse to sockets that differ.
  pub check_listeners_iff :
      (servers : ServersConfig)
      → (check_listeners parse_socket_addr servers ≡ ok tt)
        ↔ ((ss : List Socket) × Sockets (candidates servers) ss × Distinct (onto ss []))
  check_listeners_iff servers = (
    λ h.
        (let (ps, e) = check_listeners-claim_each servers h in
          let (ss, v, p, d) = claim_each-Sockets (candidates servers) [] ps e tt in
          (ss, v, rw (← p) d)),
    λ t. (let (ss, v, d) = t in claim_each-check_listeners servers (Sockets-claim_each [] v d)),
  )
