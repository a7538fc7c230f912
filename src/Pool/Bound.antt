-- ===== src/Pool/Bound.antt =====
-- What a call to the pool leaves, when no other call touches the map between its steps.
use dns_ingress.Prelude.{◌≤◌, ◌≡◌, ◌∙◌, max, none, some, List, length, Option-cases, inl, inr}
use dns_ingress.Prelude.Text.{Text}
use dns_ingress.Prelude.Assoc.{lookup, insert, text_key, IsMap, lookup-insert, beq_refl}
use dns_ingress.Pool.{ConnectionPool, alone, make_room, or_insert, stored, get_client}

module _ {Client : Type 0} where
  lookup-or_insert :
      (sni : Text) (created : Client) (m : List (Text × Client))
      → lookup sni (or_insert sni created m) ≡ some (stored sni created (or_insert sni created m))
  unfolding or_insert stored
  lookup-or_insert sni created m = elim (Option-cases (lookup sni m)) [
    | inl e ↦
        let now : lookup sni (insert sni created m) ≡ some created =
          lookup-insert sni sni created m ∙ rw (beq_refl sni) in
        rw (or_insert, e, stored, now)
    | inr (c, e) ↦ rw (or_insert, e, stored, e)
  ]

  get_client-hit :
      (created : Client) (pool : ConnectionPool Client) (sni : Text) {c : Client}
      → lookup sni pool.clients ≡ some c
      → get_client (alone created) pool sni ≡ (c, pool)
  unfolding get_client
  get_client-hit created pool sni e = rw (get_client, e)

  abbrev after_miss : Client → ConnectionPool Client → Text → List (Text × Client)
  after_miss created pool sni =
      or_insert sni created (make_room (alone created) pool.max_clients pool.clients)

  get_client-miss :
      (created : Client) (pool : ConnectionPool Client) (sni : Text)
      → lookup sni pool.clients ≡ none
      → get_client (alone created) pool sni ≡ (
        stored sni created (after_miss created pool sni),
        record pool { clients = after_miss created pool sni },
      )
  unfolding get_client
  get_client-miss created pool sni e = rw (get_client, e)

  abbrev pub Valid : ConnectionPool Client → Type 0
  Valid pool = IsMap pool.clients × (length pool.clients ≤ max 1 pool.max_clients)

  -- Such a call right after another one for the same name answers the same client and changes nothing,
  -- whatever client the builder would make then.
  pub get_client-reused :
      (created later : Client) (pool : ConnectionPool Client) (sni : Text)
      → get_client (alone later) (get_client (alone created) pool sni).1 sni
        ≡ get_client (alone created) pool sni
  get_client-reused created later pool sni = elim (Option-cases (lookup sni pool.clients)) [
    | inr (c, e) ↦ rw (get_client-hit created pool sni e) (get_client-hit later pool sni e)
    | inl e ↦ rw (get_client-miss created pool sni e) (
        get_client-hit later (record pool { clients = after_miss created pool sni }) sni
          (lookup-or_insert sni created (make_room (alone created) pool.max_clients pool.clients)))
  ]
