-- ===== src/Pool.antt =====
-- src/upstream/pool.rs: the pool of HTTPS clients, one for an upstream name. The concurrent map is
-- an association list in its iteration order. Each access of a call to the map is a step of its own:
-- what the other calls make of the map between two steps is an argument of the call, as is the
-- client that the third-party builder would make.
pub mod Bound
mod Tests
use dns_ingress.Prelude.{ℕ, Bool, leb, Option, none, some, List, [], ◌∷◌, length, if◌then◌else◌}
use dns_ingress.Prelude.Text.{Text}
use dns_ingress.Prelude.Assoc.{lookup, insert, remove, text_key}

abbrev pub default_max_clients : ℕ
default_max_clients = 256

-- The durations are in seconds.
pub record ConnectionPool (Client : Type 0) : Type 0 where
  pub clients : List (Text × Client)
  pub keepalive_timeout : ℕ
  pub connection_timeout : ℕ
  pub max_idle_connections : ℕ
  pub max_clients : ℕ

-- A call that finds no client: the one that is built for it, and what the other calls make of the map
-- after its look, after it has counted the entries, after it has chosen the one to evict, before it
-- enters its own and after that.
pub record Attempt (Client : Type 0) : Type 0 where
  pub created : Client
  pub after_look : List (Text × Client) → List (Text × Client)
  pub after_count : List (Text × Client) → List (Text × Client)
  pub after_choice : List (Text × Client) → List (Text × Client)
  pub before_entry : List (Text × Client) → List (Text × Client)
  pub after_entry : List (Text × Client) → List (Text × Client)

module _ {Client : Type 0} where
  -- A call between whose steps no other call touches the map.
  abbrev pub alone : Client → Attempt Client
  alone client = record {
    created = client;
    after_look = λ clients. clients;
    after_count = λ clients. clients;
    after_choice = λ clients. clients;
    before_entry = λ clients. clients;
    after_entry = λ clients. clients;
  }

  abbrev pub with_config : ℕ → ℕ → ℕ → ConnectionPool Client
  with_config keepalive connection idle = record {
    clients = [];
    keepalive_timeout = keepalive;
    connection_timeout = connection;
    max_idle_connections = idle;
    max_clients = default_max_clients;
  }

  abbrev pub new : ConnectionPool Client
  new = with_config 60 10 10

  abbrev pub with_max_clients : ℕ → ConnectionPool Client
  with_max_clients max = record new { max_clients = max }

  -- The first key of the iteration is removed.
  unfoldable pub evict : Attempt Client → List (Text × Client) → List (Text × Client)
  evict attempt [] = []
  evict attempt ((key, client) ∷ more) = remove key (attempt.after_choice ((key, client) ∷ more))

  unfoldable pub make_room : Attempt Client → ℕ → List (Text × Client) → List (Text × Client)
  unfolding evict
  make_room attempt max clients =
      if leb max (length clients) then evict attempt (attempt.after_count clients) else clients

  -- `entry(sni).or_insert_with(client)`
  unfoldable pub or_insert : Text → Client → List (Text × Client) → List (Text × Client)
  or_insert sni client clients = elim (lookup sni clients) [
    | some held ↦ clients
    | none ↦ insert sni client clients
  ]

  unfoldable pub stored : Text → Client → List (Text × Client) → Client
  stored sni client clients = elim (lookup sni clients) [ some held ↦ held | none ↦ client ]

  unfoldable pub get_client :
      Attempt Client → ConnectionPool Client → Text → Client × ConnectionPool Client
  unfolding make_room or_insert stored
  get_client attempt pool sni = elim (lookup sni pool.clients) [
    | some client ↦ (client, pool)
    | none ↦
        let roomy = make_room attempt pool.max_clients (attempt.after_look pool.clients) in
        let entered = or_insert sni attempt.created (attempt.before_entry roomy) in
        let clients = attempt.after_entry entered in
        (stored sni attempt.created clients, record pool { clients = clients })
  ]
