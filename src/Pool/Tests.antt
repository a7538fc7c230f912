-- ===== src/Pool/Tests.antt =====
-- A full pool, and examples of the theorems on it.
use dns_ingress.Prelude.{ℕ, [], ◌∷◌}
use dns_ingress.Prelude.Text.{codes}
use dns_ingress.Prelude.Assoc.{text_key}
use dns_ingress.Pool.{ConnectionPool}

-- Clients are numbers here.
abbrev full : ConnectionPool ℕ
full = record {
  clients = (codes "a", 1) ∷ (codes "b", 2) ∷ [];
  keepalive_timeout = 60;
  connection_timeout = 10;
  max_idle_connections = 10;
  max_clients = 2;
}
