-- ===== src/Dot.antt =====
-- src/readers/dot.rs: the relay of a DoT connection. What the calls on the two streams yield under
-- the idle timeout is a list of events for each direction; the ends of a connection and the parts of
-- rustls are parameters.
pub mod Relay
pub mod Connection
mod Tests
use dns_ingress.Prelude.{
  ℕ, ◌+◌, Option, none, some, List, [], ◌∷◌, ◌++◌, length, Result, ok, err, ◌>>=◌, ok_or, map_err,
  is_empty, if◌then◌else◌, true, false, Bool,
}
use dns_ingress.Prelude.Text.{Text, codes}
use dns_ingress.Prelude.Timed.{Timed, done, broken, late, awaited}
use dns_ingress.Error.{
  DnsProxyError, timeout, io, upstream, UpstreamError, connection_failed, invalid_input,
  SniRewriteError, no_matching_base_domain, sni_rewrite,
}
use dns_ingress.Rewriter.{BaseSniRewriter, RewriteResult, rewrite}
use dns_ingress.Metrics.{Counter, record_request}
use dns_ingress.QuicPool.{peer}

-- One turn of a direction: what `read` yields, no bytes at the end of the stream, and what the call
-- that answers it on the other stream yields, `write_all` or `shutdown`.
pub record Turn : Type 0 where
  pub read : Timed (List ℕ)
  pub answered : Timed (Unit {0})

-- The end of a direction: its count or its error, and the bytes that the writer was given.
abbrev pub Direction : Type 0
Direction = Result DnsProxyError ℕ × List ℕ

-- The loop on the turns that come; a direction whose turns run out is still at work: `none`.
unfoldable pub relay_direction : Text → List Turn → ℕ → List ℕ → Option Direction
relay_direction upstream_name [] total written = none
relay_direction upstream_name (turn ∷ turns) total written =
    elim (awaited (timeout upstream_name) io turn.read) [
      | err e ↦ some (err e, written)
      | ok [] ↦ elim (awaited (timeout upstream_name) io turn.answered) [
        | err e ↦ some (err e, written)
        | ok u ↦ some (ok total, written)
      ]
      | ok (b ∷ bytes) ↦ elim (awaited (timeout upstream_name) io turn.answered) [
        | err e ↦ some (err e, written)
        | ok u ↦
            relay_direction upstream_name turns (total + length (b ∷ bytes))
              (written ++ (b ∷ bytes))
      ]
    ]

-- `tokio::try_join!` of both directions: the first error ends it, `none` is that it still runs. When
-- both end with an error, `client_first` says which came first.
unfoldable pub try_join :
    Bool → Option Direction → Option Direction → Option (Result DnsProxyError (ℕ × ℕ))
try_join client_first (some (ok a, sent)) (some (ok b, received)) = some (ok (a, b))
try_join client_first (some (err e, sent)) (some (err x, received)) =
    some (if client_first then err e else err x)
try_join client_first (some (err e, sent)) other = some (err e)
try_join client_first other (some (err x, received)) = some (err x)
try_join client_first _ _ = none

-- What the libraries yield on the way to the upstream: the connection, the parser of a server name,
-- and the TLS handshake.
pub record Dialing : Type 0 where
  pub connect : Text → ℕ → Timed (Unit {0})
  pub server_name : Text → Result Text (Unit {0})
  pub handshake : Text → Timed (Unit {0})

-- The turns of both directions of a connection, with the time that it took: the reads of the client's
-- half are answered by the upstream's writer, and those of the upstream's half by the client's.
pub record Exchanged : Type 0 where
  pub from_client : List Turn
  pub from_upstream : List Turn
  pub client_first : Bool
  pub duration : ℕ

-- The outcome of a connection, what was recorded, and the bytes that the writer of each stream was
-- given by the direction on it, if that direction had ended.
pub record Ending : Type 0 where
  pub result : Result DnsProxyError (Unit {0})
  pub recorded : List (Counter × ℕ)
  pub upstream_writer : Option (List ℕ)
  pub client_writer : Option (List ℕ)

abbrev pub written : Option Direction → Option (List ℕ)
written none = none
written (some direction) = some direction.1

-- The match on the joined directions, the one that reads from the client first.
unfoldable pub concluded :
    ℕ → Option Direction → Option Direction → Option (Result DnsProxyError (ℕ × ℕ)) → Option Ending
concluded duration client_to_upstream upstream_to_client none = none
concluded duration client_to_upstream upstream_to_client (some (ok (up, down))) = some (record {
  result = ok tt;
  recorded = record_request true up down duration;
  upstream_writer = written client_to_upstream;
  client_writer = written upstream_to_client;
})
concluded duration client_to_upstream upstream_to_client (some (err e)) = some (record {
  result = err e;
  recorded = record_request false 0 0 duration;
  upstream_writer = written client_to_upstream;
  client_writer = written upstream_to_client;
})

module _ (rewriter : BaseSniRewriter) (dialing : Dialing) where
  -- Up to the TLS stream to the upstream: its name with its port.
  unfoldable pub dial : Text → ℕ → Result DnsProxyError Text
  dial source_hostname upstream_port = do
    rewritten ←
        ok_or (rewrite rewriter source_hostname)
          (sni_rewrite (no_matching_base_domain source_hostname))
    let target = rewritten.target_hostname
    let failed : Text → Text → DnsProxyError =
        λ what e. upstream (connection_failed (peer target upstream_port) (what ++ e))
    _ ←
        awaited (timeout (peer target upstream_port)) (failed (codes "Failed to connect: "))
          (dialing.connect target upstream_port)
    _ ←
        map_err
          (λ e. invalid_input (codes "Failed to create ServerName for upstream connection: " ++ e))
          (dialing.server_name target)
    _ ←
        awaited (timeout (peer target upstream_port))
          (failed (codes "Failed to establish TLS connection: ")) (dialing.handshake target)
    ok (peer target upstream_port)

  -- The outcome; `none` while both directions still run.
  unfoldable pub handle_connection : Text → ℕ → Exchanged → Option Ending
  unfolding dial relay_direction try_join concluded
  handle_connection source_hostname upstream_port x = elim (dial source_hostname upstream_port) [
    | err e ↦
        some
          (record { result = err e; recorded = []; upstream_writer = none; client_writer = none })
    | ok upstream_name ↦
        let client_to_upstream = relay_direction upstream_name x.from_client 0 [] in
        let upstream_to_client = relay_direction upstream_name x.from_upstream 0 [] in
        concluded x.duration client_to_upstream upstream_to_client
          (try_join x.client_first client_to_upstream upstream_to_client)
  ]
