-- ===== src/Dot/Tests.antt =====
-- A connection with one message each way, as an example.
use dns_ingress.Prelude.{
  ℕ, ◌+◌, ◌≡◌, ◌↔◌, refl, inl, inr, true, some, List, [], ◌∷◌, ◌++◌, length, ok,
}
use dns_ingress.Prelude.Text.{
  codes, text_eq, to_lower, trim_end_matches, starts_with, strip_suffix, ends_with,
}
use dns_ingress.Prelude.Timed.{done, late}
use dns_ingress.Rewriter.{BaseSniRewriter, rewrite, extract_prefix, prefix_under}
use dns_ingress.Metrics.{record_request}
use dns_ingress.Dot.{
  Turn, Direction, Exchanged, Dialing, Ending, relay_direction, try_join, dial, concluded,
  handle_connection,
}
use dns_ingress.Dot.Relay.{Carried, read_late, relay_direction_iff, relay_direction-EndsOne}
use dns_ingress.Dot.Connection.{handle_connection-ok}

abbrev piece : List ℕ
piece = 0 ∷ 1 ∷ 9 ∷ []

abbrev sent : List Turn
sent =
    record { read = done piece; answered = done tt }
    ∷ record { read = done []; answered = done tt }
    ∷ []

abbrev stalled : List Turn
stalled =
    record { read = done piece; answered = done tt }
    ∷ record { read = late; answered = done tt }
    ∷ []

relay_direction_iff_example :
    (relay_direction (codes "u:853") sent 0 [] ≡ some (ok 3, piece))
    ↔ ((bytes : List ℕ) × Carried sent bytes × (piece ≡ [] ++ bytes) × (3 ≡ 0 + length bytes))
relay_direction_iff_example = relay_direction_iff (codes "u:853") sent 0 3 [] piece

relay_direction-EndsOne_example :
    (d : Direction) × (relay_direction (codes "u:853") stalled 0 [] ≡ some d)
relay_direction-EndsOne_example =
    relay_direction-EndsOne (codes "u:853") stalled 0 [] (inr (inl (read_late refl)))

abbrev rewriter : BaseSniRewriter
rewriter = record {
  config = record { base_domains = codes "example.com" ∷ []; target_suffix = codes ".test" };
}

abbrev reachable : Dialing
reachable = record {
  connect = λ target port. done tt;
  server_name = λ target. ok tt;
  handshake = λ target. done tt;
}

abbrev answer : List ℕ
answer = 0 ∷ 2 ∷ 8 ∷ 7 ∷ []

abbrev came : List Turn
came =
    record { read = done answer; answered = done tt }
    ∷ record { read = done []; answered = done tt }
    ∷ []

abbrev both : Exchanged
both = record { from_client = sent; from_upstream = came; client_first = true; duration = 4 }

abbrev good : Ending
good = record {
  result = ok tt;
  recorded = record_request true 3 4 4;
  upstream_writer = some piece;
  client_writer = some answer;
}

served : handle_connection rewriter reachable (codes "a.example.com") 853 both ≡ some good
unfolding handle_connection dial relay_direction try_join concluded rewrite extract_prefix
    prefix_under text_eq to_lower trim_end_matches starts_with strip_suffix ends_with
served = refl

handle_connection-ok_example :
    (up : List ℕ) × (down : List ℕ) × Carried sent up
    × Carried came down
    × (some piece ≡ some up)
    × (some answer ≡ some down)
    × (record_request true 3 4 4 ≡ record_request true (length up) (length down) 4)
handle_connection-ok_example =
    handle_connection-ok rewriter reachable (codes "a.example.com") 853 both {ending = good} served
      refl
