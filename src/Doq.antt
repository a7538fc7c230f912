-- ===== src/Doq.antt =====
-- src/upstream/quic.rs: the frames of a DoQ transaction and their relay. The two halves of a QUIC
-- stream are quinn's: interface records of what their calls yield under the idle timeout, with the
-- documented behaviour as laws. How the upstream stream is opened is an argument.
pub mod Frames
pub mod Relay
pub mod Stream
pub mod Whole
pub mod Lease
pub mod RoundTrip
mod Tests
use dns_ingress.Prelude.{
  ℕ, zero, suc, ◌+◌, ◌-◌, ◌*◌, ◌/◌, ◌%◌, ◌<◌, ◌≡◌, Bool, true, false, not, ◌&&◌, ◌||◌, ltb, leb,
  ◌==◌, Option, none, some, List, [], ◌∷◌, ◌++◌, length, take, All, is_empty, if◌then◌else◌, Result,
  ok, err,
}
use dns_ingress.Prelude.Text.{Text, codes, text_eq}
use dns_ingress.Error.{DnsProxyError, timeout, protocol, upstream, UpstreamError, request_failed}
use dns_ingress.Message.{max_dns_message_size}

-- The outcome of `timeout(recv.read_exact(buffer))`; `early` has the count that had arrived.
pub data Read : Type 0 where
  exact : List ℕ → Read
  early : ℕ → Read
  broken : Text → Read
  late : Read

-- The outcome of `timeout(send.write_all(bytes))`.
pub data Write : Type 0 where
  written : Write
  refused : Text → Write
  late : Write

-- `RecvStream`, with `pending` the bytes that it will still yield, and the print of an early end.
pub record RecvStream : Type 1 where
  pub State : Type 0
  pub read_exact : ℕ → State → Read × State
  pub show_early : ℕ → Text
  pub pending : State → List ℕ
  pub exact_law :
      (n : ℕ) (s : State) (b : List ℕ)
      → (read_exact n s).0 ≡ exact b
      → (pending s ≡ b ++ pending (read_exact n s).1) × (length b ≡ n) × All (λ x. x < 256) b
  pub early_law : (n k : ℕ) (s : State) → (read_exact n s).0 ≡ early k → length (pending s) ≡ k

-- `SendStream`, with `sent` the bytes that it was given.
pub record SendStream : Type 1 where
  pub State : Type 0
  pub write_all : List ℕ → State → Write × State
  pub finish : State → Result Text (Unit {0}) × State
  pub sent : State → List ℕ
  pub written_law :
      (b : List ℕ) (s : State) → (write_all b s).0 ≡ written → sent (write_all b s).1 ≡ sent s ++ b
  pub finish_law : (s : State) → sent (finish s).1 ≡ sent s

abbrev pub doq_idle_timeout : Text → DnsProxyError
doq_idle_timeout operation = timeout (codes "DoQ transaction (" ++ (operation ++ codes ")"))

-- `u16::from_be_bytes` and `to_be_bytes`
abbrev pub from_be_bytes : List ℕ → ℕ
from_be_bytes (hi ∷ lo ∷ []) = hi * 256 + lo
from_be_bytes _ = 0

abbrev pub to_be_bytes : ℕ → List ℕ
to_be_bytes n = (n / 256) ∷ (n % 256) ∷ []

module _ (r : RecvStream) where
  message_read : Read × r.State → Result DnsProxyError (Option (List ℕ)) × r.State
  message_read (exact message, s) = (ok (some message), s)
  message_read (late, s) = (err (doq_idle_timeout (codes "reading DoQ message")), s)
  message_read (early n, s) = (
    err (protocol (codes "DoQ stream ended with an incomplete DNS message: " ++ r.show_early n)),
    s,
  )
  message_read (broken e, s) =
      (err (protocol (codes "DoQ stream ended with an incomplete DNS message: " ++ e)), s)

  read_message : ℕ → r.State → Result DnsProxyError (Option (List ℕ)) × r.State
  read_message length s =
      if length == 0
      then (err (protocol (codes "DoQ DNS frame must not be empty")), s)
      else message_read (r.read_exact length s)

  length_read : Read × r.State → Result DnsProxyError (Option (List ℕ)) × r.State
  length_read (exact bytes, s) = read_message (from_be_bytes bytes) s
  length_read (late, s) = (err (doq_idle_timeout (codes "reading DoQ frame length")), s)
  length_read (early zero, s) = (ok none, s)
  length_read (early (suc n), s) = (
    err (protocol (codes "DoQ stream ended with an incomplete frame: " ++ r.show_early (suc n))),
    s,
  )
  length_read (broken e, s) =
      (err (protocol (codes "DoQ stream ended with an incomplete frame: " ++ e)), s)

  pub read_doq_frame : r.State → Result DnsProxyError (Option (List ℕ)) × r.State
  read_doq_frame s = length_read (r.read_exact 2 s)

  -- The checks on a query, before the look for a second frame.
  check_query : List ℕ → Result DnsProxyError (Unit {0})
  check_query query =
      if ltb (length query) 12
      then err (protocol (codes "DoQ query is shorter than the DNS header"))
      else if not (text_eq (take 2 query) (0 ∷ 0 ∷ []))
      then err (protocol (codes "DoQ query DNS message ID must be zero"))
      else ok tt

  only_query : List ℕ → Result DnsProxyError (Option (List ℕ)) → Result DnsProxyError (List ℕ)
  only_query query (err e) = err e
  only_query query (ok none) = ok query
  only_query query (ok (some another)) =
      err (protocol (codes "DoQ stream contains more than one query"))

  pub read_doq_query : r.State → Result DnsProxyError (List ℕ) × r.State
  read_doq_query s =
      let (first, s') = read_doq_frame s in
      elim first [
        | err e ↦ (err e, s')
        | ok none ↦ (err (protocol (codes "DoQ stream ended before query frame")), s')
        | ok (some query) ↦ elim (check_query query) [
          | err e ↦ (err e, s')
          | ok u ↦ let (second, s'') = read_doq_frame s' in (only_query query second, s'')
        ]
      ]

module _ (w : SendStream) where
  wrote : Text → Text → Write → Result DnsProxyError (Unit {0})
  wrote operation part written = ok tt
  wrote operation part late = err (doq_idle_timeout operation)
  wrote operation part (refused e) =
      err (protocol (codes "Failed to write DoQ frame " ++ (part ++ (codes ": " ++ e))))

  pub write_doq_frame : List ℕ → w.State → Result DnsProxyError (Unit {0}) × w.State
  write_doq_frame message s =
      if ltb max_dns_message_size (length message)
      then (err (protocol (codes "DoQ message exceeds 65535 bytes")), s)
      else (let (header, s') = w.write_all (to_be_bytes (length message)) s in
          elim (wrote (codes "writing DoQ frame length") (codes "length") header) [
            | err e ↦ (err e, s')
            | ok u ↦
                let (body, s'') = w.write_all message s' in
                (wrote (codes "writing DoQ message") (codes "body") body, s'')
          ])

-- The loop that relays the responses, on fuel: `none` is out of fuel. A response yields the bytes
-- sent so far.
module _ (r : RecvStream) (w : SendStream) where
  bad_response : List ℕ → Bool
  bad_response response = ltb (length response) 12 || not (text_eq (take 2 response) (0 ∷ 0 ∷ []))

  pub relay : ℕ → ℕ → r.State → w.State → Option (Result DnsProxyError ℕ × r.State × w.State)
  relay zero bytes_sent s t = none
  relay (suc fuel) bytes_sent s t =
      let (frame, s') = read_doq_frame r s in
      elim frame [
        | err e ↦ some (err e, s', t)
        | ok none ↦ some (ok bytes_sent, s', t)
        | ok (some response) ↦
            if bad_response response
            then some (
              err (protocol (codes "DoQ upstream response has an invalid DNS message ID")),
              s',
              t,
            )
            else (let (outcome, t') = write_doq_frame w response t in
                elim outcome [
                  | err e ↦ some (err e, s', t')
                  | ok u ↦ relay fuel (bytes_sent + (length response + 2)) s' t'
                ])
      ]
