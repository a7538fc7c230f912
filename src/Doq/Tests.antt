-- ===== src/Doq/Tests.antt =====
-- Streams that hold their bytes, and examples of the theorems on frames and their relay.
use dns_ingress.Prelude.{
  ℕ, zero, suc, ◌+◌, ◌≤◌, ◌<◌, ◌≡◌, ◌≢◌, refl, sym, ap, true, Bool, leb, ltb, some, none, List, [],
  ◌∷◌, ◌++◌, length, take, drop, all, All, ok, if◌then◌else◌, Bool-cases, inl, inr, arith,
  length-take, leb→le,
}
use dns_ingress.Prelude.Text.{codes, text_eq, decimal}
use dns_ingress.Message.{max_dns_message_size}
use dns_ingress.Doq.{
  RecvStream, SendStream, Read, exact, early, broken, written, read_doq_frame, length_read,
  read_message, message_read, read_doq_query, check_query, only_query, write_doq_frame, wrote,
  relay, bad_response,
}
use dns_ingress.Doq.Frames.{frame, read_doq_query-ok}
use dns_ingress.Prelude.Timed.{Timed, done}
use dns_ingress.Prelude.Assoc.{lookup, insert}
use dns_ingress.QuicPool.{
  Lease, LeasePool, with_root_store, count, slots_of, get, looked, look, hit,
}
use dns_ingress.QuicPool.Slots.{distinct}
use dns_ingress.QuicPool.Valid.{Valid}
use dns_ingress.QuicPool.Clients.{QuicKey, quic_key, QuicApplication, quic_get}
use dns_ingress.Doq.Stream.{
  Lending, got, forward_quic_stream, with_query, on_connection, transact, conclude,
}
use dns_ingress.Doq.Whole.{Transacted, forward_quic_stream-ok}
use dns_ingress.Doq.Lease.{KeptIf, with_query-Kept}
use dns_ingress.Doq.RoundTrip.{read-write_doq_frame}
use dns_ingress.Doq.Relay.{relay-transparent, relay-enough_fuel}

abbrev are_bytes : List ℕ → Bool
are_bytes = all (λ x. ltb x 256)

-- A read takes the bytes from the front, if there are enough of them.
abbrev read_held : ℕ → List ℕ → Read × List ℕ
read_held n s =
    if leb n (length s)
    then (if are_bytes (take n s)
        then (exact (take n s), drop n s)
        else (broken (codes "no byte"), s))
    else (early (length s), s)

take-drop : (n : ℕ) (s : List ℕ) → s ≡ take n s ++ drop n s
take-drop zero s = refl
take-drop (suc n) [] = refl
take-drop (suc n) (x ∷ s) = ap (◌∷◌ x) (take-drop n s)

All-bytes : (b : List ℕ) → are_bytes b ≡ true → All (λ x. x < 256) b
All-bytes [] h = tt
All-bytes (x ∷ b) h = ground (arith, All-bytes b)

held-exact :
    (n : ℕ) (s b : List ℕ)
    → (read_held n s).0 ≡ exact b
    → (s ≡ b ++ (read_held n s).1) × (length b ≡ n) × All (λ x. x < 256) b
held-exact n s b h = elim (Bool-cases (leb n (length s))) [
  | inr f ↦ absurd (ground (arith, rw f at h))
  | inl t ↦ elim (Bool-cases (are_bytes (take n s))) [
    | inr f ↦ absurd (ground (arith, rw (t, f) at h))
    | inl bytes ↦
        let same : take n s ≡ b = ground (arith, rw (t, bytes) at h) in
        rw (t, bytes)
          (
            rw (sym same) (take-drop n s),
            rw (sym same) (omega (arith, length-take n s, leb→le n (length s) t)),
            rw (sym same) (All-bytes (take n s) bytes),
          )
  ]
]

held-early : (n k : ℕ) (s : List ℕ) → (read_held n s).0 ≡ early k → length s ≡ k
held-early n k s h = elim (Bool-cases (leb n (length s))) [
  | inr f ↦ ground (arith, rw f at h)
  | inl t ↦ elim (Bool-cases (are_bytes (take n s))) [
    | inr f ↦ absurd (ground (arith, rw (t, f) at h))
    | inl bytes ↦ absurd (ground (arith, rw (t, bytes) at h))
  ]
]

abbrev held : RecvStream
held = record {
  State = List ℕ;
  read_exact = read_held;
  show_early = decimal;
  pending = λ s. s;
  exact_law = held-exact;
  early_law = held-early;
}

abbrev kept : SendStream
kept = record {
  State = List ℕ;
  write_all = λ b s. (written, s ++ b);
  finish = λ s. (ok tt, s);
  sent = λ s. s;
  written_law = λ b s h. refl;
  finish_law = λ s. refl;
}

abbrev query : List ℕ
query = 0 ∷ 0 ∷ 1 ∷ 0 ∷ 0 ∷ 1 ∷ 0 ∷ 0 ∷ 0 ∷ 0 ∷ 0 ∷ 0 ∷ []

frame_run : (read_doq_frame held (frame query ++ (7 ∷ []))).0 ≡ ok (some query)
unfolding read_doq_frame length_read read_message message_read
frame_run = refl

query_run : (read_doq_query held (frame query)).0 ≡ ok query
unfolding read_doq_query read_doq_frame length_read read_message message_read check_query only_query
    text_eq
query_run = refl

read_doq_query-ok_example :
    (frame query ≡ frame query)
    × (12 ≤ length query)
    × (length query ≤ max_dns_message_size)
    × (take 2 query ≡ 0 ∷ 0 ∷ [])
read_doq_query-ok_example = read_doq_query-ok held (frame query) {q = query} query_run

write_run : (write_doq_frame kept query []).0 ≡ ok tt
unfolding write_doq_frame wrote
write_run = refl

abbrev two : List ℕ
two = frame query ++ frame query

relay_run : relay held kept 40 0 two [] ≡ some (ok 28, [], two)
unfolding relay bad_response read_doq_frame length_read read_message message_read write_doq_frame
    wrote text_eq
relay_run = refl

relay-transparent_example : (two ≡ [] ++ two) × (28 ≡ 0 + length two)
relay-transparent_example =
    relay-transparent held kept 40 0 two [] {total = 28} {s' = []} {t' = two} relay_run

relay-enough_fuel_example : relay held kept 40 0 two [] ≢ none
relay-enough_fuel_example = relay-enough_fuel held kept 40 0 two [] (omega arith)

-- A connection whose one stream holds an answer.
abbrev open_bi : ℕ → Timed (List ℕ × List ℕ)
open_bi connection = done ([], frame query)

abbrev lent : Lending ℕ
lent = got (ok (record { connection = 7; slot = 0 })) (with_root_store 1)

abbrev untouched : LeasePool QuicKey ℕ
untouched = with_root_store 1

forward_run :
    (forward_quic_stream held kept open_bi [] (frame query) (codes "a") 853 40 untouched lent).0
    ≡ some (ok (14, 14), frame query)
unfolding forward_quic_stream with_query on_connection transact conclude relay bad_response
    read_doq_query read_doq_frame length_read read_message message_read check_query only_query
    write_doq_frame wrote text_eq
forward_run = refl

forward_quic_stream-ok_example :
    Transacted held kept open_bi (codes "a") 853 40 [] (frame query) (frame query) 14 14
forward_quic_stream-ok_example =
    forward_quic_stream-ok held kept open_bi [] (frame query) (codes "a") 853 40 untouched lent
      {n = 14} {m = 14} {t' = frame query} forward_run

carried_run : frame query ++ (7 ∷ []) ≡ kept.sent (write_doq_frame kept query []).1 ++ (7 ∷ [])
unfolding write_doq_frame wrote
carried_run = refl

read-write_doq_frame_example :
    (query ≡ query) × ((read_doq_frame held (frame query ++ (7 ∷ []))).1 ≡ 7 ∷ [])
read-write_doq_frame_example =
    read-write_doq_frame held kept query query (7 ∷ []) [] (frame query ++ (7 ∷ [])) refl write_run
      carried_run frame_run

-- The one connection of a pool, and its lease.
abbrev cached : ℕ → List ℕ → LeasePool QuicKey ℕ
cached used borrowed = record {
  entries =
      (
        (QuicApplication.doq, codes "a", 853),
        record { lease = record { connection = 7; slot = 0 }; last_used = used },
      )
      ∷ [];
  available = 0;
  reserved = [];
  borrowed = borrowed;
  next_slot = 1;
}

cached-Valid : Valid 1 (cached 3 [])
unfolding count slots_of distinct
cached-Valid = record {
  mapped = (tt, tt);
  apart = refl;
  fresh = λ x l. ground arith;
  permits = refl;
}

abbrev connection_lease : Lease ℕ
connection_lease = record { connection = 7; slot = 0 }

found :
    quic_get {Address = ℕ}
      (λ n c. true)
      (λ n. 9)
      (ok [])
      (λ a. ok a)
      QuicApplication.doq
      (codes "a")
      853
      (cached 3 [])
    ≡ (ok connection_lease, cached 9 (0 ∷ []))
unfolding quic_get get looked look hit lookup insert text_eq
found = refl

with_query-Kept_example :
    Valid 1
      (with_query held kept open_bi
        (codes "a")
        853
        40
        []
        query
        (got (ok connection_lease) (cached 9 (0 ∷ [])))).1
    × ((with_query held kept open_bi
          (codes "a")
          853
          40
          []
          query
          (got (ok connection_lease) (cached 9 (0 ∷ [])))).1.borrowed
        ≡ [])
    × ((with_query held kept open_bi
          (codes "a")
          853
          40
          []
          query
          (got (ok connection_lease) (cached 9 (0 ∷ [])))).1.reserved
        ≡ [])
    × KeptIf held kept open_bi
        (codes "a")
        853
        connection_lease
        (open_bi 7)
        (with_query held kept open_bi
          (codes "a")
          853
          40
          []
          query
          (got (ok connection_lease) (cached 9 (0 ∷ [])))).1
with_query-Kept_example =
    with_query-Kept held kept open_bi (codes "a") 853 40 {Address = ℕ} (λ n c. true) (λ n. 9)
      (ok []) (λ a. ok a) query [] connection_lease (cached 3 []) (cached 9 (0 ∷ [])) cached-Valid
      found
