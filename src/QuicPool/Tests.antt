-- ===== src/QuicPool/Tests.antt =====
-- A pool of one connection, as examples.
use dns_ingress.Prelude.{
  ℕ, ◌+◌, ◌≤◌, ◌≡◌, ◌↔◌, refl, arith, Bool, true, some, List, [], ◌∷◌, ok, err,
}
use dns_ingress.Prelude.Text.{codes, text_eq}
use dns_ingress.Prelude.Assoc.{lookup, remove, IsMap}
use dns_ingress.Error.{DnsProxyError}
use dns_ingress.QuicPool.{
  count, remove_one, CachedLease, LeasePool, slots_of, references, is_idle, hit, look, acquire_slot,
  make_room, choose, try_acquire, get, with_root_store, discard, looked, owning, rechecked,
  connected, least_recent, earlier, retain, take_out, overloaded_error, upstream_error,
}
use dns_ingress.QuicPool.Slots.{distinct}
use dns_ingress.QuicPool.Valid.{Valid}
use dns_ingress.QuicPool.Capacity.{InUse, acquire_slot_iff}
use dns_ingress.QuicPool.Eviction.{choose-least}
use dns_ingress.QuicPool.Sections.{Left}
use dns_ingress.QuicPool.Answers.{get-Left}
use dns_ingress.QuicPool.Traffic.{acquire, nil, snoc, Reach-bounded}
use dns_ingress.QuicPool.Clients.{H3Key, h3_key, h3_get}

abbrev TestPool : Type 0
TestPool = LeasePool H3Key ℕ

abbrev dns_key : H3Key
dns_key = (codes "dns", 443)

abbrev other_key : H3Key
other_key = (codes "b", 443)

-- The one connection of the pool, with the given leases in use.
abbrev holding : List ℕ → TestPool
holding borrowed = record {
  entries = (dns_key, record { lease = record { connection = 7; slot = 0 }; last_used = 3 }) ∷ [];
  available = 0;
  reserved = [];
  borrowed = borrowed;
  next_slot = 1;
}

unused-Valid : Valid 1 (holding [])
unfolding count slots_of distinct
unused-Valid = record {
  mapped = (tt, tt);
  apart = refl;
  fresh = λ x l. ground arith;
  permits = refl;
}

lent-Valid : Valid 1 (holding (0 ∷ []))
unfolding count slots_of distinct
lent-Valid = record { mapped = (tt, tt); apart = refl; fresh = λ x l. ground arith; permits = refl }

abbrev live : ℕ → ℕ → Bool
live moment connection = true

abbrev clock : ℕ → ℕ
clock moment = 10 + moment

abbrev busy : DnsProxyError
busy = overloaded_error (codes "b") 443 (codes "HTTP/3")

acquire_slot_iff_example :
    ((acquire_slot (live 1) busy (holding (0 ∷ []))).0 ≡ err busy)
    ↔ ((◌≡◌ {A = ℕ} 0 0) × InUse (holding (0 ∷ [])))
acquire_slot_iff_example = acquire_slot_iff (live 1) busy (holding (0 ∷ [])) lent-Valid

refused_while_in_use : (acquire_slot (live 1) busy (holding (0 ∷ []))).0 ≡ err busy
unfolding acquire_slot try_acquire make_room choose retain least_recent count slots_of
refused_while_in_use = refl

evicted_when_unused : (acquire_slot (live 1) busy (holding [])).0 ≡ ok 1
unfolding acquire_slot try_acquire make_room choose retain least_recent earlier take_out lookup
    remove remove_one count slots_of text_eq
evicted_when_unused = refl

chosen : (choose (live 1) (holding [])).0 ≡ some 0
unfolding choose retain least_recent earlier take_out lookup remove count slots_of text_eq
chosen = refl

choose-least_example :
    (key : H3Key) × (cached : CachedLease ℕ) × (cached.lease.slot ≡ 0)
    × (lookup key (holding []).entries ≡ some cached)
    × (is_idle (holding []) cached.lease ≡ true)
    × ((k : H3Key) (c : CachedLease ℕ)
        → lookup k (holding []).entries ≡ some c
        → true ≡ true
        → is_idle (holding []) c.lease ≡ true
        → cached.last_used ≤ c.last_used)
choose-least_example = choose-least (live 1) (holding []) unused-Valid chosen

get-Left_example :
    Valid 1 (get live clock busy (ok 8) other_key (holding [])).1
    × Left other_key (holding []) (get live clock busy (ok 8) other_key (holding []))
get-Left_example = get-Left live clock busy (ok 8) other_key (holding []) unused-Valid

abbrev reserving : TestPool
reserving = record { entries = []; available = 0; reserved = 0 ∷ []; borrowed = []; next_slot = 1 }

abbrev empty : TestPool
empty = with_root_store 1

taken_permit : try_acquire empty ≡ some (0, reserving)
unfolding try_acquire
taken_permit = refl

Reach-bounded_example :
    (0 + distinct (references reserving) ≡ 1) × (0 + 1 ≤ 1) × IsMap reserving.entries
Reach-bounded_example = Reach-bounded 1 (snoc nil (acquire taken_permit))

-- A second request for the host answers the session that the first one made.
reused :
    (h3_get {Connection = ℕ} live clock
      (ok (0 ∷ []))
      (λ a. ok a)
      (λ c. ok 9)
      (codes "dns")
      443
      (holding [])).0
    ≡ ok (record { connection = 7; slot = 0 })
unfolding h3_get get looked look hit lookup text_eq
reused = refl

unresolved :
    (h3_get {Address = ℕ} {Connection = ℕ} live clock
      (ok [])
      (λ a. ok a)
      (λ c. ok 9)
      (codes "b")
      443
      (with_root_store 1)).0
    ≡ err (upstream_error (codes "b") 443 (codes "DNS lookup returned no addresses"))
unfolding h3_get get looked look hit lookup owning acquire_slot try_acquire rechecked connected
    discard take_out
unresolved = refl
