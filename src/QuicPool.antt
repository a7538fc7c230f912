-- ===== src/QuicPool.antt =====
-- src/upstream/quic_pool.rs: the bounded caches of QUIC connections and of HTTP/3 sessions. The two
-- pools have the same code for different keys and connections, which are parameters here. A
-- `PoolSlot` behind its shared pointer is a number: its strong count is the count of the references
-- to it, and its permit returns to the semaphore when the last reference is dropped. The map is an
-- association list; a clock reading and whether a connection is alive are arguments of each step
-- that asks for them.
pub mod Slots
pub mod Valid
pub mod Steps
pub mod Retain
pub mod Oldest
pub mod Capacity
pub mod Eviction
pub mod Clients
pub mod Calls
pub mod Traffic
pub mod Sections
pub mod Answers
pub mod Held
mod Tests
use dns_ingress.Prelude.{
  ℕ, zero, suc, ◌==◌, leb, ◌≡◌, Bool, Option, none, some, List, [], ◌∷◌, ◌++◌, map, if◌then◌else◌,
  Result, ok, err, ◌>>=◌, ok_or, map_err, head?,
}
use dns_ingress.Prelude.Text.{Text, codes, decimal}
use dns_ingress.Prelude.Assoc.{Eq, lookup, insert, remove}
use dns_ingress.Error.{
  DnsProxyError, overloaded, upstream, UpstreamError, connection_failed, protocol,
}

unfoldable pub count : ℕ → List ℕ → ℕ
count x [] = 0
count x (y ∷ ys) = if x == y then suc (count x ys) else count x ys

unfoldable pub remove_one : ℕ → List ℕ → List ℕ
remove_one x [] = []
remove_one x (y ∷ ys) = if x == y then ys else y ∷ remove_one x ys

-- `QuicConnectionLease` and `Http3SessionLease`
pub record Lease (C : Type 0) : Type 0 where
  pub connection : C
  pub slot : ℕ

pub record CachedLease (C : Type 0) : Type 0 where
  pub lease : Lease C
  pub last_used : ℕ

-- `reserved` holds the slots of the calls that are still connecting, `borrowed` one reference for
-- each lease in use outside of the cache. The next slot acquired gets the number `next_slot`.
pub record LeasePool (K C : Type 0) : Type 0 where
  pub entries : List (K × CachedLease C)
  pub available : ℕ
  pub reserved : List ℕ
  pub borrowed : List ℕ
  pub next_slot : ℕ

module _ {K C : Type 0} where
  abbrev pub with_root_store : ℕ → LeasePool K C
  with_root_store max_entries = record {
    entries = [];
    available = max_entries;
    reserved = [];
    borrowed = [];
    next_slot = 0;
  }

  unfoldable pub slots_of : List (K × CachedLease C) → List ℕ
  slots_of [] = []
  slots_of ((key, cached) ∷ entries) = cached.lease.slot ∷ slots_of entries

  abbrev pub references : LeasePool K C → List ℕ
  references s = s.borrowed ++ (slots_of s.entries ++ s.reserved)

  abbrev pub strong_count : ℕ → LeasePool K C → ℕ
  strong_count slot s = count slot (references s)

  abbrev pub is_idle : LeasePool K C → Lease C → Bool
  is_idle s lease = strong_count lease.slot s == 1

  -- After a reference was dropped.
  abbrev pub settle : ℕ → LeasePool K C → LeasePool K C
  settle slot s = record s {
    available = if strong_count slot s == 0 then suc s.available else s.available;
  }

  abbrev pub drop_lease : ℕ → LeasePool K C → LeasePool K C
  drop_lease slot s = settle slot (record s { borrowed = remove_one slot s.borrowed })

  abbrev pub drop_slot : ℕ → LeasePool K C → LeasePool K C
  drop_slot slot s = settle slot (record s { reserved = remove_one slot s.reserved })

  -- The lease that was taken out of the cache is dropped.
  abbrev pub drop_taken : Option ℕ × LeasePool K C → LeasePool K C
  drop_taken (none, s) = s
  drop_taken (some slot, s) = drop_lease slot s

  -- `try_acquire_owned`, and the slot made of the permit.
  unfoldable pub try_acquire : LeasePool K C → Option (ℕ × LeasePool K C)
  try_acquire s = elim s.available [
    | zero ↦ none
    | suc n ↦ some (
      s.next_slot,
      record s { available = n; reserved = s.next_slot ∷ s.reserved; next_slot = suc s.next_slot },
    )
  ]

  -- `iter().filter(is_idle).min_by_key(last_used)`: the first of the least.
  unfoldable pub earlier : K × CachedLease C → Option (K × CachedLease C) → K × CachedLease C
  earlier first none = first
  earlier first (some later) = if leb first.1.last_used later.1.last_used then first else later

  unfoldable pub least_recent :
      LeasePool K C → List (K × CachedLease C) → Option (K × CachedLease C)
  unfolding earlier
  least_recent s [] = none
  least_recent s (entry ∷ entries) =
      let rest = least_recent s entries in
      if is_idle s entry.1.lease then some (earlier entry rest) else rest

  module _ ⦃e : Eq K⦄ where
    -- `entries.remove(&key)`: the lease leaves the cache and is still held.
    unfoldable pub take_out : K → LeasePool K C → Option ℕ × LeasePool K C
    take_out key s = elim (lookup key s.entries) [
      | none ↦ (none, s)
      | some cached ↦ (
        some cached.lease.slot,
        record s { entries = remove key s.entries; borrowed = cached.lease.slot ∷ s.borrowed },
      )
    ]

    unfoldable pub discard : K → LeasePool K C → LeasePool K C
    unfolding take_out
    discard key s = drop_taken (take_out key s)

    -- A live entry of the key is marked as used and its lease cloned.
    unfoldable pub hit : (C → Bool) → ℕ → K → LeasePool K C → Option (Lease C × LeasePool K C)
    hit alive now key s = elim (lookup key s.entries) [
      | none ↦ none
      | some cached ↦
          if alive cached.lease.connection
          then some (
            cached.lease,
            record s {
              entries = insert key (record cached { last_used = now }) s.entries;
              borrowed = cached.lease.slot ∷ s.borrowed;
            },
          )
          else none
    ]

    -- The first section of a call.
    unfoldable pub look : (C → Bool) → ℕ → K → LeasePool K C → Option (Lease C) × LeasePool K C
    unfolding hit discard
    look alive now key s = elim (hit alive now key s) [
      | some (lease, s') ↦ (some lease, s')
      | none ↦ (none, discard key s)
    ]

    -- `retain(is_alive)` over the entries that are visited.
    unfoldable pub retain : (C → Bool) → List (K × CachedLease C) → LeasePool K C → LeasePool K C
    unfolding discard
    retain alive [] s = s
    retain alive ((key, cached) ∷ visited) s =
        retain alive visited (if alive cached.lease.connection then s else discard key s)

    -- The section under the lock that chooses and removes the entry to evict.
    unfoldable pub choose : (C → Bool) → LeasePool K C → Option ℕ × LeasePool K C
    unfolding retain least_recent take_out
    choose alive s =
        let kept = retain alive s.entries s in
        elim (least_recent kept kept.entries) [
          | none ↦ (none, kept)
          | some (key, cached) ↦ take_out key kept
        ]

    unfoldable pub make_room : (C → Bool) → LeasePool K C → LeasePool K C
    unfolding choose
    make_room alive s = drop_taken (choose alive s)

    unfoldable pub acquire_slot :
        (C → Bool) → DnsProxyError → LeasePool K C → Result DnsProxyError ℕ × LeasePool K C
    unfolding try_acquire make_room
    acquire_slot alive busy s = elim (try_acquire s) [
      | some (slot, s') ↦ (ok slot, s')
      | none ↦
          let roomy = make_room alive s in
          elim (try_acquire roomy) [ some (slot, s') ↦ (ok slot, s') | none ↦ (err busy, roomy) ]
    ]

    abbrev pub put : K → C → ℕ → ℕ → LeasePool K C → LeasePool K C
    put key connection slot now s = record s {
      entries =
          insert key
            (record { lease = record { connection = connection; slot = slot }; last_used = now })
            s.entries;
      reserved = remove_one slot s.reserved;
      borrowed = slot ∷ s.borrowed;
    }

    -- The last section of a call: another call's entry wins, a dead one is replaced.
    unfoldable pub publish : (C → Bool) → ℕ → K → C → ℕ → LeasePool K C → Lease C × LeasePool K C
    unfolding hit discard
    publish alive now key connection slot s = elim (hit alive now key s) [
      | some (lease, s') ↦ (lease, drop_slot slot s')
      | none ↦ (
        record { connection = connection; slot = slot },
        put key connection slot now (discard key s),
      )
    ]

    -- A call by itself; `alive` and `now` are what its sections see, in their order. Each step of
    -- the call takes what the step before it came to.
    module _ (alive : ℕ → C → Bool) (now : ℕ → ℕ) (busy : DnsProxyError)
        (connecting : Result DnsProxyError C) (key : K) where
      unfoldable pub connected :
          ℕ
          → LeasePool K C
          → Result DnsProxyError C
          → Result DnsProxyError (Lease C) × LeasePool K C
      unfolding publish
      connected slot s (err x) = (err x, drop_slot slot s)
      connected slot s (ok connection) =
          let (lease, s') = publish (alive 3) (now 2) key connection slot s in (ok lease, s')

      unfoldable pub rechecked :
          ℕ
          → LeasePool K C
          → Option (Lease C × LeasePool K C)
          → Result DnsProxyError (Lease C) × LeasePool K C
      unfolding connected
      rechecked slot s (some (lease, s')) = (ok lease, drop_slot slot s')
      rechecked slot s none = connected slot s connecting

      unfoldable pub owning :
          Result DnsProxyError ℕ × LeasePool K C → Result DnsProxyError (Lease C) × LeasePool K C
      unfolding rechecked hit
      owning (err x, s) = (err x, s)
      owning (ok slot, s) = rechecked slot s (hit (alive 2) (now 1) key s)

      unfoldable pub looked :
          Option (Lease C) × LeasePool K C → Result DnsProxyError (Lease C) × LeasePool K C
      unfolding owning acquire_slot
      looked (some lease, s) = (ok lease, s)
      looked (none, s) = owning (acquire_slot (alive 1) busy s)

      unfoldable pub get : LeasePool K C → Result DnsProxyError (Lease C) × LeasePool K C
      unfolding looked look
      get s = looked (look (alive 0) (now 0) key s)

    abbrev pub invalidate : K → LeasePool K C → LeasePool K C
    invalidate key s = discard key s

-- The errors of both pools.
abbrev pub peer : Text → ℕ → Text
peer hostname port = hostname ++ (b':' ∷ decimal port)

abbrev pub overloaded_error : Text → ℕ → Text → DnsProxyError
overloaded_error hostname port kind = overloaded (peer hostname port) kind

abbrev pub upstream_error : Text → ℕ → Text → DnsProxyError
upstream_error hostname port reason = upstream (connection_failed (peer hostname port) reason)
