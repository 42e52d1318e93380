-- ===== src/Ports/Reserve.antt =====
-- port_allocator.rs: the limit on ports, and reservations that are redeemed.
use remoc.Base.{
  contains, remove, ℕ, ◌+◌, ◌-◌, ◌^◌, ◌≤◌, ◌<◌, ◌≡◌, ◌&&◌, not, true, false, Option, some, List, [],
  ◌∷◌, ◌++◌, length, length-append, arith,
}
use remoc.Ports.{
  PortAllocator, Outcome, done, panicked, stuck, Remote, no_port, remote_port, already_allocated,
  search, search_fuel, is_available, is_unknown, try_allocate_pre_allocated, try_allocate_local,
  try_pre_allocate_local, try_allocate_remote, try_reserve, into_local, into_remote, drop_reserved,
  drop_local, drop_pre_allocated, drop_remote, new_allocator,
}
use remoc.Ports.Search.{search-Finds, contains-append}

length-remove : (ns : List ℕ) (n : ℕ) → length (remove ns n) ≤ length ns
length-remove [] n = omega arith
length-remove (x ∷ ns) n = ground (arith, length-remove ns n)

-- The operations, where they return.
pub data Step : PortAllocator → PortAllocator → Type 0 where
  allocate_pre_allocated :
      (a a' : PortAllocator) (number : ℕ) (r : Option ℕ)
      → try_allocate_pre_allocated a number ≡ done a' r
      → Step a a'
  allocate_local :
      (a a' : PortAllocator) (r : Option ℕ) → try_allocate_local a ≡ done a' r → Step a a'
  pre_allocate_local :
      (a a' : PortAllocator) (r : Option ℕ) → try_pre_allocate_local a ≡ done a' r → Step a a'
  allocate_remote : (a : PortAllocator) (number : ℕ) → Step a (try_allocate_remote a number).0
  reserve : (a : PortAllocator) → Step a (try_reserve a).0
  redeem_local : (a a' : PortAllocator) (number : ℕ) → into_local a ≡ done a' number → Step a a'
  redeem_remote :
      (a a' : PortAllocator) (number : ℕ) (r : Remote)
      → into_remote a number ≡ done a' r
      → Step a a'
  release_reserved : (a a' : PortAllocator) → drop_reserved a ≡ done a' tt → Step a a'
  release_local : (a : PortAllocator) (number : ℕ) → Step a (drop_local a number)
  release_pre_allocated : (a : PortAllocator) (number : ℕ) → Step a (drop_pre_allocated a number)
  release_remote : (a : PortAllocator) (number : ℕ) → Step a (drop_remote a number)

pub data Reachable (limit : ℕ) : PortAllocator → Type 0 where
  start : Reachable limit (new_allocator limit)
  step : (a a' : PortAllocator) → Reachable limit a → Step a a' → Reachable limit a'

abbrev pub IsWithin : ℕ → PortAllocator → Type 0
IsWithin limit a =
    (a.limit ≡ limit) × (length a.local_used + length a.remote_used + a.reserved ≤ limit)

allocate_local-IsWithin :
    (limit : ℕ) (a a' : PortAllocator) (r : Option ℕ)
    → IsWithin limit a
    → try_allocate_local a ≡ done a' r
    → IsWithin limit a'
unfolding try_allocate_local
allocate_local-IsWithin limit a a' r h e = ground arith

Step-IsWithin :
    (limit : ℕ) (a a' : PortAllocator) → IsWithin limit a → Step a a' → IsWithin limit a'
unfolding try_allocate_pre_allocated try_pre_allocate_local try_allocate_remote try_reserve
    into_local into_remote
Step-IsWithin limit _ _ h (allocate_pre_allocated a a' number r e) = ground arith
Step-IsWithin limit _ _ h (allocate_local a a' r e) = allocate_local-IsWithin limit a a' r h e
Step-IsWithin limit _ _ h (pre_allocate_local a a' r e) = ground arith
Step-IsWithin limit _ _ h (allocate_remote a number) = ground arith
Step-IsWithin limit _ _ h (reserve a) = ground arith
Step-IsWithin limit _ _ h (redeem_local a a' number e) =
    ground (
      arith,
      allocate_local-IsWithin limit (record a { reserved = a.reserved - 1 }) a' (some number),
    )
Step-IsWithin limit _ _ h (redeem_remote a a' number r e) = ground arith
Step-IsWithin limit _ _ h (release_reserved a a' e) = ground arith
Step-IsWithin limit _ _ h (release_local a number) =
    ground (arith, length-remove a.local_used number)
Step-IsWithin limit _ _ h (release_pre_allocated a number) = h
Step-IsWithin limit _ _ h (release_remote a number) =
    ground (arith, length-remove a.remote_used number)

-- However ports are reserved, allocated and released, no more of them than the limit are in use or
-- reserved.
pub Reachable-IsWithin : (limit : ℕ) (a : PortAllocator) → Reachable limit a → IsWithin limit a
Reachable-IsWithin limit _ start = ground arith
Reachable-IsWithin limit _ (step a a' r s) =
    Step-IsWithin limit a a' (Reachable-IsWithin limit a r) s

unknown-contains :
    (a : PortAllocator) (n : ℕ)
    → is_available a ≡ true
    → (is_available a && is_unknown a n)
      ≡ not (contains (a.local_used ++ (a.local_pre_allocated ++ a.quarantined_set)) n)
unknown-contains a n h = ground (
  arith,
  contains-append a.local_used (a.local_pre_allocated ++ a.quarantined_set) n,
  contains-append a.local_pre_allocated a.quarantined_set n,
)

found_local :
    (a : PortAllocator)
    → is_available a ≡ true
    → length a.local_used + length a.local_pre_allocated + length a.quarantined_set < 2 ^ 32
    → (number : ℕ) × (search (λ n. is_available a && is_unknown a n) (search_fuel a) a.next
        ≡ some number)
      × ((is_available a && is_unknown a number) ≡ true)
found_local a h few =
    search-Finds (λ n. is_available a && is_unknown a n)
      (a.local_used ++ (a.local_pre_allocated ++ a.quarantined_set)) (search_fuel a) a.next
      (λ n. unknown-contains a n h)
      (omega (
        arith,
        length-append a.local_used (a.local_pre_allocated ++ a.quarantined_set),
        length-append a.local_pre_allocated a.quarantined_set,
      ))
      (omega arith)

-- A reservation is always redeemed for a local port: in a reachable state with a reservation, where
-- the numbers in use, pre-allocated and quarantined are fewer than there are numbers, the loop ends,
-- nothing panics, the number is none of those, and the port takes the place of the reservation.
pub into_local-Reachable :
    (limit : ℕ) (a : PortAllocator)
    → Reachable limit a
    → 1 ≤ a.reserved
    → length a.local_used + length a.local_pre_allocated + length a.quarantined_set < 2 ^ 32
    → (number : ℕ) × (into_local a
        ≡ done
            (record a {
              reserved = a.reserved - 1;
              next = number;
              local_used = number ∷ a.local_used;
            })
            number)
      × (is_unknown a number ≡ true)
unfolding into_local try_allocate_local
into_local-Reachable limit a r h few =
    let a1 = record a { reserved = a.reserved - 1 } in
    let free : is_available a1 ≡ true = ground (arith, Reachable-IsWithin limit a r) in
    let (number, e, unknown) = found_local a1 free few in
    (number, ground (arith, e, unknown, free), ground (arith, unknown))

-- What redeeming a reservation for a remote port does: nothing panics, the reservation is given up,
-- and a port that was in use already is refused and one that was not is in use afterwards.
abbrev pub Redeemed : PortAllocator → ℕ → Outcome Remote → Type 0
Redeemed a number stuck = ⊥
Redeemed a number panicked = ⊥
Redeemed a number (done a' no_port) = ⊥
Redeemed a number (done a' (remote_port n)) =
    (n ≡ number)
    × (contains a.remote_used number ≡ false)
    × (a' ≡ record a { reserved = a.reserved - 1; remote_used = number ∷ a.remote_used })
Redeemed a number (done a' (already_allocated n)) =
    (n ≡ number)
    × (contains a.remote_used number ≡ true)
    × (a' ≡ record a { reserved = a.reserved - 1 })

-- A reservation can always be redeemed for a remote port: in a reachable state with a reservation
-- nothing panics, the reservation is given up, and the port is refused if it is in use already, and
-- in use afterwards if it was not.
pub into_remote-Redeemed :
    (limit : ℕ) (a : PortAllocator) (number : ℕ)
    → Reachable limit a
    → 1 ≤ a.reserved
    → Redeemed a number (into_remote a number)
unfolding into_remote try_allocate_remote
into_remote-Redeemed limit a number r h = ground (arith, Reachable-IsWithin limit a r)
