-- ===== src/Ports.antt =====
-- remoc/src/chmux/port_allocator.rs, `PortAllocatorInner` and the port numbers that it hands out.
-- The lock makes each operation one step; waking up waiting tasks has no counterpart. A set of
-- numbers is a list, which an insertion leaves as it is where the number is a member already.
pub mod Search
pub mod Reserve
mod Examples
use remoc.Base.{
  contains, insert, remove, ℕ, zero, suc, ◌+◌, ◌-◌, ◌%◌, ◌^◌, ltb, leb, ◌==◌, ◌&&◌, ◌||◌, not,
  if◌then◌else◌, Bool, true, false, Option, none, some, List, [], ◌∷◌, ◌++◌, length,
}

pub record PortAllocator : Type 0 where
  pub local_used : List ℕ
  pub local_pre_allocated : List ℕ
  pub remote_used : List ℕ
  pub reserved : ℕ
  pub quarantined_set : List ℕ
  pub quarantined_list : List ℕ
  pub limit : ℕ
  pub next : ℕ

abbrev pub new_allocator : ℕ → PortAllocator
new_allocator port_limit = record {
  local_used = [];
  local_pre_allocated = [];
  remote_used = [];
  reserved = 0;
  quarantined_set = [];
  quarantined_list = [];
  limit = port_limit;
  next = 0;
}

abbrev pub pre_allocated_limit : ℕ
pre_allocated_limit = 131_072

abbrev pub is_available : PortAllocator → Bool
is_available a = ltb (length a.local_used + length a.remote_used + a.reserved) a.limit

-- The allocator afterwards with what is returned, a panic, or a loop that has run out of fuel.
pub data Outcome {ℓ} (A : Type ℓ) : Type ℓ where
  done : PortAllocator → A → Outcome A
  panicked : Outcome A
  stuck : Outcome A

unfoldable pub try_allocate_pre_allocated : PortAllocator → ℕ → Outcome (Option ℕ)
try_allocate_pre_allocated a number =
    if is_available a
      && not (contains a.local_used number)
      && not (contains a.quarantined_set number)
    then (if contains a.local_pre_allocated number
        then done
            (record a {
              local_used = insert a.local_used number;
              local_pre_allocated = remove a.local_pre_allocated number;
            })
            (some number)
        else panicked)
    else done a none

-- The loops count up from the number that was given out last.
unfoldable pub search : (ℕ → Bool) → ℕ → ℕ → Option ℕ
search is_free zero next = none
search is_free (suc fuel) next =
    let next' = (next + 1) % 2 ^ 32 in
    let later = search is_free fuel next' in if is_free next' then some next' else later

abbrev pub is_unknown : PortAllocator → ℕ → Bool
is_unknown a number =
    not (contains a.local_used number)
    && not (contains a.local_pre_allocated number)
    && not (contains a.quarantined_set number)

-- One round more than there are numbers that the loop passes over.
abbrev pub search_fuel : PortAllocator → ℕ
search_fuel a = suc (length a.local_used + length a.local_pre_allocated + length a.quarantined_set)

abbrev pub allocate_found : PortAllocator → Option ℕ → Outcome (Option ℕ)
allocate_found a none = stuck
allocate_found a (some number) =
    done (record a { next = number; local_used = insert a.local_used number }) (some number)

unfoldable pub try_allocate_local : PortAllocator → Outcome (Option ℕ)
unfolding search
try_allocate_local a =
    if is_available a
    then allocate_found a
        (search (λ number. is_available a && is_unknown a number) (search_fuel a) a.next)
    else done a none

abbrev pub pre_allocate_found : PortAllocator → Option ℕ → Outcome (Option ℕ)
pre_allocate_found a none = stuck
pre_allocate_found a (some number) =
    done (record a { next = number; local_pre_allocated = insert a.local_pre_allocated number })
      (some number)

unfoldable pub try_pre_allocate_local : PortAllocator → Outcome (Option ℕ)
unfolding search
try_pre_allocate_local a =
    if leb pre_allocated_limit (length a.local_pre_allocated)
    then done a none
    else pre_allocate_found a (search (is_unknown a) (search_fuel a) a.next)

-- `Ok(None)`, `Ok(Some(port))`, and `Err(RemotePortAlreadyAllocated(number))`.
pub data Remote : Type 0 where
  no_port : Remote
  remote_port : ℕ → Remote
  already_allocated : ℕ → Remote

unfoldable pub try_allocate_remote : PortAllocator → ℕ → PortAllocator × Remote
try_allocate_remote a number =
    if is_available a
    then (if contains a.remote_used number
        then (a, already_allocated number)
        else (record a { remote_used = number ∷ a.remote_used }, remote_port number))
    else (a, no_port)

-- With whether a reservation was made.
unfoldable pub try_reserve : PortAllocator → PortAllocator × Bool
try_reserve a =
    if is_available a then (record a { reserved = a.reserved + 1 }, true) else (a, false)

-- `unwrap` of the allocated port.
abbrev pub unwrap_port : Outcome (Option ℕ) → Outcome ℕ
unwrap_port (done a (some number)) = done a number
unwrap_port (done a none) = panicked
unwrap_port panicked = panicked
unwrap_port stuck = stuck

-- `ReservedPort::into_local` and `into_remote`; the subtraction panics at zero.
unfoldable pub into_local : PortAllocator → Outcome ℕ
into_local a =
    if a.reserved == 0
    then panicked
    else unwrap_port (try_allocate_local (record a { reserved = a.reserved - 1 }))

abbrev pub unwrap_remote : PortAllocator × Remote → Outcome Remote
unwrap_remote (a, no_port) = panicked
unwrap_remote (a, remote_port number) = done a (remote_port number)
unwrap_remote (a, already_allocated number) = done a (already_allocated number)

unfoldable pub into_remote : PortAllocator → ℕ → Outcome Remote
into_remote a number =
    if a.reserved == 0
    then panicked
    else unwrap_remote (try_allocate_remote (record a { reserved = a.reserved - 1 }) number)

-- The drop of a reservation that has not been used.
abbrev pub drop_reserved : PortAllocator → Outcome (Unit {0})
drop_reserved a =
    if a.reserved == 0 then panicked else done (record a { reserved = a.reserved - 1 }) tt

-- The loop that ends the oldest quarantines. It recurs on the list, from whose front it takes.
abbrev pub release_quarantined : ℕ → List ℕ → List ℕ → List ℕ × List ℕ
release_quarantined limit [] set = ([], set)
release_quarantined limit (port ∷ list) set =
    let rest = release_quarantined limit list (remove set port) in
    if ltb (limit + 1) (length (port ∷ list)) then rest else (port ∷ list, set)

-- The drops of allocated ports.
abbrev pub drop_local : PortAllocator → ℕ → PortAllocator
drop_local a number =
    let (list, set) =
      release_quarantined a.limit (a.quarantined_list ++ (number ∷ []))
        (insert a.quarantined_set number) in
    record a {
      local_used = remove a.local_used number;
      quarantined_list = list;
      quarantined_set = set;
    }

abbrev pub drop_pre_allocated : PortAllocator → ℕ → PortAllocator
drop_pre_allocated a number = record a { local_pre_allocated = remove a.local_pre_allocated number }

abbrev pub drop_remote : PortAllocator → ℕ → PortAllocator
drop_remote a number = record a { remote_used = remove a.remote_used number }
