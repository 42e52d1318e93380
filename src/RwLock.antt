-- ===== src/RwLock.antt =====
-- remoc/src/robj/rw_lock (owner.rs, msg.rs and rw_lock.rs): a value that its owner lends to readers,
-- who keep it in caches, and to one writer at a time.
pub mod Steps
mod Sound
mod Owners
pub mod Exclusive
pub mod Blocked
mod Examples
use remoc.Base.{
  ℕ, suc, ◌+◌, ◌-◌, ◌==◌, ◌&&◌, ◌||◌, not, if◌then◌else◌, Bool, true, false, Option, none, some,
  List, [], ◌∷◌,
}

-- A copy of the value. `dropped_tx` and `invalid_rx` belong to a pair of channels that the owner makes
-- anew for each write, so that they are the number of that pair.
pub record Value {ℓ} (A : Type ℓ) : Type ℓ where
  pub value : A
  pub generation : ℕ

-- The handler of requests: it takes the next one, waits for the drop of all copies after it has
-- declared them invalid, or waits for the new value of the writer.
pub data Task : Type 0 where
  serving : Task
  draining : Task
  writing : Task

pub record Owner {ℓ} (A : Type ℓ) : Type ℓ where
  pub value : A
  pub generation : ℕ
  pub task : Task

-- A call of `fetch` that has the write lock of the cache: its request is with the owner, or the
-- answer has been sent.
pub data Fetch {ℓ} (A : Type ℓ) : Type ℓ where
  no_fetch : Fetch A
  requested : Fetch A
  received : Value A → Fetch A

-- A `ReadLock` with its clones, which share the cache. `guards` counts the read guards, and
-- `invalid_seen` says whether `is_valid` of the cached value has become false here.
pub record ReadLock {ℓ} (A : Type ℓ) : Type ℓ where
  pub cache : Option (Value A)
  pub invalid_seen : Bool
  pub guards : ℕ
  pub fetch : Fetch A

abbrev pub new_owner {ℓ} : {A : Type ℓ} → A → Owner A
new_owner value = record { value = value; generation = 0; task = serving }

abbrev pub new_read_lock {ℓ} : {A : Type ℓ} → ReadLock A
new_read_lock = record { cache = none; invalid_seen = false; guards = 0; fetch = no_fetch }

-- What happens at a read lock. `read` finds a value that is valid, or takes the write lock of the
-- cache, whose value stays there, and asks the owner; the owner answers; the answer is taken; the call
-- is cancelled, by which the write lock is released and an answer is dropped; a guard is dropped; it is
-- seen that the cached value is invalid; and the task that monitors it removes it.
pub data LockMove : Type 0 where
  hit : LockMove
  begin_fetch : LockMove
  serve : LockMove
  take_value : LockMove
  cancel : LockMove
  drop_guard : LockMove
  see_invalid : LockMove
  evict : LockMove

-- What happens at the owner: a write request, the drop of the last copy, and the writer's new value
-- or the drop of its guard.
pub data OwnerMove {ℓ} (A : Type ℓ) : Type ℓ where
  write_request : OwnerMove A
  drained : OwnerMove A
  commit : A → OwnerMove A
  abandon : OwnerMove A

abbrev pub is_serving : Task → Bool
is_serving serving = true
is_serving draining = false
is_serving writing = false

abbrev pub is_draining : Task → Bool
is_draining serving = false
is_draining draining = true
is_draining writing = false

abbrev pub is_writing : Task → Bool
is_writing serving = false
is_writing draining = false
is_writing writing = true

module _ {ℓ} {A : Type ℓ} where
  -- `is_valid` of what is in the cache, as it is seen there.
  abbrev pub is_valid : Option (Value A) → Bool → Bool
  is_valid none invalid_seen = false
  is_valid (some v) invalid_seen = not invalid_seen

  abbrev pub is_idle : Fetch A → Bool
  is_idle no_fetch = true
  is_idle requested = false
  is_idle (received v) = false

  -- A copy of one generation is somewhere at a read lock.
  abbrev pub has_generation : Option (Value A) → ℕ → Bool
  has_generation none generation = false
  has_generation (some v) generation = v.generation == generation

  abbrev pub received_generation : Fetch A → ℕ → Bool
  received_generation no_fetch generation = false
  received_generation requested generation = false
  received_generation (received v) generation = v.generation == generation

  -- The sender `dropped_tx` of the generation has a clone left.
  abbrev pub any_held : List (ReadLock A) → ℕ → Bool
  any_held [] generation = false
  any_held (l ∷ locks) generation =
      has_generation l.cache generation
      || received_generation l.fetch generation
      || any_held locks generation

  -- The owner has sent that a generation is invalid, or has dropped its channels.
  abbrev pub is_invalidated : Owner A → Value A → Bool
  is_invalidated o v = not (v.generation == o.generation) || not (is_serving o.task)

  abbrev pub serve_fetch : Owner A → ReadLock A → Fetch A → Option (ReadLock A)
  serve_fetch o l no_fetch = none
  serve_fetch o l requested =
      if is_serving o.task
      then some
          (record l { fetch = received (record { value = o.value; generation = o.generation }) })
      else none
  serve_fetch o l (received v) = none

  abbrev pub store_fetched : ReadLock A → Fetch A → Option (ReadLock A)
  store_fetched l no_fetch = none
  store_fetched l requested = none
  store_fetched l (received v) =
      some (record { cache = some v; invalid_seen = false; guards = 1; fetch = no_fetch })

  abbrev pub seen_by : Owner A → ReadLock A → Option (Value A) → Option (ReadLock A)
  seen_by o l none = none
  seen_by o l (some v) =
      if is_invalidated o v then some (record l { invalid_seen = true }) else none

  -- Nothing is a move that is not possible.
  unfoldable pub lock_move : Owner A → ReadLock A → LockMove → Option (ReadLock A)
  lock_move o l hit =
      if is_idle l.fetch && is_valid l.cache l.invalid_seen
      then some (record l { guards = l.guards + 1 })
      else none
  lock_move o l begin_fetch =
      if is_idle l.fetch && (l.guards == 0) then some (record l { fetch = requested }) else none
  lock_move o l serve = serve_fetch o l l.fetch
  lock_move o l take_value = store_fetched l l.fetch
  lock_move o l cancel = if is_idle l.fetch then none else some (record l { fetch = no_fetch })
  lock_move o l drop_guard =
      if l.guards == 0 then none else some (record l { guards = l.guards - 1 })
  lock_move o l see_invalid = seen_by o l l.cache
  lock_move o l evict =
      if is_idle l.fetch && l.invalid_seen && (l.guards == 0)
      then some (record l { cache = none })
      else none

  unfoldable pub owner_move : Owner A → List (ReadLock A) → OwnerMove A → Option (Owner A)
  owner_move o locks write_request =
      if is_serving o.task then some (record o { task = draining }) else none
  owner_move o locks drained =
      if is_draining o.task && not (any_held locks o.generation)
      then some (record o { task = writing; generation = suc o.generation })
      else none
  owner_move o locks (commit value) =
      if is_writing o.task then some (record o { task = serving; value = value }) else none
  owner_move o locks abandon =
      if is_writing o.task then some (record o { task = serving }) else none
