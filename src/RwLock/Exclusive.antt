-- ===== src/RwLock/Exclusive.antt =====
-- owner.rs and rw_lock.rs: readers and the writer exclude each other, and readers see the value that
-- the owner has.
use remoc.Base.{◌≡◌, All, ℕ, true, Option, none, some, List, [], ◌∷◌}
use remoc.RwLock.{Value, Owner, Fetch, ReadLock, is_writing}
use remoc.RwLock.Steps.{Shared, Steps, new_shared}
use remoc.RwLock.Sound.{IsCurrentCache, IsBacked, IsEmpty, IsSoundLock}
use remoc.RwLock.Owners.{Steps-IsSoundShared, writing-IsEmpty}

module _ {ℓ} {A : Type ℓ} where
  -- Nobody reads: no lock has a guard, a cached value or an answer on its way.
  abbrev pub IsUnread : ReadLock A → Type 0
  IsUnread l = (l.guards ≡ 0) × IsEmpty l.cache l.fetch

  IsUnread-of :
      (o : Owner A) (l : ReadLock A) → is_writing o.task ≡ true → IsSoundLock o l → IsUnread l
  IsUnread-of o l e h =
      unread l.cache l.guards l.fetch h.2 (writing-IsEmpty o.task l.cache l.fetch h.3 e)
    where
      unread :
          (cache : Option (Value A)) (guards : ℕ) (fetch : Fetch A)
          → IsBacked cache guards
          → IsEmpty cache fetch
          → (guards ≡ 0) × IsEmpty cache fetch
      unread none guards fetch b x = (b, x)
      unread (some v) guards fetch b x = absurd x

  all-IsUnread :
      (o : Owner A) (locks : List (ReadLock A))
      → is_writing o.task ≡ true
      → All (IsSoundLock o) locks
      → All IsUnread locks
  all-IsUnread o [] e h = tt
  all-IsUnread o (l ∷ locks) e h = (IsUnread-of o l e h.0, all-IsUnread o locks e h.1)

  -- From a new owner, in every state that is reached by moves of the owner and of any number of read
  -- locks, each with its cache, whenever their messages arrive: while a writer has the value, no lock
  -- has a read guard, a cached copy, or a copy on its way.
  pub Steps-IsUnread :
      (value : A) (s : Shared A)
      → Steps (new_shared value) s
      → is_writing s.owner.task ≡ true
      → All IsUnread s.locks
  Steps-IsUnread value s r e = all-IsUnread s.owner s.locks e (Steps-IsSoundShared value s r)

  -- What the guards of a lock read: the copy in its cache is that of the owner.
  abbrev pub IsReading : A → Option (Value A) → ℕ → Type ℓ
  IsReading value none guards = (guards ≡ 0) × Unit {ℓ}
  IsReading value (some v) guards = v.value ≡ value

  abbrev pub IsUpToDate : A → ReadLock A → Type ℓ
  IsUpToDate value l = IsReading value l.cache l.guards

  all-IsUpToDate :
      (o : Owner A) (locks : List (ReadLock A))
      → All (IsSoundLock o) locks
      → All (IsUpToDate o.value) locks
  all-IsUpToDate o [] h = tt
  all-IsUpToDate o (l ∷ locks) h =
      (reading l.cache l.guards h.0.0 h.0.2, all-IsUpToDate o locks h.1)
    where
      reading :
          (cache : Option (Value A)) (guards : ℕ)
          → IsCurrentCache o cache
          → IsBacked cache guards
          → IsReading o.value cache guards
      reading none guards c b = (b, tt)
      reading (some v) guards c b = c.1

  -- In every such state, each read guard there is reads the value that the owner has, which is the one
  -- that was committed last: a lock has no guards, or a cached copy of that value.
  pub Steps-IsUpToDate :
      (value : A) (s : Shared A)
      → Steps (new_shared value) s
      → All (IsUpToDate s.owner.value) s.locks
  Steps-IsUpToDate value s r = all-IsUpToDate s.owner s.locks (Steps-IsSoundShared value s r)
