-- ===== src/RwLock/Examples.antt =====
-- owner.rs and rw_lock.rs: the theorems about the lock at concrete inputs.
use remoc.Base.{refl, All, ℕ, Option, none, some, List, [], ◌∷◌}
use remoc.RwLock.{
  Owner, ReadLock, LockMove, begin_fetch, serve, take_value, drop_guard, see_invalid, evict,
  write_request, drained, lock_move, owner_move, draining, new_owner, new_read_lock,
}
use remoc.RwLock.Steps.{
  Shared, lock_moves, owner_moves, lock_arrives, Steps, here, more, new_shared,
}
use remoc.RwLock.Exclusive.{IsUnread, IsUpToDate, Steps-IsUnread, Steps-IsUpToDate}
use remoc.RwLock.Blocked.{IsBlocked, Steps-IsBlocked}

abbrev or_same {ℓ} : {A : Type ℓ} → A → Option A → A
or_same before none = before
or_same before (some after) = after

-- Moves of the only lock.
abbrev lock_after : Owner ℕ → List LockMove → ReadLock ℕ → ReadLock ℕ
lock_after o [] l = l
lock_after o (m ∷ ms) l = lock_after o ms (or_same l (lock_move o l m))

abbrev owner : Owner ℕ
owner = new_owner 5

abbrev lent : ReadLock ℕ
lent = lock_after owner (begin_fetch ∷ serve ∷ take_value ∷ []) new_read_lock

abbrev one_lock : Owner ℕ → ReadLock ℕ → Shared ℕ
one_lock o l = record { owner = o; locks = l ∷ [] }

lent-Steps : Steps (new_shared 5) (one_lock owner lent)
unfolding lock_move
lent-Steps =
    more _ _
      (more _ _
        (more _ _ (more _ _ here (lock_arrives owner []))
          (lock_moves owner [] [] _ _ begin_fetch refl))
        (lock_moves owner [] [] _ _ serve refl))
      (lock_moves owner [] [] _ _ take_value refl)

Steps-IsUpToDate_example : All (IsUpToDate 5) (lent ∷ [])
unfolding lock_move
Steps-IsUpToDate_example = Steps-IsUpToDate 5 (one_lock owner lent) lent-Steps

-- A writer asks while the copy is cached without guards; the lock sees that the copy is invalid.
abbrev asked_owner : Owner ℕ
asked_owner = record owner { task = draining }

abbrev stale : ReadLock ℕ
stale = lock_after asked_owner (see_invalid ∷ []) (lock_after owner (drop_guard ∷ []) lent)

stale-Steps : Steps (new_shared 5) (one_lock asked_owner stale)
unfolding lock_move owner_move
stale-Steps =
    more _ _
      (more _ _ (more _ _ lent-Steps (lock_moves owner [] [] _ _ drop_guard refl))
        (owner_moves owner _ _ write_request refl))
      (lock_moves asked_owner [] [] _ _ see_invalid refl)

-- The monitor removes the copy and the writer gets the value.
abbrev writer : Owner ℕ
writer =
    or_same owner (owner_move asked_owner (lock_after asked_owner (evict ∷ []) stale ∷ []) drained)

written-Steps : Steps (new_shared 5) (one_lock writer (lock_after asked_owner (evict ∷ []) stale))
unfolding lock_move owner_move
written-Steps =
    more _ _ (more _ _ stale-Steps (lock_moves asked_owner [] [] _ _ evict refl))
      (owner_moves asked_owner _ _ drained refl)

Steps-IsUnread_example : All IsUnread (lock_after asked_owner (evict ∷ []) stale ∷ [])
unfolding lock_move owner_move
Steps-IsUnread_example =
    Steps-IsUnread 5 (one_lock writer (lock_after asked_owner (evict ∷ []) stale)) written-Steps
      refl

-- A call reads first, before the monitor, and the owner waits from then on.
abbrev blocked : Shared ℕ
blocked = one_lock asked_owner (lock_after asked_owner (begin_fetch ∷ []) stale)

blocked-Steps : Steps (new_shared 5) blocked
unfolding lock_move owner_move
blocked-Steps = more _ _ stale-Steps (lock_moves asked_owner [] [] _ _ begin_fetch refl)

Steps-IsBlocked_example :
    IsBlocked (record { owner = asked_owner; locks = new_read_lock ∷ blocked.locks })
unfolding lock_move owner_move
Steps-IsBlocked_example =
    Steps-IsBlocked blocked (record { owner = asked_owner; locks = new_read_lock ∷ blocked.locks })
      (more _ _ here (lock_arrives asked_owner blocked.locks)) (refl, refl) refl
