-- ===== src/RwLock/Steps.antt =====
-- owner.rs and rw_lock.rs: the owner with the read locks there are, and what can happen next.
use remoc.Base.{◌≡◌, some, List, [], ◌∷◌, ◌++◌}
use remoc.RwLock.{
  Owner, ReadLock, LockMove, OwnerMove, lock_move, owner_move, new_owner, new_read_lock,
}

pub record Shared {ℓ} (A : Type ℓ) : Type ℓ where
  pub owner : Owner A
  pub locks : List (ReadLock A)

-- One of the locks moves, or the owner, or a lock arrives at another place, with a cache of its own.
pub data Step {ℓ} {A : Type ℓ} : Shared A → Shared A → Type ℓ where
  lock_moves :
      (o : Owner A) (front back : List (ReadLock A)) (l l' : ReadLock A) (m : LockMove)
      → lock_move o l m ≡ some l'
      → Step
          (record { owner = o; locks = front ++ (l ∷ back) })
          (record { owner = o; locks = front ++ (l' ∷ back) })
  owner_moves :
      (o o' : Owner A) (locks : List (ReadLock A)) (m : OwnerMove A)
      → owner_move o locks m ≡ some o'
      → Step (record { owner = o; locks = locks }) (record { owner = o'; locks = locks })
  lock_arrives :
      (o : Owner A) (locks : List (ReadLock A))
      → Step
          (record { owner = o; locks = locks })
          (record { owner = o; locks = new_read_lock ∷ locks })

pub data Steps {ℓ} {A : Type ℓ} (start : Shared A) : Shared A → Type ℓ where
  here : Steps start start
  more : (s s' : Shared A) → Steps start s → Step s s' → Steps start s'

abbrev pub new_shared {ℓ} : {A : Type ℓ} → A → Shared A
new_shared value = record { owner = new_owner value; locks = [] }
