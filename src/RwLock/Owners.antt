-- ===== src/RwLock/Owners.antt =====
-- owner.rs: the moves of the owner keep that the copies are its own, and so does every step.
use remoc.Base.{
  ◌≡◌, refl, arith, All, ℕ, suc, ◌&&◌, ◌||◌, not, if◌then◌else◌, Bool, true, false, Option, none,
  some, List, [], ◌∷◌, ◌++◌,
}
use remoc.RwLock.{
  Value, Task, serving, draining, writing, Owner, Fetch, no_fetch, requested, received, ReadLock,
  OwnerMove, write_request, drained, commit, abandon, is_draining, is_writing, any_held,
  has_generation, received_generation, owner_move, new_read_lock,
}
use remoc.RwLock.Steps.{
  Shared, Step, lock_moves, owner_moves, lock_arrives, Steps, here, more, new_shared,
}
use remoc.RwLock.Sound.{
  IsCurrentCache, IsCurrentFetch, IsEmpty, IsReleased, IsSound, IsSoundLock, lock_move-SoundAfter,
}

or_false : (a b c : Bool) → (a || b || c) ≡ false → ((a || b) ≡ false) × (c ≡ false)
or_false true b c e = absurd (ground (arith, e))
or_false false true c e = absurd (ground (arith, e))
or_false false false c e = (refl, e)

and_not : (a b : Bool) → (a && not b) ≡ true → b ≡ false
and_not true b e = ground (arith, e)
and_not false b e = absurd (ground (arith, e))

module _ {ℓ} {A : Type ℓ} where
  all-IsSoundLock :
      (o o' : Owner A) (locks : List (ReadLock A))
      → ((l : ReadLock A) → IsSoundLock o l → IsSoundLock o' l)
      → All (IsSoundLock o) locks
      → All (IsSoundLock o') locks
  all-IsSoundLock o o' [] f h = tt
  all-IsSoundLock o o' (l ∷ locks) f h = (f l h.0, all-IsSoundLock o o' locks f h.1)

  -- Where no copy of the generation is left, a lock holds none.
  drained-IsEmpty :
      (o : Owner A) (cache : Option (Value A)) (fetch : Fetch A)
      → IsCurrentCache o cache
      → IsCurrentFetch o fetch
      → (has_generation cache o.generation || received_generation fetch o.generation) ≡ false
      → IsEmpty cache fetch
  drained-IsEmpty o none no_fetch c f e = tt
  drained-IsEmpty o none requested c f e = tt
  drained-IsEmpty o none (received v) c f e = absurd (ground (arith, e, f.0))
  drained-IsEmpty o (some v) fetch c f e = absurd (ground (arith, e, c.0))

  empty-IsReleased :
      (task : Task) (fetch : Fetch A) → IsEmpty none fetch → IsReleased task none fetch
  empty-IsReleased serving fetch e = tt
  empty-IsReleased draining fetch e = tt
  empty-IsReleased writing fetch e = e

  pub writing-IsEmpty :
      (task : Task) (cache : Option (Value A)) (fetch : Fetch A)
      → IsReleased task cache fetch
      → is_writing task ≡ true
      → IsEmpty cache fetch
  writing-IsEmpty serving cache fetch h e = absurd (ground (arith, e))
  writing-IsEmpty draining cache fetch h e = absurd (ground (arith, e))
  writing-IsEmpty writing cache fetch h e = h

  emptied :
      (o o' : Owner A) (cache : Option (Value A)) (guards : ℕ) (fetch : Fetch A)
      → IsSound o cache guards fetch
      → IsEmpty cache fetch
      → IsSound o' cache guards fetch
  emptied o o' none guards no_fetch h e = (tt, tt, h.2, empty-IsReleased o'.task no_fetch e)
  emptied o o' none guards requested h e = (tt, tt, h.2, empty-IsReleased o'.task requested e)
  emptied o o' none guards (received v) h e = absurd e
  emptied o o' (some v) guards fetch h e = absurd e

  drained-IsSoundLock :
      (o o' : Owner A) (locks : List (ReadLock A))
      → All (IsSoundLock o) locks
      → any_held locks o.generation ≡ false
      → All (IsSoundLock o') locks
  drained-IsSoundLock o o' [] h e = tt
  drained-IsSoundLock o o' (l ∷ locks) h e =
      let split =
        or_false (has_generation l.cache o.generation) (received_generation l.fetch o.generation)
          (any_held locks o.generation) e in
      (
        emptied o o' l.cache l.guards l.fetch h.0
            (drained-IsEmpty o l.cache l.fetch h.0.0 h.0.1 split.0),
        drained-IsSoundLock o o' locks h.1 split.1,
      )

  abbrev SoundOwnerAfter : List (ReadLock A) → Option (Owner A) → Type ℓ
  SoundOwnerAfter locks none = Unit {ℓ}
  SoundOwnerAfter locks (some o) = All (IsSoundLock o) locks

  when_SoundOwnerAfter :
      (locks : List (ReadLock A)) (b : Bool) (o : Owner A)
      → (b ≡ true → All (IsSoundLock o) locks)
      → SoundOwnerAfter locks (if b then some o else none)
  when_SoundOwnerAfter locks true o h = h refl
  when_SoundOwnerAfter locks false o h = tt

  written :
      (o o' : Owner A) (locks : List (ReadLock A))
      → All (IsSoundLock o) locks
      → is_writing o.task ≡ true
      → All (IsSoundLock o') locks
  written o o' locks h e =
      all-IsSoundLock o o' locks
        (λ l k.
          emptied o o' l.cache l.guards l.fetch k (writing-IsEmpty o.task l.cache l.fetch k.3 e))
        h

  owner_move-SoundOwnerAfter :
      (o : Owner A) (locks : List (ReadLock A)) (m : OwnerMove A)
      → All (IsSoundLock o) locks
      → SoundOwnerAfter locks (owner_move o locks m)
  unfolding owner_move
  owner_move-SoundOwnerAfter o locks write_request h =
      when_SoundOwnerAfter locks _ _
        (λ e. all-IsSoundLock o (record o { task = draining }) locks (λ l k. (k.0, k.1, k.2, tt)) h)
  owner_move-SoundOwnerAfter o locks drained h = when_SoundOwnerAfter locks _ _ (λ e.
      drained-IsSoundLock o (record o { task = writing; generation = suc o.generation }) locks h
        (and_not (is_draining o.task) (any_held locks o.generation) e))
  owner_move-SoundOwnerAfter o locks (commit value) h =
      when_SoundOwnerAfter locks _ _
        (λ e. written o (record o { task = serving; value = value }) locks h e)
  owner_move-SoundOwnerAfter o locks abandon h =
      when_SoundOwnerAfter locks _ _ (λ e. written o (record o { task = serving }) locks h e)

  replaced :
      (o : Owner A) (front back : List (ReadLock A)) (l l' : ReadLock A)
      → (IsSoundLock o l → IsSoundLock o l')
      → All (IsSoundLock o) (front ++ (l ∷ back))
      → All (IsSoundLock o) (front ++ (l' ∷ back))
  replaced o [] back l l' f h = (f h.0, h.1)
  replaced o (x ∷ front) back l l' f h = (h.0, replaced o front back l l' f h.1)

  abbrev pub IsSoundShared : Shared A → Type ℓ
  IsSoundShared s = All (IsSoundLock s.owner) s.locks

  new_lock-IsSoundLock : (o : Owner A) → IsSoundLock o new_read_lock
  new_lock-IsSoundLock o = (tt, tt, refl, empty-IsReleased o.task no_fetch tt)

  Step-IsSoundShared : (s s' : Shared A) → Step s s' → IsSoundShared s → IsSoundShared s'
  Step-IsSoundShared s s' (lock_moves o front back l l' m e) h =
      replaced o front back l l' (λ k. rw e at (lock_move-SoundAfter o l m k)) h
  Step-IsSoundShared s s' (owner_moves o o' locks m e) h =
      rw e at (owner_move-SoundOwnerAfter o locks m h)
  Step-IsSoundShared s s' (lock_arrives o locks) h = (new_lock-IsSoundLock o, h)

  pub Steps-IsSoundShared :
      (value : A) (s : Shared A) → Steps (new_shared value) s → IsSoundShared s
  Steps-IsSoundShared value s here = tt
  Steps-IsSoundShared value s (more s1 s2 r st) =
      Step-IsSoundShared s1 s st (Steps-IsSoundShared value s1 r)
