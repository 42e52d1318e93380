-- ===== src/RwLock/Sound.antt =====
-- rw_lock.rs: the copies at a read lock are those of the owner, and a move of the lock keeps that.
use remoc.Base.{
  ◌≡◌, refl, arith, inl, inr, Bool-cases, ℕ, ◌+◌, ◌-◌, ◌==◌, ◌&&◌, if◌then◌else◌, Bool, true, false,
  Option, none, some,
}
use remoc.RwLock.{
  Value, Task, serving, draining, writing, Owner, Fetch, no_fetch, requested, received, ReadLock,
  LockMove, hit, begin_fetch, serve, take_value, cancel, drop_guard, see_invalid, evict, is_serving,
  is_valid, is_idle, is_invalidated, lock_move, serve_fetch, store_fetched, seen_by,
}

module _ {ℓ} {A : Type ℓ} where
  abbrev pub IsCurrent : Owner A → Value A → Type ℓ
  IsCurrent o v = (v.generation ≡ o.generation) × (v.value ≡ o.value)

  abbrev pub IsCurrentCache : Owner A → Option (Value A) → Type ℓ
  IsCurrentCache o none = Unit {ℓ}
  IsCurrentCache o (some v) = IsCurrent o v

  abbrev pub IsCurrentFetch : Owner A → Fetch A → Type ℓ
  IsCurrentFetch o no_fetch = Unit {ℓ}
  IsCurrentFetch o requested = Unit {ℓ}
  IsCurrentFetch o (received v) = IsCurrent o v

  -- Guards are of a cached value, and while the writer has the value nothing is held.
  abbrev pub IsBacked : Option (Value A) → ℕ → Type 0
  IsBacked none guards = guards ≡ 0
  IsBacked (some v) guards = Unit {0}

  abbrev pub IsEmpty : Option (Value A) → Fetch A → Type 0
  IsEmpty none no_fetch = Unit {0}
  IsEmpty none requested = Unit {0}
  IsEmpty none (received v) = ⊥
  IsEmpty (some v) fetch = ⊥

  abbrev pub IsReleased : Task → Option (Value A) → Fetch A → Type 0
  IsReleased serving cache fetch = Unit {0}
  IsReleased draining cache fetch = Unit {0}
  IsReleased writing cache fetch = IsEmpty cache fetch

  abbrev pub IsSound : Owner A → Option (Value A) → ℕ → Fetch A → Type ℓ
  IsSound o cache guards fetch =
      IsCurrentCache o cache
      × IsCurrentFetch o fetch
      × IsBacked cache guards
      × IsReleased o.task cache fetch

  abbrev pub IsSoundLock : Owner A → ReadLock A → Type ℓ
  IsSoundLock o l = IsSound o l.cache l.guards l.fetch

  abbrev pub SoundAfter : Owner A → Option (ReadLock A) → Type ℓ
  SoundAfter o none = Unit {ℓ}
  SoundAfter o (some l) = IsSoundLock o l

  when_SoundAfter :
      (o : Owner A) (b : Bool) (l : ReadLock A)
      → (b ≡ true → IsSoundLock o l)
      → SoundAfter o (if b then some l else none)
  when_SoundAfter o true l h = h refl
  when_SoundAfter o false l h = tt

  hit-IsBacked :
      (cache : Option (Value A)) (idle seen : Bool) (guards : ℕ)
      → (idle && is_valid cache seen) ≡ true
      → IsBacked cache (guards + 1)
  hit-IsBacked none true seen guards e = absurd (ground (arith, e))
  hit-IsBacked none false seen guards e = absurd (ground (arith, e))
  hit-IsBacked (some v) idle seen guards e = tt

  requested-IsReleased :
      (task : Task) (cache : Option (Value A)) (fetch : Fetch A)
      → IsReleased task cache fetch
      → IsReleased task cache requested
  requested-IsReleased serving cache fetch h = tt
  requested-IsReleased draining cache fetch h = tt
  requested-IsReleased writing none fetch h = tt
  requested-IsReleased writing (some v) fetch h = h

  cancelled-IsReleased :
      (task : Task) (cache : Option (Value A)) (fetch : Fetch A)
      → IsReleased task cache fetch
      → IsReleased task cache no_fetch
  cancelled-IsReleased serving cache fetch h = tt
  cancelled-IsReleased draining cache fetch h = tt
  cancelled-IsReleased writing none fetch h = tt
  cancelled-IsReleased writing (some v) fetch h = h

  evicted-IsReleased :
      (task : Task) (cache : Option (Value A)) (fetch : Fetch A)
      → IsReleased task cache fetch
      → IsReleased task none fetch
  evicted-IsReleased serving cache fetch h = tt
  evicted-IsReleased draining cache fetch h = tt
  evicted-IsReleased writing none fetch h = h
  evicted-IsReleased writing (some v) fetch h = absurd h

  serving-IsReleased :
      (task : Task) (cache : Option (Value A)) (fetch : Fetch A)
      → is_serving task ≡ true
      → IsReleased task cache fetch
  serving-IsReleased serving cache fetch e = tt
  serving-IsReleased draining cache fetch e = tt
  serving-IsReleased writing cache fetch e = absurd (ground (arith, e))

  received-IsReleased :
      (task : Task) (v w : Value A) (cache : Option (Value A))
      → IsReleased task cache (received v)
      → IsReleased task (some w) no_fetch
  received-IsReleased serving v w cache h = tt
  received-IsReleased draining v w cache h = tt
  received-IsReleased writing v w none h = h
  received-IsReleased writing v w (some u) h = h

  fewer-IsBacked :
      (cache : Option (Value A)) (guards : ℕ) → IsBacked cache guards → IsBacked cache (guards - 1)
  fewer-IsBacked none guards h = omega (arith, h)
  fewer-IsBacked (some v) guards h = tt

  serve-SoundAfter :
      (o : Owner A) (l : ReadLock A) (fetch : Fetch A)
      → IsSoundLock o l
      → SoundAfter o (serve_fetch o l fetch)
  serve-SoundAfter o l no_fetch h = tt
  serve-SoundAfter o l requested h =
      when_SoundAfter o (is_serving o.task) _
        (λ e. (h.0, (refl, refl), h.2, serving-IsReleased o.task l.cache _ e))
  serve-SoundAfter o l (received v) h = tt

  take-SoundAfter :
      (o : Owner A) (l : ReadLock A) (fetch : Fetch A)
      → IsSound o l.cache l.guards fetch
      → SoundAfter o (store_fetched l fetch)
  take-SoundAfter o l no_fetch h = tt
  take-SoundAfter o l requested h = tt
  take-SoundAfter o l (received v) h = (h.1, tt, tt, received-IsReleased o.task v v l.cache h.3)

  see-SoundAfter :
      (o : Owner A) (l : ReadLock A) (cache : Option (Value A))
      → IsSoundLock o l
      → SoundAfter o (seen_by o l cache)
  see-SoundAfter o l none h = tt
  see-SoundAfter o l (some v) h = when_SoundAfter o (is_invalidated o v) _ (λ e. h)

  pub lock_move-SoundAfter :
      (o : Owner A) (l : ReadLock A) (m : LockMove)
      → IsSoundLock o l
      → SoundAfter o (lock_move o l m)
  unfolding lock_move
  lock_move-SoundAfter o l hit h =
      when_SoundAfter o (is_idle l.fetch && is_valid l.cache l.invalid_seen) _
        (λ e. (h.0, h.1, hit-IsBacked l.cache (is_idle l.fetch) l.invalid_seen l.guards e, h.3))
  lock_move-SoundAfter o l begin_fetch h =
      when_SoundAfter o _ _ (λ e. (h.0, tt, h.2, requested-IsReleased o.task l.cache l.fetch h.3))
  lock_move-SoundAfter o l serve h = serve-SoundAfter o l l.fetch h
  lock_move-SoundAfter o l take_value h = take-SoundAfter o l l.fetch h
  lock_move-SoundAfter o l cancel h = elim (Bool-cases (is_idle l.fetch)) [
    | inl e ↦ rw e tt
    | inr e ↦ rw e (h.0, tt, h.2, cancelled-IsReleased o.task l.cache l.fetch h.3)
  ]
  lock_move-SoundAfter o l drop_guard h = elim (Bool-cases (l.guards == 0)) [
    | inl e ↦ rw e tt
    | inr e ↦ rw e (h.0, h.1, fewer-IsBacked l.cache l.guards h.2, h.3)
  ]
  lock_move-SoundAfter o l see_invalid h = see-SoundAfter o l l.cache h
  lock_move-SoundAfter o l evict h =
      when_SoundAfter o _ _
        (λ e. (tt, h.1, ground (arith, e), evicted-IsReleased o.task l.cache l.fetch h.3))
