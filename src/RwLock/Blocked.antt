-- ===== src/RwLock/Blocked.antt =====
-- rw_lock.rs, `fetch`: a call that finds its cached value invalid keeps the value in the cache while it
-- waits for the owner, and the owner waits for the drop of that value.
use remoc.Base.{
  ◌≡◌, refl, arith, inl, inr, Bool-cases, ℕ, ◌-◌, ◌==◌, ◌&&◌, ◌||◌, if◌then◌else◌, Bool, true,
  false, Option, none, some, List, [], ◌∷◌, ◌++◌,
}
use remoc.RwLock.{
  Value, draining, Owner, Fetch, no_fetch, requested, received, ReadLock, LockMove, hit,
  begin_fetch, serve, take_value, cancel, drop_guard, see_invalid, evict, OwnerMove, write_request,
  drained, commit, abandon, any_held, has_generation, received_generation, is_invalidated,
  lock_move, owner_move, seen_by,
}
use remoc.RwLock.Steps.{Shared, Step, lock_moves, owner_moves, lock_arrives, Steps, here, more}

or_right : (a b : Bool) → b ≡ true → (a || b) ≡ true
or_right true b h = refl
or_right false b h = h

not_here : (a b c : Bool) → b ≡ false → (a && b || c) ≡ true → c ≡ true
not_here true b c e h = rw e at h
not_here false b c e h = h

neither : (a b : Bool) → (a || b) ≡ false → (a ≡ false) × (b ≡ false)
neither true b h = absurd (ground (arith, h))
neither false b h = (refl, h)

abbrev is_cancel : LockMove → Bool
is_cancel hit = false
is_cancel begin_fetch = false
is_cancel serve = false
is_cancel take_value = false
is_cancel cancel = true
is_cancel drop_guard = false
is_cancel see_invalid = false
is_cancel evict = false

module _ {ℓ} {A : Type ℓ} where
  -- A call of `fetch` is cancelled in one of the steps.
  abbrev pub step_cancels : (s s' : Shared A) → Step s s' → Bool
  step_cancels s s' (lock_moves o front back l l' m e) = is_cancel m
  step_cancels s s' (owner_moves o o' locks m e) = false
  step_cancels s s' (lock_arrives o locks) = false

  abbrev pub any_cancels : (s s' : Shared A) → Steps s s' → Bool
  any_cancels s s' here = false
  any_cancels s s' (more s1 s2 r st) = step_cancels s1 s' st || any_cancels s s1 r

  -- The call waits for an answer, and its lock has a copy of the generation in the cache.
  abbrev pub is_requested : Fetch A → Bool
  is_requested no_fetch = false
  is_requested requested = true
  is_requested (received v) = false

  abbrev pub keeps_copy : ℕ → ReadLock A → Bool
  keeps_copy generation l = is_requested l.fetch && has_generation l.cache generation

  abbrev pub any_keeps : ℕ → List (ReadLock A) → Bool
  any_keeps generation [] = false
  any_keeps generation (l ∷ locks) = keeps_copy generation l || any_keeps generation locks

  -- The owner waits for the drop of the copies, and a call keeps one.
  abbrev pub IsBlocked : Shared A → Type 0
  IsBlocked s = (s.owner.task ≡ draining) × (any_keeps s.owner.generation s.locks ≡ true)

  abbrev KeepsAfter : ℕ → Option (ReadLock A) → Type 0
  KeepsAfter generation none = Unit {0}
  KeepsAfter generation (some l) = keeps_copy generation l ≡ true

  requested_of : (fetch : Fetch A) (b : Bool) → (is_requested fetch && b) ≡ true → fetch ≡ requested
  requested_of no_fetch b e = absurd (ground (arith, e))
  requested_of requested b e = refl
  requested_of (received v) b e = absurd (ground (arith, e))

  see-KeepsAfter :
      (o : Owner A) (l : ReadLock A) (cache : Option (Value A))
      → keeps_copy o.generation l ≡ true
      → KeepsAfter o.generation (seen_by o l cache)
  see-KeepsAfter o l none h = tt
  see-KeepsAfter o l (some v) h = elim (Bool-cases (is_invalidated o v)) [
    | inl e ↦ rw e h
    | inr e ↦ rw e tt
  ]

  drop-KeepsAfter :
      (generation : ℕ) (l : ReadLock A)
      → keeps_copy generation l ≡ true
      → KeepsAfter generation
          (if l.guards == 0 then none else some (record l { guards = l.guards - 1 }))
  drop-KeepsAfter generation l h = elim (Bool-cases (l.guards == 0)) [
    | inl e ↦ rw e tt
    | inr e ↦ rw e h
  ]

  lock_move-KeepsAfter :
      (o : Owner A) (l : ReadLock A) (m : LockMove)
      → o.task ≡ draining
      → is_cancel m ≡ false
      → keeps_copy o.generation l ≡ true
      → KeepsAfter o.generation (lock_move o l m)
  unfolding lock_move
  lock_move-KeepsAfter o l hit t c h =
      let f = requested_of l.fetch (has_generation l.cache o.generation) h in simp f tt
  lock_move-KeepsAfter o l begin_fetch t c h =
      let f = requested_of l.fetch (has_generation l.cache o.generation) h in simp f tt
  lock_move-KeepsAfter o l serve t c h =
      let f = requested_of l.fetch (has_generation l.cache o.generation) h in simp (f, t) tt
  lock_move-KeepsAfter o l take_value t c h =
      let f = requested_of l.fetch (has_generation l.cache o.generation) h in simp f tt
  lock_move-KeepsAfter o l cancel t c h = absurd (ground (arith, c))
  lock_move-KeepsAfter o l drop_guard t c h = drop-KeepsAfter o.generation l h
  lock_move-KeepsAfter o l see_invalid t c h = see-KeepsAfter o l l.cache h
  lock_move-KeepsAfter o l evict t c h =
      let f = requested_of l.fetch (has_generation l.cache o.generation) h in simp f tt

  replaced-any_keeps :
      (generation : ℕ) (front back : List (ReadLock A)) (l l' : ReadLock A)
      → (keeps_copy generation l ≡ true → keeps_copy generation l' ≡ true)
      → any_keeps generation (front ++ (l ∷ back)) ≡ true
      → any_keeps generation (front ++ (l' ∷ back)) ≡ true
  replaced-any_keeps generation [] back l l' f h = elim (Bool-cases (keeps_copy generation l)) [
    | inl e ↦ rw (f e) refl
    | inr e ↦ or_right (keeps_copy generation l') (any_keeps generation back) (rw e at h)
  ]
  replaced-any_keeps generation (x ∷ front) back l l' f h =
      elim (Bool-cases (keeps_copy generation x)) [
        | inl e ↦ rw e refl
        | inr e ↦
            or_right (keeps_copy generation x) (any_keeps generation (front ++ (l' ∷ back)))
              (replaced-any_keeps generation front back l l' f (rw e at h))
      ]

  any_keeps-any_held :
      (generation : ℕ) (locks : List (ReadLock A))
      → any_keeps generation locks ≡ true
      → any_held locks generation ≡ true
  any_keeps-any_held generation [] h = h
  any_keeps-any_held generation (l ∷ locks) h =
      elim (Bool-cases (has_generation l.cache generation)) [
        | inl e ↦ rw e refl
        | inr e ↦
            or_right (has_generation l.cache generation || received_generation l.fetch generation)
              (any_held locks generation)
              (any_keeps-any_held generation locks (
                not_here (is_requested l.fetch) (has_generation l.cache generation)
                  (any_keeps generation locks) e h))
      ]

  abbrev StaysAfter : Owner A → Option (Owner A) → Type ℓ
  StaysAfter o none = Unit {ℓ}
  StaysAfter o (some o') = o' ≡ o

  owner_move-StaysAfter :
      (o : Owner A) (locks : List (ReadLock A)) (m : OwnerMove A)
      → o.task ≡ draining
      → any_held locks o.generation ≡ true
      → StaysAfter o (owner_move o locks m)
  unfolding owner_move
  owner_move-StaysAfter o locks write_request t h = simp t tt
  owner_move-StaysAfter o locks drained t h = simp (t, h) tt
  owner_move-StaysAfter o locks (commit value) t h = simp t tt
  owner_move-StaysAfter o locks abandon t h = simp t tt

  Step-IsBlocked :
      (s s' : Shared A) (st : Step s s') → step_cancels s s' st ≡ false → IsBlocked s → IsBlocked s'
  Step-IsBlocked s s' (lock_moves o front back l l' m e) c h = (
    h.0,
    replaced-any_keeps o.generation front back l l'
        (λ k. rw e at (lock_move-KeepsAfter o l m h.0 c k)) h.1,
  )
  Step-IsBlocked s s' (owner_moves o o' locks m e) c h =
      let same : o' ≡ o =
        rw e at (owner_move-StaysAfter o locks m h.0 (any_keeps-any_held o.generation locks h.1)) in
      rw same h
  Step-IsBlocked s s' (lock_arrives o locks) c h = h

  -- Where the owner waits for the drop of all copies for a writer, and a call of `fetch` that found
  -- the copy in its cache invalid waits for the owner with that copy still in the cache: in every
  -- state that follows by moves of the owner and the locks, as long as no call of `fetch` is
  -- cancelled, it is still so, so that the owner waits and has not given the value to the writer.
  pub Steps-IsBlocked :
      (s s' : Shared A) (r : Steps s s') → IsBlocked s → any_cancels s s' r ≡ false → IsBlocked s'
  Steps-IsBlocked s s' here h c = h
  Steps-IsBlocked s s' (more s1 s2 r st) h c =
      let split = neither (step_cancels s1 s' st) (any_cancels s s1 r) c in
      Step-IsBlocked s1 s' st split.0 (Steps-IsBlocked s s1 r h split.1)
