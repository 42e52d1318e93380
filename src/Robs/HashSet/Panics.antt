-- ===== src/Robs/HashSet/Panics.antt =====
-- hash_set.rs: the calls that panic.
use remoc.Base.{
  ◌≡◌, refl, ap, ◌∙◌, inl, inr, Bool-cases, if◌then◌else◌, Bool, true, false, Option, none, some,
  List, [], ◌∷◌,
}
use remoc.Robs.HashSet.{
  HashSetEvent, ObservableHashSet, get_equal, taken, as_bool, set_insert, set_replace, set_take,
  set_remove,
}
use remoc.Robs.HashSet.Calls.{
  SetCall, insert_call, replace_call, remove_call, take_call, clear_call, retain_call,
  shrink_to_fit_call, done_call, Sent, effect_of, set_call, with_events, then_calls, set_calls,
}

abbrev is_done_call {ℓ} : {A : Type ℓ} → SetCall A → Bool
is_done_call (insert_call x) = false
is_done_call (replace_call x) = false
is_done_call (remove_call x) = false
is_done_call (take_call x) = false
is_done_call clear_call = false
is_done_call (retain_call f) = false
is_done_call shrink_to_fit_call = false
is_done_call done_call = true

-- Whether a call other than `done` follows a call of `done`; `off` is whether one was made before.
abbrev pub calls_after_done {ℓ} : {A : Type ℓ} → List (SetCall A) → Bool → Bool
calls_after_done [] off = false
calls_after_done (c ∷ cs) off =
    let rest = calls_after_done cs (if is_done_call c then true else off) in
    if is_done_call c then rest else if off then true else rest

abbrev pub is_none {ℓ} : {A : Type ℓ} → Option A → Bool
is_none none = true
is_none (some x) = false

module _ {ℓ} {A : Type ℓ} (eq : A → A → Bool) where
  -- The call does not panic, and afterwards the hash set is done if `b`.
  abbrev Returns : Bool → Option (Sent eq) → Type 0
  Returns b none = ⊥
  Returns b (some (o, events)) = o.is_done ≡ b

  taken-Returns :
      (o : ObservableHashSet A) (x : A) (r : Option A)
      → Returns o.is_done (effect_of eq (taken eq o x r))
  taken-Returns o x none = refl
  taken-Returns o x (some v) = refl

  removed-Returns :
      (o : ObservableHashSet A) (x : A) (r : Option A)
      → Returns o.is_done (effect_of eq (as_bool eq (taken eq o x r)))
  removed-Returns o x none = refl
  removed-Returns o x (some v) = refl

  clear-Returns :
      (hs : List A) → Returns false (set_call eq clear_call (record { hs = hs; is_done = false }))
  clear-Returns [] = refl
  clear-Returns (x ∷ hs) = refl

  set_call-Returns :
      (c : SetCall A) (hs : List A)
      → Returns (is_done_call c) (set_call eq c (record { hs = hs; is_done = false }))
  unfolding set_insert set_replace set_remove set_take
  set_call-Returns (insert_call x) hs = refl
  set_call-Returns (replace_call x) hs = refl
  set_call-Returns (remove_call x) hs =
      removed-Returns (record { hs = hs; is_done = false }) x (get_equal eq x hs)
  set_call-Returns (take_call x) hs =
      taken-Returns (record { hs = hs; is_done = false }) x (get_equal eq x hs)
  set_call-Returns clear_call hs = clear-Returns hs
  set_call-Returns (retain_call f) hs = refl
  set_call-Returns shrink_to_fit_call hs = refl
  set_call-Returns done_call hs = refl

  is_none-with_events :
      (events : List (HashSetEvent A)) (r : Option (Sent eq))
      → is_none (with_events eq events r) ≡ is_none r
  is_none-with_events events none = refl
  is_none-with_events events (some (o, more)) = refl

  is_none-then_calls :
      (cs : List (SetCall A)) (b : Bool) (r : Option (Sent eq))
      → Returns b r
      → ((o : ObservableHashSet A) → is_none (set_calls eq cs o) ≡ calls_after_done cs o.is_done)
      → is_none (then_calls eq r (set_calls eq cs)) ≡ calls_after_done cs b
  is_none-then_calls cs b none h rest = absurd h
  is_none-then_calls cs b (some (o, events)) h rest =
      is_none-with_events events (set_calls eq cs o) ∙ rest o ∙ ap (calls_after_done cs) h

  next_call :
      (c : SetCall A) (cs : List (SetCall A))
      → calls_after_done cs (is_done_call c) ≡ calls_after_done (c ∷ cs) false
  next_call (insert_call x) cs = refl
  next_call (replace_call x) cs = refl
  next_call (remove_call x) cs = refl
  next_call (take_call x) cs = refl
  next_call clear_call cs = refl
  next_call (retain_call f) cs = refl
  next_call shrink_to_fit_call cs = refl
  next_call done_call cs = refl

  panics_when_done :
      (cs : List (SetCall A)) (hs : List A)
      → is_none (set_calls eq cs (record { hs = hs; is_done = true })) ≡ calls_after_done cs true
  unfolding set_insert set_replace set_remove set_take
  panics_when_done [] hs = refl
  panics_when_done (insert_call x ∷ cs) hs = refl
  panics_when_done (replace_call x ∷ cs) hs = refl
  panics_when_done (remove_call x ∷ cs) hs = refl
  panics_when_done (take_call x ∷ cs) hs = refl
  panics_when_done (clear_call ∷ cs) hs = refl
  panics_when_done (retain_call f ∷ cs) hs = refl
  panics_when_done (shrink_to_fit_call ∷ cs) hs = refl
  panics_when_done (done_call ∷ cs) hs =
      is_none-with_events [] (set_calls eq cs (record { hs = hs; is_done = true }))
      ∙ panics_when_done cs hs

  pub is_none-set_calls :
      (cs : List (SetCall A)) (o : ObservableHashSet A)
      → is_none (set_calls eq cs o) ≡ calls_after_done cs o.is_done
  is_none-set_calls [] o = refl
  is_none-set_calls (c ∷ cs) o = elim (Bool-cases o.is_done) [
    | inl e ↦ rw e (panics_when_done (c ∷ cs) o.hs)
    | inr e ↦ rw e (
        is_none-then_calls cs (is_done_call c)
          (set_call eq c (record { hs = o.hs; is_done = false })) (set_call-Returns c o.hs)
          (λ o1. is_none-set_calls cs o1)
        ∙ next_call c cs)
  ]
