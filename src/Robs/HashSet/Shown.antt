-- ===== src/Robs/HashSet/Shown.antt =====
-- hash_set.rs: the events of one call bring the mirror along.
use remoc.Base.{
  ◌≡◌, refl, ◌∙◌, ℕ, inl, inr, ltb, length, Bool-cases, if◌then◌else◌, Bool, true, false, not,
  Option, none, some, List, [], ◌∷◌, map,
}
use remoc.Robs.Subscription.{RecvError, max_size_exceeded}
use remoc.Robs.HashSet.{
  HashSetEvent, set_event, remove_event, clear_event, shrink_to_fit_event, ObservableHashSet,
  SetChange, set_changed, set_panicked, MirroredHashSet, kept, get_equal, insert_new, replace_equal,
  remove_equal, set_insert, set_replace, taken, set_take, as_bool, set_remove, handle_set_event,
  handle_set_events,
}
use remoc.Robs.HashSet.Alike.{
  IsEquality, AreAlike, AreDistinct, insert_new-AreAlike, replace_equal-AreAlike,
  remove_equal-AreAlike, get_equal-eq,
}
use remoc.Robs.HashSet.Distinct.{
  insert_new-AreDistinct, replace_equal-AreDistinct, remove_equal-AreDistinct, kept-AreDistinct,
  remove_all, kept-AreAlike,
}
use remoc.Robs.HashSet.Calls.{
  SetCall, insert_call, replace_call, remove_call, take_call, clear_call, retain_call,
  shrink_to_fit_call, done_call, Sent, effect_of, set_call,
}

pub if_false {ℓ} : {A : Type ℓ} (b : Bool) (x y : A) → b ≡ false → (if b then x else y) ≡ y
if_false b x y e = rw e refl

pub if_true {ℓ} : {A : Type ℓ} (b : Bool) (x y : A) → b ≡ true → (if b then x else y) ≡ x
if_true b x y e = rw e refl

pub same_if {ℓ} : {A : Type ℓ} (b : Bool) (x : A) → (if b then x else x) ≡ x
same_if true x = refl
same_if false x = refl

module _ {ℓ} {A : Type ℓ} (eq : A → A → Bool) (law : IsEquality eq) where
  -- The mirror shows the hash set, up to equality, or has more elements than it may have.
  abbrev pub Shows : ObservableHashSet A → ℕ → MirroredHashSet A × Option RecvError → Type 0
  Shows o max_size (m, none) =
      AreAlike eq law m.hs o.hs × (m.done ≡ o.is_done) × (m.max_size ≡ max_size)
  Shows o max_size (m, some e) = e ≡ max_size_exceeded max_size

  -- A call that does not panic keeps the elements distinct, and its events bring the mirror along.
  abbrev pub ShowsAfter : MirroredHashSet A → Option (Sent eq) → Type ℓ
  ShowsAfter m none = Unit {ℓ}
  ShowsAfter m (some (o, events)) =
      AreDistinct eq law o.hs × Shows o m.max_size (handle_set_events eq events m)

  set_event_shown :
      (m : MirroredHashSet A) (x : A) (hs : List A)
      → AreDistinct eq law hs
      → AreAlike eq law (insert_new eq x m.hs) hs
      → m.done ≡ false
      → ShowsAfter m (some (record { hs = hs; is_done = false }, set_event x ∷ []))
  unfolding handle_set_event
  set_event_shown m x hs d h off =
      elim (Bool-cases (ltb m.max_size (length (insert_new eq x m.hs)))) [
        | inl e ↦ rw e (d, refl)
        | inr e ↦ rw (e, off) (d, (h, refl, refl))
      ]

  pub shown_by :
      (o : ObservableHashSet A) (max_size : ℕ) (r r' : MirroredHashSet A × Option RecvError)
      → r ≡ r'
      → Shows o max_size r'
      → Shows o max_size r
  shown_by o max_size r r' e h = rw e h

  one_event :
      (m m' : MirroredHashSet A) (e : HashSetEvent A)
      → handle_set_event eq m e ≡ (m', none)
      → handle_set_events eq (e ∷ []) m ≡ (m', none)
  one_event m m' e q = rw q (same_if m'.done (m', none))

  removed_shown :
      (m : MirroredHashSet A) (v : A) (hs : List A)
      → AreDistinct eq law hs
      → AreAlike eq law (remove_equal eq v m.hs) hs
      → m.done ≡ false
      → ShowsAfter m (some (record { hs = hs; is_done = false }, remove_event v ∷ []))
  unfolding handle_set_event
  removed_shown m v hs d h off = (
    d,
    shown_by (record { hs = hs; is_done = false }) m.max_size _ _
        (one_event m (record m { hs = remove_equal eq v m.hs }) (remove_event v) refl)
        (h, off, refl),
  )

  removals :
      (m : MirroredHashSet A) (rs : List A)
      → m.done ≡ false
      → handle_set_events eq (map remove_event rs) m
        ≡ (record m { hs = remove_all eq law rs m.hs }, none)
  unfolding handle_set_event
  removals m [] off = refl
  removals m (r ∷ rs) off =
      let rest = removals (record m { hs = remove_equal eq r m.hs }) rs off in
      (if_false m.done _ _ off) ∙ rest

  taken_shown :
      (m : MirroredHashSet A) (hs : List A) (x : A) (r : Option A)
      → AreDistinct eq law hs
      → AreAlike eq law m.hs hs
      → m.done ≡ false
      → get_equal eq x hs ≡ r
      → ShowsAfter m (effect_of eq (taken eq (record { hs = hs; is_done = false }) x r))
  taken_shown m hs x none d h off g = (d, (h, off, refl))
  taken_shown m hs x (some v) d h off g =
      removed_shown m v (remove_equal eq x hs) (remove_equal-AreDistinct eq law hs x d)
        (remove_equal-AreAlike eq law m.hs hs v x (get_equal-eq eq law hs x v g) h) off

  effect_of-as_bool : (c : SetChange A (Option A)) → effect_of eq (as_bool eq c) ≡ effect_of eq c
  effect_of-as_bool (set_changed o events none) = refl
  effect_of-as_bool (set_changed o events (some v)) = refl
  effect_of-as_bool set_panicked = refl

  cleared_shown :
      (m : MirroredHashSet A) (hs : List A)
      → AreAlike eq law m.hs hs
      → m.done ≡ false
      → ShowsAfter m (set_call eq clear_call (record { hs = hs; is_done = false }))
  unfolding handle_set_event
  cleared_shown m [] h off = (tt, (h, off, refl))
  cleared_shown m (x ∷ hs) h off = (
    tt,
    shown_by (record { hs = []; is_done = false }) m.max_size _ _
        (one_event m (record m { hs = [] }) clear_event refl) (tt, off, refl),
  )

  -- The calls on a hash set that is not done.
  call_shown :
      (m : MirroredHashSet A) (c : SetCall A) (hs : List A)
      → AreDistinct eq law hs
      → AreAlike eq law m.hs hs
      → m.done ≡ false
      → ShowsAfter m (set_call eq c (record { hs = hs; is_done = false }))
  unfolding set_insert set_replace set_remove set_take handle_set_event
  call_shown m (insert_call x) hs d h off =
      set_event_shown m x (insert_new eq x hs) (insert_new-AreDistinct eq law hs x d)
        (insert_new-AreAlike eq law m.hs hs x h) off
  call_shown m (replace_call x) hs d h off =
      set_event_shown m x (replace_equal eq x hs) (replace_equal-AreDistinct eq law hs x d)
        (replace_equal-AreAlike eq law m.hs hs x h) off
  call_shown m (remove_call x) hs d h off =
      rw (effect_of-as_bool (taken eq (record { hs = hs; is_done = false }) x (get_equal eq x hs)))
        (taken_shown m hs x (get_equal eq x hs) d h off refl)
  call_shown m (take_call x) hs d h off = taken_shown m hs x (get_equal eq x hs) d h off refl
  call_shown m clear_call hs d h off = cleared_shown m hs h off
  call_shown m (retain_call f) hs d h off =
      rw (removals m (kept (λ x. not (f x)) hs) off)
        (kept-AreDistinct eq law f hs d, (kept-AreAlike eq law f m.hs hs h d, off, refl))
  call_shown m shrink_to_fit_call hs d h off = (
    d,
    shown_by (record { hs = hs; is_done = false }) m.max_size _ _
        (one_event m m shrink_to_fit_event refl) (h, off, refl),
  )
  call_shown m done_call hs d h off = (d, (h, refl, refl))

  pub call_ShowsAfter :
      (m : MirroredHashSet A) (c : SetCall A) (o : ObservableHashSet A)
      → AreDistinct eq law o.hs
      → AreAlike eq law m.hs o.hs
      → m.done ≡ false
      → o.is_done ≡ false
      → ShowsAfter m (set_call eq c o)
  call_ShowsAfter m c o d h off off' = rw off' (call_shown m c o.hs d h off)
