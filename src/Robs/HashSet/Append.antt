-- ===== src/Robs/HashSet/Append.antt =====
-- hash_set.rs: the mirror's task over the events of one call after those of another.
use remoc.Base.{
  ◌≡◌, refl, sym, ap, ◌∙◌, inl, inr, Bool-cases, if◌then◌else◌, Bool, false, Option, none, some,
  List, [], ◌∷◌, ◌++◌,
}
use remoc.Robs.Subscription.{RecvError}
use remoc.Robs.HashSet.{
  HashSetEvent, MirroredHashSet, handle_set_event, after_set_event, handle_set_events,
}
use remoc.Robs.HashSet.Shown.{if_false, if_true}

module _ {ℓ} {A : Type ℓ} (eq : A → A → Bool) where
  abbrev pub then_events :
      MirroredHashSet A × Option RecvError
      → List (HashSetEvent A)
      → MirroredHashSet A × Option RecvError
  then_events (m, some e) more = (m, some e)
  then_events (m, none) more = if m.done then (m, none) else handle_set_events eq more m

  after_event-append :
      (r : MirroredHashSet A × Option RecvError) (more : List (HashSetEvent A))
      (k k' : MirroredHashSet A → MirroredHashSet A × Option RecvError)
      → ((m : MirroredHashSet A) → m.done ≡ false → k' m ≡ then_events (k m) more)
      → after_set_event eq r k' ≡ then_events (after_set_event eq r k) more
  after_event-append (m, some e) more k k' h = refl
  after_event-append (m, none) more k k' h = elim (Bool-cases m.done) [
    | inl e ↦
        if_true m.done (m, none) (k' m) e
        ∙ sym (
            ap (λ r. then_events r more) (if_true m.done (m, none) (k m) e)
            ∙ if_true m.done (m, none) (handle_set_events eq more m) e)
    | inr e ↦
        if_false m.done (m, none) (k' m) e
        ∙ h m e
        ∙ sym (ap (λ r. then_events r more) (if_false m.done (m, none) (k m) e))
  ]

  pub handle_set_events-append :
      (events more : List (HashSetEvent A)) (m : MirroredHashSet A)
      → m.done ≡ false
      → handle_set_events eq (events ++ more) m ≡ then_events (handle_set_events eq events m) more
  handle_set_events-append [] more m off =
      sym (if_false m.done (m, none) (handle_set_events eq more m) off)
  handle_set_events-append (e ∷ events) more m off =
      after_event-append (handle_set_event eq m e) more (handle_set_events eq events)
        (handle_set_events eq (events ++ more))
        (λ m' off'. handle_set_events-append events more m' off')
