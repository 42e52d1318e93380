-- ===== src/Robs/HashSet/Refines.antt =====
-- hash_set.rs: the mirror of an observed hash set, over any calls.
use mathlib.Core.Option
use remoc.Base.{◌≡◌, ◌⊎◌, Bool, Option, none, some, []}
use remoc.Robs.HashSet.{ObservableHashSet, MirroredHashSet, handle_set_events}
use remoc.Robs.HashSet.Alike.{IsEquality}
use remoc.Robs.HashSet.Calls.{Sent}
use remoc.Robs.HashSet.Shown.{Shows}

module _ {ℓ} {A : Type ℓ} (eq : A → A → Bool) (law : IsEquality eq) where
  abbrev pub AllShown : MirroredHashSet A → Option (Sent eq) → Type 0
  AllShown m none = Unit {0}
  AllShown m (some (o, events)) = Shows eq law o m.max_size (handle_set_events eq events m)

  abbrev IsIdle : ObservableHashSet A → Option (Sent eq) → Type ℓ
  IsIdle o r = (r ≡ none) ⊎ (r ≡ some (o, []))
