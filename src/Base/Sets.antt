-- ===== src/Base/Sets.antt =====
-- Sets of numbers as lists: an insertion leaves the list as it is where the number is a member.
use Prim.Native.Nat.{ℕ}
use mathlib.Core.Bool.{Bool, false, ◌||◌}
use mathlib.Core.List.{List, [], ◌∷◌}
use remoc.Base.Tests.{◌==◌, if◌then◌else◌}

abbrev pub contains : List ℕ → ℕ → Bool
contains [] number = false
contains (n ∷ ns) number = (n == number) || contains ns number

abbrev pub insert : List ℕ → ℕ → List ℕ
insert ns number = if contains ns number then ns else number ∷ ns

abbrev pub remove : List ℕ → ℕ → List ℕ
remove [] number = []
remove (n ∷ ns) number = let rest = remove ns number in if n == number then rest else n ∷ rest
