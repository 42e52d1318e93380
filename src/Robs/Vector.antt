-- ===== src/Robs/Vector.antt =====
-- The operations of `Vec` that remoc/src/robs/vec.rs uses, on lists. Where `Vec` panics on an index,
-- the callers have a guard.
use remoc.Base.{
  ℕ, zero, suc, ◌+◌, ◌-◌, leb, ◌==◌, if◌then◌else◌, Bool, Option, none, some, List, [], ◌∷◌, ◌++◌,
  length, take,
}

module _ {ℓ} {A : Type ℓ} where
  -- The rest and the last element.
  abbrev pub split_last : List A → Option (List A × A)
  split_last [] = none
  split_last (x ∷ []) = some ([], x)
  split_last (x ∷ (y ∷ ys)) = elim (split_last (y ∷ ys)) [
    | none ↦ none
    | some (init, last) ↦ some (x ∷ init, last)
  ]

  abbrev pub get_at : ℕ → List A → Option A
  get_at i [] = none
  get_at zero (x ∷ xs) = some x
  get_at (suc i) (x ∷ xs) = get_at i xs

  abbrev pub insert_at : ℕ → A → List A → List A
  insert_at zero value xs = value ∷ xs
  insert_at (suc i) value [] = value ∷ []
  insert_at (suc i) value (x ∷ xs) = x ∷ insert_at i value xs

  abbrev pub set_at : ℕ → A → List A → List A
  set_at i value [] = []
  set_at zero value (x ∷ xs) = value ∷ xs
  set_at (suc i) value (x ∷ xs) = x ∷ set_at i value xs

  abbrev pub remove_at : ℕ → List A → List A
  remove_at i [] = []
  remove_at zero (x ∷ xs) = xs
  remove_at (suc i) (x ∷ xs) = x ∷ remove_at i xs

  abbrev pub without_last : Option (List A × A) → List A
  without_last none = []
  without_last (some (init, last)) = init

  -- The last element takes the place of the removed one.
  abbrev pub swap_into : ℕ → Option (List A × A) → List A
  swap_into i none = []
  swap_into i (some (init, last)) = if i == length init then init else set_at i last init

  abbrev pub swap_remove_at : ℕ → List A → List A
  swap_remove_at i xs = swap_into i (split_last xs)

  abbrev pub fill_with : A → List A → List A
  fill_with value [] = []
  fill_with value (x ∷ xs) = value ∷ fill_with value xs

  abbrev pub replicate : ℕ → A → List A
  replicate zero value = []
  replicate (suc n) value = value ∷ replicate n value

  abbrev pub resize_to : ℕ → A → List A → List A
  resize_to new_len value xs =
      if leb new_len (length xs)
      then take new_len xs
      else xs ++ replicate (new_len - length xs) value

  -- The elements at the positions, counted from `pos`, that a test keeps.
  unfoldable pub retain_from : ℕ → (ℕ → A → Bool) → List A → List A
  retain_from pos keep [] = []
  retain_from pos keep (x ∷ xs) =
      let rest = retain_from (pos + 1) keep xs in if keep pos x then x ∷ rest else rest

  -- These positions.
  unfoldable pub positions_from : ℕ → (ℕ → A → Bool) → List A → List ℕ
  positions_from pos keep [] = []
  positions_from pos keep (x ∷ xs) =
      let rest = positions_from (pos + 1) keep xs in if keep pos x then pos ∷ rest else rest
