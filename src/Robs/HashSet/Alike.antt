-- ===== src/Robs/HashSet/Alike.antt =====
-- hash_set.rs: the operations of a hash set on lists whose elements are equal in pairs.
use remoc.Base.{
  ◌≡◌, refl, sym, ◌∙◌, arith, inl, inr, Bool-cases, All, Bool, true, false, some, List, [], ◌∷◌,
  ◌++◌,
}
use remoc.Robs.HashSet.{get_equal, has_equal, insert_new, put_equal, replace_equal, remove_equal}

-- The laws of the trait `Eq`.
pub record IsEquality {ℓ} {A : Type ℓ} (eq : A → A → Bool) : Type ℓ where
  pub reflexive : (x : A) → eq x x ≡ true
  pub symmetric : (x y : A) → eq x y ≡ true → eq y x ≡ true
  pub transitive : (x y z : A) → eq x y ≡ true → eq y z ≡ true → eq x z ≡ true

module _ {ℓ} {A : Type ℓ} (eq : A → A → Bool) (law : IsEquality eq) where
  -- The elements are equal in pairs.
  abbrev pub AreAlike : List A → List A → Type 0
  AreAlike [] [] = Unit {0}
  AreAlike [] (y ∷ ys) = ⊥
  AreAlike (x ∷ xs) [] = ⊥
  AreAlike (x ∷ xs) (y ∷ ys) = (eq x y ≡ true) × AreAlike xs ys

  -- No two elements are equal.
  abbrev pub AreDistinct : List A → Type ℓ
  AreDistinct [] = Unit {ℓ}
  AreDistinct (x ∷ xs) = All (λ y. eq x y ≡ false) xs × AreDistinct xs

  pub eq_left : (x y z : A) → eq x y ≡ true → eq x z ≡ eq y z
  eq_left x y z h = elim (Bool-cases (eq x z)) [
    | inl e ↦ e ∙ sym (law.transitive y x z (law.symmetric x y h) e)
    | inr e ↦ elim (Bool-cases (eq y z)) [
      | inl f ↦ absurd (ground (arith, e, law.transitive x y z h f))
      | inr f ↦ e ∙ sym f
    ]
  ]

  pub eq_right : (x y z : A) → eq x y ≡ true → eq z x ≡ eq z y
  eq_right x y z h = elim (Bool-cases (eq z x)) [
    | inl e ↦ e ∙ sym (law.transitive z x y e h)
    | inr e ↦ elim (Bool-cases (eq z y)) [
      | inl f ↦ absurd (ground (arith, e, law.transitive z y x f (law.symmetric x y h)))
      | inr f ↦ e ∙ sym f
    ]
  ]

  AreAlike-last :
      (ms os : List A) (x : A) → AreAlike ms os → AreAlike (ms ++ (x ∷ [])) (os ++ (x ∷ []))
  AreAlike-last [] [] x h = (law.reflexive x, tt)
  AreAlike-last [] (o ∷ os) x h = absurd h
  AreAlike-last (m ∷ ms) [] x h = absurd h
  AreAlike-last (m ∷ ms) (o ∷ os) x h = (h.0, AreAlike-last ms os x h.1)

  pub has_equal-AreAlike :
      (ms os : List A) (x : A) → AreAlike ms os → has_equal eq x ms ≡ has_equal eq x os
  has_equal-AreAlike [] [] x h = refl
  has_equal-AreAlike [] (o ∷ os) x h = absurd h
  has_equal-AreAlike (m ∷ ms) [] x h = absurd h
  has_equal-AreAlike (m ∷ ms) (o ∷ os) x h =
      rw (eq_left m o x h.0, has_equal-AreAlike ms os x h.1) refl

  put_equal-AreAlike : (ms os : List A) (x : A) → AreAlike ms os → AreAlike ms (put_equal eq x os)
  put_equal-AreAlike [] [] x h = tt
  put_equal-AreAlike [] (o ∷ os) x h = absurd h
  put_equal-AreAlike (m ∷ ms) [] x h = absurd h
  put_equal-AreAlike (m ∷ ms) (o ∷ os) x h = elim (Bool-cases (eq o x)) [
    | inl e ↦ rw e (law.transitive m o x h.0 e, h.1)
    | inr e ↦ rw e (h.0, put_equal-AreAlike ms os x h.1)
  ]

  pub insert_new-AreAlike :
      (ms os : List A) (x : A) → AreAlike ms os → AreAlike (insert_new eq x ms) (insert_new eq x os)
  insert_new-AreAlike ms os x h = elim (Bool-cases (has_equal eq x os)) [
    | inl e ↦ rw (has_equal-AreAlike ms os x h, e) h
    | inr e ↦ rw (has_equal-AreAlike ms os x h, e) (AreAlike-last ms os x h)
  ]

  pub replace_equal-AreAlike :
      (ms os : List A) (x : A)
      → AreAlike ms os
      → AreAlike (insert_new eq x ms) (replace_equal eq x os)
  replace_equal-AreAlike ms os x h = elim (Bool-cases (has_equal eq x os)) [
    | inl e ↦ rw (has_equal-AreAlike ms os x h, e) (put_equal-AreAlike ms os x h)
    | inr e ↦ rw (has_equal-AreAlike ms os x h, e) (AreAlike-last ms os x h)
  ]

  pub remove_equal-AreAlike :
      (ms os : List A) (v x : A)
      → eq v x ≡ true
      → AreAlike ms os
      → AreAlike (remove_equal eq v ms) (remove_equal eq x os)
  remove_equal-AreAlike [] [] v x q h = tt
  remove_equal-AreAlike [] (o ∷ os) v x q h = absurd h
  remove_equal-AreAlike (m ∷ ms) [] v x q h = absurd h
  remove_equal-AreAlike (m ∷ ms) (o ∷ os) v x q h = elim (Bool-cases (eq o x)) [
    | inl e ↦ rw (eq_left m o v h.0, eq_right v x o q, e) h.1
    | inr e ↦
        rw (eq_left m o v h.0, eq_right v x o q, e) (h.0, remove_equal-AreAlike ms os v x q h.1)
  ]

  pub get_equal-eq : (xs : List A) (x v : A) → get_equal eq x xs ≡ some v → eq v x ≡ true
  get_equal-eq [] x v h = cc
  get_equal-eq (y ∷ ys) x v h = elim (Bool-cases (eq y x)) [
    | inl e ↦ ground (arith, e, rw e at h)
    | inr e ↦ get_equal-eq ys x v (rw e at h)
  ]
