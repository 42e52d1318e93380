-- ===== src/Robs/HashSet/Distinct.antt =====
-- hash_set.rs: no operation of a hash set brings in an element twice; and `retain`, whose events remove
-- the other elements one by one.
use remoc.Base.{
  ◌≡◌, refl, sym, ◌∙◌, arith, inl, inr, Bool-cases, All, All-append, Bool, true, false, not, List,
  [], ◌∷◌, ◌++◌,
}
use remoc.Robs.HashSet.{kept, has_equal, insert_new, put_equal, replace_equal, remove_equal}
use remoc.Robs.HashSet.Alike.{IsEquality, AreAlike, AreDistinct, eq_left}

module _ {ℓ} {A : Type ℓ} (eq : A → A → Bool) (law : IsEquality eq) where
  absent-All : (ys : List A) (x : A) → has_equal eq x ys ≡ false → All (λ y. eq y x ≡ false) ys
  absent-All [] x h = tt
  absent-All (y ∷ ys) x h = elim (Bool-cases (eq y x)) [
    | inl e ↦ absurd (ground (arith, rw e at h))
    | inr e ↦ (e, absent-All ys x (rw e at h))
  ]

  AreDistinct-last :
      (ys : List A) (x : A)
      → AreDistinct eq law ys
      → All (λ y. eq y x ≡ false) ys
      → AreDistinct eq law (ys ++ (x ∷ []))
  AreDistinct-last [] x h k = (tt, tt)
  AreDistinct-last (y ∷ ys) x h k =
      (All-append (λ z. eq y z ≡ false) ys (x ∷ []) h.0 (k.0, tt), AreDistinct-last ys x h.1 k.1)

  other_All :
      (y x : A) (ys : List A)
      → eq y x ≡ true
      → All (λ z. eq y z ≡ false) ys
      → All (λ z. eq x z ≡ false) ys
  other_All y x [] q h = tt
  other_All y x (z ∷ ys) q h = (sym (eq_left eq law y x z q) ∙ h.0, other_All y x ys q h.1)

  put_equal-All :
      (P : A → Type 0) (ys : List A) (x : A) → P x → All P ys → All P (put_equal eq x ys)
  put_equal-All P [] x p h = tt
  put_equal-All P (y ∷ ys) x p h = elim (Bool-cases (eq y x)) [
    | inl e ↦ rw e (p, h.1)
    | inr e ↦ rw e (h.0, put_equal-All P ys x p h.1)
  ]

  put_equal-AreDistinct :
      (ys : List A) (x : A) → AreDistinct eq law ys → AreDistinct eq law (put_equal eq x ys)
  put_equal-AreDistinct [] x h = tt
  put_equal-AreDistinct (y ∷ ys) x h = elim (Bool-cases (eq y x)) [
    | inl e ↦ rw e (other_All y x ys e h.0, h.1)
    | inr e ↦ rw e (put_equal-All (λ z. eq y z ≡ false) ys x e h.0, put_equal-AreDistinct ys x h.1)
  ]

  pub insert_new-AreDistinct :
      (ys : List A) (x : A) → AreDistinct eq law ys → AreDistinct eq law (insert_new eq x ys)
  insert_new-AreDistinct ys x h = elim (Bool-cases (has_equal eq x ys)) [
    | inl e ↦ rw e h
    | inr e ↦ rw e (AreDistinct-last ys x h (absent-All ys x e))
  ]

  pub replace_equal-AreDistinct :
      (ys : List A) (x : A) → AreDistinct eq law ys → AreDistinct eq law (replace_equal eq x ys)
  replace_equal-AreDistinct ys x h = elim (Bool-cases (has_equal eq x ys)) [
    | inl e ↦ rw e (put_equal-AreDistinct ys x h)
    | inr e ↦ rw e (AreDistinct-last ys x h (absent-All ys x e))
  ]

  remove_equal-All :
      (P : A → Type 0) (ys : List A) (x : A) → All P ys → All P (remove_equal eq x ys)
  remove_equal-All P [] x h = tt
  remove_equal-All P (y ∷ ys) x h = elim (Bool-cases (eq y x)) [
    | inl e ↦ rw e h.1
    | inr e ↦ rw e (h.0, remove_equal-All P ys x h.1)
  ]

  pub remove_equal-AreDistinct :
      (ys : List A) (x : A) → AreDistinct eq law ys → AreDistinct eq law (remove_equal eq x ys)
  remove_equal-AreDistinct [] x h = tt
  remove_equal-AreDistinct (y ∷ ys) x h = elim (Bool-cases (eq y x)) [
    | inl e ↦ rw e h.1
    | inr e ↦
        rw e (remove_equal-All (λ z. eq y z ≡ false) ys x h.0, remove_equal-AreDistinct ys x h.1)
  ]

  kept-All : (P : A → Type 0) (f : A → Bool) (ys : List A) → All P ys → All P (kept f ys)
  kept-All P f [] h = tt
  kept-All P f (y ∷ ys) h = elim (Bool-cases (f y)) [
    | inl e ↦ rw e (h.0, kept-All P f ys h.1)
    | inr e ↦ rw e (kept-All P f ys h.1)
  ]

  pub kept-AreDistinct :
      (f : A → Bool) (ys : List A) → AreDistinct eq law ys → AreDistinct eq law (kept f ys)
  kept-AreDistinct f [] h = tt
  kept-AreDistinct f (y ∷ ys) h = elim (Bool-cases (f y)) [
    | inl e ↦ rw e (kept-All (λ z. eq y z ≡ false) f ys h.0, kept-AreDistinct f ys h.1)
    | inr e ↦ rw e (kept-AreDistinct f ys h.1)
  ]

  abbrev pub remove_all : List A → List A → List A
  remove_all [] ms = ms
  remove_all (r ∷ rs) ms = remove_all rs (remove_equal eq r ms)

  remove_all_first :
      (rs ms : List A) (m y : A)
      → eq m y ≡ true
      → All (λ r. eq y r ≡ false) rs
      → remove_all rs (m ∷ ms) ≡ m ∷ remove_all rs ms
  remove_all_first [] ms m y q h = refl
  remove_all_first (r ∷ rs) ms m y q h =
      rw (eq_left eq law m y r q, h.0) (remove_all_first rs (remove_equal eq r ms) m y q h.1)

  -- The removals of `retain` leave what it keeps.
  pub kept-AreAlike :
      (f : A → Bool) (ms os : List A)
      → AreAlike eq law ms os
      → AreDistinct eq law os
      → AreAlike eq law (remove_all (kept (λ x. not (f x)) os) ms) (kept f os)
  kept-AreAlike f [] [] h d = tt
  kept-AreAlike f [] (o ∷ os) h d = absurd h
  kept-AreAlike f (m ∷ ms) [] h d = absurd h
  kept-AreAlike f (m ∷ ms) (o ∷ os) h d = elim (Bool-cases (f o)) [
    | inl e ↦
        let skip =
          remove_all_first (kept (λ x. not (f x)) os) ms m o h.0
            (kept-All (λ z. eq o z ≡ false) (λ x. not (f x)) os d.0) in
        rw (e, skip) (h.0, kept-AreAlike f ms os h.1 d.1)
    | inr e ↦ rw (e, h.0) (kept-AreAlike f ms os h.1 d.1)
  ]
