-- ===== src/Robs/Retain.antt =====
-- vec.rs, `retain`: the set of positions that is sent says what is kept.
use remoc.Base.{contains, ℕ, ◌+◌, ◌≤◌, ◌<◌, ◌≡◌, refl, Bool, false, not, List, [], ◌∷◌, arith}
use remoc.Robs.Vector.{retain_from, positions_from}

module _ {ℓ} {A : Type ℓ} where
  positions_from-lt :
      (pos n : ℕ) (f : ℕ → A → Bool) (xs : List A)
      → n < pos
      → contains (positions_from pos f xs) n ≡ false
  unfolding positions_from
  positions_from-lt pos n f [] h = refl
  positions_from-lt pos n f (x ∷ xs) h =
      ground (arith, positions_from-lt (pos + 1) n f xs (omega arith))

  -- A set that agrees with the positions from `pos` on keeps what the predicate keeps.
  pub retain_from-positions :
      (pos : ℕ) (f : ℕ → A → Bool) (ns : List ℕ) (xs : List A)
      → ((n : ℕ) → pos ≤ n → contains ns n ≡ contains (positions_from pos f xs) n)
      → retain_from pos (λ i x. contains ns i) xs ≡ retain_from pos f xs
  unfolding retain_from positions_from
  retain_from-positions pos f ns [] h = refl
  retain_from-positions pos f ns (x ∷ xs) h = ground (
    arith,
    h pos (omega arith),
    positions_from-lt (pos + 1) pos f xs (omega arith),
    retain_from-positions (pos + 1) f ns xs (λ n k. ground (arith, h n (omega arith))),
  )

  pub retain_from-not_positions :
      (pos : ℕ) (f : ℕ → A → Bool) (ns : List ℕ) (xs : List A)
      → ((n : ℕ)
          → pos ≤ n
          → contains ns n ≡ contains (positions_from pos (λ i x. not (f i x)) xs) n)
      → retain_from pos (λ i x. not (contains ns i)) xs ≡ retain_from pos f xs
  unfolding retain_from positions_from
  retain_from-not_positions pos f ns [] h = refl
  retain_from-not_positions pos f ns (x ∷ xs) h = ground (
    arith,
    h pos (omega arith),
    positions_from-lt (pos + 1) pos (λ i y. not (f i y)) xs (omega arith),
    retain_from-not_positions (pos + 1) f ns xs (λ n k. ground (arith, h n (omega arith))),
  )

  -- Where no position is left out, all is kept.
  pub retain_from-all :
      (pos : ℕ) (f : ℕ → A → Bool) (xs : List A)
      → positions_from pos (λ i x. not (f i x)) xs ≡ []
      → retain_from pos f xs ≡ xs
  unfolding retain_from positions_from
  retain_from-all pos f [] h = refl
  retain_from-all pos f (x ∷ xs) h = ground (arith, retain_from-all (pos + 1) f xs)
