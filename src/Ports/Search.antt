-- ===== src/Ports/Search.antt =====
-- port_allocator.rs: the loops that look for a port number end.
use remoc.Base.{
  contains, ℕ, zero, suc, ◌+◌, ◌%◌, ◌^◌, ◌≤◌, ◌<◌, ◌≡◌, ◌⊎◌, inr, refl, ◌||◌, not, Bool, true,
  false, Option, none, some, List, [], ◌∷◌, ◌++◌, length, arith,
}
use remoc.Ports.{search}

abbrev bit : Bool → ℕ
bit true = 1
bit false = 0

-- How many of the next numbers are in a list.
abbrev hits : List ℕ → ℕ → ℕ → ℕ
hits ns next zero = 0
hits ns next (suc n) = bit (contains ns ((next + 1) % 2 ^ 32)) + hits ns ((next + 1) % 2 ^ 32) n

hits-nil : (next n : ℕ) → hits [] next n ≡ 0
hits-nil next zero = refl
hits-nil next (suc n) = ground (arith, hits-nil ((next + 1) % 2 ^ 32) n)

hits-cons :
    (x : ℕ) (ns : List ℕ) (next n : ℕ)
    → hits (x ∷ ns) next n ≤ hits (x ∷ []) next n + hits ns next n
hits-cons x ns next zero = omega arith
hits-cons x ns next (suc n) = ground (arith, hits-cons x ns ((next + 1) % 2 ^ 32) n)

-- Numbers do not come back before all have been passed.
hits-passed : (x k next n : ℕ) → next ≡ (x + k) % 2 ^ 32 → k + n < 2 ^ 32 → hits (x ∷ []) next n ≡ 0
hits-passed x k next zero e h = refl
hits-passed x k next (suc n) e h =
    ground (arith, hits-passed x (k + 1) ((next + 1) % 2 ^ 32) n (omega arith) (omega arith))

hits-one : (x next n : ℕ) → n ≤ 2 ^ 32 → hits (x ∷ []) next n ≤ 1
hits-one x next zero h = omega arith
hits-one x next (suc n) h = ground (
  arith,
  hits-one x ((next + 1) % 2 ^ 32) n,
  λ (e : (next + 1) % 2 ^ 32 ≡ x).
      hits-passed x 0 ((next + 1) % 2 ^ 32) n (omega (arith, e)) (omega arith),
)

hits-length : (ns : List ℕ) (next n : ℕ) → n ≤ 2 ^ 32 → hits ns next n ≤ length ns
hits-length [] next n h = omega (arith, hits-nil next n)
hits-length (x ∷ ns) next n h =
    omega (arith, hits-cons x ns next n, hits-one x next n h, hits-length ns next n h)

pub contains-append :
    (xs ys : List ℕ) (n : ℕ) → contains (xs ++ ys) n ≡ (contains xs n || contains ys n)
contains-append [] ys n = refl
contains-append (x ∷ xs) ys n = ground (arith, contains-append xs ys n)

-- A search among numbers of which all that are not free are in a list: it finds one that is free.
abbrev Finds : (ℕ → Bool) → Option ℕ → Type 0
Finds is_free none = ⊥
Finds is_free (some number) = is_free number ≡ true

search-hits :
    (is_free : ℕ → Bool) (ns : List ℕ) (fuel next : ℕ)
    → ((n : ℕ) → is_free n ≡ not (contains ns n))
    → (Finds is_free (search is_free fuel next))
      ⊎ ((search is_free fuel next ≡ none) × (hits ns next fuel ≡ fuel))
unfolding search
search-hits is_free ns zero next h = inr (refl, refl)
search-hits is_free ns (suc fuel) next h =
    ground (arith, h ((next + 1) % 2 ^ 32), search-hits is_free ns fuel ((next + 1) % 2 ^ 32) h)

pub search-Finds :
    (is_free : ℕ → Bool) (ns : List ℕ) (fuel next : ℕ)
    → ((n : ℕ) → is_free n ≡ not (contains ns n))
    → length ns < fuel
    → fuel ≤ 2 ^ 32
    → (number : ℕ) × (search is_free fuel next ≡ some number) × (is_free number ≡ true)
search-Finds is_free ns fuel next h less most =
    ground (arith, search-hits is_free ns fuel next h, hits-length ns next fuel most)
