-- ===== src/Open/Counts.antt =====
-- Weights of the messages, requests and events about the opening of ports, and their sums.
use remoc.Base.{
  ◌≡◌, ◌⊎◌, ◌≤◌, refl, ap, arith, inl, inr, Bool-cases, contains, remove, ℕ, ◌+◌, ◌*◌, ◌==◌,
  if◌then◌else◌, Bool, true, false, List, [], ◌∷◌, ◌++◌, length,
}
use remoc.SidePort.{SidePort, local, remote}
use remoc.Open.Requester.{PortEntry, set_entry}
use remoc.Open.Responder.{same_port, has_port, has_entry}

unfoldable pub total {ℓ} : {A : Type ℓ} → (A → ℕ) → List A → ℕ
total w [] = 0
total w (x ∷ xs) = w x + total w xs

abbrev pub bit : Bool → ℕ
bit true = 1
bit false = 0

abbrev pub at : ℕ → ℕ → ℕ
at p n = if n == p then 1 else 0

abbrev pub at_port : SidePort → SidePort → ℕ
at_port k port = if same_port port k then 1 else 0

abbrev pub each : ℕ → ℕ
each port = 1

module _ {ℓ} {A : Type ℓ} (w : A → ℕ) where
  pub total-append : (xs ys : List A) → total w (xs ++ ys) ≡ total w xs + total w ys
  unfolding total
  total-append [] ys = omega arith
  total-append (x ∷ xs) ys = omega (arith, total-append xs ys)

  pub total_last : (xs : List A) (x : A) → total w (xs ++ (x ∷ [])) ≡ total w xs + w x
  unfolding total
  total_last xs x = omega (arith, total-append xs (x ∷ []))

  pub total_first : (xs rest : List A) (x : A) → xs ≡ x ∷ rest → total w xs ≡ w x + total w rest
  unfolding total
  total_first xs rest x e = rw e

  pub total_split :
      (xs front back : List A) (x : A)
      → xs ≡ front ++ (x ∷ back)
      → total w xs ≡ w x + total w (front ++ back)
  unfolding total
  total_split xs front back x e =
      rw e (omega (arith, total-append front (x ∷ back), total-append front back))

  pub total-le : (v : A → ℕ) → ((x : A) → w x ≤ v x) → (xs : List A) → total w xs ≤ total v xs
  unfolding total
  total-le v h [] = omega arith
  total-le v h (x ∷ xs) = omega (arith, h x, total-le v h xs)

pub at_refl : (p : ℕ) → at p p ≡ 1
at_refl p = ground arith

pub at-cases : (p n : ℕ) → (at p n ≡ 0) ⊎ (n ≡ p)
at-cases p n = elim (Bool-cases (n == p)) [
  | inl e ↦ inr (ground (arith, e))
  | inr e ↦ rw e (inl refl)
]

at-le : (p n : ℕ) → at p n ≤ 1
at-le p n = ground arith

pub same_port-eq : (a b : SidePort) → same_port a b ≡ true → a ≡ b
same_port-eq (local a) (local b) h = ap local (ground (arith, h))
same_port-eq (local a) (remote b) h = absurd (ground arith)
same_port-eq (remote a) (local b) h = absurd (ground arith)
same_port-eq (remote a) (remote b) h = ap remote (ground (arith, h))

same_port_refl : (a : SidePort) → same_port a a ≡ true
same_port_refl (local a) = ground arith
same_port_refl (remote a) = ground arith

pub at_port_refl : (k : SidePort) → at_port k k ≡ 1
at_port_refl k = rw (same_port_refl k)

-- A set as a list: membership by the count of the member.
pub contains-total : (ns : List ℕ) (p : ℕ) → contains ns p ≡ false → total (at p) ns ≡ 0
unfolding total
contains-total [] p h = refl
contains-total (n ∷ ns) p h = elim (Bool-cases (n == p)) [
  | inl e ↦ absurd (ground (arith, h, e))
  | inr e ↦ rw e (omega (arith, contains-total ns p (rw e at h)))
]

pub total-contains : (ns : List ℕ) (p : ℕ) → total (at p) ns ≡ 0 → contains ns p ≡ false
unfolding total
total-contains [] p h = refl
total-contains (n ∷ ns) p h = elim (Bool-cases (n == p)) [
  | inl e ↦ absurd (omega (arith, rw e at h))
  | inr e ↦ rw e (total-contains ns p (omega (arith, rw e at h)))
]

pub has_port-total :
    (ps : List SidePort) (k : SidePort) → has_port ps k ≡ false → total (at_port k) ps ≡ 0
unfolding total
has_port-total [] k h = refl
has_port-total (p ∷ ps) k h = elim (Bool-cases (same_port p k)) [
  | inl e ↦ absurd (ground (arith, rw e at h))
  | inr e ↦ rw e (omega (arith, has_port-total ps k (rw e at h)))
]

pub total-has_port :
    (ps : List SidePort) (k : SidePort) → total (at_port k) ps ≡ 0 → has_port ps k ≡ false
unfolding total
total-has_port [] k h = refl
total-has_port (p ∷ ps) k h = elim (Bool-cases (same_port p k)) [
  | inl e ↦ absurd (omega (arith, rw e at h))
  | inr e ↦ rw e (total-has_port ps k (omega (arith, rw e at h)))
]

abbrev pub at_key : SidePort → SidePort × SidePort → ℕ
at_key k (port, remote_port) = at_port k port

pub total-has_entry :
    (ps : List (SidePort × SidePort)) (k : SidePort)
    → total (at_key k) ps ≡ 0
    → has_entry ps k ≡ false
unfolding total
total-has_entry [] k h = refl
total-has_entry ((p, q) ∷ ps) k h = elim (Bool-cases (same_port p k)) [
  | inl e ↦ absurd (omega (arith, rw e at h))
  | inr e ↦ rw e (total-has_entry ps k (omega (arith, rw e at h)))
]

total-remove_absent :
    (f : ℕ → ℕ) (ns : List ℕ) (p : ℕ) → total (at p) ns ≡ 0 → total f (remove ns p) ≡ total f ns
unfolding total
total-remove_absent f [] p h = refl
total-remove_absent f (n ∷ ns) p h = elim (Bool-cases (n == p)) [
  | inl e ↦ absurd (omega (arith, rw e at h))
  | inr e ↦ rw e (ap (λ k. f n + k) (total-remove_absent f ns p (omega (arith, rw e at h))))
]

pub total-remove :
    (f : ℕ → ℕ) (ns : List ℕ) (p : ℕ)
    → total (at p) ns ≡ 1
    → total f ns ≡ f p + total f (remove ns p)
unfolding total
total-remove f [] p h = absurd (omega (arith, h))
total-remove f (n ∷ ns) p h = elim (Bool-cases (n == p)) [
  | inl e ↦
      let q : n ≡ p = ground (arith, e) in
      let t : total (at p) ns ≡ 0 = omega (arith, rw e at h) in
      rw e (omega (arith, ap f q, total-remove_absent f ns p t))
  | inr e ↦ rw e (omega (arith, total-remove f ns p (omega (arith, rw e at h))))
]

pub total_each : (ns : List ℕ) → total each ns ≡ length ns
unfolding total
total_each [] = refl
total_each (n ∷ ns) = omega (arith, total_each ns)

-- What a change of one entry does to a number that is read from an entry.
pub set_entry-count :
    (w : PortEntry → ℕ) (ports : ℕ → PortEntry) (port b : ℕ) (entry : PortEntry) (before after : ℕ)
    → w (ports port) ≡ before
    → w entry ≡ after
    → w (set_entry ports port entry b) + at b port * before ≡ w (ports b) + at b port * after
set_entry-count w ports port b entry before after hb ha = elim (Bool-cases (port == b)) [
  | inl e ↦
      let q : port ≡ b = ground (arith, e) in rw e (omega (arith, hb, ha, ap (λ n. w (ports n)) q))
  | inr e ↦ rw e (omega arith)
]
