-- ===== src/Credit/Spend.antt =====
-- credit.rs, `MixedAssignedCredits::take` and mux.rs: both endpoints count the same credits.
use remoc.Base.{ℕ, ◌+◌, ◌-◌, min, max, ◌<◌, ◌≡◌, Option, none, some, List, [], ◌∷◌, arith}
use remoc.Msg.Types.{DataCredits}
use remoc.Credit.Assigned.{AssignedCredits, take_loop, take_mixed, charged, add_global, add_port}

-- The credits of one pool in a queue.
abbrev pub held_port : List AssignedCredits → ℕ
held_port [] = 0
held_port (ac ∷ q) = add_port ac.pool ac.credits (held_port q)

abbrev pub held_global : List AssignedCredits → ℕ
held_global [] = 0
held_global (ac ∷ q) = add_global ac.pool ac.credits (held_global q)

-- The credits that the loop is to have taken from a queue for a request.
abbrev pub Taken : List AssignedCredits → ℕ → ℕ → ℕ → Option (List AssignedCredits × ℕ × ℕ) → Type 0
Taken q credits global port none = held_port q + held_global q < credits
Taken q credits global port (some (q', global', port')) =
    (held_global q + global ≡ held_global q' + global')
    × (held_port q + port ≡ held_port q' + port')
    × (global' + port' ≡ global + port + credits)

pub take_loop-Taken :
    (q : List AssignedCredits) (credits global port : ℕ)
    → Taken q credits global port (take_loop q credits global port)
unfolding take_loop
take_loop-Taken [] credits global port = ground arith
take_loop-Taken (ac ∷ q) credits global port =
    let n = min ac.credits credits in
    ground (
      arith,
      take_loop-Taken q (credits - n) (add_global ac.pool n global) (add_port ac.pool n port),
    )

-- What a queue gives for a message: the credits that the receiver of the message charges to each
-- pool are those taken from the queue; without enough credits in it there is none.
abbrev pub Spent : List AssignedCredits → ℕ → Option (List AssignedCredits × DataCredits) → Type 0
Spent q size none = held_port q + held_global q < max size 1
Spent q size (some (q', credits)) =
    (held_global q ≡ held_global q' + (charged credits size).0)
    × (held_port q ≡ held_port q' + (charged credits size).1)

-- Taking the credits for a message of any size out of a queue of credits of both pools, in any
-- order: it panics only if the queue holds too few, and otherwise what the receiver of the message
-- charges to the global pool and to the port is what the queue has lost of each.
pub take_mixed-Spent :
    (q : List AssignedCredits) (size : ℕ) → Spent q size (take_mixed q (max size 1))
unfolding take_mixed
take_mixed-Spent q size = ground (arith, take_loop-Taken q (max size 1) 0 0)
