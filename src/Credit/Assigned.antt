-- ===== src/Credit/Assigned.antt =====
-- credit.rs, `AssignedCredits` and `MixedAssignedCredits`; mux.rs, the split of the credits of a
-- received message.
use remoc.Base.{
  ℕ, ◌+◌, ◌-◌, ◌%◌, ◌^◌, min, max, ltb, ◌==◌, if◌then◌else◌, Option, none, some, List, [], ◌∷◌,
  ◌++◌,
}
use remoc.Msg.Types.{DataCredits, port_only, global_only, global_and_port}

pub data CreditPool : Type 0 where
  port_pool : CreditPool
  global_pool : CreditPool

-- The store that dropped credits go back to is the store of the pool.
pub record AssignedCredits : Type 0 where
  pub pool : CreditPool
  pub credits : ℕ

-- `none` is the panic on insufficient credits.
abbrev pub take_credits : AssignedCredits → ℕ → Option AssignedCredits
take_credits ac credits =
    if ltb ac.credits credits then none else some (record ac { credits = ac.credits - credits })

abbrev pub available : List AssignedCredits → ℕ
available [] = 0
available (ac ∷ q) = (ac.credits + available q) % 2 ^ 32

-- `none` is the panic of the assertion.
abbrev pub add : List AssignedCredits → AssignedCredits → Option (List AssignedCredits)
add q ac = if ac.credits == 0 then none else some (q ++ (ac ∷ []))

-- The counter of a pool after credits of the other pool or of this one.
abbrev pub add_global : CreditPool → ℕ → ℕ → ℕ
add_global global_pool n global = global + n
add_global port_pool n global = global

abbrev pub add_port : CreditPool → ℕ → ℕ → ℕ
add_port global_pool n port = port
add_port port_pool n port = port + n

-- The loop: what is left in the queue, and the credits taken from each pool, which are 32-bit
-- numbers since their sum is the request. Where credits are left at the front, the request is
-- served and the loop ends.
unfoldable pub take_loop : List AssignedCredits → ℕ → ℕ → ℕ → Option (List AssignedCredits × ℕ × ℕ)
take_loop [] credits global port = if credits == 0 then some ([], global, port) else none
take_loop (ac ∷ q) credits global port =
    let n = min ac.credits credits in
    let left = record ac { credits = ac.credits - n } in
    let global' = add_global ac.pool n global in
    let port' = add_port ac.pool n port in
    let next = take_loop q (credits - n) global' port' in
    if credits == 0
    then some (ac ∷ q, global, port)
    else if left.credits == 0
    then next
    else some (left ∷ q, global', port')

abbrev pub data_credits : ℕ → ℕ → DataCredits
data_credits global port =
    if global == 0 then port_only else if port == 0 then global_only else global_and_port global

abbrev pub after_take :
    Option (List AssignedCredits × ℕ × ℕ) → Option (List AssignedCredits × DataCredits)
after_take none = none
after_take (some (q, global, port)) = some (q, data_credits global port)

-- `MixedAssignedCredits::take`; `none` is the panic on insufficient credits.
unfoldable pub take_mixed : List AssignedCredits → ℕ → Option (List AssignedCredits × DataCredits)
take_mixed q credits = after_take (take_loop q credits 0 0)

-- The credits of each pool that the receiver charges for a message of `size` bytes, global first.
abbrev pub charged : DataCredits → ℕ → ℕ × ℕ
charged port_only size = (0, max size 1)
charged global_only size = (max size 1, 0)
charged (global_and_port global) size = (global, max size 1 - global)
