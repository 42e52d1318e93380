-- ===== src/Credit/Store.antt =====
-- credit.rs, `SendableCreditStore` and `CreditProvider`. An atomic operation is a function from the
-- store to the store; waking up the waiting users (`notify`) has no counterpart.
use remoc.Base.{
  ℕ, ◌+◌, ◌-◌, ◌%◌, ◌^◌, min, ltb, leb, ◌!=◌, if◌then◌else◌, Bool, true, false, Option, none, some,
}
use remoc.Sizer.{GlobalCreditsReport}
use remoc.Credit.Assigned.{CreditPool, port_pool, global_pool, AssignedCredits}

-- sender.rs
pub data SendError : Type 0 where
  ch_mux : SendError
  closed_error : Bool → SendError
  rejected_error : Bool → SendError
  local_ports_exhausted : SendError
  too_many_pending_pre_connect_reqs : SendError

-- The constants of the field `state`.
pub data ChannelState : Type 0 where
  state_open : ChannelState
  state_closed : ChannelState
  state_closed_gracefully : ChannelState

pub record SendableCreditStore : Type 0 where
  pub pool : CreditPool
  pub credits : ℕ
  pub state : ChannelState
  pub use_global_credits : Bool

abbrev pub new_store : CreditPool → ℕ → SendableCreditStore
new_store pool credits = record {
  pool = pool;
  credits = credits;
  state = state_open;
  use_global_credits = true;
}

-- `none` is `Ok(())`.
abbrev pub sendable_state : ChannelState → Bool → Option SendError
sendable_state state_open override_graceful_close = none
sendable_state state_closed override_graceful_close = some (closed_error false)
sendable_state state_closed_gracefully override_graceful_close =
    if override_graceful_close then none else some (closed_error true)

abbrev pub check_sendable : SendableCreditStore → Bool → Option SendError
check_sendable store override_graceful_close = elim store.pool [
  | global_pool ↦ none
  | port_pool ↦ sendable_state store.state override_graceful_close
]

-- The store afterwards, and the credits taken.
unfoldable pub try_take_credits : SendableCreditStore → ℕ → ℕ → SendableCreditStore × ℕ
try_take_credits store req min_req =
    let taken = min store.credits req in
    if leb min_req store.credits
    then (record store { credits = store.credits - taken }, taken)
    else (store, 0)

-- `fetch_add`
abbrev pub fetch_add : SendableCreditStore → ℕ → SendableCreditStore
fetch_add store n = record store { credits = (store.credits + n) % 2 ^ 32 }

-- The drop of `AssignedCredits`, whose store may be gone.
abbrev pub drop_assigned : AssignedCredits → Option SendableCreditStore → Option SendableCreditStore
drop_assigned ac none = none
drop_assigned ac (some store) =
    if ltb 0 ac.credits then some (fetch_add store ac.credits) else some store

pub record CreditProvider : Type 0 where
  pub least : ℕ
  pub seq : ℕ

abbrev pub new_provider : SendableCreditStore → CreditProvider
new_provider store = record { least = store.credits; seq = 0 }

-- The second part is `none` where the protocol error is returned; the credits have been added then.
unfoldable pub provide :
    CreditProvider → SendableCreditStore → ℕ → SendableCreditStore × Option CreditProvider
provide provider store n = (
  fetch_add store n,
  if ltb (store.credits + n) (2 ^ 32)
      then some (record provider { least = min provider.least store.credits })
      else none,
)

abbrev pub set_use_global_credits : SendableCreditStore → Bool → SendableCreditStore
set_use_global_credits store use_global_credits = record store {
  use_global_credits = use_global_credits;
}

abbrev pub close : SendableCreditStore → Bool → SendableCreditStore
close store gracefully = record store {
  state = if gracefully then state_closed_gracefully else state_closed;
}

unfoldable pub take_status :
    CreditProvider → SendableCreditStore → ℕ → CreditProvider × GlobalCreditsReport
take_status provider store new_seq =
    let current = store.credits in
    let provider' =
      if provider.seq != new_seq
      then record provider { seq = new_seq; least = current }
      else provider in
    (
      record provider' { least = current },
      record { current = current; least = min provider'.least current; seq = provider'.seq },
    )

-- The drop of the provider; the users' references to the store are weak, so it is gone afterwards.
abbrev pub drop_state : ChannelState → SendableCreditStore → SendableCreditStore
drop_state state_open store = close store false
drop_state state_closed store = store
drop_state state_closed_gracefully store = store

abbrev pub drop_provider : SendableCreditStore → SendableCreditStore
drop_provider store = drop_state store.state store
