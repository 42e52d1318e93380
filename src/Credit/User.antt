-- ===== src/Credit/User.antt =====
-- credit.rs, `CreditUser` and `MixedCreditUser`: requests that do not wait. The stores are behind
-- weak references and may be gone. The debug assertions on the arguments are not part of the code
-- that runs.
use remoc.Base.{ℕ, ◌-◌, ◌==◌, if◌then◌else◌, Bool, true, ◌&&◌, Option, none, some, List, [], ◌∷◌}
use remoc.Credit.Assigned.{CreditPool, port_pool, global_pool, AssignedCredits, add}
use remoc.Credit.Store.{
  SendError, ch_mux, SendableCreditStore, check_sendable, try_take_credits, drop_assigned,
}

-- `panicked` is the assertion of `MixedAssignedCredits::add`.
pub data Request {ℓ} (A : Type ℓ) : Type ℓ where
  granted : A → Request A
  refused : SendError → Request A
  panicked : Request A

pub record CreditUser : Type 0 where
  pub override_graceful_close : Bool

abbrev pub user_check_sendable : CreditUser → Option SendableCreditStore → Option SendError
user_check_sendable user none = some ch_mux
user_check_sendable user (some store) = check_sendable store user.override_graceful_close

abbrev pub remote_allows_global_credits : Option SendableCreditStore → Bool
remote_allows_global_credits none = true
remote_allows_global_credits (some store) = store.use_global_credits

abbrev pub grant :
    CreditPool
    → SendableCreditStore × ℕ
    → Option SendableCreditStore × Request (Option AssignedCredits)
grant pool (store, taken) = (
  some store,
  granted (if taken == 0 then none else some (record { pool = pool; credits = taken })),
)

abbrev pub try_checked :
    Option SendError
    → SendableCreditStore
    → ℕ
    → ℕ
    → Option SendableCreditStore × Request (Option AssignedCredits)
try_checked (some e) store req min_req = (some store, refused e)
try_checked none store req min_req = grant store.pool (try_take_credits store req min_req)

abbrev pub try_request :
    CreditUser
    → Option SendableCreditStore
    → ℕ
    → ℕ
    → Option SendableCreditStore × Request (Option AssignedCredits)
try_request user none req min_req = (none, refused ch_mux)
try_request user (some store) req min_req =
    try_checked (check_sendable store user.override_graceful_close) store req min_req

pub record MixedCreditUser : Type 0 where
  pub port_user : CreditUser
  pub global_user : Option CreditUser
  pub global_enabled : Bool

-- The two stores.
pub record Stores : Type 0 where
  pub port_store : Option SendableCreditStore
  pub global_store : Option SendableCreditStore

-- The drop of `MixedAssignedCredits`.
abbrev pub drop_in : CreditPool → AssignedCredits → Stores → Stores
drop_in port_pool ac st = record st { port_store = drop_assigned ac st.port_store }
drop_in global_pool ac st = record st { global_store = drop_assigned ac st.global_store }

unfoldable pub drop_mixed : List AssignedCredits → Stores → Stores
drop_mixed [] st = st
drop_mixed (ac ∷ mixed) st = drop_mixed mixed (drop_in ac.pool ac st)

abbrev pub Mixed : Type 0
Mixed = Stores × Request (Option (List AssignedCredits))

-- The end of `try_request`, with the mixed credits and what is missing of the minimum.
abbrev pub finish : Stores → List AssignedCredits → ℕ → Mixed
finish st mixed min_req =
    if min_req == 0 then (st, granted (some mixed)) else (drop_mixed mixed st, granted none)

abbrev pub add_last : Stores → Option (List AssignedCredits) → ℕ → Mixed
add_last st none min_req = (st, panicked)
add_last st (some mixed) min_req = finish st mixed min_req

abbrev pub after_global :
    Stores
    → List AssignedCredits
    → ℕ
    → Option SendableCreditStore × Request (Option AssignedCredits)
    → Mixed
after_global st mixed min_req (s, refused e) =
    (drop_mixed mixed (record st { global_store = s }), refused e)
after_global st mixed min_req (s, granted none) =
    finish (record st { global_store = s }) mixed min_req
after_global st mixed min_req (s, granted (some ac)) =
    add_last (record st { global_store = s }) (add mixed ac) (min_req - ac.credits)
after_global st mixed min_req (s, panicked) = (record st { global_store = s }, panicked)

abbrev pub fill_from : Option CreditUser → Stores → List AssignedCredits → ℕ → ℕ → Mixed
fill_from none st mixed req min_req = finish st mixed min_req
fill_from (some global) st mixed req min_req =
    after_global st mixed min_req (try_request global st.global_store req min_req)

-- From the test of `req` on.
abbrev pub fill_global : MixedCreditUser → Stores → List AssignedCredits → ℕ → ℕ → Mixed
fill_global user st mixed req min_req =
    if req == 0
    then finish st mixed min_req
    else if user.global_enabled && remote_allows_global_credits st.port_store
    then fill_from user.global_user st mixed req min_req
    else finish st mixed min_req

abbrev pub fill_added : MixedCreditUser → Stores → Option (List AssignedCredits) → ℕ → ℕ → Mixed
fill_added user st none req min_req = (st, panicked)
fill_added user st (some mixed) req min_req = fill_global user st mixed req min_req

abbrev pub after_port :
    MixedCreditUser
    → Stores
    → ℕ
    → ℕ
    → Option SendableCreditStore × Request (Option AssignedCredits)
    → Mixed
after_port user st req min_req (s, refused e) = (record st { port_store = s }, refused e)
after_port user st req min_req (s, granted none) =
    fill_global user (record st { port_store = s }) [] req min_req
after_port user st req min_req (s, granted (some ac)) =
    fill_added user (record st { port_store = s }) (add [] ac) (req - ac.credits)
      (min_req - ac.credits)
after_port user st req min_req (s, panicked) = (record st { port_store = s }, panicked)

abbrev pub after_check : Option SendError → MixedCreditUser → Stores → ℕ → ℕ → Mixed
after_check (some e) user st req min_req = (st, refused e)
after_check none user st req min_req =
    after_port user st req min_req (try_request user.port_user st.port_store req min_req)

-- `MixedCreditUser::try_request`
unfoldable pub try_request_mixed : MixedCreditUser → Stores → ℕ → ℕ → Mixed
try_request_mixed user st req min_req =
    after_check (user_check_sendable user.port_user st.port_store) user st req min_req
