-- ===== src/Credit/Monitor.antt =====
-- credit.rs, `PortCreditMonitor` and `PortCreditReturner`: the credits that a port's received data
-- uses. Each atomic operation is one step on the monitor; the queue of events that did not fit into
-- the channel keeps their order, so it is part of the list of events that a call sends.
use remoc.Base.{
  ℕ, ◌+◌, ◌-◌, ◌*◌, ◌/◌, ◌%◌, ◌^◌, min, max, ltb, leb, if◌then◌else◌, Bool, true, false, ◌&&◌, List,
  [], ◌∷◌,
}
use remoc.SidePort.{SidePort}

pub record UsedPortCredit : Type 0 where
  pub port_credit : ℕ
  pub global_credit : ℕ

-- The constants of the field `global_credit_usage`.
pub data Usage : Type 0 where
  usage_active : Usage
  usage_inhibiting : Usage
  usage_inhibited : Usage

pub record PortCreditMonitor : Type 0 where
  pub port_used : ℕ
  pub port_limit : ℕ
  pub throttle : ℕ
  pub throttle_release : ℕ
  pub global_used : ℕ
  pub global_allowed : Bool
  pub global_credit_usage : Usage

pub data UseError : Type 0 where
  overflowed_port_credits : UseError
  exceeded_port_limit : UseError
  overflowed_global_credits : UseError

-- The monitor afterwards, which has counted the credits also where an error is returned.
pub data Use : Type 0 where
  used_credits : UsedPortCredit → Use
  use_error : UseError → Use

abbrev pub saturating_add : ℕ → ℕ → ℕ
saturating_add a b = min (a + b) (2 ^ 32 - 1)

abbrev pub total_used : PortCreditMonitor → ℕ
total_used m = saturating_add m.port_used m.global_used

-- `compare_exchange` of active by inhibiting.
abbrev pub start_inhibiting : Usage → Usage
start_inhibiting usage_active = usage_inhibiting
start_inhibiting usage_inhibiting = usage_inhibiting
start_inhibiting usage_inhibited = usage_inhibited

-- `use_credits` from the test of the throttle level on.
abbrev pub throttle_usage : PortCreditMonitor → PortCreditMonitor
throttle_usage m =
    if leb m.throttle (total_used m)
    then record m { global_credit_usage = start_inhibiting m.global_credit_usage }
    else m

unfoldable pub use_credits : PortCreditMonitor → ℕ → ℕ → PortCreditMonitor × Use
use_credits m port global =
    let new_port_used = m.port_used + port in
    let new_global_used = m.global_used + global in
    let m1 = record m { port_used = new_port_used % 2 ^ 32 } in
    let m2 = record m1 { global_used = new_global_used % 2 ^ 32 } in
    if leb (2 ^ 32) new_port_used
    then (m1, use_error overflowed_port_credits)
    else if ltb m.port_limit new_port_used
    then (m1, use_error exceeded_port_limit)
    else if leb (2 ^ 32) new_global_used
    then (m2, use_error overflowed_global_credits)
    else (throttle_usage m2, used_credits (record { port_credit = port; global_credit = global }))

abbrev pub is_inhibiting : Usage → Bool
is_inhibiting usage_active = false
is_inhibiting usage_inhibiting = true
is_inhibiting usage_inhibited = false

unfoldable pub inhibiting_global_credit_usage : PortCreditMonitor → Bool → PortCreditMonitor × Bool
inhibiting_global_credit_usage m will_inhibit = (
  (if will_inhibit && is_inhibiting m.global_credit_usage
      then record m { global_credit_usage = usage_inhibited }
      else m),
  is_inhibiting m.global_credit_usage,
)

-- mux.rs, the two events that a returner sends.
pub data PortEvt : Type 0 where
  return_credits : SidePort → ℕ → PortEvt
  change_global_credit_usage : SidePort → Bool → PortEvt

-- The threshold of the credits to return: a quarter of the limit, and one where the remote endpoint
-- could be left with less than the four credits that a message with one port takes. The limit is
-- at least four by the check of the configuration, so the difference does not go below zero.
abbrev pub return_threshold : ℕ → ℕ
return_threshold port_limit =
    let threshold = max (port_limit / 4) 1 in
    if leb (port_limit - threshold) 4 then 1 else threshold

-- `fetch_sub`
abbrev pub wrapping_sub : ℕ → ℕ → ℕ
wrapping_sub a b = (a + (2 ^ 32 - b)) % 2 ^ 32

abbrev pub allow_event : Usage → SidePort → List PortEvt
allow_event usage_active remote_port = []
allow_event usage_inhibiting remote_port = []
allow_event usage_inhibited remote_port = change_global_credit_usage remote_port true ∷ []

abbrev pub disallow_event : Usage → SidePort → List PortEvt
disallow_event usage_active remote_port = change_global_credit_usage remote_port false ∷ []
disallow_event usage_inhibiting remote_port = change_global_credit_usage remote_port false ∷ []
disallow_event usage_inhibited remote_port = []

-- What is left to return, and the event that returns credits.
abbrev pub collect_return : ℕ → ℕ → SidePort → ℕ × List PortEvt
collect_return threshold to_return remote_port =
    if leb threshold to_return
    then (0, return_credits remote_port to_return ∷ [])
    else (to_return, [])

-- The monitor and the credits left to return afterwards, the events for returned credits, and the
-- events for the use of global credits, which follow those.
pub record Returned : Type 0 where
  pub monitor : PortCreditMonitor
  pub to_return : ℕ
  pub return_events : List PortEvt
  pub usage_events : List PortEvt

unfoldable pub start_return : PortCreditMonitor → ℕ → UsedPortCredit → SidePort → Returned
start_return m to_return credit remote_port =
    let m' = record m {
      port_used = wrapping_sub m.port_used credit.port_credit;
      global_used = wrapping_sub m.global_used credit.global_credit;
    } in
    let release = ltb (total_used m') m.throttle_release && m.global_allowed in
    let (left, events) =
      collect_return (return_threshold m.port_limit) ((to_return + credit.port_credit) % 2 ^ 32)
        remote_port in
    record {
      monitor = if release then record m' { global_credit_usage = usage_active } else m';
      to_return = left;
      return_events = events;
      usage_events = if release then allow_event m.global_credit_usage remote_port else [];
    }

unfoldable pub set_global_credits_allowed :
    PortCreditMonitor → Bool → SidePort → PortCreditMonitor × List PortEvt
set_global_credits_allowed m true remote_port =
    let m' = record m { global_allowed = true } in
    if m.global_allowed
    then (m, [])
    else if ltb (total_used m') m.throttle_release
    then (
      record m' { global_credit_usage = usage_active },
      allow_event m.global_credit_usage remote_port,
    )
    else (m', [])
set_global_credits_allowed m false remote_port =
    if m.global_allowed
    then (
      record m { global_allowed = false; global_credit_usage = usage_inhibited },
      disallow_event m.global_credit_usage remote_port,
    )
    else (m, [])

-- `port_credit_monitor`; the returner starts with nothing to return.
abbrev pub port_credit_monitor : ℕ → ℕ → PortCreditMonitor
port_credit_monitor limit throttle = record {
  port_used = 0;
  port_limit = limit;
  throttle = throttle;
  throttle_release = max (throttle / 4 * 3) 1;
  global_used = 0;
  global_allowed = true;
  global_credit_usage = usage_active;
}
