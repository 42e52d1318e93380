-- ===== src/Credit/Inhibit.antt =====
-- credit.rs: when a port's peer may use global credits, as the peer is told and as the monitor has it.
-- Each operation is one step: where a return runs between the reads and the writes of `use_credits` in
-- another task, what is said here of its outcome does not hold.
use remoc.Base.{ℕ, ◌*◌, ◌/◌, ◌^◌, max, ◌≤◌, ◌<◌, ◌≡◌, Bool, true, false, List, [], ◌∷◌, arith}
use remoc.SidePort.{SidePort}
use remoc.Credit.Monitor.{
  PortCreditMonitor, UsedPortCredit, Usage, usage_active, usage_inhibiting, usage_inhibited,
  PortEvt, return_credits, change_global_credit_usage, used_credits, use_credits,
  inhibiting_global_credit_usage, start_return, set_global_credits_allowed, port_credit_monitor,
  total_used,
}

-- What the peer has been told last after some events.
abbrev pub told_after : Bool → List PortEvt → Bool
told_after told [] = told
told_after told (return_credits p n ∷ events) = told_after told events
told_after told (change_global_credit_usage p allow ∷ events) = told_after allow events

-- The event that the multiplexer task sends for a port where inhibition is due.
abbrev pub told_inhibited : Bool → Bool → Bool
told_inhibited true told = false
told_inhibited false told = told

-- The operations on a monitor, with what the peer has been told last: data arrives, the task asks
-- whether to inhibit and says so to the peer, data has been consumed, the application decides.
pub data Step (remote_port : SidePort)
    : PortCreditMonitor × Bool → PortCreditMonitor × Bool → Type 0 where
  arrive :
      (m : PortCreditMonitor) (told : Bool) (port global : ℕ) (used : UsedPortCredit)
      → (use_credits m port global).1 ≡ used_credits used
      → Step remote_port (m, told) ((use_credits m port global).0, told)
  ask :
      (m : PortCreditMonitor) (told : Bool)
      → Step remote_port
          (m, told)
          (
            (inhibiting_global_credit_usage m true).0,
            told_inhibited (inhibiting_global_credit_usage m true).1 told,
          )
  consume :
      (m : PortCreditMonitor) (told : Bool) (to_return : ℕ) (credit : UsedPortCredit)
      → credit.port_credit ≤ m.port_used
      → credit.global_credit ≤ m.global_used
      → Step remote_port
          (m, told)
          (
            (start_return m to_return credit remote_port).monitor,
            told_after told (start_return m to_return credit remote_port).usage_events,
          )
  decide :
      (m : PortCreditMonitor) (told : Bool) (allowed : Bool)
      → Step remote_port
          (m, told)
          (
            (set_global_credits_allowed m allowed remote_port).0,
            told_after told (set_global_credits_allowed m allowed remote_port).1,
          )

pub data Reachable (remote_port : SidePort) (limit throttle : ℕ)
    : PortCreditMonitor × Bool → Type 0 where
  start : Reachable remote_port limit throttle (port_credit_monitor limit throttle, true)
  step :
      (s s' : PortCreditMonitor × Bool)
      → Reachable remote_port limit throttle s
      → Step remote_port s s'
      → Reachable remote_port limit throttle s'

abbrev pub allows : Usage → Bool
allows usage_active = true
allows usage_inhibiting = true
allows usage_inhibited = false

-- The agreement of the peer's view with the monitor's, and the reason for inhibition: the
-- application, or a use at the release level at least.
abbrev pub Justified : Usage → Bool → ℕ → ℕ → Type 0
Justified usage_active allowed used release = allowed ≡ true
Justified usage_inhibiting true used release = release ≤ used
Justified usage_inhibiting false used release = ⊥
Justified usage_inhibited true used release = release ≤ used
Justified usage_inhibited false used release = Unit {0}

abbrev pub Agrees : PortCreditMonitor → Bool → Type 0
Agrees m told =
    (told ≡ allows m.global_credit_usage)
    × Justified m.global_credit_usage m.global_allowed (total_used m) m.throttle_release

Invariant : ℕ → PortCreditMonitor → Bool → Type 0
Invariant throttle m told =
    Agrees m told
    × (m.throttle ≡ throttle)
    × (m.throttle_release ≡ max (throttle / 4 * 3) 1)
    × (m.port_used < 2 ^ 32)
    × (m.global_used < 2 ^ 32)

Step-Invariant :
    (remote_port : SidePort) (throttle : ℕ) (s s' : PortCreditMonitor × Bool)
    → 1 ≤ throttle
    → Invariant throttle s.0 s.1
    → Step remote_port s s'
    → Invariant throttle s'.0 s'.1
unfolding use_credits inhibiting_global_credit_usage start_return set_global_credits_allowed
    Invariant
Step-Invariant remote_port throttle _ _ h inv (arrive m told port global used e) = ground arith
Step-Invariant remote_port throttle _ _ h inv (ask m told) = ground arith
Step-Invariant remote_port throttle _ _ h inv (consume m told to_return credit hp hg) = ground arith
Step-Invariant remote_port throttle _ _ h inv (decide m told true) = ground arith
Step-Invariant remote_port throttle _ _ h inv (decide m told false) = ground arith

Reachable-Invariant :
    (remote_port : SidePort) (limit throttle : ℕ) (s : PortCreditMonitor × Bool)
    → 1 ≤ throttle
    → Reachable remote_port limit throttle s
    → Invariant throttle s.0 s.1
unfolding Invariant
Reachable-Invariant remote_port limit throttle _ h start = ground arith
Reachable-Invariant remote_port limit throttle _ h (step s s' r t) =
    Step-Invariant remote_port throttle s s' h
      (Reachable-Invariant remote_port limit throttle s h r) t

-- Where the operations do not overlap: however the arrival of data, the requests to inhibit, the consumption of data and the decisions
-- of the application follow each other, with a throttle level of at least one: the peer has been
-- told last what the monitor has in effect; where the application allows global credits, their use
-- is inhibited or about to be only while the credits in use reach the release level; and where it
-- does not, their use is inhibited.
pub Reachable-Agrees :
    (remote_port : SidePort) (limit throttle : ℕ) (s : PortCreditMonitor × Bool)
    → 1 ≤ throttle
    → Reachable remote_port limit throttle s
    → Agrees s.0 s.1
unfolding Invariant
Reachable-Agrees remote_port limit throttle s h r =
    (Reachable-Invariant remote_port limit throttle s h r).0
