-- ===== src/Credit/Flow.antt =====
-- credit.rs: the port credits of one direction of a channel, from the sender's store over the data on
-- the way and in the receiver's buffer back to the sender.
use remoc.Base.{ℕ, ◌+◌, ◌-◌, ◌≤◌, ◌≡◌, some, List, [], ◌∷◌, ◌++◌}
use remoc.SidePort.{SidePort}
use remoc.Credit.Assigned.{port_pool}
use remoc.Credit.Store.{
  SendableCreditStore, CreditProvider, new_store, new_provider, try_take_credits, fetch_add,
  provide,
}
use remoc.Credit.Monitor.{
  PortCreditMonitor, UsedPortCredit, PortEvt, return_credits, change_global_credit_usage, Returned,
  used_credits, use_credits, start_return, port_credit_monitor,
}

-- `assigned` are the credits that senders have taken and not spent; a message on the way carries
-- its port and global credits; `held` are the messages that are received and not yet consumed; `lost`
-- counts credits that have been taken for a message that is then not sent, since the queue of events
-- is full or closed or the call is cancelled (`take` is before the send in sender.rs). The charge and
-- the return of credits at the receiver, which add to and take from the same counter, are each one
-- step.
pub record Flow : Type 0 where
  pub provider : CreditProvider
  pub store : SendableCreditStore
  pub assigned : ℕ
  pub sent : List (ℕ × ℕ)
  pub monitor : PortCreditMonitor
  pub held : List UsedPortCredit
  pub to_return : ℕ
  pub returns : List ℕ
  pub lost : ℕ

abbrev pub returned : List PortEvt → List ℕ
returned [] = []
returned (return_credits p n ∷ events) = n ∷ returned events
returned (change_global_credit_usage p allow ∷ events) = returned events

abbrev pub begin : ℕ → ℕ → Flow
begin limit throttle =
    let store = new_store port_pool limit in
    record {
      provider = new_provider store;
      store = store;
      assigned = 0;
      sent = [];
      monitor = port_credit_monitor limit throttle;
      held = [];
      to_return = 0;
      returns = [];
      lost = 0;
    }

abbrev pub after_consume : Flow → List UsedPortCredit → Returned → Flow
after_consume f rest r = record f {
  held = rest;
  monitor = r.monitor;
  to_return = r.to_return;
  returns = f.returns ++ returned r.return_events;
}

pub data Step (remote_port : SidePort) : Flow → Flow → Type 0 where
  request :
      (f : Flow) (req min_req : ℕ)
      → Step remote_port f (record f {
        store = (try_take_credits f.store req min_req).0;
        assigned = f.assigned + (try_take_credits f.store req min_req).1;
      })
  drop_credits :
      (f : Flow) (n : ℕ)
      → n ≤ f.assigned
      → Step remote_port f (record f { store = fetch_add f.store n; assigned = f.assigned - n })
  send :
      (f : Flow) (port global : ℕ)
      → port ≤ f.assigned
      → Step remote_port f
          (record f { assigned = f.assigned - port; sent = f.sent ++ ((port, global) ∷ []) })
  lose :
      (f : Flow) (n : ℕ)
      → n ≤ f.assigned
      → Step remote_port f (record f { assigned = f.assigned - n; lost = f.lost + n })
  arrive :
      (f : Flow) (port global : ℕ) (rest : List (ℕ × ℕ)) (used : UsedPortCredit)
      → f.sent ≡ (port, global) ∷ rest
      → (use_credits f.monitor port global).1 ≡ used_credits used
      → Step remote_port f (record f {
        sent = rest;
        monitor = (use_credits f.monitor port global).0;
        held = f.held ++ (used ∷ []);
      })
  consume :
      (f : Flow) (credit : UsedPortCredit) (rest : List UsedPortCredit)
      → f.held ≡ credit ∷ rest
      → Step remote_port f
          (after_consume f rest (start_return f.monitor f.to_return credit remote_port))
  deliver :
      (f : Flow) (n : ℕ) (rest : List ℕ) (provider : CreditProvider)
      → f.returns ≡ n ∷ rest
      → (provide f.provider f.store n).1 ≡ some provider
      → Step remote_port f (record f {
        returns = rest;
        store = (provide f.provider f.store n).0;
        provider = provider;
      })

pub data Reachable (remote_port : SidePort) (limit throttle : ℕ) : Flow → Type 0 where
  start : Reachable remote_port limit throttle (begin limit throttle)
  step :
      (f f' : Flow)
      → Reachable remote_port limit throttle f
      → Step remote_port f f'
      → Reachable remote_port limit throttle f'
