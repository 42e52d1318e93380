-- ===== src/Credit/Examples.antt =====
-- credit.rs: the theorems at concrete inputs.
use remoc.Base.{◌+◌, ◌-◌, ◌≡◌, refl, ◌≤◌, true, some, List, [], ◌∷◌, arith}
use remoc.SidePort.{remote}
use remoc.Sizer.{new_size}
use remoc.Credit.Assigned.{AssignedCredits, port_pool, global_pool, take_mixed}
use remoc.Credit.Spend.{Spent, take_mixed-Spent}
use remoc.Credit.Store.{new_store, try_take_credits}
use remoc.Credit.User.{MixedCreditUser, Stores, try_request_mixed}
use remoc.Credit.Requests.{Handed, try_request_mixed-Handed}
use remoc.Credit.Monitor.{
  UsedPortCredit, used_credits, use_credits, start_return, port_credit_monitor,
}
use remoc.Credit.Flow
use remoc.Credit.Flow.{Flow, begin, after_consume}
use remoc.Credit.Conserve.{
  Conserves, HasPortCredits, Reachable-Conserves, arrive-HasPortCredits, four_credits_left,
}
use remoc.Credit.Global.{GlobalCreditMonitor, return_to_target}
use remoc.Credit.GlobalReturn.{Resized, return_to_target-Resized}

abbrev two_pools : List AssignedCredits
two_pools =
    record { pool = global_pool; credits = 3 } ∷ record { pool = port_pool; credits = 4 } ∷ []

take_mixed-Spent_example : Spent two_pools 5 (take_mixed two_pools 5)
take_mixed-Spent_example = take_mixed-Spent two_pools 5

abbrev user : MixedCreditUser
user = record {
  port_user = record { override_graceful_close = true };
  global_user = some (record { override_graceful_close = true });
  global_enabled = true;
}

abbrev stores : Stores
stores = record {
  port_store = some (new_store port_pool 3);
  global_store = some (new_store global_pool 10);
}

try_request_mixed-Handed_example : Handed stores 8 5 (try_request_mixed user stores 8 5)
try_request_mixed-Handed_example =
    try_request_mixed-Handed user stores 8 5 (omega arith) (refl, omega arith) (refl, omega arith)

abbrev one_byte : UsedPortCredit
one_byte = record { port_credit = 1; global_credit = 0 }

one_byte_used : (use_credits (port_credit_monitor 4 1) 1 0).1 ≡ used_credits one_byte
unfolding use_credits
one_byte_used = refl

abbrev requested : Flow
requested = record (begin 4 1) {
  store = (try_take_credits (begin 4 1).store 1 1).0;
  assigned = 0 + (try_take_credits (begin 4 1).store 1 1).1;
}

requested-Reachable : Flow.Reachable (remote 1) 4 1 requested
requested-Reachable = Flow.step _ _ Flow.start (Flow.request (begin 4 1) 1 1)

Reachable-Conserves_example : Conserves 4 requested
Reachable-Conserves_example =
    Reachable-Conserves (remote 1) 4 1 requested (omega arith) requested-Reachable

four_credits_left_example : 4 ≤ requested.store.credits + requested.assigned + requested.lost
four_credits_left_example =
    four_credits_left (remote 1) 4 1 requested (omega arith) (omega arith) requested-Reachable refl
      refl refl

abbrev on_the_way : Flow
on_the_way = record requested { assigned = requested.assigned - 1; sent = (1, 0) ∷ [] }

one_assigned : 1 ≤ requested.assigned
unfolding try_take_credits
one_assigned = omega arith

on_the_way-Reachable : Flow.Reachable (remote 1) 4 1 on_the_way
on_the_way-Reachable = Flow.step _ _ requested-Reachable (Flow.send requested 1 0 one_assigned)

arrive-HasPortCredits_example : HasPortCredits (use_credits on_the_way.monitor 1 0).1
arrive-HasPortCredits_example =
    arrive-HasPortCredits (remote 1) 4 1 on_the_way 1 0 [] (omega arith) on_the_way-Reachable refl

abbrev arrived : Flow
arrived = record on_the_way {
  sent = [];
  monitor = (use_credits on_the_way.monitor 1 0).0;
  held = one_byte ∷ [];
}

abbrev consumed : Flow
consumed = after_consume arrived [] (start_return arrived.monitor 0 one_byte (remote 1))

consumed-Reachable : Flow.Reachable (remote 1) 4 1 consumed
consumed-Reachable =
    Flow.step _ _
      (Flow.step _ _ on_the_way-Reachable
        (Flow.arrive on_the_way 1 0 [] one_byte refl one_byte_used))
      (Flow.consume arrived one_byte [] refl)

one_returned : consumed.returns ≡ 1 ∷ []
unfolding start_return use_credits
one_returned = refl

abbrev monitor : GlobalCreditMonitor
monitor = record { total = 100; used = 30; to_return = 20; return_threshold = 10; seq = 255 }

return_to_target-Resized_example : Resized monitor 60 (return_to_target monitor (new_size 60))
return_to_target-Resized_example =
    return_to_target-Resized monitor (new_size 60) (omega arith, omega arith)
      (omega arith, omega arith) (omega arith)
