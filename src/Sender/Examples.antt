-- ===== src/Sender/Examples.antt =====
-- sender.rs: the theorems at concrete inputs.
use remoc.Base.{ℕ, List, some, ◌≡◌, refl, true, false, [], ◌∷◌, length, arith}
use remoc.Sender.{PortSend, send_rounds}
use remoc.Credit.Assigned.{AssignedCredits, port_pool, global_pool}
use remoc.Sender.Data.{do_send}
use remoc.Sender.Whole.{IsSent, do_send-IsSent}
use remoc.Credit.Store.{new_store}
use remoc.Credit.User.{MixedCreditUser, Stores, try_request_mixed}
use remoc.Sender.Try.{EventQueue, do_try_send}
use remoc.Sender.Attempts.{AllTried, do_try_send-AllTried}
use remoc.Sender.Chunks.{send_chunks}
use remoc.Sender.Message.{payload, IsMessage, send_chunks-IsMessage}
use remoc.Sender.Rounds.{ports_of, send_rounds-starved}

-- Two credits are left of six after the first port.
abbrev two_left : PortSend ℕ
two_left = record { ports_response = 8 ∷ 9 ∷ []; credits = 2; first = false }

abbrev fresh : PortSend ℕ
fresh = record { ports_response = 7 ∷ 8 ∷ 9 ∷ []; credits = 0; first = true }

send_rounds-starved_example :
    let r = send_rounds 16 (8 ∷ 8 ∷ 8 ∷ []) two_left in
    (r.0.ports_response ≡ 8 ∷ 9 ∷ []) × (r.0.credits ≡ 2) × (length r.1 ≡ 3) × (ports_of r.1 ≡ [])
send_rounds-starved_example =
    send_rounds-starved 16 (8 ∷ 8 ∷ 8 ∷ []) two_left (omega arith) (omega arith) refl

abbrev grants : List (List AssignedCredits)
grants =
    (record { pool = port_pool; credits = 3 } ∷ record { pool = global_pool; credits = 2 } ∷ [])
    ∷ (record { pool = global_pool; credits = 9 } ∷ [])
    ∷ (record { pool = port_pool; credits = 4 } ∷ [])
    ∷ []

abbrev three_bytes : List ℕ
three_bytes = 5 ∷ 6 ∷ 7 ∷ []

do_send-IsSent_example : IsSent 2 three_bytes (do_send 2 grants three_bytes)
do_send-IsSent_example =
    do_send-IsSent 2 grants three_bytes (omega arith) (omega arith) (ground arith)

abbrev stores : Stores
stores = record {
  port_store = some (new_store port_pool 3);
  global_store = some (new_store global_pool 10);
}

abbrev user : MixedCreditUser
user = record {
  port_user = record { override_graceful_close = true };
  global_user = some (record { override_graceful_close = true });
  global_enabled = true;
}

-- There is room for the first of two chunks.
abbrev one_place : EventQueue
one_place = record { is_open = true; room = 1 }

do_try_send-AllTried_example :
    AllTried one_place
      (try_request_mixed user stores 3 3).1
      stores
      2
      three_bytes
      (do_try_send 2 one_place user stores three_bytes)
do_try_send-AllTried_example =
    do_try_send-AllTried 2 one_place user stores three_bytes (omega arith) (omega arith)
      (omega arith) (refl, omega arith) (refl, omega arith)

-- An empty chunk stands between the others.
abbrev chunks : List (List ℕ)
chunks = (5 ∷ 6 ∷ []) ∷ [] ∷ []

abbrev three_credits : List AssignedCredits
three_credits = record { pool = global_pool; credits = 3 } ∷ []

abbrev answers : List (List AssignedCredits)
answers =
    (record { pool = port_pool; credits = 1 } ∷ [])
    ∷ (record { pool = port_pool; credits = 1 } ∷ [])
    ∷ (record { pool = port_pool; credits = 1 } ∷ [])
    ∷ grants

send_chunks-IsMessage_example :
    IsMessage 2 true
      (payload chunks three_bytes)
      (send_chunks 2 answers chunks three_bytes three_credits true)
send_chunks-IsMessage_example =
    send_chunks-IsMessage 2 answers chunks three_bytes three_credits true (omega arith)
      (omega arith) (ground arith) (ground arith)
