-- ===== src/Receiver/Examples.antt =====
-- receiver.rs: the theorems at concrete inputs.
use remoc.Base.{ℕ, ◌≡◌, refl, true, false, [], ◌∷◌, length, List, arith}
use remoc.Msg.Types.{port_only}
use remoc.Credit.Monitor.{UsedPortCredit}
use remoc.Credit.Assigned.{AssignedCredits, port_pool, global_pool}
use remoc.Sender.Data.{SendData, do_send}
use remoc.Receiver.{
  PortReceiveMsg, request_received_report, finished_msg, nothing, accepted_port, Receiver,
  exceeds_max_data_size, any_chunks, recv_any,
}
use remoc.Receiver.Calls.{data_error, recv}
use remoc.Receiver.Whole.{arrivals, received, IsData}
use remoc.Receiver.Delivery.{sent_messages, queued, send-recv_any}
use remoc.Receiver.Discards.{recv-discards}
use remoc.Receiver.Stream.{Streams, recv_chunk-Streams}
use remoc.Receiver.Limits.{WithinLimits, recv_any-WithinLimits}
use remoc.Receiver.Endings.{DataLimited, recv-DataLimited}

-- A send of three bytes in chunks of two.
abbrev sent : List (SendData ℕ)
sent =
    record { bytes = 5 ∷ 6 ∷ []; first = true; last = false; credits = port_only }
    ∷ record { bytes = 7 ∷ []; first = false; last = true; credits = port_only }
    ∷ []

abbrev credit : SendData ℕ → UsedPortCredit
credit msg = record { port_credit = length msg.bytes; global_credit = 0 }

abbrev after_it : List (PortReceiveMsg ℕ ℕ)
after_it = request_received_report ∷ finished_msg ∷ []

abbrev receiver : ℕ → List (PortReceiveMsg ℕ ℕ) → Receiver ℕ ℕ
receiver max_data_size rx = record {
  max_data_size = max_data_size;
  max_ports = 2;
  rx = rx;
  rx_ended = false;
  receiving = nothing;
  returned = [];
  reports = 0;
  finished = false;
  pre_connected = accepted_port;
  at_closure = accepted_port;
}

abbrev grants : List (List AssignedCredits)
grants =
    (record { pool = port_pool; credits = 2 } ∷ [])
    ∷ (record { pool = global_pool; credits = 9 } ∷ [])
    ∷ (record { pool = port_pool; credits = 4 } ∷ [])
    ∷ []

send-recv_any_example :
    IsData
      (received credit
        (sent_messages (do_send 2 grants (5 ∷ 6 ∷ 7 ∷ [])))
        after_it
        (receiver 3 after_it))
      (5 ∷ 6 ∷ 7 ∷ [])
      (recv_any (queued credit (do_send 2 grants (5 ∷ 6 ∷ 7 ∷ [])) (receiver 3 after_it)))
send-recv_any_example =
    send-recv_any credit 2 grants (5 ∷ 6 ∷ 7 ∷ []) (receiver 3 after_it) (omega arith) (omega arith)
      (ground arith) (omega arith) (omega arith) refl refl refl

recv-discards_example :
    ((recv (receiver 2 (arrivals credit sent after_it))).1 ≡ data_error (exceeds_max_data_size 2))
    × (recv_any (recv (receiver 2 (arrivals credit sent after_it))).0
        ≡ recv_any (received credit sent after_it (receiver 2 (arrivals credit sent after_it))))
recv-discards_example =
    recv-discards credit after_it 2 sent (receiver 2 (arrivals credit sent after_it)) (ground arith)
      (omega arith) (omega arith) refl refl refl refl

recv_chunk-Streams_example :
    ((recv_any (receiver 2 (arrivals credit sent after_it))).1 ≡ any_chunks)
    × Streams
        (recv_any (receiver 2 (arrivals credit sent after_it))).0
        (5 ∷ 6 ∷ 7 ∷ [])
        (received credit sent after_it (receiver 2 (arrivals credit sent after_it)))
recv_chunk-Streams_example =
    recv_chunk-Streams credit after_it 2 sent (receiver 2 (arrivals credit sent after_it))
      (ground arith) (omega arith) (omega arith) refl refl refl refl

recv_any-WithinLimits_example :
    WithinLimits
      (receiver 2 (arrivals credit sent after_it))
      4
      (recv_any (receiver 2 (arrivals credit sent after_it)))
recv_any-WithinLimits_example =
    recv_any-WithinLimits (receiver 2 (arrivals credit sent after_it)) tt

recv-DataLimited_example :
    DataLimited
      (receiver 2 (arrivals credit sent after_it))
      (recv (receiver 2 (arrivals credit sent after_it)))
recv-DataLimited_example = recv-DataLimited (receiver 2 (arrivals credit sent after_it)) tt
