-- ===== src/Receiver/Delivery.antt =====
-- sender.rs and receiver.rs: data from `Sender::send` to `Receiver::recv_any`.
use remoc.Base.{ℕ, ◌^◌, ◌≤◌, ◌<◌, ◌≡◌, refl, max, false, List, [], length, All}
use remoc.Credit.Monitor.{UsedPortCredit}
use remoc.Credit.Assigned.{AssignedCredits}
use remoc.Sender.Data.{SendData, Sending, all_sent, waits, panicked, out_of_fuel, do_send}
use remoc.Sender.Cuts.{IsGrant}
use remoc.Sender.Whole.{IsSent, do_send-IsSent}
use remoc.Receiver.{accepted_port, Receiver, recv_any}
use remoc.Receiver.Whole.{arrivals, received, IsData, NotChunks, recv_any-IsData}

abbrev pub sent_messages {ℓ} : {A : Type ℓ} → Sending A → List (SendData A)
sent_messages (all_sent msgs) = msgs
sent_messages (waits msgs) = msgs
sent_messages panicked = []
sent_messages out_of_fuel = []

module _ {ℓ κ} {A : Type ℓ} {Q : Type κ} where
  -- The receiver with the messages of a send in front of its queue.
  abbrev pub queued : (SendData A → UsedPortCredit) → Sending A → Receiver A Q → Receiver A Q
  queued credit sending r = record r { rx = arrivals credit (sent_messages sending) r.rx }

  sent-IsData :
      (credit : SendData A → UsedPortCredit) (chunk_size : ℕ) (data' : List A) (sending : Sending A)
      (r : Receiver A Q)
      → IsSent chunk_size data' sending
      → length data' ≤ r.max_data_size
      → r.max_data_size < 2 ^ 64
      → r.pre_connected ≡ accepted_port
      → r.finished ≡ false
      → NotChunks r.receiving
      → IsData
          (received credit (sent_messages sending) r.rx r)
          data'
          (recv_any (queued credit sending r))
  sent-IsData credit chunk_size data' (all_sent msgs) r (e, cut, l) h k p f n = rw⁻¹ e (
      recv_any-IsData credit r.rx chunk_size msgs (record r { rx = arrivals credit msgs r.rx }) cut
        l (rw e h) k refl p f n)
  sent-IsData credit chunk_size data' (waits msgs) r s h k p f n = absurd s.0
  sent-IsData credit chunk_size data' panicked r s h k p f n = absurd s.0
  sent-IsData credit chunk_size data' out_of_fuel r s h k p f n = absurd s.0

  -- Data that `do_send` sends, with a chunk size above zero and an answer to every request for
  -- credits, reaches the caller of `recv_any` unchanged and whole, where the data is within the
  -- limit of the receiver, the port is accepted and open, no chunked reception is in progress and
  -- the messages stand first in its queue; the call takes these messages from the queue, no others.
  pub send-recv_any :
      (credit : SendData A → UsedPortCredit) (chunk_size : ℕ) (grants : List (List AssignedCredits))
      (data' : List A) (r : Receiver A Q)
      → 1 ≤ chunk_size
      → max (length data') 1 ≤ length grants
      → All IsGrant grants
      → length data' ≤ r.max_data_size
      → r.max_data_size < 2 ^ 64
      → r.pre_connected ≡ accepted_port
      → r.finished ≡ false
      → NotChunks r.receiving
      → IsData
          (received credit (sent_messages (do_send chunk_size grants data')) r.rx r)
          data'
          (recv_any (queued credit (do_send chunk_size grants data') r))
  send-recv_any credit chunk_size grants data' r c n g h k p f nc =
      sent-IsData credit chunk_size data' (do_send chunk_size grants data') r
        (do_send-IsSent chunk_size grants data' c n g) h k p f nc
