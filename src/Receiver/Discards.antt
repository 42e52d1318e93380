-- ===== src/Receiver/Discards.antt =====
-- receiver.rs: a message above `max_data_size` that `recv` discards.
use remoc.Base.{
  ℕ, suc, ◌^◌, ◌<◌, ◌≡◌, refl, sym, ap, ◌∙◌, true, false, List, [], ◌∷◌, ◌++◌, length, arith,
}
use remoc.Credit.Monitor.{UsedPortCredit}
use remoc.Sender.Data.{SendData}
use remoc.Sender.Cuts.{bytes_of, IsCut}
use remoc.Receiver.{
  PortReceiveMsg, data_received, new_buf, nothing, accepted_port, Receiver, any_chunks, after_turn,
  exceeds_max_data_size, handle_any, any_loop, recv_any,
}
use remoc.Receiver.Calls.{data_error, recv, recv_loop, discard_chunks}
use remoc.Receiver.Whole.{
  arrivals, returned_credits, received, NotChunks, recv_any-loop, any_loop-cons,
}
use remoc.Receiver.Chunked.{in_chunks, Exceeds, any_loop-Exceeds}

module _ {ℓ κ} {A : Type ℓ} {Q : Type κ} where
  -- The chunks of a message whose start is gone are dropped.
  any_loop-skip :
      (credit : SendData A → UsedPortCredit) (rest : List (PortReceiveMsg A Q)) (chunk_size : ℕ)
      (msgs : List (SendData A)) (r : Receiver A Q) (returned : List UsedPortCredit)
      → IsCut chunk_size false msgs
      → any_loop
          (arrivals credit msgs rest)
          (record r { rx = arrivals credit msgs rest; receiving = nothing; returned = returned })
        ≡ any_loop rest (record r {
          rx = rest;
          receiving = nothing;
          returned = returned_credits credit returned msgs;
        })
  unfolding handle_any
  any_loop-skip credit rest chunk_size [] r returned cut = refl
  any_loop-skip credit rest chunk_size (msg ∷ msgs) r returned cut =
      let rx = arrivals credit msgs rest in
      any_loop-cons
        (data_received (record {
          buf = msg.bytes;
          first = msg.first;
          last = msg.last;
          port_credit = credit msg;
        }))
        rx
        (record r {
          rx = arrivals credit (msg ∷ msgs) rest;
          receiving = nothing;
          returned = returned;
        })
      ∙ ap
          (λ first.
            after_turn
              (handle_any (record r { rx = rx; receiving = nothing; returned = returned })
                (data_received (record {
                  buf = msg.bytes;
                  first = first;
                  last = msg.last;
                  port_credit = credit msg;
                })))
              (any_loop rx))
          cut.0
      ∙ any_loop-skip credit rest chunk_size msgs r (returned ++ (credit msg ∷ [])) cut.3

  recv_loop-discards :
      (fuel : ℕ) (r r' : Receiver A Q)
      → recv_any r ≡ (r', any_chunks)
      → recv_loop (suc fuel) r
        ≡ (discard_chunks r', data_error (exceeds_max_data_size r'.max_data_size))
  unfolding recv_loop
  recv_loop-discards fuel r r' e = rw e refl

  Exceeds-discards :
      (credit : SendData A → UsedPortCredit) (rest : List (PortReceiveMsg A Q)) (chunk_size : ℕ)
      (msgs : List (SendData A)) (r : Receiver A Q)
      → r.rx ≡ arrivals credit msgs rest
      → r.pre_connected ≡ accepted_port
      → r.finished ≡ false
      → NotChunks r.receiving
      → Exceeds credit rest chunk_size msgs r new_buf
      → ((recv r).1 ≡ data_error (exceeds_max_data_size r.max_data_size))
        × (recv_any (recv r).0 ≡ recv_any (received credit msgs rest r))
  unfolding recv discard_chunks
  Exceeds-discards credit rest chunk_size msgs r q p f n
        (left, chunks, returned, cut, bytes, credits, run) =
      let called =
        recv_loop-discards (length r.rx) r (in_chunks credit rest r left chunks returned)
          (recv_any-loop r p f n ∙ ap (λ rx. any_loop rx r) q ∙ run) in
      (
        ap (λ res. res.1) called,
        ap (λ res. recv_any res.0) called
            ∙ recv_any-loop (discard_chunks (in_chunks credit rest r left chunks returned)) p f refl
            ∙ any_loop-skip credit rest chunk_size left r returned cut
            ∙ ap (λ c. any_loop rest (record r { rx = rest; receiving = nothing; returned = c }))
                credits
            ∙ sym (recv_any-loop (received credit msgs rest r) p f refl),
      )

  -- Where a port is accepted and open, no chunked reception is in progress, and the queue starts with
  -- the messages of one send, whose bytes exceed the limit of the receiver: `recv` reports the limit,
  -- and the next call of `recv_any` does what it does on a receiver whose queue starts behind that
  -- send, which has got back the credits of all its messages.
  pub recv-discards :
      (credit : SendData A → UsedPortCredit) (rest : List (PortReceiveMsg A Q)) (chunk_size : ℕ)
      (msgs : List (SendData A)) (r : Receiver A Q)
      → IsCut chunk_size true msgs
      → r.max_data_size < length (bytes_of msgs)
      → r.max_data_size < 2 ^ 64
      → r.rx ≡ arrivals credit msgs rest
      → r.pre_connected ≡ accepted_port
      → r.finished ≡ false
      → NotChunks r.receiving
      → ((recv r).1 ≡ data_error (exceeds_max_data_size r.max_data_size))
        × (recv_any (recv r).0 ≡ recv_any (received credit msgs rest r))
  recv-discards credit rest chunk_size [] r cut h k q p f n = absurd (omega (arith, h))
  recv-discards credit rest chunk_size (msg ∷ msgs) r cut h k q p f n =
      Exceeds-discards credit rest chunk_size (msg ∷ msgs) r q p f n (
        any_loop-Exceeds credit rest chunk_size msg msgs true r new_buf cut refl (omega (arith, h))
          k)
