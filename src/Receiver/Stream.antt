-- ===== src/Receiver/Stream.antt =====
-- receiver.rs: `Receiver::recv_chunk` after `recv_any` has announced a message above the limit.
use remoc.Base.{
  ℕ, ◌^◌, ◌<◌, ◌≡◌, refl, sym, ap, ◌∙◌, Bool, true, false, List, [], ◌∷◌, ◌++◌, length,
  append_assoc, arith,
}
use remoc.Credit.Monitor.{UsedPortCredit}
use remoc.Sender.Data.{SendData, is_nil}
use remoc.Sender.Cuts.{bytes_of, IsCut}
use remoc.Receiver.{
  PortReceiveMsg, data_received, new_buf, joined, nothing, chunks_state, accepted_port, Receiver,
  any_chunks, any_loop, recv_any,
}
use remoc.Receiver.Calls.{a_chunk, chunk_end, chunk_loop, handle_chunk, recv_chunk}
use remoc.Receiver.Whole.{arrivals, returned_credits, received, NotChunks, recv_any-loop}
use remoc.Receiver.Chunked.{in_chunks, Exceeds, any_loop-Exceeds}

module _ {ℓ κ} {A : Type ℓ} {Q : Type κ} where
  -- Calls of `recv_chunk` until one gives the end: the receiver before, the bytes, the receiver after.
  pub data Streams : Receiver A Q → List A → Receiver A Q → Type (ℓ ⊔ κ) where
    ended : (r r' : Receiver A Q) → recv_chunk r ≡ (r', chunk_end) → Streams r [] r'
    another :
        (r r1 r' : Receiver A Q) (c bytes : List A)
        → recv_chunk r ≡ (r1, a_chunk c)
        → Streams r1 bytes r'
        → Streams r (c ++ bytes) r'

  recv_chunk-loop :
      (r : Receiver A Q)
      → r.pre_connected ≡ accepted_port
      → r.finished ≡ false
      → recv_chunk r ≡ chunk_loop r.rx r
  unfolding recv_chunk
  recv_chunk-loop r p f = simp (p, f)

  -- The calls of `recv_chunk` in each of the states that a message goes through.
  ready_chunk_lem :
      (rx : List (PortReceiveMsg A Q)) (r : Receiver A Q) (c : List A) (chunks : List (List A))
      (completed : Bool)
      → chunk_loop rx (record r { receiving = chunks_state (c ∷ chunks) completed true })
        ≡ (record r { receiving = chunks_state chunks completed true }, a_chunk c)
  unfolding chunk_loop
  ready_chunk_lem [] r c chunks completed = refl
  ready_chunk_lem (msg ∷ rx) r c chunks completed = refl

  end_chunk_lem :
      (rx : List (PortReceiveMsg A Q)) (r : Receiver A Q)
      → chunk_loop rx (record r { receiving = chunks_state [] true true })
        ≡ (record r { receiving = nothing }, chunk_end)
  unfolding chunk_loop
  end_chunk_lem [] r = refl
  end_chunk_lem (msg ∷ rx) r = refl

  next_chunk_lem :
      (rx : List (PortReceiveMsg A Q)) (r : Receiver A Q) (bytes : List A) (first last : Bool)
      (c : UsedPortCredit)
      → first ≡ false
      → chunk_loop
          (data_received (record { buf = bytes; first = first; last = last; port_credit = c }) ∷ rx)
          (record r { receiving = chunks_state [] false true })
        ≡ (
          record r {
            rx = rx;
            receiving = chunks_state [] last true;
            returned = r.returned ++ (c ∷ []);
          },
          a_chunk bytes,
        )
  unfolding chunk_loop handle_chunk
  next_chunk_lem rx r bytes first last c e =
      ap
        (λ f.
          chunk_loop
            (data_received (record { buf = bytes; first = f; last = last; port_credit = c }) ∷ rx)
            (record r { receiving = chunks_state [] false true }))
        e

  chunks-Streams :
      (credit : SendData A → UsedPortCredit) (rest : List (PortReceiveMsg A Q)) (chunk_size : ℕ)
      (r : Receiver A Q) (left : List (SendData A)) (chunks : List (List A))
      (returned : List UsedPortCredit)
      → IsCut chunk_size false left
      → r.pre_connected ≡ accepted_port
      → r.finished ≡ false
      → Streams
          (in_chunks credit rest r left chunks returned)
          (joined chunks ++ bytes_of left)
          (record r {
            rx = rest;
            receiving = nothing;
            returned = returned_credits credit returned left;
          })
  chunks-Streams credit rest chunk_size r left (c ∷ chunks) returned cut p f =
      let now = in_chunks credit rest r left (c ∷ chunks) returned in
      rw (append_assoc c (joined chunks) (bytes_of left)) (
        another now (in_chunks credit rest r left chunks returned)
          (record r {
            rx = rest;
            receiving = nothing;
            returned = returned_credits credit returned left;
          })
          c (joined chunks ++ bytes_of left)
          (recv_chunk-loop now p f ∙ ready_chunk_lem now.rx now c chunks (is_nil left))
          (chunks-Streams credit rest chunk_size r left chunks returned cut p f))
  chunks-Streams credit rest chunk_size r [] [] returned cut p f =
      let now = in_chunks credit rest r [] [] returned in
      ended now (record r { rx = rest; receiving = nothing; returned = returned })
        (recv_chunk-loop now p f ∙ end_chunk_lem now.rx now)
  chunks-Streams credit rest chunk_size r (msg ∷ msgs) [] returned cut p f =
      let now = in_chunks credit rest r (msg ∷ msgs) [] returned in
      let returned1 = returned ++ (credit msg ∷ []) in
      another now (in_chunks credit rest r msgs [] returned1)
        (record r {
          rx = rest;
          receiving = nothing;
          returned = returned_credits credit returned1 msgs;
        })
        msg.bytes (bytes_of msgs)
        (recv_chunk-loop now p f
          ∙ next_chunk_lem (arrivals credit msgs rest) now msg.bytes msg.first msg.last (credit msg)
              cut.0
          ∙ ap
              (λ last. (
                record now {
                  rx = arrivals credit msgs rest;
                  receiving = chunks_state [] last true;
                  returned = returned1;
                },
                a_chunk msg.bytes,
              ))
              cut.1)
        (chunks-Streams credit rest chunk_size r msgs [] returned1 cut.3 p f)

  Exceeds-Streams :
      (credit : SendData A → UsedPortCredit) (rest : List (PortReceiveMsg A Q)) (chunk_size : ℕ)
      (msgs : List (SendData A)) (r : Receiver A Q)
      → r.rx ≡ arrivals credit msgs rest
      → r.pre_connected ≡ accepted_port
      → r.finished ≡ false
      → NotChunks r.receiving
      → Exceeds credit rest chunk_size msgs r new_buf
      → ((recv_any r).1 ≡ any_chunks)
        × Streams (recv_any r).0 (bytes_of msgs) (received credit msgs rest r)
  Exceeds-Streams credit rest chunk_size msgs r q p f n
        (left, chunks, returned, cut, bytes, credits, run) =
      let called : recv_any r ≡ (in_chunks credit rest r left chunks returned, any_chunks) =
        recv_any-loop r p f n ∙ ap (λ rx. any_loop rx r) q ∙ run in
      rw (called, sym bytes, sym credits)
        (refl, chunks-Streams credit rest chunk_size r left chunks returned cut p f)

  -- Where a port is accepted and open, no chunked reception is in progress, and the queue starts with
  -- the messages of one send, whose bytes exceed the limit of the receiver: `recv_any` announces
  -- chunks, and calls of `recv_chunk` then give chunks that are the bytes of that send in order, and
  -- come to an end, with the credits of all its messages returned and the queue behind that send.
  pub recv_chunk-Streams :
      (credit : SendData A → UsedPortCredit) (rest : List (PortReceiveMsg A Q)) (chunk_size : ℕ)
      (msgs : List (SendData A)) (r : Receiver A Q)
      → IsCut chunk_size true msgs
      → r.max_data_size < length (bytes_of msgs)
      → r.max_data_size < 2 ^ 64
      → r.rx ≡ arrivals credit msgs rest
      → r.pre_connected ≡ accepted_port
      → r.finished ≡ false
      → NotChunks r.receiving
      → ((recv_any r).1 ≡ any_chunks)
        × Streams (recv_any r).0 (bytes_of msgs) (received credit msgs rest r)
  recv_chunk-Streams credit rest chunk_size [] r cut h k q p f n = absurd (omega (arith, h))
  recv_chunk-Streams credit rest chunk_size (msg ∷ msgs) r cut h k q p f n =
      Exceeds-Streams credit rest chunk_size (msg ∷ msgs) r q p f n (
        any_loop-Exceeds credit rest chunk_size msg msgs true r new_buf cut refl (omega (arith, h))
          k)
