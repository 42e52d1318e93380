-- ===== src/Receiver/Chunked.antt =====
-- receiver.rs: a message above `max_data_size`, as `recv_any` announces it.
use remoc.Base.{
  ℕ, ◌+◌, ◌^◌, ◌<◌, ◌≡◌, refl, ap, ◌∙◌, Bool, true, false, none, some, List, [], ◌∷◌, ◌++◌, length,
  length-append, append_assoc, le_or_lt, inl, inr, arith,
}
use remoc.Credit.Monitor.{UsedPortCredit}
use remoc.Sender.Data.{SendData, is_nil}
use remoc.Sender.Cuts.{bytes_of, IsCut}
use remoc.Receiver.{
  PortReceiveMsg, data_received, DataBuf, try_push, joined, into_vec, data_state, chunks_state,
  Receiver, any_chunks, data_of, handle_any, any_loop,
}
use remoc.Receiver.Whole.{arrivals, returned_credits, pushed, joined-append, any_loop-more}

over_try_push {ℓ} :
    {A : Type ℓ} (d : DataBuf A) (buf : List A) (max_size : ℕ)
    → max_size < d.remaining + length buf
    → try_push d buf max_size ≡ none
over_try_push d buf max_size h = ground arith

module _ {ℓ κ} {A : Type ℓ} {Q : Type κ} where
  -- A chunk that does not fit.
  any_loop-over :
      (r : Receiver A Q) (bytes : List A) (first last : Bool) (c : UsedPortCredit) (d : DataBuf A)
      (rest : List (PortReceiveMsg A Q))
      → data_of first r.receiving ≡ some d
      → r.max_data_size < d.remaining + length bytes
      → any_loop
          (data_received (record { buf = bytes; first = first; last = last; port_credit = c })
            ∷ rest)
          r
        ≡ (
          record r {
            rx = rest;
            receiving = chunks_state (d.bufs ++ (bytes ∷ [])) last true;
            returned = r.returned ++ (c ∷ []);
          },
          any_chunks,
        )
  unfolding any_loop handle_any
  any_loop-over r bytes first last c d rest e h =
      rw (e, over_try_push d bytes r.max_data_size h) refl

  -- A chunked reception: the messages that are still in the queue, and the chunks at hand.
  abbrev pub in_chunks :
      (SendData A → UsedPortCredit)
      → List (PortReceiveMsg A Q)
      → Receiver A Q
      → List (SendData A)
      → List (List A)
      → List UsedPortCredit
      → Receiver A Q
  in_chunks credit rest r msgs chunks returned = record r {
    rx = arrivals credit msgs rest;
    receiving = chunks_state chunks (is_nil msgs) true;
    returned = returned;
  }

  -- What `Chunks` leaves: with the messages to come, the chunks at hand are the message.
  abbrev pub Exceeds :
      (SendData A → UsedPortCredit)
      → List (PortReceiveMsg A Q)
      → ℕ
      → List (SendData A)
      → Receiver A Q
      → DataBuf A
      → Type (ℓ ⊔ κ)
  Exceeds credit rest chunk_size msgs r d =
      (left : List (SendData A)) × (chunks : List (List A)) × (returned : List UsedPortCredit)
      × IsCut chunk_size false left
      × (joined chunks ++ bytes_of left ≡ into_vec d ++ bytes_of msgs)
      × (returned_credits credit returned left ≡ returned_credits credit r.returned msgs)
      × (any_loop (arrivals credit msgs rest) r
          ≡ (in_chunks credit rest r left chunks returned, any_chunks))

  over-Exceeds :
      (credit : SendData A → UsedPortCredit) (rest : List (PortReceiveMsg A Q)) (chunk_size : ℕ)
      (msg : SendData A) (msgs : List (SendData A)) (first : Bool) (r : Receiver A Q)
      (d : DataBuf A)
      → IsCut chunk_size first (msg ∷ msgs)
      → data_of first r.receiving ≡ some d
      → r.max_data_size < d.remaining + length msg.bytes
      → Exceeds credit rest chunk_size (msg ∷ msgs) r d
  over-Exceeds credit rest chunk_size msg msgs first r d cut e over =
      let chunks = d.bufs ++ (msg.bytes ∷ []) in
      let returned = r.returned ++ (credit msg ∷ []) in
      let rx = arrivals credit msgs rest in
      (
        msgs,
        chunks,
        returned,
        cut.3,
        ap (λ bytes. bytes ++ bytes_of msgs) (joined-append d.bufs msg.bytes)
            ∙ append_assoc (into_vec d) msg.bytes (bytes_of msgs),
        refl,
        any_loop-over r msg.bytes msg.first msg.last (credit msg) d rx
              (ap (λ f. data_of f r.receiving) cut.0 ∙ e) over
            ∙ ap
                (λ last. (
                  record r {
                    rx = rx;
                    receiving = chunks_state chunks last true;
                    returned = returned;
                  },
                  any_chunks,
                ))
                cut.1,
      )

  pub any_loop-Exceeds :
      (credit : SendData A → UsedPortCredit) (rest : List (PortReceiveMsg A Q)) (chunk_size : ℕ)
      (msg : SendData A) (msgs : List (SendData A)) (first : Bool) (r : Receiver A Q)
      (d : DataBuf A)
      → IsCut chunk_size first (msg ∷ msgs)
      → data_of first r.receiving ≡ some d
      → r.max_data_size < d.remaining + length (bytes_of (msg ∷ msgs))
      → r.max_data_size < 2 ^ 64
      → Exceeds credit rest chunk_size (msg ∷ msgs) r d
  any_loop-Exceeds credit rest chunk_size msg [] first r d cut e h k =
      over-Exceeds credit rest chunk_size msg [] first r d cut e
        (omega (arith, h, length-append msg.bytes []))
  any_loop-Exceeds credit rest chunk_size msg (m ∷ msgs) first r d cut e h k =
      let sum = length-append msg.bytes (bytes_of (m ∷ msgs)) in
      elim (le_or_lt (d.remaining + length msg.bytes) r.max_data_size) [
        | inl fits ↦
            let again =
              any_loop-Exceeds credit rest chunk_size m msgs false
                (record r {
                  rx = arrivals credit (m ∷ msgs) rest;
                  receiving = data_state (pushed d msg.bytes);
                  returned = r.returned ++ (credit msg ∷ []);
                })
                (pushed d msg.bytes) cut.3 refl (omega (arith, h, sum)) k in
            (
              again.0,
              again.1,
              again.2,
              again.3,
              again.4
                  ∙ ap (λ bytes. bytes ++ bytes_of (m ∷ msgs)) (joined-append d.bufs msg.bytes)
                  ∙ append_assoc (into_vec d) msg.bytes (bytes_of (m ∷ msgs)),
              again.5,
              any_loop-more r msg.bytes msg.first msg.last (credit msg) d
                    (arrivals credit (m ∷ msgs) rest) (ap (λ f. data_of f r.receiving) cut.0 ∙ e)
                    fits k cut.1
                  ∙ again.6,
            )
        | inr over ↦ over-Exceeds credit rest chunk_size msg (m ∷ msgs) first r d cut e over
      ]
