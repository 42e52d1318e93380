-- ===== src/Receiver/Whole.antt =====
-- receiver.rs: `Receiver::recv_any` on the chunks of a message.
use remoc.Base.{
  ℕ, ◌+◌, ◌^◌, ◌≤◌, ◌<◌, ◌≡◌, refl, sym, ap, ◌∙◌, if◌then◌else◌, Bool, true, false, none, some,
  List, [], ◌∷◌, ◌++◌, length, length-append, append_assoc, append-nil, arith,
}
use remoc.Credit.Monitor.{UsedPortCredit}
use remoc.Sender.Data.{SendData}
use remoc.Sender.Cuts.{bytes_of, IsCut}
use remoc.Receiver.{
  PortReceiveMsg, data_received, DataBuf, joined, into_vec, any_requests, any_end, any_error,
  any_wait, new_buf, try_push, Receiving, nothing, data_state, chunks_state, requests_state,
  accepted_port, Receiver, RecvAny, any_data, any_chunks, after_turn, return_credit, with_receiving,
  data_of, handle_any, any_loop, recv_any, announce,
}
use remoc.Receiver.Calls.{is_chunks}

module _ {ℓ κ} {A : Type ℓ} {Q : Type κ} (credit : SendData A → UsedPortCredit) where
  -- The multiplexer task of the receiver queues the messages of the sender, with the credits used.
  abbrev pub arrivals : List (SendData A) → List (PortReceiveMsg A Q) → List (PortReceiveMsg A Q)
  arrivals [] rest = rest
  arrivals (msg ∷ msgs) rest =
      data_received
        (record { buf = msg.bytes; first = msg.first; last = msg.last; port_credit = credit msg })
      ∷ arrivals msgs rest

abbrev pub returned_credits {ℓ} :
    {A : Type ℓ}
    → (SendData A → UsedPortCredit)
    → List UsedPortCredit
    → List (SendData A)
    → List UsedPortCredit
returned_credits credit returned [] = returned
returned_credits credit returned (msg ∷ msgs) =
    returned_credits credit (returned ++ (credit msg ∷ [])) msgs

module _ {ℓ} {A : Type ℓ} where
  abbrev pub pushed : DataBuf A → List A → DataBuf A
  pushed d buf = record { bufs = d.bufs ++ (buf ∷ []); remaining = d.remaining + length buf }

  abbrev pub pushed_all : DataBuf A → List (SendData A) → DataBuf A
  pushed_all d [] = d
  pushed_all d (msg ∷ msgs) = pushed_all (pushed d msg.bytes) msgs

  pub joined-append :
      (bufs : List (List A)) (buf : List A) → joined (bufs ++ (buf ∷ [])) ≡ joined bufs ++ buf
  joined-append [] buf = append-nil buf
  joined-append (b ∷ bufs) buf =
      ap (λ bytes. b ++ bytes) (joined-append bufs buf) ∙ sym (append_assoc b (joined bufs) buf)

  pub into_vec-pushed_all :
      (msgs : List (SendData A)) (d : DataBuf A)
      → into_vec (pushed_all d msgs) ≡ into_vec d ++ bytes_of msgs
  into_vec-pushed_all [] d = sym (append-nil (into_vec d))
  into_vec-pushed_all (msg ∷ msgs) d =
      into_vec-pushed_all msgs (pushed d msg.bytes)
      ∙ ap (λ bytes. bytes ++ bytes_of msgs) (joined-append d.bufs msg.bytes)
      ∙ append_assoc (into_vec d) msg.bytes (bytes_of msgs)

  remaining-pushed_all :
      (msgs : List (SendData A)) (d : DataBuf A)
      → (pushed_all d msgs).remaining ≡ d.remaining + length (bytes_of msgs)
  remaining-pushed_all [] d = omega arith
  remaining-pushed_all (msg ∷ msgs) d = omega (
    arith,
    remaining-pushed_all msgs (pushed d msg.bytes),
    length-append msg.bytes (bytes_of msgs),
  )

  try_push_lem :
      (d : DataBuf A) (buf : List A) (max_size : ℕ)
      → d.remaining + length buf ≤ max_size
      → max_size < 2 ^ 64
      → try_push d buf max_size ≡ some (pushed d buf)
  try_push_lem d buf max_size h k = ground arith

module _ {ℓ κ} {A : Type ℓ} {Q : Type κ} where
  pub any_loop-cons :
      (msg : PortReceiveMsg A Q) (rest : List (PortReceiveMsg A Q)) (r : Receiver A Q)
      → any_loop (msg ∷ rest) r
        ≡ after_turn (handle_any (record r { rx = rest }) msg) (any_loop rest)
  unfolding any_loop
  any_loop-cons msg rest r = refl

  handle_any-fits :
      (r : Receiver A Q) (bytes : List A) (first last : Bool) (c : UsedPortCredit) (d : DataBuf A)
      → data_of first r.receiving ≡ some d
      → d.remaining + length bytes ≤ r.max_data_size
      → r.max_data_size < 2 ^ 64
      → handle_any r
          (data_received (record { buf = bytes; first = first; last = last; port_credit = c }))
        ≡ (if last
            then (with_receiving (return_credit r c) nothing, some (any_data (pushed d bytes)))
            else (with_receiving (return_credit r c) (data_state (pushed d bytes)), none))
  unfolding handle_any
  handle_any-fits r bytes first last c d e h k =
      rw (e, try_push_lem d bytes r.max_data_size h k) refl

  -- A chunk that fits, with what follows it in the queue.
  any_loop-last :
      (r : Receiver A Q) (bytes : List A) (first last : Bool) (c : UsedPortCredit) (d : DataBuf A)
      (rest : List (PortReceiveMsg A Q))
      → data_of first r.receiving ≡ some d
      → d.remaining + length bytes ≤ r.max_data_size
      → r.max_data_size < 2 ^ 64
      → last ≡ true
      → any_loop
          (data_received (record { buf = bytes; first = first; last = last; port_credit = c })
            ∷ rest)
          r
        ≡ (
          record r { rx = rest; receiving = nothing; returned = r.returned ++ (c ∷ []) },
          any_data (pushed d bytes),
        )
  any_loop-last r bytes first last c d rest e h k l =
      any_loop-cons
        (data_received (record { buf = bytes; first = first; last = last; port_credit = c })) rest r
      ∙ rw (handle_any-fits (record r { rx = rest }) bytes first last c d e h k, l) refl

  pub any_loop-more :
      (r : Receiver A Q) (bytes : List A) (first last : Bool) (c : UsedPortCredit) (d : DataBuf A)
      (rest : List (PortReceiveMsg A Q))
      → data_of first r.receiving ≡ some d
      → d.remaining + length bytes ≤ r.max_data_size
      → r.max_data_size < 2 ^ 64
      → last ≡ false
      → any_loop
          (data_received (record { buf = bytes; first = first; last = last; port_credit = c })
            ∷ rest)
          r
        ≡ any_loop rest (record r {
          rx = rest;
          receiving = data_state (pushed d bytes);
          returned = r.returned ++ (c ∷ []);
        })
  any_loop-more r bytes first last c d rest e h k l =
      any_loop-cons
        (data_received (record { buf = bytes; first = first; last = last; port_credit = c })) rest r
      ∙ rw (handle_any-fits (record r { rx = rest }) bytes first last c d e h k, l) refl

  abbrev pub received :
      (SendData A → UsedPortCredit)
      → List (SendData A)
      → List (PortReceiveMsg A Q)
      → Receiver A Q
      → Receiver A Q
  received credit msgs rest r = record r {
    rx = rest;
    receiving = nothing;
    returned = returned_credits credit r.returned msgs;
  }

  any_loop-whole :
      (credit : SendData A → UsedPortCredit) (rest : List (PortReceiveMsg A Q)) (chunk_size : ℕ)
      (msg : SendData A) (msgs : List (SendData A)) (first : Bool) (r : Receiver A Q)
      (d : DataBuf A)
      → IsCut chunk_size first (msg ∷ msgs)
      → data_of first r.receiving ≡ some d
      → d.remaining + length (bytes_of (msg ∷ msgs)) ≤ r.max_data_size
      → r.max_data_size < 2 ^ 64
      → any_loop (arrivals credit (msg ∷ msgs) rest) r
        ≡ (received credit (msg ∷ msgs) rest r, any_data (pushed_all d (msg ∷ msgs)))
  any_loop-whole credit rest chunk_size msg [] first r d cut e h k =
      any_loop-last r msg.bytes msg.first msg.last (credit msg) d rest
        (ap (λ f. data_of f r.receiving) cut.0 ∙ e) (omega (arith, h, length-append msg.bytes [])) k
        cut.1
  any_loop-whole credit rest chunk_size msg (m ∷ msgs) first r d cut e h k =
      let sum = length-append msg.bytes (bytes_of (m ∷ msgs)) in
      any_loop-more r msg.bytes msg.first msg.last (credit msg) d (arrivals credit (m ∷ msgs) rest)
        (ap (λ f. data_of f r.receiving) cut.0 ∙ e) (omega (arith, h, sum)) k cut.1
      ∙ any_loop-whole credit rest chunk_size m msgs false
          (record r {
            rx = arrivals credit (m ∷ msgs) rest;
            receiving = data_state (pushed d msg.bytes);
            returned = r.returned ++ (credit msg ∷ []);
          })
          (pushed d msg.bytes) cut.3 refl (omega (arith, h, sum)) k

  -- The result of a call: the data, with the queue and the credits after it.
  abbrev pub IsData : Receiver A Q → List A → Receiver A Q × RecvAny A Q → Type (ℓ ⊔ κ)
  IsData after data' (r, any_data d) =
      (into_vec d ≡ data') × (d.remaining ≡ length data') × (r ≡ after)
  IsData after data' (r, any_chunks) = ⊥ × Unit {ℓ ⊔ κ}
  IsData after data' (r, any_requests requests) = ⊥ × Unit {ℓ ⊔ κ}
  IsData after data' (r, any_end) = ⊥ × Unit {ℓ ⊔ κ}
  IsData after data' (r, any_error e) = ⊥ × Unit {ℓ ⊔ κ}
  IsData after data' (r, any_wait) = ⊥ × Unit {ℓ ⊔ κ}

  abbrev pub NotChunks : Receiving A Q → Type 0
  NotChunks receiving = is_chunks receiving ≡ false

  announce-skips : (r : Receiver A Q) (s : Receiving A Q) → NotChunks s → announce r s ≡ (r, none)
  announce-skips r nothing h = refl
  announce-skips r (data_state d) h = refl
  announce-skips r (requests_state requests) h = refl
  announce-skips r (chunks_state chunks completed announced) h = absurd (cc h)

  -- A call on an open port with no chunked reception in progress is the loop.
  pub recv_any-loop :
      (r : Receiver A Q)
      → r.pre_connected ≡ accepted_port
      → r.finished ≡ false
      → NotChunks r.receiving
      → recv_any r ≡ any_loop r.rx r
  unfolding recv_any
  recv_any-loop r p f h = simp (p, f, announce-skips r r.receiving h)

  -- Where a port is accepted and open, no chunked reception is in progress, and the queue starts with
  -- the messages of one send, whose bytes do not exceed the limit of the receiver: one call of
  -- `recv_any` gives the bytes of that send as one piece of data, returns the credits of all its
  -- messages in their order, and leaves the queue at what follows it.
  pub recv_any-IsData :
      (credit : SendData A → UsedPortCredit) (rest : List (PortReceiveMsg A Q)) (chunk_size : ℕ)
      (msgs : List (SendData A)) (r : Receiver A Q)
      → IsCut chunk_size true msgs
      → 1 ≤ length msgs
      → length (bytes_of msgs) ≤ r.max_data_size
      → r.max_data_size < 2 ^ 64
      → r.rx ≡ arrivals credit msgs rest
      → r.pre_connected ≡ accepted_port
      → r.finished ≡ false
      → NotChunks r.receiving
      → IsData (received credit msgs rest r) (bytes_of msgs) (recv_any r)
  recv_any-IsData credit rest chunk_size [] r cut l h k q p f n = absurd (omega (arith, l))
  recv_any-IsData credit rest chunk_size (msg ∷ msgs) r cut l h k q p f n =
      let run : recv_any r
          ≡ (received credit (msg ∷ msgs) rest r, any_data (pushed_all new_buf (msg ∷ msgs))) =
        recv_any-loop r p f n
        ∙ ap (λ rx. any_loop rx r) q
        ∙ any_loop-whole credit rest chunk_size msg msgs true r new_buf cut refl (omega (arith, h))
            k in
      rw run (
        into_vec-pushed_all (msg ∷ msgs) new_buf,
        remaining-pushed_all (msg ∷ msgs) new_buf ∙ omega arith,
        refl,
      )
