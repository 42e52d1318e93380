-- ===== src/Sender/Tries.antt =====
-- sender.rs: the chunks of `Sender::do_try_send`, and where the credits go.
use remoc.Base.{
  ℕ, zero, suc, ◌+◌, ◌-◌, ◌%◌, ◌^◌, ◌≤◌, ◌<◌, ◌≡◌, refl, ap, ◌∙◌, min, Bool, false, Option, none,
  some, List, [], ◌∷◌, ◌++◌, length, take, drop, take-append-drop, length-drop, length-append,
  append_assoc, arith,
}
use remoc.Msg.Types.{DataCredits}
use remoc.Credit.Assigned.{AssignedCredits, take_mixed, take_loop, after_take}
use remoc.Credit.Spend.{held_port, held_global, Taken, take_loop-Taken}
use remoc.Credit.Store.{SendableCreditStore}
use remoc.Credit.Requests.{credits_of, Fits, drop_mixed-returns}
use remoc.Credit.User.{Stores}
use remoc.Sender.Data.{SendData, all_sent, is_nil, cut}
use remoc.Sender.Cuts.{bytes_of, Sends, before-Sends, length-take}
use remoc.Sender.Try.{
  TrySendError, EventQueue, Tried, tried, try_panicked, try_out_of_fuel, queue_error, one_less,
  before_tried, offer, after_cut, try_loop,
}

abbrev pub total : Stores → ℕ
total st = credits_of st.port_store + credits_of st.global_store

abbrev pub held : List AssignedCredits → ℕ
held q = held_port q + held_global q

-- Credits that the stores can take back.
abbrev pub CanReturn : Stores → List AssignedCredits → Type 0
CanReturn st q = Fits st.port_store (held_port q) × Fits st.global_store (held_global q)

abbrev pub TakenOff :
    List AssignedCredits → ℕ → Option (List AssignedCredits × DataCredits) → Type 0
TakenOff q n none = held q < n
TakenOff q n (some (q', credits)) =
    (held_port q' ≤ held_port q) × (held_global q' ≤ held_global q) × (held q ≡ held q' + n)

after_take-TakenOff :
    (q : List AssignedCredits) (n : ℕ) (r : Option (List AssignedCredits × ℕ × ℕ))
    → Taken q n 0 0 r
    → TakenOff q n (after_take r)
after_take-TakenOff q n none h = omega (arith, h)
after_take-TakenOff q n (some (q', global, port)) h =
    (omega (arith, h), omega (arith, h), omega (arith, h))

pub take_mixed-TakenOff : (q : List AssignedCredits) (n : ℕ) → TakenOff q n (take_mixed q n)
unfolding take_mixed
take_mixed-TakenOff q n = after_take-TakenOff q n (take_loop q n 0 0) (take_loop-Taken q n 0 0)

pub Fits-less : (store : Option SendableCreditStore) (n m : ℕ) → Fits store n → m ≤ n → Fits store m
Fits-less none n m h l = omega (arith, h, l)
Fits-less (some store) n m h l = omega (arith, h, l)

-- The queue of events after a number of events.
abbrev pub after_sent : EventQueue → ℕ → EventQueue
after_sent tx n = record tx { room = tx.room - n }

error_after_one :
    (tx : EventQueue) (n : ℕ) (e : TrySendError)
    → queue_error (after_sent (one_less tx) n) ≡ some e
    → queue_error (after_sent tx (suc n)) ≡ some e
error_after_one tx n e h =
    let k : tx.room - suc n ≡ tx.room - 1 - n = omega arith in
    ap (λ room. queue_error (record { is_open = tx.is_open; room = room })) k ∙ h

pub error_at_once :
    (tx : EventQueue) (e : TrySendError)
    → queue_error tx ≡ some e
    → queue_error (after_sent tx 0) ≡ some e
error_at_once tx e h =
    let k : tx.room - 0 ≡ tx.room = omega arith in
    ap (λ room. queue_error (record { is_open = tx.is_open; room = room })) k ∙ h

module _ {ℓ} {A : Type ℓ} where
  -- With `sum` credits in the stores and at hand: all data is sent, each byte for a credit; or the error
  -- that the queue has after the events that were sent leaves a rest, and the credits of the chunk that
  -- the queue has refused are gone.
  abbrev pub IsTried : EventQueue → ℕ → ℕ → Bool → List A → Tried A → Type ℓ
  IsTried tx sum chunk_size first data' (tried st msgs none) =
      Sends chunk_size first data' (all_sent msgs) × (sum ≡ total st + length data')
  IsTried tx sum chunk_size first data' (tried st msgs (some e)) =
      (rest : List A) × (1 ≤ length rest)
      × (bytes_of msgs ++ rest ≡ data')
      × (queue_error (after_sent tx (length msgs)) ≡ some e)
      × (sum ≡ total st + length (bytes_of msgs) + min (length rest) chunk_size)
  IsTried tx sum chunk_size first data' try_panicked = ⊥ × Unit {ℓ}
  IsTried tx sum chunk_size first data' try_out_of_fuel = ⊥ × Unit {ℓ}

  before_tried-IsTried :
      (tx : EventQueue) (sum left chunk_size : ℕ) (first : Bool) (data' rest : List A)
      (msg : SendData A) (r : Tried A)
      → sum ≡ left + length msg.bytes
      → msg.bytes ++ rest ≡ data'
      → msg.first ≡ first
      → msg.last ≡ is_nil rest
      → 1 ≤ length msg.bytes
      → length msg.bytes ≤ chunk_size
      → IsTried (one_less tx) left chunk_size false rest r
      → IsTried tx sum chunk_size first data' (before_tried msg r)
  before_tried-IsTried tx sum left chunk_size first data' rest msg (tried st msgs none) t e f l k c
        h =
      (
        before-Sends chunk_size first data' rest msg (all_sent msgs) e f l k c h.0,
        omega (arith, t, h.1, ap length e, length-append msg.bytes rest),
      )
  before_tried-IsTried tx sum left chunk_size first data' rest msg (tried st msgs (some err)) t e f
        l k c h =
      (
        h.0,
        h.1,
        append_assoc msg.bytes (bytes_of msgs) h.0 ∙ ap (λ bytes. msg.bytes ++ bytes) h.2 ∙ e,
        error_after_one tx (length msgs) err h.3,
        omega (arith, t, h.4, length-append msg.bytes (bytes_of msgs)),
      )
  before_tried-IsTried tx sum left chunk_size first data' rest msg try_panicked t e f l k c h = h
  before_tried-IsTried tx sum left chunk_size first data' rest msg try_out_of_fuel t e f l k c h = h

  offer-IsTried :
      (tx : EventQueue) (error : Option TrySendError) (at chunk_size : ℕ) (st : Stores)
      (first : Bool) (data' : List A) (msg : SendData A) (q q' : List AssignedCredits)
      (later : Tried A)
      → queue_error tx ≡ error
      → msg.bytes ≡ take at data'
      → msg.first ≡ first
      → msg.last ≡ is_nil (drop at data')
      → at ≡ min (length data') chunk_size
      → 1 ≤ at
      → CanReturn st q'
      → held q ≡ held q' + at
      → IsTried (one_less tx) (total st + held q') chunk_size false (drop at data') later
      → IsTried tx (total st + held q) chunk_size first data' (offer error msg q' st later)
  offer-IsTried tx (some e) at chunk_size st first data' msg q q' later r b f l a k c t h = (
    data',
    omega (arith, a, k),
    refl,
    error_at_once tx e r,
    omega (arith, drop_mixed-returns q' st c.0 c.1, t, a),
  )
  offer-IsTried tx none at chunk_size st first data' msg q q' later r b f l a k c t h =
      let size : length msg.bytes ≡ at = ap length b ∙ length-take at data' (omega (arith, a)) in
      before_tried-IsTried tx (total st + held q) (total st + held q') chunk_size first data'
        (drop at data') msg later (omega (arith, t, size))
        (ap (λ bytes. bytes ++ drop at data') b ∙ take-append-drop at data') f l
        (omega (arith, size, k)) (omega (arith, size, a)) h

  after_cut-IsTried :
      (tx : EventQueue) (at chunk_size : ℕ) (st : Stores) (first : Bool) (data' : List A)
      (q : List AssignedCredits) (taken : Option (List AssignedCredits × DataCredits))
      (again : List A → List AssignedCredits → Tried A)
      → at ≡ min (length data') chunk_size
      → 1 ≤ at
      → length data' ≤ held q
      → CanReturn st q
      → TakenOff q at taken
      → ((q' : List AssignedCredits)
          → length (drop at data') ≤ held q'
          → CanReturn st q'
          → IsTried
              (one_less tx)
              (total st + held q')
              chunk_size
              false
              (drop at data')
              (again (drop at data') q'))
      → IsTried tx
          (total st + held q)
          chunk_size
          first
          data'
          (after_cut tx st (cut at data' first taken) again)
  after_cut-IsTried tx at chunk_size st first data' q none again a k n c t go =
      absurd (omega (arith, t, a, n))
  after_cut-IsTried tx at chunk_size st first data' q (some (q', credits)) again a k n c t go =
      let c' : CanReturn st q' = (
        Fits-less st.port_store (held_port q) (held_port q') c.0 t.0,
        Fits-less st.global_store (held_global q) (held_global q') c.1 t.1,
      ) in
      offer-IsTried tx (queue_error tx) at chunk_size st first data'
        (record {
          bytes = take at data';
          first = first;
          last = is_nil (drop at data');
          credits = credits;
        })
        q q' (again (drop at data') q') refl refl refl refl a k c' t.2
        (go q' (omega (arith, length-drop at data', t.2, n)) c')

  pub try_loop-IsTried :
      (fuel chunk_size : ℕ) (tx : EventQueue) (st : Stores) (data' : List A)
      (q : List AssignedCredits) (first : Bool)
      → 1 ≤ chunk_size
      → chunk_size < 2 ^ 32
      → length data' ≤ fuel
      → length data' ≤ held q
      → CanReturn st q
      → IsTried tx
          (total st + held q)
          chunk_size
          first
          data'
          (try_loop fuel chunk_size tx st data' q first)
  unfolding try_loop
  try_loop-IsTried fuel chunk_size tx st [] q first s b f n c =
      ((refl, tt, tt), omega (arith, drop_mixed-returns q st c.0 c.1))
  try_loop-IsTried zero chunk_size tx st (x ∷ data') q first s b f n c = absurd (omega (arith, f))
  try_loop-IsTried (suc fuel) chunk_size tx st (x ∷ data') q first s b f n c =
      let at = min (length (x ∷ data')) chunk_size in
      let same : length (take at (x ∷ data')) % 2 ^ 32 ≡ at =
        omega (arith, length-take at (x ∷ data') (omega arith)) in
      rw same (
        after_cut-IsTried tx at chunk_size st first (x ∷ data') q (take_mixed q at)
          (λ rest left. try_loop fuel chunk_size (one_less tx) st rest left false) refl
          (omega (arith, s)) n c (take_mixed-TakenOff q at)
          (λ q' n' c'.
            try_loop-IsTried fuel chunk_size (one_less tx) st (drop at (x ∷ data')) q' false s b
              (omega (arith, length-drop at (x ∷ data'), f, s)) n' c'))
