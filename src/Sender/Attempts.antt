-- ===== src/Sender/Attempts.antt =====
-- sender.rs: what a call of `Sender::do_try_send` does to the credits.
use remoc.Base.{
  ℕ, ◌+◌, ◌^◌, ◌≤◌, ◌<◌, ◌≡◌, refl, ap, ◌∙◌, inl, inr, ◌⊎◌, min, max, true, Option, none, some,
  List, [], ◌∷◌, ◌++◌, length, append-nil, arith,
}
use remoc.Msg.Types.{DataCredits}
use remoc.Credit.Assigned.{port_pool, global_pool, AssignedCredits, take_mixed}
use remoc.Credit.Spend.{held_port, held_global}
use remoc.Credit.Requests.{
  credits_of, IsStoreOf, Handed, drop_mixed-returns, try_request_mixed-Handed,
}
use remoc.Credit.User.{
  Request, granted, refused, panicked, MixedCreditUser, Stores, Mixed, drop_mixed,
  try_request_mixed,
}
use remoc.Sender.Data.{SendData, cut}
use remoc.Sender.Cuts.{bytes_of, IsCut}
use remoc.Sender.Try.{
  TrySendError, EventQueue, Tried, tried, try_panicked, try_out_of_fuel, queue_full, send_error,
  queue_error, offer, after_cut, try_loop, try_granted, after_request, credits_for, do_try_send,
}
use remoc.Sender.Tries.{
  total, held, CanReturn, TakenOff, take_mixed-TakenOff, Fits-less, after_sent, error_at_once,
  IsTried, try_loop-IsTried,
}

-- The error of a request for credits that was refused, or for which there are too few.
abbrev pub RefusedWith : TrySendError → Request (Option (List AssignedCredits)) → Type 0
RefusedWith e (granted (some q)) = ⊥
RefusedWith e (granted none) = e ≡ queue_full
RefusedWith e (refused e') = e ≡ send_error e'
RefusedWith e panicked = ⊥

module _ {ℓ} {A : Type ℓ} where
  -- A refused request leaves the credits of each store; data that is sent takes a credit for each byte,
  -- and one at least; an error of the queue is the one that it has after what was sent.
  abbrev pub AllTried :
      EventQueue → Request (Option (List AssignedCredits)) → Stores → ℕ → List A → Tried A → Type ℓ
  AllTried tx answer st chunk_size data' (tried st' msgs none) =
      (bytes_of msgs ≡ data')
      × IsCut chunk_size true msgs
      × (1 ≤ length msgs)
      × (total st ≡ total st' + max (length data') 1)
  AllTried tx answer st chunk_size data' (tried st' msgs (some e)) =
      ((msgs ≡ [])
        × RefusedWith e answer
        × (credits_of st'.port_store ≡ credits_of st.port_store)
        × (credits_of st'.global_store ≡ credits_of st.global_store))
      ⊎ ((rest : List A) × (bytes_of msgs ++ rest ≡ data')
          × (min (length data') 1 ≤ length rest)
          × (queue_error (after_sent tx (length msgs)) ≡ some e)
          × (total st ≡ total st' + length (bytes_of msgs) + max (min (length rest) chunk_size) 1))
  AllTried tx answer st chunk_size data' try_panicked = ⊥ × Unit {ℓ}
  AllTried tx answer st chunk_size data' try_out_of_fuel = ⊥ × Unit {ℓ}

  tried-AllTried :
      (tx : EventQueue) (answer : Request (Option (List AssignedCredits))) (st : Stores)
      (sum chunk_size : ℕ) (x : A) (data' : List A) (r : Tried A)
      → 1 ≤ chunk_size
      → total st ≡ sum
      → IsTried tx sum chunk_size true (x ∷ data') r
      → AllTried tx answer st chunk_size (x ∷ data') r
  tried-AllTried tx answer st sum chunk_size x data' (tried st' [] none) k t h =
      absurd (omega (arith, ap length h.0.0))
  tried-AllTried tx answer st sum chunk_size x data' (tried st' (m ∷ msgs) none) k t h =
      (h.0.0, h.0.1, omega arith, omega (arith, t, h.1))
  tried-AllTried tx answer st sum chunk_size x data' (tried st' msgs (some e)) k t h =
      inr (h.0, h.2, omega (arith, h.1), h.3, omega (arith, t, h.1, h.4, k))
  tried-AllTried tx answer st sum chunk_size x data' try_panicked k t h = h
  tried-AllTried tx answer st sum chunk_size x data' try_out_of_fuel k t h = h

  offered-AllTried :
      (tx : EventQueue) (answer : Request (Option (List AssignedCredits)))
      (error : Option TrySendError) (chunk_size : ℕ) (st st' : Stores) (msg : SendData A)
      (q q' : List AssignedCredits)
      → queue_error tx ≡ error
      → msg.bytes ≡ []
      → msg.first ≡ true
      → msg.last ≡ true
      → CanReturn st' q'
      → held q ≡ held q' + 1
      → total st ≡ total st' + held q
      → AllTried tx answer st chunk_size []
          (offer error msg q' st' (tried (drop_mixed q' st') [] none))
  offered-AllTried tx answer (some e) chunk_size st st' msg q q' r b f l c t n = inr (
    [],
    refl,
    omega arith,
    error_at_once tx e r,
    omega (arith, drop_mixed-returns q' st' c.0 c.1, t, n),
  )
  offered-AllTried tx answer none chunk_size st st' msg q q' r b f l c t n = (
    append-nil msg.bytes ∙ b,
    (f, l, omega (arith, ap length b), tt),
    omega arith,
    omega (arith, drop_mixed-returns q' st' c.0 c.1, t, n),
  )

empty-AllTried {ℓ} :
    (A : Type ℓ) (answer : Request (Option (List AssignedCredits))) (chunk_size : ℕ)
    (tx : EventQueue) (st st' : Stores) (q : List AssignedCredits)
    (taken : Option (List AssignedCredits × DataCredits))
    → CanReturn st' q
    → 1 ≤ held q
    → total st ≡ total st' + held q
    → TakenOff q 1 taken
    → AllTried {A = A} tx answer st chunk_size []
        (after_cut tx st' (cut 0 [] true taken) (λ rest left. tried (drop_mixed left st') [] none))
empty-AllTried A answer chunk_size tx st st' q none c k n t = absurd (omega (arith, t, k))
empty-AllTried A answer chunk_size tx st st' q (some (q', credits)) c k n t =
    offered-AllTried tx answer (queue_error tx) chunk_size st st'
      (record { bytes = []; first = true; last = true; credits = credits }) q q' refl refl refl refl
      (
        Fits-less st'.port_store (held_port q) (held_port q') c.0 t.0,
        Fits-less st'.global_store (held_global q) (held_global q') c.1 t.1,
      )
      t.2 n

module _ {ℓ} {A : Type ℓ} where
  granted-AllTried :
      (answer : Request (Option (List AssignedCredits))) (chunk_size : ℕ) (tx : EventQueue)
      (st st' : Stores) (data' : List A) (q : List AssignedCredits)
      → 1 ≤ chunk_size
      → chunk_size < 2 ^ 32
      → length data' < 2 ^ 32
      → CanReturn st' q
      → credits_for data' ≤ held q
      → total st ≡ total st' + held q
      → AllTried tx answer st chunk_size data' (try_granted chunk_size tx st' data' q)
  granted-AllTried answer chunk_size tx st st' [] q s b l c k n =
      empty-AllTried A answer chunk_size tx st st' q (take_mixed q 1) c k n
        (take_mixed-TakenOff q 1)
  granted-AllTried answer chunk_size tx st st' (x ∷ data') q s b l c k n =
      tried-AllTried tx answer st (total st' + held q) chunk_size x data'
        (try_loop (length (x ∷ data')) chunk_size tx st' (x ∷ data') q true) s n
        (try_loop-IsTried (length (x ∷ data')) chunk_size tx st' (x ∷ data') q true s b
          (omega arith) (omega (arith, l, k)) c)

  after_request-AllTried :
      (chunk_size : ℕ) (tx : EventQueue) (st : Stores) (data' : List A) (m : Mixed)
      → 1 ≤ chunk_size
      → chunk_size < 2 ^ 32
      → length data' < 2 ^ 32
      → Handed st (credits_for data') (credits_for data') m
      → AllTried tx m.1 st chunk_size data' (after_request chunk_size tx data' m)
  after_request-AllTried chunk_size tx st data' (st', granted (some q)) s b l h =
      granted-AllTried (granted (some q)) chunk_size tx st st' data' q s b l (h.4, h.5) h.2
        (omega (arith, h.0, h.1))
  after_request-AllTried chunk_size tx st data' (st', granted none) s b l h =
      inl (refl, refl, h.0, h.1)
  after_request-AllTried chunk_size tx st data' (st', refused e) s b l h =
      inl (refl, refl, h.0, h.1)
  after_request-AllTried chunk_size tx st data' (st', panicked) s b l h = absurd h

  -- Sending below 2 ^ 32 bytes without waiting, with a 32-bit chunk size above zero, never panics. It
  -- sends all data, flagged and within the chunk size, for a credit a byte and one at least; or it
  -- returns an error: either that of the request for credits, which was refused or for which there were
  -- too few, and then it has sent nothing and each store holds as many credits as before; or that of
  -- the queue of events after what was sent, and then what was sent is a start of the data, of which a
  -- rest is left unless the data is empty, and the stores have lost, in all, the credits of the chunk
  -- that was refused as well as those of what was sent.
  pub do_try_send-AllTried :
      (chunk_size : ℕ) (tx : EventQueue) (user : MixedCreditUser) (st : Stores) (data' : List A)
      → 1 ≤ chunk_size
      → chunk_size < 2 ^ 32
      → length data' < 2 ^ 32
      → IsStoreOf port_pool st.port_store
      → IsStoreOf global_pool st.global_store
      → AllTried tx
          (try_request_mixed user st (credits_for data') (credits_for data')).1
          st
          chunk_size
          data'
          (do_try_send chunk_size tx user st data')
  unfolding do_try_send
  do_try_send-AllTried chunk_size tx user st data' s b l wp wg =
      after_request-AllTried chunk_size tx st data'
        (try_request_mixed user st (credits_for data') (credits_for data')) s b l
        (try_request_mixed-Handed user st (credits_for data') (credits_for data') (omega arith) wp
          wg)
