-- ===== src/Sender/Try.antt =====
-- sender.rs, `Sender::do_try_send`: data in chunks without waiting, for credits or for the queue of
-- events to the multiplexer task.
use remoc.Base.{
  ℕ, zero, suc, ◌-◌, ◌%◌, ◌^◌, min, ◌==◌, if◌then◌else◌, Bool, true, false, Option, none, some,
  List, [], ◌∷◌, length, take,
}
use remoc.Credit.Assigned.{AssignedCredits, take_mixed}
use remoc.Credit.Store.{SendError, ch_mux}
use remoc.Credit.User.{
  granted, refused, panicked, MixedCreditUser, Stores, Mixed, drop_mixed, try_request_mixed,
}
use remoc.Sender.Data.{SendData, cut}

pub data TrySendError : Type 0 where
  queue_full : TrySendError
  send_error : SendError → TrySendError

-- The bounded queue of events: whether the task is still there, and the places that are free.
pub record EventQueue : Type 0 where
  pub is_open : Bool
  pub room : ℕ

-- The credit stores afterwards, the events sent, and the error; or the panic; or no fuel.
pub data Tried {ℓ} (A : Type ℓ) : Type ℓ where
  tried : Stores → List (SendData A) → Option TrySendError → Tried A
  try_panicked : Tried A
  try_out_of_fuel : Tried A

-- `mpsc::Sender::try_send`, with its error as it is converted.
abbrev pub queue_error : EventQueue → Option TrySendError
queue_error tx =
    if tx.is_open
    then (if tx.room == 0 then some queue_full else none)
    else some (send_error ch_mux)

abbrev pub one_less : EventQueue → EventQueue
one_less tx = record tx { room = tx.room - 1 }

module _ {ℓ} {A : Type ℓ} where
  abbrev pub before_tried : SendData A → Tried A → Tried A
  before_tried msg (tried st msgs error) = tried st (msg ∷ msgs) error
  before_tried msg try_panicked = try_panicked
  before_tried msg try_out_of_fuel = try_out_of_fuel

  -- An error ends the call, which drops the credits that are left.
  abbrev pub offer :
      Option TrySendError → SendData A → List AssignedCredits → Stores → Tried A → Tried A
  offer (some e) msg credits st later = tried (drop_mixed credits st) [] (some e)
  offer none msg credits st later = before_tried msg later

  abbrev pub after_cut :
      EventQueue
      → Stores
      → Option (SendData A × List A × List AssignedCredits)
      → (List A → List AssignedCredits → Tried A)
      → Tried A
  after_cut tx st none again = try_panicked
  after_cut tx st (some (msg, rest, credits)) again =
      offer (queue_error tx) msg credits st (again rest credits)

  unfoldable pub try_loop :
      ℕ → ℕ → EventQueue → Stores → List A → List AssignedCredits → Bool → Tried A
  try_loop fuel chunk_size tx st [] credits first = tried (drop_mixed credits st) [] none
  try_loop zero chunk_size tx st (x ∷ data') credits first = try_out_of_fuel
  try_loop (suc fuel) chunk_size tx st (x ∷ data') credits first =
      let at = min (length (x ∷ data')) chunk_size in
      after_cut tx st
        (cut at (x ∷ data') first (take_mixed credits (length (take at (x ∷ data')) % 2 ^ 32)))
        λ rest left. try_loop fuel chunk_size (one_less tx) st rest left false

  abbrev pub try_granted : ℕ → EventQueue → Stores → List A → List AssignedCredits → Tried A
  try_granted chunk_size tx st [] credits =
      after_cut tx st (cut 0 [] true (take_mixed credits 1))
        λ rest left. tried (drop_mixed left st) [] none
  try_granted chunk_size tx st (x ∷ data') credits =
      try_loop (length (x ∷ data')) chunk_size tx st (x ∷ data') credits true

  abbrev pub after_request : ℕ → EventQueue → List A → Mixed → Tried A
  after_request chunk_size tx data' (st, granted (some credits)) =
      try_granted chunk_size tx st data' credits
  after_request chunk_size tx data' (st, granted none) = tried st [] (some queue_full)
  after_request chunk_size tx data' (st, refused e) = tried st [] (some (send_error e))
  after_request chunk_size tx data' (st, panicked) = try_panicked

  -- The credits to ask for, at least and at most.
  abbrev pub credits_for : List A → ℕ
  credits_for [] = 1
  credits_for (x ∷ data') = min (length (x ∷ data')) (2 ^ 32 - 1)

  unfoldable pub do_try_send : ℕ → EventQueue → MixedCreditUser → Stores → List A → Tried A
  do_try_send chunk_size tx user st data' =
      after_request chunk_size tx data'
        (try_request_mixed user st (credits_for data') (credits_for data'))
