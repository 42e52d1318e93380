-- ===== src/Sender/Data.antt =====
-- sender.rs, `Sender::do_send`: data in chunks within the credits. The multiplexer task takes the
-- events: the error of a queue whose task has ended, which ends the call, is not modelled.
use remoc.Base.{
  ℕ, zero, suc, ◌%◌, ◌^◌, min, Bool, true, false, Option, none, some, List, [], ◌∷◌, length, take,
  drop,
}
use remoc.Msg.Types.{DataCredits}
use remoc.Credit.Assigned.{AssignedCredits, available, take_mixed}

-- The event `PortEvt::SendData` for the remote port of the sender.
pub record SendData {ℓ} (A : Type ℓ) : Type ℓ where
  pub bytes : List A
  pub first : Bool
  pub last : Bool
  pub credits : DataCredits

-- All sent; or what was sent before the wait for more credits; the panic; or no fuel.
pub data Sending {ℓ} (A : Type ℓ) : Type ℓ where
  all_sent : List (SendData A) → Sending A
  waits : List (SendData A) → Sending A
  panicked : Sending A
  out_of_fuel : Sending A

abbrev pub is_nil {ℓ} : {A : Type ℓ} → List A → Bool
is_nil [] = true
is_nil (x ∷ xs) = false

-- The credits at hand, or else those of the next answer to a request.
abbrev pub next_credits :
    List AssignedCredits
    → List (List AssignedCredits)
    → Option (List AssignedCredits × List (List AssignedCredits))
next_credits (ac ∷ credits) grants = some (ac ∷ credits, grants)
next_credits [] [] = none
next_credits [] (granted ∷ grants) = some (granted, grants)

-- `otherwise` is the wait for credits.
abbrev pub with_next {ℓ} :
    {R : Type ℓ}
    → R
    → Option (List AssignedCredits × List (List AssignedCredits))
    → (List AssignedCredits → List (List AssignedCredits) → R)
    → R
with_next otherwise none go = otherwise
with_next otherwise (some (credits, grants)) go = go credits grants

module _ {ℓ} {A : Type ℓ} where
  abbrev pub before : SendData A → Sending A → Sending A
  before msg (all_sent msgs) = all_sent (msg ∷ msgs)
  before msg (waits msgs) = waits (msg ∷ msgs)
  before msg panicked = panicked
  before msg out_of_fuel = out_of_fuel

  -- A message with the bytes up to `at`, what is left, and the credits that are left.
  abbrev pub cut :
      ℕ
      → List A
      → Bool
      → Option (List AssignedCredits × DataCredits)
      → Option (SendData A × List A × List AssignedCredits)
  cut at data' first none = none
  cut at data' first (some (credits, taken)) = some (
    record { bytes = take at data'; first = first; last = is_nil (drop at data'); credits = taken },
    drop at data',
    credits,
  )

  abbrev pub send_chunk :
      ℕ → List A → List AssignedCredits → Bool → Option (SendData A × List A × List AssignedCredits)
  send_chunk chunk_size data' credits first =
      let at = min (min (length data') chunk_size) (available credits) in
      cut at data' first (take_mixed credits (length (take at data') % 2 ^ 32))

  abbrev pub after_chunk :
      Option (SendData A × List A × List AssignedCredits)
      → (List A → List AssignedCredits → Sending A)
      → Sending A
  after_chunk none again = panicked
  after_chunk (some (msg, rest, credits)) again = before msg (again rest credits)

  -- The loop over data that is left. `grants` are the answers to the requests for credits.
  unfoldable pub send_loop :
      ℕ → ℕ → List (List AssignedCredits) → List A → List AssignedCredits → Bool → Sending A
  send_loop fuel chunk_size grants [] credits first = all_sent []
  send_loop zero chunk_size grants (x ∷ data') credits first = out_of_fuel
  send_loop (suc fuel) chunk_size grants (x ∷ data') credits first =
      with_next (waits []) (next_credits credits grants) λ credits1 grants1.
        after_chunk (send_chunk chunk_size (x ∷ data') credits1 first)
          λ rest credits2. send_loop fuel chunk_size grants1 rest credits2 false

  abbrev pub send_empty : Option (List AssignedCredits × DataCredits) → Sending A
  send_empty none = panicked
  send_empty (some (credits, taken)) =
      all_sent (record { bytes = []; first = true; last = true; credits = taken } ∷ [])

  -- `do_send`; each round sends a byte at least, so the fuel is the length of the data.
  unfoldable pub do_send : ℕ → List (List AssignedCredits) → List A → Sending A
  do_send chunk_size [] [] = waits []
  do_send chunk_size (granted ∷ grants) [] = send_empty (take_mixed granted 1)
  do_send chunk_size grants (x ∷ data') =
      send_loop (length (x ∷ data')) chunk_size grants (x ∷ data') [] true
