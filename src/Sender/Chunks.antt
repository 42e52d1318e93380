-- ===== src/Sender/Chunks.antt =====
-- sender.rs, `ChunkSender`: a message that the application sends chunk by chunk. The multiplexer task
-- takes the events: the error of a queue whose task has ended is not modelled.
use remoc.Base.{
  ℕ, zero, suc, ◌&&◌, Bool, true, false, Option, none, some, List, [], ◌∷◌, ◌++◌, length,
}
use remoc.Msg.Types.{DataCredits}
use remoc.Credit.Assigned.{AssignedCredits, take_mixed}
use remoc.Sender.Data.{SendData, next_credits, with_next, send_chunk}

-- The events sent, with the credits at hand and the answers to requests that are left; or the events
-- before a wait for credits.
pub data Chunking {ℓ} (A : Type ℓ) : Type ℓ where
  chunk_sent : List (SendData A) → List AssignedCredits → List (List AssignedCredits) → Chunking A
  chunk_waits : List (SendData A) → Chunking A
  chunk_panicked : Chunking A
  chunk_out_of_fuel : Chunking A

module _ {ℓ} {A : Type ℓ} where
  abbrev pub after_msgs : List (SendData A) → Chunking A → Chunking A
  after_msgs msgs (chunk_sent msgs' credits grants) = chunk_sent (msgs ++ msgs') credits grants
  after_msgs msgs (chunk_waits msgs') = chunk_waits (msgs ++ msgs')
  after_msgs msgs chunk_panicked = chunk_panicked
  after_msgs msgs chunk_out_of_fuel = chunk_out_of_fuel

  -- The flag of the last chunk, where the message goes on after it.
  abbrev pub flagged : Bool → SendData A → SendData A
  flagged finish msg = record msg { last = msg.last && finish }

  abbrev pub after_part :
      Bool
      → Option (SendData A × List A × List AssignedCredits)
      → (List A → List AssignedCredits → Chunking A)
      → Chunking A
  after_part finish none again = chunk_panicked
  after_part finish (some (msg, rest, credits)) again =
      after_msgs (flagged finish msg ∷ []) (again rest credits)

  unfoldable pub part_loop :
      ℕ → ℕ → List (List AssignedCredits) → List A → List AssignedCredits → Bool → Bool → Chunking A
  part_loop fuel chunk_size grants [] credits first finish = chunk_sent [] credits grants
  part_loop zero chunk_size grants (x ∷ data') credits first finish = chunk_out_of_fuel
  part_loop (suc fuel) chunk_size grants (x ∷ data') credits first finish =
      with_next (chunk_waits []) (next_credits credits grants) λ credits1 grants1.
        after_part finish (send_chunk chunk_size (x ∷ data') credits1 first)
          λ rest credits2. part_loop fuel chunk_size grants1 rest credits2 false finish

  abbrev pub part_empty :
      Bool
      → Bool
      → List (List AssignedCredits)
      → Option (List AssignedCredits × DataCredits)
      → Chunking A
  part_empty first finish grants none = chunk_panicked
  part_empty first finish grants (some (credits, taken)) =
      chunk_sent (record { bytes = []; first = first; last = finish; credits = taken } ∷ []) credits
        grants

  -- `do_send_int`
  unfoldable pub do_send_int :
      ℕ → List (List AssignedCredits) → List A → List AssignedCredits → Bool → Bool → Chunking A
  do_send_int chunk_size grants [] credits first finish =
      with_next (chunk_waits []) (next_credits credits grants)
        λ credits1 grants1. part_empty first finish grants1 (take_mixed credits1 1)
  do_send_int chunk_size grants (x ∷ data') credits first finish =
      part_loop (length (x ∷ data')) chunk_size grants (x ∷ data') credits first finish

  abbrev pub then_send :
      Chunking A → (List AssignedCredits → List (List AssignedCredits) → Chunking A) → Chunking A
  then_send (chunk_sent msgs credits grants) next = after_msgs msgs (next credits grants)
  then_send (chunk_waits msgs) next = chunk_waits msgs
  then_send chunk_panicked next = chunk_panicked
  then_send chunk_out_of_fuel next = chunk_out_of_fuel

  -- `send` for each chunk but the last one and `send_final` for that, which is empty for `finish`.
  unfoldable pub send_chunks :
      ℕ
      → List (List AssignedCredits)
      → List (List A)
      → List A
      → List AssignedCredits
      → Bool
      → Chunking A
  send_chunks chunk_size grants [] final credits first =
      do_send_int chunk_size grants final credits first true
  send_chunks chunk_size grants (chunk ∷ chunks) final credits first =
      then_send (do_send_int chunk_size grants chunk credits first false)
        λ left grants1. send_chunks chunk_size grants1 chunks final left false
