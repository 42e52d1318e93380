-- ===== src/Sender/Whole.antt =====
-- sender.rs: the messages that `Sender::do_send` makes of data.
use remoc.Base.{
  ℕ, ◌≤◌, ◌≡◌, refl, ap, max, true, Option, none, some, List, [], ◌∷◌, length, All, arith,
}
use remoc.Msg.Types.{DataCredits}
use remoc.Credit.Assigned.{AssignedCredits, take_mixed}
use remoc.Sender.Data.{
  Sending, all_sent, waits, panicked, out_of_fuel, send_loop, do_send, send_empty,
}
use remoc.Sender.Cuts.{
  IsGrant, TakenFull, take_mixed-TakenFull, bytes_of, IsCut, Sends, send_loop-Sends,
}

module _ {ℓ} {A : Type ℓ} where
  abbrev pub IsSent : ℕ → List A → Sending A → Type ℓ
  IsSent chunk_size data' (all_sent msgs) =
      (bytes_of msgs ≡ data') × IsCut chunk_size true msgs × (1 ≤ length msgs)
  IsSent chunk_size data' (waits msgs) = ⊥ × Unit {ℓ}
  IsSent chunk_size data' panicked = ⊥ × Unit {ℓ}
  IsSent chunk_size data' out_of_fuel = ⊥ × Unit {ℓ}

  send_empty-IsSent :
      (chunk_size : ℕ) (data' : List A) (q : List AssignedCredits)
      (taken : Option (List AssignedCredits × DataCredits))
      → data' ≡ []
      → TakenFull q 1 taken
      → IsSent chunk_size data' (send_empty taken)
  send_empty-IsSent chunk_size data' q none e t = (t, tt)
  send_empty-IsSent chunk_size data' q (some (q', taken)) e t = ground (arith, e)

  Sends-IsSent :
      (chunk_size : ℕ) (x : A) (data' : List A) (r : Sending A)
      → Sends chunk_size true (x ∷ data') r
      → IsSent chunk_size (x ∷ data') r
  Sends-IsSent chunk_size x data' (all_sent []) s = absurd (omega (arith, ap length s.0))
  Sends-IsSent chunk_size x data' (all_sent (m ∷ msgs)) s = (s.0, s.1, omega arith)
  Sends-IsSent chunk_size x data' (waits msgs) s = s
  Sends-IsSent chunk_size x data' panicked s = s
  Sends-IsSent chunk_size x data' out_of_fuel s = s

  -- Data of any length is sent, where the chunk size is not zero and every request for credits is
  -- answered, with as many answers as there are bytes and one at least: nothing panics, the bytes
  -- of the messages are the data, in order, no message exceeds the chunk size, and only the first
  -- message has the flag of a start and only the last one that of an end.
  pub do_send-IsSent :
      (chunk_size : ℕ) (grants : List (List AssignedCredits)) (data' : List A)
      → 1 ≤ chunk_size
      → max (length data') 1 ≤ length grants
      → All IsGrant grants
      → IsSent chunk_size data' (do_send chunk_size grants data')
  unfolding do_send
  do_send-IsSent chunk_size [] [] h n g = absurd (omega (arith, n))
  do_send-IsSent chunk_size (granted ∷ grants) [] h n g =
      send_empty-IsSent chunk_size [] granted (take_mixed granted 1) refl
        (take_mixed-TakenFull granted 1 g.0.0 (omega arith) (omega (arith, g.0.1)))
  do_send-IsSent chunk_size grants (x ∷ data') h n g =
      Sends-IsSent chunk_size x data'
        (send_loop (length (x ∷ data')) chunk_size grants (x ∷ data') [] true)
        (send_loop-Sends (length (x ∷ data')) chunk_size grants (x ∷ data') [] true h (omega arith)
          (omega (arith, n)) g (tt, omega arith))
