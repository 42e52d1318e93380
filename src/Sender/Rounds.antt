-- ===== src/Sender/Rounds.antt =====
-- sender.rs: what the rounds of the loop send, and when they send nothing.
use remoc.Base.{
  ℕ, ◌/◌, min, ◌==◌, if◌then◌else◌, ◌≤◌, ◌<◌, ◌≡◌, refl, false, List, [], ◌∷◌, ◌++◌, length,
  take-append-drop, append_assoc, append-nil, arith,
}
use remoc.Sender.{PortSend, SendPorts, send_round, send_rounds, is_empty}

-- The ports of the messages, in order.
abbrev pub ports_of {ℓ} : {A : Type ℓ} → List (SendPorts A) → List A
ports_of [] = []
ports_of (msg ∷ msgs) = msg.ports ++ ports_of msgs

module _ {ℓ} {A : Type ℓ} (chunk_size : ℕ) where
  send_round-append :
      (granted : ℕ) (s : PortSend A)
      → (send_round chunk_size granted s).1.ports
          ++ (send_round chunk_size granted s).0.ports_response
        ≡ s.ports_response
  unfolding send_round
  send_round-append granted s =
      let n = min chunk_size (if s.credits == 0 then granted else s.credits) / 4 in
      ground (arith, take-append-drop n s.ports_response, append-nil s.ports_response)

  -- The ports that have been sent after any number of rounds, in the order of the messages, and those
  -- that are left are the ports at the start, in their order.
  pub send_rounds-append :
      (grants : List ℕ) (s : PortSend A)
      → ports_of (send_rounds chunk_size grants s).1
          ++ (send_rounds chunk_size grants s).0.ports_response
        ≡ s.ports_response
  unfolding send_rounds
  send_rounds-append [] s = refl
  send_rounds-append (granted ∷ grants) s =
      let (s', msg) = send_round chunk_size granted s in
      ground (
        arith,
        send_round-append granted s,
        send_rounds-append grants s',
        append_assoc msg.ports (ports_of (send_rounds chunk_size grants s').1)
            (send_rounds chunk_size grants s').0.ports_response,
      )

  -- With one to three credits at hand and ports left the loop never sends another port: whatever
  -- number of rounds follows, the same ports and credits are left, and every message is empty.
  pub send_rounds-starved :
      (grants : List ℕ) (s : PortSend A)
      → 1 ≤ s.credits
      → s.credits < 4
      → is_empty chunk_size s.ports_response ≡ false
      → ((send_rounds chunk_size grants s).0.ports_response ≡ s.ports_response)
        × ((send_rounds chunk_size grants s).0.credits ≡ s.credits)
        × (length (send_rounds chunk_size grants s).1 ≡ length grants)
        × (ports_of (send_rounds chunk_size grants s).1 ≡ [])
  unfolding send_rounds send_round
  send_rounds-starved [] s h k e = (refl, refl, refl, refl)
  send_rounds-starved (granted ∷ grants) s h k e =
      ground (arith, send_rounds-starved grants (record s { first = false }) h k e)
