-- ===== src/Sender.antt =====
-- remoc/src/chmux/sender.rs, `Sender::do_connect`: the loop that sends ports for connection requests.
-- Sender/Data, Sender/Try and Sender/Chunks have the calls that send data.
pub mod Rounds
pub mod Data
pub mod Cuts
pub mod Whole
pub mod Chunks
pub mod Parts
pub mod Message
pub mod Try
pub mod Tries
pub mod Attempts
mod Examples
use remoc.Base.{
  ℕ, ◌-◌, ◌*◌, ◌/◌, min, ltb, ◌==◌, if◌then◌else◌, Bool, true, false, List, [], ◌∷◌, length, take,
  drop,
}

-- The state of the loop: the requests that are left, the credits at hand, and the flag.
pub record PortSend {ℓ} (A : Type ℓ) : Type ℓ where
  pub ports_response : List A
  pub credits : ℕ
  pub first : Bool

-- The event `PortEvt::SendPorts` for the remote port of the sender.
pub record SendPorts {ℓ} (A : Type ℓ) : Type ℓ where
  pub first : Bool
  pub last : Bool
  pub ports : List A

module _ {ℓ} {A : Type ℓ} (chunk_size : ℕ) where
  abbrev pub is_empty : List A → Bool
  is_empty [] = true
  is_empty (x ∷ xs) = false

  -- A round for requests that are left; `granted` are the credits that a request gives, which is
  -- made only where no credits are at hand. The credits taken are never more than those at hand.
  unfoldable pub send_round : ℕ → PortSend A → PortSend A × SendPorts A
  send_round granted s =
      let credits = if s.credits == 0 then granted else s.credits in
      let max_ports = min chunk_size credits / 4 in
      let splits = ltb max_ports (length s.ports_response) in
      let now = if splits then take max_ports s.ports_response else s.ports_response in
      let next = if splits then drop max_ports s.ports_response else [] in
      (
        record { ports_response = next; credits = credits - length now * 4; first = false },
        record { first = s.first; last = is_empty next; ports = now },
      )

  -- As many rounds as there are answers to requests, unless all ports have been sent.
  unfoldable pub send_rounds : List ℕ → PortSend A → PortSend A × List (SendPorts A)
  send_rounds [] s = (s, [])
  send_rounds (granted ∷ grants) s =
      let (s', msg) = send_round granted s in
      let (s'', msgs) = send_rounds grants s' in
      if is_empty s.ports_response then (s, []) else (s'', msg ∷ msgs)
