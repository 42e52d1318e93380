-- ===== src/Mux/Examples.antt =====
-- mux.rs: the theorems about the two ends of a channel at concrete inputs.
use remoc.Base.{◌≡◌, refl, true, Option, none, some, List, [], ◌∷◌}
use remoc.Mux.{
  MuxResult, ok, protocol_error, mux_panicked, PortEvent, vacant, send_data, sender_dropped_event,
  receiver_closed_event, receiver_dropped_event, handle_port_event, handle_port_msg,
  maybe_free_port, send_finish, receive_close, connected, created_port,
}
use remoc.Mux.Peers.{Channel, new_channel, turned, move, Reachable, start, turn, moved}
use remoc.Mux.Late.{handle_port_msgs, IsRefused, handle_port_msgs-IsRefused}
use remoc.Mux.Safe.{Reachable-freed}

abbrev result : MuxResult Channel → Channel
result (ok c) = c
result protocol_error = new_channel
result mux_panicked = new_channel

-- Moves of one end in turn.
abbrev after : List (Option PortEvent) → Channel → Channel
after [] c = c
after (m ∷ ms) c = after ms (result (move c m))

-- One end sends, closes its receiver and drops both halves.
abbrev half_over : Channel
half_over = turned (
    after
      (some (send_data true true true)
        ∷ some sender_dropped_event
        ∷ some receiver_closed_event
        ∷ some receiver_dropped_event
        ∷ [])
      new_channel)

half_over-Reachable : Reachable half_over
unfolding handle_port_event handle_port_msg maybe_free_port
half_over-Reachable = turn _ (
    moved _ _ (some receiver_dropped_event)
      (moved _ _ (some receiver_closed_event)
        (moved _ _ (some sender_dropped_event)
          (moved _ _ (some (send_data true true true)) start (refl, refl) refl) refl refl)
        (refl, refl) refl)
      refl refl)

-- The other one takes the four messages and drops both halves, and the first one takes two.
abbrev over : Channel
over = after (none ∷ none ∷ []) (
    turned (
      after
        (none ∷ none ∷ none ∷ none ∷ some receiver_dropped_event ∷ some sender_dropped_event ∷ [])
        half_over))

over-Reachable : Reachable over
unfolding handle_port_event handle_port_msg maybe_free_port
over-Reachable =
    moved _ _ none
      (moved _ _ none
        (turn _ (
          moved _ _ (some sender_dropped_event)
            (moved _ _ (some receiver_dropped_event)
              (moved _ _ none
                (moved _ _ none
                  (moved _ _ none (moved _ _ none half_over-Reachable tt refl) tt refl) tt refl)
                tt refl)
              refl refl)
            refl refl))
        tt refl)
      tt refl

Reachable-freed_example : (over.here.state ≡ vacant) × (over.there.state ≡ vacant)
unfolding handle_port_event handle_port_msg maybe_free_port
Reachable-freed_example = Reachable-freed over over-Reachable refl refl refl refl refl refl

handle_port_msgs-IsRefused_example :
    IsRefused (handle_port_msgs (send_finish ∷ receive_close ∷ []) (connected created_port))
handle_port_msgs-IsRefused_example =
    handle_port_msgs-IsRefused (connected created_port) (receive_close ∷ [])
