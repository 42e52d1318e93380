-- ===== src/Open/Examples.antt =====
-- mux.rs: the theorems about the opening of ports at concrete inputs.
use remoc.Base.{◌≡◌, refl, arith, ℕ, Bool, true, false, none, List, [], ◌∷◌}
use remoc.Mux.{MuxResult, ok, protocol_error, mux_panicked}
use remoc.Open.Requester.{
  ClientReq, new_requester, handle_connect_req, handle_port_opened, handle_rejected,
}
use remoc.Open.Client.{connect}
use remoc.Open.Responder.{Request, new_responder, handle_open_port, handle_answer}
use remoc.Open.Answers.{accept, accept_pre_connected}
use remoc.Open.Peers.{
  Peers, new_peers, accepts, rejects, Move, ask, take_connect_req, reach_responder, take_from_queue,
  answer, take_answer, reach_requester, move, Reachable, starts, moves,
}
use remoc.Open.Safe.{OpenSucceeds, IsIdle, Reachable-OpenSucceeds, Reachable-IsIdle}
use remoc.Open.Overrun.{PassOn, send_ports-overruns}

abbrev start : Peers
start = new_peers true true true 2

abbrev result : MuxResult Peers → Peers
result (ok c) = c
result protocol_error = start
result mux_panicked = start

abbrev after : List Move → Peers → Peers
after [] c = c
after (m ∷ ms) c = after ms (result (move c m))

abbrev client_req : ℕ → ClientReq
client_req port = record { port = port; id = 40; wait = true; pre_connect_credit = false }

abbrev remote_req : ℕ → Bool → Request
remote_req port pre = record { remote_port = port; id = 40; wait = true; pre_connected = pre }

-- A pre-connected request reaches the application, which accepts it.
abbrev asked : List Move
asked =
    ask true (client_req 7)
    ∷ take_connect_req
    ∷ reach_responder
    ∷ take_from_queue true
    ∷ answer [] (remote_req 7 true) [] (accepts (record { is_granted = true; local_number = 3 }))
    ∷ []

asked-Reachable : Reachable start (after asked start)
unfolding connect handle_connect_req handle_open_port accept accept_pre_connected
asked-Reachable =
    moves _ _
      (answer [] (remote_req 7 true) [] (accepts (record { is_granted = true; local_number = 3 })))
      (moves _ _ (take_from_queue true)
        (moves _ _ reach_responder
          (moves _ _ take_connect_req
            (moves _ _ (ask true (client_req 7)) starts (refl, refl, refl, refl) refl) tt refl)
          tt refl)
        tt refl)
      (refl, refl) refl

Reachable-OpenSucceeds_example : OpenSucceeds (move (after asked start) take_answer)
Reachable-OpenSucceeds_example =
    Reachable-OpenSucceeds true true true 2 (after asked start) take_answer asked-Reachable tt

-- The answer comes back; then the application rejects another request, of port 8.
abbrev opened : Peers
opened = after (take_answer ∷ reach_requester ∷ []) (after asked start)

abbrev refused : List Move
refused =
    ask false (client_req 8)
    ∷ take_connect_req
    ∷ reach_responder
    ∷ take_from_queue true
    ∷ answer [] (remote_req 8 false) [] (rejects true)
    ∷ take_answer
    ∷ reach_requester
    ∷ []

opened-Reachable : Reachable start opened
unfolding connect handle_connect_req handle_open_port accept accept_pre_connected handle_answer
    handle_port_opened
opened-Reachable = moves _ _ reach_requester (moves _ _ take_answer asked-Reachable tt refl) tt refl

refused-Reachable : Reachable start (after refused opened)
unfolding connect handle_connect_req handle_open_port accept accept_pre_connected handle_answer
    handle_port_opened handle_rejected
refused-Reachable =
    moves _ _ reach_requester
      (moves _ _ take_answer
        (moves _ _ (answer [] (remote_req 8 false) [] (rejects true))
          (moves _ _ (take_from_queue true)
            (moves _ _ reach_responder
              (moves _ _ take_connect_req
                (moves _ _ (ask false (client_req 8)) opened-Reachable (refl, refl, refl, refl)
                  refl)
                tt refl)
              tt refl)
            tt refl)
          (refl, tt) refl)
        tt refl)
      tt refl

Reachable-IsIdle_example : IsIdle (after refused opened)
unfolding connect handle_connect_req handle_open_port accept accept_pre_connected handle_answer
    handle_port_opened handle_rejected
Reachable-IsIdle_example =
    Reachable-IsIdle true true true 2 (after refused opened) refused-Reachable
      (refl, refl, refl, refl, refl, refl, refl)

send_ports-overruns_example :
    (p : PassOn
      (new_requester true true 2)
      (new_responder true 2)
      true
      (client_req 7 ∷ client_req 8 ∷ []))
    × (handle_open_port p.responder 9 true none false ≡ protocol_error)
send_ports-overruns_example =
    send_ports-overruns (new_requester true true 2) (new_responder true 2) true
      (client_req 7 ∷ client_req 8 ∷ []) 9 true none false
      (refl, refl, refl, refl, (refl, refl, refl, refl, tt)) (omega arith)
