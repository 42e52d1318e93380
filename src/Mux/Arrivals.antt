-- ===== src/Mux/Arrivals.antt =====
-- mux.rs: a message that arrives at one end of a channel.
use remoc.Base.{
  ◌+◌, ◌==◌, ◌≡◌, refl, ap, ◌∙◌, not, Bool, true, false, some, List, [], ◌∷◌, ◌++◌, Bool-cases, inl,
  inr, arith,
}
use remoc.Mux.{
  PortMsg, data_for_port, report_request, report, send_finish, receive_close, receive_finish, Port,
  PortState, vacant, connecting, connected, MuxResult, ok, protocol_error, mux_panicked,
  handle_port_msg, maybe_free_port, queued_finished, Queued, deliver_report, queued_data,
  queued_report_request, enqueue, finish_sender, close_sender, lose_receiver,
}
use remoc.Mux.Peers.{Side}
use remoc.Mux.Invariant.{
  InFlight, IsKept, IsSound, IsSoundSide, freed-InFlight, freed-Knows, freed-IsSound,
}

-- The port after a message.
abbrev pub Takes : List PortMsg → List PortMsg → PortState → Side → MuxResult PortState → Type 0
Takes out back other side (ok s) =
    InFlight out other s × InFlight back s other × IsSoundSide (record side { state = s })
Takes out back other side protocol_error = ⊥
Takes out back other side mux_panicked = ⊥

finish_sender-Takes :
    (out back : List PortMsg) (other : PortState) (p : Port) (s r c : Bool)
    → InFlight out other (connected p)
    → InFlight (send_finish ∷ back) (connected p) other
    → IsSound (connected p) s r c
    → Takes out back other
        (record { state = connected p; has_sender = s; has_receiver = r; has_closed = c })
        (finish_sender p)
unfolding maybe_free_port
finish_sender-Takes out back other p s r c f b h =
    let p' : Port = record p {
      receiver_tx_data = false;
      queue = p.queue ++ (queued_finished ∷ []);
    } in
    let present : p.receiver_tx_data ≡ true = ground (arith, b.0) in
    rw present (
      freed-InFlight out other p' f,
      freed-Knows back other p' h.1 b.1,
      freed-IsSound p' s r c h.0 h.1,
    )

close_sender-Takes :
    (out back : List PortMsg) (other : PortState) (p : Port) (s r c : Bool)
    → InFlight out other (connected p)
    → InFlight (receive_close ∷ back) (connected p) other
    → IsSound (connected p) s r c
    → Takes out back other
        (record { state = connected p; has_sender = s; has_receiver = r; has_closed = c })
        (close_sender p)
unfolding maybe_free_port
close_sender-Takes out back other p s r c f b h =
    let p' : Port = record p {
      credits_closed = some true;
      remote_receiver_closed = true;
      closed_notify = false;
    } in
    rw (b.0, h.1.0, b.0)
      (
        freed-InFlight out other p' f,
        freed-Knows back other p' (refl, ground arith) b.2,
        freed-IsSound p' s r c h.0 (refl, ground arith),
      )

-- The list of those to notify is there where no close has come before, and is gone afterwards.
lose_receiver-Takes :
    (out back : List PortMsg) (other : PortState) (p : Port) (s r c : Bool)
    → InFlight out other (connected p)
    → InFlight (receive_finish ∷ back) (connected p) other
    → IsSound (connected p) s r c
    → Takes out back other
        (record { state = connected p; has_sender = s; has_receiver = r; has_closed = c })
        (lose_receiver p)
unfolding maybe_free_port
lose_receiver-Takes out back other p s r c f b h = elim (Bool-cases p.remote_receiver_closed) [
  | inl t ↦
      let p' : Port = record p {
        reports_delivered = p.reports_delivered + p.report_processed;
        report_processed = 0;
        remote_receiver_closed = true;
        remote_receiver_dropped = true;
      } in
      let kept : IsKept p' = (h.1.0 ∙ ap not t, refl) in
      rw t (
        freed-InFlight out other p' f,
        freed-Knows back other p' kept b.1,
        freed-IsSound p' s r c h.0 kept,
      )
  | inr u ↦
      let p' : Port = record p {
        credits_closed = some false;
        remote_receiver_closed = true;
        closed_notify = false;
        reports_delivered = p.reports_delivered + p.report_processed;
        report_processed = 0;
        remote_receiver_dropped = true;
      } in
      let there : p.closed_notify ≡ true = h.1.0 ∙ ap not u in
      rw (u, there)
        (
          freed-InFlight out other p' f,
          freed-Knows back other p' (refl, refl) b.1,
          freed-IsSound p' s r c h.0 (refl, refl),
        )
]

enqueue-Takes :
    (msg : Queued) (out back : List PortMsg) (other : PortState) (p : Port) (s r c : Bool)
    → InFlight out other (connected p)
    → InFlight back (connected p) other
    → IsSound (connected p) s r c
    → not p.receiver_tx_data ≡ false
    → Takes out back other
        (record { state = connected p; has_sender = s; has_receiver = r; has_closed = c })
        (enqueue msg p)
enqueue-Takes msg out back other p s r c f b h e =
    let present : p.receiver_tx_data ≡ true = ground (arith, e) in
    rw present (f, rw present at b, (h.0, h.1, rw present at h.2))

deliver_report-Takes :
    (out back : List PortMsg) (other : PortState) (p : Port) (s r c : Bool)
    → InFlight out other (connected p)
    → InFlight back (connected p) other
    → IsSound (connected p) s r c
    → Takes out back other
        (record { state = connected p; has_sender = s; has_receiver = r; has_closed = c })
        (ok (deliver_report (connected p)))
deliver_report-Takes out back other p s r c f b h = elim (Bool-cases (p.report_processed == 0)) [
  | inl t ↦ rw t (f, b, h)
  | inr u ↦ rw u (f, b, h)
]

pub msg-Takes :
    (out back : List PortMsg) (other state : PortState) (s r c : Bool) (msg : PortMsg)
    → InFlight out other state
    → InFlight (msg ∷ back) state other
    → IsSound state s r c
    → Takes out back other
        (record { state = state; has_sender = s; has_receiver = r; has_closed = c })
        (handle_port_msg state msg)
unfolding handle_port_msg
msg-Takes out back other connecting s r c msg f b h = absurd h
msg-Takes out back other vacant s r c (data_for_port charged first last) f b h = ground (arith, b)
msg-Takes out back other vacant s r c report_request f b h = ground (arith, b)
msg-Takes out back other vacant s r c report f b h = (f, b, h)
msg-Takes out back other vacant s r c send_finish f b h = ground (arith, b)
msg-Takes out back other vacant s r c receive_close f b h = ground (arith, b)
msg-Takes out back other vacant s r c receive_finish f b h = ground (arith, b)
msg-Takes out back other (connected p) s r c (data_for_port charged first last) f b h =
    rw b.1 (enqueue-Takes (queued_data first last) out back other p s r c f b.2 h b.0)
msg-Takes out back other (connected p) s r c report_request f b h =
    enqueue-Takes queued_report_request out back other p s r c f b.1 h b.0
msg-Takes out back other (connected p) s r c report f b h =
    deliver_report-Takes out back other p s r c f b h
msg-Takes out back other (connected p) s r c send_finish f b h =
    finish_sender-Takes out back other p s r c f b h
msg-Takes out back other (connected p) s r c receive_close f b h =
    close_sender-Takes out back other p s r c f b h
msg-Takes out back other (connected p) s r c receive_finish f b h =
    lose_receiver-Takes out back other p s r c f b h
