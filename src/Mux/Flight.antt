-- ===== src/Mux/Flight.antt =====
-- mux.rs: the messages under way from one end of a channel to the other.
use remoc.Base.{◌≡◌, if◌then◌else◌, Bool, true, false, List, [], ◌∷◌, ◌++◌, arith}
use remoc.Mux.{
  PortMsg, data_for_port, report_request, report, send_finish, receive_close, receive_finish,
}

-- Messages that the receiving end takes without an error, from what it knows to what the sending end
-- has said: that its sender is dropped, that its receiver is closed, that its receiver is dropped.
abbrev pub Flight : Bool → Bool → Bool → List PortMsg → Bool → Bool → Bool → Type 0
Flight finished closed dropped [] said_finished said_closed said_dropped =
    (finished ≡ said_finished)
    × (closed ≡ (if said_dropped then true else said_closed))
    × (dropped ≡ said_dropped)
Flight finished closed dropped (data_for_port charged first last ∷ q) f c d =
    (finished ≡ false) × (charged ≡ true) × Flight finished closed dropped q f c d
Flight finished closed dropped (report_request ∷ q) f c d =
    (finished ≡ false) × Flight finished closed dropped q f c d
Flight finished closed dropped (report ∷ q) f c d = Flight finished closed dropped q f c d
Flight finished closed dropped (send_finish ∷ q) f c d =
    (finished ≡ false) × Flight true closed dropped q f c d
Flight finished closed dropped (receive_close ∷ q) f c d =
    (closed ≡ false) × (dropped ≡ false) × Flight finished true dropped q f c d
Flight finished closed dropped (receive_finish ∷ q) f c d =
    (dropped ≡ false) × Flight finished true true q f c d

-- A message that the sending end may send, and what it has said afterwards.
abbrev pub MaySend : PortMsg → Bool → Bool → Bool → Type 0
MaySend (data_for_port charged first last) f c d = (f ≡ false) × (charged ≡ true)
MaySend report_request f c d = f ≡ false
MaySend report f c d = Unit {0}
MaySend send_finish f c d = f ≡ false
MaySend receive_close f c d = (c ≡ false) × (d ≡ false)
MaySend receive_finish f c d = d ≡ false

abbrev pub finished_by : PortMsg → Bool → Bool
finished_by send_finish f = true
finished_by (data_for_port charged first last) f = f
finished_by report_request f = f
finished_by report f = f
finished_by receive_close f = f
finished_by receive_finish f = f

abbrev pub closed_by : PortMsg → Bool → Bool
closed_by receive_close c = true
closed_by (data_for_port charged first last) c = c
closed_by report_request c = c
closed_by report c = c
closed_by send_finish c = c
closed_by receive_finish c = c

abbrev pub dropped_by : PortMsg → Bool → Bool
dropped_by receive_finish d = true
dropped_by (data_for_port charged first last) d = d
dropped_by report_request d = d
dropped_by report d = d
dropped_by send_finish d = d
dropped_by receive_close d = d

pub Flight-append :
    (q : List PortMsg) (msg : PortMsg) (finished closed dropped f c d : Bool)
    → Flight finished closed dropped q f c d
    → MaySend msg f c d
    → Flight finished closed dropped
        (q ++ (msg ∷ []))
        (finished_by msg f)
        (closed_by msg c)
        (dropped_by msg d)
Flight-append [] (data_for_port charged first last) finished closed dropped f c d h m =
    ground (arith, h, m)
Flight-append [] report_request finished closed dropped f c d h m = ground (arith, h, m)
Flight-append [] report finished closed dropped f c d h m = h
Flight-append [] send_finish finished closed dropped f c d h m = ground (arith, h, m)
Flight-append [] receive_close finished closed dropped f c d h m = ground (arith, h, m)
Flight-append [] receive_finish finished closed dropped f c d h m = ground (arith, h, m)
Flight-append (data_for_port charged first last ∷ q) msg finished closed dropped f c d h m =
    (h.0, h.1, Flight-append q msg finished closed dropped f c d h.2 m)
Flight-append (report_request ∷ q) msg finished closed dropped f c d h m =
    (h.0, Flight-append q msg finished closed dropped f c d h.1 m)
Flight-append (report ∷ q) msg finished closed dropped f c d h m =
    Flight-append q msg finished closed dropped f c d h m
Flight-append (send_finish ∷ q) msg finished closed dropped f c d h m =
    (h.0, Flight-append q msg true closed dropped f c d h.1 m)
Flight-append (receive_close ∷ q) msg finished closed dropped f c d h m =
    (h.0, h.1, Flight-append q msg finished true dropped f c d h.2 m)
Flight-append (receive_finish ∷ q) msg finished closed dropped f c d h m =
    (h.0, Flight-append q msg finished true true f c d h.1 m)

-- Whether a receiver was closed does not matter once it is dropped.
pub Flight-closed :
    (q : List PortMsg) (finished closed dropped f c c' : Bool)
    → Flight finished closed dropped q f c true
    → Flight finished closed dropped q f c' true
Flight-closed [] finished closed dropped f c c' h = h
Flight-closed (data_for_port charged first last ∷ q) finished closed dropped f c c' h =
    (h.0, h.1, Flight-closed q finished closed dropped f c c' h.2)
Flight-closed (report_request ∷ q) finished closed dropped f c c' h =
    (h.0, Flight-closed q finished closed dropped f c c' h.1)
Flight-closed (report ∷ q) finished closed dropped f c c' h =
    Flight-closed q finished closed dropped f c c' h
Flight-closed (send_finish ∷ q) finished closed dropped f c c' h =
    (h.0, Flight-closed q true closed dropped f c c' h.1)
Flight-closed (receive_close ∷ q) finished closed dropped f c c' h =
    (h.0, h.1, Flight-closed q finished true dropped f c c' h.2)
Flight-closed (receive_finish ∷ q) finished closed dropped f c c' h =
    (h.0, Flight-closed q finished true true f c c' h.1)
