-- ===== src/Open/Overrun.antt =====
-- sender.rs, `connect`, and mux.rs: requests in port data count for the limit of the connect queue, and
-- take no credit of it.
use remoc.Base.{
  ◌≡◌, ◌≤◌, refl, ap, ◌∙◌, arith, inl, inr, Bool-cases, contains, ltb, ℕ, suc, ◌+◌, ◌==◌, Bool,
  true, false, Option, some, List, [], ◌∷◌, length,
}
use remoc.Mux.{ok, protocol_error}
use remoc.Msg.Types.{PortDataItem}
use remoc.Open.Requester.{
  Requester, ClientReq, PortEntry, vacant, connecting, by_port_sender, set_entry, send_ports,
  port_data_item, then_item, begin_request,
}
use remoc.Open.Responder.{
  Responder, Request, open_data_ports, insert_outstanding, is_outstanding, handle_open_port,
  new_request, then_requests,
}
use remoc.Open.Peers.{has_req}

-- The requests are not pre-connected, and their ports are different ones that neither end has in use.
abbrev AreNew : (ℕ → PortEntry) → List ℕ → List ClientReq → Type 0
AreNew ports outstanding [] = Unit {0}
AreNew ports outstanding (req ∷ reqs) =
    (req.pre_connect_credit ≡ false)
    × (ports req.port ≡ vacant)
    × (contains outstanding req.port ≡ false)
    × (has_req reqs req.port ≡ false)
    × AreNew ports outstanding reqs

after_one :
    (ports : ℕ → PortEntry) (outstanding : List ℕ) (port : ℕ) (entry : PortEntry)
    (reqs : List ClientReq)
    → has_req reqs port ≡ false
    → AreNew ports outstanding reqs
    → AreNew (set_entry ports port entry) (port ∷ outstanding) reqs
after_one ports outstanding port entry [] new h = tt
after_one ports outstanding port entry (req ∷ reqs) new h = elim (Bool-cases (req.port == port)) [
  | inl e ↦ absurd (ground (arith, rw e at new))
  | inr e ↦
      let other : (port == req.port) ≡ false = ground (arith, e) in
      rw other (h.0, h.1, h.2, h.3, after_one ports outstanding port entry reqs (rw e at new) h.4)
]

-- The requester sends the requests and the responder opens them.
pub record PassOn (r : Requester) (s : Responder) (wait : Bool) (reqs : List ClientReq)
    : Type 0 where
  pub requester : Requester
  pub items : List PortDataItem
  pub responder : Responder
  pub requests : List Request
  pub sent : send_ports (ok r) reqs ≡ ok (requester, items)
  pub same_credits : requester.connect_credits ≡ r.connect_credits
  pub opened : open_data_ports (ok s) wait items ≡ ok (responder, requests)
  pub more :
      length responder.outstanding_remote_port_requests
      ≡ length reqs + length s.outstanding_remote_port_requests
  pub same_queue : responder.connect_queue ≡ s.connect_queue

send_ports-begin :
    (r r' : Requester) (req : ClientReq) (reqs : List ClientReq)
    → begin_request r by_port_sender req ≡ ok r'
    → send_ports (ok r) (req ∷ reqs) ≡ then_item (port_data_item r req) (send_ports (ok r') reqs)
unfolding send_ports
send_ports-begin r r' req reqs e = rw e refl

open_data_ports-next :
    (s : Responder) (wait : Bool) (item : PortDataItem) (items : List PortDataItem)
    → is_outstanding s item.port ≡ false
    → item.pre_connect ≡ false
    → open_data_ports (ok s) wait (item ∷ items)
      ≡ then_requests
          (new_request item.port (some item.id) wait false)
          (open_data_ports (ok (insert_outstanding s item.port)) wait items)
unfolding open_data_ports
open_data_ports-next s wait item items new off = rw (new, off) refl

begun :
    (r : Requester) (req : ClientReq)
    → req.pre_connect_credit ≡ false
    → r.ports req.port ≡ vacant
    → begin_request r by_port_sender req
      ≡ ok (record r { ports = set_entry r.ports req.port (connecting by_port_sender) })
begun r req off free = rw (off, free) refl

reqs-PassOn :
    (r : Requester) (s : Responder) (wait : Bool) (reqs : List ClientReq)
    → AreNew r.ports s.outstanding_remote_port_requests reqs
    → PassOn r s wait reqs
unfolding send_ports open_data_ports
reqs-PassOn r s wait [] h = record {
  requester = r;
  items = [];
  responder = s;
  requests = [];
  sent = refl;
  same_credits = refl;
  opened = refl;
  more = omega arith;
  same_queue = refl;
}
reqs-PassOn r s wait (req ∷ reqs) h =
    let r' = record r { ports = set_entry r.ports req.port (connecting by_port_sender) } in
    let s' = insert_outstanding s req.port in
    let rest = reqs-PassOn r' s' wait reqs (
      after_one r.ports s.outstanding_remote_port_requests req.port (connecting by_port_sender) reqs
        h.3 h.4) in
    let request' = new_request req.port (some (port_data_item r req).id) wait false in
    record {
      requester = rest.requester;
      items = port_data_item r req ∷ rest.items;
      responder = rest.responder;
      requests = request' ∷ rest.requests;
      sent =
          send_ports-begin r r' req reqs (begun r req h.0 h.1)
          ∙ ap (then_item (port_data_item r req)) rest.sent;
      same_credits = rest.same_credits;
      opened =
          open_data_ports-next s wait (port_data_item r req) rest.items h.2 h.0
          ∙ ap (then_requests request') rest.opened;
      more = omega (arith, rest.more);
      same_queue = rest.same_queue;
    }

overfull :
    (s : Responder) (port : ℕ) (wait : Bool) (id : Option ℕ) (pre : Bool)
    → s.connect_queue ≤ length s.outstanding_remote_port_requests
    → handle_open_port s port wait id pre ≡ protocol_error
unfolding handle_open_port
overfull s port wait id pre h =
    let over : ltb s.connect_queue (suc (length s.outstanding_remote_port_requests)) ≡ true =
      ground (arith, h) in
    elim (Bool-cases (is_outstanding s port)) [ inl e ↦ rw e refl | inr e ↦ rw (e, over) refl ]

-- Take any requests for different ports that neither end has in use, not pre-connected, at least as
-- many as the connect queue has places. Both ends accept them as port data, for which the requester
-- keeps the credits of the connect queue that it has; but afterwards, until a request is answered, the
-- responder ends the connection with a protocol error on whatever `OpenPort` message comes next.
pub send_ports-overruns :
    (r : Requester) (s : Responder) (wait : Bool) (reqs : List ClientReq) (port : ℕ) (wait' : Bool)
    (id : Option ℕ) (pre : Bool)
    → AreNew r.ports s.outstanding_remote_port_requests reqs
    → s.connect_queue ≤ length reqs
    → (p : PassOn r s wait reqs) × (handle_open_port p.responder port wait' id pre ≡ protocol_error)
send_ports-overruns r s wait reqs port wait' id pre new many =
    let p = reqs-PassOn r s wait reqs new in
    (p, overfull p.responder port wait' id pre (omega (arith, p.more, p.same_queue, many)))
