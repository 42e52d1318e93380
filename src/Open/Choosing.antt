-- ===== src/Open/Choosing.antt =====
-- listener.rs: whatever the application does with a request, one answer for it is sent.
use remoc.Base.{
  ◌≡◌, ◌≤◌, refl, arith, ℕ, ◌+◌, if◌then◌else◌, Bool, true, false, List, [], ap, ◌∙◌, inl, inr,
  Bool-cases, ◌∷◌, ◌++◌,
}
use remoc.SidePort.{SidePort, remote, local}
use remoc.Open.Responder.{
  Request, AnswerEvt, accepted_evt, accepted_after_pre_connect, rejected_evt, Responder, has_port,
  same_port,
}
use remoc.Open.Counts.{total, at, at_port, same_port-eq, has_port-total}
use remoc.Open.Peers.{
  Choice, accepts, accepts_reserved, accepts_tentatively, rejects, drops, choose, CanChoose,
}
use remoc.Open.Answers.{
  Reservation, accept, accept_reserved, accept_tentatively, accept_pre_connected, accept_with,
  reject,
}
use remoc.Open.Weights.{w_request_pre, w_event, w_event_pre, w_accepted, w_key, w_late}

-- What an answer to a request is, with the ports that are allocated afterwards.
pub record IsAnswer (before : List SidePort) (req : Request) (event : AnswerEvt)
    (ports : List SidePort) : Type 0 where
  pub whole : (f : ℕ → ℕ) → w_event f event ≡ f req.remote_port
  pub same_pre : (f : ℕ → ℕ) → w_event_pre f event ≡ w_request_pre f req
  pub accepts_less : (f : ℕ → ℕ) → w_accepted f event ≤ f req.remote_port
  pub keyed_less : (p : ℕ) → w_key (remote p) event ≤ w_accepted (at p) event
  pub allocates :
      (k : SidePort) → total (at_port k) ports ≡ total (at_port k) before + w_key k event
  pub allocates_once : (k : SidePort) → total (at_port k) ports ≤ 1
  pub in_time : w_late event ≡ 0

-- The answers there are: a rejection, the acceptance of a pre-connected port, and that of another.
rejected-IsAnswer :
    (s : Responder) (req : Request) (no_ports : Bool)
    → ((k : SidePort) → total (at_port k) s.allocated ≤ 1)
    → IsAnswer s.allocated req (rejected_evt req.remote_port no_ports req.pre_connected) s.allocated
rejected-IsAnswer s req no_ports h = record {
  whole = λ f. refl;
  same_pre = λ f. elim (Bool-cases req.pre_connected) [ inl e ↦ rw e refl | inr e ↦ rw e refl ];
  accepts_less = λ f. omega arith;
  keyed_less = λ p. omega arith;
  allocates = λ k. omega arith;
  allocates_once = h;
  in_time = refl;
}

pre_connected-IsAnswer :
    (s : Responder) (req : Request)
    → ((k : SidePort) → total (at_port k) s.allocated ≤ 1)
    → req.pre_connected ≡ true
    → IsAnswer s.allocated req (accepted_after_pre_connect req.remote_port) s.allocated
pre_connected-IsAnswer s req h e = record {
  whole = λ f. refl;
  same_pre = λ f. rw e refl;
  accepts_less = λ f. omega arith;
  keyed_less = λ p. omega arith;
  allocates = λ k. omega arith;
  allocates_once = h;
  in_time = refl;
}

accepted-IsAnswer :
    (s : Responder) (req : Request) (port : SidePort)
    → ((k : SidePort) → total (at_port k) s.allocated ≤ 1)
    → req.pre_connected ≡ false
    → has_port s.allocated port ≡ false
    → ((p : ℕ) → at_port (remote p) port ≤ at p req.remote_port)
    → IsAnswer s.allocated req (accepted_evt port req.remote_port) (port ∷ s.allocated)
unfolding total
accepted-IsAnswer s req port h e new below = record {
  whole = λ f. refl;
  same_pre = λ f. rw e refl;
  accepts_less = λ f. omega arith;
  keyed_less = below;
  allocates = λ k. omega arith;
  allocates_once = λ k. elim (Bool-cases (same_port port k)) [
    | inl q ↦ omega (
      arith,
      h k,
      has_port-total s.allocated port new,
      ap (λ x. total (at_port x) s.allocated) (same_port-eq port k q),
      ap {B = ℕ} (λ b. if b then 1 else 0) q,
    )
    | inr q ↦ omega (arith, h k, ap {B = ℕ} (λ b. if b then 1 else 0) q)
  ];
  in_time = refl;
}

-- Whatever the application does with a request, one answer for it is sent.
pub record Answers (s : Responder) (req : Request) (s' : Responder) : Type 0 where
  pub event : AnswerEvt
  pub ports : List SidePort
  pub is_sent : s' ≡ record s { events = s.events ++ (event ∷ []); allocated = ports }
  pub is_answer : IsAnswer s.allocated req event ports

abbrev IsOnce : Responder → Type 0
IsOnce s = (k : SidePort) → total (at_port k) s.allocated ≤ 1

rejected-Answers :
    (s : Responder) (req : Request) (no_ports : Bool)
    → IsOnce s
    → Answers s req (reject req no_ports s)
rejected-Answers s req no_ports h = record {
  event = rejected_evt req.remote_port no_ports req.pre_connected;
  ports = s.allocated;
  is_sent = refl;
  is_answer = rejected-IsAnswer s req no_ports h;
}

accept_pre_connected-Answers :
    (s : Responder) (req : Request) (reservation : Reservation)
    → IsOnce s
    → req.pre_connected ≡ true
    → Answers s req (accept_pre_connected req reservation s).0
unfolding accept_pre_connected
accept_pre_connected-Answers s req reservation h e = elim (Bool-cases reservation.is_granted) [
  | inl g ↦ rw g (record {
    event = accepted_after_pre_connect req.remote_port;
    ports = s.allocated;
    is_sent = refl;
    is_answer = pre_connected-IsAnswer s req h e;
  })
  | inr g ↦ rw g (rejected-Answers s req false h)
]

accept_with-Answers :
    (s : Responder) (req : Request) (reservation : Reservation)
    → IsOnce s
    → req.pre_connected ≡ false
    → has_port s.allocated (local reservation.local_number) ≡ false
    → Answers s req (accept_with req reservation s).0
accept_with-Answers s req reservation h e new = elim (Bool-cases s.is_port_side_supported) [
  | inl side ↦ elim (Bool-cases (has_port s.allocated (remote req.remote_port))) [
    | inl used ↦ record {
      event = rejected_evt req.remote_port false req.pre_connected;
      ports = s.allocated;
      is_sent = rw (side, used) refl;
      is_answer = rejected-IsAnswer s req false h;
    }
    | inr unused ↦ record {
      event = accepted_evt (remote req.remote_port) req.remote_port;
      ports = remote req.remote_port ∷ s.allocated;
      is_sent = rw (side, unused) refl;
      is_answer = accepted-IsAnswer s req (remote req.remote_port) h e unused (λ p. omega arith);
    }
  ]
  | inr side ↦ record {
    event = accepted_evt (local reservation.local_number) req.remote_port;
    ports = local reservation.local_number ∷ s.allocated;
    is_sent = rw side refl;
    is_answer = accepted-IsAnswer s req (local reservation.local_number) h e new (λ p. omega arith);
  }
]

Answers-path : {s t t' : Responder} {req : Request} → t' ≡ t → Answers s req t → Answers s req t'
Answers-path e a = record {
  event = a.event;
  ports = a.ports;
  is_sent = e ∙ a.is_sent;
  is_answer = a.is_answer;
}

accept-Answers :
    (s : Responder) (req : Request) (reservation : Reservation)
    → IsOnce s
    → has_port s.allocated (local reservation.local_number) ≡ false
    → Answers s req (accept req reservation s).0
unfolding accept
accept-Answers s req reservation h new = elim (Bool-cases req.pre_connected) [
  | inl e ↦ Answers-path (rw e refl) (accept_pre_connected-Answers s req reservation h e)
  | inr e ↦ elim (Bool-cases reservation.is_granted) [
    | inl g ↦ Answers-path (rw (e, g) refl) (accept_with-Answers s req reservation h e new)
    | inr g ↦ elim (Bool-cases req.wait) [
      | inl w ↦ Answers-path (rw (e, g, w) refl) (rejected-Answers s req false h)
      | inr w ↦ Answers-path (rw (e, g, w) refl) (rejected-Answers s req true h)
    ]
  ]
]

accept_reserved-Answers :
    (s : Responder) (req : Request) (reservation further : Reservation)
    → IsOnce s
    → has_port s.allocated (local reservation.local_number) ≡ false
    → Answers s req (accept_reserved req reservation further s).0
unfolding accept_reserved
accept_reserved-Answers s req reservation further h new = elim (Bool-cases req.pre_connected) [
  | inl e ↦ Answers-path (rw e refl) (accept_pre_connected-Answers s req further h e)
  | inr e ↦ Answers-path (rw e refl) (accept_with-Answers s req reservation h e new)
]

accept_tentatively-Answers :
    (s : Responder) (req : Request) (reservation : Reservation)
    → IsOnce s
    → Answers s req (accept_tentatively req reservation s).0
unfolding accept_tentatively
accept_tentatively-Answers s req reservation h = elim (Bool-cases req.pre_connected) [
  | inl e ↦ Answers-path (rw e refl) (accept_pre_connected-Answers s req reservation h e)
  | inr e ↦ Answers-path (rw e refl) (rejected-Answers s req false h)
]

pub choose-Answers :
    (s : Responder) (req : Request) (choice : Choice)
    → IsOnce s
    → CanChoose s choice
    → Answers s req (choose req choice s)
choose-Answers s req (accepts reservation) h k = accept-Answers s req reservation h k
choose-Answers s req (accepts_reserved reservation further) h k =
    accept_reserved-Answers s req reservation further h k
choose-Answers s req (accepts_tentatively reservation) h k =
    accept_tentatively-Answers s req reservation h
choose-Answers s req (rejects no_ports) h k = rejected-Answers s req no_ports h
choose-Answers s req drops h k = rejected-Answers s req false h
