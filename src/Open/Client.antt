-- ===== src/Open/Client.antt =====
-- client.rs, `connect` and `connect_port`, up to the request in the queue of the multiplexer task, and
-- what becomes of the response; port_allocator.rs, `try_pre_connect` and the credits for requests.
use remoc.Base.{◌-◌, ◌==◌, ◌&&◌, not, if◌then◌else◌, Bool, true, Option, none, some, [], ◌∷◌, ◌++◌}
use remoc.Open.Requester.{Requester, ClientReq, ConnectRsp, accepted_rsp, rejected_rsp}

-- The credits that a request takes and gives back, where the semaphore has one.
abbrev pub try_pre_connect : Requester → ClientReq → Requester × ClientReq
try_pre_connect r req =
    if r.pre_connect && not req.pre_connect_credit && not (r.connect_credits == 0)
    then (
      record r { connect_credits = r.connect_credits - 1 },
      record req { pre_connect_credit = true },
    )
    else (r, req)

pub data ConnectError : Type 0 where
  local_ports_exhausted : ConnectError
  remote_ports_exhausted : ConnectError
  too_many_pending_connect_reqs : ConnectError
  connect_rejected : ConnectError
  chmux : ConnectError

-- The request is in the queue of the multiplexer task, it has failed, or it waits for a credit.
pub data Connecting : Type 0 where
  queued : Requester → Connecting
  failed : ConnectError → Connecting
  waiting : Connecting

abbrev queue_request : Requester → ClientReq → Connecting
queue_request r req = queued (record r { connect_rx = r.connect_rx ++ (req ∷ []) })

-- `Client::connect` up to the sending of the request. `has_port` says whether `into_port_req` has
-- got the port.
unfoldable pub connect : Requester → Bool → ClientReq → Connecting
connect r has_port req =
    if r.remote_listener_dropped
    then failed connect_rejected
    else if not has_port
    then failed local_ports_exhausted
    else if req.pre_connect_credit
    then queue_request r req
    else if r.connect_credits == 0
    then (if req.wait then waiting else failed too_many_pending_connect_reqs)
    else queue_request (record r { connect_credits = r.connect_credits - 1 }) req

-- What `Client::connect` returns for a response, or for none.
abbrev process_response : Bool → Option ConnectRsp → Option ConnectError
process_response listener_dropped (some (accepted_rsp sender receiver)) = none
process_response listener_dropped (some (rejected_rsp no_ports)) =
    some (if no_ports then remote_ports_exhausted else connect_rejected)
process_response listener_dropped none = some (if listener_dropped then connect_rejected else chmux)
