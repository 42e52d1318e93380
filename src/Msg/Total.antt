-- ===== src/Msg/Total.antt =====
-- msg.rs: `MultiplexMsg::read` on any bytes.
use remoc.Base.{ℕ, refl, Bool, List, All}
use remoc.Io.{invalid_data, Result, ok, err, stuck, ◌>>=◌, pure, IsByte}
use remoc.SidePort.{local, remote}
use remoc.Msg.Types.{
  External, ExchangedCfg, MultiplexMsg, reset, hello, ping, request_received_report,
  received_report, inhibit_global_credit_usage_by_port, allow_global_credit_usage_by_port,
  send_finish, receive_close, receive_finish, client_finish, listener_finish, goodbye,
}
use remoc.Msg.Cfg.{read_cfg}
use remoc.Msg.Cfg.Peers.{Accepted, read_cfg-Accepted}
use remoc.Msg.Read
use remoc.Msg.Read.{side_port, read_magic, read_msg}
use remoc.Msg.Reads.{
  Reads, pure-Reads, read_u8-Reads, if-Reads, EndsIn, Ends, Reads-Ends, >>=-Ends, if-Ends, Anything,
}
use remoc.Msg.Bodies.{
  read_magic-Gives, InRange, port_data-Reads, data-Reads, open_port-Reads, port_opened-Reads,
  rejected-Reads, port_msg-Reads, port_credits-Reads, port-Reads, global_credits-Reads,
  global_credits_report-Reads, fail-Reads,
}

module _ {V : Type 0} (ext : External V) (varint : Bool) where
  flagged-Reads : (id : ℕ) → Reads InRange (Read.read_flagged ext varint id)
  unfolding Read.read_flagged
  flagged-Reads id = if-Reads _ (port_msg-Reads ext varint request_received_report _ (λ _ h. h)) (
      if-Reads _ (port_msg-Reads ext varint received_report _ (λ _ h. h)) (
        if-Reads _ (port_msg-Reads ext varint send_finish _ (λ _ h. h)) (
          if-Reads _ (port_msg-Reads ext varint receive_close _ (λ _ h. h)) (
            if-Reads _ (port_msg-Reads ext varint receive_finish _ (λ _ h. h))
              (fail-Reads ext varint invalid_data)))))

  sided-Reads : (id : ℕ) → Reads InRange (Read.read_sided ext varint id)
  unfolding Read.read_sided
  sided-Reads id = if-Reads _ (port_credits-Reads ext varint remote (λ _. refl)) (
      if-Reads _ (port_credits-Reads ext varint local (λ _. refl)) (
        if-Reads _
          (port-Reads ext varint (λ port. inhibit_global_credit_usage_by_port (remote port))
            (λ _ h. h))
          (if-Reads _
            (port-Reads ext varint (λ port. inhibit_global_credit_usage_by_port (local port))
              (λ _ h. h))
            (if-Reads _
              (port-Reads ext varint (λ port. allow_global_credit_usage_by_port (remote port))
                (λ _ h. h))
              (if-Reads _
                (port-Reads ext varint (λ port. allow_global_credit_usage_by_port (local port))
                  (λ _ h. h))
                (flagged-Reads id))))))

  magic-Reads : Reads Anything Read.read_magic
  magic-Reads = record { gives = read_magic-Gives }

  hello-Ends : Ends InRange (Read.read_hello ext varint)
  unfolding Read.read_hello
  hello-Ends =
      >>=-Ends Anything InRange _ _ magic-Reads
        λ _ _. >>=-Ends IsByte InRange _ _ read_u8-Reads λ version v. cfg-Ends version v
    where
      accepted :
          (version : ℕ) (r : Result (ExchangedCfg V × List ℕ))
          → IsByte version
          → Accepted ext r
          → EndsIn InRange (elim r [
            | ok (cfg, rest) ↦ ok (hello version cfg, rest)
            | err e ↦ err e
            | stuck ↦ stuck
          ])
      accepted version (ok (cfg, rest)) v h = (v, h.0, h.1, h.2, h.3)
      accepted version (err e) v h = h
      accepted version stuck v h = h

      cfg-Ends :
          (version : ℕ)
          → IsByte version
          → Ends InRange (read_cfg ext version >>= λ cfg. pure (hello version cfg))
      cfg-Ends version v = record {
        ends = λ bs b.
            unfold ◌>>=◌ pure in
            accepted version (read_cfg ext version bs) v (read_cfg-Accepted ext version bs);
      }

  body-Ends : (id : ℕ) → Ends InRange (Read.read_body ext varint id)
  unfolding Read.read_body
  body-Ends id = if-Ends _ (plain reset tt) (
      if-Ends _ hello-Ends (
        if-Ends _ (plain ping tt) (
          if-Ends _ (Reads-Ends (open_port-Reads ext varint)) (
            if-Ends _ (Reads-Ends (port_opened-Reads ext varint)) (
              if-Ends _ (Reads-Ends (rejected-Reads ext varint)) (
                if-Ends _ (Reads-Ends (data-Reads ext varint)) (
                  if-Ends _ (Reads-Ends (port_data-Reads ext varint)) (
                    if-Ends _ (Reads-Ends (global_credits-Reads ext varint)) (
                      if-Ends _ (Reads-Ends (global_credits_report-Reads ext varint)) (
                        if-Ends _ (plain client_finish tt) (
                          if-Ends _ (plain listener_finish tt)
                            (if-Ends _ (plain goodbye tt) (Reads-Ends (sided-Reads id))))))))))))))
    where
      plain : (m : MultiplexMsg V) → InRange m → Ends InRange (pure m)
      plain m h = Reads-Ends (pure-Reads InRange m h)

  -- On any bytes whatever the reader ends, with a message or an error, and never runs out of the
  -- fuel of its loop; every number of a message that it returns is in the range of its type,
  -- and a configuration keeps its lower limits, is consistent about global credits, and has no timeout
  -- or one of 1 to 2 ^ 64 - 1 milliseconds.
  pub read_msg-InRange : (bs : List ℕ) → All IsByte bs → EndsIn InRange (read_msg ext varint bs)
  unfolding read_msg
  read_msg-InRange bs b =
      (>>=-Ends IsByte InRange _ _ read_u8-Reads (λ id _. body-Ends id)).ends bs b
