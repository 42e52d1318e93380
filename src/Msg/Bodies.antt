-- ===== src/Msg/Bodies.antt =====
-- msg.rs: `MultiplexMsg::read` on any bytes, message by message.
use remoc.Base.{
  ℕ, zero, suc, ◌≤◌, ◌<◌, ◌≡◌, if◌then◌else◌, Bool, true, false, Option, none, some, List, [], ◌∷◌,
  All, length, arith,
}
use remoc.Io.{
  IoError, unexpected_eof, invalid_data, Result, ok, err, stuck, ◌>>=◌, pure, fail, read_u8, IsByte,
  IsU32,
}
use remoc.Varint.Bounds.{Outcome, read_v32-Outcome}
use remoc.SidePort.{SidePort, local, remote, number}
use remoc.Msg.Types.{
  External, DataCredits, port_only, global_only, global_and_port, MultiplexMsg, hello, open_port,
  data_msg, global_credits, global_credits_report,
}
use remoc.Msg.Cfg.RoundTrip.{IsValidCfg}
use remoc.Msg.Cfg.Peers.{IsTimeout}
use remoc.Msg.RoundTrip.{IsValidMsg}
use remoc.Msg.Flags
use remoc.Msg.Flags.{has}
use remoc.Msg.PortData.{IsValidItem}
use remoc.Msg.Read
use remoc.Msg.Read.{side_port, read_magic, read_msg}
use remoc.Msg.Reads.{
  Gives, Reads, Gives-weaken, >>=-Gives, >>=-Reads, pure-Reads, read_u8-Reads,
  read_u8_or_default-Reads, Outcome-Gives, if-Reads, Anything, IsU32Option, CreditsInRange,
}

pub side_port-IsU32 :
    (at_local : Bool) (port : ℕ) → IsU32 port → IsU32 (number (side_port at_local port))
side_port-IsU32 true port h = h
side_port-IsU32 false port h = h

pub magic_test-Gives :
    (test : Bool) (bs rest : List ℕ)
    → length rest ≤ length bs
    → All IsByte rest
    → Gives Anything bs (if test then ok (tt {0}, rest) else err invalid_data)
magic_test-Gives true bs rest h b = (tt, h, b)
magic_test-Gives false bs rest h b = tt

pub read_magic-Gives : (bs : List ℕ) → All IsByte bs → Gives Anything bs (read_magic bs)
read_magic-Gives [] b = tt
read_magic-Gives (a ∷ []) b = tt
read_magic-Gives (a ∷ b ∷ []) h = tt
read_magic-Gives (a ∷ b ∷ c ∷ []) h = tt
read_magic-Gives (a ∷ b ∷ c ∷ d ∷ []) h = tt
read_magic-Gives (a ∷ b ∷ c ∷ d ∷ e ∷ []) h = tt
read_magic-Gives (a ∷ b ∷ c ∷ d ∷ e ∷ f ∷ rest) h =
    magic_test-Gives _ (a ∷ b ∷ c ∷ d ∷ e ∷ f ∷ rest) rest (omega arith) h.1.1.1.1.1.1

-- What the reader lets through: numbers in the range of their types, and in a hello a
-- configuration as it is accepted.
abbrev pub InRange : {V : Type 0} → MultiplexMsg V → Type 0
InRange (hello version cfg) =
    IsByte version
    × IsValidCfg cfg
    × (cfg.global_credits_enabled ≡ false → cfg.global_credits ≡ none)
    × IsU32Option cfg.global_credits
    × IsTimeout cfg.connection_timeout
InRange (global_credits c) = IsU32 c.credits × IsByte c.seq
InRange (global_credits_report r) = IsU32 r.current × IsU32 r.least × IsByte r.seq
InRange m = IsValidMsg m

module _ {V : Type 0} (ext : External V) (varint : Bool) where
  pub v32-Reads : Reads IsU32 (Read.v32 ext varint)
  unfolding Read.v32
  v32-Reads = record { gives = λ bs b. Outcome-Gives bs _ (read_v32-Outcome ext.order varint bs b) }

  pub v32-Outcome : (bs : List ℕ) → All IsByte bs → Outcome 0 bs (Read.v32 ext varint bs)
  unfolding Read.v32
  v32-Outcome bs b = read_v32-Outcome ext.order varint bs b

  pub read_id-Reads : (set : Bool) → Reads IsU32Option (Read.read_id ext varint set)
  read_id-Reads true =
      >>=-Reads IsU32 IsU32Option (Read.v32 ext varint) _ v32-Reads
        (λ n h. pure-Reads IsU32Option (some n) h)
  read_id-Reads false = pure-Reads IsU32Option none tt

  pub read_credits-Reads : (flags : ℕ) → Reads CreditsInRange (Read.read_credits ext varint flags)
  read_credits-Reads flags = if-Reads _ (pure-Reads CreditsInRange global_only tt) (
      if-Reads _
        (>>=-Reads IsU32 CreditsInRange (Read.v32 ext varint) _ v32-Reads
          (λ n h. pure-Reads CreditsInRange (global_and_port n) h))
        (pure-Reads CreditsInRange port_only tt))

  pub read_item_id-Reads :
      (ids : Bool) (port : ℕ) → IsU32 port → Reads IsU32 (Read.read_item_id ext varint ids port)
  read_item_id-Reads true port h = v32-Reads
  read_item_id-Reads false port h = pure-Reads IsU32 port h

  pub read_item_pre_connect-Reads :
      (flag all : Bool) → Reads Anything (Read.read_item_pre_connect ext varint flag all)
  read_item_pre_connect-Reads true all =
      >>=-Reads IsByte Anything read_u8 _ read_u8-Reads (λ b h. pure-Reads Anything _ tt)
  read_item_pre_connect-Reads false all = pure-Reads Anything all tt

  pub read_item-Reads :
      (flags port : ℕ) → IsU32 port → Reads IsValidItem (Read.read_item ext varint flags port)
  unfolding Read.read_item
  read_item-Reads flags port hp =
      >>=-Reads IsU32 IsValidItem _ _ (read_item_id-Reads _ port hp) λ id hid.
        >>=-Reads Anything IsValidItem _ _ (read_item_pre_connect-Reads _ _)
          λ pre _. pure-Reads IsValidItem _ (hp, hid)

  -- With more fuel than bytes the loop of the items ends.
  pub read_items-Reads :
      (fuel flags : ℕ) (bs : List ℕ)
      → All IsByte bs
      → length bs < fuel
      → Gives (All IsValidItem) bs (Read.read_items ext varint fuel flags bs)
  unfolding Read.read_items
  read_items-Reads zero flags bs b h = absurd (omega arith)
  read_items-Reads (suc fuel) flags bs b h =
      go (Read.v32 ext varint bs) (v32-Outcome bs b)
        (λ rest c l. read_items-Reads fuel flags rest c l)
    where
      go :
          (r : Result (ℕ × List ℕ))
          → Outcome 0 bs r
          → ((rest : List ℕ)
              → All IsByte rest
              → length rest < fuel
              → Gives (All IsValidItem) rest (Read.read_items ext varint fuel flags rest))
          → Gives (All IsValidItem) bs (elim r [
            | ok (port, rest) ↦
                (Read.read_item ext varint flags port >>= λ item.
                Read.read_items ext varint fuel flags >>= λ items. pure (item ∷ items))
                  rest
            | err unexpected_eof ↦ ok ([], [])
            | err invalid_data ↦ err invalid_data
            | stuck ↦ stuck
          ])
      go (ok (port, rest)) o ih = Gives-weaken (All IsValidItem) bs rest _ (omega arith) (
          >>=-Gives IsValidItem (All IsValidItem) rest (Read.read_item ext varint flags port) _
            ((read_item-Reads flags port o.0).gives rest o.3)
            λ item hi r1 l1 b1.
              >>=-Gives (All IsValidItem) (All IsValidItem) r1
                (Read.read_items ext varint fuel flags) _ (ih r1 b1 (omega arith))
                λ items hs r2 l2 b2.
                  (pure-Reads (All IsValidItem) (item ∷ items) (hi, hs)).gives r2 b2)
      go (err unexpected_eof) o ih = (tt, omega arith, tt)
      go (err invalid_data) o ih = tt
      go stuck o ih = o

  pub port_data-Reads : Reads InRange (Read.read_port_data ext varint)
  unfolding Read.read_port_data
  port_data-Reads = >>=-Reads IsU32 InRange _ _ v32-Reads λ port hp.
      >>=-Reads IsByte InRange _ _ read_u8-Reads λ flags _.
        >>=-Reads (All IsValidItem) InRange _ _
          (record { gives = λ bs b. read_items-Reads (suc (length bs)) flags bs b (omega arith) })
          λ ports h. pure-Reads InRange _ (side_port-IsU32 _ port hp, h)

  pub data-Reads : Reads InRange (Read.read_data ext varint)
  unfolding Read.read_data
  data-Reads = >>=-Reads IsU32 InRange _ _ v32-Reads λ port hp.
      >>=-Reads IsByte InRange _ _ read_u8-Reads λ flags _.
        >>=-Reads CreditsInRange InRange _ _ (read_credits-Reads flags) λ credits hc.
          pure-Reads InRange _ (
            in_range _ port (has flags Flags.msg_data_flag_first)
              (has flags Flags.msg_data_flag_last) credits hp hc)
    where
      in_range :
          (at_local : Bool) (port : ℕ) (first last : Bool) (credits : DataCredits)
          → IsU32 port
          → CreditsInRange credits
          → InRange {V = V} (data_msg (side_port at_local port) first last credits)
      in_range at_local port first last port_only hp hc = side_port-IsU32 at_local port hp
      in_range at_local port first last global_only hp hc = side_port-IsU32 at_local port hp
      in_range at_local port first last (global_and_port n) hp hc =
          (side_port-IsU32 at_local port hp, hc)

  pub open_port-Reads : Reads InRange (Read.read_open_port ext varint)
  unfolding Read.read_open_port
  open_port-Reads = >>=-Reads IsU32 InRange _ _ v32-Reads λ port hp.
      >>=-Reads IsByte InRange _ _ read_u8-Reads λ flags _.
        >>=-Reads IsU32Option InRange _ _ (read_id-Reads _) λ id hid. pure-Reads InRange _ (
          in_range port (has flags Flags.msg_open_port_flag_wait) id
            (has flags Flags.msg_open_port_flag_pre_connect) hp hid)
    where
      in_range :
          (port : ℕ) (wait : Bool) (id : Option ℕ) (pre_connect : Bool)
          → IsU32 port
          → IsU32Option id
          → InRange {V = V} (open_port port wait id pre_connect)
      in_range port wait none pre_connect hp h = hp
      in_range port wait (some id) pre_connect hp h = (hp, h)

  pub port_opened-Reads : Reads InRange (Read.read_port_opened ext varint)
  unfolding Read.read_port_opened
  port_opened-Reads = >>=-Reads IsU32 InRange _ _ v32-Reads λ client hc.
      >>=-Reads IsU32 InRange _ _ v32-Reads λ port hp.
        >>=-Reads IsByte InRange _ _ read_u8_or_default-Reads
          λ flags _. pure-Reads InRange _ (hc, sided _ port hp)
    where
      sided :
          (at_remote : Bool) (port : ℕ)
          → IsU32 port
          → IsU32 (number (if at_remote then remote port else local port))
      sided true port h = h
      sided false port h = h

  pub rejected-Reads : Reads InRange (Read.read_rejected ext varint)
  unfolding Read.read_rejected
  rejected-Reads =
      >>=-Reads IsU32 InRange _ _ v32-Reads
        λ client hc. >>=-Reads IsByte InRange _ _ read_u8-Reads λ flags _. pure-Reads InRange _ hc

  pub port_msg-Reads :
      (message : SidePort → MultiplexMsg V) (local_flag : ℕ)
      → ((port : SidePort) → IsU32 (number port) → InRange (message port))
      → Reads InRange (Read.read_port_msg ext varint message local_flag)
  unfolding Read.read_port_msg
  port_msg-Reads message local_flag h = >>=-Reads IsU32 InRange _ _ v32-Reads λ port hp.
      >>=-Reads IsByte InRange _ _ read_u8_or_default-Reads
        λ flags _. pure-Reads InRange _ (h _ (side_port-IsU32 _ port hp))

  pub port_credits-Reads :
      (side : ℕ → SidePort)
      → ((port : ℕ) → number (side port) ≡ port)
      → Reads InRange (Read.read_port_credits ext varint side)
  unfolding Read.read_port_credits
  port_credits-Reads side h = >>=-Reads IsU32 InRange _ _ v32-Reads λ port hp.
      >>=-Reads IsU32 InRange _ _ v32-Reads λ credits hc. pure-Reads InRange _ (rw (h port) hp, hc)

  pub port-Reads :
      (message : ℕ → MultiplexMsg V)
      → ((port : ℕ) → IsU32 port → InRange (message port))
      → Reads InRange (Read.read_port ext varint message)
  unfolding Read.read_port
  port-Reads message h =
      >>=-Reads IsU32 InRange _ _ v32-Reads λ port hp. pure-Reads InRange _ (h port hp)

  pub global_credits-Reads : Reads InRange (Read.read_global_credits ext varint)
  unfolding Read.read_global_credits
  global_credits-Reads = >>=-Reads IsU32 InRange _ _ v32-Reads λ credits hc.
      >>=-Reads IsByte InRange _ _ read_u8-Reads λ seq hs. pure-Reads InRange _ (hc, hs)

  pub global_credits_report-Reads : Reads InRange (Read.read_global_credits_report ext varint)
  unfolding Read.read_global_credits_report
  global_credits_report-Reads = >>=-Reads IsU32 InRange _ _ v32-Reads λ current hc.
      >>=-Reads IsU32 InRange _ _ v32-Reads λ least hl.
        >>=-Reads IsByte InRange _ _ read_u8-Reads λ seq hs. pure-Reads InRange _ (hc, hl, hs)

  pub fail-Reads : (e : IoError) → Reads (InRange {V = V}) (fail e)
  unfolding fail
  fail-Reads e = record { gives = λ bs b. tt }
