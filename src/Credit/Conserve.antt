-- ===== src/Credit/Conserve.antt =====
-- credit.rs: port credits are conserved, and what follows for the two endpoints.
use remoc.Base.{ℕ, ◌+◌, ◌^◌, min, ◌≤◌, ◌<◌, ◌≡◌, some, List, [], ◌∷◌, ◌++◌, arith}
use remoc.SidePort.{SidePort}
use remoc.Credit.Store.{try_take_credits, fetch_add, provide}
use remoc.Credit.Monitor.{
  UsedPortCredit, Use, overflowed_port_credits, exceeded_port_limit, overflowed_global_credits,
  used_credits, use_error, use_credits, start_return, return_threshold,
}
use remoc.Credit.Flow.{
  Flow, Step, request, drop_credits, send, lose, arrive, consume, deliver, Reachable, start, step,
  returned,
}

abbrev pub sum : List ℕ → ℕ
sum [] = 0
sum (n ∷ ns) = n + sum ns

sum-append : (ns ms : List ℕ) → sum (ns ++ ms) ≡ sum ns + sum ms
sum-append [] ms = omega arith
sum-append (n ∷ ns) ms = omega (arith, sum-append ns ms)

abbrev pub port_data : List (ℕ × ℕ) → ℕ
port_data [] = 0
port_data ((port, global) ∷ data') = port + port_data data'

port_data-append : (xs ys : List (ℕ × ℕ)) → port_data (xs ++ ys) ≡ port_data xs + port_data ys
port_data-append [] ys = omega arith
port_data-append ((port, global) ∷ xs) ys = omega (arith, port_data-append xs ys)

abbrev pub port_held : List UsedPortCredit → ℕ
port_held [] = 0
port_held (used ∷ held) = used.port_credit + port_held held

port_held-append :
    (xs ys : List UsedPortCredit) → port_held (xs ++ ys) ≡ port_held xs + port_held ys
port_held-append [] ys = omega arith
port_held-append (x ∷ xs) ys = omega (arith, port_held-append xs ys)

-- Where the credits of a port are.
abbrev pub in_circulation : Flow → ℕ
in_circulation f =
    f.store.credits + f.assigned + port_data f.sent + port_held f.held + f.to_return + sum f.returns

abbrev pub Conserves : ℕ → Flow → Type 0
Conserves limit f =
    (in_circulation f + f.lost ≡ limit)
    × (f.monitor.port_used ≡ port_held f.held)
    × (f.monitor.port_limit ≡ limit)
    × (f.to_return < return_threshold limit)

Step-Conserves :
    (remote_port : SidePort) (limit : ℕ) (f f' : Flow)
    → limit < 2 ^ 32
    → Conserves limit f
    → Step remote_port f f'
    → Conserves limit f'
unfolding try_take_credits use_credits start_return provide
Step-Conserves remote_port limit _ _ l h (request f req min_req) = ground arith
Step-Conserves remote_port limit _ _ l h (drop_credits f n k) = ground arith
Step-Conserves remote_port limit _ _ l h (send f port global k) =
    ground (arith, port_data-append f.sent ((port, global) ∷ []))
Step-Conserves remote_port limit _ _ l h (lose f n k) = ground arith
Step-Conserves remote_port limit _ _ l h (arrive f port global rest used e k) =
    ground (arith, port_held-append f.held (used ∷ []))
Step-Conserves remote_port limit _ _ l h (consume f credit rest e) = ground (
  arith,
  sum-append f.returns
      (returned (start_return f.monitor f.to_return credit remote_port).return_events),
)
Step-Conserves remote_port limit _ _ l h (deliver f n rest provider e k) = ground arith

-- In every state of a channel's direction that is reached from its start, whatever the order of
-- requests, drops, sends, losses, arrivals, consumption and deliveries: the credits of the sender, on
-- the way, in the receive buffer and to be returned, and those that were lost with messages that were
-- not sent, add up to the buffer's size, the receiver counts those in its buffer as used, and fewer
-- credits wait to be returned than the threshold.
pub Reachable-Conserves :
    (remote_port : SidePort) (limit throttle : ℕ) (f : Flow)
    → limit < 2 ^ 32
    → Reachable remote_port limit throttle f
    → Conserves limit f
Reachable-Conserves remote_port limit throttle _ l start = ground arith
Reachable-Conserves remote_port limit throttle _ l (step f f' r s) =
    Step-Conserves remote_port limit f f' l (Reachable-Conserves remote_port limit throttle f l r) s

-- The errors that a receiver reports of port credits.
abbrev pub HasPortCredits : Use → Type 0
HasPortCredits (used_credits used) = Unit {0}
HasPortCredits (use_error overflowed_port_credits) = ⊥
HasPortCredits (use_error exceeded_port_limit) = ⊥
HasPortCredits (use_error overflowed_global_credits) = Unit {0}

-- A message that arrives from a sender that spends only the credits it was given is never taken for
-- an excess of port credits.
pub arrive-HasPortCredits :
    (remote_port : SidePort) (limit throttle : ℕ) (f : Flow) (port global : ℕ) (rest : List (ℕ × ℕ))
    → limit < 2 ^ 32
    → Reachable remote_port limit throttle f
    → f.sent ≡ (port, global) ∷ rest
    → HasPortCredits (use_credits f.monitor port global).1
unfolding use_credits
arrive-HasPortCredits remote_port limit throttle f port global rest l r e =
    ground (arith, Reachable-Conserves remote_port limit throttle f l r)

-- Credits that the receiver returns never overflow the sender's store.
pub provide_lem :
    (remote_port : SidePort) (limit throttle : ℕ) (f : Flow) (n : ℕ) (rest : List ℕ)
    → limit < 2 ^ 32
    → Reachable remote_port limit throttle f
    → f.returns ≡ n ∷ rest
    → provide f.provider f.store n ≡ (
      fetch_add f.store n,
      some (record f.provider { least = min f.provider.least f.store.credits }),
    )
unfolding provide
provide_lem remote_port limit throttle f n rest l r e =
    ground (arith, Reachable-Conserves remote_port limit throttle f l r)

-- With a buffer of at least four bytes, when all data has arrived and been consumed and all returned
-- credits have arrived, the sender has at least the four credits that a message with one port takes,
-- less the credits that were lost with messages that were not sent.
pub four_credits_left :
    (remote_port : SidePort) (limit throttle : ℕ) (f : Flow)
    → 4 ≤ limit
    → limit < 2 ^ 32
    → Reachable remote_port limit throttle f
    → f.sent ≡ []
    → f.held ≡ []
    → f.returns ≡ []
    → 4 ≤ f.store.credits + f.assigned + f.lost
four_credits_left remote_port limit throttle f h l r ed eh er =
    ground (arith, Reachable-Conserves remote_port limit throttle f l r)
