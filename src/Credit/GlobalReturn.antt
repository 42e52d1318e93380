-- ===== src/Credit/GlobalReturn.antt =====
-- credit.rs: global credits are conserved when they are used and returned and the buffer is resized.
use remoc.Base.{
  ℕ, ◌+◌, ◌-◌, ◌%◌, ◌^◌, max, ◌≤◌, ◌<◌, ◌≡◌, ◌↔◌, Option, none, some, arith, ◌==◌, if◌then◌else◌,
}
use remoc.Msg.Types.{GlobalCredits}
use remoc.Sizer.{BufferSize, new_size}
use remoc.Sizer.Dynamic.{IsUsable}
use remoc.Credit.Global.{GlobalCreditMonitor, use_global, return_global, return_to_target}

-- Credits used or to be returned are among those in circulation.
abbrev pub IsSolvent : GlobalCreditMonitor → Type 0
IsSolvent m = (m.used + m.to_return ≤ m.total) × (m.total < 2 ^ 32)

abbrev pub sent_credits : Option GlobalCredits → ℕ
sent_credits none = 0
sent_credits (some g) = g.credits

-- The sequence number after a change of the total from one number to another.
abbrev pub seq_after : ℕ → ℕ → ℕ → ℕ
seq_after before after seq = if before == after then seq else (seq + 1) % 256

abbrev pub Numbered : ℕ → Option GlobalCredits → Type 0
Numbered seq none = Unit {0}
Numbered seq (some g) = g.seq ≡ seq

-- What a return does for a target size: credits that the remote endpoint may hold are those of the
-- total that are neither used nor to be returned.
abbrev pub Resized :
    GlobalCreditMonitor → ℕ → Option (GlobalCreditMonitor × Option GlobalCredits) → Type 0
Resized m size none = ⊥
Resized m size (some (m', sent)) =
    IsSolvent m'
    × (m'.used ≡ m.used)
    × (m'.total ≡ max size (m.total - m.to_return))
    × (m'.total - m'.used - m'.to_return ≡ m.total - m.used - m.to_return + sent_credits sent)
    × (m'.seq ≡ seq_after m.total m'.total m.seq)
    × Numbered m'.seq sent

-- For every answer of a buffer sizer that is usable: the assertion holds; the total becomes the
-- size asked for, or comes as near to it as the credits that wait to be returned allow; the credits
-- left for the remote endpoint grow by exactly those that are sent to it; and the sequence number
-- goes up, modulo 256, if and only if the total changes, and is the one sent.
pub return_to_target-Resized :
    (m : GlobalCreditMonitor) (target : BufferSize)
    → IsSolvent m
    → IsUsable target
    → target.size < 2 ^ 32
    → Resized m target.size (return_to_target m target)
unfolding return_to_target
return_to_target-Resized m target s u b = ground arith

-- Credits that the remote endpoint holds can be used: the use is not refused, and when the data has
-- been consumed, the return does not overflow and leaves the credits to be returned, in place of
-- those that the remote endpoint held.
pub return_global-use_global :
    (m : GlobalCreditMonitor) (credits : ℕ)
    → IsSolvent m
    → credits ≤ m.total - m.used - m.to_return
    → (use_global m credits ≡ (record m { used = m.used + credits }, some credits))
      × (return_global (use_global m credits).0 credits
          ≡ some (record m { to_return = m.to_return + credits }))
unfolding use_global return_global
return_global-use_global m credits s h = ground arith

-- With the default threshold of a size, as a buffer of constant size has it, the return panics if
-- and only if the size is zero.
pub return_to_target-new_size :
    (m : GlobalCreditMonitor) (size : ℕ) → (return_to_target m (new_size size) ≡ none) ↔ (size ≡ 0)
unfolding return_to_target
return_to_target-new_size m size = ground arith
