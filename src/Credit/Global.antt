-- ===== src/Credit/Global.antt =====
-- credit.rs, `GlobalCreditMonitor`: the credits of the connection that received data uses. Each
-- atomic operation is one step; waking up the task (`return_notify`) has no counterpart.
use remoc.Base.{
  ℕ, ◌+◌, ◌-◌, ◌%◌, ◌^◌, min, ltb, leb, ◌==◌, ◌&&◌, ◌||◌, if◌then◌else◌, Bool, true, false, Option,
  none, some,
}
use remoc.Msg.Types.{GlobalCredits}
use remoc.Sizer.{GlobalCreditsReport, BufferSize, BufferSizeQuery, BufferSizer}
use remoc.Credit.Monitor.{wrapping_sub}

pub record GlobalCreditMonitor : Type 0 where
  pub total : ℕ
  pub used : ℕ
  pub to_return : ℕ
  pub return_threshold : ℕ
  pub seq : ℕ

abbrev pub new_global : BufferSize → GlobalCreditMonitor
new_global initial = record {
  total = initial.size;
  used = 0;
  to_return = 0;
  return_threshold = initial.return_threshold;
  seq = 0;
}

-- The credits in use by a piece of data, or `none` where the protocol error is returned; the credits
-- have been counted then.
unfoldable pub use_global : GlobalCreditMonitor → ℕ → GlobalCreditMonitor × Option ℕ
use_global m credits = (
  record m { used = (m.used + credits) % 2 ^ 32 },
  if ltb (m.used + credits) (2 ^ 32) && leb (m.used + credits) m.total then some credits else none,
)

-- The drop of used credits; `none` is the panic on an overflow.
unfoldable pub return_global : GlobalCreditMonitor → ℕ → Option GlobalCreditMonitor
return_global m credits =
    if credits == 0
    then some m
    else if ltb (m.to_return + credits) (2 ^ 32)
    then some (record m { used = wrapping_sub m.used credits; to_return = m.to_return + credits })
    else none

abbrev pub query_of : GlobalCreditMonitor → GlobalCreditsReport → BufferSizeQuery
query_of m report = record {
  current_size = m.total;
  used = m.used;
  returnable = m.to_return;
  seq = m.seq;
  report = report;
  report_is_current = report.seq == m.seq;
}

-- The adjustment of the credits in circulation, with whether the total has changed.
abbrev pub adjust_total : GlobalCreditMonitor → ℕ → GlobalCreditMonitor × Bool
adjust_total m size =
    let additional = size - m.total in
    let removed = min (m.total - size) m.to_return in
    if ltb m.total size
    then (record m { to_return = (m.to_return + additional) % 2 ^ 32; total = size }, true)
    else if ltb size m.total
    then if ltb 0 removed
      then (record m { to_return = m.to_return - removed; total = m.total - removed }, true)
      else (m, false)
    else (m, false)

abbrev pub next_seq : GlobalCreditMonitor × Bool → GlobalCreditMonitor
next_seq (m, true) = record m { seq = (m.seq + 1) % 256 }
next_seq (m, false) = m

-- From the update of the return threshold on.
abbrev pub return_pending :
    GlobalCreditMonitor → Bool → BufferSize → GlobalCreditMonitor × Option GlobalCredits
return_pending m total_changed target =
    let due = total_changed || target.force_return || leb target.return_threshold m.to_return in
    let returning = if due then m.to_return else 0 in
    (
      record m {
        return_threshold = target.return_threshold;
        to_return = if due then 0 else m.to_return;
      },
      if total_changed || ltb 0 returning
          then some (record { credits = returning; seq = m.seq })
          else none,
    )

-- What follows the answer of the buffer sizer; `none` is the panic of the assertion.
unfoldable pub return_to_target :
    GlobalCreditMonitor → BufferSize → Option (GlobalCreditMonitor × Option GlobalCredits)
return_to_target m target =
    let adjusted = adjust_total m target.size in
    if ltb 0 target.return_threshold && leb target.return_threshold target.size
    then some (return_pending (next_seq adjusted) adjusted.1 target)
    else none

module _ {ℓ} {S : Type ℓ} (sizer : BufferSizer S) where
  -- `GlobalCreditMonitor::return_to_remote`, with the state of the buffer sizer.
  pub return_to_remote :
      S
      → GlobalCreditMonitor
      → GlobalCreditsReport
      → S × Option (GlobalCreditMonitor × Option GlobalCredits)
  unfolding return_to_target
  return_to_remote s m report =
      let (s', target) = sizer.size s (query_of m report) in (s', return_to_target m target)
