-- ===== src/Broker/Drive/Decide.antt =====
-- What the loop of `UnixBrokerService._drive_to_terminal` in broker/service.py decides from the
-- backend's status and the counts.
use portable_batch_execution.Base.{
  if◌then◌else◌, ◌&&◌, ◌||◌, none, ◌==◌, some, false, not, Bool, ℕ, String, Option,
}
use portable_batch_execution.Base.Int.{eq_ℤ, pos, ltb_ℤ, ℤ}
use portable_batch_execution.Lifecycle.Records.{BrokerRequestState}

-- What to do where no attempt settles the request.
pub data Decision : Type 0 where
  wait exhaust dispatch : Decision

-- `backend_status in {"failed", "cancelled", "succeeded"}`
pub is_backend_terminal : Option String → Bool
is_backend_terminal none = false
is_backend_terminal (some s) = (s == "failed") || (s == "cancelled") || (s == "succeeded")

pub is_running : Option String → Bool
is_running none = false
is_running (some s) = s == "running"

-- `a < b`, of a count and a number
abbrev pub below : ℤ → ℕ → Bool
below count n = ltb_ℤ count (pos n)

-- The tests from `backend_status == "running"` on, in their order.
unfoldable pub decide : BrokerRequestState → ℕ → ℕ → Option String → Decision
decide s terminal_count max_dispatches backend_status =
    let over = is_backend_terminal backend_status in
    let seen = not (ltb_ℤ s.last_dispatched_failure_count (pos terminal_count)) in
    let should =
      eq_ℤ s.dispatch_count (pos 0)
      || below s.dispatch_count max_dispatches && (not seen || over) in
    if is_running backend_status
    then wait
    else if ltb_ℤ (pos 0) s.dispatch_count && seen && not over
    then wait
    else if over && not (below s.dispatch_count max_dispatches)
    then exhaust
    else if not should
    then wait
    else dispatch
