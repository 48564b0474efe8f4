-- ===== src/Reaper/Waiting.antt =====
-- The waits for the end of finalization: wait_finalization and wait_finalization_for of
-- src/lifecycle/reaper_registry.cpp, a step at a time.
use astra_scheduler.Base.{ℕ, ◌+◌, Bool, true, false, not, ◌||◌, leb, ◌==◌, if◌then◌else◌, add64}
use astra_scheduler.Reaper.{
  ReaperRegistry, is_finalized, mark_finalized, is_over, may_join, start_join, finish_join,
}

-- The place of a thread in wait_finalization or wait_finalization_for, or what the call has returned.
pub data Waiter : Type 0 where
  idle : Waiter
  refused : Waiter
  loops : Waiter
  sleeps : Waiter
  awaits_final : Waiter
  enters : (timeout : ℕ) → Waiter
  loops_until : (deadline : ℕ) → Waiter
  sleeps_until : (deadline : ℕ) → Waiter
  awaits_final_until : (deadline : ℕ) → Waiter
  joins : Waiter
  completed : Waiter
  timed_out : Waiter

-- A worker of any runtime may not wait.
abbrev pub start_wait : ℕ → Waiter
start_wait worker_runtime = if worker_runtime == 0 then Waiter.loops else Waiter.refused

abbrev pub start_wait_for : ℕ → ℕ → Waiter
start_wait_for worker_runtime timeout =
    if worker_runtime == 0 then Waiter.enters timeout else Waiter.refused

-- The exit of a timed wait, which counts each TimedOut.
abbrev pub return_wait : ReaperRegistry → ReaperRegistry × Waiter
return_wait r = if is_finalized r.state then (r, Waiter.completed) else (
  record r { finalization_wait_timeouts = add64 r.finalization_wait_timeouts 1 },
  Waiter.timed_out,
)

-- The next step of a thread in wait_finalization that holds the mutex at the time `now`.
unfoldable pub wait_step : ℕ → Waiter → ReaperRegistry → ReaperRegistry × Waiter
unfolding mark_finalized finish_join
wait_step now Waiter.loops r =
    if is_finalized r.state
    then (r, Waiter.completed)
    else if not r.coordinator_thread
    then (mark_finalized now r, Waiter.completed)
    else if is_over r
    then (if may_join r then (start_join r, Waiter.joins) else (r, Waiter.awaits_final))
    else (r, Waiter.sleeps)
wait_step now Waiter.sleeps r =
    if is_finalized r.state || is_over r then (r, Waiter.loops) else (r, Waiter.sleeps)
wait_step now Waiter.awaits_final r =
    if is_finalized r.state then (r, Waiter.completed) else (r, Waiter.awaits_final)
wait_step now Waiter.joins r = (finish_join now r, Waiter.completed)
wait_step now p r = (r, p)

-- The next step of a thread in wait_finalization_for.
unfoldable pub wait_for_step : ℕ → Waiter → ReaperRegistry → ReaperRegistry × Waiter
unfolding mark_finalized finish_join
wait_for_step now (Waiter.enters timeout) r =
    if is_finalized r.state
    then (r, Waiter.completed)
    else if not r.coordinator_thread
    then (mark_finalized now r, Waiter.completed)
    else if timeout == 0
    then (if may_join r then (start_join r, Waiter.joins) else return_wait r)
    else (r, Waiter.loops_until (now + timeout))
wait_for_step now (Waiter.loops_until deadline) r =
    if is_finalized r.state
    then (r, Waiter.completed)
    else if is_over r
    then (if may_join r
        then (start_join r, Waiter.joins)
        else (r, Waiter.awaits_final_until deadline))
    else if leb deadline now
    then return_wait r
    else (r, Waiter.sleeps_until deadline)
wait_for_step now (Waiter.sleeps_until deadline) r =
    if is_finalized r.state || is_over r
    then (r, Waiter.loops_until deadline)
    else if leb deadline now
    then return_wait r
    else (r, Waiter.sleeps_until deadline)
wait_for_step now (Waiter.awaits_final_until deadline) r =
    if is_finalized r.state
    then (r, Waiter.completed)
    else if leb deadline now
    then return_wait r
    else (r, Waiter.awaits_final_until deadline)
wait_for_step now Waiter.joins r = (finish_join now r, Waiter.completed)
wait_for_step now p r = (r, p)

abbrev pub is_timed : Waiter → Bool
is_timed (Waiter.enters timeout) = true
is_timed (Waiter.loops_until deadline) = true
is_timed (Waiter.sleeps_until deadline) = true
is_timed (Waiter.awaits_final_until deadline) = true
is_timed _ = false

unfoldable pub waiter_step : ℕ → Waiter → ReaperRegistry → ReaperRegistry × Waiter
unfolding wait_step wait_for_step
waiter_step now p r = if is_timed p then wait_for_step now p r else wait_step now p r
