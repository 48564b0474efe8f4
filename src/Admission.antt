-- ===== src/Admission.antt =====
-- src/runtime/admission_controller.hpp and admission_controller.cpp: the gate that holds external
-- submissions to a number of pending slots. A critical section is one function; a wait on the
-- condition variable ends a round, and the next round starts from what the waiter finds.
pub mod Bounds
pub mod Decisions
pub mod Accounting
pub mod Examples
use astra_scheduler.Base.{
  ℕ, ◌+◌, ◌-◌, Bool, true, false, not, ◌&&◌, ◌||◌, List, [], ◌∷◌, Option, none, some, ltb, leb,
  ◌==◌, if◌then◌else◌, add64, zero, suc,
}
use astra_scheduler.Status.{SchedulerState, ShutdownMode, SchedulerStatus}
use astra_scheduler.Metrics.{
  Metrics, Counter, Timing, is_off, count_one, count_many, time_detailed, saturating_inc,
  saturating_add,
}

pub data AdmissionDecision : Type 0 where
  success stopping stopped capacity_exhausted : AdmissionDecision

pub data ExternalBackpressure : Type 0 where
  reject block : ExternalBackpressure

pub record AdmissionController : Type 0 where
  pub capacity : ℕ
  pub backpressure : ExternalBackpressure
  pub pending : ℕ

abbrev blocks : ExternalBackpressure → Bool
blocks ExternalBackpressure.block = true
blocks ExternalBackpressure.reject = false

abbrev pub is_graceful : ShutdownMode → Bool
is_graceful ShutdownMode.graceful = true
is_graceful _ = false

-- What a round of `acquire` leaves behind: it returns, or it waits on slot_cv_.
pub data Outcome : Type 0 where
  returns : AdmissionDecision → Outcome
  waits : Outcome

pub record Round : Type 0 where
  pub controller : AdmissionController
  pub metrics : Metrics
  pub outcome : Outcome

-- The metrics of an admission, if they are on.
unfoldable pub accept : ℕ → Metrics → Metrics
accept count m =
    if is_off m.level
    then m
    else (let m' = count_many Counter.accepted_task_identities count m in
        record m' { ready_tasks = add64 m.ready_tasks count })

-- acquire(0, …): only the lifecycle is asked.
unfoldable pub acquire_none : SchedulerStatus → Bool → Metrics → Metrics × AdmissionDecision
unfolding accept
acquire_none st is_internal m = elim st.state [
  | SchedulerState.stopped ↦ (count_one Counter.rejected_lifecycle m, AdmissionDecision.stopped)
  | SchedulerState.stopping ↦
      if not is_internal || not (is_graceful st.shutdown_mode)
      then (count_one Counter.rejected_lifecycle m, AdmissionDecision.stopping)
      else (accept 0 m, AdmissionDecision.success)
  | SchedulerState.running ↦ (accept 0 m, AdmissionDecision.success)
]

-- The body of the loop on a running scheduler.
unfoldable pub round_running : ℕ → Bool → Bool → AdmissionController → Metrics → Round
unfolding accept
round_running count may_block is_internal a m =
    if is_internal
    then record {
      controller = a;
      metrics = accept count m;
      outcome = Outcome.returns AdmissionDecision.success;
    }
    else if ltb a.capacity count
    then record {
      controller = a;
      metrics = count_one Counter.rejected_capacity m;
      outcome = Outcome.returns AdmissionDecision.capacity_exhausted;
    }
    else if leb (add64 a.pending count) a.capacity
    then record {
      controller = record a { pending = add64 a.pending count };
      metrics = accept count m;
      outcome = Outcome.returns AdmissionDecision.success;
    }
    else if not may_block || not (blocks a.backpressure)
    then record {
      controller = a;
      metrics = count_one Counter.rejected_capacity m;
      outcome = Outcome.returns AdmissionDecision.capacity_exhausted;
    }
    else record {
      controller = a;
      metrics = count_one Counter.blocking_submit_waits m;
      outcome = Outcome.waits;
    }

-- One pass of the loop, up to its return or to its wait, from the status that it loads.
unfoldable pub round : SchedulerStatus → ℕ → Bool → Bool → AdmissionController → Metrics → Round
unfolding round_running accept
round st count may_block is_internal a m = elim st.state [
  | SchedulerState.stopped ↦ record {
    controller = a;
    metrics = count_one Counter.rejected_lifecycle m;
    outcome = Outcome.returns AdmissionDecision.stopped;
  }
  | SchedulerState.stopping ↦
      if is_internal && is_graceful st.shutdown_mode
      then record {
        controller = a;
        metrics = accept count m;
        outcome = Outcome.returns AdmissionDecision.success;
      }
      else record {
        controller = a;
        metrics = count_one Counter.rejected_lifecycle m;
        outcome = Outcome.returns AdmissionDecision.stopping;
      }
  | SchedulerState.running ↦ round_running count may_block is_internal a m
]

-- A return from slot_cv_.wait: the status that the predicate loaded, the slots that others hold by
-- then, the status that the next pass loads, and the time spent, if the clock did not go back.
pub record Wake : Type 0 where
  pub checked : SchedulerStatus
  pub pending : ℕ
  pub status : SchedulerStatus
  pub waited_ns : Option ℕ

abbrev pub is_running : SchedulerState → Bool
is_running SchedulerState.running = true
is_running _ = false

-- The predicate of the wait.
unfoldable pub may_wake : ℕ → ℕ → Wake → Bool
may_wake count capacity w = not (is_running w.checked.state) || leb (add64 w.pending count) capacity

-- The metrics of a wake-up.
unfoldable pub record_wake : Wake → Metrics → Metrics
record_wake w m = elim w.waited_ns [
  | none ↦ count_one Counter.blocking_submit_wakeups m
  | some ns ↦
      time_detailed Timing.blocking_admission_wait ns (count_one Counter.blocking_submit_wakeups m)
]

-- The loop of `acquire`, over the wake-ups that the caller lives through. The outcome is `waits` if
-- the caller still waits after the last of them.
unfoldable pub acquire_loop :
    List Wake → SchedulerStatus → ℕ → Bool → Bool → AdmissionController → Metrics → Round
acquire_loop [] st count may_block is_internal a m = round st count may_block is_internal a m
acquire_loop (w ∷ ws) st count may_block is_internal a m =
    let r = round st count may_block is_internal a m in
    let rest =
      acquire_loop ws w.status count may_block is_internal
        (record r.controller { pending = w.pending }) (record_wake w r.metrics) in
    elim r.outcome [ Outcome.returns d ↦ r | Outcome.waits ↦ rest ]

-- AdmissionController::acquire
unfoldable pub acquire :
    List Wake → SchedulerStatus → ℕ → Bool → Bool → AdmissionController → Metrics → Round
acquire ws st zero may_block is_internal a m =
    let (m', d) = acquire_none st is_internal m in
    record { controller = a; metrics = m'; outcome = Outcome.returns d }
acquire ws st (suc n) may_block is_internal a m =
    acquire_loop ws st (suc n) may_block is_internal a m

-- AdmissionController::release
unfoldable pub release : ℕ → AdmissionController → AdmissionController
release count a =
    if count == 0
    then a
    else if leb count a.pending
    then record a { pending = a.pending - count }
    else record a { pending = 0 }
