-- ===== src/Admission/Examples.antt =====
-- Runs of the admission gate, and its theorems at concrete inputs.
use astra_scheduler.Base.{◌≡◌, ◌≢◌, refl, true, false, [], ◌∷◌, some, arith, replicate}
use astra_scheduler.Status.{SchedulerStatus, SchedulerState, ShutdownMode}
use astra_scheduler.Metrics.{Metrics, MetricsLevel}
use astra_scheduler.Admission.{
  AdmissionController, AdmissionDecision, ExternalBackpressure, Outcome, Wake, round, acquire,
  acquire_loop, release, may_wake,
}
use astra_scheduler.Admission.Bounds.{Ledger, Step, Reach, IsBalanced, Reach-IsBalanced}
use astra_scheduler.Admission.Decisions.{acquire_internal, wake_decides, internal_rule}
use astra_scheduler.Admission.Accounting.{acquire-Recorded, Recorded}

abbrev runs : SchedulerStatus
runs = record { state = SchedulerState.running; shutdown_mode = ShutdownMode.no_mode }

abbrev drains : SchedulerStatus
drains = record { state = SchedulerState.stopping; shutdown_mode = ShutdownMode.graceful }

abbrev fresh : Metrics
fresh = record {
  level = MetricsLevel.basic;
  counters = λ c. 0;
  histograms = λ t. record { count = 0; sum_ns = 0; max_ns = 0; buckets = replicate 64 0 };
  waiting_tasks = 0;
  ready_tasks = 0;
  running_tasks = 0;
  suspended_tasks = 0;
  active_graph_runs = 0;
}

abbrev full_gate : AdmissionController
full_gate = record { capacity = 4; backpressure = ExternalBackpressure.block; pending = 3 }

abbrev empty_gate : AdmissionController
empty_gate = record { capacity = 4; backpressure = ExternalBackpressure.block; pending = 0 }

-- Another caller has released two slots by the time of the wake-up.
abbrev freed : Wake
freed = record { checked = runs; pending = 1; status = runs; waited_ns = some 700 }

waits_then_enters :
    (acquire (freed ∷ []) runs 2 true false full_gate fresh).outcome
    ≡ Outcome.returns AdmissionDecision.success
unfolding acquire acquire_loop round
waits_then_enters = refl

wake_decides_example :
    (acquire (freed ∷ []) runs 2 true false full_gate fresh).outcome ≢ Outcome.waits
unfolding may_wake
wake_decides_example = wake_decides freed [] runs 2 true false full_gate fresh refl (λ e. e)

acquire_internal_example :
    ((acquire [] drains 9 true true full_gate fresh).controller ≡ full_gate)
    × ((acquire [] drains 9 true true full_gate fresh).outcome
        ≡ Outcome.returns (internal_rule drains))
acquire_internal_example = acquire_internal [] drains 9 true full_gate fresh

round_waits : (round runs 2 true false full_gate fresh).outcome ≡ Outcome.waits
unfolding round
round_waits = refl

acquire-Recorded_example :
    Recorded 2 fresh
      (acquire (freed ∷ []) runs 2 true false full_gate fresh).metrics
      (acquire (freed ∷ []) runs 2 true false full_gate fresh).outcome
acquire-Recorded_example = acquire-Recorded (freed ∷ []) runs 2 true false full_gate fresh (record {
  enabled = refl;
  accepted = omega arith;
  lifecycle = omega arith;
  capacity = omega arith;
  ready = omega arith;
})

-- Three slots are taken in one call, and one is given back.
abbrev taken : Ledger
taken = record { controller = record empty_gate { pending = 2 }; held = 2 }

taken-Reach : Reach empty_gate taken
unfolding round release
taken-Reach =
    Reach.next (Reach.next Reach.here (Step.rounds runs 3 true false fresh (omega arith)))
      (Step.releases 1 (omega arith))

Reach-IsBalanced_example : IsBalanced 4 taken
Reach-IsBalanced_example = Reach-IsBalanced {start = empty_gate} refl (omega arith) taken-Reach
