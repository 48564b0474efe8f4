-- ===== src/GraphRun/Examples.antt =====
-- A run of two nodes, the second after the first, by its events; the theorems on runs at it.
use astra_scheduler.Base.{◌+◌, ◌≤◌, ◌≡◌, refl, ◌≢◌, false, none, [], ◌∷◌, arith}
use astra_scheduler.Freeze.{
  sort, EdgePolicy, GraphEdge, Frozen, has_foreign, has_self_edge, has_duplicate, kahn, freeze,
}
use astra_scheduler.Freeze.Counting.{occurrences}
use astra_scheduler.GraphRun.{
  GraphRunState, Plan, GraphRunSharedState, verdict, follow_edge, BodyResult, Execution, run_node,
  complete_run, take_off, launch, Step, Reach,
}
use astra_scheduler.GraphRun.Reports.{report, IsReported}
use astra_scheduler.GraphRun.Reporting.{Reach-IsReported}
use astra_scheduler.GraphRun.Progress.{ends_once, predecessors_first, never_stuck}
use astra_scheduler.GraphRun.Work.{work_steps, work_ends}

abbrev one_two : GraphEdge
one_two = record { from = 1; to = 2; policy = EdgePolicy.require_success }

abbrev chain : Plan
chain = record { node_count = 2; edges = one_two ∷ []; deadline = λ v. none; is_internal = false }

abbrev returns : Execution
returns = record { started_at = 0; elapsed = 5; result = BodyResult.returned }

abbrev throws_late : Execution
throws_late = record { started_at = 7; elapsed = 5; result = BodyResult.threw }

abbrev first_returned : GraphRunSharedState
first_returned =
    take_off [] (run_node chain 1 false returns (record (launch chain) { posted = [] }))

abbrev first_threw : GraphRunSharedState
first_threw =
    take_off [] (run_node chain 1 false throws_late (record (launch chain) { posted = [] }))

abbrev second_posted : GraphRunSharedState
second_posted = follow_edge chain one_two (record first_returned { signals = [] })

abbrev second_skipped : GraphRunSharedState
second_skipped =
    complete_run (take_off [] (follow_edge chain one_two (record first_threw { signals = [] })))

abbrev second_returned : GraphRunSharedState
second_returned =
    complete_run
      (take_off [] (run_node chain 2 false returns (record second_posted { posted = [] })))

both_succeed :
    (second_returned.run_state ≡ GraphRunState.succeeded) × (second_returned.succeeded_nodes ≡ 2)
unfolding run_node follow_edge launch take_off complete_run
both_succeed = (refl, refl)

second_cancelled :
    (second_skipped.run_state ≡ GraphRunState.failed)
    × (second_skipped.cancelled_nodes ≡ 1)
    × (second_skipped.failed_node_exceptions ≡ 1 ∷ [])
    × (second_skipped.slots_released ≡ 1)
unfolding run_node follow_edge launch take_off complete_run sort
second_cancelled = (refl, refl, refl, refl)

frozen_chain : freeze 2 (one_two ∷ []) ≡ Frozen.frozen 2 (one_two ∷ [])
unfolding freeze has_foreign has_self_edge has_duplicate kahn
frozen_chain = refl

valid_chain : has_foreign 2 (one_two ∷ []) ≡ false
unfolding has_foreign
valid_chain = refl

to_second_posted : Reach chain second_posted
unfolding run_node follow_edge launch take_off
to_second_posted =
    Reach.then_step
      (Reach.then_step
        (Reach.then_step Reach.begin (Step.ordinary [] 1 [] false returns refl (λ h. h)))
        (Step.takes_off [] 1 [] refl))
      (Step.signal [] one_two [] refl)

to_second_returned : Reach chain second_returned
unfolding run_node follow_edge launch take_off
to_second_returned =
    Reach.then_step
      (Reach.then_step
        (Reach.then_step to_second_posted (Step.ordinary [] 2 [] false returns refl (λ h. h)))
        (Step.takes_off [] 2 [] refl))
      (Step.complete refl)

ends_once_example : occurrences 2 second_posted.posted + occurrences 2 second_posted.terminated ≤ 1
ends_once_example = ends_once {plan = chain} frozen_chain to_second_posted 2

predecessors_first_example : 1 ≤ occurrences 1 second_posted.terminated
unfolding run_node follow_edge launch take_off occurrences
predecessors_first_example =
    predecessors_first {plan = chain} frozen_chain to_second_posted [] one_two [] refl (omega arith)

never_stuck_example :
    (second_returned.remaining_nodes ≡ 0)
    × (second_returned.run_state
        ≡ verdict second_returned.failed_nodes second_returned.cancelled_nodes)
    × (second_returned.run_state ≢ GraphRunState.running)
unfolding run_node follow_edge launch take_off complete_run
never_stuck_example = never_stuck {plan = chain} frozen_chain to_second_returned refl refl refl refl

Reach-IsReported_example : IsReported 2 (report second_posted)
Reach-IsReported_example = Reach-IsReported {plan = chain} valid_chain to_second_posted

work_ends_example : work_steps to_second_returned ≤ 3
work_ends_example = work_ends {plan = chain} valid_chain to_second_returned
