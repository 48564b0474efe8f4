-- ===== src/GraphRun/Reporting.antt =====
-- Every event of a run keeps its report.
use astra_scheduler.Base.{
  ℕ, suc, ◌+◌, ◌≤◌, ◌≡◌, refl, sym, subst, Bool, true, false, ◌||◌, List, [], ◌∷◌, ◌++◌, arith,
  ◌==◌, length, if_then_else_lem,
}
use astra_scheduler.Freeze.{GraphEdge, is_node, has_foreign}
use astra_scheduler.Freeze.Counting.{occurrences, length-eq-total, total-le}
use astra_scheduler.GraphRun.{
  Plan, GraphRunSharedState, mark_node_terminal, add_completion_callback, trigger_successors,
  post_node, signalled, release_slot, follow_edge, BodyResult, Execution, end_of_body, start_node,
  run_node, request_cancel, roots, post_all, materialize, launch, Step, Reach,
}
use astra_scheduler.Task.{TaskState, Effect, is_terminal}
use astra_scheduler.GraphRun.Tokens.{Places, places, IsPlaced, end_place, places-ended}
use astra_scheduler.GraphRun.Placing.{Placed, Reach-Placed}
use astra_scheduler.GraphRun.Reports.{
  take_off-IsReported, report, IsReported, mark_node_terminal-IsReported, complete_run-IsReported,
}

-- A node can only end while one remains.
some_remaining :
    (plan : Plan) (v : ℕ) (p : Places) (r c : ℕ)
    → r + length p.terminated ≡ plan.node_count + c
    → IsPlaced plan.node_count plan.edges (end_place plan.edges v p)
    → suc c ≤ r
unfolding occurrences
some_remaining plan v p r c sum h =
    let once : (w : ℕ) → occurrences w (v ∷ p.terminated) ≤ 1 =
      (λ w. let a = h.token w in ground arith) in
    let inside : (w : ℕ)
        → is_node plan.node_count w ≡ false
        → occurrences w (v ∷ p.terminated) ≡ 0 =
      (λ w out. let a = h.token w in ground arith) in
    let a = length-eq-total plan.node_count (v ∷ p.terminated) inside in
    let b = total-le plan.node_count (v ∷ p.terminated) once in omega arith

abbrev pub Reported : Plan → GraphRunSharedState → Type 0
Reported plan s = IsReported plan.node_count (report s)

ended-Reported :
    (plan : Plan) (v : ℕ) (outcome : TaskState) (ex : Bool) (s : GraphRunSharedState)
    → is_terminal outcome ≡ true
    → Placed plan (trigger_successors plan v (mark_node_terminal v outcome ex s))
    → Reported plan s
    → Reported plan (trigger_successors plan v (mark_node_terminal v outcome ex s))
unfolding trigger_successors
ended-Reported plan v outcome ex s ends after h =
    let placed =
      subst (IsPlaced plan.node_count plan.edges) (places-ended plan v outcome ex s) after in
    mark_node_terminal-IsReported plan.node_count v outcome ex s ends h
      (some_remaining plan v (places s) s.remaining_nodes (length s.counting) h.remaining placed)

end_of_body-Reported :
    (plan : Plan) (v elapsed : ℕ) (body : BodyResult) (s : GraphRunSharedState)
    → Placed plan (trigger_successors plan v (end_of_body v elapsed body s))
    → Reported plan s
    → Reported plan (trigger_successors plan v (end_of_body v elapsed body s))
unfolding end_of_body
end_of_body-Reported plan v elapsed BodyResult.returned s after h =
    ended-Reported plan v TaskState.succeeded false
      (record s {
        effects =
            s.effects ++ (Effect.records_execution_segment elapsed ∷ Effect.records_succeeded ∷ []);
      })
      refl after h
end_of_body-Reported plan v elapsed BodyResult.threw_task_cancelled s after h =
    ended-Reported plan v TaskState.cancelled false
      (record s {
        effects =
            s.effects
            ++ (Effect.records_execution_segment elapsed
                ∷ Effect.records_cancelled_cooperative
                ∷ []);
      })
      refl after h
end_of_body-Reported plan v elapsed BodyResult.threw s after h =
    ended-Reported plan v TaskState.failed true
      (record s {
        effects =
            s.effects ++ (Effect.records_execution_segment elapsed ∷ Effect.records_failed ∷ []);
      })
      refl after h

follow_edge-Reported :
    (plan : Plan) (e : GraphEdge) (s : GraphRunSharedState)
    → Placed plan (follow_edge plan e s)
    → Reported plan s
    → Reported plan (follow_edge plan e s)
unfolding follow_edge post_node
follow_edge-Reported plan e s after h =
    let v = e.to in
    let t = signalled e s in
    let P : GraphRunSharedState → Type 0 = (λ q. Placed plan q → Reported plan q) in
    if_then_else_lem P (s.remaining_predecessors v == 1)
      (λ last.
        if_then_else_lem P (t.has_failed_required_predecessor v || t.cancel_requested)
          (λ skipped placed.
            ended-Reported plan v TaskState.cancelled false (release_slot plan t) refl placed h)
          (λ runs placed. h))
      (λ more placed. h) after

run_node-Reported :
    (plan : Plan) (v : ℕ) (stopped : Bool) (x : Execution) (s : GraphRunSharedState)
    → Placed plan (run_node plan v stopped x s)
    → Reported plan s
    → Reported plan (run_node plan v stopped x s)
unfolding run_node
run_node-Reported plan v stopped x s after h =
    let P : GraphRunSharedState → Type 0 = (λ q. Placed plan q → Reported plan q) in
    if_then_else_lem P stopped
      (λ stop placed. ended-Reported plan v TaskState.cancelled false s refl placed h)
      (λ runs placed.
        end_of_body-Reported plan v x.elapsed x.result (start_node plan v x.started_at s) placed h)
      after

add_completion_callback-Reported :
    (plan : Plan) (c : ℕ) (s : GraphRunSharedState)
    → Reported plan s
    → Reported plan (add_completion_callback c s)
unfolding add_completion_callback
add_completion_callback-Reported plan c s h =
    if_then_else_lem (Reported plan) (s.remaining_nodes == 0)
      (λ none_left. record {
        remaining = h.remaining;
        due = h.due;
        most = h.most;
        counted = h.counted;
        recorded = h.recorded;
        live = λ left. absurd (ground arith);
        closing = h.closing;
        over = h.over;
      })
      (λ some_left. record {
        remaining = h.remaining;
        due = h.due;
        most = h.most;
        counted = h.counted;
        recorded = h.recorded;
        live = h.live;
        closing = h.closing;
        over = λ none_left. absurd (ground arith);
      })

report-post_all : (vs : List ℕ) (s : GraphRunSharedState) → report (post_all vs s) ≡ report s
unfolding post_all post_node
report-post_all [] s = refl
report-post_all (v ∷ vs) s = report-post_all vs (post_node v s)

launch-Reported : (plan : Plan) → Reported plan (launch plan)
unfolding launch materialize
launch-Reported plan =
    let s = materialize plan in
    if_then_else_lem (Reported plan) (plan.node_count == 0)
      (λ empty. record {
        remaining = omega arith;
        due = omega arith;
        most = omega arith;
        counted = refl;
        recorded = refl;
        live = λ left. absurd (ground arith);
        closing = λ due. absurd (let f : ⊥ = cc in f);
        over = λ none_left closed. (refl, ground arith, refl);
      })
      (λ more.
        subst (IsReported plan.node_count)
          (sym (report-post_all (roots s.remaining_predecessors 1 plan.node_count) s))
          (record {
            remaining = omega arith;
            due = omega arith;
            most = omega arith;
            counted = refl;
            recorded = refl;
            live = λ left. (refl, refl, refl, refl);
            closing = λ due. absurd (let f : ⊥ = cc in f);
            over = λ none_left. absurd (ground arith);
          }))

Step-Reported :
    {plan : Plan} {s t : GraphRunSharedState}
    → Step plan s t
    → Placed plan t
    → Reported plan s
    → Reported plan t
unfolding request_cancel
Step-Reported {plan} {s} (Step.ordinary xs v ys stopped x split seen) placed h =
    run_node-Reported plan v stopped x (record s { posted = xs ++ ys }) placed h
Step-Reported {plan} {s} (Step.signal xs e ys split) placed h =
    follow_edge-Reported plan e (record s { signals = xs ++ ys }) placed h
Step-Reported {plan} {s} (Step.takes_off xs v ys split) placed h =
    take_off-IsReported plan.node_count xs v ys s split h
Step-Reported {plan} {s} (Step.complete due) placed h =
    complete_run-IsReported plan.node_count s due h
Step-Reported Step.cancel placed h = h
Step-Reported {plan} {s} (Step.callback c) placed h = add_completion_callback-Reported plan c s h

-- After every event of a run of a graph of ordinary nodes whose edges have both ends in it, whatever the
-- order of the events, where the count of an ended node, its fetch_sub and the completion are events of
-- their own: the remaining nodes and the counted ones make up the graph and the nodes counted and not
-- yet taken off, the three counters of the report add up to the counted nodes, and each end was recorded
-- once; while a node remains, or the thread that took the last one off has yet to complete the run, the
-- run is running and its completion is not recorded, and while a node remains no callback has been handed
-- over; after the completion the state is the verdict on the counters, the completion is recorded once
-- (never for an empty graph), and no callback is left waiting.
pub Reach-IsReported :
    {plan : Plan} {s : GraphRunSharedState}
    → has_foreign plan.node_count plan.edges ≡ false
    → Reach plan s
    → IsReported plan.node_count (report s)
Reach-IsReported {plan} valid Reach.begin = launch-Reported plan
Reach-IsReported valid (Reach.then_step r step) =
    Step-Reported step (Reach-Placed valid (Reach.then_step r step)) (Reach-IsReported valid r)
