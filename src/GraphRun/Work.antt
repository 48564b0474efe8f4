-- ===== src/GraphRun/Work.antt =====
-- How long a run can go on: every task that ends adds an ended node, and every signal taken closes an
-- edge.
use astra_scheduler.Base.{
  ℕ, zero, suc, ◌+◌, ◌≤◌, ◌<◌, ◌≡◌, refl, sym, subst, Bool, true, false, ◌||◌, List, [], ◌∷◌, ◌++◌,
  arith, ℕ_discrete, ◌==◌, if◌then◌else◌, length, update, if_then_else_lem,
}
use astra_scheduler.Freeze.{GraphEdge, is_node, has_foreign, in_degree, decrement}
use astra_scheduler.GraphRun.{
  Plan, GraphRunSharedState, mark_node_terminal, add_completion_callback, trigger_successors,
  post_node, signalled, release_slot, follow_edge, Execution, start_node, run_node, complete_run,
  take_off, request_cancel, roots, materialize, launch, Step, Reach,
}
use astra_scheduler.Task.{TaskState}
use astra_scheduler.GraphRun.Tokens.{Places, places, places-ended, places-end_of_body}
use astra_scheduler.GraphRun.Reporting.{Reach-IsReported}
use astra_scheduler.GraphRun.Placing.{
  take_signal-counts, inside_node, places-post_all, Reach-Placed,
}

unfoldable pub sum_to : ℕ → (ℕ → ℕ) → ℕ
sum_to zero f = 0
sum_to (suc n) f = f (suc n) + sum_to n f

-- The steps of a run in which a task ends or a signal is taken.
unfoldable pub work_steps : {plan : Plan} → {s : GraphRunSharedState} → Reach plan s → ℕ
work_steps Reach.begin = 0
work_steps (Reach.then_step r (Step.ordinary _ _ _ _ _ _ _)) = suc (work_steps r)
work_steps (Reach.then_step r (Step.signal _ _ _ _)) = suc (work_steps r)
work_steps (Reach.then_step r (Step.takes_off _ _ _ _)) = work_steps r
work_steps (Reach.then_step r (Step.complete _)) = work_steps r
work_steps (Reach.then_step r Step.cancel) = work_steps r
work_steps (Reach.then_step r (Step.callback _)) = work_steps r

-- `k` steps were possible.
abbrev Allows : Plan → ℕ → Places → Type 0
Allows plan k p =
    k + sum_to plan.node_count p.remaining_predecessors ≤ length p.terminated + length plan.edges

sum_to-update_above : (n v : ℕ) (f : ℕ → ℕ) (x : ℕ) → n < v → sum_to n (update f v x) ≡ sum_to n f
unfolding sum_to
sum_to-update_above zero v f x h = refl
sum_to-update_above (suc n) v f x h =
    let ih = sum_to-update_above n v f x (omega arith) in ground arith

sum_to-update :
    (n v : ℕ) (f : ℕ → ℕ)
    → is_node n v ≡ true
    → 1 ≤ f v
    → suc (sum_to n (update f v (decrement (f v)))) ≡ sum_to n f
unfolding sum_to
sum_to-update zero v f node positive = absurd (ground arith)
sum_to-update (suc n) v f node positive = elim (ℕ_discrete v (suc n)) [
  | yes same ↦
      let value = subst (λ x. f v ≡ f x) same refl in
      let rest = sum_to-update_above n v f (decrement (f v)) (omega arith) in ground arith
  | no other ↦ let ih = sum_to-update n v f (ground arith) positive in ground arith
]

sum_to-in_degree_cons :
    (n : ℕ) (e : GraphEdge) (es : List GraphEdge)
    → sum_to n (in_degree (e ∷ es))
      ≡ (if is_node n e.to then suc (sum_to n (in_degree es)) else sum_to n (in_degree es))
unfolding sum_to in_degree
sum_to-in_degree_cons zero e es = ground arith
sum_to-in_degree_cons (suc n) e es = let ih = sum_to-in_degree_cons n e es in ground arith

sum_to-in_degree-le : (n : ℕ) (es : List GraphEdge) → sum_to n (in_degree es) ≤ length es
unfolding sum_to in_degree
sum_to-in_degree-le zero [] = omega arith
sum_to-in_degree-le (suc n) [] = let ih = sum_to-in_degree-le n [] in omega arith
sum_to-in_degree-le n (e ∷ es) =
    let ih = sum_to-in_degree-le n es in let step = sum_to-in_degree_cons n e es in ground arith

ended-Allows :
    (plan : Plan) (k v : ℕ) (outcome : TaskState) (ex : Bool) (s : GraphRunSharedState)
    → Allows plan k (places s)
    → Allows plan (suc k) (places (trigger_successors plan v (mark_node_terminal v outcome ex s)))
ended-Allows plan k v outcome ex s h =
    subst (Allows plan (suc k)) (sym (places-ended plan v outcome ex s)) (omega arith)

run_node-Allows :
    (plan : Plan) (k v : ℕ) (stopped : Bool) (x : Execution) (s : GraphRunSharedState)
    → Allows plan k (places s)
    → Allows plan (suc k) (places (run_node plan v stopped x s))
unfolding run_node
run_node-Allows plan k v stopped x s h =
    if_then_else_lem (λ q. Allows plan (suc k) (places q)) stopped
      (λ stop. ended-Allows plan k v TaskState.cancelled false s h)
      (λ runs.
        subst (Allows plan (suc k))
          (sym (places-end_of_body plan v x.elapsed x.result (start_node plan v x.started_at s)))
          (omega arith))

follow_edge-Allows :
    (plan : Plan) (k : ℕ) (e : GraphEdge) (s : GraphRunSharedState)
    → is_node plan.node_count e.to ≡ true
    → 1 ≤ s.remaining_predecessors e.to
    → Allows plan k (places s)
    → Allows plan (suc k) (places (follow_edge plan e s))
unfolding follow_edge post_node
follow_edge-Allows plan k e s node positive h =
    let n = plan.node_count in
    let v = e.to in
    let t = signalled e s in
    let P : GraphRunSharedState → Type 0 = (λ q. Allows plan (suc k) (places q)) in
    let less = sum_to-update n v s.remaining_predecessors node positive in
    let allowed : Allows plan (suc k) (places t) = omega arith in
    if_then_else_lem P (s.remaining_predecessors v == 1)
      (λ last.
        if_then_else_lem P (t.has_failed_required_predecessor v || t.cancel_requested)
          (λ skipped.
            subst (Allows plan (suc k))
              (sym (places-ended plan v TaskState.cancelled false (release_slot plan t)))
              (omega arith))
          (λ runs. allowed))
      (λ more. allowed)

add_completion_callback-Allows :
    (plan : Plan) (k c : ℕ) (s : GraphRunSharedState)
    → Allows plan k (places s)
    → Allows plan k (places (add_completion_callback c s))
unfolding add_completion_callback
add_completion_callback-Allows plan k c s h =
    if_then_else_lem (λ q. Allows plan k (places q)) (s.remaining_nodes == 0) (λ over. h)
      (λ live. h)

launch-Allows : (plan : Plan) → Allows plan 0 (places (launch plan))
unfolding launch materialize
launch-Allows plan =
    let s = materialize plan in
    let edges = sum_to-in_degree-le plan.node_count plan.edges in
    if_then_else_lem (λ q. Allows plan 0 (places q)) (plan.node_count == 0) (λ empty. omega arith)
      (λ more.
        subst (Allows plan 0)
          (sym (places-post_all (roots s.remaining_predecessors 1 plan.node_count) s))
          (omega arith))

Reach-Allows :
    {plan : Plan} {s : GraphRunSharedState}
    → has_foreign plan.node_count plan.edges ≡ false
    → (r : Reach plan s) → Allows plan (work_steps r) (places s)
unfolding work_steps complete_run take_off request_cancel
Reach-Allows {plan} valid Reach.begin = launch-Allows plan
Reach-Allows {plan} valid (Reach.then_step {s} r (Step.ordinary xs v ys stopped x split seen)) =
    let ih = Reach-Allows valid r in
    run_node-Allows plan (work_steps r) v stopped x (record s { posted = xs ++ ys }) ih
Reach-Allows {plan} valid (Reach.then_step {s} r (Step.signal xs e ys split)) =
    let ih = Reach-Allows valid r in
    let h = Reach-Placed valid r in
    let positive =
      (take_signal-counts plan.node_count plan.edges (places s) xs e ys e.to split h).1 in
    follow_edge-Allows plan (work_steps r) e (record s { signals = xs ++ ys })
      (inside_node plan.node_count plan.edges (places s) e.to positive h) positive ih
Reach-Allows valid (Reach.then_step r (Step.takes_off xs v ys split)) = Reach-Allows valid r
Reach-Allows valid (Reach.then_step r (Step.complete due)) = Reach-Allows valid r
Reach-Allows valid (Reach.then_step r Step.cancel) = Reach-Allows valid r
Reach-Allows {plan} valid (Reach.then_step {s} r (Step.callback c)) =
    add_completion_callback-Allows plan (work_steps r) c s (Reach-Allows valid r)

-- A run of a graph of ordinary nodes whose edges have both ends in it takes at most as many steps as the
-- graph has nodes and edges, whatever the order of its events: a step here is a task's end or a signal's
-- taking; the fetch_sub of an ended node, the completion, requests to cancel and registrations of callbacks are not counted.
pub work_ends :
    {plan : Plan} {s : GraphRunSharedState}
    → has_foreign plan.node_count plan.edges ≡ false
    → (r : Reach plan s) → work_steps r ≤ plan.node_count + length plan.edges
work_ends {plan} {s} valid r =
    let allowed = Reach-Allows valid r in
    let h = Reach-IsReported valid r in let a = h.remaining in let b = h.due in omega arith
