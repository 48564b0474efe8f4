-- ===== src/GraphRun/Progress.antt =====
-- What a run of a frozen graph does: each node ends at most once, none before its predecessors, and
-- when nothing is left to do every node has ended.
use astra_scheduler.Base.{
  ℕ, suc, ◌+◌, ◌≤◌, ◌≡◌, ap, sym, ◌∙◌, subst, ◌≢◌, true, false, List, [], ◌∷◌, ◌++◌, arith, length,
}
use astra_scheduler.Freeze.{GraphEdge, Frozen, is_node, has_foreign, freeze}
use astra_scheduler.Freeze.Counting.{occurrences, pending, length-eq-total, total_ones}
use astra_scheduler.Freeze.Loop.{ready}
use astra_scheduler.Freeze.Ordering.{climbs-popped}
use astra_scheduler.Freeze.Decision.{freeze-frozen_iff}
use astra_scheduler.GraphRun.{GraphRunState, Plan, GraphRunSharedState, verdict, Reach}
use astra_scheduler.GraphRun.Tokens.{signals_to}
use astra_scheduler.GraphRun.Placing.{Placed, Reach-Placed}
use astra_scheduler.GraphRun.Reporting.{Reach-IsReported}

frozen-valid :
    (n : ℕ) (es : List GraphEdge) → freeze n es ≡ Frozen.frozen n es → has_foreign n es ≡ false
frozen-valid n es accepted = let a = ((freeze-frozen_iff n es).0 accepted).0 in ground arith

-- In every run of a frozen graph of ordinary nodes, whatever the order of its events, a node is posted or ends at most
-- once in all: it is never posted again, nor posted after its end.
pub ends_once :
    {plan : Plan} {s : GraphRunSharedState}
    → freeze plan.node_count plan.edges ≡ Frozen.frozen plan.node_count plan.edges
    → Reach plan s
    → (v : ℕ) → occurrences v s.posted + occurrences v s.terminated ≤ 1
ends_once {plan} {s} accepted r v =
    let h = Reach-Placed (frozen-valid plan.node_count plan.edges accepted) r in
    let a = h.token v in ground arith

pending_edge :
    (xs : List GraphEdge) (e : GraphEdge) (ys : List GraphEdge) (done : List ℕ)
    → pending (xs ++ e ∷ ys) done e.to ≡ 0
    → 1 ≤ occurrences e.from done
unfolding pending
pending_edge [] e ys done h = ground arith
pending_edge (x ∷ xs) e ys done h = let ih = pending_edge xs e ys done in ground arith

-- In every run of a frozen graph of ordinary nodes, whatever the order of its events, a node that is posted, or that has
-- ended, has the source of each of its edges among the ended nodes.
pub predecessors_first :
    {plan : Plan} {s : GraphRunSharedState}
    → freeze plan.node_count plan.edges ≡ Frozen.frozen plan.node_count plan.edges
    → Reach plan s
    → (xs : List GraphEdge) (e : GraphEdge) (ys : List GraphEdge) → plan.edges ≡ xs ++ e ∷ ys
    → 1 ≤ occurrences e.to s.posted + occurrences e.to s.terminated
    → 1 ≤ occurrences e.from s.terminated
predecessors_first {plan} {s} accepted r xs e ys split started =
    let h = Reach-Placed (frozen-valid plan.node_count plan.edges accepted) r in
    let a = h.token e.to in
    let b = h.waiting e.to in
    pending_edge xs e ys s.terminated
      (subst (λ es. pending es s.terminated e.to ≡ 0) split (ground arith))

all_ended :
    (plan : Plan) (s : GraphRunSharedState)
    → freeze plan.node_count plan.edges ≡ Frozen.frozen plan.node_count plan.edges
    → Placed plan s
    → s.posted ≡ []
    → s.signals ≡ []
    → length s.terminated ≡ plan.node_count
unfolding occurrences signals_to
all_ended plan s accepted h none_posted none_signalled =
    let n = plan.node_count in
    let es = plan.edges in
    let (rank, up) = ((freeze-frozen_iff n es).0 accepted).1 in
    let open_edges : (v : ℕ) → s.remaining_predecessors v ≡ pending es s.terminated v = (λ v.
      let a =
        subst (λ q. s.remaining_predecessors v ≡ pending es s.terminated v + signals_to v q)
          none_signalled (h.waiting v) in
      omega arith) in
    let once : (v : ℕ) → occurrences v s.terminated ≡ ready n v (s.remaining_predecessors v) = (λ v.
      let a =
        subst
          (λ q.
            occurrences v s.terminated + occurrences v q ≡ ready n v (s.remaining_predecessors v))
          none_posted (h.token v) in
      omega arith) in
    let ones : (w : ℕ) → is_node n w ≡ true → occurrences w s.terminated ≡ 1 = (λ w node.
      let a = once w in
      let b =
        climbs-popped rank n es s.remaining_predecessors s.terminated (suc (rank w)) w up
          (frozen-valid n es accepted) open_edges once (omega arith) node in
      ground arith) in
    let inside : (w : ℕ) → is_node n w ≡ false → occurrences w s.terminated ≡ 0 =
      (λ w out. let a = once w in ground arith) in
    let a = length-eq-total n s.terminated inside in
    let b = total_ones n s.terminated ones in omega arith

-- A run of a frozen graph of ordinary nodes leaves no node behind: in every state of it in which each
-- posted task has ended, so that none was dropped by an immediate shutdown, no signal is left to take,
-- each ended node has been taken off and no thread has yet to complete the run, all the nodes have ended, and the run's state is the verdict on
-- its counters and not running.
pub never_stuck :
    {plan : Plan} {s : GraphRunSharedState}
    → freeze plan.node_count plan.edges ≡ Frozen.frozen plan.node_count plan.edges
    → Reach plan s
    → s.posted ≡ []
    → s.signals ≡ []
    → s.counting ≡ []
    → s.completing ≡ false
    → (s.remaining_nodes ≡ 0)
      × (s.run_state ≡ verdict s.failed_nodes s.cancelled_nodes)
      × (s.run_state ≢ GraphRunState.running)
never_stuck {plan} {s} accepted r none_posted none_signalled all_off completed =
    let valid = frozen-valid plan.node_count plan.edges accepted in
    let ended = all_ended plan s accepted (Reach-Placed valid r) none_posted none_signalled in
    let h = Reach-IsReported valid r in
    let none_left : s.remaining_nodes ≡ 0 =
      (let a = h.remaining in let b = ap length all_off in omega arith) in
    let (state, _, _) = h.over none_left completed in
    (
      none_left,
      state,
      λ running. verdict_final s.failed_nodes s.cancelled_nodes (sym state ∙ running),
    )
  where
    verdict_final : (f c : ℕ) → verdict f c ≢ GraphRunState.running
    verdict_final f c h = ground arith
