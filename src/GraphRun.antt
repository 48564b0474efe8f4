-- ===== src/GraphRun.antt =====
-- src/graph/graph_shared_state.hpp and src/graph/graph_execution.cpp: one run of a frozen graph, from
-- the posting of its roots to the last node's end and the completion. All nodes are ordinary ones, not
-- coroutines. The tasks a run has given to the runtime and not seen the end of are `posted`, those that
-- an immediate shutdown drops among them for good; the edges that trigger_successors has still to look
-- at are `signals`; `counting` are the nodes that mark_node_terminal has counted and not yet taken off
-- the remaining ones; and `completing` says that a thread has seen the last node taken off, and has yet
-- to enter the critical section that ends the run.
pub mod Placing
pub mod Tokens
pub mod Reports
pub mod Reporting
pub mod Progress
pub mod Work
pub mod Examples
use astra_scheduler.Base.{
  ℕ, zero, suc, ◌+◌, ◌-◌, ◌*◌, ◌≡◌, Bool, true, false, not, ◌&&◌, ◌||◌, Option, List, [], ◌∷◌, ◌++◌,
  ltb, ◌==◌, if◌then◌else◌, update,
}
use astra_scheduler.Freeze.{EdgePolicy, GraphEdge, sort, in_degree, decrement}
use astra_scheduler.Task.{TaskState, DeadlineDisposition, Effect, settle_deadline, first_start}

pub data GraphRunState : Type 0 where
  running succeeded failed cancelled : GraphRunState

-- What the run is started with, and never changes: the frozen graph, the nodes' deadlines, and
-- whether a worker of the same runtime called run().
pub record Plan : Type 0 where
  pub node_count : ℕ
  pub edges : List GraphEdge
  pub deadline : ℕ → Option ℕ
  pub is_internal : Bool

-- The fields of NodeEntry that change are functions of the node's number. `terminated` is the history
-- of the ends of nodes, the latest first; `callbacks_run` lists the callbacks handed over to be run;
-- `posts`, `slots_released`, `node_records` and `run_records`
-- count the calls of the runtime's functions.
pub record GraphRunSharedState : Type 0 where
  pub remaining_nodes : ℕ
  pub run_state : GraphRunState
  pub counting : List ℕ
  pub completing : Bool
  pub cancel_requested : Bool
  pub remaining_predecessors : ℕ → ℕ
  pub has_failed_required_predecessor : ℕ → Bool
  pub outcome : ℕ → TaskState
  pub deadline_disposition : ℕ → DeadlineDisposition
  pub succeeded_nodes : ℕ
  pub failed_nodes : ℕ
  pub cancelled_nodes : ℕ
  pub failed_node_exceptions : List ℕ
  pub completion_callbacks : List ℕ
  pub callbacks_run : List ℕ
  pub posted : List ℕ
  pub signals : List GraphEdge
  pub terminated : List ℕ
  pub posts : ℕ
  pub slots_released : ℕ
  pub node_records : ℕ
  pub run_records : ℕ
  pub effects : List Effect

-- The report's counters, under the lock; only a failure with an exception is listed.
unfoldable pub count_outcome : ℕ → TaskState → Bool → GraphRunSharedState → GraphRunSharedState
count_outcome v TaskState.succeeded ex s = record s { succeeded_nodes = s.succeeded_nodes + 1 }
count_outcome v TaskState.failed ex s = record s {
  failed_nodes = s.failed_nodes + 1;
  failed_node_exceptions =
      if ex then s.failed_node_exceptions ++ v ∷ [] else s.failed_node_exceptions;
}
count_outcome v TaskState.cancelled ex s = record s { cancelled_nodes = s.cancelled_nodes + 1 }
count_outcome v _ ex s = s

-- The verdict of a run on its counters.
abbrev pub verdict : ℕ → ℕ → GraphRunState
verdict failures cancellations =
    if ltb 0 failures
    then GraphRunState.failed
    else if ltb 0 cancellations
    then GraphRunState.cancelled
    else GraphRunState.succeeded

-- What the thread does next that saw the last node end, in the second critical section; the callbacks
-- are run after it.
unfoldable pub complete_run : GraphRunSharedState → GraphRunSharedState
complete_run s = record s {
  completing = false;
  run_records = s.run_records + 1;
  failed_node_exceptions = sort s.failed_node_exceptions;
  run_state = verdict s.failed_nodes s.cancelled_nodes;
  completion_callbacks = [];
  callbacks_run = s.callbacks_run ++ s.completion_callbacks;
}

-- The outcome is stored and recorded, and the thread goes on to its fetch_sub.
abbrev pub stamped : ℕ → TaskState → GraphRunSharedState → GraphRunSharedState
stamped v outcome s = record s {
  outcome = update s.outcome v outcome;
  node_records = s.node_records + 1;
  terminated = v ∷ s.terminated;
  counting = v ∷ s.counting;
}

-- GraphRunSharedState::mark_node_terminal to the end of its first critical section.
unfoldable pub mark_node_terminal : ℕ → TaskState → Bool → GraphRunSharedState → GraphRunSharedState
unfolding count_outcome
mark_node_terminal v outcome ex s = count_outcome v outcome ex (stamped v outcome s)

-- Its fetch_sub; fetch_sub(1) == 1 tells the last caller that it is to complete the run.
unfoldable pub take_off : List ℕ → GraphRunSharedState → GraphRunSharedState
take_off left s = record s {
  remaining_nodes = decrement s.remaining_nodes;
  counting = left;
  completing = if s.remaining_nodes == 1 then true else s.completing;
}

-- GraphRunSharedState::add_completion_callback, of a callback that is not empty.
unfoldable pub add_completion_callback : ℕ → GraphRunSharedState → GraphRunSharedState
add_completion_callback callback s =
    if s.remaining_nodes == 0
    then record s { callbacks_run = s.callbacks_run ++ callback ∷ [] }
    else record s { completion_callbacks = s.completion_callbacks ++ callback ∷ [] }

-- entry.successors of node u, in the order in which materialize() appended them.
unfoldable pub successors : ℕ → List GraphEdge → List GraphEdge
successors u [] = []
successors u (e ∷ es) = if e.from == u then e ∷ successors u es else successors u es

-- GraphExecution::trigger_successors: the edges of an ended node are there to be looked at.
unfoldable pub trigger_successors : Plan → ℕ → GraphRunSharedState → GraphRunSharedState
unfolding successors
trigger_successors plan u s = record s { signals = successors u plan.edges ++ s.signals }

-- GraphExecution::post_node
unfoldable pub post_node : ℕ → GraphRunSharedState → GraphRunSharedState
post_node v s = record s { posted = s.posted ++ v ∷ []; posts = s.posts + 1 }

abbrev is_succeeded : TaskState → Bool
is_succeeded TaskState.succeeded = true
is_succeeded _ = false

abbrev pub requires_success : EdgePolicy → Bool
requires_success EdgePolicy.require_success = true
requires_success EdgePolicy.after_completion = false

-- The failed flag and the count of a successor, on the way of an edge to it.
abbrev pub signalled : GraphEdge → GraphRunSharedState → GraphRunSharedState
signalled e s =
    let v = e.to in
    let broken = requires_success e.policy && not (is_succeeded (s.outcome e.from)) in
    record s {
      has_failed_required_predecessor =
          update s.has_failed_required_predecessor v
            (broken || s.has_failed_required_predecessor v);
      remaining_predecessors =
          update s.remaining_predecessors v (decrement (s.remaining_predecessors v));
    }

abbrev pub release_slot : Plan → GraphRunSharedState → GraphRunSharedState
release_slot plan s = record s {
  slots_released = if plan.is_internal then s.slots_released else s.slots_released + 1;
}

-- One successor of the loop in trigger_successors; the last predecessor's edge decides what becomes of
-- the node.
unfoldable pub follow_edge : Plan → GraphEdge → GraphRunSharedState → GraphRunSharedState
unfolding mark_node_terminal trigger_successors post_node
follow_edge plan e s =
    let v = e.to in
    let t = signalled e s in
    if s.remaining_predecessors v == 1
    then (if t.has_failed_required_predecessor v || t.cancel_requested
        then trigger_successors plan v
            (mark_node_terminal v TaskState.cancelled false (release_slot plan t))
        else post_node v t)
    else t

-- How the invoker of an ordinary node ends: it returns, throws task_cancelled, or throws anything else.
pub data BodyResult : Type 0 where
  returned threw_task_cancelled threw : BodyResult

-- The catch blocks of an ordinary node's task, after a body that took `elapsed` nanoseconds.
unfoldable pub end_of_body : ℕ → ℕ → BodyResult → GraphRunSharedState → GraphRunSharedState
unfolding mark_node_terminal
end_of_body v elapsed BodyResult.returned s =
    mark_node_terminal v TaskState.succeeded false (record s {
      effects =
          s.effects ++ (Effect.records_execution_segment elapsed ∷ Effect.records_succeeded ∷ []);
    })
end_of_body v elapsed BodyResult.threw_task_cancelled s =
    mark_node_terminal v TaskState.cancelled false (record s {
      effects =
          s.effects
          ++ (Effect.records_execution_segment elapsed ∷ Effect.records_cancelled_cooperative ∷ []);
    })
end_of_body v elapsed BodyResult.threw s = mark_node_terminal v TaskState.failed true (record s {
  effects = s.effects ++ (Effect.records_execution_segment elapsed ∷ Effect.records_failed ∷ []);
})

-- The deadline is settled once, and the start recorded.
abbrev pub start_node : Plan → ℕ → ℕ → GraphRunSharedState → GraphRunSharedState
start_node plan v now s =
    let (disposition, late) = settle_deadline now (plan.deadline v) (s.deadline_disposition v) in
    record s {
      deadline_disposition = update s.deadline_disposition v disposition;
      effects = s.effects ++ (late ++ first_start (plan.deadline v) disposition ∷ []);
    }

-- How a body goes: when it starts, how long it takes and how it ends.
pub record Execution : Type 0 where
  pub started_at : ℕ
  pub elapsed : ℕ
  pub result : BodyResult

-- The task of an ordinary node, from its start to the count of its end; `stopped` is what its load of
-- cancel_requested gave at the start.
unfoldable pub run_node : Plan → ℕ → Bool → Execution → GraphRunSharedState → GraphRunSharedState
unfolding end_of_body mark_node_terminal trigger_successors settle_deadline
run_node plan v stopped x s =
    if stopped
    then trigger_successors plan v (mark_node_terminal v TaskState.cancelled false s)
    else trigger_successors plan v
        (end_of_body v x.elapsed x.result (start_node plan v x.started_at s))

-- GraphRun::request_cancel; cancel_pre_start of an ordinary node's invoker does nothing.
unfoldable pub request_cancel : GraphRunSharedState → GraphRunSharedState
request_cancel s = record s { cancel_requested = true }

-- The nodes from i on, k of them, with no predecessor.
unfoldable pub roots : (ℕ → ℕ) → ℕ → ℕ → List ℕ
roots remaining i zero = []
roots remaining i (suc k) =
    if remaining i == 0 then i ∷ roots remaining (i + 1) k else roots remaining (i + 1) k

unfoldable pub post_all : List ℕ → GraphRunSharedState → GraphRunSharedState
unfolding post_node
post_all [] s = s
post_all (v ∷ vs) s = post_all vs (post_node v s)

-- The state's constructor and materialize(): every edge adds to its target's predecessors.
unfoldable pub materialize : Plan → GraphRunSharedState
unfolding in_degree
materialize plan = record {
  remaining_nodes = plan.node_count;
  run_state = GraphRunState.running;
  counting = [];
  completing = false;
  cancel_requested = false;
  remaining_predecessors = in_degree plan.edges;
  has_failed_required_predecessor = λ v. false;
  outcome = λ v. TaskState.ready;
  deadline_disposition = λ v. DeadlineDisposition.no_deadline;
  succeeded_nodes = 0;
  failed_nodes = 0;
  cancelled_nodes = 0;
  failed_node_exceptions = [];
  completion_callbacks = [];
  callbacks_run = [];
  posted = [];
  signals = [];
  terminated = [];
  posts = 0;
  slots_released = 0;
  node_records = 0;
  run_records = 0;
  effects = [];
}

-- GraphExecution::run after the admission: an empty graph has succeeded, any other posts its roots.
unfoldable pub launch : Plan → GraphRunSharedState
unfolding materialize roots post_all
launch plan =
    let s = materialize plan in
    if plan.node_count == 0
    then record s { run_state = GraphRunState.succeeded }
    else post_all (roots s.remaining_predecessors 1 plan.node_count) s

-- One event of a run: a posted task ends, in any order, up to the count of its node; a node is taken
-- off the remaining ones; a signal is taken, in any order, even before that fetch_sub; the run is
-- completed by the thread that is to; it is cancelled; or a callback is registered. A task is among the
-- posted ones until it ends; it may have started long before, so that it may have missed a cancellation,
-- but it has not seen one that there was not.
pub data Step (plan : Plan) : GraphRunSharedState → GraphRunSharedState → Type 0 where
  ordinary :
      {s : GraphRunSharedState} (xs : List ℕ) (v : ℕ) (ys : List ℕ) (stopped : Bool) (x : Execution)
      → s.posted ≡ xs ++ v ∷ ys
      → (stopped ≡ true → s.cancel_requested ≡ true)
      → Step plan s (run_node plan v stopped x (record s { posted = xs ++ ys }))
  signal :
      {s : GraphRunSharedState} (xs : List GraphEdge) (e : GraphEdge) (ys : List GraphEdge)
      → s.signals ≡ xs ++ e ∷ ys
      → Step plan s (follow_edge plan e (record s { signals = xs ++ ys }))
  takes_off :
      {s : GraphRunSharedState} (xs : List ℕ) (v : ℕ) (ys : List ℕ)
      → s.counting ≡ xs ++ v ∷ ys
      → Step plan s (take_off (xs ++ ys) s)
  complete : {s : GraphRunSharedState} → s.completing ≡ true → Step plan s (complete_run s)
  cancel : {s : GraphRunSharedState} → Step plan s (request_cancel s)
  callback : {s : GraphRunSharedState} (c : ℕ) → Step plan s (add_completion_callback c s)

pub data Reach (plan : Plan) : GraphRunSharedState → Type 0 where
  begin : Reach plan (launch plan)
  then_step : {s t : GraphRunSharedState} → Reach plan s → Step plan s t → Reach plan t
