-- ===== src/GraphRun/Reports.antt =====
-- The report of a run: its counters, its verdict, its callbacks and the runtime's records, at every
-- moment of the run.
use astra_scheduler.Base.{
  ℕ, suc, ◌+◌, ◌≤◌, ◌≡◌, refl, ap, ◌∙◌, Bool, true, false, List, [], ◌∷◌, ◌++◌, arith, ◌==◌,
  if◌then◌else◌, length, length-append,
}
use astra_scheduler.GraphRun.{
  GraphRunState, GraphRunSharedState, count_outcome, verdict, complete_run, take_off,
  mark_node_terminal,
}
use astra_scheduler.Task.{TaskState, is_terminal}

-- The part of the state that the report depends on.
pub record Report : Type 0 where
  pub remaining_nodes : ℕ
  pub run_state : GraphRunState
  pub counting : ℕ
  pub completing : Bool
  pub succeeded_nodes : ℕ
  pub failed_nodes : ℕ
  pub cancelled_nodes : ℕ
  pub completion_callbacks : List ℕ
  pub callbacks_run : List ℕ
  pub ended : ℕ
  pub node_records : ℕ
  pub run_records : ℕ

abbrev pub report : GraphRunSharedState → Report
report s = record {
  remaining_nodes = s.remaining_nodes;
  run_state = s.run_state;
  counting = length s.counting;
  completing = s.completing;
  succeeded_nodes = s.succeeded_nodes;
  failed_nodes = s.failed_nodes;
  cancelled_nodes = s.cancelled_nodes;
  completion_callbacks = s.completion_callbacks;
  callbacks_run = s.callbacks_run;
  ended = length s.terminated;
  node_records = s.node_records;
  run_records = s.run_records;
}

-- The counters add up, with the ended nodes that are not yet taken off; the run is running, and no callback has been handed over, while a node remains;
-- once none does, it is running still while it is being completed, and afterwards the state is the
-- verdict, the completion is recorded once and no callback waits.
pub record IsReported (n : ℕ) (r : Report) : Type 0 where
  pub remaining : r.remaining_nodes + r.ended ≡ n + r.counting
  pub due : r.counting ≤ r.remaining_nodes
  pub most : r.remaining_nodes ≤ n
  pub counted : r.succeeded_nodes + r.failed_nodes + r.cancelled_nodes ≡ r.ended
  pub recorded : r.node_records ≡ r.ended
  pub live :
      1 ≤ r.remaining_nodes
      → (r.run_state ≡ GraphRunState.running)
        × (r.run_records ≡ 0)
        × (r.callbacks_run ≡ [])
        × (r.completing ≡ false)
  pub closing :
      r.completing ≡ true
      → (r.remaining_nodes ≡ 0)
        × (r.run_state ≡ GraphRunState.running)
        × (r.run_records ≡ 0)
        × (1 ≤ n)
  pub over :
      r.remaining_nodes ≡ 0
      → r.completing ≡ false
      → (r.run_state ≡ verdict r.failed_nodes r.cancelled_nodes)
        × (r.run_records ≡ (if n == 0 then 0 else 1))
        × (r.completion_callbacks ≡ [])

-- The completion.
pub complete_run-IsReported :
    (n : ℕ) (s : GraphRunSharedState)
    → s.completing ≡ true
    → IsReported n (report s)
    → IsReported n (report (complete_run s))
unfolding complete_run
complete_run-IsReported n s due h =
    let (none_left, state, records, some) = h.closing due in
    record {
      remaining = h.remaining;
      due = h.due;
      most = h.most;
      counted = h.counted;
      recorded = h.recorded;
      live = λ left. absurd (omega arith);
      closing = λ again. absurd (let f : ⊥ = cc in f);
      over = λ zero_left closed. (refl, ground arith, refl);
    }

-- The report after a node is counted under one of the three names.
counted-IsReported :
    (n : ℕ) (r : Report) (succeeded failed cancelled : ℕ)
    → IsReported n r
    → suc r.counting ≤ r.remaining_nodes
    → succeeded + failed + cancelled ≡ suc (r.succeeded_nodes + r.failed_nodes + r.cancelled_nodes)
    → IsReported n (record r {
      succeeded_nodes = succeeded;
      failed_nodes = failed;
      cancelled_nodes = cancelled;
      node_records = r.node_records + 1;
      ended = suc r.ended;
      counting = suc r.counting;
    })
counted-IsReported n r succeeded failed cancelled h some_left sum = record {
  remaining = let a = h.remaining in omega arith;
  due = some_left;
  most = h.most;
  counted = let b = h.counted in omega arith;
  recorded = let c = h.recorded in omega arith;
  live = h.live;
  closing = h.closing;
  over = λ none_left. absurd (omega arith);
}

-- A node is taken off the remaining ones.
pub take_off-IsReported :
    (n : ℕ) (xs : List ℕ) (v : ℕ) (ys : List ℕ) (s : GraphRunSharedState)
    → s.counting ≡ xs ++ v ∷ ys
    → IsReported n (report s)
    → IsReported n (report (take_off (xs ++ ys) s))
unfolding take_off
take_off-IsReported n xs v ys s split h =
    let sizes : length s.counting ≡ suc (length (xs ++ ys)) =
      ap length split
      ∙ (length-append xs (v ∷ ys) ∙ (let a = length-append xs ys in omega arith)) in
    let due = h.due in
    let a = h.remaining in
    let most = h.most in
    let (state, records, callbacks, open_yet) = h.live (omega arith) in
    record {
      remaining = ground arith;
      due = ground arith;
      most = ground arith;
      counted = h.counted;
      recorded = h.recorded;
      live = λ left. (state, records, callbacks, ground arith);
      closing = λ due. (ground arith, state, records, omega arith);
      over = λ none_left closed. absurd (ground arith);
    }

pub mark_node_terminal-IsReported :
    (n v : ℕ) (outcome : TaskState) (ex : Bool) (s : GraphRunSharedState)
    → is_terminal outcome ≡ true
    → IsReported n (report s)
    → suc (length s.counting) ≤ s.remaining_nodes
    → IsReported n (report (mark_node_terminal v outcome ex s))
unfolding mark_node_terminal count_outcome
mark_node_terminal-IsReported n v TaskState.succeeded ex s ends h left =
    counted-IsReported n (report s) (s.succeeded_nodes + 1) s.failed_nodes s.cancelled_nodes h left
      (omega arith)
mark_node_terminal-IsReported n v TaskState.failed ex s ends h left =
    counted-IsReported n (report s) s.succeeded_nodes (s.failed_nodes + 1) s.cancelled_nodes h left
      (omega arith)
mark_node_terminal-IsReported n v TaskState.cancelled ex s ends h left =
    counted-IsReported n (report s) s.succeeded_nodes s.failed_nodes (s.cancelled_nodes + 1) h left
      (omega arith)
mark_node_terminal-IsReported n v TaskState.waiting ex s ends h left = absurd (ground arith)
mark_node_terminal-IsReported n v TaskState.ready ex s ends h left = absurd (ground arith)
mark_node_terminal-IsReported n v TaskState.running ex s ends h left = absurd (ground arith)
mark_node_terminal-IsReported n v TaskState.suspended ex s ends h left = absurd (ground arith)
