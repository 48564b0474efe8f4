-- ===== src/Ready/Examples.antt =====
-- Claims on the global bands, and the bound on the wait of a task without a deadline.
use astra_scheduler.Base.{
  ℕ, ◌+◌, ◌*◌, ◌≡◌, refl, true, false, Option, none, some, List, [], ◌∷◌, ◌==◌, if◌then◌else◌,
}
use astra_scheduler.Metrics.{MetricsLevel, Metrics}
use astra_scheduler.Ready.{Priority, rank, QueuedTask, EdfEntry, Bands, claim_global}
use astra_scheduler.Ready.Misses.{is_none, all_idle, is_none-claim_global}
use astra_scheduler.Ready.Publishing.{TaskInvokers, LocalDequeBackend, ReadyQueues, publish}
use astra_scheduler.Ready.Holding.{in_queue, held}
use astra_scheduler.Ready.Cancelling.{drop_unstarted, cancelled_tasks, cancel_unstarted}
use astra_scheduler.Ready.Emptying.{cancel_unstarted-splits, cancel_unstarted-splits}
use astra_scheduler.Ready.Conservation.{Step, Runs, make_queues, IsKept, Runs-IsKept}

abbrev task : ℕ → QueuedTask
task n = record { task = n; is_external = false }

abbrev due : ℕ → EdfEntry
due n = record { deadline = n; admission_sequence = n; queued = task n }

abbrev one_each : Metrics → Bands
one_each m = record {
  band = λ p. record { edf = due 7 ∷ due 5 ∷ []; fifo = task (100 + rank p) ∷ [] };
  deadline_bursts = λ p. rank p * 4;
  calendar_index = 1;
  claimed_count = 0;
  metrics = m;
}

abbrev claimed_task : Option (QueuedTask × Bands) → Option ℕ
claimed_task none = none
claimed_task (some (t, s)) = some t.task

-- The second place of the calendar is for high tasks, whose burst is over.
high_claimed : (m : Metrics) → claimed_task (claim_global (one_each m)) ≡ some 102
unfolding claim_global
high_claimed m = refl

-- Claimers 0 and 1 in turn; each has taken five tasks with a deadline in a row.
abbrev two_claimers : List ℕ
two_claimers = 0 ∷ 1 ∷ 0 ∷ 1 ∷ 0 ∷ 1 ∷ 0 ∷ 1 ∷ []

abbrev uncounted : Metrics
uncounted = record {
  level = MetricsLevel.off;
  counters = λ c. 0;
  histograms = λ t. record { count = 0; sum_ns = 0; max_ns = 0; buckets = [] };
  waiting_tasks = 0;
  ready_tasks = 0;
  running_tasks = 0;
  suspended_tasks = 0;
  active_graph_runs = 0;
}

is_none-claim_global_example :
    is_none (claim_global (one_each uncounted)) ≡ all_idle (one_each uncounted)
is_none-claim_global_example = is_none-claim_global (one_each uncounted)

-- Task 4 resumes a coroutine; task 5 has a deadline; the others have neither.
abbrev invokers : TaskInvokers
invokers = record {
  priority = λ t. if t == 4 then Priority.high else Priority.normal;
  deadline = λ t. if t == 5 then some 50 else none;
  is_resume_segment = λ t. t == 4;
}

abbrev stocked : ReadyQueues
stocked = publish invokers true 5 true false 0 (
    publish invokers true 4 false true 0 (
      publish invokers true 3 true false 0
        (make_queues LocalDequeBackend.chase_lev_lock_free 2 uncounted).queues))

cancel_unstarted-splits_example :
    (held 4 (cancel_unstarted invokers stocked) ≡ 1)
    × (in_queue 4 (cancelled_tasks invokers stocked) ≡ 0)
unfolding publish
cancel_unstarted-splits_example = cancel_unstarted-splits invokers 4 stocked

cancelled_run :
    Runs invokers (make_queues LocalDequeBackend.chase_lev_lock_free 2 uncounted) (record {
      queues = cancel_unstarted invokers stocked;
      published = 5 ∷ 4 ∷ 3 ∷ [];
      claimed = [];
      cancelled = 5 ∷ 3 ∷ [];
    })
unfolding publish cancelled_tasks drop_unstarted
cancelled_run =
    Runs.next
      (Runs.next
        (Runs.next (Runs.next Runs.here (Step.publishes true true false 0 3))
          (Step.publishes true false true 0 4))
        (Step.publishes true true false 0 5))
      Step.cancels

Runs-IsKept_example : IsKept (record {
  queues = cancel_unstarted invokers stocked;
  published = 5 ∷ 4 ∷ 3 ∷ [];
  claimed = [];
  cancelled = 5 ∷ 3 ∷ [];
})
Runs-IsKept_example = Runs-IsKept 2 cancelled_run
