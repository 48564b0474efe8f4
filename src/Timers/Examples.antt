-- ===== src/Timers/Examples.antt =====
-- Three timers that are added, cancelled and collected, and the theorems on the operations at them.
use astra_scheduler.Base.{ℕ, ◌+◌, ◌≡◌, refl, false, [], ◌∷◌, arith, ◌==◌, if◌then◌else◌, replicate}
use astra_scheduler.Freeze.Counting.{occurrences}
use astra_scheduler.Metrics.{MetricsLevel, Metrics}
use astra_scheduler.Timers.{TimerQueue, add, cancel, collect_due, cancel_all}
use astra_scheduler.Timers.Draining.{cancel_all-empties}
use astra_scheduler.Timers.Operations.{Agrees, add-Agrees, collect_due-conserves}

abbrev nothing_counted : Metrics
nothing_counted = record {
  level = MetricsLevel.basic;
  counters = λ c. 0;
  histograms = λ t. record { count = 0; sum_ns = 0; max_ns = 0; buckets = replicate 64 0 };
  waiting_tasks = 0;
  ready_tasks = 0;
  running_tasks = 0;
  suspended_tasks = 0;
  active_graph_runs = 0;
}

abbrev no_timers : TimerQueue
no_timers = record {
  next_timer_id = 1;
  next_timer_sequence = 1;
  heap = [];
  is_mapped = λ t. false;
  wake_time = λ t. 0;
  sequence = λ t. 0;
  heap_index = λ t. 0;
  metrics = nothing_counted;
}

abbrev one_timer : TimerQueue
one_timer = (add 50 no_timers).0

abbrev two_timers : TimerQueue
two_timers = (add 20 one_timer).0

abbrev three_timers : TimerQueue
three_timers = (add 30 two_timers).0

three_collected : (collect_due 35 three_timers).1 ≡ 2 ∷ 3 ∷ []
unfolding add collect_due
three_collected = refl

one_cancelled : (cancel_all (cancel 2 three_timers)).1 ≡ 3 ∷ 1 ∷ []
unfolding add cancel cancel_all
one_cancelled = refl

no_timers-Agrees : Agrees no_timers
unfolding occurrences
no_timers-Agrees = record {
  same = λ t. refl;
  found = λ t m. absurd (ground arith);
  counts = λ t. refl;
}

one_timer-Agrees : Agrees one_timer
one_timer-Agrees = (add-Agrees 50 no_timers refl no_timers-Agrees).0

add-Agrees_example :
    Agrees two_timers
    × ((t : ℕ)
        → occurrences t two_timers.heap
          ≡ occurrences t one_timer.heap + (if one_timer.next_timer_id == t then 1 else 0))
unfolding add
add-Agrees_example = add-Agrees 20 one_timer refl one_timer-Agrees

collect_due-conserves_example :
    Agrees (collect_due 60 one_timer).0
    × ((t : ℕ)
        → occurrences t (collect_due 60 one_timer).0.heap
            + occurrences t (collect_due 60 one_timer).1
          ≡ occurrences t one_timer.heap)
collect_due-conserves_example = collect_due-conserves 60 one_timer one_timer-Agrees

cancel_all-empties_example :
    Agrees (cancel_all one_timer).0
    × ((cancel_all one_timer).0.heap ≡ [])
    × ((t : ℕ) → occurrences t (cancel_all one_timer).1 ≡ occurrences t one_timer.heap)
cancel_all-empties_example = cancel_all-empties one_timer one_timer-Agrees
