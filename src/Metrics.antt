-- ===== src/Metrics.antt =====
-- src/runtime/runtime_metrics.hpp, runtime_metrics.cpp and the histogram of include/astra/metrics.hpp.
-- `Metrics` holds the shard that shard_for_current picks for the calling thread, as a function of
-- the counter's name, and the gauges. Each compare-exchange loop is one atomic update.
pub mod Saturation
pub mod Histograms
pub mod Snapshot
pub mod Examples
use astra_scheduler.Base.{
  ℕ, ◌+◌, ◌-◌, ◌/◌, Bool, true, false, List, ltb, leb, ◌==◌, if◌then◌else◌, word_max, add64, set,
  get_or, zero, suc,
}

pub data MetricsLevel : Type 0 where
  off basic detailed : MetricsLevel

abbrev pub is_off : MetricsLevel → Bool
is_off MetricsLevel.off = true
is_off _ = false

abbrev pub is_detailed : MetricsLevel → Bool
is_detailed MetricsLevel.detailed = true
is_detailed _ = false

-- The atomics of WorkerShard, by name.
pub data Counter : Type 0 where
  submission_attempts accepted_task_identities rejected_lifecycle rejected_capacity : Counter
  blocking_submit_waits blocking_submit_wakeups first_starts resume_segments : Counter
  succeeded failed cancelled_before_start cancelled_cooperative : Counter
  unobserved_failures global_claims local_claims steal_attempts : Counter
  steal_successes steal_failures worker_parks worker_wakes : Counter
  explicit_yields coroutine_suspends timer_registrations timer_fires : Counter
  timer_cancellations graph_admission_attempts graph_runs_accepted graph_runs_rejected : Counter
  graph_nodes_terminal deadline_admitted deadline_met deadline_missed : Counter
  deadline_cancelled_before_start task_wait_calls graph_wait_calls wait_for_timeouts : Counter
  same_runtime_helping_waits cross_runtime_helping_waits coroutine_await_registrations
        direct_self_wait_rejections :
      Counter
  helping_depth_rejections : Counter

-- The place of a counter in WorkerShard, by which two names are told apart.
abbrev pub place : Counter → ℕ
place Counter.submission_attempts = 0
place Counter.accepted_task_identities = 1
place Counter.rejected_lifecycle = 2
place Counter.rejected_capacity = 3
place Counter.blocking_submit_waits = 4
place Counter.blocking_submit_wakeups = 5
place Counter.first_starts = 6
place Counter.resume_segments = 7
place Counter.succeeded = 8
place Counter.failed = 9
place Counter.cancelled_before_start = 10
place Counter.cancelled_cooperative = 11
place Counter.unobserved_failures = 12
place Counter.global_claims = 13
place Counter.local_claims = 14
place Counter.steal_attempts = 15
place Counter.steal_successes = 16
place Counter.steal_failures = 17
place Counter.worker_parks = 18
place Counter.worker_wakes = 19
place Counter.explicit_yields = 20
place Counter.coroutine_suspends = 21
place Counter.timer_registrations = 22
place Counter.timer_fires = 23
place Counter.timer_cancellations = 24
place Counter.graph_admission_attempts = 25
place Counter.graph_runs_accepted = 26
place Counter.graph_runs_rejected = 27
place Counter.graph_nodes_terminal = 28
place Counter.deadline_admitted = 29
place Counter.deadline_met = 30
place Counter.deadline_missed = 31
place Counter.deadline_cancelled_before_start = 32
place Counter.task_wait_calls = 33
place Counter.graph_wait_calls = 34
place Counter.wait_for_timeouts = 35
place Counter.same_runtime_helping_waits = 36
place Counter.cross_runtime_helping_waits = 37
place Counter.coroutine_await_registrations = 38
place Counter.direct_self_wait_rejections = 39
place Counter.helping_depth_rejections = 40

pub data Timing : Type 0 where
  ready_queue_wait execution_segment task_wall_time blocking_admission_wait : Timing
  timer_wake_lateness deadline_start_lateness worker_park_duration runtime_join_latency : Timing
  thread_wait_duration helping_wait_duration coroutine_await_duration : Timing

abbrev pub timing_place : Timing → ℕ
timing_place Timing.ready_queue_wait = 0
timing_place Timing.execution_segment = 1
timing_place Timing.task_wall_time = 2
timing_place Timing.blocking_admission_wait = 3
timing_place Timing.timer_wake_lateness = 4
timing_place Timing.deadline_start_lateness = 5
timing_place Timing.worker_park_duration = 6
timing_place Timing.runtime_join_latency = 7
timing_place Timing.thread_wait_duration = 8
timing_place Timing.helping_wait_duration = 9
timing_place Timing.coroutine_await_duration = 10

unfoldable pub saturating_inc : ℕ → ℕ
saturating_inc cur = if ltb cur word_max then cur + 1 else cur

unfoldable pub saturating_dec : ℕ → ℕ
saturating_dec cur = if cur == 0 then cur else cur - 1

unfoldable pub saturating_add : ℕ → ℕ → ℕ
saturating_add cur val =
    if val == 0
    then cur
    else if cur == word_max
    then cur
    else if ltb (word_max - cur) val
    then word_max
    else cur + val

pub record Histogram : Type 0 where
  pub count : ℕ
  pub sum_ns : ℕ
  pub max_ns : ℕ
  pub buckets : List ℕ

-- 63 - __builtin_clzll(ns), the position of the highest bit: halve until one is left.
unfoldable pub top_bit : ℕ → ℕ → ℕ
top_bit zero ns = 0
top_bit (suc fuel) ns = let rest = top_bit fuel (ns / 2) in if leb ns 1 then 0 else rest + 1

-- A 64-bit value has its highest bit after at most 63 halvings.
unfoldable pub bucket_for_ns : ℕ → ℕ
bucket_for_ns ns = if leb ns 1 then 0 else (let k = top_bit 64 ns in if ltb 63 k then 63 else k)

unfoldable pub record_ns : ℕ → Histogram → Histogram
unfolding saturating_inc saturating_add
record_ns ns h =
    let b = bucket_for_ns ns in
    record {
      count = saturating_inc h.count;
      sum_ns = saturating_add h.sum_ns ns;
      max_ns = if ltb h.max_ns ns then ns else h.max_ns;
      buckets = set h.buckets b (saturating_inc (get_or h.buckets b 0));
    }

pub record Metrics : Type 0 where
  pub level : MetricsLevel
  pub counters : Counter → ℕ
  pub histograms : Timing → Histogram
  pub waiting_tasks : ℕ
  pub ready_tasks : ℕ
  pub running_tasks : ℕ
  pub suspended_tasks : ℕ
  pub active_graph_runs : ℕ

abbrev pub update : Counter → ℕ → (Counter → ℕ) → Counter → ℕ
update c v f d = if place c == place d then v else f d

-- if (level != Off) saturating_inc(shard.c)
unfoldable pub count_one : Counter → Metrics → Metrics
unfolding saturating_inc
count_one c m =
    if is_off m.level
    then m
    else record m { counters = update c (saturating_inc (m.counters c)) m.counters }

-- if (level != Off) saturating_add(shard.c, n)
unfoldable pub count_many : Counter → ℕ → Metrics → Metrics
unfolding saturating_add
count_many c n m =
    if is_off m.level
    then m
    else record m { counters = update c (saturating_add (m.counters c) n) m.counters }

-- if (level == Detailed) shard.t.record(ns)
unfoldable pub time_detailed : Timing → ℕ → Metrics → Metrics
unfolding record_ns
time_detailed t ns m =
    if is_detailed m.level
    then record m {
      histograms = λ u.
          if timing_place t == timing_place u
          then record_ns ns (m.histograms t)
          else m.histograms u;
    }
    else m
