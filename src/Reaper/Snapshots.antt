-- ===== src/Reaper/Snapshots.antt =====
-- ReaperRegistry::process_snapshot, and the snapshot of include/astra/process_metrics.hpp.
use astra_scheduler.Base.{
  ℕ, ◌+◌, ◌%◌, ◌^◌, Bool, not, ◌&&◌, ◌||◌, List, [], ◌∷◌, ◌==◌, if◌then◌else◌, length, word_max,
  sub64,
}
use astra_scheduler.Reaper.{
  RegistrationState, HandoffCapabilitySlot, ReaperRegistry, is_finalizing, is_finalized,
}

pub data ProcessServiceState : Type 0 where
  not_started active finalizing finalized : ProcessServiceState

pub data ProcessFinalizationState : Type 0 where
  not_started finalizing finalized : ProcessFinalizationState

pub record ProcessMetricsCounters : Type 0 where
  pub runtime_registrations : ℕ
  pub runtime_handoffs : ℕ
  pub runtimes_joined : ℕ
  pub finalization_begin_calls : ℕ
  pub finalization_wait_timeouts : ℕ
  pub finalization_escalations : ℕ

pub record ProcessMetricsGauges : Type 0 where
  pub registered_runtimes : ℕ
  pub pending_runtimes : ℕ
  pub join_ready_runtimes : ℕ

pub record ProcessMetricsSnapshot : Type 0 where
  pub service_state : ProcessServiceState
  pub finalization_state : ProcessFinalizationState
  pub capture_started_at : ℕ
  pub capture_finished_at : ℕ
  pub finalization_started_at : ℕ
  pub finalization_elapsed_ns : ℕ
  pub finalization_completion_duration_ns : ℕ
  pub saturated : Bool
  pub counters : ProcessMetricsCounters
  pub gauges : ProcessMetricsGauges

-- The counters are read without the mutex.
abbrev pub read_counters : ReaperRegistry → ProcessMetricsCounters
read_counters r = record {
  runtime_registrations = r.total_registrations;
  runtime_handoffs = r.total_handoffs;
  runtimes_joined = r.total_joins;
  finalization_begin_calls = r.finalization_begin_calls;
  finalization_wait_timeouts = r.finalization_wait_timeouts;
  finalization_escalations = r.finalization_escalations;
}

abbrev pub join_ready_gauge : HandoffCapabilitySlot → ℕ
join_ready_gauge s = if s.join_ready then (if not s.join_claimed then 1 else 0) else 0

abbrev pub pending_gauge : HandoffCapabilitySlot → ℕ
pending_gauge s = if s.join_ready then 0 else if s.handoff_executed then 1 else 0

unfoldable pub read_gauges :
    List HandoffCapabilitySlot → ProcessMetricsGauges → ProcessMetricsGauges
read_gauges [] g = g
read_gauges (s ∷ ss) g = read_gauges ss (record g {
  pending_runtimes = g.pending_runtimes + pending_gauge s;
  join_ready_runtimes = g.join_ready_runtimes + join_ready_gauge s;
})

abbrev pub service_state : ReaperRegistry → ProcessServiceState
service_state r = elim r.state [
  | RegistrationState.finalizing ↦ ProcessServiceState.finalizing
  | RegistrationState.finalized ↦ ProcessServiceState.finalized
  | RegistrationState.opened ↦
      if r.coordinator_thread || not (r.total_registrations == 0)
      then ProcessServiceState.active
      else ProcessServiceState.not_started
]

abbrev pub finalization_state : RegistrationState → ProcessFinalizationState
finalization_state RegistrationState.finalizing = ProcessFinalizationState.finalizing
finalization_state RegistrationState.finalized = ProcessFinalizationState.finalized
finalization_state RegistrationState.opened = ProcessFinalizationState.not_started

-- Nanoseconds between two readings, as std::uint64_t.
abbrev pub completion_duration : ReaperRegistry → ℕ
completion_duration r =
    if is_finalized r.state
      && not (r.finalization_started_at == 0)
      && not (r.finalization_completed_at == 0)
    then sub64 r.finalization_completed_at r.finalization_started_at
    else 0

abbrev pub elapsed : ℕ → ReaperRegistry → ℕ
elapsed now r =
    if is_finalizing r.state && not (r.finalization_started_at == 0)
    then sub64 now r.finalization_started_at
    else completion_duration r

abbrev pub is_saturated : ProcessMetricsCounters → Bool
is_saturated c =
    c.runtime_registrations == word_max
    || c.runtime_handoffs == word_max
    || c.runtimes_joined == word_max
    || c.finalization_begin_calls == word_max
    || c.finalization_wait_timeouts == word_max
    || c.finalization_escalations == word_max

-- The counters are those of an earlier moment, `before`; the rest is read under the mutex from `r`.
unfoldable pub process_snapshot :
    ℕ → ℕ → ℕ → ReaperRegistry → ReaperRegistry → ProcessMetricsSnapshot
unfolding read_gauges
process_snapshot started now finished before r = record {
  service_state = service_state r;
  finalization_state = finalization_state r.state;
  capture_started_at = started;
  capture_finished_at = finished;
  finalization_started_at = r.finalization_started_at;
  finalization_elapsed_ns = elapsed now r;
  finalization_completion_duration_ns = completion_duration r;
  saturated = is_saturated (read_counters before);
  counters = read_counters before;
  gauges = read_gauges r.slots (record {
    registered_runtimes = length r.registered_ids % 2 ^ 64;
    pending_runtimes = 0;
    join_ready_runtimes = 0;
  });
}
