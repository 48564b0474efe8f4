-- ===== src/Admission/Decisions.antt =====
-- Which decision `acquire` makes, and that a caller who waits is decided at its first wake-up.
use astra_scheduler.Base.{
  ℕ, zero, suc, ◌≤◌, ◌<◌, ◌≡◌, ◌≢◌, ◌↔◌, refl, Bool, true, false, List, [], ◌∷◌, arith, add64, inl,
  inr, ◌⊎◌, if◌then◌else◌,
}
use astra_scheduler.Status.{SchedulerStatus, SchedulerState}
use astra_scheduler.Metrics.{Metrics}
use astra_scheduler.Admission.{
  AdmissionController, AdmissionDecision, ExternalBackpressure, Outcome, Wake, round, acquire,
  acquire_none, acquire_loop, may_wake, is_running, is_graceful, record_wake,
}

-- What a worker of the runtime itself is told: it is refused only by the lifecycle.
abbrev pub internal_rule : SchedulerStatus → AdmissionDecision
internal_rule st = elim st.state [
  | SchedulerState.running ↦ AdmissionDecision.success
  | SchedulerState.stopping ↦
      if is_graceful st.shutdown_mode then AdmissionDecision.success else AdmissionDecision.stopping
  | SchedulerState.stopped ↦ AdmissionDecision.stopped
]

round_internal :
    (st : SchedulerStatus) (count : ℕ) (may_block : Bool) (a : AdmissionController) (m : Metrics)
    → ((round st count may_block true a m).controller ≡ a)
      × ((round st count may_block true a m).outcome ≡ Outcome.returns (internal_rule st))
unfolding round
round_internal st count may_block a m = ground arith

-- A round that returns ends the loop.
pub acquire_loop_of_returns :
    (ws : List Wake) (st : SchedulerStatus) (count : ℕ) (may_block is_internal : Bool)
    (a : AdmissionController) (m : Metrics) (d : AdmissionDecision)
    → (round st count may_block is_internal a m).outcome ≡ Outcome.returns d
    → acquire_loop ws st count may_block is_internal a m ≡ round st count may_block is_internal a m
unfolding acquire_loop
acquire_loop_of_returns [] st count may_block is_internal a m d e = refl
acquire_loop_of_returns (w ∷ ws) st count may_block is_internal a m d e = ground arith

-- A round that waits goes on with the next wake-up.
pub acquire_loop_of_waits :
    (w : Wake) (ws : List Wake) (st : SchedulerStatus) (count : ℕ) (may_block is_internal : Bool)
    (a : AdmissionController) (m : Metrics)
    → (round st count may_block is_internal a m).outcome ≡ Outcome.waits
    → let r = round st count may_block is_internal a m in
      acquire_loop (w ∷ ws) st count may_block is_internal a m
      ≡ acquire_loop ws w.status count may_block is_internal
          (record r.controller { pending = w.pending })
          (record_wake w r.metrics)
unfolding acquire_loop
acquire_loop_of_waits w ws st count may_block is_internal a m e = ground arith

pub Outcome-cases :
    (o : Outcome) → ((d : AdmissionDecision) × (o ≡ Outcome.returns d)) ⊎ (o ≡ Outcome.waits)
Outcome-cases (Outcome.returns d) = inl (d, refl)
Outcome-cases Outcome.waits = inr refl

-- An internal submission of any size never waits and takes no slot: it is decided by the lifecycle
-- alone, and a graceful stop still admits it.
pub acquire_internal :
    (ws : List Wake) (st : SchedulerStatus) (count : ℕ) (may_block : Bool) (a : AdmissionController)
    (m : Metrics)
    → ((acquire ws st count may_block true a m).controller ≡ a)
      × ((acquire ws st count may_block true a m).outcome ≡ Outcome.returns (internal_rule st))
unfolding acquire acquire_none
acquire_internal ws st zero may_block a m = ground arith
acquire_internal ws st (suc n) may_block a m =
    let now = round_internal st (suc n) may_block a m in
    rw (acquire_loop_of_returns ws st (suc n) may_block true a m (internal_rule st) now.1) now

-- A round waits exactly if the scheduler runs, the caller is external, asks for no more than the
-- capacity, finds too few free slots, may block, and the policy is to block.
pub round-waits_iff :
    (st : SchedulerStatus) (count : ℕ) (may_block is_internal : Bool) (a : AdmissionController)
    (m : Metrics)
    → ((round st count may_block is_internal a m).outcome ≡ Outcome.waits) ↔ (
        (st.state ≡ SchedulerState.running)
        × (is_internal ≡ false)
        × (count ≤ a.capacity)
        × (a.capacity < add64 a.pending count)
        × (may_block ≡ true)
        × (a.backpressure ≡ ExternalBackpressure.block))
unfolding round
round-waits_iff st count may_block is_internal a m = (λ h. ground arith, λ h. ground arith)

round-waits-controller :
    (st : SchedulerStatus) (count : ℕ) (may_block is_internal : Bool) (a : AdmissionController)
    (m : Metrics)
    → (round st count may_block is_internal a m).outcome ≡ Outcome.waits
    → (round st count may_block is_internal a m).controller ≡ a
unfolding round
round-waits-controller st count may_block is_internal a m h = ground arith

woken_round :
    (w : Wake) (count : ℕ) (may_block is_internal : Bool) (a b : AdmissionController) (m : Metrics)
    → b ≡ a
    → may_wake count a.capacity w ≡ true
    → (is_running w.checked.state ≡ false → is_running w.status.state ≡ false)
    → (round w.status count may_block is_internal (record b { pending = w.pending }) m).outcome
      ≢ Outcome.waits
unfolding round may_wake
woken_round w count may_block is_internal a b m e ready keeps h = ground (arith, e)

loop-ne-waits :
    (ws : List Wake) (st : SchedulerStatus) (count : ℕ) (may_block is_internal : Bool)
    (a : AdmissionController) (m : Metrics)
    → (round st count may_block is_internal a m).outcome ≢ Outcome.waits
    → (acquire_loop ws st count may_block is_internal a m).outcome ≢ Outcome.waits
loop-ne-waits ws st count may_block is_internal a m h =
    elim (Outcome-cases (round st count may_block is_internal a m).outcome) [
      | inl (d, e) ↦ rw (acquire_loop_of_returns ws st count may_block is_internal a m d e) h
      | inr e ↦ absurd (h e)
    ]

-- A blocked caller is decided at its first wake-up, provided that the predicate of the wait held then
-- and that a scheduler seen not to run is not seen to run afterwards.
pub wake_decides :
    (w : Wake) (ws : List Wake) (st : SchedulerStatus) (count : ℕ) (may_block is_internal : Bool)
    (a : AdmissionController) (m : Metrics)
    → may_wake count a.capacity w ≡ true
    → (is_running w.checked.state ≡ false → is_running w.status.state ≡ false)
    → (acquire (w ∷ ws) st count may_block is_internal a m).outcome ≢ Outcome.waits
unfolding acquire
wake_decides w ws st zero may_block is_internal a m ready keeps = λ e. cc
wake_decides w ws st (suc n) may_block is_internal a m ready keeps =
    elim (Outcome-cases (round st (suc n) may_block is_internal a m).outcome) [
      | inl (d, e) ↦
          rw (acquire_loop_of_returns (w ∷ ws) st (suc n) may_block is_internal a m d e) λ f. cc
      | inr e ↦ rw (acquire_loop_of_waits w ws st (suc n) may_block is_internal a m e) (
          loop-ne-waits ws w.status (suc n) may_block is_internal _ _ (
            woken_round w (suc n) may_block is_internal a _ _
              (round-waits-controller st (suc n) may_block is_internal a m e) ready keeps))
    ]
