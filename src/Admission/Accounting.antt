-- ===== src/Admission/Accounting.antt =====
-- What `acquire` records: every decision is counted once, under its own name.
use astra_scheduler.Base.{
  ℕ, zero, suc, ◌+◌, ◌≤◌, ◌<◌, ◌≡◌, Bool, false, List, [], ◌∷◌, arith, add64, word_max, inl, inr,
  subst, sym,
}
use astra_scheduler.Status.{SchedulerStatus}
use astra_scheduler.Metrics.{Metrics, Counter, is_off, count_one, count_many, time_detailed}
use astra_scheduler.Admission.{
  AdmissionController, AdmissionDecision, Outcome, Wake, round, acquire, acquire_loop, record_wake,
  acquire_none,
}
use astra_scheduler.Admission.Decisions.{
  acquire_loop_of_returns, acquire_loop_of_waits, Outcome-cases,
}

-- The three counters of decisions, after `accepted` more identities and two kinds of refusals, and
-- the gauge of ready tasks.
abbrev pub Counted : Metrics → Metrics → ℕ → ℕ → ℕ → Type 0
Counted before after accepted lifecycle capacity =
    (after.counters Counter.accepted_task_identities
      ≡ before.counters Counter.accepted_task_identities + accepted)
    × (after.counters Counter.rejected_lifecycle
        ≡ before.counters Counter.rejected_lifecycle + lifecycle)
    × (after.counters Counter.rejected_capacity
        ≡ before.counters Counter.rejected_capacity + capacity)
    × (after.ready_tasks ≡ add64 before.ready_tasks accepted)

-- What is counted for each outcome of a call that asks for `count`.
abbrev pub Recorded : ℕ → Metrics → Metrics → Outcome → Type 0
Recorded count before after (Outcome.returns AdmissionDecision.success) =
    Counted before after count 0 0
Recorded count before after (Outcome.returns AdmissionDecision.stopping) =
    Counted before after 0 1 0
Recorded count before after (Outcome.returns AdmissionDecision.stopped) = Counted before after 0 1 0
Recorded count before after (Outcome.returns AdmissionDecision.capacity_exhausted) =
    Counted before after 0 0 1
Recorded count before after Outcome.waits = Counted before after 0 0 0

-- Metrics that are on, with room for one more call.
pub record HasRoom (count : ℕ) (m : Metrics) : Type 0 where
  pub enabled : is_off m.level ≡ false
  pub accepted : m.counters Counter.accepted_task_identities + count ≤ word_max
  pub lifecycle : m.counters Counter.rejected_lifecycle < word_max
  pub capacity : m.counters Counter.rejected_capacity < word_max
  pub ready : m.ready_tasks ≤ word_max

round-Recorded :
    (st : SchedulerStatus) (count : ℕ) (may_block is_internal : Bool) (a : AdmissionController)
    (m : Metrics)
    → HasRoom count m
    → Recorded count m
        (round st count may_block is_internal a m).metrics
        (round st count may_block is_internal a m).outcome
unfolding round count_one count_many
round-Recorded st count may_block is_internal a m r = ground arith

acquire_none-Recorded :
    (st : SchedulerStatus) (is_internal : Bool) (m : Metrics)
    → HasRoom 0 m
    → Recorded 0 m
        (acquire_none st is_internal m).0
        (Outcome.returns (acquire_none st is_internal m).1)
unfolding acquire_none count_one count_many
acquire_none-Recorded st is_internal m r = ground arith

-- A wake-up counts no decision.
abbrev Idle : Metrics → Metrics → Type 0
Idle before after = (is_off after.level ≡ is_off before.level) × Counted before after 0 0 0

round-waits-Idle :
    (st : SchedulerStatus) (count : ℕ) (may_block is_internal : Bool) (a : AdmissionController)
    (m : Metrics)
    → m.ready_tasks ≤ word_max
    → (round st count may_block is_internal a m).outcome ≡ Outcome.waits
    → Idle m (round st count may_block is_internal a m).metrics
unfolding round count_one count_many
round-waits-Idle st count may_block is_internal a m r h = ground arith

record_wake-Idle : (w : Wake) (m : Metrics) → m.ready_tasks ≤ word_max → Idle m (record_wake w m)
unfolding record_wake count_one time_detailed
record_wake-Idle w m r = ground arith

HasRoom-Idle : (count : ℕ) (m n : Metrics) → Idle m n → HasRoom count m → HasRoom count n
HasRoom-Idle count m n i r = ground arith

Recorded-Idle :
    (count : ℕ) (l m n : Metrics) (o : Outcome)
    → l.ready_tasks ≤ word_max
    → Idle l m
    → Recorded count m n o
    → Recorded count l n o
Recorded-Idle count l m n (Outcome.returns AdmissionDecision.success) small i r = ground arith
Recorded-Idle count l m n (Outcome.returns AdmissionDecision.stopping) small i r = ground arith
Recorded-Idle count l m n (Outcome.returns AdmissionDecision.stopped) small i r = ground arith
Recorded-Idle count l m n (Outcome.returns AdmissionDecision.capacity_exhausted) small i r =
    ground arith
Recorded-Idle count l m n Outcome.waits small i r = ground arith

acquire_loop-Recorded :
    (ws : List Wake) (st : SchedulerStatus) (count : ℕ) (may_block is_internal : Bool)
    (a : AdmissionController) (m : Metrics)
    → HasRoom count m
    → Recorded count m
        (acquire_loop ws st count may_block is_internal a m).metrics
        (acquire_loop ws st count may_block is_internal a m).outcome
unfolding acquire_loop
acquire_loop-Recorded [] st count may_block is_internal a m r =
    round-Recorded st count may_block is_internal a m r
acquire_loop-Recorded (w ∷ ws) st count may_block is_internal a m r =
    elim (Outcome-cases (round st count may_block is_internal a m).outcome) [
      | inl (d, e) ↦
          subst (λ l. Recorded count m l.metrics l.outcome)
            (sym (acquire_loop_of_returns (w ∷ ws) st count may_block is_internal a m d e))
            (round-Recorded st count may_block is_internal a m r)
      | inr e ↦
          let m₁ = (round st count may_block is_internal a m).metrics in
          let i₁ = round-waits-Idle st count may_block is_internal a m r.ready e in
          let r₁ = HasRoom-Idle count m m₁ i₁ r in
          let i₂ = record_wake-Idle w m₁ r₁.ready in
          let r₂ = HasRoom-Idle count m₁ (record_wake w m₁) i₂ r₁ in
          let a₂ = record ((round st count may_block is_internal a m).controller) {
            pending = w.pending;
          } in
          let rest = acquire_loop ws w.status count may_block is_internal a₂ (record_wake w m₁) in
          subst (λ l. Recorded count m l.metrics l.outcome)
            (sym (acquire_loop_of_waits w ws st count may_block is_internal a m e))
            (Recorded-Idle count m m₁ rest.metrics rest.outcome r.ready i₁ (
              Recorded-Idle count m₁ (record_wake w m₁) rest.metrics rest.outcome r₁.ready i₂ (
                acquire_loop-Recorded ws w.status count may_block is_internal a₂ (record_wake w m₁)
                  r₂)))
    ]

-- With metrics on and room in the counters, a call of `acquire`, however often it waits, adds its
-- count to the accepted identities and to the ready tasks if it succeeds, adds one to the refusals by
-- the lifecycle or by the capacity if it is refused, and changes no other of these counters.
pub acquire-Recorded :
    (ws : List Wake) (st : SchedulerStatus) (count : ℕ) (may_block is_internal : Bool)
    (a : AdmissionController) (m : Metrics)
    → HasRoom count m
    → Recorded count m
        (acquire ws st count may_block is_internal a m).metrics
        (acquire ws st count may_block is_internal a m).outcome
unfolding acquire
acquire-Recorded ws st zero may_block is_internal a m r = acquire_none-Recorded st is_internal m r
acquire-Recorded ws st (suc n) may_block is_internal a m r =
    acquire_loop-Recorded ws st (suc n) may_block is_internal a m r
