-- ===== src/Admission/Bounds.antt =====
-- Slots held by admitted work, over every interleaving of rounds and releases.
use astra_scheduler.Base.{ℕ, ◌+◌, ◌-◌, ◌≤◌, ◌<◌, ◌≡◌, ◌^◌, refl, Bool, false, arith}
use astra_scheduler.Status.{SchedulerStatus}
use astra_scheduler.Metrics.{Metrics}
use astra_scheduler.Admission.{AdmissionController, AdmissionDecision, Outcome, round, release}

-- The controller, and the slots that admitted external work holds.
pub record Ledger : Type 0 where
  pub controller : AdmissionController
  pub held : ℕ

-- The slots that a round hands out: an external success holds its count, and nothing else does.
abbrev pub granted : Bool → ℕ → Outcome → ℕ
granted false count (Outcome.returns AdmissionDecision.success) = count
granted _ _ _ = 0

-- A caller's round under the mutex, whatever it asks and whatever the status is; or a release of
-- slots that are held.
pub data Step (l : Ledger) : Ledger → Type 0 where
  rounds :
      (st : SchedulerStatus) (count : ℕ) (may_block is_internal : Bool) (m : Metrics)
      → 0 < count
      → Step l (
          let r = round st count may_block is_internal l.controller m in
          record { controller = r.controller; held = l.held + granted is_internal count r.outcome })
  releases :
      (count : ℕ)
      → count ≤ l.held
      → Step l (record { controller = release count l.controller; held = l.held - count })

pub data Reach (start : AdmissionController) : Ledger → Type 0 where
  here : Reach start (record { controller = start; held = 0 })
  next : {l k : Ledger} → Reach start l → Step l k → Reach start k

pub record IsBalanced (capacity : ℕ) (l : Ledger) : Type 0 where
  pub same : l.controller.capacity ≡ capacity
  pub exact : l.controller.pending ≡ l.held
  pub bounded : l.held ≤ capacity

round-IsBalanced :
    (l : Ledger) (st : SchedulerStatus) (count : ℕ) (may_block is_internal : Bool) (m : Metrics)
    (capacity : ℕ)
    → capacity < 2 ^ 63
    → IsBalanced capacity l
    → IsBalanced capacity (
        let r = round st count may_block is_internal l.controller m in
        record { controller = r.controller; held = l.held + granted is_internal count r.outcome })
unfolding round
round-IsBalanced l st count may_block is_internal m capacity small b = ground arith

release-IsBalanced :
    (l : Ledger) (count capacity : ℕ)
    → count ≤ l.held
    → IsBalanced capacity l
    → IsBalanced capacity
        (record { controller = release count l.controller; held = l.held - count })
unfolding release
release-IsBalanced l count capacity h b = ground arith

Step-IsBalanced :
    {l k : Ledger} {capacity : ℕ}
    → capacity < 2 ^ 63
    → Step l k
    → IsBalanced capacity l
    → IsBalanced capacity k
Step-IsBalanced {l} {k} {capacity} small (Step.rounds st count may_block is_internal m pos) b =
    round-IsBalanced l st count may_block is_internal m capacity small b
Step-IsBalanced {l} {k} {capacity} small (Step.releases count h) b =
    release-IsBalanced l count capacity h b

-- Starting with no pending slot and a capacity below 2 ^ 63, after any interleaving of rounds and of
-- releases of held slots the controller counts exactly the slots that external work holds, and they
-- are never more than the capacity.
pub Reach-IsBalanced :
    {start : AdmissionController} {l : Ledger}
    → start.pending ≡ 0
    → start.capacity < 2 ^ 63
    → Reach start l
    → IsBalanced start.capacity l
Reach-IsBalanced none_yet small Reach.here = record {
  same = refl;
  exact = none_yet;
  bounded = omega arith;
}
Reach-IsBalanced none_yet small (Reach.next r st) =
    Step-IsBalanced small st (Reach-IsBalanced none_yet small r)
