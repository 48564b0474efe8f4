-- ===== src/Reaper/Closing.antt =====
-- Once the coordinator has left, or the registry is finalized, no runtime is held any more.
use astra_scheduler.Base.{
  ℕ, ◌≡◌, refl, sym, ap, ◌∙◌, inl, inr, true, false, not, ◌&&◌, ◌||◌, List, [], ◌∷◌, arith, leb,
  ◌==◌, Bool-cases, if_then_else_lem,
}
use astra_scheduler.Reaper.{
  HandoffCapabilitySlot, ReaperRegistry, is_open, is_finalized, is_empty,
  ensure_coordinator_started, may_register, admit, mark_finalization_started, mark_finalized,
  close_registration, is_over, may_join, start_join, finish_join,
}
use astra_scheduler.Reaper.Waiting.{
  Waiter, return_wait, wait_step, wait_for_step, is_timed, waiter_step,
}
use astra_scheduler.Reaper.Running.{System}

pub record IsClosing (r : ReaperRegistry) : Type 0 where
  pub vacant : r.coordinator_thread ≡ false → r.slots ≡ []
  pub over : r.coordinator_exited ≡ true → (r.slots ≡ []) × (is_open r.state ≡ false)
  pub final : is_finalized r.state ≡ true → r.slots ≡ []
  pub runs_on : r.coordinator_stop ≡ false

-- A thread joins the coordinator only when nothing is held, and nothing will be.
abbrev pub JoinsLate : Waiter → ReaperRegistry → Type 0
JoinsLate p r = p ≡ Waiter.joins → (r.slots ≡ []) × (is_open r.state ≡ false)

pub record IsOrderly (a : System) : Type 0 where
  pub closing : IsClosing a.registry
  pub joining : (i : ℕ) → JoinsLate (a.waiters i) a.registry

-- An operation that only changes the slots, and adds none to an empty list.
pub record IsLocal (r t : ReaperRegistry) : Type 0 where
  pub state : t.state ≡ r.state
  pub thread : t.coordinator_thread ≡ r.coordinator_thread
  pub exited : t.coordinator_exited ≡ r.coordinator_exited
  pub stop : t.coordinator_stop ≡ r.coordinator_stop
  pub slots : r.slots ≡ [] → t.slots ≡ []

local-IsClosing : (r t : ReaperRegistry) → IsLocal r t → IsClosing r → IsClosing t
local-IsClosing r t l c = record {
  vacant = λ e. l.slots (c.vacant (sym l.thread ∙ e));
  over = λ e. let (s, o) = c.over (sym l.exited ∙ e) in (l.slots s, ap is_open l.state ∙ o);
  final = λ e. l.slots (c.final (sym (ap is_finalized l.state) ∙ e));
  runs_on = l.stop ∙ c.runs_on;
}

pub local-IsOrderly :
    (a b : System)
    → IsLocal a.registry b.registry
    → b.waiters ≡ a.waiters
    → IsOrderly a
    → IsOrderly b
local-IsOrderly a b l w o = record {
  closing = local-IsClosing a.registry b.registry l o.closing;
  joining = λ i e.
      let (s, n) = o.joining i (sym (ap (λ (f : ℕ → Waiter). f i) w) ∙ e) in
      (l.slots s, ap is_open l.state ∙ n);
}

pub empty-nil : (ss : List HandoffCapabilitySlot) → is_empty ss ≡ true → ss ≡ []
empty-nil [] e = refl
empty-nil (s ∷ ss) e = absurd (cc)

pub admit-IsOrderly :
    (a : System) (slot : HandoffCapabilitySlot) (ids : List ℕ)
    → may_register a.registry ≡ true
    → IsOrderly a
    → IsOrderly (record a { registry = admit slot a.registry; registered = ids })
unfolding admit
admit-IsOrderly a slot ids may o =
    let r = a.registry in
    let opened : is_open r.state ≡ true = ground arith in
    let over = o.closing.over in
    let live : r.coordinator_exited ≡ false = elim (Bool-cases r.coordinator_exited) [
      | inl e ↦ let (s, n) = over e in absurd (cc)
      | inr e ↦ e
    ] in
    let t = ensure_coordinator_started r in
    let started : t.coordinator_thread ≡ true = ground arith in
    let fresh : t.coordinator_exited ≡ false = ground arith in
    let still : t.state ≡ r.state = ground arith in
    let not_final : is_finalized t.state ≡ false = rw still (ground arith) in
    record {
      closing = record {
        vacant = λ e. let x : true ≡ false = sym started ∙ e in absurd (cc);
        over = λ e. let x : true ≡ false = sym e ∙ fresh in absurd (cc);
        final = λ e. let x : true ≡ false = sym e ∙ not_final in absurd (cc);
        runs_on = let x = o.closing.runs_on in ground arith;
      };
      joining = λ i e. let (s, n) = o.joining i e in absurd (cc);
    }

mark_finalization_started-IsLocal :
    (now : ℕ) (r : ReaperRegistry) → IsLocal r (mark_finalization_started now r)
mark_finalization_started-IsLocal now r = record {
  state = ground arith;
  thread = ground arith;
  exited = ground arith;
  stop = ground arith;
  slots = λ e. ground (arith, e);
}

pub mark_finalized-IsClosing :
    (now : ℕ) (r : ReaperRegistry) → r.slots ≡ [] → IsClosing r → IsClosing (mark_finalized now r)
unfolding mark_finalized
mark_finalized-IsClosing now r none_held c =
    let l = mark_finalization_started-IsLocal now r in
    let s = l.slots none_held in
    record { vacant = λ e. s; over = λ e. (s, refl); final = λ e. s; runs_on = l.stop ∙ c.runs_on }

pub close_registration-IsClosing :
    (now : ℕ) (r : ReaperRegistry) → IsClosing r → IsClosing (close_registration now r).0
unfolding close_registration
close_registration-IsClosing now r c =
    let s = mark_finalization_started now r in
    let l = mark_finalization_started-IsLocal now r in
    let d = local-IsClosing r s l c in
    let P = λ (o : ReaperRegistry × List ℕ). IsClosing o.0 in
    if_then_else_lem P (is_open r.state)
      (λ e.
        if_then_else_lem P (is_empty s.registered_ids && not s.coordinator_thread)
          (λ h. mark_finalized-IsClosing now s (d.vacant (ground arith)) d)
          (λ h. record {
            vacant = d.vacant;
            over = λ x. let (none_held, n) = d.over x in (none_held, refl);
            final = λ x. absurd (cc);
            runs_on = d.runs_on;
          }))
      (λ e. c)

pub close_registration-open :
    (now : ℕ) (r : ReaperRegistry) → is_open r.state ≡ false → (close_registration now r).0 ≡ r
unfolding close_registration
close_registration-open now r e = ground arith

-- What a step of a waiting thread keeps.
pub record IsPatient (r : ReaperRegistry) (o : ReaperRegistry × Waiter) : Type 0 where
  pub closing : IsClosing o.0
  pub joins : JoinsLate o.1 o.0
  pub slots : o.0.slots ≡ r.slots
  pub shut : is_open r.state ≡ false → is_open o.0.state ≡ false
  pub finished : is_finalized r.state ≡ true → is_finalized o.0.state ≡ true

module _ (now : ℕ) (r : ReaperRegistry) (c : IsClosing r) where
  -- The registry stays as it is.
  pub stays-patient : (p : Waiter) → JoinsLate p r → IsPatient r (r, p)
  stays-patient p j = record {
    closing = c;
    joins = j;
    slots = refl;
    shut = λ e. e;
    finished = λ e. e;
  }

  finalizes : r.slots ≡ [] → IsPatient r (mark_finalized now r, Waiter.completed)
  unfolding mark_finalized
  finalizes none_held = record {
    closing = mark_finalized-IsClosing now r none_held c;
    joins = λ e. absurd (cc);
    slots = ground arith;
    shut = λ e. refl;
    finished = λ e. refl;
  }

  starts_join : is_over r ≡ true → IsPatient r (start_join r, Waiter.joins)
  starts_join e =
      let held = empty-nil r.slots (ground arith) in
      let (s, n) = c.over (ground arith) in
      record {
        closing = record {
          vacant = λ x. held;
          over = c.over;
          final = c.final;
          runs_on = c.runs_on;
        };
        joins = λ x. (held, n);
        slots = refl;
        shut = λ x. x;
        finished = λ x. x;
      }

  finishes : JoinsLate Waiter.joins r → IsPatient r (finish_join now r, Waiter.completed)
  unfolding finish_join
  finishes late =
      let (held, n) = late refl in
      let g = finalizes held in
      record {
        closing =
            let d = g.closing in
            record { vacant = d.vacant; over = d.over; final = d.final; runs_on = d.runs_on };
        joins = λ x. absurd (cc);
        slots = g.slots;
        shut = g.shut;
        finished = g.finished;
      }

  returns : IsPatient r (return_wait r)
  returns =
      if_then_else_lem (IsPatient r) (is_finalized r.state)
        (λ e. stays-patient Waiter.completed (λ x. absurd (cc)))
        (λ e. record {
          closing = record {
            vacant = c.vacant;
            over = c.over;
            final = c.final;
            runs_on = c.runs_on;
          };
          joins = λ x. absurd (cc);
          slots = refl;
          shut = λ x. x;
          finished = λ x. x;
        })

  pub wait_step-IsPatient : (p : Waiter) → JoinsLate p r → IsPatient r (wait_step now p r)
  unfolding wait_step
  wait_step-IsPatient Waiter.loops j =
      if_then_else_lem (IsPatient r) (is_finalized r.state)
        (λ e. stays-patient Waiter.completed (λ x. absurd (cc)))
        (λ e.
          if_then_else_lem (IsPatient r) (not r.coordinator_thread)
            (λ f. finalizes (c.vacant (ground arith)))
            (λ f.
              if_then_else_lem (IsPatient r) (is_over r)
                (λ g.
                  if_then_else_lem (IsPatient r) (may_join r) (λ h. starts_join g)
                    (λ h. stays-patient Waiter.awaits_final (λ x. absurd (cc))))
                (λ g. stays-patient Waiter.sleeps (λ x. absurd (cc)))))
  wait_step-IsPatient Waiter.sleeps j =
      if_then_else_lem (IsPatient r) (is_finalized r.state || is_over r)
        (λ e. stays-patient Waiter.loops (λ x. absurd (cc))) (λ e. stays-patient Waiter.sleeps j)
  wait_step-IsPatient Waiter.awaits_final j =
      if_then_else_lem (IsPatient r) (is_finalized r.state)
        (λ e. stays-patient Waiter.completed (λ x. absurd (cc)))
        (λ e. stays-patient Waiter.awaits_final j)
  wait_step-IsPatient Waiter.joins j = finishes j
  wait_step-IsPatient Waiter.idle j = stays-patient _ j
  wait_step-IsPatient Waiter.refused j = stays-patient _ j
  wait_step-IsPatient (Waiter.enters t) j = stays-patient _ j
  wait_step-IsPatient (Waiter.loops_until t) j = stays-patient _ j
  wait_step-IsPatient (Waiter.sleeps_until t) j = stays-patient _ j
  wait_step-IsPatient (Waiter.awaits_final_until t) j = stays-patient _ j
  wait_step-IsPatient Waiter.completed j = stays-patient _ j
  wait_step-IsPatient Waiter.timed_out j = stays-patient _ j

  pub wait_for_step-IsPatient : (p : Waiter) → JoinsLate p r → IsPatient r (wait_for_step now p r)
  unfolding wait_for_step
  wait_for_step-IsPatient (Waiter.enters timeout) j =
      if_then_else_lem (IsPatient r) (is_finalized r.state)
        (λ e. stays-patient Waiter.completed (λ x. absurd (cc)))
        (λ e.
          if_then_else_lem (IsPatient r) (not r.coordinator_thread)
            (λ f. finalizes (c.vacant (ground arith)))
            (λ f.
              if_then_else_lem (IsPatient r) (timeout == 0)
                (λ g.
                  if_then_else_lem (IsPatient r) (may_join r) (λ h. starts_join (ground arith))
                    (λ h. returns))
                (λ g. stays-patient _ (λ x. absurd (cc)))))
  wait_for_step-IsPatient (Waiter.loops_until deadline) j =
      if_then_else_lem (IsPatient r) (is_finalized r.state)
        (λ e. stays-patient Waiter.completed (λ x. absurd (cc)))
        (λ e.
          if_then_else_lem (IsPatient r) (is_over r)
            (λ g.
              if_then_else_lem (IsPatient r) (may_join r) (λ h. starts_join g)
                (λ h. stays-patient _ (λ x. absurd (cc))))
            (λ g.
              if_then_else_lem (IsPatient r) (leb deadline now) (λ h. returns)
                (λ h. stays-patient _ (λ x. absurd (cc)))))
  wait_for_step-IsPatient (Waiter.sleeps_until deadline) j =
      if_then_else_lem (IsPatient r) (is_finalized r.state || is_over r)
        (λ e. stays-patient _ (λ x. absurd (cc)))
        (λ e.
          if_then_else_lem (IsPatient r) (leb deadline now) (λ h. returns) (λ h. stays-patient _ j))
  wait_for_step-IsPatient (Waiter.awaits_final_until deadline) j =
      if_then_else_lem (IsPatient r) (is_finalized r.state)
        (λ e. stays-patient Waiter.completed (λ x. absurd (cc)))
        (λ e.
          if_then_else_lem (IsPatient r) (leb deadline now) (λ h. returns) (λ h. stays-patient _ j))
  wait_for_step-IsPatient Waiter.joins j = finishes j
  wait_for_step-IsPatient Waiter.idle j = stays-patient _ j
  wait_for_step-IsPatient Waiter.refused j = stays-patient _ j
  wait_for_step-IsPatient Waiter.loops j = stays-patient _ j
  wait_for_step-IsPatient Waiter.sleeps j = stays-patient _ j
  wait_for_step-IsPatient Waiter.awaits_final j = stays-patient _ j
  wait_for_step-IsPatient Waiter.completed j = stays-patient _ j
  wait_for_step-IsPatient Waiter.timed_out j = stays-patient _ j

  pub waiter_step-IsPatient : (p : Waiter) → JoinsLate p r → IsPatient r (waiter_step now p r)
  unfolding waiter_step
  waiter_step-IsPatient p j =
      if_then_else_lem (IsPatient r) (is_timed p) (λ e. wait_for_step-IsPatient p j)
        (λ e. wait_step-IsPatient p j)
