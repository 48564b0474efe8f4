-- ===== src/Reaper/Finalization.antt =====
-- Finalization is final: nothing is registered then, and nothing is afterwards.
use astra_scheduler.Base.{
  ℕ, ◌≡◌, refl, sym, ap, ◌∙◌, subst, true, List, [], ◌∷◌, ◌++◌, arith, ℕ_discrete, ◌==◌, count,
  update, if_then_else_lem,
}
use astra_scheduler.Reaper.{
  RegistrationState, HandoffCapabilitySlot, ReaperRegistry, is_open, is_finalized, erase_slot,
  modify_slot, make_slot, unregister_runtime, request_all_immediate, note_finalization_begin,
  execute_worker_handoff, replace_cleanup_fn, notify_join_ready, claim_slots, Turn, is_finished,
  claim_ready, coordinator_turn,
}
use astra_scheduler.Reaper.Waiting.{Waiter, start_wait, start_wait_for, waiter_step}
use astra_scheduler.Reaper.Running.{System, work_ids, Step, make_system, Runs}
use astra_scheduler.Reaper.Accounting.{
  coordinator_turn-exits, coordinator_turn-joins, Runs-IsBooked, Runs-IsBooked_later,
}
use astra_scheduler.Reaper.Closing.{
  JoinsLate, IsOrderly, IsLocal, local-IsOrderly, empty-nil, admit-IsOrderly,
  close_registration-IsClosing, close_registration-open, waiter_step-IsPatient,
  waiter_step-IsPatient,
}

unregister-nil : (id : ℕ) (ss : List HandoffCapabilitySlot) → ss ≡ [] → erase_slot id ss ≡ []
unregister-nil id ss e = rw e refl

modify_slot-nil :
    (id : ℕ) (f : HandoffCapabilitySlot → HandoffCapabilitySlot) (ss : List HandoffCapabilitySlot)
    → ss ≡ []
    → modify_slot id f ss ≡ []
modify_slot-nil id f ss e = rw e refl

claim_slots-nil :
    (st : RegistrationState) (ids : List ℕ) (ss : List HandoffCapabilitySlot)
    → ss ≡ []
    → (claim_slots st ss ids).slots ≡ []
unfolding claim_slots
claim_slots-nil st ids ss e = rw e refl

claim_ready-IsLocal : (r : ReaperRegistry) → IsLocal r (claim_ready r).0
unfolding claim_ready
claim_ready-IsLocal r = record {
  state = refl;
  thread = refl;
  exited = refl;
  stop = refl;
  slots = claim_slots-nil r.state r.registered_ids r.slots;
}

coordinator_exits-IsOrderly :
    (a : System) (t : ReaperRegistry)
    → coordinator_turn a.registry ≡ Turn.exits t
    → IsOrderly a
    → IsOrderly (record a { registry = record a.registry { coordinator_exited = true } })
unfolding coordinator_turn
coordinator_exits-IsOrderly a t e o =
    let r = a.registry in
    let c = o.closing in
    let s = c.runs_on in
    let done : is_finished r ≡ true = ground arith in
    record {
      closing = record {
        vacant = c.vacant;
        over = λ x. (empty-nil r.slots (ground arith), ground arith);
        final = c.final;
        runs_on = c.runs_on;
      };
      joining = o.joining;
    }

waits-IsOrderly :
    (a : System) (i now : ℕ)
    → IsOrderly a
    → IsOrderly (record a {
      registry = (waiter_step now (a.waiters i) a.registry).0;
      waiters = update a.waiters i (waiter_step now (a.waiters i) a.registry).1;
    })
waits-IsOrderly a i now o =
    let r = a.registry in
    let w = waiter_step now (a.waiters i) r in
    let p = waiter_step-IsPatient now r o.closing (a.waiters i) (o.joining i) in
    record {
      closing = p.closing;
      joining = λ j. elim (ℕ_discrete i j) [
        | yes e ↦ subst (λ (x : Waiter). JoinsLate x w.0) (ground arith) p.joins
        | no ne ↦ λ e. let (s, n) = o.joining j (ground arith) in (p.slots ∙ s, p.shut n)
      ];
    }

starts-IsOrderly :
    (a : System) (i : ℕ) (p : Waiter)
    → (p ≡ Waiter.joins → ⊥)
    → IsOrderly a
    → IsOrderly (record a { waiters = update a.waiters i p })
starts-IsOrderly a i p h o = record {
  closing = o.closing;
  joining = λ j. elim (ℕ_discrete i j) [
    | yes e ↦ λ x. absurd (h (ground arith))
    | no ne ↦ λ x. o.joining j (ground arith)
  ];
}

start_wait-late : (w : ℕ) → start_wait w ≡ Waiter.joins → ⊥
start_wait-late w =
    if_then_else_lem (λ (p : Waiter). p ≡ Waiter.joins → ⊥) (w == 0) (λ e x. absurd (cc))
      (λ e x. absurd (cc))

start_wait_for-late : (w timeout : ℕ) → start_wait_for w timeout ≡ Waiter.joins → ⊥
start_wait_for-late w timeout =
    if_then_else_lem (λ (p : Waiter). p ≡ Waiter.joins → ⊥) (w == 0) (λ e x. absurd (cc))
      (λ e x. absurd (cc))

Step-IsOrderly : {a b : System} → Step a b → IsOrderly a → IsOrderly b
unfolding request_all_immediate note_finalization_begin execute_worker_handoff replace_cleanup_fn
    notify_join_ready unregister_runtime
Step-IsOrderly {a} (Step.registers id g i c may) o =
    admit-IsOrderly a (make_slot id g i c) (id ∷ a.registered) may o
Step-IsOrderly {a} {b} (Step.unregisters id) o =
    local-IsOrderly a b
      (record {
        state = refl;
        thread = refl;
        exited = refl;
        stop = refl;
        slots = unregister-nil id a.registry.slots;
      })
      refl o
Step-IsOrderly {a} (Step.closes now) o = record {
  closing = close_registration-IsClosing now a.registry o.closing;
  joining =
      λ i e. let (s, n) = o.joining i e in rw (close_registration-open now a.registry n) (s, n);
}
Step-IsOrderly {a} {b} Step.escalates o =
    local-IsOrderly a b
      (record { state = refl; thread = refl; exited = refl; stop = refl; slots = λ e. e }) refl o
Step-IsOrderly {a} {b} Step.begins o =
    local-IsOrderly a b
      (record { state = refl; thread = refl; exited = refl; stop = refl; slots = λ e. e }) refl o
Step-IsOrderly {a} {b} (Step.injects_failure fail) o =
    local-IsOrderly a b
      (record { state = refl; thread = refl; exited = refl; stop = refl; slots = λ e. e }) refl o
Step-IsOrderly {a} {b} (Step.hands_over id retained cleanup) o =
    local-IsOrderly a b
      (record {
        state = refl;
        thread = refl;
        exited = refl;
        stop = refl;
        slots = modify_slot-nil id _ a.registry.slots;
      })
      refl o
Step-IsOrderly {a} {b} (Step.replaces id cleanup) o =
    local-IsOrderly a b
      (record {
        state = refl;
        thread = refl;
        exited = refl;
        stop = refl;
        slots = modify_slot-nil id _ a.registry.slots;
      })
      refl o
Step-IsOrderly {a} {b} (Step.notifies id) o =
    local-IsOrderly a b
      (record {
        state = refl;
        thread = refl;
        exited = refl;
        stop = refl;
        slots = modify_slot-nil id _ a.registry.slots;
      })
      refl o
Step-IsOrderly {a} {b} (Step.injects fail) o =
    local-IsOrderly a b
      (record { state = refl; thread = refl; exited = refl; stop = refl; slots = λ e. e }) refl o
Step-IsOrderly {a} (Step.coordinator_exits r on stays e) o =
    rw (coordinator_turn-exits a.registry r e) (coordinator_exits-IsOrderly a r e o)
Step-IsOrderly {a} (Step.coordinator_joins r works on stays e) o =
    let (reg, ws) = coordinator_turn-joins a.registry r works e in
    rw (← reg) (
      local-IsOrderly a
        (record a { registry = (claim_ready a.registry).0; joined = work_ids works ++ a.joined })
        (claim_ready-IsLocal a.registry) refl o)
Step-IsOrderly {a} (Step.calls i w e) o = starts-IsOrderly a i (start_wait w) (start_wait-late w) o
Step-IsOrderly {a} (Step.calls_for i w timeout e) o =
    starts-IsOrderly a i (start_wait_for w timeout) (start_wait_for-late w timeout) o
Step-IsOrderly {a} (Step.waits i now) o = waits-IsOrderly a i now o

pub Runs-IsOrderly : {a b : System} → IsOrderly a → Runs a b → IsOrderly b
Runs-IsOrderly o Runs.here = o
Runs-IsOrderly o (Runs.next r st) = Step-IsOrderly st (Runs-IsOrderly o r)

pub make_system-IsOrderly : IsOrderly make_system
make_system-IsOrderly = record {
  closing = record {
    vacant = λ e. refl;
    over = λ e. absurd (cc);
    final = λ e. refl;
    runs_on = refl;
  };
  joining = λ i e. absurd (cc);
}

not_open : (st : RegistrationState) → is_finalized st ≡ true → is_open st ≡ true → ⊥
not_open st e o = ground arith

-- What no step changes once the registry is finalized.
Step-final :
    {a b : System}
    → Step a b
    → IsOrderly a
    → is_finalized a.registry.state ≡ true
    → (is_finalized b.registry.state ≡ true) × (b.registered ≡ a.registered)
unfolding request_all_immediate note_finalization_begin execute_worker_handoff replace_cleanup_fn
    notify_join_ready unregister_runtime claim_ready
Step-final {a} (Step.registers id g i c may) o e =
    absurd (not_open a.registry.state e (ground arith))
Step-final (Step.unregisters id) o e = (e, refl)
Step-final {a} (Step.closes now) o e = (
  ap (λ (r : ReaperRegistry). is_finalized r.state)
        (close_registration-open now a.registry (ground arith))
      ∙ e,
  refl,
)
Step-final Step.escalates o e = (e, refl)
Step-final Step.begins o e = (e, refl)
Step-final (Step.injects_failure fail) o e = (e, refl)
Step-final (Step.hands_over id retained cleanup) o e = (e, refl)
Step-final (Step.replaces id cleanup) o e = (e, refl)
Step-final (Step.notifies id) o e = (e, refl)
Step-final (Step.injects fail) o e = (e, refl)
Step-final {a} (Step.coordinator_exits r on stays q) o e = (
  ap (λ (t : ReaperRegistry). is_finalized t.state) (coordinator_turn-exits a.registry r q) ∙ e,
  refl,
)
Step-final {a} (Step.coordinator_joins r works on stays q) o e = (
  ap (λ (t : ReaperRegistry). is_finalized t.state)
        (sym (coordinator_turn-joins a.registry r works q).0)
      ∙ e,
  refl,
)
Step-final (Step.calls i w q) o e = (e, refl)
Step-final (Step.calls_for i w timeout q) o e = (e, refl)
Step-final {a} (Step.waits i now) o e =
    ((waiter_step-IsPatient now a.registry o.closing (a.waiters i) (o.joining i)).finished e, refl)

stays_final :
    {a b : System}
    → IsOrderly a
    → is_finalized a.registry.state ≡ true
    → Runs a b
    → (is_finalized b.registry.state ≡ true) × (b.registered ≡ a.registered)
stays_final o e Runs.here = (e, refl)
stays_final o e (Runs.next r st) =
    let (f, same) = stays_final o e r in
    let (g, again) = Step-final st (Runs-IsOrderly o r) f in (g, again ∙ same)

pub nothing_counted : (xs : List ℕ) → ((x : ℕ) → count x xs ≡ 0) → xs ≡ []
nothing_counted [] h = refl
nothing_counted (y ∷ ys) h = absurd (let z = h y in ground arith)

-- Once the registry is finalized, it stays so, whatever is called afterwards and however the threads
-- interleave: no runtime is registered and no slot is held then, and no registration is let in.
pub finalized_for_good :
    {a b : System}
    → Runs make_system a
    → is_finalized a.registry.state ≡ true
    → Runs a b
    → (is_finalized b.registry.state ≡ true)
      × (b.registry.registered_ids ≡ [])
      × (b.registry.slots ≡ [])
      × (b.registered ≡ a.registered)
finalized_for_good {a} {b} before e later =
    let orderly = Runs-IsOrderly make_system-IsOrderly before in
    let (f, same) = stays_final orderly e later in
    let none_held = (Runs-IsOrderly orderly later).closing.final f in
    let booked = Runs-IsBooked_later (Runs-IsBooked before) later in
    (f, nothing_counted _ (λ x. booked.counted x ∙ rw none_held refl), none_held, same)
