-- ===== src/Reaper/Accounting.antt =====
-- Where each registered runtime is: in a slot, withdrawn, or joined, which happens once.
use astra_scheduler.Base.{
  ℕ, ◌+◌, ◌≤◌, ◌<◌, ◌≡◌, refl, true, false, List, [], ◌∷◌, ◌++◌, arith, dec_lt, if◌then◌else◌,
  count, count-append, if_then_else_lem,
}
use astra_scheduler.Reaper.{
  HandoffCapabilitySlot, ReaperRegistry, modify_slot, has_slot, ensure_coordinator_started,
  make_slot, admit, unregister_runtime, mark_finalized, close_registration, request_all_immediate,
  note_finalization_begin, execute_worker_handoff, replace_cleanup_fn, notify_join_ready, ReadyWork,
  claim_slots, Turn, claim_ready, coordinator_turn, finish_join,
}
use astra_scheduler.Reaper.Waiting.{Waiter, wait_step, wait_for_step, is_timed, waiter_step}
use astra_scheduler.Reaper.Running.{System, work_ids, Step, make_system, Runs}
use astra_scheduler.Reaper.Tallies.{
  slot_ids, count-erase_id, slot_ids-append, slot_ids-erase_slot, has_slot-count,
  slot_ids-modify_slot, claim_slots-ids, claim_slots-slots, Reported, Reported-weaken,
  Reported-append, Reported-erase_slot, Reported-modify_slot, Reported-claim_slots,
  claimed-Reported,
}

pub record IsBooked (a : System) : Type 0 where
  pub counted : (x : ℕ) → count x a.registry.registered_ids ≡ count x (slot_ids a.registry.slots)
  pub kept :
      (x : ℕ)
      → count x a.registered
        ≡ count x (slot_ids a.registry.slots) + count x a.withdrawn + count x a.joined
  pub reported : Reported a.ready a.registry.slots
  pub joined_ready : (x : ℕ) → 0 < count x a.joined → 0 < count x a.ready

-- What an operation that moves no runtime leaves as it is.
abbrev pub KeepsSlots : ReaperRegistry → ReaperRegistry → Type 0
KeepsSlots r t = (t.slots ≡ r.slots) × (t.registered_ids ≡ r.registered_ids)

pub close_registration-keeps :
    (now : ℕ) (r : ReaperRegistry) → KeepsSlots r (close_registration now r).0
unfolding close_registration mark_finalized
close_registration-keeps now r = (ground arith, ground arith)

wait_step-keeps : (now : ℕ) (p : Waiter) (r : ReaperRegistry) → KeepsSlots r (wait_step now p r).0
unfolding wait_step mark_finalized finish_join
wait_step-keeps now p r = (ground arith, ground arith)

wait_for_step-keeps :
    (now : ℕ) (p : Waiter) (r : ReaperRegistry) → KeepsSlots r (wait_for_step now p r).0
unfolding wait_for_step mark_finalized finish_join
wait_for_step-keeps now p r = (ground arith, ground arith)

pub waiter_step-keeps :
    (now : ℕ) (p : Waiter) (r : ReaperRegistry) → KeepsSlots r (waiter_step now p r).0
unfolding waiter_step
waiter_step-keeps now p r =
    if_then_else_lem (λ (o : ReaperRegistry × Waiter). KeepsSlots r o.0) (is_timed p)
      (λ e. wait_for_step-keeps now p r) (λ e. wait_step-keeps now p r)

pub coordinator_turn-exits :
    (r t : ReaperRegistry)
    → coordinator_turn r ≡ Turn.exits t
    → t ≡ record r { coordinator_exited = true }
unfolding coordinator_turn
coordinator_turn-exits r t e = ground arith

pub coordinator_turn-joins :
    (r t : ReaperRegistry) (works : List ReadyWork)
    → coordinator_turn r ≡ Turn.joins t works
    → ((claim_ready r).0 ≡ t) × ((claim_ready r).1 ≡ works)
unfolding coordinator_turn
coordinator_turn-joins r t works e = (ground arith, ground arith)

keeps-IsBooked :
    (a : System) (t : ReaperRegistry) (waiters : ℕ → Waiter)
    → KeepsSlots a.registry t
    → IsBooked a
    → IsBooked (record a { registry = t; waiters = waiters })
keeps-IsBooked a t waiters (same, ids) b = record {
  counted = λ x. rw (same, ids) (b.counted x);
  kept = λ x. rw same (b.kept x);
  reported = rw same b.reported;
  joined_ready = b.joined_ready;
}

-- A change of one slot that keeps its identity.
modifies-IsBooked :
    (a : System) (t : ReaperRegistry) (id : ℕ) (f : HandoffCapabilitySlot → HandoffCapabilitySlot)
    (ready : List ℕ)
    → (t.slots ≡ modify_slot id f a.registry.slots) × (t.registered_ids ≡ a.registry.registered_ids)
    → ((s : HandoffCapabilitySlot) → (f s).runtime_id ≡ s.runtime_id)
    → Reported ready (modify_slot id f a.registry.slots)
    → ((x : ℕ) → count x a.ready ≤ count x ready)
    → IsBooked a
    → IsBooked (record a { registry = t; ready = ready })
modifies-IsBooked a t id f ready (e, ids) same reported more b =
    let list = slot_ids-modify_slot id f a.registry.slots same in
    record {
      counted = λ x. rw (e, ids, list) (b.counted x);
      kept = λ x. rw (e, list) (b.kept x);
      reported = rw e reported;
      joined_ready = λ x pos. let y = b.joined_ready x pos in let z = more x in omega arith;
    }

admit-IsBooked :
    (a : System) (slot : HandoffCapabilitySlot)
    → slot.join_ready ≡ false
    → IsBooked a
    → IsBooked
        (record a { registry = admit slot a.registry; registered = slot.runtime_id ∷ a.registered })
unfolding admit
admit-IsBooked a slot e b =
    let r = a.registry in
    let s = ensure_coordinator_started r in
    let slots : s.slots ≡ r.slots = ground arith in
    let ids : s.registered_ids ≡ r.registered_ids = ground arith in
    record {
      counted = λ x.
          rw (slots, ids, slot_ids-append r.slots slot)
            (let y = b.counted x in
              omega (
                arith,
                count-append x r.registered_ids (slot.runtime_id ∷ []),
                count-append x (slot_ids r.slots) (slot.runtime_id ∷ []),
              ));
      kept = λ x.
          rw (slots, slot_ids-append r.slots slot)
            (let y = b.kept x in
              omega (arith, count-append x (slot_ids r.slots) (slot.runtime_id ∷ [])));
      reported = rw slots (Reported-append a.ready r.slots slot e b.reported);
      joined_ready = b.joined_ready;
    }

unregister-IsBooked :
    (a : System) (id : ℕ)
    → IsBooked a
    → IsBooked (record a {
      registry = unregister_runtime id a.registry;
      withdrawn = if has_slot id a.registry.slots then id ∷ a.withdrawn else a.withdrawn;
    })
unfolding unregister_runtime
unregister-IsBooked a id b =
    let r = a.registry in
    record {
      counted = λ x. rw (slot_ids-erase_slot id r.slots) (
          let y = b.counted x in
          omega
            (arith, count-erase_id x id r.registered_ids, count-erase_id x id (slot_ids r.slots)));
      kept = λ x.
          rw (slot_ids-erase_slot id r.slots, has_slot-count id r.slots)
            (let y = b.kept x in let z = count-erase_id x id (slot_ids r.slots) in ground arith);
      reported = Reported-erase_slot a.ready id r.slots b.reported;
      joined_ready = b.joined_ready;
    }

claim-IsBooked :
    (a : System)
    → IsBooked a
    → IsBooked (record a {
      registry = (claim_ready a.registry).0;
      joined = work_ids (claim_ready a.registry).1 ++ a.joined;
    })
unfolding claim_ready
claim-IsBooked a b =
    let r = a.registry in
    let works = work_ids (claim_slots r.state r.slots r.registered_ids).works in
    record {
      counted = λ x.
          let y = b.counted x in
          omega (
            arith,
            claim_slots-ids x r.state r.slots r.registered_ids,
            claim_slots-slots x r.state r.slots r.registered_ids,
          );
      kept = λ x.
          let y = b.kept x in
          omega (
            arith,
            claim_slots-slots x r.state r.slots r.registered_ids,
            count-append x works a.joined,
          );
      reported = Reported-claim_slots a.ready r.state r.slots r.registered_ids b.reported;
      joined_ready = λ x pos. elim (dec_lt 0 (count x a.joined)) [
        | yes old ↦ b.joined_ready x old
        | no none_old ↦
            claimed-Reported a.ready x r.state r.slots r.registered_ids b.reported
              (let y = count-append x works a.joined in omega arith)
      ];
    }

Step-IsBooked : {a b : System} → Step a b → IsBooked a → IsBooked b
unfolding request_all_immediate note_finalization_begin execute_worker_handoff replace_cleanup_fn
    notify_join_ready
Step-IsBooked {a} (Step.registers id g i c may) b = admit-IsBooked a (make_slot id g i c) refl b
Step-IsBooked {a} (Step.unregisters id) b = unregister-IsBooked a id b
Step-IsBooked {a} (Step.closes now) b =
    keeps-IsBooked a _ a.waiters (close_registration-keeps now a.registry) b
Step-IsBooked {a} Step.escalates b = keeps-IsBooked a _ a.waiters (refl, refl) b
Step-IsBooked {a} Step.begins b = keeps-IsBooked a _ a.waiters (refl, refl) b
Step-IsBooked {a} (Step.injects_failure fail) b = keeps-IsBooked a _ a.waiters (refl, refl) b
Step-IsBooked {a} (Step.hands_over id retained cleanup) b =
    let f = λ (s : HandoffCapabilitySlot). record s {
      handoff_executed = true;
      retained_state = retained;
      cleanup_fn = cleanup;
    } in
    modifies-IsBooked a (execute_worker_handoff id retained cleanup a.registry) id f a.ready
      (refl, refl) (λ s. refl)
      (Reported-modify_slot a.ready id f a.registry.slots (λ s e h j. h j) b.reported)
      (λ x. omega arith) b
Step-IsBooked {a} (Step.replaces id cleanup) b =
    let f = λ (s : HandoffCapabilitySlot). record s { cleanup_fn = cleanup } in
    modifies-IsBooked a (replace_cleanup_fn id cleanup a.registry) id f a.ready (refl, refl)
      (λ s. refl) (Reported-modify_slot a.ready id f a.registry.slots (λ s e h j. h j) b.reported)
      (λ x. omega arith) b
Step-IsBooked {a} (Step.notifies id) b =
    let f = λ (s : HandoffCapabilitySlot). record s { join_ready = true } in
    modifies-IsBooked a (notify_join_ready id a.registry) id f (id ∷ a.ready) (refl, refl)
      (λ s. refl)
      (Reported-modify_slot (id ∷ a.ready) id f a.registry.slots (λ s e h j. rw e (ground arith))
        (Reported-weaken a.ready id a.registry.slots b.reported))
      (λ x. omega arith) b
Step-IsBooked {a} (Step.injects fail) b = keeps-IsBooked a _ a.waiters (refl, refl) b
Step-IsBooked {a} (Step.coordinator_exits r on stays e) b =
    let same = coordinator_turn-exits a.registry r e in
    keeps-IsBooked a r a.waiters (rw same refl, rw same refl) b
Step-IsBooked {a} (Step.coordinator_joins r works on stays e) b =
    let (reg, ws) = coordinator_turn-joins a.registry r works e in
    rw (← reg, ← ws) (claim-IsBooked a b)
Step-IsBooked {a} (Step.calls i w e) b = keeps-IsBooked a a.registry _ (refl, refl) b
Step-IsBooked {a} (Step.calls_for i w timeout e) b = keeps-IsBooked a a.registry _ (refl, refl) b
Step-IsBooked {a} (Step.waits i now) b =
    keeps-IsBooked a _ _ (waiter_step-keeps now (a.waiters i) a.registry) b

-- From the start on, whatever threads register, withdraw, hand over and report runtimes, close the
-- registration and wait, and whenever the coordinator turns: each registration of a runtime is in a
-- slot, has been withdrawn, or has been joined, exactly one of the three, so that no runtime is joined
-- twice; the identities and the slots agree; and only runtimes reported join-ready are joined.
pub Runs-IsBooked : {a : System} → Runs make_system a → IsBooked a
Runs-IsBooked Runs.here = record {
  counted = λ x. refl;
  kept = λ x. refl;
  reported = tt;
  joined_ready = λ x pos. pos;
}
Runs-IsBooked (Runs.next r st) = Step-IsBooked st (Runs-IsBooked r)

pub Runs-IsBooked_later : {a b : System} → IsBooked a → Runs a b → IsBooked b
Runs-IsBooked_later booked Runs.here = booked
Runs-IsBooked_later booked (Runs.next r st) = Step-IsBooked st (Runs-IsBooked_later booked r)
