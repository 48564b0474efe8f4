-- ===== src/Reaper/Completion.antt =====
-- Finalization comes to its end once every runtime has been reported join-ready.
use astra_scheduler.Base.{
  ℕ, ◌≡◌, refl, ap, ◌∙◌, Bool, true, false, not, ◌&&◌, List, [], ◌∷◌, arith, count,
}
use astra_scheduler.Reaper.{
  RegistrationState, HandoffCapabilitySlot, ReaperRegistry, is_finalizing, is_finalized, is_empty,
  erase_id, mark_finalized, is_claimable, has_claimable, ReadyWork, make_work, claim_slots, Turn,
  is_finished, claim_ready, coordinator_turn, is_over, start_join, finish_join,
}
use astra_scheduler.Reaper.Waiting.{Waiter, wait_step}
use astra_scheduler.Reaper.Running.{work_ids}
use astra_scheduler.Reaper.Tallies.{slot_ids, claim_slots-ids}
use astra_scheduler.Reaper.Finalization.{nothing_counted}

abbrev pub all_ready : List HandoffCapabilitySlot → Bool
all_ready [] = true
all_ready (s ∷ ss) = s.join_ready && not s.join_claimed && all_ready ss

abbrev pub all_works : List HandoffCapabilitySlot → List ReadyWork
all_works [] = []
all_works (s ∷ ss) = make_work s ∷ all_works ss

claim_slots-all_ready :
    (st : RegistrationState) (ss : List HandoffCapabilitySlot) (ids : List ℕ)
    → is_finalizing st ≡ true
    → all_ready ss ≡ true
    → ((claim_slots st ss ids).works ≡ all_works ss) × ((claim_slots st ss ids).slots ≡ [])
unfolding claim_slots
claim_slots-all_ready st [] ids f h = (refl, refl)
claim_slots-all_ready st (s ∷ ss) ids f h =
    let c : is_claimable st s ≡ true = ground arith in
    let (w, e) = claim_slots-all_ready st ss (erase_id s.runtime_id ids) f (ground arith) in
    (rw (c, w) refl, rw (c, e) refl)

work_ids-all_works : (ss : List HandoffCapabilitySlot) → work_ids (all_works ss) ≡ slot_ids ss
work_ids-all_works [] = refl
work_ids-all_works (s ∷ ss) = ap (λ (l : List ℕ). s.runtime_id ∷ l) (work_ids-all_works ss)

-- A registry that is being finalized, whose coordinator runs.
pub record IsWindingDown (r : ReaperRegistry) : Type 0 where
  pub finalizing : is_finalizing r.state ≡ true
  pub thread : r.coordinator_thread ≡ true
  pub stays : r.coordinator_stop ≡ false
  pub healthy : r.inject_coordinator_fail ≡ false
  pub free : r.coordinator_join_in_progress ≡ false
  pub counted : (x : ℕ) → count x r.registered_ids ≡ count x (slot_ids r.slots)

has_claimable-all_ready :
    (st : RegistrationState) (ss : List HandoffCapabilitySlot)
    → is_finalizing st ≡ true
    → all_ready ss ≡ true
    → is_empty ss ≡ false
    → has_claimable st ss ≡ true
has_claimable-all_ready st [] f h n = absurd (cc)
has_claimable-all_ready st (s ∷ ss) f h n = ground arith

claimed_all :
    (r : ReaperRegistry)
    → IsWindingDown r
    → all_ready r.slots ≡ true
    → ((claim_ready r).1 ≡ all_works r.slots)
      × ((claim_ready r).0.slots ≡ [])
      × ((claim_ready r).0.registered_ids ≡ [])
unfolding claim_ready
claimed_all r w h =
    let (works, slots) = claim_slots-all_ready r.state r.slots r.registered_ids w.finalizing h in
    (
      works,
      slots,
      nothing_counted _ (λ x.
          let a = claim_slots-ids x r.state r.slots r.registered_ids in
          let b = w.counted x in a ∙ rw (works, work_ids-all_works r.slots) (omega arith)),
    )

turn-joins :
    (r : ReaperRegistry)
    → IsWindingDown r
    → all_ready r.slots ≡ true
    → is_empty r.slots ≡ false
    → coordinator_turn r ≡ Turn.joins (claim_ready r).0 (claim_ready r).1
unfolding coordinator_turn
turn-joins r w h n =
    let a = w.finalizing in
    let b = w.stays in
    let c = w.healthy in let d = has_claimable-all_ready r.state r.slots a h n in ground arith

turn-exits :
    (r : ReaperRegistry)
    → is_finished r ≡ true
    → r.coordinator_stop ≡ false
    → r.inject_coordinator_fail ≡ false
    → coordinator_turn r ≡ Turn.exits (record r { coordinator_exited = true })
unfolding coordinator_turn
turn-exits r a b c = ground arith

claim_ready-keeps :
    (r : ReaperRegistry)
    → ((claim_ready r).0.state ≡ r.state)
      × ((claim_ready r).0.coordinator_stop ≡ r.coordinator_stop)
      × ((claim_ready r).0.inject_coordinator_fail ≡ r.inject_coordinator_fail)
      × ((claim_ready r).0.coordinator_thread ≡ r.coordinator_thread)
      × ((claim_ready r).0.coordinator_join_in_progress ≡ r.coordinator_join_in_progress)
unfolding claim_ready
claim_ready-keeps r = (refl, refl, refl, refl, refl)

wait-joins :
    (now : ℕ) (u : ReaperRegistry)
    → is_finalized u.state ≡ false
    → u.coordinator_thread ≡ true
    → is_over u ≡ true
    → u.coordinator_join_in_progress ≡ false
    → wait_step now Waiter.loops u ≡ (start_join u, Waiter.joins)
unfolding wait_step
wait-joins now u a b c d = ground arith

-- A registry that is being finalized, that holds runtimes all of which have been reported join-ready
-- and are not claimed, and whose coordinator runs and is not being joined: the coordinator's next turn
-- joins all of them, in order, its turn after that ends it, and a thread that waits then joins the
-- coordinator and returns from a finalized registry.
pub finalization_completes :
    (now : ℕ) (r : ReaperRegistry)
    → IsWindingDown r
    → all_ready r.slots ≡ true
    → is_empty r.slots ≡ false
    → let t = (claim_ready r).0 in
      let u = record t { coordinator_exited = true } in
      (coordinator_turn r ≡ Turn.joins t (all_works r.slots))
      × (coordinator_turn t ≡ Turn.exits u)
      × (wait_step now Waiter.loops u ≡ (start_join u, Waiter.joins))
      × (is_finalized (wait_step now Waiter.joins (start_join u)).0.state ≡ true)
      × ((wait_step now Waiter.joins (start_join u)).1 ≡ Waiter.completed)
unfolding wait_step finish_join mark_finalized
finalization_completes now r w h n =
    let t = (claim_ready r).0 in
    let (works, slots, ids) = claimed_all r w h in
    let (state, stop, fail, thread, joined) = claim_ready-keeps r in
    let f : is_finalizing t.state ≡ true = ap is_finalizing state ∙ w.finalizing in
    let e : is_empty t.slots ≡ true = ap is_empty slots in
    let g : is_empty t.registered_ids ≡ true = ap is_empty ids in
    (
      turn-joins r w h n ∙ ap (Turn.joins t) works,
      turn-exits t (rw (f, e, g) refl) (stop ∙ w.stays) (fail ∙ w.healthy),
      wait-joins now (record t { coordinator_exited = true }) (ground arith) (thread ∙ w.thread)
          (rw (e, g) refl) (joined ∙ w.free),
      refl,
      refl,
    )
