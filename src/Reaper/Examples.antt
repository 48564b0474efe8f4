-- ===== src/Reaper/Examples.antt =====
-- Runs of the registry on concrete runtimes.
use astra_scheduler.Base.{ℕ, ◌≡◌, refl, true, none, some, List, [], ◌∷◌}
use astra_scheduler.Reaper.{
  ReaperRegistry, is_finalized, make_slot, admit, mark_finalized, close_registration,
  execute_worker_handoff, notify_join_ready, claim_slots, Turn, claim_ready, coordinator_turn,
  start_join, make_registry,
}
use astra_scheduler.Reaper.Waiting.{Waiter, wait_step}
use astra_scheduler.Reaper.Running.{System, Step, make_system, Runs}
use astra_scheduler.Reaper.Accounting.{IsBooked, Runs-IsBooked}
use astra_scheduler.Reaper.Finalization.{finalized_for_good}
use astra_scheduler.Reaper.Completion.{all_works, IsWindingDown, finalization_completes}

-- Two runtimes, of which one is handed over, reported and joined.
abbrev two_registered : ReaperRegistry
two_registered =
    admit (make_slot 6 none none (some 60))
      (admit (make_slot 5 (some 51) none (some 50)) make_registry)

abbrev one_ready : ReaperRegistry
one_ready = notify_join_ready 5 (execute_worker_handoff 5 (some 1) (some 52) two_registered)

joined_run : Runs make_system (record make_system {
  registry = (claim_ready one_ready).0;
  registered = 6 ∷ 5 ∷ [];
  ready = 5 ∷ [];
  joined = 5 ∷ [];
})
unfolding coordinator_turn claim_ready claim_slots admit execute_worker_handoff notify_join_ready
joined_run =
    Runs.next
      (Runs.next
        (Runs.next
          (Runs.next (Runs.next Runs.here (Step.registers 5 (some 51) none (some 50) refl))
            (Step.registers 6 none none (some 60) refl))
          (Step.hands_over 5 (some 1) (some 52)))
        (Step.notifies 5))
      (Step.coordinator_joins (claim_ready one_ready).0 (claim_ready one_ready).1 refl refl refl)

Runs-IsBooked_example : IsBooked (record make_system {
  registry = (claim_ready one_ready).0;
  registered = 6 ∷ 5 ∷ [];
  ready = 5 ∷ [];
  joined = 5 ∷ [];
})
Runs-IsBooked_example = Runs-IsBooked joined_run

-- A registry that is closed before anything is registered is finalized at once.
abbrev closed : System
closed = record make_system { registry = (close_registration 9 make_registry).0 }

closed_run : Runs make_system closed
closed_run = Runs.next Runs.here (Step.closes 9)

later_run : Runs closed (record closed { registry = (close_registration 12 closed.registry).0 })
later_run = Runs.next Runs.here (Step.closes 12)

finalized_for_good_example :
    let b = (close_registration 12 closed.registry).0 in
    (is_finalized b.state ≡ true)
    × (b.registered_ids ≡ [])
    × (b.slots ≡ [])
    × (◌≡◌ {A = List ℕ} [] [])
unfolding close_registration mark_finalized
finalized_for_good_example = finalized_for_good closed_run refl later_run

-- Both runtimes are reported while the registry is being finalized.
abbrev winding_down : ReaperRegistry
winding_down = (close_registration 9 (notify_join_ready 6 (notify_join_ready 5 two_registered))).0

winding_down-IsWindingDown : IsWindingDown winding_down
unfolding close_registration admit notify_join_ready
winding_down-IsWindingDown = record {
  finalizing = refl;
  thread = refl;
  stays = refl;
  healthy = refl;
  free = refl;
  counted = λ x. refl;
}

finalization_completes_example :
    let t = (claim_ready winding_down).0 in
    let u = record t { coordinator_exited = true } in
    (coordinator_turn winding_down ≡ Turn.joins t (all_works winding_down.slots))
    × (coordinator_turn t ≡ Turn.exits u)
    × (wait_step 20 Waiter.loops u ≡ (start_join u, Waiter.joins))
    × (is_finalized (wait_step 20 Waiter.joins (start_join u)).0.state ≡ true)
    × ((wait_step 20 Waiter.joins (start_join u)).1 ≡ Waiter.completed)
unfolding close_registration admit notify_join_ready
finalization_completes_example =
    finalization_completes 20 winding_down winding_down-IsWindingDown refl refl
