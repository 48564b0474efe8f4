-- ===== src/Reaper/Running.antt =====
-- The registry with the threads that use it, and what has happened to it so far.
use astra_scheduler.Base.{
  ℕ, ◌≡◌, Bool, true, false, Option, List, [], ◌∷◌, ◌++◌, if◌then◌else◌, update,
}
use astra_scheduler.Reaper.{
  ReaperRegistry, has_slot, make_slot, may_register, admit, unregister_runtime, close_registration,
  request_all_immediate, note_finalization_begin, execute_worker_handoff, replace_cleanup_fn,
  notify_join_ready, ReadyWork, Turn, coordinator_turn, make_registry,
}
use astra_scheduler.Reaper.Waiting.{Waiter, start_wait, start_wait_for, waiter_step}

-- The registry, the threads that wait, and the runtimes registered, withdrawn, reported join-ready and
-- joined so far, the latest first.
pub record System : Type 0 where
  pub registry : ReaperRegistry
  pub waiters : ℕ → Waiter
  pub registered : List ℕ
  pub withdrawn : List ℕ
  pub ready : List ℕ
  pub joined : List ℕ

abbrev pub work_ids : List ReadyWork → List ℕ
work_ids [] = []
work_ids (w ∷ ws) = w.runtime_id ∷ work_ids ws

-- A call of the registry by some thread, a turn of the coordinator, or a step of a waiter.
pub data Step (a : System) : System → Type 0 where
  registers :
      (id : ℕ) (graceful immediate cleanup : Option ℕ)
      → may_register a.registry ≡ true
      → Step a (record a {
        registry = admit (make_slot id graceful immediate cleanup) a.registry;
        registered = id ∷ a.registered;
      })
  unregisters :
      (id : ℕ)
      → Step a (record a {
        registry = unregister_runtime id a.registry;
        withdrawn = if has_slot id a.registry.slots then id ∷ a.withdrawn else a.withdrawn;
      })
  closes : (now : ℕ) → Step a (record a { registry = (close_registration now a.registry).0 })
  escalates : Step a (record a { registry = (request_all_immediate a.registry).0 })
  begins : Step a (record a { registry = note_finalization_begin a.registry })
  hands_over :
      (id : ℕ) (retained cleanup : Option ℕ)
      → Step a (record a { registry = execute_worker_handoff id retained cleanup a.registry })
  replaces :
      (id : ℕ) (cleanup : Option ℕ)
      → Step a (record a { registry = replace_cleanup_fn id cleanup a.registry })
  notifies :
      (id : ℕ)
      → Step a (record a { registry = notify_join_ready id a.registry; ready = id ∷ a.ready })
  injects :
      (fail : Bool)
      → Step a (record a { registry = record a.registry { inject_reservation_fail = fail } })
  injects_failure :
      (fail : Bool)
      → Step a (record a { registry = record a.registry { inject_coordinator_fail = fail } })
  coordinator_exits :
      (r : ReaperRegistry)
      → a.registry.coordinator_thread ≡ true
      → a.registry.coordinator_exited ≡ false
      → coordinator_turn a.registry ≡ Turn.exits r
      → Step a (record a { registry = r })
  coordinator_joins :
      (r : ReaperRegistry) (works : List ReadyWork)
      → a.registry.coordinator_thread ≡ true
      → a.registry.coordinator_exited ≡ false
      → coordinator_turn a.registry ≡ Turn.joins r works
      → Step a (record a { registry = r; joined = work_ids works ++ a.joined })
  calls :
      (i worker_runtime : ℕ)
      → a.waiters i ≡ Waiter.idle
      → Step a (record a { waiters = update a.waiters i (start_wait worker_runtime) })
  calls_for :
      (i worker_runtime timeout : ℕ)
      → a.waiters i ≡ Waiter.idle
      → Step a (record a { waiters = update a.waiters i (start_wait_for worker_runtime timeout) })
  waits :
      (i now : ℕ)
      → Step a (record a {
        registry = (waiter_step now (a.waiters i) a.registry).0;
        waiters = update a.waiters i (waiter_step now (a.waiters i) a.registry).1;
      })

abbrev pub make_system : System
make_system = record {
  registry = make_registry;
  waiters = λ i. Waiter.idle;
  registered = [];
  withdrawn = [];
  ready = [];
  joined = [];
}

-- What runs from one state on.
pub data Runs (a : System) : System → Type 0 where
  here : Runs a a
  next : {b c : System} → Runs a b → Step b c → Runs a c
