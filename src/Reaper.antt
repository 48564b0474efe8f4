-- ===== src/Reaper.antt =====
-- ReaperRegistry of src/lifecycle/reaper_registry.cpp: the runtimes that are registered, the slots that
-- hold them when their last handle is gone, the coordinator that joins their workers, and the waits for
-- the end of finalization. A callback and a retained state are numbers; a clock's reading of 0 is the
-- epoch, which stands for "not yet".
pub mod Waiting
pub mod Running
pub mod Tallies
pub mod Accounting
pub mod Closing
pub mod Finalization
pub mod Completion
pub mod Snapshots
pub mod Gauging
pub mod Examples
use astra_scheduler.Base.{
  ℕ, ◌+◌, ◌-◌, Bool, true, false, not, ◌&&◌, ◌||◌, Option, none, some, List, [], ◌∷◌, ◌++◌, ◌==◌,
  if◌then◌else◌, length, set, add64,
}

pub data RegistrationState : Type 0 where
  opened finalizing finalized : RegistrationState

pub record HandoffCapabilitySlot : Type 0 where
  pub runtime_id : ℕ
  pub handoff_executed : Bool
  pub join_ready : Bool
  pub join_claimed : Bool
  pub retained_state : Option ℕ
  pub cleanup_fn : Option ℕ
  pub request_graceful_fn : Option ℕ
  pub request_immediate_fn : Option ℕ

pub record ReaperRegistry : Type 0 where
  pub state : RegistrationState
  pub registered_ids : List ℕ
  pub slots : List HandoffCapabilitySlot
  pub coordinator_thread : Bool
  pub coordinator_stop : Bool
  pub coordinator_exited : Bool
  pub coordinator_join_in_progress : Bool
  pub inject_reservation_fail : Bool
  pub inject_coordinator_fail : Bool
  pub total_registrations : ℕ
  pub total_handoffs : ℕ
  pub total_joins : ℕ
  pub finalization_begin_calls : ℕ
  pub finalization_wait_timeouts : ℕ
  pub finalization_escalations : ℕ
  pub finalization_started_at : ℕ
  pub finalization_completed_at : ℕ

abbrev pub is_open : RegistrationState → Bool
is_open RegistrationState.opened = true
is_open _ = false

abbrev pub is_finalizing : RegistrationState → Bool
is_finalizing RegistrationState.finalizing = true
is_finalizing _ = false

abbrev pub is_finalized : RegistrationState → Bool
is_finalized RegistrationState.finalized = true
is_finalized _ = false

abbrev pub is_empty {ℓ} : {A : Type ℓ} → List A → Bool
is_empty [] = true
is_empty (x ∷ xs) = false

-- The first element equal to a number is erased, if there is one.
abbrev pub erase_id : ℕ → List ℕ → List ℕ
erase_id id [] = []
erase_id id (x ∷ xs) = if x == id then xs else x ∷ erase_id id xs

abbrev pub erase_slot : ℕ → List HandoffCapabilitySlot → List HandoffCapabilitySlot
erase_slot id [] = []
erase_slot id (s ∷ ss) = if s.runtime_id == id then ss else s ∷ erase_slot id ss

-- A change of the first slot of a runtime.
abbrev pub modify_slot :
    ℕ
    → (HandoffCapabilitySlot → HandoffCapabilitySlot)
    → List HandoffCapabilitySlot
    → List HandoffCapabilitySlot
modify_slot id f [] = []
modify_slot id f (s ∷ ss) = if s.runtime_id == id then f s ∷ ss else s ∷ modify_slot id f ss

abbrev pub has_slot : ℕ → List HandoffCapabilitySlot → Bool
has_slot id [] = false
has_slot id (s ∷ ss) = if s.runtime_id == id then true else has_slot id ss

abbrev pub ensure_coordinator_started : ReaperRegistry → ReaperRegistry
ensure_coordinator_started r =
    if not r.coordinator_thread
    then record r {
      coordinator_stop = false;
      coordinator_exited = false;
      coordinator_thread = true;
    }
    else r

abbrev pub make_slot : ℕ → Option ℕ → Option ℕ → Option ℕ → HandoffCapabilitySlot
make_slot id graceful immediate cleanup = record {
  runtime_id = id;
  handoff_executed = false;
  join_ready = false;
  join_claimed = false;
  retained_state = none;
  cleanup_fn = cleanup;
  request_graceful_fn = graceful;
  request_immediate_fn = immediate;
}

abbrev pub may_register : ReaperRegistry → Bool
may_register r = is_open r.state && not r.inject_reservation_fail

-- The registration, where it is let in.
unfoldable pub admit : HandoffCapabilitySlot → ReaperRegistry → ReaperRegistry
admit slot r =
    let s = ensure_coordinator_started r in
    record s {
      slots = s.slots ++ (slot ∷ []);
      registered_ids = s.registered_ids ++ (slot.runtime_id ∷ []);
      total_registrations = add64 s.total_registrations 1;
    }

abbrev pub register_runtime : HandoffCapabilitySlot → ReaperRegistry → ReaperRegistry × Bool
register_runtime slot r = if may_register r then (admit slot r, true) else (r, false)

unfoldable pub unregister_runtime : ℕ → ReaperRegistry → ReaperRegistry
unregister_runtime id r = record r {
  registered_ids = erase_id id r.registered_ids;
  slots = erase_slot id r.slots;
}

abbrev pub mark_finalization_started : ℕ → ReaperRegistry → ReaperRegistry
mark_finalization_started now r =
    if r.finalization_started_at == 0 then record r { finalization_started_at = now } else r

unfoldable pub mark_finalized : ℕ → ReaperRegistry → ReaperRegistry
mark_finalized now r =
    let s = mark_finalization_started now r in
    record s {
      state = RegistrationState.finalized;
      finalization_completed_at =
          if s.finalization_completed_at == 0 then now else s.finalization_completed_at;
    }

-- The callbacks that are set, in the order of the slots.
abbrev pub callbacks : (HandoffCapabilitySlot → Option ℕ) → List HandoffCapabilitySlot → List ℕ
callbacks f [] = []
callbacks f (s ∷ ss) = elim (f s) [ none ↦ callbacks f ss | some c ↦ c ∷ callbacks f ss ]

-- close_registration, with the callbacks that it then calls.
unfoldable pub close_registration : ℕ → ReaperRegistry → ReaperRegistry × List ℕ
unfolding mark_finalized
close_registration now r =
    if is_open r.state
    then (let s = mark_finalization_started now r in
        if is_empty s.registered_ids && not s.coordinator_thread
        then (mark_finalized now s, callbacks (λ t. t.request_graceful_fn) s.slots)
        else (
          record s { state = RegistrationState.finalizing },
          callbacks (λ t. t.request_graceful_fn) s.slots,
        ))
    else (r, [])

unfoldable pub request_all_immediate : ReaperRegistry → ReaperRegistry × List ℕ
request_all_immediate r = (
  record r { finalization_escalations = add64 r.finalization_escalations 1 },
  callbacks (λ t. t.request_immediate_fn) r.slots,
)

unfoldable pub note_finalization_begin : ReaperRegistry → ReaperRegistry
note_finalization_begin r = record r {
  finalization_begin_calls = add64 r.finalization_begin_calls 1;
}

unfoldable pub execute_worker_handoff : ℕ → Option ℕ → Option ℕ → ReaperRegistry → ReaperRegistry
execute_worker_handoff id retained cleanup r = record r {
  slots =
      modify_slot id
        (λ s. record s { handoff_executed = true; retained_state = retained; cleanup_fn = cleanup })
        r.slots;
  total_handoffs = if has_slot id r.slots then add64 r.total_handoffs 1 else r.total_handoffs;
}

unfoldable pub replace_cleanup_fn : ℕ → Option ℕ → ReaperRegistry → ReaperRegistry
replace_cleanup_fn id cleanup r = record r {
  slots = modify_slot id (λ s. record s { cleanup_fn = cleanup }) r.slots;
}

unfoldable pub notify_join_ready : ℕ → ReaperRegistry → ReaperRegistry
notify_join_ready id r = record r {
  slots = modify_slot id (λ s. record s { join_ready = true }) r.slots;
}

-- A slot that the coordinator may claim.
abbrev pub is_claimable : RegistrationState → HandoffCapabilitySlot → Bool
is_claimable st s = (s.handoff_executed || is_finalizing st) && s.join_ready && not s.join_claimed

abbrev pub has_claimable : RegistrationState → List HandoffCapabilitySlot → Bool
has_claimable st [] = false
has_claimable st (s ∷ ss) = is_claimable st s || has_claimable st ss

abbrev pub has_join_ready_slot : ReaperRegistry → Bool
has_join_ready_slot r = has_claimable r.state r.slots

pub record ReadyWork : Type 0 where
  pub runtime_id : ℕ
  pub cleanup_fn : Option ℕ
  pub retained_state : Option ℕ

-- The result of the coordinator's loop over the slots.
pub record Claims : Type 0 where
  pub works : List ReadyWork
  pub slots : List HandoffCapabilitySlot
  pub registered_ids : List ℕ

abbrev pub make_work : HandoffCapabilitySlot → ReadyWork
make_work s = record {
  runtime_id = s.runtime_id;
  cleanup_fn = s.cleanup_fn;
  retained_state = s.retained_state;
}

-- Ready slots leave the list with their works; the others stay in order.
unfoldable pub claim_slots : RegistrationState → List HandoffCapabilitySlot → List ℕ → Claims
claim_slots st [] ids = record { works = []; slots = []; registered_ids = ids }
claim_slots st (s ∷ ss) ids =
    let rest = claim_slots st ss (if is_claimable st s then erase_id s.runtime_id ids else ids) in
    if is_claimable st s
    then record rest { works = make_work s ∷ rest.works }
    else record rest { slots = s ∷ rest.slots }

-- What a turn of coordinator_loop does when it holds the mutex.
pub data Turn : Type 0 where
  waits : Turn
  terminates : Turn
  exits : ReaperRegistry → Turn
  joins : ReaperRegistry → List ReadyWork → Turn

abbrev pub is_finished : ReaperRegistry → Bool
is_finished r = is_finalizing r.state && is_empty r.slots && is_empty r.registered_ids

unfoldable pub claim_ready : ReaperRegistry → ReaperRegistry × List ReadyWork
unfolding claim_slots
claim_ready r =
    let c = claim_slots r.state r.slots r.registered_ids in
    (
      record r {
        slots = c.slots;
        registered_ids = c.registered_ids;
        total_joins = add64 r.total_joins (length c.works);
      },
      c.works,
    )

unfoldable pub coordinator_turn : ReaperRegistry → Turn
unfolding claim_ready
coordinator_turn r =
    if not
      (r.coordinator_stop || r.inject_coordinator_fail || has_join_ready_slot r || is_finished r)
    then Turn.waits
    else if r.inject_coordinator_fail
    then Turn.terminates
    else if r.coordinator_stop && not (has_join_ready_slot r)
    then Turn.exits (record r { coordinator_exited = true })
    else if is_finished r
    then Turn.exits (record r { coordinator_exited = true })
    else Turn.joins (claim_ready r).0 (claim_ready r).1

-- The coordinator has left its loop and nothing is registered.
abbrev pub is_over : ReaperRegistry → Bool
is_over r = r.coordinator_exited && is_empty r.registered_ids && is_empty r.slots

-- try_join_exited_coordinator_locked up to the release of the mutex, and after the join.
abbrev pub may_join : ReaperRegistry → Bool
may_join r = not (is_finalized r.state) && is_over r && not r.coordinator_join_in_progress

abbrev pub start_join : ReaperRegistry → ReaperRegistry
start_join r = record r { coordinator_join_in_progress = true; coordinator_thread = false }

unfoldable pub finish_join : ℕ → ReaperRegistry → ReaperRegistry
unfolding mark_finalized
finish_join now r = record (mark_finalized now r) { coordinator_join_in_progress = false }

abbrev pub make_registry : ReaperRegistry
make_registry = record {
  state = RegistrationState.opened;
  registered_ids = [];
  slots = [];
  coordinator_thread = false;
  coordinator_stop = false;
  coordinator_exited = false;
  coordinator_join_in_progress = false;
  inject_reservation_fail = false;
  inject_coordinator_fail = false;
  total_registrations = 0;
  total_handoffs = 0;
  total_joins = 0;
  finalization_begin_calls = 0;
  finalization_wait_timeouts = 0;
  finalization_escalations = 0;
  finalization_started_at = 0;
  finalization_completed_at = 0;
}
