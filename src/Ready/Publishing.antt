-- ===== src/Ready/Publishing.antt =====
-- The rest of ReadyQueues in src/runtime/ready_queues.cpp: publication to the global bands or to a
-- worker's own queues, and the claims on those. A worker's queues are lists with the owner's end last,
-- which is what the locked backend holds and what the Chase-Lev deque does. Its growth may fail, and a
-- thief may lose three exchanges in a row on a band: the environment chooses when.
use astra_scheduler.Base.{
  ℕ, ◌+◌, ◌-◌, ◌%◌, Bool, true, false, ◌&&◌, Option, none, some, List, [], ◌∷◌, ◌++◌, ltb,
  if◌then◌else◌, length, set, get_or, add64,
}
use astra_scheduler.Metrics.{Counter, Metrics, count_one}
use astra_scheduler.Ready.{
  Priority, is_same, QueuedTask, EdfEntry, Band, calendar, fallback_order, write, claim_global,
}

-- What the queues ask a task for, by its number.
pub record TaskInvokers : Type 0 where
  pub priority : ℕ → Priority
  pub deadline : ℕ → Option ℕ
  pub is_resume_segment : ℕ → Bool

-- The backends that a runtime has; None belongs to an empty snapshot of capabilities.
pub data LocalDequeBackend : Type 0 where
  locked chase_lev_lock_free : LocalDequeBackend

pub record ReadyQueues : Type 0 where
  pub backend : LocalDequeBackend
  pub global_bands : Priority → Band
  pub global_admission_sequence : ℕ
  pub local_queues : List (Priority → List QueuedTask)
  pub claimed_count : ℕ
  pub metrics : Metrics

-- LocalQueues::push, which the Chase-Lev backend may refuse.
abbrev pub accepts : LocalDequeBackend → Bool → Bool
accepts LocalDequeBackend.locked grows = true
accepts LocalDequeBackend.chase_lev_lock_free grows = grows

abbrev pub no_queues : Priority → List QueuedTask
no_queues p = []

unfoldable pub push_local : ℕ → Priority → QueuedTask → ReadyQueues → ReadyQueues
push_local worker p t q =
    let bands = get_or q.local_queues worker no_queues in
    record q { local_queues = set q.local_queues worker (write bands p (bands p ++ (t ∷ []))) }

unfoldable pub push_fifo : Priority → QueuedTask → ReadyQueues → ReadyQueues
push_fifo p t q =
    let b = q.global_bands p in
    record q { global_bands = write q.global_bands p (record b { fifo = b.fifo ++ (t ∷ []) }) }

unfoldable pub push_edf : Priority → ℕ → QueuedTask → ReadyQueues → ReadyQueues
push_edf p deadline t q =
    let b = q.global_bands p in
    let sequence = add64 q.global_admission_sequence 1 in
    let entry : EdfEntry = record {
      deadline = deadline;
      admission_sequence = sequence;
      queued = t;
    } in
    record q {
      global_bands = write q.global_bands p (record b { edf = b.edf ++ (entry ∷ []) });
      global_admission_sequence = sequence;
      metrics = count_one Counter.deadline_admitted q.metrics;
    }

abbrev pub publish_ready : TaskInvokers → Bool → ℕ → Bool → Bool → ℕ → ReadyQueues → ReadyQueues
publish_ready inv grows task is_external use_local_queue worker q =
    if use_local_queue && ltb worker (length q.local_queues) && accepts q.backend grows
    then push_local worker (inv.priority task) (record { task = task; is_external = false }) q
    else push_fifo (inv.priority task) (record { task = task; is_external = is_external }) q

-- The deadline by which a task is queued: a resumed coroutine keeps none.
abbrev pub queue_deadline : TaskInvokers → ℕ → Option ℕ
queue_deadline inv task = if inv.is_resume_segment task then none else inv.deadline task

-- ReadyQueues::publish; `grows` tells whether the worker's deque takes the task.
unfoldable pub publish : TaskInvokers → Bool → ℕ → Bool → Bool → ℕ → ReadyQueues → ReadyQueues
unfolding push_local push_fifo push_edf
publish inv grows task is_external use_local_queue worker q = elim (queue_deadline inv task) [
  | none ↦ publish_ready inv grows task is_external use_local_queue worker q
  | some d ↦ push_edf (inv.priority task) d (record { task = task; is_external = is_external }) q
]

-- One try on a band: it is contended, it is empty, or it gives a task.
pub data Attempt : Type 0 where
  gives_up : Attempt
  misses : Attempt
  claims : QueuedTask → List QueuedTask → Attempt

unfoldable pub take_front : List QueuedTask → Attempt
take_front [] = Attempt.misses
take_front (t ∷ ts) = Attempt.claims t ts

unfoldable pub take_back : List QueuedTask → Attempt
take_back [] = Attempt.misses
take_back (t ∷ ts) = elim (take_back ts) [
  | Attempt.gives_up ↦ Attempt.gives_up
  | Attempt.misses ↦ Attempt.claims t []
  | Attempt.claims last rest ↦ Attempt.claims last (t ∷ rest)
]

pub record LocalClaim : Type 0 where
  pub claimed : QueuedTask
  pub left : Priority → List QueuedTask

-- The bands of the fallback order but the target; a thief leaves at a contended band.
unfoldable pub first_attempt :
    List Priority
    → Priority
    → (Priority → Attempt)
    → (Priority → List QueuedTask)
    → Option LocalClaim
first_attempt [] target f bands = none
first_attempt (p ∷ ps) target f bands =
    let rest = first_attempt ps target f bands in
    if is_same p target then rest else (elim (f p) [
      | Attempt.gives_up ↦ none
      | Attempt.misses ↦ rest
      | Attempt.claims t ts ↦ some (record { claimed = t; left = write bands p ts })
    ])

unfoldable pub claim_from_bands :
    Priority → (Priority → Attempt) → (Priority → List QueuedTask) → Option LocalClaim
unfolding first_attempt
claim_from_bands target f bands = elim (f target) [
  | Attempt.gives_up ↦ none
  | Attempt.misses ↦ first_attempt fallback_order target f bands
  | Attempt.claims t ts ↦ some (record { claimed = t; left = write bands target ts })
]

abbrev pub target_of : ℕ → Priority
target_of calendar_index = get_or calendar (calendar_index % 15) Priority.critical

-- One try of choose_local_band, which takes the back for the owner and the front for a thief.
abbrev pub try_locked : Bool → (Priority → List QueuedTask) → Priority → Attempt
try_locked from_back bands p = if from_back then take_back (bands p) else take_front (bands p)

-- One try of claim_chase_lev: a pop of the owner, or a thief's steal with its retries; `contended` tells
-- on which bands a thief loses all three.
abbrev pub try_chase_lev :
    Bool → (Priority → Bool) → (Priority → List QueuedTask) → Priority → Attempt
try_chase_lev owner contended bands p =
    if owner
    then take_back (bands p)
    else if contended p
    then Attempt.gives_up
    else take_front (bands p)

unfoldable pub choose_local_band : (Priority → List QueuedTask) → ℕ → Bool → Option LocalClaim
unfolding take_back take_front claim_from_bands
choose_local_band bands calendar_index from_back =
    claim_from_bands (target_of calendar_index) (try_locked from_back bands) bands

unfoldable pub claim_chase_lev :
    (Priority → Bool) → (Priority → List QueuedTask) → ℕ → Bool → Option LocalClaim
unfolding take_back take_front claim_from_bands
claim_chase_lev contended bands calendar_index owner =
    claim_from_bands (target_of calendar_index) (try_chase_lev owner contended bands) bands

-- claim_back for the owner, steal_front for a thief.
unfoldable pub claim_end :
    LocalDequeBackend
    → Bool
    → (Priority → Bool)
    → ℕ
    → (Priority → List QueuedTask)
    → Option LocalClaim
unfolding choose_local_band claim_chase_lev
claim_end LocalDequeBackend.locked owner contended calendar_index bands =
    choose_local_band bands calendar_index owner
claim_end LocalDequeBackend.chase_lev_lock_free owner contended calendar_index bands =
    claim_chase_lev contended bands calendar_index owner

pub record Claimed : Type 0 where
  pub claimed : QueuedTask
  pub queues : ReadyQueues
  pub calendar_index : ℕ

-- A worker's claim on its own queues, or a thief's on a victim's.
unfoldable pub take_local : Bool → (Priority → Bool) → ℕ → ℕ → ReadyQueues → Option Claimed
unfolding claim_end
take_local owner contended worker calendar_index q =
    if ltb worker (length q.local_queues)
    then (elim (claim_end q.backend owner contended calendar_index
        (get_or q.local_queues worker no_queues)) [
          | none ↦ none
          | some c ↦ some (record {
            claimed = c.claimed;
            queues = record q {
              local_queues = set q.local_queues worker c.left;
              claimed_count = add64 q.claimed_count 1;
            };
            calendar_index = (calendar_index + 1) % 15;
          })
        ])
    else none

unfoldable pub count_local : Option Claimed → Option Claimed
count_local none = none
count_local (some c) = some (record c {
  queues = record c.queues { metrics = count_one Counter.local_claims c.queues.metrics };
})

unfoldable pub claim_local : ℕ → ℕ → ReadyQueues → Option Claimed
unfolding take_local count_local
claim_local worker calendar_index q =
    count_local (take_local true (λ p. false) worker calendar_index q)

unfoldable pub steal : (Priority → Bool) → ℕ → ℕ → ReadyQueues → Option Claimed
unfolding take_local
steal contended victim calendar_index q = take_local false contended victim calendar_index q

unfoldable pub complete_claim : ReadyQueues → ReadyQueues
complete_claim q = record q { claimed_count = q.claimed_count - 1 }

-- claim_global of a worker with its calendar and its bursts.
unfoldable pub take_global : (Priority → ℕ) → ℕ → ReadyQueues → Option Claimed
unfolding claim_global
take_global bursts calendar_index q =
    elim (claim_global (record {
      band = q.global_bands;
      deadline_bursts = bursts;
      calendar_index = calendar_index;
      claimed_count = q.claimed_count;
      metrics = q.metrics;
    })) [
      | none ↦ none
      | some r ↦ some (record {
        claimed = r.0;
        queues = record q {
          global_bands = r.1.band;
          claimed_count = r.1.claimed_count;
          metrics = r.1.metrics;
        };
        calendar_index = r.1.calendar_index;
      })
    ]
