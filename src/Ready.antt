-- ===== src/Ready.antt =====
-- The global bands of ReadyQueues in src/runtime/ready_queues.cpp: for each priority a heap of the tasks
-- with a deadline and a queue of the others, and the calendar by which a worker claims from them. The
-- intrusive list is a list, its front first; std::push_heap and std::pop_heap take the entry that comes
-- first, of which there is one since the sequence numbers differ.
pub mod Claims
pub mod Misses
pub mod Publishing
pub mod Cancelling
pub mod Holding
pub mod Emptying
pub mod Taking
pub mod Conservation
pub mod Examples
use astra_scheduler.Metrics.{Metrics, Counter, count_one}
use astra_scheduler.Base.{
  true, false, ℕ, ◌+◌, ◌-◌, ◌%◌, Bool, not, Option, none, some, List, [], ◌∷◌, ltb, ◌==◌,
  if◌then◌else◌, get_or, add64,
}

pub data Priority : Type 0 where
  low normal high critical : Priority

abbrev pub rank : Priority → ℕ
rank Priority.low = 0
rank Priority.normal = 1
rank Priority.high = 2
rank Priority.critical = 3

abbrev pub is_same : Priority → Priority → Bool
is_same Priority.low Priority.low = true
is_same Priority.normal Priority.normal = true
is_same Priority.high Priority.high = true
is_same Priority.critical Priority.critical = true
is_same _ _ = false

pub record QueuedTask : Type 0 where
  pub task : ℕ
  pub is_external : Bool

pub record EdfEntry : Type 0 where
  pub deadline : ℕ
  pub admission_sequence : ℕ
  pub queued : QueuedTask

pub record Band : Type 0 where
  pub edf : List EdfEntry
  pub fifo : List QueuedTask

-- EdfEntry::operator>
abbrev pub is_after : EdfEntry → EdfEntry → Bool
is_after a b =
    if not (a.deadline == b.deadline)
    then ltb b.deadline a.deadline
    else ltb b.admission_sequence a.admission_sequence

-- The first entry of a heap that has one, and the others.
unfoldable pub pop_heap : EdfEntry → List EdfEntry → EdfEntry × List EdfEntry
pop_heap x [] = (x, [])
pop_heap x (y ∷ ys) =
    let (first, rest) = pop_heap y ys in
    if is_after x first then (first, x ∷ rest) else (x, first ∷ rest)

abbrev pub edf_deadline_burst_limit : ℕ
edf_deadline_burst_limit = 8

pub record Claim : Type 0 where
  pub claimed : QueuedTask
  pub left : Band
  pub deadline_burst : ℕ

abbrev pub claim_edf : EdfEntry → List EdfEntry → List QueuedTask → ℕ → Claim
claim_edf x xs fifo burst = record {
  claimed = (pop_heap x xs).0.queued;
  left = record { edf = (pop_heap x xs).1; fifo = fifo };
  deadline_burst = burst + 1;
}

-- ReadyQueues::claim_global_band_locked
unfoldable pub claim_band : List EdfEntry → List QueuedTask → ℕ → Option Claim
unfolding pop_heap
claim_band [] [] burst = none
claim_band [] (t ∷ ts) burst =
    some (record { claimed = t; left = record { edf = []; fifo = ts }; deadline_burst = 0 })
claim_band (x ∷ xs) [] burst = some (claim_edf x xs [] burst)
claim_band (x ∷ xs) (t ∷ ts) burst =
    if ltb burst edf_deadline_burst_limit
    then some (claim_edf x xs (t ∷ ts) burst)
    else some
        (record { claimed = t; left = record { edf = x ∷ xs; fifo = ts }; deadline_burst = 0 })

-- kPriorityCalendar and kFallbackPriorityOrder
abbrev pub calendar : List Priority
calendar =
    Priority.critical ∷ Priority.high ∷ Priority.critical ∷ Priority.normal ∷ Priority.critical
    ∷ Priority.high ∷ Priority.critical ∷ Priority.low ∷ Priority.critical ∷ Priority.high
    ∷ Priority.critical ∷ Priority.normal ∷ Priority.critical ∷ Priority.high ∷ Priority.critical
    ∷ []

abbrev pub fallback_order : List Priority
fallback_order = Priority.critical ∷ Priority.high ∷ Priority.normal ∷ Priority.low ∷ []

-- The bands under the lock, and the claiming worker's calendar and bursts.
pub record Bands : Type 0 where
  pub band : Priority → Band
  pub deadline_bursts : Priority → ℕ
  pub calendar_index : ℕ
  pub claimed_count : ℕ
  pub metrics : Metrics

abbrev pub write {ℓ} : {A : Type ℓ} → (Priority → A) → Priority → A → Priority → A
write f p a q = if is_same p q then a else f q

-- The lambda `claim` of ReadyQueues::claim_global.
unfoldable pub claim : Priority → Bands → Option (QueuedTask × Bands)
unfolding claim_band
claim p s = elim (claim_band (s.band p).edf (s.band p).fifo (s.deadline_bursts p)) [
  | none ↦ none
  | some c ↦ some (
    c.claimed,
    record s {
      band = write s.band p c.left;
      deadline_bursts = write s.deadline_bursts p c.deadline_burst;
      calendar_index = (s.calendar_index + 1) % 15;
    },
  )
]

unfoldable pub first_claim : List Priority → Priority → Bands → Option (QueuedTask × Bands)
unfolding claim
first_claim [] target s = none
first_claim (p ∷ ps) target s =
    if is_same p target
    then first_claim ps target s
    else (elim (claim p s) [ none ↦ first_claim ps target s | some r ↦ some r ])

-- The claim is counted, in claimed_count_ and by record_claim.
unfoldable pub count_claim : Option (QueuedTask × Bands) → Option (QueuedTask × Bands)
count_claim none = none
count_claim (some (t, s)) = some (
  t,
  record s {
    claimed_count = add64 s.claimed_count 1;
    metrics = count_one Counter.global_claims s.metrics;
  },
)

-- The target of the calendar first, then the others in the fallback order.
unfoldable pub claim_from : Priority → Bands → Option (QueuedTask × Bands)
unfolding claim first_claim
claim_from target s = elim (claim target s) [
  | none ↦ first_claim fallback_order target s
  | some r ↦ some r
]

-- ReadyQueues::claim_global
unfoldable pub claim_global : Bands → Option (QueuedTask × Bands)
unfolding claim_from count_claim
claim_global s =
    count_claim (claim_from (get_or calendar (s.calendar_index % 15) Priority.critical) s)
