-- ===== src/Tracing/Capturing.antt =====
-- The start of a capture, start_capture of src/observability/trace_collector.cpp: the tests that come
-- before any change, the capacity of all buffers together, and the allocations, whose outcome is the
-- environment's choice.
use native.Mathlib.Nat.{add-mul}
use astra_scheduler.Base.{
  ℕ, ◌+◌, ◌*◌, ◌^◌, ◌≤◌, ◌<◌, ◌≡◌, ap, subst, ◌↔◌, Bool, true, false, not, ◌&&◌, ◌||◌, Option, none,
  some, List, [], ◌∷◌, arith, ltb, leb, ◌==◌, if◌then◌else◌, length, ℕ_discrete,
}

pub data TraceProducerKind : Type 0 where
  worker external_control reaper : TraceProducerKind

pub record TraceOptions : Type 0 where
  pub events_per_worker : ℕ
  pub external_control_events : ℕ
  pub events_per_reaper_producer : ℕ
  pub categories : ℕ

-- What start_capture throws.
pub data StartError : Type 0 where
  already_active : StartError
  zero_capacity : StartError
  unknown_category : StartError
  too_long : StartError
  bad_alloc : StartError

pub data Started : Type 0 where
  throws : StartError → Started
  accepts : (events : ℕ) → Started

abbrev pub capacity_for_kind : TraceOptions → TraceProducerKind → ℕ
capacity_for_kind o TraceProducerKind.worker = o.events_per_worker
capacity_for_kind o TraceProducerKind.external_control = o.external_control_events
capacity_for_kind o TraceProducerKind.reaper = o.events_per_reaper_producer

abbrev pub is_kind : TraceProducerKind → TraceProducerKind → Bool
is_kind TraceProducerKind.worker TraceProducerKind.worker = true
is_kind TraceProducerKind.external_control TraceProducerKind.external_control = true
is_kind TraceProducerKind.reaper TraceProducerKind.reaper = true
is_kind _ _ = false

-- The producers of a kind.
abbrev pub count_kind : TraceProducerKind → List TraceProducerKind → ℕ
count_kind k [] = 0
count_kind k (j ∷ js) = (if is_kind k j then 1 else 0) + count_kind k js

-- The lambda `add_part`, with both tests for an overflow; a length_error of an earlier part stays.
abbrev pub add_part : ℕ → Option ℕ → Option ℕ
add_part part none = none
add_part part (some total) =
    if leb (2 ^ 64) part
    then none
    else if leb (2 ^ 64) (total + part)
    then none
    else some (total + part)

abbrev pub part : TraceOptions → List TraceProducerKind → TraceProducerKind → ℕ
part o slots k = count_kind k slots * capacity_for_kind o k

abbrev pub total_capacity : TraceOptions → List TraceProducerKind → Option ℕ
total_capacity o slots = add_part (part o slots TraceProducerKind.reaper) (
    add_part (part o slots TraceProducerKind.external_control)
      (add_part (part o slots TraceProducerKind.worker) (some 0)))

abbrev pub is_category_set : ℕ → Bool
is_category_set categories = ltb categories (2 ^ 11)

-- The allocations after the j-th, for each producer its entry and its buffer, and at last the capture's:
-- `allocates` says which of them can be had, and the first that cannot ends start_capture with
-- std::bad_alloc.
unfoldable pub prepare : (ℕ → Bool) → ℕ → List TraceProducerKind → Bool
prepare allocates j [] = allocates j
prepare allocates j (k ∷ ks) = allocates j && prepare allocates (j + 1) ks

-- TraceCollector::start_capture; the first allocation is the generation's. What it throws leaves the
-- collector as it was.
unfoldable pub start_capture : (ℕ → Bool) → Bool → TraceOptions → List TraceProducerKind → Started
unfolding prepare
start_capture allocates recording o slots =
    if recording
    then Started.throws StartError.already_active
    else if o.events_per_worker == 0
        || o.external_control_events == 0
        || o.events_per_reaper_producer == 0
    then Started.throws StartError.zero_capacity
    else if not (is_category_set o.categories)
    then Started.throws StartError.unknown_category
    else (elim (total_capacity o slots) [
      | none ↦ Started.throws StartError.too_long
      | some n ↦
          if allocates 0 && prepare allocates 1 slots
          then Started.accepts n
          else Started.throws StartError.bad_alloc
    ])

-- The room that the buffers of all producers take.
abbrev pub room : TraceOptions → List TraceProducerKind → ℕ
room o [] = 0
room o (k ∷ ks) = capacity_for_kind o k + room o ks

one_more : (c e : ℕ) → (1 + c) * e ≡ e + c * e
one_more c e = omega (arith, add-mul 1 c e)

no_more : (c e : ℕ) → (0 + c) * e ≡ c * e
no_more c e = ap (λ (n : ℕ). n * e) (omega arith)

room-parts :
    (o : TraceOptions) (slots : List TraceProducerKind)
    → room o slots
      ≡ part o slots TraceProducerKind.worker
        + part o slots TraceProducerKind.external_control
        + part o slots TraceProducerKind.reaper
room-parts o [] = omega arith
room-parts o (TraceProducerKind.worker ∷ ks) = omega (
  arith,
  room-parts o ks,
  one_more (count_kind TraceProducerKind.worker ks) o.events_per_worker,
  no_more (count_kind TraceProducerKind.external_control ks) o.external_control_events,
  no_more (count_kind TraceProducerKind.reaper ks) o.events_per_reaper_producer,
)
room-parts o (TraceProducerKind.external_control ∷ ks) = omega (
  arith,
  room-parts o ks,
  no_more (count_kind TraceProducerKind.worker ks) o.events_per_worker,
  one_more (count_kind TraceProducerKind.external_control ks) o.external_control_events,
  no_more (count_kind TraceProducerKind.reaper ks) o.events_per_reaper_producer,
)
room-parts o (TraceProducerKind.reaper ∷ ks) = omega (
  arith,
  room-parts o ks,
  no_more (count_kind TraceProducerKind.worker ks) o.events_per_worker,
  no_more (count_kind TraceProducerKind.external_control ks) o.external_control_events,
  one_more (count_kind TraceProducerKind.reaper ks) o.events_per_reaper_producer,
)

add_part-total :
    (a b c : ℕ)
    → add_part c (add_part b (add_part a (some 0)))
      ≡ (if ltb (a + b + c) (2 ^ 64) then some (a + b + c) else none)
add_part-total a b c = ground arith

total_capacity-room :
    (o : TraceOptions) (slots : List TraceProducerKind)
    → total_capacity o slots ≡ (if ltb (room o slots) (2 ^ 64) then some (room o slots) else none)
total_capacity-room o slots = rw (room-parts o slots) (
    add_part-total (part o slots TraceProducerKind.worker)
      (part o slots TraceProducerKind.external_control) (part o slots TraceProducerKind.reaper))

prepare-all :
    (allocates : ℕ → Bool) (j : ℕ) (slots : List TraceProducerKind)
    → prepare allocates j slots ≡ true
    → (i : ℕ) → j ≤ i
    → i ≤ j + length slots
    → allocates i ≡ true
unfolding prepare
prepare-all allocates j [] had i low high = subst (λ a. allocates a ≡ true) (omega arith) had
prepare-all allocates j (k ∷ ks) had i low high = elim (ℕ_discrete j i) [
  | yes same ↦ subst (λ a. allocates a ≡ true) same (ground arith)
  | no ne ↦ prepare-all allocates (j + 1) ks (ground arith) i (omega (arith, ne)) (omega arith)
]

all-prepare :
    (allocates : ℕ → Bool) (j : ℕ) (slots : List TraceProducerKind)
    → ((i : ℕ) → j ≤ i → i ≤ j + length slots → allocates i ≡ true)
    → prepare allocates j slots ≡ true
unfolding prepare
all-prepare allocates j [] had = had j (omega arith) (omega arith)
all-prepare allocates j (k ∷ ks) had =
    rw (had j (omega arith) (omega arith))
      (all-prepare allocates (j + 1) ks (λ i low high. had i (omega arith) (omega arith)))

-- All the allocations.
prepared_iff :
    (allocates : ℕ → Bool) (slots : List TraceProducerKind)
    → ((allocates 0 && prepare allocates 1 slots) ≡ true)
      ↔ ((i : ℕ) → i < length slots + 2 → allocates i ≡ true)
prepared_iff allocates slots = (
  λ had i lt. elim (ℕ_discrete 0 i) [
    | yes same ↦ subst (λ a. allocates a ≡ true) same (ground arith)
    | no ne ↦ prepare-all allocates 1 slots (ground arith) i (omega (arith, ne)) (omega arith)
  ],
  λ had.
      rw (had 0 (omega arith)) (all-prepare allocates 1 slots (λ i low high. had i (omega arith))),
)

start_capture-tested :
    (allocates : ℕ → Bool) (recording : Bool) (o : TraceOptions) (slots : List TraceProducerKind)
    (n : ℕ)
    → (start_capture allocates recording o slots ≡ Started.accepts n) ↔ (
        (recording ≡ false)
        × (0 < o.events_per_worker)
        × (0 < o.external_control_events)
        × (0 < o.events_per_reaper_producer)
        × (o.categories < 2 ^ 11)
        × (room o slots < 2 ^ 64)
        × ((allocates 0 && prepare allocates 1 slots) ≡ true)
        × (n ≡ room o slots))
unfolding start_capture
start_capture-tested allocates recording o slots n = rw (total_capacity-room o slots) (ground arith)

-- A capture starts exactly if none is active, the three capacities are positive, the categories are
-- known ones, the buffers of all producers together take fewer than 2 ^ 64 events, and each allocation
-- succeeds, that of the generation, those for each producer and that of the capture; and then that is
-- what the buffers take, although each part and each sum is tested for itself.
pub start_capture-accepts_iff :
    (allocates : ℕ → Bool) (recording : Bool) (o : TraceOptions) (slots : List TraceProducerKind)
    (n : ℕ)
    → (start_capture allocates recording o slots ≡ Started.accepts n) ↔ (
        (recording ≡ false)
        × (0 < o.events_per_worker)
        × (0 < o.external_control_events)
        × (0 < o.events_per_reaper_producer)
        × (o.categories < 2 ^ 11)
        × (room o slots < 2 ^ 64)
        × ((i : ℕ) → i < length slots + 2 → allocates i ≡ true)
        × (n ≡ room o slots))
start_capture-accepts_iff allocates recording o slots n =
    let (to, back) = start_capture-tested allocates recording o slots n in
    (
      λ e.
          let (idle, w, x, r, known, fits, had, same) = to e in
          (idle, w, x, r, known, fits, (prepared_iff allocates slots).0 had, same),
      λ (idle, w, x, r, known, fits, had, same).
          back (idle, w, x, r, known, fits, (prepared_iff allocates slots).1 had, same),
    )
