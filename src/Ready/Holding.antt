-- ===== src/Ready/Holding.antt =====
-- How often a task is in the queues, and what one band's claim takes.
use astra_scheduler.Base.{
  ℕ, zero, suc, ◌+◌, ◌<◌, ◌≡◌, refl, ap, Bool, Option, none, some, List, [], ◌∷◌, ◌++◌, arith, ◌==◌,
  if◌then◌else◌, length, set, get_or, count, count-append, if_then_else_lem,
}
use astra_scheduler.Ready.{
  Priority, is_same, QueuedTask, EdfEntry, Band, is_after, pop_heap, fallback_order, write,
}
use astra_scheduler.Ready.Publishing.{
  LocalDequeBackend, ReadyQueues, no_queues, Attempt, take_front, take_back, LocalClaim,
  first_attempt, claim_from_bands, target_of, try_locked, try_chase_lev, choose_local_band,
  claim_chase_lev, claim_end,
}

abbrev pub task_ids : List QueuedTask → List ℕ
task_ids [] = []
task_ids (t ∷ ts) = t.task ∷ task_ids ts

abbrev pub entry_ids : List EdfEntry → List ℕ
entry_ids [] = []
entry_ids (e ∷ es) = e.queued.task ∷ entry_ids es

-- The sum of a measure over the four bands.
abbrev pub total {ℓ} : {A : Type ℓ} → (A → ℕ) → (Priority → A) → ℕ
total h f =
    h (f Priority.low) + h (f Priority.normal) + h (f Priority.high) + h (f Priority.critical)

pub total-write {ℓ} :
    {A : Type ℓ} (h : A → ℕ) (f : Priority → A) (p : Priority) (a : A)
    → total h (write f p a) + h (f p) ≡ total h f + h a
total-write h f Priority.low a = omega arith
total-write h f Priority.normal a = omega arith
total-write h f Priority.high a = omega arith
total-write h f Priority.critical a = omega arith

abbrev pub in_band : ℕ → Band → ℕ
in_band x b = count x (entry_ids b.edf) + count x (task_ids b.fifo)

abbrev pub in_queue : ℕ → List QueuedTask → ℕ
in_queue x ts = count x (task_ids ts)

abbrev pub in_locals : ℕ → List (Priority → List QueuedTask) → ℕ
in_locals x [] = 0
in_locals x (f ∷ fs) = total (in_queue x) f + in_locals x fs

-- How often a task is queued.
abbrev pub held : ℕ → ReadyQueues → ℕ
held x q = total (in_band x) q.global_bands + in_locals x q.local_queues

abbrev pub one : ℕ → ℕ → ℕ
one x y = if x == y then 1 else 0

pub task_ids-append : (ts us : List QueuedTask) → task_ids (ts ++ us) ≡ task_ids ts ++ task_ids us
task_ids-append [] us = refl
task_ids-append (t ∷ ts) us = ap (λ (l : List ℕ). t.task ∷ l) (task_ids-append ts us)

pub entry_ids-append : (ts us : List EdfEntry) → entry_ids (ts ++ us) ≡ entry_ids ts ++ entry_ids us
entry_ids-append [] us = refl
entry_ids-append (t ∷ ts) us = ap (λ (l : List ℕ). t.queued.task ∷ l) (entry_ids-append ts us)

pub in_queue-snoc :
    (x : ℕ) (ts : List QueuedTask) (t : QueuedTask)
    → in_queue x (ts ++ (t ∷ [])) ≡ in_queue x ts + one x t.task
in_queue-snoc x ts t =
    rw (task_ids-append ts (t ∷ [])) (omega (arith, count-append x (task_ids ts) (t.task ∷ [])))

pub in_locals-set :
    (x : ℕ) (fs : List (Priority → List QueuedTask)) (i : ℕ) (f : Priority → List QueuedTask)
    → i < length fs
    → in_locals x (set fs i f) + total (in_queue x) (get_or fs i no_queues)
      ≡ in_locals x fs + total (in_queue x) f
in_locals-set x [] i f h = absurd (omega arith)
in_locals-set x (g ∷ fs) zero f h = omega arith
in_locals-set x (g ∷ fs) (suc i) f h = omega (arith, in_locals-set x fs i f (omega arith))

pub pop_heap-count :
    (x : ℕ) (e : EdfEntry) (es : List EdfEntry)
    → count x (entry_ids (e ∷ es))
      ≡ one x (pop_heap e es).0.queued.task + count x (entry_ids (pop_heap e es).1)
unfolding pop_heap
pop_heap-count x e [] = omega arith
pop_heap-count x e (d ∷ es) =
    let rest = pop_heap-count x d es in
    if_then_else_lem
      (λ (r : EdfEntry × List EdfEntry).
        count x (entry_ids (e ∷ d ∷ es)) ≡ one x r.0.queued.task + count x (entry_ids r.1))
      (is_after e (pop_heap d es).0) (λ h. omega arith) (λ h. omega arith)

-- A claim takes one task and leaves the others.
abbrev pub Takes : List QueuedTask → Attempt → Type 0
Takes ts Attempt.gives_up = Unit
Takes ts Attempt.misses = Unit
Takes ts (Attempt.claims t rest) = (x : ℕ) → in_queue x ts ≡ one x t.task + in_queue x rest

take_front-Takes : (ts : List QueuedTask) → Takes ts (take_front ts)
unfolding take_front
take_front-Takes [] = tt
take_front-Takes (t ∷ ts) = λ x. refl

prepend-Takes :
    (t : QueuedTask) (ts : List QueuedTask) (a : Attempt)
    → (a ≡ Attempt.misses → ts ≡ [])
    → Takes ts a
    → Takes (t ∷ ts) (elim a [
      | Attempt.gives_up ↦ Attempt.gives_up
      | Attempt.misses ↦ Attempt.claims t []
      | Attempt.claims last rest ↦ Attempt.claims last (t ∷ rest)
    ])
prepend-Takes t ts Attempt.gives_up m k = tt
prepend-Takes t ts Attempt.misses m k = λ x. rw (m refl) refl
prepend-Takes t ts (Attempt.claims last rest) m k = λ x. omega (arith, k x)

take_back-misses : (ts : List QueuedTask) → take_back ts ≡ Attempt.misses → ts ≡ []
unfolding take_back
take_back-misses [] e = refl
take_back-misses (t ∷ ts) e = absurd (ground arith)

take_back-Takes : (ts : List QueuedTask) → Takes ts (take_back ts)
unfolding take_back
take_back-Takes [] = tt
take_back-Takes (t ∷ ts) =
    prepend-Takes t ts (take_back ts) (take_back-misses ts) (take_back-Takes ts)

try_locked-Takes :
    (from_back : Bool) (bands : Priority → List QueuedTask) (p : Priority)
    → Takes (bands p) (try_locked from_back bands p)
try_locked-Takes from_back bands p =
    if_then_else_lem (Takes (bands p)) from_back (λ e. take_back-Takes (bands p))
      (λ e. take_front-Takes (bands p))

try_chase_lev-Takes :
    (owner : Bool) (contended : Priority → Bool) (bands : Priority → List QueuedTask) (p : Priority)
    → Takes (bands p) (try_chase_lev owner contended bands p)
try_chase_lev-Takes owner contended bands p =
    if_then_else_lem (Takes (bands p)) owner (λ e. take_back-Takes (bands p))
      (λ e.
        if_then_else_lem (Takes (bands p)) (contended p) (λ f. tt)
          (λ f. take_front-Takes (bands p)))

abbrev pub TakesOne : (Priority → List QueuedTask) → Option LocalClaim → Type 0
TakesOne bands none = Unit
TakesOne bands (some c) =
    (x : ℕ) → total (in_queue x) bands ≡ one x c.claimed.task + total (in_queue x) c.left

claimed-TakesOne :
    (bands : Priority → List QueuedTask) (p : Priority) (t : QueuedTask) (ts : List QueuedTask)
    → Takes (bands p) (Attempt.claims t ts)
    → TakesOne bands (some (record { claimed = t; left = write bands p ts }))
claimed-TakesOne bands p t ts k = λ x. omega (arith, k x, total-write (in_queue x) bands p ts)

attempt-TakesOne :
    (bands : Priority → List QueuedTask) (p : Priority) (a : Attempt) (rest : Option LocalClaim)
    → Takes (bands p) a
    → TakesOne bands rest
    → TakesOne bands (elim a [
      | Attempt.gives_up ↦ none
      | Attempt.misses ↦ rest
      | Attempt.claims t ts ↦ some (record { claimed = t; left = write bands p ts })
    ])
attempt-TakesOne bands p Attempt.gives_up rest k r = tt
attempt-TakesOne bands p Attempt.misses rest k r = r
attempt-TakesOne bands p (Attempt.claims t ts) rest k r = claimed-TakesOne bands p t ts k

first_attempt-TakesOne :
    (ps : List Priority) (target : Priority) (f : Priority → Attempt)
    (bands : Priority → List QueuedTask)
    → ((p : Priority) → Takes (bands p) (f p))
    → TakesOne bands (first_attempt ps target f bands)
unfolding first_attempt
first_attempt-TakesOne [] target f bands k = tt
first_attempt-TakesOne (p ∷ ps) target f bands k =
    let rest = first_attempt-TakesOne ps target f bands k in
    if_then_else_lem (TakesOne bands) (is_same p target) (λ e. rest)
      (λ e. attempt-TakesOne bands p (f p) (first_attempt ps target f bands) (k p) rest)

claim_from_bands-TakesOne :
    (target : Priority) (f : Priority → Attempt) (bands : Priority → List QueuedTask)
    → ((p : Priority) → Takes (bands p) (f p))
    → TakesOne bands (claim_from_bands target f bands)
unfolding claim_from_bands
claim_from_bands-TakesOne target f bands k =
    attempt-TakesOne bands target (f target) (first_attempt fallback_order target f bands)
      (k target) (first_attempt-TakesOne fallback_order target f bands k)

pub claim_end-TakesOne :
    (backend : LocalDequeBackend) (owner : Bool) (contended : Priority → Bool) (index : ℕ)
    (bands : Priority → List QueuedTask)
    → TakesOne bands (claim_end backend owner contended index bands)
unfolding claim_end choose_local_band claim_chase_lev
claim_end-TakesOne LocalDequeBackend.locked owner contended index bands =
    claim_from_bands-TakesOne (target_of index) (try_locked owner bands) bands
      (try_locked-Takes owner bands)
claim_end-TakesOne LocalDequeBackend.chase_lev_lock_free owner contended index bands =
    claim_from_bands-TakesOne (target_of index) (try_chase_lev owner contended bands) bands
      (try_chase_lev-Takes owner contended bands)
