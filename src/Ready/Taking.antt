-- ===== src/Ready/Taking.antt =====
-- A claim on the global bands or on a worker's own queues takes one task, and leaves the others.
use astra_scheduler.Base.{
  ℕ, ◌+◌, ◌%◌, ◌<◌, ◌≡◌, refl, ap, Bool, true, false, Option, none, some, List, [], ◌∷◌, arith, ltb,
  ltb→lt, length, set, get_or, add64, if_then_else_lem,
}
use astra_scheduler.Ready.{
  Priority, is_same, QueuedTask, EdfEntry, Band, edf_deadline_burst_limit, Claim, claim_edf,
  claim_band, fallback_order, Bands, write, claim, first_claim, count_claim, claim_from,
  claim_global,
}
use astra_scheduler.Ready.Publishing.{
  ReadyQueues, no_queues, LocalClaim, target_of, Claimed, take_local, count_local, claim_local,
  steal, take_global,
}
use astra_scheduler.Ready.Holding.{
  total, total-write, in_band, held, one, in_locals-set, pop_heap-count, TakesOne,
  claim_end-TakesOne,
}

abbrev TakesFrom : List EdfEntry → List QueuedTask → Option Claim → Type 0
TakesFrom edf fifo none = Unit
TakesFrom edf fifo (some c) =
    (x : ℕ)
    → in_band x (record { edf = edf; fifo = fifo }) ≡ one x c.claimed.task + in_band x c.left

claim_edf-TakesFrom :
    (e : EdfEntry) (es : List EdfEntry) (fifo : List QueuedTask) (burst : ℕ)
    → TakesFrom (e ∷ es) fifo (some (claim_edf e es fifo burst))
claim_edf-TakesFrom e es fifo burst = λ x. let h = pop_heap-count x e es in omega arith

claim_band-TakesFrom :
    (edf : List EdfEntry) (fifo : List QueuedTask) (burst : ℕ)
    → TakesFrom edf fifo (claim_band edf fifo burst)
unfolding claim_band
claim_band-TakesFrom [] [] burst = tt
claim_band-TakesFrom [] (t ∷ ts) burst = λ x. omega arith
claim_band-TakesFrom (e ∷ es) [] burst = claim_edf-TakesFrom e es [] burst
claim_band-TakesFrom (e ∷ es) (t ∷ ts) burst =
    if_then_else_lem (TakesFrom (e ∷ es) (t ∷ ts)) (ltb burst edf_deadline_burst_limit)
      (λ h. claim_edf-TakesFrom e es (t ∷ ts) burst) (λ h x. omega arith)

abbrev TakesBand : Bands → Option (QueuedTask × Bands) → Type 0
TakesBand s none = Unit
TakesBand s (some r) =
    (x : ℕ) → total (in_band x) s.band ≡ one x r.0.task + total (in_band x) r.1.band

claimed-TakesBand :
    (p : Priority) (s : Bands) (o : Option Claim)
    → TakesFrom (s.band p).edf (s.band p).fifo o
    → TakesBand s (elim o [
      | none ↦ none
      | some c ↦ some (
        c.claimed,
        record s {
          band = write s.band p c.left;
          deadline_bursts = write s.deadline_bursts p c.deadline_burst;
          calendar_index = (s.calendar_index + 1) % 15;
        },
      )
    ])
claimed-TakesBand p s none h = tt
claimed-TakesBand p s (some c) h = λ x. omega (arith, h x, total-write (in_band x) s.band p c.left)

claim-TakesBand : (p : Priority) (s : Bands) → TakesBand s (claim p s)
unfolding claim
claim-TakesBand p s =
    claimed-TakesBand p s _
      (claim_band-TakesFrom (s.band p).edf (s.band p).fifo (s.deadline_bursts p))

or-TakesBand :
    (s : Bands) (o rest : Option (QueuedTask × Bands))
    → TakesBand s o
    → TakesBand s rest
    → TakesBand s (elim o [ none ↦ rest | some r ↦ some r ])
or-TakesBand s none rest h k = k
or-TakesBand s (some r) rest h k = h

first_claim-TakesBand :
    (ps : List Priority) (target : Priority) (s : Bands) → TakesBand s (first_claim ps target s)
unfolding first_claim
first_claim-TakesBand [] target s = tt
first_claim-TakesBand (p ∷ ps) target s =
    let rest = first_claim-TakesBand ps target s in
    if_then_else_lem (TakesBand s) (is_same p target) (λ e. rest)
      (λ e. or-TakesBand s (claim p s) (first_claim ps target s) (claim-TakesBand p s) rest)

count_claim-TakesBand :
    (s : Bands) (o : Option (QueuedTask × Bands)) → TakesBand s o → TakesBand s (count_claim o)
unfolding count_claim
count_claim-TakesBand s none h = tt
count_claim-TakesBand s (some (t, u)) h = h

claim_global-TakesBand : (s : Bands) → TakesBand s (claim_global s)
unfolding claim_global claim_from
claim_global-TakesBand s =
    let target = target_of s.calendar_index in
    count_claim-TakesBand s _ (
      or-TakesBand s (claim target s) (first_claim fallback_order target s)
        (claim-TakesBand target s) (first_claim-TakesBand fallback_order target s))

-- A task leaves the queues.
abbrev pub TakesTask : ReadyQueues → Option Claimed → Type 0
TakesTask q none = Unit
TakesTask q (some c) = (x : ℕ) → held x q ≡ one x c.claimed.task + held x c.queues

pub take_global-TakesTask :
    (bursts : Priority → ℕ) (index : ℕ) (q : ReadyQueues) → TakesTask q (take_global bursts index q)
unfolding take_global
take_global-TakesTask bursts index q =
    let s : Bands = record {
      band = q.global_bands;
      deadline_bursts = bursts;
      calendar_index = index;
      claimed_count = q.claimed_count;
      metrics = q.metrics;
    } in
    given q (claim_global s) s refl (claim_global-TakesBand s)
  where
    given :
        (q : ReadyQueues) (o : Option (QueuedTask × Bands)) (s : Bands)
        → s.band ≡ q.global_bands
        → TakesBand s o
        → TakesTask q (elim o [
          | none ↦ none
          | some r ↦ some (record {
            claimed = r.0;
            queues = record q {
              global_bands = r.1.band;
              claimed_count = r.1.claimed_count;
              metrics = r.1.metrics;
            };
            calendar_index = r.1.calendar_index;
          })
        ])
    given q none s e h = tt
    given q (some r) s e h =
        λ x. omega (arith, h x, ap (λ (f : Priority → Band). total (in_band x) f) e)

local-TakesTask :
    (q : ReadyQueues) (worker index : ℕ) (o : Option LocalClaim)
    → worker < length q.local_queues
    → TakesOne (get_or q.local_queues worker no_queues) o
    → TakesTask q (elim o [
      | none ↦ none
      | some c ↦ some (record {
        claimed = c.claimed;
        queues = record q {
          local_queues = set q.local_queues worker c.left;
          claimed_count = add64 q.claimed_count 1;
        };
        calendar_index = (index + 1) % 15;
      })
    ])
local-TakesTask q worker index none inside h = tt
local-TakesTask q worker index (some c) inside h =
    λ x. omega (arith, h x, in_locals-set x q.local_queues worker c.left inside)

take_local-TakesTask :
    (owner : Bool) (contended : Priority → Bool) (worker index : ℕ) (q : ReadyQueues)
    → TakesTask q (take_local owner contended worker index q)
unfolding take_local
take_local-TakesTask owner contended worker index q =
    if_then_else_lem (TakesTask q) (ltb worker (length q.local_queues))
      (λ e. local-TakesTask q worker index _ (ltb→lt worker (length q.local_queues) e) (
        claim_end-TakesOne q.backend owner contended index
          (get_or q.local_queues worker no_queues)))
      (λ e. tt)

count_local-TakesTask :
    (q : ReadyQueues) (o : Option Claimed) → TakesTask q o → TakesTask q (count_local o)
unfolding count_local
count_local-TakesTask q none h = tt
count_local-TakesTask q (some c) h = h

pub claim_local-TakesTask :
    (worker index : ℕ) (q : ReadyQueues) → TakesTask q (claim_local worker index q)
unfolding claim_local
claim_local-TakesTask worker index q =
    count_local-TakesTask q _ (take_local-TakesTask true (λ p. false) worker index q)

pub steal-TakesTask :
    (contended : Priority → Bool) (victim index : ℕ) (q : ReadyQueues)
    → TakesTask q (steal contended victim index q)
unfolding steal
steal-TakesTask contended victim index q = take_local-TakesTask false contended victim index q
