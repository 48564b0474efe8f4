-- ===== src/Ready/Misses.antt =====
-- A worker that claims from the global bands misses no task: it finds one exactly when there is one.
use astra_scheduler.Base.{
  ℕ, ◌+◌, ◌%◌, ◌≡◌, refl, ◌∙◌, Bool, true, false, ◌&&◌, Option, none, some, List, [], ◌∷◌, arith,
  ◌==◌, length, get_or,
}
use astra_scheduler.Ready.{
  Priority, QueuedTask, EdfEntry, Band, Claim, claim_band, calendar, Bands, write, claim,
  first_claim, count_claim, claim_from, claim_global,
}

abbrev pub is_none {ℓ} : {A : Type ℓ} → Option A → Bool
is_none none = true
is_none (some a) = false

abbrev pub is_idle : Band → Bool
is_idle b = length b.edf == 0 && length b.fifo == 0

abbrev pub all_idle : Bands → Bool
all_idle s =
    is_idle (s.band Priority.critical)
    && is_idle (s.band Priority.high)
    && is_idle (s.band Priority.normal)
    && is_idle (s.band Priority.low)

is_none-claim_band :
    (edf : List EdfEntry) (fifo : List QueuedTask) (burst : ℕ)
    → is_none (claim_band edf fifo burst) ≡ is_idle (record { edf = edf; fifo = fifo })
unfolding claim_band
is_none-claim_band [] [] burst = refl
is_none-claim_band [] (t ∷ ts) burst = ground arith
is_none-claim_band (x ∷ xs) [] burst = ground arith
is_none-claim_band (x ∷ xs) (t ∷ ts) burst = ground arith

is_none-some :
    (A B : Type 0) (o : Option A) (f : A → B)
    → is_none {A = B} (elim o [ none ↦ none | some a ↦ some (f a) ]) ≡ is_none o
is_none-some A B none f = refl
is_none-some A B (some a) f = refl

is_none-claim : (p : Priority) (s : Bands) → is_none (claim p s) ≡ is_idle (s.band p)
unfolding claim
is_none-claim p s =
    is_none-some Claim (QueuedTask × Bands)
      (claim_band (s.band p).edf (s.band p).fifo (s.deadline_bursts p))
      (λ c. (
        c.claimed,
        record s {
          band = write s.band p c.left;
          deadline_bursts = write s.deadline_bursts p c.deadline_burst;
          calendar_index = (s.calendar_index + 1) % 15;
        },
      ))
    ∙ is_none-claim_band (s.band p).edf (s.band p).fifo (s.deadline_bursts p)

-- The first of four that is there.
is_none-first_of :
    (a b c d : Option (QueuedTask × Bands))
    → is_none {A = QueuedTask × Bands} (elim a [
      | none ↦ elim b [
        | none ↦ elim c [ none ↦ elim d [ none ↦ none | some r ↦ some r ] | some r ↦ some r ]
        | some r ↦ some r
      ]
      | some r ↦ some r
    ])
      ≡ (is_none a && is_none b && is_none c && is_none d)
is_none-first_of (some a) b c d = refl
is_none-first_of none (some b) c d = refl
is_none-first_of none none (some c) d = refl
is_none-first_of none none none (some d) = refl
is_none-first_of none none none none = refl

is_none-count_claim : (o : Option (QueuedTask × Bands)) → is_none (count_claim o) ≡ is_none o
unfolding count_claim
is_none-count_claim none = refl
is_none-count_claim (some r) = refl

is_none-claim_from : (target : Priority) (s : Bands) → is_none (claim_from target s) ≡ all_idle s
unfolding claim_from first_claim
is_none-claim_from Priority.critical s =
    let c = is_none-claim Priority.critical s in
    let h = is_none-claim Priority.high s in
    let n = is_none-claim Priority.normal s in
    let l = is_none-claim Priority.low s in
    is_none-first_of (claim Priority.critical s) (claim Priority.high s) (claim Priority.normal s)
      (claim Priority.low s)
    ∙ (ground arith)
is_none-claim_from Priority.high s =
    let c = is_none-claim Priority.critical s in
    let h = is_none-claim Priority.high s in
    let n = is_none-claim Priority.normal s in
    let l = is_none-claim Priority.low s in
    is_none-first_of (claim Priority.high s) (claim Priority.critical s) (claim Priority.normal s)
      (claim Priority.low s)
    ∙ (ground arith)
is_none-claim_from Priority.normal s =
    let c = is_none-claim Priority.critical s in
    let h = is_none-claim Priority.high s in
    let n = is_none-claim Priority.normal s in
    let l = is_none-claim Priority.low s in
    is_none-first_of (claim Priority.normal s) (claim Priority.critical s) (claim Priority.high s)
      (claim Priority.low s)
    ∙ (ground arith)
is_none-claim_from Priority.low s =
    let c = is_none-claim Priority.critical s in
    let h = is_none-claim Priority.high s in
    let n = is_none-claim Priority.normal s in
    let l = is_none-claim Priority.low s in
    is_none-first_of (claim Priority.low s) (claim Priority.critical s) (claim Priority.high s)
      (claim Priority.normal s)
    ∙ (ground arith)

-- claim_global finds a task exactly when a band of some priority has one, wherever the worker's
-- calendar stands and whatever its bursts are.
pub is_none-claim_global : (s : Bands) → is_none (claim_global s) ≡ all_idle s
unfolding claim_global
is_none-claim_global s =
    let target = get_or calendar (s.calendar_index % 15) Priority.critical in
    is_none-count_claim (claim_from target s) ∙ is_none-claim_from target s
