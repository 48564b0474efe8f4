-- ===== src/Ready/Emptying.antt =====
-- What an immediate shutdown leaves in the queues: the resumptions, all of them and nothing else.
use astra_scheduler.Base.{
  ℕ, ◌+◌, ◌≡◌, refl, ap, ◌∙◌, inl, inr, List, [], ◌∷◌, ◌++◌, arith, ℕ_discrete, if◌then◌else◌,
  Bool-cases, count, count-append,
}
use astra_scheduler.Ready.{Priority, QueuedTask, EdfEntry, Band}
use astra_scheduler.Ready.Publishing.{TaskInvokers, LocalDequeBackend, ReadyQueues, push_fifo}
use astra_scheduler.Ready.Holding.{
  task_ids, entry_ids, total, total-write, in_band, in_queue, in_locals, held, one, task_ids-append,
  in_queue-snoc,
}
use astra_scheduler.Ready.Cancelling.{
  queued_tasks, join_bands, keep_resumes, drop_unstarted, keep_entries, dropped_entries,
  dropped_fifo, kept_bands, kept_local, dropped_local, dropped_locals, kept_locals, local_resumes,
  push_resumes, dropped_global, cancelled_tasks, cancel_unstarted,
}

-- How often a task is kept, or dropped.
abbrev pub kept : TaskInvokers → ℕ → ℕ → ℕ
kept inv x n = if inv.is_resume_segment x then n else 0

abbrev pub dropped : TaskInvokers → ℕ → ℕ → ℕ
dropped inv x n = if inv.is_resume_segment x then 0 else n

module _ (inv : TaskInvokers) (x : ℕ) where
  keep_resumes-count :
      (ts : List QueuedTask) → in_queue x (keep_resumes inv ts) ≡ kept inv x (in_queue x ts)
  unfolding keep_resumes
  keep_resumes-count [] = ground arith
  keep_resumes-count (t ∷ ts) = elim (ℕ_discrete x t.task) [
    | yes e ↦ ground (arith, keep_resumes-count ts, ap inv.is_resume_segment e)
    | no ne ↦ ground (arith, keep_resumes-count ts)
  ]

  drop_unstarted-count :
      (ts : List QueuedTask) → in_queue x (drop_unstarted inv ts) ≡ dropped inv x (in_queue x ts)
  unfolding drop_unstarted
  drop_unstarted-count [] = ground arith
  drop_unstarted-count (t ∷ ts) = elim (ℕ_discrete x t.task) [
    | yes e ↦ ground (arith, drop_unstarted-count ts, ap inv.is_resume_segment e)
    | no ne ↦ ground (arith, drop_unstarted-count ts)
  ]

  keep_entries-count :
      (es : List EdfEntry)
      → count x (entry_ids (keep_entries inv es)) ≡ kept inv x (count x (entry_ids es))
  unfolding keep_entries
  keep_entries-count [] = ground arith
  keep_entries-count (e ∷ es) = elim (ℕ_discrete x e.queued.task) [
    | yes is ↦ ground (arith, keep_entries-count es, ap inv.is_resume_segment is)
    | no ne ↦ ground (arith, keep_entries-count es)
  ]

  queued_tasks-count : (es : List EdfEntry) → in_queue x (queued_tasks es) ≡ count x (entry_ids es)
  queued_tasks-count [] = refl
  queued_tasks-count (e ∷ es) = omega (arith, queued_tasks-count es)

  in_queue-append :
      (ts us : List QueuedTask) → in_queue x (ts ++ us) ≡ in_queue x ts + in_queue x us
  in_queue-append ts us = rw (task_ids-append ts us) (count-append x (task_ids ts) (task_ids us))

  join_bands-count :
      (f : Priority → List QueuedTask) → in_queue x (join_bands f) ≡ total (in_queue x) f
  join_bands-count f = omega (
    arith,
    in_queue-append (f Priority.low)
        (f Priority.normal ++ (f Priority.high ++ f Priority.critical)),
    in_queue-append (f Priority.normal) (f Priority.high ++ f Priority.critical),
    in_queue-append (f Priority.high) (f Priority.critical),
  )

  pub push_fifo-held :
      (p : Priority) (t : QueuedTask) (q : ReadyQueues)
      → held x (push_fifo p t q) ≡ held x q + one x t.task
  unfolding push_fifo
  push_fifo-held p t q =
      let b = q.global_bands p in
      let w = total-write (in_band x) q.global_bands p (record b { fifo = b.fifo ++ (t ∷ []) }) in
      omega (arith, in_queue-snoc x b.fifo t)

  push_resumes-held :
      (ts : List QueuedTask) (q : ReadyQueues)
      → held x (push_resumes inv ts q) ≡ held x q + in_queue x ts
  unfolding push_resumes
  push_resumes-held [] q = omega arith
  push_resumes-held (t ∷ ts) q = omega (
    arith,
    push_resumes-held ts (push_fifo (inv.priority t.task) t q),
    push_fifo-held (inv.priority t.task) t q,
  )

  kept_local-count :
      (f : Priority → List QueuedTask)
      → total (in_queue x) (kept_local inv f) ≡ kept inv x (total (in_queue x) f)
  kept_local-count f =
      let a = keep_resumes-count (f Priority.low) in
      let b = keep_resumes-count (f Priority.normal) in
      let c = keep_resumes-count (f Priority.high) in
      let d = keep_resumes-count (f Priority.critical) in ground arith

  kept_band-count :
      (b : Band)
      → in_band x (record { edf = keep_entries inv b.edf; fifo = keep_resumes inv b.fifo })
        ≡ kept inv x (in_band x b)
  kept_band-count b =
      let k = keep_entries-count b.edf in let l = keep_resumes-count b.fifo in ground arith

  locals-count :
      (backend : LocalDequeBackend) (fs : List (Priority → List QueuedTask))
      → in_locals x (kept_locals inv backend fs) + in_queue x (local_resumes inv backend fs)
        ≡ kept inv x (in_locals x fs)
  unfolding kept_locals local_resumes
  locals-count backend [] = ground arith
  locals-count LocalDequeBackend.locked (f ∷ fs) =
      let rest = locals-count LocalDequeBackend.locked fs in
      let here = kept_local-count f in ground arith
  locals-count LocalDequeBackend.chase_lev_lock_free (f ∷ fs) =
      let rest = locals-count LocalDequeBackend.chase_lev_lock_free fs in
      let here = kept_local-count f in
      let moved =
        in_queue-append (join_bands (kept_local inv f))
          (local_resumes inv LocalDequeBackend.chase_lev_lock_free fs) in
      let spread = join_bands-count (kept_local inv f) in ground arith

  dropped_local-count :
      (f : Priority → List QueuedTask)
      → in_queue x (join_bands (dropped_local inv f)) ≡ dropped inv x (total (in_queue x) f)
  dropped_local-count f =
      let spread = join_bands-count (dropped_local inv f) in
      let a = drop_unstarted-count (f Priority.low) in
      let b = drop_unstarted-count (f Priority.normal) in
      let c = drop_unstarted-count (f Priority.high) in
      let d = drop_unstarted-count (f Priority.critical) in ground arith

  dropped_locals-count :
      (fs : List (Priority → List QueuedTask))
      → in_queue x (dropped_locals inv fs) ≡ dropped inv x (in_locals x fs)
  unfolding dropped_locals
  dropped_locals-count [] = ground arith
  dropped_locals-count (f ∷ fs) =
      let rest = dropped_locals-count fs in
      let here = dropped_local-count f in
      let split = in_queue-append (join_bands (dropped_local inv f)) (dropped_locals inv fs) in
      ground arith

  kept_bands-count :
      (bands : Priority → Band)
      → total (in_band x) (kept_bands inv bands) ≡ kept inv x (total (in_band x) bands)
  kept_bands-count bands =
      let at = λ (p : Priority). kept_band-count (bands p) in
      let a = at Priority.low in
      let b = at Priority.normal in
      let c = at Priority.high in let d = at Priority.critical in ground arith

  dropped_entries-count :
      (es : List EdfEntry)
      → in_queue x (drop_unstarted inv (queued_tasks es)) ≡ dropped inv x (count x (entry_ids es))
  dropped_entries-count es =
      drop_unstarted-count (queued_tasks es) ∙ ap (dropped inv x) (queued_tasks-count es)

  dropped_global-count :
      (bands : Priority → Band)
      → in_queue x (dropped_global inv bands) ≡ dropped inv x (total (in_band x) bands)
  dropped_global-count bands =
      let split =
        in_queue-append (join_bands (dropped_entries inv bands))
          (join_bands (dropped_fifo inv bands)) in
      let entries = join_bands-count (dropped_entries inv bands) in
      let fifos = join_bands-count (dropped_fifo inv bands) in
      let a = λ (p : Priority). dropped_entries-count (bands p).edf in
      let b = λ (p : Priority). drop_unstarted-count (bands p).fifo in
      let el = a Priority.low in
      let en = a Priority.normal in
      let eh = a Priority.high in
      let ec = a Priority.critical in
      let fl = b Priority.low in
      let fn = b Priority.normal in
      let fh = b Priority.high in
      let fc = b Priority.critical in
      elim (Bool-cases (inv.is_resume_segment x)) [ inl e ↦ ground arith | inr e ↦ ground arith ]

-- An immediate shutdown's cancel_unstarted keeps each queued resumption of a suspended coroutine
-- exactly as often as it was queued, wherever it was, and cancels every other queued task exactly as
-- often as it was queued, none of which it leaves.
pub cancel_unstarted-splits :
    (inv : TaskInvokers) (x : ℕ) (q : ReadyQueues)
    → (held x (cancel_unstarted inv q) ≡ kept inv x (held x q))
      × (in_queue x (cancelled_tasks inv q) ≡ dropped inv x (held x q))
unfolding cancel_unstarted cancelled_tasks
cancel_unstarted-splits inv x q =
    let moved = push_resumes-held inv x (local_resumes inv q.backend q.local_queues) (record q {
      global_bands = kept_bands inv q.global_bands;
      local_queues = kept_locals inv q.backend q.local_queues;
    }) in
    let global = kept_bands-count inv x q.global_bands in
    let local = locals-count inv x q.backend q.local_queues in
    let split =
      in_queue-append inv x (dropped_global inv q.global_bands)
        (dropped_locals inv q.local_queues) in
    let d = dropped_global-count inv x q.global_bands in
    let l = dropped_locals-count inv x q.local_queues in (ground arith, ground arith)
