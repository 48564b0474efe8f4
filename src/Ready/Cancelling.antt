-- ===== src/Ready/Cancelling.antt =====
-- ReadyQueues::cancel_unstarted: every task that has not started is cancelled and its slot released, and
-- the resumptions of suspended coroutines stay. What the locked backend keeps stays where it is; what
-- the Chase-Lev deques held moves to the global queues.
use astra_scheduler.Base.{List, [], ◌∷◌, ◌++◌, if◌then◌else◌}
use astra_scheduler.Admission.{AdmissionController, release}
use astra_scheduler.Ready.{Priority, QueuedTask, EdfEntry, Band}
use astra_scheduler.Ready.Publishing.{
  TaskInvokers, LocalDequeBackend, ReadyQueues, no_queues, push_fifo,
}

abbrev pub queued_tasks : List EdfEntry → List QueuedTask
queued_tasks [] = []
queued_tasks (e ∷ es) = e.queued ∷ queued_tasks es

abbrev pub join_bands : (Priority → List QueuedTask) → List QueuedTask
join_bands f = f Priority.low ++ (f Priority.normal ++ (f Priority.high ++ f Priority.critical))

-- A slot for each external task.
unfoldable pub release_external : List QueuedTask → AdmissionController → AdmissionController
unfolding release
release_external [] a = a
release_external (t ∷ ts) a = release_external ts (if t.is_external then release 1 a else a)

module _ (inv : TaskInvokers) where
  unfoldable pub keep_resumes : List QueuedTask → List QueuedTask
  keep_resumes [] = []
  keep_resumes (t ∷ ts) =
      let rest = keep_resumes ts in if inv.is_resume_segment t.task then t ∷ rest else rest

  unfoldable pub drop_unstarted : List QueuedTask → List QueuedTask
  drop_unstarted [] = []
  drop_unstarted (t ∷ ts) =
      let rest = drop_unstarted ts in if inv.is_resume_segment t.task then rest else t ∷ rest

  unfoldable pub keep_entries : List EdfEntry → List EdfEntry
  keep_entries [] = []
  keep_entries (e ∷ es) =
      let rest = keep_entries es in if inv.is_resume_segment e.queued.task then e ∷ rest else rest

  -- What leaves the global heaps and queues, and what stays there.
  abbrev pub dropped_entries : (Priority → Band) → Priority → List QueuedTask
  dropped_entries bands p = drop_unstarted (queued_tasks (bands p).edf)

  abbrev pub dropped_fifo : (Priority → Band) → Priority → List QueuedTask
  dropped_fifo bands p = drop_unstarted (bands p).fifo

  abbrev pub kept_bands : (Priority → Band) → Priority → Band
  kept_bands bands p = record {
    edf = keep_entries (bands p).edf;
    fifo = keep_resumes (bands p).fifo;
  }

  abbrev pub kept_local : (Priority → List QueuedTask) → Priority → List QueuedTask
  kept_local f p = keep_resumes (f p)

  abbrev pub dropped_local : (Priority → List QueuedTask) → Priority → List QueuedTask
  dropped_local f p = drop_unstarted (f p)

  -- LocalQueues::cancel_unstarted of each worker: the tasks cancelled, what stays, and the resumptions
  -- handed out.
  unfoldable pub dropped_locals : List (Priority → List QueuedTask) → List QueuedTask
  dropped_locals [] = []
  dropped_locals (f ∷ fs) = join_bands (dropped_local f) ++ dropped_locals fs

  unfoldable pub kept_locals :
      LocalDequeBackend → List (Priority → List QueuedTask) → List (Priority → List QueuedTask)
  kept_locals backend [] = []
  kept_locals LocalDequeBackend.locked (f ∷ fs) =
      kept_local f ∷ kept_locals LocalDequeBackend.locked fs
  kept_locals LocalDequeBackend.chase_lev_lock_free (f ∷ fs) =
      no_queues ∷ kept_locals LocalDequeBackend.chase_lev_lock_free fs

  unfoldable pub local_resumes :
      LocalDequeBackend → List (Priority → List QueuedTask) → List QueuedTask
  local_resumes backend [] = []
  local_resumes LocalDequeBackend.locked (f ∷ fs) = local_resumes LocalDequeBackend.locked fs
  local_resumes LocalDequeBackend.chase_lev_lock_free (f ∷ fs) =
      join_bands (kept_local f) ++ local_resumes LocalDequeBackend.chase_lev_lock_free fs

  -- The resumptions go to the end of the global queues.
  unfoldable pub push_resumes : List QueuedTask → ReadyQueues → ReadyQueues
  unfolding push_fifo
  push_resumes [] q = q
  push_resumes (t ∷ ts) q = push_resumes ts (push_fifo (inv.priority t.task) t q)

  abbrev pub dropped_global : (Priority → Band) → List QueuedTask
  dropped_global bands = join_bands (dropped_entries bands) ++ join_bands (dropped_fifo bands)

  -- The tasks that cancel_unstarted cancels, in order.
  unfoldable pub cancelled_tasks : ReadyQueues → List QueuedTask
  unfolding dropped_locals
  cancelled_tasks q = dropped_global q.global_bands ++ dropped_locals q.local_queues

  -- What it leaves.
  unfoldable pub cancel_unstarted : ReadyQueues → ReadyQueues
  unfolding push_resumes kept_locals local_resumes
  cancel_unstarted q = push_resumes (local_resumes q.backend q.local_queues) (record q {
    global_bands = kept_bands q.global_bands;
    local_queues = kept_locals q.backend q.local_queues;
  })

  -- The admission controller after it.
  unfoldable pub cancel_unstarted_admission :
      ReadyQueues → AdmissionController → AdmissionController
  unfolding release_external
  cancel_unstarted_admission q a = release_external (dropped_global q.global_bands) a
