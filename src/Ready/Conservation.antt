-- ===== src/Ready/Conservation.antt =====
-- Every task that is published is queued, claimed by a worker, or cancelled.
use astra_scheduler.Base.{
  ℕ, zero, suc, ◌+◌, ◌<◌, ◌≡◌, refl, ap, ◌∙◌, subst, inl, inr, Bool, false, ◌&&◌, Option, none,
  some, List, [], ◌∷◌, ◌++◌, arith, ltb, Bool-cases, length, get_or, replicate, count, count-append,
  add64, if_then_else_lem,
}
use astra_scheduler.Metrics.{Metrics}
use astra_scheduler.Ready.{Priority, QueuedTask, EdfEntry, Band, write}
use astra_scheduler.Ready.Publishing.{
  TaskInvokers, LocalDequeBackend, ReadyQueues, accepts, no_queues, push_local, push_edf,
  publish_ready, queue_deadline, publish, Claimed, claim_local, steal, complete_claim, take_global,
}
use astra_scheduler.Ready.Holding.{
  task_ids, entry_ids, total-write, in_band, in_queue, in_locals, held, one, entry_ids-append,
  in_queue-snoc, in_locals-set,
}
use astra_scheduler.Ready.Cancelling.{cancelled_tasks, cancel_unstarted}
use astra_scheduler.Ready.Emptying.{
  push_fifo-held, push_fifo-held, cancel_unstarted-splits, cancel_unstarted-splits,
}
use astra_scheduler.Ready.Taking.{
  TakesTask, take_global-TakesTask, claim_local-TakesTask, steal-TakesTask,
}

-- The queues, and the tasks published, claimed and cancelled so far, the latest first.
pub record System : Type 0 where
  pub queues : ReadyQueues
  pub published : List ℕ
  pub claimed : List ℕ
  pub cancelled : List ℕ

-- A call of some thread. Each worker has its own calendar and bursts, which it brings along.
pub data Step (inv : TaskInvokers) (a : System) : System → Type 0 where
  publishes :
      (grows is_external use_local_queue : Bool) (worker task : ℕ)
      → Step inv a (record a {
        queues = publish inv grows task is_external use_local_queue worker a.queues;
        published = task ∷ a.published;
      })
  claims_global :
      (bursts : Priority → ℕ) (index : ℕ) (c : Claimed)
      → take_global bursts index a.queues ≡ some c
      → Step inv a (record a { queues = c.queues; claimed = c.claimed.task ∷ a.claimed })
  claims_local :
      (worker index : ℕ) (c : Claimed)
      → claim_local worker index a.queues ≡ some c
      → Step inv a (record a { queues = c.queues; claimed = c.claimed.task ∷ a.claimed })
  steals :
      (contended : Priority → Bool) (victim index : ℕ) (c : Claimed)
      → steal contended victim index a.queues ≡ some c
      → Step inv a (record a { queues = c.queues; claimed = c.claimed.task ∷ a.claimed })
  completes : Step inv a (record a { queues = complete_claim a.queues })
  cancels : Step inv a (record a {
    queues = cancel_unstarted inv a.queues;
    cancelled = task_ids (cancelled_tasks inv a.queues) ++ a.cancelled;
  })

pub data Runs (inv : TaskInvokers) (a : System) : System → Type 0 where
  here : Runs inv a a
  next : {b c : System} → Runs inv a b → Step inv b c → Runs inv a c

abbrev pub no_band : Band
no_band = record { edf = []; fifo = [] }

-- Queues of so many workers with nothing in them.
abbrev pub make_queues : LocalDequeBackend → ℕ → Metrics → System
make_queues backend workers metrics = record {
  queues = record {
    backend = backend;
    global_bands = λ p. no_band;
    global_admission_sequence = 0;
    local_queues = replicate workers no_queues;
    claimed_count = 0;
    metrics = metrics;
  };
  published = [];
  claimed = [];
  cancelled = [];
}

push_edf-held :
    (x : ℕ) (p : Priority) (d : ℕ) (t : QueuedTask) (q : ReadyQueues)
    → held x (push_edf p d t q) ≡ held x q + one x t.task
unfolding push_edf
push_edf-held x p d t q =
    let b = q.global_bands p in
    let e : EdfEntry = record {
      deadline = d;
      admission_sequence = add64 q.global_admission_sequence 1;
      queued = t;
    } in
    let w = total-write (in_band x) q.global_bands p (record b { edf = b.edf ++ (e ∷ []) }) in
    let c =
      ap (count x) (entry_ids-append b.edf (e ∷ []))
      ∙ count-append x (entry_ids b.edf) (t.task ∷ []) in
    omega arith

push_local-held :
    (x worker : ℕ) (p : Priority) (t : QueuedTask) (q : ReadyQueues)
    → worker < length q.local_queues
    → held x (push_local worker p t q) ≡ held x q + one x t.task
unfolding push_local
push_local-held x worker p t q inside =
    let bands = get_or q.local_queues worker no_queues in
    let more = write bands p (bands p ++ (t ∷ [])) in
    let w = total-write (in_queue x) bands p (bands p ++ (t ∷ [])) in
    let s = in_locals-set x q.local_queues worker more inside in
    omega (arith, in_queue-snoc x (bands p) t)

publish-held :
    (x : ℕ) (inv : TaskInvokers) (grows is_external use_local_queue : Bool) (worker task : ℕ)
    (q : ReadyQueues)
    → held x (publish inv grows task is_external use_local_queue worker q) ≡ held x q + one x task
unfolding publish
publish-held x inv grows is_external use_local_queue worker task q = given (queue_deadline inv task)
  where
    given :
        (d : Option ℕ)
        → held x (elim d [
          | none ↦ publish_ready inv grows task is_external use_local_queue worker q
          | some d ↦
              push_edf (inv.priority task) d (record { task = task; is_external = is_external }) q
        ])
          ≡ held x q + one x task
    given (some d) =
        push_edf-held x (inv.priority task) d (record { task = task; is_external = is_external }) q
    given none =
        if_then_else_lem (λ (r : ReadyQueues). held x r ≡ held x q + one x task)
          (use_local_queue && ltb worker (length q.local_queues) && accepts q.backend grows)
          (λ e.
            push_local-held x worker (inv.priority task)
              (record { task = task; is_external = false }) q (ground arith))
          (λ e.
            push_fifo-held inv x (inv.priority task)
              (record { task = task; is_external = is_external }) q)

-- Each task so far is somewhere, once for each time that it was published.
pub record IsKept (a : System) : Type 0 where
  pub kept_all :
      (x : ℕ) → count x a.published ≡ held x a.queues + count x a.claimed + count x a.cancelled

takes-IsKept :
    (a : System) (o : Option Claimed) (c : Claimed)
    → TakesTask a.queues o
    → o ≡ some c
    → IsKept a
    → IsKept (record a { queues = c.queues; claimed = c.claimed.task ∷ a.claimed })
takes-IsKept a o c t e k =
    let taken : TakesTask a.queues (some c) = subst (TakesTask a.queues) e t in
    record { kept_all = λ x. omega (arith, taken x, k.kept_all x) }

cancels-IsKept :
    (inv : TaskInvokers) (a : System)
    → IsKept a
    → IsKept (record a {
      queues = cancel_unstarted inv a.queues;
      cancelled = task_ids (cancelled_tasks inv a.queues) ++ a.cancelled;
    })
cancels-IsKept inv a k = record {
  kept_all = λ x.
      let (stays, goes) = cancel_unstarted-splits inv x a.queues in
      let before = k.kept_all x in
      let all = count-append x (task_ids (cancelled_tasks inv a.queues)) a.cancelled in
      elim (Bool-cases (inv.is_resume_segment x)) [ inl e ↦ ground arith | inr e ↦ ground arith ];
}

Step-IsKept : {inv : TaskInvokers} {a b : System} → Step inv a b → IsKept a → IsKept b
unfolding complete_claim
Step-IsKept {inv} {a} (Step.publishes grows ext local worker task) k = record {
  kept_all =
      λ x. omega (arith, publish-held x inv grows ext local worker task a.queues, k.kept_all x);
}
Step-IsKept {inv} {a} (Step.claims_global bursts index c e) k =
    takes-IsKept a _ c (take_global-TakesTask bursts index a.queues) e k
Step-IsKept {inv} {a} (Step.claims_local worker index c e) k =
    takes-IsKept a _ c (claim_local-TakesTask worker index a.queues) e k
Step-IsKept {inv} {a} (Step.steals contended victim index c e) k =
    takes-IsKept a _ c (steal-TakesTask contended victim index a.queues) e k
Step-IsKept {inv} {a} Step.completes k = record { kept_all = k.kept_all }
Step-IsKept {inv} {a} Step.cancels k = cancels-IsKept inv a k

nothing_local : (x n : ℕ) → in_locals x (replicate n no_queues) ≡ 0
nothing_local x zero = refl
nothing_local x (suc n) = omega (arith, nothing_local x n)

-- From empty queues on, with either backend and any number of workers, in whatever order threads
-- publish, claim, steal and cancel, and whether or not a deque takes a task and a thief is beaten: a
-- task has been published as often as it is queued, has been claimed or has been cancelled, so that none
-- is lost and none is run twice.
pub Runs-IsKept :
    {inv : TaskInvokers} {backend : LocalDequeBackend} (workers : ℕ) {metrics : Metrics}
    {a : System}
    → Runs inv (make_queues backend workers metrics) a
    → IsKept a
Runs-IsKept workers Runs.here = record { kept_all = λ x. omega (arith, nothing_local x workers) }
Runs-IsKept workers (Runs.next r st) = Step-IsKept st (Runs-IsKept workers r)
