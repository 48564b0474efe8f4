-- ===== src/Task.antt =====
-- src/task/task_control_block.hpp and task_control_block.cpp: the state of one task. A method is one
-- function: it returns the state that its critical section leaves and what it reports. The completion
-- callbacks that it takes out are run after the mutex is released, one by one, while other threads call
-- their methods: each is a step of its own. The clock's readings are arguments, in nanoseconds since
-- the clock's epoch.
pub mod Callbacks
pub mod Starting
pub mod Examples
use astra_scheduler.Base.{
  ℕ, zero, suc, ◌+◌, ◌-◌, Bool, true, false, not, ◌&&◌, ◌||◌, List, [], ◌∷◌, ◌++◌, Option, none,
  some, ltb, leb, ◌==◌, if◌then◌else◌, add64,
}

pub data TaskState : Type 0 where
  waiting ready running suspended succeeded failed cancelled : TaskState

pub data DeadlineDisposition : Type 0 where
  no_deadline met missed : DeadlineDisposition

-- A completion callback: `none` is an empty std::function. Exceptions and callbacks are told apart by
-- a number.
abbrev pub Callback : Type 0
Callback = Option ℕ

pub record TaskControlBlock : Type 0 where
  pub deadline : Option ℕ
  pub deadline_disposition : DeadlineDisposition
  pub stop_requested : Bool
  pub state : TaskState
  pub exception : Option ℕ
  pub observed : Bool
  pub resume_handoff_seq : ℕ
  pub suspend_published_seq : ℕ
  pub completion_callbacks : List Callback
  pub has_rescheduler : Bool
  pub admitted_at_ns : ℕ
  pub ready_published_at_ns : ℕ

-- What a method does besides changing the fields: it takes out callbacks that its thread runs once the
-- mutex is released, it answers that the task is to be run now, or it calls one of the record_metrics
-- functions.
pub data Effect : Type 0 where
  takes : List Callback → Effect
  starts_body : Effect
  records_suspended : Effect
  records_wall_time : ℕ → Effect
  records_cancelled_before_start : Bool → Effect
  records_deadline_lateness : ℕ → Effect
  records_ready_queue_wait : ℕ → Effect
  records_first_start : Option DeadlineDisposition → Effect
  records_execution_segment : ℕ → Effect
  records_succeeded : Effect
  records_failed : Effect
  records_cancelled_cooperative : Effect
  records_unobserved_failure : Effect

abbrev pub is_some {ℓ} : {A : Type ℓ} → Option A → Bool
is_some none = false
is_some (some a) = true

abbrev pub is_terminal : TaskState → Bool
is_terminal TaskState.succeeded = true
is_terminal TaskState.failed = true
is_terminal TaskState.cancelled = true
is_terminal _ = false

abbrev pub is_ready : TaskState → Bool
is_ready TaskState.ready = true
is_ready _ = false

-- The constructor: admission and publication are stamped with the same reading.
unfoldable pub make_task_control_block : Option ℕ → ℕ → TaskControlBlock
make_task_control_block deadline now = record {
  deadline = deadline;
  deadline_disposition = DeadlineDisposition.no_deadline;
  stop_requested = false;
  state = TaskState.ready;
  exception = none;
  observed = false;
  resume_handoff_seq = 0;
  suspend_published_seq = 0;
  completion_callbacks = [];
  has_rescheduler = false;
  admitted_at_ns = now;
  ready_published_at_ns = now;
}

unfoldable pub record_terminal_wall_time : ℕ → TaskControlBlock → List Effect
record_terminal_wall_time now t =
    if leb t.admitted_at_ns now && ltb 0 t.admitted_at_ns
    then Effect.records_wall_time (now - t.admitted_at_ns) ∷ []
    else []

unfoldable pub is_completed : TaskControlBlock → Bool
is_completed t = is_terminal t.state

unfoldable pub transition_to_suspended : TaskControlBlock → TaskControlBlock × List Effect
transition_to_suspended t = elim t.state [
  | TaskState.running ↦ (
    record t { state = TaskState.suspended; ready_published_at_ns = 0 },
    Effect.records_suspended ∷ [],
  )
  | _ ↦ (t, [])
]

unfoldable pub transition_to_running : TaskControlBlock → TaskControlBlock × List Effect
transition_to_running t = elim t.state [
  | TaskState.suspended ↦ (record t { state = TaskState.running }, [])
  | TaskState.ready ↦ (record t { state = TaskState.running }, [])
  | _ ↦ (t, [])
]

unfoldable pub add_completion_callback :
    Callback → TaskControlBlock → TaskControlBlock × List Effect
unfolding is_completed
add_completion_callback cb t =
    if is_completed t
    then (t, Effect.takes (cb ∷ []) ∷ [])
    else (record t { completion_callbacks = t.completion_callbacks ++ cb ∷ [] }, [])

unfoldable pub request_cancel : ℕ → TaskControlBlock → TaskControlBlock × List Effect
unfolding record_terminal_wall_time
request_cancel now t =
    if is_ready t.state
    then (
      record t { stop_requested = true; state = TaskState.cancelled; completion_callbacks = [] },
      record_terminal_wall_time now t
          ++ Effect.records_cancelled_before_start (is_some t.deadline)
            ∷ Effect.takes t.completion_callbacks
            ∷ [],
    )
    else (record t { stop_requested = true }, [])

-- The disposition that try_start settles, and the lateness that it records.
unfoldable pub settle_deadline :
    ℕ → Option ℕ → DeadlineDisposition → DeadlineDisposition × List Effect
settle_deadline now (some due) DeadlineDisposition.no_deadline =
    if leb now due
    then (DeadlineDisposition.met, [])
    else (DeadlineDisposition.missed, Effect.records_deadline_lateness (now - due) ∷ [])
settle_deadline now _ d = (d, [])

abbrev pub first_start : Option ℕ → DeadlineDisposition → Effect
first_start none d = Effect.records_first_start none
first_start (some due) d = Effect.records_first_start (some d)

abbrev queue_wait : ℕ → ℕ → List Effect
queue_wait now pub_ns =
    if leb pub_ns now && ltb 0 pub_ns
    then Effect.records_ready_queue_wait (now - pub_ns) ∷ []
    else []

unfoldable pub try_start : ℕ → TaskControlBlock → TaskControlBlock × Bool × List Effect
unfolding settle_deadline
try_start now t =
    if is_ready t.state
    then (let (d, late) = settle_deadline now t.deadline t.deadline_disposition in
        (
          record t { state = TaskState.running; deadline_disposition = d },
          true,
          late ++ (queue_wait now t.ready_published_at_ns ++ first_start t.deadline d ∷ []),
        ))
    else (t, false, [])

-- The common part of succeed, set_exception and set_cancelled: a terminal state is stored, whatever
-- the state was, and the callbacks are taken out.
unfoldable pub finish : TaskState → Effect → ℕ → TaskControlBlock → TaskControlBlock × List Effect
unfolding record_terminal_wall_time
finish state metric now t = (
  record t { state = state; completion_callbacks = []; has_rescheduler = false },
  record_terminal_wall_time now t ++ metric ∷ Effect.takes t.completion_callbacks ∷ [],
)

unfoldable pub succeed : ℕ → TaskControlBlock → TaskControlBlock × List Effect
unfolding finish
succeed = finish TaskState.succeeded Effect.records_succeeded

unfoldable pub set_exception : ℕ → ℕ → TaskControlBlock → TaskControlBlock × List Effect
unfolding finish
set_exception ex now t =
    finish TaskState.failed Effect.records_failed now (record t { exception = some ex })

unfoldable pub set_cancelled : ℕ → TaskControlBlock → TaskControlBlock × List Effect
unfolding finish
set_cancelled = finish TaskState.cancelled Effect.records_cancelled_cooperative

unfoldable pub mark_observed : TaskControlBlock → TaskControlBlock
mark_observed t = record t { observed = true }

unfoldable pub set_ready_published_at : ℕ → TaskControlBlock → TaskControlBlock
set_ready_published_at now t = record t { ready_published_at_ns = now }

unfoldable pub mark_resume_handoff : TaskControlBlock → TaskControlBlock
mark_resume_handoff t = record t { resume_handoff_seq = add64 t.resume_handoff_seq 1 }

unfoldable pub publish_await_suspend : TaskControlBlock → TaskControlBlock
publish_await_suspend t = record t { suspend_published_seq = t.resume_handoff_seq }

-- wait_for_await_suspend_publication returns as soon as this holds.
unfoldable pub may_resume : TaskControlBlock → Bool
may_resume t = t.resume_handoff_seq == 0 || leb t.resume_handoff_seq t.suspend_published_seq

unfoldable pub set_rescheduler : Bool → TaskControlBlock → TaskControlBlock
set_rescheduler r t = record t { has_rescheduler = r }

-- The destructor's report of a failure that nobody looked at.
unfoldable pub destroy : TaskControlBlock → List Effect
destroy t = elim t.state [
  | TaskState.failed ↦ if t.observed then [] else Effect.records_unobserved_failure ∷ []
  | _ ↦ []
]

-- What the threads of a runtime may do to a task, in some order.
pub data Op : Type 0 where
  suspends resumes observes hands_off publishes_suspend : Op
  adds : Callback → Op
  cancels starts succeeds cancels_cooperatively republishes : (now : ℕ) → Op
  fails : (ex now : ℕ) → Op
  reschedules : Bool → Op

unfoldable pub apply : Op → TaskControlBlock → TaskControlBlock × List Effect
unfolding transition_to_suspended transition_to_running add_completion_callback request_cancel
    try_start succeed set_exception set_cancelled mark_observed set_ready_published_at
    mark_resume_handoff publish_await_suspend set_rescheduler
apply Op.suspends t = transition_to_suspended t
apply Op.resumes t = transition_to_running t
apply Op.observes t = (mark_observed t, [])
apply Op.hands_off t = (mark_resume_handoff t, [])
apply Op.publishes_suspend t = (publish_await_suspend t, [])
apply (Op.adds cb) t = add_completion_callback cb t
apply (Op.cancels now) t = request_cancel now t
apply (Op.starts now) t =
    let (t', started, es) = try_start now t in (t', if started then Effect.starts_body ∷ es else es)
apply (Op.succeeds now) t = succeed now t
apply (Op.cancels_cooperatively now) t = set_cancelled now t
apply (Op.republishes now) t = (set_ready_published_at now t, [])
apply (Op.fails ex now) t = set_exception ex now t
apply (Op.reschedules r) t = (set_rescheduler r t, [])

-- A history of calls, with everything that they reported.
unfoldable pub run : List Op → TaskControlBlock → TaskControlBlock × List Effect
run [] t = (t, [])
run (o ∷ os) t = let (t₁, es) = apply o t in let (t₂, rest) = run os t₁ in (t₂, es ++ rest)

-- The callbacks that one call has taken out: those its thread has run, and those it has still to run.
pub record Batch : Type 0 where
  pub ran : List ℕ
  pub left : List Callback

-- A pass of `for (auto& cb : callbacks) if (cb) cb();`
unfoldable pub run_callback : Batch → Batch
run_callback b = elim b.left [
  | [] ↦ b
  | c ∷ cs ↦ (elim c [
    | none ↦ record b { left = cs }
    | some k ↦ record { ran = b.ran ++ k ∷ []; left = cs }
  ])
]

-- The task, and the batches that calls have taken out of it, in the order of the critical sections.
pub record System : Type 0 where
  pub task : TaskControlBlock
  pub batches : List Batch

-- A critical section, or the next pass of the thread with the i-th batch.
pub data Event : Type 0 where
  calls : Op → Event
  runs_next : (i : ℕ) → Event

abbrev pub batches_of : List Effect → List Batch
batches_of [] = []
batches_of (Effect.takes cs ∷ es) = record { ran = []; left = cs } ∷ batches_of es
batches_of (e ∷ es) = batches_of es

unfoldable pub run_nth : ℕ → List Batch → List Batch
unfolding run_callback
run_nth i [] = []
run_nth zero (b ∷ bs) = run_callback b ∷ bs
run_nth (suc i) (b ∷ bs) = b ∷ run_nth i bs

unfoldable pub happen : Event → System → System
unfolding apply run_nth
happen (Event.calls o) s =
    let (t, es) = apply o s.task in record { task = t; batches = s.batches ++ batches_of es }
happen (Event.runs_next i) s = record s { batches = run_nth i s.batches }

-- Any interleaving of the calls and of the passes.
unfoldable pub happens : List Event → System → System
happens [] s = s
happens (e ∷ es) s = happens es (happen e s)
