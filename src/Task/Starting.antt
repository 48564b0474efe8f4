-- ===== src/Task/Starting.antt =====
-- A task starts at most once, and its end is final.
use astra_scheduler.Base.{
  ℕ, suc, ◌+◌, ◌≤◌, ◌≡◌, refl, true, List, [], ◌∷◌, ◌++◌, Option, some, arith, if◌then◌else◌,
}
use astra_scheduler.Task.{
  TaskState, TaskControlBlock, Callback, Effect, Op, is_terminal, is_completed, is_ready,
  record_terminal_wall_time, transition_to_suspended, transition_to_running,
  add_completion_callback, request_cancel, finish, try_start, apply, run, make_task_control_block,
  is_some,
}

-- The answers that the task is to be run now, and the cancellations before the start, among the effects.
abbrev pub outsets : List Effect → ℕ
outsets [] = 0
outsets (Effect.starts_body ∷ es) = suc (outsets es)
outsets (Effect.records_cancelled_before_start h ∷ es) = suc (outsets es)
outsets (e ∷ es) = outsets es

outsets-append : (es fs : List Effect) → outsets (es ++ fs) ≡ outsets es + outsets fs
outsets-append [] fs = omega arith
outsets-append (Effect.starts_body ∷ es) fs = omega (arith, outsets-append es fs)
outsets-append (Effect.records_cancelled_before_start h ∷ es) fs =
    omega (arith, outsets-append es fs)
outsets-append (e ∷ es) fs = outsets-append es fs

outsets-wall_time : (now : ℕ) (t : TaskControlBlock) → outsets (record_terminal_wall_time now t) ≡ 0
unfolding record_terminal_wall_time
outsets-wall_time now t = ground arith

-- What is left to a task: one start or one cancellation while it is Ready, and none afterwards.
abbrev pub chances : TaskControlBlock → ℕ
chances t = if is_ready t.state then 1 else 0

-- An operation uses up what it reports, and a completed task stays so.
abbrev Spends : TaskControlBlock → TaskControlBlock × List Effect → Type 0
Spends t r =
    (outsets r.1 + chances r.0 ≤ chances t)
    × (is_terminal t.state ≡ true → is_terminal r.0.state ≡ true)

finish-Spends :
    (state : TaskState) (metric : Effect) (now : ℕ) (t : TaskControlBlock)
    → is_terminal state ≡ true
    → outsets (metric ∷ []) ≡ 0
    → Spends t (finish state metric now t)
unfolding finish
finish-Spends state metric now t e m = (
  ground (
    arith,
    outsets-append (record_terminal_wall_time now t)
        (metric ∷ Effect.takes t.completion_callbacks ∷ []),
    outsets-append (metric ∷ []) (Effect.takes t.completion_callbacks ∷ []),
    outsets-wall_time now t,
  ),
  λ h. e,
)

cancel-Spends : (now : ℕ) (t : TaskControlBlock) → Spends t (request_cancel now t)
unfolding request_cancel
cancel-Spends now t =
    let rest = Effect.records_cancelled_before_start (is_some t.deadline) in
    (
      ground (
        arith,
        outsets-append (record_terminal_wall_time now t)
            (rest ∷ Effect.takes t.completion_callbacks ∷ []),
        outsets-wall_time now t,
      ),
      λ h. ground arith,
    )

start-Spends : (now : ℕ) (t : TaskControlBlock) → Spends t (apply (Op.starts now) t)
unfolding apply try_start
start-Spends now t = (ground arith, λ h. ground arith)

add-Spends : (cb : Callback) (t : TaskControlBlock) → Spends t (add_completion_callback cb t)
unfolding add_completion_callback
add-Spends cb t = ground arith

suspend-Spends : (t : TaskControlBlock) → Spends t (transition_to_suspended t)
unfolding transition_to_suspended
suspend-Spends t = (ground arith, λ h. ground arith)

resume-Spends : (t : TaskControlBlock) → Spends t (transition_to_running t)
unfolding transition_to_running
resume-Spends t = (ground arith, λ h. ground arith)

apply-Spends : (o : Op) (t : TaskControlBlock) → Spends t (apply o t)
unfolding apply
apply-Spends Op.suspends t = suspend-Spends t
apply-Spends Op.resumes t = resume-Spends t
apply-Spends Op.observes t = (omega arith, λ h. h)
apply-Spends Op.hands_off t = (omega arith, λ h. h)
apply-Spends Op.publishes_suspend t = (omega arith, λ h. h)
apply-Spends (Op.adds cb) t = add-Spends cb t
apply-Spends (Op.cancels now) t = cancel-Spends now t
apply-Spends (Op.starts now) t = start-Spends now t
apply-Spends (Op.succeeds now) t = finish-Spends TaskState.succeeded _ now t refl refl
apply-Spends (Op.cancels_cooperatively now) t = finish-Spends TaskState.cancelled _ now t refl refl
apply-Spends (Op.republishes now) t = (omega arith, λ h. h)
apply-Spends (Op.fails ex now) t =
    finish-Spends TaskState.failed _ now (record t { exception = some ex }) refl refl
apply-Spends (Op.reschedules r) t = (omega arith, λ h. h)

run-Spends : (os : List Op) (t : TaskControlBlock) → Spends t (run os t)
unfolding run
run-Spends [] t = (omega arith, λ h. h)
run-Spends (o ∷ os) t =
    let t₁ = (apply o t).0 in
    let (now, stays) = apply-Spends o t in
    let (later, stays') = run-Spends os t₁ in
    (omega (arith, outsets-append (apply o t).1 (run os t₁).1, now, later), λ h. stays' (stays h))

-- Over any history of a fresh task, whatever calls it holds and in whatever order, try_start
-- answers at most once that the task is to be run, and request_cancel cancels it before its start at
-- most once, and never both.
pub starts_once :
    (os : List Op) (deadline : Option ℕ) (now : ℕ)
    → outsets (run os (make_task_control_block deadline now)).1 ≤ 1
unfolding make_task_control_block
starts_once os deadline now =
    omega (arith, (run-Spends os (make_task_control_block deadline now)).0)

-- A completed task stays completed, whatever is called afterwards, though perhaps in another of the
-- three terminal states; and try_start never answers again that it is to be run, nor does
-- request_cancel report a cancellation before the start.
pub completion_is_final :
    (os : List Op) (t : TaskControlBlock)
    → is_completed t ≡ true
    → (is_completed (run os t).0 ≡ true) × (outsets (run os t).1 ≡ 0)
unfolding is_completed
completion_is_final os t done = ((run-Spends os t).1 done, ground (arith, (run-Spends os t).0))
