-- ===== src/Task/Callbacks.antt =====
-- Completion callbacks over any history of a task: each runs once, in the order of registration, and
-- none is left behind.
use mathlib.Core.List.{append_assoc, append-nil}
use astra_scheduler.Base.{
  ℕ, zero, suc, ◌≡◌, refl, Bool, ◌&&◌, sym, ap, ◌∙◌, true, false, List, [], ◌∷◌, ◌++◌, Option, none,
  some, arith, Bool-cases, inl, inr,
}
use astra_scheduler.Task.{
  TaskState, TaskControlBlock, Callback, Effect, Op, is_terminal, is_completed, is_ready,
  record_terminal_wall_time, transition_to_suspended, transition_to_running,
  add_completion_callback, request_cancel, finish, try_start, apply, Batch, System, Event,
  run_callback, batches_of, run_nth, happen, happens, make_task_control_block, is_some,
}

-- The callbacks that are no empty function.
abbrev pub named : List Callback → List ℕ
named [] = []
named (none ∷ cs) = named cs
named (some k ∷ cs) = k ∷ named cs

-- The callbacks that calls have taken out, in order.
abbrev pub taken : List Effect → List ℕ
taken [] = []
taken (Effect.takes cs ∷ es) = named cs ++ taken es
taken (e ∷ es) = taken es

abbrev pub added : Op → List ℕ
added (Op.adds (some k)) = k ∷ []
added _ = []

taken-append : (es fs : List Effect) → taken (es ++ fs) ≡ taken es ++ taken fs
taken-append [] fs = refl
taken-append (Effect.takes cs ∷ es) fs =
    ap (λ l. named cs ++ l) (taken-append es fs)
    ∙ sym (append_assoc (named cs) (taken es) (taken fs))
taken-append (e ∷ es) fs = taken-append es fs

named-append : (cs ds : List Callback) → named (cs ++ ds) ≡ named cs ++ named ds
named-append [] ds = refl
named-append (none ∷ cs) ds = named-append cs ds
named-append (some k ∷ cs) ds = ap (λ l. k ∷ l) (named-append cs ds)

taken-wall_time : (now : ℕ) (t : TaskControlBlock) → taken (record_terminal_wall_time now t) ≡ []
unfolding record_terminal_wall_time
taken-wall_time now t = ground arith

-- A task that is done holds no callback.
abbrev pub IsTidy : TaskControlBlock → Type 0
IsTidy t = is_terminal t.state ≡ true → t.completion_callbacks ≡ []

absurd_Bool {ℓ} : {A : Type ℓ} → true ≡ false → A
absurd_Bool e = absurd (let f : ⊥ = cc in f)

-- What one operation does with the callbacks.
abbrev Serves : TaskControlBlock → List ℕ → TaskControlBlock × List Effect → Type 0
Serves t new r =
    (taken r.1 ++ named r.0.completion_callbacks ≡ named t.completion_callbacks ++ new) × IsTidy r.0

-- The effects of a completion take out the callbacks that waited, and no other.
taken-completion :
    (now : ℕ) (metric : Effect) (t : TaskControlBlock) (cs : List Callback)
    → taken (metric ∷ []) ≡ []
    → taken (record_terminal_wall_time now t ++ metric ∷ Effect.takes cs ∷ []) ≡ named cs
taken-completion now metric t cs e =
    taken-append (record_terminal_wall_time now t) (metric ∷ Effect.takes cs ∷ [])
    ∙ (ap (λ l. l ++ taken (metric ∷ Effect.takes cs ∷ [])) (taken-wall_time now t)
        ∙ (taken-append (metric ∷ []) (Effect.takes cs ∷ [])
            ∙ (ap (λ l. l ++ taken (Effect.takes cs ∷ [])) e ∙ append-nil (named cs))))

finish-Serves :
    (state : TaskState) (metric : Effect) (now : ℕ) (t : TaskControlBlock)
    → taken (metric ∷ []) ≡ []
    → Serves t [] (finish state metric now t)
unfolding finish
finish-Serves state metric now t e =
    (ap (λ l. l ++ []) (taken-completion now metric t t.completion_callbacks e), λ h. refl)

add-Serves :
    (cb : Callback) (t : TaskControlBlock)
    → IsTidy t
    → Serves t (added (Op.adds cb)) (add_completion_callback cb t)
unfolding add_completion_callback
add-Serves none t tidy = elim (Bool-cases (is_terminal t.state)) [
  | inl done ↦ rw done (sym (append-nil (named t.completion_callbacks)), tidy)
  | inr open_yet ↦
      rw open_yet
        (named-append t.completion_callbacks (none ∷ []), λ h. absurd_Bool (sym h ∙ open_yet))
]
add-Serves (some k) t tidy = elim (Bool-cases (is_terminal t.state)) [
  | inl done ↦ rw done (rw (tidy done), tidy)
  | inr open_yet ↦
      rw open_yet
        (named-append t.completion_callbacks (some k ∷ []), λ h. absurd_Bool (sym h ∙ open_yet))
]

cancel-Serves : (now : ℕ) (t : TaskControlBlock) → IsTidy t → Serves t [] (request_cancel now t)
unfolding request_cancel
cancel-Serves now t tidy = elim (Bool-cases (is_ready t.state)) [
  | inl ready ↦ rw ready (
    ap (λ l. l ++ [])
        (taken-completion now (Effect.records_cancelled_before_start (is_some t.deadline)) t
          t.completion_callbacks refl),
    λ h. refl,
  )
  | inr other ↦ rw other (sym (append-nil (named t.completion_callbacks)), tidy)
]

unchanged :
    (t u : TaskControlBlock) (es : List Effect)
    → u.completion_callbacks ≡ t.completion_callbacks
    → taken es ≡ []
    → IsTidy u
    → Serves t [] (u, es)
unchanged t u es same quiet tidy =
    (rw (quiet, same) (sym (append-nil (named t.completion_callbacks))), tidy)

start-quiet : (now : ℕ) (t : TaskControlBlock) → taken (apply (Op.starts now) t).1 ≡ []
unfolding apply try_start
start-quiet now t = ground arith

start-same :
    (now : ℕ) (t : TaskControlBlock)
    → IsTidy t
    → ((try_start now t).0.completion_callbacks ≡ t.completion_callbacks)
      × IsTidy (try_start now t).0
unfolding try_start
start-same now t tidy = (ground arith, λ h. ground (arith, tidy))

suspended-Serves : (t : TaskControlBlock) → IsTidy t → Serves t [] (transition_to_suspended t)
unfolding transition_to_suspended
suspended-Serves t tidy =
    (ground (arith, append-nil (named t.completion_callbacks)), λ h. ground (arith, tidy))

resumed-Serves : (t : TaskControlBlock) → IsTidy t → Serves t [] (transition_to_running t)
unfolding transition_to_running
resumed-Serves t tidy =
    (ground (arith, append-nil (named t.completion_callbacks)), λ h. ground (arith, tidy))

apply-Serves : (o : Op) (t : TaskControlBlock) → IsTidy t → Serves t (added o) (apply o t)
unfolding apply
apply-Serves Op.suspends t tidy = suspended-Serves t tidy
apply-Serves Op.resumes t tidy = resumed-Serves t tidy
apply-Serves Op.observes t tidy = (sym (append-nil (named t.completion_callbacks)), tidy)
apply-Serves Op.hands_off t tidy = (sym (append-nil (named t.completion_callbacks)), tidy)
apply-Serves Op.publishes_suspend t tidy = (sym (append-nil (named t.completion_callbacks)), tidy)
apply-Serves (Op.adds cb) t tidy = add-Serves cb t tidy
apply-Serves (Op.cancels now) t tidy = cancel-Serves now t tidy
apply-Serves (Op.starts now) t tidy =
    unchanged t (try_start now t).0 (apply (Op.starts now) t).1 (start-same now t tidy).0
      (start-quiet now t) (start-same now t tidy).1
apply-Serves (Op.succeeds now) t tidy = finish-Serves TaskState.succeeded _ now t refl
apply-Serves (Op.cancels_cooperatively now) t tidy = finish-Serves TaskState.cancelled _ now t refl
apply-Serves (Op.republishes now) t tidy = (sym (append-nil (named t.completion_callbacks)), tidy)
apply-Serves (Op.fails ex now) t tidy =
    finish-Serves TaskState.failed _ now (record t { exception = some ex }) refl
apply-Serves (Op.reschedules r) t tidy = (sym (append-nil (named t.completion_callbacks)), tidy)

-- The registrations of an interleaving, in order.
abbrev pub registered : List Event → List ℕ
registered [] = []
registered (Event.calls o ∷ es) = added o ++ registered es
registered (Event.runs_next i ∷ es) = registered es

-- The callbacks of the batches: those that have run, and then those left, batch by batch.
abbrev pub all_taken : List Batch → List ℕ
all_taken [] = []
all_taken (b ∷ bs) = (b.ran ++ named b.left) ++ all_taken bs

all_taken-append : (bs cs : List Batch) → all_taken (bs ++ cs) ≡ all_taken bs ++ all_taken cs
all_taken-append [] cs = refl
all_taken-append (b ∷ bs) cs =
    ap (λ l. (b.ran ++ named b.left) ++ l) (all_taken-append bs cs)
    ∙ sym (append_assoc (b.ran ++ named b.left) (all_taken bs) (all_taken cs))

all_taken-batches_of : (es : List Effect) → all_taken (batches_of es) ≡ taken es
all_taken-batches_of [] = refl
all_taken-batches_of (Effect.takes cs ∷ es) = ap (λ l. named cs ++ l) (all_taken-batches_of es)
all_taken-batches_of (e ∷ es) = all_taken-batches_of es

run_callback-kept :
    (b : Batch) → (run_callback b).ran ++ named (run_callback b).left ≡ b.ran ++ named b.left
unfolding run_callback
run_callback-kept b = kept b.ran b.left
  where
    kept :
        (done : List ℕ) (cs : List Callback)
        → let b' = run_callback (record { ran = done; left = cs }) in
          b'.ran ++ named b'.left ≡ done ++ named cs
    kept done [] = refl
    kept done (none ∷ cs) = refl
    kept done (some k ∷ cs) = append_assoc done (k ∷ []) (named cs)

run_nth-kept : (i : ℕ) (bs : List Batch) → all_taken (run_nth i bs) ≡ all_taken bs
unfolding run_nth
run_nth-kept i [] = refl
run_nth-kept zero (b ∷ bs) = ap (λ l. l ++ all_taken bs) (run_callback-kept b)
run_nth-kept (suc i) (b ∷ bs) = ap (λ l. (b.ran ++ named b.left) ++ l) (run_nth-kept i bs)

-- All callbacks of a system: the batches, and then those that wait.
abbrev pub known : System → List ℕ
known s = all_taken s.batches ++ named s.task.completion_callbacks

call-known :
    (o : Op) (s : System)
    → IsTidy s.task
    → (known (happen (Event.calls o) s) ≡ known s ++ added o)
      × IsTidy (happen (Event.calls o) s).task
unfolding happen
call-known o s tidy =
    let t = (apply o s.task).0 in
    let es = (apply o s.task).1 in
    let (now, tidy') = apply-Serves o s.task tidy in
    (
      ap (λ l. l ++ named t.completion_callbacks)
            (all_taken-append s.batches (batches_of es)
              ∙ ap (λ l. all_taken s.batches ++ l) (all_taken-batches_of es))
          ∙ (append_assoc (all_taken s.batches) (taken es) (named t.completion_callbacks)
              ∙ (ap (λ l. all_taken s.batches ++ l) now
                  ∙ sym (
                      append_assoc (all_taken s.batches) (named s.task.completion_callbacks)
                        (added o)))),
      tidy',
    )

pass-known : (i : ℕ) (s : System) → known (happen (Event.runs_next i) s) ≡ known s
unfolding happen
pass-known i s = ap (λ l. l ++ named s.task.completion_callbacks) (run_nth-kept i s.batches)

happens-known :
    (es : List Event) (s : System)
    → IsTidy s.task
    → (known (happens es s) ≡ known s ++ registered es) × IsTidy (happens es s).task
unfolding happens happen
happens-known [] s tidy = (sym (append-nil (known s)), tidy)
happens-known (Event.calls o ∷ es) s tidy =
    let (now, tidy') = call-known o s tidy in
    let (later, tidy'') = happens-known es (happen (Event.calls o) s) tidy' in
    (
      later ∙ (ap (λ l. l ++ registered es) now ∙ append_assoc (known s) (added o) (registered es)),
      tidy'',
    )
happens-known (Event.runs_next i ∷ es) s tidy =
    let (later, tidy') = happens-known es (happen (Event.runs_next i) s) tidy in
    (later ∙ ap (λ l. l ++ registered es) (pass-known i s), tidy')

-- A task made now, with no batch.
unfoldable pub make_system : Option ℕ → ℕ → System
unfolding make_task_control_block
make_system deadline now = record { task = make_task_control_block deadline now; batches = [] }

-- Whatever calls are made of a fresh task, and however the passes over the callbacks that they take out
-- fall between them, the registered callbacks in their order are the batches taken out, one after
-- another, each with those it has run and then those it has still to run, and then those that wait: each
-- callback is in one of these places, as often as it was registered.
pub callbacks_in_order :
    (es : List Event) (deadline : Option ℕ) (now : ℕ)
    → let s = happens es (make_system deadline now) in
      all_taken s.batches ++ named s.task.completion_callbacks ≡ registered es
unfolding make_system
callbacks_in_order es deadline now = (happens-known es (make_system deadline now) (λ h. refl)).0

-- The callbacks that have run, batch by batch.
abbrev pub all_ran : List Batch → List ℕ
all_ran [] = []
all_ran (b ∷ bs) = b.ran ++ all_ran bs

-- No thread has a callback still to run.
abbrev pub is_quiet : List Batch → Bool
is_quiet [] = true
is_quiet (b ∷ bs) = (elim b.left [ [] ↦ true | c ∷ cs ↦ false ]) && is_quiet bs

all_ran-quiet : (bs : List Batch) → is_quiet bs ≡ true → all_taken bs ≡ all_ran bs
all_ran-quiet [] q = refl
all_ran-quiet (b ∷ bs) q = finished b.left (all_ran-quiet bs) q
  where
    finished :
        (cs : List Callback)
        → (is_quiet bs ≡ true → all_taken bs ≡ all_ran bs)
        → is_quiet (record b { left = cs } ∷ bs) ≡ true
        → (b.ran ++ named cs) ++ all_taken bs ≡ b.ran ++ all_ran bs
    finished [] rest quiet =
        ap (λ l. l ++ all_taken bs) (append-nil b.ran) ∙ ap (λ l. b.ran ++ l) (rest quiet)
    finished (c ∷ cs) rest quiet = absurd_Bool (sym quiet)

-- If such a run leaves the task completed, no callback waits; and as soon as the threads that took some
-- out have made their passes, every registered callback has run, as often as it was registered, and
-- those of each batch in their order.
pub callbacks_all_run :
    (es : List Event) (deadline : Option ℕ) (now : ℕ)
    → let s = happens es (make_system deadline now) in
      is_completed s.task ≡ true
      → (all_taken s.batches ≡ registered es)
        × (is_quiet s.batches ≡ true → all_ran s.batches ≡ registered es)
unfolding is_completed make_system
callbacks_all_run es deadline now done =
    let s = happens es (make_system deadline now) in
    let (order, tidy) = happens-known es (make_system deadline now) (λ h. refl) in
    let taken_out =
      sym (append-nil (all_taken s.batches))
      ∙ (ap (λ cs. all_taken s.batches ++ named cs) (sym (tidy done)) ∙ order) in
    (taken_out, λ quiet. sym (all_ran-quiet s.batches quiet) ∙ taken_out)
