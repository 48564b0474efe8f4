-- ===== src/Task/Examples.antt =====
-- Histories of one task, and the theorems of Task at them.
use astra_scheduler.Base.{◌≤◌, ◌≡◌, refl, true, List, [], ◌∷◌, ◌++◌, none, some}
use astra_scheduler.Task.{
  TaskControlBlock, Op, System, Event, is_completed, make_task_control_block, run, apply, happen,
  happens, run_nth, run_callback,
}
use astra_scheduler.Task.Callbacks.{
  named, all_taken, all_ran, is_quiet, make_system, callbacks_in_order, callbacks_all_run,
}
use astra_scheduler.Task.Starting.{outsets, starts_once, completion_is_final}

-- Two callbacks, a start, a failure, and a third callback afterwards.
abbrev failing : List Op
failing =
    Op.adds (some 7)
    ∷ Op.starts 120
    ∷ Op.adds none
    ∷ Op.adds (some 8)
    ∷ Op.fails 3 150
    ∷ Op.adds (some 9)
    ∷ []

failing_completes : is_completed (run failing (make_task_control_block (some 110) 100)).0 ≡ true
unfolding run apply is_completed make_task_control_block
failing_completes = refl

-- The same calls, with the passes of the completing thread and of a later one between and after them.
abbrev interleaved : List Event
interleaved =
    Event.calls (Op.adds (some 7))
    ∷ Event.calls (Op.starts 120)
    ∷ Event.calls (Op.adds none)
    ∷ Event.calls (Op.adds (some 8))
    ∷ Event.calls (Op.fails 3 150)
    ∷ Event.calls (Op.adds (some 9))
    ∷ Event.runs_next 1
    ∷ Event.runs_next 0
    ∷ Event.runs_next 0
    ∷ Event.runs_next 0
    ∷ []

abbrev ended : System
ended = happens interleaved (make_system (some 110) 100)

ended_completes : is_completed ended.task ≡ true
unfolding happens happen apply is_completed make_system
ended_completes = refl

callbacks_in_order_example :
    all_taken ended.batches ++ named ended.task.completion_callbacks ≡ 7 ∷ 8 ∷ 9 ∷ []
callbacks_in_order_example = callbacks_in_order interleaved (some 110) 100

callbacks_all_run_example :
    (all_taken ended.batches ≡ 7 ∷ 8 ∷ 9 ∷ [])
    × (is_quiet ended.batches ≡ true → all_ran ended.batches ≡ 7 ∷ 8 ∷ 9 ∷ [])
callbacks_all_run_example = callbacks_all_run interleaved (some 110) 100 ended_completes

-- The second batch, of a later registration, has run before the first.
ended_quiet : is_quiet ended.batches ≡ true
unfolding happens happen run_nth run_callback apply make_system
ended_quiet = refl

starts_once_example : outsets (run failing (make_task_control_block (some 110) 100)).1 ≤ 1
starts_once_example = starts_once failing (some 110) 100

abbrev done : TaskControlBlock
done = (run failing (make_task_control_block (some 110) 100)).0

completion_is_final_example :
    (is_completed (run (Op.cancels 160 ∷ Op.starts 170 ∷ []) done).0 ≡ true)
    × (outsets (run (Op.cancels 160 ∷ Op.starts 170 ∷ []) done).1 ≡ 0)
completion_is_final_example =
    completion_is_final (Op.cancels 160 ∷ Op.starts 170 ∷ []) done failing_completes
