-- ===== src/Status/Lifecycle.antt =====
-- Impl::request_shutdown_mode and Impl::join_workers_and_publish_stopped of
-- src/runtime/scheduler.cpp, as functions on the packed status word, and their interleavings.
use astra_scheduler.Base.{ℕ, ◌+◌, ◌<◌, ◌≡◌, ◌≢◌, Bool, true, false, ◌||◌, Option, none, some}
use astra_scheduler.Status.{SchedulerState, ShutdownMode, pack, unpack}

-- What the winner of the compare-exchange goes on to do besides the store.
pub data ShutdownEffect : Type 0 where
  nothing : ShutdownEffect
  wake_all : ShutdownEffect
  cancel_unstarted_and_wake : ShutdownEffect

pub record Requested : Type 0 where
  pub state : SchedulerState
  pub shutdown_mode : ShutdownMode
  pub effect : ShutdownEffect

abbrev on_stop : ShutdownMode → ShutdownEffect
on_stop ShutdownMode.immediate = ShutdownEffect.cancel_unstarted_and_wake
on_stop _ = ShutdownEffect.wake_all

-- One pass of the loop in request_shutdown_mode, whose compare-exchange, if it makes one,
-- succeeds. A failed compare-exchange repeats the pass on the value that it read.
unfoldable pub request_on : SchedulerState → ShutdownMode → ShutdownMode → Requested
request_on SchedulerState.running mode requested = record {
  state = SchedulerState.stopping;
  shutdown_mode = requested;
  effect = on_stop requested;
}
request_on SchedulerState.stopping ShutdownMode.immediate requested = record {
  state = SchedulerState.stopping;
  shutdown_mode = ShutdownMode.immediate;
  effect = ShutdownEffect.nothing;
}
request_on SchedulerState.stopping mode ShutdownMode.immediate = record {
  state = SchedulerState.stopping;
  shutdown_mode = ShutdownMode.immediate;
  effect = ShutdownEffect.cancel_unstarted_and_wake;
}
request_on SchedulerState.stopping mode requested = record {
  state = SchedulerState.stopping;
  shutdown_mode = mode;
  effect = ShutdownEffect.nothing;
}
request_on SchedulerState.stopped mode requested = record {
  state = SchedulerState.stopped;
  shutdown_mode = mode;
  effect = ShutdownEffect.nothing;
}

unfoldable pub request_shutdown_mode : ℕ → ShutdownMode → ℕ × ShutdownEffect
request_shutdown_mode word requested =
    let st = unpack word in
    let r = request_on st.state st.shutdown_mode requested in
    (pack r.state r.shutdown_mode, r.effect)

-- The runtime's status word; whether the constructor has yet to store Running; and the mode that the
-- leader of a shutdown has read and not yet stored. Then, for the theorems: whether a mode was ever read
-- while the state was Running, how many requests have won the duty to cancel the unstarted work, in all
-- and before the constructor's store, how many of them have done so, and how often the registry's
-- callback has besides.
pub record Lifecycle : Type 0 where
  pub packed_status : ℕ
  pub starting : Bool
  pub current_mode : Option ShutdownMode
  pub read_running : Bool
  pub wins : ℕ
  pub started_wins : ℕ
  pub cancellations : ℕ
  pub callback_cancellations : ℕ

abbrev pub cancels : ShutdownEffect → ℕ
cancels ShutdownEffect.cancel_unstarted_and_wake = 1
cancels _ = 0

-- The loop of request_shutdown_mode up to its compare-exchange: the one that succeeds, as one atomic
-- change, or the load that ends it.
unfoldable pub request : ShutdownMode → Lifecycle → Lifecycle
unfolding request_shutdown_mode
request mode l =
    let (word, effect) = request_shutdown_mode l.packed_status mode in
    record l { packed_status = word; wins = l.wins + cancels effect }

-- What the winner does next, under lifecycle_mutex: cancel_all_unstarted_tasks_locked.
unfoldable pub cancel_unstarted_tasks : Lifecycle → Lifecycle
cancel_unstarted_tasks l = record l { cancellations = l.cancellations + 1 }

-- The same call in the registry's callback for Immediate, after its request.
unfoldable pub callback_cancel : Lifecycle → Lifecycle
callback_cancel l = record l { callback_cancellations = l.callback_cancellations + 1 }

abbrev pub is_running : SchedulerState → Bool
is_running SchedulerState.running = true
is_running _ = false

-- The load of the mode in join_workers_and_publish_stopped.
unfoldable pub read_mode : Lifecycle → Lifecycle
unfolding unpack
read_mode l =
    let st = unpack l.packed_status in
    record l {
      current_mode = some st.shutdown_mode;
      read_running = l.read_running || is_running st.state;
    }

-- Its plain store of `Stopped` with the mode that it has read.
unfoldable pub publish_stopped : ShutdownMode → Lifecycle → Lifecycle
unfolding pack
publish_stopped mode l = record l {
  packed_status = pack SchedulerState.stopped mode;
  current_mode = none;
}

-- The constructor's plain store of Running, once every worker has arrived.
unfoldable pub publish_running : Lifecycle → Lifecycle
unfolding pack
publish_running l = record l {
  packed_status = pack SchedulerState.running ShutdownMode.no_mode;
  starting = false;
  started_wins = l.wins;
}

-- The word with which RuntimeState is constructed.
unfoldable pub constructed : Lifecycle
unfolding pack
constructed = record {
  packed_status = pack SchedulerState.running ShutdownMode.no_mode;
  starting = true;
  current_mode = none;
  read_running = false;
  wins = 0;
  started_wins = 0;
  cancellations = 0;
  callback_cancellations = 0;
}

-- What the threads of a process may do to a runtime, in any order: each caller asks for Graceful or
-- Immediate, and the registry's callbacks may call before the constructor's store of Running. The
-- rollback of a constructor that fails reads the mode with no request before it.
pub data Step (l : Lifecycle) : Lifecycle → Type 0 where
  requests : (mode : ShutdownMode) → mode ≢ ShutdownMode.no_mode → Step l (request mode l)
  cancels_unstarted : l.cancellations < l.wins → Step l (cancel_unstarted_tasks l)
  callback_cancels : Step l (callback_cancel l)
  reads_mode : Step l (read_mode l)
  publishes : (mode : ShutdownMode) → l.current_mode ≡ some mode → Step l (publish_stopped mode l)
  publishes_running : l.starting ≡ true → Step l (publish_running l)

pub data Reach : Lifecycle → Type 0 where
  start : Reach constructed
  next : {l m : Lifecycle} → Reach l → Step l m → Reach m
