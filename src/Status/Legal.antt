-- ===== src/Status/Legal.antt =====
-- The pairs that status.hpp calls legal, and what every history of shutdown requests keeps.
use astra_scheduler.Base.{
  ℕ, ◌+◌, ◌≤◌, ◌<◌, ◌≡◌, ◌≢◌, ◌⊎◌, inl, inr, refl, Option, none, some, arith, Bool, true, false,
  ◌&&◌, ◌||◌, ap, sym, subst, ◌∙◌,
}
use astra_scheduler.Status.{SchedulerState, ShutdownMode, SchedulerStatus, pack, unpack}
use astra_scheduler.Status.Lifecycle.{
  Lifecycle, request_on, request_shutdown_mode, request, cancel_unstarted_tasks, callback_cancel,
  is_running, read_mode, publish_stopped, publish_running, constructed, Step, Reach, cancels,
}

-- Reading a packed word back gives the pair that was packed.
pub unpack-pack :
    (state : SchedulerState) (mode : ShutdownMode)
    → unpack (pack state mode) ≡ record { state = state; shutdown_mode = mode }
unfolding pack unpack
unpack-pack SchedulerState.running ShutdownMode.no_mode = refl
unpack-pack SchedulerState.running ShutdownMode.graceful = refl
unpack-pack SchedulerState.running ShutdownMode.immediate = refl
unpack-pack SchedulerState.stopping ShutdownMode.no_mode = refl
unpack-pack SchedulerState.stopping ShutdownMode.graceful = refl
unpack-pack SchedulerState.stopping ShutdownMode.immediate = refl
unpack-pack SchedulerState.stopped ShutdownMode.no_mode = refl
unpack-pack SchedulerState.stopped ShutdownMode.graceful = refl
unpack-pack SchedulerState.stopped ShutdownMode.immediate = refl

abbrev pub is_stop_mode : ShutdownMode → Bool
is_stop_mode ShutdownMode.no_mode = false
is_stop_mode _ = true

-- Running goes with no mode, Stopping and Stopped with Graceful or Immediate.
abbrev pub is_legal : SchedulerState → ShutdownMode → Bool
is_legal SchedulerState.running ShutdownMode.no_mode = true
is_legal SchedulerState.running _ = false
is_legal SchedulerState.stopping mode = is_stop_mode mode
is_legal SchedulerState.stopped mode = is_stop_mode mode

-- Stopped with None, which a leader stores that has read the mode while the state was Running.
abbrev pub is_rolled_back : SchedulerState → ShutdownMode → Bool
is_rolled_back SchedulerState.stopped ShutdownMode.no_mode = true
is_rolled_back _ _ = false

abbrev is_allowed : Bool → SchedulerState → ShutdownMode → Bool
is_allowed early state mode = is_legal state mode || (early && is_rolled_back state mode)

abbrev is_allowed_read : Bool → Option ShutdownMode → Bool
is_allowed_read early none = true
is_allowed_read early (some mode) = is_stop_mode mode || early

-- At most this many requests have won the duty to cancel since the constructor's store.
abbrev most_wins : SchedulerState → ShutdownMode → ℕ
most_wins SchedulerState.running _ = 0
most_wins SchedulerState.stopping ShutdownMode.immediate = 1
most_wins SchedulerState.stopping _ = 0
most_wins SchedulerState.stopped _ = 1

-- At least this many.
abbrev least_wins : SchedulerState → ShutdownMode → ℕ
least_wins SchedulerState.stopping ShutdownMode.immediate = 1
least_wins _ _ = 0

pub record IsSound (l : Lifecycle) : Type 0 where
  pub state : SchedulerState
  pub mode : ShutdownMode
  pub packed : l.packed_status ≡ pack state mode
  pub allowed : is_allowed l.read_running state mode ≡ true
  pub read : is_allowed_read l.read_running l.current_mode ≡ true
  pub at_most : l.wins ≤ l.started_wins + most_wins state mode
  pub at_least : l.started_wins + least_wins state mode ≤ l.wins
  pub before : l.starting ≡ true → l.started_wins ≡ 0
  pub few : l.started_wins ≤ 1
  pub done : l.cancellations ≤ l.wins

constructed-IsSound : IsSound constructed
unfolding constructed
constructed-IsSound = record {
  state = SchedulerState.running;
  mode = ShutdownMode.no_mode;
  packed = refl;
  allowed = refl;
  read = refl;
  at_most = omega arith;
  at_least = omega arith;
  before = λ e. refl;
  few = omega arith;
  done = omega arith;
}

-- On a packed word the request is the step on the pair.
request_shutdown_mode-pack :
    (state : SchedulerState) (mode asked : ShutdownMode)
    → request_shutdown_mode (pack state mode) asked ≡ (
      pack (request_on state mode asked).state (request_on state mode asked).shutdown_mode,
      (request_on state mode asked).effect,
    )
unfolding request_shutdown_mode
request_shutdown_mode-pack state mode asked = rw (unpack-pack state mode)

request_on-allowed :
    (early : Bool) (state : SchedulerState) (mode asked : ShutdownMode)
    → is_allowed early state mode ≡ true
    → asked ≢ ShutdownMode.no_mode
    → is_allowed early
        (request_on state mode asked).state
        (request_on state mode asked).shutdown_mode
      ≡ true
unfolding request_on
request_on-allowed early state mode asked h a = ground arith

request_on-wins :
    (early : Bool) (state : SchedulerState) (mode asked : ShutdownMode) (base n : ℕ)
    → is_allowed early state mode ≡ true
    → n ≤ base + most_wins state mode
    → base + least_wins state mode ≤ n
    → let r = request_on state mode asked in
      (n + cancels r.effect ≤ base + most_wins r.state r.shutdown_mode)
      × (base + least_wins r.state r.shutdown_mode ≤ n + cancels r.effect)
unfolding request_on
request_on-wins early state mode asked base n h most least = ground arith

request-IsSound :
    (l : Lifecycle) (asked : ShutdownMode)
    → asked ≢ ShutdownMode.no_mode
    → IsSound l
    → IsSound (request asked l)
unfolding request
request-IsSound l asked a s =
    let next = request_on s.state s.mode asked in
    let made : request_shutdown_mode l.packed_status asked
        ≡ (pack next.state next.shutdown_mode, next.effect) =
      ap (λ w. request_shutdown_mode w asked) s.packed
      ∙ request_shutdown_mode-pack s.state s.mode asked in
    let counted =
      request_on-wins l.read_running s.state s.mode asked l.started_wins l.wins s.allowed s.at_most
        s.at_least in
    record {
      state = next.state;
      mode = next.shutdown_mode;
      packed = ap (λ p. p.0) made;
      allowed = request_on-allowed l.read_running s.state s.mode asked s.allowed a;
      read = s.read;
      at_most = rw (ap (λ p. p.1) made) counted.0;
      at_least = rw (ap (λ p. p.1) made) counted.1;
      before = s.before;
      few = s.few;
      done = omega (arith, s.done);
    }

cancel-IsSound :
    (l : Lifecycle) → l.cancellations < l.wins → IsSound l → IsSound (cancel_unstarted_tasks l)
unfolding cancel_unstarted_tasks
cancel-IsSound l due s = record {
  state = s.state;
  mode = s.mode;
  packed = s.packed;
  allowed = s.allowed;
  read = s.read;
  at_most = s.at_most;
  at_least = s.at_least;
  before = s.before;
  few = s.few;
  done = omega (arith, due);
}

callback_cancel-IsSound : (l : Lifecycle) → IsSound l → IsSound (callback_cancel l)
unfolding callback_cancel
callback_cancel-IsSound l s = record {
  state = s.state;
  mode = s.mode;
  packed = s.packed;
  allowed = s.allowed;
  read = s.read;
  at_most = s.at_most;
  at_least = s.at_least;
  before = s.before;
  few = s.few;
  done = s.done;
}

-- An earlier reading stays an excuse, and a reading while Running is one.
read-allowed :
    (early : Bool) (state : SchedulerState) (mode : ShutdownMode)
    → is_allowed early state mode ≡ true
    → (is_allowed (early || is_running state) state mode ≡ true)
      × (is_allowed_read (early || is_running state) (some mode) ≡ true)
read-allowed early state mode h = ground arith

read_mode-IsSound : (l : Lifecycle) → IsSound l → IsSound (read_mode l)
unfolding read_mode
read_mode-IsSound l s =
    let status : unpack l.packed_status ≡ record { state = s.state; shutdown_mode = s.mode } =
      ap unpack s.packed ∙ unpack-pack s.state s.mode in
    let (allowed, read) = read-allowed l.read_running s.state s.mode s.allowed in
    record {
      state = s.state;
      mode = s.mode;
      packed = s.packed;
      allowed =
          subst
            (λ (v : SchedulerStatus).
              is_allowed (l.read_running || is_running v.state) s.state s.mode ≡ true)
            (sym status) allowed;
      read =
          subst
            (λ (v : SchedulerStatus).
              is_allowed_read (l.read_running || is_running v.state) (some v.shutdown_mode) ≡ true)
            (sym status) read;
      at_most = s.at_most;
      at_least = s.at_least;
      before = s.before;
      few = s.few;
      done = s.done;
    }

most_wins-le : (state : SchedulerState) (mode : ShutdownMode) → most_wins state mode ≤ 1
most_wins-le state mode = ground arith

stored-allowed :
    (early : Bool) (mode : ShutdownMode)
    → is_allowed_read early (some mode) ≡ true
    → is_allowed early SchedulerState.stopped mode ≡ true
stored-allowed early mode h = ground arith

publish_stopped-IsSound :
    (l : Lifecycle) (mode : ShutdownMode)
    → l.current_mode ≡ some mode
    → IsSound l
    → IsSound (publish_stopped mode l)
unfolding publish_stopped
publish_stopped-IsSound l mode e s = record {
  state = SchedulerState.stopped;
  mode = mode;
  packed = refl;
  allowed = stored-allowed l.read_running mode (rw e at s.read);
  read = refl;
  at_most = omega (arith, s.at_most, most_wins-le s.state s.mode);
  at_least = omega (arith, s.at_least);
  before = s.before;
  few = s.few;
  done = s.done;
}

publish_running-IsSound :
    (l : Lifecycle) → l.starting ≡ true → IsSound l → IsSound (publish_running l)
unfolding publish_running
publish_running-IsSound l e s = record {
  state = SchedulerState.running;
  mode = ShutdownMode.no_mode;
  packed = refl;
  allowed = refl;
  read = s.read;
  at_most = omega arith;
  at_least = omega arith;
  before = λ again. absurd (let f : ⊥ = cc in f);
  few = omega (arith, s.before e, s.at_most, most_wins-le s.state s.mode);
  done = s.done;
}

Step-IsSound : {l m : Lifecycle} → Step l m → IsSound l → IsSound m
Step-IsSound {l} (Step.requests mode asked) s = request-IsSound l mode asked s
Step-IsSound {l} (Step.cancels_unstarted due) s = cancel-IsSound l due s
Step-IsSound {l} Step.callback_cancels s = callback_cancel-IsSound l s
Step-IsSound {l} Step.reads_mode s = read_mode-IsSound l s
Step-IsSound {l} (Step.publishes mode e) s = publish_stopped-IsSound l mode e s
Step-IsSound {l} (Step.publishes_running e) s = publish_running-IsSound l e s

pub Reach-IsSound : {l : Lifecycle} → Reach l → IsSound l
Reach-IsSound Reach.start = constructed-IsSound
Reach-IsSound (Reach.next r st) = Step-IsSound st (Reach-IsSound r)

-- In every reachable state the status word holds one of the pairs that status.hpp calls legal, Running
-- with None, Stopping or Stopped with Graceful or Immediate; or else it holds Stopped with None, and a
-- leader has read the mode while the state was Running, as the rollback of a failed constructor does.
pub Reach-legal :
    {l : Lifecycle}
    → Reach l
    → let v = unpack l.packed_status in
      (is_legal v.state v.shutdown_mode ≡ true)
      ⊎ ((l.read_running ≡ true)
          × (v ≡ record { state = SchedulerState.stopped; shutdown_mode = ShutdownMode.no_mode }))
Reach-legal {l} r =
    let s = Reach-IsSound r in
    rw (ap unpack s.packed ∙ unpack-pack s.state s.mode)
      (excused l.read_running s.state s.mode s.allowed)
  where
    excused :
        (early : Bool) (state : SchedulerState) (mode : ShutdownMode)
        → is_allowed early state mode ≡ true
        → (is_legal state mode ≡ true)
          ⊎ ((early ≡ true)
              × (◌≡◌ {A = SchedulerStatus}
                  (record { state = state; shutdown_mode = mode })
                  (record {
                    state = SchedulerState.stopped;
                    shutdown_mode = ShutdownMode.no_mode;
                  })))
    excused early SchedulerState.running ShutdownMode.no_mode h = inl refl
    excused early SchedulerState.stopping ShutdownMode.graceful h = inl refl
    excused early SchedulerState.stopping ShutdownMode.immediate h = inl refl
    excused early SchedulerState.stopped ShutdownMode.graceful h = inl refl
    excused early SchedulerState.stopped ShutdownMode.immediate h = inl refl
    excused early SchedulerState.stopped ShutdownMode.no_mode h = inr (ground arith, refl)
    excused early state mode h = absurd (ground arith)
