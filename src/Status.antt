-- ===== src/Status.antt =====
-- include/astra/status.hpp and the lifecycle word of src/runtime/runtime_state.hpp: the scheduler's
-- state and shutdown mode, packed into one 16-bit atomic.
pub mod Lifecycle
pub mod Legal
pub mod Examples
use astra_scheduler.Base.{ℕ, ◌+◌, ◌*◌, ◌/◌, ◌%◌, ◌==◌, if◌then◌else◌, Bool}

pub data SchedulerState : Type 0 where
  running stopping stopped : SchedulerState

pub data ShutdownMode : Type 0 where
  no_mode graceful immediate : ShutdownMode

-- The enumerators' values, in the order of declaration.
abbrev pub state_code : SchedulerState → ℕ
state_code SchedulerState.running = 0
state_code SchedulerState.stopping = 1
state_code SchedulerState.stopped = 2

abbrev pub mode_code : ShutdownMode → ℕ
mode_code ShutdownMode.no_mode = 0
mode_code ShutdownMode.graceful = 1
mode_code ShutdownMode.immediate = 2

-- A static_cast of a byte to the enumeration; the source casts only bytes that `pack` made, and a
-- byte above 2 is read here as the last enumerator.
abbrev pub state_of_code : ℕ → SchedulerState
state_of_code v =
    if v == 0
    then SchedulerState.running
    else if v == 1
    then SchedulerState.stopping
    else SchedulerState.stopped

abbrev pub mode_of_code : ℕ → ShutdownMode
mode_of_code v =
    if v == 0
    then ShutdownMode.no_mode
    else if v == 1
    then ShutdownMode.graceful
    else ShutdownMode.immediate

pub record SchedulerStatus : Type 0 where
  pub state : SchedulerState
  pub shutdown_mode : ShutdownMode

-- state << 8 | mode; the mode fits the low byte, so the disjunction is a sum.
unfoldable pub pack : SchedulerState → ShutdownMode → ℕ
pack state mode = state_code state * 256 + mode_code mode

unfoldable pub unpack : ℕ → SchedulerStatus
unpack value = record {
  state = state_of_code (value / 256 % 256);
  shutdown_mode = mode_of_code (value % 256);
}
