-- ===== src/Handshake.antt =====
-- src/task/await_handshake.hpp: the byte through which a suspended coroutine and those who wake it
-- agree on who posts the resumption. A load, a compare-exchange or a call of a post action is one step
-- of a thread, and any number of threads take their steps in any order.
pub mod Invariant
pub mod Posting
pub mod Safety
pub mod Examples
use astra_scheduler.Base.{
  ℕ, ◌+◌, ◌*◌, ◌/◌, ◌%◌, ◌≡◌, ◌≢◌, Bool, true, false, ◌==◌, if◌then◌else◌, ℕ_discrete,
}
use mathlib.Core.Logic.{ite}

-- AwaitHandshake::State, as the values of its enumerators.
abbrev pub init : ℕ
init = 0

abbrev pub triggered : ℕ
triggered = 1

abbrev pub armed : ℕ
armed = 2

abbrev pub resolved : ℕ
resolved = 3

-- raw & kStateMask, with the mask 0x0F
abbrev pub state_bits : ℕ → ℕ
state_bits raw = raw % 16

-- raw & kCancelled, with the flag 0x80
abbrev pub cancelled_bit : ℕ → ℕ
cancelled_bit raw = raw / 128 % 2 * 128

-- The byte, and what the threads did with it: how many have won the right to run their post action, how
-- many have run it, and how many cancellations have won.
pub record Shared : Type 0 where
  pub raw_state : ℕ
  pub wins : ℕ
  pub posts : ℕ
  pub cancels : ℕ

-- Where a thread stands in its call, with the byte that it last read; at the places ending in `post` it
-- is about to call its post action.
pub data Pc : Type 0 where
  trigger_first : Pc
  trigger_second : (expected : ℕ) → Pc
  trigger_post : Pc
  trigger_done : Pc
  cancel_load : Pc
  cancel_test : (current : ℕ) → Pc
  cancel_post : Pc
  cancel_done : Pc
  arm_first : Pc
  arm_second : (expected : ℕ) → Pc
  arm_post : Pc
  arm_done : Pc

pub record Local : Type 0 where
  pub shared : Shared
  pub pc : Pc

-- compare_exchange_strong(expected, next): the byte afterwards.
abbrev exchanged : ℕ → ℕ → Shared → Shared
exchanged expected next s = if s.raw_state == expected then record s { raw_state = next } else s

-- The same, by a thread that goes on to post if it wins.
abbrev exchanged_post : ℕ → ℕ → Pc → Pc → Shared → Local
exchanged_post expected next won lost s =
    if s.raw_state == expected
    then record { shared = record s { raw_state = next; wins = s.wins + 1 }; pc = won }
    else record { shared = s; pc = lost }

-- post_action()
unfoldable pub post_step : Pc → Shared → Local
post_step done s = record { shared = record s { posts = s.posts + 1 }; pc = done }

-- The first compare-exchange of `trigger`: Init to Triggered.
unfoldable pub trigger_first_step : Shared → Local
trigger_first_step s = record {
  shared = exchanged init triggered s;
  pc = if s.raw_state == init then Pc.trigger_done else Pc.trigger_second s.raw_state;
}

-- The second, if the byte read was Armed: to Resolved, keeping the flag.
unfoldable pub trigger_second_step : ℕ → Shared → Local
trigger_second_step expected s =
    if state_bits expected == armed
    then exchanged_post expected (resolved + cancelled_bit expected) Pc.trigger_post Pc.trigger_done
        s
    else record { shared = s; pc = Pc.trigger_done }

-- The load of `trigger_cancel`.
unfoldable pub cancel_load_step : Shared → Local
cancel_load_step s = record { shared = s; pc = Pc.cancel_test s.raw_state }

abbrev cancel_exchange : ℕ → ℕ → ℕ → Pc → Bool → Shared → Local
cancel_exchange current next win won spurious s =
    if s.raw_state == current
    then (if spurious then record { shared = s; pc = Pc.cancel_test s.raw_state } else record {
      shared = record s { raw_state = next; wins = s.wins + win; cancels = s.cancels + 1 };
      pc = won;
    })
    else record { shared = s; pc = Pc.cancel_test s.raw_state }

-- A pass of its loop. The weak compare-exchange may fail with no reason (`spurious`), and a failure
-- reads the byte anew.
unfoldable pub cancel_test_step : Bool → ℕ → Shared → Local
cancel_test_step spurious current s =
    if state_bits current == resolved
    then record { shared = s; pc = Pc.cancel_done }
    else if state_bits current == triggered
    then record { shared = s; pc = Pc.cancel_done }
    else if state_bits current == init
    then cancel_exchange current (triggered + 128) 0 Pc.cancel_done spurious s
    else if state_bits current == armed
    then cancel_exchange current (resolved + 128) 1 Pc.cancel_post spurious s
    else record { shared = s; pc = Pc.cancel_done }

-- The first compare-exchange of `arm`: Init to Armed.
unfoldable pub arm_first_step : Shared → Local
arm_first_step s = record {
  shared = exchanged init armed s;
  pc = if s.raw_state == init then Pc.arm_done else Pc.arm_second s.raw_state;
}

-- The second, if the byte read was Triggered: to Resolved, keeping the flag.
unfoldable pub arm_second_step : ℕ → Shared → Local
arm_second_step expected s =
    if state_bits expected == triggered
    then exchanged_post expected (resolved + cancelled_bit expected) Pc.arm_post Pc.arm_done s
    else record { shared = s; pc = Pc.arm_done }

-- The step that a thread at this place takes; one that is done takes none.
unfoldable pub advance : Bool → Pc → Shared → Local
unfolding trigger_first_step trigger_second_step cancel_load_step cancel_test_step arm_first_step
    arm_second_step post_step
advance spurious Pc.trigger_first s = trigger_first_step s
advance spurious (Pc.trigger_second expected) s = trigger_second_step expected s
advance spurious Pc.trigger_post s = post_step Pc.trigger_done s
advance spurious Pc.trigger_done s = record { shared = s; pc = Pc.trigger_done }
advance spurious Pc.cancel_load s = cancel_load_step s
advance spurious (Pc.cancel_test current) s = cancel_test_step spurious current s
advance spurious Pc.cancel_post s = post_step Pc.cancel_done s
advance spurious Pc.cancel_done s = record { shared = s; pc = Pc.cancel_done }
advance spurious Pc.arm_first s = arm_first_step s
advance spurious (Pc.arm_second expected) s = arm_second_step expected s
advance spurious Pc.arm_post s = post_step Pc.arm_done s
advance spurious Pc.arm_done s = record { shared = s; pc = Pc.arm_done }

pub record System : Type 0 where
  pub shared : Shared
  pub threads : ℕ → Pc

abbrev pub update : (ℕ → Pc) → ℕ → Pc → ℕ → Pc
update f i a j = ite (ℕ_discrete i j) a (f j)

-- Thread `i` takes its next step.
unfoldable pub turn : ℕ → Bool → System → System
turn i spurious s =
    let l = advance spurious (s.threads i) s.shared in
    record { shared = l.shared; threads = update s.threads i l.pc }

-- Each thread is about to make one of the three calls.
abbrev pub IsCall : Pc → Type 0
IsCall Pc.trigger_first = Unit {0}
IsCall Pc.cancel_load = Unit {0}
IsCall Pc.arm_first = Unit {0}
IsCall _ = ⊥

abbrev pub fresh : Shared
fresh = record { raw_state = init; wins = 0; posts = 0; cancels = 0 }

pub data Reach (calls : ℕ → Pc) : System → Type 0 where
  start : Reach calls (record { shared = fresh; threads = calls })
  next : {s : System} → Reach calls s → (i : ℕ) (spurious : Bool) → Reach calls (turn i spurious s)
