-- ===== src/Handshake/Invariant.antt =====
-- What holds of the byte and of every thread's last reading, at every moment.
use astra_scheduler.Base.{
  ℕ, ◌*◌, ◌≡◌, ◌≢◌, ◌⊎◌, inr, refl, Bool, true, arith, ◌==◌, if◌then◌else◌, ℕ_discrete,
}
use mathlib.Core.Logic.{if_pos, if_neg}
use astra_scheduler.Handshake.{
  Shared, Pc, Local, System, Reach, IsCall, init, triggered, armed, resolved, state_bits,
  cancelled_bit, advance, turn, trigger_first_step, trigger_second_step, cancel_test_step,
  cancel_load_step, arm_first_step, arm_second_step, post_step, update,
}

-- The bytes in use: the flag goes with Triggered and Resolved only.
abbrev pub is_used : ℕ → Bool
is_used raw =
    if raw == 0
    then true
    else if raw == 1
    then true
    else if raw == 2
    then true
    else if raw == 3
    then true
    else if raw == 129
    then true
    else raw == 131

-- A byte read earlier may have become this byte since: nothing leaves Resolved, Armed and Triggered
-- go to Resolved only, and Triggered keeps its flag until then.
abbrev pub may_become : ℕ → ℕ → Bool
may_become old raw =
    if old == init then true else if raw == old then true else state_bits raw == resolved

-- What a thread knows: a byte that it has read, and that a call which is done has left its mark.
abbrev pub Knows : ℕ → Pc → Type 0
Knows raw Pc.trigger_first = Unit {0}
Knows raw (Pc.trigger_second expected) =
    (is_used expected ≡ true) × (expected ≢ init) × (may_become expected raw ≡ true)
Knows raw Pc.trigger_post = state_bits raw ≡ resolved
Knows raw Pc.trigger_done = (state_bits raw ≡ triggered) ⊎ (state_bits raw ≡ resolved)
Knows raw Pc.cancel_load = Unit {0}
Knows raw (Pc.cancel_test current) = (is_used current ≡ true) × (may_become current raw ≡ true)
Knows raw Pc.cancel_post = state_bits raw ≡ resolved
Knows raw Pc.cancel_done = (state_bits raw ≡ triggered) ⊎ (state_bits raw ≡ resolved)
Knows raw Pc.arm_first = Unit {0}
Knows raw (Pc.arm_second expected) =
    (is_used expected ≡ true) × (expected ≢ init) × (may_become expected raw ≡ true)
Knows raw Pc.arm_post = state_bits raw ≡ resolved
Knows raw Pc.arm_done = (state_bits raw ≡ armed) ⊎ (state_bits raw ≡ resolved)

-- The byte against the counts: Resolved is reached by the one win, and the flag by the one
-- cancellation that won.
pub record IsSound (s : Shared) : Type 0 where
  pub used : is_used s.raw_state ≡ true
  pub won : s.wins ≡ (if state_bits s.raw_state == resolved then 1 else 0)
  pub cancelled : 128 * s.cancels ≡ cancelled_bit s.raw_state

-- Each step keeps the byte sound, moves it only where it may go, and leaves its thread with a reading
-- that is true of the new byte.
abbrev Keeps : Shared → Local → Type 0
Keeps s l =
    IsSound l.shared
    × (may_become s.raw_state l.shared.raw_state ≡ true)
    × Knows l.shared.raw_state l.pc

trigger_first_step-Keeps : (s : Shared) → IsSound s → Keeps s (trigger_first_step s)
unfolding trigger_first_step
trigger_first_step-Keeps s v = ground arith

trigger_second_step-Keeps :
    (e : ℕ) (s : Shared)
    → IsSound s
    → Knows s.raw_state (Pc.trigger_second e)
    → Keeps s (trigger_second_step e s)
unfolding trigger_second_step
trigger_second_step-Keeps e s v k = ground arith

cancel_test_step-Keeps :
    (spurious : Bool) (e : ℕ) (s : Shared)
    → IsSound s
    → Knows s.raw_state (Pc.cancel_test e)
    → Keeps s (cancel_test_step spurious e s)
unfolding cancel_test_step
cancel_test_step-Keeps spurious e s v k = ground arith

cancel_load_step-Keeps : (s : Shared) → IsSound s → Keeps s (cancel_load_step s)
unfolding cancel_load_step
cancel_load_step-Keeps s v = ground arith

arm_first_step-Keeps : (s : Shared) → IsSound s → Keeps s (arm_first_step s)
unfolding arm_first_step
arm_first_step-Keeps s v = ground arith

arm_second_step-Keeps :
    (e : ℕ) (s : Shared)
    → IsSound s
    → Knows s.raw_state (Pc.arm_second e)
    → Keeps s (arm_second_step e s)
unfolding arm_second_step
arm_second_step-Keeps e s v k = ground arith

-- What a thread knows stays true while others move the byte.
Knows-may_become :
    (p : Pc) (raw raw' : ℕ)
    → is_used raw ≡ true
    → may_become raw raw' ≡ true
    → Knows raw p
    → Knows raw' p
Knows-may_become Pc.trigger_first raw raw' u h k = tt
Knows-may_become (Pc.trigger_second e) raw raw' u h k = ground arith
Knows-may_become Pc.trigger_post raw raw' u h k = ground arith
Knows-may_become Pc.trigger_done raw raw' u h k = ground arith
Knows-may_become Pc.cancel_load raw raw' u h k = tt
Knows-may_become (Pc.cancel_test e) raw raw' u h k = ground arith
Knows-may_become Pc.cancel_post raw raw' u h k = ground arith
Knows-may_become Pc.cancel_done raw raw' u h k = ground arith
Knows-may_become Pc.arm_first raw raw' u h k = tt
Knows-may_become (Pc.arm_second e) raw raw' u h k = ground arith
Knows-may_become Pc.arm_post raw raw' u h k = ground arith
Knows-may_become Pc.arm_done raw raw' u h k = ground arith

idle-Keeps :
    (p : Pc) (s : Shared)
    → IsSound s
    → Knows s.raw_state p
    → Keeps s (record { shared = s; pc = p })
idle-Keeps p s v k = (v, ground arith, k)

post_step-Keeps : (p : Pc) (s : Shared) → IsSound s → Knows s.raw_state p → Keeps s (post_step p s)
unfolding post_step
post_step-Keeps p s v k =
    (record { used = v.used; won = v.won; cancelled = v.cancelled }, ground arith, k)

advance-Keeps :
    (spurious : Bool) (p : Pc) (s : Shared)
    → IsSound s
    → Knows s.raw_state p
    → Keeps s (advance spurious p s)
unfolding advance
advance-Keeps spurious Pc.trigger_first s v k = trigger_first_step-Keeps s v
advance-Keeps spurious (Pc.trigger_second e) s v k = trigger_second_step-Keeps e s v k
advance-Keeps spurious Pc.trigger_post s v k = post_step-Keeps Pc.trigger_done s v (inr k)
advance-Keeps spurious Pc.trigger_done s v k = idle-Keeps Pc.trigger_done s v k
advance-Keeps spurious Pc.cancel_load s v k = cancel_load_step-Keeps s v
advance-Keeps spurious (Pc.cancel_test e) s v k = cancel_test_step-Keeps spurious e s v k
advance-Keeps spurious Pc.cancel_post s v k = post_step-Keeps Pc.cancel_done s v (inr k)
advance-Keeps spurious Pc.cancel_done s v k = idle-Keeps Pc.cancel_done s v k
advance-Keeps spurious Pc.arm_first s v k = arm_first_step-Keeps s v
advance-Keeps spurious (Pc.arm_second e) s v k = arm_second_step-Keeps e s v k
advance-Keeps spurious Pc.arm_post s v k = post_step-Keeps Pc.arm_done s v (inr k)
advance-Keeps spurious Pc.arm_done s v k = idle-Keeps Pc.arm_done s v k

pub record Inv (s : System) : Type 0 where
  pub sound : IsSound s.shared
  pub knows : (i : ℕ) → Knows s.shared.raw_state (s.threads i)

turn-Inv : (i : ℕ) (spurious : Bool) (s : System) → Inv s → Inv (turn i spurious s)
unfolding turn
turn-Inv i spurious s v = record { sound = kept.0; knows = others }
  where
    kept : Keeps s.shared (advance spurious (s.threads i) s.shared)
    kept = advance-Keeps spurious (s.threads i) s.shared v.sound (v.knows i)

    others :
        (j : ℕ)
        → Knows
            (advance spurious (s.threads i) s.shared).shared.raw_state
            (update s.threads i (advance spurious (s.threads i) s.shared).pc j)
    others j = elim (ℕ_discrete i j) [
      | yes e ↦ rw (if_pos _ e) kept.2
      | no ne ↦
          rw (if_neg _ ne)
            (Knows-may_become (s.threads j) s.shared.raw_state _ v.sound.used kept.1 (v.knows j))
    ]

IsCall-Knows : (p : Pc) (raw : ℕ) → IsCall p → Knows raw p
IsCall-Knows Pc.trigger_first raw c = tt
IsCall-Knows Pc.cancel_load raw c = tt
IsCall-Knows Pc.arm_first raw c = tt
IsCall-Knows p raw c = absurd c

-- It holds after every interleaving of calls.
pub Reach-Inv : {calls : ℕ → Pc} {s : System} → ((i : ℕ) → IsCall (calls i)) → Reach calls s → Inv s
Reach-Inv {calls} c Reach.start = record {
  sound = record { used = refl; won = refl; cancelled = refl };
  knows = λ i. IsCall-Knows (calls i) init (c i);
}
Reach-Inv c (Reach.next {s} r i spurious) = turn-Inv i spurious s (Reach-Inv c r)
