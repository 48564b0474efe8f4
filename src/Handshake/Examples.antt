-- ===== src/Handshake/Examples.antt =====
-- Races on one handshake, and the theorems of Handshake.Safety at one of them.
use astra_scheduler.Base.{
  ℕ, zero, suc, ◌*◌, ◌≤◌, ◌≡◌, ◌≢◌, ◌⊎◌, inl, refl, false, ℕ_discrete, ◌==◌, if◌then◌else◌,
}
use astra_scheduler.Handshake.{
  Pc, System, Reach, IsCall, turn, advance, fresh, resolved, state_bits, cancelled_bit,
}
use astra_scheduler.Handshake.Posting.{pending}
use astra_scheduler.Handshake.Safety.{resumed_once, never_lost}

-- Thread 0 suspends the coroutine, thread 1 completes the awaited task, all others cancel.
abbrev calls : ℕ → Pc
calls zero = Pc.arm_first
calls (suc zero) = Pc.trigger_first
calls (suc (suc n)) = Pc.cancel_load

calls-IsCall : (i : ℕ) → IsCall (calls i)
calls-IsCall zero = tt
calls-IsCall (suc zero) = tt
calls-IsCall (suc (suc n)) = tt

-- Thread 2 reads Init, thread 1 triggers, thread 0 finds that, resolves and posts, thread 2 fails and
-- stops.
abbrev raced : System
raced = turn 2 false (
    turn 2 false (
      turn 0 false (
        turn 0 false (
          turn 0 false
            (turn 1 false (turn 2 false (record { shared = fresh; threads = calls })))))))

raced-Reach : Reach calls raced
raced-Reach =
    Reach.next
      (Reach.next
        (Reach.next
          (Reach.next (Reach.next (Reach.next (Reach.next Reach.start 2 false) 1 false) 0 false) 0
            false)
          0 false)
        2 false)
      2 false

raced_threads : (raced.threads 0 ≡ Pc.arm_done) × (raced.threads 1 ≡ Pc.trigger_done)
unfolding turn advance ℕ_discrete
raced_threads = (refl, refl)

resumed_once_example :
    (raced.shared.posts ≤ raced.shared.wins)
    × (raced.shared.wins ≤ 1)
    × (raced.shared.wins ≡ (if state_bits raced.shared.raw_state == resolved then 1 else 0))
    × (128 * raced.shared.cancels ≡ cancelled_bit raced.shared.raw_state)
resumed_once_example = resumed_once {s = raced} calls-IsCall raced-Reach

never_lost_example :
    ((raced.shared.posts ≡ 1) × ((t : ℕ) → pending (raced.threads t) ≡ 0))
    ⊎ ((raced.shared.posts ≡ 0)
        × ((t : ℕ) × (pending (raced.threads t) ≡ 1)
            × ((turn t false raced).shared.posts ≡ 1)
            × ((u : ℕ) → t ≢ u → pending (raced.threads u) ≡ 0)))
never_lost_example = never_lost calls-IsCall raced-Reach 0 1 raced_threads.0 (inl raced_threads.1)
