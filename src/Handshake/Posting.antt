-- ===== src/Handshake/Posting.antt =====
-- Who still has to run a post action: at most one thread, the one that has won and not posted yet.
use astra_scheduler.Base.{ℕ, ◌+◌, ◌≤◌, ◌≡◌, ◌≢◌, refl, sym, subst, ◌∙◌, Bool, arith, ℕ_discrete}
use mathlib.Core.Logic.{if_pos, if_neg}
use astra_scheduler.Handshake.{
  Shared, Pc, System, Reach, IsCall, advance, turn, trigger_first_step, trigger_second_step,
  cancel_test_step, cancel_load_step, arm_first_step, arm_second_step, post_step, update,
}
use astra_scheduler.Handshake.Invariant.{Reach-Inv}

-- 1 for a thread that is about to call its post action.
abbrev pub pending : Pc → ℕ
pending Pc.trigger_post = 1
pending Pc.cancel_post = 1
pending Pc.arm_post = 1
pending p = 0

-- All wins but those of one thread have been followed by their post.
abbrev pub IsBooked : System → Type 0
IsBooked s =
    (i : ℕ) × (s.shared.wins ≡ s.shared.posts + pending (s.threads i))
    × ((j : ℕ) → i ≢ j → pending (s.threads j) ≡ 0)

cancel_test-pending :
    (spurious : Bool) (e : ℕ) (s : Shared)
    → let l = cancel_test_step spurious e s in
      l.shared.wins + s.posts ≡ s.wins + l.shared.posts + pending l.pc
unfolding cancel_test_step
cancel_test-pending spurious e s = ground arith

-- A step books its wins and its posts.
advance-pending :
    (spurious : Bool) (p : Pc) (s : Shared)
    → let l = advance spurious p s in
      l.shared.wins + s.posts + pending p ≡ s.wins + l.shared.posts + pending l.pc
unfolding advance trigger_first_step trigger_second_step cancel_load_step arm_first_step
    arm_second_step post_step
advance-pending spurious Pc.trigger_first s = ground arith
advance-pending spurious (Pc.trigger_second e) s = ground arith
advance-pending spurious Pc.trigger_post s = omega arith
advance-pending spurious Pc.trigger_done s = omega arith
advance-pending spurious Pc.cancel_load s = omega arith
advance-pending spurious (Pc.cancel_test e) s = omega (arith, cancel_test-pending spurious e s)
advance-pending spurious Pc.cancel_post s = omega arith
advance-pending spurious Pc.cancel_done s = omega arith
advance-pending spurious Pc.arm_first s = ground arith
advance-pending spurious (Pc.arm_second e) s = ground arith
advance-pending spurious Pc.arm_post s = omega arith
advance-pending spurious Pc.arm_done s = omega arith

-- The win that is still open may pass to the thread that takes a step, but not to a second one.
module _ (f : ℕ → Pc) (k : ℕ) (p : Pc) (w q w' q' : ℕ) (few : w' ≤ 1)
    (step : w' + q + pending (f k) ≡ w + q' + pending p) where
  abbrev Open : (ℕ → Pc) → ℕ → ℕ → ℕ → Type 0
  Open g x y i = (x ≡ y + pending (g i)) × ((j : ℕ) → i ≢ j → pending (g j) ≡ 0)

  -- It belongs to the thread of this step.
  Open-own :
      (i : ℕ)
      → w' ≡ q' + pending p
      → ((j : ℕ) → k ≢ j → pending (f j) ≡ 0)
      → Open (update f k p) w' q' k
  Open-own i mine rest =
      (rw (if_pos (ℕ_discrete k k) refl) mine, λ j ne. rw (if_neg _ ne) (rest j ne))

  -- It stays with another thread.
  Open-other : (i : ℕ) → i ≢ k → pending p ≡ 0 → Open f w q i → Open (update f k p) w' q' i
  Open-other i ne z (mine, rest) = (
    rw (if_neg _ (λ e. ne (sym e))) (omega (arith, rest k ne)),
    λ j nj. elim (ℕ_discrete k j) [
      | yes e ↦ rw (if_pos _ e) z
      | no n ↦ rw (if_neg _ n) (rest j nj)
    ],
  )

  Open-step : (i : ℕ) → Open f w q i → (i' : ℕ) × Open (update f k p) w' q' i'
  Open-step i (mine, rest) = elim (ℕ_discrete i k) [
    | yes e ↦ (
      k,
      Open-own i (omega (arith, subst (λ a. w ≡ q + pending (f a)) e mine))
          (λ j ne. rest j (λ ij. ne (sym e ∙ ij))),
    )
    | no ne ↦ elim (ℕ_discrete (pending p) 0) [
      | yes z ↦ (i, Open-other i ne z (mine, rest))
      | no nz ↦ (
        k,
        Open-own i (omega (arith, nz, mine, rest k ne)) (λ j nj. elim (ℕ_discrete i j) [
          | yes e ↦ subst (λ a. pending (f a) ≡ 0) e (omega (arith, nz, mine, rest k ne))
          | no n ↦ rest j n
        ]),
      )
    ]
  ]

-- Every step keeps it, as long as there is one win at most.
turn-IsBooked :
    (k : ℕ) (spurious : Bool) (s : System)
    → (turn k spurious s).shared.wins ≤ 1
    → IsBooked s
    → IsBooked (turn k spurious s)
unfolding turn
turn-IsBooked k spurious s few (i, mine, rest) =
    let l = advance spurious (s.threads k) s.shared in
    let (i', (mine', rest')) =
      Open-step s.threads k l.pc s.shared.wins s.shared.posts l.shared.wins l.shared.posts few
        (advance-pending spurious (s.threads k) s.shared) i (mine, rest) in
    (i', mine', rest')

IsCall-pending : (p : Pc) → IsCall p → pending p ≡ 0
IsCall-pending Pc.trigger_first c = refl
IsCall-pending Pc.cancel_load c = refl
IsCall-pending Pc.arm_first c = refl
IsCall-pending p c = absurd c

-- It holds after every interleaving of calls.
pub Reach-IsBooked :
    {calls : ℕ → Pc} {s : System} → ((i : ℕ) → IsCall (calls i)) → Reach calls s → IsBooked s
Reach-IsBooked {calls} c Reach.start =
    (0, ground (arith, IsCall-pending (calls 0) (c 0)), λ j ne. IsCall-pending (calls j) (c j))
Reach-IsBooked c (Reach.next {s} r i spurious) =
    turn-IsBooked i spurious s
      (let v = (Reach-Inv c (Reach.next r i spurious)).sound in ground (arith, v.won))
      (Reach-IsBooked c r)

advance-posts :
    (spurious : Bool) (p : Pc) (u : Shared)
    → pending p ≡ 1
    → (advance spurious p u).shared.posts ≡ u.posts + 1
unfolding advance post_step
advance-posts spurious Pc.trigger_post u e = refl
advance-posts spurious Pc.cancel_post u e = refl
advance-posts spurious Pc.arm_post u e = refl
advance-posts spurious p u e = absurd (omega (arith, e))

-- The post action of a thread that is about to call it.
pub turn-posts :
    (i : ℕ) (spurious : Bool) (s : System)
    → pending (s.threads i) ≡ 1
    → (turn i spurious s).shared.posts ≡ s.shared.posts + 1
unfolding turn
turn-posts i spurious s = advance-posts spurious (s.threads i) s.shared
