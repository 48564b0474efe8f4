-- ===== src/Handshake/Safety.antt =====
-- The resumption of a coroutine is posted once: never twice, and never lost.
use astra_scheduler.Base.{
  ℕ, ◌*◌, ◌≤◌, ◌≡◌, ◌≢◌, ◌⊎◌, inl, inr, subst, ◌∙◌, false, arith, ◌==◌, if◌then◌else◌, ℕ_discrete,
}
use astra_scheduler.Handshake.{Pc, System, Reach, IsCall, resolved, state_bits, cancelled_bit, turn}
use astra_scheduler.Handshake.Posting.{pending, Reach-IsBooked, turn-posts}
use astra_scheduler.Handshake.Invariant.{Knows, Reach-Inv}

-- However many threads call trigger, trigger_cancel and arm, and in whatever order their loads and
-- exchanges fall, at most one of them wins the right to post the resumption, and it posts it at most
-- once; the byte says Resolved exactly once one has won, and its cancel flag is set exactly if a
-- cancellation won.
pub resumed_once :
    {calls : ℕ → Pc} {s : System}
    → ((i : ℕ) → IsCall (calls i))
    → Reach calls s
    → (s.shared.posts ≤ s.shared.wins)
      × (s.shared.wins ≤ 1)
      × (s.shared.wins ≡ (if state_bits s.shared.raw_state == resolved then 1 else 0))
      × (128 * s.shared.cancels ≡ cancelled_bit s.shared.raw_state)
resumed_once c r =
    let v = (Reach-Inv c r).sound in
    let (i, booked, rest) = Reach-IsBooked c r in
    (omega (arith, booked), ground arith, v.won, v.cancelled)

-- A call that wakes the coroutine has returned.
abbrev pub HasWoken : Pc → Type 0
HasWoken p = (p ≡ Pc.trigger_done) ⊎ (p ≡ Pc.cancel_done)

both_done :
    (raw : ℕ) (p : Pc)
    → HasWoken p
    → Knows raw p
    → Knows raw Pc.arm_done
    → state_bits raw ≡ resolved
both_done raw p (inl e) k a = ground (arith, subst (Knows raw) e k)
both_done raw p (inr e) k a = ground (arith, subst (Knows raw) e k)

-- Once some call of arm and some call of trigger or trigger_cancel have both returned, exactly one
-- post of the resumption is made, whichever came first: either it has been posted once and no thread is
-- about to post, or it has not been posted and a thread is about to call its post action, whose next
-- step posts it, and no other thread is.
pub never_lost :
    {calls : ℕ → Pc} {s : System}
    → ((i : ℕ) → IsCall (calls i))
    → Reach calls s
    → (i j : ℕ) → s.threads i ≡ Pc.arm_done
    → HasWoken (s.threads j)
    → ((s.shared.posts ≡ 1) × ((t : ℕ) → pending (s.threads t) ≡ 0))
      ⊎ ((s.shared.posts ≡ 0)
          × ((t : ℕ) × (pending (s.threads t) ≡ 1)
              × ((turn t false s).shared.posts ≡ 1)
              × ((u : ℕ) → t ≢ u → pending (s.threads u) ≡ 0)))
never_lost {s} c r i j a w =
    let v = Reach-Inv c r in
    let e =
      both_done s.shared.raw_state (s.threads j) w (v.knows j)
        (subst (Knows s.shared.raw_state) a (v.knows i)) in
    let won : s.shared.wins ≡ 1 = v.sound.won ∙ rw e in
    let (t, booked, rest) = Reach-IsBooked c r in
    elim (ℕ_discrete (pending (s.threads t)) 0) [
      | yes z ↦ inl (
        omega arith,
        λ u. elim (ℕ_discrete t u) [
          | yes same ↦ subst (λ x. pending (s.threads x) ≡ 0) same z
          | no ne ↦ rest u ne
        ],
      )
      | no nz ↦
          let one : pending (s.threads t) ≡ 1 = omega (arith, nz) in
          inr (omega arith, (t, one, turn-posts t false s one ∙ omega arith, rest))
    ]
