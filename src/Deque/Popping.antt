-- ===== src/Deque/Popping.antt =====
-- The steps of pop keep the invariant and take the last item.
use astra_scheduler.Base.{
  ℕ, ◌+◌, ◌-◌, ◌≡◌, refl, ◌∙◌, arith, ltb, ◌==◌, ltb→lt, ltb-eq-false, add64, if_then_else_lem,
}
use astra_scheduler.Deque.{load_cell, ChaseLevDeque, Owner, Environment, buffer, owner_step}
use astra_scheduler.Deque.Contents.{snapshot_last, snapshot_none}
use astra_scheduler.Deque.Invariant.{IsSound, OwnerKnows}
use astra_scheduler.Deque.Stepping.{IsGood, still, stays, moves}

module _ (env : Environment) (s : ChaseLevDeque) where
  pub pop_start-IsGood :
      IsSound Owner.pop_start s → IsGood Owner.pop_start s (owner_step env Owner.pop_start s)
  unfolding owner_step
  pop_start-IsGood sound =
      if_then_else_lem (IsGood Owner.pop_start s) (s.bottom == 0)
        (λ h. stays _ _ s sound refl tt refl)
        (λ h. still _ _ s (s.bottom - 1) s.maintenance sound (ground arith) refl (λ c. absurd (cc)))

  pub pop_lost-IsGood :
      (b : ℕ)
      → IsSound (Owner.pop_lost b) s
      → OwnerKnows (Owner.pop_lost b) s
      → IsGood (Owner.pop_lost b) s (owner_step env (Owner.pop_lost b) s)
  unfolding owner_step
  pop_lost-IsGood b sound owns =
      let x = sound.small in
      still _ _ s (add64 b 1) s.maintenance sound (ground arith) tt (λ c. absurd (cc))

  pub pop_won-IsGood :
      (b : ℕ)
      → IsSound (Owner.pop_won b) s
      → OwnerKnows (Owner.pop_won b) s
      → IsGood (Owner.pop_won b) s (owner_step env (Owner.pop_won b) s)
  unfolding owner_step
  pop_won-IsGood b sound owns =
      let x = sound.small in
      still _ _ s (add64 b 1) s.maintenance sound (ground arith) tt (λ c. absurd (cc))

  pub pop_last-IsGood :
      (b item : ℕ)
      → IsSound (Owner.pop_last b item) s
      → OwnerKnows (Owner.pop_last b item) s
      → IsGood (Owner.pop_last b item) s (owner_step env (Owner.pop_last b item) s)
  unfolding owner_step
  pop_last-IsGood b item sound owns =
      if_then_else_lem (IsGood (Owner.pop_last b item) s) (s.top == b)
        (λ h. record {
          sound =
              let x = sound.small in
              let y = sound.room in
              let z = sound.small_capacity in
              record { ordered = ground arith; room = ground arith; small_capacity = z; small = x };
          owns = ground arith;
          does =
              let at : s.top ≡ b = ground arith in
              let e : add64 b 1 ≡ b + 1 = (let x = sound.small in ground arith) in
              snapshot_last (buffer s) s.top b item (s.bottom + 1) b (omega arith) (ground arith)
                refl (ground arith)
              ∙ rw
                  (
                    e,
                    snapshot_none (buffer s) s.top b (omega arith),
                    snapshot_none (buffer s) (b + 1) (s.bottom + 1) (ground arith),
                  )
                  refl;
          stable = λ x y.
              let z = sound.small in
              moves s (record s { top = add64 b 1 }) _ _ (ground arith) (omega arith);
          entering = λ c. absurd (cc);
          guard = refl;
        })
        (λ h. let x = sound.ordered in stays _ _ s sound refl (ground arith) refl)

  pub pop_top-IsGood :
      (b : ℕ)
      → IsSound (Owner.pop_top b) s
      → OwnerKnows (Owner.pop_top b) s
      → IsGood (Owner.pop_top b) s (owner_step env (Owner.pop_top b) s)
  unfolding owner_step
  pop_top-IsGood b sound at =
      let x = sound.ordered in
      let y = sound.room in
      let z = sound.small in
      if_then_else_lem (IsGood (Owner.pop_top b) s) (ltb s.top b)
        (λ less.
          let under = ltb→lt s.top b less in
          record {
            sound = record {
              ordered = omega arith;
              room = omega arith;
              small_capacity = sound.small_capacity;
              small = omega arith;
            };
            owns = tt;
            does =
                snapshot_last (buffer s) s.top b (load_cell (buffer s) b) (s.bottom + 1)
                  (s.bottom + 0) (omega arith) (omega arith) (omega arith) refl;
            stable = λ c d. record {
              top_le = omega arith;
              active_le = omega arith;
              live = λ i a c h. omega arith;
              same = λ i a c h. refl;
              old = λ i k a c h d g. g;
            };
            entering = λ c. absurd (cc);
            guard = refl;
          })
        (λ not_less.
          let over = ltb-eq-false s.top b not_less in
          if_then_else_lem (IsGood (Owner.pop_top b) s) (s.top == b)
            (λ h. stays _ _ s sound refl (at, over, refl) refl)
            (λ h. stays _ _ s sound refl (at, ground arith) refl))
