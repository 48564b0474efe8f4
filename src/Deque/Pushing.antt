-- ===== src/Deque/Pushing.antt =====
-- The steps of push keep the invariant and add the item.
use astra_scheduler.Base.{
  ℕ, ◌+◌, ◌-◌, ◌*◌, ◌≤◌, ◌≡◌, refl, sym, false, not, ◌||◌, arith, ltb, leb, leb-eq-false,
  ltb-eq-false, add64, update, if_then_else_lem,
}
use astra_scheduler.Deque.{
  Buffer, store_cell, ChaseLevDeque, rebase_high_watermark, Owner, Environment, buffer, copy_cells,
  is_too_large, grow, quiet, owner_step,
}
use astra_scheduler.Deque.Windows.{mod-ne}
use astra_scheduler.Deque.Contents.{
  load-store_self, load-store_ne, copy_cells-capacity, load-copy_cells, update_self, update_ne,
  snapshot_last,
}
use astra_scheduler.Deque.Invariant.{IsSound, OwnerKnows}
use astra_scheduler.Deque.Stepping.{IsGood, stays, rewrites}

module _ (env : Environment) (s : ChaseLevDeque) where
  pub push_load-IsGood :
      (item : ℕ)
      → IsSound (Owner.push_load item) s
      → IsGood (Owner.push_load item) s (owner_step env (Owner.push_load item) s)
  unfolding owner_step
  push_load-IsGood item sound =
      let x = sound.room in
      if_then_else_lem (IsGood (Owner.push_load item) s)
        (leb rebase_high_watermark s.bottom || leb rebase_high_watermark s.top)
        (λ h. stays _ _ s sound refl tt refl)
        (λ h. stays _ _ s sound refl (refl, ground arith, omega arith, omega arith) refl)

  pub push_reload-IsGood :
      (item : ℕ)
      → IsSound (Owner.push_reload item) s
      → OwnerKnows (Owner.push_reload item) s
      → IsGood (Owner.push_reload item) s (owner_step env (Owner.push_reload item) s)
  unfolding owner_step
  push_reload-IsGood item sound owns =
      let x = sound.room in stays _ _ s sound refl (refl, owns, omega arith, omega arith) refl

  pub push_cell-IsGood :
      (item b : ℕ)
      → IsSound (Owner.push_cell item b) s
      → OwnerKnows (Owner.push_cell item b) s
      → IsGood (Owner.push_cell item b) s (owner_step env (Owner.push_cell item b) s)
  unfolding owner_step
  push_cell-IsGood item b sound (at, small, room) =
      let new = update s.buffers s.active_buffer (store_cell b item (buffer s)) in
      let e : new s.active_buffer ≡ store_cell b item (buffer s) =
        update_self s.buffers s.active_buffer (store_cell b item (buffer s)) in
      rewrites _ _ s (record s { buffers = new }) sound (refl, refl, refl) (omega arith)
        (rw e (omega arith)) (rw e sound.small_capacity)
        (λ i low high. rw e (
          sym (
            load-store_ne b i item (buffer s)
              (λ c. mod-ne (buffer s).capacity i b (omega arith) (omega arith) (sym c)))))
        (λ k below ne.
          update_ne s.buffers s.active_buffer k (store_cell b item (buffer s)) (λ c. ne (sym c)))
        (at, small, rw e room, rw e (load-store_self b item (buffer s))) refl

  pub push_bottom-IsGood :
      (item b : ℕ)
      → IsSound (Owner.push_bottom item b) s
      → OwnerKnows (Owner.push_bottom item b) s
      → IsGood (Owner.push_bottom item b) s (owner_step env (Owner.push_bottom item b) s)
  unfolding owner_step
  push_bottom-IsGood item b sound (at, small, room, is) =
      let e : add64 b 1 ≡ b + 1 = ground arith in
      let x = sound.ordered in
      record {
        sound = record {
          ordered = omega arith;
          room = omega arith;
          small_capacity = sound.small_capacity;
          small = omega arith;
        };
        owns = tt;
        does =
            snapshot_last (buffer s) s.top b item (add64 b 1 + 0) (s.bottom + 0) (omega arith)
              (omega arith) (omega arith) is;
        stable = λ y z. record {
          top_le = omega arith;
          active_le = omega arith;
          live = λ i a c h. omega arith;
          same = λ i a c h. refl;
          old = λ i k a c h d g. g;
        };
        entering = λ c. absurd (cc);
        guard = refl;
      }

  grow-IsGood :
      (item b t : ℕ)
      → IsSound (Owner.push_room item b t) s
      → OwnerKnows (Owner.push_room item b t) s
      → t ≤ b
      → is_too_large (buffer s).capacity ≡ false
      → IsGood (Owner.push_room item b t) s (quiet (grow b t s) (Owner.push_cell item b))
  unfolding grow
  grow-IsGood item b t sound (at, small, late, room) ordered fits =
      let fresh : Buffer = record { capacity = (buffer s).capacity * 2; cells = λ i. 0 } in
      let copied = copy_cells (buffer s) t (b - t) fresh in
      let new = update s.buffers (s.active_buffer + 1) copied in
      let e : new (s.active_buffer + 1) ≡ copied =
        update_self s.buffers (s.active_buffer + 1) copied in
      let c : copied.capacity ≡ (buffer s).capacity * 2 =
        copy_cells-capacity (b - t) t (buffer s) fresh in
      let x = sound.room in
      let y = sound.ordered in
      rewrites _ _ s (grow b t s) sound (refl, refl, refl) (omega arith) (rw (e, c) (omega arith))
        (rw (e, c) (ground arith))
        (λ i low high. rw e (
          sym (
            load-copy_cells (b - t) t i (buffer s) fresh (omega arith) (omega arith)
              (omega arith))))
        (λ k below ne. update_ne s.buffers (s.active_buffer + 1) k copied (omega arith))
        (at, small, rw (e, c) (omega arith)) refl

  pub push_room-IsGood :
      (item b t : ℕ)
      → IsSound (Owner.push_room item b t) s
      → OwnerKnows (Owner.push_room item b t) s
      → IsGood (Owner.push_room item b t) s (owner_step env (Owner.push_room item b t) s)
  unfolding owner_step
  push_room-IsGood item b t sound (at, small, late, room) =
      let P = IsGood (Owner.push_room item b t) s in
      let gives_up : P (quiet s Owner.idle) = stays _ _ s sound refl tt refl in
      if_then_else_lem P (ltb b t) (λ h. gives_up)
        (λ h.
          if_then_else_lem P (leb ((buffer s).capacity - 1) (b - t))
            (λ full.
              if_then_else_lem P
                (env.inject_growth_failure || is_too_large (buffer s).capacity || not env.allocates)
                (λ f. gives_up)
                (λ f.
                  grow-IsGood item b t sound (at, small, late, room) (ltb-eq-false b t h)
                    (ground arith)))
            (λ free.
              stays _ _ s sound refl
                (
                  at,
                  small,
                  let x = leb-eq-false ((buffer s).capacity - 1) (b - t) free in
                      let y = ltb-eq-false b t h in omega arith,
                )
                refl))
