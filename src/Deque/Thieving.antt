-- ===== src/Deque/Thieving.antt =====
-- Every step of a thief keeps the invariant and does to the items what its event says.
use astra_scheduler.Base.{
  ℕ, ◌+◌, ◌-◌, ◌%◌, ◌^◌, ◌≤◌, ◌<◌, ◌≡◌, refl, sym, ◌∙◌, inl, inr, true, false, arith, ltb, ◌==◌,
  ltb→lt, Bool-cases, add64, if_then_else_lem,
}
use astra_scheduler.Deque.{
  ChaseLevDeque, Owner, Thief, Event, buffer, ThiefStep, unseen, thief_step,
}
use astra_scheduler.Deque.Contents.{snapshot_first}
use astra_scheduler.Deque.Invariant.{
  end, contents, Does, IsSound, OwnerKnows, copying, inside, critical, ThiefKnows,
}
use astra_scheduler.Deque.Stability.{IsStable, outside-ThiefKnows}
use astra_scheduler.Deque.Stepping.{moves}

pub record IsFair (o : Owner) (p : Thief) (s : ChaseLevDeque) (r : ThiefStep) : Type 0 where
  pub sound : IsSound o r.shared
  pub owns : OwnerKnows o r.shared
  pub knows : ThiefKnows r.thief o r.shared
  pub does : Does r.event (contents o s) (contents o r.shared)
  pub stable : IsStable s (end o s) r.shared (end o r.shared)
  pub counts : r.shared.active_thieves + inside p ≡ s.active_thieves + inside r.thief

OwnerKnows-moves :
    (o : Owner) (s : ChaseLevDeque) (t n : ℕ)
    → s.top ≤ t
    → t ≤ end o s
    → OwnerKnows o s
    → OwnerKnows o (record s { top = t; active_thieves = n })
OwnerKnows-moves Owner.idle s t n low high k = k
OwnerKnows-moves (Owner.push_load item) s t n low high k = k
OwnerKnows-moves (Owner.push_reload item) s t n low high k = k
OwnerKnows-moves (Owner.push_room item b u) s t n low high (at, small, late, room) =
    (at, small, omega arith, room)
OwnerKnows-moves (Owner.push_cell item b) s t n low high (at, small, room) =
    (at, small, omega arith)
OwnerKnows-moves (Owner.push_bottom item b) s t n low high (at, small, room, is) =
    (at, small, omega arith, is)
OwnerKnows-moves Owner.pop_start s t n low high k = k
OwnerKnows-moves (Owner.pop_top b) s t n low high k = k
OwnerKnows-moves (Owner.pop_last b item) s t n low high (at, over, is) = (at, omega arith, is)
OwnerKnows-moves (Owner.pop_lost b) s t n low high (at, top) = (at, omega arith)
OwnerKnows-moves (Owner.pop_won b) s t n low high (at, top) = (at, omega arith)
OwnerKnows-moves (Owner.rebase_load k) s t n low high h = h
OwnerKnows-moves (Owner.rebase_flag k) s t n low high h = h
OwnerKnows-moves (Owner.rebase_wait k) s t n low high h = h
OwnerKnows-moves (Owner.rebase_copy k) s t n low high h = h

module _ (o : Owner) (s : ChaseLevDeque) (sound : IsSound o s) (owns : OwnerKnows o s) where
  -- A step of a thief that leaves the indices as they are.
  looks :
      (p q : Thief) (n : ℕ)
      → n + inside p ≡ s.active_thieves + inside q
      → ThiefKnows q o (record s { active_thieves = n })
      → IsFair o p s (unseen (record s { active_thieves = n }) q)
  looks p q n counts knows =
      let x = sound.ordered in
      record {
        sound = record {
          ordered = x;
          room = sound.room;
          small_capacity = sound.small_capacity;
          small = sound.small;
        };
        owns = OwnerKnows-moves o s s.top n (omega arith) x owns;
        knows = knows;
        does = refl;
        stable = record {
          top_le = omega arith;
          active_le = omega arith;
          live = λ i a c h. h;
          same = λ i a c h. refl;
          old = λ i k a c h d g. g;
        };
        counts = counts;
      }

  outside :
      (p q : Thief) (n : ℕ)
      → n + inside p ≡ s.active_thieves + inside q
      → critical q ≡ false
      → IsFair o p s (unseen (record s { active_thieves = n }) q)
  outside p q n counts c = looks p q n counts (outside-ThiefKnows q o _ c)

  -- The exchange of a thief that finds the top where it was.
  takes :
      (t item : ℕ)
      → ThiefKnows (Thief.exchange t item) o s
      → s.top ≡ t
      → IsFair o (Thief.exchange t item) s (record {
        shared = record s { top = add64 t 1 };
        thief = Thief.leave;
        event = Event.stolen item;
      })
  takes t item knows at =
      let (a, b, c) = knows.has_read in
      let live = b (sym at) in
      let x = sound.room in
      let z = sound.small in
      let e : add64 t 1 ≡ t + 1 = omega arith in
      record {
        sound = record {
          ordered = omega arith;
          room = omega arith;
          small_capacity = sound.small_capacity;
          small = z;
        };
        owns = OwnerKnows-moves o s (add64 t 1) s.active_thieves (omega arith) (omega arith) owns;
        knows = outside-ThiefKnows Thief.leave o _ refl;
        does = rw (e, at) (snapshot_first (buffer s) t (end o s) live ∙ rw (c (sym at)) refl);
        stable = moves s (record s { top = add64 t 1 }) _ _ (omega arith) (omega arith);
        counts = refl;
      }

  pub thief_step-IsFair :
      (p : Thief)
      → ThiefKnows p o s
      → (copying o ≡ true → s.maintenance ≡ true)
      → inside p ≤ s.active_thieves
      → s.active_thieves + 1 < 2 ^ 32 + inside p
      → s.active_thieves < 2 ^ 32
      → IsFair o p s (thief_step p s)
  unfolding thief_step
  thief_step-IsFair Thief.idle k m low high small = outside _ _ s.active_thieves refl refl
  thief_step-IsFair Thief.check k m low high small =
      if_then_else_lem (IsFair o Thief.check s) s.maintenance
        (λ h. outside _ _ s.active_thieves refl refl) (λ h. outside _ _ s.active_thieves refl refl)
  thief_step-IsFair Thief.enter k m low high small =
      outside _ _ ((s.active_thieves + 1) % 2 ^ 32) (omega arith) refl
  thief_step-IsFair Thief.recheck k m low high small =
      if_then_else_lem (IsFair o Thief.recheck s) s.maintenance
        (λ h. outside _ _ s.active_thieves refl refl)
        (λ h. looks _ _ s.active_thieves refl (record {
          apart =
              λ c. elim (Bool-cases (copying o)) [ inl y ↦ absurd (let z = m y in cc) | inr n ↦ n ];
          has_read = tt;
        }))
  thief_step-IsFair Thief.load_top k m low high small =
      looks _ _ s.active_thieves refl (record { apart = λ c. k.apart refl; has_read = omega arith })
  thief_step-IsFair (Thief.load_bottom t) k m low high small =
      if_then_else_lem (IsFair o (Thief.load_bottom t) s) (ltb t s.bottom)
        (λ h. looks _ _ s.active_thieves refl (record {
          apart = λ c. k.apart refl;
          has_read = (k.has_read, λ e. let less = ltb→lt t s.bottom h in omega arith);
        }))
        (λ h. outside _ _ s.active_thieves refl refl)
  thief_step-IsFair (Thief.load_buffer t) k m low high small =
      let (a, b) = k.has_read in
      looks _ _ s.active_thieves refl
        (record { apart = λ c. k.apart refl; has_read = (a, b, omega arith, λ e. refl) })
  thief_step-IsFair (Thief.load_item t j) k m low high small =
      let (a, b, c, d) = k.has_read in
      looks _ _ s.active_thieves refl
        (record { apart = λ c. k.apart refl; has_read = (a, b, λ e. sym (d e)) })
  thief_step-IsFair (Thief.exchange t item) k m low high small =
      if_then_else_lem (IsFair o (Thief.exchange t item) s) (s.top == t)
        (λ h. takes t item k (ground arith)) (λ h. outside _ _ s.active_thieves refl refl)
  thief_step-IsFair Thief.leave k m low high small =
      outside _ _ ((s.active_thieves + 2 ^ 32 - 1) % 2 ^ 32) (omega arith) refl
