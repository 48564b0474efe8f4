-- ===== src/Deque/Stepping.antt =====
-- What a step of the owner owes, and the steps that owe it for the same reason.
use astra_scheduler.Base.{
  ℕ, ◌+◌, ◌-◌, ◌^◌, ◌≤◌, ◌<◌, ◌≡◌, refl, sym, ap, ◌∙◌, ◌≢◌, Bool, true, false, arith, ℕ_discrete,
}
use astra_scheduler.Deque.{
  load_cell, ChaseLevDeque, After, Owner, OwnerStep, buffer, snapshot, resume, quiet,
}
use astra_scheduler.Deque.Contents.{snapshot-ext}
use astra_scheduler.Deque.Invariant.{reserved, end, contents, Does, IsSound, OwnerKnows, copying}
use astra_scheduler.Deque.Stability.{IsStable}

pub record IsGood (o : Owner) (s : ChaseLevDeque) (r : OwnerStep) : Type 0 where
  pub sound : IsSound r.owner r.shared
  pub owns : OwnerKnows r.owner r.shared
  pub does : Does r.event (contents o s) (contents r.owner r.shared)
  pub stable :
      copying o ≡ false
      → copying r.owner ≡ false
      → IsStable s (end o s) r.shared (end r.owner r.shared)
  pub entering : copying r.owner ≡ true → s.active_thieves ≡ 0
  pub guard : r.shared.active_thieves ≡ s.active_thieves

-- A step that moves neither the top nor the end and writes no cell.
pub still :
    (o q : Owner) (s : ChaseLevDeque) (b : ℕ) (m : Bool)
    → IsSound o s
    → b + reserved q ≡ end o s
    → OwnerKnows q (record s { bottom = b; maintenance = m })
    → (copying q ≡ true → s.active_thieves ≡ 0)
    → IsGood o s (quiet (record s { bottom = b; maintenance = m }) q)
still o q s b m sound e owns entering = record {
  sound = record {
    ordered = let x = sound.ordered in omega arith;
    room = let x = sound.room in omega arith;
    small_capacity = sound.small_capacity;
    small = let x = sound.small in omega arith;
  };
  owns = owns;
  does = ap (λ (f : ℕ). snapshot (buffer s) s.top (f - s.top)) (sym e);
  stable = λ x y. record {
    top_le = omega arith;
    active_le = omega arith;
    live = λ i a b h. omega arith;
    same = λ i a b h. refl;
    old = λ i k a b h c d. d;
  };
  entering = entering;
  guard = refl;
}

-- The same without a change of the shared fields.
pub stays :
    (o q : Owner) (s : ChaseLevDeque)
    → IsSound o s
    → reserved q ≡ reserved o
    → OwnerKnows q s
    → copying q ≡ false
    → IsGood o s (quiet s q)
stays o q s sound e owns c =
    still o q s s.bottom s.maintenance sound (omega arith) owns (λ h. absurd (cc))

-- A step that writes cells outside the live interval, or moves to a larger buffer that has the items.
pub rewrites :
    (o q : Owner) (s t : ChaseLevDeque)
    → IsSound o s
    → (t.top ≡ s.top) × (end q t ≡ end o s) × (t.active_thieves ≡ s.active_thieves)
    → s.active_buffer ≤ t.active_buffer
    → (buffer s).capacity ≤ (buffer t).capacity
    → (buffer t).capacity ≤ 2 ^ 63
    → ((i : ℕ) → s.top ≤ i → i < end o s → load_cell (buffer s) i ≡ load_cell (buffer t) i)
    → ((k : ℕ) → k ≤ s.active_buffer → k ≢ t.active_buffer → t.buffers k ≡ s.buffers k)
    → OwnerKnows q t
    → copying q ≡ false
    → IsGood o s (quiet t q)
rewrites o q s t sound (top, e, guard) active grown small kept others owns c = record {
  sound =
      let x = sound.ordered in
      let y = sound.room in
      let z = sound.small in
      record {
        ordered = omega arith;
        room = omega arith;
        small_capacity = small;
        small = omega arith;
      };
  owns = owns;
  does =
      snapshot-ext (end o s - s.top) s.top (buffer s) (buffer t) (λ i a b. kept i a (omega arith))
      ∙ rw (top, e) refl;
  stable = λ x y. record {
    top_le = omega arith;
    active_le = active;
    live = λ i a b h. omega arith;
    same = λ i a b h. kept i (omega arith) h;
    old = λ i k a b h below holds. elim (ℕ_discrete k t.active_buffer) [
      | yes same ↦ rw same refl
      | no ne ↦ rw (others k below ne) (holds ∙ kept i (omega arith) h)
    ];
  };
  entering = λ h. absurd (cc);
  guard = guard;
}

-- A step that moves the top on lets no thief take the item that was there.
pub moves :
    (s t : ChaseLevDeque) (e f : ℕ)
    → s.top < t.top
    → s.active_buffer ≤ t.active_buffer
    → IsStable s e t f
moves s t e f h active = record {
  top_le = omega arith;
  active_le = active;
  live = λ i a b c. omega arith;
  same = λ i a b c. absurd (omega arith);
  old = λ i k a b c. absurd (omega arith);
}

-- A call that goes on, or is over, after a rebase that did not happen.
pub refused :
    (o : Owner) (k : After) (s : ChaseLevDeque) (m : Bool)
    → IsSound o s
    → reserved o ≡ 0
    → IsGood o s (quiet (record s { maintenance = m }) (resume k false))
refused o (After.then_push item) s m sound e =
    still o Owner.idle s s.bottom m sound (omega arith) tt (λ c. absurd (cc))
refused o After.then_empty s m sound e =
    still o Owner.idle s s.bottom m sound (omega arith) tt (λ c. absurd (cc))
