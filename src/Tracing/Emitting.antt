-- ===== src/Tracing/Emitting.antt =====
-- What one step of an emitting thread does to the counts and the buffers.
use astra_scheduler.Base.{
  ℕ, ◌+◌, ◌-◌, ◌^◌, ◌≤◌, ◌<◌, ◌≡◌, refl, ap, ◌⊎◌, inl, inr, Bool, true, false, ◌&&◌, ◌||◌, some,
  arith, dec_lt, ℕ_discrete, ◌==◌, if◌then◌else◌, add64, sub64, if_then_else_lem,
}
use astra_scheduler.Tracing.{TraceEvent, TraceBinding, TraceGeneration, Emitter, stamp, emit_step}

-- The thread is counted in `inflight`.
abbrev pub inside : Emitter → ℕ
inside Emitter.idle = 0
inside (Emitter.starts s c p) = 0
inside (Emitter.enters s c p) = 0
inside _ = 1

-- The thread has passed the tests and may touch its buffer.
abbrev pub is_emitting : Emitter → Bool
is_emitting (Emitter.tickets s c p) = true
is_emitting (Emitter.writes s c p t) = true
is_emitting (Emitter.drops s) = true
is_emitting _ = false

abbrev pub dropping : ℕ → Emitter → ℕ
dropping slot (Emitter.drops s) = if s == slot then 1 else 0
dropping slot _ = 0

-- A ticket's event is in its place.
abbrev pub Written : TraceBinding → TraceGeneration → ℕ → ℕ → Type 0
Written options g slot ticket =
    (e : TraceEvent) × ((g.buffers slot).slots ticket ≡ some e)
    × (e.local_sequence ≡ ticket)
    × (e.producer_id ≡ options.producer_id slot)

abbrev pub Writes : Emitter → ℕ → ℕ → Type 0
Writes q slot ticket = (c : ℕ) × (p : ℕ) × (q ≡ Emitter.writes slot c p ticket)

-- What a step of an emitting thread does.
pub record IsEmitted (options : TraceBinding) (p : Emitter) (g : TraceGeneration)
    (r : TraceGeneration × Emitter) : Type 0 where
  pub counts : r.0.inflight + inside p ≡ g.inflight + inside r.1
  pub sized : (s : ℕ) → (r.0.buffers s).capacity ≡ (g.buffers s).capacity
  pub lost :
      (s : ℕ)
      → (r.0.buffers s).next_ticket - (g.buffers s).capacity + (g.buffers s).dropped + dropping s p
        ≡ (g.buffers s).next_ticket
          - (g.buffers s).capacity
          + (r.0.buffers s).dropped
          + dropping s r.1
  pub bounded : (s : ℕ) → (r.0.buffers s).next_ticket < 2 ^ 64
  pub kept : (s t : ℕ) → Written options g s t → Written options r.0 s t
  pub new :
      (s t : ℕ)
      → t < (r.0.buffers s).next_ticket
      → t < (g.buffers s).capacity
      → (t < (g.buffers s).next_ticket) ⊎ Writes r.1 s t
  pub finishes : (s c x t : ℕ) → p ≡ Emitter.writes s c x t → Written options r.0 s t

module _ (options : TraceBinding) (g : TraceGeneration)
    (few : (s : ℕ) → (g.buffers s).next_ticket + 1 < 2 ^ 64) where
  -- A step that touches no buffer.
  passes :
      (p q : Emitter) (m : ℕ)
      → m + inside p ≡ g.inflight + inside q
      → ((s : ℕ) → dropping s p ≡ dropping s q)
      → ((s c x t : ℕ) → p ≡ Emitter.writes s c x t → ⊥)
      → IsEmitted options p g (record g { inflight = m }, q)
  passes p q m counts same never = record {
    counts = counts;
    sized = λ s. refl;
    lost = λ s. rw (same s) refl;
    bounded = λ s. let x = few s in omega arith;
    kept = λ s t w. w;
    new = λ s t h k. inl h;
    finishes = λ s c x t e. absurd (never s c x t e);
  }

  tickets-IsEmitted :
      (late : Bool) (now slot category payload : ℕ)
      → IsEmitted options
          (Emitter.tickets slot category payload)
          g
          (emit_step options late now (Emitter.tickets slot category payload) g)
  unfolding emit_step
  tickets-IsEmitted late now slot category payload = record {
    counts = ground arith;
    sized = λ s. ground arith;
    lost = λ s. let x = few slot in ground arith;
    bounded = λ s. let x = few slot in let y = few s in ground arith;
    kept = λ s t (e, at, seq, by). (e, ground arith, seq, by);
    new = λ s t h k.
        let x = few slot in
        elim (dec_lt t (g.buffers s).next_ticket) [
          | yes before ↦ inl before
          | no not_before ↦ inr (category, payload, ground arith)
        ];
    finishes = λ s c x t e. absurd (cc);
  }

  drops-IsEmitted :
      (late : Bool) (now slot : ℕ)
      → (g.buffers slot).dropped + 1 < 2 ^ 64
      → IsEmitted options (Emitter.drops slot) g (emit_step options late now (Emitter.drops slot) g)
  unfolding emit_step
  drops-IsEmitted late now slot room = record {
    counts = ground arith;
    sized = λ s. ground arith;
    lost = λ s. ground arith;
    bounded = λ s. let y = few s in ground arith;
    kept = λ s t (e, at, seq, by). (e, ground arith, seq, by);
    new = λ s t h k. inl (ground arith);
    finishes = λ s c x t e. absurd (cc);
  }

  writes-IsEmitted :
      (late : Bool) (now slot category payload ticket : ℕ)
      → IsEmitted options
          (Emitter.writes slot category payload ticket)
          g
          (emit_step options late now (Emitter.writes slot category payload ticket) g)
  unfolding emit_step
  writes-IsEmitted late now slot category payload ticket =
      let event = stamp options now slot category payload ticket in
      record {
        counts = ground arith;
        sized = λ s. ground arith;
        lost = λ s. ground arith;
        bounded = λ s. let y = few s in ground arith;
        kept = λ s t (e, at, seq, by). elim (ℕ_discrete slot s) [
          | yes same ↦ elim (ℕ_discrete ticket t) [
            | yes here ↦ (event, ground arith, here, ground arith)
            | no ne ↦ (e, ground arith, seq, by)
          ]
          | no ne ↦ (e, ground arith, seq, by)
        ];
        new = λ s t h k. inl (ground arith);
        finishes = λ s c x t e.
            let a : slot ≡ s = cc in
            let b : ticket ≡ t = cc in (event, ground arith, b, ap options.producer_id a);
      }

  pub emit_step-IsEmitted :
      (late : Bool) (now : ℕ) (p : Emitter)
      → inside p ≤ g.inflight
      → g.inflight + 1 < 2 ^ 64 + inside p
      → g.inflight < 2 ^ 64
      → ((s : ℕ) → p ≡ Emitter.drops s → (g.buffers s).dropped + 1 < 2 ^ 64)
      → IsEmitted options p g (emit_step options late now p g)
  unfolding emit_step
  emit_step-IsEmitted late now Emitter.idle low high small room =
      passes Emitter.idle Emitter.idle g.inflight refl (λ s. refl) (λ s c x t e. absurd (cc))
  emit_step-IsEmitted late now (Emitter.starts s c x) low high small room =
      if_then_else_lem (λ (q : Emitter). IsEmitted options (Emitter.starts s c x) g (g, q))
        (g.active || late)
        (λ a.
          passes (Emitter.starts s c x) (Emitter.enters s c x) g.inflight refl (λ s. refl)
            (λ s c x t e. absurd (cc)))
        (λ a.
          passes (Emitter.starts s c x) Emitter.idle g.inflight refl (λ s. refl)
            (λ s c x t e. absurd (cc)))
  emit_step-IsEmitted late now (Emitter.enters s c x) low high small room =
      passes (Emitter.enters s c x) (Emitter.checks s c x) (add64 g.inflight 1) (omega arith)
        (λ s. refl) (λ s c x t e. absurd (cc))
  emit_step-IsEmitted late now (Emitter.checks s c x) low high small room =
      if_then_else_lem (λ (q : Emitter). IsEmitted options (Emitter.checks s c x) g (g, q))
        (options.has_entry s && (g.active || late) && options.is_enabled c)
        (λ a.
          passes (Emitter.checks s c x) (Emitter.tickets s c x) g.inflight refl (λ s. refl)
            (λ s c x t e. absurd (cc)))
        (λ a.
          passes (Emitter.checks s c x) Emitter.leaves g.inflight refl (λ s. refl)
            (λ s c x t e. absurd (cc)))
  emit_step-IsEmitted late now (Emitter.tickets s c x) low high small room =
      tickets-IsEmitted late now s c x
  emit_step-IsEmitted late now (Emitter.writes s c x t) low high small room =
      writes-IsEmitted late now s c x t
  emit_step-IsEmitted late now (Emitter.drops s) low high small room =
      drops-IsEmitted late now s (room s refl)
  emit_step-IsEmitted late now Emitter.leaves low high small room =
      passes Emitter.leaves Emitter.idle (sub64 g.inflight 1) (omega arith) (λ s. refl)
        (λ s c x t e. absurd (cc))
