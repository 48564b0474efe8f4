-- ===== src/Tracing/Quiescence.antt =====
-- The buffers at every moment, and when no thread is inside: then they are whole.
use astra_scheduler.Base.{
  ℕ, ◌+◌, ◌-◌, ◌^◌, ◌≤◌, ◌<◌, ◌≡◌, refl, sym, ap, ◌∙◌, ◌≢◌, ◌⊎◌, inl, inr, Bool, true, false, arith,
  ℕ_discrete, update,
}
use astra_scheduler.Tracing.{
  TraceBinding, TraceGeneration, Emitter, emit_step, Stopper, stop_step, committed, System, Step,
  Reach,
}
use astra_scheduler.Tracing.Tallying.{
  tally, tally-update, tally_ge, tally_le, tally_zero, tally_none,
}
use astra_scheduler.Tracing.Emitting.{
  inside, is_emitting, dropping, Written, Writes, emit_step-IsEmitted, emit_step-IsEmitted,
}

-- A thread is about to write the event of a ticket.
abbrev pub Pending : ℕ → (ℕ → Emitter) → ℕ → ℕ → Type 0
Pending n emitters slot ticket = (i : ℕ) × (i < n) × Writes (emitters i) slot ticket

pub record IsTraced (options : TraceBinding) (n : ℕ) (capacity : ℕ → ℕ) (a : System) : Type 0 where
  pub counted : a.generation.inflight ≡ tally inside n a.emitters
  pub sized : (s : ℕ) → (a.generation.buffers s).capacity ≡ capacity s
  pub bounded : (s : ℕ) → (a.generation.buffers s).next_ticket < 2 ^ 64
  pub lost :
      (s : ℕ)
      → (a.generation.buffers s).next_ticket - capacity s
        ≡ (a.generation.buffers s).dropped + tally (dropping s) n a.emitters
  pub placed :
      (s t : ℕ)
      → t < (a.generation.buffers s).next_ticket
      → t < capacity s
      → Written options a.generation s t ⊎ Pending n a.emitters s t

inside_le : (p : Emitter) → inside p ≤ 1
inside_le p = ground arith

emitting-inside : (p : Emitter) → inside p ≡ 0 → is_emitting p ≡ false
emitting-inside p e = ground arith

update-elsewhere : (f : ℕ → Emitter) (i j : ℕ) (q : Emitter) → i ≢ j → update f i q j ≡ f j
update-elsewhere f i j q ne = ground arith

few_dropped : (t c d k : ℕ) → t - c ≡ d + k → t + 1 < 2 ^ 64 → d + 1 < 2 ^ 64
few_dropped t c d k e few = omega arith

not_dropping : (s : ℕ) (p : Emitter) → is_emitting p ≡ false → dropping s p ≡ 0
not_dropping s p e = ground arith

emits-IsTraced :
    (options : TraceBinding) (n : ℕ) (capacity : ℕ → ℕ) (a : System) (i : ℕ) (late : Bool) (now : ℕ)
    → n + 1 < 2 ^ 64
    → i < n
    → ((slot : ℕ) → (a.generation.buffers slot).next_ticket + 1 < 2 ^ 64)
    → IsTraced options n capacity a
    → IsTraced options n capacity (record a {
      generation = (emit_step options late now (a.emitters i) a.generation).0;
      emitters = update a.emitters i (emit_step options late now (a.emitters i) a.generation).1;
    })
emits-IsTraced options n capacity a i late now small inn few v =
    let g = a.generation in
    let p = a.emitters i in
    let q = (emit_step options late now p g).1 in
    let counted = v.counted in
    let low = tally_ge inside n i a.emitters inn in
    let all = tally_le inside n a.emitters inside_le in
    let here : update a.emitters i q i ≡ q = ground arith in
    let elsewhere = λ (j : ℕ) (ne : i ≢ j). update-elsewhere a.emitters i j q ne in
    let m =
      emit_step-IsEmitted options g few late now p (omega arith) (omega arith) (omega arith) (λ s e.
        few_dropped (g.buffers s).next_ticket (capacity s) (g.buffers s).dropped
          (tally (dropping s) n a.emitters) (v.lost s) (few s)) in
    record {
      counted = let k = m.counts in let t = tally-update inside n i a.emitters q inn in omega arith;
      sized = λ s. m.sized s ∙ v.sized s;
      bounded = m.bounded;
      lost = λ s.
          let k = m.lost s in
          let t = tally-update (dropping s) n i a.emitters q inn in
          let x = v.lost s in let y = v.sized s in omega arith;
      placed = λ s t h k. elim (m.new s t h (let y = v.sized s in omega arith)) [
        | inr (c, x, e) ↦ inr (i, inn, (c, x, here ∙ e))
        | inl before ↦ elim (v.placed s t before k) [
          | inl w ↦ inl (m.kept s t w)
          | inr (j, jn, (c, x, e)) ↦ elim (ℕ_discrete i j) [
            | yes same ↦ inl (m.finishes s c x t (ap a.emitters same ∙ e))
            | no ne ↦ inr (j, jn, (c, x, elsewhere j ne ∙ e))
          ]
        ]
      ];
    }

calls-IsTraced :
    (options : TraceBinding) (n : ℕ) (capacity : ℕ → ℕ) (a : System) (i slot category payload : ℕ)
    → i < n
    → a.emitters i ≡ Emitter.idle
    → IsTraced options n capacity a
    → IsTraced options n capacity
        (record a { emitters = update a.emitters i (Emitter.starts slot category payload) })
calls-IsTraced options n capacity a i slot category payload inn free v =
    let q = Emitter.starts slot category payload in
    let here : update a.emitters i q i ≡ q = ground arith in
    let elsewhere = λ (j : ℕ) (ne : i ≢ j). update-elsewhere a.emitters i j q ne in
    record {
      counted =
          let t = tally-update inside n i a.emitters q inn in
          let f = ap inside free in let c = v.counted in omega arith;
      sized = v.sized;
      bounded = v.bounded;
      lost = λ s.
          let t = tally-update (dropping s) n i a.emitters q inn in
          let f = ap (dropping s) free in let x = v.lost s in omega arith;
      placed = λ s t h k. elim (v.placed s t h k) [
        | inl w ↦ inl w
        | inr (j, jn, (c, x, e)) ↦ elim (ℕ_discrete i j) [
          | yes same ↦ absurd (
              let z : Emitter.idle ≡ Emitter.writes s c x t = sym free ∙ ap a.emitters same ∙ e in
              cc)
          | no ne ↦ inr (j, jn, (c, x, elsewhere j ne ∙ e))
        ]
      ];
    }

stops-IsTraced :
    (options : TraceBinding) (n : ℕ) (capacity : ℕ → ℕ) (g : TraceGeneration)
    (emitters : ℕ → Emitter) (read : ℕ) (p : Stopper)
    → IsTraced options n capacity (record { generation = g; emitters = emitters; stopper = p })
    → IsTraced options n capacity (record {
      generation = (stop_step read p g).0;
      emitters = emitters;
      stopper = (stop_step read p g).1;
    })
unfolding stop_step
stops-IsTraced options n capacity g emitters read Stopper.recording v = record {
  counted = v.counted;
  sized = v.sized;
  bounded = v.bounded;
  lost = v.lost;
  placed = v.placed;
}
stops-IsTraced options n capacity g emitters read Stopper.copies v = record {
  counted = v.counted;
  sized = v.sized;
  bounded = v.bounded;
  lost = v.lost;
  placed = v.placed;
}
stops-IsTraced options n capacity g emitters read Stopper.waits v = record {
  counted = v.counted;
  sized = v.sized;
  bounded = v.bounded;
  lost = v.lost;
  placed = v.placed;
}

pub Reach-IsTraced :
    {options : TraceBinding} {n : ℕ} {capacity : ℕ → ℕ} {a : System}
    → n + 1 < 2 ^ 64
    → Reach options n capacity a
    → IsTraced options n capacity a
Reach-IsTraced {options} {n} {capacity} small Reach.here = record {
  counted = sym (tally_zero inside n Emitter.idle refl);
  sized = λ s. refl;
  bounded = λ s. omega arith;
  lost = λ s. let z = tally_zero (dropping s) n Emitter.idle refl in omega arith;
  placed = λ s t h k. absurd (omega arith);
}
Reach-IsTraced {options} {n} {capacity} small
      (Reach.next {a} r (Step.calls i slot category payload inn free)) =
    calls-IsTraced options n capacity a i slot category payload inn free (Reach-IsTraced small r)
Reach-IsTraced {options} {n} {capacity} small (Reach.next {a} r (Step.emits i late now inn few)) =
    emits-IsTraced options n capacity a i late now small inn few (Reach-IsTraced small r)
Reach-IsTraced {options} {n} {capacity} small (Reach.next {a} r (Step.stops read)) =
    stops-IsTraced options n capacity a.generation a.emitters read a.stopper
      (Reach-IsTraced small r)

-- No thread inside: none is writing, and nothing is missing.
emptied :
    {options : TraceBinding} {n : ℕ} {capacity : ℕ → ℕ} {a : System}
    → IsTraced options n capacity a
    → (s : ℕ)
    → ((t : ℕ)
        → t < committed (a.generation.buffers s)
        → Written options a.generation s t ⊎ Pending n a.emitters s t)
    → a.generation.inflight ≡ 0
    → let b = a.generation.buffers s in
      ((i : ℕ) → i < n → is_emitting (a.emitters i) ≡ false)
      × ((t : ℕ) → t < committed b → Written options a.generation s t)
      × (b.dropped ≡ b.next_ticket - capacity s)
      × (committed b + b.dropped ≡ b.next_ticket)
emptied {options} {n} {capacity} {a} v s places empty =
    let quiet : (i : ℕ) → i < n → is_emitting (a.emitters i) ≡ false = λ i inn.
      emitting-inside (a.emitters i)
        (let c = v.counted in let low = tally_ge inside n i a.emitters inn in omega arith) in
    let none_dropping =
      tally_none (dropping s) n a.emitters (λ i inn. not_dropping s (a.emitters i) (quiet i inn)) in
    let size = v.sized s in
    let lost = v.lost s in
    let dropped : (a.generation.buffers s).dropped
        ≡ (a.generation.buffers s).next_ticket - capacity s =
      omega arith in
    (
      quiet,
      λ t h. elim (places t h) [
        | inl w ↦ w
        | inr (j, jn, (c, x, at)) ↦
            absurd (let z : true ≡ false = sym (ap is_emitting at) ∙ quiet j jn in cc)
      ],
      dropped,
      ground arith,
    )

-- In every interleaving of fewer than 2 ^ 64 - 1 emitting threads with the stop of a capture, with fewer
-- than 2 ^ 64 events offered to each buffer, and whatever late values their loads give: at every moment
-- `inflight` counts the threads inside; each place that would be reported as committed holds an event
-- with its producer's identity and its ticket as local sequence, or a thread inside is about to write
-- it; and if `inflight` is 0, no thread is writing, every such place holds its event, and the events
-- offered are those committed and those dropped, of which there are as many as found the buffer full.
pub inflight_whole :
    {options : TraceBinding} {n : ℕ} {capacity : ℕ → ℕ} {a : System}
    → n + 1 < 2 ^ 64
    → Reach options n capacity a
    → (s : ℕ)
    → let b = a.generation.buffers s in
      (a.generation.inflight ≡ tally inside n a.emitters)
      × ((t : ℕ) → t < committed b → Written options a.generation s t ⊎ Pending n a.emitters s t)
      × (a.generation.inflight ≡ 0
          → ((i : ℕ) → i < n → is_emitting (a.emitters i) ≡ false)
            × ((t : ℕ) → t < committed b → Written options a.generation s t)
            × (b.dropped ≡ b.next_ticket - capacity s)
            × (committed b + b.dropped ≡ b.next_ticket))
inflight_whole {options} {n} {capacity} {a} small r s =
    let v = Reach-IsTraced small r in
    let size = v.sized s in
    let places = λ (t : ℕ) (h : t < committed (a.generation.buffers s)).
      v.placed s t (ground arith) (ground arith) in
    (v.counted, places, λ empty. emptied v s places empty)
