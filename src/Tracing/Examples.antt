-- ===== src/Tracing/Examples.antt =====
-- A capture of one producer with room for one event, which is stopped after one was emitted.
use astra_scheduler.Base.{
  ℕ, ◌+◌, ◌-◌, ◌^◌, ◌<◌, ◌≡◌, refl, ◌↔◌, ◌⊎◌, ltb, length, Bool, true, false, List, [], ◌∷◌, arith,
  update,
}
use astra_scheduler.Tracing.{
  TraceBinding, Emitter, emit_step, stop_step, committed, System, Step, make_capture, Reach,
}
use astra_scheduler.Tracing.Emitting.{inside, is_emitting, Written}
use astra_scheduler.Tracing.Quiescence.{Pending, inflight_whole}
use astra_scheduler.Tracing.Tallying.{tally}
use astra_scheduler.Tracing.Capturing.{
  TraceProducerKind, TraceOptions, Started, start_capture, room, start_capture-accepts_iff,
}

abbrev options : TraceBinding
options = record {
  has_entry = λ s. true;
  is_enabled = λ c. true;
  producer_id = λ s. 7;
  origin = 100;
}

abbrev one_event : ℕ → ℕ
one_event s = 1

-- The next step of thread 0 at the time 105.
abbrev emit_once : System → System
emit_once a = record a {
  generation = (emit_step options true 105 (a.emitters 0) a.generation).0;
  emitters = update a.emitters 0 (emit_step options true 105 (a.emitters 0) a.generation).1;
}

emit :
    {a : System}
    → Reach options 1 one_event a
    → ((slot : ℕ) → (a.generation.buffers slot).next_ticket + 1 < 2 ^ 64)
    → Reach options 1 one_event (emit_once a)
emit r few = Reach.next r (Step.emits 0 true 105 (omega arith) few)

abbrev called : System
called = record (make_capture one_event) {
  emitters = update (λ i. Emitter.idle) 0 (Emitter.starts 0 3 9);
}

abbrev emitted : System
emitted = emit_once (emit_once (emit_once (emit_once (emit_once (emit_once called)))))

abbrev stopped : System → System
stopped a = record a {
  generation = (stop_step 0 a.stopper a.generation).0;
  stopper = (stop_step 0 a.stopper a.generation).1;
}

copied_run : Reach options 1 one_event (stopped (stopped emitted))
unfolding emit_step
copied_run =
    let called_run : Reach options 1 one_event called =
      Reach.next Reach.here (Step.calls 0 0 3 9 (omega arith) refl) in
    let emitted_run =
      emit
        (emit
          (emit
            (emit (emit (emit called_run (λ s. ground arith)) (λ s. ground arith))
              (λ s. ground arith))
            (λ s. ground arith))
          (λ s. ground arith))
        (λ s. ground arith) in
    Reach.next (Reach.next emitted_run (Step.stops 0)) (Step.stops 0)

inflight_whole_example :
    let a = stopped (stopped emitted) in
    let b = a.generation.buffers 0 in
    (a.generation.inflight ≡ tally inside 1 a.emitters)
    × ((t : ℕ) → t < committed b → Written options a.generation 0 t ⊎ Pending 1 a.emitters 0 t)
    × (a.generation.inflight ≡ 0
        → ((i : ℕ) → i < 1 → is_emitting (a.emitters i) ≡ false)
          × ((t : ℕ) → t < committed b → Written options a.generation 0 t)
          × (b.dropped ≡ b.next_ticket - 1)
          × (committed b + b.dropped ≡ b.next_ticket))
inflight_whole_example = inflight_whole (omega arith) copied_run 0

abbrev small_buffers : TraceOptions
small_buffers = record {
  events_per_worker = 16;
  external_control_events = 8;
  events_per_reaper_producer = 4;
  categories = 1015;
}

abbrev four_producers : List TraceProducerKind
four_producers =
    TraceProducerKind.reaper ∷ TraceProducerKind.external_control ∷ TraceProducerKind.worker
    ∷ TraceProducerKind.worker ∷ []

start_capture-accepts_iff_example :
    (start_capture (λ i. ltb i 6) false small_buffers four_producers ≡ Started.accepts 44) ↔ (
      (◌≡◌ {A = Bool} false false)
      × (0 < 16)
      × (0 < 8)
      × (0 < 4)
      × (1015 < 2 ^ 11)
      × (room small_buffers four_producers < 2 ^ 64)
      × ((i : ℕ) → i < length four_producers + 2 → ltb i 6 ≡ true)
      × (44 ≡ room small_buffers four_producers))
start_capture-accepts_iff_example =
    start_capture-accepts_iff (λ i. ltb i 6) false small_buffers four_producers 44
