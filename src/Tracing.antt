-- ===== src/Tracing.antt =====
-- TraceCollector of src/observability/trace_collector.cpp: the hot path that emits an event into its
-- producer's buffer, and the stop of a capture, for one capture generation. A step is one access of a
-- thread to a shared atomic. A null `current` and an inactive generation are both `active = false`. The
-- code orders the stop's store of `active` and its load of `inflight` by release and acquire only: a load
-- of `active` may still give true after the store (`late`), and the load of `inflight` may give any value
-- (`read`).
pub mod Tallying
pub mod Emitting
pub mod Quiescence
pub mod Capturing
pub mod Examples
use astra_scheduler.Base.{
  ℕ, ◌+◌, ◌-◌, ◌%◌, ◌^◌, ◌<◌, ◌≡◌, Bool, true, false, not, ◌&&◌, ◌||◌, Option, none, some, ltb, leb,
  ◌==◌, if◌then◌else◌, add64, sub64, update,
}

-- `payload` stands for the fields that the caller fills in.
pub record TraceEvent : Type 0 where
  pub category : ℕ
  pub payload : ℕ
  pub timestamp_ns : ℕ
  pub producer_id : ℕ
  pub local_sequence : ℕ

pub record TraceBuffer : Type 0 where
  pub capacity : ℕ
  pub slots : ℕ → Option TraceEvent
  pub next_ticket : ℕ
  pub dropped : ℕ

-- What a generation does not change: whether a slot is bound to it, whether its mask has a category, the
-- producer of a slot, and its origin.
pub record TraceBinding : Type 0 where
  pub has_entry : ℕ → Bool
  pub is_enabled : ℕ → Bool
  pub producer_id : ℕ → ℕ
  pub origin : ℕ

pub record TraceGeneration : Type 0 where
  pub active : Bool
  pub inflight : ℕ
  pub buffers : ℕ → TraceBuffer

-- The place of a thread in emit_event; `now` is what its clock will read.
pub data Emitter : Type 0 where
  idle : Emitter
  starts : (slot category payload : ℕ) → Emitter
  enters : (slot category payload : ℕ) → Emitter
  checks : (slot category payload : ℕ) → Emitter
  tickets : (slot category payload : ℕ) → Emitter
  writes : (slot category payload ticket : ℕ) → Emitter
  drops : (slot : ℕ) → Emitter
  leaves : Emitter

abbrev pub stamp : TraceBinding → ℕ → ℕ → ℕ → ℕ → ℕ → TraceEvent
stamp options now slot category payload ticket = record {
  category = category % 2 ^ 16;
  payload = payload;
  timestamp_ns = if leb options.origin now then now - options.origin else 0;
  producer_id = options.producer_id slot;
  local_sequence = ticket;
}

abbrev pub with_buffer : TraceGeneration → ℕ → TraceBuffer → TraceGeneration
with_buffer g slot b = record g { buffers = update g.buffers slot b }

-- emit_event; a load of `active` may give what it was before the stop.
unfoldable pub emit_step :
    TraceBinding → Bool → ℕ → Emitter → TraceGeneration → TraceGeneration × Emitter
emit_step options late now Emitter.idle g = (g, Emitter.idle)
emit_step options late now (Emitter.starts slot category payload) g =
    (g, if g.active || late then Emitter.enters slot category payload else Emitter.idle)
emit_step options late now (Emitter.enters slot category payload) g =
    (record g { inflight = add64 g.inflight 1 }, Emitter.checks slot category payload)
emit_step options late now (Emitter.checks slot category payload) g = (
  g,
  if options.has_entry slot && (g.active || late) && options.is_enabled category
      then Emitter.tickets slot category payload
      else Emitter.leaves,
)
emit_step options late now (Emitter.tickets slot category payload) g =
    let b = g.buffers slot in
    (
      with_buffer g slot (record b { next_ticket = add64 b.next_ticket 1 }),
      if leb b.capacity b.next_ticket
          then Emitter.drops slot
          else Emitter.writes slot category payload b.next_ticket,
    )
emit_step options late now (Emitter.writes slot category payload ticket) g =
    let b = g.buffers slot in
    let event = stamp options now slot category payload ticket in
    (with_buffer g slot (record b { slots = update b.slots ticket (some event) }), Emitter.leaves)
emit_step options late now (Emitter.drops slot) g =
    let b = g.buffers slot in
    (with_buffer g slot (record b { dropped = add64 b.dropped 1 }), Emitter.leaves)
emit_step options late now Emitter.leaves g =
    (record g { inflight = sub64 g.inflight 1 }, Emitter.idle)

-- The place of the thread that stops the capture, or aborts it, under the collector's mutex.
pub data Stopper : Type 0 where
  recording : Stopper
  waits : Stopper
  copies : Stopper

-- The stores and loads of the stop; `read` is what its load of `inflight` gives.
unfoldable pub stop_step : ℕ → Stopper → TraceGeneration → TraceGeneration × Stopper
stop_step read Stopper.recording g = (record g { active = false }, Stopper.waits)
stop_step read Stopper.waits g = (g, if read == 0 then Stopper.copies else Stopper.waits)
stop_step read Stopper.copies g = (g, Stopper.copies)

-- What stop_capture reports of a producer.
abbrev pub committed : TraceBuffer → ℕ
committed b = if ltb b.next_ticket b.capacity then b.next_ticket else b.capacity

abbrev pub make_buffer : ℕ → TraceBuffer
make_buffer capacity = record {
  capacity = capacity;
  slots = λ t. none;
  next_ticket = 0;
  dropped = 0;
}

pub record System : Type 0 where
  pub generation : TraceGeneration
  pub emitters : ℕ → Emitter
  pub stopper : Stopper

-- One of n threads calls emit or takes its next step, or the stop goes on; no buffer is offered 2 ^ 64
-- events.
pub data Step (options : TraceBinding) (n : ℕ) (a : System) : System → Type 0 where
  calls :
      (i slot category payload : ℕ)
      → i < n
      → a.emitters i ≡ Emitter.idle
      → Step options n a
          (record a { emitters = update a.emitters i (Emitter.starts slot category payload) })
  emits :
      (i : ℕ) (late : Bool) (now : ℕ)
      → i < n
      → ((slot : ℕ) → (a.generation.buffers slot).next_ticket + 1 < 2 ^ 64)
      → Step options n a (record a {
        generation = (emit_step options late now (a.emitters i) a.generation).0;
        emitters = update a.emitters i (emit_step options late now (a.emitters i) a.generation).1;
      })
  stops :
      (read : ℕ)
      → Step options n a (record a {
        generation = (stop_step read a.stopper a.generation).0;
        stopper = (stop_step read a.stopper a.generation).1;
      })

-- A capture that start_capture has published: each producer has a buffer of its capacity.
abbrev pub make_capture : (ℕ → ℕ) → System
make_capture capacity = record {
  generation = record { active = true; inflight = 0; buffers = λ s. make_buffer (capacity s) };
  emitters = λ i. Emitter.idle;
  stopper = Stopper.recording;
}

pub data Reach (options : TraceBinding) (n : ℕ) (capacity : ℕ → ℕ) : System → Type 0 where
  here : Reach options n capacity (make_capture capacity)
  next :
      {a b : System} → Reach options n capacity a → Step options n a b → Reach options n capacity b
