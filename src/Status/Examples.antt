-- ===== src/Status/Examples.antt =====
-- Runs of the lifecycle word, and the theorems of Status.Legal at concrete inputs.
use astra_scheduler.Base.{◌≡◌, ◌⊎◌, refl, true, ◌≢◌}
use astra_scheduler.Status.{SchedulerState, ShutdownMode, pack, unpack}
use astra_scheduler.Status.Lifecycle.{
  Lifecycle, Reach, Step, constructed, publish_running, request, request_shutdown_mode, request_on,
  read_mode, publish_stopped,
}
use astra_scheduler.Status.Legal.{unpack-pack, is_legal, Reach-legal}

-- A runtime that has started, and a graceful shutdown of it that is escalated before the workers are
-- joined.
abbrev started : Lifecycle
started = publish_running constructed

abbrev escalated : Lifecycle
escalated = request ShutdownMode.immediate (request ShutdownMode.graceful started)

graceful_asks : ShutdownMode.graceful ≢ ShutdownMode.no_mode
graceful_asks e = cc

immediate_asks : ShutdownMode.immediate ≢ ShutdownMode.no_mode
immediate_asks e = cc

starting_yet : constructed.starting ≡ true
unfolding constructed
starting_yet = refl

escalated-Reach : Reach escalated
escalated-Reach =
    Reach.next
      (Reach.next (Reach.next Reach.start (Step.publishes_running starting_yet))
        (Step.requests ShutdownMode.graceful graceful_asks))
      (Step.requests ShutdownMode.immediate immediate_asks)

escalated_word : escalated.packed_status ≡ 258
unfolding constructed publish_running request request_shutdown_mode request_on pack unpack
escalated_word = refl

Reach-legal_example :
    let v = unpack escalated.packed_status in
    (is_legal v.state v.shutdown_mode ≡ true)
    ⊎ ((escalated.read_running ≡ true)
        × (v ≡ record { state = SchedulerState.stopped; shutdown_mode = ShutdownMode.no_mode }))
Reach-legal_example = Reach-legal escalated-Reach

-- The load and the store of the leader are two steps: an escalation between them is forgotten.
raced_word :
    (publish_stopped ShutdownMode.graceful (
      request ShutdownMode.immediate
        (read_mode (request ShutdownMode.graceful started)))).packed_status
    ≡ 513
unfolding constructed publish_running request request_shutdown_mode request_on pack unpack read_mode
    publish_stopped
raced_word = refl

-- The rollback of a failed constructor: Stopped with None.
rolled_back_word :
    (publish_stopped ShutdownMode.no_mode (read_mode constructed)).packed_status
    ≡ pack SchedulerState.stopped ShutdownMode.no_mode
unfolding constructed read_mode publish_stopped
rolled_back_word = refl

-- The constructor's store of Running forgets a request that came before it.
forgotten_word :
    (publish_running (request ShutdownMode.immediate constructed)).packed_status
    ≡ pack SchedulerState.running ShutdownMode.no_mode
unfolding publish_running
forgotten_word = refl

unpack-pack_example :
    unpack (pack SchedulerState.stopping ShutdownMode.immediate)
    ≡ record { state = SchedulerState.stopping; shutdown_mode = ShutdownMode.immediate }
unpack-pack_example = unpack-pack SchedulerState.stopping ShutdownMode.immediate
