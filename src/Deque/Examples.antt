-- ===== src/Deque/Examples.antt =====
-- A run of a deque of two cells and one thief: two pushes, a growth and a steal.
use astra_scheduler.Base.{
  ℕ, zero, suc, ◌+◌, ◌≡◌, refl, true, false, List, [], ◌∷◌, arith, count, update,
}
use astra_scheduler.Deque.{
  Owner, Thief, Event, Environment, copy_cells, grow, snapshot, owner_step, thief_step, System,
  Step, make_deque, Reach,
}
use astra_scheduler.Deque.Refinement.{Replays, Reach-Replays}
use astra_scheduler.Deque.Conservation.{pushes, takings, pushes-takings}

abbrev environment : Environment
environment = record {
  allocates = true;
  inject_growth_failure = false;
  inject_rebase_failure = false;
}

abbrev starts : Owner → System → System
starts o a = record a { owner = o }

abbrev owner_moves : ℕ → System → System
owner_moves zero a = a
owner_moves (suc n) a = owner_moves n (record a {
  shared = (owner_step environment a.owner a.shared).shared;
  owner = (owner_step environment a.owner a.shared).owner;
})

abbrev owner_events : ℕ → System → List Event → List Event
owner_events zero a es = es
owner_events (suc n) a es =
    owner_events n
      (record a {
        shared = (owner_step environment a.owner a.shared).shared;
        owner = (owner_step environment a.owner a.shared).owner;
      })
      ((owner_step environment a.owner a.shared).event ∷ es)

owner_run :
    {capacity threads : ℕ} (n : ℕ) (a : System) (es : List Event)
    → Reach capacity threads a es
    → Reach capacity threads (owner_moves n a) (owner_events n a es)
owner_run zero a es r = r
owner_run (suc n) a es r = owner_run n _ _ (Reach.next r (Step.owner environment))

abbrev thief_moves : ℕ → System → System
thief_moves zero a = a
thief_moves (suc n) a = thief_moves n (record a {
  shared = (thief_step (a.thieves 0) a.shared).shared;
  thieves = update a.thieves 0 (thief_step (a.thieves 0) a.shared).thief;
})

abbrev thief_events : ℕ → System → List Event → List Event
thief_events zero a es = es
thief_events (suc n) a es =
    thief_events n
      (record a {
        shared = (thief_step (a.thieves 0) a.shared).shared;
        thieves = update a.thieves 0 (thief_step (a.thieves 0) a.shared).thief;
      })
      ((thief_step (a.thieves 0) a.shared).event ∷ es)

thief_run :
    {capacity : ℕ} (n : ℕ) (a : System) (es : List Event)
    → Reach capacity 1 a es
    → Reach capacity 1 (thief_moves n a) (thief_events n a es)
thief_run zero a es r = r
thief_run (suc n) a es r = thief_run n _ _ (Reach.next r (Step.thief 0 (omega arith)))

-- Two pushes, the second of which grows the buffer.
abbrev one_item : System
one_item = owner_moves 4 (starts (Owner.push_load 7) (make_deque 2))

abbrev two_items : System
two_items = owner_moves 4 (starts (Owner.push_load 8) one_item)

abbrev stolen_one : System
stolen_one = thief_moves 8 (record two_items { thieves = update two_items.thieves 0 Thief.check })

abbrev events : List Event
events =
    Event.stolen 7
    ∷ Event.silent
    ∷ Event.silent
    ∷ Event.silent
    ∷ Event.silent
    ∷ Event.silent
    ∷ Event.silent
    ∷ Event.silent
    ∷ Event.silent
    ∷ Event.pushed 8
    ∷ Event.silent
    ∷ Event.silent
    ∷ Event.silent
    ∷ Event.silent
    ∷ Event.pushed 7
    ∷ Event.silent
    ∷ Event.silent
    ∷ Event.silent
    ∷ Event.silent
    ∷ []

example_run : Reach 2 1 stolen_one events
unfolding owner_step thief_step
example_run = thief_run 8 _ _ (
    Reach.next
      (owner_run 4 _ _
        (Reach.next (owner_run 4 _ _ (Reach.next Reach.start (Step.push 7))) (Step.push 8)))
      (Step.steal 0 (omega arith) refl))

Reach-Replays_example : Replays events (8 ∷ [])
unfolding owner_step thief_step snapshot grow copy_cells
Reach-Replays_example = Reach-Replays (omega arith) (omega arith) (omega arith) example_run

pushes-takings_example : pushes 7 events ≡ takings 7 events + count 7 (8 ∷ [])
unfolding owner_step thief_step snapshot grow copy_cells
pushes-takings_example = pushes-takings (omega arith) (omega arith) (omega arith) example_run 7
