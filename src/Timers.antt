-- ===== src/Timers.antt =====
-- TimerQueue of src/runtime/timer_queue.cpp: a binary heap of shared timer entries, each of which knows
-- its place, and a map from timer numbers to the entries. An entry is told by its number, and its
-- fields are functions of it; the handshake and the resumption that it carries go with the number.
pub mod Indexing
pub mod Queueing
pub mod Operations
pub mod Draining
pub mod Examples
use astra_scheduler.Base.{
  ℕ, zero, suc, ◌+◌, ◌-◌, ◌*◌, ◌/◌, Bool, true, false, not, ◌&&◌, Option, none, some, List, [], ◌∷◌,
  ◌++◌, ltb, leb, ◌==◌, if◌then◌else◌, length, set, get_or, add64, update,
}
use astra_scheduler.Metrics.{Metrics, Counter, Timing, count_one, count_many, time_detailed}
use astra_scheduler.Stealing.{swap}

pub record TimerQueue : Type 0 where
  pub next_timer_id : ℕ
  pub next_timer_sequence : ℕ
  pub heap : List ℕ
  pub is_mapped : ℕ → Bool
  pub wake_time : ℕ → ℕ
  pub sequence : ℕ → ℕ
  pub heap_index : ℕ → ℕ
  pub metrics : Metrics

-- compare_timer_entry: the earlier, and of two at the same time the one added first.
unfoldable pub compare_timer_entry : TimerQueue → ℕ → ℕ → Bool
compare_timer_entry q a b =
    if not (q.wake_time a == q.wake_time b)
    then ltb (q.wake_time a) (q.wake_time b)
    else ltb (q.sequence a) (q.sequence b)

abbrev pub at : TimerQueue → ℕ → ℕ
at q i = get_or q.heap i 0

-- std::swap(heap_[i], heap_[j]), and the two places written.
unfoldable pub swap_entries : ℕ → ℕ → TimerQueue → TimerQueue
unfolding swap
swap_entries i j q =
    let ys = swap q.heap i j in
    record q {
      heap = ys;
      heap_index = update (update q.heap_index (get_or ys i 0) i) (get_or ys j 0) j;
    }

-- TimerQueue::bubble_up, on fuel: the index is less with every turn.
unfoldable pub bubble_up : ℕ → ℕ → TimerQueue → TimerQueue
unfolding compare_timer_entry swap_entries
bubble_up zero idx q = q
bubble_up (suc fuel) idx q =
    let parent = (idx - 1) / 2 in
    let rest = bubble_up fuel parent (swap_entries idx parent q) in
    if idx == 0 then q else if compare_timer_entry q (at q idx) (at q parent) then rest else q

-- The least of an entry and its children.
unfoldable pub smallest_of : ℕ → TimerQueue → ℕ
unfolding compare_timer_entry
smallest_of idx q =
    let n = length q.heap in
    let left = 2 * idx + 1 in
    let right = 2 * idx + 2 in
    let first = if ltb left n && compare_timer_entry q (at q left) (at q idx) then left else idx in
    if ltb right n && compare_timer_entry q (at q right) (at q first) then right else first

-- TimerQueue::bubble_down, on fuel: the index grows with every turn.
unfoldable pub bubble_down : ℕ → ℕ → TimerQueue → TimerQueue
unfolding smallest_of swap_entries
bubble_down zero idx q = q
bubble_down (suc fuel) idx q =
    let smallest = smallest_of idx q in
    let rest = bubble_down fuel smallest (swap_entries idx smallest q) in
    if smallest == idx then q else rest

abbrev pub back : List ℕ → ℕ
back [] = 0
back (x ∷ []) = x
back (x ∷ y ∷ ys) = back (y ∷ ys)

abbrev pub pop_back : List ℕ → List ℕ
pop_back [] = []
pop_back (x ∷ []) = []
pop_back (x ∷ y ∷ ys) = x ∷ pop_back (y ∷ ys)

-- heap_[idx] = back; pop_back(); and the place written.
unfoldable pub move_back : ℕ → TimerQueue → TimerQueue
move_back idx q =
    let last = back q.heap in
    record q { heap = pop_back (set q.heap idx last); heap_index = update q.heap_index last idx }

-- TimerQueue::add, with the new timer's number and whether it is the earliest.
unfoldable pub add : ℕ → TimerQueue → TimerQueue × ℕ × Bool
unfolding bubble_up
add wake_time q =
    let tid = q.next_timer_id in
    let idx = length q.heap in
    let pushed = record q {
      next_timer_id = add64 q.next_timer_id 1;
      next_timer_sequence = add64 q.next_timer_sequence 1;
      wake_time = update q.wake_time tid wake_time;
      sequence = update q.sequence tid q.next_timer_sequence;
      heap_index = update q.heap_index tid idx;
      heap = q.heap ++ tid ∷ [];
      is_mapped = update q.is_mapped tid true;
      metrics = count_one Counter.timer_registrations q.metrics;
    } in
    let r = bubble_up (suc idx) idx pushed in (r, tid, at r 0 == tid)

-- TimerQueue::cancel
unfoldable pub cancel : ℕ → TimerQueue → TimerQueue
unfolding bubble_up bubble_down move_back
cancel timer_id q =
    let idx = q.heap_index timer_id in
    let n = length q.heap in
    let erased = record q {
      is_mapped = update q.is_mapped timer_id false;
      metrics = count_one Counter.timer_cancellations q.metrics;
    } in
    if not (q.is_mapped timer_id)
    then q
    else if idx == n - 1
    then record erased { heap = pop_back q.heap }
    else bubble_up n idx (bubble_down n idx (move_back idx erased))

-- The removal of the front in collect_due and cancel_all.
unfoldable pub pop_front : TimerQueue → TimerQueue
unfolding bubble_down move_back
pop_front q =
    let n = length q.heap in
    let erased = record q { is_mapped = update q.is_mapped (at q 0) false } in
    if n == 1
    then record erased { heap = pop_back q.heap }
    else bubble_down n 0 (move_back 0 erased)

-- The loop of collect_due, on fuel: every turn removes an entry.
unfoldable pub collect_loop : ℕ → ℕ → TimerQueue → TimerQueue × List ℕ
unfolding pop_front
collect_loop zero now q = (q, [])
collect_loop (suc fuel) now q =
    let (r, items) = collect_loop fuel now (pop_front q) in
    if not (length q.heap == 0) && leb (q.wake_time (at q 0)) now
    then (r, at q 0 ∷ items)
    else (q, [])

-- The lateness of every item, which its time has reached.
unfoldable pub record_lateness : ℕ → (ℕ → ℕ) → List ℕ → Metrics → Metrics
record_lateness now wake_time [] m = m
record_lateness now wake_time (x ∷ xs) m = record_lateness now wake_time xs (
    if leb (wake_time x) now
    then time_detailed Timing.timer_wake_lateness (now - wake_time x) m
    else m)

-- TimerQueue::collect_due, with the timers that are due in the order of their removal.
unfoldable pub collect_due : ℕ → TimerQueue → TimerQueue × List ℕ
unfolding collect_loop record_lateness
collect_due now q =
    let (r, items) = collect_loop (length q.heap) now q in
    let fired =
      if length items == 0
      then r.metrics
      else count_many Counter.timer_fires (length items) r.metrics in
    (record r { metrics = record_lateness now q.wake_time items fired }, items)

-- The loop of cancel_all.
unfoldable pub drain_loop : ℕ → TimerQueue → TimerQueue × List ℕ
unfolding pop_front
drain_loop zero q = (q, [])
drain_loop (suc fuel) q =
    let (r, items) = drain_loop fuel (pop_front q) in
    if length q.heap == 0 then (q, []) else (r, at q 0 ∷ items)

-- TimerQueue::cancel_all
unfoldable pub cancel_all : TimerQueue → TimerQueue × List ℕ
unfolding drain_loop
cancel_all q =
    let (r, items) = drain_loop (length q.heap) q in
    (
      record r {
        metrics =
            if length items == 0
            then r.metrics
            else count_many Counter.timer_cancellations (length items) r.metrics;
      },
      items,
    )

-- TimerQueue::earliest_wake_time
unfoldable pub earliest_wake_time : TimerQueue → Option ℕ
earliest_wake_time q = if length q.heap == 0 then none else some (q.wake_time (at q 0))
