-- ===== src/Timers/Operations.antt =====
-- The operations of the timer queue: the heap and the map go on agreeing, and no timer is lost or
-- returned twice.
use astra_scheduler.Base.{
  ℕ, zero, suc, ◌+◌, ◌-◌, ◌≤◌, ◌<◌, ◌≡◌, refl, sym, ◌∙◌, subst, Bool, true, false, not, ◌&&◌, List,
  [], ◌∷◌, ◌++◌, arith, ℕ_discrete, leb, ◌==◌, if◌then◌else◌, ==_iff, length, set, length-append,
  length-set, get_or, add64, update, if_then_else_lem,
}
use astra_scheduler.Freeze.Counting.{occurrences}
use astra_scheduler.GraphRun.Tokens.{occurrences-append}
use astra_scheduler.Metrics.{Counter, count_one}
use astra_scheduler.Timers.{
  TimerQueue, at, back, move_back, add, pop_front, collect_loop, collect_due,
}
use astra_scheduler.Timers.Indexing.{IsIndexed, bubble_up-Kept, bubble_down-Kept}
use astra_scheduler.Timers.Queueing.{
  occurrences-get_or, length-pop_back, get_or-back, erase, move_back-IsIndexed, pop_back-IsIndexed,
}

-- The mapped timers are those of the heap, each once and at the place that its entry knows.
abbrev pub Agrees : TimerQueue → Type 0
Agrees q = IsIndexed q.is_mapped q

pub own : (mapped : ℕ → Bool) (q : TimerQueue) → IsIndexed mapped q → Agrees q
own mapped q h = record {
  same = λ t. refl;
  found = λ t m. h.found t (sym (h.same t) ∙ m);
  counts = λ t. (let a = h.same t in let b = h.counts t in ground arith);
}

get_or-append : (xs : List ℕ) (i x : ℕ) → i < length xs → get_or (xs ++ x ∷ []) i 0 ≡ get_or xs i 0
get_or-append [] i x h = absurd (omega arith)
get_or-append (y ∷ xs) zero x h = refl
get_or-append (y ∷ xs) (suc i) x h = get_or-append xs i x (omega arith)

get_or-append_end : (xs : List ℕ) (x : ℕ) → get_or (xs ++ x ∷ []) (length xs) 0 ≡ x
get_or-append_end [] x = refl
get_or-append_end (y ∷ xs) x = get_or-append_end xs x

-- Adding a timer under a number that is not in use keeps the heap and the map in agreement, and adds
-- that timer to the heap once.
pub add-Agrees :
    (wake_time : ℕ) (q : TimerQueue)
    → q.is_mapped q.next_timer_id ≡ false
    → Agrees q
    → Agrees (add wake_time q).0
      × ((t : ℕ)
          → occurrences t (add wake_time q).0.heap
            ≡ occurrences t q.heap + (if q.next_timer_id == t then 1 else 0))
unfolding add occurrences
add-Agrees wake_time q free h =
    let tid = q.next_timer_id in
    let xs = q.heap in
    let mapped = update q.is_mapped tid true in
    let len = length-append xs (tid ∷ []) in
    let pushed : TimerQueue = record q {
      next_timer_id = add64 q.next_timer_id 1;
      next_timer_sequence = add64 q.next_timer_sequence 1;
      wake_time = update q.wake_time tid wake_time;
      sequence = update q.sequence tid q.next_timer_sequence;
      heap_index = update q.heap_index tid (length xs);
      heap = xs ++ tid ∷ [];
      is_mapped = mapped;
      metrics = count_one Counter.timer_registrations q.metrics;
    } in
    let indexed : IsIndexed mapped pushed = record {
      same = λ t. refl;
      counts = λ t.
          let a = occurrences-append t xs (tid ∷ []) in
          let b = h.counts t in
          elim (ℕ_discrete tid t) [
            | yes is_new ↦ let c = subst (λ v. q.is_mapped v ≡ false) is_new free in ground arith
            | no old ↦ ground arith
          ];
      found = λ t m.
          if_then_else_lem
            (λ (k : ℕ). (k < length (xs ++ tid ∷ [])) × (get_or (xs ++ tid ∷ []) k 0 ≡ t))
            (tid == t) (λ is_new. (omega arith, get_or-append_end xs tid ∙ (==_iff tid t).0 is_new))
            (λ old.
              let (less, place) = h.found t (ground arith) in
              (omega arith, get_or-append xs (q.heap_index t) tid less ∙ place));
    } in
    let (moved, _) =
      bubble_up-Kept mapped (suc (length xs)) (length xs) pushed (omega arith) indexed in
    (
      own mapped (add wake_time q).0 moved,
      (λ t.
          let a = moved.counts t in
          let b = indexed.counts t in let c = occurrences-append t xs (tid ∷ []) in ground arith),
    )

remove_counts :
    (mapped : ℕ → Bool) (id : ℕ) (q r : TimerQueue)
    → IsIndexed mapped q
    → IsIndexed (update mapped id false) r
    → mapped id ≡ true
    → (t : ℕ) → occurrences t r.heap + (if id == t then 1 else 0) ≡ occurrences t q.heap
remove_counts mapped id q r h k m t =
    let a = h.counts t in
    let b = k.counts t in
    elim (ℕ_discrete id t) [
      | yes is_id ↦ let c = subst (λ v. mapped v ≡ true) is_id m in ground arith
      | no other ↦ ground arith
    ]

pub length-move_back :
    (idx : ℕ) (q : TimerQueue) → length (move_back idx q).heap ≡ length q.heap - 1
unfolding move_back
length-move_back idx q =
    let a = length-pop_back (set q.heap idx (back q.heap)) in
    let b = length-set q.heap idx (back q.heap) in omega arith

pub pop_front-IsIndexed :
    (mapped : ℕ → Bool) (q : TimerQueue)
    → 1 ≤ length q.heap
    → IsIndexed mapped q
    → mapped (at q 0) ≡ true
    → IsIndexed (update mapped (at q 0) false) (pop_front q)
unfolding pop_front
pop_front-IsIndexed mapped q some_left h m =
    let n = length q.heap in
    let id = at q 0 in
    if_then_else_lem (IsIndexed (update mapped id false)) (n == 1)
      (λ one.
        pop_back-IsIndexed mapped id q some_left (sym (get_or-back q.heap 0 (ground arith))) h m)
      (λ more.
        let moved = move_back-IsIndexed mapped 0 id q (ground arith) refl h m in
        let len = length-move_back 0 (erase id q) in
        (bubble_down-Kept (update mapped id false) n 0 (move_back 0 (erase id q)) (ground arith)
          moved).0)

pub front-mapped :
    (mapped : ℕ → Bool) (q : TimerQueue) (i : ℕ)
    → i < length q.heap
    → IsIndexed mapped q
    → mapped (at q i) ≡ true
front-mapped mapped q i inside h =
    let a = occurrences-get_or q.heap i inside in let b = h.counts (at q i) in ground arith

-- What a loop that removes entries from the front has done: the entries removed and those left are the
-- entries that there were.
abbrev pub Parts : TimerQueue → TimerQueue × List ℕ → Type 0
Parts q out =
    Agrees out.0 × ((t : ℕ) → occurrences t out.0.heap + occurrences t out.1 ≡ occurrences t q.heap)

pub pop_front-Parts :
    (q : TimerQueue) (out : TimerQueue × List ℕ)
    → 1 ≤ length q.heap
    → Agrees q
    → Parts (pop_front q) out
    → Parts q (out.0, at q 0 ∷ out.1)
unfolding occurrences
pop_front-Parts q out some_left h (agrees, parts) =
    let m = front-mapped q.is_mapped q 0 some_left h in
    let popped = pop_front-IsIndexed q.is_mapped q some_left h m in
    (
      agrees,
      (λ t.
          let a = parts t in
          let b = remove_counts q.is_mapped (at q 0) q (pop_front q) h popped m t in ground arith),
    )

collect_loop-Parts : (fuel now : ℕ) (q : TimerQueue) → Agrees q → Parts q (collect_loop fuel now q)
unfolding collect_loop occurrences
collect_loop-Parts zero now q h = (h, (λ t. omega arith))
collect_loop-Parts (suc fuel) now q h =
    if_then_else_lem (Parts q) (not (length q.heap == 0) && leb (q.wake_time (at q 0)) now)
      (λ due.
        let some_left : 1 ≤ length q.heap = ground arith in
        let m = front-mapped q.is_mapped q 0 some_left h in
        let popped =
          own (update q.is_mapped (at q 0) false) (pop_front q)
            (pop_front-IsIndexed q.is_mapped q some_left h m) in
        pop_front-Parts q (collect_loop fuel now (pop_front q)) some_left h
          (collect_loop-Parts fuel now (pop_front q) popped))
      (λ rest. (h, (λ t. omega arith)))

-- Collecting the due timers keeps the heap and the map in agreement; each timer of the heap is returned
-- or still in the heap, once and never both.
pub collect_due-conserves :
    (now : ℕ) (q : TimerQueue)
    → Agrees q
    → Agrees (collect_due now q).0
      × ((t : ℕ)
          → occurrences t (collect_due now q).0.heap + occurrences t (collect_due now q).1
            ≡ occurrences t q.heap)
unfolding collect_due
collect_due-conserves now q h =
    let (agrees, parts) = collect_loop-Parts (length q.heap) now q h in
    (record { same = agrees.same; found = agrees.found; counts = agrees.counts }, parts)
