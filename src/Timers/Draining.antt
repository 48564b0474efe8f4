-- ===== src/Timers/Draining.antt =====
-- TimerQueue::cancel_all empties the queue.
use astra_scheduler.Base.{
  ℕ, zero, suc, ◌+◌, ◌-◌, ◌≤◌, ◌≡◌, refl, ◌∙◌, subst, false, List, [], ◌∷◌, arith, ◌==◌, length,
  update, if_then_else_lem,
}
use astra_scheduler.Freeze.Counting.{occurrences}
use astra_scheduler.Timers.{TimerQueue, at, move_back, pop_front, drain_loop, cancel_all}
use astra_scheduler.Timers.Indexing.{bubble_down-Kept}
use astra_scheduler.Timers.Queueing.{length-pop_back, erase, move_back-IsIndexed}
use astra_scheduler.Timers.Operations.{
  Agrees, own, length-move_back, pop_front-IsIndexed, front-mapped, Parts, pop_front-Parts,
}

length-zero : (xs : List ℕ) → length xs ≡ 0 → xs ≡ []
length-zero [] h = refl
length-zero (x ∷ xs) h = absurd (omega arith)

length-pop_front :
    (q : TimerQueue) → 1 ≤ length q.heap → Agrees q → length (pop_front q).heap ≡ length q.heap - 1
unfolding pop_front
length-pop_front q some_left h =
    let n = length q.heap in
    let id = at q 0 in
    let m = front-mapped q.is_mapped q 0 some_left h in
    if_then_else_lem (λ (r : TimerQueue). length r.heap ≡ n - 1) (n == 1)
      (λ one. length-pop_back q.heap)
      (λ more.
        let moved = move_back-IsIndexed q.is_mapped 0 id q (ground arith) refl h m in
        let len = length-move_back 0 (erase id q) in
        let (_, same) =
          bubble_down-Kept (update q.is_mapped id false) n 0 (move_back 0 (erase id q))
            (ground arith) moved in
        same ∙ len)

drain_loop-Parts :
    (fuel : ℕ) (q : TimerQueue)
    → length q.heap ≤ fuel
    → Agrees q
    → Parts q (drain_loop fuel q) × ((drain_loop fuel q).0.heap ≡ [])
unfolding drain_loop occurrences
drain_loop-Parts zero q enough h = ((h, (λ t. omega arith)), length-zero q.heap (omega arith))
drain_loop-Parts (suc fuel) q enough h =
    if_then_else_lem (λ (out : TimerQueue × List ℕ). Parts q out × (out.0.heap ≡ []))
      (length q.heap == 0) (λ over. ((h, (λ t. omega arith)), length-zero q.heap (ground arith)))
      (λ more.
        let some_left : 1 ≤ length q.heap = ground arith in
        let m = front-mapped q.is_mapped q 0 some_left h in
        let popped =
          own (update q.is_mapped (at q 0) false) (pop_front q)
            (pop_front-IsIndexed q.is_mapped q some_left h m) in
        let len = length-pop_front q some_left h in
        let (parts, ended) = drain_loop-Parts fuel (pop_front q) (omega arith) popped in
        (pop_front-Parts q (drain_loop fuel (pop_front q)) some_left h parts, ended))

-- Cancelling all timers leaves an empty heap, in agreement with the map, and returns every timer of the
-- heap exactly once.
pub cancel_all-empties :
    (q : TimerQueue)
    → Agrees q
    → Agrees (cancel_all q).0
      × ((cancel_all q).0.heap ≡ [])
      × ((t : ℕ) → occurrences t (cancel_all q).1 ≡ occurrences t q.heap)
unfolding cancel_all occurrences
cancel_all-empties q h =
    let r = (drain_loop (length q.heap) q).0 in
    let items = (drain_loop (length q.heap) q).1 in
    let ((agrees, parts), ended) = drain_loop-Parts (length q.heap) q (omega arith) h in
    (
      record { same = agrees.same; found = agrees.found; counts = agrees.counts },
      ended,
      (λ t.
          let a =
            subst (λ hs. occurrences t hs + occurrences t items ≡ occurrences t q.heap) ended
              (parts t) in
          omega arith),
    )
