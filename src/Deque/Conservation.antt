-- ===== src/Deque/Conservation.antt =====
-- Nothing that is pushed is lost, and nothing is taken twice.
use astra_scheduler.Base.{
  ℕ, ◌+◌, ◌^◌, ◌≤◌, ◌<◌, ◌≡◌, refl, ap, List, [], ◌∷◌, arith, ◌==◌, if◌then◌else◌, count,
  count-append,
}
use astra_scheduler.Deque.{Event, System, Reach}
use astra_scheduler.Deque.Invariant.{contents}
use astra_scheduler.Deque.Refinement.{Replays, Reach-Replays}

-- How often an item was pushed, and was taken.
abbrev pub pushes : ℕ → List Event → ℕ
pushes x [] = 0
pushes x (Event.pushed y ∷ es) = (if x == y then 1 else 0) + pushes x es
pushes x (_ ∷ es) = pushes x es

abbrev pub takings : ℕ → List Event → ℕ
takings x [] = 0
takings x (Event.popped y ∷ es) = (if x == y then 1 else 0) + takings x es
takings x (Event.stolen y ∷ es) = (if x == y then 1 else 0) + takings x es
takings x (_ ∷ es) = takings x es

Replays-count :
    (x : ℕ) {es : List Event} {ys : List ℕ}
    → Replays es ys
    → pushes x es ≡ takings x es + count x ys
Replays-count x Replays.start = refl
Replays-count x (Replays.next {e = Event.silent} r d) =
    omega (arith, Replays-count x r, ap (count x) d)
Replays-count x (Replays.next {e = Event.pushed y} {xs} r d) =
    omega (arith, Replays-count x r, ap (count x) d, count-append x xs (y ∷ []))
Replays-count x (Replays.next {e = Event.popped y} {ys} r d) =
    omega (arith, Replays-count x r, ap (count x) d, count-append x ys (y ∷ []))
Replays-count x (Replays.next {e = Event.stolen y} r d) =
    omega (arith, Replays-count x r, ap (count x) d)

-- However the owner's and the thieves' accesses interleave, with a capacity of 1 to 2 ^ 63 and fewer
-- than 2 ^ 32 thieves, an item has been pushed as often as it was popped, was stolen or is still in
-- the deque: no item is lost, and none is handed out twice.
pub pushes-takings :
    {capacity n : ℕ} {system : System} {es : List Event}
    → 0 < capacity
    → capacity ≤ 2 ^ 63
    → n < 2 ^ 32
    → Reach capacity n system es
    → (x : ℕ) → pushes x es ≡ takings x es + count x (contents system.owner system.shared)
pushes-takings pos small few r x = Replays-count x (Reach-Replays pos small few r)
