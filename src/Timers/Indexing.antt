-- ===== src/Timers/Indexing.antt =====
-- The heap of the timers and the map agree: every mapped timer stands once in the heap, at the place
-- that its entry knows. What the moves in the heap keep of it.
use astra_scheduler.Base.{
  ℕ, zero, suc, ◌-◌, ◌/◌, ◌<◌, ◌≡◌, refl, sym, ◌∙◌, subst, ◌≢◌, Bool, true, List, arith, ℕ_discrete,
  ◌==◌, if◌then◌else◌, ==_iff, length, set, length-set, get_or, update, if_then_else_lem,
}
use astra_scheduler.Freeze.Counting.{occurrences}
use astra_scheduler.Stealing.{swap}
use astra_scheduler.Stealing.Shuffle.{get_or-set_self, get_or-set_ne, occurrences-swap, length-swap}
use astra_scheduler.Timers.{
  TimerQueue, compare_timer_entry, at, swap_entries, bubble_up, smallest_of, bubble_down,
}

pub record IsIndexed (mapped : ℕ → Bool) (q : TimerQueue) : Type 0 where
  pub same : (t : ℕ) → q.is_mapped t ≡ mapped t
  pub found :
      (t : ℕ)
      → mapped t ≡ true
      → (q.heap_index t < length q.heap) × (get_or q.heap (q.heap_index t) 0 ≡ t)
  pub counts : (t : ℕ) → occurrences t q.heap ≡ (if mapped t then 1 else 0)

get_or-swap_right :
    (xs : List ℕ) (i j : ℕ) → j < length xs → get_or (swap xs i j) j 0 ≡ get_or xs i 0
unfolding swap
get_or-swap_right xs i j h =
    get_or-set_self (set xs i (get_or xs j 0)) j (get_or xs i 0)
      (let a = length-set xs i (get_or xs j 0) in omega arith)

get_or-swap_left :
    (xs : List ℕ) (i j : ℕ)
    → i < length xs
    → j < length xs
    → get_or (swap xs i j) i 0 ≡ get_or xs j 0
unfolding swap
get_or-swap_left xs i j hi hj = elim (ℕ_discrete j i) [
  | yes same ↦
      subst (λ k. get_or (swap xs i j) k 0 ≡ get_or xs j 0) same
        (get_or-swap_right xs i j hj ∙ subst (λ k. get_or xs k 0 ≡ get_or xs j 0) same refl)
  | no other ↦
      get_or-set_ne (set xs i (get_or xs j 0)) j i (get_or xs i 0) other
      ∙ get_or-set_self xs i (get_or xs j 0) hi
]

get_or-swap_ne :
    (xs : List ℕ) (i j k : ℕ) → i ≢ k → j ≢ k → get_or (swap xs i j) k 0 ≡ get_or xs k 0
unfolding swap
get_or-swap_ne xs i j k hi hj =
    get_or-set_ne (set xs i (get_or xs j 0)) j k (get_or xs i 0) hj
    ∙ get_or-set_ne xs i k (get_or xs j 0) hi

-- The place written for the timer at k is k, and other timers' places are as before.
pub update-place :
    (ys : List ℕ) (places : ℕ → ℕ) (k t : ℕ)
    → k < length ys
    → (get_or ys k 0 ≢ t → (places t < length ys) × (get_or ys (places t) 0 ≡ t))
    → let place = update places (get_or ys k 0) k t in (place < length ys) × (get_or ys place 0 ≡ t)
update-place ys places k t inside other =
    if_then_else_lem (λ (place : ℕ). (place < length ys) × (get_or ys place 0 ≡ t))
      (get_or ys k 0 == t) (λ here. (inside, (==_iff (get_or ys k 0) t).0 here))
      (λ elsewhere. other (λ e. ground arith))

pub swap_entries-IsIndexed :
    (mapped : ℕ → Bool) (i j : ℕ) (q : TimerQueue)
    → i < length q.heap
    → j < length q.heap
    → IsIndexed mapped q
    → IsIndexed mapped (swap_entries i j q)
unfolding swap_entries
swap_entries-IsIndexed mapped i j q hi hj h =
    let xs = q.heap in
    let ys = swap xs i j in
    let len = length-swap xs i j in
    let right = get_or-swap_right xs i j hj in
    let left = get_or-swap_left xs i j hi hj in
    record {
      same = h.same;
      counts = λ t. occurrences-swap t xs i j hi hj ∙ h.counts t;
      found = λ t m.
          let (less, here) = h.found t m in
          update-place ys (update q.heap_index (get_or ys i 0) i) j t (omega arith) (λ not_j.
            update-place ys q.heap_index i t (omega arith) (λ not_i.
              let other_i : i ≢ q.heap_index t =
                (λ e. not_j (right ∙ subst (λ k. get_or xs k 0 ≡ t) (sym e) here)) in
              let other_j : j ≢ q.heap_index t =
                (λ e. not_i (left ∙ subst (λ k. get_or xs k 0 ≡ t) (sym e) here)) in
              (omega arith, get_or-swap_ne xs i j (q.heap_index t) other_i other_j ∙ here)));
    }

pub length-swap_entries :
    (i j : ℕ) (q : TimerQueue) → length (swap_entries i j q).heap ≡ length q.heap
unfolding swap_entries
length-swap_entries i j q = length-swap q.heap i j

-- What a move within the heap keeps.
abbrev pub Kept : (ℕ → Bool) → TimerQueue → TimerQueue → Type 0
Kept mapped q r = IsIndexed mapped r × (length r.heap ≡ length q.heap)

pub bubble_up-Kept :
    (mapped : ℕ → Bool) (fuel idx : ℕ) (q : TimerQueue)
    → idx < length q.heap
    → IsIndexed mapped q
    → Kept mapped q (bubble_up fuel idx q)
unfolding bubble_up
bubble_up-Kept mapped zero idx q inside h = (h, refl)
bubble_up-Kept mapped (suc fuel) idx q inside h =
    let parent = (idx - 1) / 2 in
    let len = length-swap_entries idx parent q in
    let (moved, same) =
      bubble_up-Kept mapped fuel parent (swap_entries idx parent q) (omega arith)
        (swap_entries-IsIndexed mapped idx parent q inside (omega arith) h) in
    if_then_else_lem (Kept mapped q) (idx == 0) (λ top. (h, refl))
      (λ below.
        if_then_else_lem (Kept mapped q) (compare_timer_entry q (at q idx) (at q parent))
          (λ less. (moved, same ∙ len)) (λ placed. (h, refl)))

smallest_of-lt :
    (idx : ℕ) (q : TimerQueue) → idx < length q.heap → smallest_of idx q < length q.heap
unfolding smallest_of
smallest_of-lt idx q inside = ground arith

pub bubble_down-Kept :
    (mapped : ℕ → Bool) (fuel idx : ℕ) (q : TimerQueue)
    → idx < length q.heap
    → IsIndexed mapped q
    → Kept mapped q (bubble_down fuel idx q)
unfolding bubble_down
bubble_down-Kept mapped zero idx q inside h = (h, refl)
bubble_down-Kept mapped (suc fuel) idx q inside h =
    let smallest = smallest_of idx q in
    let below = smallest_of-lt idx q inside in
    let len = length-swap_entries idx smallest q in
    let (moved, same) =
      bubble_down-Kept mapped fuel smallest (swap_entries idx smallest q) (omega arith)
        (swap_entries-IsIndexed mapped idx smallest q inside below h) in
    if_then_else_lem (Kept mapped q) (smallest == idx) (λ stop. (h, refl))
      (λ go. (moved, same ∙ len))
