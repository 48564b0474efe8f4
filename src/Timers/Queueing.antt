-- ===== src/Timers/Queueing.antt =====
-- Every operation of the timer queue keeps the heap and the map in agreement, and no timer is lost or
-- returned twice.
use astra_scheduler.Base.{
  ℕ, zero, suc, ◌+◌, ◌-◌, ◌≤◌, ◌<◌, ◌≡◌, refl, sym, ◌∙◌, subst, ◌≢◌, Bool, true, false, List, [],
  ◌∷◌, arith, dec_lt, ℕ_discrete, ◌==◌, if◌then◌else◌, ==_iff, length, set, length-set, get_or,
  update, if_then_else_lem,
}
use astra_scheduler.Freeze.Counting.{occurrences}
use astra_scheduler.Stealing.Shuffle.{occurrences-set, get_or-set_self, get_or-set_ne}
use astra_scheduler.Timers.{TimerQueue, back, pop_back, move_back}
use astra_scheduler.Timers.Indexing.{IsIndexed}

pub occurrences-get_or : (xs : List ℕ) (i : ℕ) → i < length xs → 1 ≤ occurrences (get_or xs i 0) xs
unfolding occurrences
occurrences-get_or [] i h = absurd (omega arith)
occurrences-get_or (x ∷ xs) zero h = ground arith
occurrences-get_or (x ∷ xs) (suc i) h =
    let ih = occurrences-get_or xs i (omega arith) in ground arith

occurrences-pop_back :
    (t : ℕ) (xs : List ℕ)
    → 1 ≤ length xs
    → occurrences t (pop_back xs) + (if back xs == t then 1 else 0) ≡ occurrences t xs
unfolding occurrences
occurrences-pop_back t [] h = absurd (omega arith)
occurrences-pop_back t (x ∷ []) h = ground arith
occurrences-pop_back t (x ∷ y ∷ ys) h =
    let ih = occurrences-pop_back t (y ∷ ys) (omega arith) in ground arith

pub length-pop_back : (xs : List ℕ) → length (pop_back xs) ≡ length xs - 1
length-pop_back [] = refl
length-pop_back (x ∷ []) = refl
length-pop_back (x ∷ y ∷ ys) = let ih = length-pop_back (y ∷ ys) in omega arith

get_or-pop_back :
    (xs : List ℕ) (i : ℕ) → suc i < length xs → get_or (pop_back xs) i 0 ≡ get_or xs i 0
get_or-pop_back [] i h = absurd (omega arith)
get_or-pop_back (x ∷ []) i h = absurd (omega arith)
get_or-pop_back (x ∷ y ∷ ys) zero h = refl
get_or-pop_back (x ∷ y ∷ ys) (suc i) h = get_or-pop_back (y ∷ ys) i (omega arith)

pub get_or-back : (xs : List ℕ) (i : ℕ) → suc i ≡ length xs → get_or xs i 0 ≡ back xs
get_or-back [] i h = absurd (omega arith)
get_or-back (x ∷ []) zero h = refl
get_or-back (x ∷ []) (suc i) h = absurd (omega arith)
get_or-back (x ∷ y ∷ ys) zero h = absurd (omega arith)
get_or-back (x ∷ y ∷ ys) (suc i) h = get_or-back (y ∷ ys) i (omega arith)

back-set : (xs : List ℕ) (i v : ℕ) → suc i < length xs → back (set xs i v) ≡ back xs
back-set [] i v h = refl
back-set (x ∷ []) i v h = absurd (omega arith)
back-set (x ∷ y ∷ ys) zero v h = refl
back-set (x ∷ y ∷ []) (suc i) v h = absurd (omega arith)
back-set (x ∷ y ∷ z ∷ zs) (suc zero) v h = refl
back-set (x ∷ y ∷ z ∷ zs) (suc (suc i)) v h = back-set (y ∷ z ∷ zs) (suc i) v (omega arith)

abbrev pub erase : ℕ → TimerQueue → TimerQueue
erase id q = record q { is_mapped = update q.is_mapped id false }

-- A place below the last one is as before once the last one is gone.
place-pop_back :
    (ys : List ℕ) (p t : ℕ)
    → p < length ys
    → get_or ys p 0 ≡ t
    → back ys ≢ t
    → (p < length (pop_back ys)) × (get_or (pop_back ys) p 0 ≡ t)
place-pop_back ys p t inside here not_last =
    let popped = length-pop_back ys in
    elim (dec_lt (suc p) (length ys)) [
      | yes less ↦ (omega arith, get_or-pop_back ys p less ∙ here)
      | no last ↦ absurd (not_last (sym (get_or-back ys p (omega arith)) ∙ here))
    ]

-- The timer at idx leaves the map, and the last of the heap takes its place.
pub move_back-IsIndexed :
    (mapped : ℕ → Bool) (idx id : ℕ) (q : TimerQueue)
    → suc idx < length q.heap
    → get_or q.heap idx 0 ≡ id
    → IsIndexed mapped q
    → mapped id ≡ true
    → IsIndexed (update mapped id false) (move_back idx (erase id q))
unfolding move_back
move_back-IsIndexed mapped idx id q inside here h m =
    let xs = q.heap in
    let last = back xs in
    let ys = set xs idx last in
    let len = length-set xs idx last in
    let popped = length-pop_back ys in
    let same_back = back-set xs idx last inside in
    let written = get_or-set_self xs idx last (omega arith) in
    let at_idx : get_or (pop_back ys) idx 0 ≡ last =
      get_or-pop_back ys idx (omega arith) ∙ written in
    record {
      same = λ t. (let a = h.same t in ground arith);
      counts = λ t.
          let a = occurrences-pop_back t ys (omega arith) in
          let b = occurrences-set t xs idx last (omega arith) in
          let c = h.counts t in
          elim (ℕ_discrete id t) [
            | yes is_id ↦ let e = subst (λ v. mapped v ≡ true) is_id m in ground arith
            | no other ↦ ground arith
          ];
      found = λ t mt.
          let (less, place) = h.found t (ground arith) in
          let not_id : id ≢ t = (λ e. ground arith) in
          if_then_else_lem (λ (k : ℕ). (k < length (pop_back ys)) × (get_or (pop_back ys) k 0 ≡ t))
            (last == t) (λ moved. (omega arith, at_idx ∙ (==_iff last t).0 moved))
            (λ kept.
              let not_idx : idx ≢ q.heap_index t =
                (λ e. not_id (sym here ∙ subst (λ k. get_or xs k 0 ≡ t) (sym e) place)) in
              place-pop_back ys (q.heap_index t) t (omega arith)
                (get_or-set_ne xs idx (q.heap_index t) last not_idx ∙ place)
                (λ e. let f = sym same_back ∙ e in ground arith));
    }

pub pop_back-IsIndexed :
    (mapped : ℕ → Bool) (id : ℕ) (q : TimerQueue)
    → 1 ≤ length q.heap
    → back q.heap ≡ id
    → IsIndexed mapped q
    → mapped id ≡ true
    → IsIndexed (update mapped id false) (record (erase id q) { heap = pop_back q.heap })
pop_back-IsIndexed mapped id q some_left last h m = record {
  same = λ t. (let a = h.same t in ground arith);
  counts = λ t.
      let a = occurrences-pop_back t q.heap some_left in
      let c = h.counts t in
      elim (ℕ_discrete id t) [
        | yes is_id ↦ let e = subst (λ v. mapped v ≡ true) is_id m in ground arith
        | no other ↦ ground arith
      ];
  found = λ t mt.
      let (less, place) = h.found t (ground arith) in
      place-pop_back q.heap (q.heap_index t) t less place (λ e. ground arith);
}
