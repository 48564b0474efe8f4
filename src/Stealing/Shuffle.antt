-- ===== src/Stealing/Shuffle.antt =====
-- The victims are the front of a rearrangement of the candidates.
use astra_scheduler.Base.{
  ℕ, zero, suc, ◌+◌, ◌-◌, ◌%◌, ◌≤◌, ◌<◌, ◌≡◌, refl, sym, ap, ◌∙◌, subst, ◌≢◌, not, ◌&&◌, ◌||◌, List,
  [], ◌∷◌, ◌++◌, arith, ℕ_discrete, ltb, leb, ◌==◌, if◌then◌else◌, length, set, length-set, get_or,
  take, length-take, if_then_else_lem,
}
use astra_scheduler.Freeze.Counting.{occurrences}
use astra_scheduler.Stealing.{
  next_random, candidates_from, swap, Victims, draw, generate_steal_victims,
}
use Prim.Native.Nat.{min}
use native.Mathlib.Nat.{mod-lt}

pub occurrences-set :
    (w : ℕ) (xs : List ℕ) (i x : ℕ)
    → i < length xs
    → occurrences w (set xs i x) + (if get_or xs i 0 == w then 1 else 0)
      ≡ occurrences w xs + (if x == w then 1 else 0)
unfolding occurrences
occurrences-set w [] i x h = absurd (omega arith)
occurrences-set w (y ∷ xs) zero x h = ground arith
occurrences-set w (y ∷ xs) (suc i) x h =
    let ih = occurrences-set w xs i x (omega arith) in ground arith

pub get_or-set_self : (xs : List ℕ) (i x : ℕ) → i < length xs → get_or (set xs i x) i 0 ≡ x
get_or-set_self [] i x h = absurd (omega arith)
get_or-set_self (y ∷ xs) zero x h = refl
get_or-set_self (y ∷ xs) (suc i) x h = get_or-set_self xs i x (omega arith)

pub get_or-set_ne : (xs : List ℕ) (i j x : ℕ) → i ≢ j → get_or (set xs i x) j 0 ≡ get_or xs j 0
get_or-set_ne [] i j x h = refl
get_or-set_ne (y ∷ xs) zero zero x h = absurd (h refl)
get_or-set_ne (y ∷ xs) zero (suc j) x h = refl
get_or-set_ne (y ∷ xs) (suc i) zero x h = refl
get_or-set_ne (y ∷ xs) (suc i) (suc j) x h = get_or-set_ne xs i j x (λ e. h (ap suc e))

take-set : (xs : List ℕ) (k i x : ℕ) → k ≤ i → take k (set xs i x) ≡ take k xs
take-set xs zero i x h = refl
take-set [] (suc k) i x h = refl
take-set (y ∷ xs) (suc k) zero x h = absurd (omega arith)
take-set (y ∷ xs) (suc k) (suc i) x h =
    ap (λ (ys : List ℕ). y ∷ ys) (take-set xs k i x (omega arith))

take-suc : (xs : List ℕ) (i : ℕ) → i < length xs → take (suc i) xs ≡ take i xs ++ get_or xs i 0 ∷ []
take-suc [] i h = absurd (omega arith)
take-suc (y ∷ xs) zero h = refl
take-suc (y ∷ xs) (suc i) h = ap (λ (ys : List ℕ). y ∷ ys) (take-suc xs i (omega arith))

pub occurrences-swap :
    (w : ℕ) (xs : List ℕ) (i j : ℕ)
    → i < length xs
    → j < length xs
    → occurrences w (swap xs i j) ≡ occurrences w xs
unfolding swap
occurrences-swap w xs i j hi hj =
    let ys = set xs i (get_or xs j 0) in
    let len = length-set xs i (get_or xs j 0) in
    let a = occurrences-set w xs i (get_or xs j 0) hi in
    let b = occurrences-set w ys j (get_or xs i 0) (omega arith) in
    elim (ℕ_discrete i j) [
      | yes same ↦
          let c = get_or-set_self xs i (get_or xs j 0) hi in
          let d = subst (λ k. get_or ys k 0 ≡ get_or xs j 0) same c in
          let e = subst (λ k. get_or xs i 0 ≡ get_or xs k 0) same refl in ground arith
      | no other ↦ let c = get_or-set_ne xs i j (get_or xs j 0) other in ground arith
    ]

occurrences-candidates_from :
    (self_index i left w : ℕ)
    → occurrences w (candidates_from self_index i left)
      ≡ (if leb i w && ltb w (i + left) && not (w == self_index) then 1 else 0)
unfolding occurrences candidates_from
occurrences-candidates_from self_index i zero w = ground arith
occurrences-candidates_from self_index i (suc left) w =
    let ih = occurrences-candidates_from self_index (i + 1) left w in ground arith

length-candidates_from :
    (self_index i left : ℕ)
    → length (candidates_from self_index i left)
      ≡ (if leb i self_index && ltb self_index (i + left) then left - 1 else left)
unfolding candidates_from
length-candidates_from self_index i zero = ground arith
length-candidates_from self_index i (suc left) =
    let ih = length-candidates_from self_index (i + 1) left in ground arith

pub length-swap : (xs : List ℕ) (i j : ℕ) → length (swap xs i j) ≡ length xs
unfolding swap
length-swap xs i j =
    length-set (set xs i (get_or xs j 0)) j (get_or xs i 0) ∙ length-set xs i (get_or xs j 0)

take-swap : (xs : List ℕ) (i j : ℕ) → i ≤ j → take i (swap xs i j) ≡ take i xs
unfolding swap
take-swap xs i j h =
    take-set (set xs i (get_or xs j 0)) i j (get_or xs i 0) h
    ∙ take-set xs i i (get_or xs j 0) (omega arith)

-- What the loop leaves: its victims are the front of a list with the same entries as the candidates.
pub draw-front :
    (num_candidates : ℕ) (xs : List ℕ) (i left : ℕ) (v : Victims)
    → length xs ≡ num_candidates
    → i + left ≤ num_candidates
    → v.out_victims ≡ take i xs
    → (ys : List ℕ) × (length ys ≡ num_candidates)
      × ((w : ℕ) → occurrences w ys ≡ occurrences w xs)
      × ((draw num_candidates xs i left v).out_victims ≡ take (i + left) ys)
unfolding draw
draw-front num_candidates xs i zero v len room front =
    (xs, len, (λ w. refl), subst (λ k. v.out_victims ≡ take k xs) (omega arith) front)
draw-front num_candidates xs i (suc left) v len room front =
    let value = (next_random v.rng_state).1 in
    let j = i + value % (num_candidates - i) in
    let below = mod-lt value {m = num_candidates - i} (omega arith) in
    let ys = swap xs i j in
    let same = length-swap xs i j in
    let next : v.out_victims ++ get_or ys i 0 ∷ [] ≡ take (suc i) ys =
      (ap (λ (q : List ℕ). q ++ get_or ys i 0 ∷ []) (front ∙ sym (take-swap xs i j (omega arith)))
        ∙ sym (take-suc ys i (omega arith))) in
    let (zs, zs_len, zs_counts, zs_front) =
      draw-front num_candidates ys (suc i) left
        (record {
          rng_state = (next_random v.rng_state).0;
          out_victims = v.out_victims ++ get_or ys i 0 ∷ [];
        })
        (same ∙ len) (omega arith) next in
    (
      zs,
      zs_len,
      (λ w. zs_counts w ∙ occurrences-swap w xs i j (omega arith) (omega arith)),
      subst
          (λ k.
            (draw num_candidates ys (suc i) left (record {
              rng_state = (next_random v.rng_state).0;
              out_victims = v.out_victims ++ get_or ys i 0 ∷ [];
            })).out_victims
            ≡ take k zs)
          (omega arith) zs_front,
    )

pub occurrences-take-le : (w k : ℕ) (xs : List ℕ) → occurrences w (take k xs) ≤ occurrences w xs
unfolding occurrences
occurrences-take-le w zero xs = omega arith
occurrences-take-le w (suc k) [] = omega arith
occurrences-take-le w (suc k) (x ∷ xs) = let ih = occurrences-take-le w k xs in ground arith

-- For every caller among the workers and every state of its generator, the victims are distinct, they
-- are workers other than the caller, and they are as many as the probe limit or, if that is less, as
-- there are other workers.
pub generate_steal_victims_lem :
    (self_index worker_count probe_limit rng_state : ℕ)
    → self_index < worker_count
    → let victims =
        (generate_steal_victims self_index worker_count probe_limit rng_state).out_victims in
      (length victims ≡ min probe_limit (worker_count - 1))
      × ((w : ℕ) → occurrences w victims ≤ 1)
      × ((w : ℕ) → 1 ≤ occurrences w victims → (w < worker_count) × (w ≢ self_index))
unfolding generate_steal_victims occurrences
generate_steal_victims_lem self_index worker_count probe_limit rng_state inside =
    let n = worker_count - 1 in
    let k = min probe_limit n in
    let none_yet : Victims = record { rng_state = rng_state; out_victims = [] } in
    let xs = candidates_from self_index 0 worker_count in
    if_then_else_lem
      (λ (v : Victims).
        (length v.out_victims ≡ min probe_limit (worker_count - 1))
        × ((w : ℕ) → occurrences w v.out_victims ≤ 1)
        × ((w : ℕ) → 1 ≤ occurrences w v.out_victims → (w < worker_count) × (w ≢ self_index)))
      (leb worker_count 1 || probe_limit == 0)
      (λ nobody. (ground arith, (λ w. omega arith), (λ w some. absurd (omega arith))))
      (λ others.
        let len = length-candidates_from self_index 0 worker_count in
        let (ys, ys_len, counts, front) =
          draw-front n xs 0 k none_yet (ground arith) (omega arith) refl in
        let once : (w : ℕ)
            → occurrences w (take (0 + k) ys)
              ≤ (if ltb w worker_count && not (w == self_index) then 1 else 0) =
          (λ w.
            let a = occurrences-take-le w (0 + k) ys in
            let b = counts w in
            let c = occurrences-candidates_from self_index 0 worker_count w in ground arith) in
        subst
          (λ vs.
            (length vs ≡ min probe_limit (worker_count - 1))
            × ((w : ℕ) → occurrences w vs ≤ 1)
            × ((w : ℕ) → 1 ≤ occurrences w vs → (w < worker_count) × (w ≢ self_index)))
          (sym front)
          (
            let a = length-take (0 + k) ys in omega arith,
            (λ w. let a = once w in ground arith),
            (λ w some. let a = once w in (ground arith, λ same. ground arith)),
          ))
