-- ===== src/Stealing.antt =====
-- generate_steal_victims of src/runtime/scheduler.cpp, which an idle worker or a helping one calls for
-- the workers that it probes, in order: the first steps of a Fisher-Yates shuffle of the others, on
-- the worker's xorshift generator.
pub mod Shuffle
pub mod Examples
use astra_scheduler.Base.{
  ℕ, zero, suc, ◌+◌, ◌-◌, ◌*◌, ◌/◌, ◌%◌, ◌^◌, ◌||◌, List, [], ◌∷◌, ◌++◌, leb, ◌==◌, if◌then◌else◌,
  set, get_or, word_mod,
}
use Prim.Native.Nat.{bit_xor, min}

-- next_random: the new state of the generator, and its value.
unfoldable pub next_random : ℕ → ℕ × ℕ
next_random state =
    let a = bit_xor state (state / 2 ^ 12) in
    let b = bit_xor a ((a * 2 ^ 25) % word_mod) in
    let c = bit_xor b (b / 2 ^ 27) in (c, (c * 2685821657736338717) % word_mod)

-- The workers from i on, `left` of them, but for the caller.
unfoldable pub candidates_from : ℕ → ℕ → ℕ → List ℕ
candidates_from self_index i zero = []
candidates_from self_index i (suc left) =
    if i == self_index
    then candidates_from self_index (i + 1) left
    else i ∷ candidates_from self_index (i + 1) left

-- std::swap(candidates[i], candidates[j])
unfoldable pub swap : List ℕ → ℕ → ℕ → List ℕ
swap xs i j = set (set xs i (get_or xs j 0)) j (get_or xs i 0)

pub record Victims : Type 0 where
  pub rng_state : ℕ
  pub out_victims : List ℕ

-- The loop from i on, with `left` turns to go.
unfoldable pub draw : ℕ → List ℕ → ℕ → ℕ → Victims → Victims
unfolding next_random swap
draw num_candidates xs i zero v = v
draw num_candidates xs i (suc left) v =
    let (state, value) = next_random v.rng_state in
    let ys = swap xs i (i + value % (num_candidates - i)) in
    draw num_candidates ys (suc i) left
      (record { rng_state = state; out_victims = v.out_victims ++ get_or ys i 0 ∷ [] })

unfoldable pub generate_steal_victims : ℕ → ℕ → ℕ → ℕ → Victims
unfolding candidates_from draw
generate_steal_victims self_index worker_count probe_limit rng_state =
    let none_yet : Victims = record { rng_state = rng_state; out_victims = [] } in
    if leb worker_count 1 || probe_limit == 0
    then none_yet
    else draw (worker_count - 1) (candidates_from self_index 0 worker_count) 0
        (min probe_limit (worker_count - 1)) none_yet
