-- ===== src/Metrics/Snapshot.antt =====
-- add_to and accumulate_shard of src/runtime/runtime_metrics.cpp: the shards of a runtime summed into
-- one snapshot, control shard first, with the flag that reports saturation.
use Prim.Native.Nat.{min}
use native.Mathlib.Nat.{zero-add}
use astra_scheduler.Base.{
  ℕ, ◌+◌, ◌-◌, ◌≤◌, ◌≡◌, Bool, true, false, ◌||◌, List, [], ◌∷◌, map, Option, none, some, arith,
  word_max, ltb, ◌==◌, if◌then◌else◌, ap, ◌∙◌,
}
use astra_scheduler.Metrics.{Counter}
use astra_scheduler.Metrics.Saturation.{total}

-- What add_to writes: the sum so far, and the flag.
pub record Tally : Type 0 where
  pub dst : ℕ
  pub any_saturated : Bool

unfoldable pub add_to : Tally → ℕ → Tally
add_to t src =
    if src == word_max || ltb (word_max - t.dst) src
    then record { dst = word_max; any_saturated = true }
    else record t { dst = t.dst + src }

-- One counter of the snapshot, over the values that the shards hold for it.
unfoldable pub accumulate : Tally → List ℕ → Tally
unfolding add_to
accumulate t [] = t
accumulate t (x ∷ xs) = accumulate (add_to t x) xs

-- The shards in the order of the source: the control shard, then the workers'.
abbrev pub shards : Option (Counter → ℕ) → List (Counter → ℕ) → List (Counter → ℕ)
shards none workers = workers
shards (some control) workers = control ∷ workers

-- What the shards hold for one counter.
abbrev pub shard_values : Counter → Option (Counter → ℕ) → List (Counter → ℕ) → List ℕ
shard_values c control workers = map (λ s. s c) (shards control workers)

-- A counter of a snapshot, from a snapshot whose counters start at zero.
unfoldable pub fill_counter : Counter → Option (Counter → ℕ) → List (Counter → ℕ) → Bool → Tally
unfolding accumulate
fill_counter c control workers any_saturated =
    accumulate (record { dst = 0; any_saturated = any_saturated }) (shard_values c control workers)

-- Some shard's value stands at the top of the word.
abbrev pub has_max : List ℕ → Bool
has_max [] = false
has_max (x ∷ xs) = x == word_max || has_max xs

abbrev pub AllWords : List ℕ → Type 0
AllWords [] = Unit {0}
AllWords (x ∷ xs) = (x ≤ word_max) × AllWords xs

-- What the flag should say of a counter: a shard is saturated, or the true sum does not fit.
abbrev pub should_report : ℕ → List ℕ → Bool
should_report dst xs = has_max xs || ltb word_max (dst + total xs)

add_to-le : (t : Tally) (src : ℕ) → t.dst ≤ word_max → (add_to t src).dst ≤ word_max
unfolding add_to
add_to-le t src h = ground arith

accumulate_lem :
    (t : Tally) (xs : List ℕ)
    → t.dst ≤ word_max
    → AllWords xs
    → ((accumulate t xs).dst ≡ min word_max (t.dst + total xs))
      × ((accumulate t xs).any_saturated ≡ (t.any_saturated || should_report t.dst xs))
unfolding accumulate
accumulate_lem t [] h w = (omega arith, ground arith)
accumulate_lem t (x ∷ xs) h w =
    let (sums, flags) = accumulate_lem (add_to t x) xs (add_to-le t x h) w.1 in
    (ground (arith, sums), ground (arith, flags))

-- A counter of the snapshot is the sum over all shards cut off at the top of the word, and the flag is
-- raised, beyond what was raised before, exactly if some shard is saturated or the sum does not fit.
pub fill_counter_lem :
    (c : Counter) (control : Option (Counter → ℕ)) (workers : List (Counter → ℕ)) (before : Bool)
    → AllWords (shard_values c control workers)
    → let values = shard_values c control workers in
      ((fill_counter c control workers before).dst ≡ min word_max (total values))
      × ((fill_counter c control workers before).any_saturated
          ≡ (before || (has_max values || ltb word_max (total values))))
unfolding fill_counter
fill_counter_lem c control workers before w =
    let (sums, flags) =
      accumulate_lem (record { dst = 0; any_saturated = before }) (shard_values c control workers)
        (omega arith) w in
    (
      omega (arith, sums),
      flags
          ∙ ap (λ n. before || (has_max (shard_values c control workers) || ltb word_max n))
              (zero-add (total (shard_values c control workers))),
    )
