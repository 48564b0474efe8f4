-- ===== src/Metrics/Examples.antt =====
-- Runs of the counters and the histogram, and the theorems of Metrics at concrete inputs.
use Prim.Native.Nat.{min}
use astra_scheduler.Base.{ℕ, ◌+◌, ◌≡◌, refl, false, [], ◌∷◌, some, arith, word_max, replicate}
use astra_scheduler.Metrics.{Counter, Histogram, bucket_for_ns, top_bit, record_ns}
use astra_scheduler.Metrics.Saturation.{add_all, add_all-eq-min, total}
use astra_scheduler.Metrics.Histograms.{record_ns-IsConsistent}
use astra_scheduler.Metrics.Snapshot.{fill_counter, fill_counter_lem}

bucket_of_1500 : bucket_for_ns 1500 ≡ 10
unfolding bucket_for_ns top_bit
bucket_of_1500 = refl

bucket_of_top : bucket_for_ns word_max ≡ 63
unfolding bucket_for_ns top_bit
bucket_of_top = refl

add_all-eq-min_example :
    add_all 5 (7 ∷ word_max ∷ 1 ∷ []) ≡ min word_max (5 + total (7 ∷ word_max ∷ 1 ∷ []))
add_all-eq-min_example = add_all-eq-min 5 (7 ∷ word_max ∷ 1 ∷ []) (omega arith)

abbrev fresh : Histogram
fresh = record { count = 0; sum_ns = 0; max_ns = 0; buckets = replicate 64 0 }

record_ns-IsConsistent_example : (record_ns 1500 fresh).sum_ns ≡ 0 + 1500
record_ns-IsConsistent_example =
    (record_ns-IsConsistent 1500 fresh (omega arith) (omega arith) (omega arith)
      (record { size = refl; counted = refl })).2

abbrev busy : Counter → ℕ
busy c = 4

fill_counter_lem_example :
    (fill_counter Counter.succeeded (some busy) (busy ∷ busy ∷ []) false).dst
    ≡ min word_max (total (4 ∷ 4 ∷ 4 ∷ []))
fill_counter_lem_example =
    (fill_counter_lem Counter.succeeded (some busy) (busy ∷ busy ∷ []) false (omega arith)).0
