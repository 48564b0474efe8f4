-- ===== src/Metrics/Histograms.antt =====
-- Log2Histogram::bucket_for_ns and ShardedHistogram::record.
use astra_scheduler.Base.{
  false, ℕ, ◌+◌, ◌*◌, ◌/◌, ◌^◌, ◌≤◌, ◌<◌, ◌≡◌, List, [], ◌∷◌, arith, word_max, zero, suc, tests,
  leb-eq-false, ltb-eq-false, ltb→lt, get_or, set, length, length-set, Bool-cases, leb, inl, inr,
  ltb,
}
use Prim.Native.Nat.{max}
use native.Mathlib.Nat.{pow-suc, pow-le-pow_right}
use native.Mathlib.Numerals.{add-one}
use astra_scheduler.Metrics.{Histogram, top_bit, bucket_for_ns, record_ns, saturating_inc}

-- With enough halvings the highest bit encloses the value between two powers of two.
top_bit_bounds :
    (fuel ns : ℕ)
    → 0 < ns
    → ns < 2 ^ fuel
    → (2 ^ top_bit fuel ns ≤ ns) × (ns < 2 * 2 ^ top_bit fuel ns)
unfolding top_bit
top_bit_bounds zero ns pos h = omega arith
top_bit_bounds (suc fuel) ns pos h = elim (Bool-cases (leb ns 1)) [
  | inl one ↦ rw one (omega tests)
  | inr more ↦ rw more (
      let below : ns / 2 < 2 ^ fuel = omega (arith, pow-suc 2 fuel) in
      let above : 0 < ns / 2 = omega (arith, leb-eq-false ns 1 more) in
      rw (add-one (top_bit fuel (ns / 2))) (
        let ih = top_bit_bounds fuel (ns / 2) above below in
        omega (arith, ih, pow-suc 2 (top_bit fuel (ns / 2)))))
]

top_bit_small : (ns : ℕ) → 0 < ns → ns ≤ word_max → ltb 63 (top_bit 64 ns) ≡ false
top_bit_small ns pos h = elim (Bool-cases (ltb 63 (top_bit 64 ns))) [
  | inl big ↦ absurd (
      omega (
        arith,
        top_bit_bounds 64 ns pos (omega arith),
        pow-le-pow_right {n = 2} (omega arith) (ltb→lt 63 (top_bit 64 ns) big),
      ))
  | inr small ↦ small
]

leb-eq-false_of : (k : ℕ) → ltb 63 k ≡ false → k < 64
leb-eq-false_of k h = omega (arith, ltb-eq-false 63 k h)

pub bucket_for_ns_bounds :
    (ns : ℕ)
    → ns ≤ word_max
    → (bucket_for_ns ns < 64)
      × (ns < 2 * 2 ^ bucket_for_ns ns)
      × (0 < ns → 2 ^ bucket_for_ns ns ≤ ns)
unfolding bucket_for_ns
bucket_for_ns_bounds ns h = elim (Bool-cases (leb ns 1)) [
  | inl one ↦ rw one (omega arith, omega tests, λ pos. omega arith)
  | inr more ↦
      let pos : 0 < ns = omega (arith, leb-eq-false ns 1 more) in
      let (low, high) = top_bit_bounds 64 ns pos (omega arith) in
      let small = top_bit_small ns pos h in
      rw (more, small) (leb-eq-false_of (top_bit 64 ns) small, high, λ _. low)
]

-- The number of records that the buckets hold.
abbrev pub bucket_total : List ℕ → ℕ
bucket_total [] = 0
bucket_total (x ∷ xs) = x + bucket_total xs

bucket_total-set :
    (xs : List ℕ) (i : ℕ) (v : ℕ)
    → i < length xs
    → bucket_total (set xs i v) + get_or xs i 0 ≡ bucket_total xs + v
bucket_total-set [] i v h = absurd (omega arith)
bucket_total-set (x ∷ xs) zero v h = omega arith
bucket_total-set (x ∷ xs) (suc i) v h = omega (arith, bucket_total-set xs i v (omega arith))

get_or-le-total : (xs : List ℕ) (i : ℕ) → get_or xs i 0 ≤ bucket_total xs
get_or-le-total [] i = omega arith
get_or-le-total (x ∷ xs) zero = omega arith
get_or-le-total (x ∷ xs) (suc i) = omega (arith, get_or-le-total xs i)

-- 64 buckets, which hold together as many records as were counted.
pub record IsConsistent (h : Histogram) : Type 0 where
  pub size : length h.buckets ≡ 64
  pub counted : bucket_total h.buckets ≡ h.count

-- Below the top of the word, a record is counted once, in one bucket, adds its duration to the sum,
-- and the maximum becomes the larger of the two.
pub record_ns-IsConsistent :
    (ns : ℕ) (h : Histogram)
    → ns ≤ word_max
    → h.count < word_max
    → h.sum_ns + ns ≤ word_max
    → IsConsistent h
    → IsConsistent (record_ns ns h)
      × ((record_ns ns h).count ≡ h.count + 1)
      × ((record_ns ns h).sum_ns ≡ h.sum_ns + ns)
      × ((record_ns ns h).max_ns ≡ max h.max_ns ns)
unfolding record_ns
record_ns-IsConsistent ns h fits room sums c = (
  record {
    size = omega (
      arith,
      length-set h.buckets (bucket_for_ns ns)
          (saturating_inc (get_or h.buckets (bucket_for_ns ns) 0)),
      c.size,
    );
    counted = ground (
      arith,
      in_range,
      get_or-le-total h.buckets (bucket_for_ns ns),
      bucket_total-set h.buckets (bucket_for_ns ns)
          (saturating_inc (get_or h.buckets (bucket_for_ns ns) 0)) in_range,
    );
  },
  ground arith,
  ground arith,
  ground arith,
)
  where
    in_range : bucket_for_ns ns < length h.buckets
    in_range = omega (arith, (bucket_for_ns_bounds ns fits).0, c.size)
