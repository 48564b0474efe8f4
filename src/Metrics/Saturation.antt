-- ===== src/Metrics/Saturation.antt =====
-- The saturating counters of RuntimeMetrics stop at the top of the word and never wrap.
use Prim.Native.Nat.{min}
use astra_scheduler.Base.{ℕ, ◌+◌, ◌≤◌, ◌≡◌, List, [], ◌∷◌, arith, word_max}
use astra_scheduler.Metrics.{saturating_inc, saturating_add}

-- On a counter within the word, a saturating addition is the sum cut off at the top.
pub saturating_add-eq-min :
    (cur val : ℕ) → cur ≤ word_max → saturating_add cur val ≡ min word_max (cur + val)
unfolding saturating_add
saturating_add-eq-min cur val h = ground arith

-- An increment is an addition of one.
pub saturating_inc-eq-add : (cur : ℕ) → cur ≤ word_max → saturating_inc cur ≡ saturating_add cur 1
unfolding saturating_inc saturating_add
saturating_inc-eq-add cur h = ground arith

pub saturating_add-le : (cur val : ℕ) → cur ≤ word_max → saturating_add cur val ≤ word_max
saturating_add-le cur val h = omega (arith, saturating_add-eq-min cur val h)

pub saturating_inc-le : (cur : ℕ) → cur ≤ word_max → saturating_inc cur ≤ word_max
unfolding saturating_inc
saturating_inc-le cur h = ground arith

-- A counter never falls under an increment.
pub le-saturating_inc : (cur : ℕ) → cur ≤ saturating_inc cur
unfolding saturating_inc
le-saturating_inc cur = ground arith

-- The sum without a limit.
abbrev pub total : List ℕ → ℕ
total [] = 0
total (x ∷ xs) = x + total xs

-- A run of additions to one counter, in the order in which their compare-exchanges succeed.
unfoldable pub add_all : ℕ → List ℕ → ℕ
add_all cur [] = cur
add_all cur (x ∷ xs) = add_all (saturating_add cur x) xs

-- Whatever the order and the number of the additions, the counter ends at the true total cut off at
-- the top of the word: saturation at an intermediate step is never undone and never loses a count
-- that would still fit.
pub add_all-eq-min :
    (cur : ℕ) (xs : List ℕ) → cur ≤ word_max → add_all cur xs ≡ min word_max (cur + total xs)
unfolding add_all
add_all-eq-min cur [] h = omega arith
add_all-eq-min cur (x ∷ xs) h = omega (
  arith,
  saturating_add-eq-min cur x h,
  add_all-eq-min (saturating_add cur x) xs (saturating_add-le cur x h),
)
