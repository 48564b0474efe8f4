-- ===== src/Stealing/Examples.antt =====
-- The victims of one worker of four, and the theorem on them at it.
use astra_scheduler.Base.{ℕ, ◌-◌, ◌≤◌, ◌<◌, ◌≡◌, refl, ◌≢◌, [], arith, length}
use astra_scheduler.Stealing.{Victims, generate_steal_victims}
use astra_scheduler.Stealing.Shuffle.{generate_steal_victims_lem}
use astra_scheduler.Freeze.Counting.{occurrences}
use Prim.Native.Nat.{min}

abbrev four_workers : Victims
four_workers = generate_steal_victims 1 4 2 88172645463325252

two_victims : length four_workers.out_victims ≡ 2
unfolding generate_steal_victims
two_victims = refl

alone : (generate_steal_victims 0 1 4 7).out_victims ≡ []
unfolding generate_steal_victims
alone = refl

generate_steal_victims_lem_example :
    (length four_workers.out_victims ≡ min 2 (4 - 1))
    × ((w : ℕ) → occurrences w four_workers.out_victims ≤ 1)
    × ((w : ℕ) → 1 ≤ occurrences w four_workers.out_victims → (w < 4) × (w ≢ 1))
generate_steal_victims_lem_example =
    generate_steal_victims_lem 1 4 2 88172645463325252 (omega arith)
