-- ===== src/Freeze/Examples.antt =====
-- freeze() on small graphs: the results, and the theorems of Freeze/Decision.antt at them.
use astra_scheduler.Base.{ℕ, ◌≡◌, refl, true, List, [], ◌∷◌}
use astra_scheduler.Freeze.{
  has_foreign, has_self_edge, has_duplicate, kahn, EdgePolicy, GraphEdge, GraphValidationError,
  Frozen, cycle_witness, freeze,
}
use astra_scheduler.Freeze.Decision.{well_formed, IsAcyclic, freeze-frozen_iff, freeze-cycle_iff}

abbrev edge : ℕ → ℕ → GraphEdge
edge a b = record { from = a; to = b; policy = EdgePolicy.require_success }

-- A diamond whose edges go from 2 to 1 and 4 to 3.
abbrev diamond : List GraphEdge
diamond = edge 2 1 ∷ edge 2 4 ∷ edge 1 3 ∷ edge 4 3 ∷ []

-- 1 leads into a triangle of 2, 3 and 4.
abbrev triangle : List GraphEdge
triangle = edge 1 2 ∷ edge 4 2 ∷ edge 3 4 ∷ edge 2 3 ∷ []

freeze-diamond : freeze 4 diamond ≡ Frozen.frozen 4 diamond
unfolding freeze has_foreign has_self_edge has_duplicate kahn cycle_witness
freeze-diamond = refl

freeze-triangle :
    freeze 4 triangle ≡ Frozen.throws (GraphValidationError.cycle (2 ∷ 3 ∷ 4 ∷ 2 ∷ []))
unfolding freeze has_foreign has_self_edge has_duplicate kahn cycle_witness
freeze-triangle = refl

-- The duplicate is reported before the cycle it stands in.
freeze-duplicate :
    freeze 2 (edge 1 2 ∷ edge 2 1 ∷ edge 1 2 ∷ [])
    ≡ Frozen.throws GraphValidationError.duplicate_edge
unfolding freeze has_foreign has_self_edge has_duplicate kahn cycle_witness
freeze-duplicate = refl

freeze-frozen_iff_example : (well_formed 4 diamond ≡ true) × IsAcyclic diamond
freeze-frozen_iff_example = (freeze-frozen_iff 4 diamond).0 freeze-diamond

freeze-cycle_iff_example : (well_formed 4 triangle ≡ true) × ¬ IsAcyclic triangle
unfolding cycle_witness
freeze-cycle_iff_example = (freeze-cycle_iff 4 triangle).0 freeze-triangle
