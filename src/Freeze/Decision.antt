-- ===== src/Freeze/Decision.antt =====
-- What TaskGraph::freeze() decides: which graphs it accepts and which it calls cyclic.
use astra_scheduler.Base.{
  ℕ, suc, ◌+◌, ◌≤◌, ◌≡◌, refl, subst, ◌↔◌, inl, inr, Bool, true, false, not, ◌&&◌, List, [], ◌∷◌,
  arith, ltb, if◌then◌else◌, Bool-cases,
}
use astra_scheduler.Freeze.{
  GraphEdge, GraphValidationError, Frozen, is_node, has_foreign, has_self_edge, has_duplicate, kahn,
  cycle_witness, is_empty, freeze,
}
use astra_scheduler.Freeze.Counting.{occurrences, length-eq-total, total-le, total-full, total_ones}
use astra_scheduler.Freeze.Loop.{ready, kahn-IsSound}
use astra_scheduler.Freeze.Ordering.{climbs, place, topological-climbs, climbs-popped}

-- The three tests on the edges that freeze() makes before it looks for a cycle.
abbrev pub well_formed : ℕ → List GraphEdge → Bool
well_formed n es = not (has_foreign n es) && not (has_self_edge es) && not (has_duplicate [] es)

-- The nodes can be numbered so that every edge leads to a higher number.
abbrev pub IsAcyclic : List GraphEdge → Type 0
IsAcyclic es = (rank : ℕ → ℕ) × (climbs rank es ≡ true)

abbrev all_visited : ℕ → List GraphEdge → Bool
all_visited n es = not (ltb (kahn n es).visited_count n)

visited_all :
    (n : ℕ) (es : List GraphEdge)
    → has_foreign n es ≡ false
    → all_visited n es ≡ true
    → IsAcyclic es
visited_all n es valid all =
    let t = kahn n es in
    let h = (kahn-IsSound n es valid).0 in
    let once : (w : ℕ) → occurrences w t.order ≤ 1 = (λ w. let a = h.once w in ground arith) in
    let inside : (w : ℕ) → is_node n w ≡ false → occurrences w t.order ≡ 0 =
      (λ w out. let a = h.once w in ground arith) in
    let a = h.counted in
    let b = length-eq-total n t.order inside in
    let c = total-le n t.order once in
    (
      place t.order,
      topological-climbs n t.order es valid h.in_order once
          (λ w node. let d = total-full n t.order w once (ground arith) node in omega arith),
    )

acyclic_visited :
    (n : ℕ) (es : List GraphEdge)
    → has_foreign n es ≡ false
    → IsAcyclic es
    → all_visited n es ≡ true
unfolding occurrences
acyclic_visited n es valid (rank, up) =
    let t = kahn n es in
    let (h, ended) = kahn-IsSound n es valid in
    let inside : (w : ℕ) → is_node n w ≡ false → occurrences w t.order ≡ 0 =
      (λ w out. let a = h.once w in ground arith) in
    let popped : (v : ℕ) → occurrences v t.order ≡ ready n v (t.temp_in_degree v) = (λ v.
      let c =
        subst (λ q. occurrences v t.order + occurrences v q ≡ ready n v (t.temp_in_degree v)) ended
          (h.once v) in
      omega arith) in
    let ones : (w : ℕ) → is_node n w ≡ true → occurrences w t.order ≡ 1 = (λ w node.
      let a = h.once w in
      let b =
        climbs-popped rank n es t.temp_in_degree t.order (suc (rank w)) w up valid h.open_edges
          popped (omega arith) node in
      ground arith) in
    let a = h.counted in
    let b = length-eq-total n t.order inside in let c = total_ones n t.order ones in ground arith

abbrev finds_cycle : ℕ → List GraphEdge → Bool
finds_cycle n es = ltb 0 n && not (is_empty es) && ltb (kahn n es).visited_count n

finds_cycle_iff :
    (n : ℕ) (es : List GraphEdge)
    → has_foreign n es ≡ false
    → (finds_cycle n es ≡ false) ↔ IsAcyclic es
unfolding climbs has_foreign
finds_cycle_iff n [] valid = (λ h. (λ v. 0, refl), λ h. ground arith)
finds_cycle_iff n (e ∷ es) valid = (
  λ h. visited_all n (e ∷ es) valid (ground arith),
  λ h. let all = acyclic_visited n (e ∷ es) valid h in ground arith,
)

tests_pass :
    (f s d c : Bool) (w : List ℕ) (n : ℕ) (es : List GraphEdge)
    → let result =
        if f
        then Frozen.throws GraphValidationError.foreign_node
        else if s
        then Frozen.throws GraphValidationError.self_edge
        else if d
        then Frozen.throws GraphValidationError.duplicate_edge
        else if c
        then Frozen.throws (GraphValidationError.cycle w)
        else Frozen.frozen n es in
      ((result ≡ Frozen.frozen n es) ↔ ((not f && not s && not d ≡ true) × (c ≡ false)))
      × ((result ≡ Frozen.throws (GraphValidationError.cycle w))
          ↔ ((not f && not s && not d ≡ true) × (c ≡ true)))
tests_pass f s d c w n es = ground arith

-- freeze() returns a graph, the one it was given, exactly when its edges pass the three tests and it is
-- acyclic: Kahn's algorithm decides whether the nodes can be numbered so that every edge goes up.
pub freeze-frozen_iff :
    (n : ℕ) (es : List GraphEdge)
    → (freeze n es ≡ Frozen.frozen n es) ↔ ((well_formed n es ≡ true) × IsAcyclic es)
unfolding freeze
freeze-frozen_iff n es =
    let (accepts, _) =
      tests_pass (has_foreign n es) (has_self_edge es) (has_duplicate [] es) (finds_cycle n es)
        (cycle_witness n es) n es in
    let cyclic = finds_cycle_iff n es in
    (
      λ h. (let (a, b) = accepts.0 h in (a, (cyclic (ground arith)).0 b)),
      λ h. accepts.1 (h.0, (let a = h.0 in (cyclic (ground arith)).1 h.1)),
    )

-- freeze() reports a cycle exactly when the edges pass the three tests and no numbering of the nodes
-- makes every edge go up.
pub freeze-cycle_iff :
    (n : ℕ) (es : List GraphEdge)
    → (freeze n es ≡ Frozen.throws (GraphValidationError.cycle (cycle_witness n es)))
      ↔ ((well_formed n es ≡ true) × ¬ IsAcyclic es)
unfolding freeze
freeze-cycle_iff n es =
    let (_, refuses) =
      tests_pass (has_foreign n es) (has_self_edge es) (has_duplicate [] es) (finds_cycle n es)
        (cycle_witness n es) n es in
    let cyclic = finds_cycle_iff n es in
    (
      λ h.
          (let (a, b) = refuses.0 h in
            (a, λ up. let c = (cyclic (ground arith)).1 up in ground arith)),
      λ h.
          (let a = h.0 in
            refuses.1 (
              a,
              (elim (Bool-cases (finds_cycle n es)) [
                | inl yes_cycle ↦ yes_cycle
                | inr none_found ↦ absurd (h.1 ((cyclic (ground arith)).0 none_found))
              ]),
            )),
    )
