-- ===== src/Freeze/Loop.antt =====
-- The invariant of the loop of Kahn's algorithm in freeze(): what the in-degrees, the queue and the
-- visited count say about the nodes popped so far, and that the loop ends with an empty queue.
use astra_scheduler.Base.{
  ◌≤◌, ℕ, zero, suc, ◌+◌, ◌≡◌, refl, sym, subst, ◌⊎◌, inl, inr, Bool, true, false, ◌&&◌, List, [],
  ◌∷◌, arith, ℕ_discrete, ◌==◌, if◌then◌else◌, length,
}
use astra_scheduler.Freeze.{
  GraphEdge, is_node, has_foreign, targets, sort, adjacency, in_degree, zero_in_degree, pop_least,
  Kahn, visit, kahn_loop, kahn,
}
use astra_scheduler.Freeze.Counting.{
  in_degree-eq-pending, length-eq-total, total-le, occurrences, pending, occurrences-sort,
  occurrences-pop_least, occurrences_self, pending_cons, pending_foreign,
}
use astra_scheduler.Freeze.Relaxing.{bump, relax_counts, relax-order, relax-visited_count}

-- Every popped node had all its predecessors popped before it.
unfoldable pub topological : List GraphEdge → List ℕ → Bool
unfolding pending
topological es [] = true
topological es (u ∷ done) = pending es done u == 0 && topological es done

abbrev pub ready : ℕ → ℕ → ℕ → ℕ
ready n w left = if is_node n w && left == 0 then 1 else 0

pub record IsSound (n : ℕ) (es : List GraphEdge) (s : Kahn) : Type 0 where
  pub open_edges : (w : ℕ) → s.temp_in_degree w ≡ pending es s.order w
  pub once :
      (w : ℕ) → occurrences w s.order + occurrences w s.queue ≡ ready n w (s.temp_in_degree w)
  pub counted : s.visited_count ≡ length s.order
  pub in_order : topological es s.order ≡ true

zero_in_degree-ready :
    (es : List GraphEdge) (n w : ℕ)
    → occurrences w (zero_in_degree es n) ≡ ready n w (in_degree es w)
unfolding zero_in_degree occurrences
zero_in_degree-ready es zero w = ground arith
zero_in_degree-ready es (suc n) w =
    let ih = zero_in_degree-ready es n w in
    elim (ℕ_discrete (suc n) w) [
      | yes same ↦
          let here = subst (λ v. in_degree es v ≡ in_degree es w) (sym same) refl in ground arith
      | no other ↦ ground arith
    ]

-- What the turn for node u does to the counts of w.
visit_counts :
    (n : ℕ) (es : List GraphEdge) (x : ℕ) (xs : List ℕ) (s : Kahn) (w : ℕ)
    → s.queue ≡ x ∷ xs
    → IsSound n es s
    → let u = (pop_least x xs).0 in
      let t = visit es x xs s in
      (pending es s.order u ≡ 0)
      × (t.temp_in_degree w ≡ pending es (u ∷ s.order) w)
      × (pending es (u ∷ s.order) w + occurrences w (targets u es) ≡ pending es s.order w)
      × (occurrences w (u ∷ s.order) + occurrences w t.queue
          ≡ occurrences w s.order
            + occurrences w s.queue
            + bump (occurrences w (targets u es)) (pending es s.order w))
unfolding visit adjacency occurrences
visit_counts n es x xs s w queued h =
    let u = (pop_least x xs).0 in
    let rest = (pop_least x xs).1 in
    let start = record s {
      queue = rest;
      visited_count = s.visited_count + 1;
      order = u ∷ s.order;
    } in
    let whole : (v : ℕ)
        → occurrences v s.order + occurrences v (x ∷ xs) ≡ ready n v (s.temp_in_degree v) =
      (λ v.
        subst (λ q. occurrences v s.order + occurrences v q ≡ ready n v (s.temp_in_degree v)) queued
          (h.once v)) in
    let self = occurrences_self u rest in
    let popped = occurrences-pop_least w x xs in
    let (fresh, closed) : (occurrences u s.order ≡ 0) × (s.temp_in_degree u ≡ 0) =
      (let a = occurrences-pop_least u x xs in let b = whole u in (ground arith, ground arith)) in
    let edges = pending_cons es u s.order w fresh in
    let sorted = occurrences-sort w (targets u es) in
    let known = h.open_edges w in
    let (left, pushed) = relax_counts w (sort (targets u es)) start (omega arith) in
    let same = subst (λ q. occurrences w q ≡ occurrences w (x ∷ xs)) (sym queued) refl in
    let known_u = h.open_edges u in (omega arith, omega arith, edges, ground arith)

visit-order :
    (es : List GraphEdge) (x : ℕ) (xs : List ℕ) (s : Kahn)
    → (visit es x xs s).order ≡ (pop_least x xs).0 ∷ s.order
unfolding visit
visit-order es x xs s = relax-order (adjacency es (pop_least x xs).0) (record s {
  queue = (pop_least x xs).1;
  visited_count = s.visited_count + 1;
  order = (pop_least x xs).0 ∷ s.order;
})

pub visit-visited_count :
    (es : List GraphEdge) (x : ℕ) (xs : List ℕ) (s : Kahn)
    → (visit es x xs s).visited_count ≡ s.visited_count + 1
unfolding visit
visit-visited_count es x xs s = relax-visited_count (adjacency es (pop_least x xs).0) (record s {
  queue = (pop_least x xs).1;
  visited_count = s.visited_count + 1;
  order = (pop_least x xs).0 ∷ s.order;
})

visit-IsSound :
    (n : ℕ) (es : List GraphEdge) (x : ℕ) (xs : List ℕ) (s : Kahn)
    → has_foreign n es ≡ false
    → s.queue ≡ x ∷ xs
    → IsSound n es s
    → IsSound n es (visit es x xs s)
unfolding topological
visit-IsSound n es x xs s valid queued h =
    let t = visit es x xs s in
    let u = (pop_least x xs).0 in
    let popped : t.order ≡ u ∷ s.order = visit-order es x xs s in
    let free = (visit_counts n es x xs s 0 queued h).0 in
    let in_order : topological es (u ∷ s.order) ≡ true = (let a = h.in_order in ground arith) in
    record {
      open_edges = λ w.
          let (_, left, _, _) = visit_counts n es x xs s w queued h in
          subst (λ o. t.temp_in_degree w ≡ pending es o w) (sym popped) left;
      once = λ w.
          let (_, left, edges, counts) = visit_counts n es x xs s w queued h in
          let once = h.once w in
          let known = h.open_edges w in
          let foreign = pending_foreign n es s.order w valid in
          subst (λ o. occurrences w o + occurrences w t.queue ≡ ready n w (t.temp_in_degree w))
            (sym popped) (ground arith);
      counted =
          (let a = visit-visited_count es x xs s in
            let b = h.counted in
            subst (λ o. t.visited_count ≡ length o) (sym popped) (omega arith));
      in_order = subst (λ o. topological es o ≡ true) (sym popped) in_order;
    }

abbrev Ends : ℕ → List GraphEdge → Kahn → ℕ → Kahn → Type 0
Ends n es s fuel t = IsSound n es t × ((t.queue ≡ []) ⊎ (t.visited_count ≡ s.visited_count + fuel))

pub kahn_loop-IsSound :
    (n : ℕ) (es : List GraphEdge) (fuel : ℕ) (s : Kahn)
    → has_foreign n es ≡ false
    → IsSound n es s
    → let t = kahn_loop es fuel s in
      IsSound n es t × ((t.queue ≡ []) ⊎ (t.visited_count ≡ s.visited_count + fuel))
unfolding kahn_loop
kahn_loop-IsSound n es zero s valid h = (h, inr (omega arith))
kahn_loop-IsSound n es (suc fuel) s valid h =
    (elim s.queue
        as (λ q.
          s.queue ≡ q
          → Ends n es s (suc fuel)
              (elim q [ [] ↦ s | x ∷ xs ↦ kahn_loop es fuel (visit es x xs s) ])) [
                | [] ↦ λ eq. (h, inl eq)
                | x ∷ xs ↦ λ eq.
                    let (sound, ends) =
                      kahn_loop-IsSound n es fuel (visit es x xs s) valid
                        (visit-IsSound n es x xs s valid eq h) in
                    let one = visit-visited_count es x xs s in
                    (sound, elim ends [ inl e ↦ inl e | inr e ↦ inr (omega arith) ])
              ])
      refl

-- What freeze() knows of Kahn's algorithm on valid edges.
pub kahn-IsSound :
    (n : ℕ) (es : List GraphEdge)
    → has_foreign n es ≡ false
    → IsSound n es (kahn n es) × ((kahn n es).queue ≡ [])
unfolding kahn topological occurrences
kahn-IsSound n es valid =
    let start : Kahn = record {
      temp_in_degree = in_degree es;
      queue = zero_in_degree es n;
      visited_count = 0;
      order = [];
    } in
    let begun : IsSound n es start = record {
      open_edges = in_degree-eq-pending es;
      once = λ w. (let a = zero_in_degree-ready es n w in omega arith);
      counted = refl;
      in_order = refl;
    } in
    let (sound, ends) = kahn_loop-IsSound n es (suc n) start valid begun in
    (sound, elim ends [ inl e ↦ e | inr e ↦ absurd (bounded (kahn n es) sound (omega arith)) ])
  where
    bounded : (t : Kahn) → IsSound n es t → ¬ (t.visited_count ≡ suc n)
    bounded t h full =
        let once : (w : ℕ) → occurrences w t.order ≤ 1 = (λ w. let a = h.once w in ground arith) in
        let inside : (w : ℕ) → is_node n w ≡ false → occurrences w t.order ≡ 0 =
          (λ w out. let a = h.once w in ground arith) in
        let a = h.counted in
        let b = length-eq-total n t.order inside in let c = total-le n t.order once in omega arith
