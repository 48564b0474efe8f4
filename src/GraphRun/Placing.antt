-- ===== src/GraphRun/Placing.antt =====
-- Every event of a run keeps the places of its nodes, from the roots on.
use astra_scheduler.Base.{
  ℕ, zero, suc, ◌+◌, ◌≤◌, ◌≡◌, refl, sym, ap, ◌∙◌, subst, inl, inr, Bool, true, false, ◌&&◌, ◌||◌,
  List, [], ◌∷◌, ◌++◌, arith, ℕ_discrete, ltb, leb, ◌==◌, if◌then◌else◌, Bool-cases, update,
  if_then_else_lem,
}
use mathlib.Core.List.{append-nil, append_assoc}
use astra_scheduler.Freeze.{GraphEdge, is_node, has_foreign, in_degree, decrement}
use astra_scheduler.Freeze.Counting.{occurrences, pending, in_degree-eq-pending, pending_foreign}
use astra_scheduler.Freeze.Loop.{ready}
use astra_scheduler.GraphRun.{
  Plan, GraphRunSharedState, add_completion_callback, post_node, signalled, release_slot,
  follow_edge, Execution, start_node, run_node, complete_run, take_off, request_cancel, roots,
  post_all, materialize, launch, Step, Reach,
}
use astra_scheduler.Task.{TaskState}
use astra_scheduler.GraphRun.Tokens.{
  signals_to, Places, places, IsPlaced, occurrences-append, signals_to-append, end_place,
  end_place-IsPlaced, places-ended, places-end_of_body,
}

abbrev pub Placed : Plan → GraphRunSharedState → Type 0
Placed plan s = IsPlaced plan.node_count plan.edges (places s)

-- A posted node that ends.
take_posted :
    (n : ℕ) (es : List GraphEdge) (p : Places) (xs : List ℕ) (v : ℕ) (ys : List ℕ)
    → p.posted ≡ xs ++ v ∷ ys
    → IsPlaced n es p
    → IsPlaced n es (end_place es v (record p { posted = xs ++ ys }))
unfolding occurrences
take_posted n es p xs v ys split h =
    let counts : (w : ℕ)
        → occurrences w (v ∷ p.terminated) + occurrences w (xs ++ ys)
          ≡ occurrences w p.terminated + occurrences w p.posted =
      (λ w.
        let a = occurrences-append w xs ys in
        let b = occurrences-append w xs (v ∷ ys) in
        let c = subst (λ q. occurrences w q ≡ occurrences w (xs ++ v ∷ ys)) (sym split) refl in
        ground arith) in
    let fresh : occurrences v p.terminated ≡ 0 =
      (let a = counts v in let b = h.token v in ground arith) in
    end_place-IsPlaced n es v (record p { posted = xs ++ ys }) fresh h.waiting
      (λ w. let a = counts w in let b = h.token w in omega arith) h.inside

-- A signal that is taken, of an edge to a node that goes on waiting.
abbrev take_signal : Places → List GraphEdge → ℕ → Places
take_signal p signals v = record p {
  signals = signals;
  remaining_predecessors =
      update p.remaining_predecessors v (decrement (p.remaining_predecessors v));
}

pub take_signal-counts :
    (n : ℕ) (es : List GraphEdge) (p : Places) (xs : List GraphEdge) (e : GraphEdge)
    (ys : List GraphEdge) (w : ℕ)
    → p.signals ≡ xs ++ e ∷ ys
    → IsPlaced n es p
    → let q = take_signal p (xs ++ ys) e.to in
      (q.remaining_predecessors w ≡ pending es p.terminated w + signals_to w (xs ++ ys))
      × (1 ≤ p.remaining_predecessors e.to)
unfolding signals_to
take_signal-counts n es p xs e ys w split h =
    let a = signals_to-append w xs ys in
    let b = signals_to-append w xs (e ∷ ys) in
    let c = subst (λ q. signals_to w q ≡ signals_to w (xs ++ e ∷ ys)) (sym split) refl in
    let d = h.waiting w in
    let b' = signals_to-append e.to xs (e ∷ ys) in
    let c' = subst (λ q. signals_to e.to q ≡ signals_to e.to (xs ++ e ∷ ys)) (sym split) refl in
    let d' = h.waiting e.to in
    let positive : 1 ≤ p.remaining_predecessors e.to = ground arith in
    (
      elim (ℕ_discrete e.to w) [
        | yes same ↦
            let r =
              subst (λ v. p.remaining_predecessors v ≡ p.remaining_predecessors w) (sym same)
                refl in
            ground arith
        | no other ↦ ground arith
      ],
      positive,
    )

pub inside_node :
    (n : ℕ) (es : List GraphEdge) (p : Places) (v : ℕ)
    → 1 ≤ p.remaining_predecessors v
    → IsPlaced n es p
    → is_node n v ≡ true
inside_node n es p v positive h = elim (Bool-cases (is_node n v)) [
  | inl node ↦ node
  | inr out ↦ absurd (let a = h.inside v out in omega arith)
]

take_signal-tokens :
    (n : ℕ) (es : List GraphEdge) (p : Places) (v w : ℕ)
    → 1 ≤ p.remaining_predecessors v
    → IsPlaced n es p
    → let left = update p.remaining_predecessors v (decrement (p.remaining_predecessors v)) in
      occurrences w p.terminated
        + occurrences w p.posted
        + (if v == w && p.remaining_predecessors v == 1 then 1 else 0)
      ≡ ready n w (left w)
take_signal-tokens n es p v w positive h =
    let tok = h.token w in
    let node : is_node n v ≡ true = inside_node n es p v positive h in
    elim (ℕ_discrete v w) [
      | yes same ↦
          let r =
            subst (λ x. p.remaining_predecessors x ≡ p.remaining_predecessors w) (sym same) refl in
          let k = subst (λ x. is_node n x ≡ true) same node in ground arith
      | no other ↦ ground arith
    ]

follow_edge-Placed :
    (plan : Plan) (s : GraphRunSharedState) (xs : List GraphEdge) (e : GraphEdge)
    (ys : List GraphEdge)
    → s.signals ≡ xs ++ e ∷ ys
    → Placed plan s
    → Placed plan (follow_edge plan e (record s { signals = xs ++ ys }))
unfolding follow_edge post_node occurrences
follow_edge-Placed plan s xs e ys split h =
    let n = plan.node_count in
    let es = plan.edges in
    let v = e.to in
    let p = take_signal (places s) (xs ++ ys) v in
    let t = signalled e (record s { signals = xs ++ ys }) in
    let positive = (take_signal-counts n es (places s) xs e ys v split h).1 in
    let waiting : (w : ℕ)
        → p.remaining_predecessors w ≡ pending es p.terminated w + signals_to w p.signals =
      (λ w. (take_signal-counts n es (places s) xs e ys w split h).0) in
    let tokens : (w : ℕ)
        → occurrences w p.terminated
            + occurrences w p.posted
            + (if v == w && s.remaining_predecessors v == 1 then 1 else 0)
          ≡ ready n w (p.remaining_predecessors w) =
      (λ w. take_signal-tokens n es (places s) v w positive h) in
    let inside : (w : ℕ) → is_node n w ≡ false → p.remaining_predecessors w ≡ 0 =
      (λ w out. let a = h.inside w out in let b = h.inside v in ground arith) in
    if_then_else_lem (Placed plan) (s.remaining_predecessors v == 1)
      (λ last.
        if_then_else_lem (Placed plan) (t.has_failed_required_predecessor v || t.cancel_requested)
          (λ skipped.
            subst (IsPlaced n es)
              (sym (places-ended plan v TaskState.cancelled false (release_slot plan t)))
              (end_place-IsPlaced n es v p (let a = h.token v in ground arith) waiting
                (λ w. let a = tokens w in ground arith) inside))
          (λ runs. record {
            waiting = waiting;
            token = λ w.
                let a = tokens w in let b = occurrences-append w s.posted (v ∷ []) in ground arith;
            inside = inside;
          }))
      (λ more. record {
        waiting = waiting;
        token = λ w. let a = tokens w in ground arith;
        inside = inside;
      })

run_node-Placed :
    (plan : Plan) (s : GraphRunSharedState) (xs : List ℕ) (v : ℕ) (ys : List ℕ) (stopped : Bool)
    (x : Execution)
    → s.posted ≡ xs ++ v ∷ ys
    → Placed plan s
    → Placed plan (run_node plan v stopped x (record s { posted = xs ++ ys }))
unfolding run_node
run_node-Placed plan s xs v ys stopped x split h =
    let n = plan.node_count in
    let es = plan.edges in
    let t = record s { posted = xs ++ ys } in
    let ended = take_posted n es (places s) xs v ys split h in
    if_then_else_lem (Placed plan) stopped
      (λ stop. subst (IsPlaced n es) (sym (places-ended plan v TaskState.cancelled false t)) ended)
      (λ runs.
        subst (IsPlaced n es)
          (sym (places-end_of_body plan v x.elapsed x.result (start_node plan v x.started_at t)))
          ended)

add_completion_callback-Placed :
    (plan : Plan) (s : GraphRunSharedState) (c : ℕ)
    → Placed plan s
    → Placed plan (add_completion_callback c s)
unfolding add_completion_callback
add_completion_callback-Placed plan s c h =
    if_then_else_lem (Placed plan) (s.remaining_nodes == 0) (λ over. h) (λ live. h)

-- How often a node stands among the roots from i on.
roots_counts :
    (remaining : ℕ → ℕ) (i k w : ℕ)
    → occurrences w (roots remaining i k)
      ≡ (if leb i w && ltb w (i + k) && remaining w == 0 then 1 else 0)
unfolding roots occurrences
roots_counts remaining i zero w = ground arith
roots_counts remaining i (suc k) w =
    let ih = roots_counts remaining (i + 1) k w in
    elim (ℕ_discrete i w) [
      | yes same ↦ let r = subst (λ v. remaining v ≡ remaining w) (sym same) refl in ground arith
      | no other ↦ ground arith
    ]

pub places-post_all :
    (vs : List ℕ) (s : GraphRunSharedState)
    → places (post_all vs s) ≡ record (places s) { posted = s.posted ++ vs }
unfolding post_all post_node
places-post_all [] s =
    ap (λ (q : List ℕ). record (places s) { posted = q }) (sym (append-nil s.posted))
places-post_all (v ∷ vs) s =
    places-post_all vs (post_node v s)
    ∙ ap (λ (q : List ℕ). record (places s) { posted = q }) (append_assoc s.posted (v ∷ []) vs)

launch-Placed :
    (plan : Plan) → has_foreign plan.node_count plan.edges ≡ false → Placed plan (launch plan)
unfolding launch materialize signals_to occurrences
launch-Placed plan valid =
    let n = plan.node_count in
    let es = plan.edges in
    let s = materialize plan in
    let inside : (w : ℕ) → is_node n w ≡ false → in_degree es w ≡ 0 = (λ w out.
      let a = in_degree-eq-pending es w in
      let b = pending_foreign n es [] w valid out in omega arith) in
    let vs = roots s.remaining_predecessors 1 n in
    if_then_else_lem (Placed plan) (n == 0)
      (λ empty. record {
        waiting = λ w. (let a = in_degree-eq-pending es w in omega arith);
        token = λ w. (ground arith);
        inside = inside;
      })
      (λ more. subst (IsPlaced n es) (sym (places-post_all vs s)) (record {
        waiting = λ w. (let a = in_degree-eq-pending es w in omega arith);
        token = λ w. (let a = roots_counts (in_degree es) 1 n w in ground arith);
        inside = inside;
      }))

Step-Placed :
    {plan : Plan} {s t : GraphRunSharedState} → Step plan s t → Placed plan s → Placed plan t
unfolding request_cancel complete_run take_off
Step-Placed {plan} {s} (Step.ordinary xs v ys stopped x split seen) h =
    run_node-Placed plan s xs v ys stopped x split h
Step-Placed {plan} {s} (Step.signal xs e ys split) h = follow_edge-Placed plan s xs e ys split h
Step-Placed (Step.takes_off xs v ys split) h = h
Step-Placed (Step.complete due) h = h
Step-Placed Step.cancel h = h
Step-Placed {plan} {s} (Step.callback c) h = add_completion_callback-Placed plan s c h

pub Reach-Placed :
    {plan : Plan} {s : GraphRunSharedState}
    → has_foreign plan.node_count plan.edges ≡ false
    → Reach plan s
    → Placed plan s
Reach-Placed {plan} valid Reach.begin = launch-Placed plan valid
Reach-Placed valid (Reach.then_step r step) = Step-Placed step (Reach-Placed valid r)
