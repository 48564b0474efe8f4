-- ===== src/Freeze/Ordering.antt =====
-- Between an order of the nodes in which every edge goes forward and the list of nodes that Kahn's
-- algorithm pops.
use astra_scheduler.Base.{
  ℕ, zero, suc, ◌≤◌, ◌<◌, ◌≡◌, refl, subst, Bool, true, false, ◌&&◌, List, [], ◌∷◌, arith,
  ℕ_discrete, ltb, ◌==◌, if◌then◌else◌, length,
}
use astra_scheduler.Freeze.{GraphEdge, is_node, has_foreign}
use astra_scheduler.Freeze.Counting.{occurrences, pending}
use astra_scheduler.Freeze.Loop.{topological, ready}

-- Every edge goes up.
unfoldable pub climbs : (ℕ → ℕ) → List GraphEdge → Bool
climbs rank [] = true
climbs rank (e ∷ es) = ltb (rank e.from) (rank e.to) && climbs rank es

-- The place of a node in the list of popped ones, counted from its end, which was popped first.
unfoldable pub place : List ℕ → ℕ → ℕ
place [] w = 0
place (x ∷ xs) w = if x == w then suc (length xs) else place xs w

place-le : (xs : List ℕ) (w : ℕ) → place xs w ≤ length xs
unfolding place
place-le [] w = omega arith
place-le (x ∷ xs) w = let ih = place-le xs w in ground arith

topological-tail :
    (e : GraphEdge) (es : List GraphEdge) (done : List ℕ)
    → topological (e ∷ es) done ≡ true
    → topological es done ≡ true
unfolding topological pending
topological-tail e es [] h = refl
topological-tail e es (u ∷ done) h = let ih = topological-tail e es done in ground arith

-- An edge whose target was popped had its source popped before.
edge_climbs :
    (e : GraphEdge) (es : List GraphEdge) (done : List ℕ)
    → topological (e ∷ es) done ≡ true
    → ((w : ℕ) → occurrences w done ≤ 1)
    → 1 ≤ occurrences e.to done
    → (1 ≤ occurrences e.from done) × (place done e.from < place done e.to)
unfolding topological pending place occurrences
edge_climbs e es [] h once popped = absurd (omega arith)
edge_climbs e es (u ∷ done) h once popped =
    let one = once e.from in
    let bound = place-le done e.from in
    let rest = edge_climbs e es done in
    let once' : (w : ℕ) → occurrences w done ≤ 1 = (λ w. let a = once w in ground arith) in
    let earlier : topological (e ∷ es) done ≡ true = ground arith in
    elim (ℕ_discrete u e.to) [
      | yes same ↦
          let source : 1 ≤ occurrences e.from done = ground arith in (ground arith, ground arith)
      | no other ↦
          let (source, less) = rest earlier once' (ground arith) in (ground arith, ground arith)
    ]

-- The popped nodes in their order climb, once they are all of them.
pub topological-climbs :
    (n : ℕ) (done : List ℕ) (es : List GraphEdge)
    → has_foreign n es ≡ false
    → topological es done ≡ true
    → ((w : ℕ) → occurrences w done ≤ 1)
    → ((w : ℕ) → is_node n w ≡ true → 1 ≤ occurrences w done)
    → climbs (place done) es ≡ true
unfolding climbs has_foreign
topological-climbs n done [] valid h once all = refl
topological-climbs n done (e ∷ es) valid h once all =
    let rest =
      topological-climbs n done es (ground arith) (topological-tail e es done h) once all in
    let less = (edge_climbs e es done h once (all e.to (ground arith))).1 in ground arith

-- A node is popped once all nodes below it are.
climbs-pending :
    (rank : ℕ → ℕ) (n : ℕ) (es : List GraphEdge) (done : List ℕ) (w : ℕ)
    → climbs rank es ≡ true
    → has_foreign n es ≡ false
    → ((v : ℕ) → rank v < rank w → is_node n v ≡ true → 1 ≤ occurrences v done)
    → pending es done w ≡ 0
unfolding climbs has_foreign pending
climbs-pending rank n [] done w up valid below = refl
climbs-pending rank n (e ∷ es) done w up valid below =
    let ih = climbs-pending rank n es done w (ground arith) (ground arith) below in
    let source = below e.from in
    elim (ℕ_discrete e.to w) [
      | yes same ↦
          let a = subst (λ v. rank e.from < rank v) same (ground arith) in
          let b = source a (ground arith) in ground arith
      | no other ↦ ground arith
    ]

pub climbs-popped :
    (rank : ℕ → ℕ) (n : ℕ) (es : List GraphEdge) (left : ℕ → ℕ) (done : List ℕ) (bound w : ℕ)
    → climbs rank es ≡ true
    → has_foreign n es ≡ false
    → ((v : ℕ) → left v ≡ pending es done v)
    → ((v : ℕ) → occurrences v done ≡ ready n v (left v))
    → rank w < bound
    → is_node n w ≡ true
    → 1 ≤ occurrences w done
climbs-popped rank n es left done zero w up valid open_edges once low node = absurd (omega arith)
climbs-popped rank n es left done (suc bound) w up valid open_edges once low node =
    let none_open = climbs-pending rank n es done w up valid (λ v less inside.
      climbs-popped rank n es left done bound v up valid open_edges once (omega arith) inside) in
    let known = open_edges w in let here = once w in ground arith
