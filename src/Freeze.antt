-- ===== src/Freeze.antt =====
-- TaskGraph of include/astra/graph.hpp and its freeze() of src/graph/graph.cpp: the edges are
-- validated, Kahn's algorithm looks for a cycle, and a depth-first search extracts a witness. Nodes
-- are the numbers 1 to n, as their NodeId says.
pub mod Counting
pub mod Relaxing
pub mod Loop
pub mod Ordering
pub mod Decision
pub mod Examples
use astra_scheduler.Base.{
  ℕ, zero, suc, ◌+◌, ◌-◌, Bool, true, false, not, ◌&&◌, ◌||◌, List, [], ◌∷◌, ◌++◌, reverse, Option,
  none, some, ltb, leb, ◌==◌, if◌then◌else◌, length, word_max, update,
}

pub data EdgePolicy : Type 0 where
  require_success after_completion : EdgePolicy

pub record GraphEdge : Type 0 where
  pub from : ℕ
  pub to : ℕ
  pub policy : EdgePolicy

pub data GraphValidationError : Type 0 where
  foreign_node self_edge duplicate_edge : GraphValidationError
  cycle : (witness : List ℕ) → GraphValidationError

pub data Frozen : Type 0 where
  frozen : (node_count : ℕ) → (edges : List GraphEdge) → Frozen
  throws : GraphValidationError → Frozen

-- 1. Both ends are nodes of this graph.
abbrev pub is_node : ℕ → ℕ → Bool
is_node n v = not (v == 0 || ltb n v)

unfoldable pub has_foreign : ℕ → List GraphEdge → Bool
has_foreign n [] = false
has_foreign n (e ∷ es) = not (is_node n e.from) || not (is_node n e.to) || has_foreign n es

-- 2. No edge leads to its own source.
unfoldable pub has_self_edge : List GraphEdge → Bool
has_self_edge [] = false
has_self_edge (e ∷ es) = e.from == e.to || has_self_edge es

abbrev same_ends : GraphEdge → GraphEdge → Bool
same_ends e f = e.from == f.from && e.to == f.to

-- The set of pairs seen so far holds the edge.
unfoldable pub is_seen : GraphEdge → List GraphEdge → Bool
is_seen e [] = false
is_seen e (f ∷ fs) = same_ends e f || is_seen e fs

-- 3. No two edges have the same ends, whatever their policies.
unfoldable pub has_duplicate : List GraphEdge → List GraphEdge → Bool
unfolding is_seen
has_duplicate seen [] = false
has_duplicate seen (e ∷ es) = is_seen e seen || has_duplicate (e ∷ seen) es

-- adj[u], in the order of the edges.
unfoldable pub targets : ℕ → List GraphEdge → List ℕ
targets u [] = []
targets u (e ∷ es) = if e.from == u then e.to ∷ targets u es else targets u es

-- std::sort of an adjacency list, by insertion.
unfoldable pub insert_sorted : ℕ → List ℕ → List ℕ
insert_sorted x [] = x ∷ []
insert_sorted x (y ∷ ys) = if leb x y then x ∷ y ∷ ys else y ∷ insert_sorted x ys

unfoldable pub sort : List ℕ → List ℕ
unfolding insert_sorted
sort [] = []
sort (x ∷ xs) = insert_sorted x (sort xs)

unfoldable pub adjacency : List GraphEdge → ℕ → List ℕ
unfolding targets sort
adjacency es u = sort (targets u es)

unfoldable pub in_degree : List GraphEdge → ℕ → ℕ
in_degree [] v = 0
in_degree (e ∷ es) v = if e.to == v then suc (in_degree es v) else in_degree es v

-- The nodes from 1 to k with no predecessor.
unfoldable pub zero_in_degree : List GraphEdge → ℕ → List ℕ
unfolding in_degree
zero_in_degree es zero = []
zero_in_degree es (suc k) =
    if in_degree es (suc k) == 0 then suc k ∷ zero_in_degree es k else zero_in_degree es k

-- top() and pop() of the priority queue that puts the least first, on a queue with an entry.
unfoldable pub pop_least : ℕ → List ℕ → ℕ × List ℕ
pop_least x [] = (x, [])
pop_least x (y ∷ ys) =
    let (least, rest) = pop_least y ys in
    if leb x least then (x, least ∷ rest) else (least, x ∷ rest)

-- The loop's variables; `order` is what was popped, the latest first, of which the source keeps the
-- number only.
pub record Kahn : Type 0 where
  pub temp_in_degree : ℕ → ℕ
  pub queue : List ℕ
  pub visited_count : ℕ
  pub order : List ℕ

-- --temp_in_degree[v] on std::size_t.
abbrev pub decrement : ℕ → ℕ
decrement zero = word_max
decrement (suc k) = k

-- if (--temp_in_degree[v] == 0) push(v)
abbrev pub close_edge : ℕ → Kahn → Kahn
close_edge v s =
    let left = decrement (s.temp_in_degree v) in
    record s {
      temp_in_degree = update s.temp_in_degree v left;
      queue = if left == 0 then v ∷ s.queue else s.queue;
    }

-- The loop over adj[u].
unfoldable pub relax : List ℕ → Kahn → Kahn
relax [] s = s
relax (v ∷ vs) s = relax vs (close_edge v s)

-- One turn of the loop: the least ready node is popped, counted and relaxed.
unfoldable pub visit : List GraphEdge → ℕ → List ℕ → Kahn → Kahn
unfolding pop_least relax adjacency
visit es x xs s =
    let (u, rest) = pop_least x xs in
    relax (adjacency es u)
      (record s { queue = rest; visited_count = s.visited_count + 1; order = u ∷ s.order })

-- while (!zero_in_degree.empty()), on fuel.
unfoldable pub kahn_loop : List GraphEdge → ℕ → Kahn → Kahn
unfolding visit
kahn_loop es zero s = s
kahn_loop es (suc fuel) s = elim s.queue [ [] ↦ s | x ∷ xs ↦ kahn_loop es fuel (visit es x xs s) ]

-- Each turn visits a node of its own, so n turns are enough and one more sees the empty queue.
unfoldable pub kahn : ℕ → List GraphEdge → Kahn
unfolding kahn_loop zero_in_degree in_degree
kahn n es = kahn_loop es (suc n) (record {
  temp_in_degree = in_degree es;
  queue = zero_in_degree es n;
  visited_count = 0;
  order = [];
})

-- The variables of the depth-first search. `path` has its back first.
pub record Search : Type 0 where
  pub state : ℕ → ℕ
  pub path : List ℕ
  pub witness : List ℕ

-- From the back of the path to `v`, if it is there: the cycle from `v` to the back, reversed.
unfoldable pub cut_at : ℕ → List ℕ → Option (List ℕ)
cut_at v [] = none
cut_at v (x ∷ xs) =
    if x == v then some (x ∷ []) else (elim (cut_at v xs) [ none ↦ none | some c ↦ some (x ∷ c) ])

-- The loop over adj[u], with `down` the call for a node one level deeper. It returns whether a cycle
-- was found.
unfoldable pub scan : (ℕ → Search → Bool × Search) → List ℕ → Search → Bool × Search
unfolding cut_at
scan down [] s = (false, s)
scan down (v ∷ vs) s =
    let go_on = scan down vs s in
    let found = down v s in
    let after = scan down vs found.1 in
    if s.state v == 1
    then (elim (cut_at v s.path) [
      | some c ↦ (true, record s { witness = reverse c ++ v ∷ [] })
      | none ↦ go_on
    ])
    else if s.state v == 0
    then (if found.0 then found else after)
    else go_on

abbrev tail : List ℕ → List ℕ
tail [] = []
tail (x ∷ xs) = xs

-- find_cycle_dfs, on fuel: every level marks a node that was not marked, so n levels are enough.
unfoldable pub find_cycle_dfs : List GraphEdge → ℕ → ℕ → Search → Bool × Search
unfolding scan adjacency
find_cycle_dfs es zero u s = (false, s)
find_cycle_dfs es (suc fuel) u s =
    let (found, t) =
      scan (find_cycle_dfs es fuel) (adjacency es u)
        (record s { state = update s.state u 1; path = u ∷ s.path }) in
    if found
    then (true, t)
    else (false, record t { path = tail t.path; state = update t.state u 2 })

-- for (i = 1; i <= n; ++i) if (state[i] == 0) if (find_cycle_dfs(i)) break; with k nodes left.
unfoldable pub find_witness : List GraphEdge → ℕ → ℕ → ℕ → Search → Search
unfolding find_cycle_dfs
find_witness es fuel i zero s = s
find_witness es fuel i (suc k) s =
    let r = find_cycle_dfs es fuel i s in
    let skipped = find_witness es fuel (i + 1) k s in
    let after = find_witness es fuel (i + 1) k r.1 in
    if s.state i == 0 then (if r.0 then r.1 else after) else skipped

unfoldable pub cycle_witness : ℕ → List GraphEdge → List ℕ
unfolding find_witness
cycle_witness n es =
    (find_witness es (suc n) 1 n (record { state = λ v. 0; path = []; witness = [] })).witness

abbrev pub is_empty {ℓ} : {A : Type ℓ} → List A → Bool
is_empty [] = true
is_empty (x ∷ xs) = false

-- TaskGraph::freeze
unfoldable pub freeze : ℕ → List GraphEdge → Frozen
freeze n es =
    if has_foreign n es
    then Frozen.throws GraphValidationError.foreign_node
    else if has_self_edge es
    then Frozen.throws GraphValidationError.self_edge
    else if has_duplicate [] es
    then Frozen.throws GraphValidationError.duplicate_edge
    else if ltb 0 n && not (is_empty es) && ltb (kahn n es).visited_count n
    then Frozen.throws (GraphValidationError.cycle (cycle_witness n es))
    else Frozen.frozen n es
