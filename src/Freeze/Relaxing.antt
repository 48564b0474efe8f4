-- ===== src/Freeze/Relaxing.antt =====
-- The inner loop of freeze() over a node's successors, and what one turn of Kahn's algorithm keeps.
use astra_scheduler.Base.{
  ℕ, suc, Bool, ◌&&◌, true, false, subst, sym, ℕ_discrete, ◌+◌, ◌≤◌, ◌≡◌, refl, ◌&&◌, List, [], ◌∷◌,
  arith, ltb, ◌==◌, if◌then◌else◌,
}
use astra_scheduler.Freeze.{Kahn, decrement, relax, close_edge}
use astra_scheduler.Freeze.Counting.{occurrences}

-- What a turn adds to the queue for a node with `left` open edges of which `gone` are closed.
abbrev pub bump : ℕ → ℕ → ℕ
bump gone left = if ltb 0 gone && gone == left then 1 else 0

occurrences-push :
    (w v : ℕ) (ready : Bool) (queue : List ℕ)
    → occurrences w (if ready then v ∷ queue else queue)
      ≡ (if ready && v == w then suc (occurrences w queue) else occurrences w queue)
unfolding occurrences
occurrences-push w v true queue = refl
occurrences-push w v false queue = refl

pub relax_counts :
    (w : ℕ) (vs : List ℕ) (s : Kahn)
    → occurrences w vs ≤ s.temp_in_degree w
    → ((relax vs s).temp_in_degree w + occurrences w vs ≡ s.temp_in_degree w)
      × (occurrences w (relax vs s).queue
          ≡ occurrences w s.queue + bump (occurrences w vs) (s.temp_in_degree w))
unfolding relax occurrences
relax_counts w [] s h = (omega arith, ground arith)
relax_counts w (v ∷ vs) s h =
    let t = close_edge v s in
    let left = decrement (s.temp_in_degree v) in
    let queued = occurrences-push w v (left == 0) s.queue in
    elim (ℕ_discrete v w) [
      | yes same ↦
          let here = subst (λ x. s.temp_in_degree x ≡ s.temp_in_degree w) (sym same) refl in
          let (closed, pushed) = relax_counts w vs t (ground arith) in (ground arith, ground arith)
      | no other ↦
          let (closed, pushed) = relax_counts w vs t (ground arith) in (ground arith, ground arith)
    ]

pub relax-order : (vs : List ℕ) (s : Kahn) → (relax vs s).order ≡ s.order
unfolding relax
relax-order [] s = refl
relax-order (v ∷ vs) s = relax-order vs (close_edge v s)

pub relax-visited_count : (vs : List ℕ) (s : Kahn) → (relax vs s).visited_count ≡ s.visited_count
unfolding relax
relax-visited_count [] s = refl
relax-visited_count (v ∷ vs) s = relax-visited_count vs (close_edge v s)
