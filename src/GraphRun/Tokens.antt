-- ===== src/GraphRun/Tokens.antt =====
-- The places of the nodes of a run: each stands once among the posted, the ended or the waiting ones,
-- and waits for exactly the edges whose source has not ended or whose signal has not been taken.
use astra_scheduler.Base.{
  ℕ, suc, ◌+◌, ◌≡◌, refl, ap, Bool, true, false, List, [], ◌∷◌, ◌++◌, arith, ◌==◌, if◌then◌else◌,
}
use astra_scheduler.Freeze.{GraphEdge, is_node, targets}
use astra_scheduler.Freeze.Counting.{occurrences, pending, pending_cons}
use astra_scheduler.Freeze.Loop.{ready}
use astra_scheduler.Task.{TaskState, Effect}
use astra_scheduler.GraphRun.{
  Plan, GraphRunSharedState, count_outcome, stamped, mark_node_terminal, successors,
  trigger_successors, BodyResult, end_of_body,
}

unfoldable pub signals_to : ℕ → List GraphEdge → ℕ
signals_to w [] = 0
signals_to w (e ∷ es) = if e.to == w then suc (signals_to w es) else signals_to w es

-- The part of the state that the places depend on.
pub record Places : Type 0 where
  pub posted : List ℕ
  pub signals : List GraphEdge
  pub remaining_predecessors : ℕ → ℕ
  pub terminated : List ℕ

abbrev pub places : GraphRunSharedState → Places
places s = record {
  posted = s.posted;
  signals = s.signals;
  remaining_predecessors = s.remaining_predecessors;
  terminated = s.terminated;
}

pub record IsPlaced (n : ℕ) (es : List GraphEdge) (p : Places) : Type 0 where
  pub waiting :
      (w : ℕ) → p.remaining_predecessors w ≡ pending es p.terminated w + signals_to w p.signals
  pub token :
      (w : ℕ)
      → occurrences w p.terminated + occurrences w p.posted ≡ ready n w (p.remaining_predecessors w)
  pub inside : (w : ℕ) → is_node n w ≡ false → p.remaining_predecessors w ≡ 0

pub occurrences-append :
    (w : ℕ) (xs ys : List ℕ) → occurrences w (xs ++ ys) ≡ occurrences w xs + occurrences w ys
unfolding occurrences
occurrences-append w [] ys = omega arith
occurrences-append w (x ∷ xs) ys = let ih = occurrences-append w xs ys in ground arith

pub signals_to-append :
    (w : ℕ) (xs ys : List GraphEdge) → signals_to w (xs ++ ys) ≡ signals_to w xs + signals_to w ys
unfolding signals_to
signals_to-append w [] ys = omega arith
signals_to-append w (x ∷ xs) ys = let ih = signals_to-append w xs ys in ground arith

signals_to-successors :
    (w u : ℕ) (es : List GraphEdge) → signals_to w (successors u es) ≡ occurrences w (targets u es)
unfolding signals_to successors occurrences targets
signals_to-successors w u [] = refl
signals_to-successors w u (e ∷ es) = let ih = signals_to-successors w u es in ground arith

-- A node v that has neither ended nor is posted ends, and signals its successors.
abbrev pub end_place : List GraphEdge → ℕ → Places → Places
end_place es v p = record p {
  terminated = v ∷ p.terminated;
  signals = successors v es ++ p.signals;
}

pub end_place-IsPlaced :
    (n : ℕ) (es : List GraphEdge) (v : ℕ) (p : Places)
    → occurrences v p.terminated ≡ 0
    → ((w : ℕ) → p.remaining_predecessors w ≡ pending es p.terminated w + signals_to w p.signals)
    → ((w : ℕ)
        → occurrences w (v ∷ p.terminated) + occurrences w p.posted
          ≡ ready n w (p.remaining_predecessors w))
    → ((w : ℕ) → is_node n w ≡ false → p.remaining_predecessors w ≡ 0)
    → IsPlaced n es (end_place es v p)
end_place-IsPlaced n es v p fresh waiting token inside = record {
  waiting = λ w.
      let a = pending_cons es v p.terminated w fresh in
      let b = signals_to-append w (successors v es) p.signals in
      let c = signals_to-successors w v es in let d = waiting w in omega arith;
  token = token;
  inside = inside;
}

places-count_outcome :
    (v : ℕ) (outcome : TaskState) (ex : Bool) (s : GraphRunSharedState)
    → places (count_outcome v outcome ex s) ≡ places s
unfolding count_outcome
places-count_outcome v TaskState.succeeded ex s = refl
places-count_outcome v TaskState.failed ex s = refl
places-count_outcome v TaskState.cancelled ex s = refl
places-count_outcome v TaskState.waiting ex s = refl
places-count_outcome v TaskState.ready ex s = refl
places-count_outcome v TaskState.running ex s = refl
places-count_outcome v TaskState.suspended ex s = refl

pub places-mark_node_terminal :
    (v : ℕ) (outcome : TaskState) (ex : Bool) (s : GraphRunSharedState)
    → places (mark_node_terminal v outcome ex s)
      ≡ record (places s) { terminated = v ∷ s.terminated }
unfolding mark_node_terminal
places-mark_node_terminal v outcome ex s = places-count_outcome v outcome ex (stamped v outcome s)

pub places-ended :
    (plan : Plan) (v : ℕ) (outcome : TaskState) (ex : Bool) (s : GraphRunSharedState)
    → places (trigger_successors plan v (mark_node_terminal v outcome ex s))
      ≡ end_place plan.edges v (places s)
unfolding trigger_successors
places-ended plan v outcome ex s =
    ap (λ (p : Places). record p { signals = successors v plan.edges ++ p.signals })
      (places-mark_node_terminal v outcome ex s)

pub places-end_of_body :
    (plan : Plan) (v elapsed : ℕ) (body : BodyResult) (s : GraphRunSharedState)
    → places (trigger_successors plan v (end_of_body v elapsed body s))
      ≡ end_place plan.edges v (places s)
unfolding end_of_body
places-end_of_body plan v elapsed BodyResult.returned s =
    places-ended plan v TaskState.succeeded false (record s {
      effects =
          s.effects ++ (Effect.records_execution_segment elapsed ∷ Effect.records_succeeded ∷ []);
    })
places-end_of_body plan v elapsed BodyResult.threw_task_cancelled s =
    places-ended plan v TaskState.cancelled false (record s {
      effects =
          s.effects
          ++ (Effect.records_execution_segment elapsed ∷ Effect.records_cancelled_cooperative ∷ []);
    })
places-end_of_body plan v elapsed BodyResult.threw s =
    places-ended plan v TaskState.failed true (record s {
      effects =
          s.effects ++ (Effect.records_execution_segment elapsed ∷ Effect.records_failed ∷ []);
    })
