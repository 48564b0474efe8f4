-- ===== src/Ready/Claims.antt =====
-- A band does not starve its queue: the head of the queue is claimed within the burst limit of any
-- one claimer.
use astra_scheduler.Base.{
  ℕ, ◌+◌, ◌≡◌, Option, none, some, List, [], ◌∷◌, ◌++◌, ◌==◌, if◌then◌else◌, length,
}
use astra_scheduler.Ready.{QueuedTask, EdfEntry, Claim, claim_band}

-- Each claimer, a worker or a thread that helps it wait, keeps its own burst.
abbrev pub set_burst : (ℕ → ℕ) → ℕ → ℕ → ℕ → ℕ
set_burst bursts w b v = if v == w then b else bursts v

-- The tasks of the claims that the listed claimers make on a band, one after another; before each but
-- the first, `arrivals` puts new entries into the heap.
unfoldable pub claims :
    (ℕ → List EdfEntry) → List ℕ → List EdfEntry → List QueuedTask → (ℕ → ℕ) → List QueuedTask
unfolding claim_band
claims arrivals [] edf fifo bursts = []
claims arrivals (w ∷ ws) edf fifo bursts = elim (claim_band edf fifo (bursts w)) [
  | none ↦ claims arrivals ws (arrivals (length ws)) fifo bursts
  | some c ↦
      c.claimed
      ∷ claims arrivals ws (arrivals (length ws) ++ c.left.edf) c.left.fifo
          (set_burst bursts w c.deadline_burst)
]

-- How often a claimer has its turn.
abbrev pub turns : ℕ → List ℕ → ℕ
turns v [] = 0
turns v (w ∷ ws) = (if v == w then 1 else 0) + turns v ws

-- What the claimer `w`, and then `ws`, claim has t in it, if the claim of `w` gives `o`.
abbrev Serves :
    (ℕ → List EdfEntry)
    → ℕ
    → List ℕ
    → List QueuedTask
    → (ℕ → ℕ)
    → QueuedTask
    → Option Claim
    → Type 0
Serves arrivals w ws fifo bursts t o =
    (before after : List QueuedTask) × ((elim o [
      | none ↦ claims arrivals ws (arrivals (length ws)) fifo bursts
      | some c ↦
          c.claimed
          ∷ claims arrivals ws (arrivals (length ws) ++ c.left.edf) c.left.fifo
              (set_burst bursts w c.deadline_burst)
    ])
      ≡ before ++ t ∷ after)
