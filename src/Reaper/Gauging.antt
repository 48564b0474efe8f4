-- ===== src/Reaper/Gauging.antt =====
-- The gauges of a process snapshot agree with one another.
use astra_scheduler.Base.{
  ℕ, suc, ◌+◌, ◌%◌, ◌^◌, ◌≤◌, ◌<◌, ◌≡◌, refl, ap, List, [], ◌∷◌, arith, ℕ_discrete, length, count,
}
use astra_scheduler.Reaper.{HandoffCapabilitySlot, ReaperRegistry, erase_id}
use astra_scheduler.Reaper.Running.{System, make_system, Runs}
use astra_scheduler.Reaper.Tallies.{slot_ids, count-erase_id}
use astra_scheduler.Reaper.Accounting.{Runs-IsBooked}
use astra_scheduler.Reaper.Snapshots.{
  ProcessMetricsGauges, join_ready_gauge, pending_gauge, read_gauges, process_snapshot,
}

length-erase_id : (y : ℕ) (xs : List ℕ) → 0 < count y xs → length xs ≡ suc (length (erase_id y xs))
length-erase_id y [] h = absurd (omega arith)
length-erase_id y (x ∷ xs) h = elim (ℕ_discrete x y) [
  | yes e ↦ ground arith
  | no ne ↦ let z = length-erase_id y xs (ground arith) in ground arith
]

-- Lists with the same counts have the same length.
count-length : (xs ys : List ℕ) → ((x : ℕ) → count x xs ≡ count x ys) → length xs ≡ length ys
count-length [] [] h = refl
count-length [] (y ∷ ys) h = absurd (let z = h y in ground arith)
count-length (x ∷ xs) ys h =
    let here : 0 < count x ys = (let z = h x in ground arith) in
    let rest =
      count-length xs (erase_id x ys) (λ z. let k = h z in omega (arith, count-erase_id z x ys)) in
    omega (arith, length-erase_id x ys here, rest)

length-slot_ids : (ss : List HandoffCapabilitySlot) → length (slot_ids ss) ≡ length ss
length-slot_ids [] = refl
length-slot_ids (s ∷ ss) = ap suc (length-slot_ids ss)

gauge_le : (s : HandoffCapabilitySlot) → join_ready_gauge s + pending_gauge s ≤ 1
gauge_le s = ground arith

read_gauges-bounds :
    (ss : List HandoffCapabilitySlot) (g : ProcessMetricsGauges)
    → ((read_gauges ss g).registered_runtimes ≡ g.registered_runtimes)
      × ((read_gauges ss g).join_ready_runtimes + (read_gauges ss g).pending_runtimes
          ≤ g.join_ready_runtimes + g.pending_runtimes + length ss)
unfolding read_gauges
read_gauges-bounds [] g = (refl, omega arith)
read_gauges-bounds (s ∷ ss) g =
    let (a, b) = read_gauges-bounds ss (record g {
      pending_runtimes = g.pending_runtimes + pending_gauge s;
      join_ready_runtimes = g.join_ready_runtimes + join_ready_gauge s;
    }) in
    (a, omega (arith, gauge_le s, b))

-- In every reachable state that holds fewer than 2 ^ 64 registrations, a process snapshot counts every
-- held slot as a registered runtime, and no more runtimes pending or join-ready than are registered.
pub process_snapshot-bounds :
    {a : System} (started now finished : ℕ) (before : ReaperRegistry)
    → Runs make_system a
    → length a.registry.slots < 2 ^ 64
    → let g = (process_snapshot started now finished before a.registry).gauges in
      (g.registered_runtimes ≡ length a.registry.slots)
      × (g.join_ready_runtimes + g.pending_runtimes ≤ g.registered_runtimes)
unfolding process_snapshot
process_snapshot-bounds {a} started now finished before runs few =
    let r = a.registry in
    let same = count-length r.registered_ids (slot_ids r.slots) (Runs-IsBooked runs).counted in
    let n = length-slot_ids r.slots in
    let (e, b) = read_gauges-bounds r.slots (record {
      registered_runtimes = length r.registered_ids % 2 ^ 64;
      pending_runtimes = 0;
      join_ready_runtimes = 0;
    }) in
    (omega arith, omega arith)
