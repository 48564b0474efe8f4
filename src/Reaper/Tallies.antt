-- ===== src/Reaper/Tallies.antt =====
-- How the operations of the registry change the identities that it holds.
use astra_scheduler.Base.{
  ℕ, ◌+◌, ◌-◌, ◌<◌, ◌≡◌, refl, sym, ap, subst, inl, inr, true, false, List, [], ◌∷◌, ◌++◌, arith,
  ℕ_discrete, ltb, ◌==◌, if◌then◌else◌, Bool-cases, count, if_then_else_lem,
}
use astra_scheduler.Reaper.{
  RegistrationState, HandoffCapabilitySlot, erase_id, erase_slot, modify_slot, has_slot,
  is_claimable, claim_slots,
}
use astra_scheduler.Reaper.Running.{work_ids}

abbrev pub slot_ids : List HandoffCapabilitySlot → List ℕ
slot_ids [] = []
slot_ids (s ∷ ss) = s.runtime_id ∷ slot_ids ss

pub count-erase_id :
    (x id : ℕ) (xs : List ℕ) → count x (erase_id id xs) ≡ count x xs - (if x == id then 1 else 0)
count-erase_id x id [] = ground arith
count-erase_id x id (y ∷ ys) = ground (arith, count-erase_id x id ys)

pub slot_ids-append :
    (ss : List HandoffCapabilitySlot) (s : HandoffCapabilitySlot)
    → slot_ids (ss ++ (s ∷ [])) ≡ slot_ids ss ++ (s.runtime_id ∷ [])
slot_ids-append [] s = refl
slot_ids-append (t ∷ ss) s = ap (λ (l : List ℕ). t.runtime_id ∷ l) (slot_ids-append ss s)

pub slot_ids-erase_slot :
    (id : ℕ) (ss : List HandoffCapabilitySlot)
    → slot_ids (erase_slot id ss) ≡ erase_id id (slot_ids ss)
slot_ids-erase_slot id [] = refl
slot_ids-erase_slot id (s ∷ ss) = ground (arith, slot_ids-erase_slot id ss)

pub has_slot-count :
    (id : ℕ) (ss : List HandoffCapabilitySlot) → has_slot id ss ≡ ltb 0 (count id (slot_ids ss))
has_slot-count id [] = refl
has_slot-count id (s ∷ ss) = ground (arith, has_slot-count id ss)

pub slot_ids-modify_slot :
    (id : ℕ) (f : HandoffCapabilitySlot → HandoffCapabilitySlot) (ss : List HandoffCapabilitySlot)
    → ((s : HandoffCapabilitySlot) → (f s).runtime_id ≡ s.runtime_id)
    → slot_ids (modify_slot id f ss) ≡ slot_ids ss
slot_ids-modify_slot id f [] h = refl
slot_ids-modify_slot id f (s ∷ ss) h = ground (arith, h s, slot_ids-modify_slot id f ss h)

-- The claims of one turn.
pub claim_slots-ids :
    (x : ℕ) (st : RegistrationState) (ss : List HandoffCapabilitySlot) (ids : List ℕ)
    → count x (claim_slots st ss ids).registered_ids
      ≡ count x ids - count x (work_ids (claim_slots st ss ids).works)
unfolding claim_slots
claim_slots-ids x st [] ids = omega arith
claim_slots-ids x st (s ∷ ss) ids = elim (Bool-cases (is_claimable st s)) [
  | inl c ↦ rw c (
      omega (
        arith,
        claim_slots-ids x st ss (erase_id s.runtime_id ids),
        count-erase_id x s.runtime_id ids,
      ))
  | inr c ↦ rw c (claim_slots-ids x st ss ids)
]

pub claim_slots-slots :
    (x : ℕ) (st : RegistrationState) (ss : List HandoffCapabilitySlot) (ids : List ℕ)
    → count x (slot_ids (claim_slots st ss ids).slots)
        + count x (work_ids (claim_slots st ss ids).works)
      ≡ count x (slot_ids ss)
unfolding claim_slots
claim_slots-slots x st [] ids = omega arith
claim_slots-slots x st (s ∷ ss) ids = elim (Bool-cases (is_claimable st s)) [
  | inl c ↦ rw c (omega (arith, claim_slots-slots x st ss (erase_id s.runtime_id ids)))
  | inr c ↦ rw c (omega (arith, claim_slots-slots x st ss ids))
]

-- A slot is marked join-ready only after its runtime has been reported.
abbrev pub Reported : List ℕ → List HandoffCapabilitySlot → Type 0
Reported ready [] = Unit
Reported ready (s ∷ ss) = (s.join_ready ≡ true → 0 < count s.runtime_id ready) × Reported ready ss

pub Reported-weaken :
    (ready : List ℕ) (id : ℕ) (ss : List HandoffCapabilitySlot)
    → Reported ready ss
    → Reported (id ∷ ready) ss
Reported-weaken ready id [] h = tt
Reported-weaken ready id (s ∷ ss) (h, hs) =
    (λ j. let x = h j in omega arith, Reported-weaken ready id ss hs)

pub Reported-append :
    (ready : List ℕ) (ss : List HandoffCapabilitySlot) (s : HandoffCapabilitySlot)
    → s.join_ready ≡ false
    → Reported ready ss
    → Reported ready (ss ++ (s ∷ []))
Reported-append ready [] s e h = (λ j. absurd (cc), tt)
Reported-append ready (t ∷ ss) s e (h, hs) = (h, Reported-append ready ss s e hs)

pub Reported-erase_slot :
    (ready : List ℕ) (id : ℕ) (ss : List HandoffCapabilitySlot)
    → Reported ready ss
    → Reported ready (erase_slot id ss)
Reported-erase_slot ready id [] h = tt
Reported-erase_slot ready id (s ∷ ss) (h, hs) =
    if_then_else_lem (Reported ready) (s.runtime_id == id) (λ e. hs)
      (λ e. (h, Reported-erase_slot ready id ss hs))

pub Reported-modify_slot :
    (ready : List ℕ) (id : ℕ) (f : HandoffCapabilitySlot → HandoffCapabilitySlot)
    (ss : List HandoffCapabilitySlot)
    → ((s : HandoffCapabilitySlot)
        → s.runtime_id ≡ id
        → (s.join_ready ≡ true → 0 < count s.runtime_id ready)
        → (f s).join_ready ≡ true
        → 0 < count (f s).runtime_id ready)
    → Reported ready ss
    → Reported ready (modify_slot id f ss)
Reported-modify_slot ready id f [] k h = tt
Reported-modify_slot ready id f (s ∷ ss) k (h, hs) =
    if_then_else_lem (Reported ready) (s.runtime_id == id) (λ e. (k s (ground arith) h, hs))
      (λ e. (h, Reported-modify_slot ready id f ss k hs))

pub Reported-claim_slots :
    (ready : List ℕ) (st : RegistrationState) (ss : List HandoffCapabilitySlot) (ids : List ℕ)
    → Reported ready ss
    → Reported ready (claim_slots st ss ids).slots
unfolding claim_slots
Reported-claim_slots ready st [] ids h = tt
Reported-claim_slots ready st (s ∷ ss) ids (h, hs) = elim (Bool-cases (is_claimable st s)) [
  | inl c ↦ rw c (Reported-claim_slots ready st ss (erase_id s.runtime_id ids) hs)
  | inr c ↦ rw c (h, Reported-claim_slots ready st ss ids hs)
]

pub claimed-Reported :
    (ready : List ℕ) (x : ℕ) (st : RegistrationState) (ss : List HandoffCapabilitySlot)
    (ids : List ℕ)
    → Reported ready ss
    → 0 < count x (work_ids (claim_slots st ss ids).works)
    → 0 < count x ready
unfolding claim_slots
claimed-Reported ready x st [] ids h = λ pos. absurd (omega arith)
claimed-Reported ready x st (s ∷ ss) ids (h, hs) = elim (Bool-cases (is_claimable st s)) [
  | inl c ↦ rw c (λ pos.
      let joined : s.join_ready ≡ true = ground arith in
      let mine = h joined in
      let later = claimed-Reported ready x st ss (erase_id s.runtime_id ids) hs in
      elim (ℕ_discrete x s.runtime_id) [
        | yes e ↦ subst (λ (y : ℕ). 0 < count y ready) (sym e) mine
        | no ne ↦ later (ground arith)
      ])
  | inr c ↦ rw c (claimed-Reported ready x st ss ids hs)
]
