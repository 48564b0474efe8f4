-- ===== src/Deque/Stability.antt =====
-- What a thief has read stays true while other threads take their steps.
use astra_scheduler.Base.{
  ℕ, zero, suc, ◌+◌, ◌≤◌, ◌<◌, ◌≡◌, refl, sym, ◌∙◌, inl, inr, true, false, arith, ℕ_discrete,
  Bool-cases, update,
}
use astra_scheduler.Deque.{load_cell, ChaseLevDeque, Owner, Thief, buffer}
use astra_scheduler.Deque.Invariant.{
  end, copying, inside, critical, HasRead, ThiefKnows, count_inside,
}

-- While the top stays, the item there stays what it is, in the active buffer and in each buffer that
-- holds it.
pub record IsStable (s : ChaseLevDeque) (e : ℕ) (t : ChaseLevDeque) (f : ℕ) : Type 0 where
  pub top_le : s.top ≤ t.top
  pub active_le : s.active_buffer ≤ t.active_buffer
  pub live : (i : ℕ) → i ≡ s.top → i ≡ t.top → i < e → i < f
  pub same :
      (i : ℕ) → i ≡ s.top → i ≡ t.top → i < e → load_cell (buffer s) i ≡ load_cell (buffer t) i
  pub old :
      (i k : ℕ)
      → i ≡ s.top
      → i ≡ t.top
      → i < e
      → k ≤ s.active_buffer
      → load_cell (s.buffers k) i ≡ load_cell (buffer s) i
      → load_cell (t.buffers k) i ≡ load_cell (buffer t) i

unmoved : {i a b : ℕ} → i ≤ a → a ≤ b → i ≡ b → i ≡ a
unmoved h k e = omega arith

HasRead-IsStable :
    {s : ChaseLevDeque} {e : ℕ} {t : ChaseLevDeque} {f : ℕ} (p : Thief)
    → IsStable s e t f
    → HasRead p s e
    → HasRead p t f
HasRead-IsStable Thief.idle st h = h
HasRead-IsStable Thief.check st h = h
HasRead-IsStable Thief.enter st h = h
HasRead-IsStable Thief.recheck st h = h
HasRead-IsStable Thief.load_top st h = h
HasRead-IsStable Thief.leave st h = h
HasRead-IsStable (Thief.load_bottom i) st h = let x = st.top_le in omega arith
HasRead-IsStable {s} {t} (Thief.load_buffer i) st (a, b) =
    let x = st.top_le in
    let settled = λ (now : i ≡ t.top). unmoved a x now in
    (omega arith, λ now. st.live i (settled now) now (b (settled now)))
HasRead-IsStable {s} {t} (Thief.load_item i k) st (a, b, c, d) =
    let x = st.top_le in
    let y = st.active_le in
    let settled = λ (now : i ≡ t.top). unmoved a x now in
    (
      omega arith,
      λ now. st.live i (settled now) now (b (settled now)),
      omega arith,
      λ now. st.old i k (settled now) now (b (settled now)) c (d (settled now)),
    )
HasRead-IsStable {s} {t} (Thief.exchange i item) st (a, b, c) =
    let x = st.top_le in
    let settled = λ (now : i ≡ t.top). unmoved a x now in
    (
      omega arith,
      λ now. st.live i (settled now) now (b (settled now)),
      λ now. sym (st.same i (settled now) now (b (settled now))) ∙ c (settled now),
    )

-- A thief that may look at nothing has nothing to know.
outside-HasRead : (p : Thief) (s : ChaseLevDeque) (e : ℕ) → critical p ≡ false → HasRead p s e
outside-HasRead Thief.idle s e h = tt
outside-HasRead Thief.check s e h = tt
outside-HasRead Thief.enter s e h = tt
outside-HasRead Thief.recheck s e h = tt
outside-HasRead Thief.leave s e h = tt
outside-HasRead Thief.load_top s e h = tt
outside-HasRead (Thief.load_bottom i) s e h = absurd (cc)
outside-HasRead (Thief.load_buffer i) s e h = absurd (cc)
outside-HasRead (Thief.load_item i k) s e h = absurd (cc)
outside-HasRead (Thief.exchange i item) s e h = absurd (cc)

pub outside-ThiefKnows :
    (p : Thief) (o : Owner) (s : ChaseLevDeque) → critical p ≡ false → ThiefKnows p o s
outside-ThiefKnows p o s h = record { apart = λ c. cc; has_read = outside-HasRead p s (end o s) h }

-- The owner's step or another thief's keeps what a thief knows, if it is stable while nobody copies.
pub ThiefKnows-IsStable :
    (p : Thief) {o q : Owner} {s t : ChaseLevDeque}
    → (copying o ≡ false → copying q ≡ false → IsStable s (end o s) t (end q t))
    → (copying q ≡ true → critical p ≡ false)
    → ThiefKnows p o s
    → ThiefKnows p q t
ThiefKnows-IsStable p {o} {q} {s} {t} stable apart h = elim (Bool-cases (critical p)) [
  | inr out ↦ outside-ThiefKnows p q t out
  | inl crit ↦ elim (Bool-cases (copying q)) [
    | inl c ↦ absurd (let x = apart c in cc)
    | inr c ↦ record {
      apart = λ x. c;
      has_read = HasRead-IsStable p (stable (h.apart crit) c) h.has_read;
    }
  ]
]

-- The count of the thieves inside, when one of them moves.
count_inside-update_ge :
    (n i : ℕ) (thieves : ℕ → Thief) (p : Thief)
    → n ≤ i
    → count_inside n (update thieves i p) ≡ count_inside n thieves
unfolding count_inside
count_inside-update_ge zero i thieves p h = refl
count_inside-update_ge (suc n) i thieves p h =
    ground (arith, count_inside-update_ge n i thieves p (omega arith))

pub count_inside-update :
    (n i : ℕ) (thieves : ℕ → Thief) (p : Thief)
    → i < n
    → count_inside n (update thieves i p) + inside (thieves i) ≡ count_inside n thieves + inside p
unfolding count_inside
count_inside-update zero i thieves p h = absurd (omega arith)
count_inside-update (suc n) i thieves p h = elim (ℕ_discrete i n) [
  | yes e ↦ ground (arith, count_inside-update_ge n i thieves p (omega arith))
  | no ne ↦ ground (arith, count_inside-update n i thieves p (omega arith))
]

pub inside_le : (p : Thief) → inside p ≤ 1
inside_le p = ground arith

pub count_inside_le : (n : ℕ) (thieves : ℕ → Thief) → count_inside n thieves ≤ n
unfolding count_inside
count_inside_le zero thieves = omega arith
count_inside_le (suc n) thieves = omega (arith, count_inside_le n thieves, inside_le (thieves n))

pub inside-count :
    (n i : ℕ) (thieves : ℕ → Thief) → i < n → inside (thieves i) ≤ count_inside n thieves
unfolding count_inside
inside-count zero i thieves h = absurd (omega arith)
inside-count (suc n) i thieves h = elim (ℕ_discrete i n) [
  | yes e ↦ rw e (omega arith)
  | no ne ↦ omega (arith, inside-count n i thieves (omega arith))
]

pub critical-inside : (p : Thief) → inside p ≡ 0 → critical p ≡ false
critical-inside p h = ground arith
