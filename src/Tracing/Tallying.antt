-- ===== src/Tracing/Tallying.antt =====
-- Sums of a measure over threads.
use astra_scheduler.Base.{
  ℕ, zero, suc, ◌+◌, ◌≤◌, ◌<◌, ◌≡◌, refl, ap, ◌≢◌, arith, ℕ_discrete, update,
}

unfoldable pub tally {ℓ} : {A : Type ℓ} → (A → ℕ) → ℕ → (ℕ → A) → ℕ
tally h zero f = 0
tally h (suc n) f = h (f n) + tally h n f

tally-update_ge {ℓ} :
    {A : Type ℓ} (h : A → ℕ) (n i : ℕ) (f : ℕ → A) (a : A)
    → n ≤ i
    → tally h n (update f i a) ≡ tally h n f
unfolding tally
tally-update_ge h zero i f a le = refl
tally-update_ge h (suc n) i f a le =
    let ne : i ≢ n = (λ e. absurd (omega arith)) in
    let other : update f i a n ≡ f n = ground arith in
    rw (other, tally-update_ge h n i f a (omega arith)) refl

pub tally-update {ℓ} :
    {A : Type ℓ} (h : A → ℕ) (n i : ℕ) (f : ℕ → A) (a : A)
    → i < n
    → tally h n (update f i a) + h (f i) ≡ tally h n f + h a
unfolding tally
tally-update h zero i f a lt = absurd (omega arith)
tally-update h (suc n) i f a lt = elim (ℕ_discrete i n) [
  | yes e ↦
      let same : update f i a n ≡ a = ground arith in
      let at : f i ≡ f n = ap f e in
      rw (same, at, tally-update_ge h n i f a (omega arith)) (omega arith)
  | no ne ↦
      let other : update f i a n ≡ f n = ground arith in
      rw other (omega (arith, tally-update h n i f a (omega arith)))
]

pub tally_ge {ℓ} : {A : Type ℓ} (h : A → ℕ) (n i : ℕ) (f : ℕ → A) → i < n → h (f i) ≤ tally h n f
unfolding tally
tally_ge h zero i f lt = absurd (omega arith)
tally_ge h (suc n) i f lt = elim (ℕ_discrete i n) [
  | yes e ↦ rw e (omega arith)
  | no ne ↦ omega (arith, tally_ge h n i f (omega arith))
]

pub tally_le {ℓ} :
    {A : Type ℓ} (h : A → ℕ) (n : ℕ) (f : ℕ → A) → ((a : A) → h a ≤ 1) → tally h n f ≤ n
unfolding tally
tally_le h zero f one = omega arith
tally_le h (suc n) f one = omega (arith, tally_le h n f one, one (f n))

pub tally_zero {ℓ} : {A : Type ℓ} (h : A → ℕ) (n : ℕ) (a : A) → h a ≡ 0 → tally h n (λ i. a) ≡ 0
unfolding tally
tally_zero h zero a e = refl
tally_zero h (suc n) a e = omega (arith, tally_zero h n a e, e)

pub tally_none {ℓ} :
    {A : Type ℓ} (h : A → ℕ) (n : ℕ) (f : ℕ → A) → ((i : ℕ) → i < n → h (f i) ≡ 0) → tally h n f ≡ 0
unfolding tally
tally_none h zero f e = refl
tally_none h (suc n) f e =
    omega (arith, tally_none h n f (λ i lt. e i (omega arith)), e n (omega arith))
