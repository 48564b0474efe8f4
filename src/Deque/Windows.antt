-- ===== src/Deque/Windows.antt =====
-- Indices less than a capacity apart have cells of their own.
use astra_scheduler.Base.{ℕ, suc, ◌+◌, ◌-◌, ◌%◌, ◌<◌, ◌≡◌, sym, ◌∙◌, subst, ◌≢◌, arith, dec_lt}
use native.Mathlib.Nat.{mod-lt, mod-add-mod, mod-eq_of_lt, mod-eq-sub-mod}

add-mod-ne : (c h k : ℕ) → h < c → suc k < c → (h + suc k) % c ≢ h
add-mod-ne c h k hh hk = elim (dec_lt (h + suc k) c) [
  | yes inside ↦ omega (arith, mod-eq_of_lt inside)
  | no around ↦ omega (
    arith,
    mod-eq-sub-mod {n = h + suc k} {m = c} (omega arith),
    mod-eq_of_lt {n = h + suc k - c} {m = c} (omega arith),
  )
]

pub mod-ne : (c i j : ℕ) → i < j → j < i + c → j % c ≢ i % c
mod-ne c i j less near same =
    let k = j - i - 1 in
    let apart : i + suc k ≡ j = omega arith in
    let inside : i % c < c = mod-lt i (omega arith) in
    let moved = mod-add-mod i c (suc k) in
    add-mod-ne c (i % c) k inside (omega arith)
      (moved ∙ subst (λ m. m % c ≡ i % c) (sym apart) same)
