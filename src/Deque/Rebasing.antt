-- ===== src/Deque/Rebasing.antt =====
-- The steps of maybe_quiescent_rebase keep the invariant and the items.
use astra_scheduler.Base.{
  ◌+◌, ◌-◌, ◌≤◌, ◌≡◌, refl, sym, subst, true, false, not, ◌&&◌, arith, ltb, ◌==◌, length, update,
  if_then_else_lem,
}
use astra_scheduler.Deque.{
  ChaseLevDeque, rebase_high_watermark, After, Owner, Environment, buffer, snapshot, store_all,
  normalise, resume, quiet, owner_step,
}
use astra_scheduler.Deque.Contents.{
  length-snapshot, store_all-capacity, snapshot-store_all, update_self,
}
use astra_scheduler.Deque.Invariant.{reserved, IsSound, OwnerKnows, copying}
use astra_scheduler.Deque.Stepping.{IsGood, still, stays, refused}

module _ (env : Environment) (s : ChaseLevDeque) where
  pub rebase_load-IsGood :
      (k : After)
      → IsSound (Owner.rebase_load k) s
      → IsGood (Owner.rebase_load k) s (owner_step env (Owner.rebase_load k) s)
  unfolding owner_step
  rebase_load-IsGood k sound =
      if_then_else_lem (IsGood (Owner.rebase_load k) s)
        (ltb s.bottom rebase_high_watermark && ltb s.top rebase_high_watermark)
        (λ h. refused _ k s s.maintenance sound refl)
        (λ h.
          if_then_else_lem (IsGood (Owner.rebase_load k) s) env.inject_rebase_failure
            (λ f. refused _ k s s.maintenance sound refl) (λ f. stays _ _ s sound refl tt refl))

  pub rebase_flag-IsGood :
      (k : After)
      → IsSound (Owner.rebase_flag k) s
      → IsGood (Owner.rebase_flag k) s (owner_step env (Owner.rebase_flag k) s)
  unfolding owner_step
  rebase_flag-IsGood k sound = still _ _ s s.bottom true sound refl refl (λ c. absurd (cc))

  pub rebase_wait-IsGood :
      (k : After)
      → IsSound (Owner.rebase_wait k) s
      → OwnerKnows (Owner.rebase_wait k) s
      → IsGood (Owner.rebase_wait k) s (owner_step env (Owner.rebase_wait k) s)
  unfolding owner_step
  rebase_wait-IsGood k sound owns =
      if_then_else_lem (IsGood (Owner.rebase_wait k) s) (s.active_thieves == 0)
        (λ h. still _ _ s s.bottom s.maintenance sound refl owns (λ c. ground arith))
        (λ h. stays _ _ s sound refl owns refl)

normalise-contents :
    (s : ChaseLevDeque)
    → s.bottom ≤ s.top + (buffer s).capacity
    → (buffer (normalise s) ≡ store_all 0 (snapshot (buffer s) s.top (s.bottom - s.top)) (buffer s))
      × (snapshot (buffer (normalise s)) 0 (s.bottom - s.top)
          ≡ snapshot (buffer s) s.top (s.bottom - s.top))
unfolding normalise
normalise-contents s h =
    let live = s.bottom - s.top in
    let items = snapshot (buffer s) s.top live in
    let moved = store_all 0 items (buffer s) in
    let e : update s.buffers s.active_buffer moved s.active_buffer ≡ moved =
      update_self s.buffers s.active_buffer moved in
    let l : length items ≡ live = length-snapshot live s.top (buffer s) in
    (
      e,
      rw e (
          subst (λ n. snapshot moved 0 n ≡ items) l
            (snapshot-store_all items 0 (buffer s) (omega arith))),
    )

moved-IsGood :
    (k : After) (q : Owner) (s : ChaseLevDeque)
    → IsSound (Owner.rebase_copy k) s
    → reserved q ≡ 0
    → copying q ≡ false
    → OwnerKnows q (normalise s)
    → IsGood (Owner.rebase_copy k) s (quiet (normalise s) q)
unfolding normalise
moved-IsGood k q s sound none_reserved c owns =
    let x = sound.ordered in
    let y = sound.room in
    let z = sound.small in
    let w = sound.small_capacity in
    let (e, kept) = normalise-contents s (omega arith) in
    let live = s.bottom - s.top in
    let same = store_all-capacity (snapshot (buffer s) s.top live) 0 (buffer s) in
    let n : live + reserved q - 0 ≡ live = omega arith in
    let m : s.bottom + 0 - s.top ≡ live = omega arith in
    record {
      sound = record {
        ordered = omega arith;
        room = rw (e, same) (omega arith);
        small_capacity = rw (e, same) w;
        small = omega arith;
      };
      owns = owns;
      does = rw (n, m) (sym kept);
      stable = λ a b. absurd (cc);
      entering = λ a. absurd (cc);
      guard = refl;
    }

normalise-IsGood :
    (k : After) (s : ChaseLevDeque)
    → IsSound (Owner.rebase_copy k) s
    → IsGood (Owner.rebase_copy k) s (quiet (normalise s) (resume k true))
unfolding normalise
normalise-IsGood (After.then_push item) s sound =
    let x = sound.ordered in
    let y = sound.room in
    let w = sound.small_capacity in
    moved-IsGood (After.then_push item) (Owner.push_reload item) s sound refl refl (omega arith)
normalise-IsGood After.then_empty s sound =
    moved-IsGood After.then_empty Owner.idle s sound refl refl tt

pub rebase_copy-IsGood :
    (env : Environment) (s : ChaseLevDeque) (k : After)
    → IsSound (Owner.rebase_copy k) s
    → IsGood (Owner.rebase_copy k) s (owner_step env (Owner.rebase_copy k) s)
unfolding owner_step
rebase_copy-IsGood env s k sound =
    let P = IsGood (Owner.rebase_copy k) s in
    let gives_up = refused (Owner.rebase_copy k) k s false sound refl in
    if_then_else_lem P (ltb s.bottom s.top) (λ h. gives_up)
      (λ h.
        if_then_else_lem P (ltb 0 (s.bottom - s.top) && not env.allocates) (λ f. gives_up)
          (λ f. normalise-IsGood k s sound))
