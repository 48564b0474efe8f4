-- ===== src/Deque/Owning.antt =====
-- Every step of the owner keeps the invariant and does to the items what its event says.
use astra_scheduler.Base.{refl}
use astra_scheduler.Deque.{ChaseLevDeque, Owner, Environment, owner_step}
use astra_scheduler.Deque.Invariant.{IsSound, OwnerKnows}
use astra_scheduler.Deque.Stepping.{IsGood, stays}
use astra_scheduler.Deque.Pushing.{
  push_load-IsGood, push_load-IsGood, push_reload-IsGood, push_reload-IsGood, push_cell-IsGood,
  push_cell-IsGood, push_bottom-IsGood, push_bottom-IsGood, push_room-IsGood, push_room-IsGood,
}
use astra_scheduler.Deque.Popping.{
  pop_start-IsGood, pop_start-IsGood, pop_lost-IsGood, pop_lost-IsGood, pop_won-IsGood,
  pop_won-IsGood, pop_last-IsGood, pop_last-IsGood, pop_top-IsGood, pop_top-IsGood,
}
use astra_scheduler.Deque.Rebasing.{
  rebase_load-IsGood, rebase_load-IsGood, rebase_flag-IsGood, rebase_flag-IsGood,
  rebase_wait-IsGood, rebase_wait-IsGood, rebase_copy-IsGood,
}

pub owner_step-IsGood :
    (env : Environment) (o : Owner) (s : ChaseLevDeque)
    → IsSound o s
    → OwnerKnows o s
    → IsGood o s (owner_step env o s)
unfolding owner_step
owner_step-IsGood env Owner.idle s v k = stays _ _ s v refl tt refl
owner_step-IsGood env (Owner.push_load item) s v k = push_load-IsGood env s item v
owner_step-IsGood env (Owner.push_reload item) s v k = push_reload-IsGood env s item v k
owner_step-IsGood env (Owner.push_room item b t) s v k = push_room-IsGood env s item b t v k
owner_step-IsGood env (Owner.push_cell item b) s v k = push_cell-IsGood env s item b v k
owner_step-IsGood env (Owner.push_bottom item b) s v k = push_bottom-IsGood env s item b v k
owner_step-IsGood env Owner.pop_start s v k = pop_start-IsGood env s v
owner_step-IsGood env (Owner.pop_top b) s v k = pop_top-IsGood env s b v k
owner_step-IsGood env (Owner.pop_last b item) s v k = pop_last-IsGood env s b item v k
owner_step-IsGood env (Owner.pop_lost b) s v k = pop_lost-IsGood env s b v k
owner_step-IsGood env (Owner.pop_won b) s v k = pop_won-IsGood env s b v k
owner_step-IsGood env (Owner.rebase_load k) s v h = rebase_load-IsGood env s k v
owner_step-IsGood env (Owner.rebase_flag k) s v h = rebase_flag-IsGood env s k v
owner_step-IsGood env (Owner.rebase_wait k) s v h = rebase_wait-IsGood env s k v h
owner_step-IsGood env (Owner.rebase_copy k) s v h = rebase_copy-IsGood env s k v
