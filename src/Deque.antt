-- ===== src/Deque.antt =====
-- ChaseLevDeque of src/scheduling/chase_lev_deque.hpp: the owner pushes and pops at the bottom, thieves
-- steal at the top. A step is one access of a thread to a shared atomic; the accesses of the owner to
-- what only it writes go with the next one. A capacity is a power of two, so that masking an index by
-- capacity - 1 takes the remainder.
pub mod Windows
pub mod Contents
pub mod Invariant
pub mod Stability
pub mod Stepping
pub mod Pushing
pub mod Popping
pub mod Rebasing
pub mod Owning
pub mod Thieving
pub mod Refinement
pub mod Conservation
pub mod Examples
use astra_scheduler.Base.{
  ◌<◌, ◌≡◌, ℕ, zero, suc, ◌+◌, ◌-◌, ◌*◌, ◌/◌, ◌%◌, ◌^◌, Bool, true, false, not, ◌&&◌, ◌||◌, none,
  List, [], ◌∷◌, ltb, leb, ◌==◌, if◌then◌else◌, take, add64, update,
}

pub record Buffer : Type 0 where
  pub capacity : ℕ
  pub cells : ℕ → ℕ

abbrev pub load_cell : Buffer → ℕ → ℕ
load_cell buf i = buf.cells (i % buf.capacity)

abbrev pub store_cell : ℕ → ℕ → Buffer → Buffer
store_cell i item buf = record buf { cells = update buf.cells (i % buf.capacity) item }

-- The shared fields. `buffers` is the history of the buffers, of which the active one is the last.
pub record ChaseLevDeque : Type 0 where
  pub top : ℕ
  pub bottom : ℕ
  pub buffers : ℕ → Buffer
  pub active_buffer : ℕ
  pub maintenance : Bool
  pub active_thieves : ℕ

abbrev pub rebase_high_watermark : ℕ
rebase_high_watermark = 2 ^ 58

-- What the caller of maybe_quiescent_rebase does with its result.
pub data After : Type 0 where
  then_push : ℕ → After
  then_empty : After

-- The place of the owner in its call.
pub data Owner : Type 0 where
  idle : Owner
  -- push: the loads, the growth, the cell and the bottom
  push_load : ℕ → Owner
  push_reload : ℕ → Owner
  push_room : (item b t : ℕ) → Owner
  push_cell : (item b : ℕ) → Owner
  push_bottom : (item b : ℕ) → Owner
  -- pop: the bottom, the top, the last item, and the bottom again
  pop_start : Owner
  pop_top : (b : ℕ) → Owner
  pop_last : (b item : ℕ) → Owner
  pop_lost : (b : ℕ) → Owner
  pop_won : (b : ℕ) → Owner
  -- maybe_quiescent_rebase: the loads, the flag, the wait for the thieves, and the copy
  rebase_load : After → Owner
  rebase_flag : After → Owner
  rebase_wait : After → Owner
  rebase_copy : After → Owner

-- The place of a thief in its call of steal.
pub data Thief : Type 0 where
  idle : Thief
  check : Thief
  enter : Thief
  recheck : Thief
  load_top : Thief
  load_bottom : (t : ℕ) → Thief
  load_buffer : (t : ℕ) → Thief
  load_item : (t buf : ℕ) → Thief
  exchange : (t item : ℕ) → Thief
  leave : Thief

-- What a step does to the deque, seen from outside.
pub data Event : Type 0 where
  silent : Event
  pushed popped stolen : (item : ℕ) → Event

-- What the environment decides: whether an allocation succeeds, and the two failure injections.
pub record Environment : Type 0 where
  pub allocates : Bool
  pub inject_growth_failure : Bool
  pub inject_rebase_failure : Bool

pub record OwnerStep : Type 0 where
  pub shared : ChaseLevDeque
  pub owner : Owner
  pub event : Event

abbrev pub buffer : ChaseLevDeque → Buffer
buffer s = s.buffers s.active_buffer

-- The copies of the cells from t on, n of them, into a buffer.
unfoldable pub copy_cells : Buffer → ℕ → ℕ → Buffer → Buffer
copy_cells old t zero new = new
copy_cells old t (suc n) new = copy_cells old (t + 1) n (store_cell t (load_cell old t) new)

-- Whether grow() refuses to double a capacity.
abbrev pub is_too_large : ℕ → Bool
is_too_large capacity = ltb ((2 ^ 64 - 1) / 2) capacity || leb (2 ^ 62) capacity

-- ChaseLevDeque::grow, when it succeeds.
unfoldable pub grow : ℕ → ℕ → ChaseLevDeque → ChaseLevDeque
unfolding copy_cells
grow b t s =
    let old = buffer s in
    let fresh : Buffer = record { capacity = old.capacity * 2; cells = λ i. 0 } in
    record s {
      buffers = update s.buffers (s.active_buffer + 1) (copy_cells old t (b - t) fresh);
      active_buffer = s.active_buffer + 1;
    }

-- The cells from t on, n of them.
unfoldable pub snapshot : Buffer → ℕ → ℕ → List ℕ
snapshot buf t zero = []
snapshot buf t (suc n) = load_cell buf t ∷ snapshot buf (t + 1) n

-- They are stored from 0 on.
unfoldable pub store_all : ℕ → List ℕ → Buffer → Buffer
store_all i [] buf = buf
store_all i (x ∷ xs) buf = store_all (i + 1) xs (store_cell i x buf)

-- The move of the live interval to 0, and the end of the maintenance.
unfoldable pub normalise : ChaseLevDeque → ChaseLevDeque
unfolding snapshot store_all
normalise s =
    let live = s.bottom - s.top in
    let moved = store_all 0 (snapshot (buffer s) s.top live) (buffer s) in
    record s {
      buffers = update s.buffers s.active_buffer moved;
      top = 0;
      bottom = live;
      maintenance = false;
    }

-- How a call goes on after maybe_quiescent_rebase: a push reloads or fails, a pop is over.
abbrev pub resume : After → Bool → Owner
resume (After.then_push item) true = Owner.push_reload item
resume (After.then_push item) false = Owner.idle
resume After.then_empty done = Owner.idle

abbrev pub quiet : ChaseLevDeque → Owner → OwnerStep
quiet s o = record { shared = s; owner = o; event = Event.silent }

-- The steps of push. `push_room` returns false where there is no room and none can be made.
abbrev pub push_step : Environment → Owner → ChaseLevDeque → OwnerStep
push_step env (Owner.push_load item) s =
    if leb rebase_high_watermark s.bottom || leb rebase_high_watermark s.top
    then quiet s (Owner.rebase_load (After.then_push item))
    else quiet s (Owner.push_room item s.bottom s.top)
push_step env (Owner.push_reload item) s = quiet s (Owner.push_room item s.bottom s.top)
push_step env (Owner.push_room item b t) s =
    if ltb b t
    then quiet s Owner.idle
    else if leb ((buffer s).capacity - 1) (b - t)
    then (if env.inject_growth_failure || is_too_large (buffer s).capacity || not env.allocates
        then quiet s Owner.idle
        else quiet (grow b t s) (Owner.push_cell item b))
    else quiet s (Owner.push_cell item b)
push_step env (Owner.push_cell item b) s =
    quiet (record s { buffers = update s.buffers s.active_buffer (store_cell b item (buffer s)) })
      (Owner.push_bottom item b)
push_step env (Owner.push_bottom item b) s = record {
  shared = record s { bottom = add64 b 1 };
  owner = Owner.idle;
  event = Event.pushed item;
}
push_step env o s = quiet s o

-- The steps of pop.
abbrev pub pop_step : Environment → Owner → ChaseLevDeque → OwnerStep
pop_step env Owner.pop_start s =
    if s.bottom == 0
    then quiet s (Owner.rebase_load After.then_empty)
    else quiet (record s { bottom = s.bottom - 1 }) (Owner.pop_top (s.bottom - 1))
pop_step env (Owner.pop_top b) s =
    if ltb s.top b
    then record { shared = s; owner = Owner.idle; event = Event.popped (load_cell (buffer s) b) }
    else if s.top == b
    then quiet s (Owner.pop_last b (load_cell (buffer s) b))
    else quiet s (Owner.pop_lost b)
pop_step env (Owner.pop_last b item) s =
    if s.top == b
    then record {
      shared = record s { top = add64 b 1 };
      owner = Owner.pop_won b;
      event = Event.popped item;
    }
    else quiet s (Owner.pop_lost b)
pop_step env (Owner.pop_won b) s = quiet (record s { bottom = add64 b 1 }) Owner.idle
pop_step env (Owner.pop_lost b) s =
    quiet (record s { bottom = add64 b 1 }) (Owner.rebase_load After.then_empty)
pop_step env o s = quiet s o

-- The steps of maybe_quiescent_rebase.
abbrev pub rebase_step : Environment → Owner → ChaseLevDeque → OwnerStep
rebase_step env (Owner.rebase_load k) s =
    if ltb s.bottom rebase_high_watermark && ltb s.top rebase_high_watermark
    then quiet s (resume k false)
    else if env.inject_rebase_failure
    then quiet s (resume k false)
    else quiet s (Owner.rebase_flag k)
rebase_step env (Owner.rebase_flag k) s =
    quiet (record s { maintenance = true }) (Owner.rebase_wait k)
rebase_step env (Owner.rebase_wait k) s =
    if s.active_thieves == 0 then quiet s (Owner.rebase_copy k) else quiet s (Owner.rebase_wait k)
rebase_step env (Owner.rebase_copy k) s =
    if ltb s.bottom s.top
    then quiet (record s { maintenance = false }) (resume k false)
    else if ltb 0 (s.bottom - s.top) && not env.allocates
    then quiet (record s { maintenance = false }) (resume k false)
    else quiet (normalise s) (resume k true)
rebase_step env o s = quiet s o

-- The next step of the owner.
unfoldable pub owner_step : Environment → Owner → ChaseLevDeque → OwnerStep
unfolding grow normalise
owner_step env Owner.idle s = quiet s Owner.idle
owner_step env (Owner.push_load item) s = push_step env (Owner.push_load item) s
owner_step env (Owner.push_reload item) s = push_step env (Owner.push_reload item) s
owner_step env (Owner.push_room item b t) s = push_step env (Owner.push_room item b t) s
owner_step env (Owner.push_cell item b) s = push_step env (Owner.push_cell item b) s
owner_step env (Owner.push_bottom item b) s = push_step env (Owner.push_bottom item b) s
owner_step env Owner.pop_start s = pop_step env Owner.pop_start s
owner_step env (Owner.pop_top b) s = pop_step env (Owner.pop_top b) s
owner_step env (Owner.pop_last b item) s = pop_step env (Owner.pop_last b item) s
owner_step env (Owner.pop_won b) s = pop_step env (Owner.pop_won b) s
owner_step env (Owner.pop_lost b) s = pop_step env (Owner.pop_lost b) s
owner_step env (Owner.rebase_load k) s = rebase_step env (Owner.rebase_load k) s
owner_step env (Owner.rebase_flag k) s = rebase_step env (Owner.rebase_flag k) s
owner_step env (Owner.rebase_wait k) s = rebase_step env (Owner.rebase_wait k) s
owner_step env (Owner.rebase_copy k) s = rebase_step env (Owner.rebase_copy k) s

pub record ThiefStep : Type 0 where
  pub shared : ChaseLevDeque
  pub thief : Thief
  pub event : Event

abbrev pub unseen : ChaseLevDeque → Thief → ThiefStep
unseen s p = record { shared = s; thief = p; event = Event.silent }

-- The next step of a thief in steal().
unfoldable pub thief_step : Thief → ChaseLevDeque → ThiefStep
thief_step Thief.idle s = unseen s Thief.idle
thief_step Thief.check s = if s.maintenance then unseen s Thief.idle else unseen s Thief.enter
thief_step Thief.enter s =
    unseen (record s { active_thieves = (s.active_thieves + 1) % 2 ^ 32 }) Thief.recheck
thief_step Thief.recheck s = if s.maintenance then unseen s Thief.leave else unseen s Thief.load_top
thief_step Thief.load_top s = unseen s (Thief.load_bottom s.top)
thief_step (Thief.load_bottom t) s =
    if ltb t s.bottom then unseen s (Thief.load_buffer t) else unseen s Thief.leave
thief_step (Thief.load_buffer t) s = unseen s (Thief.load_item t s.active_buffer)
thief_step (Thief.load_item t buf) s = unseen s (Thief.exchange t (load_cell (s.buffers buf) t))
thief_step (Thief.exchange t item) s =
    if s.top == t
    then record {
      shared = record s { top = add64 t 1 };
      thief = Thief.leave;
      event = Event.stolen item;
    }
    else unseen s Thief.leave
thief_step Thief.leave s =
    unseen (record s { active_thieves = (s.active_thieves + 2 ^ 32 - 1) % 2 ^ 32 }) Thief.idle

-- The deque with its owner and its thieves.
pub record System : Type 0 where
  pub shared : ChaseLevDeque
  pub owner : Owner
  pub thieves : ℕ → Thief

-- A thread that is in no call starts one, or a thread takes its next step; there are n thieves.
pub data Step (n : ℕ) : System → Event → System → Type 0 where
  push :
      {s : ChaseLevDeque} {thieves : ℕ → Thief} (item : ℕ)
      → Step n
          (record { shared = s; owner = Owner.idle; thieves = thieves })
          Event.silent
          (record { shared = s; owner = Owner.push_load item; thieves = thieves })
  pop :
      {s : ChaseLevDeque} {thieves : ℕ → Thief}
      → Step n
          (record { shared = s; owner = Owner.idle; thieves = thieves })
          Event.silent
          (record { shared = s; owner = Owner.pop_start; thieves = thieves })
  owner :
      {s : ChaseLevDeque} {o : Owner} {thieves : ℕ → Thief} (env : Environment)
      → Step n
          (record { shared = s; owner = o; thieves = thieves })
          (owner_step env o s).event
          (record {
            shared = (owner_step env o s).shared;
            owner = (owner_step env o s).owner;
            thieves = thieves;
          })
  steal :
      {s : ChaseLevDeque} {o : Owner} {thieves : ℕ → Thief} (i : ℕ)
      → i < n
      → thieves i ≡ Thief.idle
      → Step n
          (record { shared = s; owner = o; thieves = thieves })
          Event.silent
          (record { shared = s; owner = o; thieves = update thieves i Thief.check })
  thief :
      {s : ChaseLevDeque} {o : Owner} {thieves : ℕ → Thief} (i : ℕ)
      → i < n
      → Step n
          (record { shared = s; owner = o; thieves = thieves })
          (thief_step (thieves i) s).event
          (record {
            shared = (thief_step (thieves i) s).shared;
            owner = o;
            thieves = update thieves i (thief_step (thieves i) s).thief;
          })

-- A new deque, whose threads are in no call.
abbrev pub make_deque : ℕ → System
make_deque capacity = record {
  shared = record {
    top = 0;
    bottom = 0;
    buffers = λ k. record { capacity = capacity; cells = λ i. 0 };
    active_buffer = 0;
    maintenance = false;
    active_thieves = 0;
  };
  owner = Owner.idle;
  thieves = λ i. Thief.idle;
}

-- The runs of a deque with their events, the latest first.
pub data Reach (capacity n : ℕ) : System → List Event → Type 0 where
  start : Reach capacity n (make_deque capacity) []
  next :
      {s t : System} {e : Event} {es : List Event}
      → Reach capacity n s es
      → Step n s e t
      → Reach capacity n t (e ∷ es)
