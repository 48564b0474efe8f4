-- ===== src/Deque/Invariant.antt =====
-- What the threads of a deque know at each place of their calls, and the list that the deque stands for.
use astra_scheduler.Base.{
  ℕ, zero, suc, ◌+◌, ◌-◌, ◌^◌, ◌≤◌, ◌<◌, ◌≡◌, Bool, true, false, List, [], ◌∷◌, ◌++◌,
}
use astra_scheduler.Deque.{load_cell, ChaseLevDeque, Owner, Thief, Event, buffer, snapshot, System}

-- While the owner has lowered the bottom to take an item, the item counts until it is decided.
abbrev pub reserved : Owner → ℕ
reserved (Owner.pop_top b) = 1
reserved (Owner.pop_last b item) = 1
reserved (Owner.pop_lost b) = 1
reserved (Owner.pop_won b) = 1
reserved _ = 0

abbrev pub end : Owner → ChaseLevDeque → ℕ
end o s = s.bottom + reserved o

-- The items of the deque, from the top to the bottom.
abbrev pub contents : Owner → ChaseLevDeque → List ℕ
contents o s = snapshot (buffer s) s.top (end o s - s.top)

-- What an event does to a list of items.
abbrev pub Does : Event → List ℕ → List ℕ → Type 0
Does Event.silent xs ys = xs ≡ ys
Does (Event.pushed item) xs ys = ys ≡ xs ++ (item ∷ [])
Does (Event.popped item) xs ys = xs ≡ ys ++ (item ∷ [])
Does (Event.stolen item) xs ys = xs ≡ item ∷ ys

-- The live interval fits the active buffer with a cell to spare, and no index wraps.
pub record IsSound (o : Owner) (s : ChaseLevDeque) : Type 0 where
  pub ordered : s.top ≤ end o s
  pub room : end o s + 1 ≤ s.top + (buffer s).capacity
  pub small_capacity : (buffer s).capacity ≤ 2 ^ 63
  pub small : end o s ≤ 2 ^ 63

abbrev pub OwnerKnows : Owner → ChaseLevDeque → Type 0
OwnerKnows (Owner.push_reload item) s = s.bottom < 2 ^ 63
OwnerKnows (Owner.push_room item b t) s =
    (s.bottom ≡ b) × (b < 2 ^ 63) × (t ≤ s.top) × (b + 1 ≤ t + (buffer s).capacity)
OwnerKnows (Owner.push_cell item b) s =
    (s.bottom ≡ b) × (b < 2 ^ 63) × (b + 1 < s.top + (buffer s).capacity)
OwnerKnows (Owner.push_bottom item b) s =
    (s.bottom ≡ b)
    × (b < 2 ^ 63)
    × (b + 1 < s.top + (buffer s).capacity)
    × (load_cell (buffer s) b ≡ item)
OwnerKnows (Owner.pop_top b) s = s.bottom ≡ b
OwnerKnows (Owner.pop_last b item) s =
    (s.bottom ≡ b) × (b ≤ s.top) × (load_cell (buffer s) b ≡ item)
OwnerKnows (Owner.pop_lost b) s = (s.bottom ≡ b) × (s.top ≡ b + 1)
OwnerKnows (Owner.pop_won b) s = (s.bottom ≡ b) × (s.top ≡ b + 1)
OwnerKnows (Owner.rebase_wait k) s = s.maintenance ≡ true
OwnerKnows (Owner.rebase_copy k) s = s.maintenance ≡ true
OwnerKnows _ s = Unit

-- The owner moves the items, and no thief may look.
abbrev pub copying : Owner → Bool
copying (Owner.rebase_copy k) = true
copying _ = false

-- The guard of active_thieves holds the thief.
abbrev pub inside : Thief → ℕ
inside Thief.idle = 0
inside Thief.check = 0
inside Thief.enter = 0
inside _ = 1

-- The thief may use indices and cells.
abbrev pub critical : Thief → Bool
critical Thief.idle = false
critical Thief.check = false
critical Thief.enter = false
critical Thief.recheck = false
critical Thief.leave = false
critical _ = true

-- What a thief has read, as far as the top it has read is still the top.
abbrev pub HasRead : Thief → ChaseLevDeque → ℕ → Type 0
HasRead (Thief.load_bottom t) s e = t ≤ s.top
HasRead (Thief.load_buffer t) s e = (t ≤ s.top) × (t ≡ s.top → t < e)
HasRead (Thief.load_item t k) s e =
    (t ≤ s.top)
    × (t ≡ s.top → t < e)
    × (k ≤ s.active_buffer)
    × (t ≡ s.top → load_cell (s.buffers k) t ≡ load_cell (buffer s) t)
HasRead (Thief.exchange t item) s e =
    (t ≤ s.top) × (t ≡ s.top → t < e) × (t ≡ s.top → load_cell (buffer s) t ≡ item)
HasRead _ s e = Unit

pub record ThiefKnows (p : Thief) (o : Owner) (s : ChaseLevDeque) : Type 0 where
  pub apart : critical p ≡ true → copying o ≡ false
  pub has_read : HasRead p s (end o s)

unfoldable pub count_inside : ℕ → (ℕ → Thief) → ℕ
count_inside zero thieves = 0
count_inside (suc n) thieves = inside (thieves n) + count_inside n thieves

pub record IsValid (n : ℕ) (system : System) : Type 0 where
  pub sound : IsSound system.owner system.shared
  pub owns : OwnerKnows system.owner system.shared
  pub knows : (i : ℕ) → i < n → ThiefKnows (system.thieves i) system.owner system.shared
  pub counted : system.shared.active_thieves ≡ count_inside n system.thieves
