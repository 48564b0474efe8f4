-- ===== src/Deque/Contents.antt =====
-- The cells of a buffer: what a store leaves alone, and what the copies of grow and of the rebase keep.
use astra_scheduler.Base.{
  ℕ, zero, suc, ◌+◌, ◌-◌, ◌%◌, ◌≤◌, ◌<◌, ◌≡◌, refl, sym, ap, ◌∙◌, subst, ◌≢◌, List, [], ◌∷◌, ◌++◌,
  arith, ℕ_discrete, length, update,
}
use astra_scheduler.Deque.{Buffer, load_cell, store_cell, copy_cells, snapshot, store_all}
use astra_scheduler.Deque.Windows.{mod-ne}

pub load-store_self : (i item : ℕ) (buf : Buffer) → load_cell (store_cell i item buf) i ≡ item
load-store_self i item buf = ground arith

pub load-store_ne :
    (i j item : ℕ) (buf : Buffer)
    → j % buf.capacity ≢ i % buf.capacity
    → load_cell (store_cell i item buf) j ≡ load_cell buf j
load-store_ne i j item buf h = ground arith

pub snapshot-ext :
    (n t : ℕ) (old new : Buffer)
    → ((i : ℕ) → t ≤ i → i < t + n → load_cell old i ≡ load_cell new i)
    → snapshot old t n ≡ snapshot new t n
unfolding snapshot
snapshot-ext zero t old new same = refl
snapshot-ext (suc n) t old new same =
    let head = same t (omega arith) (omega arith) in
    let tail = snapshot-ext n (t + 1) old new (λ i a b. same i (omega arith) (omega arith)) in cc

pub snapshot-snoc :
    (n t : ℕ) (buf : Buffer)
    → snapshot buf t (suc n) ≡ snapshot buf t n ++ (load_cell buf (t + n) ∷ [])
unfolding snapshot
snapshot-snoc zero t buf = let e : t + zero ≡ t = omega arith in rw e refl
snapshot-snoc (suc n) t buf =
    let e : t + suc n ≡ t + 1 + n = omega arith in
    let rest = snapshot-snoc n (t + 1) buf in rw e (ap (λ (l : List ℕ). load_cell buf t ∷ l) rest)

pub length-snapshot : (n t : ℕ) (buf : Buffer) → length (snapshot buf t n) ≡ n
unfolding snapshot
length-snapshot zero t buf = refl
length-snapshot (suc n) t buf = ap suc (length-snapshot n (t + 1) buf)

-- A copy of cells before or after a window leaves the window alone.
pub copy_cells-capacity :
    (n t : ℕ) (old new : Buffer) → (copy_cells old t n new).capacity ≡ new.capacity
unfolding copy_cells
copy_cells-capacity zero t old new = refl
copy_cells-capacity (suc n) t old new =
    copy_cells-capacity n (t + 1) old (store_cell t (load_cell old t) new)

copy_cells_before :
    (n t i : ℕ) (old new : Buffer)
    → i < t
    → t + n ≤ i + new.capacity
    → load_cell (copy_cells old t n new) i ≡ load_cell new i
unfolding copy_cells
copy_cells_before zero t i old new before near = refl
copy_cells_before (suc n) t i old new before near =
    copy_cells_before n (t + 1) i old (store_cell t (load_cell old t) new) (omega arith)
      (omega arith)
    ∙ load-store_ne t i (load_cell old t) new
        (λ e. mod-ne new.capacity i t before (omega arith) (sym e))

pub load-copy_cells :
    (n t i : ℕ) (old new : Buffer)
    → t ≤ i
    → i < t + n
    → n ≤ new.capacity
    → load_cell (copy_cells old t n new) i ≡ load_cell old i
unfolding copy_cells
load-copy_cells zero t i old new low high fits = absurd (omega arith)
load-copy_cells (suc n) t i old new low high fits = elim (ℕ_discrete t i) [
  | yes e ↦
      copy_cells_before n (t + 1) i old (store_cell t (load_cell old t) new) (omega arith)
        (omega arith)
      ∙ ground (arith)
  | no ne ↦
      load-copy_cells n (t + 1) i old (store_cell t (load_cell old t) new) (omega arith)
        (omega arith) (omega arith)
]

pub store_all-capacity :
    (xs : List ℕ) (t : ℕ) (buf : Buffer) → (store_all t xs buf).capacity ≡ buf.capacity
unfolding store_all
store_all-capacity [] t buf = refl
store_all-capacity (x ∷ xs) t buf = store_all-capacity xs (t + 1) (store_cell t x buf)

store_all_before :
    (xs : List ℕ) (t i : ℕ) (buf : Buffer)
    → i < t
    → t + length xs ≤ i + buf.capacity
    → load_cell (store_all t xs buf) i ≡ load_cell buf i
unfolding store_all
store_all_before [] t i buf before near = refl
store_all_before (x ∷ xs) t i buf before near =
    store_all_before xs (t + 1) i (store_cell t x buf) (omega arith) (omega arith)
    ∙ load-store_ne t i x buf (λ e. mod-ne buf.capacity i t before (omega arith) (sym e))

pub snapshot-store_all :
    (xs : List ℕ) (t : ℕ) (buf : Buffer)
    → length xs ≤ buf.capacity
    → snapshot (store_all t xs buf) t (length xs) ≡ xs
unfolding snapshot store_all
snapshot-store_all [] t buf fits = refl
snapshot-store_all (x ∷ xs) t buf fits =
    let head =
      store_all_before xs (t + 1) t (store_cell t x buf) (omega arith) (omega arith)
      ∙ load-store_self t x buf in
    let tail = snapshot-store_all xs (t + 1) (store_cell t x buf) (omega arith) in cc

pub update_self {ℓ} : {A : Type ℓ} (f : ℕ → A) (i : ℕ) (v : A) → update f i v i ≡ v
update_self f i v = ground arith

pub update_ne {ℓ} : {A : Type ℓ} (f : ℕ → A) (i j : ℕ) (v : A) → i ≢ j → update f i v j ≡ f j
update_ne f i j v h = ground arith

-- The last item of a window.
pub snapshot_last :
    (buf : Buffer) (t b item f g : ℕ)
    → t ≤ b
    → f ≡ b + 1
    → g ≡ b
    → load_cell buf b ≡ item
    → snapshot buf t (f - t) ≡ snapshot buf t (g - t) ++ (item ∷ [])
snapshot_last buf t b item f g h e d is =
    let n : f - t ≡ suc (b - t) = omega arith in
    let at : t + (b - t) ≡ b = omega arith in
    let last = snapshot-snoc (b - t) t buf in
    rw (n, d, ← is)
      (subst (λ i. snapshot buf t (suc (b - t)) ≡ snapshot buf t (b - t) ++ (load_cell buf i ∷ []))
        at last)

pub snapshot_none : (buf : Buffer) (t f : ℕ) → f ≤ t → snapshot buf t (f - t) ≡ []
unfolding snapshot
snapshot_none buf t f h = let e : f - t ≡ zero = omega arith in rw e refl

-- The first item of a window.
pub snapshot_first :
    (buf : Buffer) (t f : ℕ)
    → t < f
    → snapshot buf t (f - t) ≡ load_cell buf t ∷ snapshot buf (t + 1) (f - (t + 1))
unfolding snapshot
snapshot_first buf t f h = let e : f - t ≡ suc (f - (t + 1)) = omega arith in rw e refl
