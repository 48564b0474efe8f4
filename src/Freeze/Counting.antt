-- ===== src/Freeze/Counting.antt =====
-- How often a node stands in a list, and how many edges into a node wait for their source: the counts
-- in which the proofs about freeze() are written.
use astra_scheduler.Base.{
  ℕ, zero, suc, ◌+◌, ◌≤◌, ◌≡◌, refl, sym, subst, true, false, ◌&&◌, List, [], ◌∷◌, arith,
  ℕ_discrete, ◌==◌, if◌then◌else◌, length,
}
use astra_scheduler.Freeze.{
  GraphEdge, is_node, has_foreign, targets, insert_sorted, sort, in_degree, pop_least,
}

unfoldable pub occurrences : ℕ → List ℕ → ℕ
occurrences w [] = 0
occurrences w (x ∷ xs) = if x == w then suc (occurrences w xs) else occurrences w xs

-- The edges into w whose source is not in the list.
unfoldable pub pending : List GraphEdge → List ℕ → ℕ → ℕ
unfolding occurrences
pending [] done w = 0
pending (e ∷ es) done w =
    if e.to == w && occurrences e.from done == 0 then suc (pending es done w) else pending es done w

-- The occurrences of 1 to n.
unfoldable pub total : ℕ → List ℕ → ℕ
unfolding occurrences
total zero xs = 0
total (suc k) xs = occurrences (suc k) xs + total k xs

pub occurrences-insert_sorted :
    (w x : ℕ) (xs : List ℕ) → occurrences w (insert_sorted x xs) ≡ occurrences w (x ∷ xs)
unfolding occurrences insert_sorted
occurrences-insert_sorted w x [] = refl
occurrences-insert_sorted w x (y ∷ ys) = let ih = occurrences-insert_sorted w x ys in ground arith

pub occurrences-sort : (w : ℕ) (xs : List ℕ) → occurrences w (sort xs) ≡ occurrences w xs
unfolding occurrences sort
occurrences-sort w [] = refl
occurrences-sort w (x ∷ xs) =
    let inserted = occurrences-insert_sorted w x (sort xs) in
    let ih = occurrences-sort w xs in ground arith

pub occurrences-pop_least :
    (w x : ℕ) (xs : List ℕ)
    → occurrences w ((pop_least x xs).0 ∷ (pop_least x xs).1) ≡ occurrences w (x ∷ xs)
unfolding occurrences pop_least
occurrences-pop_least w x [] = refl
occurrences-pop_least w x (y ∷ ys) = let ih = occurrences-pop_least w y ys in ground arith

pub occurrences_self : (x : ℕ) (xs : List ℕ) → 1 ≤ occurrences x (x ∷ xs)
unfolding occurrences
occurrences_self x xs = ground arith

pub in_degree-eq-pending : (es : List GraphEdge) (w : ℕ) → in_degree es w ≡ pending es [] w
unfolding in_degree pending occurrences
in_degree-eq-pending [] w = refl
in_degree-eq-pending (e ∷ es) w = let ih = in_degree-eq-pending es w in ground arith

pub pending_cons :
    (es : List GraphEdge) (u : ℕ) (done : List ℕ) (w : ℕ)
    → occurrences u done ≡ 0
    → pending es (u ∷ done) w + occurrences w (targets u es) ≡ pending es done w
unfolding pending occurrences targets
pending_cons [] u done w h = refl
pending_cons (e ∷ es) u done w h = let ih = pending_cons es u done w h in ground arith

pub pending_foreign :
    (n : ℕ) (es : List GraphEdge) (done : List ℕ) (w : ℕ)
    → has_foreign n es ≡ false
    → is_node n w ≡ false
    → pending es done w ≡ 0
unfolding pending has_foreign
pending_foreign n [] done w h out = refl
pending_foreign n (e ∷ es) done w h out = let ih = pending_foreign n es done w in ground arith

total_cons :
    (n x : ℕ) (xs : List ℕ)
    → total n (x ∷ xs) ≡ (if is_node n x then suc (total n xs) else total n xs)
unfolding total occurrences
total_cons zero x xs = ground arith
total_cons (suc k) x xs = let ih = total_cons k x xs in ground arith

pub length-eq-total :
    (n : ℕ) (xs : List ℕ)
    → ((w : ℕ) → is_node n w ≡ false → occurrences w xs ≡ 0)
    → length xs ≡ total n xs
unfolding total occurrences
length-eq-total zero [] h = refl
length-eq-total (suc n) [] h = let ih = length-eq-total n [] (λ w out. refl) in omega arith
length-eq-total n (x ∷ xs) h =
    let cons = total_cons n x xs in
    let here = h x in
    let self = occurrences_self x xs in
    let ih = length-eq-total n xs (λ w out. let all = h w out in ground arith) in ground arith

pub total-le : (n : ℕ) (xs : List ℕ) → ((w : ℕ) → occurrences w xs ≤ 1) → total n xs ≤ n
unfolding total
total-le zero xs h = omega arith
total-le (suc n) xs h = omega (arith, total-le n xs h, h (suc n))

pub total-full :
    (n : ℕ) (xs : List ℕ) (w : ℕ)
    → ((v : ℕ) → occurrences v xs ≤ 1)
    → total n xs ≡ n
    → is_node n w ≡ true
    → occurrences w xs ≡ 1
unfolding total
total-full zero xs w h all node = ground arith
total-full (suc n) xs w h all node =
    let rest = total-le n xs h in
    let here = h (suc n) in
    let ih = total-full n xs w h in
    elim (ℕ_discrete w (suc n)) [
      | yes same ↦ subst (λ v. occurrences v xs ≡ 1) (sym same) (omega arith)
      | no other ↦ ih (omega arith) (ground arith)
    ]

pub total_ones :
    (n : ℕ) (xs : List ℕ) → ((w : ℕ) → is_node n w ≡ true → occurrences w xs ≡ 1) → total n xs ≡ n
unfolding total
total_ones zero xs h = refl
total_ones (suc n) xs h =
    let ih = total_ones n xs (λ w node. h w (ground arith)) in
    let here = h (suc n) (ground arith) in omega arith
