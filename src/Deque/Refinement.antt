-- ===== src/Deque/Refinement.antt =====
-- The deque does what a list does from which one end gives and takes and the other gives.
use astra_scheduler.Base.{
  ℕ, zero, suc, ◌+◌, ◌^◌, ◌≤◌, ◌<◌, ◌≡◌, refl, sym, ap, ◌∙◌, subst, inl, inr, true, false, List, [],
  ◌∷◌, arith, ℕ_discrete, Bool-cases, update,
}
use astra_scheduler.Deque.{
  ChaseLevDeque, Owner, Thief, Event, Environment, snapshot, owner_step, thief_step, System, Step,
  Reach,
}
use astra_scheduler.Deque.Contents.{update_ne}
use astra_scheduler.Deque.Invariant.{
  reserved, end, contents, Does, OwnerKnows, copying, inside, critical, HasRead, ThiefKnows,
  count_inside, IsValid,
}
use astra_scheduler.Deque.Stability.{
  outside-ThiefKnows, ThiefKnows-IsStable, count_inside-update, count_inside_le, inside-count,
  critical-inside,
}
use astra_scheduler.Deque.Owning.{owner_step-IsGood}
use astra_scheduler.Deque.Thieving.{thief_step-IsFair, thief_step-IsFair}

copying-maintenance :
    (o : Owner) (s : ChaseLevDeque) → OwnerKnows o s → copying o ≡ true → s.maintenance ≡ true
copying-maintenance o s k c = ground arith

parted :
    {p : Thief} {o : Owner} {s : ChaseLevDeque}
    → ThiefKnows p o s
    → copying o ≡ true
    → critical p ≡ false
parted {p} k c = elim (Bool-cases (critical p)) [
  | inl in_it ↦ absurd (let x = k.apart in_it in cc)
  | inr out ↦ out
]

-- A step of a valid deque.
record IsRefined (n : ℕ) (a : System) (e : Event) (b : System) : Type 0 where
  valid : IsValid n b
  does : Does e (contents a.owner a.shared) (contents b.owner b.shared)

owner-IsRefined :
    (n : ℕ) (env : Environment) (o : Owner) (s : ChaseLevDeque) (thieves : ℕ → Thief)
    → IsValid n (record { shared = s; owner = o; thieves = thieves })
    → IsRefined n
        (record { shared = s; owner = o; thieves = thieves })
        (owner_step env o s).event
        (record {
          shared = (owner_step env o s).shared;
          owner = (owner_step env o s).owner;
          thieves = thieves;
        })
owner-IsRefined n env o s thieves v =
    let g = owner_step-IsGood env o s v.sound v.owns in
    record {
      valid = record {
        sound = g.sound;
        owns = g.owns;
        knows = λ i h.
            ThiefKnows-IsStable (thieves i) g.stable
              (λ c. critical-inside (thieves i) (
                let x = g.entering c in
                let y = v.counted in let z = inside-count n i thieves h in omega arith))
              (v.knows i h);
        counted = g.guard ∙ v.counted;
      };
      does = g.does;
    }

thief-IsRefined :
    (n : ℕ) (o : Owner) (s : ChaseLevDeque) (thieves : ℕ → Thief) (i : ℕ)
    → i < n
    → n < 2 ^ 32
    → IsValid n (record { shared = s; owner = o; thieves = thieves })
    → IsRefined n
        (record { shared = s; owner = o; thieves = thieves })
        (thief_step (thieves i) s).event
        (record {
          shared = (thief_step (thieves i) s).shared;
          owner = o;
          thieves = update thieves i (thief_step (thieves i) s).thief;
        })
thief-IsRefined n o s thieves i h small v =
    let p = thieves i in
    let q = (thief_step p s).thief in
    let few = count_inside_le n thieves in
    let counted = v.counted in
    let low = inside-count n i thieves h in
    let move = count_inside-update n i thieves Thief.recheck h in
    let later = count_inside_le n (update thieves i Thief.recheck) in
    let f =
      thief_step-IsFair o s v.sound v.owns p (v.knows i h) (copying-maintenance o s v.owns)
        (omega arith) (omega arith) (omega arith) in
    record {
      valid = record {
        sound = f.sound;
        owns = f.owns;
        knows = λ j g. elim (ℕ_discrete i j) [
          | yes e ↦
              subst (λ (x : Thief). ThiefKnows x o (thief_step p s).shared) (ground arith) f.knows
          | no ne ↦
              subst (λ (x : Thief). ThiefKnows x o (thief_step p s).shared)
                (sym (update_ne thieves i j q ne))
                (ThiefKnows-IsStable (thieves j) (λ a b. f.stable) (parted (v.knows j g))
                  (v.knows j g))
        ];
        counted =
            let gone = count_inside-update n i thieves q h in let moved = f.counts in omega arith;
      };
      does = f.does;
    }

push-IsRefined :
    (n : ℕ) (q : Owner) (s : ChaseLevDeque) (thieves : ℕ → Thief)
    → (reserved q ≡ 0) × (copying q ≡ false) × OwnerKnows q s
    → IsValid n (record { shared = s; owner = Owner.idle; thieves = thieves })
    → IsRefined n
        (record { shared = s; owner = Owner.idle; thieves = thieves })
        Event.silent
        (record { shared = s; owner = q; thieves = thieves })
push-IsRefined n q s thieves (e, c, owns) v =
    let same : end q s ≡ end Owner.idle s = ap (λ (r : ℕ). s.bottom + r) e in
    let g = v.sound in
    record {
      valid = record {
        sound = record {
          ordered = rw same g.ordered;
          room = rw same g.room;
          small_capacity = g.small_capacity;
          small = rw same g.small;
        };
        owns = owns;
        knows = λ i h. record {
          apart = λ x. c;
          has_read = subst (HasRead (thieves i) s) (sym same) (v.knows i h).has_read;
        };
        counted = v.counted;
      };
      does = rw same refl;
    }

steal-IsRefined :
    (n : ℕ) (o : Owner) (s : ChaseLevDeque) (thieves : ℕ → Thief) (i : ℕ)
    → i < n
    → thieves i ≡ Thief.idle
    → IsValid n (record { shared = s; owner = o; thieves = thieves })
    → IsRefined n
        (record { shared = s; owner = o; thieves = thieves })
        Event.silent
        (record { shared = s; owner = o; thieves = update thieves i Thief.check })
steal-IsRefined n o s thieves i h idle v = record {
  valid = record {
    sound = v.sound;
    owns = v.owns;
    knows = λ j g. elim (ℕ_discrete i j) [
      | yes e ↦ outside-ThiefKnows (update thieves i Thief.check j) o s (ground arith)
      | no ne ↦
          subst (λ (x : Thief). ThiefKnows x o s) (sym (update_ne thieves i j Thief.check ne))
            (v.knows j g)
    ];
    counted =
        let gone = count_inside-update n i thieves Thief.check h in
        let before : inside (thieves i) ≡ 0 = ap inside idle in
        let counted = v.counted in omega arith;
  };
  does = refl;
}

Step-IsRefined :
    {n : ℕ} {a : System} {e : Event} {b : System}
    → n < 2 ^ 32
    → Step n a e b
    → IsValid n a
    → IsRefined n a e b
Step-IsRefined {n} small (Step.push {s} {thieves} item) v =
    push-IsRefined n (Owner.push_load item) s thieves (refl, refl, tt) v
Step-IsRefined {n} small (Step.pop {s} {thieves}) v =
    push-IsRefined n Owner.pop_start s thieves (refl, refl, tt) v
Step-IsRefined {n} small (Step.owner {s} {o} {thieves} env) v = owner-IsRefined n env o s thieves v
Step-IsRefined {n} small (Step.steal {s} {o} {thieves} i h idle) v =
    steal-IsRefined n o s thieves i h idle v
Step-IsRefined {n} small (Step.thief {s} {o} {thieves} i h) v =
    thief-IsRefined n o s thieves i h small v

count_inside_idle : (n : ℕ) → count_inside n (λ i. Thief.idle) ≡ 0
unfolding count_inside
count_inside_idle zero = refl
count_inside_idle (suc n) = omega (arith, count_inside_idle n)

pub Reach-IsValid :
    {capacity n : ℕ} {system : System} {es : List Event}
    → 0 < capacity
    → capacity ≤ 2 ^ 63
    → n < 2 ^ 32
    → Reach capacity n system es
    → IsValid n system
Reach-IsValid {n} pos small few Reach.start = record {
  sound = record {
    ordered = omega arith;
    room = omega arith;
    small_capacity = small;
    small = omega arith;
  };
  owns = tt;
  knows = λ i h. outside-ThiefKnows Thief.idle Owner.idle _ refl;
  counted = sym (count_inside_idle n);
}
Reach-IsValid pos small few (Reach.next r st) =
    (Step-IsRefined few st (Reach-IsValid pos small few r)).valid

-- The lists that events, the latest first, make of an empty one.
pub data Replays : List Event → List ℕ → Type 0 where
  start : Replays [] []
  next :
      {e : Event} {es : List Event} {xs ys : List ℕ}
      → Replays es xs
      → Does e xs ys
      → Replays (e ∷ es) ys

-- A deque of at least one cell and at most 2 ^ 63, with fewer than 2 ^ 32 thieves, does in every
-- interleaving of the owner's and the thieves' accesses what a list does: each push adds its item at
-- one end, each pop takes the item at that end, each steal the one at the other, and growth and the
-- quiescent rebase do nothing to it.
pub Reach-Replays :
    {capacity n : ℕ} {system : System} {es : List Event}
    → 0 < capacity
    → capacity ≤ 2 ^ 63
    → n < 2 ^ 32
    → Reach capacity n system es
    → Replays es (contents system.owner system.shared)
unfolding snapshot
Reach-Replays pos small few Reach.start = Replays.start
Reach-Replays pos small few (Reach.next r st) =
    Replays.next (Reach-Replays pos small few r)
      (Step-IsRefined few st (Reach-IsValid pos small few r)).does
