-- ===== src/Metric/Percentile.antt =====
-- `P99.Out` of pkg/metric/metric.go against the durations that were observed.
use mathlib.Core.List.{Mem, mem-cons_self, mem-cons_of_mem}
use tcp_gateway.Prelude.{
  subst, sym, ◌∙◌, ℕ, ◌+◌, ◌*◌, ◌≤◌, ◌<◌, ◌≡◌, refl, ◌≢◌, ◌⊎◌, inl, inr, List, [], ◌∷◌, arith, leb,
  if◌then◌else◌, length, All, Bool-cases,
}
use tcp_gateway.Metric.{P99, new_p99, bump, in_loop, observe, reaches, out_loop, out}

-- How many observations are at most b.
pub count_le : ℕ → List ℕ → ℕ
count_le b [] = 0
count_le b (x ∷ xs) = (if leb x b then 1 else 0) + count_le b xs

abbrev pub IsSorted : List ℕ → Type 0
IsSorted [] = Unit {0}
IsSorted (b ∷ bs) = All (λ b'. b < b') bs × IsSorted bs

-- Each counter holds the observations between the bucket before and its own; c are below the first.
abbrev Counts : List ℕ → List ℕ → (ℕ → ℕ) → ℕ → Type 0
Counts [] obs d c = Unit {0}
Counts (b ∷ bs) obs d c = (c + d b ≡ count_le b obs) × Counts bs obs d (c + d b)

-- Behind the bucket that counted i the counters are the same, and one more observation is below.
Counts-behind :
    (bs : List ℕ) (i b : ℕ) (obs : List ℕ) (d : ℕ → ℕ) (c : ℕ)
    → i ≤ b
    → All (λ b'. b < b') bs
    → Counts bs obs d c
    → Counts bs (i ∷ obs) (bump d b) (c + 1)
unfolding count_le
Counts-behind [] i b obs d c h above k = tt
Counts-behind (b' ∷ bs) i b obs d c h above k = (
  ground arith,
  subst (Counts bs (i ∷ obs) (bump d b)) (ground arith)
      (Counts-behind bs i b obs d (c + d b') h above.1 k.1),
)

in_loop_other :
    (bs : List ℕ) (i : ℕ) (p : P99) (b : ℕ)
    → All (λ b'. b < b') bs
    → (in_loop bs i p).datas b ≡ p.datas b
unfolding in_loop
in_loop_other [] i p b above = refl
in_loop_other (b' ∷ bs) i p b above = ground (arith, in_loop_other bs i p b above.1)

in_loop-Counts :
    (bs : List ℕ) (i : ℕ) (obs : List ℕ) (p : P99) (c : ℕ)
    → IsSorted bs
    → Counts bs obs p.datas c
    → Counts bs (i ∷ obs) (in_loop bs i p).datas c
unfolding in_loop count_le
in_loop-Counts [] i obs p c sorted k = tt
in_loop-Counts (b ∷ bs) i obs p c sorted k = elim (Bool-cases (leb i b)) [
  | inl e ↦ rw e (
    ground arith,
    subst (Counts bs (i ∷ obs) (bump p.datas b)) (ground arith)
        (Counts-behind bs i b obs p.datas (c + p.datas b) (ground arith) sorted.0 k.1),
  )
  | inr e ↦ rw e (
    ground (arith, in_loop_other bs i p b sorted.0),
    subst (Counts bs (i ∷ obs) (in_loop bs i p).datas)
        (ground (arith, in_loop_other bs i p b sorted.0))
        (in_loop-Counts bs i obs p (c + p.datas b) sorted.1 k.1),
  )
]

-- A bucket that is not below i.
abbrev pub IsCovered : List ℕ → ℕ → Type 0
IsCovered [] i = ⊥
IsCovered (b ∷ bs) i = (i ≤ b) ⊎ IsCovered bs i

in_loop-count :
    (bs : List ℕ) (i : ℕ) (p : P99) → IsCovered bs i → ((in_loop bs i p).count ≡ p.count + 1)
unfolding in_loop
in_loop-count [] i p h = elim h [ ]
in_loop-count (b ∷ bs) i p (inl h) = ground arith
in_loop-count (b ∷ bs) i p (inr h) = ground (arith, in_loop-count bs i p h)

in_loop-buckets : (bs : List ℕ) (i : ℕ) (p : P99) → (in_loop bs i p).buckets ≡ p.buckets
unfolding in_loop
in_loop-buckets [] i p = refl
in_loop-buckets (b ∷ bs) i p = ground (arith, in_loop-buckets bs i p)

-- The statistics after the observations, the latest of them first.
unfoldable pub observe_all : List ℕ → List ℕ → P99
observe_all bs [] = new_p99 bs
observe_all bs (x ∷ xs) = observe (observe_all bs xs) x

record Holds (bs obs : List ℕ) (p : P99) : Type 0 where
  same : p.buckets ≡ bs
  counts : Counts bs obs p.datas 0
  total : p.count ≡ length obs

new-Counts : (bs : List ℕ) → Counts bs [] (λ b. 0) 0
unfolding count_le
new-Counts [] = tt
new-Counts (b ∷ bs) = (refl, new-Counts bs)

observe_all-Holds :
    (bs obs : List ℕ) → IsSorted bs → All (IsCovered bs) obs → Holds bs obs (observe_all bs obs)
unfolding observe_all observe
observe_all-Holds bs [] sorted h = record { same = refl; counts = new-Counts bs; total = refl }
observe_all-Holds bs (x ∷ xs) sorted h =
    let p = observe_all bs xs in
    let v : Holds bs xs p = observe_all-Holds bs xs sorted h.1 in
    subst (λ bs'. Holds bs (x ∷ xs) (in_loop bs' x p)) (sym v.same)
      (record {
        same = in_loop-buckets bs x p ∙ v.same;
        counts = in_loop-Counts bs x xs p 0 sorted v.counts;
        total = in_loop-count bs x p h.0 ∙ omega (arith, v.total);
      })

-- The bucket r is the least of bs that at least 99 of 100 observations do not exceed.
abbrev pub IsP99 : List ℕ → List ℕ → ℕ → Type 0
IsP99 bs obs r =
    (99 * length obs ≤ 100 * count_le r obs)
    × Mem r bs
    × All (λ b. (r ≤ b) ⊎ (100 * count_le b obs < 99 * length obs)) bs

Reached : List ℕ → List ℕ → Type 0
Reached [] obs = ⊥
Reached (b ∷ bs) obs = (99 * length obs ≤ 100 * count_le b obs) ⊎ Reached bs obs

All-not_below :
    (bs : List ℕ) (r : ℕ) (Q : ℕ → Type 0) → All (λ b. r < b) bs → All (λ b. (r ≤ b) ⊎ Q b) bs
All-not_below [] r Q h = tt
All-not_below (b ∷ bs) r Q h = (inl (omega (arith, h.0)), All-not_below bs r Q h.1)

out_loop-IsP99 :
    (bs obs : List ℕ) (d : ℕ → ℕ) (sum : ℕ)
    → IsSorted bs
    → Counts bs obs d sum
    → Reached bs obs
    → IsP99 bs obs (out_loop bs d (length obs) sum)
unfolding out_loop Reached
out_loop-IsP99 [] obs d sum sorted k h = elim h [ ]
out_loop-IsP99 (b ∷ bs) obs d sum sorted k h =
    elim (Bool-cases (reaches (sum + d b) (length obs))) [
      | inl e ↦ subst (IsP99 (b ∷ bs) obs) (ground arith) (
        ground (arith, k.0),
        mem-cons_self,
        (
          inl (omega arith),
          All-not_below bs b (λ b'. 100 * count_le b' obs < 99 * length obs) sorted.0,
        ),
      )
      | inr e ↦
          let low : 100 * count_le b obs < 99 * length obs = ground (arith, k.0) in
          let (r₁, r₂, r₃) =
            out_loop-IsP99 bs obs d (sum + d b) sorted.1 k.1 (later b bs obs low h) in
          subst (IsP99 (b ∷ bs) obs) (ground arith) (r₁, mem-cons_of_mem b r₂, (inr low, r₃))
    ]
  where
    later :
        (b : ℕ) (bs obs : List ℕ)
        → 100 * count_le b obs < 99 * length obs
        → Reached (b ∷ bs) obs
        → Reached bs obs
    later b bs obs low (inl p) = absurd (omega arith)
    later b bs obs low (inr p) = p

count_le-All : (b : ℕ) (obs : List ℕ) → All (λ x. x ≤ b) obs → count_le b obs ≡ length obs
unfolding count_le
count_le-All b [] h = refl
count_le-All b (x ∷ xs) h = ground (arith, count_le-All b xs h.1)

-- A bucket that no observation exceeds.
abbrev pub HasTop : List ℕ → List ℕ → Type 0
HasTop [] obs = ⊥
HasTop (b ∷ bs) obs = All (λ x. x ≤ b) obs ⊎ HasTop bs obs

HasTop-Reached : (bs obs : List ℕ) → HasTop bs obs → Reached bs obs
unfolding Reached
HasTop-Reached [] obs h = elim h [ ]
HasTop-Reached (b ∷ bs) obs (inl h) = inl (omega (arith, count_le-All b obs h))
HasTop-Reached (b ∷ bs) obs (inr h) = inr (HasTop-Reached bs obs h)

HasTop-IsCovered : (bs obs : List ℕ) → HasTop bs obs → All (IsCovered bs) obs
HasTop-IsCovered bs [] h = tt
HasTop-IsCovered bs (x ∷ xs) h = (head bs h, HasTop-IsCovered bs xs (rest bs h))
  where
    head : (bs : List ℕ) → HasTop bs (x ∷ xs) → IsCovered bs x
    head [] h = elim h [ ]
    head (b ∷ bs) (inl h) = inl h.0
    head (b ∷ bs) (inr h) = inr (head bs h)

    rest : (bs : List ℕ) → HasTop bs (x ∷ xs) → HasTop bs xs
    rest [] h = elim h [ ]
    rest (b ∷ bs) (inl h) = inl h.1
    rest (b ∷ bs) (inr h) = inr (rest bs h)

counted :
    {bs : List ℕ} (obs : List ℕ) (p : P99)
    → Holds bs obs p
    → obs ≢ []
    → out p ≡ out_loop bs p.datas (length obs) 0
unfolding out
counted obs p v some = ground (arith, v.same, v.total)

-- For sorted buckets of which the last bounds the observations, and at least one observation, the
-- answer is the least bucket that at least 99 of 100 observations do not exceed.
pub out-observe_all :
    (bs obs : List ℕ)
    → IsSorted bs
    → HasTop bs obs
    → obs ≢ []
    → IsP99 bs obs (out (observe_all bs obs))
out-observe_all bs obs sorted top some =
    subst (IsP99 bs obs) (sym (counted obs p v some))
      (out_loop-IsP99 bs obs p.datas 0 sorted v.counts (HasTop-Reached bs obs top))
  where
    p : P99
    p = observe_all bs obs

    v : Holds bs obs p
    v = observe_all-Holds bs obs sorted (HasTop-IsCovered bs obs top)
