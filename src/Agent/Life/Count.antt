-- ===== src/Agent/Life/Count.antt =====
-- What holds of the agents of pkg/agent/agent.go in every interleaving of their lives.
use tcp_gateway.Prelude.{
  ℕ, zero, suc, ◌+◌, ◌≡◌, refl, false, List, [], ◌∷◌, ◌++◌, some, arith, ◌==◌, if◌then◌else◌,
  Bool-cases, inl, inr,
}
use tcp_gateway.Agent.Life.{
  waiting, Life, test_disable, mark, leave_finalizer, fresh, cancel, set_disable, clean_up, World,
  get, set, accepting, cancelling, disabling, beginning, testing, marking, ending, Reach, begin,
  next,
}

abbrev pub busy : Life → ℕ
busy a = elim a.finalizer [ waiting ↦ 1 | _ ↦ 0 ]

-- The agents that no finalizer has taken down.
abbrev pub running : List Life → ℕ
running [] = 0
running (a ∷ l) = busy a + running l

abbrev pub sent : ℕ → List ℕ → ℕ
sent i [] = 0
sent i (j ∷ l) = (if i == j then 1 else 0) + sent i l

running-append : (l : List Life) (a : Life) → running (l ++ a ∷ []) ≡ running l + busy a
running-append [] a = omega arith
running-append (b ∷ l) a = omega (arith, running-append l a)

running-set :
    (i : ℕ) (l : List Life) (a b : Life)
    → get i l ≡ some a
    → running (set i b l) + busy a ≡ running l + busy b
running-set zero [] a b h = ground arith
running-set (suc i) [] a b h = ground arith
running-set zero (c ∷ l) a b h = ground arith
running-set (suc i) (c ∷ l) a b h = omega (arith, running-set i l a b h)

busy-test_disable : (a : Life) → busy (test_disable a) ≡ 0
busy-test_disable a = elim (Bool-cases a.disable) [ inl e ↦ rw e refl | inr e ↦ rw e refl ]

pub get-set_same :
    (i : ℕ) (l : List Life) (a b : Life) → get i l ≡ some a → get i (set i b l) ≡ some b
get-set_same zero [] a b h = ground arith
get-set_same (suc i) [] a b h = ground arith
get-set_same zero (c ∷ l) a b h = refl
get-set_same (suc i) (c ∷ l) a b h = get-set_same i l a b h

pub get-set_other :
    (i j : ℕ) (l : List Life) (b : Life) → (i == j) ≡ false → get i (set j b l) ≡ get i l
get-set_other i zero [] b h = refl
get-set_other i (suc j) [] b h = refl
get-set_other zero zero (c ∷ l) b h = ground arith
get-set_other (suc i) zero (c ∷ l) b h = refl
get-set_other zero (suc j) (c ∷ l) b h = refl
get-set_other (suc i) (suc j) (c ∷ l) b h = get-set_other i j l b (ground arith)

-- In every interleaving, what `metric.CountConnection` holds is the number of agents that no
-- finalizer has taken down: each connection is counted once and taken off once.
pub Reach-running : (w : World) → Reach w → w.added ≡ w.removed + running w.agents
Reach-running w begin = refl
Reach-running w (next v _ r (accepting _)) =
    omega (arith, Reach-running v r, running-append v.agents fresh)
Reach-running w (next v _ r (cancelling _ i a h)) =
    omega (arith, Reach-running v r, running-set i v.agents a (cancel a) h)
Reach-running w (next v _ r (disabling _ i a d h)) =
    omega (arith, Reach-running v r, running-set i v.agents a (set_disable d a) h)
Reach-running w (next v _ r (beginning _ i a h c f)) =
    let e = running-set i v.agents a (clean_up a) h in omega (arith, Reach-running v r, rw f at e)
Reach-running w (next v _ r (testing _ i a h f)) =
    let e = running-set i v.agents a (test_disable a) h in
    omega (arith, Reach-running v r, rw f at e, busy-test_disable a)
Reach-running w (next v _ r (marking _ i a h f)) =
    let e = running-set i v.agents a (mark a) h in omega (arith, Reach-running v r, rw f at e)
Reach-running w (next v _ r (ending _ i a h f)) =
    let e = running-set i v.agents a (leave_finalizer a) h in
    omega (arith, Reach-running v r, rw f at e)
