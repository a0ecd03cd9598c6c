-- ===== src/Agent/Life/Kick.antt =====
-- What `Disable` of pkg/agent/agent.go is for: the end of an agent that is kicked out is not
-- forwarded.
use tcp_gateway.Prelude.{
  ℕ, zero, suc, ◌≡◌, refl, subst, ◌∙◌, Bool, true, false, not, ◌&&◌, List, [], ◌∷◌, ◌++◌, some,
  arith, ◌==◌, Bool-cases, inl, inr,
}
use tcp_gateway.Agent.Life.{
  Life, fresh, cancel, set_disable, clean_up, test_disable, mark, leave_finalizer, passing, marked,
  Finalizer, World, get, set, Step, accepting, cancelling, disabling, beginning, testing, marking,
  ending,
}
use tcp_gateway.Agent.Life.Count.{sent, get-set_same, get-set_other}

-- The step is a call of Enable on agent i.
abbrev pub is_enable : ℕ → (w u : World) → Step w u → Bool
is_enable i w u (accepting _) = false
is_enable i w u (cancelling _ j a h) = false
is_enable i w u (disabling _ j a d h) = (i == j) && not d
is_enable i w u (beginning _ j a h c f) = false
is_enable i w u (testing _ j a h f) = false
is_enable i w u (marking _ j a h f) = false
is_enable i w u (ending _ j a h f) = false

-- Steps of which none enables agent i.
pub data Later (i : ℕ) : World → World → Type 0 where
  here : (w : World) → Later i w w
  step : (w v u : World) → Later i w v → (s : Step v u) → is_enable i v u s ≡ false → Later i w u

-- The finalizer is not between its test and its notice.
abbrev pub is_quiet : Finalizer → Bool
is_quiet passing = false
is_quiet marked = false
is_quiet _ = true

-- The agent is disabled and its finalizer has not passed the test.
abbrev pub IsKicked : Life → Type 0
IsKicked a = (a.disable ≡ true) × (is_quiet a.finalizer ≡ true)

-- Agent i is so, and k notices of it were forwarded.
abbrev pub IsDisabled : ℕ → ℕ → World → Type 0
IsDisabled i k w = (b : Life) × (get i w.agents ≡ some b) × IsKicked b × (sent i w.notices ≡ k)

get-append : (i : ℕ) (l : List Life) (a b : Life) → get i l ≡ some a → get i (l ++ b ∷ []) ≡ some a
get-append zero [] a b h = ground arith
get-append (suc i) [] a b h = ground arith
get-append zero (c ∷ l) a b h = h
get-append (suc i) (c ∷ l) a b h = get-append i l a b h

-- A step that replaces agent j by c keeps agent i kicked, if c is so where j is i.
set-IsKicked :
    (i j : ℕ) (l : List Life) (a b c : Life)
    → get i l ≡ some b
    → IsKicked b
    → get j l ≡ some a
    → (IsKicked a → (i == j) ≡ true → IsKicked c)
    → (e : Life) × (get i (set j c l) ≡ some e) × IsKicked e
set-IsKicked i j l a b c h d g k = elim (Bool-cases (i == j)) [
  | inl e ↦
      let same : i ≡ j = ground arith in
      let h' = rw same at h in
      let is_a : b ≡ a = cc in (c, rw same (get-set_same j l a c g), k (subst IsKicked is_a d) e)
  | inr e ↦ (b, get-set_other i j l c e ∙ h, d)
]

test_disable-IsKicked : (a : Life) → IsKicked a → IsKicked (test_disable a)
test_disable-IsKicked a (d, q) = rw d (refl, refl)

passed-IsKicked : (a : Life) → is_quiet a.finalizer ≡ false → IsKicked a → ⊥
passed-IsKicked a p (d, q) = ground (arith, p, q)

sent_later :
    (i j : ℕ) (l : List Life) (a b : Life) (ns : List ℕ)
    → get i l ≡ some b
    → IsKicked b
    → get j l ≡ some a
    → a.finalizer ≡ marked
    → sent i (j ∷ ns) ≡ sent i ns
sent_later i j l a b ns h d g f = elim (Bool-cases (i == j)) [
  | inl e ↦
      let same : i ≡ j = ground arith in
      let h' = rw same at h in
      let is_a : b ≡ a = cc in absurd (passed-IsKicked a (rw f refl) (subst IsKicked is_a d))
  | inr e ↦ rw e (omega arith)
]

step-IsDisabled :
    (i k : ℕ) (w u : World) (s : Step w u)
    → is_enable i w u s ≡ false
    → IsDisabled i k w
    → IsDisabled i k u
step-IsDisabled i k w _ (accepting _) q (b, h, d, n) = (b, get-append i w.agents b fresh h, d, n)
step-IsDisabled i k w _ (cancelling _ j a g) q (b, h, d, n) =
    let (e, h', d') = set-IsKicked i j w.agents a b (cancel a) h d g (λ x t. x) in (e, h', d', n)
step-IsDisabled i k w _ (disabling _ j a x g) q (b, h, d, n) =
    let (e, h', d') =
      set-IsKicked i j w.agents a b (set_disable x a) h d g (λ y t. (ground arith, y.1)) in
    (e, h', d', n)
step-IsDisabled i k w _ (beginning _ j a g c f) q (b, h, d, n) =
    let (e, h', d') = set-IsKicked i j w.agents a b (clean_up a) h d g (λ x t. (x.0, refl)) in
    (e, h', d', n)
step-IsDisabled i k w _ (testing _ j a g f) q (b, h, d, n) =
    let (e, h', d') =
      set-IsKicked i j w.agents a b (test_disable a) h d g (λ x t. test_disable-IsKicked a x) in
    (e, h', d', n)
step-IsDisabled i k w _ (marking _ j a g f) q (b, h, d, n) =
    let (e, h', d') =
      set-IsKicked i j w.agents a b (mark a) h d g
        (λ x t. absurd (passed-IsKicked a (rw f refl) x)) in
    (e, h', d', n)
step-IsDisabled i k w _ (ending _ j a g f) q (b, h, d, n) =
    let (e, h', d') =
      set-IsKicked i j w.agents a b (leave_finalizer a) h d g (λ x t. (x.0, refl)) in
    (e, h', d', sent_later i j w.agents a b w.notices h d g f ∙ n)

Later-IsDisabled : (i k : ℕ) (w u : World) → Later i w u → IsDisabled i k w → IsDisabled i k u
Later-IsDisabled i k w _ (here _) v = v
Later-IsDisabled i k w _ (step _ m u r s q) v =
    step-IsDisabled i k m u s q (Later-IsDisabled i k w m r v)

-- From a moment when agent i is disabled and its finalizer has not passed the test of that, and as long
-- as no step enables it, no message 5006 of it is forwarded, whatever else happens to it and to the
-- others.
pub Later-sent :
    (i : ℕ) (w u : World) (a : Life)
    → get i w.agents ≡ some a
    → a.disable ≡ true
    → is_quiet a.finalizer ≡ true
    → Later i w u
    → sent i u.notices ≡ sent i w.notices
Later-sent i w u a g d q r = (Later-IsDisabled i (sent i w.notices) w u r (a, g, (d, q), refl)).3
