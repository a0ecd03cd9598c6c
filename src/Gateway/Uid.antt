-- ===== src/Gateway/Uid.antt =====
-- The agent ids that `GenerateAgentUID` of pkg/gateway/gateway.go makes.
use tcp_gateway.Prelude.{
  ℕ, ◌+◌, ◌-◌, ◌^◌, ◌≤◌, ◌<◌, ◌≡◌, refl, ap, ◌∙◌, sym, ◌≢◌, List, [], ◌∷◌, ◌++◌, arith, length, All,
  ◌==◌, if◌then◌else◌,
}
use tcp_gateway.Text.{Text, decimal}
use tcp_gateway.Text.Decimal.{decimal-injective, decimal-IsDigit, IsDigit}
use tcp_gateway.Gateway.{Gateway, generate_agent_uid}

-- The text before the first underscore.
before : Text → Text
before [] = []
before (c ∷ cs) = let rest = before cs in if c == b'_' then [] else c ∷ rest

before-digits : (ds rest : Text) → All IsDigit ds → before (ds ++ (b'_' ∷ rest)) ≡ ds
unfolding before
before-digits [] rest h = refl
before-digits (d ∷ ds) rest h = ground (arith, before-digits ds rest h.1)

abbrev pub uid_text : ℕ → ℕ → ℕ → Text
uid_text uid now random_id = decimal uid ++ (b'_' ∷ (decimal now ++ (b'_' ∷ decimal random_id)))

pub uid_text-injective : (u v now now' r r' : ℕ) → uid_text u now r ≡ uid_text v now' r' → u ≡ v
uid_text-injective u v now now' r r' e = decimal-injective u v (
    sym (before-digits (decimal u) (decimal now ++ (b'_' ∷ decimal r)) (decimal-IsDigit u))
    ∙ ap before e
    ∙ before-digits (decimal v) (decimal now' ++ (b'_' ∷ decimal r')) (decimal-IsDigit v))

-- The highest counter that an id gets.
abbrev pub uid_limit : ℕ
uid_limit = 2 ^ 64 - 1001

-- An id of a counter above base.
abbrev Above : ℕ → Text → Type 0
Above base t = (u : ℕ) × (now : ℕ) × (r : ℕ) × (base < u) × (t ≡ uid_text u now r)

Above-mono : (ts : List Text) (b c : ℕ) → b ≤ c → All (Above c) ts → All (Above b) ts
Above-mono [] b c h a = tt
Above-mono (t ∷ ts) b c h ((u, now, r, p, e), a) =
    ((u, now, r, omega arith, e), Above-mono ts b c h a)

-- No id stands twice in the list.
abbrev pub Distinct : List Text → Type 0
Distinct [] = Unit {0}
Distinct (t ∷ ts) = All (λ t'. t ≢ t') ts × Distinct ts

Above-ne : (u now r : ℕ) (ts : List Text) → All (Above u) ts → All (λ t'. uid_text u now r ≢ t') ts
Above-ne u now r [] a = tt
Above-ne u now r (t ∷ ts) ((v, now', r', p, e), a) = (
  λ q. absurd (omega (arith, uid_text-injective u v now now' r r' (q ∙ e))),
  Above-ne u now r ts a,
)

module _ {ℓ} {V : Type ℓ} where
  -- The ids of a row of calls, at the times and with the random numbers of the row.
  pub generate_all : Gateway V → List (ℕ × ℕ) → List Text
  generate_all gw [] = []
  generate_all gw ((now, r) ∷ calls) =
      let (gw', uid) = generate_agent_uid now r gw in uid ∷ generate_all gw' calls

  -- The counter stays from 1 to its limit and starts again from 1 there, the id shows it, and the
  -- agents are as they were.
  pub generate_agent_uid-limit :
      (now r : ℕ) (gw : Gateway V)
      → gw.agent_uid_base ≤ uid_limit
      → ((generate_agent_uid now r gw).0.agent_uid_base ≤ uid_limit)
        × (1 ≤ (generate_agent_uid now r gw).0.agent_uid_base)
        × ((generate_agent_uid now r gw).0.agent_uid_base
            ≡ (if gw.agent_uid_base == uid_limit then 1 else gw.agent_uid_base + 1))
        × ((generate_agent_uid now r gw).1
            ≡ uid_text (generate_agent_uid now r gw).0.agent_uid_base now r)
        × ((generate_agent_uid now r gw).0.agents ≡ gw.agents)
  unfolding generate_agent_uid
  generate_agent_uid-limit now r gw h = (ground arith, ground arith, ground arith, refl, refl)

  generate_all-Above :
      (gw : Gateway V) (calls : List (ℕ × ℕ))
      → gw.agent_uid_base + length calls ≤ uid_limit
      → All (Above gw.agent_uid_base) (generate_all gw calls)
  unfolding generate_all
  generate_all-Above gw [] h = tt
  generate_all-Above gw ((now, r) ∷ calls) h =
      let gw' = (generate_agent_uid now r gw).0 in
      let (_, _, next, text, _) = generate_agent_uid-limit now r gw (omega arith) in
      let e : gw'.agent_uid_base ≡ gw.agent_uid_base + 1 = ground (arith, next) in
      (
        (gw'.agent_uid_base, now, r, omega (arith, e), text),
        Above-mono (generate_all gw' calls) gw.agent_uid_base gw'.agent_uid_base (omega (arith, e))
            (generate_all-Above gw' calls (omega (arith, e))),
      )

  -- The ids of a run are pairwise different as long as its counter does not reach the limit, whatever
  -- the clock and the random numbers are.
  pub generate_all-Distinct :
      (gw : Gateway V) (calls : List (ℕ × ℕ))
      → gw.agent_uid_base + length calls ≤ uid_limit
      → Distinct (generate_all gw calls)
  unfolding generate_all
  generate_all-Distinct gw [] h = tt
  generate_all-Distinct gw ((now, r) ∷ calls) h =
      let gw' = (generate_agent_uid now r gw).0 in
      let (_, _, next, text, _) = generate_agent_uid-limit now r gw (omega arith) in
      let e : gw'.agent_uid_base ≡ gw.agent_uid_base + 1 = ground (arith, next) in
      let rest : gw'.agent_uid_base + length calls ≤ uid_limit = omega (arith, e) in
      (
        rw text (
            Above-ne gw'.agent_uid_base now r (generate_all gw' calls)
              (generate_all-Above gw' calls rest)),
        generate_all-Distinct gw' calls rest,
      )
