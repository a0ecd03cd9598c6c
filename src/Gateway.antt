-- ===== src/Gateway.antt =====
-- pkg/gateway/gateway.go: the registry of agents. The methods hold the lock, so each is one step.
-- An agent is any value: the map holds pointers, which stand for themselves.
pub mod Registry
pub mod Uid
pub mod Push
pub mod Keys
pub mod Handlers
pub mod Service
pub mod Accept
use mathlib.Core.Option
use tcp_gateway.Prelude.{
  ℕ, ◌+◌, ◌-◌, ◌%◌, ◌^◌, Bool, Option, none, some, List, [], ◌∷◌, ◌++◌, map, ◌==◌, if◌then◌else◌,
}
use tcp_gateway.Text.{Text, same, trim_space, decimal}
use tcp_gateway.Maps.{Map, lookup, insert, delete}
use tcp_gateway.Interfaces.{Error, agent_uid_duplicated, bad_agent_uid}

-- `agents` is none for the nil map that `Close` leaves.
pub record Gateway {ℓ} (V : Type ℓ) : Type ℓ where
  pub agents : Option (Map V)
  pub agent_uid_base : ℕ

-- What `AddAgent` does. A write to the nil map panics.
pub data Added {ℓ} (V : Type ℓ) : Type ℓ where
  added : Gateway V → Added V
  refused : Error → Added V
  panics : Added V

module _ {ℓ} {V : Type ℓ} where
  -- `New`.
  abbrev pub new : Gateway V
  new = record { agents = some []; agent_uid_base = 0 }

  -- A read of the nil map finds nothing.
  abbrev pub find : Text → Option (Map V) → Option V
  find id none = none
  find id (some m) = lookup id m

  -- `gateway.agents[id] = agent`.
  abbrev store : Gateway V → Text → V → Option (Map V) → Added V
  store gw id agent none = panics
  store gw id agent (some m) = added (record gw { agents = some (insert id agent m) })

  -- `AddAgent` behind the trimming of the id.
  pub add_trimmed : Gateway V → Text → V → Added V
  add_trimmed gw id agent = if same id [] then refused bad_agent_uid else elim (find id gw.agents) [
    | some _ ↦ refused agent_uid_duplicated
    | none ↦ store gw id agent gw.agents
  ]

  -- `AddAgent`.
  unfoldable pub add_agent : Gateway V → Text → V → Added V
  unfolding add_trimmed
  add_agent gw id agent = add_trimmed gw (trim_space id) agent

  -- `RemoveAgent`.
  pub remove_agent : Gateway V → Text → Gateway V × Option V
  remove_agent gw id = if same (trim_space id) [] then (gw, none) else elim (find id gw.agents) [
    | none ↦ (gw, none)
    | some agent ↦ (record gw { agents = Option.map (delete id) gw.agents }, some agent)
  ]

  -- `GetAgent`.
  unfoldable pub get_agent : Gateway V → Text → Option V
  get_agent gw id = if same (trim_space id) [] then none else find id gw.agents

  -- `GetAgents` copies the map.
  pub get_agents : Gateway V → Map V
  get_agents gw = elim gw.agents [ none ↦ [] | some m ↦ m ]

  -- `Close`: every agent in the map is closed, and the map is let go.
  unfoldable pub close : Gateway V → Gateway V × List V
  close gw = (
    record gw { agents = none },
    elim gw.agents [ none ↦ [] | some m ↦ map (λ (id, agent). agent) m ],
  )

  -- `GenerateAgentUID`, at the time `now` in nanoseconds and with the number `random_id` from
  -- rand.Uint32N(9999999). Only the accept loop calls it, so the two atomic operations are one step.
  unfoldable pub generate_agent_uid : ℕ → ℕ → Gateway V → Gateway V × Text
  generate_agent_uid now random_id gw =
      let base = if gw.agent_uid_base == 2 ^ 64 - 1 - 1000 then 0 else gw.agent_uid_base in
      let uid = (base + 1) % 2 ^ 64 in
      (
        record gw { agent_uid_base = uid },
        decimal uid ++ (b'_' ∷ (decimal now ++ (b'_' ∷ decimal random_id))),
      )
