-- ===== src/Gateway/Registry.antt =====
-- Laws of the agent registry of pkg/gateway/gateway.go.
use tcp_gateway.Prelude.{
  ◌≡◌, ◌≢◌, ◌↔◌, false, none, some, [], arith, inl, inr, Option-cases, if◌then◌else◌,
}
use tcp_gateway.Text.{Text, same, same_iff, trim_space}
use tcp_gateway.Text.Trim.{trim_space-trim_space}
use tcp_gateway.Interfaces.{agent_uid_duplicated, bad_agent_uid}
use tcp_gateway.Maps.{Map, lookup, insert, lookup-insert, lookup-delete}
use tcp_gateway.Gateway.{Gateway, added, refused, panics, add_agent, remove_agent, get_agent, close}

module _ {ℓ} {V : Type ℓ} where
  -- What stood in the registry where an agent was added, and what stands there now.
  pub add_agent-eq-added :
      (gw gw' : Gateway V) (id : Text) (a : V)
      → add_agent gw id a ≡ added gw'
      → (m : Map V) × (gw.agents ≡ some m)
        × (same (trim_space id) [] ≡ false)
        × (lookup (trim_space id) m ≡ none)
        × (gw' ≡ record gw { agents = some (insert (trim_space id) a m) })
  unfolding add_agent
  add_agent-eq-added gw gw' id a h = elim (Option-cases gw.agents) [
    | inl e ↦ absurd (ground arith)
    | inr (m, e) ↦ (m, e, ground arith, ground arith, ground arith)
  ]

  get_agent_of :
      (gw : Gateway V) (m : Map V) (j : Text)
      → gw.agents ≡ some m
      → get_agent gw j ≡ (if same (trim_space j) [] then none else lookup j m)
  unfolding get_agent
  get_agent_of gw m j e = ground arith

  -- After an agent was added, its trimmed id finds it, every other id finds what it did before, and
  -- the uid counter is as it was. Before, the trimmed id found nothing.
  pub get_agent-add_agent :
      (gw gw' : Gateway V) (id j : Text) (a : V)
      → add_agent gw id a ≡ added gw'
      → (get_agent gw' j ≡ (if same (trim_space id) j then some a else get_agent gw j))
        × (get_agent gw (trim_space id) ≡ none)
        × (gw'.agent_uid_base ≡ gw.agent_uid_base)
  get_agent-add_agent gw gw' id j a h =
      let (m, e, blank, fresh, new) = add_agent-eq-added gw gw' id a h in
      (
        ground (
          arith,
          get_agent_of gw m j e,
          get_agent_of gw' (insert (trim_space id) a m) j (ground arith),
          lookup-insert (trim_space id) j a m,
          same_iff (trim_space id) j,
          trim_space-trim_space id,
        ),
        ground (arith, get_agent_of gw m (trim_space id) e),
        ground arith,
      )

  -- A registry that was not closed refuses an id exactly if it is blank, or if its trimmed form is
  -- taken, each with its error.
  pub add_agent-refused :
      (gw : Gateway V) (m : Map V) (id : Text) (a : V)
      → gw.agents ≡ some m
      → ((add_agent gw id a ≡ refused bad_agent_uid) ↔ (trim_space id ≡ []))
        × ((add_agent gw id a ≡ refused agent_uid_duplicated)
            ↔ (get_agent gw (trim_space id) ≢ none))
        × (add_agent gw id a ≢ panics)
  unfolding add_agent
  add_agent-refused gw m id a e = (
    ground (arith, same_iff (trim_space id) []),
    ground (arith, get_agent_of gw m (trim_space id) e, trim_space-trim_space id),
    ground arith,
  )

  -- Removing an id that finds an agent hands that agent out, and from then on the id finds nothing;
  -- every other id finds what it did. The uid counter is as it was.
  pub remove_agent_lem :
      (gw : Gateway V) (id j : Text)
      → ((remove_agent gw id).1 ≡ get_agent gw id)
        × (get_agent (remove_agent gw id).0 j ≡ (if same id j then none else get_agent gw j))
        × ((remove_agent gw id).0.agent_uid_base ≡ gw.agent_uid_base)
  unfolding remove_agent get_agent
  remove_agent_lem gw id j = elim (Option-cases gw.agents) [
    | inl e ↦ (ground arith, ground (arith, same_iff id j), ground arith)
    | inr (m, e) ↦ (ground arith, ground (arith, same_iff id j, lookup-delete id j m), ground arith)
  ]

  -- A closed gateway finds no agent and removes none, and a call of `AddAgent` panics.
  pub close_lem :
      (gw : Gateway V) (id : Text) (a : V)
      → trim_space id ≢ []
      → (get_agent (close gw).0 id ≡ none)
        × (remove_agent (close gw).0 id ≡ ((close gw).0, none))
        × (add_agent (close gw).0 id a ≡ panics)
  unfolding close get_agent remove_agent add_agent
  close_lem gw id a h = (ground arith, ground arith, ground (arith, same_iff (trim_space id) []))
