-- ===== src/Tests/Agents.antt =====
-- The agent registry of pkg/gateway/gateway.go. Agents are numbers here.
use tcp_gateway.Prelude.{List, ℕ, ◌≡◌, ◌≢◌, refl, none, some, [], ◌∷◌, arith, if◌then◌else◌}
use tcp_gateway.Text.{Text, same, trim_space, is_space}
use tcp_gateway.Maps.{lookup, insert}
use tcp_gateway.Gateway
use tcp_gateway.Gateway.{
  Gateway, added, refused, panics, add_agent, remove_agent, get_agent, close, generate_agent_uid,
}
use tcp_gateway.Gateway.Registry.{get_agent-add_agent}
use tcp_gateway.Gateway.Keys.{
  IsRegistry, add_agent-IsRegistry, adding, removing, closing, perform_all, perform_all-IsRegistry,
}
use tcp_gateway.Gateway.Accept.{start, connection, accept_failed, accept_round, crashes}
use tcp_gateway.Gateway.Accept.Ids
use tcp_gateway.Gateway.Accept.Ids.{Event, accepting, run}
use tcp_gateway.Gateway.Accept.Registration.{Registers, run-Registers}
use tcp_gateway.Gateway.Uid.{generate_all, Distinct, generate_all-Distinct}

abbrev empty : Gateway ℕ
empty = Gateway.new

-- "a" is registered.
abbrev one : Gateway ℕ
one = record { agents = some ((b'a' ∷ [], 7) ∷ []); agent_uid_base = 0 }

abbrev padded : Text
padded = 32 ∷ b'a' ∷ []

add_padded : add_agent empty padded 7 ≡ added one
unfolding add_agent same trim_space insert lookup
add_padded = refl

padded_untrimmed : trim_space padded ≡ b'a' ∷ []
unfolding trim_space
padded_untrimmed = refl

padded-ne : trim_space padded ≢ padded
padded-ne e = unfold trim_space in ground arith

get_agent-add_agent_example :
    (get_agent one (b'a' ∷ [])
      ≡ (if same (trim_space padded) (b'a' ∷ []) then some 7 else get_agent empty (b'a' ∷ [])))
    × (get_agent empty (trim_space padded) ≡ none)
    × (one.agent_uid_base ≡ empty.agent_uid_base)
get_agent-add_agent_example = get_agent-add_agent empty one padded (b'a' ∷ []) 7 add_padded

empty-IsRegistry : IsRegistry empty
empty-IsRegistry = tt

one-IsRegistry : IsRegistry one
one-IsRegistry = add_agent-IsRegistry empty one padded 7 add_padded empty-IsRegistry

perform_all-IsRegistry_example :
    IsRegistry (perform_all (adding padded 7 ∷ removing padded ∷ closing ∷ []) one)
perform_all-IsRegistry_example =
    perform_all-IsRegistry (adding padded 7 ∷ removing padded ∷ closing ∷ []) one one-IsRegistry

generate_all-Distinct_example : Distinct (generate_all empty ((5, 6) ∷ (5, 6) ∷ []))
generate_all-Distinct_example = generate_all-Distinct empty ((5, 6) ∷ (5, 6) ∷ []) (omega arith)

-- "1_5_6".
first_uid : (generate_agent_uid 5 6 empty).1 ≡ b'1' ∷ b'_' ∷ b'5' ∷ b'_' ∷ b'6' ∷ []
unfolding generate_agent_uid tcp_gateway.Text.decimal
first_uid = refl

-- Two connections, an error of Accept, and the end of the first agent.
abbrev events : List Event
events =
    accepting (connection 5 6)
    ∷ accepting accept_failed
    ∷ accepting (connection 5 6)
    ∷ Ids.removing (b'1' ∷ b'_' ∷ b'5' ∷ b'_' ∷ b'6' ∷ [])
    ∷ []

run-Registers_example : Registers 7 8 (run events start)
run-Registers_example = run-Registers events 7 8 (omega arith)

-- A connection after Close makes the loop panic.
accepted_late :
    accept_round (connection 5 6) (record start { gateway = (close start.gateway).0 }) ≡ crashes
unfolding accept_round generate_agent_uid close add_agent same trim_space tcp_gateway.Text.decimal
accepted_late = refl
