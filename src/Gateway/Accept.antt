-- ===== src/Gateway/Accept.antt =====
-- The accept loop of pkg/gateway/gateway.go, with the finalizers of the agents that take them out of the
-- registry. An agent is the number of its connection and its id.
pub mod Ids
pub mod Registration
use tcp_gateway.Prelude.{ℕ, ◌+◌, Option, none, some, List, [], ◌∷◌, if◌then◌else◌}
use tcp_gateway.Text.{Text}
use tcp_gateway.Interfaces.{Error}
use tcp_gateway.Gateway.{
  Gateway, Added, added, refused, panics, add_agent, remove_agent, generate_agent_uid,
}
use tcp_gateway.Gateway

pub record Agent : Type 0 where
  pub number : ℕ
  pub cid : Text

-- The gateway; how many connections were accepted; what was added to `metric.CountConnection`; the
-- agents on which Run was called, the connections that were closed at once, and the alerts, each with
-- the latest first.
pub record Acceptor : Type 0 where
  pub gateway : Gateway Agent
  pub connections : ℕ
  pub counted : ℕ
  pub running : List Agent
  pub closed : List ℕ
  pub alerts : List Error

abbrev pub start : Acceptor
start = record {
  gateway = Gateway.new;
  connections = 0;
  counted = 0;
  running = [];
  closed = [];
  alerts = [];
}

-- What Accept returns: a connection, with the time and the random number of its id, net.ErrClosed, or
-- another error.
pub data Accepted : Type 0 where
  connection : ℕ → ℕ → Accepted
  listener_closed : Accepted
  accept_failed : Accepted

-- How a round of the loop ends: with the next round, with its return, or with a panic, which the
-- deferred AlertPanic raises again.
pub data Round : Type 0 where
  continues : Acceptor → Round
  returns : Acceptor → Round
  crashes : Round

-- The agent of the next connection.
abbrev pub next_agent : ℕ → ℕ → Acceptor → Agent
next_agent now random_id w = record {
  number = w.connections;
  cid = (generate_agent_uid now random_id w.gateway).1;
}

-- The round behind AddAgent.
abbrev pub after_add : Agent → Added Agent → Acceptor → Round
after_add a (added gw) w = continues (record w {
  gateway = gw;
  connections = w.connections + 1;
  counted = w.counted + 1;
  running = a ∷ w.running;
})
after_add a (refused e) w = continues (record w {
  connections = w.connections + 1;
  closed = a.number ∷ w.closed;
  alerts = e ∷ w.alerts;
})
after_add a panics w = crashes

-- One round.
unfoldable pub accept_round : Accepted → Acceptor → Round
accept_round listener_closed w = returns w
accept_round accept_failed w = continues w
accept_round (connection now random_id) w =
    let a = next_agent now random_id w in
    let gw = (generate_agent_uid now random_id w.gateway).0 in
    after_add a (add_agent gw a.cid a) (record w { gateway = gw })
