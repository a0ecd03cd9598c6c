-- ===== src/Agent/Life.antt =====
-- The life of agents in pkg/agent/agent.go and the accept loop of pkg/gateway/gateway.go: `New` and
-- `Run`, `Close`, `Disable` and `Enable`, and the finalizer, in any interleaving of goroutines.
-- Agents are numbered in the order of their connections.
pub mod Count
pub mod Kick
use tcp_gateway.Prelude.{
  ℕ, zero, suc, ◌+◌, ◌-◌, ◌<◌, ◌≡◌, Bool, true, false, List, [], ◌∷◌, ◌++◌, length, ◌==◌,
  if◌then◌else◌, Option, some, none,
}

-- What the goroutine that waits for the context does: it waits, or it has taken the agent down and
-- is before its test of `disable`, it has found it false, it has set it, or it is through.
pub data Finalizer : Type 0 where
  waiting cleaned passing marked finished : Finalizer

-- The fields that change, and whether the connection is open. The registry stands in Gateway.
pub record Life : Type 0 where
  pub cancelled : Bool
  pub disable : Bool
  pub open_conn : Bool
  pub finalizer : Finalizer

-- `New`, behind AddAgent.
abbrev pub fresh : Life
fresh = record { cancelled = false; disable = false; open_conn = true; finalizer = waiting }

-- `Close`, and the deferred cancel of the two loops.
abbrev pub cancel : Life → Life
cancel a = record a { cancelled = true }

-- `Disable` and `Enable`.
abbrev pub set_disable : Bool → Life → Life
set_disable d a = record a { disable = d }

-- The finalizer up to its test: RemoveAgent and the connection's Close.
abbrev pub clean_up : Life → Life
clean_up a = record a { open_conn = false; finalizer = cleaned }

-- The test of `disable`; setting it; and what is left behind the notice.
abbrev pub test_disable : Life → Life
test_disable a =
    if a.disable then record a { finalizer = finished } else record a { finalizer = passing }

abbrev pub mark : Life → Life
mark a = record a { disable = true; finalizer = marked }

abbrev pub leave_finalizer : Life → Life
leave_finalizer a = record a { finalizer = finished }

-- The number `metric.CountConnection`, as what was added and what was taken off, the agents, and the
-- agents for which message 5006 was forwarded, the latest first.
pub record World : Type 0 where
  pub added : ℕ
  pub removed : ℕ
  pub agents : List Life
  pub notices : List ℕ

abbrev pub get : ℕ → List Life → Option Life
get i [] = none
get zero (a ∷ l) = some a
get (suc i) (a ∷ l) = get i l

abbrev pub set : ℕ → Life → List Life → List Life
set i b [] = []
set zero b (a ∷ l) = b ∷ l
set (suc i) b (a ∷ l) = a ∷ set i b l

-- The accept loop takes a connection.
abbrev pub accept : World → World
accept w = record w { added = w.added + 1; agents = w.agents ++ fresh ∷ [] }

-- The finalizer of agent i runs up to its test; and it forwards message 5006.
abbrev pub begin_finalizer : ℕ → Life → World → World
begin_finalizer i a w = record w { removed = w.removed + 1; agents = set i (clean_up a) w.agents }

abbrev pub notify_disconnect : ℕ → Life → World → World
notify_disconnect i a w = record w {
  agents = set i (leave_finalizer a) w.agents;
  notices = i ∷ w.notices;
}

pub data Step : World → World → Type 0 where
  accepting : (w : World) → Step w (accept w)
  cancelling :
      (w : World) (i : ℕ) (a : Life)
      → get i w.agents ≡ some a
      → Step w (record w { agents = set i (cancel a) w.agents })
  disabling :
      (w : World) (i : ℕ) (a : Life) (d : Bool)
      → get i w.agents ≡ some a
      → Step w (record w { agents = set i (set_disable d a) w.agents })
  beginning :
      (w : World) (i : ℕ) (a : Life)
      → get i w.agents ≡ some a
      → a.cancelled ≡ true
      → a.finalizer ≡ waiting
      → Step w (begin_finalizer i a w)
  testing :
      (w : World) (i : ℕ) (a : Life)
      → get i w.agents ≡ some a
      → a.finalizer ≡ cleaned
      → Step w (record w { agents = set i (test_disable a) w.agents })
  marking :
      (w : World) (i : ℕ) (a : Life)
      → get i w.agents ≡ some a
      → a.finalizer ≡ passing
      → Step w (record w { agents = set i (mark a) w.agents })
  ending :
      (w : World) (i : ℕ) (a : Life)
      → get i w.agents ≡ some a
      → a.finalizer ≡ marked
      → Step w (notify_disconnect i a w)

abbrev pub start : World
start = record { added = 0; removed = 0; agents = []; notices = [] }

pub data Reach : World → Type 0 where
  begin : Reach start
  next : (w w' : World) → Reach w → Step w w' → Reach w'
