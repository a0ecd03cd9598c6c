-- ===== src/Plugins/Chain.antt =====
-- The order of the chain of pkg/hot/plugins/plugins.go, and what its synchronous part does.
use tcp_gateway.Prelude.{◌+◌, ◌≤◌, ◌≡◌, some, refl, [], ◌∷◌, ◌++◌, arith, ltb, if◌then◌else◌}
use tcp_gateway.Interfaces.{Msg, done}
use tcp_gateway.Plugins.{
  Session, Env, speed_limit, rate_limit_middle, concurrent_middle, concurrent_task,
  rate_limit_end_middle, stress_test, timed_log, forward_http, plugins_main, task, loaded,
}

module _ (env : Env) where
  -- The chain in the order in which its parts run.
  pub plugins_main-eq :
      plugins_main env
      ≡ rate_limit_middle (
          concurrent_middle
            (rate_limit_end_middle (stress_test env.dev (timed_log env (forward_http env)))))
  unfolding plugins_main
  plugins_main-eq = refl

  pub task-eq :
      task env
      ≡ concurrent_task
          (rate_limit_end_middle (stress_test env.dev (timed_log env (forward_http env))))
  unfolding task
  task-eq = refl

  -- A message of a client is dropped with an alert if more than ten are under way by the counter,
  -- and otherwise gets a goroutine of its own and a place in the counter. In either case the call
  -- returns nil, and the request is counted.
  pub plugins_main_lem :
      (s : Session) (msg : Msg)
      → ((plugins_main env s msg).1 ≡ done)
        × ((plugins_main env s msg).0.tcp_requests ≡ s.tcp_requests + 1)
        × ((plugins_main env s msg).0.spawned
            ≡ (if ltb 10 (loaded s.concurrent) then s.spawned else s.spawned ++ (msg ∷ [])))
        × (loaded (plugins_main env s msg).0.concurrent ≡ (
            if ltb 10 (loaded s.concurrent) then loaded s.concurrent else loaded s.concurrent + 1))
        × ((plugins_main env s msg).0.alerts
            ≡ (if ltb 10 (loaded s.concurrent) then speed_limit ∷ s.alerts else s.alerts))
  unfolding rate_limit_middle concurrent_middle
  plugins_main_lem s msg =
      rw plugins_main-eq (ground arith, ground arith, ground arith, ground arith, ground arith)

-- The session when the goroutine of a message begins, where there is room for it and no other waits.
abbrev pub admitted : Session → Session
admitted s = record s {
  tcp_requests = s.tcp_requests + 1;
  concurrent = some (loaded s.concurrent + 1);
  sequence_id = some (loaded s.sequence_id);
  spawned = [];
}

pub plugins_main-admitted :
    (env : Env) (s : Session) (msg : Msg)
    → s.spawned ≡ []
    → loaded s.concurrent ≤ 10
    → (plugins_main env s msg).0 ≡ record (admitted s) { spawned = msg ∷ [] }
unfolding rate_limit_middle concurrent_middle
plugins_main-admitted env s msg q r = rw plugins_main-eq (ground arith)
