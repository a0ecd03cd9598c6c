-- ===== src/Plugins/Limit.antt =====
-- The rate limit of pkg/hot/plugins/plugins.go over all interleavings: one read loop, and a goroutine
-- for each message, which may begin and finish in any order. The limit counter and the list of
-- goroutines are touched by atomic steps only; what else a goroutine does is put at its end.
use tcp_gateway.Prelude.{
  ℕ, suc, ◌+◌, ◌-◌, ◌≤◌, ◌≡◌, ap, List, [], ◌∷◌, ◌++◌, arith, length, length-append,
}
use tcp_gateway.Interfaces.{Msg, EndPoint}
use tcp_gateway.Plugins.{
  Session, Env, rate_limit_end_middle, stress_test, timed_log, log_middle, forward_http,
  plugins_main, task, loaded, concurrent_task,
}
use tcp_gateway.Plugins.Chain.{task-eq, plugins_main_lem}

-- A connection, with the goroutines that have begun.
pub record System : Type 0 where
  pub session : Session
  pub running : List Msg

-- The fields of the limit are as before.
record Keeps (s t : Session) : Type 0 where
  concurrent : t.concurrent ≡ s.concurrent
  spawned : t.spawned ≡ s.spawned

module _ (env : Env) where
  forward_http-Keeps : (s : Session) (msg : Msg) → Keeps s (forward_http env s msg).0
  unfolding forward_http
  forward_http-Keeps s msg = ground arith

  timed_log-Keeps :
      (next : EndPoint Session)
      → ((s : Session) (msg : Msg) → Keeps s (next s msg).0)
      → (s : Session) (msg : Msg) → Keeps s (timed_log env next s msg).0
  unfolding log_middle
  timed_log-Keeps next h s msg = ground (arith, h s msg)

  stress_test-Keeps :
      (next : EndPoint Session)
      → ((s : Session) (msg : Msg) → Keeps s (next s msg).0)
      → (s : Session) (msg : Msg) → Keeps s (stress_test env.dev next s msg).0
  unfolding stress_test
  stress_test-Keeps next h s msg = ground (arith, h s msg)

  inner : EndPoint Session
  inner = stress_test env.dev (timed_log env (forward_http env))

  inner-Keeps : (s : Session) (msg : Msg) → Keeps s (inner s msg).0
  unfolding inner
  inner-Keeps = stress_test-Keeps _ (timed_log-Keeps _ forward_http-Keeps)

  -- A goroutine gives back its place, however the call of the backend ends.
  task_lem :
      (s : Session) (msg : Msg)
      → ((task env s msg).spawned ≡ s.spawned)
        × (loaded (task env s msg).concurrent ≡ loaded s.concurrent - 1)
  task_lem s msg = rw task-eq (
      unfold inner concurrent_task rate_limit_end_middle in
      (
        ground (arith, inner-Keeps (record s { http_requests = s.http_requests + 1 }) msg),
        ground (arith, inner-Keeps (record s { http_requests = s.http_requests + 1 }) msg),
      ))

  -- A message arrives; a goroutine begins; a goroutine ends.
  pub data Step (t : System) : System → Type 0 where
    arrive : (msg : Msg) → Step t (record t { session = (plugins_main env t.session msg).0 })
    begin :
        (xs ys : List Msg) (msg : Msg)
        → t.session.spawned ≡ xs ++ (msg ∷ ys)
        → Step t (record {
          session = record (t.session) { spawned = xs ++ ys };
          running = msg ∷ t.running;
        })
    finish :
        (xs ys : List Msg) (msg : Msg)
        → t.running ≡ xs ++ (msg ∷ ys)
        → Step t (record { session = task env t.session msg; running = xs ++ ys })

  pub data Reach (t : System) : System → Type 0 where
    here : Reach t t
    next : {u v : System} → Reach t u → Step u v → Reach t v

  abbrev pub in_flight : System → ℕ
  in_flight t = length t.session.spawned + length t.running

  -- The counter of the limit is the number of messages under way, and that is 11 at most.
  pub record Limited (t : System) : Type 0 where
    pub counted : loaded t.session.concurrent ≡ in_flight t
    pub bounded : in_flight t ≤ 11

  length_middle :
      (l xs ys : List Msg) (m : Msg) → l ≡ xs ++ (m ∷ ys) → length l ≡ suc (length (xs ++ ys))
  length_middle l xs ys m e =
      omega (arith, ap length e, length-append xs (m ∷ ys), length-append xs ys)

  -- Every step of the system keeps the counter equal to the number of messages under way, and that
  -- number at 11 or less.
  pub Step-Limited : {t u : System} → Step t u → Limited t → Limited u
  Step-Limited {t} (arrive msg) v =
      grind (arith, plugins_main_lem env t.session msg, length-append t.session.spawned (msg ∷ []))
  Step-Limited {t} (begin xs ys msg e) v =
      ground (arith, length_middle t.session.spawned xs ys msg e)
  Step-Limited {t} (finish xs ys msg e) v =
      ground (arith, length_middle t.running xs ys msg e, task_lem t.session msg)

  -- From a connection with nothing under way, however messages arrive and goroutines are scheduled,
  -- at most 11 messages of the connection are under way at a time, and the counter says how many.
  pub Reach-Limited :
      {t u : System}
      → loaded t.session.concurrent ≡ 0
      → t.session.spawned ≡ []
      → t.running ≡ []
      → Reach t u
      → Limited u
  Reach-Limited c s r here = ground arith
  Reach-Limited c s r (next path st) = Step-Limited st (Reach-Limited c s r path)
