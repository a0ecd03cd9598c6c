-- ===== src/Plugins.antt =====
-- pkg/hot/plugins/plugins.go: the middlewares that a message of a client goes through, and the call
-- of the backend service, over the state of one connection and the counters of pkg/metric.
pub mod Chain
pub mod Forward
pub mod Limit
pub mod Sequence
use tcp_gateway.Prelude.{
  ℕ, ◌+◌, ◌-◌, ◌%◌, ◌^◌, Bool, ◌&&◌, Option, none, some, List, [], ◌∷◌, ◌++◌, ltb, leb, ◌==◌,
  if◌then◌else◌,
}
use tcp_gateway.Bytes.{Bytes}
use tcp_gateway.Text.{Text, decimal}
use tcp_gateway.Maps.{Map}
use tcp_gateway.Metric.{P99, proto_observe}
use tcp_gateway.Interfaces.{
  Error, service_4xx, service_5xx, Msg, Outcome, done, fails, panics, EndPoint, Middleware,
  use_middlewares,
}

-- `LuaMsg`.
pub record LuaMsg : Type 0 where
  pub sequence_id : ℕ
  pub server_id : Text
  pub conn_id : Text
  pub msg_id : ℕ
  pub bytes : Text

-- What the backend answers to a request: an error before the body was read, or a status code with
-- the message in the body. A body that is no JSON message reads as the message of zero values.
pub data Response : Type 0 where
  no_answer : Error → Response
  answer : ℕ → LuaMsg → Response

-- The calls of utils.AlertAuto.
pub data Alert : Type 0 where
  speed_limit slow_request panicked : Alert
  service_error : Error → Alert

pub record Session : Type 0 where
  -- `agent.storage`: the *atomic.Int32 at "concurrent" and the *atomic.Uint32 at "sequenceID".
  pub concurrent : Option ℕ
  pub sequence_id : Option ℕ
  -- The goroutines that ConcurrentMiddle started and that have not begun, the oldest first.
  pub spawned : List Msg
  -- The messages that `agent.Write` took, the latest first, or the error that it answers.
  pub sent : List (ℕ × Bytes)
  pub write_err : Option Error
  pub tcp_requests : ℕ
  pub http_requests : ℕ
  pub latency : Map P99
  pub alerts : List Alert

abbrev alert : Session → Alert → Session
alert s a = record s { alerts = a ∷ s.alerts }

-- `agent.Write`.
pub agent_write : Session → ℕ → Bytes → Session × Option Error
agent_write s id b = elim s.write_err [
  | some e ↦ (s, some e)
  | none ↦ (record s { sent = (id, b) ∷ s.sent }, none)
]

abbrev pub loaded : Option ℕ → ℕ
loaded none = 0
loaded (some n) = n

-- `RateLimitMiddle`. `Get` and `Set` of a fresh counter leave one at 0.
pub rate_limit_middle : Middleware Session
rate_limit_middle next s msg =
    let c = loaded s.concurrent in
    let s₁ = record s { tcp_requests = s.tcp_requests + 1; concurrent = some c } in
    if ltb 10 c
    then (alert s₁ speed_limit, done)
    else next (record s₁ { concurrent = some (c + 1); sequence_id = some (loaded s.sequence_id) })
        msg

-- `ConcurrentMiddle`: a goroutine is started for the rest of the chain, and nil returned.
pub concurrent_middle : Middleware Session
concurrent_middle next s msg = (record s { spawned = s.spawned ++ (msg ∷ []) }, done)

-- What the goroutine of `ConcurrentMiddle` does after it has counted the request.
pub report : Session × Outcome → Session
report (s, done) = s
report (s, fails e) = alert s (service_error e)
report (s, panics) = alert s panicked

-- `RecoverMiddle`, which PluginsMain does not use: a panic is reported, and nil is returned.
pub recover_middle : Middleware Session
recover_middle next s msg =
    let r = next s msg in elim r.1 [ done ↦ r | fails e ↦ r | panics ↦ (alert r.0 panicked, done) ]

-- The goroutine of `ConcurrentMiddle`.
unfoldable pub concurrent_task : EndPoint Session → Session → Msg → Session
unfolding report
concurrent_task next s msg = report (next (record s { http_requests = s.http_requests + 1 }) msg)

-- The deferred function of `RateLimitEndMiddle`.
pub release : Session → Session
release s = elim s.concurrent [ none ↦ s | some c ↦ record s { concurrent = some (c - 1) } ]

-- `RateLimitEndMiddle`. A deferred function runs also when `next` panics.
unfoldable pub rate_limit_end_middle : Middleware Session
unfolding release
rate_limit_end_middle next s msg = let (s', o) = next s msg in (release s', o)

-- The statistics of `LogMiddle`, which a panic skips.
pub log_cost : ℕ → Msg → Session × Outcome → Session × Outcome
log_cost cost msg (s, panics) = (s, panics)
log_cost cost msg (s, o) =
    let s' = record s { latency = proto_observe (decimal msg.id) cost s.latency } in
    (if leb 4000 cost then alert s' slow_request else s', o)

-- `LogMiddle`, for a call that takes `cost` milliseconds.
unfoldable pub log_middle : ℕ → Middleware Session
unfolding log_cost
log_middle cost next s msg = log_cost cost msg (next s msg)

-- `StressTest`; `dev` says that version.ENV is the development environment.
unfoldable pub stress_test : Bool → Middleware Session
unfolding agent_write
stress_test dev next s msg =
    let hijack : Session × Outcome =
      (let (s', e) = agent_write s 1001 msg.body in
        (s', elim e [ none ↦ done | some err ↦ fails err ])) in
    let rest = next s msg in if dev && (msg.id == 1001) then hijack else rest

-- `sequenceID.CompareAndSwap(math.MaxInt32-10000, 0)` and `sequenceID.Add(1)`.
pub next_sequence : ℕ → ℕ
next_sequence n = ((if n == 2 ^ 31 - 1 - 10000 then 0 else n) + 1) % 2 ^ 32

-- What stands outside of the program: the environment, how long a call takes, the ids of the node
-- and of the connection, the backend, and Go's base64.
pub record Env : Type 0 where
  pub dev : Bool
  pub cost : Msg → ℕ
  pub server_id : Text
  pub conn_id : Text
  pub post : LuaMsg → Response
  pub encode64 : Bytes → Text
  pub decode64 : Text → Bytes

-- What `ForwadHttp` does with the answer.
pub on_response : (Text → Bytes) → Session → Response → Session × Outcome
unfolding agent_write
on_response decode64 s (no_answer e) = (s, fails e)
on_response decode64 s (answer status reply) =
    if status == 200
    then (if reply.msg_id == 0
        then (s, done)
        else ((agent_write s reply.msg_id (decode64 reply.bytes)).0, done))
    else if leb 500 status
    then (s, fails service_5xx)
    else if leb 400 status
    then (s, fails service_4xx)
    else (s, done)

-- The sequence number of a request: 0 if the connection has no counter yet.
pub take_sequence : Session → Session × ℕ
unfolding next_sequence
take_sequence s = elim s.sequence_id [
  | none ↦ (s, 0)
  | some n ↦ (record s { sequence_id = some (next_sequence n) }, next_sequence n)
]

module _ (env : Env) where
  -- `ForwadHttp`.
  unfoldable pub forward_http : EndPoint Session
  unfolding take_sequence on_response
  forward_http s msg =
      let (s', seq) = take_sequence s in
      let req : LuaMsg = record {
        sequence_id = seq;
        server_id = env.server_id;
        conn_id = env.conn_id;
        msg_id = msg.id;
        bytes = env.encode64 msg.body;
      } in
      on_response env.decode64 s' (env.post req)

  -- `LogMiddle` takes its time from the clock.
  abbrev pub timed_log : Middleware Session
  timed_log next s msg = log_middle (env.cost msg) next s msg

  -- The middlewares of `PluginsMain` behind `ConcurrentMiddle`, which its goroutine runs.
  abbrev pub inner_middlewares : List (Middleware Session)
  inner_middlewares = rate_limit_end_middle ∷ stress_test env.dev ∷ timed_log ∷ []

  -- `PluginsMain`.
  pub plugins_main : EndPoint Session
  unfolding use_middlewares
  plugins_main =
      use_middlewares (rate_limit_middle ∷ concurrent_middle ∷ inner_middlewares) forward_http

  -- A goroutine that `PluginsMain` has started.
  unfoldable pub task : Session → Msg → Session
  unfolding use_middlewares
  task = concurrent_task (use_middlewares inner_middlewares forward_http)
