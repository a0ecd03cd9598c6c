-- ===== src/Tests/Forwarding.antt =====
-- The chain of pkg/hot/plugins/plugins.go.
use tcp_gateway.Prelude.{List, ◌+◌, ◌≤◌, ◌<◌, ◌≡◌, ◌↔◌, refl, false, none, [], ◌∷◌, arith}
use tcp_gateway.Interfaces.{service_4xx, service_5xx, Msg, done, fails}
use tcp_gateway.Plugins.{
  Session, LuaMsg, Response, answer, Env, plugins_main, task, concurrent_task,
  rate_limit_end_middle, stress_test, log_middle, forward_http,
}
use tcp_gateway.Plugins.Forward.{forward_http-answer}
use tcp_gateway.Plugins.Sequence.{
  Counter, Op, start, compare_and_swap, add, perform, run, in_turn, sequence_limit, run-cyclic,
  run-escaped,
}
use tcp_gateway.Plugins.Limit.{System, here, next, arrive, Limited, Reach-Limited}

abbrev reply : LuaMsg
reply = record { sequence_id = 0; server_id = []; conn_id = []; msg_id = 2002; bytes = 9 ∷ [] }

-- A backend that answers every request with the status, and base64 that does nothing.
abbrev env_with : Response → Env
env_with r = record {
  dev = false;
  cost = λ msg. 5;
  server_id = [];
  conn_id = [];
  post = λ req. r;
  encode64 = λ b. b;
  decode64 = λ t. t;
}

abbrev fresh : Session
fresh = record {
  concurrent = none;
  sequence_id = none;
  spawned = [];
  sent = [];
  write_err = none;
  tcp_requests = 0;
  http_requests = 0;
  latency = [];
  alerts = [];
}

abbrev hello : Msg
hello = record { id = 1500; body = 1 ∷ [] }

forward_http-answer_example :
    let r = forward_http (env_with (answer 200 reply)) fresh hello in
    ((r.1 ≡ fails service_5xx) ↔ (500 ≤ 200))
    × ((r.1 ≡ fails service_4xx) ↔ ((400 ≤ 200) × (200 < 500)))
    × ((r.1 ≡ done) ↔ (200 < 400))
    × (r.0.sent ≡ (2002, 9 ∷ []) ∷ [])
forward_http-answer_example =
    forward_http-answer (env_with (answer 200 reply)) fresh hello 200 reply refl

abbrev idle : System
idle = record { session = fresh; running = [] }

Reach-Limited_example :
    Limited (env_with (answer 200 reply)) (record {
      session = (plugins_main (env_with (answer 200 reply)) fresh hello).0;
      running = [];
    })
Reach-Limited_example =
    Reach-Limited (env_with (answer 200 reply)) {t = idle} refl refl refl (next here (arrive hello))

-- A message goes out to the backend, and its answer to the client.
answered : (task (env_with (answer 200 reply)) fresh hello).sent ≡ (2002, 9 ∷ []) ∷ []
unfolding task concurrent_task rate_limit_end_middle stress_test log_middle forward_http
answered = refl

-- Two requests that are both between their operations.
abbrev turns : List Op
turns = compare_and_swap ∷ compare_and_swap ∷ add ∷ add ∷ []

run-cyclic_example : (run (in_turn 3) start).given ≡ 3 ∷ 2 ∷ 1 ∷ []
run-cyclic_example = run-cyclic 3

-- One below its limit the same two requests take the counter past it.
abbrev nearly : Counter
nearly = record { value = 2147473646; waiting = 0; given = [] }

overtaken : (run turns nearly).value ≡ sequence_limit + 1
unfolding run perform
overtaken = refl

abbrev beyond : Counter
beyond = record { value = 2147473648; waiting = 0; given = [] }

run-escaped_example : sequence_limit < (run turns beyond).value
run-escaped_example = run-escaped turns beyond (omega arith) (omega arith)
