-- ===== src/Tests/Stress.antt =====
-- Rounds of cmd/stress/stress.go.
use tcp_gateway.Prelude.{Bool, true, ◌≡◌, refl, none, some, [], ◌∷◌, ◌++◌, arith}
use tcp_gateway.Bytes.{Bytes}
use tcp_gateway.Text.{Text}
use tcp_gateway.Interfaces.{timeout, eof}
use tcp_gateway.Writer.{frame}
use tcp_gateway.Encoding.{marshal, wrote}
use tcp_gateway.Agent.Reader.{read_full}
use tcp_gateway.Plugins.{Session, LuaMsg, answer, Env}
use tcp_gateway.Stress.{
  Stats, send_buf, continues, stops, report, dial, read_reply, read_reply_body, echo_id,
  echo_request, echo_round, sync_time_id, sync_time_reply_id, sync_time_request, proxy_round,
}
use tcp_gateway.Stress.Rounds.{Ready, play, counted}
use tcp_gateway.Stress.Echo.{echo-play}
use tcp_gateway.Stress.Proxy.{proxy-play}

abbrev zeroed : Stats
zeroed = record {
  conn_num = 1;
  error_num = 0;
  succ_num_tmp = 0;
  succ_num = 0;
  send_num = 0;
  qps = 0;
}

abbrev any : Text → Bool
any t = true

abbrev time_reply : LuaMsg
time_reply = record {
  sequence_id = 1;
  server_id = [];
  conn_id = [];
  msg_id = sync_time_reply_id;
  bytes = 1 ∷ 2 ∷ 3 ∷ 4 ∷ [];
}

-- The gateway in the development environment, with a backend that knows the time.
abbrev env : Env
env = record {
  dev = true;
  cost = λ msg. 5;
  server_id = [];
  conn_id = [];
  post = λ req. answer 200 time_reply;
  encode64 = λ b. b;
  decode64 = λ t. t;
}

abbrev session : Session
session = record {
  concurrent = none;
  sequence_id = none;
  spawned = [];
  sent = [];
  write_err = none;
  tcp_requests = 0;
  http_requests = 0;
  latency = [];
  alerts = [];
}

session-Ready : Ready session
session-Ready = record { quiet = refl; flushed = refl; writable = refl; room = omega arith }

abbrev hi : Text
hi = b'h' ∷ b'i' ∷ []

echo-play_example :
    (request : Bytes) × (marshal any (echo_request hi) ≡ wrote request)
    × (t : Session) × (play env (send_buf echo_id request) (echo_round any hi none) 3 session zeroed
        ≡ some (t, counted zeroed 3))
    × Ready t
echo-play_example = echo-play env any hi 3 session zeroed refl refl refl (omega arith) session-Ready

proxy-play_example :
    (sent : Bytes) × (marshal any sync_time_request ≡ wrote sent)
    × (t : Session) × (play env (send_buf sync_time_id sent) (proxy_round any none) 3 session zeroed
        ≡ some (t, counted zeroed 3))
    × Ready t
proxy-play_example =
    proxy-play env any time_reply 3 session zeroed (λ q e. refl) refl (omega arith) session-Ready

-- A message with another id is passed over.
pushed :
    read_reply echo_id zeroed (record { input = frame 2002 (9 ∷ []) 0 ++ 5 ∷ []; last = timeout })
    ≡ continues zeroed (record { input = 5 ∷ []; last = timeout })
unfolding read_reply read_reply_body read_full frame
pushed = refl

-- A connection that ends ends the client with an error.
ended :
    read_reply echo_id zeroed (record { input = 1 ∷ 2 ∷ []; last = eof })
    ≡ stops (record zeroed { error_num = 1 })
unfolding read_reply read_reply_body read_full
ended = refl

-- Twelve successes in five seconds are two in a second.
reported :
    report (record (dial none zeroed) { succ_num_tmp = 12; succ_num = 20 })
    ≡ record zeroed { conn_num = 2; succ_num = 20; qps = 2 }
unfolding report dial
reported = refl
