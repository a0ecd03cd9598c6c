-- ===== src/Plugins/Forward.antt =====
-- The call of the backend in pkg/hot/plugins/plugins.go, on every branch.
use tcp_gateway.Prelude.{
  ℕ, ◌+◌, ◌-◌, ◌^◌, ◌≤◌, ◌<◌, ◌≡◌, ◌↔◌, Bool, true, false, not, ◌&&◌, ◌==◌, if◌then◌else◌, none,
  some, ◌∷◌, arith,
}
use tcp_gateway.Interfaces.{Error, service_4xx, service_5xx, Msg, done, fails}
use tcp_gateway.Plugins.{
  Session, LuaMsg, no_answer, answer, next_sequence, Env, forward_http, take_sequence,
}

-- A sequence number runs from 1 to 2 ^ 31 - 10001, and starts again from 1 there.
pub next_sequence_range :
    (n : ℕ)
    → n ≤ 2 ^ 31 - 10001
    → (1 ≤ next_sequence n)
      × (next_sequence n ≤ 2 ^ 31 - 10001)
      × (next_sequence n ≡ (if n == 2 ^ 31 - 10001 then 1 else n + 1))
unfolding next_sequence
next_sequence_range n h = (ground arith, ground arith, ground arith)

-- The connection has no error.
abbrev pub takes : Session → Bool
takes s = elim s.write_err [ none ↦ true | some e ↦ false ]

abbrev pub request : Env → Session → Msg → LuaMsg
request env s msg = record {
  sequence_id = (take_sequence s).1;
  server_id = env.server_id;
  conn_id = env.conn_id;
  msg_id = msg.id;
  bytes = env.encode64 msg.body;
}

-- Where the backend answers the request that carries the message, a status from 500 on and one from
-- 400 on have their errors, and any other status returns nil. The client is sent the reply exactly
-- on status 200 with a message id that is not 0, if its connection takes it.
pub forward_http-answer :
    (env : Env) (s : Session) (msg : Msg) (status : ℕ) (reply : LuaMsg)
    → env.post (request env s msg) ≡ answer status reply
    → (((forward_http env s msg).1 ≡ fails service_5xx) ↔ (500 ≤ status))
      × (((forward_http env s msg).1 ≡ fails service_4xx) ↔ ((400 ≤ status) × (status < 500)))
      × (((forward_http env s msg).1 ≡ done) ↔ (status < 400))
      × ((forward_http env s msg).0.sent ≡ (
          if status == 200 && (not (reply.msg_id == 0) && takes s)
          then (reply.msg_id, env.decode64 reply.bytes) ∷ s.sent
          else s.sent))
unfolding forward_http
forward_http-answer env s msg status reply h =
    (ground arith, ground arith, ground arith, ground arith)

-- Where the request fails before there is an answer, that error is returned, nothing is sent to the
-- client, and the sequence number is used up all the same.
pub forward_http-no_answer :
    (env : Env) (s : Session) (msg : Msg) (e : Error)
    → env.post (request env s msg) ≡ no_answer e
    → (forward_http env s msg ≡ ((take_sequence s).0, fails e))
      × ((forward_http env s msg).0.sent ≡ s.sent)
unfolding forward_http
forward_http-no_answer env s msg e h = (ground arith, ground arith)
