-- ===== src/Stress/Proxy.antt =====
-- stressProxy of cmd/stress/stress.go against a gateway whose backend answers the request for the
-- time: the message goes through the plugins to the backend, and its reply to the client.
use tcp_gateway.Prelude.{ℕ, ◌+◌, ◌^◌, ◌<◌, ◌≡◌, refl, Bool, none, some, [], arith, length}
use tcp_gateway.Bytes.{Bytes}
use tcp_gateway.Text.{Text}
use tcp_gateway.Encoding.{marshal, encode, wrote}
use tcp_gateway.Plugins.{
  Session, LuaMsg, answer, Env, task, concurrent_task, rate_limit_end_middle, stress_test,
  log_middle, forward_http,
}
use tcp_gateway.Plugins.Forward.{request}
use tcp_gateway.Plugins.Chain.{admitted}
use tcp_gateway.Stress.{
  Stats, send_buf, proxy_round, sync_time_id, sync_time_reply_id, sync_time_request,
}
use tcp_gateway.Stress.Rounds.{Ready, Answers, play, play_lem, counted}

Answers-forward :
    (env : Env) (s : Session) (reply : LuaMsg)
    → ((q : LuaMsg) → q.msg_id ≡ sync_time_id → env.post q ≡ answer 200 reply)
    → reply.msg_id ≡ sync_time_reply_id
    → Ready s
    → Answers env s
        (record { id = sync_time_id; body = [] })
        sync_time_reply_id
        (env.decode64 reply.bytes)
unfolding task concurrent_task rate_limit_end_middle stress_test log_middle forward_http
Answers-forward env s reply p i r =
    let s₁ = record (admitted s) { http_requests = s.http_requests + 1 } in
    let a = p (request env s₁ (record { id = sync_time_id; body = [] })) refl in
    record {
      answered = ground arith;
      still = ground arith;
      open_still = ground arith;
      given_back = ground arith;
    }

-- The test of forwarding finds no fault: where the backend answers each request for the time with
-- status 200 and one reply that has the expected id and fits in a frame, from a connection with nothing
-- under way and no error, every round counts a success and none an error, and the connection is left as
-- it was found.
pub proxy-play :
    (env : Env) (exported : Text → Bool) (reply : LuaMsg) (n : ℕ) (s : Session) (stats : Stats)
    → ((q : LuaMsg) → q.msg_id ≡ sync_time_id → env.post q ≡ answer 200 reply)
    → reply.msg_id ≡ sync_time_reply_id
    → length (env.decode64 reply.bytes) + 10 < 2 ^ 32
    → Ready s
    → (sent : Bytes) × (marshal exported sync_time_request ≡ wrote sent)
      × (t : Session) × (play env (send_buf sync_time_id sent) (proxy_round exported none) n s stats
          ≡ some (t, counted stats n))
      × Ready t
unfolding marshal encode proxy_round
proxy-play env exported reply n s stats p i k r =
    let (t, e, ready) =
      play_lem env sync_time_id sync_time_reply_id [] (env.decode64 reply.bytes) n s stats
        (record {
          id_from = omega arith;
          id_to = omega arith;
          size_from = omega arith;
          size_to = omega arith;
        })
        (omega arith) k (λ u v. Answers-forward env u reply p i v) r in
    ([], refl, t, e, ready)
