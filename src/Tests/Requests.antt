-- ===== src/Tests/Requests.antt =====
-- The private HTTP service of pkg/gateway/gateway.go.
use tcp_gateway.Prelude.{ℕ, ◌≡◌, refl, true, false, none, some, [], ◌∷◌, ◌++◌, if◌then◌else◌}
use tcp_gateway.Text.{same}
use tcp_gateway.Metric.{proto_observe}
use tcp_gateway.Gateway.{Gateway}
use tcp_gateway.Gateway.Service.{
  Service, HttpRequest, Handler, custom_recovery, log_middle, no_route, route, handle_request,
  panicked, internal_error, Bodies, close_path, unknown_path, not_found, redirected, is_slashed,
  post_method,
}
use tcp_gateway.Gateway.Service.Requests.{is_route, Answers, reply_to, handle_request-Answers}

abbrev idle : Service ℕ
idle = record {
  http_requests = 0;
  latency = [];
  alerts = [];
  answers = [];
  effects = [];
  background = [];
}

-- A handler that panics.
abbrev broken : Handler ℕ
broken q s = (s, true)

abbrev no_gateway : Gateway ℕ
no_gateway = record { agents = none; agent_uid_base = 0 }

abbrev no_bodies : Bodies
no_bodies = record { close_body = none; send_body = none; broadcast_body = none }

-- A path that is not known is counted, reported and answered.
lost :
    let t =
      (handle_request
        (λ x. x)
        (λ i. no_gateway)
        no_gateway
        no_bodies
        5
        (record { method = post_method; path = some (b'/' ∷ []) })
        idle).0 in
    (t.http_requests ≡ 1)
    × (t.answers ≡ not_found ∷ [])
    × (t.alerts ≡ unknown_path post_method (b'/' ∷ []) ∷ [])
unfolding handle_request custom_recovery log_middle route no_route same
lost = (refl, refl, refl)

handle_request-Answers_example :
    let q : HttpRequest = record { method = post_method; path = some close_path } in
    let t = handle_request (λ x. x) (λ i. no_gateway) no_gateway no_bodies 5 q idle in
    (t.1 ≡ false)
    × (if is_slashed q
        then t.0 ≡ record idle { answers = redirected ∷ [] }
        else (t.0.http_requests ≡ 1)
          × (t.0.latency ≡ proto_observe close_path 5 [])
          × Answers (is_route q) (reply_to no_bodies q) idle t.0)
handle_request-Answers_example =
    handle_request-Answers (λ x. x) (λ i. no_gateway) no_gateway no_bodies 5 post_method close_path
      idle

-- With a slash at the end of its path a request is redirected, and is not counted.
slashed :
    handle_request
      (λ x. x)
      (λ i. no_gateway)
      no_gateway
      no_bodies
      5
      (record { method = post_method; path = some (close_path ++ (b'/' ∷ [])) })
      idle
    ≡ (record idle { answers = redirected ∷ [] }, false)
unfolding handle_request same
slashed = refl

-- A handler that panics is answered with an internal error.
recovered :
    let q : HttpRequest = record { method = post_method; path = some (b'/' ∷ []) } in
    let t = custom_recovery (log_middle 5 broken) q idle in
    (t.1 ≡ false) × (t.0.answers ≡ internal_error ∷ []) × (t.0.alerts ≡ panicked ∷ [])
unfolding custom_recovery log_middle
recovered = (refl, refl, refl)
