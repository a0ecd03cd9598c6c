-- ===== src/Gateway/Service.antt =====
-- The private HTTP service of pkg/gateway/gateway.go: its routes, the answer to other paths, and the
-- middlewares of pkg/hot/middlewares/middlewares.go around them. Binding a body is a parameter, and so
-- is the time that a request takes, in milliseconds.
pub mod Requests
use tcp_gateway.Prelude.{
  ℕ, ◌+◌, Bool, true, false, ◌&&◌, ◌||◌, Option, none, some, List, [], ◌∷◌, ◌++◌, leb,
  if◌then◌else◌,
}
use tcp_gateway.Bytes.{Bytes}
use tcp_gateway.Text.{Text, same}
use tcp_gateway.Maps.{Map}
use tcp_gateway.Metric.{P99, proto_observe}
use tcp_gateway.Gateway.{Gateway}
use tcp_gateway.Gateway.Handlers.{
  Effect, Reply, success, bad_request, Served, SendRequest, BroadcastRequest, handle_close,
  handle_send, handle_send_and_close, handle_broadcast,
}

-- The alerts, and the replies with their status.
pub data ServiceAlert : Type 0 where
  unknown_path : Text → Text → ServiceAlert
  panicked : ServiceAlert
  slow_request : Text → ServiceAlert

pub data Answer : Type 0 where
  ok : Reply → Answer
  not_found : Answer
  redirected : Answer
  internal_error : Answer

-- What the handlers change: the counters and latencies of pkg/metric, the alerts, the replies to the
-- request and the effects on agents, those before the reply and those of goroutines. Each list has the
-- latest last.
pub record Service {ℓ} (V : Type ℓ) : Type ℓ where
  pub http_requests : ℕ
  pub latency : Map P99
  pub alerts : List ServiceAlert
  pub answers : List Answer
  pub effects : List (Effect V)
  pub background : List (Effect V)

-- The request: `path` is none where the request has no URL.
pub record HttpRequest : Type 0 where
  pub method : Text
  pub path : Option Text

-- The bodies of a request, as far as they can be bound.
pub record Bodies : Type 0 where
  pub close_body : Option Text
  pub send_body : Option SendRequest
  pub broadcast_body : Option BroadcastRequest

-- A gin handler, which says whether it panics.
abbrev pub Handler {ℓ} : Type ℓ → Type ℓ
Handler V = HttpRequest → Service V → Service V × Bool

abbrev pub close_path : Text
close_path =
    b'/' ∷ b'a' ∷ b'g' ∷ b'e' ∷ b'n' ∷ b't' ∷ b'/' ∷ b'v' ∷ b'1' ∷ b'/' ∷ b'c' ∷ b'l' ∷ b'o' ∷ b's'
    ∷ b'e' ∷ []

abbrev pub send_path : Text
send_path =
    b'/' ∷ b'a' ∷ b'g' ∷ b'e' ∷ b'n' ∷ b't' ∷ b'/' ∷ b'v' ∷ b'1' ∷ b'/' ∷ b's' ∷ b'e' ∷ b'n' ∷ b'd'
    ∷ []

abbrev pub send_and_close_path : Text
send_and_close_path =
    b'/' ∷ b'a' ∷ b'g' ∷ b'e' ∷ b'n' ∷ b't' ∷ b'/' ∷ b'v' ∷ b'1' ∷ b'/' ∷ b's' ∷ b'e' ∷ b'n' ∷ b'd'
    ∷ b'A' ∷ b'n' ∷ b'd' ∷ b'C' ∷ b'l' ∷ b'o' ∷ b's' ∷ b'e' ∷ []

abbrev pub broadcast_path : Text
broadcast_path =
    b'/' ∷ b'a' ∷ b'g' ∷ b'e' ∷ b'n' ∷ b't' ∷ b'/' ∷ b'v' ∷ b'1' ∷ b'/' ∷ b'b' ∷ b'r' ∷ b'o' ∷ b'a'
    ∷ b'd' ∷ b'c' ∷ b'a' ∷ b's' ∷ b't' ∷ []

abbrev pub post_method : Text
post_method = b'P' ∷ b'O' ∷ b'S' ∷ b'T' ∷ []

abbrev pub path_text : Option Text → Text
path_text none = []
path_text (some p) = p

abbrev pub is_slashed : HttpRequest → Bool
is_slashed q =
    same q.method post_method
    && (same (path_text q.path) (close_path ++ (b'/' ∷ []))
        || (same (path_text q.path) (send_path ++ (b'/' ∷ []))
            || (same (path_text q.path) (send_and_close_path ++ (b'/' ∷ []))
                || same (path_text q.path) (broadcast_path ++ (b'/' ∷ [])))))

module _ {ℓ} {V : Type ℓ} where
  -- `CustomRecovery`.
  unfoldable pub custom_recovery : Handler V → Handler V
  custom_recovery next q s =
      let r = next q s in
      if r.1
      then (
        record (r.0) {
          alerts = r.0.alerts ++ (panicked ∷ []);
          answers = r.0.answers ++ (internal_error ∷ []);
        },
        false,
      )
      else r

  -- What `LogMiddle` does behind the handler, for a request with a path.
  abbrev pub log_latency : ℕ → Option Text → Service V → Service V
  log_latency cost none s = s
  log_latency cost (some p) s = record s {
    latency = proto_observe p cost s.latency;
    alerts = if leb 4000 cost then s.alerts ++ (slow_request p ∷ []) else s.alerts;
  }

  -- `LogMiddle`. A panic of the handler skips the statistics.
  unfoldable pub log_middle : ℕ → Handler V → Handler V
  log_middle cost next q s =
      let r = next q (record s { http_requests = s.http_requests + 1 }) in
      if r.1 then r else (log_latency cost q.path r.0, false)

  -- The handler of NoRoute.
  unfoldable pub no_route : Handler V
  no_route q s = (
    record s {
      alerts = s.alerts ++ (unknown_path q.method (path_text q.path) ∷ []);
      answers = s.answers ++ (not_found ∷ []);
    },
    false,
  )

  -- A handler of Gateway.Handlers as one of the service.
  abbrev pub served : Served V → Handler V
  served v q s = if v.panics then (record s { effects = s.effects ++ v.effects }, true) else (
    record s {
      answers = s.answers ++ (ok v.reply ∷ []);
      effects = s.effects ++ v.effects;
      background = s.background ++ v.background;
    },
    false,
  )

  module _ (decode : Text → Bytes) (gateways : ℕ → Gateway V) (gateway : Gateway V)
      (bodies : Bodies) where
    -- The route of a path; the service has no other methods than POST.
    unfoldable pub route : Handler V
    route q s =
        if same q.method post_method && same (path_text q.path) close_path
        then served (handle_close gateway bodies.close_body) q s
        else if same q.method post_method && same (path_text q.path) send_path
        then served (handle_send decode gateway bodies.send_body) q s
        else if same q.method post_method && same (path_text q.path) send_and_close_path
        then served (handle_send_and_close decode gateway bodies.send_body) q s
        else if same q.method post_method && same (path_text q.path) broadcast_path
        then served (handle_broadcast decode gateways bodies.broadcast_body) q s
        else no_route q s

    -- The service that `Run` sets up. gin sends a client on with 307, before any middleware, where only
    -- a slash at the end keeps its path from being one of the routes.
    unfoldable pub handle_request : ℕ → Handler V
    handle_request cost q s =
        if is_slashed q
        then (record s { answers = s.answers ++ (redirected ∷ []) }, false)
        else custom_recovery (log_middle cost route) q s
