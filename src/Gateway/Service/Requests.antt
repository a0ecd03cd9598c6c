-- ===== src/Gateway/Service/Requests.antt =====
-- What every request to the private HTTP service of pkg/gateway/gateway.go meets with.
use tcp_gateway.Prelude.{
  ℕ, ◌+◌, ◌≡◌, refl, ap, ◌∙◌, Bool, true, false, ◌&&◌, ◌||◌, ◌⊎◌, Bool-cases, inl, inr, some, [],
  ◌∷◌, ◌++◌, if◌then◌else◌, leb,
}
use tcp_gateway.Bytes.{Bytes}
use tcp_gateway.Text.{Text, same}
use tcp_gateway.Metric.{proto_observe}
use tcp_gateway.Gateway.{Gateway}
use tcp_gateway.Gateway.Handlers.{
  Reply, Served, handle_close, handle_send, handle_send_and_close, handle_broadcast,
}
use tcp_gateway.Gateway.Handlers.Replies.{
  reply_of, Serves, handle_close-Serves, handle_send-Serves, handle_send_and_close-Serves,
  handle_broadcast-Serves,
}
use tcp_gateway.Gateway.Service.{
  ok, not_found, redirected, is_slashed, served, Bodies, route, no_route, handle_request, path_text,
  post_method, close_path, send_path, send_and_close_path, broadcast_path, Service, HttpRequest,
  Handler, custom_recovery, log_middle, panicked, internal_error, slow_request,
}

module _ {ℓ} {V : Type ℓ} where
  -- The middlewares around any handler, also one that panics: the request never panics and is counted
  -- before the handler runs. A handler that panics is answered with an internal error and an alert
  -- behind all that it has done, and its time is not counted. One that does not is left as it is but
  -- for its time under its path, and an alert if that is 4000 milliseconds or more.
  pub custom_recovery-log_middle :
      (cost : ℕ) (next : Handler V) (method path : Text) (s : Service V)
      → let q : HttpRequest = record { method = method; path = some path } in
        let r = next q (record s { http_requests = s.http_requests + 1 }) in
        let t = custom_recovery (log_middle cost next) q s in
        (t.1 ≡ false)
        × (t.0.http_requests ≡ r.0.http_requests)
        × (t.0.answers ≡ (if r.1 then r.0.answers ++ (internal_error ∷ []) else r.0.answers))
        × (t.0.latency ≡ (if r.1 then r.0.latency else proto_observe path cost r.0.latency))
        × (t.0.alerts ≡ (
            if r.1
            then r.0.alerts ++ (panicked ∷ [])
            else if leb 4000 cost
            then r.0.alerts ++ (slow_request path ∷ [])
            else r.0.alerts))
        × (t.0.effects ≡ r.0.effects)
        × (t.0.background ≡ r.0.background)
  unfolding custom_recovery log_middle
  custom_recovery-log_middle cost next method path s =
      elim (Bool-cases
        (next (record { method = method; path = some path })
          (record s { http_requests = s.http_requests + 1 })).1) [
            | inl e ↦ rw e (refl, refl, refl, refl, refl, refl, refl)
            | inr e ↦ rw e (refl, refl, refl, refl, refl, refl, refl)
          ]

-- A request that has a handler.
abbrev pub is_route : HttpRequest → Bool
is_route q =
    same q.method post_method
    && (same (path_text q.path) close_path
        || (same (path_text q.path) send_path
            || (same (path_text q.path) send_and_close_path
                || same (path_text q.path) broadcast_path)))

-- The reply of the handler of a path: whether its body can be bound.
abbrev pub reply_to : Bodies → HttpRequest → Reply
reply_to bodies q =
    if same (path_text q.path) close_path
    then reply_of bodies.close_body
    else if same (path_text q.path) send_path
    then reply_of bodies.send_body
    else if same (path_text q.path) send_and_close_path
    then reply_of bodies.send_body
    else reply_of bodies.broadcast_body

module _ {ℓ} {V : Type ℓ} where
  -- One more answer stands behind the others: the reply of a handler, or that the path is not known, and
  -- then nothing was done.
  abbrev pub Answers : Bool → Reply → Service V → Service V → Type ℓ
  Answers b r s t =
      ((b ≡ true) × (t.answers ≡ s.answers ++ (ok r ∷ [])))
      ⊎ ((b ≡ false)
          × (t.answers ≡ s.answers ++ (not_found ∷ []))
          × (t.effects ≡ s.effects)
          × (t.background ≡ s.background))

  -- What a handler comes to that does not panic.
  abbrev Comes : Bool → Reply → Service V → Service V × Bool → Type ℓ
  Comes b r s t =
      (t.1 ≡ false)
      × (t.0.http_requests ≡ s.http_requests)
      × (t.0.latency ≡ s.latency)
      × Answers b r s t.0

  served-Comes :
      (v : Served V) (r : Reply) (q : HttpRequest) (s : Service V)
      → Serves r v
      → Comes true r s (served v q s)
  served-Comes v r q s (calm, reply) =
      rw calm (refl, refl, refl, inl (refl, ap (λ x. s.answers ++ (ok x ∷ [])) reply))

  module _ (decode : Text → Bytes) (gateways : ℕ → Gateway V) (gateway : Gateway V)
      (bodies : Bodies) where
    route-Comes :
        (q : HttpRequest) (s : Service V)
        → Comes (is_route q) (reply_to bodies q) s (route decode gateways gateway bodies q s)
    unfolding route no_route
    route-Comes q s = elim (Bool-cases (same q.method post_method)) [
      | inr m ↦ rw m (refl, refl, refl, inr (refl, refl, refl, refl))
      | inl m ↦ elim (Bool-cases (same (path_text q.path) close_path)) [
        | inl a ↦
            rw (m, a)
              (served-Comes (handle_close gateway bodies.close_body) _ q s
                (handle_close-Serves gateway bodies.close_body))
        | inr a ↦ elim (Bool-cases (same (path_text q.path) send_path)) [
          | inl b ↦
              rw (m, a, b)
                (served-Comes (handle_send decode gateway bodies.send_body) _ q s
                  (handle_send-Serves decode gateway bodies.send_body))
          | inr b ↦ elim (Bool-cases (same (path_text q.path) send_and_close_path)) [
            | inl c ↦
                rw (m, a, b, c)
                  (served-Comes (handle_send_and_close decode gateway bodies.send_body) _ q s
                    (handle_send_and_close-Serves decode gateway bodies.send_body))
            | inr c ↦ elim (Bool-cases (same (path_text q.path) broadcast_path)) [
              | inl d ↦
                  rw (m, a, b, c, d)
                    (served-Comes (handle_broadcast decode gateways bodies.broadcast_body) _ q s
                      (handle_broadcast-Serves decode gateways bodies.broadcast_body))
              | inr d ↦ rw (m, a, b, c, d) (refl, refl, refl, inr (refl, refl, refl, refl))
            ]
          ]
        ]
      ]
    ]

    -- Whatever the method, the path and the bodies are, no request to the private service panics, a
    -- division by zero included. One that only a slash at its end keeps from a route is redirected, and
    -- nothing else is done, its count included. Any other is counted once, its time is kept under its
    -- path, and it gets one answer: on a route a success, or the refusal of a body that cannot be
    -- bound; for a path without a route that it is not known, and then no agent is touched.
    pub handle_request-Answers :
        (cost : ℕ) (method path : Text) (s : Service V)
        → let q : HttpRequest = record { method = method; path = some path } in
          let t = handle_request decode gateways gateway bodies cost q s in
          (t.1 ≡ false)
          × (if is_slashed q
              then t.0 ≡ record s { answers = s.answers ++ (redirected ∷ []) }
              else (t.0.http_requests ≡ s.http_requests + 1)
                × (t.0.latency ≡ proto_observe path cost s.latency)
                × Answers (is_route q) (reply_to bodies q) s t.0)
    unfolding handle_request
    handle_request-Answers cost method path s =
        let q : HttpRequest = record { method = method; path = some path } in
        let s₁ = record s { http_requests = s.http_requests + 1 } in
        let r = route decode gateways gateway bodies in
        let (calm, counted, latency, answered) = route-Comes q s₁ in
        let (a, b, c, d, e, f, g) = custom_recovery-log_middle cost r method path s in
        elim (Bool-cases (is_slashed q)) [
          | inl z ↦ rw z (refl, refl)
          | inr z ↦ rw z (
            a,
            (
              b ∙ counted,
              (rw calm at d) ∙ ap (proto_observe path cost) latency,
              elim answered [
                | inl (k, n) ↦ inl (k, (rw calm at c) ∙ n)
                | inr (k, n, u, w) ↦ inr (k, (rw calm at c) ∙ n, f ∙ u, g ∙ w)
              ],
            ),
          )
        ]
