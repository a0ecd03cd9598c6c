-- ===== src/Metric/Report/Collection.antt =====
-- What a collection of pkg/metric/metric.go reports and leaves.
use tcp_gateway.Prelude.{ℕ, ◌≡◌, refl, Option, some, List, [], ◌∷◌, arith}
use tcp_gateway.Maps.{Map}
use tcp_gateway.Metric.{P99, reset, out, proto_out, proto_reset}
use tcp_gateway.Metric.Report.{Counters, Snapshot, snapshot, collect, get_runtime}

out-reset : (p : P99) → out (reset p) ≡ 0
unfolding out reset
out-reset p = refl

proto_out-proto_reset : (m : Map P99) → proto_out (proto_reset m) ≡ []
unfolding proto_out proto_reset
proto_out-proto_reset [] = refl
proto_out-proto_reset ((proto, p) ∷ m) = rw (out-reset p) (proto_out-proto_reset m)

-- A collection reports the requests since the one before by the second, the connections, and the
-- latencies; where nothing happens until the next one, that reports no request and no latency, and the
-- same connections.
pub collect-collect :
    (now now' : ℕ) (samples samples' : List (Option ℕ)) (c : Counters)
    → let c₁ = collect 10 now samples c in
      let c₂ = collect 10 now' samples' c₁ in
      (c₁.current ≡ some (snapshot 10 now (record c { runtime = get_runtime 0 samples c.runtime })))
      × (s : Snapshot) × (c₂.current ≡ some s)
      × (s.connection ≡ c.connection)
      × (s.public_tcp_qps ≡ 0)
      × (s.private_http_qps ≡ 0)
      × (s.p99_public ≡ [])
      × (s.p99_private ≡ [])
unfolding collect snapshot
collect-collect now now' samples samples' c = (
  refl,
  _,
  refl,
  refl,
  omega arith,
  omega arith,
  proto_out-proto_reset c.public_latency,
  proto_out-proto_reset c.private_latency,
)
