-- ===== src/Tests/Latency.antt =====
-- The statistics of pkg/metric/metric.go.
use tcp_gateway.Prelude.{ℕ, ◌≡◌, ◌≢◌, refl, inl, inr, List, [], ◌∷◌, arith}
use tcp_gateway.Metric.{default_buckets, observe, out}
use tcp_gateway.Metric.Percentile.{IsSorted, HasTop, IsP99, observe_all, out-observe_all}

default-IsSorted : IsSorted default_buckets
default-IsSorted = omega arith

abbrev three : List ℕ
three = 3 ∷ 4 ∷ 180 ∷ []

three-HasTop : HasTop default_buckets three
three-HasTop = inr (inr (inr (inr (inr (inr (inr (inl (omega arith))))))))

three-ne : three ≢ []
three-ne e = cc

out-observe_all_example : IsP99 default_buckets three (out (observe_all default_buckets three))
out-observe_all_example =
    out-observe_all default_buckets three default-IsSorted three-HasTop three-ne

out_three : out (observe_all default_buckets three) ≡ 200
unfolding out observe_all observe
out_three = refl
