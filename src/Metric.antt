-- ===== src/Metric.antt =====
-- pkg/metric/metric.go: the latency statistics. A duration in milliseconds is not negative, since
-- Go's clock for durations does not go back. The counter of a bucket stands in the sync.Map `datas`
-- under that bucket, from `NewP99` on; here `datas` is a function on buckets.
pub mod Percentile
pub mod Report
use mathlib.Core.Option
use tcp_gateway.Prelude.{
  ℕ, ◌+◌, ◌*◌, Bool, Option, none, some, List, [], ◌∷◌, ltb, leb, ◌==◌, if◌then◌else◌,
}
use tcp_gateway.Text.{Text}
use tcp_gateway.Maps.{Map, lookup, insert}

pub record P99 : Type 0 where
  pub count : ℕ
  pub datas : ℕ → ℕ
  pub buckets : List ℕ

-- `NewP99`.
abbrev pub new_p99 : List ℕ → P99
new_p99 buckets = record { count = 0; datas = λ b. 0; buckets = buckets }

-- `Buckets`.
abbrev pub default_buckets : List ℕ
default_buckets =
    1 ∷ 5 ∷ 10 ∷ 20 ∷ 50 ∷ 100 ∷ 150 ∷ 200 ∷ 250 ∷ 300 ∷ 400 ∷ 500 ∷ 1000 ∷ 2000 ∷ 5000 ∷ 10000
    ∷ 9999999999 ∷ []

-- `P99.Reset`: the counter of each bucket is set to 0.
pub reset_datas : List ℕ → (ℕ → ℕ) → ℕ → ℕ
reset_datas [] d x = d x
reset_datas (b ∷ bs) d x = if x == b then 0 else reset_datas bs d x

pub reset : P99 → P99
unfolding reset_datas
reset p = record p { count = 0; datas = reset_datas p.buckets p.datas }

abbrev pub bump : (ℕ → ℕ) → ℕ → ℕ → ℕ
bump d b x = if x == b then d x + 1 else d x

-- The loop of `P99.In`: the first bucket that is not below i counts it.
pub in_loop : List ℕ → ℕ → P99 → P99
in_loop [] i p = p
in_loop (b ∷ bs) i p =
    let rest = in_loop bs i p in
    if leb i b then record p { datas = bump p.datas b; count = p.count + 1 } else rest

-- `P99.In`.
unfoldable pub observe : P99 → ℕ → P99
unfolding in_loop
observe p i = in_loop p.buckets i p

-- `float64(sum)/float64(count) >= 0.99`, in whole numbers. The division is rounded, and the float
-- 0.99 is the one nearest to 99/100, so for counts below 2^46 the two tests agree.
abbrev pub reaches : ℕ → ℕ → Bool
reaches sum count = leb (99 * count) (100 * sum)

-- The loop of `P99.Out`.
pub out_loop : List ℕ → (ℕ → ℕ) → ℕ → ℕ → ℕ
out_loop [] d count sum = 0
out_loop (b ∷ bs) d count sum =
    let rest = out_loop bs d count (sum + d b) in if reaches (sum + d b) count then b else rest

-- `P99.Out`.
unfoldable pub out : P99 → ℕ
unfolding out_loop
out p = if p.count == 0 then 0 else out_loop p.buckets p.datas p.count 0

-- `ProtoP99.In`.
pub proto_observe : Text → ℕ → Map P99 → Map P99
proto_observe proto value m =
    let p : P99 = elim (lookup proto m) [ none ↦ new_p99 default_buckets | some p ↦ p ] in
    insert proto (observe p value) m

-- `ProtoP99.Out`: the latencies that are above 0.
pub proto_out : Map P99 → Map ℕ
proto_out [] = []
proto_out ((proto, p) ∷ m) =
    let rest = proto_out m in if ltb 0 (out p) then (proto, out p) ∷ rest else rest

-- `ProtoP99.Reset`.
pub proto_reset : Map P99 → Map P99
proto_reset [] = []
proto_reset ((proto, p) ∷ m) = (proto, reset p) ∷ proto_reset m
