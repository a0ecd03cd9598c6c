-- ===== src/Metric/Report.antt =====
-- The counters of pkg/metric/metric.go, their collection every ten seconds and the report. The samples
-- of runtime/metrics, the clock and the output of `ss` are arguments. The texts that `Data` is
-- formatted into are a record of the numbers.
pub mod Collection
use tcp_gateway.Prelude.{
  ℕ, suc, ◌+◌, ◌-◌, ◌/◌, Bool, true, false, ◌&&◌, ◌||◌, Option, none, some, List, [], ◌∷◌, ◌++◌,
  ◌==◌, if◌then◌else◌,
}
use tcp_gateway.Text.{Text, same, trim_space, is_space}
use tcp_gateway.Maps.{Map, lookup, insert}
use tcp_gateway.Metric.{P99, proto_out, proto_reset}

-- What is read from the runtime.
pub record Runtime : Type 0 where
  pub goroutine : ℕ
  pub free_memory : ℕ
  pub released_memory : ℕ
  pub stack_memory : ℕ
  pub unused_memory : ℕ
  pub total_memory : ℕ
  pub objects_memory : ℕ

-- The numbers in `Data`.
pub record Snapshot : Type 0 where
  pub key : ℕ
  pub uptime : ℕ
  pub connection : ℕ
  pub public_tcp_qps : ℕ
  pub private_http_qps : ℕ
  pub runtime : Runtime
  pub tcp_status : Map ℕ
  pub p99_public : Map ℕ
  pub p99_private : Map ℕ

-- The variables of the package. `Data` is none before the first collection.
pub record Counters : Type 0 where
  pub start_time : ℕ
  pub current : Option Snapshot
  pub last_tcp_status : Map ℕ
  pub connection : ℕ
  pub public_tcp_request : ℕ
  pub public_http_request : ℕ
  pub private_http_request : ℕ
  pub runtime : Runtime
  pub public_latency : Map P99
  pub private_latency : Map P99

-- One sample, by its place in the list of metrics; none for one that is not of KindUint64.
pub store_sample : ℕ → Option ℕ → Runtime → Runtime
store_sample i none r = r
store_sample i (some v) r =
    if i == 0
    then record r { goroutine = v }
    else if i == 1
    then record r { free_memory = v }
    else if i == 2
    then record r { released_memory = v }
    else if i == 3
    then record r { stack_memory = v }
    else if i == 4
    then record r { unused_memory = v }
    else if i == 5
    then record r { total_memory = v }
    else if i == 6
    then record r { objects_memory = v }
    else r

-- `getRuntume`: the samples from index i on.
pub get_runtime : ℕ → List (Option ℕ) → Runtime → Runtime
unfolding store_sample
get_runtime i [] r = r
get_runtime i (v ∷ vs) r = get_runtime (suc i) vs (store_sample i v r)

abbrev pub no_runtime : Runtime
no_runtime = record {
  goroutine = 0;
  free_memory = 0;
  released_memory = 0;
  stack_memory = 0;
  unused_memory = 0;
  total_memory = 0;
  objects_memory = 0;
}

-- `reset`. The connections stay, and so do the requests to the backend.
pub reset : Counters → Counters
reset c = record c {
  public_tcp_request = 0;
  private_http_request = 0;
  runtime = no_runtime;
  public_latency = proto_reset c.public_latency;
  private_latency = proto_reset c.private_latency;
}

-- `Data`, at the time `now` in milliseconds.
pub snapshot : ℕ → ℕ → Counters → Snapshot
snapshot interval now c = record {
  key = now;
  uptime = now - c.start_time;
  connection = c.connection;
  public_tcp_qps = c.public_tcp_request / interval;
  private_http_qps = c.private_http_request / interval;
  runtime = c.runtime;
  tcp_status = c.last_tcp_status;
  p99_public = proto_out c.public_latency;
  p99_private = proto_out c.private_latency;
}

-- `collect`.
pub collect : ℕ → ℕ → List (Option ℕ) → Counters → Counters
unfolding reset snapshot
collect interval now samples c =
    let c' = record c { runtime = get_runtime 0 samples c.runtime } in
    reset (record c' { current = some (snapshot interval now c') })

-- The tickers of `Report`: the report, the status of the connections, which is switched off, and the
-- collection with its time and samples.
pub data Tick : Type 0 where
  report_tick : Tick
  status_tick : Tick
  collect_tick : ℕ → List (Option ℕ) → Tick

-- A round of the goroutine of `Report`, with the data that were reported, the latest first.
pub report_round : Tick → Counters × List (Option Snapshot) → Counters × List (Option Snapshot)
report_round report_tick (c, reported) = (c, c.current ∷ reported)
report_round status_tick (c, reported) = (c, reported)
report_round (collect_tick now samples) (c, reported) = (collect 10 now samples c, reported)

-- strings.Split by newlines, strings.Contains and the first of strings.Fields.
abbrev pub push_char : ℕ → List Text → List Text
push_char c [] = (c ∷ []) ∷ []
push_char c (l ∷ ls) = (c ∷ l) ∷ ls

unfoldable pub split_lines : Text → List Text
split_lines [] = [] ∷ []
split_lines (c ∷ s) = let rest = split_lines s in if c == 10 then [] ∷ rest else push_char c rest

unfoldable pub is_prefix : Text → Text → Bool
is_prefix [] s = true
is_prefix (c ∷ p) [] = false
is_prefix (c ∷ p) (d ∷ s) = (c == d) && is_prefix p s

unfoldable pub contains : Text → Text → Bool
contains p [] = is_prefix p []
contains p (c ∷ s) = is_prefix p (c ∷ s) || contains p s

abbrev pub until_space : Text → Text
until_space [] = []
until_space (c ∷ s) = let rest = until_space s in if is_space c then [] else c ∷ rest

abbrev pub state_word : Text
state_word = b'S' ∷ b't' ∷ b'a' ∷ b't' ∷ b'e' ∷ []

-- A line of the output: blank lines and the headline are passed over.
unfoldable pub count_line : Text → Map ℕ → Map ℕ
count_line line m =
    if same (trim_space line) [] || contains state_word line
    then m
    else insert (until_space (trim_space line))
        (elim (lookup (until_space (trim_space line)) m) [ none ↦ 1 | some n ↦ n + 1 ]) m

abbrev pub count_lines : List Text → Map ℕ → Map ℕ
count_lines [] m = m
count_lines (l ∷ ls) m = count_lines ls (count_line l m)

-- `getTcpStatus`, on the output of `ss`, none if the command failed.
unfoldable pub get_tcp_status : Option Text → Map ℕ
unfolding split_lines contains count_line
get_tcp_status none = []
get_tcp_status (some output) = count_lines (split_lines output) []
