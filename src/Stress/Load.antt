-- ===== src/Stress/Load.antt =====
-- The two tests of cmd/stress/stress.go with all their goroutines: the loop that dials, a client on each
-- connection, the goroutine that closes it at the end, and the report; and the choice of the test.
-- The steps come in any order. A round of a client is one step; between its two additions for a
-- success a report may come, which leaves that success to the next one.
pub mod Counting
pub mod Turns
pub mod Runs
use tcp_gateway.Prelude.{
  ℕ, zero, suc, ◌+◌, ◌-◌, ◌==◌, Bool, Option, none, some, List, [], ◌∷◌, ◌++◌, if◌then◌else◌,
}
use tcp_gateway.Text.{Text, same}
use tcp_gateway.Interfaces.{Error, net_closed}
use tcp_gateway.Encoding.{Encoded, marshal}
use tcp_gateway.Agent.Reader.{Conn}
use tcp_gateway.Stress.{
  Stats, report, dial, Round, continues, stops, crashes, round, echo_id, echo_request,
  sync_time_reply_id, sync_time_request,
}

-- The tests that -stress_type chooses from; the others of its values do nothing.
pub data Kind : Type 0 where
  gateway_tcp proxy : Kind

abbrev pub stress_type_gateway_tcp : Text
stress_type_gateway_tcp =
    b'g' ∷ b'a' ∷ b't' ∷ b'e' ∷ b'w' ∷ b'a' ∷ b'y' ∷ b'_' ∷ b't' ∷ b'c' ∷ b'p' ∷ []

abbrev pub stress_type_proxy : Text
stress_type_proxy = b'p' ∷ b'r' ∷ b'o' ∷ b'x' ∷ b'y' ∷ []

unfoldable pub chosen : Text → Option Kind
chosen t =
    if same t stress_type_gateway_tcp
    then some gateway_tcp
    else if same t stress_type_proxy
    then some proxy
    else none

-- The goroutine of a connection.
pub data Client : Type 0 where
  running : Conn → Client
  ended : Client

-- `left` counts the connections that are still to be dialled; `logged` has the counters as they are
-- logged, the latest first.
pub record Load : Type 0 where
  pub stats : Stats
  pub clients : List Client
  pub left : ℕ
  pub logged : List Stats

abbrev pub start : ℕ → Load
start connection_nums = record {
  stats = record {
    conn_num = 0;
    error_num = 0;
    succ_num_tmp = 0;
    succ_num = 0;
    send_num = 0;
    qps = 0;
  };
  clients = [];
  left = connection_nums;
  logged = [];
}

-- What net.Dial answers, with what the gateway sends on the connection; a round of client k, with
-- what conn.Write answers; a report; and the end of the test for client k.
pub data Event : Type 0 where
  dialling : Option Error → Conn → Event
  playing : ℕ → Option Error → Event
  reporting : Event
  closing : ℕ → Event

-- One more turn of the loop that dials.
abbrev pub dialled : Option Error → Conn → Load → Load
dialled (some e) c w = record w { stats = dial (some e) w.stats }
dialled none c w = record w { stats = dial none w.stats; clients = w.clients ++ running c ∷ [] }

unfoldable pub dial_next : Option Error → Conn → Load → Load
dial_next answer c w = if w.left == 0 then w else record (dialled answer c w) { left = w.left - 1 }

-- The round of the client with the number; none where the process crashes.
abbrev pub played : List Client → Round → Option (Stats × List Client)
played cs (continues s c) = some (s, running c ∷ cs)
played cs (stops s) = some (s, ended ∷ cs)
played cs crashes = none

abbrev pub behind : Client → Option (Stats × List Client) → Option (Stats × List Client)
behind c none = none
behind c (some (s, cs)) = some (s, c ∷ cs)

unfoldable pub play_at :
    (Stats → Conn → Round) → ℕ → Stats → List Client → Option (Stats × List Client)
play_at turn k s [] = some (s, [])
play_at turn zero s (running c ∷ cs) = played cs (turn s c)
play_at turn zero s (ended ∷ cs) = some (s, ended ∷ cs)
play_at turn (suc k) s (c ∷ cs) = behind c (play_at turn k s cs)

-- conn.Close: what was not read is gone.
abbrev pub shut : Client → Client
shut (running c) = running (record { input = []; last = net_closed })
shut ended = ended

unfoldable pub close_at : ℕ → List Client → List Client
close_at k [] = []
close_at zero (c ∷ cs) = shut c ∷ cs
close_at (suc k) (c ∷ cs) = c ∷ close_at k cs

abbrev pub put_back : Load → Option (Stats × List Client) → Option Load
put_back w none = none
put_back w (some (s, cs)) = some (record w { stats = s; clients = cs })

unfoldable pub step : ℕ → Encoded → Load → Event → Option Load
step expected request w (dialling answer c) = some (dial_next answer c w)
step expected request w (playing k answer) =
    put_back w (play_at (round expected request answer) k w.stats w.clients)
step expected request w reporting =
    let s = report w.stats in some (record w { stats = s; logged = s ∷ w.logged })
step expected request w (closing k) = some (record w { clients = close_at k w.clients })

unfoldable pub run : ℕ → Encoded → List Event → Load → Option Load
run expected request [] w = some w
run expected request (e ∷ es) w = elim (step expected request w e) [
  | none ↦ none
  | some w' ↦ run expected request es w'
]

-- The tests up to some moment. The message of an echo is `message`, whose text has the time in it.
unfoldable pub stress_gateway_tcp : (Text → Bool) → Text → ℕ → List Event → Option Load
stress_gateway_tcp exported message connection_nums events =
    run echo_id (marshal exported (echo_request message)) events (start connection_nums)

pub stress_proxy : (Text → Bool) → ℕ → List Event → Option Load
stress_proxy exported connection_nums events =
    run sync_time_reply_id (marshal exported sync_time_request) events (start connection_nums)

unfoldable pub stress : (Text → Bool) → Text → Kind → ℕ → List Event → Option Load
unfolding stress_gateway_tcp stress_proxy
stress exported message gateway_tcp connection_nums events =
    stress_gateway_tcp exported message connection_nums events
stress exported message proxy connection_nums events = stress_proxy exported connection_nums events
