-- ===== src/Tests/Load.antt =====
-- Whole runs of cmd/stress/stress.go.
use tcp_gateway.Prelude.{Bool, true, ◌≡◌, refl, none, some, List, [], ◌∷◌, ◌++◌}
use tcp_gateway.Text.{Text, same}
use tcp_gateway.Interfaces.{timeout, eof, net_closed}
use tcp_gateway.Writer.{frame}
use tcp_gateway.Encoding.{marshal, encode}
use tcp_gateway.Agent.Reader.{read_full, short_read}
use tcp_gateway.Stress.{report, dial, round, read_reply, read_reply_body}
use tcp_gateway.Stress.Load.{
  gateway_tcp, proxy, chosen, stress_type_proxy, ended, Load, Event, dialling, playing, reporting,
  closing, start, dial_next, play_at, close_at, step, run, stress, stress_gateway_tcp,
}
use tcp_gateway.Stress.Load.Runs.{request_of, Counted, total, sends, wins_at, stress-Counted}

abbrev any : Text → Bool
any t = true

abbrev hi : Text
hi = b'h' ∷ b'i' ∷ []

-- A connection that is refused, one on which two echoes come, and its end.
abbrev events : List Event
events =
    dialling (some timeout) (record { input = []; last = eof })
    ∷ dialling none (record { input = frame 1001 hi 0 ++ frame 1001 hi 0; last = timeout })
    ∷ playing 0 none
    ∷ playing 0 none
    ∷ reporting
    ∷ closing 0
    ∷ playing 0 (some net_closed)
    ∷ []

abbrev logged : Load
logged = record {
  stats = record {
    conn_num = 1;
    error_num = 2;
    succ_num_tmp = 0;
    succ_num = 2;
    send_num = 2;
    qps = 0;
  };
  clients = ended ∷ [];
  left = 4998;
  logged =
      (record {
        conn_num = 1;
        error_num = 1;
        succ_num_tmp = 0;
        succ_num = 2;
        send_num = 2;
        qps = 0;
      })
      ∷ [];
}

all_played : stress any hi gateway_tcp 5000 events ≡ some logged
unfolding stress stress_gateway_tcp run step dial_next dial play_at round read_reply read_reply_body
    read_full short_read report close_at marshal encode frame
all_played = refl

chosen_proxy : chosen stress_type_proxy ≡ some proxy
unfolding chosen same
chosen_proxy = refl

no_test : chosen hi ≡ none
unfolding chosen same
no_test = refl

stress-Counted_example :
    let request = request_of any hi gateway_tcp in
    Counted 5000
      (total 1001 request (sends request) events (start 5000))
      (total 1001 request (wins_at 1001 request) events (start 5000))
      (stress any hi gateway_tcp 5000 events)
stress-Counted_example = stress-Counted any hi gateway_tcp 5000 events refl
