-- ===== src/Stress.antt =====
-- cmd/stress/stress.go: the client that loads a gateway. Each of its connections repeats a round: it
-- sends a request, waits for one reply, and counts it if it has the id that it expects.
-- A connection is what the gateway sends from here on, as for the read loop of an agent.
pub mod Rounds
pub mod Load
pub mod Echo
pub mod Proxy
use tcp_gateway.Prelude.{
  ℕ, Bool, ◌+◌, ◌/◌, ◌%◌, ◌^◌, Option, none, some, List, [], ◌∷◌, ◌++◌, length, ◌==◌, if◌then◌else◌,
}
use tcp_gateway.Bytes.{Bytes, put_le, le, slice}
use tcp_gateway.Text.{Text}
use tcp_gateway.Interfaces.{Error}
use tcp_gateway.Encoding.{Value, structure, field, no_fields, string, Encoded, wrote, marshal}
use tcp_gateway.Encoding
use tcp_gateway.Agent.Reader.{Conn, got, read_full, body_size}
use tcp_gateway.Agent.Reader

-- The counters of a run, which all its goroutines share. They are atomic uint64, and far from a wrap.
pub record Stats : Type 0 where
  pub conn_num : ℕ
  pub error_num : ℕ
  pub succ_num_tmp : ℕ
  pub succ_num : ℕ
  pub send_num : ℕ
  pub qps : ℕ

-- The goroutine that reports every five seconds.
unfoldable pub report : Stats → Stats
report s = record s { succ_num_tmp = 0; qps = s.succ_num_tmp / 5 }

-- net.Dial for one more connection, and whether there is one.
unfoldable pub dial : Option Error → Stats → Stats
dial (some e) s = record s { error_num = s.error_num + 1 }
dial none s = record s { conn_num = s.conn_num + 1 }

-- The buffer that a round sends, with the header in front of the encoded message.
abbrev pub send_buf : ℕ → Bytes → Bytes
send_buf id request =
    put_le 2 id ++ (put_le 4 ((length request + 10) % 2 ^ 32) ++ (put_le 4 0 ++ request))

-- How a round ends: with the next round on the rest of the connection, with the end of the
-- goroutine, or with a panic.
pub data Round : Type 0 where
  continues : Stats → Conn → Round
  stops : Stats → Round
  crashes : Round

abbrev pub stop_with_error : Stats → Round
stop_with_error s = stops (record s { error_num = s.error_num + 1 })

-- The message is counted if its id is the one that is waited for.
abbrev pub count_reply : ℕ → ℕ → Stats → Stats
count_reply expected id s =
    if id == expected
    then record s { succ_num = s.succ_num + 1; succ_num_tmp = s.succ_num_tmp + 1 }
    else s

-- The body of a reply with the id and the size of its header.
unfoldable pub read_reply_body : ℕ → ℕ → ℕ → Stats → Conn → Round
read_reply_body expected id size s c = elim (read_full (body_size size) c) [
  | Reader.failed e ↦ stop_with_error s
  | got body c' ↦
      if body_size size == length body % 2 ^ 32
      then continues (count_reply expected id s) c'
      else stop_with_error s
]

-- The reply of a round.
unfoldable pub read_reply : ℕ → Stats → Conn → Round
unfolding read_reply_body
read_reply expected s c = elim (read_full 10 c) [
  | Reader.failed e ↦ stop_with_error s
  | got header c' ↦
      if length header == 10
      then read_reply_body expected (le (slice 0 2 header)) (le (slice 2 6 header)) s c'
      else stop_with_error s
]

-- One round: the request is the message that Marshal returned, `answer` what conn.Write answers.
unfoldable pub round : ℕ → Encoded → Option Error → Stats → Conn → Round
round expected (Encoding.failed e) answer s c = stop_with_error s
round expected Encoding.panics answer s c = crashes
round expected (wrote request) (some e) s c = stop_with_error s
round expected (wrote request) none s c =
    read_reply expected (record s { send_num = s.send_num + 1 }) c

-- The requests of the two tests and the replies that they wait for: stressGatewayTCP sends an echo
-- request, stressProxy an empty request for the time.
abbrev pub echo_id : ℕ
echo_id = 1001

abbrev pub message_name : Text
message_name = b'M' ∷ b'e' ∷ b's' ∷ b's' ∷ b'a' ∷ b'g' ∷ b'e' ∷ []

abbrev pub echo_request : Text → Value
echo_request message = structure (field message_name (string message) no_fields)

abbrev pub sync_time_id : ℕ
sync_time_id = 6832

abbrev pub sync_time_reply_id : ℕ
sync_time_reply_id = 7832

abbrev pub sync_time_request : Value
sync_time_request = structure no_fields

-- The rounds of the two tests; whether a field is exported is the parameter of `marshal`.
pub echo_round : (Text → Bool) → Text → Option Error → Stats → Conn → Round
unfolding round
echo_round exported message answer s c =
    round echo_id (marshal exported (echo_request message)) answer s c

pub proxy_round : (Text → Bool) → Option Error → Stats → Conn → Round
unfolding round
proxy_round exported answer s c =
    round sync_time_reply_id (marshal exported sync_time_request) answer s c
