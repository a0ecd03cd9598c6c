-- ===== src/Tests/Reading.antt =====
-- pkg/agent/agent.go reads frames of pkg/writer/writer.go behind the hook of pkg/hot/hooks/hooks.go.
use tcp_gateway.Prelude.{
  ℕ, ◌≡◌, refl, Bool, false, Option, none, some, List, [], ◌∷◌, ◌++◌, All, arith,
}
use tcp_gateway.Bytes.{IsByte}
use tcp_gateway.Interfaces.{Error, eof, timeout, unexpected_eof, bad_header_id, Msg, done, EndPoint}
use tcp_gateway.Agent.Exit.{read_alert, write_alert}
use tcp_gateway.Agent.Exit.Causes.{IsExplained, ends, read_alert-loop_read}
use tcp_gateway.Writer.{frame}
use tcp_gateway.Hooks.{hook_header}
use tcp_gateway.Agent.Reader.{Conn, read_message, loop_read, read_full}
use tcp_gateway.Agent.Reader.Runs.{
  Sent, SentInRange, frames, Parsed, loop_read_total, loop_read-frames, loop_read-Parsed,
}

-- Forwarding that keeps the messages.
abbrev recorder : EndPoint (List Msg)
recorder s msg = (s ++ (msg ∷ []), done)

abbrev enabled : ℕ → Bool
enabled k = false

abbrev login : Sent
login = record { msg = record { id = 1001; body = 104 ∷ 105 ∷ [] }; seq = 0 }

abbrev ping : Sent
ping = record { msg = record { id = 60000; body = [] }; seq = 77 }

abbrev both : List Sent
both = login ∷ ping ∷ []

abbrev client : Conn
client = record { input = frames both; last = eof }

both_in_range : All SentInRange both
both_in_range = omega arith

client_bytes : All IsByte (frames both)
unfolding frame
client_bytes = omega arith

loop_read-frames_example :
    loop_read recorder enabled 3 0 [] client ≡ some (login.msg ∷ ping.msg ∷ [], some eof)
loop_read-frames_example =
    loop_read-frames recorder enabled (λ s m. refl) both 3 [] eof both_in_range (omega arith)

client_read : loop_read recorder enabled 3 0 [] client ≡ some (login.msg ∷ ping.msg ∷ [], some eof)
client_read =
    loop_read-frames recorder enabled (λ s m. refl) both 3 [] eof both_in_range (omega arith)

loop_read-Parsed_example :
    (e : Error) × ◌≡◌ {A = Option Error} (some eof) (some e)
    × Parsed recorder enabled (λ s m. refl) 0 [] client (login.msg ∷ ping.msg ∷ []) e
loop_read-Parsed_example =
    loop_read-Parsed recorder enabled (λ s m. refl) 3 0 [] client client_bytes client_read

loop_read_total_example :
    (r : List Msg × Option Error) × (loop_read recorder enabled 3 0 []
        (record { input = 1 ∷ 2 ∷ []; last = eof })
      ≡ some r)
loop_read_total_example =
    loop_read_total recorder enabled 3 0 [] (record { input = 1 ∷ 2 ∷ []; last = eof })
      (omega arith)

-- An id that the hook does not know, and a body that breaks off.
unknown_id :
    loop_read recorder enabled 9 0 [] (record { input = frame 999 [] 0; last = eof })
    ≡ some ([], some bad_header_id)
unfolding loop_read read_message read_full hook_header frame
unknown_id = refl

cut_body :
    loop_read recorder enabled 9 0 []
      (record { input = 233 ∷ 3 ∷ 12 ∷ 0 ∷ 0 ∷ 0 ∷ 0 ∷ 0 ∷ 0 ∷ 0 ∷ 65 ∷ []; last = eof })
    ≡ some ([], some unexpected_eof)
unfolding loop_read read_message read_full hook_header
cut_body = refl

-- The body that breaks off is explained.
read_alert-loop_read_example :
    (s' : List Msg) × (o : Option Error) × (loop_read recorder enabled 12 0 []
        (record { input = 233 ∷ 3 ∷ 12 ∷ 0 ∷ 0 ∷ 0 ∷ 0 ∷ 0 ∷ 0 ∷ 0 ∷ 65 ∷ []; last = eof })
      ≡ some (s', o))
    × IsExplained recorder enabled
        (record { input = 233 ∷ 3 ∷ 12 ∷ 0 ∷ 0 ∷ 0 ∷ 0 ∷ 0 ∷ 0 ∷ 0 ∷ 65 ∷ []; last = eof })
        o
read_alert-loop_read_example =
    read_alert-loop_read recorder enabled (λ s msg. refl) 12 []
      (record { input = 233 ∷ 3 ∷ 12 ∷ 0 ∷ 0 ∷ 0 ∷ 0 ∷ 0 ∷ 0 ∷ 0 ∷ 65 ∷ []; last = eof })
      (ground arith) (omega arith) ends

-- A timeout of the read loop is no alert, one of the write loop is.
timeout_alerts : (read_alert (some timeout) ≡ none) × (write_alert (some timeout) ≡ some timeout)
unfolding read_alert write_alert
timeout_alerts = (refl, refl)
