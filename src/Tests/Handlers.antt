-- ===== src/Tests/Handlers.antt =====
-- The HTTP handlers of pkg/gateway/gateway.go on a gateway with two agents.
use tcp_gateway.Prelude.{ℕ, ◌≡◌, refl, some, [], ◌∷◌}
use tcp_gateway.Bytes.{Bytes}
use tcp_gateway.Text.{Text, same, trim_space}
use tcp_gateway.Maps.{lookup}
use tcp_gateway.Gateway.{Gateway, get_agent}
use tcp_gateway.Gateway.Handlers.{
  BroadcastRequest, pos, negsuc, handle_broadcast, broadcast_loop, write_agent, sleep, interval,
}

abbrev two : Gateway ℕ
two = record { agents = some ((b'a' ∷ [], 7) ∷ (b'b' ∷ [], 8) ∷ []); agent_uid_base = 2 }

abbrev always : ℕ → Gateway ℕ
always i = two

abbrev as_is : Text → Bytes
as_is t = t

abbrev call : BroadcastRequest
call = record {
  conn_ids = (b'a' ∷ []) ∷ (b'c' ∷ []) ∷ (b'b' ∷ []) ∷ [];
  payload = b'!' ∷ [];
  msg_id = 9;
  duration_seconds = pos 1;
}

-- Two of three ids are found; the pauses are 333 milliseconds each.
broadcast_call :
    (handle_broadcast as_is always (some call)).background
    ≡ write_agent 7 9 (b'!' ∷ [])
      ∷ sleep (pos 333000000)
      ∷ write_agent 8 9 (b'!' ∷ [])
      ∷ sleep (pos 333000000)
      ∷ []
unfolding handle_broadcast broadcast_loop get_agent same trim_space lookup
broadcast_call = refl

interval_negative : interval (negsuc 0) 3 ≡ negsuc 332
interval_negative = refl
