-- ===== src/Tests/Pushing.antt =====
-- A broadcast of pkg/gateway/gateway.go up to a client.
use tcp_gateway.Prelude.{ℕ, ◌+◌, ◌≡◌, refl, true, none, some, [], ◌∷◌, arith}
use tcp_gateway.Bytes.{Bytes}
use tcp_gateway.Text.{Text, same, trim_space}
use tcp_gateway.Maps.{lookup}
use tcp_gateway.Writer
use tcp_gateway.Writer.{frame}
use tcp_gateway.Agent.Outbox.{notify, take_batch, send_batch}
use tcp_gateway.Agent.Outbox.Delivery.{Sender, start, taken, flushed, queue, pop, flush}
use tcp_gateway.Gateway.{Gateway, get_agent}
use tcp_gateway.Gateway.Handlers.{BroadcastRequest, pos, handle_broadcast, broadcast_loop}
use tcp_gateway.Gateway.Handlers.Pacing.{reached}
use tcp_gateway.Gateway.Push.{
  Agents, put, cached, copies, occurrences, Broadcast, begin, writing, sleeping, looping,
  Broadcast-wire,
}

abbrev grow : ℕ → ℕ → ℕ
grow c n = c + n

abbrev two : ℕ → Gateway ℕ
two i = record { agents = some ((b'a' ∷ [], 7) ∷ (b'b' ∷ [], 8) ∷ []); agent_uid_base = 2 }

abbrev as_is : Text → Bytes
as_is t = t

abbrev call : BroadcastRequest
call = record {
  conn_ids = (b'a' ∷ []) ∷ (b'c' ∷ []) ∷ (b'b' ∷ []) ∷ [];
  payload = b'!' ∷ [];
  msg_id = 9;
  duration_seconds = pos 1;
}

abbrev message : Bytes
message = frame 9 (b'!' ∷ []) 0

-- Agent 8 from the call of Write to the end of its round.
abbrev written_to : Sender
written_to = cached grow start 9 (b'!' ∷ [])

abbrev notified : Sender
notified = record written_to { out = notify written_to.out true; pending = 0 }

abbrev popped : Sender
popped = taken notified (take_batch notified.out).0 (take_batch notified.out).1

abbrev sent : Sender
sent = flushed popped message 0 none

abbrev agents : Agents
agents =
    put 8 sent (put 8 popped (put 8 notified (put 8 written_to (put 7 written_to (λ a. start)))))

broadcast : Broadcast grow (handle_broadcast as_is two (some call)).background [] agents
unfolding handle_broadcast broadcast_loop get_agent same trim_space lookup Writer.write Writer.pop
    Writer.flush notify take_batch send_batch frame
broadcast =
    looping 8 {t = sent}
      (looping 8 {t = popped}
        (looping 8 {t = notified} (sleeping (writing (sleeping (writing begin))))
          (queue (omega arith) (omega arith)) refl)
        (pop refl refl (omega arith)) refl)
      (flush message 0 none refl refl) refl

Broadcast-wire_example :
    (agents 8).wire ≡ copies (occurrences 8 (reached two 0 call.conn_ids)) message
unfolding Writer.write Writer.pop Writer.flush notify take_batch send_batch frame
Broadcast-wire_example =
    Broadcast-wire grow as_is two call agents 8 broadcast refl refl refl refl refl

-- The message, once.
once : copies (occurrences 8 (reached two 0 call.conn_ids)) message ≡ message
unfolding copies occurrences get_agent same trim_space lookup frame
once = refl
