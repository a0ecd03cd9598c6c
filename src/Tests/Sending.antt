-- ===== src/Tests/Sending.antt =====
-- pkg/writer/writer.go, and the write loop of pkg/agent/agent.go.
use tcp_gateway.Prelude.{ℕ, ◌+◌, ◌≤◌, ◌≡◌, ◌⊎◌, refl, true, false, none, [], ◌∷◌, ◌++◌, arith}
use tcp_gateway.Bytes.{Bytes}
use tcp_gateway.Writer
use tcp_gateway.Writer.{Writer, frame, append_capacity}
use tcp_gateway.Agent.Outbox.{notify, take_batch, send_batch}
use tcp_gateway.Agent.Outbox.Delivery.{
  Sender, start, taken, flushed, cache, queue, give_up, pop, flush, Reach, here, next,
}
use tcp_gateway.Agent.Outbox.Delivery.Progress.{
  Settle, Settling, now, more, under_way, Reach-settles,
}
use tcp_gateway.Agent.Outbox.Delivery.Invariant.{IsDelivered, Reach-front, Reach-IsDelivered}

abbrev grow : ℕ → ℕ → ℕ
grow c n = c + n

grow-le : (c n : ℕ) → n ≤ grow c n
grow-le c n = omega arith

-- One call of Write, and a round of the loop.
abbrev s₁ : Sender
s₁ = record start {
  out = record (start.out) { w = (Writer.write grow start.out.w 1001 (7 ∷ []) 0).0 };
  pending = 1;
  accepted = frame 1001 (7 ∷ []) 0;
}

abbrev s₂ : Sender
s₂ = record s₁ { out = notify s₁.out true; pending = 0 }

abbrev s₃ : Sender
s₃ = taken s₂ (take_batch s₂.out).0 (take_batch s₂.out).1

abbrev s₄ : Sender
s₄ = flushed s₃ (frame 1001 (7 ∷ []) 0) 0 none

path : Reach grow start s₄
unfolding Writer.write Writer.pop Writer.flush notify take_batch send_batch frame
path =
    next
      (next (next (next here (cache 1001 (7 ∷ []) refl)) (queue (omega arith) (omega arith)))
        (pop refl refl (omega arith)))
      (flush (frame 1001 (7 ∷ []) 0) 0 none refl refl)

Reach-front_example : (rest : Bytes) × (s₄.accepted ≡ s₄.wire ++ rest)
Reach-front_example = Reach-front grow path

Reach-IsDelivered_example : ((s₄.running ≡ true) ⊎ (s₄.cancelled ≡ true)) × IsDelivered s₄
unfolding Writer.write Writer.pop Writer.flush notify take_batch send_batch frame
Reach-IsDelivered_example = Reach-IsDelivered grow path refl refl refl refl

cached : Reach grow start s₁
unfolding Writer.write frame
cached = next here (cache 1001 (7 ∷ []) refl)

settled : Settling grow s₁ 3 s₄
unfolding Writer.write Writer.pop Writer.flush notify take_batch send_batch frame
settled =
    more
      (more
        (more now (record {
          step = queue (omega arith) (omega arith);
          nothing_new = refl;
          healthy = refl;
          live = refl;
        }))
        (record {
          step = pop refl refl (omega arith);
          nothing_new = refl;
          healthy = refl;
          live = refl;
        }))
      (record {
        step = flush (frame 1001 (7 ∷ []) 0) 0 none refl refl;
        nothing_new = refl;
        healthy = refl;
        live = refl;
      })

healthy_cached : s₁.out.w.err ≡ none
unfolding Writer.write
healthy_cached = refl

Reach-settles_example :
    (3 + under_way s₄ ≤ under_way s₁) × (((u : Sender) × Settle grow s₄ u) ⊎ IsDelivered s₄)
Reach-settles_example = Reach-settles grow cached healthy_cached refl settled

-- A message whose notification was given up at an empty queue: all is at rest, and it is in the buffer.
abbrev stranded : Sender
stranded = record s₁ { out = notify s₁.out false; pending = 0; missed = true }

left_behind : Reach grow start stranded
unfolding Writer.write frame notify
left_behind = next cached (give_up (omega arith))

not_delivered : (stranded.wire ≡ []) × (stranded.out.w.b ≡ frame 1001 (7 ∷ []) 0)
unfolding Writer.write notify frame
not_delivered = (refl, refl)
