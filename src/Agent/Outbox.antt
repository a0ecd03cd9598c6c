-- ===== src/Agent/Outbox.antt =====
-- `Write` and `loopWrite` of pkg/agent/agent.go: the sending half of a connection. `w` is the
-- buffer that the two share, and `wd` how many notifications stand in the channel, which holds 5.
pub mod Delivery
use tcp_gateway.Prelude.{ℕ, ◌+◌, ◌-◌, Bool, Option, none, some, [], ◌∷◌, if◌then◌else◌}
use tcp_gateway.Bytes.{Bytes}
use tcp_gateway.Interfaces.{Error}
use tcp_gateway.Writer
use tcp_gateway.Writer.{Writer}

pub record Outbox : Type 0 where
  pub w : Writer
  pub wd : ℕ

abbrev pub queue_len : ℕ
queue_len = 5

-- The `select` of `Write`: the notification is queued, or the ticker of 5 ms comes first.
unfoldable pub notify : Outbox → Bool → Outbox
notify o queued = if queued then record o { wd = o.wd + 1 } else o

-- `Write`: first into the buffer, then the notification.
unfoldable pub write : (ℕ → ℕ → ℕ) → Outbox → ℕ → Bytes → Bool → Outbox × Option Error
unfolding notify
write grow o msg_id msg queued =
    let r = Writer.write grow o.w msg_id msg 0 in
    let o' = record o { w = r.0 } in
    elim r.1 [ some e ↦ (o', some e) | none ↦ (notify o' queued, none) ]

-- What the loop does after it took a notification: it returns, goes back to the `select`, or sends.
pub data Taken : Type 0 where
  stop : Error → Taken
  again : Taken
  send : Bytes → Taken

abbrev pub batch_of : Bytes → Option Error → Taken
batch_of b (some e) = stop e
batch_of [] none = again
batch_of (x ∷ xs) none = send (x ∷ xs)

-- A round up to `Pop`.
unfoldable pub take_batch : Outbox → Outbox × Taken
take_batch o =
    let (w', b, err) = Writer.pop o.w in (record { w = w'; wd = o.wd - 1 }, batch_of b err)

-- The rest of the round: `Flush`, with what the connection's Write answers.
unfoldable pub send_batch : Outbox → Option Error → Outbox × Option Error
send_batch o answer = let (w', err) = Writer.flush o.w answer in (record o { w = w' }, err)

-- The two cases of the `select` of `loopWrite`.
pub data Select : Type 0 where
  woken done : Select

-- How a round ends: the loop goes on, or returns.
pub data Next : Type 0 where
  continue : Next
  return : Option Error → Next

abbrev after_send : Outbox × Option Error → Outbox × Next
after_send (o, some e) = (o, return (some e))
after_send (o, none) = (o, continue)

abbrev after_take : Outbox → Taken → Option Error → Outbox × Next
after_take o (stop e) answer = (o, return (some e))
after_take o again answer = (o, continue)
after_take o (send b) answer = after_send (send_batch o answer)

-- One round of `loopWrite`.
pub loop_write_round : Outbox → Select → Option Error → Outbox × Next
unfolding take_batch send_batch
loop_write_round o done answer = (o, return none)
loop_write_round o woken answer = let (o', t) = take_batch o in after_take o' t answer
