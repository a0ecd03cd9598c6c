-- ===== src/Agent/Outbox/Delivery.antt =====
-- The writers of pkg/agent/agent.go against its write loop: any number of goroutines are inside
-- `Write` while the loop pops and flushes, in any order of their steps.
pub mod Invariant
pub mod Progress
use tcp_gateway.Prelude.{
  ℕ, ◌+◌, ◌-◌, ◌≤◌, ◌<◌, ◌≡◌, refl, sym, ap, ◌∙◌, ◌≢◌, Bool, true, false, Option, none, some, [],
  ◌==◌, ◌∷◌, ◌++◌, append_assoc, append-nil, arith, if◌then◌else◌, ltb, take, drop,
  take-append-drop,
}
use tcp_gateway.Bytes.{Bytes}
use tcp_gateway.Interfaces.{Error}
use tcp_gateway.Writer
use tcp_gateway.Writer.{Writer, frame}
use tcp_gateway.Agent.Outbox.{
  Outbox, batch_of, Taken, stop, again, send, notify, take_batch, send_batch,
}

pub record Sender : Type 0 where
  pub out : Outbox
  -- Calls of `Write` between the buffer and the notification.
  pub pending : ℕ
  -- What the loop has popped and not yet flushed.
  pub batch : Option Bytes
  pub running : Bool
  -- The context is done, by `Close` or by the end of a loop.
  pub cancelled : Bool
  -- The latest notification was given up while none was queued.
  pub missed : Bool
  -- The frames that `Write` took, and the bytes that the connection took.
  pub accepted : Bytes
  pub wire : Bytes

abbrev pub start : Sender
start = record {
  out = record { w = Writer.new; wd = 0 };
  pending = 0;
  batch = none;
  running = true;
  cancelled = false;
  missed = false;
  accepted = [];
  wire = [];
}

abbrev pub taken : Sender → Outbox → Taken → Sender
taken s o (stop e) = record s { out = o; running = false }
taken s o again = record s { out = o }
taken s o (send b) = record s { out = o; batch = some b }

-- What the connection gets of b if it takes n bytes where it answers an error. A writer that has an
-- error already does not call it.
abbrev pub written : Option Error → Option Error → Bytes → ℕ → Bytes
written (some e) answer b n = []
written none (some e) b n = take n b
written none none b n = b

abbrev pub goes_on : Option Error → Bool → Bool
goes_on (some e) running = false
goes_on none running = running

abbrev pub flushed : Sender → Bytes → ℕ → Option Error → Sender
flushed s b n answer =
    let (o, err) = send_batch s.out answer in
    record s {
      out = o;
      batch = none;
      running = goes_on err s.running;
      wire = s.wire ++ written s.out.w.err answer b n;
    }

module _ (grow : ℕ → ℕ → ℕ) where
  -- A notification can be given up at any time: the select takes one of its cases that are ready, and the
  -- ticker is after five milliseconds, also if the queue has room by then. Where the context is done the
  -- loop may return from its select, whatever is queued.
  pub data Step (s : Sender) : Sender → Type 0 where
    cache :
        (id : ℕ) (msg : Bytes)
        → s.out.w.err ≡ none
        → Step s (record s {
          out = record (s.out) { w = (Writer.write grow s.out.w id msg 0).0 };
          pending = s.pending + 1;
          accepted = s.accepted ++ frame id msg 0;
        })
    queue :
        0 < s.pending
        → s.out.wd < 5
        → Step s (record s { out = notify s.out true; pending = s.pending - 1; missed = false })
    give_up :
        0 < s.pending
        → Step s (record s {
          out = notify s.out false;
          pending = s.pending - 1;
          missed = if s.out.wd == 0 then true else s.missed;
        })
    cancel : Step s (record s { cancelled = true })
    leave :
        s.running ≡ true
        → s.batch ≡ none
        → s.cancelled ≡ true
        → Step s (record s { running = false })
    pop :
        s.running ≡ true
        → s.batch ≡ none
        → 0 < s.out.wd
        → Step s (taken s (take_batch s.out).0 (take_batch s.out).1)
    flush :
        (b : Bytes) (n : ℕ) (answer : Option Error)
        → s.running ≡ true
        → s.batch ≡ some b
        → Step s (flushed s b n answer)

  pub data Reach (s : Sender) : Sender → Type 0 where
    here : Reach s s
    next : {t u : Sender} → Reach s t → Step t u → Reach s u
