-- ===== src/Agent/Outbox/Delivery/Progress.antt =====
-- How `Write` and `loopWrite` of pkg/agent/agent.go come to rest.
use tcp_gateway.Prelude.{
  ℕ, suc, ◌+◌, ◌-◌, ◌*◌, ◌≤◌, ◌<◌, ◌≡◌, ◌⊎◌, inl, inr, refl, ap, ◌≢◌, true, Bool-cases, false,
  Option, Option-cases, none, some, [], ◌∷◌, ◌++◌, length, length-append, arith, ltb,
}
use tcp_gateway.Bytes.{Bytes}
use tcp_gateway.Writer
use tcp_gateway.Writer.{Writer, frame}
use tcp_gateway.Agent.Outbox.{
  Outbox, batch_of, Taken, stop, again, send, notify, take_batch, send_batch,
}
use tcp_gateway.Agent.Outbox.Delivery.{
  Sender, start, taken, flushed, Step, cache, queue, give_up, pop, flush, cancel, leave, Reach,
}
use tcp_gateway.Agent.Outbox.Delivery.Invariant.{
  Inv, Reach-Inv, popped, take_batch_healthy, taken_ghosts, IsDelivered, Reach-IsDelivered,
}

abbrev pub batches : Option Bytes → ℕ
batches none = 0
batches (some b) = 1

-- What is under way: calls of Write, notifications, and a batch, each with the steps that it can lead to.
pub under_way : Sender → ℕ
under_way s = 3 * s.pending + 2 * s.out.wd + batches s.batch

-- A step in which nothing enters the buffer, and after which the connection has no error and the
-- context of the agent is not done.
pub record Settle (grow : ℕ → ℕ → ℕ) (s t : Sender) : Type 0 where
  pub step : Step grow s t
  pub nothing_new : t.accepted ≡ s.accepted
  pub healthy : t.out.w.err ≡ none
  pub live : t.cancelled ≡ false

pub data Settling (grow : ℕ → ℕ → ℕ) (s : Sender) : ℕ → Sender → Type 0 where
  now : Settling grow s 0 s
  more : {n : ℕ} {t u : Sender} → Settling grow s n t → Settle grow t u → Settling grow s (suc n) u

frame_enters : (b : Bytes) (id : ℕ) (msg : Bytes) → b ++ frame id msg 0 ≢ b
unfolding frame
frame_enters b id msg e = omega (arith, ap length e, length-append b (frame id msg 0))

taken-under_way :
    (s : Sender) (o : Outbox) (b : Bytes)
    → s.batch ≡ none
    → under_way (taken s o (batch_of b none)) ≤ 3 * s.pending + 2 * o.wd + 1
unfolding under_way
taken-under_way s o [] e = rw e (omega arith)
taken-under_way s o (x ∷ b) e = omega arith

taken-healthy :
    (s : Sender) (o : Outbox) (t : Taken) → o.w.err ≡ none → (taken s o t).out.w.err ≡ none
taken-healthy s o (stop e) h = h
taken-healthy s o again h = h
taken-healthy s o (send b) h = h

taken-live :
    (s : Sender) (o : Outbox) (t : Taken) → s.cancelled ≡ false → (taken s o t).cancelled ≡ false
taken-live s o (stop e) h = h
taken-live s o again h = h
taken-live s o (send b) h = h

module _ (grow : ℕ → ℕ → ℕ) where
  Step-under_way :
      {s t : Sender}
      → Step grow s t
      → s.out.w.err ≡ none
      → t.cancelled ≡ false
      → t.accepted ≡ s.accepted
      → under_way t < under_way s
  unfolding under_way notify send_batch
  Step-under_way {s} (cache id msg h) k c e = absurd (frame_enters s.accepted id msg e)
  Step-under_way {s} (queue p h) k c e = ground arith
  Step-under_way {s} (give_up p) k c e = ground arith
  Step-under_way {s} cancel k c e = absurd (ground (arith, c))
  Step-under_way {s} (leave r b d) k c e = absurd (ground (arith, c, d))
  Step-under_way {s} (pop r b w) k c e =
      rw (take_batch_healthy s.out k) (
        let l = taken-under_way s (popped s.out) s.out.w.b b in omega (arith, l, w, (ap batches b)))
  Step-under_way {s} (flush b n answer r x) k c e = omega (arith, ap batches x)

  pop-Settle :
      (s : Sender)
      → s.out.w.err ≡ none
      → s.cancelled ≡ false
      → s.running ≡ true
      → s.batch ≡ none
      → 0 < s.out.wd
      → Settle grow s (taken s (take_batch s.out).0 (take_batch s.out).1)
  pop-Settle s h c r b w = record {
    step = pop r b w;
    nothing_new = (taken_ghosts s (take_batch s.out).0 (take_batch s.out).1).0;
    healthy =
        rw (take_batch_healthy s.out h)
          (taken-healthy s (popped s.out) (batch_of s.out.w.b none) h);
    live = taken-live s (take_batch s.out).0 (take_batch s.out).1 c;
  }

  flush-Settle :
      (s : Sender) (b : Bytes)
      → s.out.w.err ≡ none
      → s.cancelled ≡ false
      → s.running ≡ true
      → s.batch ≡ some b
      → Settle grow s (flushed s b 0 none)
  unfolding send_batch Writer.flush
  flush-Settle s b h c r e = record {
    step = flush b 0 none r e;
    nothing_new = refl;
    healthy = ground arith;
    live = c;
  }

  queue-Settle :
      (s : Sender)
      → s.out.w.err ≡ none
      → s.cancelled ≡ false
      → 0 < s.pending
      → s.out.wd < 5
      → Settle grow s
          (record s { out = notify s.out true; pending = s.pending - 1; missed = false })
  unfolding notify
  queue-Settle s h c p w = record { step = queue p w; nothing_new = refl; healthy = h; live = c }

  progress :
      {s : Sender}
      → Inv s
      → s.out.w.err ≡ none
      → s.cancelled ≡ false
      → ((t : Sender) × Settle grow s t) ⊎ ((s.pending ≡ 0) × (s.out.wd ≡ 0) × (s.batch ≡ none))
  progress {s} v h c = elim (Option-cases s.batch) [
    | inr (b, e) ↦ inl (flushed s b 0 none, flush-Settle s b h c (v.alive h c) e)
    | inl e ↦ elim (Bool-cases (ltb 0 s.out.wd)) [
      | inl w ↦ inl (
        taken s (take_batch s.out).0 (take_batch s.out).1,
        pop-Settle s h c (v.alive h c) e (ground (arith, w)),
      )
      | inr w ↦ elim (Bool-cases (ltb 0 s.pending)) [
        | inl p ↦ inl (
          record s { out = notify s.out true; pending = s.pending - 1; missed = false },
          queue-Settle s h c (ground (arith, p)) (ground (arith, w)),
        )
        | inr p ↦ inr (ground (arith, p), ground (arith, w), e)
      ]
    ]
  ]

  Settling-Reach :
      {s t : Sender} {n : ℕ}
      → Reach grow start s
      → s.out.w.err ≡ none
      → s.cancelled ≡ false
      → Settling grow s n t
      → Reach grow start t
        × (t.out.w.err ≡ none)
        × (t.cancelled ≡ false)
        × (n + under_way t ≤ under_way s)
  Settling-Reach r h c now = (r, h, c, omega arith)
  Settling-Reach r h c (more {n} {t} {u} q p) =
      let (r', h', c', l) = Settling-Reach r h c q in
      (
        Reach.next r' p.step,
        p.healthy,
        p.live,
        omega (arith, l, Step-under_way p.step h' p.live p.nothing_new),
      )

  -- From any state that an interleaving reaches without an error and with the context of the agent not
  -- done, as long as this stays so and nothing more enters the buffer, at most `under_way` more steps
  -- are taken, whichever they are, and they do not stop before the client has got every frame that Write
  -- took, unless the latest notification was given up while none was queued: then it lacks just what
  -- is in the buffer.
  pub Reach-settles :
      {s t : Sender} {n : ℕ}
      → Reach grow start s
      → s.out.w.err ≡ none
      → s.cancelled ≡ false
      → Settling grow s n t
      → (n + under_way t ≤ under_way s) × (((u : Sender) × Settle grow t u) ⊎ IsDelivered t)
  Reach-settles {s} {t} r h c q =
      let (r', h', c', l) = Settling-Reach r h c q in
      (
        l,
        elim (progress (Reach-Inv grow r') h' c') [
          | inl p ↦ inl p
          | inr (p, w, b) ↦ inr (Reach-IsDelivered grow r' h' p w b).1
        ],
      )
