-- ===== src/Agent/Outbox/Delivery/Invariant.antt =====
-- What holds in every interleaving of `Write` and `loopWrite` of pkg/agent/agent.go.
use tcp_gateway.Prelude.{
  ℕ, ◌+◌, ◌-◌, ◌≤◌, ◌<◌, ◌≡◌, refl, sym, ap, ◌∙◌, ◌≢◌, ◌⊎◌, inl, inr, Bool-cases, true, false,
  Option, none, some, [], ◌∷◌, ◌++◌, append_assoc, append-nil, arith, if◌then◌else◌, ltb, take,
  drop, take-append-drop,
}
use tcp_gateway.Bytes.{Bytes}
use tcp_gateway.Interfaces.{Error}
use tcp_gateway.Writer
use tcp_gateway.Writer.{Writer, frame}
use tcp_gateway.Agent.Outbox.{Outbox, batch_of, Taken, stop, notify, take_batch, send_batch}
use tcp_gateway.Agent.Outbox.Delivery.{
  Sender, start, taken, written, flushed, Step, cache, queue, give_up, pop, flush, cancel, leave,
  Reach, here, next,
}

abbrev pub batch_bytes : Option Bytes → Bytes
batch_bytes none = []
batch_bytes (some b) = b

pub record Inv (s : Sender) : Type 0 where
  -- While the connection has no error, nothing is lost and the order is kept.
  pub whole : s.out.w.err ≡ none → s.accepted ≡ s.wire ++ (batch_bytes s.batch ++ s.out.w.b)
  -- After one, what was sent is still the front of what was taken.
  pub front : (rest : Bytes) × (s.accepted ≡ s.wire ++ rest)
  -- A message in the buffer has a notification on the way unless one was missed, and only an error or
  -- the end of the context stops the loop.
  pub wake : s.out.w.err ≡ none → s.out.w.b ≢ [] → s.missed ≡ false → 0 < s.out.wd + s.pending
  pub alive : s.out.w.err ≡ none → s.cancelled ≡ false → s.running ≡ true
  pub room : s.out.wd ≤ 5

-- Everything is on the wire, or what is not is in the buffer behind a notification that was missed.
abbrev pub IsDelivered : Sender → Type 0
IsDelivered s = (s.accepted ≡ s.wire) ⊎ ((s.missed ≡ true) × (s.accepted ≡ s.wire ++ s.out.w.b))

cache-Inv :
    (grow : ℕ → ℕ → ℕ) (s : Sender) (id : ℕ) (msg : Bytes)
    → s.out.w.err ≡ none
    → Inv s
    → Inv (record s {
      out = record (s.out) { w = (Writer.write grow s.out.w id msg 0).0 };
      pending = s.pending + 1;
      accepted = s.accepted ++ frame id msg 0;
    })
unfolding Writer.write
cache-Inv grow s id msg h v = record {
  whole = ground (
    arith,
    append_assoc s.wire (batch_bytes s.batch ++ s.out.w.b) (frame id msg 0),
    append_assoc (batch_bytes s.batch) s.out.w.b (frame id msg 0),
  );
  front = (v.front.0 ++ frame id msg 0, rw (v.front.1) (append_assoc s.wire v.front.0 _));
  wake = ground arith;
  alive = ground arith;
  room = ground arith;
}

pub taken_ghosts :
    (s : Sender) (o : Outbox) (t : Taken)
    → ((taken s o t).accepted ≡ s.accepted) × ((taken s o t).wire ≡ s.wire)
taken_ghosts s o (stop e) = (refl, refl)
taken_ghosts s o _ = (refl, refl)

taken-batch_of :
    (s : Sender) (o : Outbox) (b : Bytes)
    → s.batch ≡ none
    → o.w.b ≡ []
    → batch_bytes (taken s o (batch_of b none)).batch ++ (taken s o (batch_of b none)).out.w.b ≡ b
taken-batch_of s o [] e e' = rw (e, e')
taken-batch_of s o (x ∷ xs) e e' = rw (e', append-nil)

abbrev pub popped : Outbox → Outbox
popped o = record {
  w = record (o.w) { b = []; capacity = if ltb 262144 o.w.capacity then 0 else o.w.capacity };
  wd = o.wd - 1;
}

pub take_batch_healthy :
    (o : Outbox) → o.w.err ≡ none → take_batch o ≡ (popped o, batch_of o.w.b none)
unfolding take_batch Writer.pop
take_batch_healthy o h = ground arith

pop-whole :
    (s : Sender)
    → s.batch ≡ none
    → s.out.w.err ≡ none
    → (s.out.w.err ≡ none → s.accepted ≡ s.wire ++ (batch_bytes s.batch ++ s.out.w.b))
    → let t = taken s (take_batch s.out).0 (take_batch s.out).1 in
      t.accepted ≡ t.wire ++ (batch_bytes t.batch ++ t.out.w.b)
pop-whole s b h w =
    rw (take_batch_healthy s.out h)
      (rw (taken-batch_of s (popped s.out) s.out.w.b b refl, ghosts.0, ghosts.1) (rw b at (w h)))
  where
    ghosts :
        ((taken s (popped s.out) (batch_of s.out.w.b none)).accepted ≡ s.accepted)
        × ((taken s (popped s.out) (batch_of s.out.w.b none)).wire ≡ s.wire)
    ghosts = taken_ghosts s (popped s.out) (batch_of s.out.w.b none)

pop-Inv :
    (s : Sender)
    → s.running ≡ true
    → s.batch ≡ none
    → 0 < s.out.wd
    → Inv s
    → Inv (taken s (take_batch s.out).0 (take_batch s.out).1)
unfolding take_batch Writer.pop
pop-Inv s r b w v = record {
  whole = λ h. pop-whole s b (ground arith) v.whole;
  front = (v.front.0, rw (ghosts.0, ghosts.1) (v.front.1));
  wake = ground arith;
  alive = ground arith;
  room = ground arith;
}
  where
    ghosts :
        ((taken s (take_batch s.out).0 (take_batch s.out).1).accepted ≡ s.accepted)
        × ((taken s (take_batch s.out).0 (take_batch s.out).1).wire ≡ s.wire)
    ghosts = taken_ghosts s (take_batch s.out).0 (take_batch s.out).1

written-front :
    (err answer : Option Error) (accepted wire b buf : Bytes) (n : ℕ)
    → (err ≡ none → accepted ≡ wire ++ (b ++ buf))
    → (rest : Bytes) × (accepted ≡ wire ++ rest)
    → (rest : Bytes) × (accepted ≡ (wire ++ written err answer b n) ++ rest)
written-front (some e) answer accepted wire b buf n whole (rest, front) =
    (rest, rw append-nil front)
written-front none none accepted wire b buf n whole front = (buf, rw append_assoc (whole refl))
written-front none (some e) accepted wire b buf n whole front = (
  drop n b ++ buf,
  rw append_assoc (
      whole refl
      ∙ ap (◌++◌ wire) (
          ap (λ t. t ++ buf) (sym (take-append-drop n b))
          ∙ append_assoc (take n b) (drop n b) buf)),
)

flush-Inv :
    (s : Sender) (b : Bytes) (n : ℕ) (answer : Option Error)
    → s.running ≡ true
    → s.batch ≡ some b
    → Inv s
    → Inv (flushed s b n answer)
unfolding send_batch Writer.flush
flush-Inv s b n answer r e v = record {
  whole = ground (arith, append_assoc s.wire b s.out.w.b);
  front =
      written-front s.out.w.err answer s.accepted s.wire b s.out.w.b n (λ h. v.whole h ∙ rw e refl)
        v.front;
  wake = ground arith;
  alive = ground arith;
  room = ground arith;
}

module _ (grow : ℕ → ℕ → ℕ) where
  Step-Inv : {s t : Sender} → Step grow s t → Inv s → Inv t
  unfolding notify
  Step-Inv {s} (cache id msg h) v = cache-Inv grow s id msg h v
  Step-Inv (queue p h) v = ground arith
  Step-Inv (give_up p) v = ground arith
  Step-Inv cancel v = ground arith
  Step-Inv (leave r b c) v = ground arith
  Step-Inv {s} (pop r b w) v = pop-Inv s r b w v
  Step-Inv {s} (flush b n answer r e) v = flush-Inv s b n answer r e v

  start-Inv : Inv start
  start-Inv = record {
    whole = λ h. refl;
    front = ([], refl);
    wake = λ h k m. absurd (k refl);
    alive = λ h c. refl;
    room = omega arith;
  }

  pub Reach-Inv : {s : Sender} → Reach grow start s → Inv s
  Reach-Inv here = start-Inv
  Reach-Inv (next r st) = Step-Inv st (Reach-Inv r)

  -- In every interleaving the client has got a front part of the frames that Write took, in the
  -- order in which they entered the buffer, also when the connection failed inside of a frame.
  pub Reach-front :
      {s : Sender} → Reach grow start s → (rest : Bytes) × (s.accepted ≡ s.wire ++ rest)
  Reach-front r = (Reach-Inv r).front

  -- While the connection has no error, the loop returns only if the context is done. If moreover no call
  -- of Write is under way, no notification is queued and no batch is popped, the client has got every
  -- frame that Write took, or else the latest notification was given up while none was queued, and the
  -- client lacks just what is in the buffer.
  pub Reach-IsDelivered :
      {s : Sender}
      → Reach grow start s
      → s.out.w.err ≡ none
      → s.pending ≡ 0
      → s.out.wd ≡ 0
      → s.batch ≡ none
      → ((s.running ≡ true) ⊎ (s.cancelled ≡ true)) × IsDelivered s
  Reach-IsDelivered {s} r h p w b =
      let v = Reach-Inv r in
      let whole : s.accepted ≡ s.wire ++ s.out.w.b = rw b at (v.whole h) in
      (
        elim (Bool-cases s.cancelled) [ inl c ↦ inr c | inr c ↦ inl (v.alive h c) ],
        elim (Bool-cases s.missed) [
          | inl m ↦ inr (m, whole)
          | inr m ↦
              inl (let wake = v.wake h in ground (arith, whole, wake, m, p, w, append-nil s.wire))
        ],
      )
