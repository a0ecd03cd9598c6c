-- ===== src/Agent/Reader/Runs.antt =====
-- Whole runs of `loopRead` of pkg/agent/agent.go, over any forwarding that reports no error.
use Prim.Native.Nat.add
use tcp_gateway.Prelude.{
  ℕ, zero, suc, ◌+◌, ◌-◌, ◌<◌, ◌≡◌, refl, sym, ap, ◌∙◌, Bool, Option, none, some, ◌⊎◌, inl, inr,
  List, [], ◌∷◌, ◌++◌, append_assoc, append-nil, arith, length, All, All-append_right, subst,
  if◌then◌else◌,
}
use tcp_gateway.Bytes.{Bytes, IsByte}
use tcp_gateway.Interfaces.{Error, eof, Outcome, done, fails, panics, EndPoint, Msg}
use tcp_gateway.Writer.{frame}
use tcp_gateway.Hooks.Laws.{InRange}
use tcp_gateway.Agent.Reader.{Conn, got, failed, read_message, read_full, short_read, loop_read}
use tcp_gateway.Agent.Reader.Framing.{read_message-frame}
use tcp_gateway.Agent.Reader.Soundness.{Read-cases, read_message_shorter, read_message-Frames}

-- A message with the sequence id in its header.
pub record Sent : Type 0 where
  pub msg : Msg
  pub seq : ℕ

abbrev pub SentInRange : Sent → Type 0
SentInRange t = InRange t.msg.id (length t.msg.body + 10)

abbrev pub frames : List Sent → Bytes
frames [] = []
frames (t ∷ ts) = frame t.msg.id t.msg.body t.seq ++ frames ts

read_message-nil : (e : Error) → read_message (record { input = []; last = e }) ≡ failed e
unfolding read_message read_full short_read
read_message-nil eof = refl
read_message-nil _ = refl

Outcome-cases : (o : Outcome) → (o ≡ done) ⊎ (((e : Error) × (o ≡ fails e)) ⊎ (o ≡ panics))
Outcome-cases done = inl refl
Outcome-cases (fails e) = inr (inl (e, refl))
Outcome-cases panics = inr (inr refl)

module _ {ℓ} {S : Type ℓ} (plugins : EndPoint S) (disabled : ℕ → Bool) where
  -- What a round makes of its message.
  abbrev pub handle : ℕ → S → Msg → S × Outcome
  handle k s msg = if disabled k then (s, done) else plugins s msg

  -- The state after the messages, of which those that arrive while the agent is disabled are dropped.
  abbrev pub forward_all : ℕ → S → List Sent → S
  forward_all k s [] = s
  forward_all k s (t ∷ ts) = forward_all (suc k) (handle k s t.msg).0 ts

  -- A loop with more fuel than bytes ends, with the error that ended it.
  pub loop_read_total :
      (fuel k : ℕ) (s : S) (c : Conn)
      → length c.input < fuel
      → (r : S × Option Error) × (loop_read plugins disabled fuel k s c ≡ some r)
  unfolding loop_read
  loop_read_total zero k s c h = absurd (omega arith)
  loop_read_total (suc fuel) k s c h = elim (Read-cases (read_message c)) [
    | inl (e, p) ↦ ((s, some e), rw (p, loop_read))
    | inr (msg, c', p) ↦
        rw (p, loop_read)
          (elim (Outcome-cases (handle k s msg).1) [
            | inl q ↦ rw q (
                loop_read_total fuel (suc k) (handle k s msg).0 c'
                  (omega (arith, read_message_shorter c p)))
            | inr (inl (e, q)) ↦ (((handle k s msg).0, some e), rw q)
            | inr (inr q) ↦ (((handle k s msg).0, none), rw q)
          ])
  ]

  module _ (no_error : (s : S) (msg : Msg) → (plugins s msg).1 ≡ done) where
    handle-done : (k : ℕ) (s : S) (msg : Msg) → (handle k s msg).1 ≡ done
    handle-done k s msg = ground (arith, no_error s msg)

    loop_read_next :
        (fuel k : ℕ) (s : S) (c : Conn) {msg : Msg} {c' : Conn}
        → read_message c ≡ got msg c'
        → loop_read plugins disabled (suc fuel) k s c
          ≡ loop_read plugins disabled fuel (suc k) (handle k s msg).0 c'
    unfolding loop_read
    loop_read_next fuel k s c {msg} p = rw (p, loop_read) (rw (handle-done k s msg))

    -- The loop forwards the messages of in-range frames in their order, and goes on behind them.
    loop_read-frames_append :
        (ts : List Sent) (fuel k : ℕ) (s : S) (rest : Bytes) (e : Error)
        → All SentInRange ts
        → loop_read plugins disabled
            (length ts + fuel)
            k
            s
            (record { input = frames ts ++ rest; last = e })
          ≡ loop_read plugins disabled fuel
              (length ts + k)
              (forward_all k s ts)
              (record { input = rest; last = e })
    loop_read-frames_append [] fuel k s rest e h = rw (add.zero fuel, add.zero k)
    loop_read-frames_append (t ∷ ts) fuel k s rest e h =
        rw (add.suc (length ts) fuel, append_assoc)
          (loop_read_next (length ts + fuel) k s _
              (read_message-frame t.msg.id t.msg.body t.seq (frames ts ++ rest) e h.0)
            ∙ loop_read-frames_append ts fuel (suc k) (handle k s t.msg).0 rest e h.1
            ∙ ap
                (λ j.
                  loop_read plugins disabled fuel j (forward_all k s (t ∷ ts))
                    (record { input = rest; last = e }))
                (omega arith))

    loop_read_failed :
        (fuel k : ℕ) (s : S) (c : Conn) {e : Error}
        → read_message c ≡ failed e
        → loop_read plugins disabled (suc fuel) k s c ≡ some (s, some e)
    unfolding loop_read
    loop_read_failed fuel k s c p = rw (p, loop_read)

    -- A client that sends in-range frames and nothing else has each message forwarded, in order,
    -- and the loop ends with the error of the connection.
    pub loop_read-frames :
        (ts : List Sent) (fuel : ℕ) (s : S) (e : Error)
        → All SentInRange ts
        → length ts < fuel
        → loop_read plugins disabled fuel 0 s (record { input = frames ts; last = e })
          ≡ some (forward_all 0 s ts, some e)
    loop_read-frames ts fuel s e h k =
        subst
          (λ j.
            loop_read plugins disabled j 0 s (record { input = frames ts; last = e })
            ≡ some (forward_all 0 s ts, some e))
          (omega arith)
          (rw append-nil at (loop_read-frames_append ts (suc (fuel - length ts - 1)) 0 s [] e h)
            ∙ loop_read_failed (fuel - length ts - 1) (length ts + 0) (forward_all 0 s ts) _
                (read_message-nil e))

    abbrev pub Parsed : ℕ → S → Conn → S → Error → Type ℓ
    Parsed k s c s' e =
        (ts : List Sent) × (rest : Bytes) × (c.input ≡ frames ts ++ rest)
        × All SentInRange ts
        × (s' ≡ forward_all k s ts)
        × (read_message (record { input = rest; last = c.last }) ≡ failed e)

    -- Whatever the client sends, the loop has forwarded the messages of a row of in-range frames at
    -- the front, in order, and it ended with the error of the first round that got no message.
    pub loop_read-Parsed :
        (fuel k : ℕ) (s : S) (c : Conn) {s' : S} {o : Option Error}
        → All IsByte c.input
        → loop_read plugins disabled fuel k s c ≡ some (s', o)
        → (e : Error) × (o ≡ some e) × Parsed k s c s' e
    loop_read-Parsed zero k s c bs h = unfold loop_read in cc
    loop_read-Parsed (suc fuel) k s c {s'} {o} bs h = elim (Read-cases (read_message c)) [
      | inl (e, p) ↦
          let q = loop_read_failed fuel k s c p in (e, cc, ([], c.input, refl, tt, cc, p))
      | inr (msg, c', p) ↦
          let (seq, split, range, last) = read_message-Frames c bs p in
          let (e, end, (ts, rest, split', ranges, state, stop)) =
            loop_read-Parsed fuel (suc k) (handle k s msg).0 c'
              (All-append_right IsByte (frame msg.id msg.body seq) c'.input
                (subst (All IsByte) split bs))
              (sym (loop_read_next fuel k s c p) ∙ h) in
          (
            e,
            end,
            (
              record { msg = msg; seq = seq } ∷ ts,
              rest,
              split
                  ∙ ap (◌++◌ (frame msg.id msg.body seq)) split'
                  ∙ sym (append_assoc (frame msg.id msg.body seq) (frames ts) rest),
              (range, ranges),
              state,
              subst (λ l. read_message (record { input = rest; last = l }) ≡ failed e) last stop,
            ),
          )
    ]
