-- ===== src/Gateway/Push.antt =====
-- A broadcast of pkg/gateway/gateway.go up to the connections of the clients: the goroutine of the
-- handler calls Write of pkg/agent/agent.go on one agent after the other, while the write loops of all
-- agents run, in any order of their steps. Agents are numbers.
use tcp_gateway.Prelude.{
  ℕ, zero, suc, ◌+◌, ◌≡◌, ◌==◌, refl, sym, ap, subst, ◌∙◌, inl, inr, true, false, Bool-cases,
  Option, Option-cases, none, some, List, [], ◌∷◌, ◌++◌, append_assoc, append-nil, arith, map,
  if◌then◌else◌,
}
use tcp_gateway.Bytes.{Bytes}
use tcp_gateway.Text.{Text}
use tcp_gateway.Interfaces.{Error}
use tcp_gateway.Writer
use tcp_gateway.Writer.{Writer, frame}
use tcp_gateway.Agent.Outbox.{notify, take_batch, send_batch}
use tcp_gateway.Agent.Outbox.Delivery.{
  Sender, start, Step, cache, queue, give_up, pop, flush, cancel, leave, Reach, here, next,
}
use tcp_gateway.Agent.Outbox.Delivery.Invariant.{IsDelivered, Reach-IsDelivered}
use tcp_gateway.Gateway.{Gateway}
use tcp_gateway.Gateway.Handlers.{Effect, write_agent, sleep, ℤ, BroadcastRequest, handle_broadcast}
use tcp_gateway.Gateway.Handlers.Pacing.{writes, reached, broadcast-writes}

abbrev pub Agents : Type 0
Agents = ℕ → Sender

abbrev pub put : ℕ → Sender → Agents → Agents
put a s w b = if b == a then s else w b

-- The messages for one agent, as they are framed.
pub frames_to : ℕ → List (ℕ × ℕ × Bytes) → Bytes
frames_to a [] = []
frames_to a ((b, id, msg) ∷ l) = if a == b then frame id msg 0 ++ frames_to a l else frames_to a l

-- How often a number stands in a list.
unfoldable pub occurrences : ℕ → List ℕ → ℕ
occurrences a [] = 0
occurrences a (b ∷ l) = if a == b then suc (occurrences a l) else occurrences a l

unfoldable pub copies : ℕ → Bytes → Bytes
copies zero b = []
copies (suc n) b = b ++ copies n b

frames_to-map :
    (a id : ℕ) (msg : Bytes) (l : List ℕ)
    → frames_to a (map (λ b. (b, id, msg)) l) ≡ copies (occurrences a l) (frame id msg 0)
unfolding frames_to occurrences copies
frames_to-map a id msg [] = refl
frames_to-map a id msg (b ∷ l) = elim (Bool-cases (a == b)) [
  | inl e ↦ rw (e, frames_to-map a id msg l) refl
  | inr e ↦ rw (e, frames_to-map a id msg l) refl
]

all_sent : (s : Sender) → s.missed ≡ false → IsDelivered s → s.accepted ≡ s.wire
all_sent s m (inl e) = e
all_sent s m (inr (e, x)) = absurd (ground (arith, m, e))

module _ (grow : ℕ → ℕ → ℕ) where
  -- `Write` up to its notification. On a connection with an error it changes nothing.
  abbrev pub cached_if : Option Error → Sender → ℕ → Bytes → Sender
  cached_if (some e) s id msg = s
  cached_if none s id msg = record s {
    out = record (s.out) { w = (Writer.write grow s.out.w id msg 0).0 };
    pending = s.pending + 1;
    accepted = s.accepted ++ frame id msg 0;
  }

  abbrev pub cached : Sender → ℕ → Bytes → Sender
  cached s id msg = cached_if s.out.w.err s id msg

  -- The goroutine has done all but the last effects of the list. No other messages are written.
  pub data Broadcast (all : List (Effect ℕ)) : List (Effect ℕ) → Agents → Type 0 where
    begin : Broadcast all all (λ a. start)
    writing :
        {a id : ℕ} {msg : Bytes} {es : List (Effect ℕ)} {w : Agents}
        → Broadcast all (write_agent a id msg ∷ es) w
        → Broadcast all es (put a (cached (w a) id msg) w)
    sleeping :
        {t : ℤ} {es : List (Effect ℕ)} {w : Agents}
        → Broadcast all (sleep t ∷ es) w
        → Broadcast all es w
    looping :
        {es : List (Effect ℕ)} {w : Agents} (a : ℕ) {t : Sender}
        → Broadcast all es w
        → Step grow (w a) t
        → t.accepted ≡ (w a).accepted
        → Broadcast all es (put a t w)

  -- An error stays.
  Step-healthy : {s t : Sender} → Step grow s t → t.out.w.err ≡ none → s.out.w.err ≡ none
  unfolding notify send_batch take_batch Writer.write Writer.pop Writer.flush
  Step-healthy (cache id msg h) k = h
  Step-healthy (queue p h) k = k
  Step-healthy (give_up p) k = k
  Step-healthy cancel k = k
  Step-healthy (leave r b c) k = k
  Step-healthy {s} (pop r b w) k = elim (Option-cases s.out.w.err) [
    | inl e ↦ e
    | inr (x, e) ↦ absurd (ground (arith, k, e))
  ]
  Step-healthy {s} (flush b n answer r e) k = ground (arith, k)

  -- What is still to be written to an agent without an error, behind what was.
  record Holds (all es : List (Effect ℕ)) (a : ℕ) (s : Sender) : Type 0 where
    pub reached_by : Reach grow start s
    pub so_far :
        s.out.w.err ≡ none → s.accepted ++ frames_to a (writes es) ≡ frames_to a (writes all)

  writing-Holds :
      (all es : List (Effect ℕ)) (a b id : ℕ) (msg : Bytes) (s : Sender)
      → (a == b) ≡ true
      → Holds all (write_agent b id msg ∷ es) a s
      → Holds all es a (cached s id msg)
  unfolding frames_to
  writing-Holds all es a b id msg s e h = elim (Option-cases s.out.w.err) [
    | inl x ↦
        subst (λ y. Holds all es a (cached_if y s id msg)) (sym x)
          (record {
            reached_by = next h.reached_by (cache id msg x);
            so_far = λ k.
                append_assoc s.accepted (frame id msg 0) (frames_to a (writes es))
                ∙ (rw e at (h.so_far x));
          })
    | inr (y, x) ↦
        subst (λ z. Holds all es a (cached_if z s id msg)) (sym x)
          (record { reached_by = h.reached_by; so_far = λ k. absurd (ground (arith, x, k)) })
  ]

  passing-Holds :
      (all es : List (Effect ℕ)) (a b id : ℕ) (msg : Bytes) (s : Sender)
      → (a == b) ≡ false
      → Holds all (write_agent b id msg ∷ es) a s
      → Holds all es a s
  unfolding frames_to
  passing-Holds all es a b id msg s e h = record {
    reached_by = h.reached_by;
    so_far = λ k. (rw e at (h.so_far k));
  }

  looping-Holds :
      (all es : List (Effect ℕ)) (a : ℕ) (s t : Sender)
      → Step grow s t
      → t.accepted ≡ s.accepted
      → Holds all es a s
      → Holds all es a t
  looping-Holds all es a s t st e h = record {
    reached_by = next h.reached_by st;
    so_far = λ k. ap (λ x. x ++ frames_to a (writes es)) e ∙ h.so_far (Step-healthy st k);
  }

  Broadcast-Holds :
      {all es : List (Effect ℕ)} {w : Agents} → Broadcast all es w → (a : ℕ) → Holds all es a (w a)
  Broadcast-Holds begin a = record { reached_by = here; so_far = λ h. refl }
  Broadcast-Holds {all} (writing {a = b} {id} {msg} {es} {w} r) a = elim (Bool-cases (a == b)) [
    | inl e ↦ rw e (
        let q : a ≡ b = ground (arith, e) in
        subst (λ x. Holds all es a (cached (w x) id msg)) q
          (writing-Holds all es a b id msg (w a) e (Broadcast-Holds r a)))
    | inr e ↦ rw e (passing-Holds all es a b id msg (w a) e (Broadcast-Holds r a))
  ]
  Broadcast-Holds (sleeping r) a =
      let h = Broadcast-Holds r a in record { reached_by = h.reached_by; so_far = h.so_far }
  Broadcast-Holds {all} (looping {es} {w} b {t} r st e) a = elim (Bool-cases (a == b)) [
    | inl x ↦ rw x (
        let q : b ≡ a = ground (arith, x) in
        subst (λ y. Holds all es y t) q (looping-Holds all es b (w b) t st e (Broadcast-Holds r b)))
    | inr x ↦ rw x (Broadcast-Holds r a)
  ]

  -- When a broadcast over fresh connections has made all of its calls of Write, in any order with the
  -- steps of the write loops, with agents that are closed meanwhile, and with no other messages, a client
  -- whose connection has no error and has come to rest, and whose agent did not give up its latest
  -- notification while none was queued, has got the message exactly once for each look-up that
  -- found its agent.
  pub Broadcast-wire :
      (decode : Text → Bytes) (gateways : ℕ → Gateway ℕ) (q : BroadcastRequest) (w : Agents) (a : ℕ)
      → Broadcast (handle_broadcast decode gateways (some q)).background [] w
      → (w a).out.w.err ≡ none
      → (w a).pending ≡ 0
      → (w a).out.wd ≡ 0
      → (w a).batch ≡ none
      → (w a).missed ≡ false
      → (w a).wire
        ≡ copies
            (occurrences a (reached gateways 0 q.conn_ids))
            (frame q.msg_id (decode q.payload) 0)
  unfolding frames_to
  Broadcast-wire decode gateways q w a r h p d b m =
      let v = Broadcast-Holds r a in
      sym (all_sent (w a) m (Reach-IsDelivered grow v.reached_by h p d b).1)
      ∙ sym (append-nil (w a).accepted)
      ∙ v.so_far h
      ∙ ap (frames_to a) (broadcast-writes decode gateways q).2
      ∙ frames_to-map a q.msg_id (decode q.payload) (reached gateways 0 q.conn_ids)
