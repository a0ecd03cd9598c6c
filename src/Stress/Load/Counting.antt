-- ===== src/Stress/Load/Counting.antt =====
-- The counters of a whole run of cmd/stress/stress.go.
use tcp_gateway.Prelude.{
  ℕ, ◌+◌, ◌%◌, ◌^◌, if◌then◌else◌, ◌*◌, ◌≤◌, ◌≡◌, ◌≢◌, ◌==◌, refl, Bool-cases, Bool, true, ◌&&◌,
  ◌<◌, leb, take, drop, length-take, Option, none, some, List, [], ◌∷◌, ◌++◌, length, length-append,
  inl, inr, arith,
}
use tcp_gateway.Bytes.{le, slice}
use tcp_gateway.Interfaces.{Error}
use tcp_gateway.Encoding.{Encoded, wrote, failed, panics}
use tcp_gateway.Agent.Reader.{Conn, read_full, body_size}
use tcp_gateway.Stress.{
  Stats, report, dial, Round, continues, stops, crashes, round, read_reply, read_reply_body,
  count_reply,
}
use tcp_gateway.Stress.Load.{Client, running, ended, Load, start, dial_next}

abbrev pub is_ended : Client → ℕ
is_ended (running c) = 0
is_ended ended = 1

-- The goroutines that are over.
unfoldable pub over : List Client → ℕ
over [] = 0
over (c ∷ cs) = is_ended c + over cs

pub total_qps : List Stats → ℕ
total_qps [] = 0
total_qps (s ∷ l) = s.qps + total_qps l

-- What a round adds to the counters: k of its replies are counted, n requests are sent.
pub record Adds (s s' : Stats) (n k errors : ℕ) : Type 0 where
  pub conn_num : s'.conn_num ≡ s.conn_num
  pub error_num : s'.error_num ≡ s.error_num + errors
  pub succ_num : s'.succ_num ≡ s.succ_num + k
  pub succ_num_tmp : s'.succ_num_tmp ≡ s.succ_num_tmp + k
  pub send_num : s'.send_num ≡ s.send_num + n
  pub counted : k ≤ n

abbrev pub Plays : Stats → ℕ → ℕ → Round → Type 0
Plays s n k (continues s' c) = Adds s s' n k 0
Plays s n k (stops s') = Adds s s' n k 1
Plays s n k crashes = ⊥

-- Whether there is a whole reply on the connection: a header and a body of its size.
abbrev pub is_replied : Conn → Bool
is_replied c =
    leb 10 (length c.input)
    && leb (body_size (le (slice 2 6 (take 10 c.input)))) (length (drop 10 c.input))

-- 1 for a reply that has come and has the id that is waited for, and 0 otherwise.
abbrev pub wins : ℕ → Conn → ℕ
wins expected c = if is_replied c && le (slice 0 2 (take 10 c.input)) == expected then 1 else 0

-- What a round sends and wins, by what Marshal has returned and conn.Write answers.
abbrev pub round_sends : Encoded → Option Error → ℕ
round_sends (wrote b) none = 1
round_sends (wrote b) (some e) = 0
round_sends (failed e) answer = 0
round_sends panics answer = 0

abbrev pub round_wins : ℕ → Encoded → Option Error → Conn → ℕ
round_wins expected request answer c = round_sends request answer * wins expected c

zero-* : (n : ℕ) → 0 * n ≡ 0
zero-* n = omega arith

one-* : (n : ℕ) → 1 * n ≡ n
one-* n = omega arith

module _ (expected : ℕ) (s : Stats) where
  sent : Stats
  sent = record s { send_num = s.send_num + 1 }

  stops-Plays : Plays s 1 0 (stops (record sent { error_num = sent.error_num + 1 }))
  unfolding sent
  stops-Plays = record {
    conn_num = refl;
    error_num = refl;
    succ_num = omega arith;
    succ_num_tmp = omega arith;
    send_num = refl;
    counted = omega arith;
  }

  count_reply-Plays :
      (id : ℕ) (c : Conn)
      → Plays s 1 (if id == expected then 1 else 0) (continues (count_reply expected id sent) c)
  unfolding sent
  count_reply-Plays id c = elim (Bool-cases (id == expected)) [
    | inl e ↦ rw e (record {
      conn_num = refl;
      error_num = omega arith;
      succ_num = refl;
      succ_num_tmp = refl;
      send_num = refl;
      counted = omega arith;
    })
    | inr e ↦ rw e (record {
      conn_num = refl;
      error_num = omega arith;
      succ_num = omega arith;
      succ_num_tmp = omega arith;
      send_num = refl;
      counted = omega arith;
    })
  ]

  body_size-small : (size : ℕ) → body_size size < 2 ^ 32
  body_size-small size = omega arith

  read_reply_body-Plays :
      (id size : ℕ) (c : Conn)
      → Plays s 1
          (if leb (body_size size) (length c.input) && id == expected then 1 else 0)
          (read_reply_body expected id size sent c)
  unfolding read_reply_body read_full
  read_reply_body-Plays id size c = elim (Bool-cases (leb (body_size size) (length c.input))) [
    | inr e ↦ rw (e, read_reply_body) stops-Plays
    | inl e ↦
        let whole : (body_size size == length (take (body_size size) c.input) % 2 ^ 32) ≡ true =
          ground (arith, length-take (body_size size) c.input, body_size-small size, e) in
        rw (e, read_reply_body, whole)
          (count_reply-Plays id (record c { input = drop (body_size size) c.input }))
  ]

  read_reply-Plays : (c : Conn) → Plays s 1 (wins expected c) (read_reply expected sent c)
  unfolding read_reply read_full
  read_reply-Plays c = elim (Bool-cases (leb 10 (length c.input))) [
    | inr e ↦ rw (e, read_reply) stops-Plays
    | inl e ↦
        let whole : (length (take 10 c.input) == 10) ≡ true =
          ground (arith, length-take 10 c.input, e) in
        rw (e, read_reply, whole)
          (read_reply_body-Plays (le (slice 0 2 (take 10 c.input)))
            (le (slice 2 6 (take 10 c.input))) (record c { input = drop 10 c.input }))
  ]

  stops_unsent-Plays : Plays s 0 0 (stops (record s { error_num = s.error_num + 1 }))
  stops_unsent-Plays = record {
    conn_num = refl;
    error_num = refl;
    succ_num = omega arith;
    succ_num_tmp = omega arith;
    send_num = omega arith;
    counted = omega arith;
  }

  pub round-Plays :
      (request : Encoded) (answer : Option Error) (c : Conn)
      → request ≢ panics
      → Plays s
          (round_sends request answer)
          (round_wins expected request answer c)
          (round expected request answer s c)
  unfolding round sent
  round-Plays (failed e) answer c h = rw (zero-* (wins expected c)) stops_unsent-Plays
  round-Plays panics answer c h = absurd (h refl)
  round-Plays (wrote b) (some e) c h = rw (zero-* (wins expected c)) stops_unsent-Plays
  round-Plays (wrote b) none c h = rw (one-* (wins expected c)) (read_reply-Plays c)

-- What holds of the counters at every moment. n is the number of connections to dial.
pub record IsCounted (n : ℕ) (w : Load) : Type 0 where
  pub errors : w.stats.error_num + w.stats.conn_num + w.left ≡ n + over w.clients
  pub clients : length w.clients ≡ w.stats.conn_num
  pub sent : w.stats.succ_num ≤ w.stats.send_num
  pub logged : 5 * total_qps w.logged + w.stats.succ_num_tmp ≤ w.stats.succ_num
  pub unlogged :
      w.stats.succ_num ≤ 5 * total_qps w.logged + w.stats.succ_num_tmp + 4 * length w.logged

pub start-IsCounted : (n : ℕ) → IsCounted n (start n)
unfolding over total_qps
start-IsCounted n = record {
  errors = omega arith;
  clients = refl;
  sent = omega arith;
  logged = omega arith;
  unlogged = omega arith;
}

over-append : (cs ds : List Client) → over (cs ++ ds) ≡ over cs + over ds
unfolding over
over-append [] ds = omega arith
over-append (c ∷ cs) ds = omega (arith, over-append cs ds)

pub dial_next-IsCounted :
    (n : ℕ) (answer : Option Error) (c : Conn) (w : Load)
    → IsCounted n w
    → IsCounted n (dial_next answer c w)
unfolding dial_next dial over
dial_next-IsCounted n (some e) c w h = elim (Bool-cases (w.left == 0)) [
  | inl e ↦ rw e h
  | inr e ↦ rw e (record {
    errors = ground (arith, h.errors, e);
    clients = h.clients;
    sent = h.sent;
    logged = h.logged;
    unlogged = h.unlogged;
  })
]
dial_next-IsCounted n none c w h = elim (Bool-cases (w.left == 0)) [
  | inl e ↦ rw e h
  | inr e ↦ rw e (record {
    errors = ground (arith, h.errors, e, over-append w.clients (running c ∷ []));
    clients = omega (arith, h.clients, length-append w.clients (running c ∷ []));
    sent = h.sent;
    logged = h.logged;
    unlogged = h.unlogged;
  })
]

pub report-IsCounted :
    (n : ℕ) (w : Load)
    → IsCounted n w
    → IsCounted n (record w { stats = report w.stats; logged = report w.stats ∷ w.logged })
unfolding report total_qps
report-IsCounted n w h = record {
  errors = h.errors;
  clients = h.clients;
  sent = h.sent;
  logged = omega (arith, h.logged);
  unlogged = omega (arith, h.unlogged);
}
