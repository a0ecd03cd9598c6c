-- ===== src/Stress/Load/Turns.antt =====
-- One step of the tests of cmd/stress/stress.go on the clients and the counters.
use tcp_gateway.Prelude.{
  ℕ, zero, suc, ◌+◌, ◌≡◌, refl, ap, Option, none, some, List, [], ◌∷◌, length, arith,
}
use tcp_gateway.Agent.Reader.{Conn}
use tcp_gateway.Stress.{Stats, Round, continues, stops, crashes}
use tcp_gateway.Stress.Load.{
  Client, running, ended, Load, played, behind, play_at, close_at, put_back,
}
use tcp_gateway.Stress.Load.Counting.{over, Adds, Plays, IsCounted}

-- A number of the connection of the client with the number, 0 where its goroutine is over.
abbrev pub at_client : (Conn → ℕ) → ℕ → List Client → ℕ
at_client f k [] = 0
at_client f zero (running c ∷ cs) = f c
at_client f zero (ended ∷ cs) = 0
at_client f (suc k) (c ∷ cs) = at_client f k cs

-- The clients after a turn of one of them, and what it has added.
abbrev pub Turned : Stats → List Client → ℕ → ℕ → Option (Stats × List Client) → Type 0
Turned s cs n k none = ⊥
Turned s cs n k (some (s', ds)) =
    (e : ℕ) × Adds s s' n k e × (length ds ≡ length cs) × (over ds ≡ over cs + e)

nothing : (s : Stats) → Adds s s 0 0 0
nothing s = record {
  conn_num = refl;
  error_num = omega arith;
  succ_num = omega arith;
  succ_num_tmp = omega arith;
  send_num = omega arith;
  counted = omega arith;
}

played-Turned :
    (s : Stats) (c : Conn) (cs : List Client) (n k : ℕ) (r : Round)
    → Plays s n k r
    → Turned s (running c ∷ cs) n k (played cs r)
unfolding over
played-Turned s c cs n k (continues s' c') a = (0, a, refl, omega arith)
played-Turned s c cs n k (stops s') a = (1, a, refl, omega arith)
played-Turned s c cs n k crashes h = absurd h

behind-Turned :
    (s : Stats) (c : Client) (cs : List Client) (n k : ℕ) (r : Option (Stats × List Client))
    → Turned s cs n k r
    → Turned s (c ∷ cs) n k (behind c r)
unfolding over
behind-Turned s c cs n k none h = h
behind-Turned s c cs n k (some (s', ds)) (e, a, l, o) = (e, a, omega (arith, l), omega (arith, o))

pub play_at-Turned :
    (turn : Stats → Conn → Round) (n k : Conn → ℕ)
    → ((s : Stats) (c : Conn) → Plays s (n c) (k c) (turn s c))
    → (i : ℕ) (s : Stats) (cs : List Client)
    → Turned s cs (at_client n i cs) (at_client k i cs) (play_at turn i s cs)
unfolding play_at
play_at-Turned turn n k h i s [] = (0, nothing s, refl, omega arith)
play_at-Turned turn n k h zero s (running c ∷ cs) =
    played-Turned s c cs (n c) (k c) (turn s c) (h s c)
play_at-Turned turn n k h zero s (ended ∷ cs) = (0, nothing s, refl, omega arith)
play_at-Turned turn n k h (suc i) s (c ∷ cs) =
    behind-Turned s c cs (at_client n i cs) (at_client k i cs) (play_at turn i s cs)
      (play_at-Turned turn n k h i s cs)

-- The counters after some steps that have sent m requests and won k replies.
abbrev pub Ends : ℕ → Stats → ℕ → ℕ → Option Load → Type 0
Ends n s m k none = ⊥
Ends n s m k (some w) =
    IsCounted n w × (w.stats.send_num ≡ s.send_num + m) × (w.stats.succ_num ≡ s.succ_num + k)

pub Ends-after :
    (n m k m' k' : ℕ) (s s' : Stats) (r : Option Load)
    → s'.send_num ≡ s.send_num + m
    → s'.succ_num ≡ s.succ_num + k
    → Ends n s' m' k' r
    → Ends n s (m + m') (k + k') r
Ends-after n m k m' k' s s' none a b h = h
Ends-after n m k m' k' s s' (some w) a b (h, x, y) = (h, omega (arith, a, x), omega (arith, b, y))

pub put_back-Ends :
    (n m k : ℕ) (w : Load) (r : Option (Stats × List Client))
    → IsCounted n w
    → Turned w.stats w.clients m k r
    → Ends n w.stats m k (put_back w r)
put_back-Ends n m k w none h t = t
put_back-Ends n m k w (some (s, cs)) h (e, a, l, o) = (
  record {
    errors = omega (arith, h.errors, a.error_num, a.conn_num, o);
    clients = omega (arith, h.clients, l, a.conn_num);
    sent = omega (arith, h.sent, a.succ_num, a.send_num, a.counted);
    logged = omega (arith, h.logged, a.succ_num, a.succ_num_tmp);
    unlogged = omega (arith, h.unlogged, a.succ_num, a.succ_num_tmp);
  },
  a.send_num,
  a.succ_num,
)

pub length-close_at : (k : ℕ) (cs : List Client) → length (close_at k cs) ≡ length cs
unfolding close_at
length-close_at k [] = refl
length-close_at zero (c ∷ cs) = refl
length-close_at (suc k) (c ∷ cs) = ap suc (length-close_at k cs)

pub over-close_at : (k : ℕ) (cs : List Client) → over (close_at k cs) ≡ over cs
unfolding close_at over
over-close_at k [] = refl
over-close_at zero (running c ∷ cs) = refl
over-close_at zero (ended ∷ cs) = refl
over-close_at (suc k) (c ∷ cs) = omega (arith, over-close_at k cs)
