-- ===== src/Stress/Rounds.antt =====
-- The rounds of the client of cmd/stress/stress.go against the gateway: the read loop of
-- pkg/agent/agent.go, the plugins of pkg/hot/plugins/plugins.go with their goroutines, and the
-- frames of pkg/writer/writer.go, one after another.
use tcp_gateway.Prelude.{
  ℕ, zero, suc, ◌+◌, ◌%◌, ◌^◌, ◌≤◌, ◌<◌, ◌≡◌, refl, ap, ap₂, ◌∙◌, false, Option, none, some, List,
  [], ◌∷◌, ◌++◌, append-nil, arith, length,
}
use tcp_gateway.Bytes.{Bytes}
use tcp_gateway.Interfaces.{Error, timeout, Msg}
use tcp_gateway.Writer.{frame}
use tcp_gateway.Hooks.Laws.{InRange}
use tcp_gateway.Encoding.{wrote}
use tcp_gateway.Agent.Reader.{Conn, loop_read, body_size}
use tcp_gateway.Agent.Reader.Framing.{read_full-append, header, header_id, header_size}
use tcp_gateway.Agent.Reader.Runs.{loop_read-frames}
use tcp_gateway.Plugins.{Session, Env, plugins_main, task, loaded}
use tcp_gateway.Plugins.Chain.{plugins_main_lem, admitted, plugins_main-admitted}
use tcp_gateway.Stress.{
  Stats, send_buf, Round, continues, stops, crashes, read_reply, read_reply_body, round,
  count_reply,
}

-- The goroutines that the plugins have started, in their order.
abbrev pub run_tasks : Env → List Msg → Session → Session
run_tasks env [] s = s
run_tasks env (m ∷ ms) s = run_tasks env ms (task env s m)

-- The frames of what `agent.Write` took, the latest first, in front of those of later messages.
abbrev pub reply_frames : List (ℕ × Bytes) → Bytes → Bytes
reply_frames [] acc = acc
reply_frames ((id, b) ∷ l) acc = reply_frames l (frame id b 0 ++ acc)

-- The gateway's side of a round: it reads what the client sent, until the connection is silent,
-- runs the goroutines and sends what they wrote.
pub serve : Env → Session → Bytes → Option (Session × Bytes)
serve env s request =
    elim (loop_read (plugins_main env) (λ k. false) (suc (length request)) 0 s
      (record { input = request; last = timeout })) [
        | none ↦ none
        | some (s₁, e) ↦
            let s₂ = run_tasks env s₁.spawned (record s₁ { spawned = [] }) in
            some (record s₂ { sent = [] }, reply_frames s₂.sent [])
      ]

-- n rounds of a client that sends `sent`, each against the gateway.
pub play : Env → Bytes → (Stats → Conn → Round) → ℕ → Session → Stats → Option (Session × Stats)
play env sent client zero s stats = some (s, stats)
play env sent client (suc n) s stats = elim (serve env s sent) [
  | none ↦ none
  | some (s', reply) ↦ elim (client stats (record { input = reply; last = timeout })) [
    | continues stats' c ↦ play env sent client n s' stats'
    | stops stats' ↦ none
    | crashes ↦ none
  ]
]

-- Nothing of the connection is under way, and it has room.
pub record Ready (s : Session) : Type 0 where
  pub quiet : s.spawned ≡ []
  pub flushed : s.sent ≡ []
  pub writable : s.write_err ≡ none
  pub room : loaded s.concurrent ≤ 10

read_reply_body-append :
    (expected id : ℕ) (body rest : Bytes) (e : Error) (s : Stats)
    → length body + 10 < 2 ^ 32
    → read_reply_body expected id (length body + 10) s (record { input = body ++ rest; last = e })
      ≡ continues (count_reply expected id s) (record { input = rest; last = e })
unfolding read_reply_body
read_reply_body-append expected id body rest e s k =
    let size : body_size (length body + 10) ≡ length body = omega arith in
    rw (size, read_reply_body, read_full-append body rest e) (ground arith)

-- A reply is read as its frame, and counted by its id.
pub read_reply-frame :
    (expected id : ℕ) (body rest : Bytes) (seq : ℕ) (e : Error) (s : Stats)
    → id < 2 ^ 16
    → length body + 10 < 2 ^ 32
    → read_reply expected s (record { input = frame id body seq ++ rest; last = e })
      ≡ continues (count_reply expected id s) (record { input = rest; last = e })
unfolding read_reply frame
read_reply-frame expected id body rest seq e s h k =
    let n : ℕ = length body + 10 in
    let small : n % 2 ^ 32 ≡ n = omega arith in
    rw (small, read_reply, read_full-append (header id n seq) (body ++ rest) e)
      (ap₂ (λ i z. read_reply_body expected i z s (record { input = body ++ rest; last = e }))
          (header_id id n seq h) (header_size id n seq k)
        ∙ read_reply_body-append expected id body rest e s k)

-- What the read loop makes of one request in range.
pub loop_read-request :
    (env : Env) (s : Session) (id : ℕ) (b : Bytes)
    → InRange id (length b + 10)
    → loop_read
        (plugins_main env)
        (λ k. false)
        (suc (length (send_buf id b)))
        0
        s
        (record { input = send_buf id b; last = timeout })
      ≡ some ((plugins_main env s (record { id = id; body = b })).0, some timeout)
unfolding frame
loop_read-request env s id b r = rw append-nil at (
    loop_read-frames (plugins_main env) (λ k. false) (λ t m. (plugins_main_lem env t m).0)
      (record { msg = record { id = id; body = b }; seq = 0 } ∷ []) (suc (length (send_buf id b))) s
      timeout (r, tt) (ground arith))

abbrev pub flushed_out : Session → Session × Bytes
flushed_out t = (record t { sent = [] }, reply_frames t.sent [])

pub serve-Ready :
    (env : Env) (s : Session) (id : ℕ) (b : Bytes)
    → Ready s
    → InRange id (length b + 10)
    → serve env s (send_buf id b)
      ≡ some (flushed_out (task env (admitted s) (record { id = id; body = b })))
unfolding serve
serve-Ready env s id b r h =
    rw
      (
        serve,
        loop_read-request env s id b h,
        plugins_main-admitted env s (record { id = id; body = b }) r.quiet r.room,
      )
      refl

-- A goroutine that answers with one message and gives its place back.
pub record Answers (env : Env) (s : Session) (msg : Msg) (id : ℕ) (b : Bytes) : Type 0 where
  pub answered : (task env (admitted s) msg).sent ≡ (id, b) ∷ []
  pub still : (task env (admitted s) msg).spawned ≡ []
  pub open_still : (task env (admitted s) msg).write_err ≡ none
  pub given_back : loaded (task env (admitted s) msg).concurrent ≤ 10

abbrev pub counted : Stats → ℕ → Stats
counted stats n = record stats {
  send_num = stats.send_num + n;
  succ_num = stats.succ_num + n;
  succ_num_tmp = stats.succ_num_tmp + n;
}

round-frame :
    (expected : ℕ) (request reply : Bytes) (stats : Stats)
    → expected < 2 ^ 16
    → length reply + 10 < 2 ^ 32
    → round expected
        (wrote request)
        none
        stats
        (record { input = frame expected reply 0 ++ []; last = timeout })
      ≡ continues (counted stats 1) (record { input = []; last = timeout })
unfolding round
round-frame expected request reply stats h k =
    read_reply-frame expected expected reply [] 0 timeout
      (record stats { send_num = stats.send_num + 1 }) h k
    ∙ ap (λ c. continues c (record { input = []; last = timeout })) (ground arith)

pub play_lem :
    (env : Env) (id expected : ℕ) (request reply : Bytes) (n : ℕ) (s : Session) (stats : Stats)
    → InRange id (length request + 10)
    → expected < 2 ^ 16
    → length reply + 10 < 2 ^ 32
    → ((t : Session) → Ready t → Answers env t (record { id = id; body = request }) expected reply)
    → Ready s
    → (t : Session) × (play env
          (send_buf id request)
          (round expected (wrote request) none)
          n
          s
          stats
        ≡ some (t, counted stats n))
      × Ready t
unfolding play
play_lem env id expected request reply zero s stats i h k a r = (s, ground arith, r)
play_lem env id expected request reply (suc n) s stats i h k a r =
    let v = a s r in
    let t : Session =
      (flushed_out (task env (admitted s) (record { id = id; body = request }))).0 in
    let r' : Ready t = record {
      quiet = v.still;
      flushed = refl;
      writable = v.open_still;
      room = v.given_back;
    } in
    let (u, e, ru) = play_lem env id expected request reply n t (counted stats 1) i h k a r' in
    (
      u,
      rw (serve-Ready env s id request r i, play)
          (rw (v.answered) (
            rw (round-frame expected request reply stats h k, play)
              (e ∙ ap (λ c. some (u, c)) (ground arith)))),
      ru,
    )
