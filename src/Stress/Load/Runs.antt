-- ===== src/Stress/Load/Runs.antt =====
-- Runs of the tests of cmd/stress/stress.go.
use tcp_gateway.Prelude.{
  Bool-cases, ◌==◌, Option-cases, ℕ, ◌+◌, ◌≡◌, ◌≢◌, refl, ◌∙◌, Bool, true, Option, none, some, List,
  [], ◌∷◌, inl, inr, arith,
}
use tcp_gateway.Text.{Text}
use tcp_gateway.Encoding.{Encoded, index_zero, encode_string, panics, marshal, encode}
use tcp_gateway.Agent.Reader.{Conn}
use tcp_gateway.Interfaces.{Error}
use tcp_gateway.Stress.{
  report, dial, round, echo_request, message_name, sync_time_request, sync_time_reply_id, echo_id,
}
use tcp_gateway.Stress.Load.{
  Kind, gateway_tcp, proxy, Load, start, Event, dialling, playing, reporting, closing, play_at,
  step, run, stress, stress_gateway_tcp, stress_proxy, dial_next,
}
use tcp_gateway.Stress.Load.Counting.{
  round-Plays, IsCounted, round_sends, round_wins, start-IsCounted, dial_next-IsCounted,
  report-IsCounted,
}
use tcp_gateway.Stress.Load.Turns.{
  at_client, play_at-Turned, Ends, Ends-after, put_back-Ends, length-close_at, over-close_at,
}

-- What a step sends and wins: a round of a client whose connection is open.
abbrev pub sends : Encoded → Load → Event → ℕ
sends request w (dialling answer c) = 0
sends request w (playing k answer) = at_client (λ c. round_sends request answer) k w.clients
sends request w reporting = 0
sends request w (closing k) = 0

abbrev pub wins_at : ℕ → Encoded → Load → Event → ℕ
wins_at expected request w (dialling answer c) = 0
wins_at expected request w (playing k answer) =
    at_client (round_wins expected request answer) k w.clients
wins_at expected request w reporting = 0
wins_at expected request w (closing k) = 0

-- The sum over the steps of a run, each with the state before it.
abbrev pub total : ℕ → Encoded → (Load → Event → ℕ) → List Event → Load → ℕ
total expected request f [] w = 0
total expected request f (e ∷ es) w =
    f w e + elim (step expected request w e) [ none ↦ 0 | some w' ↦ total expected request f es w' ]

dial_next_silent :
    (answer : Option Error) (c : Conn) (w : Load)
    → ((dial_next answer c w).stats.send_num ≡ w.stats.send_num + 0)
      × ((dial_next answer c w).stats.succ_num ≡ w.stats.succ_num + 0)
unfolding dial_next dial
dial_next_silent none c w = elim (Bool-cases (w.left == 0)) [
  | inl e ↦ rw e (omega arith, omega arith)
  | inr e ↦ rw e (omega arith, omega arith)
]
dial_next_silent (some x) c w = elim (Bool-cases (w.left == 0)) [
  | inl e ↦ rw e (omega arith, omega arith)
  | inr e ↦ rw e (omega arith, omega arith)
]

module _ (expected : ℕ) (request : Encoded) (sound : request ≢ panics) (n : ℕ) where
  step-Ends :
      (w : Load) (e : Event)
      → IsCounted n w
      → Ends n w.stats
          (sends request w e)
          (wins_at expected request w e)
          (step expected request w e)
  unfolding step report
  step-Ends w (dialling answer c) h = (
    dial_next-IsCounted n answer c w h,
    (dial_next_silent answer c w).0,
    (dial_next_silent answer c w).1,
  )
  step-Ends w (playing k answer) h =
      put_back-Ends n (at_client (λ c. round_sends request answer) k w.clients)
        (at_client (round_wins expected request answer) k w.clients) w
        (play_at (round expected request answer) k w.stats w.clients) h
        (play_at-Turned (round expected request answer) (λ c. round_sends request answer)
          (round_wins expected request answer)
          (λ s c. round-Plays expected s request answer c sound) k w.stats w.clients)
  step-Ends w reporting h = (report-IsCounted n w h, omega arith, omega arith)
  step-Ends w (closing k) h = (
    record {
      errors = omega (arith, h.errors, over-close_at k w.clients);
      clients = length-close_at k w.clients ∙ h.clients;
      sent = h.sent;
      logged = h.logged;
      unlogged = h.unlogged;
    },
    omega arith,
    omega arith,
  )

  run-Ends :
      (es : List Event) (w : Load)
      → IsCounted n w
      → Ends n w.stats
          (total expected request (sends request) es w)
          (total expected request (wins_at expected request) es w)
          (run expected request es w)
  unfolding run
  run-Ends [] w h = (h, omega arith, omega arith)
  run-Ends (e ∷ es) w h =
      elim (step expected request w e)
          as (λ r.
            Ends n w.stats (sends request w e) (wins_at expected request w e) r
            → Ends n w.stats
                (sends request w e
                  + elim r [ none ↦ 0 | some w' ↦ total expected request (sends request) es w' ])
                (wins_at expected request w e + elim r [
                  | none ↦ 0
                  | some w' ↦ total expected request (wins_at expected request) es w'
                ])
                (elim r [ none ↦ none | some w' ↦ run expected request es w' ])) [
                  | none ↦ λ k. k
                  | some w' ↦ λ k.
                      Ends-after n (sends request w e) (wins_at expected request w e)
                        (total expected request (sends request) es w')
                        (total expected request (wins_at expected request) es w') w.stats w'.stats
                        (run expected request es w') k.1 k.2 (run-Ends es w' k.0)
                ]
        (step-Ends w e h)

-- The end of a run from the start.
abbrev pub Counted : ℕ → ℕ → ℕ → Option Load → Type 0
Counted n m k r =
    (w : Load) × (r ≡ some w) × IsCounted n w × (w.stats.send_num ≡ m) × (w.stats.succ_num ≡ k)

Counted-some : (n m k : ℕ) (r : Option Load) → Ends n (start n).stats m k r → Counted n m k r
Counted-some n m k none h = absurd h
Counted-some n m k (some w) (h, a, b) = (w, refl, h, omega (arith, a), omega (arith, b))

marshal-echo_request_sound :
    (exported : Text → Bool) (message : Text)
    → exported message_name ≡ true
    → marshal exported (echo_request message) ≢ panics
unfolding marshal encode
marshal-echo_request_sound exported message x h = elim (Option-cases (index_zero message)) [
  | inl e ↦ ground (arith, x, (rw (x, e, encode_string) at h))
  | inr (i, e) ↦ ground (arith, x, (rw (x, e, encode_string) at h))
]

marshal-sync_time_request_sound :
    (exported : Text → Bool) → marshal exported sync_time_request ≢ panics
unfolding marshal encode
marshal-sync_time_request_sound exported h = ground (arith, h)

abbrev pub reply_id : Kind → ℕ
reply_id gateway_tcp = echo_id
reply_id proxy = sync_time_reply_id

abbrev pub request_of : (Text → Bool) → Text → Kind → Encoded
request_of exported message gateway_tcp = marshal exported (echo_request message)
request_of exported message proxy = marshal exported sync_time_request

-- In every order of the steps of a test, whatever the network and the gateway do, the process does not
-- panic, where the field Message counts as exported, and at every moment: the errors are the connections
-- that could not be dialled and the clients that have ended; there is a client for every connection
-- that is counted; the rates that were logged, times five, with what the next report will count, are at
-- most the successes, and less than them by at most four for each report. The requests sent are the
-- rounds of clients that run in which the message could be encoded and its write did not fail, and the
-- successes are those of them for which a whole reply with the id that the test waits for has come.
pub stress-Counted :
    (exported : Text → Bool) (message : Text) (kind : Kind) (n : ℕ) (events : List Event)
    → exported message_name ≡ true
    → let id = reply_id kind in
      let request = request_of exported message kind in
      Counted n
        (total id request (sends request) events (start n))
        (total id request (wins_at id request) events (start n))
        (stress exported message kind n events)
unfolding stress stress_gateway_tcp stress_proxy
stress-Counted exported message gateway_tcp n events x =
    let request = marshal exported (echo_request message) in
    Counted-some n _ _ (run echo_id request events (start n)) (
      run-Ends echo_id request (marshal-echo_request_sound exported message x) n events (start n)
        (start-IsCounted n))
stress-Counted exported message proxy n events x =
    let request = marshal exported sync_time_request in
    Counted-some n _ _ (run sync_time_reply_id request events (start n)) (
      run-Ends sync_time_reply_id request (marshal-sync_time_request_sound exported) n events
        (start n) (start-IsCounted n))
