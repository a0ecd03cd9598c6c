-- ===== src/Agent/Exit/Causes.antt =====
-- What the read loop of pkg/agent/agent.go raises an alert for.
use tcp_gateway.Prelude.{
  ℕ, ◌%◌, ◌^◌, ◌≤◌, ◌<◌, ◌==◌, ◌≡◌, ◌≢◌, refl, sym, ap, ◌∙◌, Bool, true, Option-cases, ◌⊎◌, inl,
  inr, Option, none, some, List, [], ◌∷◌, ◌++◌, length, take, drop, length-take, All, arith,
}
use tcp_gateway.Bytes.{Bytes, IsByte, slice, le}
use tcp_gateway.Interfaces.{
  Error, eof, unexpected_eof, conn_reset, net_closed, timeout, EndPoint, done, Msg,
}
use tcp_gateway.Hooks.{hook_header, check_header}
use tcp_gateway.Agent.Reader.{
  Conn, got, failed, read_full, short_read, read_message, loop_read, body_size,
}
use tcp_gateway.Agent.Reader.Soundness.{Read-cases}
use tcp_gateway.Agent.Reader.Runs.{Sent, SentInRange, frames, loop_read_total, loop_read-Parsed}
use tcp_gateway.Agent.Exit.{read_alert}

-- A client that goes away: the connection ends, is reset or is closed, or its time runs out.
pub data IsAway : Error → Type 0 where
  ends : IsAway eof
  resets : IsAway conn_reset
  closes : IsAway net_closed
  times_out : IsAway timeout

-- The connection ended inside of a frame.
abbrev pub IsCut : Conn → Error → Type 0
IsCut c e = (e ≡ unexpected_eof) × (c.last ≡ eof) × (c.input ≢ [])

-- The next header is complete and is refused.
abbrev pub IsRefused : Conn → Error → Type 0
IsRefused c e = (10 ≤ length c.input) × (hook_header (some (take 10 c.input)) ≡ some e)

short_read_cases :
    (b : Bytes) (e : Error)
    → (short_read b e ≡ e) ⊎ ((short_read b e ≡ unexpected_eof) × (e ≡ eof) × (b ≢ []))
unfolding short_read
short_read_cases [] e = inl refl
short_read_cases (x ∷ b) eof = inr (refl, refl, λ q. ground arith)
short_read_cases (x ∷ b) _ = inl refl

read_full-failed :
    (n : ℕ) (c : Conn) (e : Error) → read_full n c ≡ failed e → (e ≡ c.last) ⊎ IsCut c e
unfolding read_full
read_full-failed n c e h =
    let s : e ≡ short_read c.input c.last = ground arith in
    elim (short_read_cases c.input c.last) [
      | inl q ↦ inl (s ∙ q)
      | inr (q, l, b) ↦ inr (s ∙ q, l, b)
    ]

read_full-got :
    (n : ℕ) (c c' : Conn) (xs : Bytes)
    → read_full n c ≡ got xs c'
    → (n ≤ length c.input)
      × (xs ≡ take n c.input)
      × (length xs ≡ n)
      × (c'.input ≡ drop n c.input)
      × (c'.last ≡ c.last)
unfolding read_full
read_full-got n c c' xs h =
    (ground arith, ground arith, ground (arith, length-take n c.input), ground arith, ground arith)

size_test : (x : ℕ) (b : Bytes) → length b ≡ body_size x → (body_size x == length b % 2 ^ 32) ≡ true
size_test x b h = ground (arith, h)

read_message-failed :
    (c : Conn) (e : Error) → read_message c ≡ failed e → (e ≡ c.last) ⊎ (IsCut c e ⊎ IsRefused c e)
unfolding read_message
read_message-failed c e h = elim (Read-cases (read_full 10 c)) [
  | inl (e', p) ↦
      let q : read_full 10 c ≡ failed e = ground arith in
      elim (read_full-failed 10 c e q) [ inl x ↦ inl x | inr x ↦ inr (inl x) ]
  | inr (header, c₁, p) ↦
      let (long, is_header, n, rest, last) = read_full-got 10 c c₁ header p in
      elim (Option-cases (hook_header (some header))) [
        | inr (x, q) ↦
            let same_e : x ≡ e = ground arith in
            inr (inr (long, rw (← is_header) (q ∙ ap some same_e)))
        | inl q ↦ elim (Read-cases (read_full (body_size (le (slice 2 6 header))) c₁)) [
          | inl (x, r) ↦
              let f : read_full (body_size (le (slice 2 6 header))) c₁ ≡ failed e = ground arith in
              elim (read_full-failed _ c₁ e f) [
                | inl y ↦ inl (y ∙ last)
                | inr (y, l, b) ↦ inr (inl (y, sym last ∙ l, λ z. b (rw z at rest)))
              ]
          | inr (body, c₂, r) ↦
              let (_, _, m, _, _) = read_full-got _ c₁ c₂ body r in
              absurd (ground (arith, size_test (le (slice 2 6 header)) body m))
        ]
      ]
]

refused_alert :
    (h : Bytes) (e : Error) → hook_header (some h) ≡ some e → read_alert (some e) ≡ some e
unfolding read_alert hook_header check_header
refused_alert h e q = ground arith

away_quiet : (e : Error) → IsAway e → read_alert (some e) ≡ none
unfolding read_alert
away_quiet _ ends = refl
away_quiet _ resets = refl
away_quiet _ closes = refl
away_quiet _ times_out = refl

module _ {ℓ} {S : Type ℓ} (plugins : EndPoint S) (disabled : ℕ → Bool) where
  -- The alert of the read loop, if there is one, by what the client sent.
  abbrev pub IsExplained : Conn → Option Error → Type 0
  IsExplained c o =
      ((o ≡ some c.last) × (read_alert o ≡ none))
      ⊎ ((e : Error) × (read_alert o ≡ some e)
          × (ts : List Sent) × (rest : Bytes) × (c.input ≡ frames ts ++ rest)
          × All SentInRange ts
          × (IsCut (record { input = rest; last = c.last }) e
              ⊎ IsRefused (record { input = rest; last = c.last }) e))

  -- A client whose connection ends, is reset, is closed or times out, whatever it has sent, and forwarding that
  -- reports no error: with more fuel than bytes the loop returns, and either it returns that error and
  -- there is no alert, or the alert is for a header that is refused or for an end inside of a frame,
  -- which comes behind a row of frames in range.
  pub read_alert-loop_read :
      ((s : S) (msg : Msg) → (plugins s msg).1 ≡ done)
      → (fuel : ℕ) (s : S) (c : Conn) → All IsByte c.input
      → length c.input < fuel
      → IsAway c.last
      → (s' : S) × (o : Option Error) × (loop_read plugins disabled fuel 0 s c ≡ some (s', o))
        × IsExplained c o
  unfolding read_alert
  read_alert-loop_read pass fuel s c bs h away =
      let ((s', o), t) = loop_read_total plugins disabled fuel 0 s c h in
      let (e, q, (ts, rest, input, ranges, _, stop)) =
        loop_read-Parsed plugins disabled pass fuel 0 s c bs t in
      let c' : Conn = record { input = rest; last = c.last } in
      (
        s',
        o,
        t,
        elim (read_message-failed c' e stop) [
          | inl l ↦ inl (q ∙ ap some l, ap read_alert (q ∙ ap some l) ∙ away_quiet c.last away)
          | inr (inl x) ↦ inr (e, ap read_alert q ∙ rw (x.0) refl, ts, rest, input, ranges, inl x)
          | inr (inr x) ↦
              inr (e, ap read_alert q ∙ refused_alert _ e x.1, ts, rest, input, ranges, inr x)
        ],
      )
