-- ===== src/Gateway/Handlers/Pacing.antt =====
-- How long a broadcast of pkg/gateway/gateway.go takes and whom it reaches.
use native.Mathlib.Nat.{mul-div-le, div-le_self}
use tcp_gateway.Prelude.{
  ℕ, suc, ◌+◌, ◌*◌, ◌/◌, ◌^◌, ◌≤◌, ◌<◌, ◌⊎◌, ◌≡◌, refl, ap, none, some, List, [], ◌∷◌, length,
  arith, Option-cases, map, inl, inr,
}
use tcp_gateway.Bytes.{Bytes}
use tcp_gateway.Text.{Text}
use tcp_gateway.Gateway.{Gateway, get_agent}
use tcp_gateway.Gateway.Handlers.{
  ℤ, pos, negsuc, Effect, disable, close_agent, write_agent, sleep, success, BroadcastRequest,
  broadcast_loop, handle_broadcast, interval, wrapping_mul, millisecond, second,
}

List-cases {ℓ} : {A : Type ℓ} (l : List A) → (l ≡ []) ⊎ ((x : A) × (xs : List A) × (l ≡ x ∷ xs))
List-cases [] = inl refl
List-cases (x ∷ xs) = inr (x, xs, refl)

-- The time that time.Sleep takes: none for a negative duration.
abbrev pub slept : ℤ → ℕ
slept (pos n) = n
slept (negsuc n) = 0

wrapping_mul_small : (n k : ℕ) → n * k < 2 ^ 63 → wrapping_mul (pos n) k ≡ pos (n * k)
wrapping_mul_small n k h = ground arith

pause-le :
    (n k : ℕ)
    → n ≤ 9223372036
    → k * slept (wrapping_mul (interval (pos n) k) millisecond) ≤ n * second
pause-le n k h =
    let q : ℕ = n * 1000 / k in
    let low : k * q ≤ n * 1000 = mul-div-le (n * 1000) k in
    let small : q ≤ n * 1000 = div-le_self (n * 1000) k in
    rw
      (
        wrapping_mul_small n 1000 (omega (arith, h)),
        wrapping_mul_small q millisecond (omega (arith, h, small)),
        slept,
      )
      (omega (arith, low))

module _ {ℓ} {V : Type ℓ} where
  abbrev pub total_sleep : List (Effect V) → ℕ
  total_sleep [] = 0
  total_sleep (sleep t ∷ es) = slept t + total_sleep es
  total_sleep (disable a ∷ es) = total_sleep es
  total_sleep (close_agent a ∷ es) = total_sleep es
  total_sleep (write_agent a m b ∷ es) = total_sleep es

  -- The messages written, in order.
  abbrev pub writes : List (Effect V) → List (V × ℕ × Bytes)
  writes [] = []
  writes (write_agent a m b ∷ es) = (a, m, b) ∷ writes es
  writes (sleep t ∷ es) = writes es
  writes (disable a ∷ es) = writes es
  writes (close_agent a ∷ es) = writes es

  -- The agents that the look-ups of a broadcast find, in the order of the ids.
  abbrev pub reached : (ℕ → Gateway V) → ℕ → List Text → List V
  reached gateways i [] = []
  reached gateways i (id ∷ ids) = elim (get_agent (gateways i) id) [
    | none ↦ reached gateways (suc i) ids
    | some a ↦ a ∷ reached gateways (suc i) ids
  ]

  loop-total_sleep :
      (gws : ℕ → Gateway V) (m : ℕ) (b : Bytes) (p : ℤ) (i : ℕ) (ids : List Text)
      → total_sleep (broadcast_loop gws m b p i ids)
        ≤ length ids * slept (wrapping_mul p millisecond)
  unfolding broadcast_loop
  loop-total_sleep gws m b p i [] = omega arith
  loop-total_sleep gws m b p i (id ∷ ids) =
      let rest = loop-total_sleep gws m b p (suc i) ids in
      elim (Option-cases (get_agent (gws i) id)) [
        | inl e ↦ rw (e, total_sleep) (omega (arith, rest))
        | inr (a, e) ↦ rw (e, total_sleep) (omega (arith, rest))
      ]

  loop-writes :
      (gws : ℕ → Gateway V) (m : ℕ) (b : Bytes) (p : ℤ) (i : ℕ) (ids : List Text)
      → writes (broadcast_loop gws m b p i ids) ≡ map (λ a. (a, m, b)) (reached gws i ids)
  unfolding broadcast_loop
  loop-writes gws m b p i [] = refl
  loop-writes gws m b p i (id ∷ ids) =
      let rest = loop-writes gws m b p (suc i) ids in
      elim (Option-cases (get_agent (gws i) id)) [
        | inl e ↦ rw (e, writes, reached) rest
        | inr (a, e) ↦ rw (e, writes, reached) (ap (◌∷◌ (a, m, b)) rest)
      ]

  -- The pauses of a broadcast are no longer than the duration that it was asked for, if that is at
  -- most 9223372036 seconds, so that its nanoseconds fit in 63 bits.
  pub broadcast-total_sleep :
      (decode : Text → Bytes) (gateways : ℕ → Gateway V) (q : BroadcastRequest) (n : ℕ)
      → q.duration_seconds ≡ pos n
      → n ≤ 9223372036
      → total_sleep (handle_broadcast decode gateways (some q)).background ≤ n * second
  unfolding handle_broadcast
  broadcast-total_sleep decode gateways q n d h = elim (List-cases q.conn_ids) [
    | inl e ↦ rw (e, total_sleep) (omega arith)
    | inr (id, ids, e) ↦
        let total =
          loop-total_sleep gateways q.msg_id (decode q.payload)
            (interval (pos n) (suc (length ids))) 0 (id ∷ ids) in
        rw (e, d) (omega (arith, total, pause-le n (suc (length ids)) h))
  ]

  -- The goroutine of a broadcast writes the message once for each look-up that finds an agent, to
  -- that agent and in the order of the ids, and writes nothing else. The handler itself does nothing
  -- to an agent, and its reply is a success.
  pub broadcast-writes :
      (decode : Text → Bytes) (gateways : ℕ → Gateway V) (q : BroadcastRequest)
      → let s = handle_broadcast decode gateways (some q) in
        (s.reply ≡ success)
        × (s.effects ≡ [])
        × (writes s.background
            ≡ map (λ a. (a, q.msg_id, decode q.payload)) (reached gateways 0 q.conn_ids))
  unfolding handle_broadcast
  broadcast-writes decode gateways q = elim (List-cases q.conn_ids) [
    | inl e ↦ rw (e, reached) (refl, refl, refl)
    | inr (id, ids, e) ↦ rw e (
      refl,
      refl,
      loop-writes gateways q.msg_id (decode q.payload)
          (interval q.duration_seconds (suc (length ids))) 0 (id ∷ ids),
    )
  ]
