-- ===== src/Gateway/Handlers/Replies.antt =====
-- The replies of the handlers in pkg/gateway/gateway.go.
use tcp_gateway.Prelude.{
  ◌≡◌, refl, arith, false, Option, none, some, ℕ, [], ◌∷◌, Option-cases, inl, inr,
}
use tcp_gateway.Bytes.{Bytes}
use tcp_gateway.Text.{Text}
use tcp_gateway.Gateway.{Gateway, get_agent}
use tcp_gateway.Gateway.Handlers.{
  Reply, success, bad_request, Served, SendRequest, BroadcastRequest, handle_close, handle_send,
  handle_send_and_close, handle_broadcast,
}

-- A body that cannot be bound is refused, any other is served.
abbrev pub reply_of {ℓ} : {A : Type ℓ} → Option A → Reply
reply_of none = bad_request
reply_of (some a) = success

abbrev pub Serves {ℓ} : {V : Type ℓ} → Reply → Served V → Type 0
Serves r v = (v.panics ≡ false) × (v.reply ≡ r)

module _ {ℓ} {V : Type ℓ} where
  pub handle_close-Serves :
      (gw : Gateway V) (b : Option Text) → Serves (reply_of b) (handle_close gw b)
  unfolding handle_close
  handle_close-Serves gw none = (refl, refl)
  handle_close-Serves gw (some id) = elim (Option-cases (get_agent gw id)) [
    | inl e ↦ rw (e, handle_close) (refl, refl)
    | inr (a, e) ↦ rw (e, handle_close) (refl, refl)
  ]

  pub handle_send-Serves :
      (decode : Text → Bytes) (gw : Gateway V) (b : Option SendRequest)
      → Serves (reply_of b) (handle_send decode gw b)
  unfolding handle_send
  handle_send-Serves decode gw none = (refl, refl)
  handle_send-Serves decode gw (some q) = elim (Option-cases (get_agent gw q.conn_id)) [
    | inl e ↦ rw (e, handle_send) (refl, refl)
    | inr (a, e) ↦ rw (e, handle_send) (refl, refl)
  ]

  pub handle_send_and_close-Serves :
      (decode : Text → Bytes) (gw : Gateway V) (b : Option SendRequest)
      → Serves (reply_of b) (handle_send_and_close decode gw b)
  unfolding handle_send_and_close
  handle_send_and_close-Serves decode gw none = (refl, refl)
  handle_send_and_close-Serves decode gw (some q) = elim (Option-cases (get_agent gw q.conn_id)) [
    | inl e ↦ rw (e, handle_send_and_close) (refl, refl)
    | inr (a, e) ↦ rw (e, handle_send_and_close) (refl, refl)
  ]

  served_ids :
      (decode : Text → Bytes) (gateways : ℕ → Gateway V) (q : BroadcastRequest)
      → Serves success (handle_broadcast decode gateways (some q))
  unfolding handle_broadcast
  served_ids decode gateways q =
      elim q.conn_ids
        as (λ ids.
          Serves success (handle_broadcast decode gateways (some (record q { conn_ids = ids })))) [
            | [] ↦ (refl, refl)
            | id ∷ ids ↦ (ground arith, refl)
          ]

  pub handle_broadcast-Serves :
      (decode : Text → Bytes) (gateways : ℕ → Gateway V) (b : Option BroadcastRequest)
      → Serves (reply_of b) (handle_broadcast decode gateways b)
  unfolding handle_broadcast
  handle_broadcast-Serves decode gateways none = (refl, refl)
  handle_broadcast-Serves decode gateways (some q) = served_ids decode gateways q
