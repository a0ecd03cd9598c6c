-- ===== src/Gateway/Handlers.antt =====
-- The handlers of the private HTTP service in pkg/gateway/gateway.go. A handler answers with what it
-- does to agents before the reply, the reply, and what the goroutine that it starts does, or it panics
-- on a division by zero, before its reply and before it starts a goroutine. A request
-- is the bound JSON body, none if binding fails; base64 is a parameter.
-- Go's int and time.Duration are 64-bit words, and a division goes towards zero.
pub mod Pacing
pub mod Replies
use tcp_gateway.Prelude.{
  ℕ, zero, suc, ◌+◌, ◌-◌, ◌*◌, ◌/◌, ◌%◌, ◌^◌, Option, none, some, List, [], ◌∷◌, ◌++◌, length, ltb,
  Bool, false, ◌==◌, if◌then◌else◌,
}
use tcp_gateway.Bytes.{Bytes}
use tcp_gateway.Text.{Text}
use tcp_gateway.Gateway.{Gateway, get_agent}

pub data ℤ : Type 0 where
  pos : ℕ → ℤ
  negsuc : ℕ → ℤ

abbrev pub neg : ℕ → ℤ
neg zero = pos 0
neg (suc n) = negsuc n

-- The number that a word of 64 bits stands for.
abbrev pub of_word : ℕ → ℤ
of_word w = if ltb w (2 ^ 63) then pos w else negsuc (2 ^ 64 - 1 - w)

-- The word that a result is cut to.
abbrev pub to_word : ℤ → ℕ
to_word (pos n) = n % 2 ^ 64
to_word (negsuc n) = 2 ^ 64 - 1 - n % 2 ^ 64

abbrev pub times : ℤ → ℕ → ℤ
times (pos n) k = pos (n * k)
times (negsuc n) k = neg (suc n * k)

abbrev pub wrapping_mul : ℤ → ℕ → ℤ
wrapping_mul z k = of_word (to_word (times z k))

-- Division by a positive number.
abbrev pub quot : ℤ → ℕ → ℤ
quot (pos n) k = pos (n / k)
quot (negsuc n) k = neg (suc n / k)

pub data Effect {ℓ} (V : Type ℓ) : Type ℓ where
  disable : V → Effect V
  close_agent : V → Effect V
  write_agent : V → ℕ → Bytes → Effect V
  sleep : ℤ → Effect V

-- The two replies: code 0 and the message "success", or code 1 and the binding's error.
pub data Reply : Type 0 where
  success : Reply
  bad_request : Reply

pub record Served {ℓ} (V : Type ℓ) : Type ℓ where
  pub effects : List (Effect V)
  pub reply : Reply
  pub background : List (Effect V)
  pub panics : Bool

pub record SendRequest : Type 0 where
  pub conn_id : Text
  pub payload : Text
  pub msg_id : ℕ

pub record BroadcastRequest : Type 0 where
  pub conn_ids : List Text
  pub payload : Text
  pub msg_id : ℕ
  pub duration_seconds : ℤ

abbrev pub millisecond : ℕ
millisecond = 1000000

abbrev pub second : ℕ
second = 1000000000

-- Whether the division of `interval` panics.
abbrev pub by_zero : ℕ → Bool
by_zero n = n == 0

-- `DurationSeconds * 1000 / len(ConnIDs)`
abbrev pub interval : ℤ → ℕ → ℤ
interval d n = quot (wrapping_mul d 1000) n

module _ {ℓ} {V : Type ℓ} where
  abbrev pub only : Reply → Served V
  only r = record { effects = []; reply = r; background = []; panics = false }

  -- /agent/v1/close
  pub handle_close : Gateway V → Option Text → Served V
  handle_close gw none = only bad_request
  handle_close gw (some id) = elim (get_agent gw id) [
    | none ↦ only success
    | some a ↦ record {
      effects = disable a ∷ close_agent a ∷ [];
      reply = success;
      background = [];
      panics = false;
    }
  ]

  -- The loop of the goroutine of a broadcast: `gateways i` is the gateway at the i-th look-up.
  unfoldable pub broadcast_loop : (ℕ → Gateway V) → ℕ → Bytes → ℤ → ℕ → List Text → List (Effect V)
  broadcast_loop gateways msg_id b pause i [] = []
  broadcast_loop gateways msg_id b pause i (id ∷ ids) =
      let rest = broadcast_loop gateways msg_id b pause (suc i) ids in
      elim (get_agent (gateways i) id) [
        | none ↦ rest
        | some a ↦ write_agent a msg_id b ∷ sleep (wrapping_mul pause millisecond) ∷ rest
      ]

  module _ (decode : Text → Bytes) where
    -- /agent/v1/send
    pub handle_send : Gateway V → Option SendRequest → Served V
    handle_send gw none = only bad_request
    handle_send gw (some q) = elim (get_agent gw q.conn_id) [
      | none ↦ only success
      | some a ↦ record {
        effects = write_agent a q.msg_id (decode q.payload) ∷ [];
        reply = success;
        background = [];
        panics = false;
      }
    ]

    -- /agent/v1/sendAndClose
    pub handle_send_and_close : Gateway V → Option SendRequest → Served V
    handle_send_and_close gw none = only bad_request
    handle_send_and_close gw (some q) = elim (get_agent gw q.conn_id) [
      | none ↦ only success
      | some a ↦ record {
        effects = write_agent a q.msg_id (decode q.payload) ∷ [];
        reply = success;
        background = disable a ∷ sleep (pos second) ∷ close_agent a ∷ [];
        panics = false;
      }
    ]

    -- /agent/v1/broadcast
    unfoldable pub handle_broadcast : (ℕ → Gateway V) → Option BroadcastRequest → Served V
    handle_broadcast gateways none = only bad_request
    handle_broadcast gateways (some q) = elim q.conn_ids [
      | [] ↦ only success
      | id ∷ ids ↦ record {
        effects = [];
        reply = success;
        background =
            broadcast_loop gateways q.msg_id (decode q.payload)
              (interval q.duration_seconds (length (id ∷ ids))) 0 (id ∷ ids);
        panics = by_zero (length (id ∷ ids));
      }
    ]
