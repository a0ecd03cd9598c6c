-- ===== src/Interfaces.antt =====
-- pkg/interfaces/interfaces.go: a message, and the chain of middlewares. Also the errors that the
-- gateway tells apart.
use mathlib.Core.List.{reverse, foldl, foldr, reverse-cons, foldl-append}
use tcp_gateway.Prelude.{ℕ, ◌≡◌, refl, ap, List, [], ◌∷◌}
use tcp_gateway.Bytes.{Bytes}

-- `Msg`.
pub record Msg : Type 0 where
  pub id : ℕ
  pub body : Bytes

-- The `error` values: io.EOF, io.ErrUnexpectedEOF, ECONNRESET, net.ErrClosed, a timeout of the
-- connection, the two errors of the header hook, the two of the service call, the two of the
-- agent registry, and every other error.
pub data Error : Type 0 where
  eof unexpected_eof conn_reset net_closed timeout : Error
  bad_header_id bad_header_size : Error
  service_4xx service_5xx : Error
  agent_uid_duplicated bad_agent_uid : Error
  other : ℕ → Error

-- How a handler ends: it returns nil, it returns an error, or it panics.
pub data Outcome : Type 0 where
  done : Outcome
  fails : Error → Outcome
  panics : Outcome

-- `EndPoint`, over the state that the handlers change, and `Middleware`.
abbrev pub EndPoint {ℓ} : Type ℓ → Type ℓ
EndPoint S = S → Msg → S × Outcome

abbrev pub Middleware {ℓ} : Type ℓ → Type ℓ
Middleware S = EndPoint S → EndPoint S

module _ {ℓ} {S : Type ℓ} where
  -- `Use`: from the last middleware to the first, `next = middlewares[i](next)`.
  unfoldable pub use_middlewares : List (Middleware S) → EndPoint S → EndPoint S
  use_middlewares middlewares next = foldl (λ e m. m e) next (reverse middlewares)

  -- The first middleware of the list is the outermost: it is applied last, to the chain of the
  -- others around the end point.
  pub use_middlewares-foldr :
      (middlewares : List (Middleware S)) (next : EndPoint S)
      → use_middlewares middlewares next ≡ foldr (λ m e. m e) next middlewares
  unfolding use_middlewares
  use_middlewares-foldr [] next = refl
  use_middlewares-foldr (m ∷ ms) next =
      rw (reverse-cons m ms, foldl-append) (ap m (use_middlewares-foldr ms next))
