-- ===== src/Agent/Reader.antt =====
-- `loopRead` of pkg/agent/agent.go, the read loop of a connection.
-- A connection is what the client sends from here on, and the error that follows it: io.EOF, a
-- reset, or the timeout of the read deadline. How the bytes arrive in pieces does not show, since
-- the loop reads by io.ReadFull.
pub mod Framing
pub mod Soundness
pub mod Runs
use tcp_gateway.Prelude.{
  ℕ, zero, suc, ◌+◌, ◌-◌, ◌%◌, ◌^◌, Bool, not, Option, none, some, ◌∷◌, leb, ◌==◌, if◌then◌else◌,
  length, take, drop,
}
use tcp_gateway.Bytes.{Bytes, slice, le}
use tcp_gateway.Interfaces.{Error, eof, unexpected_eof, Msg, Outcome, done, fails, panics, EndPoint}
use tcp_gateway.Hooks.{hook_header, hook_body}

pub record Conn : Type 0 where
  pub input : Bytes
  pub last : Error

-- A value and the connection behind it, or an error.
pub data Read {ℓ} (A : Type ℓ) : Type ℓ where
  got : A → Conn → Read A
  failed : Error → Read A

infixl 5 ◌>>=◌
abbrev pub ◌>>=◌ {ℓ κ} : {A : Type ℓ} {B : Type κ} → Read A → (A → Conn → Read B) → Read B
got a c >>= f = f a c
failed e >>= f = failed e

-- An end of file inside of what was asked for is io.ErrUnexpectedEOF.
unfoldable pub short_read : Bytes → Error → Error
short_read (_ ∷ _) eof = unexpected_eof
short_read _ e = e

-- io.ReadFull on a buffer of n bytes.
unfoldable pub read_full : ℕ → Conn → Read Bytes
unfolding short_read
read_full n c =
    if leb n (length c.input)
    then got (take n c.input) (record c { input = drop n c.input })
    else failed (short_read c.input c.last)

-- An error of a hook ends the loop.
abbrev pub check : Option Error → Conn → Read (Unit {0})
check none c = got tt c
check (some e) c = failed e

-- `size - msgHeaderLen` on uint32.
abbrev pub body_size : ℕ → ℕ
body_size size = (size + 2 ^ 32 - 10) % 2 ^ 32

-- One round of the loop up to the message: the header and its hook, the body and its hook.
unfoldable pub read_message : Conn → Read Msg
read_message c = read_full 10 c >>= λ header c₁.
    check (if length header == 10 then none else some eof) c₁ >>= λ _ c₂.
    check (hook_header (some header)) c₂ >>= λ _ c₃.
    let size = body_size (le (slice 2 6 header)) in
    read_full size c₃ >>= λ body c₄.
    check (if size == length body % 2 ^ 32 then none else some eof) c₄ >>= λ _ c₅.
    check (hook_body header (some body)) c₅ >>= λ _ c₆.
    got (record { id = le (slice 0 2 header); body = body }) c₆

-- The loop, over the state that forwarding changes. `plugins` is `plugins.PluginsMain`, and
-- `disabled k` what the k-th round reads from `agent.disable`, which other goroutines set. The
-- answer is the error that the loop returns; a panic is recovered, and it returns nil.
-- `none` is no Go value: the fuel ran out.
module _ {ℓ} {S : Type ℓ} (plugins : EndPoint S) (disabled : ℕ → Bool) where
  unfoldable pub loop_read : ℕ → ℕ → S → Conn → Option (S × Option Error)
  loop_read zero k s c = none
  loop_read (suc fuel) k s c = elim (read_message c) [
    | failed e ↦ some (s, some e)
    | got msg c' ↦
        let r : S × Outcome = if disabled k then (s, done) else plugins s msg in
        elim r.1 [
          | fails e ↦ some (r.0, some e)
          | panics ↦ some (r.0, none)
          | done ↦ loop_read fuel (suc k) r.0 c'
        ]
  ]
