-- ===== src/Writer.antt =====
-- pkg/writer/writer.go: the outgoing buffer of a connection. `b` is the content of the slice `w.b`
-- and `capacity` its cap; `err` is the first error of the connection. The methods hold the mutex
-- where they touch `b`, so each is one step. How far `append` grows a slice is up to the Go
-- runtime, and is the parameter `grow`: the new capacity from the old one and the new length.
pub mod Frame
pub mod Laws
use tcp_gateway.Prelude.{
  ℕ, ◌+◌, ◌%◌, ◌^◌, Option, none, some, List, [], ◌++◌, ltb, leb, if◌then◌else◌, length,
}
use tcp_gateway.Bytes.{Bytes, put_le}
use tcp_gateway.Interfaces.{Error}

pub record Writer : Type 0 where
  pub b : Bytes
  pub capacity : ℕ
  pub err : Option Error

-- `New`.
abbrev pub new : Writer
new = record { b = []; capacity = 0; err = none }

-- The buffer that `Write` builds: message id, total length and sequence id, then the message.
unfoldable pub frame : ℕ → Bytes → ℕ → Bytes
frame msg_id msg seq_id =
    put_le 2 msg_id ++ (put_le 4 ((length msg + 10) % 2 ^ 32) ++ (put_le 4 seq_id ++ msg))

-- `append(w.b, buf...)` reallocates where the capacity does not suffice.
pub append_capacity : (ℕ → ℕ → ℕ) → ℕ → ℕ → ℕ
append_capacity grow capacity n = if leb n capacity then capacity else grow capacity n

-- `Write`.
unfoldable pub write : (ℕ → ℕ → ℕ) → Writer → ℕ → Bytes → ℕ → Writer × Option Error
write grow w msg_id msg seq_id = elim w.err [
  | some e ↦ (w, some e)
  | none ↦
      let b' = w.b ++ frame msg_id msg seq_id in
      (record w { b = b'; capacity = append_capacity grow w.capacity (length b') }, none)
]

-- `Pop`: the content is copied out, and a large slice is let go.
unfoldable pub pop : Writer → Writer × Bytes × Option Error
pop w = elim w.err [
  | some e ↦ (w, [], some e)
  | none ↦
      (record w { b = []; capacity = if ltb 262144 w.capacity then 0 else w.capacity }, w.b, none)
]

-- `Flush`, for the error that the connection's Write answers.
unfoldable pub flush : Writer → Option Error → Writer × Option Error
flush w answer = elim w.err [
  | some e ↦ (w, some e)
  | none ↦ elim answer [ some e ↦ (record w { err = some e }, some e) | none ↦ (w, none) ]
]
