-- ===== src/Agent/Reader/Framing.antt =====
-- `loopRead` of pkg/agent/agent.go reads what `Write` of pkg/writer/writer.go frames.
use tcp_gateway.Prelude.{
  ℕ, ◌+◌, ◌%◌, ◌^◌, ◌<◌, ◌≡◌, none, some, ◌++◌, arith, length, length-append, take-append,
  drop-append,
}
use tcp_gateway.Bytes.{Bytes, slice, put_le, le}
use tcp_gateway.Interfaces.{Error}
use tcp_gateway.Writer.{frame}
use tcp_gateway.Hooks.{hook_header}
use tcp_gateway.Hooks.Laws.{InRange, InRange-check_header}
use tcp_gateway.Agent.Reader.{got, read_full, read_message, body_size}

pub read_full-append :
    (xs rest : Bytes) (e : Error)
    → read_full (length xs) (record { input = xs ++ rest; last = e })
      ≡ got xs (record { input = rest; last = e })
unfolding read_full
read_full-append xs rest e =
    rw (take-append xs rest, drop-append xs rest) (ground (arith, length-append xs rest))

abbrev pub header : ℕ → ℕ → ℕ → Bytes
header id size seq = put_le 2 id ++ (put_le 4 size ++ put_le 4 seq)

pub header_id : (id size seq : ℕ) → id < 2 ^ 16 → le (slice 0 2 (header id size seq)) ≡ id
header_id id size seq h = omega arith

pub header_size : (id size seq : ℕ) → size < 2 ^ 32 → le (slice 2 6 (header id size seq)) ≡ size
header_size id size seq h = omega arith

hook_header-header :
    (id size seq : ℕ) → InRange id size → hook_header (some (header id size seq)) ≡ none
unfolding hook_header
hook_header-header id size seq r =
    rw (header_id id size seq (omega arith), header_size id size seq (omega arith))
      (InRange-check_header id size r)

-- A frame in range is read as its message, and what follows it is left for the next round.
pub read_message-frame :
    (id : ℕ) (body : Bytes) (seq : ℕ) (rest : Bytes) (e : Error)
    → InRange id (length body + 10)
    → read_message (record { input = frame id body seq ++ rest; last = e })
      ≡ got (record { id = id; body = body }) (record { input = rest; last = e })
unfolding read_message frame
read_message-frame id body seq rest e r =
    rw (small, read_full-append (header id n seq) (body ++ rest) e, hook_header-header id n seq r)
      (rw (header_id id n seq (omega arith), header_size id n seq (omega arith), size)
        (rw (read_full-append body rest e) (ground arith)))
  where
    n : ℕ
    n = length body + 10

    small : n % 2 ^ 32 ≡ n
    small = omega arith

    size : body_size n ≡ length body
    size = omega arith
