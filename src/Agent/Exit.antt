-- ===== src/Agent/Exit.antt =====
-- `Run` of pkg/agent/agent.go: which errors of the two loops of an agent are reported by
-- AlertLowFrequency. Both goroutines cancel the context of the agent when their loop returns.
pub mod Causes
use tcp_gateway.Prelude.{Bool, true, false, ◌||◌, Option, none, some, if◌then◌else◌}
use tcp_gateway.Interfaces.{Error, eof, unexpected_eof, conn_reset, net_closed, timeout}

-- io.EOF, ECONNRESET and net.ErrClosed.
abbrev pub is_disconnect : Error → Bool
is_disconnect eof = true
is_disconnect conn_reset = true
is_disconnect net_closed = true
is_disconnect _ = false

-- A net.Error that is a timeout.
abbrev pub is_timeout : Error → Bool
is_timeout timeout = true
is_timeout _ = false

-- The alert behind the read loop, and that behind the write loop.
unfoldable pub read_alert : Option Error → Option Error
read_alert none = none
read_alert (some e) = if is_disconnect e || is_timeout e then none else some e

unfoldable pub write_alert : Option Error → Option Error
write_alert none = none
write_alert (some e) = if is_disconnect e then none else some e
