-- ===== src/Hooks.antt =====
-- pkg/hot/hooks/hooks.go: the checks on a message header. A header that is not nil has ten bytes.
pub mod Laws
use tcp_gateway.Prelude.{ℕ, ◌<◌, Bool, ◌||◌, Option, none, some, ltb, if◌then◌else◌}
use tcp_gateway.Bytes.{Bytes, slice, le}
use tcp_gateway.Interfaces.{Error, bad_header_id, bad_header_size}

abbrev pub min_id : ℕ
min_id = 1000

abbrev pub max_id : ℕ
max_id = 60000

abbrev pub min_size : ℕ
min_size = 10

abbrev pub max_size : ℕ
max_size = 1048576

-- The two tests of `hookHeader`, the id first.
unfoldable pub check_header : ℕ → ℕ → Option Error
check_header id size =
    if ltb id min_id || ltb max_id id
    then some bad_header_id
    else if ltb size min_size || ltb max_size size
    then some bad_header_size
    else none

-- `hookHeader`; `none` for a header is nil, and `none` as the answer is no error.
unfoldable pub hook_header : Option Bytes → Option Error
unfolding check_header
hook_header none = none
hook_header (some header) = check_header (le (slice 0 2 header)) (le (slice 2 6 header))

-- `hookBody` has no check yet.
abbrev pub hook_body : Bytes → Option Bytes → Option Error
hook_body header body = none
