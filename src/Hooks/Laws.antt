-- ===== src/Hooks/Laws.antt =====
-- What the header check of pkg/hot/hooks/hooks.go lets pass.
use tcp_gateway.Prelude.{ℕ, ◌+◌, ◌^◌, ◌≤◌, ◌<◌, ◌≡◌, ◌↔◌, ◌⊎◌, none, some, arith, length}
use tcp_gateway.Bytes.{Bytes}
use tcp_gateway.Interfaces.{bad_header_id, bad_header_size}
use tcp_gateway.Writer.{frame}
use tcp_gateway.Writer.Frame.{frame_id, frame_size, length-frame}
use tcp_gateway.Hooks.{check_header, hook_header}

-- A message that the gateway takes: its id is in the range of the hook, and its frame has at most
-- one MiB.
pub record InRange (id size : ℕ) : Type 0 where
  pub id_from : 1000 ≤ id
  pub id_to : id ≤ 60000
  pub size_from : 10 ≤ size
  pub size_to : size ≤ 1048576

pub check_header-none : (id size : ℕ) → check_header id size ≡ none → InRange id size
unfolding check_header
check_header-none id size h = ground arith

pub InRange-check_header : (id size : ℕ) → InRange id size → check_header id size ≡ none
unfolding check_header
InRange-check_header id size r = ground arith

-- The hook passes a frame exactly if its message is in range. Of a frame that it refuses the error
-- names the id exactly if the id is out of range, and the size exactly if only the size is.
pub hook_header-frame :
    (id : ℕ) (msg : Bytes) (seq : ℕ)
    → id < 2 ^ 16
    → length msg + 10 < 2 ^ 32
    → ((hook_header (some (frame id msg seq)) ≡ none) ↔ InRange id (length msg + 10))
      × ((hook_header (some (frame id msg seq)) ≡ some bad_header_id)
          ↔ ((id < 1000) ⊎ (60000 < id)))
      × ((hook_header (some (frame id msg seq)) ≡ some bad_header_size)
          ↔ ((1000 ≤ id) × (id ≤ 60000) × (1048576 < length msg + 10)))
unfolding hook_header
hook_header-frame id msg seq h k =
    rw (frame_id id msg seq h, frame_size id msg seq k, length-frame id msg seq)
      (ground arith, ground arith, ground arith)
