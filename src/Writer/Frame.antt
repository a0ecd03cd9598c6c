-- ===== src/Writer/Frame.antt =====
-- The header of a frame that `Write` of pkg/writer/writer.go builds, read back.
use tcp_gateway.Prelude.{ℕ, ◌+◌, ◌^◌, ◌<◌, ◌≡◌, refl, arith, length, drop}
use tcp_gateway.Bytes.{Bytes, slice, le}
use tcp_gateway.Writer.{frame}

pub length-frame : (id : ℕ) (msg : Bytes) (seq : ℕ) → length (frame id msg seq) ≡ length msg + 10
unfolding frame
length-frame id msg seq = omega arith

-- The id of a frame's header is the message id, and its size the length of the whole frame.
pub frame_id :
    (id : ℕ) (msg : Bytes) (seq : ℕ) → id < 2 ^ 16 → le (slice 0 2 (frame id msg seq)) ≡ id
unfolding frame
frame_id id msg seq h = omega arith

pub frame_size :
    (id : ℕ) (msg : Bytes) (seq : ℕ)
    → length msg + 10 < 2 ^ 32
    → le (slice 2 6 (frame id msg seq)) ≡ length (frame id msg seq)
unfolding frame
frame_size id msg seq h = omega arith

-- The header is ten bytes, and the message follows it.
pub drop-frame : (id : ℕ) (msg : Bytes) (seq : ℕ) → drop 10 (frame id msg seq) ≡ msg
unfolding frame
drop-frame id msg seq = refl
