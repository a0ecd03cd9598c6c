-- ===== src/Tests/Checksum.antt =====
-- The checksum of pkg/encoding/crc.go over a stand-in for crc32.Update that appends in base 256.
use tcp_gateway.Prelude.{ℕ, ◌+◌, ◌*◌, ◌≡◌, refl, [], ◌∷◌}
use tcp_gateway.Bytes.{Bytes}
use tcp_gateway.Encoding.Crc.{crc}

abbrev append_update : ℕ → Bytes → ℕ
append_update c [] = c
append_update c (b ∷ bs) = append_update (256 * c + b) bs

-- 256 and entry 3 of the code.
one_byte : crc append_update (1 ∷ []) 3 ≡ 452
unfolding crc
one_byte = refl

-- The number is taken without the bits above the last eight.
wrapped : crc append_update (1 ∷ []) 259 ≡ 452
unfolding crc
wrapped = refl
