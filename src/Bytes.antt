-- ===== src/Bytes.antt =====
-- Byte slices as lists of numbers, and the little-endian words of Go's encoding/binary, which
-- pkg/writer, pkg/agent and pkg/hot/hooks use for the message header.
use native.Mathlib.Nat.{pow-suc}
use tcp_gateway.Prelude.{
  ℕ, zero, suc, ◌+◌, ◌-◌, ◌*◌, ◌/◌, ◌%◌, ◌^◌, ◌<◌, ◌≡◌, refl, ap, ap₂, ◌∙◌, List, [], ◌∷◌, arith,
  length, take, drop, All,
}

abbrev pub Bytes : Type 0
Bytes = List ℕ

abbrev pub IsByte : ℕ → Type 0
IsByte b = b < 256

-- `b[lo:hi]`, for lo ≤ hi ≤ len(b).
abbrev pub slice : ℕ → ℕ → Bytes → Bytes
slice lo hi b = take (hi - lo) (drop lo b)

-- The k bytes of v, lowest first: PutUint16, PutUint32 and PutUint64 for k = 2, 4 and 8.
abbrev pub put_le : ℕ → ℕ → Bytes
put_le zero v = []
put_le (suc k) v = (v % 256) ∷ put_le k (v / 256)

-- Uint16, Uint32 and Uint64 of a slice of 2, 4 and 8 bytes.
abbrev pub le : Bytes → ℕ
le [] = 0
le (b ∷ bs) = b + 256 * le bs

pub length-put_le : (k v : ℕ) → length (put_le k v) ≡ k
length-put_le zero v = refl
length-put_le (suc k) v = omega (arith, length-put_le k (v / 256))

pub put_le-IsByte : (k v : ℕ) → All IsByte (put_le k v)
put_le-IsByte zero v = tt
put_le-IsByte (suc k) v = (omega arith, put_le-IsByte k (v / 256))

pub le-put_le : (k v : ℕ) → v < 256 ^ k → le (put_le k v) ≡ v
le-put_le zero v h = omega arith
le-put_le (suc k) v h = omega (arith, le-put_le k (v / 256) (omega (arith, pow-suc 256 k)))

pub le-lt : (bs : Bytes) → All IsByte bs → le bs < 256 ^ length bs
le-lt [] h = omega arith
le-lt (b ∷ bs) h = omega (arith, le-lt bs h.1, pow-suc 256 (length bs))

pub put_le-le : (bs : Bytes) → All IsByte bs → put_le (length bs) (le bs) ≡ bs
put_le-le [] h = refl
put_le-le (b ∷ bs) h =
    ap₂ ◌∷◌ (omega (arith, h.0)) (ap (put_le (length bs)) high ∙ put_le-le bs h.1)
  where
    high : (b + 256 * le bs) / 256 ≡ le bs
    high = omega (arith, h.0)
