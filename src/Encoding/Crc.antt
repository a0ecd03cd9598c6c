-- ===== src/Encoding/Crc.antt =====
-- pkg/encoding/crc.go: the checksum of a message with its number in the sequence.
use tcp_gateway.Prelude.{
  ℕ, zero, suc, ◌%◌, [], ◌∷◌, ◌<◌, ◌≡◌, ◌==◌, Bool, true, false, ◌&&◌, ◌||◌, not, ltb, ◌↔◌, ap,
  arith, refl, length,
}
use tcp_gateway.Bytes.{Bytes}

abbrev pub encrypt_code : Bytes
encrypt_code =
    220 ∷ 110 ∷ 45 ∷ 196 ∷ 103 ∷ 24 ∷ 60 ∷ 157 ∷ 93 ∷ 38 ∷ 254 ∷ 92 ∷ 152 ∷ 100 ∷ 140 ∷ 234 ∷ 109
    ∷ 37 ∷ 66 ∷ 89 ∷ 121 ∷ 167 ∷ 21 ∷ 193 ∷ 58 ∷ 130 ∷ 222 ∷ 227 ∷ 46 ∷ 137 ∷ 63 ∷ 231 ∷ 213 ∷ 204
    ∷ 161 ∷ 107 ∷ 151 ∷ 235 ∷ 104 ∷ 30 ∷ 1 ∷ 173 ∷ 14 ∷ 116 ∷ 16 ∷ 17 ∷ 97 ∷ 43 ∷ 56 ∷ 184 ∷ 78
    ∷ 200 ∷ 166 ∷ 142 ∷ 206 ∷ 85 ∷ 191 ∷ 50 ∷ 15 ∷ 135 ∷ 27 ∷ 159 ∷ 185 ∷ 216 ∷ 242 ∷ 90 ∷ 225 ∷ 154
    ∷ 98 ∷ 91 ∷ 77 ∷ 149 ∷ 147 ∷ 73 ∷ 57 ∷ 252 ∷ 230 ∷ 124 ∷ 194 ∷ 188 ∷ 76 ∷ 131 ∷ 20 ∷ 134 ∷ 39
    ∷ 128 ∷ 23 ∷ 215 ∷ 94 ∷ 8 ∷ 88 ∷ 75 ∷ 115 ∷ 226 ∷ 117 ∷ 141 ∷ 41 ∷ 80 ∷ 138 ∷ 209 ∷ 136 ∷ 139
    ∷ 2 ∷ 246 ∷ 79 ∷ 126 ∷ 105 ∷ 155 ∷ 181 ∷ 0 ∷ 180 ∷ 207 ∷ 132 ∷ 123 ∷ 25 ∷ 111 ∷ 203 ∷ 144 ∷ 55
    ∷ 214 ∷ 171 ∷ 187 ∷ 3 ∷ 169 ∷ 67 ∷ 44 ∷ 18 ∷ 51 ∷ 13 ∷ 81 ∷ 237 ∷ 53 ∷ 198 ∷ 74 ∷ 238 ∷ 112 ∷ 10
    ∷ 19 ∷ 62 ∷ 86 ∷ 28 ∷ 250 ∷ 145 ∷ 176 ∷ 22 ∷ 244 ∷ 165 ∷ 248 ∷ 68 ∷ 146 ∷ 192 ∷ 255 ∷ 164 ∷ 61
    ∷ 31 ∷ 143 ∷ 219 ∷ 84 ∷ 174 ∷ 70 ∷ 197 ∷ 106 ∷ 42 ∷ 177 ∷ 228 ∷ 175 ∷ 163 ∷ 59 ∷ 26 ∷ 96 ∷ 54
    ∷ 36 ∷ 210 ∷ 178 ∷ 205 ∷ 202 ∷ 233 ∷ 179 ∷ 158 ∷ 83 ∷ 114 ∷ 71 ∷ 87 ∷ 72 ∷ 232 ∷ 12 ∷ 129 ∷ 172
    ∷ 65 ∷ 243 ∷ 64 ∷ 82 ∷ 199 ∷ 247 ∷ 52 ∷ 153 ∷ 195 ∷ 48 ∷ 6 ∷ 241 ∷ 101 ∷ 245 ∷ 168 ∷ 162 ∷ 122
    ∷ 5 ∷ 108 ∷ 212 ∷ 69 ∷ 211 ∷ 236 ∷ 47 ∷ 11 ∷ 170 ∷ 29 ∷ 201 ∷ 160 ∷ 34 ∷ 221 ∷ 113 ∷ 223 ∷ 182
    ∷ 150 ∷ 240 ∷ 35 ∷ 239 ∷ 229 ∷ 4 ∷ 33 ∷ 218 ∷ 125 ∷ 9 ∷ 32 ∷ 253 ∷ 120 ∷ 190 ∷ 217 ∷ 102 ∷ 127
    ∷ 133 ∷ 49 ∷ 208 ∷ 40 ∷ 99 ∷ 95 ∷ 7 ∷ 183 ∷ 186 ∷ 148 ∷ 224 ∷ 156 ∷ 189 ∷ 249 ∷ 251 ∷ 118 ∷ 119
    ∷ []

-- An index that is out of range does not occur.
abbrev pub nth : ℕ → Bytes → ℕ
nth i [] = 0
nth zero (b ∷ bs) = b
nth (suc i) (b ∷ bs) = nth i bs

-- `update` is crc32.Update with the IEEE table, and ChecksumIEEE updates from 0. A mask with 0xff
-- is a remainder by 256.
unfoldable pub crc : (ℕ → Bytes → ℕ) → Bytes → ℕ → ℕ
crc update p msg_index = update (update 0 p) (nth (msg_index % 256) encrypt_code ∷ [])

abbrev holds : ℕ → Bytes → Bool
holds b [] = false
holds b (c ∷ bs) = (b == c) || holds b bs

abbrev distinct : Bytes → Bool
distinct [] = true
distinct (b ∷ bs) = not (holds b bs) && distinct bs

holds-nth : (i b : ℕ) (bs : Bytes) → i < length bs → nth i bs ≡ b → holds b bs ≡ true
holds-nth i b [] h e = ground arith
holds-nth zero b (c ∷ bs) h e = ground arith
holds-nth (suc i) b (c ∷ bs) h e = ground (arith, holds-nth i b bs)

nth_unique :
    (i j : ℕ) (bs : Bytes)
    → i < length bs
    → j < length bs
    → distinct bs ≡ true
    → nth i bs ≡ nth j bs
    → i ≡ j
nth_unique i j [] h k d e = ground arith
nth_unique zero zero (c ∷ bs) h k d e = refl
nth_unique zero (suc j) (c ∷ bs) h k d e = ground (arith, holds-nth j c bs)
nth_unique (suc i) zero (c ∷ bs) h k d e = ground (arith, holds-nth i c bs)
nth_unique (suc i) (suc j) (c ∷ bs) h k d e = ground (arith, nth_unique i j bs)

abbrev all_bytes : Bytes → Bool
all_bytes [] = true
all_bytes (b ∷ bs) = ltb b 256 && all_bytes bs

nth-lt : (i : ℕ) (bs : Bytes) → all_bytes bs ≡ true → nth i bs < 256
nth-lt i [] h = omega arith
nth-lt zero (b ∷ bs) h = ground arith
nth-lt (suc i) (b ∷ bs) h = ground (arith, nth-lt i bs)

encrypt_code_in_range : all_bytes encrypt_code ≡ true
encrypt_code_in_range = refl

encrypt_code_has_no_repeats : distinct encrypt_code ≡ true
encrypt_code_has_no_repeats = refl

-- If an update by one byte gives different sums for different bytes, as CRC-32 does, the checksums
-- of a message are the same at two numbers exactly if these agree in their last eight bits.
pub crc_unique :
    (update : ℕ → Bytes → ℕ) (p : Bytes) (i j : ℕ)
    → ((c a b : ℕ) → a < 256 → b < 256 → update c (a ∷ []) ≡ update c (b ∷ []) → a ≡ b)
    → (crc update p i ≡ crc update p j) ↔ (i % 256 ≡ j % 256)
unfolding crc
crc_unique update p i j inj = (
  λ e.
      nth_unique (i % 256) (j % 256) encrypt_code (omega arith) (omega arith)
        encrypt_code_has_no_repeats
        (inj (update 0 p) _ _ (nth-lt (i % 256) encrypt_code encrypt_code_in_range)
          (nth-lt (j % 256) encrypt_code encrypt_code_in_range) e),
  λ e. ap (λ k. update (update 0 p) (nth k encrypt_code ∷ [])) e,
)
