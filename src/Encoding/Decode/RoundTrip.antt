-- ===== src/Encoding/Decode/RoundTrip.antt =====
-- What pkg/encoding/decode.go makes of the bytes of pkg/encoding/encode.go.
use tcp_gateway.Prelude.{
  ℕ, suc, ◌+◌, ◌-◌, ◌*◌, ◌^◌, ◌≤◌, ◌<◌, ◌==◌, leb, ◌≡◌, refl, ap, ap₂, ◌⊎◌, inl, inr, Bool, true,
  false, Bool-cases, none, some, [], ◌∷◌, ◌++◌, length, drop, arith, take-append, drop-append,
  append_assoc, length-append,
}
use tcp_gateway.Bytes.{Bytes, put_le, le-put_le, length-put_le}
use tcp_gateway.Text.{Text}
use tcp_gateway.Encoding.{
  Scalar, bool, byte, int16, uint16, int32, uint32, float32, float64, Value, word, string, bytes,
  Fields, Items, no_items, item, index_zero, is_lower, encode_word, count, marshal, wrote,
}
use tcp_gateway.Encoding.Wire.{wire, wire_fields, wire_items, marshal-wire}
use tcp_gateway.Encoding.Decode.{
  Flat, FlatFields, flat_word, flat_string, flat_bytes, flat_struct, no_flat, flat_field, Target,
  TargetFields, flat, slice_of, struct_of, pointer_to, no_targets, target_field, DecodeError, got,
  width, of_bits, decode_word, decode_string, decode_length, decode_bytes, bytes_len_eof,
  array_len_eof, decode_flat, decode_flat_fields, decode_items, decode, unmarshal, decode_fields,
}
use tcp_gateway.Encoding.Decode.Fits.{
  visible, visible_fields, visible_items, IsFlat, AreFlat, AllFlat, Fits, FitFields,
}

leb_one : (b : ℕ) (r : Bytes) → leb 1 (length (b ∷ r)) ≡ true
leb_one b r = ground arith

leb-put_le : (k n : ℕ) (r : Bytes) → leb k (length (put_le k n ++ r)) ≡ true
leb-put_le k n r = ground (arith, length-append (put_le k n) r, length-put_le k n)

pub decode_length-put_le :
    (e : DecodeError) (n : ℕ) (r : Bytes) → n ≤ 65535 → decode_length e (put_le 2 n ++ r) ≡ got n r
decode_length-put_le e n r h =
    rw (leb-put_le 2 n r) (ap (λ m. got m r) (le-put_le 2 n (omega (arith, h))))

decode_word-encode_word :
    (k : Scalar) (n : ℕ) (r : Bytes)
    → n < 256 ^ width k
    → decode_word k (encode_word k n ++ r) ≡ got (word k (of_bits k n)) r
decode_word-encode_word bool n r h = elim (Bool-cases (n == 0)) [
  | inl e ↦ rw (e, leb_one 0 r) refl
  | inr e ↦ rw (e, leb_one 1 r) refl
]
decode_word-encode_word byte n r h =
    let low : n + 256 * 0 ≡ n = omega arith in rw (leb_one n r) (ap (λ m. got (word byte m) r) low)
decode_word-encode_word int16 n r h =
    rw (leb-put_le 2 n r) (ap (λ m. got (word int16 m) r) (le-put_le 2 n h))
decode_word-encode_word uint16 n r h =
    rw (leb-put_le 2 n r) (ap (λ m. got (word uint16 m) r) (le-put_le 2 n h))
decode_word-encode_word int32 n r h =
    rw (leb-put_le 4 n r) (ap (λ m. got (word int32 m) r) (le-put_le 4 n h))
decode_word-encode_word uint32 n r h =
    rw (leb-put_le 4 n r) (ap (λ m. got (word uint32 m) r) (le-put_le 4 n h))
decode_word-encode_word float32 n r h =
    rw (leb-put_le 4 n r) (ap (λ m. got (word float32 m) r) (le-put_le 4 n h))
decode_word-encode_word float64 n r h =
    rw (leb-put_le 8 n r) (ap (λ m. got (word float64 m) r) (le-put_le 8 n h))

index_zero-append :
    (s : Text) (r : Bytes) → index_zero s ≡ none → index_zero (s ++ 0 ∷ r) ≡ some (length s)
index_zero-append [] r h = refl
index_zero-append (c ∷ s) r h = ground (arith, index_zero-append s r)

drop_past : (s : Text) (r : Bytes) → drop (suc (length s)) (s ++ 0 ∷ r) ≡ r
drop_past [] r = refl
drop_past (c ∷ s) r = drop_past s r

decode_string-append :
    (s : Text) (r : Bytes) → index_zero s ≡ none → decode_string (s ++ 0 ∷ r) ≡ got (string s) r
decode_string-append [] r h = refl
decode_string-append (c ∷ s) r h =
    let e = index_zero-append (c ∷ s) r h in
    rw (e, decode_string)
      (ap₂ (λ t d. got (string (c ∷ t)) d) (take-append s (0 ∷ r)) (drop_past s r))

decode_bytes-append :
    (b r : Bytes)
    → length b ≤ 65535
    → decode_bytes (put_le 2 (length b) ++ (b ++ r)) ≡ got (bytes b) r
decode_bytes-append b r h =
    let l : leb (length b) (length (b ++ r)) ≡ true = ground (arith, length-append b r) in
    rw
      (
        decode_length-put_le bytes_len_eof (length b) (b ++ r) h,
        l,
        take-append b r,
        drop-append b r,
      )
      refl

used : (b : Bool) (A : Type 0) → b ≡ false → (b ≡ true) ⊎ A → A
used b A f (inl e) = ground arith
used b A f (inr a) = a

mutual
  unfolding wire decode_flat IsFlat visible

  decode_flat-wire :
      (t : Flat) (v : Value) (r : Bytes)
      → IsFlat t v
      → decode_flat t (wire v ++ r) ≡ got (visible v) r
  decode_flat-wire (flat_word k) v r (n, e, h) = rw e (decode_word-encode_word k n r h)
  decode_flat-wire flat_string v r (s, e, h) =
      rw (e, append_assoc s (0 ∷ []) r) (decode_string-append s r h)
  decode_flat-wire flat_bytes v r (b, e, h) =
      rw (e, append_assoc (put_le 2 (length b)) b r) (decode_bytes-append b r h)
  decode_flat-wire (flat_struct ts) v r (fs, e, h) = rw (e, decode_flat_fields-wire ts fs r h) refl

  pub decode_flat_fields-wire :
      (ts : FlatFields) (fs : Fields) (r : Bytes)
      → AreFlat ts fs
      → decode_flat_fields ts (wire_fields fs ++ r) ≡ got (visible_fields fs) r
  decode_flat_fields-wire no_flat fs r e = rw e refl
  decode_flat_fields-wire (flat_field n t ts) fs r (v, gs, e, h, k) =
      elim (Bool-cases (is_lower n)) [
        | inl l ↦ rw (e, l) (decode_flat_fields-wire ts gs r k)
        | inr l ↦
            let u = used (is_lower n) (IsFlat t v) l h in
            rw
              (
                e,
                l,
                append_assoc (wire v) (wire_fields gs) r,
                decode_flat-wire t v (wire_fields gs ++ r) u,
                decode_flat_fields-wire ts gs r k,
              )
              refl
      ]

decode_items-wire :
    (t : Flat) (vs : Items) (i : ℕ) (r : Bytes)
    → AllFlat t vs
    → decode_items t (count vs) i (wire_items vs ++ r) ≡ got (visible_items vs) r
unfolding wire decode_items visible
decode_items-wire t no_items i r h = refl
decode_items-wire t (item v vs) i r (h, k) =
    rw
      (
        append_assoc (wire v) (wire_items vs) r,
        decode_flat-wire t v (wire_items vs ++ r) h,
        decode_items-wire t vs (suc i) r k,
      )
      refl

mutual
  unfolding wire decode Fits visible

  decode-wire :
      (t : Target) (v : Value) (r : Bytes) → Fits t v → decode t (wire v ++ r) ≡ got (visible v) r
  decode-wire (flat t) v r h = decode_flat-wire t v r h
  decode-wire (slice_of t) v r (vs, e, c, h) =
      rw
        (
          e,
          append_assoc (put_le 2 (count vs)) (wire_items vs) r,
          decode_length-put_le array_len_eof (count vs) (wire_items vs ++ r) c,
          decode_items-wire t vs 0 r h,
        )
        refl
  decode-wire (struct_of ts) v r (fs, e, h) = rw (e, decode_fields-wire ts fs r h) refl
  decode-wire (pointer_to ts) v r (a, fs, e, h) = rw (e, decode_fields-wire ts fs r h) refl

  decode_fields-wire :
      (ts : TargetFields) (fs : Fields) (r : Bytes)
      → FitFields ts fs
      → decode_fields ts (wire_fields fs ++ r) ≡ got (visible_fields fs) r
  decode_fields-wire no_targets fs r e = rw e refl
  decode_fields-wire (target_field n t ts) fs r (v, gs, e, h, k) = elim (Bool-cases (is_lower n)) [
    | inl l ↦ rw (e, l) (decode_fields-wire ts gs r k)
    | inr l ↦
        let u = used (is_lower n) (Fits t v) l h in
        rw
          (
            e,
            l,
            append_assoc (wire v) (wire_fields gs) r,
            decode-wire t v (wire_fields gs ++ r) u,
            decode_fields-wire ts gs r k,
          )
          refl
  ]

-- Let a value have a type whose slices have flat elements, its numbers their width, its texts no
-- zero, and its slices 65535 elements at most. What Marshal writes for it, Unmarshal reads back from
-- the front of any data: the value without the fields that are passed over and with new pointers,
-- and as the offset the number of bytes that Marshal wrote.
pub unmarshal-marshal :
    (exported : Text → Bool) (t : Target) (v : Value) (b r : Bytes)
    → Fits t v
    → marshal exported v ≡ wrote b
    → unmarshal t (b ++ r) ≡ (length b, inl (visible v))
unfolding unmarshal
unmarshal-marshal exported t v b r h m =
    let e : decode t (b ++ r) ≡ got (visible v) r =
      rw (marshal-wire exported v b m) (decode-wire t v r h) in
    let off : length (b ++ r) - length r ≡ length b = omega (arith, length-append b r) in
    rw (e, unmarshal, off) refl
