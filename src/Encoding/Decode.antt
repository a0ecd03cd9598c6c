-- ===== src/Encoding/Decode.antt =====
-- pkg/encoding/decode.go: Unmarshal into a new, zero value.
-- decodeArray decodes the elements of a slice into one variable, so elements that hold pointers or
-- slices share them. The types here are those where this does not show: the elements of a slice are
-- flat, and []byte is flat_bytes. A pointer that is decoded is new; its address is written 0. A field
-- that is passed over keeps its zero value and is not listed; the others are exported. Slices of
-- pointers are in Decode/Shared.antt.
pub mod Fits
pub mod RoundTrip
pub mod Progress
pub mod Shared
pub mod Heap
pub mod Store
use tcp_gateway.Prelude.{
  ℕ, zero, suc, ◌-◌, ◌==◌, ◌⊎◌, inl, inr, leb, Option, none, some, [], ◌∷◌, length, take, drop,
  if◌then◌else◌,
}
use tcp_gateway.Bytes.{Bytes, le}
use tcp_gateway.Text.{Text}
use tcp_gateway.Encoding.{
  Scalar, bool, byte, int16, uint16, int32, uint32, float32, float64, Value, word, string, bytes,
  pointer, structure, slice, Fields, no_fields, field, Items, no_items, item, index_zero, is_lower,
}

mutual
  pub data Flat : Type 0 where
    flat_word : Scalar → Flat
    flat_string : Flat
    flat_bytes : Flat
    flat_struct : FlatFields → Flat

  pub data FlatFields : Type 0 where
    no_flat : FlatFields
    flat_field : Text → Flat → FlatFields → FlatFields

mutual
  pub data Target : Type 0 where
    flat : Flat → Target
    slice_of : Flat → Target
    struct_of : TargetFields → Target
    pointer_to : TargetFields → Target

  pub data TargetFields : Type 0 where
    no_targets : TargetFields
    target_field : Text → Target → TargetFields → TargetFields

pub data DecodeError : Type 0 where
  word_eof : Scalar → DecodeError
  string_eof string_no_zero bytes_len_eof bytes_eof array_len_eof : DecodeError
  in_field : Text → DecodeError → DecodeError
  in_element : ℕ → DecodeError → DecodeError

-- What was decoded and the rest of the data, or the error and the rest at `d.off`.
pub data Decoding (A : Type 0) : Type 0 where
  got : A → Bytes → Decoding A
  failed : DecodeError → Bytes → Decoding A

infixl 5 ◌>>=◌
abbrev pub ◌>>=◌ : {A B : Type 0} → Decoding A → (A → Bytes → Decoding B) → Decoding B
got a r >>= f = f a r
failed e r >>= f = failed e r

-- The error of a field or an element, with its place.
abbrev pub at_place : {A : Type 0} → (DecodeError → DecodeError) → Decoding A → Decoding A
at_place f (got a r) = got a r
at_place f (failed e r) = failed (f e) r

abbrev pub width : Scalar → ℕ
width bool = 1
width byte = 1
width int16 = 2
width uint16 = 2
width int32 = 4
width uint32 = 4
width float32 = 4
width float64 = 8

-- A byte that is not 0 is true.
abbrev pub of_bits : Scalar → ℕ → ℕ
of_bits bool n = if n == 0 then 0 else 1
of_bits _ n = n

abbrev pub decode_word : Scalar → Bytes → Decoding Value
decode_word k d =
    if leb (width k) (length d)
    then got (word k (of_bits k (le (take (width k) d)))) (drop (width k) d)
    else failed (word_eof k) d

abbrev pub decode_string : Bytes → Decoding Value
decode_string [] = failed string_eof []
decode_string (c ∷ d) = elim (index_zero (c ∷ d)) [
  | none ↦ failed string_no_zero (c ∷ d)
  | some l ↦ got (string (take l (c ∷ d))) (drop (suc l) (c ∷ d))
]

-- The length in front of a []byte or a slice.
abbrev pub decode_length : DecodeError → Bytes → Decoding ℕ
decode_length e d = if leb 2 (length d) then got (le (take 2 d)) (drop 2 d) else failed e d

abbrev pub decode_bytes : Bytes → Decoding Value
decode_bytes d = decode_length bytes_len_eof d >>= λ l r.
    if leb l (length r) then got (bytes (take l r)) (drop l r) else failed bytes_eof r

unfoldable mutual
  pub decode_flat : Flat → Bytes → Decoding Value
  decode_flat (flat_word k) d = decode_word k d
  decode_flat flat_string d = decode_string d
  decode_flat flat_bytes d = decode_bytes d
  decode_flat (flat_struct ts) d = decode_flat_fields ts d >>= λ fs r. got (structure fs) r

  pub decode_flat_fields : FlatFields → Bytes → Decoding Fields
  decode_flat_fields no_flat d = got no_fields d
  decode_flat_fields (flat_field n t ts) d =
      if is_lower n
      then decode_flat_fields ts d
      else at_place (in_field n) (decode_flat t d) >>= λ v r.
          decode_flat_fields ts r >>= λ fs r'. got (field n v fs) r'

-- The loop of decodeArray: k elements are left, the next of which has the number i.
unfoldable pub decode_items : Flat → ℕ → ℕ → Bytes → Decoding Items
decode_items t zero i d = got no_items d
decode_items t (suc k) i d = at_place (in_element i) (decode_flat t d) >>= λ v r.
    decode_items t k (suc i) r >>= λ vs r'. got (item v vs) r'

unfoldable mutual
  pub decode : Target → Bytes → Decoding Value
  decode (flat t) d = decode_flat t d
  decode (slice_of t) d =
      decode_length array_len_eof d >>= λ l r. decode_items t l 0 r >>= λ vs r'. got (slice vs) r'
  decode (struct_of ts) d = decode_fields ts d >>= λ fs r. got (structure fs) r
  decode (pointer_to ts) d = decode_fields ts d >>= λ fs r. got (pointer 0 (structure fs)) r

  pub decode_fields : TargetFields → Bytes → Decoding Fields
  decode_fields no_targets d = got no_fields d
  decode_fields (target_field n t ts) d =
      if is_lower n
      then decode_fields ts d
      else at_place (in_field n) (decode t d) >>= λ v r.
          decode_fields ts r >>= λ fs r'. got (field n v fs) r'

-- `Unmarshal` returns the offset it has reached, and the value or the error.
unfoldable pub unmarshal : Target → Bytes → ℕ × (Value ⊎ DecodeError)
unmarshal t p = elim (decode t p) [
  | got v r ↦ (length p - length r, inl v)
  | failed e r ↦ (length p - length r, inr e)
]
