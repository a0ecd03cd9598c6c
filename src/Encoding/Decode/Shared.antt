-- ===== src/Encoding/Decode/Shared.antt =====
-- decodeArray of pkg/encoding/decode.go on a slice of pointers to structs with flat fields. It decodes
-- every element into one variable: the pointer in it is set for the first element only, and every
-- element that is appended is that pointer.
use tcp_gateway.Prelude.{
  ℕ, zero, suc, ◌+◌, ◌-◌, ◌≤◌, ◌≡◌, refl, ap, ◌∙◌, ◌⊎◌, inl, inr, Bool, Option, none, some, List,
  [], ◌∷◌, ◌++◌, length, append_assoc, length-append, All, arith,
}
use tcp_gateway.Bytes.{Bytes, put_le}
use tcp_gateway.Text.{Text}
use tcp_gateway.Encoding.{
  Value, pointer, structure, slice, Fields, Items, no_items, item, count, marshal, wrote,
}
use tcp_gateway.Encoding.Wire.{wire, wire_fields, wire_items, marshal-wire}
use tcp_gateway.Encoding.Decode.{
  FlatFields, DecodeError, Decoding, got, failed, ◌>>=◌, at_place, in_element, array_len_eof,
  decode_length, decode_flat_fields,
}
use tcp_gateway.Encoding.Decode.Fits.{visible_fields, AreFlat}
use tcp_gateway.Encoding.Decode.RoundTrip.{decode_length-put_le, decode_flat_fields-wire}

-- The loop: k elements are left, the next of which has the number i. `target` is the struct that the
-- variable points at, none while it is nil; the fields of an element overwrite it.
unfoldable pub decode_elements :
    FlatFields → ℕ → ℕ → Option Fields → Bytes → Decoding (Option Fields)
decode_elements ts zero i target d = got target d
decode_elements ts (suc k) i target d =
    at_place (in_element i) (decode_flat_fields ts d) >>= λ fs r.
    decode_elements ts k (suc i) (some fs) r

-- One value n times.
unfoldable pub repeat : ℕ → Value → Items
repeat zero v = no_items
repeat (suc n) v = item v (repeat n v)

-- What is read through n pointers to the one struct.
abbrev pub read_elements : ℕ → Option Fields → Items
read_elements n none = no_items
read_elements n (some fs) = repeat n (pointer 0 (structure fs))

-- decodeArray, and what the slice shows behind it.
abbrev pub decode_pointers : FlatFields → Bytes → Decoding Value
decode_pointers ts d = decode_length array_len_eof d >>= λ l r.
    decode_elements ts l 0 none r >>= λ target r'. got (slice (read_elements l target)) r'

-- Unmarshal into a slice of pointers.
unfoldable pub unmarshal_pointers : FlatFields → Bytes → ℕ × (Value ⊎ DecodeError)
unfolding decode_elements repeat
unmarshal_pointers ts p = elim (decode_pointers ts p) [
  | got v r ↦ (length p - length r, inl v)
  | failed e r ↦ (length p - length r, inr e)
]

-- Pointers to structs, with their addresses.
abbrev pub pointers : List (ℕ × Fields) → Items
pointers [] = no_items
pointers ((a, fs) ∷ l) = item (pointer a (structure fs)) (pointers l)

count-pointers : (l : List (ℕ × Fields)) → count (pointers l) ≡ length l
count-pointers [] = refl
count-pointers ((a, fs) ∷ l) = ap suc (count-pointers l)

decode_elements-wire :
    (ts : FlatFields) (l : List (ℕ × Fields)) (x : ℕ × Fields) (i : ℕ) (target : Option Fields)
    (r : Bytes)
    → All (λ (p : ℕ × Fields). AreFlat ts p.1) (l ++ x ∷ [])
    → decode_elements ts (length (l ++ x ∷ [])) i target (wire_items (pointers (l ++ x ∷ [])) ++ r)
      ≡ got (some (visible_fields x.1)) r
unfolding decode_elements wire
decode_elements-wire ts [] (a, fs) i target r (h, _) =
    rw (append_assoc (wire_fields fs) [] r, decode_flat_fields-wire ts fs r h) refl
decode_elements-wire ts ((a, gs) ∷ l) x i target r (h, hs) =
    rw
      (
        append_assoc (wire_fields gs) (wire_items (pointers (l ++ x ∷ []))) r,
        decode_flat_fields-wire ts gs (wire_items (pointers (l ++ x ∷ [])) ++ r) h,
      )
      (decode_elements-wire ts l x (suc i) _ r hs)

decode_pointers-wire :
    (ts : FlatFields) (l : List (ℕ × Fields)) (a : ℕ) (fs : Fields) (r : Bytes)
    → length (l ++ (a, fs) ∷ []) ≤ 65535
    → All (λ (p : ℕ × Fields). AreFlat ts p.1) (l ++ (a, fs) ∷ [])
    → decode_pointers ts (wire (slice (pointers (l ++ (a, fs) ∷ []))) ++ r)
      ≡ got
          (slice (repeat (length (l ++ (a, fs) ∷ [])) (pointer 0 (structure (visible_fields fs)))))
          r
unfolding wire
decode_pointers-wire ts l a fs r k h =
    let vs = pointers (l ++ (a, fs) ∷ []) in
    rw
      (
        append_assoc (put_le 2 (count vs)) (wire_items vs) r,
        decode_length-put_le array_len_eof (count vs) (wire_items vs ++ r)
            (omega (arith, k, count-pointers (l ++ (a, fs) ∷ []))),
        count-pointers (l ++ (a, fs) ∷ []),
        decode_elements-wire ts l (a, fs) 0 none r h,
      )
      refl

-- What Marshal writes for a slice of 1 to 65535 pointers to structs of a type with flat fields,
-- Unmarshal reads back from the front of any data as a slice of the same length, every element of which
-- is the last struct without the fields that are passed over.
pub unmarshal_pointers-marshal :
    (exported : Text → Bool) (ts : FlatFields) (l : List (ℕ × Fields)) (a : ℕ) (fs : Fields)
    (b r : Bytes)
    → length (l ++ (a, fs) ∷ []) ≤ 65535
    → All (λ (p : ℕ × Fields). AreFlat ts p.1) (l ++ (a, fs) ∷ [])
    → marshal exported (slice (pointers (l ++ (a, fs) ∷ []))) ≡ wrote b
    → unmarshal_pointers ts (b ++ r)
      ≡ (length b, inl (slice (repeat (length l + 1) (pointer 0 (structure (visible_fields fs))))))
unfolding unmarshal_pointers
unmarshal_pointers-marshal exported ts l a fs b r k h m =
    let n : length (l ++ (a, fs) ∷ []) ≡ length l + 1 = length-append l ((a, fs) ∷ []) in
    let e : decode_pointers ts (b ++ r)
        ≡ got (slice (repeat (length l + 1) (pointer 0 (structure (visible_fields fs))))) r =
      rw (marshal-wire exported (slice (pointers (l ++ (a, fs) ∷ []))) b m) (
        decode_pointers-wire ts l a fs r k h
        ∙ ap (λ x. got (slice (repeat x (pointer 0 (structure (visible_fields fs))))) r) n) in
    let off : length (b ++ r) - length r ≡ length b = omega (arith, length-append b r) in
    rw (e, unmarshal_pointers, off) refl
