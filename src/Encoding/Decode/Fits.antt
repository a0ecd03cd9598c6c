-- ===== src/Encoding/Decode/Fits.antt =====
-- Which values belong to the types of Encoding.Decode, and what of them pkg/encoding/encode.go puts on
-- the wire.
use tcp_gateway.Prelude.{ℕ, ◌^◌, ◌≤◌, ◌<◌, ◌≡◌, ◌⊎◌, true, none, length, if◌then◌else◌}
use tcp_gateway.Bytes.{Bytes}
use tcp_gateway.Text.{Text}
use tcp_gateway.Encoding.{
  Value, word, string, bytes, int8, other, nil, pointer, structure, slice, Fields, no_fields, field,
  Items, no_items, item, index_zero, is_lower, count,
}
use tcp_gateway.Encoding.Decode.{
  Flat, FlatFields, flat_word, flat_string, flat_bytes, flat_struct, no_flat, flat_field, Target,
  TargetFields, flat, slice_of, struct_of, pointer_to, no_targets, target_field, width, of_bits,
}

-- The value without addresses and without the fields that are passed over.
unfoldable mutual
  pub visible : Value → Value
  visible (word k n) = word k (of_bits k n)
  visible (string s) = string s
  visible (bytes b) = bytes b
  visible (int8 n) = int8 n
  visible other = other
  visible nil = nil
  visible (pointer a v) = pointer 0 (visible v)
  visible (structure fs) = structure (visible_fields fs)
  visible (slice vs) = slice (visible_items vs)

  pub visible_fields : Fields → Fields
  visible_fields no_fields = no_fields
  visible_fields (field n v fs) =
      if is_lower n then visible_fields fs else field n (visible v) (visible_fields fs)

  pub visible_items : Items → Items
  visible_items no_items = no_items
  visible_items (item v vs) = item (visible v) (visible_items vs)

-- The value has the flat type: numbers have their width, texts no zero, a []byte 65535 bytes at most.
unfoldable mutual
  pub IsFlat : Flat → Value → Type 0
  IsFlat (flat_word k) v = (n : ℕ) × (v ≡ word k n) × (n < 256 ^ width k)
  IsFlat flat_string v = (s : Text) × (v ≡ string s) × (index_zero s ≡ none)
  IsFlat flat_bytes v = (b : Bytes) × (v ≡ bytes b) × (length b ≤ 65535)
  IsFlat (flat_struct ts) v = (fs : Fields) × (v ≡ structure fs) × AreFlat ts fs

  pub AreFlat : FlatFields → Fields → Type 0
  AreFlat no_flat fs = fs ≡ no_fields
  AreFlat (flat_field n t ts) fs =
      (v : Value) × (gs : Fields) × (fs ≡ field n v gs)
      × ((is_lower n ≡ true) ⊎ IsFlat t v)
      × AreFlat ts gs

abbrev pub AllFlat : Flat → Items → Type 0
AllFlat t no_items = Unit
AllFlat t (item v vs) = IsFlat t v × AllFlat t vs

unfoldable mutual
  pub Fits : Target → Value → Type 0
  Fits (flat t) v = IsFlat t v
  Fits (slice_of t) v = (vs : Items) × (v ≡ slice vs) × (count vs ≤ 65535) × AllFlat t vs
  Fits (struct_of ts) v = (fs : Fields) × (v ≡ structure fs) × FitFields ts fs
  Fits (pointer_to ts) v =
      (a : ℕ) × (fs : Fields) × (v ≡ pointer a (structure fs)) × FitFields ts fs

  pub FitFields : TargetFields → Fields → Type 0
  FitFields no_targets fs = fs ≡ no_fields
  FitFields (target_field n t ts) fs =
      (v : Value) × (gs : Fields) × (fs ≡ field n v gs)
      × ((is_lower n ≡ true) ⊎ Fits t v)
      × FitFields ts gs
