-- ===== src/Encoding/Decode/Store.antt =====
-- pkg/encoding/decode.go for all types, over a store: what a variable holds are its values, the addresses
-- of what its pointers point at and the headers of its slices. The elements of a slice are decoded into
-- one variable and copied from there, so pointers and the arrays of inner slices are shared as in Go.
-- A field that is passed over is left as it is, and not shown. What an error leaves behind is not kept.
pub mod Relation
pub mod Frame
pub mod Flat
pub mod Slice
pub mod Refinement
pub mod OneStruct
pub mod Loop
pub mod Sharing
use tcp_gateway.Prelude.{
  ℕ, zero, suc, ◌+◌, ◌-◌, ◌==◌, ltb, Bool, ◌⊎◌, inl, inr, Option, none, some, [], length,
  if◌then◌else◌,
}
use tcp_gateway.Bytes.{Bytes}
use tcp_gateway.Text.{Text}
use tcp_gateway.Encoding.{
  Scalar, Value, other, nil, pointer, slice, Fields, no_fields, field, Items, no_items, item,
  is_lower,
}
use tcp_gateway.Encoding
use tcp_gateway.Encoding.Decode.{
  DecodeError, Decoding, got, failed, ◌>>=◌, at_place, in_field, in_element, array_len_eof,
  decode_word, decode_string, decode_length, decode_bytes,
}
use tcp_gateway.Encoding.Decode.Heap.{
  Cell, Cells, Header, Shape, Shapes, Store, address, append, bytes, cell, cells_of, empty,
  first_cell, header, header_of, new_array, nil_header, no_cells, no_shapes, null, plain, point,
  pointer_to, pointer_to_slice, rest_cells, shape, slice_of, string, struct, structure, word,
  write_element, write_object, zero_cell, zero_cells,
}

-- What decodes into a variable: what the variable holds afterwards, and the store.
abbrev pub Decoder : Type 0
Decoder = Cell → Store → Bytes → Decoding (Cell × Store)

-- The loop of decodeArray: k elements are left, the next of which has the number i. `c` is what the
-- variable of the elements holds.
unfoldable pub decode_elements :
    (ℕ → ℕ) → Decoder → ℕ → ℕ → Cell → Header → Store → Bytes → Decoding (Header × Store)
unfolding append
decode_elements spare step zero i c h st d = got (h, st) d
decode_elements spare step (suc k) i c h st d =
    at_place (in_element i) (step c st d) >>= λ (c', st') r.
    let (h', st'') = append spare h c' st' in decode_elements spare step k (suc i) c' h' st'' r

-- decodeArray on a slice with the header, whose elements have the zero value z.
abbrev pub decode_array :
    (ℕ → ℕ) → Decoder → Cell → Header → Store → Bytes → Decoding (Header × Store)
decode_array spare step z h st d = decode_length array_len_eof d >>= λ l r.
    decode_elements spare step l 0 z (record h { len = 0 }) st r

abbrev pub with_plain : Store → Decoding Value → Decoding (Cell × Store)
with_plain st m = m >>= λ v r. got (plain v, st) r

-- `decode`.
module _ (spare : ℕ → ℕ) where
  unfoldable mutual
    pub decode_into : Shape → Decoder
    decode_into (word k) c st d = with_plain st (decode_word k d)
    decode_into string c st d = with_plain st (decode_string d)
    decode_into bytes c st d = with_plain st (decode_bytes d)
    decode_into (structure ss) c st d =
        decode_into_fields ss (cells_of c) st d >>= λ (cs, st') r. got (struct cs, st') r
    decode_into (slice_of s) c st d =
        decode_array spare (decode_into s) (zero_cell s) (header_of c) st d >>= λ (h, st') r.
        got (header h, st') r
    decode_into (pointer_to ss) c st d =
        let (a, st₁) = point (struct (zero_cells ss)) c st in
        decode_into_fields ss (cells_of (st₁.objects a)) st₁ d >>= λ (cs, st₂) r.
        got (address a, write_object a (struct cs) st₂) r
    decode_into (pointer_to_slice s) c st d =
        let (a, st₁) = point (header nil_header) c st in
        decode_array spare (decode_into s) (zero_cell s) (header_of (st₁.objects a)) st₁ d
        >>= λ (h, st₂) r. got (address a, write_object a (header h) st₂) r

    pub decode_into_fields : Shapes → Cells → Store → Bytes → Decoding (Cells × Store)
    decode_into_fields no_shapes cs st d = got (no_cells, st) d
    decode_into_fields (shape n s ss) cs st d =
        if is_lower n
        then (decode_into_fields ss (rest_cells cs) st d >>= λ (cs', st') r.
            got (cell (first_cell cs) cs', st') r)
        else at_place (in_field n) (decode_into s (first_cell cs) st d) >>= λ (c, st₁) r.
            decode_into_fields ss (rest_cells cs) st₁ r >>= λ (cs', st₂) r'.
            got (cell c cs', st₂) r'

-- What a variable of a type shows: a pointer with what it points at, a slice with its elements.
abbrev pub value_of : Cell → Value
value_of (plain v) = v
value_of _ = other

abbrev pub show_pointer : (Cell → Value) → Store → Cell → Value
show_pointer shown st (address a) = pointer 0 (shown (st.objects a))
show_pointer shown st _ = nil

unfoldable pub show_elements : (Cell → Value) → (ℕ → Cell) → ℕ → ℕ → Items
show_elements shown array i zero = no_items
show_elements shown array i (suc k) = item (shown (array i)) (show_elements shown array (suc i) k)

abbrev pub show_header : (Cell → Value) → Store → Header → Value
show_header shown st h = slice (show_elements shown (st.arrays h.array) 0 h.len)

unfoldable mutual
  pub shown : Shape → Store → Cell → Value
  shown (word k) st c = value_of c
  shown string st c = value_of c
  shown bytes st c = value_of c
  shown (structure ss) st c = Encoding.structure (show_fields ss st (cells_of c))
  shown (slice_of s) st c = show_header (λ e. shown s st e) st (header_of c)
  shown (pointer_to ss) st c =
      show_pointer (λ e. Encoding.structure (show_fields ss st (cells_of e))) st c
  shown (pointer_to_slice s) st c =
      show_pointer (λ e. show_header (λ x. shown s st x) st (header_of e)) st c

  pub show_fields : Shapes → Store → Cells → Fields
  show_fields no_shapes st cs = no_fields
  show_fields (shape n s ss) st cs =
      if is_lower n
      then show_fields ss st (rest_cells cs)
      else field n (shown s st (first_cell cs)) (show_fields ss st (rest_cells cs))

-- `Unmarshal` into a new variable, with the offset that it reaches.
unfoldable pub unmarshal_into : (ℕ → ℕ) → Shape → Bytes → ℕ × (Value ⊎ DecodeError)
unmarshal_into spare s p = elim (decode_into spare s (zero_cell s) empty p) [
  | got (c, st) r ↦ (length p - length r, inl (shown s st c))
  | failed e r ↦ (length p - length r, inr e)
]
