-- ===== src/Encoding/Decode/Heap.antt =====
-- What pkg/encoding/decode.go decodes into: variables of all types, and the arrays and variables that
-- they share.
use tcp_gateway.Prelude.{ℕ, ◌+◌, ◌==◌, ltb, [], if◌then◌else◌}
use tcp_gateway.Text.{Text}
use tcp_gateway.Encoding.{
  Scalar, Value, other, nil, pointer, slice, Fields, no_fields, field, Items, no_items, item,
  is_lower,
}
use tcp_gateway.Encoding

-- The types; []byte is `bytes`. Pointers point at structs or slices.
mutual
  pub data Shape : Type 0 where
    word : Scalar → Shape
    string : Shape
    bytes : Shape
    structure : Shapes → Shape
    slice_of : Shape → Shape
    pointer_to : Shapes → Shape
    pointer_to_slice : Shape → Shape

  pub data Shapes : Type 0 where
    no_shapes : Shapes
    shape : Text → Shape → Shapes → Shapes

-- A slice header; the nil slice has no capacity.
pub record Header : Type 0 where
  pub array : ℕ
  pub len : ℕ
  pub cap : ℕ

-- What a variable holds; a number, a string and a []byte, which is always made anew, hold a value.
mutual
  pub data Cell : Type 0 where
    plain : Value → Cell
    struct : Cells → Cell
    null : Cell
    address : ℕ → Cell
    header : Header → Cell

  pub data Cells : Type 0 where
    no_cells : Cells
    cell : Cell → Cells → Cells

-- The variables that were made by reflect.New for pointers, and the arrays, each with the number of
-- them.
pub record Store : Type 0 where
  pub next_object : ℕ
  pub objects : ℕ → Cell
  pub next_array : ℕ
  pub arrays : ℕ → ℕ → Cell

abbrev pub empty : Store
empty = record { next_object = 0; objects = λ a. null; next_array = 0; arrays = λ a i. null }

-- The zero value.
abbrev pub nil_header : Header
nil_header = record { array = 0; len = 0; cap = 0 }

unfoldable mutual
  pub zero_cell : Shape → Cell
  zero_cell (word k) = plain (Encoding.word k 0)
  zero_cell string = plain (Encoding.string [])
  zero_cell bytes = plain (Encoding.bytes [])
  zero_cell (structure ss) = struct (zero_cells ss)
  zero_cell (slice_of s) = header nil_header
  zero_cell (pointer_to ss) = null
  zero_cell (pointer_to_slice s) = null

  pub zero_cells : Shapes → Cells
  zero_cells no_shapes = no_cells
  zero_cells (shape n s ss) = cell (zero_cell s) (zero_cells ss)

abbrev pub first_cell : Cells → Cell
first_cell no_cells = null
first_cell (cell c cs) = c

abbrev pub rest_cells : Cells → Cells
rest_cells no_cells = no_cells
rest_cells (cell c cs) = cs

-- The fields of a struct, and the header of a slice.
abbrev pub cells_of : Cell → Cells
cells_of (struct cs) = cs
cells_of _ = no_cells

abbrev pub header_of : Cell → Header
header_of (header h) = h
header_of _ = nil_header

abbrev pub write_object : ℕ → Cell → Store → Store
write_object a c st = record st { objects = λ b. if b == a then c else st.objects b }

-- The variable that a pointer points at; a nil pointer gets a new one.
abbrev pub point : Cell → Cell → Store → ℕ × Store
point z (address a) st = (a, st)
point z _ st =
    let a = st.next_object in
    (a, record st { next_object = a + 1; objects = λ b. if b == a then z else st.objects b })

-- reflect.Append of one cell: in place, or to a new array with `spare` more places.
abbrev pub write_element : ℕ → ℕ → Cell → Store → Store
write_element a i c st = record st {
  arrays = λ b j. if b == a then (if j == i then c else st.arrays b j) else st.arrays b j;
}

abbrev pub new_array : ℕ → ℕ → Cell → Store → Store
new_array a i c st =
    let n = st.next_array in
    record st {
      next_array = n + 1;
      arrays = λ b j.
          if b == n
          then (if j == i then c else if ltb j i then st.arrays a j else null)
          else st.arrays b j;
    }

unfoldable pub append : (ℕ → ℕ) → Header → Cell → Store → Header × Store
append spare h c st =
    if ltb h.len h.cap then (record h { len = h.len + 1 }, write_element h.array h.len c st) else (
      record { array = st.next_array; len = h.len + 1; cap = h.len + 1 + spare h.len },
      new_array h.array h.len c st,
    )
