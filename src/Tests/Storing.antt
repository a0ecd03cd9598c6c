-- ===== src/Tests/Storing.antt =====
-- Sharing in what pkg/encoding/decode.go decodes.
use tcp_gateway.Prelude.{ℕ, ◌≡◌, refl, inl, [], ◌∷◌}
use tcp_gateway.Encoding.{Value, word, int16, slice, item, no_items}
use tcp_gateway.Bytes.{Bytes}
use tcp_gateway.Encoding.{byte}
use tcp_gateway.Encoding.Decode
use tcp_gateway.Encoding.Decode.{
  Target, struct_of, flat, flat_word, TargetFields, target_field, no_targets, FlatFields,
  flat_field, no_flat, unmarshal,
}
use tcp_gateway.Encoding.Decode.Shared.{unmarshal_pointers}
use tcp_gateway.Encoding.Decode.Store.Flat.{of_flats}
use tcp_gateway.Encoding.Decode.Store.Refinement.{shape_of, unmarshal_into-unmarshal}
use tcp_gateway.Encoding.Decode.Store.Sharing.{IsOneDecoded, unmarshal_into-unmarshal_pointers}
use tcp_gateway.Encoding.Decode.Heap
use tcp_gateway.Encoding.Decode.Heap.{slice_of, pointer_to, zero_cell, append, empty}
use tcp_gateway.Encoding.Decode.Store.{
  unmarshal_into, decode_into, decode_elements, shown, show_elements,
}

-- Arrays grow by exactly what is needed.
abbrev none_spare : ℕ → ℕ
none_spare n = 0

abbrev b : ℕ → Value
b n = word int16 n

-- [[1, 2], [3]] comes back as [[3, 2], [3]]: the second slice is written over the
-- first.
overwritten :
    unmarshal_into none_spare
      (slice_of (slice_of (Heap.word int16)))
      (2 ∷ 0 ∷ 2 ∷ 0 ∷ 1 ∷ 0 ∷ 2 ∷ 0 ∷ 1 ∷ 0 ∷ 3 ∷ 0 ∷ [])
    ≡ (
      12,
      inl (
          slice (
            item
              (slice (item (b 3) (item (b 2) no_items)))
              (item (slice (item (b 3) no_items)) no_items))),
    )
unfolding unmarshal_into decode_into decode_elements shown show_elements zero_cell append
overwritten = refl

-- Arrays grow by three more places than are needed.
abbrev three_spare : ℕ → ℕ
three_spare n = 3

-- [[1], [2, 3], [4]]
abbrev nested : Bytes
nested = 3 ∷ 0 ∷ 1 ∷ 0 ∷ 1 ∷ 0 ∷ 2 ∷ 0 ∷ 2 ∷ 0 ∷ 3 ∷ 0 ∷ 1 ∷ 0 ∷ 4 ∷ 0 ∷ []

abbrev nested_as : ℕ → Value
nested_as n = slice (
    item (slice (item (b n) no_items)) (
      item (slice (item (b 4) (item (b 3) no_items)))
        (item (slice (item (b 4) no_items)) no_items)))

-- What comes back depends on how arrays grow: the first slice is [2] where its array was left for a larger
-- one in time, and [4] where it was not.
left_in_time :
    unmarshal_into none_spare (slice_of (slice_of (Heap.word int16))) nested
    ≡ (16, inl (nested_as 2))
unfolding unmarshal_into decode_into decode_elements shown show_elements zero_cell append
left_in_time = refl

not_left :
    unmarshal_into three_spare (slice_of (slice_of (Heap.word int16))) nested
    ≡ (16, inl (nested_as 4))
unfolding unmarshal_into decode_into decode_elements shown show_elements zero_cell append
not_left = refl

-- A struct with a slice and a pointer.
abbrev node : Target
node = struct_of (
    target_field (b'I' ∷ b't' ∷ b'e' ∷ b'm' ∷ b's' ∷ []) (Decode.slice_of (flat_word int16)) (
      target_field (b'N' ∷ b'e' ∷ b'x' ∷ b't' ∷ [])
        (Decode.pointer_to
          (target_field (b'V' ∷ b'a' ∷ b'l' ∷ b'u' ∷ b'e' ∷ []) (flat (flat_word byte)) no_targets))
        no_targets))

abbrev node_bytes : Bytes
node_bytes = 2 ∷ 0 ∷ 1 ∷ 0 ∷ 2 ∷ 0 ∷ 9 ∷ 8 ∷ []

unmarshal_into-unmarshal_example :
    unmarshal_into none_spare (shape_of node) node_bytes ≡ unmarshal node node_bytes
unmarshal_into-unmarshal_example = unmarshal_into-unmarshal none_spare node node_bytes

abbrev pair_fields : FlatFields
pair_fields = flat_field (b'V' ∷ b'a' ∷ b'l' ∷ b'u' ∷ b'e' ∷ []) (flat_word byte) no_flat

unmarshal_into-unmarshal_pointers_example :
    (unmarshal_into none_spare (slice_of (pointer_to (of_flats pair_fields))) (2 ∷ 0 ∷ 4 ∷ 6 ∷ [])
      ≡ unmarshal_pointers pair_fields (2 ∷ 0 ∷ 4 ∷ 6 ∷ []))
    × IsOneDecoded (
        decode_into none_spare
          (slice_of (pointer_to (of_flats pair_fields)))
          (zero_cell (slice_of (pointer_to (of_flats pair_fields))))
          empty
          (2 ∷ 0 ∷ 4 ∷ 6 ∷ []))
unmarshal_into-unmarshal_pointers_example =
    unmarshal_into-unmarshal_pointers none_spare pair_fields (2 ∷ 0 ∷ 4 ∷ 6 ∷ [])
