-- ===== src/Encoding/Decode/Store/Sharing.antt =====
-- decodeArray over a store, for a slice of pointers to structs with flat fields: all elements are one
-- pointer.
use tcp_gateway.Prelude.{
  ℕ, zero, suc, ◌+◌, ◌-◌, ◌<◌, ◌≡◌, refl, ap, ap₂, arith, inl, inr, length, Option, none, some,
}
use tcp_gateway.Bytes.{Bytes}
use tcp_gateway.Encoding.{Value, Fields, Items, no_items, item, slice}
use tcp_gateway.Encoding
use tcp_gateway.Encoding.Decode.{
  FlatFields, Decoding, got, failed, ◌>>=◌, decode_length, array_len_eof,
}
use tcp_gateway.Encoding.Decode.Shared
use tcp_gateway.Encoding.Decode.Shared.{repeat, read_elements, decode_pointers, unmarshal_pointers}
use tcp_gateway.Encoding.Decode.Heap.{
  slice_of, pointer_to, Cell, null, address, header_of, header, Header, nil_header, Store, empty,
  zero_cell,
}
use tcp_gateway.Encoding.Decode.Store.{
  decode_elements, decode_array, decode_into, shown, show_elements, unmarshal_into,
}
use tcp_gateway.Encoding.Decode.Store.Relation.{
  Related, Related-got, Related-then, Related-with, Related-after, Related-result,
}
use tcp_gateway.Encoding.Decode.Store.Flat.{of_flats}
use tcp_gateway.Encoding.Decode.Store.OneStruct.{Grown}
use tcp_gateway.Encoding.Decode.Store.Loop.{decode_elements-first}

-- The slice shows one struct for every element.
show_elements-repeat :
    (f : Cell → Value) (g : ℕ → Cell) (v : Value) (k i : ℕ)
    → ((j : ℕ) → j < i + k → f (g j) ≡ v)
    → show_elements f g i k ≡ repeat k v
unfolding show_elements repeat
show_elements-repeat f g v zero i h = refl
show_elements-repeat f g v (suc k) i h =
    ap₂ item (h i (omega arith))
      (show_elements-repeat f g v k (suc i) (λ j l. h j (omega (arith, l))))

-- All elements of the slice are the pointer to the variable that was made first.
abbrev pub IsOnePointer : Cell → Store → Type 0
IsOnePointer c t =
    (j : ℕ) → j < (header_of c).len → t.arrays (header_of c).array j ≡ address empty.next_object

-- So it is in what was decoded, if there was no error.
abbrev pub IsOneDecoded : Decoding (Cell × Store) → Type 0
IsOneDecoded (got (c, t) r) = IsOnePointer c t
IsOneDecoded (failed e r) = Unit

abbrev Shows : FlatFields → Value → Cell × Store → Type 0
Shows ts v (c, t) = (shown (slice_of (pointer_to (of_flats ts))) t c ≡ v) × IsOnePointer c t

Grown-Shows :
    (ts : FlatFields) (l : ℕ) (target : Option Fields) (h : Header) (t : Store)
    → Grown ts empty nil_header l target (h, t)
    → Shows ts (slice (read_elements l target)) (header h, t)
unfolding shown
Grown-Shows ts l none h t g = absurd g
Grown-Shows ts l (some fs) h t (g, n) =
    let e : h.len ≡ l = omega (arith, n) in
    (
      ap slice (
          rw e (
            show_elements-repeat _ (t.arrays h.array) (Encoding.pointer 0 (Encoding.structure fs)) l
              0
              (λ j k.
                rw (g.alike j (omega (arith, k, n)))
                  (ap (λ x. Encoding.pointer 0 (Encoding.structure x)) (g.shared t))))),
      g.alike,
    )

-- The same of a header.
abbrev ShowsAt : FlatFields → Value → Header × Store → Type 0
ShowsAt ts v (h, t) = Shows ts v (header h, t)

decode_elements-ShowsAt :
    (spare : ℕ → ℕ) (ts : FlatFields) (l : ℕ) (d : Bytes)
    → Related
        (ShowsAt ts)
        (Shared.decode_elements ts l 0 none d >>= λ target r.
          got (slice (read_elements l target)) r)
        (decode_elements spare
          (decode_into spare (pointer_to (of_flats ts)))
          l
          0
          null
          nil_header
          empty
          d)
unfolding decode_elements Shared.decode_elements shown show_elements
decode_elements-ShowsAt spare ts zero d =
    Related-got (ShowsAt ts) (slice no_items) (nil_header, empty) d
      (refl, λ j l. absurd (omega (arith, l)))
decode_elements-ShowsAt spare ts (suc k) d =
    Related-with (Grown ts empty nil_header (suc k)) (ShowsAt ts)
      (Shared.decode_elements ts (suc k) 0 none d)
      (decode_elements spare (decode_into spare (pointer_to (of_flats ts))) (suc k) 0 null
        nil_header empty d)
      (λ target. slice (read_elements (suc k) target)) (decode_elements-first spare ts empty k d)
      (λ target (h, t) g. Grown-Shows ts (suc k) target h t g)

decode_pointers-decode_into :
    (spare : ℕ → ℕ) (ts : FlatFields) (p : Bytes)
    → Related (Shows ts) (decode_pointers ts p) (
        decode_into spare
          (slice_of (pointer_to (of_flats ts)))
          (zero_cell (slice_of (pointer_to (of_flats ts))))
          empty
          p)
unfolding decode_into zero_cell
decode_pointers-decode_into spare ts p =
    Related-then (ShowsAt ts) (Shows ts) (decode_pointers ts p)
      (decode_array spare (decode_into spare (pointer_to (of_flats ts))) null nil_header empty p)
      (λ (h, t). (header h, t))
      (Related-after (ShowsAt ts) (decode_length array_len_eof p)
        (λ l r. Shared.decode_elements ts l 0 none r >>= λ target r'.
          got (slice (read_elements l target)) r')
        (λ l r.
          decode_elements spare (decode_into spare (pointer_to (of_flats ts))) l 0 null nil_header
            empty r)
        (λ l r. decode_elements-ShowsAt spare ts l r))
      (λ v (h, t) x. x)

Related-IsOneDecoded :
    (ts : FlatFields) (m : Decoding Value) (m' : Decoding (Cell × Store))
    → Related (Shows ts) m m'
    → IsOneDecoded m'
unfolding Related
Related-IsOneDecoded ts (got v r) (got (c, t) r') (e, q) = q.1
Related-IsOneDecoded ts (got v r) (failed e r') h = tt
Related-IsOneDecoded ts (failed e r) (got y r') h = absurd h
Related-IsOneDecoded ts (failed e r) (failed e' r') h = tt

-- Unmarshal into a new slice of pointers to structs with flat fields, over the store, is what
-- the decoder with one shared struct does: for any data the same offset, and the same error or the
-- value that the slice shows, in which every element has the contents of that struct. What `decode`
-- leaves in the array of the slice is one and the same address for every element, that of the variable
-- that was made for the first.
pub unmarshal_into-unmarshal_pointers :
    (spare : ℕ → ℕ) (ts : FlatFields) (p : Bytes)
    → (unmarshal_into spare (slice_of (pointer_to (of_flats ts))) p ≡ unmarshal_pointers ts p)
      × IsOneDecoded (
          decode_into spare
            (slice_of (pointer_to (of_flats ts)))
            (zero_cell (slice_of (pointer_to (of_flats ts))))
            empty
            p)
unfolding unmarshal_into unmarshal_pointers
unmarshal_into-unmarshal_pointers spare ts p = (
  Related-result (Shows ts) (λ v r. (length p - length r, inl v))
      (λ (c, u) r. (length p - length r, inl (shown (slice_of (pointer_to (of_flats ts))) u c)))
      (λ e r. (length p - length r, inr e)) (decode_pointers ts p)
      (decode_into spare (slice_of (pointer_to (of_flats ts)))
        (zero_cell (slice_of (pointer_to (of_flats ts)))) empty p)
      (decode_pointers-decode_into spare ts p)
      (λ v r (c, u) (h, x). ap (λ w. (length p - length r, inl w)) h),
  Related-IsOneDecoded ts (decode_pointers ts p) _ (decode_pointers-decode_into spare ts p),
)
