-- ===== src/Encoding/Decode/Store/Refinement.antt =====
-- Unmarshal over a store, on the types of Encoding.Decode.
use tcp_gateway.Prelude.{
  ℕ, ◌≡◌, refl, sym, subst, ap, ◌∙◌, arith, inl, inr, Bool-cases, length, ◌-◌,
}
use tcp_gateway.Bytes.{Bytes}
use tcp_gateway.Encoding.{Value, Fields, field, is_lower}
use tcp_gateway.Encoding
use tcp_gateway.Encoding.Decode.{
  Target, flat, slice_of, struct_of, pointer_to, TargetFields, no_targets, target_field, got, ◌>>=◌,
  at_place, in_field, array_len_eof, decode_length, decode_items, decode_flat, decode,
  decode_fields, unmarshal,
}
use tcp_gateway.Encoding.Decode.Heap
use tcp_gateway.Encoding.Decode.Heap.{
  Shape, structure, pointer_to_slice, Shapes, no_shapes, shape, Cell, struct, null, address, header,
  Cells, no_cells, cell, Header, nil_header, Store, empty, zero_cell, zero_cells, write_object,
  point, cells_of,
}
use tcp_gateway.Encoding.Decode.Store.{
  decode_array, decode_into, decode_into_fields, shown, show_fields, show_header, unmarshal_into,
}
use tcp_gateway.Encoding.Decode.Store.Frame.{
  Extends, Same, Same-first, Same-second, Extends-refl, Extends-trans, Same-refl, Refines,
}
use tcp_gateway.Encoding.Decode.Store.Relation.{
  Related, Related-at_place, Related-got, Related->>=, Related-then, Related-weaken, Related-result,
}
use tcp_gateway.Encoding.Decode.Store.Flat.{of_flat, Leaves, decode_into-of_flat}
use tcp_gateway.Encoding.Decode.Store.Slice.{decode_array-slice}

Leaves-Refines :
    {X V : Type 0}
    → (f : Store → X → V) (s : Store) (v : V) (c : X) (t : Store) → Leaves f s v (c, t)
    → Refines f s v (c, t)
Leaves-Refines f s v c t (e, x) = (subst (Extends s) (sym e) (Extends-refl s), λ u q. x u)

unfoldable mutual
  pub shape_of : Target → Shape
  shape_of (flat t) = of_flat t
  shape_of (slice_of t) = Heap.slice_of (of_flat t)
  shape_of (struct_of ts) = structure (shapes_of ts)
  shape_of (pointer_to ts) = Heap.pointer_to (shapes_of ts)

  pub shapes_of : TargetFields → Shapes
  shapes_of no_targets = no_shapes
  shapes_of (target_field n t ts) = shape n (shape_of t) (shapes_of ts)

-- A new variable for a nil pointer.
abbrev pointed : Cell → Store → Store
pointed z s = (point z null s).1

-- The fields are decoded behind the new variable, and then stand in it.
pointer-Refines :
    (ss : Shapes) (z : Cell) (s t : Store) (cs : Cells) (fs : Fields)
    → Refines (show_fields ss) (pointed z s) fs (cs, t)
    → Refines
        (shown (Heap.pointer_to ss))
        s
        (Encoding.pointer 0 (Encoding.structure fs))
        (address s.next_object, write_object s.next_object (struct cs) t)
unfolding shown
pointer-Refines ss z s t cs fs (x, f) = (
  record {
    objects_le = omega (arith, x.objects_le);
    objects = λ a l. ground (arith, l, x.objects a (omega (arith, l)));
    arrays_le = x.arrays_le;
    arrays = x.arrays;
  },
  λ u same.
      let here : u.objects s.next_object ≡ struct cs =
        same.objects s.next_object (omega arith) (omega (arith, x.objects_le)) ∙ ground arith in
      let behind : Same (pointed z s) t u = record {
        objects = λ a l k. same.objects a (omega (arith, l)) k ∙ ground (arith, l);
        arrays = same.arrays;
      } in
      ap (λ e. Encoding.pointer 0 (Encoding.structure e)) (rw here (f u behind)),
)

mutual
  unfolding decode decode_into shown shape_of zero_cell

  decode_into-shape_of :
      (spare : ℕ → ℕ) (t : Target) (s : Store) (d : Bytes)
      → Related
          (Refines (shown (shape_of t)) s)
          (decode t d)
          (decode_into spare (shape_of t) (zero_cell (shape_of t)) s d)
  decode_into-shape_of spare (flat t) s d =
      Related-weaken (Leaves (shown (of_flat t)) s) (Refines (shown (of_flat t)) s)
        (decode_flat t d) (decode_into spare (of_flat t) (zero_cell (of_flat t)) s d)
        (decode_into-of_flat spare t (zero_cell (of_flat t)) s d)
        (λ v (c, u) h. Leaves-Refines (shown (of_flat t)) s v c u h)
  decode_into-shape_of spare (slice_of t) s d =
      Related-then (Refines (λ u h. show_header (shown (of_flat t) u) u h) s)
        (Refines (shown (Heap.slice_of (of_flat t))) s)
        (decode_length array_len_eof d >>= λ l r.
          decode_items t l 0 r >>= λ vs r'. got (Encoding.slice vs) r')
        (decode_array spare (decode_into spare (of_flat t)) (zero_cell (of_flat t)) nil_header s d)
        (λ (h, u). (header h, u)) (decode_array-slice spare t s (zero_cell (of_flat t)) d)
        (λ v (h, u) q. q)
  decode_into-shape_of spare (struct_of ts) s d =
      Related->>= (Refines (show_fields (shapes_of ts)) s)
        (Refines (shown (structure (shapes_of ts))) s) (decode_fields ts d)
        (decode_into_fields spare (shapes_of ts) (zero_cells (shapes_of ts)) s d)
        (λ fs r. got (Encoding.structure fs) r) (λ (cs, u) r. got (struct cs, u) r)
        (decode_into_fields-shapes_of spare ts s d)
        (λ fs r (cs, t) (x, f).
          Related-got (Refines (shown (structure (shapes_of ts))) s) (Encoding.structure fs)
            (struct cs, t) r (x, λ u q. ap Encoding.structure (f u q)))
  decode_into-shape_of spare (pointer_to ts) s d =
      let z = struct (zero_cells (shapes_of ts)) in
      let e : (pointed z s).objects s.next_object ≡ z = ground arith in
      let s₁ = pointed z s in
      let R = Refines (shown (Heap.pointer_to (shapes_of ts))) s in
      rw e (
        Related->>= (Refines (show_fields (shapes_of ts)) s₁) R (decode_fields ts d)
          (decode_into_fields spare (shapes_of ts) (zero_cells (shapes_of ts)) s₁ d)
          (λ fs r. got (Encoding.pointer 0 (Encoding.structure fs)) r)
          (λ (cs, u) r. got (address s.next_object, write_object s.next_object (struct cs) u) r)
          (decode_into_fields-shapes_of spare ts s₁ d)
          (λ fs r (cs, t) h.
            Related-got R (Encoding.pointer 0 (Encoding.structure fs))
              (address s.next_object, write_object s.next_object (struct cs) t) r
              (pointer-Refines (shapes_of ts) z s t cs fs h)))

  decode_into_fields-shapes_of :
      (spare : ℕ → ℕ) (ts : TargetFields) (s : Store) (d : Bytes)
      → Related
          (Refines (show_fields (shapes_of ts)) s)
          (decode_fields ts d)
          (decode_into_fields spare (shapes_of ts) (zero_cells (shapes_of ts)) s d)
  decode_into_fields-shapes_of spare no_targets s d =
      Related-got (Refines (show_fields no_shapes) s) Encoding.no_fields (no_cells, s) d
        (Extends-refl s, λ u q. refl)
  decode_into_fields-shapes_of spare (target_field n t ts) s d =
      let zs = zero_cells (shapes_of ts) in
      let z = zero_cell (shape_of t) in
      let ss = shapes_of ts in
      let L = Refines (show_fields (shapes_of (target_field n t ts))) s in
      elim (Bool-cases (is_lower n)) [
        | inl e ↦ rw e (
            Related-then (Refines (show_fields ss) s) L (decode_fields ts d)
              (decode_into_fields spare ss zs s d) (λ (cs', t). (cell z cs', t))
              (decode_into_fields-shapes_of spare ts s d)
              (λ fs (cs', t) (p, x). (p, λ u q. rw e (x u q))))
        | inr e ↦ rw e (
            Related->>= (Refines (shown (shape_of t)) s) L (at_place (in_field n) (decode t d))
              (at_place (in_field n) (decode_into spare (shape_of t) z s d))
              (λ v r. decode_fields ts r >>= λ fs r'. got (field n v fs) r')
              (λ (c, t₁) r.
                decode_into_fields spare ss zs t₁ r >>= λ (cs', t₂) r'. got (cell c cs', t₂) r')
              (Related-at_place (Refines (shown (shape_of t)) s) (in_field n) (decode t d)
                (decode_into spare (shape_of t) z s d) (decode_into-shape_of spare t s d))
              (λ v r (c, t₁) (p, x).
                Related->>= (Refines (show_fields ss) t₁) L (decode_fields ts r)
                  (decode_into_fields spare ss zs t₁ r) (λ fs r'. got (field n v fs) r')
                  (λ (cs', t₂) r'. got (cell c cs', t₂) r')
                  (decode_into_fields-shapes_of spare ts t₁ r)
                  (λ fs r' (cs', t₂) (q, y).
                    Related-got L (field n v fs) (cell c cs', t₂) r'
                      (
                        Extends-trans s t₁ t₂ p q,
                        λ u w.
                            rw (e, x u (Same-first s t₁ t₂ u q w), y u (Same-second s t₁ t₂ u p w))
                              refl,
                      ))))
      ]

-- Unmarshal into a new variable over the store, for any data, a type whose slices have elements without
-- pointers and slices, and arrays that grow in any way, reaches the offset and returns the value or the
-- error that the decoder without a store does.
pub unmarshal_into-unmarshal :
    (spare : ℕ → ℕ) (t : Target) (p : Bytes) → unmarshal_into spare (shape_of t) p ≡ unmarshal t p
unfolding unmarshal unmarshal_into
unmarshal_into-unmarshal spare t p =
    Related-result (Refines (shown (shape_of t)) empty) (λ v r. (length p - length r, inl v))
      (λ (c, u) r. (length p - length r, inl (shown (shape_of t) u c)))
      (λ e r. (length p - length r, inr e)) (decode t p)
      (decode_into spare (shape_of t) (zero_cell (shape_of t)) empty p)
      (decode_into-shape_of spare t empty p)
      (λ v r (c, u) (x, f). ap (λ w. (length p - length r, inl w)) (f u (Same-refl empty u)))
