-- ===== src/Encoding/Decode/Store/Flat.antt =====
-- The flat types of Encoding.Decode as types of Encoding.Decode.Store, and a slice of them.
use tcp_gateway.Prelude.{ℕ, ◌≡◌, refl, ap, inl, inr, Bool-cases}
use tcp_gateway.Bytes.{Bytes}
use tcp_gateway.Encoding.{Value, Fields, Items, no_items, item, slice, is_lower}
use tcp_gateway.Encoding
use tcp_gateway.Encoding.Decode.{
  Flat, flat_word, flat_string, flat_bytes, flat_struct, FlatFields, no_flat, flat_field, Decoding,
  got, ◌>>=◌, at_place, in_field, decode_word, decode_string, decode_bytes, decode_flat,
  decode_flat_fields,
}
use tcp_gateway.Encoding.Decode.Heap
use tcp_gateway.Encoding.Decode.Heap.{
  Shape, word, string, bytes, structure, Shapes, no_shapes, shape, Cell, plain, Cells, cell, Header,
  Store, append, cells_of, first_cell, rest_cells,
}
use tcp_gateway.Encoding.Decode.Store.{
  with_plain, value_of, decode_into, decode_into_fields, shown, show_fields,
}
use tcp_gateway.Encoding.Decode.Store.Relation.{
  Related, Related-at_place, Related-got, Related-map, Related->>=, Related-then,
}

unfoldable mutual
  pub of_flat : Flat → Shape
  of_flat (flat_word k) = word k
  of_flat flat_string = string
  of_flat flat_bytes = bytes
  of_flat (flat_struct ts) = structure (of_flats ts)

  pub of_flats : FlatFields → Shapes
  of_flats no_flat = no_shapes
  of_flats (flat_field n t ts) = shape n (of_flat t) (of_flats ts)

-- The store is left as it is, and the result shows the value whatever the store.
abbrev pub Leaves : {X V : Type 0} → (Store → X → V) → Store → V → X × Store → Type 0
Leaves shown s v (c, t) = (t ≡ s) × ((u : Store) → shown u c ≡ v)

with_plain-Related :
    (s : Store) (m : Decoding Value) → Related (Leaves (λ u c. value_of c) s) m (with_plain s m)
with_plain-Related s m =
    Related-map (Leaves (λ u c. value_of c) s) m (λ v. (plain v, s)) (λ v. (refl, λ u. refl))

module _ (spare : ℕ → ℕ) where
  mutual
    unfolding decode_flat decode_into shown of_flat

    pub decode_into-of_flat :
        (t : Flat) (c : Cell) (s : Store) (d : Bytes)
        → Related
            (Leaves (shown (of_flat t)) s)
            (decode_flat t d)
            (decode_into spare (of_flat t) c s d)
    decode_into-of_flat (flat_word k) c s d = with_plain-Related s (decode_word k d)
    decode_into-of_flat flat_string c s d = with_plain-Related s (decode_string d)
    decode_into-of_flat flat_bytes c s d = with_plain-Related s (decode_bytes d)
    decode_into-of_flat (flat_struct ts) c s d =
        Related->>= (Leaves (show_fields (of_flats ts)) s)
          (Leaves (shown (of_flat (flat_struct ts))) s) (decode_flat_fields ts d)
          (decode_into_fields spare (of_flats ts) (cells_of c) s d)
          (λ fs r. got (Encoding.structure fs) r) (λ (cs, t) r. got (Heap.struct cs, t) r)
          (decode_into_fields-of_flats ts (cells_of c) s d)
          (λ fs r (cs, t) (e, x).
            Related-got (Leaves (shown (of_flat (flat_struct ts))) s) (Encoding.structure fs)
              (Heap.struct cs, t) r (e, λ u. ap Encoding.structure (x u)))

    pub decode_into_fields-of_flats :
        (ts : FlatFields) (cs : Cells) (s : Store) (d : Bytes)
        → Related
            (Leaves (show_fields (of_flats ts)) s)
            (decode_flat_fields ts d)
            (decode_into_fields spare (of_flats ts) cs s d)
    decode_into_fields-of_flats no_flat cs s d =
        Related-got (Leaves (show_fields no_shapes) s) Encoding.no_fields (Heap.no_cells, s) d
          (refl, λ u. refl)
    decode_into_fields-of_flats (flat_field n t ts) cs s d =
        let L = Leaves (show_fields (of_flats (flat_field n t ts))) s in
        let rest = Leaves (show_fields (of_flats ts)) s in
        elim (Bool-cases (is_lower n)) [
          | inl e ↦ rw e (
              Related-then rest L (decode_flat_fields ts d)
                (decode_into_fields spare (of_flats ts) (rest_cells cs) s d)
                (λ (cs', t). (cell (first_cell cs) cs', t))
                (decode_into_fields-of_flats ts (rest_cells cs) s d)
                (λ fs (cs', t) (p, x). (p, λ u. rw e (x u))))
          | inr e ↦ rw e (
              Related->>= (Leaves (shown (of_flat t)) s) L (at_place (in_field n) (decode_flat t d))
                (at_place (in_field n) (decode_into spare (of_flat t) (first_cell cs) s d))
                (λ v r. decode_flat_fields ts r >>= λ fs r'. got (Encoding.field n v fs) r')
                (λ (c, t₁) r.
                  decode_into_fields spare (of_flats ts) (rest_cells cs) t₁ r >>= λ (cs', t₂) r'.
                  got (cell c cs', t₂) r')
                (Related-at_place (Leaves (shown (of_flat t)) s) (in_field n) (decode_flat t d)
                  (decode_into spare (of_flat t) (first_cell cs) s d)
                  (decode_into-of_flat t (first_cell cs) s d))
                (λ v r (c, t₁) (p, x). rw p (
                  Related->>= rest L (decode_flat_fields ts r)
                    (decode_into_fields spare (of_flats ts) (rest_cells cs) s r)
                    (λ fs r'. got (Encoding.field n v fs) r')
                    (λ (cs', t₂) r'. got (cell c cs', t₂) r')
                    (decode_into_fields-of_flats ts (rest_cells cs) s r)
                    (λ fs r' (cs', t₂) (q, y).
                      Related-got L (Encoding.field n v fs) (cell c cs', t₂) r'
                        (q, λ u. rw (e, x u, y u) refl)))))
        ]
