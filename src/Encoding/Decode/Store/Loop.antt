-- ===== src/Encoding/Decode/Store/Loop.antt =====
-- The loop of decodeArray over a store, for a slice of pointers to structs with flat fields: all elements
-- are one pointer.
use tcp_gateway.Prelude.{ℕ, zero, suc, ◌<◌, ◌≡◌, refl, ap, arith, inl, none, some}
use tcp_gateway.Bytes.{Bytes}
use tcp_gateway.Encoding.{Fields}
use tcp_gateway.Encoding.Decode.{FlatFields, got, ◌>>=◌, at_place, in_element, decode_flat_fields}
use tcp_gateway.Encoding.Decode.Shared
use tcp_gateway.Encoding.Decode.Shared.{repeat, read_elements, decode_pointers, unmarshal_pointers}
use tcp_gateway.Encoding.Decode.Heap.{
  pointer_to, Cell, Cells, struct, null, address, Header, nil_header, Store, append, point,
  cells_of, zero_cells,
}
use tcp_gateway.Encoding.Decode.Store.{
  decode_elements, decode_into, decode_into_fields, show_fields,
}
use tcp_gateway.Encoding.Decode.Store.Frame.{IsOwned}
use tcp_gateway.Encoding.Decode.Store.Relation.{
  Related, Related-at_place, Related-got, Related->>=, Related-then, Related-weaken,
}
use tcp_gateway.Encoding.Decode.Store.Flat.{of_flats, Leaves, decode_into_fields-of_flats}
use tcp_gateway.Encoding.Decode.Store.OneStruct.{
  with_struct, Holds, append-Holds, Stepped, Grown, Grown-suc,
}

module _ (spare : ℕ → ℕ) (ts : FlatFields) (s : Store) where
  fields-Stepped :
      (t : Store) (cs : Cells) (d : Bytes)
      → Related (Stepped ts s t) (decode_flat_fields ts d) (
          decode_into_fields spare (of_flats ts) cs t d >>= λ (cs', t') r.
          got (address s.next_object, with_struct s cs' t') r)
  fields-Stepped t cs d =
      Related-then (Leaves (show_fields (of_flats ts)) t) (Stepped ts s t) (decode_flat_fields ts d)
        (decode_into_fields spare (of_flats ts) cs t d)
        (λ (cs', t'). (address s.next_object, with_struct s cs' t'))
        (decode_into_fields-of_flats spare ts cs t d)
        (λ fs (cs', t') (p, x). (cs', refl, ap (with_struct s cs') p, x))

  -- What the loop makes of one more element.
  grow :
      (t : Store) (h : Header) (k i : ℕ) (fs : Fields) (y : Cell × Store) (r : Bytes)
      → IsOwned s t h
      → ((j : ℕ) → j < h.len → t.arrays h.array j ≡ address s.next_object)
      → Stepped ts s t fs y
      → ((h' : Header) (t' : Store)
          → Holds ts s fs h' t'
          → Related (Grown ts s h' k) (Shared.decode_elements ts k (suc i) (some fs) r) (
              decode_elements spare
                (decode_into spare (pointer_to (of_flats ts)))
                k
                (suc i)
                (address s.next_object)
                h'
                t'
                r))
      → Related (Grown ts s h (suc k)) (Shared.decode_elements ts k (suc i) (some fs) r) (
          let (h', t') = append spare h y.0 y.1 in
          decode_elements spare
            (decode_into spare (pointer_to (of_flats ts)))
            k
            (suc i)
            y.0
            h'
            t'
            r)
  grow t h k i fs (c, t') r v x (cs, p, q, f) rest =
      rw (p, q)
        (let (h', t') = append spare h (address s.next_object) (with_struct s cs t) in
          let (g, n) = append-Holds spare ts s t h cs fs v x f in
          Related-weaken (Grown ts s h' k) (Grown ts s h (suc k))
            (Shared.decode_elements ts k (suc i) (some fs) r)
            (decode_elements spare (decode_into spare (pointer_to (of_flats ts))) k (suc i)
              (address s.next_object) h' t' r)
            (rest h' t' g) (Grown-suc ts s h h' k n))

  -- The pointer in the variable of the elements: nil for the first of them.
  decode_into-Stepped :
      (t : Store) (d : Bytes)
      → Related
          (Stepped ts s t)
          (decode_flat_fields ts d)
          (decode_into spare (pointer_to (of_flats ts)) (address s.next_object) t d)
  unfolding decode_into
  decode_into-Stepped t d = fields-Stepped t (cells_of (t.objects s.next_object)) d

  first_store : Store
  first_store = (point (struct (zero_cells (of_flats ts))) null s).1

  decode_into-first :
      (d : Bytes)
      → Related
          (Stepped ts s first_store)
          (decode_flat_fields ts d)
          (decode_into spare (pointer_to (of_flats ts)) null s d)
  unfolding decode_into first_store
  decode_into-first d = fields-Stepped first_store (cells_of (first_store.objects s.next_object)) d

  first_store-IsOwned : IsOwned s first_store nil_header
  unfolding first_store
  first_store-IsOwned = record {
    extends = record {
      objects_le = omega arith;
      objects = λ a l. ground (arith, l);
      arrays_le = omega arith;
      arrays = λ a i l. refl;
    };
    fits = omega arith;
    own = inl refl;
  }

  decode_elements-Holds :
      (k i : ℕ) (fs : Fields) (h : Header) (t : Store) (d : Bytes)
      → Holds ts s fs h t
      → Related (Grown ts s h k) (Shared.decode_elements ts k i (some fs) d) (
          decode_elements spare
            (decode_into spare (pointer_to (of_flats ts)))
            k
            i
            (address s.next_object)
            h
            t
            d)
  unfolding Shared.decode_elements decode_elements
  decode_elements-Holds zero i fs h t d v =
      Related-got (Grown ts s h 0) (some fs) (h, t) d (v, omega arith)
  decode_elements-Holds (suc k) i fs h t d v =
      Related->>= (Stepped ts s t) (Grown ts s h (suc k))
        (at_place (in_element i) (decode_flat_fields ts d))
        (at_place (in_element i)
          (decode_into spare (pointer_to (of_flats ts)) (address s.next_object) t d))
        (λ fs' r. Shared.decode_elements ts k (suc i) (some fs') r)
        (λ (c', t') r.
          let (h', t'') = append spare h c' t' in
          decode_elements spare (decode_into spare (pointer_to (of_flats ts))) k (suc i) c' h' t''
            r)
        (Related-at_place (Stepped ts s t) (in_element i) (decode_flat_fields ts d)
          (decode_into spare (pointer_to (of_flats ts)) (address s.next_object) t d)
          (decode_into-Stepped t d))
        (λ fs' r y q.
          grow t h k i fs' y r v.owned v.alike q
            (λ h' t' g. decode_elements-Holds k (suc i) fs' h' t' r g))

  pub decode_elements-first :
      (k : ℕ) (d : Bytes)
      → Related (Grown ts s nil_header (suc k)) (Shared.decode_elements ts (suc k) 0 none d) (
          decode_elements spare
            (decode_into spare (pointer_to (of_flats ts)))
            (suc k)
            0
            null
            nil_header
            s
            d)
  unfolding Shared.decode_elements decode_elements
  decode_elements-first k d =
      Related->>= (Stepped ts s first_store) (Grown ts s nil_header (suc k))
        (at_place (in_element 0) (decode_flat_fields ts d))
        (at_place (in_element 0) (decode_into spare (pointer_to (of_flats ts)) null s d))
        (λ fs r. Shared.decode_elements ts k 1 (some fs) r)
        (λ (c', t') r.
          let (h', t'') = append spare nil_header c' t' in
          decode_elements spare (decode_into spare (pointer_to (of_flats ts))) k 1 c' h' t'' r)
        (Related-at_place (Stepped ts s first_store) (in_element 0) (decode_flat_fields ts d)
          (decode_into spare (pointer_to (of_flats ts)) null s d) (decode_into-first d))
        (λ fs r y q.
          grow first_store nil_header k 0 fs y r first_store-IsOwned
            (λ j l. absurd (omega (arith, l))) q
            (λ h' t' g. decode_elements-Holds k 1 fs h' t' r g))
