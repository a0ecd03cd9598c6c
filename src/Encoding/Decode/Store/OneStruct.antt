-- ===== src/Encoding/Decode/Store/OneStruct.antt =====
-- A slice of pointers that all are one pointer, to a struct with flat fields, and append on it.
use tcp_gateway.Prelude.{
  ℕ, suc, ◌+◌, ◌<◌, ◌≡◌, refl, ◌∙◌, arith, inl, inr, Bool-cases, ltb, Option, none, some,
}
use tcp_gateway.Encoding.{Fields}
use tcp_gateway.Encoding.Decode.{FlatFields}
use tcp_gateway.Encoding.Decode.Heap.{
  Cell, Cells, struct, address, Header, Store, append, write_object, cells_of,
}
use tcp_gateway.Encoding.Decode.Store.{show_fields}
use tcp_gateway.Encoding.Decode.Store.Frame.{IsOwned, append-Appended}
use tcp_gateway.Encoding.Decode.Store.Flat.{of_flats}

-- A store with the one struct.
abbrev pub with_struct : Store → Cells → Store → Store
with_struct s cs t = write_object s.next_object (struct cs) t

-- Every element of the slice is the pointer to the first new variable, which shows the fields.
pub record Holds (ts : FlatFields) (s : Store) (fs : Fields) (h : Header) (t : Store) : Type 0 where
  pub owned : IsOwned s t h
  pub shared : (u : Store) → show_fields (of_flats ts) u (cells_of (t.objects s.next_object)) ≡ fs
  pub alike : (j : ℕ) → j < h.len → t.arrays h.array j ≡ address s.next_object

append-objects :
    (spare : ℕ → ℕ) (h : Header) (c : Cell) (t : Store) (a : ℕ)
    → (append spare h c t).1.objects a ≡ t.objects a
unfolding append
append-objects spare h c t a = elim (Bool-cases (ltb h.len h.cap)) [
  | inl e ↦ rw e refl
  | inr e ↦ rw e refl
]

with_struct-IsOwned :
    (s t : Store) (h : Header) (cs : Cells) → IsOwned s t h → IsOwned s (with_struct s cs t) h
with_struct-IsOwned s t h cs v = record {
  extends = record {
    objects_le = v.extends.objects_le;
    objects = λ a l. ground (arith, l, v.extends.objects a l);
    arrays_le = v.extends.arrays_le;
    arrays = v.extends.arrays;
  };
  fits = v.fits;
  own = v.own;
}

-- An element is decoded into the one struct, and appended.
pub append-Holds :
    (spare : ℕ → ℕ) (ts : FlatFields) (s t : Store) (h : Header) (cs : Cells) (fs : Fields)
    → IsOwned s t h
    → ((j : ℕ) → j < h.len → t.arrays h.array j ≡ address s.next_object)
    → ((u : Store) → show_fields (of_flats ts) u cs ≡ fs)
    → let (h', t') = append spare h (address s.next_object) (with_struct s cs t) in
      Holds ts s fs h' t' × (h'.len ≡ h.len + 1)
append-Holds spare ts s t h cs fs v x f =
    let c = address s.next_object in
    let w = with_struct s cs t in
    let a = append-Appended spare s w h c (with_struct-IsOwned s t h cs v) in
    let (h', t') = append spare h c w in
    let e : t'.objects s.next_object ≡ struct cs =
      append-objects spare h c w s.next_object ∙ ground arith in
    (
      record {
        owned = a.owned;
        shared = λ u. rw e (f u);
        alike = λ j l. elim (Bool-cases (ltb j h.len)) [
          | inl k ↦ a.others j (ground (arith, k)) ∙ x j (ground (arith, k))
          | inr k ↦ let q : j ≡ h.len = ground (arith, k, l, a.longer) in rw q a.last
        ];
      },
      a.longer,
    )

-- One struct has been decoded.
abbrev pub Stepped : FlatFields → Store → Store → Fields → Cell × Store → Type 0
Stepped ts s t fs (c, t') =
    (cs : Cells) × (c ≡ address s.next_object)
    × (t' ≡ with_struct s cs t)
    × ((u : Store) → show_fields (of_flats ts) u cs ≡ fs)

-- k more elements have been appended.
abbrev pub Grown : FlatFields → Store → Header → ℕ → Option Fields → Header × Store → Type 0
Grown ts s h k none (h', t') = ⊥
Grown ts s h k (some fs) (h', t') = Holds ts s fs h' t' × (h'.len ≡ h.len + k)

pub Grown-suc :
    (ts : FlatFields) (s : Store) (h h' : Header) (k : ℕ)
    → h'.len ≡ h.len + 1
    → (target : Option Fields) (y : Header × Store) → Grown ts s h' k target y
    → Grown ts s h (suc k) target y
Grown-suc ts s h h' k e none y g = absurd g
Grown-suc ts s h h' k e (some fs) y (g, n) = (g, omega (arith, e, n))
