-- ===== src/Encoding/Wire.antt =====
-- The bytes of pkg/encoding/encode.go described without pointers, levels and errors.
use tcp_gateway.Prelude.{
  Bool, ◌&&◌, suc, ◌≡◌, refl, ap, ap₂, ◌∙◌, ◌++◌, [], ◌∷◌, arith, length, Bool-cases, Option-cases,
  inl, inr, if◌then◌else◌, ltb,
}
use tcp_gateway.Bytes.{Bytes, put_le}
use tcp_gateway.Text.{Text}
use tcp_gateway.Encoding.{
  Value, Fields, Items, EncodeError, Encoded, wrote, failed, panics, wrap, and_then, encode,
  encode_target, encode_struct, encode_items, encode_array, encode_word, encode_string,
  encode_bytes, index_zero, count, max_uint16, is_lower, is_deep, is_seen, marshal, word, string,
  bytes, int8, other, nil, pointer, structure, slice, no_fields, field, no_items, item, in_field,
  in_type, bytes_too_long, array_too_long,
}

unfoldable mutual
  -- A number has its width, a text ends with a zero, and a length of two bytes stands in front of
  -- what is repeated; the fields follow one another, and a pointer adds nothing.
  pub wire : Value → Bytes
  wire (word k n) = encode_word k n
  wire (string t) = t ++ 0 ∷ []
  wire (bytes b) = put_le 2 (length b) ++ b
  wire (int8 n) = []
  wire other = []
  wire nil = []
  wire (pointer a v) = wire v
  wire (structure fs) = wire_fields fs
  wire (slice vs) = put_le 2 (count vs) ++ wire_items vs

  pub wire_fields : Fields → Bytes
  wire_fields no_fields = []
  wire_fields (field n v fs) = if is_lower n then wire_fields fs else wire v ++ wire_fields fs

  pub wire_items : Items → Bytes
  wire_items no_items = []
  wire_items (item v vs) = wire v ++ wire_items vs

wrap-wrote :
    (f : EncodeError → EncodeError) (r : Encoded) (b : Bytes) → wrap f r ≡ wrote b → r ≡ wrote b
wrap-wrote f (wrote c) b h = h
wrap-wrote f (failed e) b h = ground arith
wrap-wrote f panics b h = ground arith

and_then-wrote :
    (r q : Encoded) (b : Bytes)
    → and_then r q ≡ wrote b
    → (c d : Bytes) × (r ≡ wrote c) × (q ≡ wrote d) × (b ≡ c ++ d)
and_then-wrote (wrote c) (wrote d) b h = (c, d, refl, refl, ground arith)
and_then-wrote (wrote c) (failed e) b h = ground arith
and_then-wrote (wrote c) panics b h = ground arith
and_then-wrote (failed e) q b h = ground arith
and_then-wrote panics q b h = ground arith

encode_string-wrote : (t : Text) (b : Bytes) → encode_string t ≡ wrote b → b ≡ t ++ 0 ∷ []
encode_string-wrote t b h = elim (Option-cases (index_zero t)) [
  | inl e ↦ ground arith
  | inr (i, e) ↦ ground arith
]

encode_bytes-wrote :
    (f : _ → EncodeError) (d b : Bytes) → encode_bytes f d ≡ wrote b → b ≡ put_le 2 (length d) ++ d
encode_bytes-wrote f d b h = elim (Bool-cases (ltb max_uint16 (length d))) [
  | inl e ↦ ground arith
  | inr e ↦ ground arith
]

encode_array-wrote :
    (n : _) (r : Encoded) (b : Bytes)
    → encode_array n r ≡ wrote b
    → (c : Bytes) × (r ≡ wrote c) × (b ≡ put_le 2 n ++ c)
encode_array-wrote n r b h = elim (Bool-cases (ltb max_uint16 n)) [
  | inl e ↦ ground arith
  | inr e ↦
      let (p, c, ep, ec, eb) = and_then-wrote (wrote (put_le 2 n)) r b (ground arith) in
      (c, ec, ground arith)
]

mutual
  unfolding encode wire

  encode-wire :
      (exported : Text → Bool) (l : _) (s : _) (v : Value) (b : Bytes)
      → encode exported l s v ≡ wrote b
      → b ≡ wire v
  encode-wire x l s (word k n) b h = ground arith
  encode-wire x l s (string t) b h = encode_string-wrote t b h
  encode-wire x l s (bytes d) b h = encode_bytes-wrote bytes_too_long d b h
  encode-wire x l s (int8 n) b h = ground arith
  encode-wire x l s other b h = ground arith
  encode-wire x l s nil b h = ground arith
  encode-wire x l s (pointer a v) b h = elim (Bool-cases (is_deep (suc l) && is_seen a s)) [
    | inl e ↦ ground arith
    | inr e ↦ target-wire x (suc l) (if is_deep (suc l) then a ∷ s else s) v b (ground arith)
  ]
  encode-wire x l s (structure fs) b h = struct-wire x l s fs b (wrap-wrote _ _ b h)
  encode-wire x l s (slice vs) b h =
      let (c, ec, eb) = encode_array-wrote _ _ b (wrap-wrote _ _ b h) in
      eb ∙ ap (◌++◌ (put_le 2 (count vs))) (items-wire x l s 0 vs c ec)

  target-wire :
      (exported : Text → Bool) (l : _) (s : _) (v : Value) (b : Bytes)
      → encode_target exported l s v ≡ wrote b
      → b ≡ wire v
  target-wire x l s (structure fs) b h = struct-wire x l s fs b (wrap-wrote _ _ b h)
  target-wire x l s (slice vs) b h =
      let (c, ec, eb) = encode_array-wrote _ _ b (wrap-wrote _ _ b h) in
      eb ∙ ap (◌++◌ (put_le 2 (count vs))) (items-wire x l s 0 vs c ec)
  target-wire x l s (bytes d) b h = encode_bytes-wrote array_too_long d b (wrap-wrote in_type _ b h)
  target-wire x l s (word k n) b h = ground arith
  target-wire x l s (string t) b h = ground arith
  target-wire x l s (int8 n) b h = ground arith
  target-wire x l s other b h = ground arith
  target-wire x l s nil b h = ground arith
  target-wire x l s (pointer a v) b h = ground arith

  struct-wire :
      (exported : Text → Bool) (l : _) (s : _) (fs : Fields) (b : Bytes)
      → encode_struct exported l s fs ≡ wrote b
      → b ≡ wire_fields fs
  struct-wire x l s no_fields b h = ground arith
  struct-wire x l s (field n v fs) b h = elim (Bool-cases (is_lower n)) [
    | inl e ↦ rw e (struct-wire x l s fs b (ground arith))
    | inr e ↦
        let (c, d, ec, ed, eb) =
          and_then-wrote (wrap (in_field n) (encode x l s v)) (encode_struct x l s fs) b
            (ground arith) in
        rw e
          (eb ∙ ap₂ ◌++◌ (encode-wire x l s v c (wrap-wrote _ _ c ec)) (struct-wire x l s fs d ed))
  ]

  items-wire :
      (exported : Text → Bool) (l : _) (s : _) (i : _) (vs : Items) (b : Bytes)
      → encode_items exported l s i vs ≡ wrote b
      → b ≡ wire_items vs
  items-wire x l s i no_items b h = ground arith
  items-wire x l s i (item v vs) b h =
      let (c, d, ec, ed, eb) = and_then-wrote _ _ b h in
      eb ∙ ap₂ ◌++◌ (encode-wire x l s v c (wrap-wrote _ _ c ec)) (items-wire x l s (suc i) vs d ed)

-- If Marshal returns bytes, they are the layout of the value: pointers, levels and addresses do not
-- show in them.
pub marshal-wire :
    (exported : Text → Bool) (v : Value) (b : Bytes) → marshal exported v ≡ wrote b → b ≡ wire v
unfolding marshal
marshal-wire exported v b h = encode-wire exported 0 [] v b h
