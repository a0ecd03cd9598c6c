-- ===== src/Encoding/Total.antt =====
-- Which values the encoder of pkg/encoding/encode.go takes.
use tcp_gateway.Prelude.{
  Bool, ℕ, ◌≤◌, List, suc, if◌then◌else◌, ◌≡◌, refl, ap, ◌++◌, [], ◌∷◌, arith, length, Bool-cases,
  inl, inr, true, ◌⊎◌, none,
}
use tcp_gateway.Bytes.{Bytes, put_le}
use tcp_gateway.Text.{Text}
use tcp_gateway.Encoding.{
  Value, Fields, Items, EncodeError, Encoded, wrote, wrap, encode, encode_target, encode_struct,
  encode_items, encode_array, encode_bytes, index_zero, count, is_lower, is_deep, marshal, word,
  string, bytes, int8, other, nil, pointer, structure, slice, no_fields, field, no_items, item,
  in_type, array_too_long, bytes_too_long,
}
use tcp_gateway.Encoding.Wire.{wire, wire_fields, wire_items}

module _ (exported : Text → Bool) where
  -- Texts without a zero, lengths of at most 65535, no nil, structs, slices and []byte alone behind
  -- pointers, at most 100 pointers on a path from level l, and every field exported or passed over.
  unfoldable mutual
    pub Encodable : ℕ → Value → Type 0
    Encodable l (word k n) = Unit
    Encodable l (string t) = index_zero t ≡ none
    Encodable l (bytes b) = length b ≤ 65535
    Encodable l (int8 n) = ⊥
    Encodable l other = ⊥
    Encodable l nil = ⊥
    Encodable l (pointer a v) = (l ≤ 99) × EncodableTarget (suc l) v
    Encodable l (structure fs) = EncodableFields l fs
    Encodable l (slice vs) = (count vs ≤ 65535) × EncodableItems l vs

    pub EncodableTarget : ℕ → Value → Type 0
    EncodableTarget l (structure fs) = EncodableFields l fs
    EncodableTarget l (slice vs) = (count vs ≤ 65535) × EncodableItems l vs
    EncodableTarget l (bytes b) = length b ≤ 65535
    EncodableTarget l (word k n) = ⊥
    EncodableTarget l (string t) = ⊥
    EncodableTarget l (int8 n) = ⊥
    EncodableTarget l other = ⊥
    EncodableTarget l nil = ⊥
    EncodableTarget l (pointer a v) = ⊥

    pub EncodableFields : ℕ → Fields → Type 0
    EncodableFields l no_fields = Unit
    EncodableFields l (field n v fs) =
        ((is_lower n ≡ true) ⊎ ((exported n ≡ true) × Encodable l v)) × EncodableFields l fs

    pub EncodableItems : ℕ → Items → Type 0
    EncodableItems l no_items = Unit
    EncodableItems l (item v vs) = Encodable l v × EncodableItems l vs

  encode_bytes-wrote :
      (f : ℕ → EncodeError) (b : Bytes)
      → length b ≤ 65535
      → encode_bytes f b ≡ wrote (put_le 2 (length b) ++ b)
  encode_bytes-wrote f b h = ground arith

  encode_array-wrote :
      (n : ℕ) (r : Encoded) (b : Bytes)
      → n ≤ 65535
      → r ≡ wrote b
      → encode_array n r ≡ wrote (put_le 2 n ++ b)
  encode_array-wrote n r b h e = rw e (ground arith)

  mutual
    unfolding encode Encodable wire

    encode-Encodable :
        (l : ℕ) (s : List ℕ) (v : Value) → Encodable l v → encode exported l s v ≡ wrote (wire v)
    encode-Encodable l s (word k n) h = refl
    encode-Encodable l s (string t) h = ground arith
    encode-Encodable l s (bytes b) h = encode_bytes-wrote bytes_too_long b h
    encode-Encodable l s (int8 n) h = elim h [ ]
    encode-Encodable l s other h = elim h [ ]
    encode-Encodable l s nil h = elim h [ ]
    encode-Encodable l s (pointer a v) h =
        let e = target-Encodable (suc l) (if is_deep (suc l) then a ∷ s else s) v h.1 in
        ground (arith, h.0)
    encode-Encodable l s (structure fs) h = ap (wrap in_type) (struct-Encodable l s fs h)
    encode-Encodable l s (slice vs) h =
        ap (wrap in_type) (encode_array-wrote (count vs) _ _ h.0 (items-Encodable l s 0 vs h.1))

    target-Encodable :
        (l : ℕ) (s : List ℕ) (v : Value)
        → EncodableTarget l v
        → encode_target exported l s v ≡ wrote (wire v)
    target-Encodable l s (structure fs) h = ap (wrap in_type) (struct-Encodable l s fs h)
    target-Encodable l s (slice vs) h =
        ap (wrap in_type) (encode_array-wrote (count vs) _ _ h.0 (items-Encodable l s 0 vs h.1))
    target-Encodable l s (bytes b) h = ap (wrap in_type) (encode_bytes-wrote array_too_long b h)
    target-Encodable l s (word k n) h = elim h [ ]
    target-Encodable l s (string t) h = elim h [ ]
    target-Encodable l s (int8 n) h = elim h [ ]
    target-Encodable l s other h = elim h [ ]
    target-Encodable l s nil h = elim h [ ]
    target-Encodable l s (pointer a v) h = elim h [ ]

    struct-Encodable :
        (l : ℕ) (s : List ℕ) (fs : Fields)
        → EncodableFields l fs
        → encode_struct exported l s fs ≡ wrote (wire_fields fs)
    struct-Encodable l s no_fields h = refl
    struct-Encodable l s (field n v fs) (inl e, h) = rw e (struct-Encodable l s fs h)
    struct-Encodable l s (field n v fs) (inr (e, hv), h) = elim (Bool-cases (is_lower n)) [
      | inl e' ↦ rw e' (struct-Encodable l s fs h)
      | inr e' ↦ rw (e', e, encode-Encodable l s v hv, struct-Encodable l s fs h) refl
    ]

    items-Encodable :
        (l : ℕ) (s : List ℕ) (i : ℕ) (vs : Items)
        → EncodableItems l vs
        → encode_items exported l s i vs ≡ wrote (wire_items vs)
    items-Encodable l s i no_items h = refl
    items-Encodable l s i (item v vs) h =
        rw (encode-Encodable l s v h.0, items-Encodable l s (suc i) vs h.1) refl

  -- Marshal returns the layout of every value whose texts hold no zero, whose lengths are 65535 at
  -- most, that has no nil and at most 100 pointers on a path, each to a struct or a slice, and whose
  -- fields are exported or passed over.
  pub marshal-Encodable : (v : Value) → Encodable 0 v → marshal exported v ≡ wrote (wire v)
  unfolding marshal
  marshal-Encodable v h = encode-Encodable 0 [] v h
