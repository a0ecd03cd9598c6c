-- ===== src/Encoding/Checked.antt =====
-- The check of pkg/encoding/types.go against the encoder: which values of a registered type the
-- encoder takes without the panic "Unknown type".
use tcp_gateway.Prelude.{
  Bool, ℕ, List, suc, ◌&&◌, ltb, if◌then◌else◌, ◌≡◌, refl, [], ◌∷◌, arith, length, Bool-cases,
  Option-cases, Option, some, inl, inr, true, false, ◌⊎◌, none,
}
use tcp_gateway.Bytes.{Bytes, put_le}
use tcp_gateway.Text.{Text}
use tcp_gateway.Encoding.{
  byte, Value, Fields, Items, EncodeError, Encoded, wrote, failed, panics, wrap, and_then, encode,
  encode_target, encode_struct, encode_items, encode_array, encode_string, encode_bytes, index_zero,
  count, max_uint16, is_lower, is_deep, is_seen, marshal, word, string, bytes, int8, other, nil,
  pointer, structure, slice, no_fields, field, no_items, item, in_field, in_type, in_element,
  array_too_long, bytes_too_long,
}
use tcp_gateway.Encoding.Types.{
  GoType, FieldTypes, TypeError, cannot_use, pointer_to_no_struct, word_type, string_type,
  int8_type, named_type, other_type, pointer_type, slice_type, struct_type, no_field_types,
  field_type, check_inner, check_target, check_fields, check_register_type,
  check_register_type-none, first_error, wrap_type, in_pointer, in_slice, in_field_type,
}

-- The value has the type.
unfoldable mutual
  pub HasType : Value → GoType → Type 0
  HasType (word k n) t = t ≡ word_type k
  HasType (string s) t = t ≡ string_type
  HasType (bytes b) t = t ≡ slice_type (word_type byte)
  HasType (int8 n) t = t ≡ int8_type
  HasType other t = (t ≡ other_type) ⊎ (t ≡ named_type)
  HasType nil t = (u : GoType) × (t ≡ pointer_type u)
  HasType (pointer a v) t = (u : GoType) × (t ≡ pointer_type u) × HasType v u
  HasType (structure fs) t = (u : FieldTypes) × (t ≡ struct_type u) × HaveTypes fs u
  HasType (slice vs) t = (u : GoType) × (t ≡ slice_type u) × AllHaveType vs u

  pub HaveTypes : Fields → FieldTypes → Type 0
  HaveTypes no_fields us = us ≡ no_field_types
  HaveTypes (field n v fs) us =
      (u : GoType) × (ws : FieldTypes) × (us ≡ field_type n u ws) × HasType v u × HaveTypes fs ws

  pub AllHaveType : Items → GoType → Type 0
  AllHaveType no_items u = Unit
  AllHaveType (item v vs) u = HasType v u × AllHaveType vs u

abbrev pub Returns : Encoded → Type 0
Returns (wrote b) = Unit
Returns (failed e) = Unit
Returns panics = ⊥

Returns-wrap : (f : EncodeError → EncodeError) (r : Encoded) → Returns r → Returns (wrap f r)
Returns-wrap f (wrote b) h = tt
Returns-wrap f (failed e) h = tt
Returns-wrap f panics h = elim h [ ]

Returns-and_then : (r q : Encoded) → Returns r → Returns q → Returns (and_then r q)
Returns-and_then (wrote b) (wrote c) h k = tt
Returns-and_then (wrote b) (failed e) h k = tt
Returns-and_then (wrote b) panics h k = elim k [ ]
Returns-and_then (failed e) q h k = tt
Returns-and_then panics q h k = elim h [ ]

Returns-encode_bytes : (f : ℕ → EncodeError) (b : Bytes) → Returns (encode_bytes f b)
Returns-encode_bytes f b = elim (Bool-cases (ltb max_uint16 (length b))) [
  | inl e ↦ rw e tt
  | inr e ↦ rw e tt
]

Returns-encode_array : (n : ℕ) (r : Encoded) → Returns r → Returns (encode_array n r)
Returns-encode_array n r h = elim (Bool-cases (ltb max_uint16 n)) [
  | inl e ↦ rw e tt
  | inr e ↦ rw e (Returns-and_then (wrote (put_le 2 n)) r tt h)
]

Returns-encode_string : (t : Text) → Returns (encode_string t)
Returns-encode_string t = elim (Option-cases (index_zero t)) [
  | inl e ↦ rw (e, Returns) tt
  | inr (i, e) ↦ rw (e, Returns) tt
]

absurd : (e : TypeError) → some e ≡ none → ⊥
absurd e h = ground arith

first_error-none : (a b : Option TypeError) → first_error a b ≡ none → (a ≡ none) × (b ≡ none)
first_error-none none b h = (refl, h)
first_error-none (some e) b h = ground arith

wrap_type-none :
    (f : TypeError → TypeError) (a : Option TypeError) → wrap_type f a ≡ none → a ≡ none
wrap_type-none f none h = refl
wrap_type-none f (some e) h = ground arith

field_skipped :
    (n : Text) (t : GoType) (us : FieldTypes)
    → is_lower n ≡ true
    → check_fields (field_type n t us) ≡ none
    → check_fields us ≡ none
unfolding check_inner
field_skipped n t us q c = rw q at c

field_checked :
    (n : Text) (t : GoType) (us : FieldTypes)
    → is_lower n ≡ false
    → check_fields (field_type n t us) ≡ none
    → (check_inner t ≡ none) × (check_fields us ≡ none)
unfolding check_inner
field_checked n t us q c =
    let (a, b) = first_error-none _ (check_fields us) (rw q at c) in
    (wrap_type-none (in_field_type n) (check_inner t) a, b)

field_used :
    (lower exp : Bool) (U : Type 0)
    → lower ≡ false
    → (lower ≡ true) ⊎ ((exp ≡ true) × U)
    → (exp ≡ true) × U
field_used lower exp U q (inl e) = ground arith
field_used lower exp U q (inr h) = h

module _ (exported : Text → Bool) where
  -- What the check does not see: no int8, no named type with a basic type below, and every field that is not
  -- passed over is exported.
  unfoldable mutual
    pub Usable : GoType → Type 0
    Usable (word_type k) = Unit
    Usable string_type = Unit
    Usable int8_type = ⊥
    Usable named_type = ⊥
    Usable other_type = Unit
    Usable (pointer_type t) = Usable t
    Usable (slice_type t) = Usable t
    Usable (struct_type us) = UsableFields us

    pub UsableFields : FieldTypes → Type 0
    UsableFields no_field_types = Unit
    UsableFields (field_type n t us) =
        ((is_lower n ≡ true) ⊎ ((exported n ≡ true) × Usable t)) × UsableFields us

  mutual
    unfolding encode HasType check_inner Usable

    encode-Returns :
        (l : ℕ) (s : List ℕ) (v : Value) (t : GoType)
        → HasType v t
        → check_inner t ≡ none
        → Usable t
        → Returns (encode exported l s v)
    encode-Returns l s (word k n) t h c u = tt
    encode-Returns l s (string b) t h c u = Returns-encode_string b
    encode-Returns l s (bytes b) t h c u = Returns-encode_bytes bytes_too_long b
    encode-Returns l s (int8 n) t h c u = elim (rw h at u) [ ]
    encode-Returns l s other t (inl h) c u = absurd cannot_use (rw h at c)
    encode-Returns l s other t (inr h) c u = elim (rw h at u) [ ]
    encode-Returns l s nil t h c u = tt
    encode-Returns l s (pointer a v) t (w, e, h) c u =
        elim (Bool-cases (is_deep (suc l) && is_seen a s)) [
          | inl q ↦ rw q tt
          | inr q ↦ rw q (
              target-Returns (suc l) (if is_deep (suc l) then a ∷ s else s) v w h (rw e at c)
                (rw e at u))
        ]
    encode-Returns l s (structure fs) t (w, e, h) c u =
        Returns-wrap in_type (encode_struct exported l s fs)
          (struct-Returns l s fs w h (rw e at c) (rw e at u))
    encode-Returns l s (slice vs) t (w, e, h) c u = Returns-wrap in_type _ (
        Returns-encode_array (count vs) _ (
          items-Returns l s 0 vs w h (wrap_type-none in_slice (check_inner w) (rw e at c))
            (rw e at u)))

    target-Returns :
        (l : ℕ) (s : List ℕ) (v : Value) (t : GoType)
        → HasType v t
        → check_target t ≡ none
        → Usable t
        → Returns (encode_target exported l s v)
    target-Returns l s (structure fs) t (w, e, h) c u =
        Returns-wrap in_type (encode_struct exported l s fs) (
          struct-Returns l s fs w h (wrap_type-none in_pointer (check_fields w) (rw e at c))
            (rw e at u))
    target-Returns l s (slice vs) t (w, e, h) c u =
        elim (absurd pointer_to_no_struct (rw e at c)) [ ]
    target-Returns l s (bytes b) t h c u =
        Returns-wrap in_type _ (Returns-encode_bytes array_too_long b)
    target-Returns l s (word k n) t h c u = absurd pointer_to_no_struct (rw h at c)
    target-Returns l s (string b) t h c u = absurd pointer_to_no_struct (rw h at c)
    target-Returns l s (int8 n) t h c u = absurd pointer_to_no_struct (rw h at c)
    target-Returns l s other t (inl h) c u = absurd pointer_to_no_struct (rw h at c)
    target-Returns l s other t (inr h) c u = absurd pointer_to_no_struct (rw h at c)
    target-Returns l s nil t (w, e) c u = absurd pointer_to_no_struct (rw e at c)
    target-Returns l s (pointer a v) t (w, e, h) c u = absurd pointer_to_no_struct (rw e at c)

    struct-Returns :
        (l : ℕ) (s : List ℕ) (fs : Fields) (us : FieldTypes)
        → HaveTypes fs us
        → check_fields us ≡ none
        → UsableFields us
        → Returns (encode_struct exported l s fs)
    struct-Returns l s no_fields us h c u = tt
    struct-Returns l s (field n v fs) us (t, ws, e, ht, h) c u = elim (Bool-cases (is_lower n)) [
      | inl q ↦ rw q (struct-Returns l s fs ws h (field_skipped n t ws q (rw e at c)) (rw e at u).1)
      | inr q ↦
          let (ex, ut) = field_used (is_lower n) (exported n) (Usable t) q (rw e at u).0 in
          let (c0, c1) = field_checked n t ws q (rw e at c) in
          rw (q, ex)
            (Returns-and_then _ _ (Returns-wrap (in_field n) _ (encode-Returns l s v t ht c0 ut))
              (struct-Returns l s fs ws h c1 (rw e at u).1))
    ]

    items-Returns :
        (l : ℕ) (s : List ℕ) (i : ℕ) (vs : Items) (t : GoType)
        → AllHaveType vs t
        → check_inner t ≡ none
        → Usable t
        → Returns (encode_items exported l s i vs)
    items-Returns l s i no_items t h c u = tt
    items-Returns l s i (item v vs) t h c u =
        Returns-and_then _ _ (Returns-wrap (in_element i) _ (encode-Returns l s v t h.0 c u))
          (items-Returns l s (suc i) vs t h.1 c u)

  -- For a value of a type that CheckRegisterType accepts, Marshal returns bytes or an error and does
  -- not panic, if the type has no int8, no named type with a basic type below it, and every field that
  -- is not passed over is exported.
  pub marshal-Returns :
      (v : Value) (t : GoType)
      → HasType v t
      → check_register_type t ≡ none
      → Usable t
      → Returns (marshal exported v)
  unfolding marshal
  marshal-Returns v t h c u = encode-Returns 0 [] v t h (check_register_type-none t c) u
