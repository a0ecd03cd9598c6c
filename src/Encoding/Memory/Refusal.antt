-- ===== src/Encoding/Memory/Refusal.antt =====
-- pkg/encoding/encode.go returns an error for a value with a cycle of pointers.
use tcp_gateway.Prelude.{
  ℕ, zero, suc, ◌+◌, ◌<◌, ◌≡◌, ◌≢◌, refl, ap, subst, ◌∙◌, Bool, true, Bool-cases, Option-cases,
  ◌&&◌, ◌⊎◌, inl, inr, Option, none, some, List, [], length, arith, ltb,
}
use tcp_gateway.Bytes.{Bytes, put_le}
use tcp_gateway.Text.{Text}
use tcp_gateway.Encoding.{
  Encoded, wrote, failed, panics, EncodeError, in_type, in_field, in_element, is_seen, is_deep,
  is_lower, max_uint16, encode_string, encode_bytes, index_zero, bytes_too_long, array_too_long,
}
use tcp_gateway.Encoding.Memory.Cycles.{Every, Ends, marshal_object-unwritten}
use tcp_gateway.Encoding.Memory.{
  Object, word, string, bytes, int8, other, nil, reference, structure, slice, ObjectFields,
  no_fields, field, ObjectItems, no_items, item, load, wrap_result, then_result, array_result,
  count_objects, encode_object, encode_object_fields, encode_object_items, encode_pointed,
  follow_pointer, marshal_object,
}

-- The encoder has a case for what it looks at: fields that it does not pass over are exported, there
-- is no int8 and no type of its own, and pointers point into a memory of n objects.
module _ (exported : Text → Bool) (n : ℕ) where
  unfoldable mutual
    pub IsSupported : Object → Type 0
    IsSupported (reference a) = a < n
    IsSupported (structure fs) = AreSupported fs
    IsSupported (slice os) = AllSupported os
    IsSupported (word k x) = Unit
    IsSupported (string t) = Unit
    IsSupported (bytes b) = Unit
    IsSupported nil = Unit
    IsSupported (int8 x) = ⊥
    IsSupported other = ⊥

    pub AreSupported : ObjectFields → Type 0
    AreSupported no_fields = Unit
    AreSupported (field t o fs) =
        ((is_lower t ≡ true) ⊎ ((exported t ≡ true) × IsSupported o)) × AreSupported fs

    pub AllSupported : ObjectItems → Type 0
    AllSupported no_items = Unit
    AllSupported (item o os) = IsSupported o × AllSupported os

  -- What a pointer may point at: a struct or a slice.
  unfoldable pub IsTarget : Object → Type 0
  unfolding IsSupported
  IsTarget (structure fs) = AreSupported fs
  IsTarget (slice os) = AllSupported os
  IsTarget (bytes b) = Unit
  IsTarget _ = ⊥

-- No panic.
abbrev Calm : Option Encoded → Type 0
Calm none = Unit
Calm (some (wrote b)) = Unit
Calm (some (failed e)) = Unit
Calm (some panics) = ⊥

Calm-wrap_result :
    (f : EncodeError → EncodeError) (m : Option Encoded) → Calm m → Calm (wrap_result f m)
Calm-wrap_result f none h = tt
Calm-wrap_result f (some (wrote b)) h = tt
Calm-wrap_result f (some (failed e)) h = tt
Calm-wrap_result f (some panics) h = h

Calm-then_result : (m q : Option Encoded) → Calm m → Calm q → Calm (then_result m q)
Calm-then_result none q h k = tt
Calm-then_result (some (wrote b)) none h k = tt
Calm-then_result (some (wrote b)) (some (wrote c)) h k = tt
Calm-then_result (some (wrote b)) (some (failed e)) h k = tt
Calm-then_result (some (wrote b)) (some panics) h k = k
Calm-then_result (some (failed e)) q h k = tt
Calm-then_result (some panics) q h k = h

Calm-array_result : (n : ℕ) (m : Option Encoded) → Calm m → Calm (array_result n m)
Calm-array_result n m h = elim (Bool-cases (ltb max_uint16 n)) [
  | inl e ↦ rw e tt
  | inr e ↦ rw e (Calm-then_result (some (wrote (put_le 2 n))) m tt h)
]

Calm-encode_string : (t : Text) → Calm (some (encode_string t))
Calm-encode_string t = elim (Option-cases (index_zero t)) [
  | inl e ↦ rw (e, Calm) tt
  | inr (i, e) ↦ rw (e, Calm) tt
]

Calm-encode_bytes : (f : ℕ → EncodeError) (b : Bytes) → Calm (some (encode_bytes f b))
Calm-encode_bytes f b = elim (Bool-cases (ltb max_uint16 (length b))) [
  | inl e ↦ rw e tt
  | inr e ↦ rw e tt
]

module _ (exported : Text → Bool) (n : ℕ) (follow : ℕ → Option Encoded)
    (ok : (a : ℕ) → a < n → Calm (follow a)) where
  mutual
    unfolding encode_object IsSupported

    encode_object-Calm :
        (o : Object) → IsSupported exported n o → Calm (encode_object exported follow o)
    encode_object-Calm (word k x) h = tt
    encode_object-Calm (string t) h = Calm-encode_string t
    encode_object-Calm (bytes b) h = Calm-encode_bytes bytes_too_long b
    encode_object-Calm (int8 x) h = h
    encode_object-Calm other h = h
    encode_object-Calm nil h = tt
    encode_object-Calm (reference a) h = ok a h
    encode_object-Calm (structure fs) h = Calm-wrap_result in_type _ (fields-Calm fs h)
    encode_object-Calm (slice os) h =
        Calm-wrap_result in_type _ (Calm-array_result (count_objects os) _ (items-Calm zero os h))

    fields-Calm :
        (fs : ObjectFields)
        → AreSupported exported n fs
        → Calm (encode_object_fields exported follow fs)
    fields-Calm no_fields h = tt
    fields-Calm (field t o fs) (h, hs) = elim (Bool-cases (is_lower t)) [
      | inl e ↦ rw e (fields-Calm fs hs)
      | inr e ↦ elim h [
        | inl l ↦ absurd (ground (arith, e, l))
        | inr (x, u) ↦
            rw (e, x)
              (Calm-then_result _ _ (Calm-wrap_result (in_field t) _ (encode_object-Calm o u))
                (fields-Calm fs hs))
      ]
    ]

    items-Calm :
        (i : ℕ) (os : ObjectItems)
        → AllSupported exported n os
        → Calm (encode_object_items exported follow i os)
    items-Calm i no_items h = tt
    items-Calm i (item o os) (h, hs) =
        Calm-then_result _ _ (Calm-wrap_result (in_element i) _ (encode_object-Calm o h))
          (items-Calm (suc i) os hs)

  encode_pointed-Calm :
      (o : Object) → IsTarget exported n o → Calm (encode_pointed exported follow o)
  unfolding encode_pointed IsTarget encode_object IsSupported
  encode_pointed-Calm (structure fs) h = Calm-wrap_result in_type _ (fields-Calm fs h)
  encode_pointed-Calm (slice os) h =
      Calm-wrap_result in_type _ (Calm-array_result (count_objects os) _ (items-Calm zero os h))
  encode_pointed-Calm (bytes b) h =
      Calm-wrap_result in_type (some (encode_bytes array_too_long b))
        (Calm-encode_bytes array_too_long b)
  encode_pointed-Calm (word k x) h = absurd h
  encode_pointed-Calm (string t) h = absurd h
  encode_pointed-Calm (int8 x) h = absurd h
  encode_pointed-Calm other h = absurd h
  encode_pointed-Calm nil h = absurd h
  encode_pointed-Calm (reference a) h = absurd h

module _ (exported : Text → Bool) (memory : List Object)
    (targets : (a : ℕ)
      → a < length memory
      → IsTarget exported (length memory) (load memory a)) where
  follow_pointer-Calm :
      (fuel l : ℕ) (s : List ℕ) (a : ℕ)
      → a < length memory
      → Calm (follow_pointer exported memory fuel l s a)
  unfolding follow_pointer
  follow_pointer-Calm zero l s a k = tt
  follow_pointer-Calm (suc fuel) l s a k = elim (Bool-cases (is_deep (suc l) && is_seen a s)) [
    | inl e ↦ rw e tt
    | inr e ↦ rw e (
        encode_pointed-Calm exported (length memory) _ (follow_pointer-Calm fuel (suc l) _)
          (load memory a) (targets a k))
  ]

  refused :
      (r : Encoded)
      → Calm (some r)
      → ((b : Bytes) → r ≢ wrote b)
      → (e : EncodeError) × (r ≡ failed e)
  refused (wrote b) c h = absurd (h b refl)
  refused (failed e) c h = (e, refl)
  refused panics c h = absurd c

  -- A value from which pointers can be followed without an end, through fields that are encoded, is
  -- refused: with enough fuel Marshal returns an error for it. Here the encoder has a case for all
  -- that it meets in the value and in the memory, so that no panic comes before.
  pub marshal_object-refused :
      (o : Object) (fuel : ℕ)
      → IsSupported exported (length memory) o
      → 100 + length memory < fuel
      → ((depth : ℕ) → Every (Ends memory depth) o → ⊥)
      → (e : EncodeError) × (marshal_object exported memory fuel o ≡ some (failed e))
  unfolding marshal_object
  marshal_object-refused o fuel u h cycle =
      let (r, e, unwritten) = marshal_object-unwritten exported memory o fuel h cycle in
      let calm =
        encode_object-Calm exported (length memory) (follow_pointer exported memory fuel zero [])
          (follow_pointer-Calm fuel zero []) o u in
      let (x, q) = refused r (subst Calm e calm) unwritten in (x, e ∙ ap some q)
