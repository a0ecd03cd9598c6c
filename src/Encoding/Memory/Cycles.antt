-- ===== src/Encoding/Memory/Cycles.antt =====
-- pkg/encoding/encode.go writes no value from which a cycle of pointers can be reached.
use tcp_gateway.Prelude.{
  ℕ, zero, suc, ◌+◌, ◌<◌, ◌≡◌, ◌≢◌, refl, ap, ◌∙◌, Bool, true, Bool-cases, ◌&&◌, ◌⊎◌, inl, inr,
  Option, none, some, List, [], length, arith, ltb,
}
use tcp_gateway.Bytes.{Bytes, put_le}
use tcp_gateway.Text.{Text}
use tcp_gateway.Encoding.{
  Encoded, wrote, failed, panics, EncodeError, is_seen, is_deep, is_lower, max_uint16,
}
use tcp_gateway.Encoding.Memory.Termination.{marshal_object-IsTotal}
use tcp_gateway.Encoding.Memory.{
  Object, word, string, bytes, int8, other, nil, reference, structure, slice, ObjectFields,
  no_fields, field, ObjectItems, no_items, item, load, wrap_result, then_result, array_result,
  count_objects, encode_object, encode_object_fields, encode_object_items, encode_pointed,
  follow_pointer, marshal_object,
}

-- Every pointer in the object that the encoder looks at has the property.
module _ (P : ℕ → Type 0) where
  unfoldable mutual
    pub Every : Object → Type 0
    Every (reference a) = P a
    Every (structure fs) = EveryField fs
    Every (slice os) = EveryItem os
    Every (word k n) = Unit
    Every (string t) = Unit
    Every (bytes b) = Unit
    Every (int8 n) = Unit
    Every other = Unit
    Every nil = Unit

    pub EveryField : ObjectFields → Type 0
    EveryField no_fields = Unit
    EveryField (field n o fs) = ((is_lower n ≡ true) ⊎ Every o) × EveryField fs

    pub EveryItem : ObjectItems → Type 0
    EveryItem no_items = Unit
    EveryItem (item o os) = Every o × EveryItem os

-- No walk from the address goes through more than `depth` pointers.
unfoldable pub Ends : List Object → ℕ → ℕ → Type 0
Ends memory zero a = ⊥
Ends memory (suc depth) a = Every (Ends memory depth) (load memory a)

abbrev Wrote : Option Encoded → Type 0
Wrote m = (b : Bytes) × (m ≡ some (wrote b))

wrap_result-Wrote :
    (f : EncodeError → EncodeError) (m : Option Encoded) → Wrote (wrap_result f m) → Wrote m
wrap_result-Wrote f none (b, h) = absurd (ground arith)
wrap_result-Wrote f (some (wrote c)) (b, h) = (c, refl)
wrap_result-Wrote f (some (failed e)) (b, h) = absurd (ground arith)
wrap_result-Wrote f (some panics) (b, h) = absurd (ground arith)

then_result-Wrote : (m q : Option Encoded) → Wrote (then_result m q) → Wrote m × Wrote q
then_result-Wrote none q (b, h) = absurd (ground arith)
then_result-Wrote (some (wrote c)) none (b, h) = absurd (ground arith)
then_result-Wrote (some (wrote c)) (some (wrote d)) (b, h) = ((c, refl), (d, refl))
then_result-Wrote (some (wrote c)) (some (failed e)) (b, h) = absurd (ground arith)
then_result-Wrote (some (wrote c)) (some panics) (b, h) = absurd (ground arith)
then_result-Wrote (some (failed e)) q (b, h) = absurd (ground arith)
then_result-Wrote (some panics) q (b, h) = absurd (ground arith)

array_result-Wrote : (n : ℕ) (m : Option Encoded) → Wrote (array_result n m) → Wrote m
array_result-Wrote n m (b, h) = elim (Bool-cases (ltb max_uint16 n)) [
  | inl e ↦ absurd (ground (arith, (rw e at h)))
  | inr e ↦ (then_result-Wrote (some (wrote (put_le 2 n))) m (b, rw e at h)).1
]

module _ (exported : Text → Bool) (follow : ℕ → Option Encoded) (P : ℕ → Type 0)
    (step : (a : ℕ) → Wrote (follow a) → P a) where
  mutual
    unfolding encode_object Every

    encode_object-Every : (o : Object) → Wrote (encode_object exported follow o) → Every P o
    encode_object-Every (word k n) h = tt
    encode_object-Every (string t) h = tt
    encode_object-Every (bytes b) h = tt
    encode_object-Every (int8 n) h = tt
    encode_object-Every other h = tt
    encode_object-Every nil h = tt
    encode_object-Every (reference a) h = step a h
    encode_object-Every (structure fs) h = fields-Every fs (wrap_result-Wrote _ _ h)
    encode_object-Every (slice os) h =
        items-Every zero os (array_result-Wrote (count_objects os) _ (wrap_result-Wrote _ _ h))

    fields-Every :
        (fs : ObjectFields) → Wrote (encode_object_fields exported follow fs) → EveryField P fs
    fields-Every no_fields h = tt
    fields-Every (field n o fs) (b, h) = elim (Bool-cases (is_lower n)) [
      | inl e ↦ (inl e, fields-Every fs (b, rw e at h))
      | inr e ↦ elim (Bool-cases (exported n)) [
        | inl x ↦
            let (first, rest) = then_result-Wrote _ _ (b, rw (e, x) at h) in
            (inr (encode_object-Every o (wrap_result-Wrote _ _ first)), fields-Every fs rest)
        | inr x ↦ absurd (ground (arith, (rw (e, x) at h)))
      ]
    ]

    items-Every :
        (i : ℕ) (os : ObjectItems)
        → Wrote (encode_object_items exported follow i os)
        → EveryItem P os
    items-Every i no_items h = tt
    items-Every i (item o os) h =
        let (first, rest) = then_result-Wrote _ _ h in
        (encode_object-Every o (wrap_result-Wrote _ _ first), items-Every (suc i) os rest)

  encode_pointed-Every : (o : Object) → Wrote (encode_pointed exported follow o) → Every P o
  unfolding encode_pointed Every
  encode_pointed-Every (structure fs) h = fields-Every fs (wrap_result-Wrote _ _ h)
  encode_pointed-Every (slice os) h =
      items-Every zero os (array_result-Wrote (count_objects os) _ (wrap_result-Wrote _ _ h))
  encode_pointed-Every (bytes b) h = tt
  encode_pointed-Every (word k n) h = tt
  encode_pointed-Every (string t) h = tt
  encode_pointed-Every (int8 n) h = tt
  encode_pointed-Every other h = tt
  encode_pointed-Every nil h = tt
  encode_pointed-Every (reference a) (b, h) = absurd (ground arith)

module _ (exported : Text → Bool) (memory : List Object) where
  follow_pointer-Ends :
      (fuel l : ℕ) (s : List ℕ) (a : ℕ)
      → Wrote (follow_pointer exported memory fuel l s a)
      → Ends memory fuel a
  unfolding follow_pointer Ends
  follow_pointer-Ends zero l s a (b, h) = absurd (ground arith)
  follow_pointer-Ends (suc fuel) l s a (b, h) = elim (Bool-cases (is_deep (suc l) && is_seen a s)) [
    | inl e ↦ absurd (ground (arith, (rw e at h)))
    | inr e ↦
        encode_pointed-Every exported _ (Ends memory fuel) (follow_pointer-Ends fuel (suc l) _)
          (load memory a) (b, rw e at h)
  ]

  pub marshal_object-unwritten :
      (o : Object) (fuel : ℕ)
      → 100 + length memory < fuel
      → ((depth : ℕ) → Every (Ends memory depth) o → ⊥)
      → (r : Encoded) × (marshal_object exported memory fuel o ≡ some r)
        × ((b : Bytes) → r ≢ wrote b)
  unfolding marshal_object
  marshal_object-unwritten o fuel h cycle =
      let (r, e) = marshal_object-IsTotal exported memory o fuel h in
      (
        r,
        e,
        λ b q. cycle fuel (
            encode_object-Every exported _ (Ends memory fuel) (follow_pointer-Ends fuel zero []) o
              (b, e ∙ ap some q)),
      )
