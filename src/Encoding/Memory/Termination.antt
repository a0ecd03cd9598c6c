-- ===== src/Encoding/Memory/Termination.antt =====
-- The recursion of pkg/encoding/encode.go ends on every memory.
use tcp_gateway.Prelude.{
  ℕ, zero, suc, ◌+◌, ◌-◌, ◌≤◌, ◌<◌, ◌≡◌, refl, Bool, true, false, Bool-cases, inl, inr, Option,
  some, List, [], ◌∷◌, length, arith, ltb, ltb→lt, if◌then◌else◌,
}
use tcp_gateway.Bytes.{put_le}
use tcp_gateway.Text.{Text}
use tcp_gateway.Encoding.{
  Encoded, wrote, failed, panics, EncodeError, wrap, and_then, is_seen, is_deep, is_lower,
  max_uint16,
}
use tcp_gateway.Encoding.Memory.{
  Object, word, string, bytes, int8, other, nil, reference, structure, slice, ObjectFields,
  no_fields, field, ObjectItems, no_items, item, load, wrap_result, go_on, then_result,
  array_result, encode_object, encode_object_fields, encode_object_items, encode_pointed,
  follow_pointer, marshal_object,
}

-- There is an answer.
abbrev pub IsTotal : Option Encoded → Type 0
IsTotal m = (r : Encoded) × (m ≡ some r)

wrap_result-IsTotal :
    (f : EncodeError → EncodeError) (m : Option Encoded) → IsTotal m → IsTotal (wrap_result f m)
wrap_result-IsTotal f m (r, e) = (wrap f r, rw e refl)

go_on-IsTotal : (r : Encoded) (q : Option Encoded) → IsTotal q → IsTotal (go_on r q)
go_on-IsTotal (wrote b) q (r, e) = (and_then (wrote b) r, rw e refl)
go_on-IsTotal (failed e) q h = (_, refl)
go_on-IsTotal panics q h = (_, refl)

then_result-IsTotal : (m q : Option Encoded) → IsTotal m → IsTotal q → IsTotal (then_result m q)
then_result-IsTotal m q (r, e) h = rw e (go_on-IsTotal r q h)

if-IsTotal :
    (b : Bool) (m q : Option Encoded) → IsTotal m → IsTotal q → IsTotal (if b then m else q)
if-IsTotal true m q h k = h
if-IsTotal false m q h k = k

array_result-IsTotal : (n : ℕ) (m : Option Encoded) → IsTotal m → IsTotal (array_result n m)
array_result-IsTotal n m h =
    if-IsTotal (ltb max_uint16 n) _ _ (_, refl)
      (then_result-IsTotal (some (wrote (put_le 2 n))) m (_, refl) h)

module _ (exported : Text → Bool) (follow : ℕ → Option Encoded)
    (total : (a : ℕ) → IsTotal (follow a)) where
  mutual
    unfolding encode_object

    encode_object-IsTotal : (o : Object) → IsTotal (encode_object exported follow o)
    encode_object-IsTotal (word k n) = (_, refl)
    encode_object-IsTotal (string t) = (_, refl)
    encode_object-IsTotal (bytes b) = (_, refl)
    encode_object-IsTotal (int8 n) = (_, refl)
    encode_object-IsTotal other = (_, refl)
    encode_object-IsTotal nil = (_, refl)
    encode_object-IsTotal (reference a) = total a
    encode_object-IsTotal (structure fs) = wrap_result-IsTotal _ _ (fields-IsTotal fs)
    encode_object-IsTotal (slice os) =
        wrap_result-IsTotal _ _ (array_result-IsTotal _ _ (items-IsTotal zero os))

    fields-IsTotal : (fs : ObjectFields) → IsTotal (encode_object_fields exported follow fs)
    fields-IsTotal no_fields = (_, refl)
    fields-IsTotal (field n o fs) = if-IsTotal (is_lower n) _ _ (fields-IsTotal fs) (
        if-IsTotal (exported n) _ _
          (then_result-IsTotal _ _ (wrap_result-IsTotal _ _ (encode_object-IsTotal o))
            (fields-IsTotal fs))
          (_, refl))

    items-IsTotal : (i : ℕ) (os : ObjectItems) → IsTotal (encode_object_items exported follow i os)
    items-IsTotal i no_items = (_, refl)
    items-IsTotal i (item o os) =
        then_result-IsTotal _ _ (wrap_result-IsTotal _ _ (encode_object-IsTotal o))
          (items-IsTotal (suc i) os)

  encode_pointed-IsTotal : (o : Object) → IsTotal (encode_pointed exported follow o)
  unfolding encode_pointed
  encode_pointed-IsTotal (structure fs) = wrap_result-IsTotal _ _ (fields-IsTotal fs)
  encode_pointed-IsTotal (slice os) =
      wrap_result-IsTotal _ _ (array_result-IsTotal _ _ (items-IsTotal zero os))
  encode_pointed-IsTotal (bytes b) = (_, refl)
  encode_pointed-IsTotal (word k n) = (_, refl)
  encode_pointed-IsTotal (string t) = (_, refl)
  encode_pointed-IsTotal (int8 n) = (_, refl)
  encode_pointed-IsTotal other = (_, refl)
  encode_pointed-IsTotal nil = (_, refl)
  encode_pointed-IsTotal (reference a) = (_, refl)

-- How many of the addresses below n were not seen.
unseen : ℕ → List ℕ → ℕ
unseen zero s = 0
unseen (suc n) s = let rest = unseen n s in if is_seen n s then rest else rest + 1

unseen-nil : (n : ℕ) → unseen n [] ≡ n
unfolding unseen
unseen-nil zero = refl
unseen-nil (suc n) = omega (arith, unseen-nil n)

unseen-above : (n a : ℕ) (s : List ℕ) → n ≤ a → unseen n (a ∷ s) ≡ unseen n s
unfolding unseen
unseen-above zero a s h = refl
unseen-above (suc n) a s h = ground (arith, unseen-above n a s)

unseen-below :
    (n a : ℕ) (s : List ℕ) → a < n → is_seen a s ≡ false → unseen n (a ∷ s) + 1 ≡ unseen n s
unfolding unseen
unseen-below zero a s h k = absurd (omega arith)
unseen-below (suc n) a s h k = ground (arith, unseen-below n a s, unseen-above n a s)

-- Behind the end of the memory there is nothing to follow.
load-above : (memory : List Object) (a : ℕ) → length memory ≤ a → load memory a ≡ other
load-above [] a h = refl
load-above (o ∷ memory) zero h = absurd (omega arith)
load-above (o ∷ memory) (suc a) h = load-above memory a (omega arith)

module _ (exported : Text → Bool) (memory : List Object) where
  -- The fuel that is left is enough for the levels without the test and the addresses not yet seen.
  follow_pointer-IsTotal :
      (fuel l : ℕ) (s : List ℕ) (a : ℕ)
      → (100 - l) + unseen (length memory) s < fuel
      → IsTotal (follow_pointer exported memory fuel l s a)
  unfolding follow_pointer encode_pointed
  follow_pointer-IsTotal zero l s a h = absurd (omega arith)
  follow_pointer-IsTotal (suc fuel) l s a h = elim (Bool-cases (is_deep (suc l))) [
    | inr e ↦ rw e (
        encode_pointed-IsTotal exported (follow_pointer exported memory fuel (suc l) s)
          (λ b. follow_pointer-IsTotal fuel (suc l) s b (ground arith)) (load memory a))
    | inl e ↦ elim (Bool-cases (is_seen a s)) [
      | inl q ↦ rw (e, q) (_, refl)
      | inr q ↦ elim (Bool-cases (ltb a (length memory))) [
        | inl k ↦
            rw (e, q)
              (encode_pointed-IsTotal exported (follow_pointer exported memory fuel (suc l) (a ∷ s))
                (λ b.
                  follow_pointer-IsTotal fuel (suc l) (a ∷ s) b (
                    ground
                      (arith, unseen-below (length memory) a s (ltb→lt a (length memory) k) q)))
                (load memory a))
        | inr k ↦ rw (e, q, load-above memory a (ground arith)) (panics, refl)
      ]
    ]
  ]

  -- `Marshal` returns on any value in any memory, with cycles of pointers too: behind 100 levels every
  -- pointer that is followed is another one, so fuel of 101 and the size of the memory is enough.
  pub marshal_object-IsTotal :
      (o : Object) (fuel : ℕ)
      → 100 + length memory < fuel
      → IsTotal (marshal_object exported memory fuel o)
  unfolding marshal_object
  marshal_object-IsTotal o fuel h =
      encode_object-IsTotal exported (follow_pointer exported memory fuel zero [])
        (λ a. follow_pointer-IsTotal fuel zero [] a (omega (arith, unseen-nil (length memory), h)))
        o
