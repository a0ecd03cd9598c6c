-- ===== src/Encoding/Memory.antt =====
-- pkg/encoding/encode.go on values in memory, where pointers may form cycles. A pointer is the address
-- of the object that it points at, which stands at that place of the memory. The elements of a slice are
-- written out, as they are visited; a slice that is an element of itself, which a named slice type allows,
-- is not such a value. The recursion of `encode` through a pointer takes one unit of fuel.
pub mod Termination
pub mod Unfolding
pub mod Cycles
pub mod Refusal
use tcp_gateway.Prelude.{
  ℕ, zero, suc, Bool, ◌&&◌, Option, none, some, List, [], ◌∷◌, length, ltb, if◌then◌else◌,
}
use tcp_gateway.Bytes.{Bytes, put_le}
use tcp_gateway.Text.{Text}
use tcp_gateway.Encoding.{
  Scalar, EncodeError, in_type, in_field, in_element, encode_nil, encode_cycle, array_too_long,
  bytes_too_long, Encoded, wrote, failed, panics, wrap, and_then, encode_word, encode_string,
  encode_bytes, is_seen, is_deep, is_lower, max_uint16,
}

mutual
  pub data Object : Type 0 where
    word : Scalar → ℕ → Object
    string : Text → Object
    bytes : Bytes → Object
    int8 : ℕ → Object
    other : Object
    nil : Object
    reference : ℕ → Object
    structure : ObjectFields → Object
    slice : ObjectItems → Object

  pub data ObjectFields : Type 0 where
    no_fields : ObjectFields
    field : Text → Object → ObjectFields → ObjectFields

  pub data ObjectItems : Type 0 where
    no_items : ObjectItems
    item : Object → ObjectItems → ObjectItems

-- The object at an address; there is one wherever a Go pointer points.
abbrev pub load : List Object → ℕ → Object
load [] a = other
load (o ∷ memory) zero = o
load (o ∷ memory) (suc a) = load memory a

-- What is returned, none where the fuel is used up.
abbrev pub wrap_result : (EncodeError → EncodeError) → Option Encoded → Option Encoded
wrap_result f none = none
wrap_result f (some r) = some (wrap f r)

-- A step that goes on only if the step before has written.
abbrev pub go_on : Encoded → Option Encoded → Option Encoded
go_on (wrote b) none = none
go_on (wrote b) (some r) = some (and_then (wrote b) r)
go_on (failed e) q = some (failed e)
go_on panics q = some panics

abbrev pub then_result : Option Encoded → Option Encoded → Option Encoded
then_result none q = none
then_result (some r) q = go_on r q

abbrev pub count_objects : ObjectItems → ℕ
count_objects no_items = zero
count_objects (item o os) = suc (count_objects os)

-- `encodeArray`.
abbrev pub array_result : ℕ → Option Encoded → Option Encoded
array_result n elements =
    if ltb max_uint16 n
    then some (failed (array_too_long n))
    else then_result (some (wrote (put_le 2 n))) elements

-- `encode` on an object, where `follow` is what it does to a pointer on the same level.
module _ (exported : Text → Bool) (follow : ℕ → Option Encoded) where
  unfoldable mutual
    pub encode_object : Object → Option Encoded
    encode_object (word k n) = some (wrote (encode_word k n))
    encode_object (string t) = some (encode_string t)
    encode_object (bytes b) = some (encode_bytes bytes_too_long b)
    encode_object (int8 n) = some panics
    encode_object other = some panics
    encode_object nil = some (failed encode_nil)
    encode_object (reference a) = follow a
    encode_object (structure fs) = wrap_result in_type (encode_object_fields fs)
    encode_object (slice os) =
        wrap_result in_type (array_result (count_objects os) (encode_object_items zero os))

    pub encode_object_fields : ObjectFields → Option Encoded
    encode_object_fields no_fields = some (wrote [])
    encode_object_fields (field n o fs) =
        let first = wrap_result (in_field n) (encode_object o) in
        let rest = encode_object_fields fs in
        if is_lower n then rest else if exported n then then_result first rest else some panics

    pub encode_object_items : ℕ → ObjectItems → Option Encoded
    encode_object_items i no_items = some (wrote [])
    encode_object_items i (item o os) =
        then_result (wrap_result (in_element i) (encode_object o)) (encode_object_items (suc i) os)

  -- What stands behind a pointer is encoded by its kind.
  unfoldable pub encode_pointed : Object → Option Encoded
  encode_pointed (structure fs) = wrap_result in_type (encode_object_fields fs)
  encode_pointed (slice os) =
      wrap_result in_type (array_result (count_objects os) (encode_object_items zero os))
  encode_pointed (bytes b) = some (wrap in_type (encode_bytes array_too_long b))
  encode_pointed (word k n) = some panics
  encode_pointed (string t) = some panics
  encode_pointed (int8 n) = some panics
  encode_pointed other = some panics
  encode_pointed nil = some panics
  encode_pointed (reference a) = some panics

module _ (exported : Text → Bool) (memory : List Object) where
  -- A pointer, on level l and with the addresses seen.
  unfoldable pub follow_pointer : ℕ → ℕ → List ℕ → ℕ → Option Encoded
  follow_pointer zero l s a = none
  follow_pointer (suc fuel) l s a =
      if is_deep (suc l) && is_seen a s
      then some (failed encode_cycle)
      else encode_pointed exported
          (follow_pointer fuel (suc l) (if is_deep (suc l) then a ∷ s else s)) (load memory a)

  -- `Marshal`.
  unfoldable pub marshal_object : ℕ → Object → Option Encoded
  marshal_object fuel o = encode_object exported (follow_pointer fuel zero []) o
