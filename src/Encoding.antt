-- ===== src/Encoding.antt =====
-- The values and the encoder of pkg/encoding/encode.go.
-- A value is the tree that a walk along its pointers meets, a pointer with its address: a cycle in
-- memory shows as an address that stands again below itself. Numbers are given by their bits, two's
-- complement and IEEE 754, as the conversions and math.Float32bits leave them, and true is 1.
-- Types declared by a program on top of a basic type are `other`, as the type switch sees them.
pub mod Types
pub mod Wire
pub mod Pool
pub mod Memory
pub mod Total
pub mod Checked
pub mod Crc
pub mod Decode
use tcp_gateway.Prelude.{
  ℕ, suc, ◌==◌, ltb, Bool, false, ◌&&◌, ◌||◌, if◌then◌else◌, Option, none, some, List, [], ◌∷◌,
  ◌++◌, length,
}
use tcp_gateway.Bytes.{Bytes, put_le}
use tcp_gateway.Text.{Text}

-- The types of the first eight cases of the type switch.
pub data Scalar : Type 0 where
  bool byte int16 uint16 int32 uint32 float32 float64 : Scalar

mutual
  pub data Value : Type 0 where
    word : Scalar → ℕ → Value
    string : Text → Value
    bytes : Bytes → Value
    int8 : ℕ → Value
    other : Value
    nil : Value
    pointer : ℕ → Value → Value
    structure : Fields → Value
    slice : Items → Value

  pub data Fields : Type 0 where
    no_fields : Fields
    field : Text → Value → Fields → Fields

  pub data Items : Type 0 where
    no_items : Items
    item : Value → Items → Items

pub data EncodeError : Type 0 where
  zero_in_string : ℕ → EncodeError
  bytes_too_long : ℕ → EncodeError
  array_too_long : ℕ → EncodeError
  encode_nil : EncodeError
  encode_cycle : EncodeError
  in_type : EncodeError → EncodeError
  in_field : Text → EncodeError → EncodeError
  in_element : ℕ → EncodeError → EncodeError

-- What is written to the buffer, the error, or the panic "Unknown type".
pub data Encoded : Type 0 where
  wrote : Bytes → Encoded
  failed : EncodeError → Encoded
  panics : Encoded

abbrev pub wrap : (EncodeError → EncodeError) → Encoded → Encoded
wrap f (wrote b) = wrote b
wrap f (failed e) = failed (f e)
wrap f panics = panics

-- A step that goes on if the step before has written.
abbrev pub and_then : Encoded → Encoded → Encoded
and_then (wrote b) (wrote c) = wrote (b ++ c)
and_then (wrote b) r = r
and_then r q = r

abbrev pub encode_word : Scalar → ℕ → Bytes
encode_word bool n = (if n == 0 then 0 else 1) ∷ []
encode_word byte n = n ∷ []
encode_word int16 n = put_le 2 n
encode_word uint16 n = put_le 2 n
encode_word int32 n = put_le 4 n
encode_word uint32 n = put_le 4 n
encode_word float32 n = put_le 4 n
encode_word float64 n = put_le 8 n

-- strings.IndexByte(s, 0)
abbrev pub index_zero : Text → Option ℕ
index_zero [] = none
index_zero (c ∷ s) =
    if c == 0 then some 0 else elim (index_zero s) [ none ↦ none | some i ↦ some (suc i) ]

abbrev pub max_uint16 : ℕ
max_uint16 = 65535

abbrev pub encode_string : Text → Encoded
encode_string s = elim (index_zero s) [
  | none ↦ wrote (s ++ 0 ∷ [])
  | some i ↦ failed (zero_in_string i)
]

abbrev pub encode_bytes : (ℕ → EncodeError) → Bytes → Encoded
encode_bytes too_long b =
    if ltb max_uint16 (length b)
    then failed (too_long (length b))
    else wrote (put_le 2 (length b) ++ b)

abbrev pub start_detecting_cycles_after : ℕ
start_detecting_cycles_after = 100

abbrev pub is_seen : ℕ → List ℕ → Bool
is_seen a [] = false
is_seen a (b ∷ s) = (a == b) || is_seen a s

abbrev pub is_deep : ℕ → Bool
is_deep level = ltb start_detecting_cycles_after level

-- The field names that the loops pass over: those that begin with a letter from a to z.
abbrev pub is_lower : Text → Bool
is_lower [] = false
is_lower (c ∷ s) = ltb 96 c && ltb c 123

abbrev pub count : Items → ℕ
count no_items = 0
count (item v vs) = suc (count vs)

-- The length of a slice in front of its elements.
abbrev pub encode_array : ℕ → Encoded → Encoded
encode_array n elements =
    if ltb max_uint16 n then failed (array_too_long n) else and_then (wrote (put_le 2 n)) elements

-- `exported` is the test of reflect: Interface() panics on a field that is not exported. The level
-- and the addresses seen hold for the call and what it calls, as the deferred calls restore them.
module _ (exported : Text → Bool) where
  unfoldable mutual
    pub encode : ℕ → List ℕ → Value → Encoded
    encode l s (word k n) = wrote (encode_word k n)
    encode l s (string t) = encode_string t
    encode l s (bytes b) = encode_bytes bytes_too_long b
    encode l s (int8 n) = panics
    encode l s other = panics
    encode l s nil = failed encode_nil
    encode l s (pointer a v) =
        let rest = encode_target (suc l) (if is_deep (suc l) then a ∷ s else s) v in
        if is_deep (suc l) && is_seen a s then failed encode_cycle else rest
    encode l s (structure fs) = wrap in_type (encode_struct l s fs)
    encode l s (slice vs) = wrap in_type (encode_array (count vs) (encode_items l s 0 vs))

    -- What stands behind a pointer is encoded by its kind: a []byte goes element by element.
    pub encode_target : ℕ → List ℕ → Value → Encoded
    encode_target l s (structure fs) = wrap in_type (encode_struct l s fs)
    encode_target l s (slice vs) = wrap in_type (encode_array (count vs) (encode_items l s 0 vs))
    encode_target l s (bytes b) = wrap in_type (encode_bytes array_too_long b)
    encode_target l s (word k n) = panics
    encode_target l s (string t) = panics
    encode_target l s (int8 n) = panics
    encode_target l s other = panics
    encode_target l s nil = panics
    encode_target l s (pointer a v) = panics

    pub encode_struct : ℕ → List ℕ → Fields → Encoded
    encode_struct l s no_fields = wrote []
    encode_struct l s (field n v fs) =
        let first = wrap (in_field n) (encode l s v) in
        let rest = encode_struct l s fs in
        if is_lower n then rest else if exported n then and_then first rest else panics

    pub encode_items : ℕ → List ℕ → ℕ → Items → Encoded
    encode_items l s i no_items = wrote []
    encode_items l s i (item v vs) =
        and_then (wrap (in_element i) (encode l s v)) (encode_items l s (suc i) vs)

  unfoldable pub marshal : Value → Encoded
  marshal v = encode 0 [] v
