-- ===== src/Encoding/Types.antt =====
-- The types of pkg/encoding/types.go and the check of a type that is registered. Types are finite
-- here: a struct that holds a pointer to its own type is not among them.
use tcp_gateway.Prelude.{
  Bool, true, false, Bool-cases, inl, inr, ◌≡◌, arith, Option, none, some, if◌then◌else◌,
}
use tcp_gateway.Text.{Text}
use tcp_gateway.Encoding.{Scalar, is_lower}

mutual
  pub data GoType : Type 0 where
    word_type : Scalar → GoType
    string_type : GoType
    int8_type : GoType
    -- A named type with a basic type below, such as `type Color uint32`: its kind is that type's.
    named_type : GoType
    other_type : GoType
    pointer_type : GoType → GoType
    slice_type : GoType → GoType
    struct_type : FieldTypes → GoType

  pub data FieldTypes : Type 0 where
    no_field_types : FieldTypes
    field_type : Text → GoType → FieldTypes → FieldTypes

pub data TypeError : Type 0 where
  not_a_pointer : TypeError
  not_to_struct : TypeError
  pointer_to_no_struct : TypeError
  cannot_use : TypeError
  in_pointer : TypeError → TypeError
  in_slice : TypeError → TypeError
  in_field_type : Text → TypeError → TypeError

abbrev pub wrap_type : (TypeError → TypeError) → Option TypeError → Option TypeError
wrap_type f none = none
wrap_type f (some e) = some (f e)

-- The first error of two checks.
abbrev pub first_error : Option TypeError → Option TypeError → Option TypeError
first_error none r = r
first_error (some e) r = some e

-- CheckRegisterTypeInner, by the kind of the type; `none` is nil.
unfoldable mutual
  pub check_inner : GoType → Option TypeError
  check_inner (word_type k) = none
  check_inner string_type = none
  check_inner int8_type = none
  check_inner named_type = none
  check_inner other_type = some cannot_use
  check_inner (pointer_type t) = check_target t
  check_inner (slice_type t) = wrap_type in_slice (check_inner t)
  check_inner (struct_type fs) = check_fields fs

  -- The type behind a pointer.
  pub check_target : GoType → Option TypeError
  check_target (struct_type fs) = wrap_type in_pointer (check_fields fs)
  check_target (word_type k) = some pointer_to_no_struct
  check_target string_type = some pointer_to_no_struct
  check_target int8_type = some pointer_to_no_struct
  check_target named_type = some pointer_to_no_struct
  check_target other_type = some pointer_to_no_struct
  check_target (pointer_type t) = some pointer_to_no_struct
  check_target (slice_type t) = some pointer_to_no_struct

  pub check_fields : FieldTypes → Option TypeError
  check_fields no_field_types = none
  check_fields (field_type n t fs) =
      let rest = check_fields fs in
      let here = wrap_type (in_field_type n) (check_inner t) in
      if is_lower n then rest else first_error here rest

abbrev pub is_struct : GoType → Bool
is_struct (struct_type us) = true
is_struct _ = false

unfoldable pub check_register_type : GoType → Option TypeError
check_register_type (pointer_type t) =
    if is_struct t then check_inner (pointer_type t) else some not_to_struct
check_register_type (word_type k) = some not_a_pointer
check_register_type string_type = some not_a_pointer
check_register_type int8_type = some not_a_pointer
check_register_type named_type = some not_a_pointer
check_register_type other_type = some not_a_pointer
check_register_type (slice_type t) = some not_a_pointer
check_register_type (struct_type us) = some not_a_pointer

pub check_register_type-none : (t : GoType) → check_register_type t ≡ none → check_inner t ≡ none
unfolding check_register_type
check_register_type-none (pointer_type t) h = elim (Bool-cases (is_struct t)) [
  | inl e ↦ rw e at h
  | inr e ↦ ground arith
]
check_register_type-none (word_type k) h = ground arith
check_register_type-none string_type h = ground arith
check_register_type-none int8_type h = ground arith
check_register_type-none named_type h = ground arith
check_register_type-none other_type h = ground arith
check_register_type-none (slice_type t) h = ground arith
check_register_type-none (struct_type us) h = ground arith
