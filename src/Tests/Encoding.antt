-- ===== src/Tests/Encoding.antt =====
-- Runs of pkg/encoding on small values.
use tcp_gateway.Prelude.{ℕ, ◌++◌, Bool, true, refl, ◌≡◌, [], ◌∷◌, arith, inl, inr, ltb, ◌&&◌, none}
use tcp_gateway.Text.{Text}
use tcp_gateway.Encoding.{
  Value, Fields, index_zero, word, string, pointer, structure, slice, field, no_fields, item,
  no_items, int16, nil, int8, marshal, encode, wrote, failed, panics, in_type, in_field, encode_nil,
}
use tcp_gateway.Encoding.Wire.{wire}
use tcp_gateway.Encoding.Total.{Encodable, marshal-Encodable}
use tcp_gateway.Encoding.Types.{
  GoType, struct_type, pointer_type, slice_type, word_type, string_type, int8_type, field_type,
  no_field_types, check_inner, check_register_type,
}
use tcp_gateway.Encoding.Decode.{
  FlatFields, flat_field, no_flat, Target, flat_bytes, pointer_to, target_field, flat, flat_string,
  flat_word, slice_of, no_targets, unmarshal, word_eof, in_element, decode, decode_items,
  decode_flat,
}
use tcp_gateway.Encoding.Decode
use tcp_gateway.Encoding.Decode.Fits.{Fits, AreFlat, visible_fields, IsFlat, visible}
use tcp_gateway.Encoding.Decode.RoundTrip.{unmarshal-marshal}
use tcp_gateway.Encoding.Decode.Shared.{
  pointers, repeat, unmarshal_pointers, unmarshal_pointers-marshal,
}
use tcp_gateway.Encoding.Checked.{HasType, Usable, Returns, marshal-Returns}

abbrev exported : Text → Bool
exported [] = true
exported (c ∷ s) = ltb 64 c && ltb c 91

-- A pointer to a struct with a text, a field that is passed over, and a slice of two numbers.
abbrev player : Value
player = pointer 4096 (
    structure (
      field (b'N' ∷ []) (string (b'h' ∷ b'i' ∷ [])) (
        field (b'x' ∷ []) nil (
          field (b'T' ∷ []) (slice (item (word int16 258) (item (word int16 65535) no_items)))
            no_fields))))

abbrev player_type : GoType
player_type = pointer_type (
    struct_type (
      field_type (b'N' ∷ []) string_type (
        field_type (b'x' ∷ []) (pointer_type int8_type)
          (field_type (b'T' ∷ []) (slice_type (word_type int16)) no_field_types))))

player_bytes : marshal exported player ≡ wrote (b'h' ∷ b'i' ∷ 0 ∷ 2 ∷ 0 ∷ 2 ∷ 1 ∷ 255 ∷ 255 ∷ [])
unfolding marshal encode
player_bytes = refl

nil_field_error :
    marshal exported (structure (field (b'P' ∷ []) nil no_fields))
    ≡ failed (in_type (in_field (b'P' ∷ []) encode_nil))
unfolding marshal encode
nil_field_error = refl

-- The check accepts an int8, which the encoder does not know.
int8_field_accepted :
    check_register_type
      (pointer_type (struct_type (field_type (b'I' ∷ []) int8_type no_field_types)))
    ≡ none
unfolding check_register_type check_inner
int8_field_accepted = refl

int8_field_panic :
    marshal exported (pointer 8 (structure (field (b'I' ∷ []) (int8 1) no_fields))) ≡ panics
unfolding marshal encode
int8_field_panic = refl

player-Encodable : Encodable exported 0 player
unfolding Encodable
player-Encodable =
    (omega arith, (inr (refl, refl), (inl refl, (inr (refl, (omega arith, (tt, (tt, tt)))), tt))))

marshal-Encodable_example : marshal exported player ≡ wrote (wire player)
marshal-Encodable_example = marshal-Encodable exported player player-Encodable

player-HasType : HasType player player_type
unfolding HasType
player-HasType = (
  _,
  refl,
  (
    _,
    refl,
    (_, _, refl, refl, (_, _, refl, (_, refl), (_, _, refl, (_, refl, (refl, (refl, tt))), refl))),
  ),
)

player_type-Usable : Usable exported player_type
unfolding Usable
player_type-Usable = (inr (refl, tt), (inl refl, (inr (refl, tt), tt)))

player_type_accepted : check_register_type player_type ≡ none
unfolding check_register_type check_inner
player_type_accepted = refl

marshal-Returns_example : Returns (marshal exported player)
marshal-Returns_example =
    marshal-Returns exported player player_type player-HasType player_type_accepted
      player_type-Usable

abbrev player_target : Target
player_target = pointer_to (
    target_field (b'N' ∷ []) (flat flat_string) (
      target_field (b'x' ∷ []) (flat flat_bytes)
        (target_field (b'T' ∷ []) (slice_of (flat_word int16)) no_targets)))

player-Fits : Fits player_target player
unfolding Fits IsFlat
player-Fits = (
  _,
  _,
  refl,
  (
    _,
    _,
    refl,
    inr (_, refl, refl),
    (
      _,
      _,
      refl,
      inl refl,
      (
        _,
        _,
        refl,
        inr (_, refl, omega arith, ((_, refl, omega arith), ((_, refl, omega arith), tt))),
        refl,
      ),
    ),
  ),
)

unmarshal-marshal_example :
    unmarshal player_target ((b'h' ∷ b'i' ∷ 0 ∷ 2 ∷ 0 ∷ 2 ∷ 1 ∷ 255 ∷ 255 ∷ []) ++ 7 ∷ [])
    ≡ (9, inl (visible player))
unmarshal-marshal_example =
    unmarshal-marshal exported player_target player _ (7 ∷ []) player-Fits player_bytes

-- The same data cut short: the offset is behind the length of the slice and its first element.
cut_short :
    unmarshal player_target (b'h' ∷ b'i' ∷ 0 ∷ 2 ∷ 0 ∷ 2 ∷ 1 ∷ 255 ∷ [])
    ≡ (7, inr (Decode.in_field (b'T' ∷ []) (in_element 1 (word_eof int16))))
unfolding unmarshal decode decode_items decode_flat
cut_short = refl

-- Two pointers to structs with one text each: both elements become the second.
abbrev named : ℕ → Fields
named c = field (b'N' ∷ []) (string (c ∷ [])) no_fields

abbrev name_only : FlatFields
name_only = flat_field (b'N' ∷ []) flat_string no_flat

two_names :
    marshal exported (slice (pointers ((8, named b'a') ∷ (16, named b'b') ∷ [])))
    ≡ wrote (2 ∷ 0 ∷ b'a' ∷ 0 ∷ b'b' ∷ 0 ∷ [])
unfolding marshal encode
two_names = refl

named-AreFlat : (c : ℕ) → index_zero (c ∷ []) ≡ none → AreFlat name_only (named c)
unfolding IsFlat
named-AreFlat c h = (_, _, refl, inr (_, refl, h), refl)

unmarshal_pointers-marshal_example :
    unmarshal_pointers name_only ((2 ∷ 0 ∷ b'a' ∷ 0 ∷ b'b' ∷ 0 ∷ []) ++ 9 ∷ [])
    ≡ (6, inl (slice (repeat 2 (pointer 0 (structure (visible_fields (named b'b')))))))
unmarshal_pointers-marshal_example =
    unmarshal_pointers-marshal exported name_only ((8, named b'a') ∷ []) 16 (named b'b') _ (9 ∷ [])
      (omega arith) (named-AreFlat b'a' refl, (named-AreFlat b'b' refl, tt)) two_names
