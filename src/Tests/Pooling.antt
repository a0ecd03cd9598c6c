-- ===== src/Tests/Pooling.antt =====
-- Calls of pkg/encoding/encode.go that share a pool.
use tcp_gateway.Prelude.{◌≡◌, refl, Bool, true, none, some, List, [], ◌∷◌, map}
use tcp_gateway.Text.{Text}
use tcp_gateway.Interfaces.{eof}
use tcp_gateway.Encoding.{Value, word, string, structure, field, no_fields, byte, nil, encode}
use tcp_gateway.Encoding.Pool.{
  Call, marshalling, writing, returned, marshal_pooled, marshal_to_writer, run, expected,
  run-expected,
}

abbrev any : Text → Bool
any t = true

abbrev one_byte : Value
one_byte = structure (field (b'B' ∷ []) (word byte 7) no_fields)

abbrev one_text : Value
one_text = structure (field (b'T' ∷ []) (string (b'x' ∷ [])) no_fields)

-- A failing writer and a value that cannot be encoded stand between two that are.
abbrev calls : List (Call any)
calls =
    marshalling 0 one_byte
    ∷ writing (some eof) 0 one_text
    ∷ marshalling 0 nil
    ∷ writing none 0 one_text
    ∷ []

run-expected_example : run any calls [] ≡ map (expected any) calls
run-expected_example = run-expected any calls

-- The state of the first call is used again, and holds the second value alone.
used_again :
    let r = marshal_pooled any 0 one_byte [] in
    marshal_to_writer any none 0 one_text r.0 ≡ (
      record { buffer = b'x' ∷ 0 ∷ []; ptr_level = 0; ptr_seen = [] } ∷ [],
      returned (b'x' ∷ 0 ∷ []),
    )
unfolding marshal_pooled marshal_to_writer encode
used_again = refl
