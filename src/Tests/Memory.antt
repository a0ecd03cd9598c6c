-- ===== src/Tests/Memory.antt =====
-- Cycles of pointers in what pkg/encoding/encode.go is given.
use tcp_gateway.Prelude.{
  ℕ, zero, suc, Bool, true, ◌+◌, ◌<◌, ◌≡◌, refl, some, List, [], ◌∷◌, inl, inr, arith, length,
}
use tcp_gateway.Text.{Text}
use tcp_gateway.Encoding.{EncodeError, failed, wrote, marshal, int16}
use tcp_gateway.Encoding.Memory.{
  Object, load, word, reference, structure, field, no_fields, marshal_object, encode_object,
  encode_pointed, follow_pointer,
}
use tcp_gateway.Encoding.Memory.Unfolding.{tree, walk, marshal_object-marshal}
use tcp_gateway.Encoding.Memory.Cycles.{Every, Ends}
use tcp_gateway.Encoding.Memory.Refusal.{IsSupported, IsTarget, marshal_object-refused}

abbrev all_exported : Text → Bool
all_exported t = true

-- A struct with a pointer to itself, and a list of two.
abbrev own_neighbour : List Object
own_neighbour = structure (field (b'N' ∷ b'e' ∷ b'x' ∷ b't' ∷ []) (reference 0) no_fields) ∷ []

abbrev two_nodes : List Object
two_nodes =
    structure (field (b'V' ∷ b'a' ∷ b'l' ∷ b'u' ∷ b'e' ∷ []) (word int16 7) no_fields)
    ∷ structure (
        field (b'V' ∷ b'a' ∷ b'l' ∷ b'u' ∷ b'e' ∷ []) (word int16 5)
          (field (b'N' ∷ b'e' ∷ b'x' ∷ b't' ∷ []) (reference 0) no_fields))
    ∷ []

two_nodes_written :
    marshal_object all_exported two_nodes 103 (reference 1) ≡ some (wrote (5 ∷ 0 ∷ 7 ∷ 0 ∷ []))
unfolding marshal_object encode_object encode_pointed follow_pointer
two_nodes_written = refl

two_nodes_small : 100 + length two_nodes < 103
two_nodes_small = ground arith

marshal_object-marshal_example :
    marshal_object all_exported two_nodes 103 (reference 1)
    ≡ some (marshal all_exported (tree (walk two_nodes 103) (reference 1)))
marshal_object-marshal_example =
    marshal_object-marshal all_exported two_nodes (reference 1) 103 two_nodes_small

own_neighbour_small : 100 + length own_neighbour < 102
own_neighbour_small = ground arith

own_neighbour_endless : (depth : ℕ) → Every (Ends own_neighbour depth) (reference 0) → ⊥
unfolding Every Ends
own_neighbour_endless zero h = h
own_neighbour_endless (suc depth) (inl e, _) = absurd (cc e)
own_neighbour_endless (suc depth) (inr h, _) = own_neighbour_endless depth h

own_neighbour_targets :
    (a : ℕ)
    → a < length own_neighbour
    → IsTarget all_exported (length own_neighbour) (load own_neighbour a)
unfolding IsTarget IsSupported
own_neighbour_targets zero h = (inr (refl, omega arith), tt)
own_neighbour_targets (suc a) h = absurd (omega (arith, h))

own_neighbour-IsSupported : IsSupported all_exported (length own_neighbour) (reference 0)
unfolding IsSupported
own_neighbour-IsSupported = omega arith

marshal_object-refused_example :
    (e : EncodeError) × (marshal_object all_exported own_neighbour 102 (reference 0)
      ≡ some (failed e))
marshal_object-refused_example =
    marshal_object-refused all_exported own_neighbour own_neighbour_targets (reference 0) 102
      own_neighbour-IsSupported own_neighbour_small own_neighbour_endless
