-- ===== src/Encoding/Memory/Unfolding.antt =====
-- A value in memory is encoded by pkg/encoding/encode.go as the tree that a walk along its pointers meets.
use tcp_gateway.Prelude.{
  ℕ, zero, suc, ◌+◌, ◌<◌, ◌≡◌, refl, sym, ap, ◌∙◌, Bool, true, false, ◌&&◌, Option, none, some,
  List, [], ◌∷◌, length, arith, ltb, if◌then◌else◌,
}
use tcp_gateway.Bytes.{put_le}
use tcp_gateway.Text.{Text}
use tcp_gateway.Encoding.{
  Value, Fields, Items, Encoded, wrote, failed, panics, EncodeError, wrap, and_then, count, encode,
  encode_target, encode_struct, encode_items, encode_array, is_seen, is_deep, is_lower, max_uint16,
  encode_cycle, marshal,
}
use tcp_gateway.Encoding
use tcp_gateway.Encoding.Memory.Termination.{marshal_object-IsTotal}
use tcp_gateway.Encoding.Memory.{
  Object, word, string, bytes, int8, other, nil, reference, structure, slice, ObjectFields,
  no_fields, field, ObjectItems, no_items, item, load, wrap_result, go_on, then_result,
  array_result, count_objects, encode_object, encode_object_fields, encode_object_items,
  encode_pointed, follow_pointer, marshal_object,
}

-- The tree of an object, where `expand` is the tree behind a pointer.
module _ (expand : ℕ → Value) where
  unfoldable mutual
    pub tree : Object → Value
    tree (word k n) = Encoding.word k n
    tree (string t) = Encoding.string t
    tree (bytes b) = Encoding.bytes b
    tree (int8 n) = Encoding.int8 n
    tree other = Encoding.other
    tree nil = Encoding.nil
    tree (reference a) = Encoding.pointer a (expand a)
    tree (structure fs) = Encoding.structure (tree_fields fs)
    tree (slice os) = Encoding.slice (tree_items os)

    pub tree_fields : ObjectFields → Fields
    tree_fields no_fields = Encoding.no_fields
    tree_fields (field n o fs) = Encoding.field n (tree o) (tree_fields fs)

    pub tree_items : ObjectItems → Items
    tree_items no_items = Encoding.no_items
    tree_items (item o os) = Encoding.item (tree o) (tree_items os)

-- The walk, which stops behind `depth` pointers.
pub walk : List Object → ℕ → ℕ → Value
walk memory zero a = Encoding.nil
walk memory (suc depth) a = tree (walk memory depth) (load memory a)

-- An answer, if there is one, is that of the tree.
abbrev Agrees : Option Encoded → Encoded → Type 0
Agrees m e = (r : Encoded) → m ≡ some r → e ≡ r

some-Agrees : (e : Encoded) → Agrees (some e) e
some-Agrees e r h = ground arith

wrap_result-Agrees :
    (f : EncodeError → EncodeError) (m : Option Encoded) (e : Encoded)
    → Agrees m e
    → Agrees (wrap_result f m) (wrap f e)
wrap_result-Agrees f none e h r k = absurd (ground arith)
wrap_result-Agrees f (some x) e h r k = rw (h x refl) (some-Agrees (wrap f x) r k)

go_on-Agrees :
    (x : Encoded) (q : Option Encoded) (e : Encoded)
    → Agrees q e
    → Agrees (go_on x q) (and_then x e)
go_on-Agrees (wrote b) none e h r k = absurd (ground arith)
go_on-Agrees (wrote b) (some y) e h r k = rw (h y refl) (some-Agrees (and_then (wrote b) y) r k)
go_on-Agrees (failed x) q e h r k = some-Agrees (failed x) r k
go_on-Agrees panics q e h r k = some-Agrees panics r k

then_result-Agrees :
    (m q : Option Encoded) (d e : Encoded)
    → Agrees m d
    → Agrees q e
    → Agrees (then_result m q) (and_then d e)
then_result-Agrees none q d e h h' r k = absurd (ground arith)
then_result-Agrees (some x) q d e h h' r k = rw (h x refl) (go_on-Agrees x q e h' r k)

if-Agrees :
    (b : Bool) (m q : Option Encoded) (d e : Encoded)
    → Agrees m d
    → Agrees q e
    → Agrees (if b then m else q) (if b then d else e)
if-Agrees true m q d e h k = h
if-Agrees false m q d e h k = k

array_result-Agrees :
    (n : ℕ) (m : Option Encoded) (e : Encoded)
    → Agrees m e
    → Agrees (array_result n m) (encode_array n e)
array_result-Agrees n m e h =
    if-Agrees (ltb max_uint16 n) _ _ _ _ (some-Agrees _)
      (then_result-Agrees (some (wrote (put_le 2 n))) m _ e (some-Agrees _) h)

count-tree_items :
    (expand : ℕ → Value) (os : ObjectItems) → count (tree_items expand os) ≡ count_objects os
unfolding tree
count-tree_items expand no_items = refl
count-tree_items expand (item o os) = ap suc (count-tree_items expand os)

module _ (exported : Text → Bool) (follow : ℕ → Option Encoded) (expand : ℕ → Value) (l : ℕ)
    (s : List ℕ)
    (agrees : (a : ℕ)
      → Agrees (follow a) (encode exported l s (Encoding.pointer a (expand a)))) where
  mutual
    unfolding encode_object encode tree

    encode_object-Agrees :
        (o : Object)
        → Agrees (encode_object exported follow o) (encode exported l s (tree expand o))
    encode_object-Agrees (word k n) = some-Agrees _
    encode_object-Agrees (string t) = some-Agrees _
    encode_object-Agrees (bytes b) = some-Agrees _
    encode_object-Agrees (int8 n) = some-Agrees _
    encode_object-Agrees other = some-Agrees _
    encode_object-Agrees nil = some-Agrees _
    encode_object-Agrees (reference a) = agrees a
    encode_object-Agrees (structure fs) = wrap_result-Agrees _ _ _ (fields-Agrees fs)
    encode_object-Agrees (slice os) = rw (count-tree_items expand os) (
        wrap_result-Agrees _ _ _
          (array_result-Agrees (count_objects os) _ _ (items-Agrees zero os)))

    fields-Agrees :
        (fs : ObjectFields)
        → Agrees
            (encode_object_fields exported follow fs)
            (encode_struct exported l s (tree_fields expand fs))
    fields-Agrees no_fields = some-Agrees _
    fields-Agrees (field n o fs) = if-Agrees (is_lower n) _ _ _ _ (fields-Agrees fs) (
        if-Agrees (exported n) _ _ _ _
          (then_result-Agrees _ _ _ _ (wrap_result-Agrees _ _ _ (encode_object-Agrees o))
            (fields-Agrees fs))
          (some-Agrees panics))

    items-Agrees :
        (i : ℕ) (os : ObjectItems)
        → Agrees
            (encode_object_items exported follow i os)
            (encode_items exported l s i (tree_items expand os))
    items-Agrees i no_items = some-Agrees _
    items-Agrees i (item o os) =
        then_result-Agrees _ _ _ _ (wrap_result-Agrees _ _ _ (encode_object-Agrees o))
          (items-Agrees (suc i) os)

  encode_pointed-Agrees :
      (o : Object)
      → Agrees (encode_pointed exported follow o) (encode_target exported l s (tree expand o))
  unfolding encode_pointed encode_object encode tree
  encode_pointed-Agrees (structure fs) = wrap_result-Agrees _ _ _ (fields-Agrees fs)
  encode_pointed-Agrees (slice os) =
      rw (count-tree_items expand os) (
        wrap_result-Agrees _ _ _
          (array_result-Agrees (count_objects os) _ _ (items-Agrees zero os)))
  encode_pointed-Agrees (bytes b) = some-Agrees _
  encode_pointed-Agrees (word k n) = some-Agrees _
  encode_pointed-Agrees (string t) = some-Agrees _
  encode_pointed-Agrees (int8 n) = some-Agrees _
  encode_pointed-Agrees other = some-Agrees _
  encode_pointed-Agrees nil = some-Agrees _
  encode_pointed-Agrees (reference a) = some-Agrees _

module _ (exported : Text → Bool) (memory : List Object) where
  follow_pointer-Agrees :
      (fuel l : ℕ) (s : List ℕ) (a : ℕ)
      → Agrees
          (follow_pointer exported memory fuel l s a)
          (encode exported l s (Encoding.pointer a (walk memory fuel a)))
  unfolding follow_pointer encode walk
  follow_pointer-Agrees zero l s a r h = absurd (ground arith)
  follow_pointer-Agrees (suc fuel) l s a r h =
      let t : List ℕ = if is_deep (suc l) then a ∷ s else s in
      if-Agrees (is_deep (suc l) && is_seen a s) _ _ _ _ (some-Agrees (failed encode_cycle))
        (encode_pointed-Agrees exported (follow_pointer exported memory fuel (suc l) t)
          (walk memory fuel) (suc l) t (follow_pointer-Agrees fuel (suc l) t) (load memory a))
        r h

  -- Marshal returns on any value in any memory, with cycles of pointers too, and what it returns is what
  -- it does on the tree that a walk along the pointers meets, to a depth above 100 and the size of the
  -- memory: behind 100 levels every pointer that is followed is another one.
  pub marshal_object-marshal :
      (o : Object) (fuel : ℕ)
      → 100 + length memory < fuel
      → marshal_object exported memory fuel o ≡ some (marshal exported (tree (walk memory fuel) o))
  unfolding marshal_object marshal
  marshal_object-marshal o fuel h =
      let (r, e) = marshal_object-IsTotal exported memory o fuel h in
      e
      ∙ ap some (
          sym (
            encode_object-Agrees exported (follow_pointer exported memory fuel zero [])
              (walk memory fuel) zero [] (follow_pointer-Agrees fuel zero []) o r e))
