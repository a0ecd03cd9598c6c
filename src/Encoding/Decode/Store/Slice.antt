-- ===== src/Encoding/Decode/Store/Slice.antt =====
-- The loop of decodeArray over a store, for a slice of flat elements.
use tcp_gateway.Prelude.{ℕ, zero, suc, ◌+◌, ◌<◌, ◌≡◌, refl, ap, ap₂, ◌∙◌, arith, inl, inr}
use mathlib.Core.Path.{fun_ext}
use tcp_gateway.Bytes.{Bytes}
use tcp_gateway.Encoding.{Value, Items, no_items, item, slice}
use tcp_gateway.Encoding.Decode.{
  Flat, got, ◌>>=◌, at_place, in_element, decode_flat, decode_items, decode_length, array_len_eof,
}
use tcp_gateway.Encoding.Decode.Heap.{Cell, Header, nil_header, Store, append}
use tcp_gateway.Encoding.Decode.Store.{
  decode_elements, decode_array, decode_into, shown, show_elements, show_header,
}
use tcp_gateway.Encoding.Decode.Store.Frame.{
  Same, IsOwned, Appended, append-Appended, Extends-refl, Refines,
}
use tcp_gateway.Encoding.Decode.Store.Relation.{
  Related, Related-at_place, Related-got, Related->>=, Related-after, Related-with,
}
use tcp_gateway.Encoding.Decode.Store.Flat.{of_flat, Leaves, decode_into-of_flat}

-- The elements behind h are those of vs; what was in front of them, and over s, is as it was.
pub record Filled (f : Store → Cell → Value) (s : Store) (t : Store) (h : Header) (k : ℕ)
    (vs : Items) (h' : Header) (t' : Store) : Type 0 where
  pub owned : IsOwned s t' h'
  pub longer : h'.len ≡ h.len + k
  pub others : (j : ℕ) → j < h.len → t'.arrays h'.array j ≡ t.arrays h.array j
  pub elements : (u : Store) → show_elements (f u) (t'.arrays h'.array) h.len k ≡ vs

abbrev Fills :
    (f : Store → Cell → Value) (s t : Store) (h : Header) (k : ℕ) → Items → Header × Store → Type 0
Fills f s t h k vs (h', t') = Filled f s t h k vs h' t'

Filled-zero :
    (f : Store → Cell → Value) (s t : Store) (h : Header)
    → IsOwned s t h
    → Filled f s t h 0 no_items h t
unfolding show_elements
Filled-zero f s t h v = record {
  owned = v;
  longer = omega arith;
  others = λ j l. refl;
  elements = λ u. refl;
}

Filled-suc :
    (f : Store → Cell → Value) (s t t₁ t' : Store) (h h₁ h' : Header) (c : Cell) (v : Value) (k : ℕ)
    (vs : Items)
    → Appended s t h c t₁ h₁
    → ((u : Store) → f u c ≡ v)
    → Filled f s t₁ h₁ k vs h' t'
    → Filled f s t h (suc k) (item v vs) h' t'
unfolding show_elements
Filled-suc f s t t₁ t' h h₁ h' c v k vs a x r = record {
  owned = r.owned;
  longer = omega (arith, r.longer, a.longer);
  others = λ j l. r.others j (omega (arith, l, a.longer)) ∙ a.others j l;
  elements = λ u. ap₂ item (ap (f u) (r.others h.len (omega (arith, a.longer)) ∙ a.last) ∙ x u) (
      ap (λ i. show_elements (f u) (t'.arrays h'.array) i k)
        (let e : suc h.len ≡ h₁.len = omega (arith, a.longer) in e)
      ∙ r.elements u);
}

show_elements-none :
    (f : Cell → Value) (a b : ℕ → Cell) (n m : ℕ)
    → n ≡ 0
    → m ≡ 0
    → show_elements f a 0 n ≡ show_elements f b 0 m
unfolding show_elements
show_elements-none f a b n m p q = rw (p, q) refl

Filled-show_header :
    (f : Store → Cell → Value) (l : ℕ) (vs : Items) (s : Store) (h : Header) (t u : Store)
    → Filled f s s nil_header l vs h t
    → Same s t u
    → show_header (f u) u h ≡ slice vs
Filled-show_header f l vs s h t u r q = ap slice (same ∙ r.elements u)
  where
    same :
        show_elements (f u) (u.arrays h.array) 0 h.len ≡ show_elements (f u) (t.arrays h.array) 0 l
    same = elim r.owned.own [
      | inl z ↦
          show_elements-none (f u) (u.arrays h.array) (t.arrays h.array) h.len l
            (omega (arith, z, r.owned.fits)) (omega (arith, z, r.owned.fits, r.longer))
      | inr (a, b) ↦
          ap₂ (λ x n. show_elements (f u) x 0 n) (fun_ext (λ i. q.arrays h.array i a b))
            (omega (arith, r.longer))
    ]

module _ (spare : ℕ → ℕ) (e : Flat) (s : Store) where
  nil_header-IsOwned : IsOwned s s nil_header
  nil_header-IsOwned = record { extends = Extends-refl s; fits = omega arith; own = inl refl }

  decode_elements-decode_items :
      (k i : ℕ) (c : Cell) (h : Header) (t : Store) (d : Bytes)
      → IsOwned s t h
      → Related
          (Fills (shown (of_flat e)) s t h k)
          (decode_items e k i d)
          (decode_elements spare (decode_into spare (of_flat e)) k i c h t d)
  unfolding decode_items decode_elements
  decode_elements-decode_items zero i c h t d v =
      Related-got (Fills (shown (of_flat e)) s t h 0) no_items (h, t) d
        (Filled-zero (shown (of_flat e)) s t h v)
  decode_elements-decode_items (suc k) i c h t d v =
      let f = shown (of_flat e) in
      Related->>= (Leaves f t) (Fills f s t h (suc k)) (at_place (in_element i) (decode_flat e d))
        (at_place (in_element i) (decode_into spare (of_flat e) c t d))
        (λ w r. decode_items e k (suc i) r >>= λ vs r'. got (item w vs) r')
        (λ (c', t') r.
          let (h', t'') = append spare h c' t' in
          decode_elements spare (decode_into spare (of_flat e)) k (suc i) c' h' t'' r)
        (Related-at_place (Leaves f t) (in_element i) (decode_flat e d)
          (decode_into spare (of_flat e) c t d) (decode_into-of_flat spare e c t d))
        (λ w r (c', t') (p, x). rw p (
          let a = append-Appended spare s t h c' v in
          let (h', t'') = append spare h c' t in
          Related-with (Fills f s t'' h' k) (Fills f s t h (suc k)) (decode_items e k (suc i) r)
            (decode_elements spare (decode_into spare (of_flat e)) k (suc i) c' h' t'' r) (item w)
            (decode_elements-decode_items k (suc i) c' h' t'' r a.owned)
            (λ vs (g, t') q. Filled-suc f s t t'' t' h h' g c' w k vs a x q)))

  pub decode_array-slice :
      (c : Cell) (d : Bytes)
      → Related
          (Refines (λ u h. show_header (shown (of_flat e) u) u h) s)
          (decode_length array_len_eof d >>= λ l r.
            decode_items e l 0 r >>= λ vs r'. got (slice vs) r')
          (decode_array spare (decode_into spare (of_flat e)) c nil_header s d)
  decode_array-slice c d =
      let f = shown (of_flat e) in
      let R = Refines (λ u h. show_header (f u) u h) s in
      Related-after R (decode_length array_len_eof d)
        (λ l r. decode_items e l 0 r >>= λ vs r'. got (slice vs) r')
        (λ l r. decode_elements spare (decode_into spare (of_flat e)) l 0 c nil_header s r)
        (λ l r.
          Related-with (Fills f s s nil_header l) R (decode_items e l 0 r)
            (decode_elements spare (decode_into spare (of_flat e)) l 0 c nil_header s r) slice
            (decode_elements-decode_items l 0 c nil_header s r nil_header-IsOwned)
            (λ vs (h, t) q. (q.owned.extends, λ u same. Filled-show_header f l vs s h t u q same)))
