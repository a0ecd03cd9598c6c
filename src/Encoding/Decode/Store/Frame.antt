-- ===== src/Encoding/Decode/Store/Frame.antt =====
-- Which variables and arrays a step of Encoding.Decode.Store leaves as they are, and which ones what it
-- has decoded depends on.
use tcp_gateway.Prelude.{ℕ, ◌+◌, ◌≤◌, ◌<◌, ◌≡◌, refl, ◌∙◌, arith, ltb, Bool-cases, inl, inr, ◌⊎◌}
use tcp_gateway.Encoding.Decode.Heap.{Cell, Store, Header, append, write_element, new_array}

-- All that was there before is as it was.
pub record Extends (s t : Store) : Type 0 where
  pub objects_le : s.next_object ≤ t.next_object
  pub objects : (a : ℕ) → a < s.next_object → t.objects a ≡ s.objects a
  pub arrays_le : s.next_array ≤ t.next_array
  pub arrays : (a i : ℕ) → a < s.next_array → t.arrays a i ≡ s.arrays a i

-- What was made between s and t is in u as it is in t.
pub record Same (s t u : Store) : Type 0 where
  pub objects : (a : ℕ) → s.next_object ≤ a → a < t.next_object → u.objects a ≡ t.objects a
  pub arrays : (a i : ℕ) → s.next_array ≤ a → a < t.next_array → u.arrays a i ≡ t.arrays a i

-- What was decoded over the store s: all that was there is as it was, and the result shows the value in
-- every store with what was made for it.
abbrev pub Refines : {X V : Type 0} → (Store → X → V) → Store → V → X × Store → Type 0
Refines shown s v (c, t) = Extends s t × ((u : Store) → Same s t u → shown u c ≡ v)

pub Extends-refl : (s : Store) → Extends s s
Extends-refl s = record {
  objects_le = omega arith;
  objects = λ a h. refl;
  arrays_le = omega arith;
  arrays = λ a i h. refl;
}

pub Same-refl : (s t : Store) → Same s t t
Same-refl s t = record { objects = λ a l k. refl; arrays = λ a i l k. refl }

pub Extends-trans : (s t u : Store) → Extends s t → Extends t u → Extends s u
Extends-trans s t u p q = record {
  objects_le = omega (arith, p.objects_le, q.objects_le);
  objects = λ a h. q.objects a (omega (arith, h, p.objects_le)) ∙ p.objects a h;
  arrays_le = omega (arith, p.arrays_le, q.arrays_le);
  arrays = λ a i h. q.arrays a i (omega (arith, h, p.arrays_le)) ∙ p.arrays a i h;
}

pub Same-first : (s t u w : Store) → Extends t u → Same s u w → Same s t w
Same-first s t u w q h = record {
  objects = λ a l k. h.objects a l (omega (arith, k, q.objects_le)) ∙ q.objects a k;
  arrays = λ a i l k. h.arrays a i l (omega (arith, k, q.arrays_le)) ∙ q.arrays a i k;
}

pub Same-second : (s t u w : Store) → Extends s t → Same s u w → Same t u w
Same-second s t u w p h = record {
  objects = λ a l k. h.objects a (omega (arith, l, p.objects_le)) k;
  arrays = λ a i l k. h.arrays a i (omega (arith, l, p.arrays_le)) k;
}

-- The array of a slice that was nil over the store s is made behind it.
pub record IsOwned (s t : Store) (h : Header) : Type 0 where
  pub extends : Extends s t
  pub fits : h.len ≤ h.cap
  pub own : (h.cap ≡ 0) ⊎ ((s.next_array ≤ h.array) × (h.array < t.next_array))

-- Append puts one cell behind the others.
pub record Appended (s t : Store) (h : Header) (c : Cell) (t' : Store) (h' : Header) : Type 0 where
  pub owned : IsOwned s t' h'
  pub longer : h'.len ≡ h.len + 1
  pub last : t'.arrays h'.array h.len ≡ c
  pub others : (j : ℕ) → j < h.len → t'.arrays h'.array j ≡ t.arrays h.array j

write_element-Appended :
    (s t : Store) (h : Header) (c : Cell)
    → IsOwned s t h
    → h.len < h.cap
    → Appended s t h c (write_element h.array h.len c t) (record h { len = h.len + 1 })
write_element-Appended s t h c v l =
    let o : (s.next_array ≤ h.array) × (h.array < t.next_array) = elim v.own [
      | inl e ↦ absurd (omega (arith, e, l))
      | inr o ↦ o
    ] in
    record {
      owned = record {
        extends = record {
          objects_le = v.extends.objects_le;
          objects = v.extends.objects;
          arrays_le = v.extends.arrays_le;
          arrays = λ a i k. ground (arith, v.extends.arrays a i k, o.0);
        };
        fits = omega (arith, l);
        own = inr o;
      };
      longer = refl;
      last = ground arith;
      others = λ j k. ground arith;
    }

new_array-Appended :
    (s t : Store) (h : Header) (c : Cell) (n : ℕ)
    → IsOwned s t h
    → Appended s t h c
        (new_array h.array h.len c t)
        (record { array = t.next_array; len = h.len + 1; cap = h.len + 1 + n })
new_array-Appended s t h c n v = record {
  owned = record {
    extends = record {
      objects_le = v.extends.objects_le;
      objects = v.extends.objects;
      arrays_le = omega (arith, v.extends.arrays_le);
      arrays = λ a i k. ground (arith, v.extends.arrays a i k, v.extends.arrays_le);
    };
    fits = omega arith;
    own = inr (v.extends.arrays_le, omega arith);
  };
  longer = refl;
  last = ground arith;
  others = λ j k. ground arith;
}

pub append-Appended :
    (spare : ℕ → ℕ) (s t : Store) (h : Header) (c : Cell)
    → IsOwned s t h
    → Appended s t h c (append spare h c t).1 (append spare h c t).0
unfolding append
append-Appended spare s t h c v = elim (Bool-cases (ltb h.len h.cap)) [
  | inl e ↦ rw e (write_element-Appended s t h c v (ground (arith, e)))
  | inr e ↦ rw e (new_array-Appended s t h c (spare h.len) v)
]
