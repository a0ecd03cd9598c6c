-- ===== src/Encoding/Decode/Progress.antt =====
-- How far the steps of pkg/encoding/decode.go get in any data, and what they make of it.
use tcp_gateway.Prelude.{
  ℕ, zero, suc, ◌^◌, ◌≤◌, ◌<◌, leb, ◌≡◌, refl, sym, ap, ◌∙◌, inl, inr, Bool-cases, Option-cases,
  none, some, [], ◌∷◌, ◌++◌, append_assoc, length, take, drop, if◌then◌else◌, arith,
  take-append-drop, length-take, All, All-append_left, All-append_right, subst, true, false,
}
use tcp_gateway.Bytes.{Bytes, IsByte, le, le-lt}
use tcp_gateway.Text.{Text}
use tcp_gateway.Encoding.{Scalar, Value, word, string, bytes, Fields, field, index_zero, is_lower}
use tcp_gateway.Encoding.Decode.{
  Flat, FlatFields, flat_word, flat_string, flat_bytes, DecodeError, Decoding, got, failed, width,
  decode_word, decode_string, decode_length, decode_bytes, bytes_len_eof, at_place, in_field, ◌>>=◌,
}
use tcp_gateway.Encoding.Decode.Fits.{visible, visible_fields, IsFlat, AreFlat}

-- The data has a part in front of the rest.
abbrev pub Before : Bytes → Bytes → Type 0
Before d r = (p : Bytes) × (d ≡ p ++ r)

-- What a decoder answers on the data: a value with the property, or an error. In either case the
-- rest is a part of the data.
abbrev pub From : {A : Type 0} → Bytes → (A → Type 0) → Decoding A → Type 0
From d P (got v r) = P v × Before d r
From d P (failed e r) = Before d r

From-Before :
    {A : Type 0} (P : A → Type 0) (d r : Bytes) (m : Decoding A)
    → Before d r
    → From r P m
    → From d P m
From-Before P d r (got v r') (p, e) (pv, (q, e')) =
    (pv, (p ++ q, e ∙ ap (◌++◌ p) e' ∙ sym (append_assoc p q r')))
From-Before P d r (failed x r') (p, e) (q, e') =
    (p ++ q, e ∙ ap (◌++◌ p) e' ∙ sym (append_assoc p q r'))

module _ {A B : Type 0} (P : A → Type 0) (Q : B → Type 0) where
  pub From->>= :
      (d : Bytes) (m : Decoding A) (f : A → Bytes → Decoding B)
      → All IsByte d
      → From d P m
      → ((v : A) (r : Bytes) → All IsByte r → P v → From r Q (f v r))
      → From d Q (m >>= f)
  From->>= d (failed e r) f h w k = w
  From->>= d (got v r) f h (pv, (p, e)) k =
      From-Before Q d r (f v r) (p, e)
        (k v r (All-append_right IsByte p r (subst (All IsByte) e h)) pv)

pub From-at_place :
    {A : Type 0} (P : A → Type 0) (d : Bytes) (g : DecodeError → DecodeError) (m : Decoding A)
    → From d P m
    → From d P (at_place g m)
From-at_place P d g (got v r) h = h
From-at_place P d g (failed e r) h = h

take_part : (n : ℕ) (d : Bytes) → Before d (drop n d)
take_part n d = (take n d, sym (take-append-drop n d))

take-IsByte : (n : ℕ) (d : Bytes) → All IsByte d → All IsByte (take n d)
take-IsByte n d h =
    All-append_left IsByte (take n d) (drop n d) (subst (All IsByte) (sym (take-append-drop n d)) h)

le-take : (n : ℕ) (d : Bytes) → All IsByte d → leb n (length d) ≡ true → le (take n d) < 256 ^ n
le-take n d h e =
    subst (λ m. le (take n d) < 256 ^ m) (ground (arith, length-take n d))
      (le-lt (take n d) (take-IsByte n d h))

-- The value is what shows of a value of the type.
abbrev pub OfFlat : Flat → Value → Type 0
OfFlat t v = (w : Value) × IsFlat t w × (visible w ≡ v)

pub word-From :
    (k : Scalar) (d : Bytes) → All IsByte d → From d (OfFlat (flat_word k)) (decode_word k d)
unfolding IsFlat visible
word-From k d h = elim (Bool-cases (leb (width k) (length d))) [
  | inl e ↦
      rw (e, From)
        (
          (word k (le (take (width k) d)), (_, refl, le-take (width k) d h e), refl),
          take_part (width k) d,
        )
  | inr e ↦ rw (e, From) ([], refl)
]

index_zero-take : (s : Text) (l : ℕ) → index_zero s ≡ some l → index_zero (take l s) ≡ none
index_zero-take [] l h = ground arith
index_zero-take (c ∷ s) zero h = refl
index_zero-take (c ∷ s) (suc l) h = ground (arith, index_zero-take s l)

pub string-From : (d : Bytes) → From d (OfFlat flat_string) (decode_string d)
unfolding IsFlat visible
string-From [] = ([], refl)
string-From (c ∷ d) = elim (Option-cases (index_zero (c ∷ d))) [
  | inl e ↦ rw (e, decode_string, From) ([], refl)
  | inr (l, e) ↦
      rw (e, decode_string, From)
        (
          (string (take l (c ∷ d)), (_, refl, index_zero-take (c ∷ d) l e), refl),
          take_part (suc l) (c ∷ d),
        )
]

pub length-From :
    (e : DecodeError) (d : Bytes) → All IsByte d → From d (λ n. n ≤ 65535) (decode_length e d)
length-From x d h = elim (Bool-cases (leb 2 (length d))) [
  | inl e ↦ rw (e, From) (omega (arith, le-take 2 d h e), take_part 2 d)
  | inr e ↦ rw (e, From) ([], refl)
]

pub bytes-From : (d : Bytes) → All IsByte d → From d (OfFlat flat_bytes) (decode_bytes d)
unfolding IsFlat visible
bytes-From d h =
    From->>= (λ n. n ≤ 65535) (OfFlat flat_bytes) d (decode_length bytes_len_eof d) _ h
      (length-From bytes_len_eof d h)
      (λ l r b k. elim (Bool-cases (leb l (length r))) [
        | inl e ↦
            rw (e, From)
              ((bytes (take l r), (_, refl, omega (arith, length-take l r)), refl), take_part l r)
        | inr e ↦ rw (e, From) ([], refl)
      ])

abbrev pub OfFields : FlatFields → Fields → Type 0
OfFields ts fs = (gs : Fields) × AreFlat ts gs × (visible_fields gs ≡ fs)

From-map :
    {A : Type 0} (P Q : A → Type 0) (d : Bytes) (m : Decoding A)
    → From d P m
    → ((v : A) → P v → Q v)
    → From d Q m
From-map P Q d (got v r) (pv, w) k = (k v pv, w)
From-map P Q d (failed e r) w k = w

-- One field of a struct, of a flat one or another.
pub field-From :
    (P : Value → Type 0) (Q S : Fields → Type 0) (n : Text) (d : Bytes)
    (first : Bytes → Decoding Value) (others : Bytes → Decoding Fields)
    → All IsByte d
    → From d P (first d)
    → ((r : Bytes) → All IsByte r → From r Q (others r))
    → (is_lower n ≡ true → (fs : Fields) → Q fs → S fs)
    → (is_lower n ≡ false → (v : Value) (fs : Fields) → P v → Q fs → S (field n v fs))
    → From d S (
        if is_lower n
        then others d
        else at_place (in_field n) (first d) >>= λ v r. others r >>= λ fs r'. got (field n v fs) r')
field-From P Q S n d first others h f o skipped used = elim (Bool-cases (is_lower n)) [
  | inl l ↦ rw l (From-map Q S d (others d) (o d h) (skipped l))
  | inr l ↦ rw l (
      From->>= P S d (at_place (in_field n) (first d))
        (λ v r. others r >>= λ fs r'. got (field n v fs) r') h
        (From-at_place P d (in_field n) (first d) f)
        (λ v r b pv.
          From->>= Q S r (others r) (λ fs r'. got (field n v fs) r') b (o r b)
            (λ fs r' b' q. (used l v fs pv q, ([], refl)))))
]

-- A field that is passed over may have had any value.
