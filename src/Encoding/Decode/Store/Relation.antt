-- ===== src/Encoding/Decode/Store/Relation.antt =====
-- Two decoders of Encoding.Decode.Store and Encoding.Decode on the same data: the same course, with related
-- results.
use tcp_gateway.Prelude.{◌≡◌, refl, ap, ap₂}
use tcp_gateway.Bytes.{Bytes}
use tcp_gateway.Encoding.Decode.{DecodeError, Decoding, got, failed, ◌>>=◌, at_place}

abbrev pub result : {A R : Type 0} → (A → Bytes → R) → (DecodeError → Bytes → R) → Decoding A → R
result f k (got a r) = f a r
result f k (failed e r) = k e r

module _ {V Y : Type 0} (P : V → Y → Type 0) where
  -- The same rest of the data and results that P relates, or the same error at the same place.
  unfoldable pub Related : Decoding V → Decoding Y → Type 0
  Related (got v r) (got y r') = (r' ≡ r) × P v y
  Related (failed e r) (failed e' r') = (e' ≡ e) × (r' ≡ r)
  Related (got v r) (failed e r') = ⊥
  Related (failed e r) (got y r') = ⊥

  pub Related-at_place :
      (f : DecodeError → DecodeError) (m : Decoding V) (m' : Decoding Y)
      → Related m m'
      → Related (at_place f m) (at_place f m')
  unfolding Related
  Related-at_place f (got v r) (got y r') h = h
  Related-at_place f (failed e r) (failed e' r') (p, q) = (ap f p, q)
  Related-at_place f (got v r) (failed e r') h = h
  Related-at_place f (failed e r) (got y r') h = h

  pub Related-got : (v : V) (y : Y) (r : Bytes) → P v y → Related (got v r) (got y r)
  unfolding Related
  Related-got v y r p = (refl, p)

  pub Related-map :
      (m : Decoding V) (g : V → Y) → ((v : V) → P v (g v)) → Related m (m >>= λ v r. got (g v) r)
  unfolding Related
  Related-map (got v r) g p = (refl, p v)
  Related-map (failed e r) g p = (refl, refl)

module _ {V Y W Z : Type 0} (P : V → Y → Type 0) (Q : W → Z → Type 0) where
  pub Related->>= :
      (m : Decoding V) (m' : Decoding Y) (f : V → Bytes → Decoding W) (f' : Y → Bytes → Decoding Z)
      → Related P m m'
      → ((v : V) (r : Bytes) (y : Y) → P v y → Related Q (f v r) (f' y r))
      → Related Q (m >>= f) (m' >>= f')
  unfolding Related
  Related->>= (got v r) (got y r') f f' (e, p) k = rw e (k v r y p)
  Related->>= (failed e r) (failed e' r') f f' h k = h
  Related->>= (got v r) (failed e r') f f' h k = absurd h
  Related->>= (failed e r) (got y r') f f' h k = absurd h

module _ {V Y W : Type 0} (P : V → Y → Type 0) (Q : W → Y → Type 0) where
  pub Related-with :
      (m : Decoding V) (m' : Decoding Y) (g : V → W)
      → Related P m m'
      → ((v : V) (y : Y) → P v y → Q (g v) y)
      → Related Q (m >>= λ v r. got (g v) r) m'
  unfolding Related
  Related-with (got v r) (got y r') g (e, p) k = (e, k v y p)
  Related-with (failed e r) (failed e' r') g h k = h
  Related-with (got v r) (failed e r') g h k = absurd h
  Related-with (failed e r) (got y r') g h k = absurd h

module _ {V Y : Type 0} (P Q : V → Y → Type 0) where
  pub Related-weaken :
      (m : Decoding V) (m' : Decoding Y)
      → Related P m m'
      → ((v : V) (y : Y) → P v y → Q v y)
      → Related Q m m'
  unfolding Related
  Related-weaken (got v r) (got y r') (e, p) k = (e, k v y p)
  Related-weaken (failed e r) (failed e' r') h k = h
  Related-weaken (got v r) (failed e r') h k = absurd h
  Related-weaken (failed e r) (got y r') h k = absurd h

module _ {V Y R : Type 0} (P : V → Y → Type 0) where
  -- What a caller makes of related results is the same.
  pub Related-result :
      (f : V → Bytes → R) (g : Y → Bytes → R) (k : DecodeError → Bytes → R) (m : Decoding V)
      (m' : Decoding Y)
      → Related P m m'
      → ((v : V) (r : Bytes) (y : Y) → P v y → g y r ≡ f v r)
      → result g k m' ≡ result f k m
  unfolding Related
  Related-result f g k (got v r) (got y r') (e, p) h = rw e (h v r y p)
  Related-result f g k (failed e r) (failed e' r') (p, q) h = ap₂ k p q
  Related-result f g k (got v r) (failed e r') h q = absurd h
  Related-result f g k (failed e r) (got y r') h q = absurd h

module _ {V Y Z : Type 0} (P : V → Y → Type 0) (Q : V → Z → Type 0) where
  pub Related-then :
      (m : Decoding V) (m' : Decoding Y) (g : Y → Z)
      → Related P m m'
      → ((v : V) (y : Y) → P v y → Q v (g y))
      → Related Q m (m' >>= λ y r. got (g y) r)
  unfolding Related
  Related-then (got v r) (got y r') g (e, p) k = (e, k v y p)
  Related-then (failed e r) (failed e' r') g h k = h
  Related-then (got v r) (failed e r') g h k = absurd h
  Related-then (failed e r) (got y r') g h k = absurd h

module _ {V W Z : Type 0} (Q : W → Z → Type 0) where
  pub Related-after :
      (m : Decoding V) (f : V → Bytes → Decoding W) (f' : V → Bytes → Decoding Z)
      → ((v : V) (r : Bytes) → Related Q (f v r) (f' v r))
      → Related Q (m >>= f) (m >>= f')
  unfolding Related
  Related-after (got v r) f f' k = k v r
  Related-after (failed e r) f f' k = (refl, refl)
