-- ===== src/Text/Trim.antt =====
-- Laws of strings.TrimSpace.
use tcp_gateway.Prelude.{All, ℕ, ◌≡◌, refl, ap, false, [], ◌∷◌, arith, Bool-cases, inl, inr}
use tcp_gateway.Text.{Text, is_space, trim_left, trim_cons, trim_right, trim_space}

-- A text that does not start with a space.
abbrev NoLead : Text → Type 0
NoLead [] = Unit {0}
NoLead (x ∷ xs) = is_space x ≡ false

trim_left-NoLead : (s : Text) → NoLead (trim_left s)
unfolding trim_left
trim_left-NoLead [] = tt
trim_left-NoLead (x ∷ xs) = elim (Bool-cases (is_space x)) [
  | inl e ↦ rw e (trim_left-NoLead xs)
  | inr e ↦ rw e e
]

trim_left_of : (s : Text) → NoLead s → trim_left s ≡ s
unfolding trim_left
trim_left_of [] h = refl
trim_left_of (x ∷ xs) h = rw h

trim_cons-NoLead : (x : ℕ) (s : Text) → is_space x ≡ false → NoLead (trim_cons x s)
trim_cons-NoLead x [] h = rw h h
trim_cons-NoLead x (y ∷ ys) h = h

trim_right-NoLead : (s : Text) → NoLead s → NoLead (trim_right s)
unfolding trim_right
trim_right-NoLead [] h = tt
trim_right-NoLead (x ∷ xs) h = trim_cons-NoLead x (trim_right xs) h

trim_right-trim_cons :
    (x : ℕ) (s : Text) → trim_right s ≡ s → trim_right (trim_cons x s) ≡ trim_cons x s
unfolding trim_right
trim_right-trim_cons x [] h = ground arith
trim_right-trim_cons x (y ∷ ys) h = ap (trim_cons x) h

trim_right-trim_right : (s : Text) → trim_right (trim_right s) ≡ trim_right s
unfolding trim_right
trim_right-trim_right [] = refl
trim_right-trim_right (x ∷ xs) = trim_right-trim_cons x (trim_right xs) (trim_right-trim_right xs)

-- Trimming twice is trimming once.
pub trim_space-trim_space : (s : Text) → trim_space (trim_space s) ≡ trim_space s
unfolding trim_space
trim_space-trim_space s =
    rw
      (trim_left_of (trim_right (trim_left s))
        (trim_right-NoLead (trim_left s) (trim_left-NoLead s)))
      (trim_right-trim_right (trim_left s))

abbrev pub NotSpace : ℕ → Type 0
NotSpace c = is_space c ≡ false

trim_right_of : (s : Text) → All NotSpace s → trim_right s ≡ s
unfolding trim_right
trim_right_of [] h = refl
trim_right_of (x ∷ []) h = ground (arith, h.0)
trim_right_of (x ∷ y ∷ ys) h = ap (trim_cons x) (trim_right_of (y ∷ ys) h.1)

-- A text without a space is as it is trimmed.
pub trim_space_of : (s : Text) → All NotSpace s → trim_space s ≡ s
unfolding trim_space
trim_space_of [] h = refl
trim_space_of (x ∷ xs) h = rw (trim_left_of (x ∷ xs) h.0) (trim_right_of (x ∷ xs) h)
