-- ===== src/Agent/Reader/Soundness.antt =====
-- What a round of `loopRead` of pkg/agent/agent.go has read when it got a message.
use native.Mathlib.Nat.{mod-eq_of_lt}
use tcp_gateway.Prelude.{
  ℕ, ◌+◌, ◌^◌, ◌≤◌, ◌<◌, ◌≡◌, refl, ap, ap₂, ◌∙◌, none, some, [], ◌∷◌, ◌++◌, append_assoc, arith,
  length, length-append, length-take, take-append-drop, All, ◌⊎◌, inl, inr, All-append_left, subst,
}
use tcp_gateway.Bytes.{Bytes, IsByte, slice, put_le, le, put_le-le}
use tcp_gateway.Interfaces.{Error, Msg}
use tcp_gateway.Writer.{frame}
use tcp_gateway.Hooks.{hook_header}
use tcp_gateway.Hooks.Laws.{InRange, check_header-none}
use tcp_gateway.Agent.Reader.{Conn, Read, got, failed, read_full, read_message, body_size}

pub Read-cases {ℓ} :
    {A : Type ℓ} (r : Read A)
    → ((e : Error) × (r ≡ failed e)) ⊎ ((a : A) × (c : Conn) × (r ≡ got a c))
Read-cases (got a c) = inr (a, c, refl)
Read-cases (failed e) = inl (e, refl)

read_full-eq-got :
    (n : ℕ) (c : Conn) {xs : Bytes} {c' : Conn}
    → read_full n c ≡ got xs c'
    → (c.input ≡ xs ++ c'.input) × (length xs ≡ n) × (c'.last ≡ c.last)
unfolding read_full
read_full-eq-got n c h = (
  ground (arith, take-append-drop n c.input),
  ground (arith, length-take n c.input),
  ground arith,
)

-- The ten bytes of a header are its id, its size and its sequence id.
header_fields :
    (h : Bytes)
    → length h ≡ 10
    → All IsByte h
    → put_le 2 (le (slice 0 2 h)) ++ (put_le 4 (le (slice 2 6 h)) ++ put_le 4 (le (slice 6 10 h)))
      ≡ h
header_fields (a ∷ b ∷ c ∷ d ∷ e ∷ f ∷ g ∷ h ∷ i ∷ j ∷ []) n bs =
    ap₂ ◌++◌ (put_le-le (a ∷ b ∷ []) (omega arith)) (
      ap₂ ◌++◌ (put_le-le (c ∷ d ∷ e ∷ f ∷ []) (omega arith))
        (put_le-le (g ∷ h ∷ i ∷ j ∷ []) (omega arith)))
header_fields _ n bs = absurd (omega arith)

-- Bytes that are sent in a frame.
abbrev pub Frames : Conn → Msg → Conn → Type 0
Frames c msg c' =
    (seq : ℕ) × (c.input ≡ frame msg.id msg.body seq ++ c'.input)
    × InRange msg.id (length msg.body + 10)
    × (c'.last ≡ c.last)

-- The steps of a round that got a message.
record Parts (c : Conn) (msg : Msg) (c' : Conn) (header : Bytes) (c₁ : Conn) : Type 0 where
  head : read_full 10 c ≡ got header c₁
  hook : hook_header (some header) ≡ none
  body : read_full (body_size (le (slice 2 6 header))) c₁ ≡ got msg.body c'
  id : msg.id ≡ le (slice 0 2 header)

read_message-Parts :
    (c : Conn) (msg : Msg) (c' : Conn)
    → read_message c ≡ got msg c'
    → (header : Bytes) × (c₁ : Conn) × Parts c msg c' header c₁
unfolding read_message
read_message-Parts c msg c' h = elim (Read-cases (read_full 10 c)) [
  | inl (e, p) ↦ absurd (ground arith)
  | inr (header, c₁, p) ↦
      (header, c₁, record { head = p; hook = ground arith; body = ground arith; id = ground arith })
]

-- A round that got a message has used up a header at least.
pub read_message_shorter :
    (c : Conn) {msg : Msg} {c' : Conn}
    → read_message c ≡ got msg c'
    → length c'.input + 10 ≤ length c.input
read_message_shorter c {msg} {c'} h =
    let (header, c₁, p) = read_message-Parts c msg c' h in
    let r = read_full-eq-got 10 c p.head in
    let q = read_full-eq-got _ c₁ p.body in
    omega (
      arith,
      ap length r.0,
      ap length q.0,
      r.1,
      length-append header c₁.input,
      length-append msg.body c'.input,
    )

frame-fields :
    (h body : Bytes)
    → length h ≡ 10
    → All IsByte h
    → le (slice 2 6 h) ≡ length body + 10
    → length body + 10 < 2 ^ 32
    → frame (le (slice 0 2 h)) body (le (slice 6 10 h)) ≡ h ++ body
unfolding frame
frame-fields h body n bs size small =
    rw (mod-eq_of_lt small, ← size) (ap (λ t. t ++ body) (header_fields h n bs))

header-InRange :
    (h : Bytes) → hook_header (some h) ≡ none → InRange (le (slice 0 2 h)) (le (slice 2 6 h))
unfolding hook_header
header-InRange h e = check_header-none _ _ e

Parts-Frames :
    (c : Conn) (msg : Msg) (c' : Conn) (header : Bytes) (c₁ : Conn)
    → All IsByte c.input
    → Parts c msg c' header c₁
    → Frames c msg c'
Parts-Frames c msg c' header c₁ bs p =
    (le (slice 6 10 header), input, rw (p.id, ← size) range, q.2 ∙ r.2)
  where
    r : (c.input ≡ header ++ c₁.input) × (length header ≡ 10) × (c₁.last ≡ c.last)
    r = read_full-eq-got 10 c p.head

    q :
        (c₁.input ≡ msg.body ++ c'.input)
        × (length msg.body ≡ body_size (le (slice 2 6 header)))
        × (c'.last ≡ c₁.last)
    q = read_full-eq-got _ c₁ p.body

    range : InRange (le (slice 0 2 header)) (le (slice 2 6 header))
    range = header-InRange header p.hook

    size : le (slice 2 6 header) ≡ length msg.body + 10
    size = omega (arith, q.1, range.size_from, range.size_to)

    bytes : All IsByte header
    bytes = All-append_left IsByte header c₁.input (subst (All IsByte) r.0 bs)

    framed : frame msg.id msg.body (le (slice 6 10 header)) ≡ header ++ msg.body
    framed =
        rw p.id (frame-fields header msg.body r.1 bytes size (omega (arith, size, range.size_to)))

    input : c.input ≡ frame msg.id msg.body (le (slice 6 10 header)) ++ c'.input
    input = rw (framed, append_assoc, ← q.0) r.0

-- A message that the loop gets was sent in a frame, and is in range.
pub read_message-Frames :
    (c : Conn) {msg : Msg} {c' : Conn}
    → All IsByte c.input
    → read_message c ≡ got msg c'
    → Frames c msg c'
read_message-Frames c {msg} {c'} bs h =
    let (header, c₁, p) = read_message-Parts c msg c' h in Parts-Frames c msg c' header c₁ bs p
