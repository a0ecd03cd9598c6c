-- ===== src/Gateway/Accept/Ids.antt =====
-- The accept loop of pkg/gateway/gateway.go with the removals in between, and the ids that it has left.
use tcp_gateway.Prelude.{
  ℕ, ◌<◌, ◌≡◌, ◌≢◌, refl, inl, inr, ◌⊎◌, none, List, [], ◌∷◌, arith, All, All-append,
}
use tcp_gateway.Text.{Text, same_iff, decimal, trim_space, is_space}
use tcp_gateway.Text.Decimal.{decimal-IsDigit, IsDigit}
use tcp_gateway.Text.Trim.{trim_space_of, NotSpace}
use tcp_gateway.Maps.{Map, lookup, insert, delete, lookup-insert, lookup-delete}
use tcp_gateway.Gateway.{remove_agent}
use tcp_gateway.Gateway.Uid.{uid_text, uid_text-injective}
use tcp_gateway.Gateway.Accept.{
  Agent, Acceptor, Accepted, Round, continues, returns, crashes, accept_round,
}

-- What happens: a round of the accept loop, or a call of RemoveAgent, as in a finalizer.
pub data Event : Type 0 where
  accepting : Accepted → Event
  removing : Text → Event

abbrev pub perform : Event → Acceptor → Round
perform (accepting a) w = accept_round a w
perform (removing id) w = continues (record w { gateway = (remove_agent w.gateway id).0 })

unfoldable pub run : List Event → Acceptor → Round
run [] w = continues w
run (e ∷ es) w = elim (perform e w) [
  | continues w' ↦ run es w'
  | returns w' ↦ returns w'
  | crashes ↦ crashes
]

list_cases : (s : Text) → (s ≡ []) ⊎ ((c : ℕ) × (t : Text) × (s ≡ c ∷ t))
list_cases [] = inl refl
list_cases (c ∷ t) = inr (c, t, refl)

digits-NotSpace : (s : Text) → All IsDigit s → All NotSpace s
unfolding is_space
digits-NotSpace [] h = tt
digits-NotSpace (c ∷ s) (d, h) = (ground arith, digits-NotSpace s h)

pub trim_space-uid_text : (u now r : ℕ) → trim_space (uid_text u now r) ≡ uid_text u now r
unfolding is_space
trim_space-uid_text u now r = trim_space_of (uid_text u now r) (
    All-append NotSpace (decimal u) _ (digits-NotSpace (decimal u) (decimal-IsDigit u)) (
      refl,
      All-append NotSpace (decimal now) _ (digits-NotSpace (decimal now) (decimal-IsDigit now))
          (refl, digits-NotSpace (decimal r) (decimal-IsDigit r)),
    ))

pub uid_text-ne : (u now r : ℕ) → uid_text u now r ≢ []
uid_text-ne u now r e = elim (list_cases (decimal u)) [
  | inl d ↦ absurd (ground (arith, (rw d at e)))
  | inr (c, s, d) ↦ absurd (ground (arith, (rw d at e)))
]

-- No id of a later counter is in the map.
abbrev pub AreLater : ℕ → Map Agent → Type 0
AreLater base m = (u now r : ℕ) → base < u → lookup (uid_text u now r) m ≡ none

pub insert-AreLater :
    (u now r : ℕ) (t : Text) (a : Agent) (base : ℕ) (m : Map Agent)
    → t ≡ uid_text u now r
    → base < u
    → AreLater base m
    → AreLater u (insert t a m)
insert-AreLater u now r t a base m e h l v now' r' k = ground (
  arith,
  e,
  lookup-insert t (uid_text v now' r') a m,
  same_iff t (uid_text v now' r'),
  uid_text-injective u v now now' r r',
  l v now' r',
)

pub delete-AreLater :
    (id : Text) (base : ℕ) (m : Map Agent) → AreLater base m → AreLater base (delete id m)
delete-AreLater id base m l u now r k =
    ground (arith, lookup-delete id (uid_text u now r) m, l u now r k)
