-- ===== src/Gateway/Keys.antt =====
-- The ids under which pkg/gateway/gateway.go registers agents are trimmed, and no two are the same.
use tcp_gateway.Prelude.{
  List, ◌≡◌, refl, ◌≢◌, none, some, [], ◌∷◌, arith, ◌⊎◌, inl, inr, Bool-cases, Option-cases,
}
use tcp_gateway.Text.{Text, same, same_iff, trim_space}
use tcp_gateway.Text.Trim.{trim_space-trim_space}
use tcp_gateway.Maps.{Map, lookup, insert, delete, lookup-insert, lookup-delete}
use tcp_gateway.Gateway.{
  Gateway, Added, added, refused, panics, add_agent, remove_agent, get_agent, close,
}
use tcp_gateway.Gateway.Registry.{add_agent-eq-added}

-- The calls that change the registry.
pub data RegistryCall {ℓ} (V : Type ℓ) : Type ℓ where
  adding : Text → V → RegistryCall V
  removing : Text → RegistryCall V
  closing : RegistryCall V

module _ {ℓ} {V : Type ℓ} where
  -- Every key is trimmed, not blank, and not among the keys behind it.
  abbrev pub IsKeyed : Map V → Type ℓ
  IsKeyed [] = Unit {ℓ}
  IsKeyed ((k, v) ∷ m) = (trim_space k ≡ k) × (k ≢ []) × (lookup k m ≡ none) × IsKeyed m

  abbrev pub IsRegistry : Gateway V → Type ℓ
  IsRegistry gw = elim gw.agents [ none ↦ Unit {ℓ} | some m ↦ IsKeyed m ]

  insert-IsKeyed :
      (k : Text) (v : V) (m : Map V)
      → trim_space k ≡ k
      → k ≢ []
      → IsKeyed m
      → IsKeyed (insert k v m)
  unfolding insert lookup
  insert-IsKeyed k v [] t b h = (t, b, refl, tt)
  insert-IsKeyed k v ((j, w) ∷ m) t b h = elim (Bool-cases (same j k)) [
    | inl e ↦ rw e (t, b, rw (← (same_iff j k).0 e) h.2, h.3)
    | inr e ↦ rw e (
      h.0,
      h.1,
      ground (arith, lookup-insert k j v m, same_iff k j, same_iff j k),
      insert-IsKeyed k v m t b h.3,
    )
  ]

  delete-IsKeyed : (k : Text) (m : Map V) → IsKeyed m → IsKeyed (delete k m)
  unfolding delete lookup
  delete-IsKeyed k [] h = tt
  delete-IsKeyed k ((j, w) ∷ m) h = elim (Bool-cases (same j k)) [
    | inl e ↦ rw e (delete-IsKeyed k m h.3)
    | inr e ↦ rw e (h.0, h.1, ground (arith, lookup-delete k j m), delete-IsKeyed k m h.3)
  ]

  lookup_untrimmed : (j : Text) (m : Map V) → IsKeyed m → trim_space j ≢ j → lookup j m ≡ none
  unfolding lookup
  lookup_untrimmed j [] h t = refl
  lookup_untrimmed j ((k, v) ∷ m) h t = ground (arith, same_iff k j, lookup_untrimmed j m h.3)

  -- When AddAgent adds an agent to a registry whose keys are trimmed, not blank and all different,
  -- the keys of the registry after it are so too.
  pub add_agent-IsRegistry :
      (gw gw' : Gateway V) (id : Text) (a : V)
      → add_agent gw id a ≡ added gw'
      → IsRegistry gw
      → IsRegistry gw'
  add_agent-IsRegistry gw gw' id a h v =
      let (m, e, blank, fresh, new) = add_agent-eq-added gw gw' id a h in
      rw new (
        insert-IsKeyed (trim_space id) a m (trim_space-trim_space id)
          (λ p. ground (arith, same_iff (trim_space id) [])) (rw e at v))

  remove_agent_cases :
      (gw : Gateway V) (id : Text)
      → ((remove_agent gw id).0 ≡ gw)
        ⊎ ((m : Map V) × (gw.agents ≡ some m)
            × ((remove_agent gw id).0 ≡ record gw { agents = some (delete id m) }))
  unfolding remove_agent get_agent
  remove_agent_cases gw id = elim (Option-cases gw.agents) [
    | inl e ↦ inl (ground arith)
    | inr (m, e) ↦ elim (Option-cases (get_agent gw id)) [
      | inl q ↦ inl (ground arith)
      | inr (a, q) ↦ inr (m, e, ground arith)
    ]
  ]

  -- RemoveAgent, whether it removes an agent or not, keeps the keys trimmed, not blank and all
  -- different.
  pub remove_agent-IsRegistry :
      (gw : Gateway V) (id : Text) → IsRegistry gw → IsRegistry (remove_agent gw id).0
  remove_agent-IsRegistry gw id v = elim (remove_agent_cases gw id) [
    | inl e ↦ rw e v
    | inr (m, e, e') ↦ rw e' (delete-IsKeyed id m (rw e at v))
  ]

  -- No agent is ever found under an id with a space at an end, so an agent that was added with such
  -- an id is found and removed under the trimmed id alone.
  pub get_agent_untrimmed :
      (gw : Gateway V) (j : Text) → IsRegistry gw → trim_space j ≢ j → get_agent gw j ≡ none
  unfolding get_agent
  get_agent_untrimmed gw j v t = elim (Option-cases gw.agents) [
    | inl e ↦ ground arith
    | inr (m, e) ↦ ground (arith, lookup_untrimmed j m (rw e at v) t)
  ]

  -- A call of AddAgent that is refused or panics changes nothing.
  abbrev pub after_add : Gateway V → Added V → Gateway V
  after_add gw (added gw') = gw'
  after_add gw (refused e) = gw
  after_add gw panics = gw

  abbrev pub perform : RegistryCall V → Gateway V → Gateway V
  perform (adding id a) gw = after_add gw (add_agent gw id a)
  perform (removing id) gw = (remove_agent gw id).0
  perform closing gw = (close gw).0

  abbrev pub perform_all : List (RegistryCall V) → Gateway V → Gateway V
  perform_all [] gw = gw
  perform_all (c ∷ cs) gw = perform_all cs (perform c gw)

  after_add-IsRegistry :
      (gw : Gateway V) (id : Text) (a : V) (r : Added V)
      → add_agent gw id a ≡ r
      → IsRegistry gw
      → IsRegistry (after_add gw r)
  after_add-IsRegistry gw id a (added gw') e v = add_agent-IsRegistry gw gw' id a e v
  after_add-IsRegistry gw id a (refused x) e v = v
  after_add-IsRegistry gw id a panics e v = v

  perform-IsRegistry :
      (c : RegistryCall V) (gw : Gateway V) → IsRegistry gw → IsRegistry (perform c gw)
  unfolding close
  perform-IsRegistry (adding id a) gw v = after_add-IsRegistry gw id a (add_agent gw id a) refl v
  perform-IsRegistry (removing id) gw v = remove_agent-IsRegistry gw id v
  perform-IsRegistry closing gw v = tt

  -- From a registry whose keys are trimmed, not blank and all different, as that of a new gateway, any
  -- calls of AddAgent, RemoveAgent and Close lead to one whose keys are so too.
  pub perform_all-IsRegistry :
      (cs : List (RegistryCall V)) (gw : Gateway V) → IsRegistry gw → IsRegistry (perform_all cs gw)
  perform_all-IsRegistry [] gw v = v
  perform_all-IsRegistry (c ∷ cs) gw v =
      perform_all-IsRegistry cs (perform c gw) (perform-IsRegistry c gw v)
