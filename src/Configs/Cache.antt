-- ===== src/Configs/Cache.antt =====
-- What the cache of pkg/configs/configs.go holds behind a request.
use tcp_gateway.Prelude.{
  ℕ, ◌≡◌, refl, ap, none, some, ◌⊎◌, inl, inr, Option-cases, Bool-cases, true, false, [], arith,
}
use tcp_gateway.Text.{Text, same, same_iff, trim_space}
use tcp_gateway.Maps.{lookup, lookup-insert}
use tcp_gateway.Interfaces.{Error}
use tcp_gateway.Configs.{
  Fetch, no_response, unreadable, body, Metadata, M, ◌>>=◌, fetched, NodeMetadata, get, get_trimmed,
  public_ip_url, local_ip_url, instance_name_url, instance_id_url,
}

-- The value of the URL is at hand.
abbrev pub Cached : Text → Text → Metadata → Type 0
Cached url v s =
    ((same url [] ≡ true) × (v ≡ [])) ⊎ ((same url [] ≡ false) × (lookup url s.cache ≡ some v))

Cached-get :
    (answer : ℕ → Text → Fetch) (url v : Text) (s : Metadata)
    → Cached url v s
    → get_trimmed answer url s ≡ (s, inl v)
Cached-get answer url v s (inl (b, e)) = rw (b, e) refl
Cached-get answer url v s (inr (b, e)) = rw (b, e) refl

fetched-lookup :
    (url : Text) (f : Fetch) (s : Metadata) (v : Text)
    → (fetched url f s).1 ≡ inl v
    → lookup url (fetched url f s).0.cache ≡ some v
fetched-lookup url (no_response e) s v h = ground arith
fetched-lookup url (unreadable e) s v h = ground arith
fetched-lookup url (body w) s v h =
    ground (arith, lookup-insert url url w s.cache, same_iff url url)

fetched_keeps :
    (url u v : Text) (f : Fetch) (s : Metadata)
    → lookup u s.cache ≡ some v
    → lookup url s.cache ≡ none
    → lookup u (fetched url f s).0.cache ≡ some v
fetched_keeps url u v (no_response e) s h n = h
fetched_keeps url u v (unreadable e) s h n = h
fetched_keeps url u v (body w) s h n = ground (arith, lookup-insert url u w s.cache, same_iff url u)

module _ (answer : ℕ → Text → Fetch) where
  get-Cached :
      (url v : Text) (s : Metadata)
      → (get_trimmed answer url s).1 ≡ inl v
      → Cached url v (get_trimmed answer url s).0
  get-Cached url v s h = elim (Bool-cases (same url [])) [
    | inl e ↦ inl (e, ground (arith, h, e))
    | inr e ↦ elim (Option-cases (lookup url s.cache)) [
      | inl n ↦ inr (e, rw (e, n) (fetched-lookup url _ _ v (rw (e, n) at h)))
      | inr (w, n) ↦ inr (e, rw (e, n) (ground arith))
    ]
  ]

  get_keeps :
      (url u v : Text) (s : Metadata) → Cached u v s → Cached u v (get_trimmed answer url s).0
  get_keeps url u v s (inl c) = inl c
  get_keeps url u v s (inr (b, l)) = elim (Bool-cases (same url [])) [
    | inl e ↦ inr (b, rw e l)
    | inr e ↦ elim (Option-cases (lookup url s.cache)) [
      | inl n ↦ inr (b, rw (e, n) (fetched_keeps url u v _ _ l n))
      | inr (w, n) ↦ inr (b, rw (e, n) l)
    ]
  ]

pub ⊎-cases : {A : Type 0} (r : A ⊎ Error) → ((a : A) × (r ≡ inl a)) ⊎ ((e : Error) × (r ≡ inr e))
⊎-cases (inl a) = inl (a, refl)
⊎-cases (inr e) = inr (e, refl)

pub inl_inj : {A : Type 0} (a b : A) → ◌≡◌ {A = A ⊎ Error} (inl a) (inl b) → a ≡ b
inl_inj a b h = cc

pub >>=-known :
    {A B : Type 0} (m : M A) (f : A → M B) {s s' : Metadata} {a : A}
    → m s ≡ (s', inl a)
    → (m >>= f) s ≡ f a s'
>>=-known m f {s} {s'} {a} e = rw (ap (λ r. r.1) e, ◌>>=◌) (ap (λ r. f a r.0) e)

pub >>=-inl :
    {A B : Type 0} (m : M A) (f : A → M B) (s : Metadata) (b : B)
    → ((m >>= f) s).1 ≡ inl b
    → (a : A) × ((m s).1 ≡ inl a) × ((m >>= f) s ≡ f a (m s).0)
>>=-inl m f s b h = elim (⊎-cases (m s).1) [
  | inl (a, e) ↦ (a, e, rw (e, ◌>>=◌) refl)
  | inr (x, e) ↦ absurd (ground (arith, (rw (e, ◌>>=◌) at h)))
]

-- The value of the URL as it is asked for is at hand.
abbrev pub Known : Text → Text → Metadata → Type 0
Known url = Cached (trim_space url)

pub get-Known :
    (answer : ℕ → Text → Fetch) (url v : Text) (s : Metadata)
    → Known url v s
    → get answer url s ≡ (s, inl v)
unfolding get
get-Known answer url v s h = Cached-get answer (trim_space url) v s h

pub Known-get :
    (answer : ℕ → Text → Fetch) (url v : Text) (s : Metadata)
    → (get answer url s).1 ≡ inl v
    → Known url v (get answer url s).0
unfolding get
Known-get answer url v s h = get-Cached answer (trim_space url) v s h

pub Known-get_other :
    (answer : ℕ → Text → Fetch) (url u v : Text) (s : Metadata)
    → Known u v s
    → Known u v (get answer url s).0
unfolding get
Known-get_other answer url u v s h = get_keeps answer (trim_space url) (trim_space u) v s h

-- The four values of the metadata are at hand.
abbrev pub AllKnown : NodeMetadata → Metadata → Type 0
AllKnown n s =
    Known public_ip_url n.public_ip s
    × Known local_ip_url n.local_ip s
    × Known instance_name_url n.instance_name s
    × Known instance_id_url n.instance_id s
