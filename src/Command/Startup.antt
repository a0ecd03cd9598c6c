-- ===== src/Command/Startup.antt =====
-- What a gateway that has started by cmd/gateway/gateway.go has registered.
use tcp_gateway.Prelude.{
  ℕ, ◌+◌, ◌%◌, ◌^◌, ◌≡◌, refl, sym, ap, subst, ◌∙◌, true, Option-cases, Bool-cases, ◌⊎◌, ◌≢◌, inl,
  inr, Option, none, some, [], ◌∷◌, ◌++◌, arith,
}
use tcp_gateway.Text.{Text, same, same_iff, decimal}
use tcp_gateway.Interfaces.{Error}
use tcp_gateway.Configs.{
  DiscoveryConfig, NodeInfoConfig, Version, Fetch, Configs, NodeMetadata, read_metadata, fill,
  load_node_info, init,
}
use tcp_gateway.Configs.Cache.{⊎-cases}
use tcp_gateway.Discovery.{
  Registration, start, Beat, Pipeline, pipeline, written, connect, send, is_changed, write_to_redis,
  register_self_to_redis, register_self, heartbeats, redis_kind,
}
use tcp_gateway.Command.{
  Flags, parsed, Moment, beat_of, runs, panics, configs_init_fail, registered, listening, start_up,
  show,
}

-- What the registration has sent and what was logged, by the metadata of the node.
abbrev pub IsRegistered :
    Flags
    → Moment
    → NodeMetadata
    → Configs
    → NodeInfoConfig × DiscoveryConfig
    → Registration
    → Type 0
IsRegistered f m n c shown r =
    (p : Pipeline) × (r.pipelines ≡ p ∷ [])
    × (p.client.address ≡ f.discovery_redis_address)
    × (p.client.password ≡ f.discovery_redis_password)
    × (p.key ≡ f.discovery_redis_register_key)
    × (p.id
        ≡ n.instance_id
          ++ (b'_'
              ∷ (decimal f.node_info_public_tcp_port
                  ++ (b'_' ∷ decimal f.node_info_private_http_port))))
    × (p.node.public_ip ≡ n.public_ip)
    × (p.node.local_ip ≡ n.local_ip)
    × (p.node.public_tcp_port ≡ f.node_info_public_tcp_port)
    × (p.node.private_http_port ≡ f.node_info_private_http_port)
    × (p.node.expire_time ≡ (m.now + 10) % 2 ^ 64)
    × (shown.0 ≡ c.entry.node_info)
    × (shown.1.redis_password ≡ b'*' ∷ b'*' ∷ b'*' ∷ [])

-- A new registration has no client: a given address or password is a change.
is_changed-start :
    (d : DiscoveryConfig)
    → (d.redis_address ≢ []) ⊎ (d.redis_password ≢ [])
    → is_changed d start ≡ true
is_changed-start d given = elim (Bool-cases (same [] d.redis_address)) [
  | inr e ↦ rw e refl
  | inl e ↦ elim (Bool-cases (same [] d.redis_password)) [
    | inr x ↦ rw (e, x) refl
    | inl x ↦ elim given [
      | inl k ↦ absurd (k (sym ((same_iff [] d.redis_address).0 e)))
      | inr k ↦ absurd (k (sym ((same_iff [] d.redis_password).0 x)))
    ]
  ]
]

write_to_redis-start :
    (b : Beat)
    → is_changed b.config start ≡ true
    → (write_to_redis b start).0.pipelines
      ≡ pipeline
          (record {
            number = 0;
            address = b.config.redis_address;
            password = b.config.redis_password;
          })
          b
        ∷ []
unfolding write_to_redis connect send
write_to_redis-start b h = rw h refl

registered-runs :
    (c d : Configs) (shown : NodeInfoConfig × DiscoveryConfig) (r : Registration)
    (x : (Registration × ℕ) × Option Error)
    → registered c x ≡ runs d shown r
    → (c ≡ d) × (show c ≡ shown) × (x.0.0 ≡ r)
registered-runs c d shown r (y, none) h = (ground arith, ground arith, ground arith)
registered-runs c d shown r (y, some e) h = absurd (ground arith)

listening-runs :
    (c d : Configs) (m : Moment) (shown : NodeInfoConfig × DiscoveryConfig) (r : Registration)
    (listen : Option Error)
    → listening c m listen ≡ runs d shown r
    → registered c (register_self (beat_of c m) []) ≡ runs d shown r
listening-runs c d m shown r none h = h
listening-runs c d m shown r (some e) h = absurd (ground arith)

register_self_to_redis-first :
    (b : Beat) → (register_self_to_redis b []).0.0 ≡ (write_to_redis b start).0
unfolding register_self_to_redis heartbeats
register_self_to_redis-first b = elim (Option-cases (write_to_redis b start).1) [
  | inl q ↦ rw (q, register_self_to_redis) refl
  | inr (x, q) ↦ rw (q, register_self_to_redis) refl
]

register_self-first :
    (b : Beat) → b.config.kind ≡ redis_kind → (register_self b []).0.0 ≡ (write_to_redis b start).0
unfolding register_self
register_self-first b k =
    rw ((same_iff b.config.kind redis_kind).1 k, register_self) (register_self_to_redis-first b)

-- The configuration behind Init.
abbrev loaded : (ℕ → Text → Fetch) → Version → NodeMetadata → Flags → Configs
loaded answer v n f = record {
  entry = fill v n (parsed f).entry;
  metadata = (read_metadata answer (parsed f).metadata).0;
}

init-read :
    (answer : ℕ → Text → Fetch) (v : Version) (n : NodeMetadata) (f : Flags)
    → (read_metadata answer (parsed f).metadata).1 ≡ inl n
    → init answer v (parsed f) ≡ (loaded answer v n f, none)
unfolding init load_node_info
init-read answer v n f q = rw (q, init, load_node_info) refl

start_up-runs :
    (answer : ℕ → Text → Fetch) (v : Version) (listen : Option Error) (m : Moment) (f : Flags)
    (c : Configs) (shown : NodeInfoConfig × DiscoveryConfig) (r : Registration)
    → start_up answer v listen m f ≡ runs c shown r
    → (n : NodeMetadata) × ((read_metadata answer (parsed f).metadata).1 ≡ inl n)
      × (listening (loaded answer v n f) m listen ≡ runs c shown r)
unfolding start_up init load_node_info
start_up-runs answer v listen m f c shown r h =
    elim (⊎-cases (read_metadata answer (parsed f).metadata).1) [
      | inr (e, q) ↦ absurd (ground (arith, (rw (q, start_up, init, load_node_info) at h)))
      | inl (n, q) ↦ (
        n,
        q,
        subst
            (λ z.
              elim z.1 [ none ↦ listening z.0 m listen | some e ↦ panics configs_init_fail e ]
              ≡ runs c shown r)
            (init-read answer v n f q) h,
      )
    ]

-- A gateway that gets through its start with discovery by Redis, and with an address or a password
-- for it, has read the four values of its metadata. It has sent one registration, to that address, under
-- the given key and under the id made of the instance and the two ports, which holds the addresses and
-- ports of the node and runs out ten seconds later; and the password was not logged.
pub start_up-IsRegistered :
    (answer : ℕ → Text → Fetch) (v : Version) (listen : Option Error) (m : Moment) (f : Flags)
    (c : Configs) (shown : NodeInfoConfig × DiscoveryConfig) (r : Registration)
    → start_up answer v listen m f ≡ runs c shown r
    → f.discovery_type ≡ redis_kind
    → (f.discovery_redis_address ≢ []) ⊎ (f.discovery_redis_password ≢ [])
    → (n : NodeMetadata) × ((read_metadata answer (parsed f).metadata).1 ≡ inl n)
      × IsRegistered f m n c shown r
unfolding fill written
start_up-IsRegistered answer v listen m f c shown r h k given =
    let i = is_changed-start (parsed f).entry.discovery given in
    let (n, q, l) = start_up-runs answer v listen m f c shown r h in
    let c₁ = loaded answer v n f in
    let (e, s, u) =
      registered-runs c₁ c shown r (register_self (beat_of c₁ m) [])
        (listening-runs c₁ c m shown r listen l) in
    let sent =
      sym (ap (λ z. z.pipelines) u)
      ∙ ap (λ z. z.pipelines) (register_self-first (beat_of c₁ m) k)
      ∙ write_to_redis-start (beat_of c₁ m) i in
    (
      n,
      q,
      (
        _,
        sent,
        refl,
        refl,
        refl,
        refl,
        refl,
        refl,
        refl,
        refl,
        refl,
        ap (λ z. z.0) (sym s) ∙ ap (λ z. z.entry.node_info) e,
        ap (λ z. z.1.redis_password) (sym s),
      ),
    )
