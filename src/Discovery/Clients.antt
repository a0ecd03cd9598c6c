-- ===== src/Discovery/Clients.antt =====
-- The Redis clients of pkg/discovery/discovery.go in any course of its heartbeats.
use tcp_gateway.Prelude.{
  ℕ, zero, suc, ◌≡◌, refl, ap, inl, inr, Bool-cases, Option-cases, Option, none, some, List, [],
  ◌∷◌, arith, if◌then◌else◌,
}
use tcp_gateway.Text.{same_iff}
use tcp_gateway.Configs.{DiscoveryConfig}
use tcp_gateway.Discovery.{
  Client, Registration, start, Beat, is_changed, connect, send, write_to_redis, heartbeats,
  pipeline,
}

-- The numbers below n, the greatest first.
abbrev pub below : ℕ → List ℕ
below zero = []
below (suc n) = n ∷ below n

-- The client is the last that was made, has the address and the password that were read last, and
-- every client before it is closed, once. There is none before an address or password was set.
abbrev pub IsCurrent : Registration → Type 0
IsCurrent r = elim r.rdb [
  | none ↦
      (r.old_redis_address ≡ [])
      × (r.old_password ≡ [])
      × (r.made ≡ 0)
      × (r.closed ≡ [])
      × (r.pipelines ≡ [])
  | some c ↦
      (c.address ≡ r.old_redis_address)
      × (c.password ≡ r.old_password)
      × (r.made ≡ suc c.number)
      × (r.closed ≡ below c.number)
]

connect-IsCurrent : (d : DiscoveryConfig) (r : Registration) → IsCurrent r → IsCurrent (connect d r)
unfolding connect
connect-IsCurrent d r v = elim (Option-cases r.rdb) [
  | inl e ↦ let (_, _, m, cl, _) = rw e at v in (refl, refl, omega arith, rw (e, m) cl)
  | inr (c, e) ↦
      let (_, _, m, cl) = rw e at v in (refl, refl, omega arith, rw (e, m) (ap (◌∷◌ c.number) cl))
]

-- The beginning of a write: the client is made anew where the address or the password is another.
abbrev opened : Beat → Registration → Registration
opened b r = if is_changed b.config r then connect b.config r else r

opened-IsCurrent :
    (b : Beat) (r : Registration)
    → IsCurrent r
    → IsCurrent (opened b r)
      × ((opened b r).old_redis_address ≡ b.config.redis_address)
      × ((opened b r).old_password ≡ b.config.redis_password)
      × ((opened b r).pipelines ≡ r.pipelines)
unfolding connect
opened-IsCurrent b r v = elim (Bool-cases (is_changed b.config r)) [
  | inl e ↦ rw e (connect-IsCurrent b.config r v, refl, refl, refl)
  | inr e ↦ rw e (
    v,
    ground (arith, same_iff r.old_redis_address b.config.redis_address),
    ground (arith, same_iff r.old_password b.config.redis_password),
    refl,
  )
]

-- What a write leaves: the client of its configuration and, if there is one, its pipeline in front.
abbrev pub Wrote : Beat → Registration → Registration → Type 0
Wrote b r s =
    IsCurrent s
    × (s.old_redis_address ≡ b.config.redis_address)
    × (s.old_password ≡ b.config.redis_password)
    × (elim s.rdb [ none ↦ s.pipelines ≡ [] | some c ↦ s.pipelines ≡ pipeline c b ∷ r.pipelines ])

send-Wrote :
    (b : Beat) (r o : Registration) (x : Option Client)
    → o.rdb ≡ x
    → IsCurrent o
    → o.old_redis_address ≡ b.config.redis_address
    → o.old_password ≡ b.config.redis_password
    → o.pipelines ≡ r.pipelines
    → Wrote b r (send x b o).0
unfolding send
send-Wrote b r o none e w a p q = let (_, _, _, _, nothing) = rw e at w in (w, a, p, rw e nothing)
send-Wrote b r o (some c) e w a p q = (rw e (rw e at w), a, p, rw e (ap (◌∷◌ (pipeline c b)) q))

-- A write keeps the client and leaves the pipeline.
write_to_redis-Wrote :
    (b : Beat) (r : Registration) → IsCurrent r → Wrote b r (write_to_redis b r).0
unfolding write_to_redis
write_to_redis-Wrote b r v =
    let (w, a, p, q) = opened-IsCurrent b r v in
    send-Wrote b r (opened b r) (opened b r).rdb refl w a p q

heartbeats-IsCurrent :
    (l : List Beat) (r : Registration) (n : ℕ) → IsCurrent r → IsCurrent (heartbeats l r n).0
unfolding heartbeats
heartbeats-IsCurrent [] r n v = v
heartbeats-IsCurrent (b ∷ l) r n v =
    heartbeats-IsCurrent l (write_to_redis b r).0 _ (write_to_redis-Wrote b r v).0

start-IsCurrent : IsCurrent start
start-IsCurrent = (refl, refl, refl, refl, refl)

-- After any heartbeats, with any changes of the configuration and any answers of Redis, a write uses a
-- client with the address and the password of its own configuration, of which the pipeline is the
-- last one sent; every client made before that one is closed, once. There is no client, and then no
-- pipeline was ever sent, only if the address and the password are empty.
pub heartbeats-Wrote :
    (l : List Beat) (n : ℕ) (b : Beat)
    → let r = (heartbeats l start n).0 in Wrote b r (write_to_redis b r).0
heartbeats-Wrote l n b =
    write_to_redis-Wrote b (heartbeats l start n).0 (heartbeats-IsCurrent l start n start-IsCurrent)
