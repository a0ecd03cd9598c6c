-- ===== src/Gateway/Accept/Registration.antt =====
-- Every connection that the accept loop of pkg/gateway/gateway.go takes gets its agent.
use tcp_gateway.Prelude.{
  ℕ, ◌+◌, ◌≤◌, ◌<◌, ◌≡◌, ◌≢◌, refl, sym, ap, ap₂, subst, ◌∙◌, Bool-cases, Option-cases, length, inl,
  inr, ◌⊎◌, none, some, List, [], ◌∷◌, arith, if◌then◌else◌,
}
use tcp_gateway.Text.{Text, same, same_iff, trim_space}
use tcp_gateway.Maps.{Map, lookup, insert, delete}
use tcp_gateway.Gateway.{Gateway, added, add_agent, remove_agent, get_agent, generate_agent_uid}
use tcp_gateway.Gateway.Uid.{uid_limit, generate_agent_uid-limit}
use tcp_gateway.Gateway.Registry.{get_agent-add_agent}
use tcp_gateway.Gateway.Accept.{
  Agent, Acceptor, start, connection, listener_closed, accept_failed, Round, continues, returns,
  crashes, next_agent, accept_round,
}
use tcp_gateway.Gateway.Accept.Ids.{
  accepting, removing, perform, run, trim_space-uid_text, uid_text-ne, AreLater, insert-AreLater,
  delete-AreLater, Event,
}

-- The counter of ids is the number of connections, each of which has its agent.
pub record Inv (w : Acceptor) : Type 0 where
  pub numbered : w.gateway.agent_uid_base ≡ w.connections
  pub unused : (m : Map Agent) × (w.gateway.agents ≡ some m) × AreLater w.gateway.agent_uid_base m
  pub all_counted : w.counted ≡ w.connections
  pub all_running : length w.running ≡ w.connections
  pub none_closed : w.closed ≡ []
  pub no_alert : w.alerts ≡ []

start-Inv : Inv start
unfolding lookup
start-Inv = record {
  numbered = refl;
  unused = ([], refl, λ u now r k. refl);
  all_counted = refl;
  all_running = refl;
  none_closed = refl;
  no_alert = refl;
}

add_agent_new :
    (gw : Gateway Agent) (m : Map Agent) (id : Text) (a : Agent)
    → gw.agents ≡ some m
    → trim_space id ≡ id
    → id ≢ []
    → lookup id m ≡ none
    → add_agent gw id a ≡ added (record gw { agents = some (insert id a m) })
unfolding add_agent
add_agent_new gw m id a e t b l = ground (arith, same_iff id [])

remove_agent_map :
    (gw : Gateway Agent) (m : Map Agent) (id : Text)
    → gw.agents ≡ some m
    → ((remove_agent gw id).0 ≡ gw)
      ⊎ ((remove_agent gw id).0 ≡ record gw { agents = some (delete id m) })
unfolding remove_agent
remove_agent_map gw m id e = elim (Bool-cases (same (trim_space id) [])) [
  | inl b ↦ inl (ground arith)
  | inr b ↦ elim (Option-cases (lookup id m)) [
    | inl q ↦ inl (ground arith)
    | inr (a, q) ↦ inr (ground arith)
  ]
]

-- What a connection comes to that is taken next.
abbrev pub Takes : ℕ → ℕ → Acceptor → Type 0
Takes now r w =
    let a = next_agent now r w in
    (w' : Acceptor) × (accept_round (connection now r) w ≡ continues w')
    × (get_agent w.gateway a.cid ≡ none)
    × ((j : Text)
        → get_agent w'.gateway j ≡ (if same a.cid j then some a else get_agent w.gateway j))
    × (w'.running ≡ a ∷ w.running)
    × Inv w'

get_agent_same :
    (gw gw' : Gateway Agent) (j : Text) → gw.agents ≡ gw'.agents → get_agent gw j ≡ get_agent gw' j
unfolding get_agent
get_agent_same gw gw' j e = rw e refl

connection-Takes : (now r : ℕ) (w : Acceptor) → w.connections < uid_limit → Inv w → Takes now r w
unfolding accept_round
connection-Takes now r w h v =
    let gw = (generate_agent_uid now r w.gateway).0 in
    let a = next_agent now r w in
    let (m, e, later) = v.unused in
    let (_, _, next, text, kept) =
      generate_agent_uid-limit now r w.gateway (omega (arith, v.numbered)) in
    let up : gw.agent_uid_base ≡ w.gateway.agent_uid_base + 1 = ground (arith, next, v.numbered) in
    let trimmed : trim_space a.cid ≡ a.cid =
      rw text (trim_space-uid_text gw.agent_uid_base now r) in
    let q =
      add_agent_new gw m a.cid a (kept ∙ e) trimmed
        (λ b. uid_text-ne gw.agent_uid_base now r (sym text ∙ b))
        (rw text (later gw.agent_uid_base now r (omega (arith, up)))) in
    let found = λ (j : Text). get_agent-add_agent gw _ a.cid j a q in
    let w' : Acceptor = record w {
      gateway = record gw { agents = some (insert a.cid a m) };
      connections = w.connections + 1;
      counted = w.counted + 1;
      running = a ∷ w.running;
    } in
    (
      w',
      rw q refl,
      sym (get_agent_same gw w.gateway a.cid kept)
          ∙ ap (get_agent gw) (sym trimmed)
          ∙ (found a.cid).1,
      λ j.
          (found j).0
          ∙ ap₂ (λ t o. if same t j then some a else o) trimmed
              (get_agent_same gw w.gateway j kept),
      refl,
      record {
        numbered = omega (arith, up, v.numbered);
        unused = (
          insert a.cid a m,
          refl,
          insert-AreLater gw.agent_uid_base now r a.cid a w.gateway.agent_uid_base m text
              (omega (arith, up)) later,
        );
        all_counted = omega (arith, v.all_counted);
        all_running = omega (arith, v.all_running);
        none_closed = v.none_closed;
        no_alert = v.no_alert;
      },
    )

-- A round keeps the invariant, does not panic, and takes one connection at most.
abbrev StillInv : ℕ → Round → Type 0
StillInv n (continues w) = Inv w × (w.connections ≤ n)
StillInv n (returns w) = (w.closed ≡ []) × (w.alerts ≡ [])
StillInv n crashes = ⊥

StillInv-mono : (o : Round) (n k : ℕ) → n ≤ k → StillInv n o → StillInv k o
StillInv-mono (continues w) n k h (v, b) = (v, omega (arith, h, b))
StillInv-mono (returns w) n k h v = v
StillInv-mono crashes n k h v = v

round_cases :
    (o : Round)
    → ((w : Acceptor) × (o ≡ continues w)) ⊎ (((w : Acceptor) × (o ≡ returns w)) ⊎ (o ≡ crashes))
round_cases (continues w) = inl (w, refl)
round_cases (returns w) = inr (inl (w, refl))
round_cases crashes = inr (inr refl)

perform-Inv :
    (e : Event) (w : Acceptor)
    → w.connections < uid_limit
    → Inv w
    → StillInv (w.connections + 1) (perform e w)
unfolding accept_round
perform-Inv (accepting (connection now r)) w h v =
    let (w', e, _, _, running, v') = connection-Takes now r w h v in
    subst (StillInv (w.connections + 1)) (sym e)
      (v', omega (arith, v.all_running, v'.all_running, ap length running))
perform-Inv (accepting listener_closed) w h v = (v.none_closed, v.no_alert)
perform-Inv (accepting accept_failed) w h v = (v, omega arith)
perform-Inv (removing id) w h v =
    let (m, e, later) = v.unused in
    elim (remove_agent_map w.gateway m id e) [
      | inl q ↦ (rw q v, omega arith)
      | inr q ↦ (
        record {
          numbered = rw q v.numbered;
          unused = rw q (delete id m, refl, delete-AreLater id w.gateway.agent_uid_base m later);
          all_counted = v.all_counted;
          all_running = v.all_running;
          none_closed = v.none_closed;
          no_alert = v.no_alert;
        },
        omega arith,
      )
    ]

run-StillInv :
    (es : List Event) (w : Acceptor)
    → w.connections + length es ≤ uid_limit
    → Inv w
    → StillInv (w.connections + length es) (run es w)
unfolding run
run-StillInv [] w h v = (v, omega arith)
run-StillInv (e ∷ es) w h v = elim (round_cases (perform e w)) [
  | inl (w', q) ↦
      let (v', b) = rw q at (perform-Inv e w (omega (arith, h)) v) in
      rw (q, StillInv)
        (StillInv-mono (run es w') (w'.connections + length es) (w.connections + length (e ∷ es))
          (omega (arith, b)) (run-StillInv es w' (omega (arith, b, h)) v'))
  | inr (inl (w', q)) ↦ rw (q, StillInv) (rw q at (perform-Inv e w (omega (arith, h)) v))
  | inr (inr q) ↦ absurd (rw q at (perform-Inv e w (omega (arith, h)) v))
]

-- What a run comes to: with the next connection taken, or with the listener closed, never with a panic.
abbrev pub Registers : ℕ → ℕ → Round → Type 0
Registers now r (continues w) = Takes now r w
Registers now r (returns w) = (w.closed ≡ []) × (w.alerts ≡ [])
Registers now r crashes = ⊥

StillInv-Registers : (n now r : ℕ) (o : Round) → n < uid_limit → StillInv n o → Registers now r o
StillInv-Registers n now r (continues w) h (v, b) = connection-Takes now r w (omega (arith, h, b)) v
StillInv-Registers n now r (returns w) h v = v
StillInv-Registers n now r crashes h v = v

-- From a new gateway, whatever Accept returns and whatever agents are removed in between, without Close
-- and with fewer events than the limit of the counter of ids, the loop does not panic and refuses no
-- connection: either the listener was closed, or the next connection gets an agent under an id that was
-- free, which GetAgent then finds while every other id finds what it did, Run is called on it, and each
-- connection so far was counted once.
pub run-Registers :
    (es : List Event) (now r : ℕ) → length es < uid_limit → Registers now r (run es start)
run-Registers es now r h = StillInv-Registers (length es) now r (run es start) h (
    StillInv-mono (run es start) (0 + length es) (length es) (omega arith)
      (run-StillInv es start (omega (arith, h)) start-Inv))
