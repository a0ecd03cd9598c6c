-- ===== src/Discovery.antt =====
-- pkg/discovery/discovery.go: the node registers itself in Redis, and again every five seconds. Redis
-- clients are numbered in the order in which they are made; what a pipeline answers is an argument.
pub mod Clients
use tcp_gateway.Prelude.{
  ℕ, ◌+◌, ◌*◌, ◌%◌, ◌^◌, Bool, not, ◌||◌, Option, none, some, List, [], ◌∷◌, if◌then◌else◌,
}
use tcp_gateway.Text.{Text, same}
use tcp_gateway.Interfaces.{Error}
use tcp_gateway.Configs.{DiscoveryConfig, NodeInfoConfig}

pub record Client : Type 0 where
  pub number : ℕ
  pub address : Text
  pub password : Text

-- A pipeline that was executed: HSet of the node under the key and its id, and Expire of the key.
pub record Pipeline : Type 0 where
  pub client : Client
  pub key : Text
  pub id : Text
  pub node : NodeInfoConfig
  pub expire_seconds : ℕ

-- What Exec answers.
pub data Answer : Type 0 where
  executed : Answer
  redis_nil : Answer
  failed : Error → Answer

-- The variables of `registerSelfToRedis`, with the number of clients that were made, the clients that
-- were closed and the pipelines, the latest first.
pub record Registration : Type 0 where
  pub old_redis_address : Text
  pub old_password : Text
  pub rdb : Option Client
  pub made : ℕ
  pub closed : List ℕ
  pub pipelines : List Pipeline

abbrev pub start : Registration
start = record {
  old_redis_address = [];
  old_password = [];
  rdb = none;
  made = 0;
  closed = [];
  pipelines = [];
}

-- What a call of `writeToRedis` finds: the configuration, the node, the two statistics, the time in
-- seconds, and what the pipeline will answer.
pub record Beat : Type 0 where
  pub config : DiscoveryConfig
  pub node : NodeInfoConfig
  pub count_connection : ℕ
  pub metric_data : Text
  pub now : ℕ
  pub answer : Answer

-- The address or the password is not that of the client.
abbrev pub is_changed : DiscoveryConfig → Registration → Bool
is_changed config r =
    not (same r.old_redis_address config.redis_address)
    || not (same r.old_password config.redis_password)

abbrev pub close_old : Option Client → List ℕ → List ℕ
close_old none closed = closed
close_old (some c) closed = c.number ∷ closed

-- A new client, where the old one is closed.
unfoldable pub connect : DiscoveryConfig → Registration → Registration
connect config r = record r {
  old_redis_address = config.redis_address;
  old_password = config.redis_password;
  rdb = some (record {
    number = r.made;
    address = config.redis_address;
    password = config.redis_password;
  });
  made = r.made + 1;
  closed = close_old r.rdb r.closed;
}

-- The node as it is written, with the time at which the entry is out of date.
unfoldable pub written : Beat → NodeInfoConfig
written b = record (b.node) {
  connection_num = b.count_connection % 2 ^ 64;
  metric_data = b.metric_data;
  expire_time = (b.now + 10) % 2 ^ 64;
}

abbrev pub answer_error : Answer → Option Error
answer_error executed = none
answer_error redis_nil = none
answer_error (failed e) = some e

abbrev pub pipeline : Client → Beat → Pipeline
pipeline c b = record {
  client = c;
  key = b.config.redis_register_key;
  id = b.node.id;
  node = written b;
  expire_seconds = 86400 * 3;
}

-- The write through the client, if there is one.
unfoldable pub send : Option Client → Beat → Registration → Registration × Option Error
send none b r = (r, none)
send (some c) b r = (record r { pipelines = pipeline c b ∷ r.pipelines }, answer_error b.answer)

-- `writeToRedis`.
unfoldable pub write_to_redis : Beat → Registration → Registration × Option Error
unfolding connect send
write_to_redis b r =
    let r' = if is_changed b.config r then connect b.config r else r in send r'.rdb b r'

-- The goroutine: a write every five seconds, and an alert for each error.
unfoldable pub heartbeats : List Beat → Registration → ℕ → Registration × ℕ
heartbeats [] r alerts = (r, alerts)
heartbeats (b ∷ bs) r alerts =
    let w = write_to_redis b r in
    heartbeats bs w.0 (elim w.1 [ none ↦ alerts | some e ↦ alerts + 1 ])

-- `registerSelfToRedis`, with the beats of its goroutine, which begins if the first write has no error.
unfoldable pub register_self_to_redis : Beat → List Beat → (Registration × ℕ) × Option Error
register_self_to_redis b bs =
    let w = write_to_redis b start in
    elim w.1 [ some e ↦ ((w.0, 0), some e) | none ↦ (heartbeats bs w.0 0, none) ]

abbrev pub redis_kind : Text
redis_kind = b'r' ∷ b'e' ∷ b'd' ∷ b'i' ∷ b's' ∷ []

-- `RegisterSelf`.
unfoldable pub register_self : Beat → List Beat → (Registration × ℕ) × Option Error
register_self b bs =
    if same b.config.kind redis_kind then register_self_to_redis b bs else ((start, 0), none)
