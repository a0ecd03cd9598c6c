-- ===== src/Tests/Nodes.antt =====
-- The node's metadata of pkg/configs/configs.go, its registration of pkg/discovery/discovery.go, and the
-- report of pkg/metric/metric.go.
use tcp_gateway.Prelude.{
  ℕ, ◌≡◌, ◌≢◌, ◌⊎◌, inl, arith, refl, none, some, [], ◌∷◌, length, ◌==◌, if◌then◌else◌,
}
use tcp_gateway.Text.{Text, same, trim_space}
use tcp_gateway.Maps.{lookup, insert}
use tcp_gateway.Interfaces.{timeout, eof}
use tcp_gateway.Configs.{
  DiscoveryConfig, NodeInfoConfig, Version, Fetch, no_response, body, Configs, load_node_info, get,
  read_metadata, init, NodeMetadata,
}
use tcp_gateway.Configs.Loading.{load_node_info-load_node_info}
use tcp_gateway.Discovery.{
  start, Registration, Beat, executed, failed, connect, send, write_to_redis, heartbeats,
  register_self, register_self_to_redis, redis_kind,
}
use tcp_gateway.Discovery.Clients.{Wrote, heartbeats-Wrote}
use tcp_gateway.Command.{
  Flags, parsed, show, Moment, beat_of, runs, panics, configs_init_fail, start_up,
}
use tcp_gateway.Command.Startup.{IsRegistered, start_up-IsRegistered}
use tcp_gateway.Metric.Report.{split_lines, contains, count_line, get_tcp_status, is_prefix}

abbrev node : NodeInfoConfig
node = record {
  env = [];
  public_ip = [];
  local_ip = [];
  instance_name = [];
  instance_id = [];
  id = [];
  service_type = [];
  expire_time = 0;
  connection_num = 0;
  public_tcp_port = 18001;
  private_http_port = 18081;
  service_api_url = [];
  build_version = [];
  git_version = [];
  metric_data = [];
}

abbrev redis_at : Text → DiscoveryConfig
redis_at address = record {
  kind = redis_kind;
  redis_register_key = b'k' ∷ [];
  redis_address = address;
  redis_password = b'p' ∷ [];
}

abbrev version : Version
version = record { env = b'd' ∷ []; build_date = b'7' ∷ []; version = b'v' ∷ [] }

-- Each request is answered with "1".
abbrev ones : ℕ → Text → Fetch
ones n url = body (b'1' ∷ [])

-- Only the first two requests are answered.
abbrev failing : ℕ → Text → Fetch
failing n url = if n == 0 then body [] else if n == 1 then body [] else no_response timeout

abbrev before : Configs
before = record {
  entry = record { discovery = redis_at []; node_info = node; env = [] };
  metadata = record { cache = []; requests = [] };
}

abbrev loaded : Configs
loaded = (load_node_info ones version before).0

loaded_once : load_node_info ones version before ≡ (loaded, none)
unfolding load_node_info same lookup insert trim_space get read_metadata
loaded_once = refl

load_node_info-load_node_info_example : load_node_info failing version loaded ≡ (loaded, none)
load_node_info-load_node_info_example =
    load_node_info-load_node_info ones failing version before loaded loaded_once

abbrev beat_at : Text → Beat
beat_at address = record {
  config = redis_at address;
  node = node;
  count_connection = 5;
  metric_data = [];
  now = 100;
  answer = executed;
}

heartbeats-Wrote_example :
    let r = (heartbeats (beat_at (b'a' ∷ []) ∷ beat_at (b'b' ∷ []) ∷ []) start 0).0 in
    Wrote (beat_at (b'b' ∷ [])) r (write_to_redis (beat_at (b'b' ∷ [])) r).0
heartbeats-Wrote_example =
    heartbeats-Wrote (beat_at (b'a' ∷ []) ∷ beat_at (b'b' ∷ []) ∷ []) 0 (beat_at (b'b' ∷ []))

-- A second address makes a second client and closes the first; the same one again does neither.
reconnected :
    let r =
      (heartbeats
        (beat_at (b'a' ∷ []) ∷ beat_at (b'b' ∷ []) ∷ beat_at (b'b' ∷ []) ∷ [])
        start
        0).0 in
    (r.made ≡ 2) × (r.closed ≡ 0 ∷ []) × (length r.pipelines ≡ 3)
unfolding heartbeats write_to_redis connect send same
reconnected = (refl, refl, refl)

-- An error of the first write is returned, and the heartbeats do not begin.
not_begun :
    (register_self (record (beat_at (b'a' ∷ [])) { answer = failed eof }) (beat_at [] ∷ [])).1
    ≡ some eof
unfolding register_self register_self_to_redis write_to_redis connect send same
not_begun = refl

-- Two lines of `ss` behind its headline.
status :
    get_tcp_status
      (some (b'S' ∷ b't' ∷ b'a' ∷ b't' ∷ b'e' ∷ 10 ∷ b'E' ∷ 32 ∷ b'0' ∷ 10 ∷ b'E' ∷ 10 ∷ []))
    ≡ (b'E' ∷ [], 2) ∷ []
unfolding get_tcp_status split_lines contains count_line trim_space same lookup insert is_prefix
status = refl

abbrev flags : Flags
flags = record {
  discovery_type = redis_kind;
  discovery_redis_address = b'a' ∷ [];
  discovery_redis_password = b'p' ∷ [];
  discovery_redis_register_key = b'k' ∷ [];
  node_info_public_tcp_port = 18001;
  node_info_private_http_port = 18081;
  node_info_service_api_url = [];
}

abbrev moment : Moment
moment = record { count_connection = 0; metric_data = []; now = 100; answer = executed }

abbrev filled : Configs
filled = (load_node_info ones version (parsed flags)).0

abbrev sent : Registration
sent = (register_self (beat_of filled moment) []).0.0

started : start_up ones version none moment flags ≡ runs filled (show filled) sent
unfolding start_up init load_node_info same lookup insert trim_space get read_metadata register_self
    register_self_to_redis write_to_redis connect send heartbeats
started = refl

given : (flags.discovery_redis_address ≢ []) ⊎ (flags.discovery_redis_password ≢ [])
given = inl (λ e. ground (arith, e))

start_up-IsRegistered_example :
    (n : NodeMetadata) × ((read_metadata ones (parsed flags).metadata).1 ≡ inl n)
    × IsRegistered flags moment n filled (show filled) sent
start_up-IsRegistered_example =
    start_up-IsRegistered ones version none moment flags filled (show filled) sent started refl
      given

-- Without an address and a password the start gets through, and nothing is registered.
unregistered :
    let f = record flags { discovery_redis_address = []; discovery_redis_password = [] } in
    (register_self (beat_of (parsed f) moment) []) ≡ ((start, 0), none)
unfolding register_self register_self_to_redis write_to_redis connect send heartbeats same
unregistered = refl

-- An error of the metadata service ends the start.
not_started : start_up failing version none moment flags ≡ panics configs_init_fail timeout
unfolding start_up init load_node_info same lookup insert trim_space get read_metadata
not_started = refl
