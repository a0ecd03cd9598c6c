-- ===== src/Command.antt =====
-- cmd/gateway/gateway.go: the start of the gateway, from its flags to its registration. What stands
-- outside is an argument: the metadata service, net.Listen, and what Redis answers. The start of the
-- report and of the goroutines that serve changes nothing here.
pub mod Startup
use tcp_gateway.Prelude.{ℕ, Option, none, some, List, [], ◌∷◌}
use tcp_gateway.Text.{Text}
use tcp_gateway.Interfaces.{Error}
use tcp_gateway.Configs.{
  DiscoveryConfig, NodeInfoConfig, EntryConfig, Version, Fetch, Configs, init, get_node_info,
  get_discovery,
}
use tcp_gateway.Discovery.{Answer, Registration, Beat, register_self}

-- The flags.
pub record Flags : Type 0 where
  pub discovery_type : Text
  pub discovery_redis_address : Text
  pub discovery_redis_password : Text
  pub discovery_redis_register_key : Text
  pub node_info_public_tcp_port : ℕ
  pub node_info_private_http_port : ℕ
  pub node_info_service_api_url : Text

-- `configs.Entry` behind flag.Parse, with the other fields empty, and the empty cache.
abbrev pub parsed : Flags → Configs
parsed f = record {
  entry = record {
    discovery = record {
      kind = f.discovery_type;
      redis_register_key = f.discovery_redis_register_key;
      redis_address = f.discovery_redis_address;
      redis_password = f.discovery_redis_password;
    };
    node_info = record {
      env = [];
      public_ip = [];
      local_ip = [];
      instance_name = [];
      instance_id = [];
      id = [];
      service_type = [];
      expire_time = 0;
      connection_num = 0;
      public_tcp_port = f.node_info_public_tcp_port;
      private_http_port = f.node_info_private_http_port;
      service_api_url = f.node_info_service_api_url;
      build_version = [];
      git_version = [];
      metric_data = [];
    };
    env = [];
  };
  metadata = record { cache = []; requests = [] };
}

-- What `Show` of pkg/configs/configs.go prints: the node, and the discovery without its password.
abbrev pub show : Configs → NodeInfoConfig × DiscoveryConfig
show c = (get_node_info c, record (get_discovery c) { redis_password = b'*' ∷ b'*' ∷ b'*' ∷ [] })

-- What the first registration finds: the two statistics, the time, and the answer of Redis.
pub record Moment : Type 0 where
  pub count_connection : ℕ
  pub metric_data : Text
  pub now : ℕ
  pub answer : Answer

abbrev pub beat_of : Configs → Moment → Beat
beat_of c m = record {
  config = get_discovery c;
  node = get_node_info c;
  count_connection = m.count_connection;
  metric_data = m.metric_data;
  now = m.now;
  answer = m.answer;
}

-- The calls of AlertPanic.
pub data Failure : Type 0 where
  configs_init_fail tcp_listen_fail discovery_register_fail : Failure

-- The gateway runs, with its configuration, what was logged of it and its registration, or it has
-- panicked.
pub data Started : Type 0 where
  runs : Configs → NodeInfoConfig × DiscoveryConfig → Registration → Started
  panics : Failure → Error → Started

abbrev pub registered : Configs → (Registration × ℕ) × Option Error → Started
registered c (r, none) = runs c (show c) r.0
registered c (r, some e) = panics discovery_register_fail e

abbrev pub listening : Configs → Moment → Option Error → Started
listening c m none = registered c (register_self (beat_of c m) [])
listening c m (some e) = panics tcp_listen_fail e

-- `main` up to its wait.
unfoldable pub start_up : (ℕ → Text → Fetch) → Version → Option Error → Moment → Flags → Started
start_up answer v listen m f =
    let c = init answer v (parsed f) in
    elim c.1 [ none ↦ listening c.0 m listen | some e ↦ panics configs_init_fail e ]
