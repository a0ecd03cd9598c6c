-- ===== src/Configs.antt =====
-- pkg/configs/configs.go: the configuration entry, and the metadata of the node, which is fetched once
-- for each URL. What http.Get answers is a parameter, by the number of requests made before; the
-- constants of pkg/version, which the build sets, are a record.
pub mod Cache
pub mod Loading
use tcp_gateway.Prelude.{
  ℕ, ◌+◌, Option, none, some, ◌⊎◌, inl, inr, List, [], ◌∷◌, ◌++◌, length, if◌then◌else◌,
}
use tcp_gateway.Text.{Text, same, trim_space, decimal}
use tcp_gateway.Maps.{Map, lookup, insert}
use tcp_gateway.Interfaces.{Error}

-- `DiscoveryConfig`.
pub record DiscoveryConfig : Type 0 where
  pub kind : Text
  pub redis_register_key : Text
  pub redis_address : Text
  pub redis_password : Text

-- `NodeInfoConfig`.
pub record NodeInfoConfig : Type 0 where
  pub env : Text
  pub public_ip : Text
  pub local_ip : Text
  pub instance_name : Text
  pub instance_id : Text
  pub id : Text
  pub service_type : Text
  pub expire_time : ℕ
  pub connection_num : ℕ
  pub public_tcp_port : ℕ
  pub private_http_port : ℕ
  pub service_api_url : Text
  pub build_version : Text
  pub git_version : Text
  pub metric_data : Text

-- `EntryConfig`.
pub record EntryConfig : Type 0 where
  pub discovery : DiscoveryConfig
  pub node_info : NodeInfoConfig
  pub env : Text

-- ENV, BUILD_DATE and VERSION of pkg/version.
pub record Version : Type 0 where
  pub env : Text
  pub build_date : Text
  pub version : Text

-- What http.Get and io.ReadAll make of a URL.
pub data Fetch : Type 0 where
  no_response : Error → Fetch
  unreadable : Error → Fetch
  body : Text → Fetch

-- The package's `metaDataCache`, and the URLs that were requested, the latest first.
pub record Metadata : Type 0 where
  pub cache : Map Text
  pub requests : List Text

-- A step on the metadata that returns a value or an error.
abbrev pub M {ℓ} : Type ℓ → Type ℓ
M A = Metadata → Metadata × (A ⊎ Error)

infixl 5 ◌>>=◌
abbrev pub ◌>>=◌ {ℓ κ} : {A : Type ℓ} {B : Type κ} → M A → (A → M B) → M B
◌>>=◌ m f s = elim (m s).1 [ inl a ↦ f a (m s).0 | inr e ↦ ((m s).0, inr e) ]

abbrev pub pure {ℓ} : {A : Type ℓ} → A → M A
pure a s = (s, inl a)

-- The answer to a request is kept if it has a body.
abbrev pub fetched : Text → Fetch → M Text
fetched url (no_response e) s = (s, inr e)
fetched url (unreadable e) s = (s, inr e)
fetched url (body v) s = (record s { cache = insert url v s.cache }, inl v)

abbrev metadata_url : Text
metadata_url =
    b'h' ∷ b't' ∷ b't' ∷ b'p' ∷ b':' ∷ b'/' ∷ b'/' ∷ b'm' ∷ b'e' ∷ b't' ∷ b'a' ∷ b'd' ∷ b'a' ∷ b't'
    ∷ b'a' ∷ b'.' ∷ b't' ∷ b'e' ∷ b'n' ∷ b'c' ∷ b'e' ∷ b'n' ∷ b't' ∷ b'y' ∷ b'u' ∷ b'n' ∷ b'.'
    ∷ b'c' ∷ b'o' ∷ b'm' ∷ b'/' ∷ b'l' ∷ b'a' ∷ b't' ∷ b'e' ∷ b's' ∷ b't' ∷ b'/' ∷ b'm' ∷ b'e'
    ∷ b't' ∷ b'a' ∷ b'-' ∷ b'd' ∷ b'a' ∷ b't' ∷ b'a' ∷ b'/' ∷ []

abbrev pub public_ip_url : Text
public_ip_url =
    metadata_url
    ++ (b'p' ∷ b'u' ∷ b'b' ∷ b'l' ∷ b'i' ∷ b'c' ∷ b'-' ∷ b'i' ∷ b'p' ∷ b'v' ∷ b'4' ∷ [])

abbrev pub local_ip_url : Text
local_ip_url =
    metadata_url ++ (b'l' ∷ b'o' ∷ b'c' ∷ b'a' ∷ b'l' ∷ b'-' ∷ b'i' ∷ b'p' ∷ b'v' ∷ b'4' ∷ [])

abbrev pub instance_name_url : Text
instance_name_url =
    metadata_url
    ++ (b'i' ∷ b'n' ∷ b's' ∷ b't' ∷ b'a' ∷ b'n' ∷ b'c' ∷ b'e' ∷ b'-' ∷ b'n' ∷ b'a' ∷ b'm' ∷ b'e'
        ∷ [])

abbrev pub instance_id_url : Text
instance_id_url =
    metadata_url
    ++ (b'i' ∷ b'n' ∷ b's' ∷ b't' ∷ b'a' ∷ b'n' ∷ b'c' ∷ b'e' ∷ b'-' ∷ b'i' ∷ b'd' ∷ [])

-- The four values that `LoadNodeInfo` asks for.
pub record NodeMetadata : Type 0 where
  pub public_ip : Text
  pub local_ip : Text
  pub instance_name : Text
  pub instance_id : Text

-- The entry with the values filled in.
unfoldable pub fill : Version → NodeMetadata → EntryConfig → EntryConfig
fill v n e = record e {
  node_info = record (e.node_info) {
    env = v.env;
    public_ip = n.public_ip;
    local_ip = n.local_ip;
    instance_name = n.instance_name;
    instance_id = n.instance_id;
    id =
        n.instance_id
        ++ (b'_'
            ∷ (decimal e.node_info.public_tcp_port
                ++ (b'_' ∷ decimal e.node_info.private_http_port)));
    build_version = v.build_date;
    git_version = v.version;
  };
}

-- The variables of the package.
pub record Configs : Type 0 where
  pub entry : EntryConfig
  pub metadata : Metadata

module _ (answer : ℕ → Text → Fetch) where
  -- `get` behind the trimming of the URL.
  abbrev pub get_trimmed : Text → M Text
  get_trimmed url s = if same url [] then (s, inl []) else elim (lookup url s.cache) [
    | some v ↦ (s, inl v)
    | none ↦ fetched url (answer (length s.requests) url) (record s { requests = url ∷ s.requests })
  ]

  -- `get`.
  unfoldable pub get : Text → M Text
  get url = get_trimmed (trim_space url)

  -- The requests of `LoadNodeInfo`, which end at the first error.
  unfoldable pub read_metadata : M NodeMetadata
  read_metadata = do
    public_ip ← get public_ip_url
    local_ip ← get local_ip_url
    instance_name ← get instance_name_url
    instance_id ← get instance_id_url
    pure (record {
      public_ip = public_ip;
      local_ip = local_ip;
      instance_name = instance_name;
      instance_id = instance_id;
    })

  -- `LoadNodeInfo`: an error leaves the entry as it is.
  unfoldable pub load_node_info : Version → Configs → Configs × Option Error
  unfolding fill
  load_node_info v c =
      let r = read_metadata c.metadata in
      elim r.1 [
        | inl n ↦ (record c { entry = fill v n c.entry; metadata = r.0 }, none)
        | inr e ↦ (record c { metadata = r.0 }, some e)
      ]

  -- `Init`: `validate` has no check yet.
  unfoldable pub init : Version → Configs → Configs × Option Error
  init v c = load_node_info v c

-- `GetNodeInfo` and `GetDiscovery`.
abbrev pub get_node_info : Configs → NodeInfoConfig
get_node_info c = c.entry.node_info

abbrev pub get_discovery : Configs → DiscoveryConfig
get_discovery c = c.entry.discovery
