-- ===== src/Factory/Ready.antt =====
-- When a client is configured, and what its configuration is then: clients/client_factory.go and
-- clients/nacos_client/nacos_client.go.
use mathlib.Core.List.{Mem}
use nacos_sdk_go.Common.{
  ℕ, ◌+◌, ◌≤◌, ◌<◌, ◌≡◌, ◌⊎◌, true, List, [], ◌∷◌, ◌++◌, Option, none, some, Bytes, length, codes,
}
use nacos_sdk_go.Server.{ServerConfig}
use nacos_sdk_go.Factory.{ClientConfig, NacosClient, NacosClientParam, zero_config}

-- A number is the given one, or the default for 0.
abbrev pub Filled : ℕ → ℕ → ℕ → Type 0
Filled given default n = ((given ≡ 0) × (n ≡ default)) ⊎ ((0 < given) × (n ≡ given))

-- A text is the given one, or the default for the empty one.
abbrev pub FilledText : Bytes → Bytes → Bytes → Type 0
FilledText given default s = ((given ≡ []) × (s ≡ default)) ⊎ ((0 < length given) × (s ≡ given))

-- What becomes of a given server: one with its address, and with a port of TCP.
pub record IsServer (given c : ServerConfig) : Type 0 where
  pub address : 0 < length c.ip_addr
  pub same_address : c.ip_addr ≡ given.ip_addr
  pub port_number : Filled given.port 8848 c.port
  pub port_bound : c.port ≤ 65_535
  pub grpc_port_number : Filled given.grpc_port (c.port + 1000) c.grpc_port
  pub path : FilledText given.context_path (codes "/nacos") c.context_path
  pub protocol : FilledText given.scheme (codes "http") c.scheme

abbrev pub AreServers : List ServerConfig → List ServerConfig → Type 0
AreServers [] [] = Unit
AreServers [] (c ∷ servers) = ⊥
AreServers (g ∷ given) [] = ⊥
AreServers (g ∷ given) (c ∷ servers) = IsServer g c × AreServers given servers

-- The given configuration; none is like one of zero values.
abbrev pub given_config : Option ClientConfig → ClientConfig
given_config none = zero_config
given_config (some config) = config

-- The configuration that a client has of a given one, with the documented defaults.
pub record IsConfigured (current_path : Bytes) (given config : ClientConfig) : Type 0 where
  pub timeout : Filled given.timeout_ms 10_000 config.timeout_ms
  pub interval : Filled given.beat_interval 5_000 config.beat_interval
  pub threads : Filled given.update_thread_num 20 config.update_thread_num
  pub level : FilledText given.log_level (codes "info") config.log_level
  pub dir : FilledText given.cache_dir (current_path ++ codes "cache") config.cache_dir
  pub logs : FilledText given.log_dir (current_path ++ codes "log") config.log_dir
  pub source : config.endpoint ≡ given.endpoint

-- A client with which one can work.
pub record IsReady (current_path : Bytes) (param : NacosClientParam) (client : NacosClient)
    : Type 0 where
  pub valid_config : client.client_config_valid ≡ true
  pub valid_servers : client.server_configs_valid ≡ true
  pub has_agent : client.agent ≡ true
  pub configured : IsConfigured current_path (given_config param.client_config) client.client_config
  pub servers : AreServers param.server_configs client.server_configs
  pub reachable : (0 < length client.client_config.endpoint) ⊎ (0 < length client.server_configs)

-- A server that is refused: it has no address, or a port above 65535.
abbrev pub IsRefused : ServerConfig → Type 0
IsRefused c = (c.ip_addr ≡ []) ⊎ (65_535 < c.port)

-- What makes a configuration unusable: neither a server nor an endpoint, or a server that is refused.
abbrev pub Unusable : NacosClientParam → Type 0
Unusable param =
    ((param.server_configs ≡ []) × ((given_config param.client_config).endpoint ≡ []))
    ⊎ ((c : ServerConfig) × Mem c param.server_configs × IsRefused c)
