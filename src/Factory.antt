-- ===== src/Factory.antt =====
-- clients/nacos_client/nacos_client.go and clients/client_factory.go: the configuration of a
-- client, its
-- defaults and its checks.
pub mod Ready
use nacos_sdk_go.Common.{
  ℕ, ◌+◌, ◌%◌, ◌^◌, ◌≡◌, Bool, true, false, ◌||◌, ◌&&◌, not, List, [], ◌∷◌, ◌++◌, Option, none,
  some, Bytes, codes, length, map, nat_beq, ltb, if◌then◌else◌,
}
use nacos_sdk_go.Server.{ServerConfig}

-- The fields of constant.ClientConfig that are set or asked about here; a negative number counts as 0.
pub record ClientConfig : Type 0 where
  pub timeout_ms : ℕ
  pub beat_interval : ℕ
  pub update_thread_num : ℕ
  pub log_level : Bytes
  pub cache_dir : Bytes
  pub log_dir : Bytes
  pub endpoint : Bytes

-- `agent` says whether there is an HTTP agent.
pub record NacosClient : Type 0 where
  pub client_config_valid : Bool
  pub server_configs_valid : Bool
  pub agent : Bool
  pub client_config : ClientConfig
  pub server_configs : List ServerConfig

abbrev pub is_empty : Bytes → Bool
is_empty s = nat_beq (length s) 0

abbrev pub zero_config : ClientConfig
zero_config = record {
  timeout_ms = 0;
  beat_interval = 0;
  update_thread_num = 0;
  log_level = [];
  cache_dir = [];
  log_dir = [];
  endpoint = [];
}

-- `&nacos_client.NacosClient{}`.
abbrev pub new_client : NacosClient
new_client = record {
  client_config_valid = false;
  server_configs_valid = false;
  agent = false;
  client_config = zero_config;
  server_configs = [];
}

abbrev pub or_number : ℕ → ℕ → ℕ
or_number n default = if nat_beq n 0 then default else n

abbrev pub or_text : Bytes → Bytes → Bytes
or_text s default = if is_empty s then default else s

-- `current_path` is `file.GetCurrentPath()` with the separator.
unfoldable pub set_client_config : Bytes → NacosClient → ClientConfig → NacosClient
set_client_config current_path client config = record client {
  client_config = record config {
    timeout_ms = or_number config.timeout_ms 10_000;
    beat_interval = or_number config.beat_interval 5_000;
    update_thread_num = or_number config.update_thread_num 20;
    log_level = or_text config.log_level (codes "info");
    cache_dir = or_text config.cache_dir (current_path ++ codes "cache");
    log_dir = or_text config.log_dir (current_path ++ codes "log");
  };
  client_config_valid = true;
}

abbrev pub is_invalid : ServerConfig → Bool
is_invalid c = is_empty c.ip_addr || (nat_beq c.port 0 || ltb 65_535 c.port)

abbrev pub with_defaults : ServerConfig → ServerConfig
with_defaults c = record c {
  context_path = or_text c.context_path (codes "/nacos");
  scheme = or_text c.scheme (codes "http");
}

-- The loop of `SetServerConfig`; no result is an error.
unfoldable pub check_server_configs : List ServerConfig → Option (List ServerConfig)
check_server_configs [] = some []
check_server_configs (c ∷ configs) =
    let rest = check_server_configs configs in
    if is_invalid c
    then none
    else elim rest [ none ↦ none | some configs' ↦ some (with_defaults c ∷ configs') ]

unfoldable pub set_server_config : NacosClient → List ServerConfig → Option NacosClient
unfolding check_server_configs
set_server_config client [] = some record client { server_configs_valid = true }
set_server_config client (c ∷ configs) = elim (check_server_configs (c ∷ configs)) [
  | none ↦ none
  | some configs' ↦ some record client { server_configs = configs'; server_configs_valid = true }
]

-- The ports are `uint64`s.
abbrev pub with_ports : ServerConfig → ServerConfig
with_ports c =
    let port = or_number c.port 8848 in
    record c { port = port; grpc_port = or_number c.grpc_port ((port + 1000) % 2 ^ 64) }

-- vo.NacosClientParam.
pub record NacosClientParam : Type 0 where
  pub client_config : Option ClientConfig
  pub server_configs : List ServerConfig

abbrev pub default_config : ClientConfig
default_config = record zero_config { timeout_ms = 10_000; beat_interval = 5_000 }

abbrev pub or_default : Option ClientConfig → ClientConfig
or_default none = default_config
or_default (some config) = config

-- The servers of `setConfig`: without any there must be an endpoint.
unfoldable pub configure_servers : NacosClient → List ServerConfig → Option NacosClient
unfolding set_server_config
configure_servers client [] =
    if is_empty client.client_config.endpoint then none else set_server_config client []
configure_servers client (c ∷ configs) = set_server_config client (map with_ports (c ∷ configs))

-- `SetHttpAgent` with a new agent, if there is none.
abbrev pub with_agent : NacosClient → NacosClient
with_agent client =
    if client.agent then client else record client { agent = client.client_config_valid }

-- `setConfig`; no result is an error.
unfoldable pub set_config : Bytes → NacosClientParam → Option NacosClient
unfolding set_client_config configure_servers
set_config current_path param =
    elim (configure_servers
      (set_client_config current_path new_client (or_default param.client_config))
      param.server_configs) [ none ↦ none | some client ↦ some (with_agent client) ]
