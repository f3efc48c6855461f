-- ===== src/Rpc/Grpc.antt =====
-- common/remote/rpc/grpc_client.go: how a connection to a server is made.
pub mod Check
pub mod Stream
pub mod Pushes
use nacos_sdk_go.Common.{
  ℕ, zero, suc, ◌+◌, ◌*◌, ◌%◌, ◌^◌, Bool, true, false, not, ◌&&◌, List, [], ◌∷◌, ◌++◌, Option, none,
  some, Bytes, codes, ltb, leb, nat_beq, if◌then◌else◌,
}
use nacos_sdk_go.Util.{contains}
use nacos_sdk_go.Util.Decimal.{atoi, itoa}
use nacos_sdk_go.Rpc.{ServerInfo, Connection}

-- constant.TLSConfig, less a field for tests.
pub record TlsConfig : Type 0 where
  pub appointed : Bool
  pub enable : Bool
  pub trust_all : Bool
  pub ca_file : Bytes
  pub cert_file : Bytes
  pub key_file : Bytes

-- The options of `grpc.Dial`, those that depend on anything; times are in milliseconds.
pub record DialOptions : Type 0 where
  pub max_call_recv_msg_size : ℕ
  pub keep_alive_time : ℕ
  pub initial_window_size : ℕ
  pub initial_conn_window_size : ℕ
  pub tls : Option TlsConfig

-- `strconv.ParseBool`.
unfoldable pub parse_bool : Bytes → Option Bool
parse_bool s =
    if contains
      (codes "1" ∷ codes "t" ∷ codes "T" ∷ codes "TRUE" ∷ codes "true" ∷ codes "True" ∷ []) s
    then some true
    else if contains
        (codes "0" ∷ codes "f" ∷ codes "F" ∷ codes "FALSE" ∷ codes "false" ∷ codes "False" ∷ []) s
    then some false
    else none

abbrev pub ten_mega : ℕ
ten_mega = 10 * 1024 * 1024

-- `int32(n)`, as its 32 bits.
abbrev pub int32 : ℕ → ℕ
int32 n = n % 2 ^ 32

-- A duration of that many milliseconds; one below 0 is over at once, like 0.
abbrev pub millis : ℕ → ℕ
millis n = if ltb n (2 ^ 31) then n else 0

-- `os.Getenv`, which gives no bytes for a variable that is not set.
module _ (getenv : Bytes → Bytes) where
  abbrev pub env_number : Bytes → ℕ → ℕ
  env_number key default = elim (atoi (getenv key)) [ none ↦ default | some n ↦ n ]

  abbrev pub get_max_call_recv_msg_size : ℕ
  get_max_call_recv_msg_size =
      env_number (codes "nacos.remote.client.grpc.maxinbound.message.size") ten_mega

  abbrev pub get_initial_window_size : ℕ
  get_initial_window_size =
      int32 (env_number (codes "nacos.remote.client.grpc.initial.window.size") ten_mega)

  abbrev pub get_initial_conn_window_size : ℕ
  get_initial_conn_window_size =
      int32 (env_number (codes "nacos.remote.client.grpc.initial.conn.window.size") ten_mega)

  -- `DEFAULT_TIMEOUT_MILLS` is 3000.
  unfoldable pub get_initial_grpc_timeout : ℕ
  get_initial_grpc_timeout =
      millis (int32 (env_number (codes "nacos.remote.client.grpc.timeout") 3000))

  abbrev pub get_keep_alive_time_millis : ℕ
  get_keep_alive_time_millis = env_number (codes "nacos.remote.grpc.keep.alive.millis") 60_000

  -- A variable that cannot be read leaves `old`.
  abbrev pub env_bool : Bytes → Bool → Bool
  env_bool key old = elim (parse_bool (getenv key)) [ none ↦ old | some b ↦ b ]

  unfoldable pub get_env_tls_config : TlsConfig → TlsConfig
  unfolding parse_bool
  get_env_tls_config config =
      if config.appointed
      then config
      else elim (parse_bool (getenv (codes "nacos_remote_client_rpc_tls_enable"))) [
        | none ↦ config
        | some enable_tls ↦
            if not enable_tls then record config { enable = false } else record config {
              enable = true;
              trust_all = env_bool (codes "nacos_remote_client_rpc_tls_trustAll") config.trust_all;
              ca_file = getenv (codes "nacos_remote_client_rpc_tls_trustCollectionChainPath");
              cert_file = getenv (codes "nacos_remote_client_rpc_tls_certChainFile");
              key_file = getenv (codes "nacos_remote_client_rpc_tls_certPrivateKey");
            }
      ]

  unfoldable pub dial_options : TlsConfig → DialOptions
  unfolding get_env_tls_config
  dial_options config =
      let tls = get_env_tls_config config in
      record {
        max_call_recv_msg_size = get_max_call_recv_msg_size;
        keep_alive_time = get_keep_alive_time_millis;
        initial_window_size = get_initial_window_size;
        initial_conn_window_size = get_initial_conn_window_size;
        tls = if tls.enable then some tls else none;
      }

-- The port is a `uint64`; `rpcPortOffset` is 1000.
abbrev pub rpc_port : ServerInfo → ℕ
rpc_port server =
    if nat_beq server.server_grpc_port 0
    then (server.server_port + 1000) % 2 ^ 64
    else server.server_grpc_port

abbrev pub dial_address : ServerInfo → Bytes
dial_address server = server.server_ip ++ (codes ":" ++ itoa (rpc_port server))

-- A try of `serverCheck`: how long the server takes, and the error code and connection id that are in
-- `response` after `json.Unmarshal`; no answer is an error of the call or of `json.Unmarshal`.
pub record CheckTry : Type 0 where
  pub takes : ℕ
  pub answer : Option (ℕ × ℕ)

abbrev pub is_not_ready : ℕ → Bool
is_not_ready code = leb 300 code && ltb code 400

-- The loop of `serverCheck`, over the tries that are left after this one. A call that does not end
-- before the deadline of the context is an error.
unfoldable pub server_check_loop : (ℕ → CheckTry) → ℕ → ℕ → ℕ → ℕ → Option ℕ
server_check_loop tries deadline zero i now =
    let t = tries i in
    if leb deadline (now + t.takes) then none else elim t.answer [
      | none ↦ none
      | some (code, connection_id) ↦ if is_not_ready code then none else some connection_id
    ]
server_check_loop tries deadline (suc left) i now =
    let t = tries i in
    let rest = server_check_loop tries deadline left (i + 1) (now + t.takes + 1000) in
    if leb deadline (now + t.takes) then none else elim t.answer [
      | none ↦ none
      | some (code, connection_id) ↦ if is_not_ready code then rest else some connection_id
    ]

-- `serverCheck`, in milliseconds from its start: at most 31 tries. The result is the id of the
-- connection.
unfoldable pub server_check : (Bytes → Bytes) → (ℕ → CheckTry) → Option ℕ
unfolding server_check_loop get_initial_grpc_timeout
server_check getenv tries = server_check_loop tries (get_initial_grpc_timeout getenv) 30 0 0

-- What the network does in one call of `connectToServer`: whether it dials, the tries of the check,
-- whether the stream is opened, and whether the setup request is sent.
pub record Network : Type 0 where
  pub dials : Bytes → DialOptions → Bool
  pub tries : ℕ → CheckTry
  pub opens_stream : Bool
  pub sends_setup : Bool

-- The open connections, by their servers, and the connections whose streams are read.
pub record Links : Type 0 where
  pub open_links : List ServerInfo
  pub streams : List Connection

-- `connectToServer`; no connection is an error.
unfoldable pub connect_to_server :
    (Bytes → Bytes) → TlsConfig → Network → ServerInfo → Links → Links × Option Connection
unfolding dial_options server_check
connect_to_server getenv config network server links =
    if not (network.dials (dial_address server) (dial_options getenv config))
    then (links, none)
    else elim (server_check getenv network.tries) [
      | none ↦ (links, none)
      | some id ↦
          let opened = record links { open_links = server ∷ links.open_links } in
          if not network.opens_stream
          then (opened, none)
          else (let c : Connection = record { connection_id = id; server_info = server } in
              (
                record opened { streams = c ∷ links.streams },
                if network.sends_setup then some c else none,
              ))
    ]
