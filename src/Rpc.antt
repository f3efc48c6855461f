-- ===== src/Rpc.antt =====
-- common/remote/rpc/rpc_client.go: the status of a client, its connection, and the operations that
-- change them. The queues are the contents of the client's channels; a sender that finds a channel
-- full waits for its reader.
pub mod Loop
pub mod Labels
pub mod Reconnect
pub mod Progress
pub mod Invariant
pub mod Requests
pub mod Grpc
pub mod Listeners
use nacos_sdk_go.Common.{
  ℕ, zero, suc, ◌+◌, ◌-◌, ◌*◌, ◌%◌, ◌≡◌, refl, Bool, true, false, ◌&&◌, ◌||◌, not, List, [], ◌∷◌,
  ◌++◌, Option, none, some, Bytes, is_some, nat_beq, ltb, leb, if◌then◌else◌, bytes_beq, length,
}
use nacos_sdk_go.Server.{ServerConfig, NacosServer, get_next_server, next, server_is_empty, panics}

pub data RpcClientStatus : Type 0 where
  initialized starting unhealthy running shutdown : RpcClientStatus

-- The comparison of `isShutdown`, `IsRunning`, `IsInitialized` and of the compare-and-swaps.
abbrev pub status_beq : RpcClientStatus → RpcClientStatus → Bool
status_beq initialized initialized = true
status_beq starting starting = true
status_beq unhealthy unhealthy = true
status_beq running running = true
status_beq shutdown shutdown = true
status_beq _ _ = false

pub data ConnectionStatus : Type 0 where
  disconnected connected : ConnectionStatus

pub record ServerInfo : Type 0 where
  pub server_ip : Bytes
  pub server_port : ℕ
  pub server_grpc_port : ℕ

-- `ServerInfo{}`.
abbrev pub no_server : ServerInfo
no_server = record { server_ip = []; server_port = 0; server_grpc_port = 0 }

abbrev pub is_no_server : ServerInfo → Bool
is_no_server s =
    nat_beq (length s.server_ip) 0 && (nat_beq s.server_port 0 && nat_beq s.server_grpc_port 0)

pub record Connection : Type 0 where
  pub connection_id : ℕ
  pub server_info : ServerInfo

pub record ReconnectContext : Type 0 where
  pub on_request_fail : Bool
  pub server_info : ServerInfo

-- `events` and `reconnections` are what was sent to the two channels, `closed` and `abandoned`
-- the connections closed and given up so far, `sleeps` the pauses of the reconnection in ms.
pub record RpcClient : Type 0 where
  pub current_connection : Option Connection
  pub rpc_client_status : RpcClientStatus
  pub events : List ConnectionStatus
  pub reconnections : List ReconnectContext
  pub last_active_timestamp : ℕ
  pub nacos_server : NacosServer
  pub closed : List Connection
  pub abandoned : List Connection
  pub sleeps : List ℕ

abbrev pub is_shutdown : RpcClient → Bool
is_shutdown r = status_beq r.rpc_client_status shutdown

abbrev pub is_running : RpcClient → Bool
is_running r = status_beq r.rpc_client_status running

abbrev pub notify_connection_change : RpcClient → ConnectionStatus → RpcClient
notify_connection_change r event = record r { events = r.events ++ (event ∷ []) }

abbrev pub switch_server_async : RpcClient → ServerInfo → Bool → RpcClient
switch_server_async r server on_request_fail = record r {
  reconnections =
      r.reconnections ++ (record { on_request_fail = on_request_fail; server_info = server } ∷ []);
}

-- The closed connection stays the current one.
unfoldable pub close_connection : RpcClient → RpcClient
close_connection r = elim r.current_connection [
  | none ↦ r
  | some c ↦ notify_connection_change (record r { closed = r.closed ++ (c ∷ []) }) disconnected
]

-- `Shutdown`, less the removal of the client's name from the map of clients.
unfoldable pub shut_down : RpcClient → RpcClient
unfolding close_connection
shut_down r = close_connection (record r { rpc_client_status = shutdown })

-- A compare-and-swap of the status from `running` to `unhealthy`, and what follows a success.
abbrev pub mark_unhealthy : RpcClient → Bool → RpcClient
mark_unhealthy r on_request_fail =
    if is_running r
    then switch_server_async (record r { rpc_client_status = unhealthy }) no_server on_request_fail
    else r

abbrev pub info_of : ServerConfig → ServerInfo
info_of s = record { server_ip = s.ip_addr; server_port = s.port; server_grpc_port = s.grpc_port }

-- `nextRpcServer`: no server is the error of an empty list, or the panic of `GetNextServer`.
unfoldable pub next_rpc_server : RpcClient → RpcClient × Option ServerInfo
next_rpc_server r =
    let (server, n) = get_next_server r.nacos_server in
    (
      record r { nacos_server = server },
      elim n [ server_is_empty ↦ none | panics ↦ none | next s ↦ some (info_of s) ],
    )

-- The connection and the status after a successful connect.
unfoldable pub set_connected : RpcClient → Connection → RpcClient
set_connected r c =
    notify_connection_change (record r { current_connection = some c; rpc_client_status = running })
      connected

-- The loop of `Start`: `connect i` is what `connectToServer` gives in try `i`.
unfoldable pub start_up :
    (ℕ → ServerInfo → Option Connection) → ℕ → ℕ → RpcClient → RpcClient × Option Connection
unfolding next_rpc_server
start_up connect zero i r = (r, none)
start_up connect (suc tries) i r =
    let (r', server) = next_rpc_server r in
    let rest = start_up connect tries (i + 1) r' in
    elim server [
      | none ↦ (r', none)
      | some s ↦ elim (connect i s) [ none ↦ rest | some c ↦ (r', some c) ]
    ]

-- `Start`, with its three tries; the goroutines that it starts are the other operations.
unfoldable pub start : (ℕ → ServerInfo → Option Connection) → RpcClient → RpcClient
start connect r =
    if not (status_beq r.rpc_client_status initialized)
    then r
    else (let (r', c) = start_up connect 3 0 (record r { rpc_client_status = starting }) in
        elim c [ none ↦ switch_server_async r' no_server false | some c ↦ set_connected r' c ])

abbrev pub in_server_list : List ServerConfig → Bytes → Bool
in_server_list [] ip = false
in_server_list (s ∷ servers) ip = bytes_beq s.ip_addr ip || in_server_list servers ip

-- `notifyServerSrvChange`.
unfoldable pub notify_server_srv_change : RpcClient → RpcClient
notify_server_srv_change r = elim r.current_connection [
  | none ↦ switch_server_async r no_server false
  | some c ↦
      if in_server_list r.nacos_server.server_list c.server_info.server_ip
      then r
      else switch_server_async r no_server false
]

-- What a recommended server becomes: the first server of the list with its address, else none.
unfoldable pub recommended : List ServerConfig → ServerInfo → ServerInfo
recommended [] server = no_server
recommended (s ∷ servers) server =
    if bytes_beq server.server_ip s.ip_addr
    then record server { server_port = s.port; server_grpc_port = s.grpc_port }
    else recommended servers server

-- What a request over the connection gives: an error, an `ErrorResponse`, or another response.
pub data Answer : Type 0 where
  no_answer : Answer
  error_response : ℕ → Answer
  response : Bool → ℕ → Answer

-- `sendHealthCheck`.
unfoldable pub send_health_check : RpcClient → Answer → Bool
send_health_check r answer = elim r.current_connection [
  | none ↦ false
  | some c ↦ elim answer [
    | no_answer ↦ false
    | error_response code ↦ leb 300 code && ltb code 400
    | response success code ↦ success || (leb 300 code && ltb code 400)
  ]
]
