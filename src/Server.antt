-- ===== src/Server.antt =====
-- common/nacos_server/nacos_server.go: the list of servers, its refresh from the endpoint, and the
-- choice of a server for a request.
pub mod Turns
pub mod Refresh
pub mod Retry
pub mod Http
use Prim.Native.Nat.{◌%◌, ◌^◌}
use nacos_sdk_go.Common.{
  ℕ, zero, suc, ◌+◌, ◌-◌, ◌≡◌, refl, Bool, true, false, ◌&&◌, ◌||◌, not, List, [], ◌∷◌, ◌++◌,
  Option, none, some, Bytes, Dict, insert, codes, length, get_elem?, nat_beq, ltb, leb,
  if◌then◌else◌, bytes_eq, bytes_beq,
}
use nacos_sdk_go.Util.Split.{split_byte}
use nacos_sdk_go.Util.Trim.{trim_space, has_substring}
use nacos_sdk_go.Util.Decimal.{atoi, itoa}

-- constant.ServerConfig.
pub record ServerConfig : Type 0 where
  pub scheme : Bytes
  pub context_path : Bytes
  pub ip_addr : Bytes
  pub port : ℕ
  pub grpc_port : ℕ

-- `current_index` is the bit pattern of an int32. `pending` is the number of values in the
-- channel `ServerSrcChangeSignal`, which has room for one.
pub record NacosServer : Type 0 where
  pub server_list : List ServerConfig
  pub last_srv_ref_time : ℕ
  pub vip_srv_ref_inter_mills : ℕ
  pub context_path : Bytes
  pub current_index : ℕ
  pub pending : ℕ
  pub auth_servers : List ServerConfig

abbrev pub web_context : Bytes
web_context = codes "/nacos"

-- `atomic.AddInt32(&server.currentIndex, 1)`.
abbrev pub add_index : ℕ → ℕ
add_index i = (i + 1) % 2 ^ 32

abbrev pub is_negative : ℕ → Bool
is_negative i = leb (2 ^ 31) i

-- A server, the error of an empty list, or the panic of a negative index.
pub data Next : Type 0 where
  next : ServerConfig → Next
  server_is_empty panics : Next

abbrev pub element : List ServerConfig → ℕ → Next
element servers i = elim (get_elem? servers i) [ none ↦ panics | some s ↦ next s ]

-- The remainder of a negative number in Go is that of its absolute value, negated.
unfoldable pub get_next_server : NacosServer → NacosServer × Next
get_next_server server =
    let n = length server.server_list in
    let i = add_index server.current_index in
    if nat_beq n 0 then (server, server_is_empty) else (
      record server { current_index = i },
      if is_negative i
          then (if nat_beq ((2 ^ 32 - i) % n) 0 then element server.server_list 0 else panics)
          else element server.server_list (i % n),
    )

-- The port of a line split at its colons; `none` skips the line.
unfoldable pub port_of : List Bytes → Option ℕ
port_of (ip ∷ port ∷ []) = atoi port
port_of parts = some 8848

abbrev head_or_empty : List Bytes → Bytes
head_or_empty [] = []
head_or_empty (s ∷ ss) = s

-- One round of the loop of `refreshServerSrvIfNeed` over the lines.
unfoldable pub parse_line : Bytes → Bytes → Option ServerConfig
parse_line context_path line =
    let split_line = split_byte b':' (trim_space line) in
    elim (port_of split_line) [
      | none ↦ none
      | some port ↦ some record {
        scheme = codes "http";
        context_path = context_path;
        ip_addr = head_or_empty split_line;
        port = port;
        grpc_port = 0;
      }
    ]

unfoldable pub parse_lines : Bytes → List Bytes → List ServerConfig
parse_lines context_path [] = []
parse_lines context_path (line ∷ lines) =
    let rest = parse_lines context_path lines in
    if bytes_beq line []
    then rest
    else elim (parse_line context_path line) [ none ↦ rest | some s ↦ s ∷ rest ]

abbrev pub config_beq : ServerConfig → ServerConfig → Bool
config_beq a b =
    bytes_beq a.scheme b.scheme
    && (bytes_beq a.context_path b.context_path
        && (bytes_beq a.ip_addr b.ip_addr
            && (nat_beq a.port b.port && nat_beq a.grpc_port b.grpc_port)))

-- `reflect.DeepEqual` on two lists, one of them not empty.
unfoldable pub deep_equal : List ServerConfig → List ServerConfig → Bool
deep_equal [] [] = true
deep_equal [] (b ∷ bs) = false
deep_equal (a ∷ as') [] = false
deep_equal (a ∷ as') (b ∷ bs) = config_beq a b && deep_equal as' bs

abbrev pub parsed : NacosServer → Bytes → List ServerConfig
parsed server result =
    parse_lines
      (if nat_beq (length server.context_path) 0 then web_context else server.context_path)
      (split_byte 10 result)

abbrev pub is_fresh : NacosServer → ℕ → Bool
is_fresh server now =
    ltb (now - server.last_srv_ref_time) server.vip_srv_ref_inter_mills
    && ltb 0 (length server.server_list)

-- The body of the inner test: the signal is sent when there was a list before, and the send blocks
-- (`none`) while the channel is full.
unfoldable pub replace_servers : NacosServer → ℕ → List ServerConfig → Option NacosServer
replace_servers server now servers =
    let had_servers = ltb 0 (length server.server_list) in
    if had_servers && ltb 0 server.pending
    then none
    else some record server {
      server_list = servers;
      pending = if had_servers then 1 else server.pending;
      last_srv_ref_time = now;
      auth_servers = servers;
    }

-- `refreshServerSrvIfNeed`, where `result` is what the endpoint answers.
unfoldable pub refresh_server_srv_if_need : NacosServer → ℕ → Bytes → Option NacosServer
refresh_server_srv_if_need server now result =
    if is_fresh server now
    then some server
    else let servers = parsed server result in
      if ltb 0 (length servers) && not (deep_equal server.server_list servers)
      then replace_servers server now servers
      else some server

-- `InjectSecurityInfo`: `range` over what the security proxy gives.
unfoldable pub inject_security_info : Dict Bytes Bytes → Dict Bytes Bytes → Dict Bytes Bytes
inject_security_info param [] = param
inject_security_info param ((k, v) ∷ info) = inject_security_info (insert k v param) info

unfoldable pub get_address : ServerConfig → Bytes
get_address cfg =
    let host_port = cfg.ip_addr ++ (codes ":" ++ itoa cfg.port) in
    if has_substring (codes "http://") cfg.ip_addr || has_substring (codes "https://") cfg.ip_addr
    then host_port
    else cfg.scheme ++ (codes "://" ++ host_port)

-- The loops of `ReqApi` and `ReqConfigApi`. `call i s` is what `callServer` (`callConfigServer`)
-- gives in round `i` for the server `s`: the body, or nothing on an error.
module _ {ℓ} {A : Type ℓ} (call : ℕ → ServerConfig → Option A) where
  -- A single server: `rounds` more rounds, from round `i`.
  unfoldable pub retry_one : ServerConfig → ℕ → ℕ → Option A
  retry_one server zero i = none
  retry_one server (suc rounds) i =
      let rest = retry_one server rounds (i + 1) in
      elim (call i server) [ none ↦ rest | some result ↦ some result ]

  -- Several servers: round `i` asks `srvs[index]`, and goes on to `(index + i) % len(srvs)`.
  unfoldable pub retry_all : List ServerConfig → ℕ → ℕ → ℕ → Option A
  retry_all srvs zero i index = none
  retry_all srvs (suc rounds) i index =
      let rest = retry_all srvs rounds (i + 1) ((index + i) % length srvs) in
      elim (get_elem? srvs index) [
        | none ↦ none
        | some cur_server ↦ elim (call i cur_server) [ none ↦ rest | some result ↦ some result ]
      ]

  -- `start` is what `rand.Intn(len(srvs))` gives.
  unfoldable pub req_api : List ServerConfig → ℕ → Option A
  req_api [] start = none
  req_api (server ∷ []) start = retry_one server 3 0
  req_api (server ∷ server2 ∷ srvs) start =
      retry_all (server ∷ server2 ∷ srvs) (length (server ∷ server2 ∷ srvs)) 1 start
