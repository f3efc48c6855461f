-- ===== src/Server/Http.antt =====
-- common/nacos_server/nacos_server.go: a new list of servers, and the HTTP requests to one of them.
pub mod Keys
use Prim.Native.Nat.{◌%◌}
use nacos_sdk_go.Common.{
  ℕ, ◌≡◌, refl, ◌∙◌, ap, Bool, true, false, ◌||◌, ◌&&◌, not, List, [], ◌∷◌, ◌++◌, Option, none,
  some, arith, Bytes, Dict, lookup, insert, lookup-insert, codes, length, nat_beq, ltb, ◌==◌,
  bytes_eq, bytes_beq, if◌then◌else◌, bytes_beq_iff, Bool-cases, Option-cases, inl, inr, lookup-nil,
  sym,
}
use nacos_sdk_go.Util.Trim.{trim_space}
use nacos_sdk_go.Server.{ServerConfig, NacosServer, web_context, refresh_server_srv_if_need}

abbrev pub is_blank : Bytes → Bool
is_blank s = nat_beq (length (trim_space s)) 0

abbrev pub or_word : Bytes → Bytes → Bytes
or_word s word = if is_blank s then word else trim_space s

-- The address of the list of servers in `initRefreshSrvIfNeed`.
unfoldable pub endpoint_url : Bytes → Bytes → Bytes → Bytes → Bytes
endpoint_url endpoint endpoint_context_path cluster_name endpoint_query_params =
    let url =
      codes "http://"
      ++ (endpoint
          ++ (codes "/"
              ++ (or_word endpoint_context_path (codes "nacos")
                  ++ (codes "/" ++ or_word cluster_name (codes "serverlist"))))) in
    if is_blank endpoint_query_params then url else url ++ (codes "?" ++ endpoint_query_params)

abbrev pub empty_server : Bytes → List ServerConfig → NacosServer
empty_server context_path server_list = record {
  server_list = server_list;
  last_srv_ref_time = 0;
  vip_srv_ref_inter_mills = 10_000;
  context_path = context_path;
  current_index = 0;
  pending = 0;
  auth_servers = server_list;
}

-- `NewNacosServerWithRamCredentialProvider`, less its logins: `roll` is the random number, and
-- `fetched` what the endpoint answers at the time `now`. No result is an error.
unfoldable pub new_nacos_server :
    List ServerConfig → Bytes → Bytes → ℕ → ℕ → Bytes → Option NacosServer
new_nacos_server server_list endpoint context_path roll now fetched =
    let server = empty_server context_path server_list in
    if nat_beq (length server_list) 0 && nat_beq (length endpoint) 0
    then none
    else if ltb 0 (length server_list)
    then some (record server { current_index = roll % length server_list })
    else refresh_server_srv_if_need server now fetched

-- A request of the HTTP agent; each header has one value.
pub record HttpRequest : Type 0 where
  pub method : Bytes
  pub url : Bytes
  pub headers : Dict Bytes Bytes
  pub timeout_ms : ℕ
  pub params : Dict Bytes Bytes

-- A body that cannot be read is no body.
pub record HttpResponse : Type 0 where
  pub status_code : ℕ
  pub body : Option Bytes

abbrev pub access_key_field : Bytes
access_key_field = codes "accessKey"

abbrev pub secret_key_field : Bytes
secret_key_field = codes "secretKey"

-- The loop of `callConfigServer` over the new headers.
unfoldable pub put_headers : Dict Bytes Bytes → Dict Bytes Bytes → Dict Bytes Bytes
put_headers [] headers = headers
put_headers ((k, v) ∷ new_headers) headers = put_headers new_headers (
    if not (k == access_key_field) && not (k == secret_key_field)
    then insert k v headers
    else headers)

abbrev pub client_version : Bytes
client_version = codes "Nacos-Go-Client:v2.3.5"

abbrev pub content_type : Bytes
content_type = codes "application/x-www-form-urlencoded;charset=utf-8"

unfoldable pub config_headers : Dict Bytes Bytes → Bytes → Dict Bytes Bytes
unfolding put_headers
config_headers new_headers uid = insert (codes "Content-Type") content_type (
    insert (codes "RequestId") uid (
      insert (codes "exConfigInfo") (codes "true") (
        insert (codes "Connection") (codes "Keep-Alive") (
          insert (codes "User-Agent") client_version
            (insert (codes "Client-Version") client_version (put_headers new_headers []))))))

unfoldable pub server_headers : Bytes → Dict Bytes Bytes
server_headers uid =
    (codes "Client-Version", client_version)
    ∷ (codes "User-Agent", client_version)
    ∷ (codes "Connection", codes "Keep-Alive")
    ∷ (codes "RequestId", uid)
    ∷ (codes "Request-Module", codes "Naming")
    ∷ (codes "Content-Type", content_type)
    ∷ []

abbrev pub url_of : Bytes → Bytes → Bytes → Bytes
url_of cur_server context_path api =
    cur_server ++ ((if nat_beq (length context_path) 0 then web_context else context_path) ++ api)

-- The result of a response: an error, or the body of one with the status 200.
abbrev pub result_of : Option HttpResponse → Option Bytes
result_of none = none
result_of (some response) = elim response.body [
  | none ↦ none
  | some body ↦ if nat_beq response.status_code 200 then some body else none
]

-- The HTTP agent, and a new UUID, which can fail; a call gives what it sent and its result.
module _ (agent : HttpRequest → Option HttpResponse) (uuid : Option Bytes) where
  unfoldable pub call_config_server :
      Bytes
      → Dict Bytes Bytes
      → Dict Bytes Bytes
      → Bytes
      → Bytes
      → Bytes
      → ℕ
      → Option HttpRequest × Option Bytes
  unfolding config_headers
  call_config_server api params new_headers method cur_server context_path timeout_ms = elim uuid [
    | none ↦ (none, none)
    | some uid ↦
        let request : HttpRequest = record {
          method = method;
          url = url_of cur_server context_path api;
          headers = config_headers new_headers uid;
          timeout_ms = timeout_ms;
          params = params;
        } in
        (some request, result_of (agent request))
  ]

  unfoldable pub call_server :
      Bytes → Dict Bytes Bytes → Bytes → Bytes → Bytes → ℕ → Option HttpRequest × Option Bytes
  unfolding server_headers
  call_server api params method cur_server context_path timeout_ms = elim uuid [
    | none ↦ (none, none)
    | some uid ↦
        let request : HttpRequest = record {
          method = method;
          url = url_of cur_server context_path api;
          headers = server_headers uid;
          timeout_ms = timeout_ms;
          params = params;
        } in
        (some request, result_of (agent request))
  ]
