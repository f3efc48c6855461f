-- ===== src/Security/Proxy.antt =====
-- common/security/security_proxy.go: the proxy over the clients that log in.
use nacos_sdk_go.Common.{ℕ, ◌+◌, List, [], ◌∷◌, Bytes, Dict, bytes_eq, map}
use nacos_sdk_go.Server.{ServerConfig}
use nacos_sdk_go.Auth.{LoginReply, login_all, get_security_info}
use nacos_sdk_go.Auth
use nacos_sdk_go.Security.Ram.{Cloud}
use nacos_sdk_go.Security.Signature.{Mac}
use nacos_sdk_go.Security.Injector.{RequestResource, put_all}
use nacos_sdk_go.Security.Client.{RamAuthClient, ram_login, ram_security_info}

-- The interface AuthClient, with its two implementations.
pub data AuthClient : Type 0 where
  nacos_auth : Auth.AuthClient → AuthClient
  ram_auth : RamAuthClient → AuthClient

-- `NewSecurityProxy`.
unfoldable pub new_security_proxy : Auth.AuthClient → RamAuthClient → List AuthClient
new_security_proxy nacos ram = nacos_auth nacos ∷ ram_auth ram ∷ []

unfoldable pub update_server_list_of : List ServerConfig → AuthClient → AuthClient
update_server_list_of server_list (nacos_auth ac) =
    nacos_auth (record ac { server_cfgs = server_list })
update_server_list_of server_list (ram_auth rac) = ram_auth rac

unfoldable pub update_server_list : List ServerConfig → List AuthClient → List AuthClient
unfolding update_server_list_of
update_server_list server_list = map (update_server_list_of server_list)

module _ (getenv : Bytes → Bytes) (cloud : Cloud) where
  -- `Login` of each client, with the answers of the servers at a time in seconds; errors are logged.
  unfoldable pub login_of : (ServerConfig → LoginReply) → ℕ → AuthClient → AuthClient
  login_of reply now (nacos_auth ac) = nacos_auth (login_all reply now ac).0
  login_of reply now (ram_auth rac) = ram_auth (ram_login getenv cloud rac).0

  unfoldable proxy_login : (ServerConfig → LoginReply) → ℕ → List AuthClient → List AuthClient
  unfolding login_of
  proxy_login reply now = map (login_of reply now)

  -- The loop of `AutoRefresh`: a timer fires every five seconds, until the context is done. The list
  -- has the answers of the servers at each time it fires.
  unfoldable auto_refresh : List (ServerConfig → LoginReply) → ℕ → List AuthClient → List AuthClient
  unfolding proxy_login
  auto_refresh [] now clients = clients
  auto_refresh (reply ∷ replies) now clients =
      auto_refresh replies (now + 5) (proxy_login reply (now + 5) clients)

  module _ (mac : Mac) (now : ℕ) (date : Bytes) where
    unfoldable pub security_info_of : RequestResource → AuthClient → Dict Bytes Bytes
    security_info_of resource (nacos_auth ac) = get_security_info ac
    security_info_of resource (ram_auth rac) =
        ram_security_info getenv cloud mac now date rac resource

    -- The loop of `GetSecurityInfo`.
    unfoldable pub collect_security_info :
        RequestResource → List AuthClient → Dict Bytes Bytes → Dict Bytes Bytes
    unfolding security_info_of put_all
    collect_security_info resource [] security_info = security_info
    collect_security_info resource (client ∷ clients) security_info =
        collect_security_info resource clients
          (put_all (security_info_of resource client) security_info)

    unfoldable pub proxy_security_info : List AuthClient → RequestResource → Dict Bytes Bytes
    unfolding collect_security_info
    proxy_security_info clients resource = collect_security_info resource clients []
