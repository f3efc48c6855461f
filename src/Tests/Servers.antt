-- ===== src/Tests/Servers.antt =====
-- The list of servers and the login, at concrete inputs.
use nacos_sdk_go.Common.{
  ℕ, ◌≡◌, ◌<◌, ◌⊎◌, refl, [], ◌∷◌, none, some, Bytes, arith, codes, bytes_eq, bytes_beq,
}
use nacos_sdk_go.Util.Split.{split_byte}
use nacos_sdk_go.Util.Trim.{trim_space}
use nacos_sdk_go.Util.Decimal.{atoi}
use nacos_sdk_go.Server.{
  ServerConfig, NacosServer, get_next_server, panics, element, port_of, refresh_server_srv_if_need,
  parse_lines, parse_line, deep_equal, replace_servers,
}
use nacos_sdk_go.Server.Turns.{turn, turn_fair, counter_overflow_panics}
use nacos_sdk_go.Server.Refresh.{IsReplaced, refresh-IsReplaced}
use nacos_sdk_go.Auth.{AuthClient, LoginReply, token, refresh_tick}
use nacos_sdk_go.Auth.Refresh.{refreshed, tick_refreshes}

abbrev server_at : Bytes → ServerConfig
server_at ip = record {
  scheme = codes "http";
  context_path = codes "/nacos";
  ip_addr = ip;
  port = 8848;
  grpc_port = 0;
}

abbrev server_a : ServerConfig
server_a = server_at (codes "10.0.0.1")

abbrev server_b : ServerConfig
server_b = server_at (codes "10.0.0.2")

abbrev server_c : ServerConfig
server_c = server_at (codes "10.0.0.3")

abbrev servers : NacosServer
servers = record {
  server_list = server_a ∷ server_b ∷ server_c ∷ [];
  last_srv_ref_time = 0;
  vip_srv_ref_inter_mills = 10_000;
  context_path = [];
  current_index = 4;
  pending = 0;
  auth_servers = [];
}

turn_fair_example :
    (k : ℕ) × (k < 3) × (turn servers k ≡ element (server_a ∷ server_b ∷ server_c ∷ []) 1)
turn_fair_example = turn_fair servers 1 (omega arith) (omega arith)

abbrev at_the_end : NacosServer
at_the_end = record servers { current_index = 2147483647 }

counter_overflow_panics_example : (get_next_server at_the_end).1 ≡ panics
counter_overflow_panics_example =
    counter_overflow_panics at_the_end refl (omega arith) (omega arith)

abbrev empty_servers : NacosServer
empty_servers = record servers { server_list = [] }

abbrev line_a : Bytes
line_a = codes "10.0.0.1:8848"

abbrev filled : NacosServer
filled = record empty_servers {
  server_list = server_a ∷ [];
  last_srv_ref_time = 50_000;
  auth_servers = server_a ∷ [];
}

refresh-IsReplaced_example :
    (filled ≡ empty_servers) ⊎ IsReplaced empty_servers 50_000 line_a filled
unfolding refresh_server_srv_if_need parse_lines split_byte bytes_beq parse_line port_of trim_space
    atoi deep_equal replace_servers
refresh-IsReplaced_example = refresh-IsReplaced empty_servers filled 50_000 line_a refl

abbrev user : AuthClient
user = record {
  username = codes "nacos";
  password = codes "secret";
  access_token = none;
  token_ttl = 18_000;
  last_refresh_time = 100;
  token_refresh_window = 1_800;
  server_cfgs = server_a ∷ [];
  sent = [];
}

abbrev gives_token : ServerConfig → LoginReply
gives_token s = token (codes "t") (some 18_000)

tick_refreshes_example :
    ((refresh_tick gives_token 16_300 user).0 ≡ refreshed user server_a 16_300 (codes "t") 18_000)
    × ((delay : ℕ) × ((refresh_tick gives_token 16_300 user).1 ≡ some delay)
        × (0 < delay)
        × (delay < 18_000))
tick_refreshes_example =
    tick_refreshes gives_token user server_a [] (codes "t") 18_000 refl refl refl refl (omega arith)
