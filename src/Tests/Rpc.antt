-- ===== src/Tests/Rpc.antt =====
-- The RPC client and the labels, at concrete inputs.
use nacos_sdk_go.Common.{
  ℕ, ◌≡◌, ◌⊎◌, ◌&&◌, refl, true, false, [], ◌∷◌, Option, none, some, arith, codes, is_some,
  if◌then◌else◌, bytes_eq, nat_beq,
}
use nacos_sdk_go.Server.{NacosServer, get_next_server}
use nacos_sdk_go.Rpc.{
  RpcClient, Connection, ServerInfo, no_answer, response, no_server, initialized, running,
  unhealthy, is_running, start, send_health_check, next_rpc_server,
}
use nacos_sdk_go.Rpc.Loop.{Round, Stage, done, reconnect, reconnect_loop, round_server}
use nacos_sdk_go.Rpc.Invariant.{new, after, started, RunsConnected, Reachable-RunsConnected}
use nacos_sdk_go.Rpc.Progress.{reconnect-done, Landed}
use nacos_sdk_go.Rpc.Reconnect.{shutdown_overwritten}
use nacos_sdk_go.Rpc.Requests.{Try, request, request-total, request-gives_up, request_loop, attempt}

abbrev pub address : ServerInfo
address = record { server_ip = codes "10.0.0.1"; server_port = 8848; server_grpc_port = 9848 }

abbrev pub connection : Connection
connection = record { connection_id = 1; server_info = address }

abbrev pub one_server : NacosServer
one_server = record {
  server_list =
      record {
        scheme = codes "http";
        context_path = [];
        ip_addr = codes "10.0.0.1";
        port = 8848;
        grpc_port = 9848;
      }
      ∷ [];
  last_srv_ref_time = 0;
  vip_srv_ref_inter_mills = 10_000;
  context_path = [];
  current_index = 0;
  pending = 0;
  auth_servers = [];
}

abbrev pub fresh : RpcClient
fresh = record {
  current_connection = none;
  rpc_client_status = initialized;
  events = [];
  reconnections = [];
  last_active_timestamp = 0;
  nacos_server = one_server;
  closed = [];
  abandoned = [];
  sleeps = [];
}

abbrev pub live : RpcClient
live = record fresh { current_connection = some connection; rpc_client_status = running }

abbrev down : RpcClient
down = record fresh { rpc_client_status = unhealthy }

abbrev pub connects : ℕ → ServerInfo → Option Connection
connects i s = some connection

Reachable-RunsConnected_example : RunsConnected (start connects fresh)
Reachable-RunsConnected_example =
    Reachable-RunsConnected (after (new fresh refl) (started connects fresh))

-- The first try gets no answer, the second one a response.
abbrev second_answers : ℕ → Try
second_answers i = record {
  at_time = 5;
  answer = if nat_beq i 1 then response true 200 else no_answer;
  meanwhile = λ r. live;
}

request-total_example : is_some (request second_answers 0 3000 live).1 ≡ true
request-total_example =
    request-total second_answers 0 3000 1 live (λ i. omega arith) (λ i r. (refl, refl))
      (omega arith) refl (refl, refl)

-- No try gets an answer, and nobody connects the client again.
abbrev never_answers : ℕ → Try
never_answers i = record { at_time = 5; answer = no_answer; meanwhile = λ r. r }

request-gives_up_example : is_running (request never_answers 0 3000 live).0 ≡ false
unfolding request request_loop attempt
request-gives_up_example = request-gives_up never_answers 0 3000 live refl

abbrev fails : Round
fails = record { outcome = none; shut_during = false }

abbrev succeeds : Round
succeeds = record { outcome = some connection; shut_during = false }

abbrev ended : RpcClient × Stage
ended = reconnect (fails ∷ succeeds ∷ []) no_answer no_server false down

reconnect-done_example :
    (ended.1 ≡ done)
    × (is_running ended.0 ≡ true)
    × ((((false && send_health_check down no_answer) ≡ true)
          × (ended.0.current_connection ≡ down.current_connection))
        ⊎ Landed (fails ∷ succeeds ∷ []) ended.0)
reconnect-done_example =
    reconnect-done (fails ∷ succeeds ∷ []) no_answer no_server false down (refl, (refl, tt))
      (1, succeeds, refl, refl) (refl, omega arith, omega arith)

abbrev shut_meanwhile : Round
shut_meanwhile = record { outcome = some connection; shut_during = true }

abbrev overwritten : RpcClient × Stage
overwritten = reconnect_loop (shut_meanwhile ∷ []) no_server 1 1 down

shutdown_overwritten_example :
    (is_running overwritten.0 ≡ true)
    × (overwritten.0.current_connection ≡ some connection)
    × (overwritten.1 ≡ done)
unfolding round_server next_rpc_server get_next_server
shutdown_overwritten_example = shutdown_overwritten connection [] no_server 1 1 down refl refl
