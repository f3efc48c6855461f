-- ===== src/Tests/Streams.antt =====
-- The connection to a server and its stream, at concrete inputs.
use nacos_sdk_go.Common.{
  ℕ, ◌≡◌, ◌↔◌, refl, true, false, [], ◌∷◌, Option, none, some, Bytes, Dict, arith, codes, ltb,
  if◌then◌else◌, bytes_eq, ◌==◌,
}
use nacos_sdk_go.Util.Decimal.{atoi}
use nacos_sdk_go.Rpc.{Connection, unhealthy, switch_server_async, no_server}
use nacos_sdk_go.Rpc.Loop.{take_over}
use nacos_sdk_go.Rpc.Grpc.{
  CheckTry, Network, Links, TlsConfig, server_check, get_initial_grpc_timeout, connect_to_server,
}
use nacos_sdk_go.Rpc.Grpc.Check.{Served, server_check_iff}
use nacos_sdk_go.Rpc.Grpc.Stream.{
  receive_error, ServerRequest, client_detection_request, connect_reset_request, HandlerMapping,
  Payload, reset_type, detection_type, handle_server_request, register_server_request_handlers,
  is_abandoned, register_server_request_handler,
}
use nacos_sdk_go.Rpc.Grpc.Pushes.{
  take_over-receive_error, failed_setup_disturbs, register-handle, detected, reset_by,
}
use nacos_sdk_go.Tests.Rpc.{address, connection, live}

abbrev no_env : Bytes → Bytes
no_env key = []

-- A server that is ready from its third answer on.
abbrev third_ready : ℕ → CheckTry
third_ready i = record { takes = 10; answer = if ltb i 2 then some (302, 0) else some (0, 7) }

check_test : server_check no_env third_ready ≡ some 7
unfolding server_check atoi
check_test = refl

server_check_iff_example :
    (server_check no_env third_ready ≡ some 7)
    ↔ ((n : ℕ) × (code : ℕ) × Served third_ready (get_initial_grpc_timeout no_env) 30 0 0 n code 7)
server_check_iff_example = server_check_iff no_env third_ready 7

abbrev second : Connection
second = record { connection_id = 2; server_info = address }

take_over-receive_error_example :
    (receive_error (λ r. r) connection (take_over live second) ≡ (take_over live second, true))
    × (receive_error (λ s. s) second (take_over live second) ≡ (
      switch_server_async
          (record (take_over live second) { rpc_client_status = unhealthy })
          no_server
          false,
      true,
    ))
unfolding is_abandoned
take_over-receive_error_example =
    take_over-receive_error live connection second (λ r. r) refl (omega arith) refl

abbrev no_tls : TlsConfig
no_tls = record {
  appointed = true;
  enable = false;
  trust_all = false;
  ca_file = [];
  cert_file = [];
  key_file = [];
}

abbrev mute : Network
mute = record {
  dials = λ address' options. true;
  tries = third_ready;
  opens_stream = true;
  sends_setup = false;
}

abbrev no_links : Links
no_links = record { open_links = []; streams = [] }

failed_setup_disturbs_example :
    let (links, result) = connect_to_server no_env no_tls mute address no_links in
    (result ≡ none)
    × (links.open_links ≡ address ∷ [])
    × (c : Connection) × (links.streams ≡ c ∷ [])
    × (receive_error (λ s. s) c live ≡ (
      switch_server_async (record live { rpc_client_status = unhealthy }) no_server false,
      true,
    ))
unfolding is_abandoned
failed_setup_disturbs_example =
    failed_setup_disturbs no_env no_tls mute address no_links 7 live refl check_test refl refl refl
      refl

-- Every body is a detection request, or a reset to a server.
abbrev parse : Bytes → Option ServerRequest
parse body = some (record { request_id = body; content = client_detection_request })

abbrev parse_reset : Bytes → Option ServerRequest
parse_reset body = some (record {
  request_id = body;
  content = connect_reset_request (codes "10.0.0.2") (codes "8848");
})

abbrev handlers : Dict Bytes HandlerMapping
handlers = elim (register_server_request_handlers parse_reset parse []) [
  | none ↦ []
  | some mapping ↦ mapping
]

abbrev reset_payload : Payload
reset_payload = record { payload_type = reset_type; body = codes "12" }

register-handle_example : handle_server_request handlers reset_payload live ≡ (
    if detection_type == reset_payload.payload_type
    then (live, detected (parse reset_payload.body))
    else if reset_type == reset_payload.payload_type
    then reset_by (parse_reset reset_payload.body) live
    else handle_server_request [] reset_payload live)
unfolding register_server_request_handlers register_server_request_handler
register-handle_example = register-handle parse_reset parse [] handlers reset_payload live refl
