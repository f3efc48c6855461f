-- ===== src/Rpc/Grpc/Stream.antt =====
-- common/remote/rpc/grpc_client.go: the stream over which a server sends its requests. The handlers
-- are those of common/remote/rpc/server_request_handler.go.
use nacos_sdk_go.Common.{
  Bool, true, false, not, ◌&&◌, ◌||◌, List, [], ◌∷◌, Option, none, some, Bytes, Dict, lookup,
  insert, codes, bytes_eq, length, nat_beq, if◌then◌else◌,
}
use nacos_sdk_go.Rpc.{RpcClient, Connection, is_running, mark_unhealthy}
use nacos_sdk_go.Rpc.Requests.{connect_reset}

-- `getAbandon`; a connection is known by its id.
unfoldable pub is_abandoned : List Connection → Connection → Bool
is_abandoned [] c = false
is_abandoned (d ∷ abandoned) c = nat_beq d.connection_id c.connection_id || is_abandoned abandoned c

-- An error of `Recv` in `bindBiRequestStream`: `meanwhile` is what other goroutines do to the client
-- between the test and the compare-and-swap. The Boolean says whether the goroutine ends.
unfoldable pub receive_error : (RpcClient → RpcClient) → Connection → RpcClient → RpcClient × Bool
unfolding is_abandoned
receive_error meanwhile c r =
    if is_running r && not (is_abandoned r.abandoned c)
    then (let r' = meanwhile r in (mark_unhealthy r' false, is_running r'))
    else (r, true)

-- What a request of a server says, as its type has it.
pub data Content : Type 0 where
  connect_reset_request : Bytes → Bytes → Content
  client_detection_request : Content
  other_request : Bytes → Content

pub record ServerRequest : Type 0 where
  pub request_id : Bytes
  pub content : Content

-- The handlers of the package; one of another package says whether it has a response.
pub data Handler : Type 0 where
  connect_reset_handler client_detection_handler : Handler
  custom_handler : (ServerRequest → Bool) → Handler

-- `RequestReply`; the Boolean says whether there is a response.
unfoldable pub request_reply : Handler → ServerRequest → RpcClient → RpcClient × Bool
unfolding connect_reset
request_reply connect_reset_handler request r = elim request.content [
  | connect_reset_request ip port ↦ connect_reset ip port r
  | client_detection_request ↦ (r, false)
  | other_request body ↦ (r, false)
]
request_reply client_detection_handler request r = elim request.content [
  | connect_reset_request ip port ↦ (r, false)
  | client_detection_request ↦ (r, true)
  | other_request body ↦ (r, false)
]
request_reply (custom_handler replies) request r = (r, replies request)

-- ServerRequestHandlerMapping: `json.Unmarshal` into a new request, and the handler.
pub record HandlerMapping : Type 0 where
  pub server_request : Bytes → Option ServerRequest
  pub handler : Handler

-- `RegisterServerRequestHandler`: without a handler the message of the error asks for its name,
-- which panics.
unfoldable pub register_server_request_handler :
    Dict Bytes HandlerMapping
    → Bytes
    → (Bytes → Option ServerRequest)
    → Option Handler
    → Option (Dict Bytes HandlerMapping)
register_server_request_handler mapping request_type request none = none
register_server_request_handler mapping request_type request (some handler) =
    if nat_beq (length request_type) 0
    then some mapping
    else some (insert request_type (record { server_request = request; handler = handler }) mapping)

abbrev pub reset_type : Bytes
reset_type = codes "ConnectResetRequest"

abbrev pub detection_type : Bytes
detection_type = codes "ClientDetectionRequest"

-- `registerServerRequestHandlers`, with what `json.Unmarshal` makes of the two types.
unfoldable pub register_server_request_handlers :
    (Bytes → Option ServerRequest)
    → (Bytes → Option ServerRequest)
    → Dict Bytes HandlerMapping
    → Option (Dict Bytes HandlerMapping)
unfolding register_server_request_handler
register_server_request_handlers reset detection mapping =
    elim (register_server_request_handler mapping reset_type reset (some connect_reset_handler)) [
      | none ↦ none
      | some mapping' ↦
          register_server_request_handler mapping' detection_type detection
            (some client_detection_handler)
    ]

pub record Payload : Type 0 where
  pub payload_type : Bytes
  pub body : Bytes

-- The answer of a handler to what `json.Unmarshal` gives: the id of the response, if there is one.
unfoldable pub replied : Handler → Option ServerRequest → RpcClient → RpcClient × Option Bytes
unfolding request_reply
replied handler none r = (r, none)
replied handler (some request) r =
    let (r', responds) = request_reply handler request r in
    (r', if responds then some request.request_id else none)

-- `handleServerRequest`: the id that the response is sent with, if one is.
unfoldable pub handle_server_request :
    Dict Bytes HandlerMapping → Payload → RpcClient → RpcClient × Option Bytes
unfolding replied
handle_server_request mapping p r = elim (lookup p.payload_type mapping) [
  | none ↦ (r, none)
  | some m ↦ replied m.handler (m.server_request p.body) r
]
