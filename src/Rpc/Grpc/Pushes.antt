-- ===== src/Rpc/Grpc/Pushes.antt =====
-- What the requests of a server, and the errors of its stream, do to the client.
use nacos_sdk_go.Common.{
  ℕ, Bool, ◌≡◌, ◌≢◌, refl, sym, ap, ◌∙◌, true, false, ◌||◌, List, [], ◌∷◌, ◌++◌, Option, none, some,
  arith, Bytes, Dict, lookup, insert, lookup-insert, bytes_eq, ◌==◌, nat_beq, Bool-cases, inl, inr,
  if◌then◌else◌,
}
use nacos_sdk_go.Rpc.{
  RpcClient, ServerInfo, Connection, is_running, switch_server_async, no_server, close_connection,
  set_connected, unhealthy,
}
use nacos_sdk_go.Rpc.Loop.{take_over}
use nacos_sdk_go.Rpc.Requests.{connect_reset}
use nacos_sdk_go.Util.Decimal.{atoi}
use nacos_sdk_go.Rpc.Grpc.{
  Network, Links, TlsConfig, connect_to_server, server_check, dial_address, dial_options,
}
use nacos_sdk_go.Rpc.Grpc.Stream.{
  is_abandoned, receive_error, ServerRequest, connect_reset_request, client_detection_request,
  other_request, replied, HandlerMapping, connect_reset_handler, client_detection_handler,
  request_reply, reset_type, detection_type, register_server_request_handler,
  register_server_request_handlers, Payload, handle_server_request,
}

is_abandoned-append :
    (cs : List Connection) (d c : Connection)
    → is_abandoned (cs ++ (d ∷ [])) c
      ≡ (is_abandoned cs c || nat_beq d.connection_id c.connection_id)
unfolding is_abandoned
is_abandoned-append [] d c = ground arith
is_abandoned-append (b ∷ cs) d c = ground (arith, is_abandoned-append cs d c)

-- When a connection takes over from another, an error of the old one's stream does nothing any
-- more, and
-- one of the new one's makes the client unhealthy and has it look for another server.
pub take_over-receive_error :
    (r : RpcClient) (old c : Connection) (meanwhile : RpcClient → RpcClient)
    → r.current_connection ≡ some old
    → old.connection_id ≢ c.connection_id
    → is_abandoned r.abandoned c ≡ false
    → (receive_error meanwhile old (take_over r c) ≡ (take_over r c, true))
      × (receive_error (λ s. s) c (take_over r c) ≡ (
        switch_server_async
            (record (take_over r c) { rpc_client_status = unhealthy })
            no_server
            false,
        true,
      ))
unfolding receive_error take_over close_connection set_connected
take_over-receive_error r old c meanwhile e d n = (
  ground (arith, e, is_abandoned-append r.abandoned old old),
  ground (arith, e, d, n, is_abandoned-append r.abandoned old c),
)

-- A connection that could be opened, but whose setup request could not be sent, is given up with an
-- error,
-- and yet it stays open and its stream is read: when that stream breaks, a client that runs with
-- another
-- server becomes unhealthy and looks for a new one.
pub failed_setup_disturbs :
    (getenv : Bytes → Bytes) (config : TlsConfig) (network : Network) (server : ServerInfo)
    (links : Links) (id : ℕ) (r : RpcClient)
    → network.dials (dial_address server) (dial_options getenv config) ≡ true
    → server_check getenv network.tries ≡ some id
    → network.opens_stream ≡ true
    → network.sends_setup ≡ false
    → is_running r ≡ true
    → is_abandoned r.abandoned (record { connection_id = id; server_info = server }) ≡ false
    → let (links', result) = connect_to_server getenv config network server links in
      (result ≡ none)
      × (links'.open_links ≡ server ∷ links.open_links)
      × (c : Connection) × (links'.streams ≡ c ∷ links.streams)
      × (receive_error (λ s. s) c r ≡ (
        switch_server_async (record r { rpc_client_status = unhealthy }) no_server false,
        true,
      ))
unfolding connect_to_server receive_error
failed_setup_disturbs getenv config network server links id r d s o f run n = (
  ground (arith, d, s, o, f),
  ground (arith, d, s, o, f),
  record { connection_id = id; server_info = server },
  ground (arith, d, s, o, f),
  ground (arith, run, n),
)

-- The response to what may be a detection request.
abbrev pub detected : Option ServerRequest → Option Bytes
detected none = none
detected (some request) = elim request.content [
  | connect_reset_request ip port ↦ none
  | client_detection_request ↦ some request.request_id
  | other_request body ↦ none
]

-- The client with one more reconnection asked for: to a server, and whether it is to test its
-- connection first.
abbrev pub asked_for : ServerInfo → Bool → RpcClient → RpcClient
asked_for server tests r = record r {
  reconnections =
      r.reconnections ++ (record { on_request_fail = tests; server_info = server } ∷ []);
}

-- What a reset to a server makes of a running client, and whether it is answered.
abbrev pub reset_to : Bytes → Bytes → RpcClient → RpcClient × Bool
reset_to [] port r =
    (asked_for (record { server_ip = []; server_port = 0; server_grpc_port = 0 }) true r, true)
reset_to (b ∷ ip) port r = elim (atoi port) [
  | none ↦ (r, false)
  | some n ↦ (
    asked_for (record { server_ip = b ∷ ip; server_port = n; server_grpc_port = 0 }) false r,
    true,
  )
]

-- What a reset request does, and the response to it.
abbrev pub reset_by : Option ServerRequest → RpcClient → RpcClient × Option Bytes
reset_by none r = (r, none)
reset_by (some request) r = elim request.content [
  | connect_reset_request ip port ↦
      if is_running r
      then (
        (reset_to ip port r).0,
        if (reset_to ip port r).1 then some request.request_id else none,
      )
      else (r, some request.request_id)
  | client_detection_request ↦ (r, none)
  | other_request body ↦ (r, none)
]

connect_reset-reset_to :
    (ip port : Bytes) (r : RpcClient)
    → connect_reset ip port r ≡ (if is_running r then reset_to ip port r else (r, true))
unfolding connect_reset
connect_reset-reset_to [] port r = ground arith
connect_reset-reset_to (b ∷ ip) port r = ground arith

lookup_registered :
    (reset detection : Bytes → Option ServerRequest) (mapping mapping' : Dict Bytes HandlerMapping)
    (t : Bytes)
    → register_server_request_handlers reset detection mapping ≡ some mapping'
    → lookup t mapping' ≡ (
        if detection_type == t
        then some (record { server_request = detection; handler = client_detection_handler })
        else if reset_type == t
        then some (record { server_request = reset; handler = connect_reset_handler })
        else lookup t mapping)
unfolding register_server_request_handlers register_server_request_handler
lookup_registered reset detection mapping mapping' t e =
    let m1 : HandlerMapping = record { server_request = reset; handler = connect_reset_handler } in
    let m2 : HandlerMapping = record {
      server_request = detection;
      handler = client_detection_handler;
    } in
    let made : insert detection_type m2 (insert reset_type m1 mapping) ≡ mapping' =
      ground (arith, e) in
    ap (lookup t) (sym made)
    ∙ (lookup-insert detection_type t m2 (insert reset_type m1 mapping)
        ∙ ap (λ o. if detection_type == t then some m2 else o)
            (lookup-insert reset_type t m1 mapping))

replied_detection :
    (o : Option ServerRequest) (r : RpcClient)
    → replied client_detection_handler o r ≡ (r, detected o)
unfolding replied request_reply
replied_detection none r = refl
replied_detection (some request) r =
    elim request.content
      as (λ c.
        replied client_detection_handler (some (record request { content = c })) r
        ≡ (r, detected (some (record request { content = c })))) [
          | connect_reset_request ip port ↦ refl
          | client_detection_request ↦ refl
          | other_request body ↦ refl
        ]

replied_reset :
    (o : Option ServerRequest) (r : RpcClient) → replied connect_reset_handler o r ≡ reset_by o r
unfolding replied request_reply
replied_reset none r = refl
replied_reset (some request) r =
    elim request.content
      as (λ c.
        replied connect_reset_handler (some (record request { content = c })) r
        ≡ reset_by (some (record request { content = c })) r) [
          | connect_reset_request ip port ↦ ground (arith, connect_reset-reset_to ip port r)
          | client_detection_request ↦ refl
          | other_request body ↦ refl
        ]

-- Once the client has registered its handlers, a detection request is answered with its id and changes
-- nothing. A reset makes a client that runs ask for a reconnection, to the server it names, or, when it
-- names none, to any after a test of the connection, and is answered with its id; when it names a
-- server whose port is no number, it changes nothing and is not answered, and a client that does not
-- run only answers. A payload of one of these two types that is not read as such a request has no
-- effect
-- and no answer, and one of another type is handled as it was before.
pub register-handle :
    (reset detection : Bytes → Option ServerRequest) (mapping mapping' : Dict Bytes HandlerMapping)
    (p : Payload) (r : RpcClient)
    → register_server_request_handlers reset detection mapping ≡ some mapping'
    → handle_server_request mapping' p r ≡ (
        if detection_type == p.payload_type
        then (r, detected (detection p.body))
        else if reset_type == p.payload_type
        then reset_by (reset p.body) r
        else handle_server_request mapping p r)
unfolding handle_server_request
register-handle reset detection mapping mapping' p r e =
    let found = lookup_registered reset detection mapping mapping' p.payload_type e in
    elim (Bool-cases (detection_type == p.payload_type)) [
      | inl d ↦ ground (arith, found, d, replied_detection (detection p.body) r)
      | inr d ↦ elim (Bool-cases (reset_type == p.payload_type)) [
        | inl t ↦ ground (arith, found, d, t, replied_reset (reset p.body) r)
        | inr t ↦ ground (arith, found, d, t)
      ]
    ]
