-- ===== src/Rpc/Invariant.antt =====
-- The states that a client can reach by its operations, and what holds in all of them.
use nacos_sdk_go.Common.{
  ℕ, zero, suc, ◌+◌, ◌≡◌, refl, Bool, true, false, ◌&&◌, List, Option, none, some, arith, is_some,
  Bytes, inl, inr, Bool-cases, Option-cases,
}
use nacos_sdk_go.Rpc.{
  RpcClient, Answer, ServerInfo, Connection, ReconnectContext, initialized, starting, unhealthy,
  is_running, is_shutdown, start, start_up, next_rpc_server, set_connected, shut_down,
  close_connection, notify_server_srv_change, send_health_check, mark_unhealthy, no_server,
}
use nacos_sdk_go.Rpc.Loop.{
  Round, reconnect, reconnect_round, round_server, after_call, fail_round, pause, take_over,
  shut_if, handle_reconnection, health_check,
}
use nacos_sdk_go.Rpc.Reconnect.{AllStates, loop-keeps}
use nacos_sdk_go.Rpc.Requests.{Try, attempt, failure, answered, connect_reset}
use nacos_sdk_go.Rpc.Grpc.Stream.{receive_error}

-- One operation, one try of a request, or an error of a stream; `stream_swapped` is the second half of
-- such an error when another step came in between.
pub data Step : RpcClient → RpcClient → Type 0 where
  started :
      (connect : ℕ → ServerInfo → Option Connection) (r : RpcClient) → Step r (start connect r)
  reconnected :
      (rounds : List Round) (health : Answer) (rc : ReconnectContext) (r : RpcClient)
      → Step r (handle_reconnection rounds health rc r).0
  checked :
      (rounds : List Round) (health : Answer) (now : ℕ) (r : RpcClient)
      → Step r (health_check rounds health now r)
  servers_changed : (r : RpcClient) → Step r (notify_server_srv_change r)
  shut : (r : RpcClient) → Step r (shut_down r)
  reset : (ip port : Bytes) (r : RpcClient) → Step r (connect_reset ip port r).0
  try_failed :
      (t : Try) (deadline : ℕ) (r r' : RpcClient) → attempt t deadline r ≡ failure r' → Step r r'
  try_answered :
      (t : Try) (deadline : ℕ) (r r' : RpcClient) → attempt t deadline r ≡ answered r' → Step r r'
  gave_up : (r : RpcClient) → Step r (mark_unhealthy r true)
  stream_failed : (c : Connection) (r : RpcClient) → Step r (receive_error (λ s. s) c r).0
  stream_swapped : (r : RpcClient) → Step r (mark_unhealthy r false)

pub data Reachable : RpcClient → Type 0 where
  new : (r : RpcClient) → r.rpc_client_status ≡ initialized → Reachable r
  after : {r r' : RpcClient} → Reachable r → Step r r' → Reachable r'

-- A client that runs has a connection.
abbrev pub RunsConnected : RpcClient → Type 0
RunsConnected r = is_running r ≡ true → is_some r.current_connection ≡ true

start_up-running :
    (connect : ℕ → ServerInfo → Option Connection) (tries i : ℕ) (r : RpcClient)
    → is_running (start_up connect tries i r).0 ≡ is_running r
unfolding start_up next_rpc_server
start_up-running connect zero i r = refl
start_up-running connect (suc tries) i r =
    ground (arith, start_up-running connect tries (i + 1) (next_rpc_server r).0)

start-RunsConnected :
    (connect : ℕ → ServerInfo → Option Connection) (r : RpcClient)
    → RunsConnected r
    → RunsConnected (start connect r)
unfolding start set_connected
start-RunsConnected connect r h =
    let e = start_up-running connect 3 0 (record r { rpc_client_status = starting }) in
    ground (arith, h, e)

fail_round-RunsConnected :
    (r : RpcClient) (times turns : ℕ) → RunsConnected r → RunsConnected (fail_round r times turns).0
unfolding fail_round pause close_connection
fail_round-RunsConnected r times turns h = ground (arith, h)

take_over-RunsConnected : (r : RpcClient) (c : Connection) → RunsConnected (take_over r c)
unfolding take_over set_connected
take_over-RunsConnected r c h = refl

shut_if-RunsConnected : (b : Bool) (r : RpcClient) → RunsConnected r → RunsConnected (shut_if b r)
unfolding shut_down close_connection
shut_if-RunsConnected b r h = ground (arith, h)

round_server-RunsConnected :
    (r : RpcClient) (server : ServerInfo)
    → RunsConnected r
    → RunsConnected (round_server r server).0
unfolding round_server next_rpc_server
round_server-RunsConnected r server h = ground (arith, h)

after_call-RunsConnected :
    (outcome : Option Connection) (times turns : ℕ) (r : RpcClient)
    → RunsConnected r
    → AllStates RunsConnected (after_call outcome times turns r)
unfolding after_call
after_call-RunsConnected (some c) times turns r h = take_over-RunsConnected r c
after_call-RunsConnected none times turns r h = fail_round-RunsConnected r times turns h

reconnect_round-RunsConnected :
    (server : ServerInfo) (round : Round) (times turns : ℕ) (r : RpcClient)
    → RunsConnected r
    → AllStates RunsConnected (reconnect_round round server times turns r)
unfolding reconnect_round
reconnect_round-RunsConnected server round times turns r h =
    let r1 = (round_server r server).0 in
    let h1 = round_server-RunsConnected r server h in
    elim (Bool-cases (is_shutdown r)) [
      | inl e ↦ rw e h
      | inr e ↦ elim (Option-cases (round_server r server).1) [
        | inl f ↦ rw (e, f) h1
        | inr (s, f) ↦
            rw (e, f)
              (after_call-RunsConnected round.outcome times turns (shut_if round.shut_during r1)
                (shut_if-RunsConnected round.shut_during r1 h1))
      ]
    ]

checked_connection :
    (r : RpcClient) (health : Answer)
    → send_health_check r health ≡ true
    → is_some r.current_connection ≡ true
unfolding send_health_check
checked_connection r health h = ground arith

reconnect-RunsConnected :
    (rounds : List Round) (health : Answer) (server : ServerInfo) (f : Bool) (r : RpcClient)
    → RunsConnected r
    → RunsConnected (reconnect rounds health server f r).0
unfolding reconnect
reconnect-RunsConnected rounds health server f r h =
    elim (Bool-cases (f && send_health_check r health)) [
      | inl e ↦ rw e (λ x. checked_connection r health (ground (arith, e)))
      | inr e ↦
          rw e
            (loop-keeps RunsConnected server (reconnect_round-RunsConnected server) rounds 0 0 r h)
    ]

health_check-RunsConnected :
    (rounds : List Round) (health : Answer) (now : ℕ) (r : RpcClient)
    → RunsConnected r
    → RunsConnected (health_check rounds health now r)
unfolding health_check
health_check-RunsConnected rounds health now r h =
    let r1 : RpcClient = record r { rpc_client_status = unhealthy } in
    let h1 = reconnect-RunsConnected rounds health no_server false r1 (λ x. ground arith) in
    ground (arith, h, h1)

servers_changed-RunsConnected :
    (r : RpcClient) → RunsConnected r → RunsConnected (notify_server_srv_change r)
unfolding notify_server_srv_change
servers_changed-RunsConnected r h = ground (arith, h)

reset-RunsConnected :
    (ip port : Bytes) (r : RpcClient) → RunsConnected r → RunsConnected (connect_reset ip port r).0
unfolding connect_reset
reset-RunsConnected ip port r h = ground (arith, h)

attempt_failed-RunsConnected :
    (t : Try) (deadline : ℕ) (r r' : RpcClient)
    → attempt t deadline r ≡ failure r'
    → RunsConnected r
    → RunsConnected r'
unfolding attempt
attempt_failed-RunsConnected t deadline r r' e h = ground (arith, h)

attempt_answered-RunsConnected :
    (t : Try) (deadline : ℕ) (r r' : RpcClient)
    → attempt t deadline r ≡ answered r'
    → RunsConnected r
    → RunsConnected r'
unfolding attempt
attempt_answered-RunsConnected t deadline r r' e h = ground (arith, h)

stream-RunsConnected :
    (c : Connection) (r : RpcClient)
    → RunsConnected r
    → RunsConnected (receive_error (λ s. s) c r).0
unfolding receive_error
stream-RunsConnected c r h = ground (arith, h)

Step-RunsConnected : {r r' : RpcClient} → Step r r' → RunsConnected r → RunsConnected r'
unfolding handle_reconnection
Step-RunsConnected (started connect r) h = start-RunsConnected connect r h
Step-RunsConnected (reconnected rounds health rc r) h =
    reconnect-RunsConnected rounds health _ rc.on_request_fail r h
Step-RunsConnected (checked rounds health now r) h =
    health_check-RunsConnected rounds health now r h
Step-RunsConnected (servers_changed r) h = servers_changed-RunsConnected r h
Step-RunsConnected (shut r) h = shut_if-RunsConnected true r h
Step-RunsConnected (reset ip port r) h = reset-RunsConnected ip port r h
Step-RunsConnected (try_failed t deadline r r' e) h =
    attempt_failed-RunsConnected t deadline r r' e h
Step-RunsConnected (try_answered t deadline r r' e) h =
    attempt_answered-RunsConnected t deadline r r' e h
Step-RunsConnected (gave_up r) h = ground (arith, h)
Step-RunsConnected (stream_failed c r) h = stream-RunsConnected c r h
Step-RunsConnected (stream_swapped r) h = ground (arith, h)

-- In every state that the operations reach from a new client, a client that runs has a connection.
pub Reachable-RunsConnected : {r : RpcClient} → Reachable r → RunsConnected r
Reachable-RunsConnected (new r e) h = ground (arith, e)
Reachable-RunsConnected (after reached step) h =
    Step-RunsConnected step (Reachable-RunsConnected reached) h
