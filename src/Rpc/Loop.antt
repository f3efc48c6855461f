-- ===== src/Rpc/Loop.antt =====
-- common/remote/rpc/rpc_client.go: the loop of `reconnect`, and the health check that starts it.
use nacos_sdk_go.Common.{
  ℕ, ◌+◌, ◌-◌, ◌*◌, ◌%◌, Bool, false, ◌&&◌, ◌||◌, not, List, [], ◌∷◌, ◌++◌, Option, none, some,
  is_some, nat_beq, ltb, if◌then◌else◌, length,
}
use nacos_sdk_go.Rpc.{
  Answer, Connection, ReconnectContext, RpcClient, ServerInfo, close_connection, connected,
  is_no_server, is_running, is_shutdown, next_rpc_server, no_server, notify_connection_change,
  recommended, running, send_health_check, set_connected, shut_down, unhealthy,
}

-- One round of the loop of `reconnect`: what `connectToServer` gives, and whether the client was
-- shut down while the call ran.
pub record Round : Type 0 where
  pub outcome : Option Connection
  pub shut_during : Bool

-- Where the loop is: a connection was made, the client was shut down, there is no server to try,
-- or the rounds seen so far all failed.
pub data Stage : Type 0 where
  done stopped no_more_servers trying : Stage

-- `CurrentConnection` is replaced, the old one abandoned and closed.
unfoldable pub take_over : RpcClient → Connection → RpcClient
unfolding close_connection set_connected
take_over r c =
    set_connected
      (elim r.current_connection [
        | none ↦ r
        | some old ↦ close_connection (record r { abandoned = r.abandoned ++ (old ∷ []) })
      ])
      c

-- Whether this failure ends a turn over the list of servers.
abbrev pub ends_turn : RpcClient → ℕ → Bool
ends_turn r times = ltb 0 times && nat_beq (times % length r.nacos_server.server_list) 0

-- The pause after a failure, unless the client runs.
unfoldable pub pause : RpcClient → ℕ → RpcClient
pause r turns =
    if is_running r
    then r
    else record r { sleeps = r.sleeps ++ ((if ltb turns 50 then turns else 50) * 100 ∷ []) }

-- The server of a round: the appointed one, or the next of the list.
unfoldable pub round_server : RpcClient → ServerInfo → RpcClient × Option ServerInfo
unfolding next_rpc_server
round_server r server = if is_no_server server then next_rpc_server r else (r, some server)

-- The rest of a failed round.
unfoldable pub fail_round : RpcClient → ℕ → ℕ → RpcClient × ℕ
unfolding close_connection pause
fail_round r times turns =
    let r1 = if is_shutdown r then close_connection r else r in
    let turns' = if ends_turn r1 times && ltb turns 50 then turns + 1 else turns in
    (pause r1 turns', turns')

-- What a round comes to: the end of the loop, or the state and the `retryTurns` of the next round.
pub data Outcome : Type 0 where
  finished : RpcClient → Stage → Outcome
  retry : RpcClient → ℕ → Outcome

-- The part of a round that follows the call of `connectToServer`.
unfoldable pub after_call : Option Connection → ℕ → ℕ → RpcClient → Outcome
unfolding take_over fail_round
after_call (some c) times turns r = finished (take_over r c) done
after_call none times turns r = let (r', turns') = fail_round r times turns in retry r' turns'

abbrev pub shut_if : Bool → RpcClient → RpcClient
shut_if b r = if b then shut_down r else r

-- The body of the loop of `reconnect`; `times` and `turns` are `reConnectTimes` and `retryTurns`.
unfoldable pub reconnect_round : Round → ServerInfo → ℕ → ℕ → RpcClient → Outcome
unfolding round_server after_call shut_down
reconnect_round round server times turns r =
    if is_shutdown r
    then finished r stopped
    else (let (r1, found) = round_server r server in
        elim found [
          | none ↦ finished r1 no_more_servers
          | some s ↦ after_call round.outcome times turns (shut_if round.shut_during r1)
        ])

unfoldable pub reconnect_loop : List Round → ServerInfo → ℕ → ℕ → RpcClient → RpcClient × Stage
unfolding reconnect_round
reconnect_loop [] server times turns r = (r, if is_shutdown r then stopped else trying)
reconnect_loop (round ∷ rounds) server times turns r =
    elim (reconnect_round round server times turns r) [
      | finished r' stage ↦ (r', stage)
      | retry r' turns' ↦ reconnect_loop rounds server (times + 1) turns' r'
    ]

-- `reconnect`; `health` answers its health check.
unfoldable pub reconnect : List Round → Answer → ServerInfo → Bool → RpcClient → RpcClient × Stage
unfolding reconnect_loop
reconnect rounds health server on_request_fail r =
    if on_request_fail && send_health_check r health
    then (notify_connection_change (record r { rpc_client_status = running }) connected, done)
    else reconnect_loop rounds server 0 0 r

-- The case of the reconnection channel in the loop of `Start`.
unfoldable pub handle_reconnection :
    List Round → Answer → ReconnectContext → RpcClient → RpcClient × Stage
handle_reconnection rounds health rc r =
    reconnect rounds health
      (if is_no_server rc.server_info
        then rc.server_info
        else recommended r.nacos_server.server_list rc.server_info)
      rc.on_request_fail r

-- `healthCheck` at the time `now` in ms; the timer is set again in every case.
unfoldable pub health_check : List Round → Answer → ℕ → RpcClient → RpcClient
health_check rounds health now r =
    if ltb (now - r.last_active_timestamp) 5000
    then r
    else if send_health_check r health
    then record r { last_active_timestamp = now }
    else if not (is_some r.current_connection) || is_shutdown r
    then r
    else (reconnect rounds health no_server false (record r { rpc_client_status = unhealthy })).0
