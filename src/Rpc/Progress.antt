-- ===== src/Rpc/Progress.antt =====
-- A reconnection makes a connection when a server lets it.
use Prim.Native.Nat.{◌^◌}
use native.Mathlib.Nat.{mod-lt}
use nacos_sdk_go.Common.{
  ℕ, zero, suc, ◌+◌, ◌%◌, ◌<◌, ◌≡◌, refl, Bool, true, false, List, [], ◌∷◌, none, some, arith,
  is_some, length, All, ◌⊎◌, inl, inr, get_elem?, Option-cases, Bool-cases, ◌&&◌,
}
use nacos_sdk_go.Server.{ServerConfig}
use nacos_sdk_go.Server.Turns.{one_turn}
use nacos_sdk_go.Rpc.{
  RpcClient, Answer, ServerInfo, Connection, is_shutdown, is_running, send_health_check,
  next_rpc_server,
}
use nacos_sdk_go.Rpc.Reconnect.{take_over-connected}
use nacos_sdk_go.Rpc.Loop.{
  Round, done, reconnect_loop, reconnect, fail_round, take_over, round_server, pause, after_call,
  shut_if, reconnect_round, finished, retry,
}

get_elem?-in_range :
    (servers : List ServerConfig) (i : ℕ)
    → i < length servers
    → (s : ServerConfig) × (get_elem? servers i ≡ some s)
get_elem?-in_range [] i h = absurd (omega arith)
get_elem?-in_range (s ∷ servers) zero h = (s, refl)
get_elem?-in_range (s ∷ servers) (suc i) h = get_elem?-in_range servers i (omega arith)

-- The client is not shut down, it knows a server, and its counter stays below 2 ^ 31 for n calls.
abbrev pub CanChoose : RpcClient → ℕ → Type 0
CanChoose r n =
    (is_shutdown r ≡ false)
    × (0 < length r.nacos_server.server_list)
    × (r.nacos_server.current_index + n < 2 ^ 31)

round_server-found :
    (r : RpcClient) (server : ServerInfo) (n : ℕ)
    → CanChoose r (suc n)
    → CanChoose (round_server r server).0 n × (is_some (round_server r server).1 ≡ true)
unfolding round_server next_rpc_server
round_server-found r server n h =
    let m = length r.nacos_server.server_list in
    let i = (r.nacos_server.current_index + 1) % m in
    let e = one_turn r.nacos_server h.1 (omega (arith, h.2)) in
    let (s, f) = get_elem?-in_range r.nacos_server.server_list i (mod-lt _ h.1) in
    ground (arith, e, f)

fail_round-CanChoose :
    (r : RpcClient) (times turns n : ℕ) → CanChoose r n → CanChoose (fail_round r times turns).0 n
unfolding fail_round pause
fail_round-CanChoose r times turns n h = ground (arith, h.0)

shut_if-false : (r : RpcClient) → shut_if false r ≡ r
shut_if-false r = refl

-- The first of the rounds that makes a connection made the current one of a client.
abbrev pub Landed : List Round → RpcClient → Type 0
Landed [] r' = ⊥
Landed (round ∷ rounds) r' =
    ((c : Connection) × (round.outcome ≡ some c) × (r'.current_connection ≡ some c))
    ⊎ ((round.outcome ≡ none) × Landed rounds r')

-- A round that is not disturbed by a shutdown connects, or leaves a client that can choose again.
quiet_round :
    (round : Round) (server : ServerInfo) (times turns n : ℕ) (r : RpcClient)
    → round.shut_during ≡ false
    → CanChoose r (suc n)
    → ((r' : RpcClient) × (reconnect_round round server times turns r ≡ finished r' done)
        × (is_running r' ≡ true)
        × ((c : Connection) × (round.outcome ≡ some c) × (r'.current_connection ≡ some c)))
      ⊎ ((r' : RpcClient) × (turns' : ℕ) × (reconnect_round round server times turns r
            ≡ retry r' turns')
          × (round.outcome ≡ none)
          × CanChoose r' n)
unfolding reconnect_round after_call
quiet_round round server times turns n r q h =
    let (h', f) = round_server-found r server n h in
    let r1 = (round_server r server).0 in
    elim (Option-cases round.outcome) [
      | inr (c, e) ↦
          let (runs, holds) = take_over-connected r1 c in
          inl (take_over r1 c, ground (arith, q, e, f, h.0), runs, (c, e, holds))
      | inl e ↦ inr (
        (fail_round r1 times turns).0,
        (fail_round r1 times turns).1,
        ground (arith, q, e, f, h.0),
        e,
        fail_round-CanChoose r1 times turns n h',
      )
    ]

-- The rounds with a connection, among them at least one.
abbrev pub SomeConnects : List Round → Type 0
SomeConnects rounds =
    (j : ℕ) × (round : Round) × (get_elem? rounds j ≡ some round) × (is_some round.outcome ≡ true)

SomeConnects-tail :
    (round : Round) (rounds : List Round)
    → SomeConnects (round ∷ rounds)
    → round.outcome ≡ none
    → SomeConnects rounds
SomeConnects-tail round rounds (zero, x, p, q) h = ground (arith, p)
SomeConnects-tail round rounds (suc j, x, p, q) h = (j, x, p, q)

loop-done :
    (rounds : List Round) (server : ServerInfo) (times turns : ℕ) (r : RpcClient)
    → All (λ round. round.shut_during ≡ false) rounds
    → SomeConnects rounds
    → CanChoose r (length rounds)
    → let final = reconnect_loop rounds server times turns r in
      (final.1 ≡ done) × (is_running final.0 ≡ true) × Landed rounds final.0
unfolding reconnect_loop
loop-done [] server times turns r a (j, x, p, q) h = ground (arith, p)
loop-done (round ∷ rounds) server times turns r a s h =
    elim (quiet_round round server times turns (length rounds) r a.0 h) [
      | inl (r', e, runs, holds) ↦ rw (e, reconnect_loop) (refl, runs, inl holds)
      | inr (r', turns', e, o, h') ↦
          let (ends, runs, landed) =
            loop-done rounds server (times + 1) turns' r' a.1 (SomeConnects-tail round rounds s o)
              h' in
          rw (e, reconnect_loop) (ends, runs, inr (o, landed))
    ]

-- A reconnection ends with a client that runs, if one of the calls of `connectToServer` gives a
-- connection, the client is not shut down before or meanwhile, a server is known, and the counter of
-- the servers stays below 2 ^ 31: its connection is the one that the first successful call gave, or,
-- after the failure of a request, the one it had, when that passes its health check.
pub reconnect-done :
    (rounds : List Round) (health : Answer) (server : ServerInfo) (on_request_fail : Bool)
    (r : RpcClient)
    → All (λ round. round.shut_during ≡ false) rounds
    → SomeConnects rounds
    → CanChoose r (length rounds)
    → let final = reconnect rounds health server on_request_fail r in
      (final.1 ≡ done)
      × (is_running final.0 ≡ true)
      × ((((on_request_fail && send_health_check r health) ≡ true)
            × (final.0.current_connection ≡ r.current_connection))
          ⊎ Landed rounds final.0)
unfolding reconnect
reconnect-done rounds health server on_request_fail r a s h =
    elim (Bool-cases (on_request_fail && send_health_check r health)) [
      | inl healthy ↦ rw healthy (refl, refl, inl (refl, refl))
      | inr stale ↦
          let (ends, runs, landed) = loop-done rounds server 0 0 r a s h in
          rw stale (ends, runs, inr landed)
    ]
