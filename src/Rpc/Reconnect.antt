-- ===== src/Rpc/Reconnect.antt =====
-- What `reconnect` comes to: when it ends with a connection, and what a shutdown does to it.
use nacos_sdk_go.Common.{
  ℕ, ◌+◌, ◌*◌, ◌≤◌, ◌≡◌, refl, Bool, true, false, ◌&&◌, List, [], ◌∷◌, Option, none, some, arith,
  ltb, if◌then◌else◌, All, All-append, ◌⊎◌, inl, inr, Bool-cases, Option-cases, subst, sym, is_some,
}
use nacos_sdk_go.Rpc.{
  RpcClient, Answer, ServerInfo, is_running, is_shutdown, shut_down, close_connection,
  set_connected, next_rpc_server, Connection, send_health_check,
}
use nacos_sdk_go.Rpc.Loop.{
  Round, Stage, done, stopped, reconnect_loop, reconnect, take_over, fail_round, round_server,
  pause, ends_turn, Outcome, finished, retry, after_call, shut_if, reconnect_round,
}

Outcome-cases :
    (o : Outcome)
    → ((r : RpcClient) × (stage : Stage) × (o ≡ finished r stage))
      ⊎ ((r : RpcClient) × (turns : ℕ) × (o ≡ retry r turns))
Outcome-cases (finished r stage) = inl (r, stage, refl)
Outcome-cases (retry r turns) = inr (r, turns, refl)

-- A client that is shut down makes no connection.
pub reconnect-shutdown :
    (rounds : List Round) (health : Answer) (server : ServerInfo) (r : RpcClient)
    → is_shutdown r ≡ true
    → reconnect rounds health server false r ≡ (r, stopped)
unfolding reconnect reconnect_loop reconnect_round
reconnect-shutdown [] health server r h = ground (arith, h)
reconnect-shutdown (round ∷ rounds) health server r h = ground (arith, h)

-- In any round of a reconnection, to an appointed server or to the next of the list, a shutdown
-- while `connectToServer` runs is lost when the call succeeds: the client was not shut down at the
-- start of the round and there is a server to try, and then it runs again, with the new connection,
-- and the reconnection is done.
pub shutdown_overwritten :
    (c : Connection) (rounds : List Round) (server : ServerInfo) (times turns : ℕ) (r : RpcClient)
    → is_shutdown r ≡ false
    → is_some (round_server r server).1 ≡ true
    → let round : Round = record { outcome = some c; shut_during = true } in
      let final = reconnect_loop (round ∷ rounds) server times turns r in
      (is_running final.0 ≡ true) × (final.0.current_connection ≡ some c) × (final.1 ≡ done)
unfolding reconnect_loop reconnect_round after_call take_over set_connected close_connection
    shut_down
shutdown_overwritten c rounds server times turns r h n = ground (arith, h, n)

pub take_over-connected :
    (r : RpcClient) (c : Connection)
    → (is_running (take_over r c) ≡ true) × ((take_over r c).current_connection ≡ some c)
unfolding take_over set_connected
take_over-connected r c = ground arith

-- A property of the state that a round leaves.
abbrev pub AllStates : (RpcClient → Type 0) → Outcome → Type 0
AllStates P (finished r stage) = P r
AllStates P (retry r turns) = P r

-- A property that every round keeps is kept by the loop.
pub loop-keeps :
    (P : RpcClient → Type 0) (server : ServerInfo)
    → ((round : Round) (times turns : ℕ) (r : RpcClient)
        → P r
        → AllStates P (reconnect_round round server times turns r))
    → (rounds : List Round) (times turns : ℕ) (r : RpcClient) → P r
    → P (reconnect_loop rounds server times turns r).0
unfolding reconnect_loop
loop-keeps P server k [] times turns r h = h
loop-keeps P server k (round ∷ rounds) times turns r h =
    elim (Outcome-cases (reconnect_round round server times turns r)) [
      | inl (r', stage, e) ↦
          let q : reconnect_loop (round ∷ rounds) server times turns r ≡ (r', stage) =
            ground (arith, e) in
          subst (λ x. P x.0) (sym q) (subst (AllStates P) e (k round times turns r h))
      | inr (r', turns', e) ↦
          let q : reconnect_loop (round ∷ rounds) server times turns r
              ≡ reconnect_loop rounds server (times + 1) turns' r' =
            ground (arith, e) in
          let h' = subst (AllStates P) e (k round times turns r h) in
          subst (λ x. P x.0) (sym q) (loop-keeps P server k rounds (times + 1) turns' r' h')
    ]

-- The pauses made so far are at most 5 seconds each.
abbrev pub ShortSleeps : RpcClient → Type 0
ShortSleeps r = All (λ ms. ms ≤ 5000) r.sleeps

close_connection-sleeps : (r : RpcClient) → (close_connection r).sleeps ≡ r.sleeps
unfolding close_connection
close_connection-sleeps r = ground arith

take_over-sleeps : (r : RpcClient) (c : Connection) → (take_over r c).sleeps ≡ r.sleeps
unfolding take_over set_connected close_connection
take_over-sleeps r c = ground arith

pause-ShortSleeps : (r : RpcClient) (turns : ℕ) → ShortSleeps r → ShortSleeps (pause r turns)
unfolding pause
pause-ShortSleeps r turns h = elim (Bool-cases (is_running r)) [
  | inl e ↦ rw e h
  | inr e ↦
      let short : All (λ ms. ms ≤ 5000) ((if ltb turns 50 then turns else 50) * 100 ∷ []) =
        (ground arith, tt) in
      rw e (All-append (λ ms. ms ≤ 5000) r.sleeps _ h short)
]

round_server-sleeps :
    (r : RpcClient) (server : ServerInfo) → (round_server r server).0.sleeps ≡ r.sleeps
unfolding round_server next_rpc_server
round_server-sleeps r server = ground arith

abbrev closed_if_shutdown : RpcClient → RpcClient
closed_if_shutdown r = if is_shutdown r then close_connection r else r

closed_if_shutdown-sleeps : (r : RpcClient) → (closed_if_shutdown r).sleeps ≡ r.sleeps
closed_if_shutdown-sleeps r = ground (arith, close_connection-sleeps r)

fail_round-ShortSleeps :
    (r : RpcClient) (times turns : ℕ) → ShortSleeps r → ShortSleeps (fail_round r times turns).0
unfolding fail_round
fail_round-ShortSleeps r times turns h =
    let r1 = closed_if_shutdown r in
    let turns' = if ends_turn r1 times && ltb turns 50 then turns + 1 else turns in
    pause-ShortSleeps r1 turns' (rw (closed_if_shutdown-sleeps r) h)

after_call-ShortSleeps :
    (outcome : Option Connection) (times turns : ℕ) (r : RpcClient)
    → ShortSleeps r
    → AllStates ShortSleeps (after_call outcome times turns r)
unfolding after_call
after_call-ShortSleeps (some c) times turns r h = rw (take_over-sleeps r c) h
after_call-ShortSleeps none times turns r h = fail_round-ShortSleeps r times turns h

shut_if-sleeps : (b : Bool) (r : RpcClient) → (shut_if b r).sleeps ≡ r.sleeps
unfolding shut_down close_connection
shut_if-sleeps b r = ground arith

reconnect_round-ShortSleeps :
    (round : Round) (server : ServerInfo) (times turns : ℕ) (r : RpcClient)
    → ShortSleeps r
    → AllStates ShortSleeps (reconnect_round round server times turns r)
unfolding reconnect_round
reconnect_round-ShortSleeps round server times turns r h = elim (Bool-cases (is_shutdown r)) [
  | inl e ↦ rw e h
  | inr e ↦
      let r1 = (round_server r server).0 in
      elim (Option-cases (round_server r server).1) [
        | inl f ↦ rw (e, f) (rw (round_server-sleeps r server) h)
        | inr (s, f) ↦
            rw (e, f)
              (after_call-ShortSleeps round.outcome times turns (shut_if round.shut_during r1)
                (rw (shut_if-sleeps round.shut_during r1, round_server-sleeps r server) h))
      ]
]

-- A reconnection never pauses for more than 5 seconds between two rounds.
reconnect-ShortSleeps :
    (rounds : List Round) (health : Answer) (server : ServerInfo) (on_request_fail : Bool)
    (r : RpcClient)
    → ShortSleeps r
    → ShortSleeps (reconnect rounds health server on_request_fail r).0
unfolding reconnect
reconnect-ShortSleeps rounds health server on_request_fail r h =
    elim (Bool-cases (on_request_fail && send_health_check r health)) [
      | inl e ↦ rw e h
      | inr e ↦ rw e (
          loop-keeps ShortSleeps server
            (λ round times turns r'. reconnect_round-ShortSleeps round server times turns r') rounds
            0 0 r h)
    ]
