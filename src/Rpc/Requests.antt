-- ===== src/Rpc/Requests.antt =====
-- `Request`, and the handler of a connection reset that the server asks for.
use nacos_sdk_go.Common.{
  ℕ, zero, suc, ◌+◌, ◌<◌, ◌≤◌, ◌≡◌, ◌≢◌, refl, Bool, true, false, not, Option, none, some, Bytes,
  arith, is_some, ◌||◌, ltb, nat_beq, if◌then◌else◌, length, ◌⊎◌, inl, inr, Bool-cases, ltb→lt,
}
use nacos_sdk_go.Util.Decimal.{atoi}
use nacos_sdk_go.Rpc.{
  RpcClient, Answer, no_answer, error_response, response, is_running, mark_unhealthy,
  switch_server_async, no_server,
}

-- A round of `Request`: the time it starts at, the answer to a request that it sends, and what
-- the other goroutines have done to the client when the pause after a failure ends.
pub record Try : Type 0 where
  pub at_time : ℕ
  pub answer : Answer
  pub meanwhile : RpcClient → RpcClient

-- What a round comes to: no time is left, a failure, or an answer.
pub data Progress : Type 0 where
  out_of_time : Progress
  failure answered : RpcClient → Progress

-- The body of the loop of `Request`.
unfoldable pub attempt : Try → ℕ → RpcClient → Progress
attempt t deadline r =
    if not (ltb t.at_time deadline)
    then out_of_time
    else if not (is_some r.current_connection) || not (is_running r)
    then failure r
    else elim t.answer [
      | no_answer ↦ failure r
      | error_response code ↦ failure (if nat_beq code 301 then mark_unhealthy r false else r)
      | response success code ↦ answered (record r { last_active_timestamp = t.at_time })
    ]

-- The loop of `Request`; `left` is 3 less the tries made.
unfoldable pub request_loop : (ℕ → Try) → ℕ → ℕ → ℕ → RpcClient → RpcClient × Option Answer
unfolding attempt
request_loop try deadline zero k r = (mark_unhealthy r true, none)
request_loop try deadline (suc left) k r = elim (attempt (try k) deadline r) [
  | out_of_time ↦ (mark_unhealthy r true, none)
  | failure r' ↦ request_loop try deadline left (k + 1) ((try k).meanwhile r')
  | answered r' ↦ (r', some (try k).answer)
]

-- `Request`, started at `now`; no answer is an error.
unfoldable pub request : (ℕ → Try) → ℕ → ℕ → RpcClient → RpcClient × Option Answer
request try now timeout_mills r = request_loop try (now + timeout_mills) 3 0 r

-- `RequestReply` of ConnectResetRequestHandler; the Boolean says whether there is a response.
unfoldable pub connect_reset : Bytes → Bytes → RpcClient → RpcClient × Bool
connect_reset server_ip server_port r =
    if not (is_running r)
    then (r, true)
    else if nat_beq (length server_ip) 0
    then (switch_server_async r no_server true, true)
    else elim (atoi server_port) [
      | none ↦ (r, false)
      | some port ↦ (
        switch_server_async r
            (record { server_ip = server_ip; server_port = port; server_grpc_port = 0 }) false,
        true,
      )
    ]

mark_unhealthy-stopped : (r : RpcClient) (f : Bool) → is_running (mark_unhealthy r f) ≡ false
mark_unhealthy-stopped r f = ground arith

Progress-cases :
    (p : Progress)
    → (p ≡ out_of_time) ⊎ ((r : RpcClient) × (p ≡ failure r)) ⊎ ((r : RpcClient) × (p ≡ answered r))
Progress-cases out_of_time = inl refl
Progress-cases (failure r) = inr (inl (r, refl))
Progress-cases (answered r) = inr (inr (r, refl))

loop-gives_up :
    (try : ℕ → Try) (deadline left k : ℕ) (r : RpcClient)
    → (request_loop try deadline left k r).1 ≡ none
    → is_running (request_loop try deadline left k r).0 ≡ false
unfolding request_loop
loop-gives_up try deadline zero k r h = mark_unhealthy-stopped r true
loop-gives_up try deadline (suc left) k r h = elim (Progress-cases (attempt (try k) deadline r)) [
  | inl e ↦ ground (arith, e)
  | inr (inl (r', e)) ↦
      ground (arith, e, loop-gives_up try deadline left (k + 1) ((try k).meanwhile r'))
  | inr (inr (r', e)) ↦ ground (arith, e)
]

answered-in_time :
    (t : Try) (deadline : ℕ) (r r' : RpcClient)
    → attempt t deadline r ≡ answered r'
    → t.at_time < deadline
unfolding attempt
answered-in_time t deadline r r' h = elim (Bool-cases (ltb t.at_time deadline)) [
  | inl e ↦ ltb→lt t.at_time deadline e
  | inr e ↦ ground (arith, e)
]

loop-answered :
    (try : ℕ → Try) (deadline left k : ℕ) (r : RpcClient) (a : Answer)
    → (request_loop try deadline left k r).1 ≡ some a
    → (j : ℕ) × (j < k + left) × ((try j).answer ≡ a) × ((try j).at_time < deadline)
unfolding request_loop
loop-answered try deadline zero k r a h = ground arith
loop-answered try deadline (suc left) k r a h = elim (Progress-cases (attempt (try k) deadline r)) [
  | inl e ↦ ground (arith, e)
  | inr (inl (r', e)) ↦
      let g : (request_loop try deadline left (k + 1) ((try k).meanwhile r')).1 ≡ some a =
        ground (arith, e) in
      let (j, b, x, y) = loop-answered try deadline left (k + 1) ((try k).meanwhile r') a g in
      (j, omega arith, x, y)
  | inr (inr (r', e)) ↦
      (k, omega arith, ground (arith, e), answered-in_time (try k) deadline r r' e)
]

-- A request without an answer leaves the client in another status than `running`, whatever the
-- other goroutines do between its tries.
pub request-gives_up :
    (try : ℕ → Try) (now timeout_mills : ℕ) (r : RpcClient)
    → (request try now timeout_mills r).1 ≡ none
    → is_running (request try now timeout_mills r).0 ≡ false
unfolding request
request-gives_up try now timeout_mills r h = loop-gives_up try (now + timeout_mills) 3 0 r h

-- An answer is that of one of the first three tries, made before the timeout.
pub request-answered :
    (try : ℕ → Try) (now timeout_mills : ℕ) (r : RpcClient) (a : Answer)
    → (request try now timeout_mills r).1 ≡ some a
    → (j : ℕ) × (j < 3) × ((try j).answer ≡ a) × ((try j).at_time < now + timeout_mills)
unfolding request
request-answered try now timeout_mills r a h = loop-answered try (now + timeout_mills) 3 0 r a h

-- The client has a connection and runs.
abbrev pub IsConnected : RpcClient → Type 0
IsConnected r = (is_some r.current_connection ≡ true) × (is_running r ≡ true)

-- The answer is a response, and no ErrorResponse.
abbrev pub is_response : Answer → Bool
is_response no_answer = false
is_response (error_response code) = false
is_response (response success code) = true

attempt-answered :
    (t : Try) (deadline : ℕ) (r : RpcClient)
    → IsConnected r
    → t.at_time < deadline
    → is_response t.answer ≡ true
    → (r' : RpcClient) × (attempt t deadline r ≡ answered r')
unfolding attempt
attempt-answered t deadline r c d h = (record r { last_active_timestamp = t.at_time }, ground arith)

attempt-not_late :
    (t : Try) (deadline : ℕ) (r : RpcClient)
    → t.at_time < deadline
    → attempt t deadline r ≢ out_of_time
unfolding attempt
attempt-not_late t deadline r d h = ground arith

loop-total :
    (try : ℕ → Try) (deadline left k j : ℕ) (r : RpcClient)
    → ((i : ℕ) → (try i).at_time < deadline)
    → ((i : ℕ) (r' : RpcClient) → IsConnected ((try i).meanwhile r'))
    → k ≤ j
    → j < k + left
    → is_response (try j).answer ≡ true
    → IsConnected r
    → is_some (request_loop try deadline left k r).1 ≡ true
unfolding request_loop
loop-total try deadline zero k j r d m h1 h2 a c = absurd (omega arith)
loop-total try deadline (suc left) k j r d m h1 h2 a c =
    elim (Progress-cases (attempt (try k) deadline r)) [
      | inl e ↦ absurd (attempt-not_late (try k) deadline r (d k) e)
      | inr (inr (r', e)) ↦ ground (arith, e)
      | inr (inl (r', e)) ↦ elim (Bool-cases (nat_beq j k)) [
        | inl f ↦
            let q : j ≡ k = ground arith in
            let (r1, g) = attempt-answered (try k) deadline r c (d k) (ground (arith, q)) in
            ground (arith, e, g)
        | inr f ↦
            let rest =
              loop-total try deadline left (k + 1) j ((try k).meanwhile r') d m (ground arith)
                (omega arith) a (m k r') in
            ground (arith, e, rest)
      ]
    ]

-- A client that is connected, and that the other goroutines connect again during each pause, gets
-- an answer if one of the three tries would be answered, and the timeout is not reached.
pub request-total :
    (try : ℕ → Try) (now timeout_mills j : ℕ) (r : RpcClient)
    → ((i : ℕ) → (try i).at_time < now + timeout_mills)
    → ((i : ℕ) (r' : RpcClient) → IsConnected ((try i).meanwhile r'))
    → j < 3
    → is_response (try j).answer ≡ true
    → IsConnected r
    → is_some (request try now timeout_mills r).1 ≡ true
unfolding request
request-total try now timeout_mills j r d m h a c =
    loop-total try (now + timeout_mills) 3 0 j r d m (omega arith) (omega arith) a c
