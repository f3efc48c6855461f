-- ===== src/Rpc/Grpc/Check.antt =====
-- How long `serverCheck` waits for a server that is not ready.
use nacos_sdk_go.Common.{
  leb, ltb, ◌&&◌, ℕ, zero, suc, ◌+◌, ◌*◌, ◌<◌, ◌≤◌, ◌≡◌, sym, ap, ◌∙◌, Bool, true, false, none,
  some, arith, Bytes, Bool-cases, Option-cases, inl, inr, ◌↔◌, ◌≢◌,
}
use nacos_sdk_go.Rpc.Grpc.{CheckTry, server_check_loop, server_check, get_initial_grpc_timeout}

-- An error code from 300 to 399.
abbrev pub is_three_hundred : ℕ → Bool
is_three_hundred code = leb 300 code && ltb code 400

-- The server answers that it is not ready.
abbrev pub is_waiting : CheckTry → Bool
is_waiting t = elim t.answer [ none ↦ false | some (code, connection_id) ↦ is_three_hundred code ]

-- When try `i + n` ends, if try `i` begins at `now` and a second passes after each one.
abbrev pub ends : (ℕ → CheckTry) → ℕ → ℕ → ℕ → ℕ
ends tries i zero now = now + (tries i).takes
ends tries i (suc n) now = ends tries (i + 1) n (now + (tries i).takes + 1000)

-- Try `i + n` is one of those left, the first at which the server is ready, and ends in time.
pub record Served (tries : ℕ → CheckTry) (deadline left i now n code id : ℕ) : Type 0 where
  pub within : n ≤ left
  pub waited : (j : ℕ) → j < n → is_waiting (tries (i + j)) ≡ true
  pub answered : (tries (i + n)).answer ≡ some (code, id)
  pub ready : is_three_hundred code ≡ false
  pub in_time : ends tries i n now < deadline

reached_now :
    (tries : ℕ → CheckTry) (deadline left i now code id : ℕ)
    → (tries i).answer ≡ some (code, id)
    → is_three_hundred code ≡ false
    → now + (tries i).takes < deadline
    → Served tries deadline left i now 0 code id
reached_now tries deadline left i now code id a r t = record {
  within = omega arith;
  waited = λ j h. ground (arith, h);
  answered = ap (λ k. (tries k).answer) (omega arith) ∙ a;
  ready = r;
  in_time = t;
}

module _ (tries : ℕ → CheckTry) (deadline : ℕ) where
  ends_after : (i n now : ℕ) → now + (tries i).takes ≤ ends tries i n now
  ends_after i zero now = omega arith
  ends_after i (suc n) now = omega (arith, ends_after (i + 1) n (now + (tries i).takes + 1000))

  loop_ready :
      (left i now code id : ℕ)
      → now + (tries i).takes < deadline
      → (tries i).answer ≡ some (code, id)
      → is_three_hundred code ≡ false
      → server_check_loop tries deadline left i now ≡ some id
  unfolding server_check_loop
  loop_ready zero i now code id t a r = ground (arith, t, a, r)
  loop_ready (suc left) i now code id t a r = ground (arith, t, a, r)

  loop_waiting :
      (left i now : ℕ)
      → now + (tries i).takes < deadline
      → is_waiting (tries i) ≡ true
      → server_check_loop tries deadline (suc left) i now
        ≡ server_check_loop tries deadline left (i + 1) (now + (tries i).takes + 1000)
  unfolding server_check_loop
  loop_waiting left i now t w = ground (arith, t, w)

  reached_next :
      (left i now n code id : ℕ)
      → Served tries deadline (suc left) i now (suc n) code id
      → Served tries deadline left (i + 1) (now + (tries i).takes + 1000) n code id
  reached_next left i now n code id s = record {
    within = omega (arith, s.within);
    waited =
        λ j h. ap (λ k. is_waiting (tries k)) (omega arith) ∙ s.waited (suc j) (omega (arith, h));
    answered = ap (λ k. (tries k).answer) (omega arith) ∙ s.answered;
    ready = s.ready;
    in_time = s.in_time;
  }

  reached_loop :
      (left i now n code id : ℕ)
      → Served tries deadline left i now n code id
      → server_check_loop tries deadline left i now ≡ some id
  reached_loop left i now zero code id s =
      loop_ready left i now code id s.in_time
        (ap (λ k. (tries k).answer) (omega arith) ∙ s.answered) s.ready
  reached_loop zero i now (suc n) code id s = absurd (omega (arith, s.within))
  reached_loop (suc left) i now (suc n) code id s =
      let next = reached_next left i now n code id s in
      let ends_later = ends_after (i + 1) n (now + (tries i).takes + 1000) in
      loop_waiting left i now (omega (arith, ends_later, s.in_time))
        (ap (λ k. is_waiting (tries k)) (omega arith) ∙ s.waited 0 (omega arith))
      ∙ reached_loop left (i + 1) (now + (tries i).takes + 1000) n code id next

  waited_from :
      (i n j : ℕ)
      → is_waiting (tries i) ≡ true
      → ((k : ℕ) → k < n → is_waiting (tries (i + 1 + k)) ≡ true)
      → j < suc n
      → is_waiting (tries (i + j)) ≡ true
  waited_from i n zero w ws h = ap (λ k. is_waiting (tries k)) (omega arith) ∙ w
  waited_from i n (suc j) w ws h =
      ap (λ k. is_waiting (tries k)) (omega arith) ∙ ws j (omega (arith, h))

  reached_later :
      (left i now n code id : ℕ)
      → is_waiting (tries i) ≡ true
      → Served tries deadline left (i + 1) (now + (tries i).takes + 1000) n code id
      → Served tries deadline (suc left) i now (suc n) code id
  reached_later left i now n code id w s = record {
    within = omega (arith, s.within);
    waited = λ j h. waited_from i n j w s.waited h;
    answered = ap (λ k. (tries k).answer) (omega arith) ∙ s.answered;
    ready = s.ready;
    in_time = s.in_time;
  }

  loop_ends :
      (left i now id : ℕ)
      → server_check_loop tries deadline left i now ≡ some id
      → now + (tries i).takes < deadline
  unfolding server_check_loop
  loop_ends zero i now id e = ground (arith, e)
  loop_ends (suc left) i now id e = ground (arith, e)

  answered_id :
      (left i now code got id : ℕ)
      → server_check_loop tries deadline left i now ≡ some id
      → (tries i).answer ≡ some (code, got)
      → is_three_hundred code ≡ false
      → got ≡ id
  unfolding server_check_loop
  answered_id zero i now code got id e a r = ground (arith, e, a, r)
  answered_id (suc left) i now code got id e a r = ground (arith, e, a, r)

  no_answer_fails :
      (left i now id : ℕ)
      → (tries i).answer ≡ none
      → server_check_loop tries deadline left i now ≢ some id
  unfolding server_check_loop
  no_answer_fails zero i now id a e = ground (arith, a, e)
  no_answer_fails (suc left) i now id a e = ground (arith, a, e)

  first_reached :
      (left i now id : ℕ)
      → server_check_loop tries deadline left i now ≡ some id
      → is_waiting (tries i) ≡ false
      → (n : ℕ) × (code : ℕ) × Served tries deadline left i now n code id
  first_reached left i now id e w = elim (Option-cases (tries i).answer) [
    | inl a ↦ absurd (no_answer_fails left i now id a e)
    | inr ((code, got), a) ↦
        let r : is_three_hundred code ≡ false = ground (arith, a, w) in
        let a' = a ∙ ap (λ g. some (code, g)) (answered_id left i now code got id e a r) in
        (0, code, reached_now tries deadline left i now code id a' r (loop_ends left i now id e))
  ]

  last_waiting :
      (i now id : ℕ)
      → is_waiting (tries i) ≡ true
      → server_check_loop tries deadline 0 i now ≢ some id
  unfolding server_check_loop
  last_waiting i now id w e = ground (arith, w, e)

  loop_reached :
      (left i now id : ℕ)
      → server_check_loop tries deadline left i now ≡ some id
      → (n : ℕ) × (code : ℕ) × Served tries deadline left i now n code id
  loop_reached zero i now id e = elim (Bool-cases (is_waiting (tries i))) [
    | inl w ↦ absurd (last_waiting i now id w e)
    | inr w ↦ first_reached 0 i now id e w
  ]
  loop_reached (suc left) i now id e = elim (Bool-cases (is_waiting (tries i))) [
    | inl w ↦
        let later = sym (loop_waiting left i now (loop_ends (suc left) i now id e) w) ∙ e in
        let (n, code, s) = loop_reached left (i + 1) (now + (tries i).takes + 1000) id later in
        (suc n, code, reached_later left i now n code id w s)
    | inr w ↦ first_reached (suc left) i now id e w
  ]

  ends_late : (i n now : ℕ) → now + n * 1000 ≤ ends tries i n now
  ends_late i zero now = omega arith
  ends_late i (suc n) now = omega (arith, ends_late (i + 1) n (now + (tries i).takes + 1000))

-- The check of a server gives a connection id exactly when one of the first 31 tries is answered by a
-- server that is ready, with that id and before the timeout, and all tries before it were answered by
-- one that was not.
pub server_check_iff :
    (getenv : Bytes → Bytes) (tries : ℕ → CheckTry) (id : ℕ)
    → (server_check getenv tries ≡ some id)
      ↔ ((n : ℕ) × (code : ℕ) × Served tries (get_initial_grpc_timeout getenv) 30 0 0 n code id)
unfolding server_check
server_check_iff getenv tries id = (
  λ e. loop_reached tries (get_initial_grpc_timeout getenv) 30 0 0 id e,
  λ (n, code, s). reached_loop tries (get_initial_grpc_timeout getenv) 30 0 0 n code id s,
)

-- A server that becomes ready only after as many seconds as the timeout has is never waited for: with
-- the default of 3 seconds the three first answers decide.
server_check_gives_up :
    (getenv : Bytes → Bytes) (tries : ℕ → CheckTry) (m id : ℕ)
    → get_initial_grpc_timeout getenv ≤ m * 1000
    → ((j : ℕ) → j < m → is_waiting (tries j) ≡ true)
    → server_check getenv tries ≢ some id
server_check_gives_up getenv tries m id t w e =
    let (n, code, s) = (server_check_iff getenv tries id).0 e in
    let soon : n < m = omega (arith, ends_late tries 0 0 n 0, s.in_time, t) in
    let first : (tries n).answer ≡ some (code, id) =
      ap (λ k. (tries k).answer) (omega arith) ∙ s.answered in
    ground (arith, first, s.ready, w n soon)
