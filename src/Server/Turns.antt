-- ===== src/Server/Turns.antt =====
-- `GetNextServer` takes the servers in turn, until its counter overflows.
use Prim.Native.Nat.{◌%◌, ◌^◌}
use native.Mathlib.Nat.{mod-lt, mod-add-mod, mod-eq_of_lt, mod-eq-sub-mod}
use nacos_sdk_go.Common.{
  ℕ, zero, suc, ◌+◌, ◌-◌, ◌<◌, ◌≤◌, ◌≡◌, ◌≢◌, arith, length, ◌∙◌, ap, sym, inl, inr, leb,
  Bool-cases,
}
use nacos_sdk_go.Server.{NacosServer, Next, panics, get_next_server, element}

-- What the k-th of the following calls returns, counted from 0.
pub turn : NacosServer → ℕ → Next
turn server zero = (get_next_server server).1
turn server (suc k) = turn (get_next_server server).0 k

pub one_turn :
    (server : NacosServer)
    → 0 < length server.server_list
    → server.current_index + 1 < 2 ^ 31
    → get_next_server server ≡ (
      record server { current_index = server.current_index + 1 },
      element server.server_list ((server.current_index + 1) % length server.server_list),
    )
unfolding get_next_server
one_turn server h b = ground arith

-- The k-th call returns the server at the counter plus k, modulo the number of servers, as long as
-- the counter stays below 2 ^ 31.
pub turn_at :
    (server : NacosServer) (k : ℕ)
    → 0 < length server.server_list
    → server.current_index + k + 1 < 2 ^ 31
    → turn server k
      ≡ element server.server_list ((server.current_index + k + 1) % length server.server_list)
unfolding turn
turn_at server zero h b = ground (arith, one_turn server h)
turn_at server (suc k) h b = rw (one_turn server h (omega arith)) (
    turn_at (record server { current_index = server.current_index + 1 }) k h (omega arith)
    ∙ ap (λ i. element server.server_list (i % length server.server_list)) (omega arith))

-- From a residue r, some step below n leads to the residue j.
step_to : (n r j : ℕ) → r < n → j < n → (k : ℕ) × (k < n) × ((r + k) % n ≡ j)
step_to n r j hr hj = elim (Bool-cases (leb r j)) [
  | inl e ↦
      let e1 : r + (j - r) ≡ j = ground arith in
      (j - r, ground arith, ap (λ x. x % n) e1 ∙ mod-eq_of_lt hj)
  | inr e ↦
      let k : ℕ = (j + n) - r in
      let e1 : r + k ≡ j + n = ground arith in
      let e2 : n ≤ j + n = omega arith in
      let e3 : (j + n) - n ≡ j = omega arith in
      (
        k,
        ground arith,
        ap (λ x. x % n) e1 ∙ (mod-eq-sub-mod e2 ∙ (ap (λ x. x % n) e3 ∙ mod-eq_of_lt hj)),
      )
]

-- Every server is returned by one of the next n calls, n being the number of servers, if the
-- counter does not reach 2 ^ 31 on the way.
pub turn_fair :
    (server : NacosServer) (j : ℕ)
    → j < length server.server_list
    → server.current_index + length server.server_list + 1 < 2 ^ 31
    → (k : ℕ) × (k < length server.server_list) × (turn server k ≡ element server.server_list j)
turn_fair server j hj b =
    let n = length server.server_list in
    let (k, hk, e) =
      step_to n ((server.current_index + 1) % n) j (mod-lt (server.current_index + 1) (omega arith))
        hj in
    let e1 : server.current_index + k + 1 ≡ (server.current_index + 1) + k = omega arith in
    (
      k,
      hk,
      turn_at server k (omega arith) (omega arith)
          ∙ ap (element server.server_list)
              (ap (λ x. x % n) e1 ∙ (sym (mod-add-mod (server.current_index + 1) n k) ∙ e)),
    )

-- When the counter reaches 2 ^ 31 it turns negative, and the call panics unless the number of
-- servers divides 2 ^ 31.
pub counter_overflow_panics :
    (server : NacosServer)
    → server.current_index + 1 ≡ 2 ^ 31
    → (2 ^ 31) % length server.server_list ≢ 0
    → 0 < length server.server_list
    → (get_next_server server).1 ≡ panics
unfolding get_next_server
counter_overflow_panics server e h n = ground arith
