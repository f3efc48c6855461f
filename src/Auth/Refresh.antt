-- ===== src/Auth/Refresh.antt =====
-- When the token is refreshed.
use nacos_sdk_go.Common.{
  ℕ, ◌+◌, ◌-◌, ◌*◌, ◌/◌, ◌<◌, ◌≤◌, ◌≡◌, refl, Bool, true, false, ◌&&◌, List, [], ◌∷◌, ◌++◌, some,
  Bytes, nat_beq, ltb, length, arith, inl, inr, Bool-cases, ltb→lt,
}
use nacos_sdk_go.Server.{ServerConfig}
use nacos_sdk_go.Auth.{
  AuthClient, LoginReply, token, logged_in, no_server, login, login_servers, login_all,
  refresh_tick, store_token, login_url, is_current,
}

-- The state after a login at the time `now` that gave a token with the lifetime `ttl`.
abbrev pub refreshed : AuthClient → ServerConfig → ℕ → Bytes → ℕ → AuthClient
refreshed ac server now value ttl = record ac {
  access_token = some value;
  last_refresh_time = now;
  token_ttl = ttl;
  token_refresh_window = ttl / 10;
  sent = ac.sent ++ (login_url server ∷ []);
}

and_right : (a b : Bool) → (a && b) ≡ true → b ≡ true
and_right true b h = h
and_right false true h = refl
and_right false false h = h

due :
    (ac : AuthClient)
    → ac.token_refresh_window ≡ ac.token_ttl / 10
    → is_current ac (ac.last_refresh_time + (ac.token_ttl - ac.token_refresh_window)) ≡ false
due ac w =
    elim (Bool-cases
      (is_current ac (ac.last_refresh_time + (ac.token_ttl - ac.token_refresh_window)))) [
        | inr e ↦ e
        | inl e ↦
            let h : ltb (ac.last_refresh_time + (ac.token_ttl - ac.token_refresh_window))
                  ((ac.last_refresh_time + ac.token_ttl) - 2 * ac.token_refresh_window)
                ≡ true =
              and_right _ _ (and_right _ _ e) in
            let lt = ltb→lt _ _ h in absurd (omega (arith, lt, w))
      ]

login_due :
    (reply : ServerConfig → LoginReply) (now : ℕ) (ac : AuthClient) (server : ServerConfig)
    (value : Bytes) (ttl : ℕ)
    → is_current ac now ≡ false
    → nat_beq (length ac.username) 0 ≡ false
    → reply server ≡ token value (some ttl)
    → login reply now ac server ≡ (refreshed ac server now value ttl, logged_in)
unfolding login store_token
login_due reply now ac server value ttl c u r = rw (c, u, r) refl

login_current :
    (reply : ServerConfig → LoginReply) (now : ℕ) (ac : AuthClient) (server : ServerConfig)
    → is_current ac now ≡ true
    → login reply now ac server ≡ (ac, logged_in)
unfolding login
login_current reply now ac server c = rw c refl

-- A tick at the time that the last tick has chosen asks the first server for a new token, and when
-- the server gives one with a lifetime of at least 10 seconds, the next tick comes before that
-- lifetime ends.
pub tick_refreshes :
    (reply : ServerConfig → LoginReply) (ac : AuthClient) (server : ServerConfig)
    (servers : List ServerConfig) (value : Bytes) (ttl : ℕ)
    → nat_beq (length ac.username) 0 ≡ false
    → ac.server_cfgs ≡ server ∷ servers
    → ac.token_refresh_window ≡ ac.token_ttl / 10
    → reply server ≡ token value (some ttl)
    → 10 ≤ ttl
    → let now = ac.last_refresh_time + (ac.token_ttl - ac.token_refresh_window) in
      let after = refresh_tick reply now ac in
      (after.0 ≡ refreshed ac server now value ttl)
      × ((delay : ℕ) × (after.1 ≡ some delay) × (0 < delay) × (delay < ttl))
unfolding refresh_tick login_all login_servers
tick_refreshes reply ac server servers value ttl u s w r h =
    let now = ac.last_refresh_time + (ac.token_ttl - ac.token_refresh_window) in
    let e = due ac w in
    let l = login_due reply now ac server value ttl e u r in
    (ground (arith, l, s), (ttl - ttl / 10, ground (arith, l, s), omega arith, omega arith))

cached_servers :
    (reply : ServerConfig → LoginReply) (now : ℕ) (ac : AuthClient) (servers : List ServerConfig)
    → is_current ac now ≡ true
    → 0 < length servers
    → login_servers reply now ac servers no_server ≡ (ac, logged_in)
unfolding login_servers
cached_servers reply now ac [] c h = absurd (omega arith)
cached_servers reply now ac (s ∷ servers) c h = ground (arith, login_current reply now ac s c)

-- A login within the lifetime less two windows sends no request.
pub login_cached :
    (reply : ServerConfig → LoginReply) (now : ℕ) (ac : AuthClient)
    → is_current ac now ≡ true
    → 0 < length ac.server_cfgs
    → login_all reply now ac ≡ (ac, logged_in)
unfolding login_all
login_cached reply now ac c h = cached_servers reply now ac ac.server_cfgs c h

-- With a user name but no server and no token yet, a tick sends nothing and asks for the next tick
-- at once.
pub tick_spins :
    (reply : ServerConfig → LoginReply) (now : ℕ) (ac : AuthClient)
    → ac.server_cfgs ≡ []
    → ac.token_ttl ≡ 0
    → refresh_tick reply now ac ≡ (ac, some 0)
unfolding refresh_tick login_all login_servers
tick_spins reply now ac s t =
    let z : ac.token_ttl - ac.token_refresh_window ≡ 0 = omega (arith, t) in ground (arith, s, z)
