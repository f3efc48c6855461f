-- ===== src/Auth.antt =====
-- common/security/nacos_auth_client.go: the login with a user name, and the refresh of its token.
-- Times are in seconds.
pub mod Refresh
use nacos_sdk_go.Common.{
  ℕ, suc, ◌+◌, ◌-◌, ◌*◌, ◌/◌, ◌≡◌, refl, Bool, true, false, ◌&&◌, List, [], ◌∷◌, ◌++◌, Option, none,
  some, Bytes, Dict, codes, nat_beq, ltb, length, if◌then◌else◌,
}
use nacos_sdk_go.Util.Trim.{has_prefix}
use nacos_sdk_go.Util.Decimal.{itoa}
use nacos_sdk_go.Server.{ServerConfig}

-- `sent` holds the addresses of the login requests so far.
pub record AuthClient : Type 0 where
  pub username : Bytes
  pub password : Bytes
  pub access_token : Option Bytes
  pub token_ttl : ℕ
  pub last_refresh_time : ℕ
  pub token_refresh_window : ℕ
  pub server_cfgs : List ServerConfig
  pub sent : List Bytes

-- What a login request gives: an error of any kind, or an object with or without a token; the
-- lifetime of the token may be missing.
pub data LoginReply : Type 0 where
  no_login no_token : LoginReply
  token : Bytes → Option ℕ → LoginReply

-- `panics` is the failed conversion of a missing lifetime, `no_server` a login that had no server to
-- ask and gives no error.
pub data Logged : Type 0 where
  logged_in login_error no_server panics : Logged

abbrev last_is_slash : Bytes → Bool
last_is_slash [] = false
last_is_slash (c ∷ []) = nat_beq c b'/'
last_is_slash (c ∷ d ∷ s) = last_is_slash (d ∷ s)

abbrev drop_last : Bytes → Bytes
drop_last [] = []
drop_last (c ∷ []) = []
drop_last (c ∷ d ∷ s) = c ∷ drop_last (d ∷ s)

abbrev leading_slash : Bytes → Bytes
leading_slash path = if has_prefix (codes "/") path then path else b'/' ∷ path

abbrev no_trailing_slash : Bytes → Bytes
no_trailing_slash path = if last_is_slash path then drop_last path else path

-- `reqUrl`.
unfoldable pub login_url : ServerConfig → Bytes
login_url server =
    (if nat_beq (length server.scheme) 0 then codes "http" else server.scheme)
    ++ (codes "://"
        ++ (server.ip_addr
            ++ (codes ":"
                ++ (itoa server.port
                    ++ (no_trailing_slash (leading_slash server.context_path)
                        ++ codes "/v1/auth/users/login")))))

-- Whether the token of the last login is used on.
abbrev pub is_current : AuthClient → ℕ → Bool
is_current ac now =
    ltb 0 ac.last_refresh_time
    && (ltb 0 ac.token_ttl
        && ltb now ((ac.last_refresh_time + ac.token_ttl) - 2 * ac.token_refresh_window))

-- The part of `login` that follows the request.
unfoldable pub store_token : AuthClient → ℕ → LoginReply → AuthClient × Logged
store_token ac now no_login = (ac, login_error)
store_token ac now no_token = (ac, logged_in)
store_token ac now (token value none) =
    (record ac { access_token = some value; last_refresh_time = now }, panics)
store_token ac now (token value (some ttl)) = (
  record ac {
    access_token = some value;
    last_refresh_time = now;
    token_ttl = ttl;
    token_refresh_window = ttl / 10;
  },
  logged_in,
)

module _ (reply : ServerConfig → LoginReply) (now : ℕ) where
  unfoldable pub login : AuthClient → ServerConfig → AuthClient × Logged
  unfolding login_url store_token
  login ac server =
      if is_current ac now
      then (ac, logged_in)
      else if nat_beq (length ac.username) 0
      then (record ac { last_refresh_time = now }, logged_in)
      else store_token (record ac { sent = ac.sent ++ (login_url server ∷ []) }) now (reply server)

  -- The loop of `Login`; `last` is the result so far.
  unfoldable pub login_servers : AuthClient → List ServerConfig → Logged → AuthClient × Logged
  unfolding login
  login_servers ac [] last = (ac, last)
  login_servers ac (server ∷ servers) last =
      let (ac', result) = login ac server in
      elim result [
        | logged_in ↦ (ac', logged_in)
        | login_error ↦ login_servers ac' servers login_error
        | no_server ↦ (ac', no_server)
        | panics ↦ (ac', panics)
      ]

  unfoldable pub login_all : AuthClient → AuthClient × Logged
  unfolding login_servers
  login_all ac = login_servers ac ac.server_cfgs no_server

-- `GetAccessToken`.
unfoldable pub get_access_token : AuthClient → Bytes
get_access_token ac = elim ac.access_token [ none ↦ [] | some value ↦ value ]

-- `GetSecurityInfo`.
unfoldable pub get_security_info : AuthClient → Dict Bytes Bytes
get_security_info ac = elim ac.access_token [
  | none ↦ []
  | some value ↦ (codes "accessToken", value) ∷ []
]

-- The first delay of `AutoRefresh`; without a user name there is no refresh.
unfoldable pub first_delay : AuthClient → Option ℕ
first_delay ac =
    if nat_beq (length ac.username) 0
    then none
    else some (
        if ltb 0 ac.last_refresh_time && (ltb 0 ac.token_ttl && ltb 0 ac.token_refresh_window)
        then ac.token_ttl - ac.token_refresh_window
        else 5)

-- A tick of the timer of `AutoRefresh`: the login, and the next delay.
unfoldable pub refresh_tick : (ServerConfig → LoginReply) → ℕ → AuthClient → AuthClient × Option ℕ
unfolding login_all
refresh_tick reply now ac =
    let (ac', result) = login_all reply now ac in
    (
      ac',
      elim result [
        | logged_in ↦ some (ac'.token_ttl - ac'.token_refresh_window)
        | login_error ↦ some 5
        | no_server ↦ some (ac'.token_ttl - ac'.token_refresh_window)
        | panics ↦ none
      ],
    )
