-- ===== src/Server/Refresh.antt =====
-- What `refreshServerSrvIfNeed` leaves behind, and the lines that it reads.
use nacos_sdk_go.Common.{
  ℕ, ◌<◌, ◌≡◌, refl, not, ◌&&◌, List, [], ◌∷◌, ◌++◌, arith, length, none, some, ◌⊎◌, inl, inr,
  Bool-cases, Bytes, ltb, codes, ap, ◌∙◌, nat_eq,
}
use nacos_sdk_go.Util.Split.{split_byte, Lacks}
use nacos_sdk_go.Util.Decimal.{atoi}
use nacos_sdk_go.Util.Trim.{trim_space, IsSolid, trim_space_solid}
use nacos_sdk_go.Server.{
  ServerConfig, NacosServer, refresh_server_srv_if_need, replace_servers, is_fresh, parsed,
  deep_equal, parse_line, port_of,
}

-- The new state after the endpoint's servers took the place of the old list.
abbrev pub IsReplaced : NacosServer → ℕ → Bytes → NacosServer → Type 0
IsReplaced server now result server' =
    (server'.server_list ≡ parsed server result)
    × (server'.auth_servers ≡ parsed server result)
    × (0 < length server'.server_list)
    × (server'.last_srv_ref_time ≡ now)
    × (0 < length server.server_list → (server.pending ≡ 0) × (server'.pending ≡ 1))

replace_servers-IsReplaced :
    (server server' : NacosServer) (now : ℕ) (servers : List ServerConfig)
    → replace_servers server now servers ≡ some server'
    → (server'.server_list ≡ servers)
      × (server'.auth_servers ≡ servers)
      × (server'.last_srv_ref_time ≡ now)
      × (0 < length server.server_list → (server.pending ≡ 0) × (server'.pending ≡ 1))
unfolding replace_servers
replace_servers-IsReplaced server server' now servers h = ground arith

-- A refresh that does not block leaves the state as it is, or installs the endpoint's servers, at
-- least one, in the list and in the security proxy; and where there was a list before, it puts the
-- change signal into the empty channel.
pub refresh-IsReplaced :
    (server server' : NacosServer) (now : ℕ) (result : Bytes)
    → refresh_server_srv_if_need server now result ≡ some server'
    → (server' ≡ server) ⊎ IsReplaced server now result server'
unfolding refresh_server_srv_if_need
refresh-IsReplaced server server' now result h =
    let servers = parsed server result in
    let is_news = ltb 0 (length servers) && not (deep_equal server.server_list servers) in
    elim (Bool-cases (is_fresh server now)) [
      | inl e ↦ inl (ground (arith, e))
      | inr e ↦ elim (Bool-cases is_news) [
        | inr f ↦ inl (ground (arith, e, f))
        | inl f ↦
            let p : replace_servers server now servers ≡ some server' = ground (arith, e, f) in
            let (x, y, z, w) = replace_servers-IsReplaced server server' now servers p in
            inr (x, y, ground (arith, f, x), z, w)
      ]
    ]

-- A list of servers never becomes empty.
pub refresh-nonempty :
    (server server' : NacosServer) (now : ℕ) (result : Bytes)
    → refresh_server_srv_if_need server now result ≡ some server'
    → 0 < length server.server_list
    → 0 < length server'.server_list
refresh-nonempty server server' now result h n =
    elim (refresh-IsReplaced server server' now result h) [
      | inl e ↦ ground (arith, e)
      | inr r ↦ r.2
    ]

-- A refresh blocks only on a change signal that nobody has read.
pub refresh-blocks :
    (server : NacosServer) (now : ℕ) (result : Bytes)
    → refresh_server_srv_if_need server now result ≡ none
    → 0 < server.pending
unfolding refresh_server_srv_if_need replace_servers
refresh-blocks server now result h = ground arith

split_byte-plain : (c : ℕ) (s : Bytes) → Lacks c s → split_byte c s ≡ s ∷ []
unfolding split_byte
split_byte-plain c [] h = refl
split_byte-plain c (a ∷ s) h = ground (arith, split_byte-plain c s h.1)

split_byte-append :
    (c : ℕ) (s t : Bytes) → Lacks c s → split_byte c (s ++ (c ∷ t)) ≡ s ∷ split_byte c t
unfolding split_byte
split_byte-append c [] t h = ground arith
split_byte-append c (a ∷ s) t h = ground (arith, split_byte-append c s t h.1)

-- A line `ip:port` without white space, whose port is a number, gives that server.
pub parse_line-address :
    (context_path ip port_text : Bytes) (port : ℕ)
    → Lacks b':' ip
    → Lacks b':' port_text
    → IsSolid (ip ++ (b':' ∷ port_text))
    → atoi port_text ≡ some port
    → parse_line context_path (ip ++ (b':' ∷ port_text))
      ≡ some record {
        scheme = codes "http";
        context_path = context_path;
        ip_addr = ip;
        port = port;
        grpc_port = 0;
      }
unfolding parse_line port_of
parse_line-address context_path ip port_text port h1 h2 solid p =
    let line = ip ++ (b':' ∷ port_text) in
    let e1 : trim_space line ≡ line = trim_space_solid line solid in
    let e2 : split_byte b':' (trim_space line) ≡ ip ∷ port_text ∷ [] =
      ap (split_byte b':') e1
      ∙ (split_byte-append b':' ip port_text h1
          ∙ ap (◌∷◌ ip) (split_byte-plain b':' port_text h2)) in
    ground (arith, e2, p)
