-- ===== src/Config/Listen/Cancel.antt =====
-- Listening to a configuration, listening again, and the end of listening.
use nacos_sdk_go.Common.{
  ℕ, ◌≡◌, refl, true, false, ◌||◌, List, [], ◌∷◌, ◌++◌, none, some, Bytes, arith, bytes_eq,
  bytes_beq, nat_beq, length, is_some, beq_refl, get_or, sym, subst, Bool-cases, inl, inr,
}
use nacos_sdk_go.ConcurrentMap.{ConcurrentMap, get}
use nacos_sdk_go.Util.{get_config_cache_key}
use nacos_sdk_go.Config.Filter.{ConfigParam}
use nacos_sdk_go.Config.Client.{
  CacheData, ConfigClient, listener_of, execute_listener, key_of, Changed, changed_key, Listener,
  no_listener,
}
use nacos_sdk_go.Config.Listen.{
  check_content, md5_of, listen_config, new_listener, cancel_listen_config, new_data,
  snapshot_content,
}
use nacos_sdk_go.Config.Events.{change_notify}

get_or-append_length :
    (xs : List Listener) (x d : Listener) → get_or (xs ++ (x ∷ [])) (length xs) d ≡ x
get_or-append_length [] x d = refl
get_or-append_length (y ∷ xs) x d = get_or-append_length xs x d

cong_key :
    {a a' b b' c c' : Bytes}
    → a ≡ a'
    → b ≡ b'
    → c ≡ c'
    → get_config_cache_key a b c ≡ get_config_cache_key a' b' c'
cong_key p q r = λ i. get_config_cache_key (p i) (q i) (r i)

module _ ⦃cm : ConcurrentMap⦄ where
  abbrev pub param_key : ConfigClient → ConfigParam → Bytes
  param_key client param = get_config_cache_key param.data_id param.group client.namespace_id

  -- The data at the key, and the callback of its listener.
  abbrev pub HasCallback : ConfigClient → Bytes → ℕ → Type 0
  HasCallback client key callback =
      (d : CacheData) × (get client.cache_map key ≡ some d)
      × ((listener_of client d).callback ≡ callback)

  -- A configuration with a data id and a group that nobody listened to gets its callback.
  pub listen_new-HasCallback :
      (md5 : Bytes → Bytes) (client : ConfigClient) (param : ConfigParam)
      → nat_beq (length param.data_id) 0 ≡ false
      → nat_beq (length param.group) 0 ≡ false
      → get client.cache_map (param_key client param) ≡ none
      → HasCallback (listen_config md5 client param).0 (param_key client param) param.on_change
  unfolding listen_config new_listener
  listen_new-HasCallback md5 client param h1 h2 n =
      let key = param_key client param in
      let d = new_data md5 client param key in
      let l : Listener = record {
        callback = param.on_change;
        last_md5 = md5_of md5 (snapshot_content md5 client key);
      } in
      (
        d,
        ground (arith, h1, h2, n, cm.get-set client.cache_map key d key, beq_refl key),
        ground (arith, h1, h2, n, get_or-append_length client.listeners l no_listener),
      )

  again-HasCallback :
      (md5 : Bytes → Bytes) (client : ConfigClient) (again : ConfigParam) (callback : ℕ)
      → HasCallback client (param_key client again) callback
      → HasCallback (listen_config md5 client again).0 (param_key client again) callback
  unfolding listen_config
  again-HasCallback md5 client again callback (d, p, q) =
      let key = param_key client again in
      let d' : CacheData = record d { is_initializing = true } in
      elim (Bool-cases (nat_beq (length again.data_id) 0 || nat_beq (length again.group) 0)) [
        | inl e ↦ (d, ground (arith, e, p), ground (arith, e, q))
        | inr e ↦ (
          d',
          ground (arith, e, p, cm.get-set client.cache_map key d' key, beq_refl key),
          ground (arith, e, p, q),
        )
      ]

  listen_config-namespace :
      (md5 : Bytes → Bytes) (client : ConfigClient) (param : ConfigParam)
      → (listen_config md5 client param).0.namespace_id ≡ client.namespace_id
  unfolding listen_config new_listener
  listen_config-namespace md5 client param = ground arith

  -- Listening again to a configuration keeps the first callback, whatever the new one is.
  listen_again-HasCallback :
      (md5 : Bytes → Bytes) (client : ConfigClient) (param again : ConfigParam)
      → nat_beq (length param.data_id) 0 ≡ false
      → nat_beq (length param.group) 0 ≡ false
      → get client.cache_map (param_key client param) ≡ none
      → again.data_id ≡ param.data_id
      → again.group ≡ param.group
      → HasCallback
          (listen_config md5 (listen_config md5 client param).0 again).0
          (param_key client param)
          param.on_change
  listen_again-HasCallback md5 client param again h1 h2 n e f =
      let client1 = (listen_config md5 client param).0 in
      let key : param_key client1 again ≡ param_key client param =
        cong_key e f (listen_config-namespace md5 client param) in
      subst (λ k. HasCallback (listen_config md5 client1 again).0 k param.on_change) key
        (again-HasCallback md5 client1 again param.on_change (
          subst (λ k. HasCallback client1 k param.on_change) (sym key)
            (listen_new-HasCallback md5 client param h1 h2 n)))

  -- After the end of listening, a change that the server announces is ignored.
  pub notify-cancel :
      (client : ConfigClient) (param : ConfigParam) (v : Changed)
      → changed_key v ≡ param_key client param
      → change_notify (cancel_listen_config client param) v
        ≡ (cancel_listen_config client param, false)
  unfolding change_notify cancel_listen_config
  notify-cancel client param v e =
      let key = param_key client param in
      ground (arith, e, cm.get-remove client.cache_map key (changed_key v), beq_refl key)

  -- A refresh that took the data before the end of listening, and finds a new content after it,
  -- puts them back into the cache.
  pub cancel_undone :
      (md5 : Bytes → Bytes) (client : ConfigClient) (param : ConfigParam) (d : CacheData)
      (content t k : Bytes)
      → get client.cache_map (param_key client param) ≡ some d
      → key_of d ≡ param_key client param
      → bytes_beq (md5_of md5 content) (listener_of client d).last_md5 ≡ false
      → is_some (
          get
            (check_content md5 (cancel_listen_config client param) d content t k).cache_map
            (param_key client param))
        ≡ true
  unfolding check_content execute_listener cancel_listen_config
  cancel_undone md5 client param d content t k g e n =
      let key = param_key client param in
      let d' : CacheData = record d {
        content = content;
        content_type = t;
        encrypted_data_key = k;
        md5 = md5_of md5 content;
      } in
      ground (
        arith,
        n,
        e,
        cm.get-set (cancel_listen_config client param).cache_map (key_of d) d' key,
        beq_refl key,
      )
