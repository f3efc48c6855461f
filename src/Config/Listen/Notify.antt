-- ===== src/Config/Listen/Notify.antt =====
-- When a listener is called, and what the rounds and a lost connection do to the cached data.
use nacos_sdk_go.Common.{
  ℕ, ◌<◌, ◌≡◌, refl, Bool, true, false, List, [], ◌∷◌, Option, none, some, Bytes, Dict, lookup,
  Distinct, arith, bytes_eq, bytes_beq, bytes_beq_iff, nat_beq, length, is_some, if◌then◌else◌,
  Bool-cases, inl, inr, get_or-set_self, beq_refl, map, ◌⊎◌,
}
use nacos_sdk_go.ConcurrentMap.{ConcurrentMap, get, set_key, items}
use nacos_sdk_go.Util.{contains}
use nacos_sdk_go.Config.Client.{
  CacheData, ConfigClient, listener_of, execute_listener, key_of, no_listener, ListenContext,
  Changed, Query, QueryReply,
}
use nacos_sdk_go.Config.Events.{on_dis_connect, on_dis_connect_loop, desync}
use nacos_sdk_go.Config.Listen.{
  check_content, md5_of, run_task, run_tasks, mark_items, refresh_changed, listen_context,
}

module _ ⦃cm : ConcurrentMap⦄ where
  execute_listener-last_md5 :
      (client : ConfigClient) (d d' : CacheData)
      → d'.listener ≡ d.listener
      → d.listener < length client.listeners
      → (listener_of (execute_listener client d') d).last_md5 ≡ d'.md5
  unfolding execute_listener
  execute_listener-last_md5 client d d' e h =
      let l = record (listener_of client d') { last_md5 = d'.md5 } in
      ground (arith, e, get_or-set_self client.listeners d.listener l no_listener h)

  -- A content that was refreshed once is not announced again: a second refresh with the same
  -- content changes nothing.
  pub check_content_twice :
      (md5 : Bytes → Bytes) (client : ConfigClient) (d : CacheData) (content t k t' k' : Bytes)
      → d.listener < length client.listeners
      → check_content md5 (check_content md5 client d content t k) d content t' k'
        ≡ check_content md5 client d content t k
  unfolding check_content
  check_content_twice md5 client d content t k t' k' h =
      let d' : CacheData = record d {
        content = content;
        content_type = t;
        encrypted_data_key = k;
        md5 = md5_of md5 content;
      } in
      ground (arith, execute_listener-last_md5 client d d' refl h, beq_refl (md5_of md5 content))

  abbrev out_of_step : CacheData → CacheData
  out_of_step d = record d { is_sync_with_server = false }

  -- What the loop of `OnDisConnect` leaves at a key.
  disconnected_data : ℕ → Option CacheData → Option CacheData → Option CacheData
  disconnected_data task_id none other = other
  disconnected_data task_id (some d) other =
      if nat_beq d.task_id task_id then some (out_of_step d) else other

  loop-get :
      (client : ConfigClient) (task_id : ℕ) (entries : Dict Bytes CacheData) (k : Bytes)
      → Distinct entries
      → get (on_dis_connect_loop client task_id entries).cache_map k
        ≡ disconnected_data task_id (lookup k entries) (get client.cache_map k)
  unfolding on_dis_connect_loop disconnected_data lookup
  loop-get client task_id [] k h = refl
  loop-get client task_id ((j, d) ∷ entries) k h =
      let client' = if nat_beq d.task_id task_id then desync client j d else client in
      ground (
        arith,
        loop-get client' task_id entries k h.1,
        h.0,
        bytes_beq_iff j k,
        cm.get-set client.cache_map j (out_of_step d) k,
      )

  -- A lost connection puts exactly the data of its task out of step with the server.
  get-on_dis_connect :
      (client : ConfigClient) (task_id : ℕ) (k : Bytes)
      → get (on_dis_connect client task_id).cache_map k ≡ elim (get client.cache_map k) [
        | none ↦ none
        | some d ↦ some (record d {
          is_sync_with_server = if nat_beq d.task_id task_id then false else d.is_sync_with_server;
        })
      ]
  unfolding on_dis_connect disconnected_data
  get-on_dis_connect client task_id k = ground (
    arith,
    loop-get client task_id (items client.cache_map) k (cm.items-Distinct client.cache_map),
    cm.lookup-items client.cache_map k,
  )

  -- The data at the key is in step with the server.
  abbrev pub IsSynced : ConfigClient → Bytes → Type 0
  IsSynced client k =
      (d : CacheData) × (get client.cache_map k ≡ some d) × (d.is_sync_with_server ≡ true)

  -- Every entry has the key of its data.
  abbrev pub KeysMatch : Dict Bytes CacheData → Type 0
  KeysMatch [] = Unit
  KeysMatch ((k, d) ∷ entries) = (key_of d ≡ k) × KeysMatch entries

  mark-IsSynced :
      (client : ConfigClient) (entries : Dict Bytes CacheData) (k : Bytes)
      → KeysMatch entries
      → IsSynced client k ⊎ (is_some (lookup k entries) ≡ true)
      → IsSynced (mark_items client [] entries) k
  unfolding mark_items lookup contains
  mark-IsSynced client [] k m (inl s) = s
  mark-IsSynced client [] k m (inr h) = ground arith
  mark-IsSynced client ((j, d) ∷ entries) k m h =
      let d' : CacheData = record d { is_sync_with_server = true } in
      let client' : ConfigClient = record client {
        cache_map = set_key client.cache_map (key_of d) d';
      } in
      let g = cm.get-set client.cache_map (key_of d) d' k in
      elim (Bool-cases (bytes_beq (key_of d) k)) [
        | inl e ↦ mark-IsSynced client' entries k m.1 (inl (d', ground (arith, g, e), refl))
        | inr e ↦ elim h [
          | inl s ↦
              let (x, p, q) = s in
              mark-IsSynced client' entries k m.1 (inl (x, ground (arith, g, e, p), q))
          | inr s ↦ mark-IsSynced client' entries k m.1 (inr (ground (arith, e, m.0, s)))
        ]
      ]

  -- A response without changes to one task, followed by the failure of another task's request,
  -- leaves all cached data in step with the server, those of the failed task too.
  pub failed_task-IsSynced :
      (md5 : Bytes → Bytes) (is_limited : Bytes → Bool) (server : Query → QueryReply)
      (listen : ℕ → List ListenContext → Option (List Changed)) (client : ConfigClient) (t u : ℕ)
      (caches more : List CacheData) (k : Bytes)
      → ((xs : List ListenContext) → listen t xs ≡ some [])
      → ((xs : List ListenContext) → listen u xs ≡ none)
      → KeysMatch (items client.cache_map)
      → is_some (get client.cache_map k) ≡ true
      → IsSynced (run_tasks md5 is_limited server listen client ((t, caches) ∷ (u, more) ∷ [])).0 k
  unfolding run_tasks run_task refresh_changed
  failed_task-IsSynced md5 is_limited server listen client t u caches more k ht hu m h =
      let e = ht (map listen_context caches) in
      let f = hu (map listen_context more) in
      let s =
        mark-IsSynced client (items client.cache_map) k m
          (inr (ground (arith, h, cm.lookup-items client.cache_map k))) in
      rw (e, f) s
