-- ===== src/Config/Listen.antt =====
-- clients/config_client/config_client.go: the listeners, and the listening rounds.
pub mod Notify
pub mod Cancel
use nacos_sdk_go.Common.{
  ℕ, suc, ◌+◌, ◌-◌, ◌/◌, ◌≡◌, refl, Bool, true, false, ◌&&◌, ◌||◌, not, List, [], ◌∷◌, ◌++◌, Option,
  none, some, Bytes, Dict, lookup, insert, bytes_eq, nat_eq, bytes_beq, nat_beq, length, ltb, leb,
  is_some, if◌then◌else◌, codes, map,
}
use nacos_sdk_go.ConcurrentMap.{ConcurrentMap, Shared, get, set_key, remove, items, count}
use nacos_sdk_go.Util.{get_config_cache_key, default_group, contains}
use nacos_sdk_go.Config.Disk.{read_config_from_file, read_encrypted_data_key_from_file}
use nacos_sdk_go.Config.Filter.{ConfigParam, do_filters, request_type}
use nacos_sdk_go.Config.Client.{
  CacheData, Listener, ListenContext, Changed, changed_key, key_of, ConfigClient, listener_of,
  async_notify_listen_config, execute_listener, Query, QueryReply, Queried, query_error, queried,
  query_config, Answer, no_answer, answer, Request, publish_request, remove_request,
}

module _ ⦃cm : ConcurrentMap⦄ where
  -- `CancelListenConfig`.
  unfoldable pub cancel_listen_config : ConfigClient → ConfigParam → ConfigClient
  cancel_listen_config client param = record client {
    cache_map =
        remove client.cache_map
          (get_config_cache_key param.data_id param.group client.namespace_id);
  }

  -- The loop of `buildListenTask`: the listeners whose last MD5 is another are executed, and the
  -- data to ask about are collected by their task.
  unfoldable pub build_listen_task_loop :
      ConfigClient
      → Bool
      → Dict Bytes CacheData
      → Dict ℕ (List CacheData)
      → ConfigClient × Dict ℕ (List CacheData)
  unfolding execute_listener
  build_listen_task_loop client need_all_sync [] tasks = (client, tasks)
  build_listen_task_loop client need_all_sync ((key, d) ∷ entries) tasks =
      let is_stale =
        d.is_sync_with_server && not (bytes_beq d.md5 (listener_of client d).last_md5) in
      let caches : List CacheData = elim (lookup d.task_id tasks) [
        | none ↦ []
        | some caches ↦ caches
      ] in
      build_listen_task_loop (if is_stale then execute_listener client d else client) need_all_sync
        entries
        (if d.is_sync_with_server && not need_all_sync
          then tasks
          else insert d.task_id (caches ++ (d ∷ [])) tasks)

  unfoldable pub build_listen_task : ConfigClient → Bool → ConfigClient × Dict ℕ (List CacheData)
  unfolding build_listen_task_loop
  build_listen_task client need_all_sync =
      build_listen_task_loop client need_all_sync (items client.cache_map) []

  abbrev pub listen_context : CacheData → ListenContext
  listen_context d = record { group = d.group; md5 = d.md5; data_id = d.data_id; tenant = d.tenant }

  -- The second loop of a task's response: what has not changed is in step with the server.
  unfoldable pub mark_items : ConfigClient → List Bytes → Dict Bytes CacheData → ConfigClient
  mark_items client change_keys [] = client
  mark_items client change_keys ((key, d) ∷ entries) =
      let d' : CacheData =
        if contains change_keys (key_of d)
        then record d { is_initializing = true }
        else record d { is_sync_with_server = true } in
      mark_items (record client { cache_map = set_key client.cache_map (key_of d) d' }) change_keys
        entries

  module _ (md5 : Bytes → Bytes) where
    -- `util.Md5`, and the empty text for an empty content.
    abbrev pub md5_of : Bytes → Bytes
    md5_of content = if nat_beq (length content) 0 then [] else md5 content

    -- The content of the snapshot, if it can be read.
    abbrev pub snapshot_content : ConfigClient → Bytes → Bytes
    snapshot_content client key = elim (read_config_from_file client.disk key client.cache_dir) [
      | none ↦ []
      | some content ↦ content
    ]

    -- The cacheData of a new key.
    abbrev pub new_data : ConfigClient → ConfigParam → Bytes → CacheData
    new_data client param key = record {
      is_initializing = true;
      data_id = param.data_id;
      group = param.group;
      content = snapshot_content client key;
      content_type = [];
      encrypted_data_key = read_encrypted_data_key_from_file client.disk key client.cache_dir;
      tenant = client.namespace_id;
      listener = length client.listeners;
      md5 = md5_of (snapshot_content client key);
      task_id = count client.cache_map / 3000;
      is_sync_with_server = false;
    }

    -- The new cacheData in the cache, and its listener.
    unfoldable pub new_listener : ConfigClient → ConfigParam → Bytes → ConfigClient
    new_listener client param key = record client {
      listeners =
          client.listeners
          ++ (record { callback = param.on_change; last_md5 = md5_of (snapshot_content client key) }
              ∷ []);
      cache_map = set_key client.cache_map key (new_data client param key);
    }

    -- `ListenConfig`; the Boolean says whether there is no error.
    unfoldable pub listen_config : ConfigClient → ConfigParam → ConfigClient × Bool
    unfolding new_listener
    listen_config client param =
        let key = get_config_cache_key param.data_id param.group client.namespace_id in
        if nat_beq (length param.data_id) 0 || nat_beq (length param.group) 0
        then (client, false)
        else (
          elim (get client.cache_map key) [
            | none ↦ new_listener client param key
            | some c_data ↦ record client {
              cache_map = set_key client.cache_map key (record c_data { is_initializing = true });
            }
          ],
          true,
        )

    -- The part of `refreshContentAndCheck` that follows a response.
    unfoldable pub check_content : ConfigClient → CacheData → Bytes → Bytes → Bytes → ConfigClient
    unfolding execute_listener
    check_content client d content content_type key =
        let d' : CacheData = record d {
          content = content;
          content_type = content_type;
          encrypted_data_key = key;
          md5 = md5_of content;
        } in
        if bytes_beq d'.md5 (listener_of client d).last_md5
        then client
        else execute_listener client d'

    module _ (is_limited : Bytes → Bool) (server : Query → QueryReply) where
      unfoldable pub refresh_content_and_check : ConfigClient → CacheData → Bool → ConfigClient
      unfolding query_config check_content
      refresh_content_and_check client d notify =
          let (client', response) =
            query_config is_limited server client d.data_id d.group d.tenant notify in
          elim response [
            | query_error ↦ client'
            | queried success content content_type key ↦
                if success then check_content client' d content content_type key else client'
          ]

      -- The first loop of a task's response.
      unfoldable pub refresh_changed : ConfigClient → List Changed → ConfigClient
      unfolding refresh_content_and_check
      refresh_changed client [] = client
      refresh_changed client (v ∷ changed) =
          refresh_changed
            (elim (get client.cache_map (changed_key v)) [
              | none ↦ client
              | some c_data ↦ refresh_content_and_check client c_data (not c_data.is_initializing)
            ])
            changed

      -- One task: `none` is every failure of its request.
      unfoldable pub run_task : ConfigClient → Option (List Changed) → ConfigClient
      unfolding refresh_changed mark_items
      run_task client none = client
      run_task client (some changed) =
          let client' = refresh_changed client changed in
          mark_items client' (map changed_key changed) (items client'.cache_map)

      abbrev has_changes : Option (List Changed) → Bool
      has_changes none = false
      has_changes (some changed) = ltb 0 (length changed)

      -- The tasks, and whether one of them has changes; `listen` answers the request of a task.
      unfoldable pub run_tasks :
          (ℕ → List ListenContext → Option (List Changed))
          → ConfigClient
          → Dict ℕ (List CacheData)
          → ConfigClient × Bool
      unfolding run_task
      run_tasks listen client [] = (client, false)
      run_tasks listen client ((task_id, caches) ∷ tasks) =
          let response = listen task_id (map listen_context caches) in
          let (client', changed) = run_tasks listen (run_task client response) tasks in
          (client', has_changes response || changed)

      -- `executeConfigListen` at the time `now` in ms; all data are asked about after 5 minutes.
      unfoldable pub execute_config_listen :
          (ℕ → List ListenContext → Option (List Changed)) → ℕ → ConfigClient → ConfigClient
      unfolding build_listen_task run_tasks
      execute_config_listen listen now client =
          let need_all_sync = leb 300_000 (now - client.last_all_sync_time) in
          let (client1, tasks) = build_listen_task client need_all_sync in
          let (client2, has_changed_keys) = run_tasks listen client1 tasks in
          let client3 : ConfigClient =
            if need_all_sync then record client2 { last_all_sync_time = now } else client2 in
          if nat_beq (length tasks) 0
          then client1
          else if has_changed_keys
          then async_notify_listen_config client3
          else client3
