-- ===== src/Config/Client.antt =====
-- clients/config_client/config_client.go and config_proxy.go: the configuration client, its cache
-- and its listeners. The MD5 function is a parameter.
pub mod Snapshot
use nacos_sdk_go.Common.{
  ℕ, zero, suc, ◌+◌, ◌-◌, ◌/◌, ◌≡◌, refl, Bool, true, false, ◌&&◌, ◌||◌, not, List, [], ◌∷◌, ◌++◌,
  Option, none, some, Bytes, Dict, lookup, insert, bytes_eq, nat_eq, bytes_beq, nat_beq, length,
  get_or, set, ltb, leb, is_some, if◌then◌else◌, codes, map,
}
use nacos_sdk_go.ConcurrentMap.{ConcurrentMap, Shared, new_map, get, set_key, remove, items, count}
use nacos_sdk_go.Util.{get_config_cache_key, default_group}
use nacos_sdk_go.Util.Trim.{has_prefix}
use nacos_sdk_go.Config.Disk.{
  Disk, write_config_to_file, write_encrypted_data_key_to_file, read_config_from_file,
  read_encrypted_data_key_from_file, get_failover, get_failover_encrypted_data_key,
}
use nacos_sdk_go.Config.Filter.{
  ConfigParam, ConfigFilter, do_filters, response_type, request_type, empty_param,
}
use nacos_sdk_go.Config.Encryption.{cipher_prefix}

-- A cacheDataListener, which the copies of a cacheData share: cacheData holds its number.
pub record Listener : Type 0 where
  pub callback : ℕ
  pub last_md5 : Bytes

abbrev pub no_listener : Listener
no_listener = record { callback = 0; last_md5 = [] }

pub record CacheData : Type 0 where
  pub is_initializing : Bool
  pub data_id : Bytes
  pub group : Bytes
  pub content : Bytes
  pub content_type : Bytes
  pub encrypted_data_key : Bytes
  pub tenant : Bytes
  pub listener : ℕ
  pub md5 : Bytes
  pub task_id : ℕ
  pub is_sync_with_server : Bool

-- A call of a listener.
pub record Call : Type 0 where
  pub callback : ℕ
  pub tenant : Bytes
  pub group : Bytes
  pub data_id : Bytes
  pub content : Bytes

-- A ConfigQueryResponse, or what stands in its place.
pub data QueryReply : Type 0 where
  no_reply wrong_type : QueryReply
  query_response : Bool → ℕ → Bytes → Bytes → Bytes → QueryReply

-- The request of `queryConfig`.
pub record Query : Type 0 where
  pub data_id : Bytes
  pub group : Bytes
  pub tenant : Bytes
  pub notify : Bool

-- What `queryConfig` gives: an error, or a response with its success, content, type and key.
pub data Queried : Type 0 where
  query_error : Queried
  queried : Bool → Bytes → Bytes → Bytes → Queried

-- What a request to the server that changes it gives.
pub data Answer : Type 0 where
  no_answer : Answer
  answer : Bool → Answer

pub data Request : Type 0 where
  publish_request : ConfigParam → Bytes → Request
  remove_request : Bytes → Bytes → Bytes → Request

pub record ListenContext : Type 0 where
  pub group : Bytes
  pub md5 : Bytes
  pub data_id : Bytes
  pub tenant : Bytes

-- A configuration that the server says has changed.
pub record Changed : Type 0 where
  pub data_id : Bytes
  pub group : Bytes
  pub tenant : Bytes

abbrev pub key_of : CacheData → Bytes
key_of d = get_config_cache_key d.data_id d.group d.tenant

abbrev pub changed_key : Changed → Bytes
changed_key v = get_config_cache_key v.data_id v.group v.tenant

module _ ⦃cm : ConcurrentMap⦄ where
  -- `notifications` counts the values sent to `listenExecute`.
  pub record ConfigClient : Type 0 where
    pub cache_map : Shared CacheData
    pub listeners : List Listener
    pub disk : Disk
    pub filters : List ConfigFilter
    pub namespace_id : Bytes
    pub cache_dir : Bytes
    pub disable_use_snap_shot : Bool
    pub last_all_sync_time : ℕ
    pub notifications : ℕ
    pub calls : List Call
    pub requests : List Request

  abbrev pub listener_of : ConfigClient → CacheData → Listener
  listener_of client d = get_or client.listeners d.listener no_listener

  abbrev pub async_notify_listen_config : ConfigClient → ConfigClient
  async_notify_listen_config client = record client { notifications = suc client.notifications }

  -- The parameter that `executeListener` passes through the filters.
  abbrev pub listener_param : CacheData → ConfigParam
  listener_param d = record empty_param {
    data_id = d.data_id;
    content = d.content;
    encrypted_data_key = d.encrypted_data_key;
    usage_type = response_type;
  }

  unfoldable pub execute_listener : ConfigClient → CacheData → ConfigClient
  execute_listener client d =
      let l = listener_of client d in
      let client1 : ConfigClient = record client {
        listeners = set client.listeners d.listener (record l { last_md5 = d.md5 });
        cache_map = set_key client.cache_map (key_of d) d;
      } in
      elim (do_filters client.filters (listener_param d)) [
        | none ↦ client1
        | some param ↦ record client1 {
          calls =
              client1.calls
              ++ (record {
                callback = l.callback;
                tenant = d.tenant;
                group = d.group;
                data_id = d.data_id;
                content = param.content;
              }
                  ∷ []);
        }
      ]

  abbrev pub or_default : Bytes → Bytes
  or_default group = if nat_beq (length group) 0 then default_group else group

  -- `queryConfig` after the check of the limiter: a response writes the snapshots, and code 300,
  -- "not found", empties them.
  unfoldable pub store_reply : ConfigClient → Bytes → QueryReply → ConfigClient × Queried
  store_reply client cache_key no_reply = (client, query_error)
  store_reply client cache_key wrong_type = (client, query_error)
  store_reply client cache_key (query_response success code content content_type key) =
      let written : Bytes → Bytes → ConfigClient = λ c k. record client {
        disk =
            (write_encrypted_data_key_to_file
              (write_config_to_file client.disk cache_key client.cache_dir c).0 cache_key
              client.cache_dir k).0;
      } in
      if success
      then (
        written content key,
        queried true content
            (if nat_beq (length content_type) 0 then codes "text" else content_type) key,
      )
      else if nat_beq code 300
      then (written [] [], queried true content content_type key)
      else if nat_beq code 400
      then (client, query_error)
      else (client, queried false content content_type key)

  -- The limiter and the server at the time of the call.
  module _ (is_limited : Bytes → Bool) (server : Query → QueryReply) where
    unfoldable pub query_config :
        ConfigClient → Bytes → Bytes → Bytes → Bool → ConfigClient × Queried
    query_config client data_id group tenant notify =
        let group' = or_default group in
        let cache_key = get_config_cache_key data_id group' tenant in
        if is_limited cache_key
        then (client, query_error)
        else store_reply client cache_key (
            server (record { data_id = data_id; group = group'; tenant = tenant; notify = notify }))

    -- The part of `getConfigInner` that follows an error of the query.
    unfoldable pub read_snapshot : ConfigClient → Bytes → Bytes → Option (Bytes × Bytes)
    read_snapshot client data_id cache_key =
        if client.disable_use_snap_shot
        then none
        else elim (read_config_from_file client.disk cache_key client.cache_dir) [
          | none ↦ none
          | some content ↦ some (
            content,
            if has_prefix cipher_prefix data_id
                then read_encrypted_data_key_from_file client.disk cache_key client.cache_dir
                else [],
          )
        ]

    -- `getConfigInner`: the content and the encrypted key, or an error.
    unfoldable pub get_config_inner :
        ConfigClient → ConfigParam → ConfigClient × Option (Bytes × Bytes)
    get_config_inner client param =
        let group = or_default param.group in
        let cache_key = get_config_cache_key param.data_id group client.namespace_id in
        let failover = get_failover client.disk cache_key client.cache_dir in
        let (client', response) =
          query_config client param.data_id group client.namespace_id false in
        if nat_beq (length param.data_id) 0
        then (client, none)
        else if ltb 0 (length failover)
        then (
          client,
          some (failover, get_failover_encrypted_data_key client.disk cache_key client.cache_dir),
        )
        else elim response [
          | query_error ↦ (client', read_snapshot client' param.data_id cache_key)
          | queried success content content_type key ↦
              (client', if success then some (content, key) else none)
        ]

    unfoldable pub get_config : ConfigClient → ConfigParam → ConfigClient × Option Bytes
    get_config client param =
        let (client', found) = get_config_inner client param in
        (
          client',
          elim found [
            | none ↦ none
            | some found ↦
                let (content, key) = found in
                elim (do_filters client.filters (record param {
                  encrypted_data_key = key;
                  content = content;
                  usage_type = response_type;
                })) [ none ↦ none | some param' ↦ some param'.content ]
          ],
        )
