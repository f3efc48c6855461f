-- ===== src/Config/Events.antt =====
-- clients/config_client/config_proxy.go and config_connection_event_listener.go: the server's news of
-- a change, and the two calls on a new and a lost connection.
use nacos_sdk_go.Common.{
  ℕ, Bool, true, false, [], ◌∷◌, none, some, Bytes, Dict, bytes_eq, nat_eq, nat_beq, if◌then◌else◌,
}
use nacos_sdk_go.ConcurrentMap.{ConcurrentMap, get, set_key, items}
use nacos_sdk_go.Config.Client.{
  CacheData, Changed, changed_key, ConfigClient, async_notify_listen_config,
}

module _ ⦃cm : ConcurrentMap⦄ where
  -- `ChangeNotifyRequestHandler.RequestReply`; the Boolean says whether there is a response.
  unfoldable pub change_notify : ConfigClient → Changed → ConfigClient × Bool
  change_notify client v = elim (get client.cache_map (changed_key v)) [
    | none ↦ (client, false)
    | some c_data ↦ (
      async_notify_listen_config (record client {
        cache_map =
            set_key client.cache_map (changed_key v)
              (record c_data { is_sync_with_server = false });
      }),
      true,
    )
  ]

  abbrev pub on_connected : ConfigClient → ConfigClient
  on_connected client = async_notify_listen_config client

  abbrev pub desync : ConfigClient → Bytes → CacheData → ConfigClient
  desync client key d = record client {
    cache_map = set_key client.cache_map key (record d { is_sync_with_server = false });
  }

  -- The loop of `OnDisConnect` over the items.
  unfoldable pub on_dis_connect_loop : ConfigClient → ℕ → Dict Bytes CacheData → ConfigClient
  on_dis_connect_loop client task_id [] = client
  on_dis_connect_loop client task_id ((key, d) ∷ entries) =
      on_dis_connect_loop (if nat_beq d.task_id task_id then desync client key d else client)
        task_id entries

  unfoldable pub on_dis_connect : ConfigClient → ℕ → ConfigClient
  unfolding on_dis_connect_loop
  on_dis_connect client task_id = on_dis_connect_loop client task_id (items client.cache_map)
