-- ===== src/Tests/Ordering.antt =====
-- Histories of the cache and of the redo, and the configuration of a client, at concrete inputs.
use mathlib.Core.List.Perm
use nacos_sdk_go.Common.{◌≡◌, refl, [], ◌∷◌, none, some, codes, is_some}
use nacos_sdk_go.ConcurrentMap.{get}
use nacos_sdk_go.Naming.Holder.{cache_key_of}
use nacos_sdk_go.Naming.Holder.Process.{Call, run, version, cached}
use nacos_sdk_go.Naming.Holder.Order.{run-newest, run-perm, newest, larger, IsFirstNewest}
use nacos_sdk_go.Naming.Grpc.Wanted.{nothing, wanted, proxy_run, redo_refines, register, subscribe}
use nacos_sdk_go.Factory.{NacosClientParam}
use nacos_sdk_go.Server.{ServerConfig}
use nacos_sdk_go.Tests.Data.{
  concrete, orders, shop, host_a, host_b, service_at, holder, proxy, silent,
}

abbrev older : Call
older = (1, some (service_at 4 (host_a ∷ [])))

abbrev newer : Call
newer = (2, some (service_at 9 (host_b ∷ [])))

run-newest_example :
    (version (cached (run holder (newer ∷ older ∷ [])) (cache_key_of (service_at 4 [])))
      ≡ larger (version (cached holder (cache_key_of (service_at 4 [])))) (
          newest holder.update_cache_when_empty
            (cache_key_of (service_at 4 []))
            (newer ∷ older ∷ [])))
    × IsFirstNewest holder
        (cache_key_of (service_at 4 []))
        (newer ∷ older ∷ [])
        (cached (run holder (newer ∷ older ∷ [])) (cache_key_of (service_at 4 [])))
run-newest_example = run-newest holder (newer ∷ older ∷ []) (cache_key_of (service_at 4 []))

run-perm_example :
    version (cached (run holder (newer ∷ older ∷ [])) (cache_key_of (service_at 4 [])))
    ≡ version (cached (run holder (older ∷ newer ∷ [])) (cache_key_of (service_at 4 [])))
run-perm_example =
    run-perm holder (newer ∷ older ∷ []) (older ∷ newer ∷ []) (cache_key_of (service_at 4 []))
      (Perm.swap older newer [])

redo_refines_example :
    (get
        (proxy_run silent proxy
          (register orders shop host_a ∷ subscribe orders shop [] ∷ [])).registered_instance_cached
        (codes "shop@@orders")
      ≡ (wanted nothing (register orders shop host_a ∷ subscribe orders shop [] ∷ [])).registered
          (codes "shop@@orders"))
    × (is_some (
          get
            (proxy_run silent proxy
              (register orders shop host_a ∷ subscribe orders shop [] ∷ [])).subscribes
            (codes "shop@@orders"))
        ≡ (wanted nothing (register orders shop host_a ∷ subscribe orders shop [] ∷ [])).subscribed
            (codes "shop@@orders"))
redo_refines_example =
    redo_refines silent proxy (register orders shop host_a ∷ subscribe orders shop [] ∷ [])
      (codes "shop@@orders") refl refl

abbrev local_server : ServerConfig
local_server = record {
  scheme = [];
  context_path = [];
  ip_addr = codes "10.0.0.1";
  port = 0;
  grpc_port = 0;
}

abbrev bare : NacosClientParam
bare = record { client_config = none; server_configs = local_server ∷ [] }
