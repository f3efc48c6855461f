-- ===== src/Tests/Cache.antt =====
-- The cache of services and the redo of a connection, at concrete inputs.
use mathlib.Core.List.{Perm}
use nacos_sdk_go.Common.{
  List, ◌≡◌, ◌&&◌, refl, true, [], ◌∷◌, ◌++◌, some, arith, if◌then◌else◌, ◌==◌, bytes_eq, map,
  insert, lookup, go_sort, sort_from, sink, bytes_beq,
}
use nacos_sdk_go.Util.{get_group_name, get_service_cache_key}
use nacos_sdk_go.Util.Decimal.{atoi}
use nacos_sdk_go.ConcurrentMap.{set_key, new_map}
use nacos_sdk_go.Model.{Instance, instances_equal, instance_equal, metadata_equal, entries_in}
use nacos_sdk_go.Naming.Selector.{notify_listener}
use nacos_sdk_go.Naming.Holder.{
  process_service, register_callback, cache_key_of, is_service_instance_changed, sort_instance,
  less, without_dots,
}
use nacos_sdk_go.Naming.Holder.Changes.{
  register-process, unchanged-perm, calls_of, is_news, AllSame,
}
use nacos_sdk_go.Naming.Grpc.{GrpcProxy, on_connected, single}
use nacos_sdk_go.Naming.Grpc.Keys.{Target, key_of}
use nacos_sdk_go.Naming.Grpc.Redo.{on_connected-sent, Registration, registration, subscription}
use nacos_sdk_go.Naming.Beat.{
  BeatInfo, state_running, http_register_instance, http_deregister_instance,
}
use nacos_sdk_go.Naming.Beat.Stops.{beat_at, deregister_keeps_beating, registered_key}
use nacos_sdk_go.Tests.Data.{
  concrete, orders, shop, host_a, host_b, service_at, holder, wrapper, proxy, reactor, silent,
}

unchanged-perm_example :
    (xs : List Instance) × (ys : List Instance) × Perm (host_a ∷ host_b ∷ []) xs
    × Perm (host_b ∷ host_a ∷ []) ys
    × AllSame xs ys
unfolding is_service_instance_changed sort_instance go_sort sort_from sink less without_dots atoi
    instances_equal instance_equal metadata_equal entries_in bytes_beq
unchanged-perm_example =
    unchanged-perm (service_at 4 (host_a ∷ host_b ∷ [])) (service_at 5 (host_b ∷ host_a ∷ []))
      (omega arith) refl

register-process_example :
    calls_of
      (process_service
        (register_callback holder (get_group_name orders shop) [] wrapper)
        1
        (some (service_at 4 (host_a ∷ [])))).1
    ≡ (if is_news holder (service_at 4 (host_a ∷ []))
          && (get_service_cache_key (get_group_name orders shop) []
              == cache_key_of (service_at 4 (host_a ∷ [])))
        then calls_of (process_service holder 1 (some (service_at 4 (host_a ∷ [])))).1
          ++ (notify_listener wrapper (service_at 4 (host_a ∷ [])) ∷ [])
        else calls_of (process_service holder 1 (some (service_at 4 (host_a ∷ [])))).1)
register-process_example =
    register-process holder (get_group_name orders shop) [] wrapper 1 (service_at 4 (host_a ∷ []))

abbrev target : Target
target = record { service = orders; group = shop; clusters = [] }

abbrev kept : Registration
kept = record { service = orders; group = shop; value = single host_a }

abbrev known_proxy : GrpcProxy
known_proxy = record proxy {
  subscribes = set_key new_map (key_of target) tt;
  registered_instance_cached = set_key new_map (get_group_name orders shop) (single host_a);
}

on_connected-sent_example :
    (c' : GrpcProxy) × (on_connected silent known_proxy 1 ≡ some c')
    × (c'.sent ≡ [] ++ (map subscription (target ∷ []) ++ map registration (kept ∷ [])))
unfolding insert
on_connected-sent_example =
    on_connected-sent silent known_proxy 1 (target ∷ []) (kept ∷ []) refl refl
      (record { service = ground arith; group = ground arith; clusters = tt }, tt)
      (record { service = ground arith; group = ground arith }, tt)

deregister_keeps_beating_example :
    (info : BeatInfo) × (beat_at
        (http_deregister_instance
          (http_register_instance reactor orders shop host_a true 5).0
          orders
          shop
          host_a
          true).0
        (registered_key orders shop host_a)
      ≡ some info)
    × (info.state ≡ state_running)
unfolding lookup
deregister_keeps_beating_example =
    deregister_keeps_beating reactor orders shop host_a true 5 refl refl refl
