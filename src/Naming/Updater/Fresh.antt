-- ===== src/Naming/Updater/Fresh.antt =====
-- When a service that was queried is queried again.
use nacos_sdk_go.Common.{
  ℕ, ◌+◌, ◌^◌, ◌≤◌, ◌<◌, ◌≡◌, true, false, Option, some, Bytes, lookup, lookup-insert,
  bytes_beq_iff, bytes_eq, arith, ltb,
}
use nacos_sdk_go.ConcurrentMap.{ConcurrentMap}
use nacos_sdk_go.Model.{Service}
use nacos_sdk_go.Naming.Holder.{
  Holder, process_service, cache_key_of, store_service, is_out_of_date,
}
use nacos_sdk_go.Naming.Holder.Process.{passes, cached}
use nacos_sdk_go.Naming.Updater.{is_overdue, update_service_now}

module _ ⦃cm : ConcurrentMap⦄ where
  process-update_time :
      (holder : Holder) (now : ℕ) (service : Service)
      → passes holder service ≡ true
      → is_out_of_date (cached holder (cache_key_of service)) service ≡ false
      → lookup (cache_key_of service) (process_service holder now (some service)).0.update_time_map
        ≡ some now
  unfolding process_service store_service
  process-update_time holder now service h e = ground (
    arith,
    h,
    e,
    lookup-insert (cache_key_of service) (cache_key_of service) now holder.update_time_map,
    bytes_beq_iff (cache_key_of service) (cache_key_of service),
  )

  overdue_after :
      (holder : Holder) (time now : ℕ) (service : Service)
      → lookup (cache_key_of service) holder.update_time_map ≡ some time
      → time ≤ now
      → now < 2 ^ 64
      → is_overdue holder now service ≡ ltb (time + service.cache_millis) now
  unfolding is_overdue
  overdue_after holder time now service e h bound = ground (arith, e, h, bound)

  -- An answer that the cache takes is fresh for exactly its `CacheMillis`: the updater asks for the
  -- service again once more time has passed, if the clock is not set back.
  overdue-update :
      (holder : Holder) (query : Bytes → Bytes → Bytes → Option Service) (time now : ℕ)
      (asked result : Service)
      → query asked.name asked.group_name asked.clusters ≡ some result
      → passes holder result ≡ true
      → is_out_of_date (cached holder (cache_key_of result)) result ≡ false
      → time ≤ now
      → now < 2 ^ 64
      → is_overdue (update_service_now query holder time asked) now result
        ≡ ltb (time + result.cache_millis) now
  unfolding update_service_now is_overdue lookup
  overdue-update holder query time now asked result q h e o bound = rw q (
      overdue_after (process_service holder time (some result)).0 time now result
        (process-update_time holder time result h e) o bound)
