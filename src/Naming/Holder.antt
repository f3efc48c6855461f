-- ===== src/Naming/Holder.antt =====
-- clients/naming_client/naming_cache/service_info_holder.go: the cache of services.
pub mod Process
pub mod Changes
pub mod Order
use nacos_sdk_go.Common.{
  ℕ, ◌≡◌, refl, Bool, true, false, ◌&&◌, ◌||◌, not, List, [], ◌∷◌, ◌++◌, Option, none, some, Bytes,
  ltb, leb, Dict, lookup, insert, delete, length, bytes_eq, nat_eq, nat_beq, ◌==◌, if◌then◌else◌,
  filter_by, map, codes, go_sort,
}
use nacos_sdk_go.ConcurrentMap.{ConcurrentMap}
use nacos_sdk_go.Util.{get_group_name, get_service_cache_key}
use nacos_sdk_go.Util.Decimal.{atoi_or_zero}
use nacos_sdk_go.Model.{Instance, Service, instances_equal, empty_service}
use nacos_sdk_go.Naming.Selector.{Wrapper, Notification}
use nacos_sdk_go.Naming.Callbacks.{
  SubscribeCallback, new_subscribe_callback, add_callback_func, remove_callback_func, is_subscribed,
  service_changed,
}

-- `strings.ReplaceAll(ip, ".", "")`.
unfoldable pub without_dots : Bytes → Bytes
without_dots = filter_by (λ b. not (nat_beq b b'.'))

-- `instanceSorter.Less`.
unfoldable pub less : Instance → Instance → Bool
unfolding without_dots
less ins_i ins_j =
    if ltb (atoi_or_zero (without_dots ins_i.ip)) (atoi_or_zero (without_dots ins_j.ip))
    then true
    else ltb ins_i.port ins_j.port

unfoldable pub sort_instance : List Instance → List Instance
unfolding go_sort
sort_instance = go_sort less

-- Whether the instances of a service differ, for a new service that is not older. `reflect.DeepEqual`
-- tells a nil slice or map from an empty one, which are one list here.
unfoldable pub is_service_instance_changed : Service → Service → Bool
is_service_instance_changed old_service new_service =
    if not (nat_beq (length old_service.hosts) (length new_service.hosts))
    then true
    else if ltb new_service.last_ref_time old_service.last_ref_time
    then false
    else not (instances_equal (sort_instance old_service.hosts) (sort_instance new_service.hosts))

unfoldable pub check_instance_changed : Option Service → Service → Bool
check_instance_changed none service = true
check_instance_changed (some old_service) service = is_service_instance_changed old_service service

-- What `ProcessService` does beside its own state.
pub data Effect : Type 0 where
  wrote : Bytes → Service → Effect
  notified : List Notification → Effect
  gauge : ℕ → Effect

unfoldable pub cache_key_of : Service → Bytes
cache_key_of service =
    get_service_cache_key (get_group_name service.name service.group_name) service.clusters

-- Out-of-date data: `ok && oldDomain.LastRefTime >= service.LastRefTime`.
unfoldable pub is_out_of_date : Option Service → Service → Bool
is_out_of_date none service = false
is_out_of_date (some old_domain) service = leb service.last_ref_time old_domain.last_ref_time

module _ ⦃cm : ConcurrentMap⦄ where
  pub record Holder : Type 0 where
    pub service_info_map : Dict Bytes Service
    pub update_cache_when_empty : Bool
    pub cache_dir : Bytes
    pub not_load_cache_at_start : Bool
    pub sub_callback : SubscribeCallback
    pub update_time_map : Dict Bytes ℕ

  store_all : Dict Bytes Service → Dict Bytes Service → Dict Bytes Service
  store_all [] m = m
  store_all ((k, v) ∷ services) m = store_all services (insert k v m)

  -- `loadCacheFromDisk`, on what `cache.ReadServicesFromFile` returned; an error is no service.
  pub load_cache_from_disk : Holder → Dict Bytes Service → Holder
  unfolding store_all
  load_cache_from_disk s service_map = record s {
    service_info_map = store_all service_map s.service_info_map;
  }

  unfoldable pub new_service_info_holder : Bytes → Bytes → Bool → Bool → Dict Bytes Service → Holder
  unfolding load_cache_from_disk
  new_service_info_holder namespace cache_dir update_cache_when_empty not_load_cache_at_start disk =
      let s : Holder = record {
        service_info_map = [];
        update_cache_when_empty = update_cache_when_empty;
        cache_dir = cache_dir ++ (codes "/naming/" ++ namespace);
        not_load_cache_at_start = not_load_cache_at_start;
        sub_callback = new_subscribe_callback;
        update_time_map = [];
      } in
      if not_load_cache_at_start then s else load_cache_from_disk s disk

  -- The part of `ProcessService` that follows its guards.
  unfoldable pub store_service : Holder → ℕ → Service → Holder
  store_service s now service = record s {
    service_info_map = insert (cache_key_of service) service s.service_info_map;
    update_time_map = insert (cache_key_of service) now s.update_time_map;
  }

  unfoldable pub changed_effects : Holder → Bytes → Option Service → Service → List Effect
  changed_effects s cache_key old_domain service =
      if check_instance_changed old_domain service
      then wrote cache_key service
        ∷ notified (service_changed s.sub_callback cache_key service)
        ∷ []
      else []

  -- `now` is the clock in milliseconds. The code loads the old service and stores the new one without a
  -- lock; here a call is one step.
  unfoldable pub process_service : Holder → ℕ → Option Service → Holder × List Effect
  process_service s now none = (s, [])
  process_service s now (some service) =
      if not s.update_cache_when_empty && nat_beq (length service.hosts) 0
      then (s, [])
      else if is_out_of_date (lookup (cache_key_of service) s.service_info_map) service
      then (s, [])
      else let cache_key = cache_key_of service in
        let old_domain = lookup cache_key s.service_info_map in
        let s' = store_service s now service in
        (
          s',
          changed_effects s' cache_key old_domain service
              ++ (gauge (length s'.service_info_map) ∷ []),
        )

  unfoldable pub get_service_info : Holder → Bytes → Bytes → Bytes → Service × Bool
  get_service_info s service_name group_name clusters =
      elim (lookup (get_service_cache_key (get_group_name service_name group_name) clusters)
        s.service_info_map) [ none ↦ (empty_service, false) | some service ↦ (service, true) ]

  unfoldable pub register_callback : Holder → Bytes → Bytes → Wrapper → Holder
  register_callback s service_name clusters w = record s {
    sub_callback = add_callback_func s.sub_callback service_name clusters w;
  }

  unfoldable pub deregister_callback : Holder → Bytes → Bytes → Wrapper → Holder
  deregister_callback s service_name clusters w = record s {
    sub_callback = remove_callback_func s.sub_callback service_name clusters w;
  }

  unfoldable pub stop_update_if_contain : Holder → Bytes → Bytes → Holder
  stop_update_if_contain s service_name clusters = record s {
    service_info_map = delete (get_service_cache_key service_name clusters) s.service_info_map;
  }

  unfoldable pub holder_is_subscribed : Holder → Bytes → Bytes → Bool
  holder_is_subscribed s service_name clusters = is_subscribed s.sub_callback service_name clusters
