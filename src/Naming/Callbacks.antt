-- ===== src/Naming/Callbacks.antt =====
-- clients/naming_client/naming_cache/subscribe_callback.go: the subscribers of each service.
use nacos_sdk_go.Common.{
  ◌≡◌, Bool, false, ◌||◌, not, List, [], ◌∷◌, ◌++◌, none, some, arith, Bytes, bytes_eq, nat_eq,
  ◌==◌, if◌then◌else◌, filter_by, map, length, nat_beq, bytes_beq_iff, Option-cases, inl, inr,
}
use nacos_sdk_go.ConcurrentMap.{ConcurrentMap, Shared, new_map, get, set_key}
use nacos_sdk_go.Util.{get_service_cache_key}
use nacos_sdk_go.Model.{Service}
use nacos_sdk_go.Naming.Selector.{Wrapper, Notification, notify_listener, selector_equals}

module _ ⦃cm : ConcurrentMap⦄ where
  pub record SubscribeCallback : Type 0 where
    pub callback_func_map : Shared (List Wrapper)

  unfoldable pub new_subscribe_callback : SubscribeCallback
  new_subscribe_callback = record { callback_func_map = new_map }

  -- The wrappers under a key; an absent key has none.
  unfoldable pub funcs_of : SubscribeCallback → Bytes → List Wrapper
  funcs_of ed key = elim (get ed.callback_func_map key) [ none ↦ [] | some funcs ↦ funcs ]

  unfoldable pub is_subscribed : SubscribeCallback → Bytes → Bytes → Bool
  is_subscribed ed service_name clusters =
      elim (get ed.callback_func_map (get_service_cache_key service_name clusters)) [
        | none ↦ false
        | some funcs ↦ not (nat_beq (length funcs) 0)
      ]

  unfoldable pub add_callback_func : SubscribeCallback → Bytes → Bytes → Wrapper → SubscribeCallback
  unfolding funcs_of
  add_callback_func ed service_name clusters wrapper =
      let key = get_service_cache_key service_name clusters in
      record {
        callback_func_map = set_key ed.callback_func_map key (funcs_of ed key ++ (wrapper ∷ []));
      }

  -- The test by which `RemoveCallbackFunc` keeps an entry.
  abbrev pub keeps : Wrapper → Wrapper → Bool
  keeps wrapper item =
      not (item.callback_func == wrapper.callback_func)
      || not (selector_equals item.selector (some wrapper.selector))

  unfoldable pub remove_callback_func :
      SubscribeCallback → Bytes → Bytes → Wrapper → SubscribeCallback
  remove_callback_func ed service_name clusters wrapper =
      let key = get_service_cache_key service_name clusters in
      elim (get ed.callback_func_map key) [
        | none ↦ ed
        | some funcs ↦ record {
          callback_func_map = set_key ed.callback_func_map key (filter_by (keeps wrapper) funcs);
        }
      ]

  -- The calls that a change of the service under `cache_key` makes, in order.
  unfoldable pub service_changed : SubscribeCallback → Bytes → Service → List Notification
  service_changed ed cache_key service = elim (get ed.callback_func_map cache_key) [
    | none ↦ []
    | some funcs ↦ map (λ func_item. notify_listener func_item service) funcs
  ]

  -- What `AddCallbackFunc` and `RemoveCallbackFunc` do to every key's subscribers.
  pub funcs_of-add :
      (ed : SubscribeCallback) (service_name clusters : Bytes) (w : Wrapper) (key : Bytes)
      → funcs_of (add_callback_func ed service_name clusters w) key ≡ (
          if get_service_cache_key service_name clusters == key
          then funcs_of ed key ++ (w ∷ [])
          else funcs_of ed key)
  unfolding funcs_of add_callback_func
  funcs_of-add ed service_name clusters w key = ground (
    arith,
    cm.get-set ed.callback_func_map (get_service_cache_key service_name clusters)
        (funcs_of ed (get_service_cache_key service_name clusters) ++ (w ∷ [])) key,
    bytes_beq_iff (get_service_cache_key service_name clusters) key,
  )

  pub funcs_of-remove :
      (ed : SubscribeCallback) (service_name clusters : Bytes) (w : Wrapper) (key : Bytes)
      → funcs_of (remove_callback_func ed service_name clusters w) key ≡ (
          if get_service_cache_key service_name clusters == key
          then filter_by (keeps w) (funcs_of ed key)
          else funcs_of ed key)
  unfolding funcs_of remove_callback_func
  funcs_of-remove ed service_name clusters w key =
      let k = get_service_cache_key service_name clusters in
      elim (Option-cases (get ed.callback_func_map k)) [
        | inl e ↦ ground (arith, e, bytes_beq_iff k key)
        | inr (funcs, e) ↦ ground (
          arith,
          e,
          bytes_beq_iff k key,
          cm.get-set ed.callback_func_map k (filter_by (keeps w) funcs) key,
        )
      ]
