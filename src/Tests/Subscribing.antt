-- ===== src/Tests/Subscribing.antt =====
-- Subscribing and unsubscribing, at concrete inputs.
use nacos_sdk_go.Common.{◌≡◌, true, [], Bytes, lookup, codes}
use nacos_sdk_go.Util.{get_group_name, get_service_cache_key}
use nacos_sdk_go.Naming.Callbacks.{funcs_of}
use nacos_sdk_go.Naming.Client.{subscribe, unsubscribe}
use nacos_sdk_go.Naming.Client.Subscribe.{subscribers, funcs_of-unsubscribe-subscribe}
use nacos_sdk_go.Tests.Data.{concrete, orders, shop, client, silent}

abbrev service_key : Bytes
service_key = get_service_cache_key (get_group_name orders shop) []

funcs_of-unsubscribe-subscribe_example :
    funcs_of
      (subscribers
        (unsubscribe silent true 1
          (subscribe silent true 1 client orders shop [] 7).0
          orders
          shop
          []
          7).0)
      service_key
    ≡ funcs_of (subscribers client) service_key
unfolding funcs_of lookup
funcs_of-unsubscribe-subscribe_example =
    funcs_of-unsubscribe-subscribe silent true 1 client orders b's' (codes "hop") [] 7 service_key
      tt
