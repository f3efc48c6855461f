-- ===== src/Naming/Grpc/Wanted.antt =====
-- What the proxy keeps for the redo, against an abstract view of it: the last word on each key.
use nacos_sdk_go.Common.{
  ℕ, ◌≡◌, ap, ◌∙◌, Bool, true, false, List, [], ◌∷◌, Option, none, some, arith, Bytes,
  bytes_beq_iff, bytes_eq, ◌==◌, is_some, if◌then◌else◌,
}
use nacos_sdk_go.ConcurrentMap.{ConcurrentMap, new_map, get, set_key}
use nacos_sdk_go.Util.{get_group_name, get_service_cache_key}
use nacos_sdk_go.Model.{Instance, Service}
use nacos_sdk_go.Naming.Grpc.{
  GrpcProxy, Request, Reply, send, deregister_instance_request, Registered, single, batch,
  grpc_register_instance, grpc_batch_register_instance, grpc_deregister_instance, grpc_subscribe,
  grpc_unsubscribe, grpc_query_instances, remove_instance_for_redo, process,
  cache_subscriber_for_redo, remove_subscriber_for_redo, is_subscriber_cached,
}

-- The calls of the proxy, with the service, the group, and the instances or clusters; a push.
pub data Call : Type 0 where
  register : Bytes → Bytes → Instance → Call
  batch_register : Bytes → Bytes → List Instance → Call
  deregister : Bytes → Bytes → Instance → Call
  subscribe : Bytes → Bytes → Bytes → Call
  unsubscribe : Bytes → Bytes → Bytes → Call
  query : Bytes → Bytes → Bytes → Call
  push : ℕ → Option Service → Call

-- The abstract view: what is registered under a name, and whether a key is subscribed.
pub record Wanted : Type 0 where
  pub registered : Bytes → Option Registered
  pub subscribed : Bytes → Bool

abbrev pub nothing : Wanted
nothing = record { registered = λ key. none; subscribed = λ key. false }

abbrev pub want : Wanted → Bytes → Option Registered → Wanted
want w key v = record w { registered = λ j. if key == j then v else w.registered j }

abbrev pub want_key : Wanted → Bytes → Bool → Wanted
want_key w key b = record w { subscribed = λ j. if key == j then b else w.subscribed j }

abbrev pub wanted_step : Wanted → Call → Wanted
wanted_step w (register service group x) = want w (get_group_name service group) (some (single x))
wanted_step w (batch_register service group xs) =
    want w (get_group_name service group) (some (batch xs))
wanted_step w (deregister service group x) = want w (get_group_name service group) none
wanted_step w (subscribe service group clusters) =
    want_key w (get_service_cache_key (get_group_name service group) clusters) true
wanted_step w (unsubscribe service group clusters) =
    want_key w (get_service_cache_key (get_group_name service group) clusters) false
wanted_step w (query service group clusters) = w
wanted_step w (push now service) = w

abbrev pub wanted : Wanted → List Call → Wanted
wanted w [] = w
wanted w (c ∷ cs) = wanted (wanted_step w c) cs

module _ ⦃cm : ConcurrentMap⦄ (server : Request → Reply) where
  unfoldable pub proxy_step : GrpcProxy → Call → GrpcProxy
  proxy_step p (register service group x) = (grpc_register_instance server p service group x).0
  proxy_step p (batch_register service group xs) =
      (grpc_batch_register_instance server p service group xs).0
  proxy_step p (deregister service group x) = (grpc_deregister_instance server p service group x).0
  proxy_step p (subscribe service group clusters) =
      (grpc_subscribe server p service group clusters).0
  proxy_step p (unsubscribe service group clusters) =
      (grpc_unsubscribe server p service group clusters).0
  proxy_step p (query service group clusters) =
      (grpc_query_instances server p service group clusters).0
  proxy_step p (push now service) = process p now service

  unfoldable pub proxy_run : GrpcProxy → List Call → GrpcProxy
  unfolding proxy_step
  proxy_run p [] = p
  proxy_run p (c ∷ cs) = proxy_run (proxy_step p c) cs

  -- The proxy keeps what the abstract view says.
  pub record Keeps (p : GrpcProxy) (w : Wanted) : Type 0 where
    pub registrations : (key : Bytes) → get p.registered_instance_cached key ≡ w.registered key
    pub subscriptions : (key : Bytes) → is_some (get p.subscribes key) ≡ w.subscribed key

  registered_after :
      (p : GrpcProxy) (w : Wanted) (k : Bytes) (v : Registered) (j : Bytes)
      → Keeps p w
      → get (set_key p.registered_instance_cached k v) j ≡ (want w k (some v)).registered j
  registered_after p w k v j keeps =
      ground (arith, cm.get-set p.registered_instance_cached k v j, keeps.registrations j)

  abbrev sending : GrpcProxy → Bytes → Bytes → Instance → GrpcProxy
  sending p service group x = send p (deregister_instance_request service group x)

  deregistered_after :
      (p : GrpcProxy) (w : Wanted) (service group j : Bytes)
      → Keeps p w
      → get (remove_instance_for_redo p service group).registered_instance_cached j
        ≡ (want w (get_group_name service group) none).registered j
  unfolding remove_instance_for_redo
  deregistered_after p w service group j keeps =
      let k = get_group_name service group in
      ground (
        arith,
        cm.get-remove p.registered_instance_cached k j,
        keeps.registrations j,
        keeps.registrations k,
        bytes_beq_iff k j,
      )

  deregister_subscriptions :
      (p : GrpcProxy) (service group j : Bytes)
      → is_some (get (remove_instance_for_redo p service group).subscribes j)
        ≡ is_some (get p.subscribes j)
  unfolding remove_instance_for_redo
  deregister_subscriptions p service group j = ground arith

  subscribe_registrations :
      (p : GrpcProxy) (name clusters j : Bytes)
      → get (cache_subscriber_for_redo p name clusters).registered_instance_cached j
        ≡ get p.registered_instance_cached j
  unfolding cache_subscriber_for_redo
  subscribe_registrations p name clusters j = ground arith

  subscribed_after :
      (p : GrpcProxy) (w : Wanted) (name clusters j : Bytes)
      → Keeps p w
      → is_some (get (cache_subscriber_for_redo p name clusters).subscribes j)
        ≡ (want_key w (get_service_cache_key name clusters) true).subscribed j
  unfolding cache_subscriber_for_redo is_subscriber_cached
  subscribed_after p w name clusters j keeps =
      let k = get_service_cache_key name clusters in
      ground (
        arith,
        cm.get-set p.subscribes k tt j,
        keeps.subscriptions j,
        keeps.subscriptions k,
        bytes_beq_iff k j,
      )

  unsubscribed_after :
      (p : GrpcProxy) (w : Wanted) (name clusters j : Bytes)
      → Keeps p w
      → is_some (get (remove_subscriber_for_redo p name clusters).subscribes j)
        ≡ (want_key w (get_service_cache_key name clusters) false).subscribed j
  unfolding remove_subscriber_for_redo
  unsubscribed_after p w name clusters j keeps =
      let k = get_service_cache_key name clusters in
      ground (arith, cm.get-remove p.subscribes k j, keeps.subscriptions j)

  step-Keeps :
      (p : GrpcProxy) (w : Wanted) (c : Call) → Keeps p w → Keeps (proxy_step p c) (wanted_step w c)
  unfolding proxy_step grpc_register_instance grpc_batch_register_instance grpc_deregister_instance
      grpc_subscribe grpc_unsubscribe grpc_query_instances process
  step-Keeps p w (register service group x) k = record {
    registrations = λ j. registered_after p w (get_group_name service group) (single x) j k;
    subscriptions = k.subscriptions;
  }
  step-Keeps p w (batch_register service group xs) k = record {
    registrations = λ j. registered_after p w (get_group_name service group) (batch xs) j k;
    subscriptions = k.subscriptions;
  }
  step-Keeps p w (deregister service group x) k = record {
    registrations = λ j.
        deregistered_after (sending p service group x) w service group j
          (record { registrations = k.registrations; subscriptions = k.subscriptions });
    subscriptions = λ j.
        deregister_subscriptions (sending p service group x) service group j ∙ k.subscriptions j;
  }
  step-Keeps p w (subscribe service group clusters) k = record {
    registrations = λ j.
        subscribe_registrations p (get_group_name service group) clusters j ∙ k.registrations j;
    subscriptions = λ j. subscribed_after p w (get_group_name service group) clusters j k;
  }
  step-Keeps p w (unsubscribe service group clusters) k = record {
    registrations = k.registrations;
    subscriptions = λ j. unsubscribed_after p w (get_group_name service group) clusters j k;
  }
  step-Keeps p w (query service group clusters) k = record {
    registrations = k.registrations;
    subscriptions = k.subscriptions;
  }
  step-Keeps p w (push now service) k = record {
    registrations = k.registrations;
    subscriptions = k.subscriptions;
  }

  run-Keeps :
      (p : GrpcProxy) (w : Wanted) (cs : List Call)
      → Keeps p w
      → Keeps (proxy_run p cs) (wanted w cs)
  unfolding proxy_run
  run-Keeps p w [] k = k
  run-Keeps p w (c ∷ cs) k = run-Keeps (proxy_step p c) (wanted_step w c) cs (step-Keeps p w c k)

  -- Whatever the server answers, and whatever is queried and pushed in between, a proxy keeps for the
  -- redo what was last said of each key: the last registration that no later call takes back, and the
  -- subscriptions that were not given up.
  pub redo_refines :
      (p : GrpcProxy) (cs : List Call) (key : Bytes)
      → p.registered_instance_cached ≡ new_map
      → p.subscribes ≡ new_map
      → (get (proxy_run p cs).registered_instance_cached key ≡ (wanted nothing cs).registered key)
        × (is_some (get (proxy_run p cs).subscribes key) ≡ (wanted nothing cs).subscribed key)
  redo_refines p cs key r s =
      let k : Keeps p nothing = record {
        registrations = λ j. ap (λ m. get m j) r ∙ cm.get-new j;
        subscriptions = λ j. ap (λ m. is_some (get m j)) s ∙ ap is_some (cm.get-new j);
      } in
      let kept = run-Keeps p nothing cs k in (kept.registrations key, kept.subscriptions key)
