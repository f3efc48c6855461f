-- ===== src/Naming/Client.antt =====
-- clients/naming_client/naming_client.go over naming_proxy_delegate.go: the operations of the
-- naming client.
pub mod Select
pub mod Subscribe
use nacos_sdk_go.Common.{
  ℕ, ◌≡◌, refl, Bool, true, false, ◌&&◌, ◌||◌, not, List, [], ◌∷◌, ◌++◌, Option, none, some, Bytes,
  Dict, length, nat_beq, if◌then◌else◌, ltb, filter_by, is_some, lookup, bytes_eq, ◌==◌, codes,
}
use nacos_sdk_go.ConcurrentMap.{ConcurrentMap}
use nacos_sdk_go.Util.{get_group_name, get_service_cache_key, default_group}
use nacos_sdk_go.Util.Decimal.{atoi}
use nacos_sdk_go.Model.{Instance, Service, empty_service, empty_instance, bool_beq}
use nacos_sdk_go.Naming.Selector.{
  ClusterSelector, new_cluster_selector, select_instance, join_comma, Wrapper,
}
use nacos_sdk_go.Naming.Holder.{
  Holder, get_service_info, register_callback, deregister_callback, holder_is_subscribed,
  stop_update_if_contain,
}
use nacos_sdk_go.Naming.Grpc.{
  GrpcProxy, Request, Reply, grpc_register_instance, grpc_deregister_instance,
  grpc_batch_register_instance, grpc_is_subscribed, grpc_subscribe, grpc_unsubscribe, process,
}
use nacos_sdk_go.Naming.Beat.{BeatReactor, http_register_instance, http_deregister_instance}
use nacos_sdk_go.Naming.Chooser.{new_chooser, pick}
use nacos_sdk_go.Naming.Choice.{
  Error, empty_service_name, empty_instances, persistent_instance, empty_instance_list,
  empty_healthy_list, request_failed, Result, ok, err, panics, or_failed, RegisterInstanceParam,
  or_default_group, instance_of, beat_period, batch_instances, selectable, select_healthy,
  select_one_healthy,
}

module _ ⦃cm : ConcurrentMap⦄ where
  -- The proxies and the cache; `grpc` holds the cache.
  pub record NamingClient : Type 0 where
    pub grpc : GrpcProxy
    pub http : BeatReactor
    pub is_closed : Bool

  abbrev pub wrapper_of : List Bytes → ℕ → Wrapper
  wrapper_of clusters callback = record {
    selector = new_cluster_selector clusters;
    callback_func = callback;
  }

  abbrev pub with_holder : NamingClient → Holder → NamingClient
  with_holder sc holder =
      let grpc = sc.grpc in record sc { grpc = record grpc { service_info_holder = holder } }

  -- The answers over gRPC, whether requests over HTTP succeed, and the time.
  module _ (server : Request → Reply) (http_ok : Bool) (now : ℕ) where
    -- `getExecuteClientProxy` and the call of its proxy.
    unfoldable pub delegate_register :
        NamingClient → Bytes → Bytes → Instance → NamingClient × Option Bool
    delegate_register c service_name group_name instance' =
        if instance'.ephemeral
        then (let (grpc, r) =
              grpc_register_instance server c.grpc service_name group_name instance' in
            (record c { grpc = grpc }, r))
        else (let (http, r) =
              http_register_instance c.http service_name group_name instance' http_ok
                (beat_period instance'.metadata) in
            (record c { http = http }, r))

    unfoldable pub delegate_deregister :
        NamingClient → Bytes → Bytes → Instance → NamingClient × Option Bool
    delegate_deregister c service_name group_name instance' =
        if instance'.ephemeral
        then (let (grpc, r) =
              grpc_deregister_instance server c.grpc service_name group_name instance' in
            (record c { grpc = grpc }, r))
        else (let (http, r) =
              http_deregister_instance c.http service_name group_name instance' http_ok in
            (record c { http = http }, r))

    -- `Subscribe` of the delegate: the cached service if there is a subscription, else the
    -- server's; either goes through `ProcessService`.
    unfoldable pub delegate_subscribe :
        GrpcProxy → Bytes → Bytes → Bytes → GrpcProxy × Option Service
    delegate_subscribe proxy service_name group_name clusters =
        let is_subscribed = grpc_is_subscribed server proxy service_name group_name clusters in
        let cached =
          lookup (get_service_cache_key (get_group_name service_name group_name) clusters)
            proxy.service_info_holder.service_info_map in
        if not is_subscribed || not (is_some cached)
        then (let (proxy', fetched) =
              grpc_subscribe server proxy service_name group_name clusters in
            (
              elim fetched [ none ↦ proxy' | some service ↦ process proxy' now (some service) ],
              fetched,
            ))
        else (process proxy now cached, cached)

    unfoldable pub delegate_unsubscribe : GrpcProxy → Bytes → Bytes → Bytes → GrpcProxy × Bool
    delegate_unsubscribe proxy service_name group_name clusters =
        grpc_unsubscribe server
          (record proxy {
            service_info_holder =
                stop_update_if_contain proxy.service_info_holder
                  (get_group_name service_name group_name) clusters;
          })
          service_name group_name clusters

    unfoldable pub register_instance :
        NamingClient → RegisterInstanceParam → NamingClient × Result Bool
    register_instance sc param =
        if nat_beq (length param.service_name) 0
        then (sc, err empty_service_name)
        else (let (sc', r) =
              delegate_register sc param.service_name (or_default_group param.group_name)
                (instance_of param) in
            (sc', or_failed r))

    -- `UpdateInstance` registers again, by the same lines.
    unfoldable pub update_instance :
        NamingClient → RegisterInstanceParam → NamingClient × Result Bool
    unfolding register_instance
    update_instance sc param = register_instance sc param

    -- `DeregisterInstance` does not ask for a service name.
    unfoldable pub deregister_instance :
        NamingClient → Bytes → Bytes → Bytes → ℕ → Bytes → Bool → NamingClient × Result Bool
    deregister_instance sc service_name group_name ip port cluster ephemeral =
        let (sc', r) =
          delegate_deregister sc service_name (or_default_group group_name) (record empty_instance {
            ip = ip;
            port = port;
            cluster_name = cluster;
            ephemeral = ephemeral;
          }) in
        (sc', or_failed r)

    unfoldable pub batch_register_instance :
        NamingClient → Bytes → Bytes → List RegisterInstanceParam → NamingClient × Result Bool
    batch_register_instance sc service_name group_name params =
        if nat_beq (length service_name) 0
        then (sc, err empty_service_name)
        else if nat_beq (length params) 0
        then (sc, err empty_instances)
        else elim (batch_instances params) [
          | none ↦ (sc, err persistent_instance)
          | some instances ↦
              (let (grpc, r) =
                  grpc_batch_register_instance server sc.grpc service_name
                    (or_default_group group_name) instances in
                (record sc { grpc = grpc }, or_failed r))
        ]

    -- The cached service, or that of a new subscription: `none` is an error.
    unfoldable pub find_service : NamingClient → Bytes → Bytes → NamingClient × Option Service
    find_service sc service_name group_name =
        let (service, found) =
          get_service_info sc.grpc.service_info_holder service_name group_name [] in
        if found
        then (sc, some service)
        else (let (grpc, fetched) = delegate_subscribe sc.grpc service_name group_name [] in
            (record sc { grpc = grpc }, fetched))

    -- `GetService`; the Boolean says whether there was no error.
    unfoldable pub get_service :
        NamingClient → Bytes → Bytes → List Bytes → NamingClient × Service × Bool
    get_service sc service_name group_name clusters =
        let cluster_selector = new_cluster_selector clusters in
        let (sc', found) = find_service sc service_name (or_default_group group_name) in
        let service : Service = elim found [ none ↦ empty_service | some service ↦ service ] in
        let service' = record service { clusters = join_comma clusters } in
        (sc', record service' { hosts = select_instance cluster_selector service' }, is_some found)

    unfoldable pub select_all_instances :
        NamingClient → Bytes → Bytes → List Bytes → NamingClient × Result (List Instance)
    select_all_instances sc service_name group_name clusters =
        let (sc', found) = find_service sc service_name (or_default_group group_name) in
        (
          sc',
          elim found [
            | none ↦ err request_failed
            | some service ↦ ok (select_instance (new_cluster_selector clusters) service)
          ],
        )

    unfoldable pub select_instances :
        NamingClient → Bytes → Bytes → List Bytes → Bool → NamingClient × Result (List Instance)
    select_instances sc service_name group_name clusters healthy_only =
        let (sc', found) = find_service sc service_name (or_default_group group_name) in
        (
          sc',
          elim found [
            | none ↦ err request_failed
            | some service ↦
                select_healthy
                  (record service {
                    hosts = select_instance (new_cluster_selector clusters) service;
                  })
                  healthy_only
          ],
        )

    unfoldable pub select_one_healthy_instance :
        NamingClient → Bytes → Bytes → List Bytes → ℕ → NamingClient × Result Instance
    select_one_healthy_instance sc service_name group_name clusters draw =
        let (sc', found) = find_service sc service_name (or_default_group group_name) in
        (
          sc',
          elim found [
            | none ↦ err request_failed
            | some service ↦
                select_one_healthy
                  (record service {
                    hosts = select_instance (new_cluster_selector clusters) service;
                  })
                  draw
          ],
        )

    -- `Subscribe`; the Boolean says whether there was no error.
    unfoldable pub subscribe : NamingClient → Bytes → Bytes → List Bytes → ℕ → NamingClient × Bool
    subscribe sc service_name group_name clusters callback =
        let group = or_default_group group_name in
        let sc1 = with_holder sc (
          register_callback sc.grpc.service_info_holder (get_group_name service_name group) []
            (wrapper_of clusters callback)) in
        let (grpc, fetched) = delegate_subscribe sc1.grpc service_name group [] in
        (record sc1 { grpc = grpc }, is_some fetched)

    -- `Unsubscribe` takes the group as it is given.
    unfoldable pub unsubscribe : NamingClient → Bytes → Bytes → List Bytes → ℕ → NamingClient × Bool
    unsubscribe sc service_name group_name clusters callback =
        let full_name = get_group_name service_name group_name in
        let sc1 = with_holder sc (
          deregister_callback sc.grpc.service_info_holder full_name []
            (wrapper_of clusters callback)) in
        if holder_is_subscribed sc1.grpc.service_info_holder full_name []
        then (sc1, true)
        else (let (grpc, fine) = delegate_unsubscribe sc1.grpc service_name group_name [] in
            (record sc1 { grpc = grpc }, fine))
