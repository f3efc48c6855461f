-- ===== src/Naming/Grpc.antt =====
-- clients/naming_client/naming_grpc: the proxy that speaks gRPC, and the listener that repeats the
-- client's registrations and subscriptions on a new connection.
pub mod Redo
pub mod Keys
pub mod Wanted
use nacos_sdk_go.Common.{
  ℕ, ◌≡◌, refl, Bool, true, false, List, [], ◌∷◌, ◌++◌, Option, none, some, Bytes, Dict, map,
  if◌then◌else◌, bytes_eq, is_some,
}
use nacos_sdk_go.ConcurrentMap.{ConcurrentMap, Shared, new_map, get, set_key, remove, items}
use nacos_sdk_go.Util.{get_group_name, get_service_cache_key, at_sign}
use nacos_sdk_go.Util.Split.{split_pair}
use nacos_sdk_go.Model.{Instance, Service}
use nacos_sdk_go.Naming.Holder.{Holder, Effect, process_service}

-- The requests of rpc_request/naming_request.go that the proxy sends, less the namespace and the
-- headers, which do not vary.
pub data Request : Type 0 where
  register_instance_request : Bytes → Bytes → Instance → Request
  deregister_instance_request : Bytes → Bytes → Instance → Request
  batch_register_request : Bytes → Bytes → List Instance → Request
  subscribe_request : Bytes → Bytes → Bytes → Request
  unsubscribe_request : Bytes → Bytes → Bytes → Request
  query_request : Bytes → Bytes → Bytes → Request

-- What `RpcClient.Request` gives for a request: an error, or a response of the request's own type
-- with its success flag and the service that it carries, if any.
pub data Reply : Type 0 where
  failed : Reply
  response : Bool → Service → Reply

-- A value of `registeredInstanceCached`.
pub data Registered : Type 0 where
  single : Instance → Registered
  batch : List Instance → Registered

module _ ⦃cm : ConcurrentMap⦄ where
  -- The listener's two maps, the cache of services, and the requests sent and the effects so far.
  pub record GrpcProxy : Type 0 where
    pub registered_instance_cached : Shared Registered
    pub subscribes : Shared (Unit {0})
    pub service_info_holder : Holder
    pub sent : List Request
    pub effects : List Effect

  unfoldable pub cache_instance_for_redo : GrpcProxy → Bytes → Bytes → Instance → GrpcProxy
  cache_instance_for_redo c service_name group_name instance' = record c {
    registered_instance_cached =
        set_key c.registered_instance_cached (get_group_name service_name group_name)
          (single instance');
  }

  unfoldable pub cache_instances_for_redo : GrpcProxy → Bytes → Bytes → List Instance → GrpcProxy
  cache_instances_for_redo c service_name group_name instances = record c {
    registered_instance_cached =
        set_key c.registered_instance_cached (get_group_name service_name group_name)
          (batch instances);
  }

  unfoldable pub remove_instance_for_redo : GrpcProxy → Bytes → Bytes → GrpcProxy
  remove_instance_for_redo c service_name group_name =
      let key = get_group_name service_name group_name in
      elim (get c.registered_instance_cached key) [
        | none ↦ c
        | some _ ↦ record c { registered_instance_cached = remove c.registered_instance_cached key }
      ]

  unfoldable pub is_subscriber_cached : GrpcProxy → Bytes → Bool
  is_subscriber_cached c key = is_some (get c.subscribes key)

  unfoldable pub cache_subscriber_for_redo : GrpcProxy → Bytes → Bytes → GrpcProxy
  unfolding is_subscriber_cached
  cache_subscriber_for_redo c full_service_name clusters =
      let key = get_service_cache_key full_service_name clusters in
      if is_subscriber_cached c key
      then c
      else record c { subscribes = set_key c.subscribes key tt }

  unfoldable pub remove_subscriber_for_redo : GrpcProxy → Bytes → Bytes → GrpcProxy
  remove_subscriber_for_redo c full_service_name clusters = record c {
    subscribes = remove c.subscribes (get_service_cache_key full_service_name clusters);
  }

  abbrev pub send : GrpcProxy → Request → GrpcProxy
  send c request = record c { sent = c.sent ++ (request ∷ []) }

  -- `holder.ProcessService` at the time `now`.
  unfoldable pub process : GrpcProxy → ℕ → Option Service → GrpcProxy
  process c now service =
      let (holder, effects) = process_service c.service_info_holder now service in
      record c { service_info_holder = holder; effects = c.effects ++ effects }

  -- `response.IsSuccess()`, or the error.
  abbrev pub success : Reply → Option Bool
  success failed = none
  success (response ok service) = some ok

  abbrev pub carried : Reply → Option Service
  carried failed = none
  carried (response ok service) = some service

  -- The answers of the server at the time of the call.
  module _ (server : Request → Reply) where
    -- `none` is an error.
    unfoldable pub grpc_register_instance :
        GrpcProxy → Bytes → Bytes → Instance → GrpcProxy × Option Bool
    unfolding cache_instance_for_redo
    grpc_register_instance proxy service_name group_name instance' =
        let request = register_instance_request service_name group_name instance' in
        (
          send (cache_instance_for_redo proxy service_name group_name instance') request,
          success (server request),
        )

    unfoldable pub grpc_batch_register_instance :
        GrpcProxy → Bytes → Bytes → List Instance → GrpcProxy × Option Bool
    unfolding cache_instances_for_redo
    grpc_batch_register_instance proxy service_name group_name instances =
        let request = batch_register_request service_name group_name instances in
        (
          send (cache_instances_for_redo proxy service_name group_name instances) request,
          success (server request),
        )

    unfoldable pub grpc_deregister_instance :
        GrpcProxy → Bytes → Bytes → Instance → GrpcProxy × Option Bool
    unfolding remove_instance_for_redo
    grpc_deregister_instance proxy service_name group_name instance' =
        let request = deregister_instance_request service_name group_name instance' in
        (
          remove_instance_for_redo (send proxy request) service_name group_name,
          success (server request),
        )

    unfoldable pub grpc_query_instances :
        GrpcProxy → Bytes → Bytes → Bytes → GrpcProxy × Option Service
    grpc_query_instances proxy service_name group_name cluster =
        let request = query_request service_name group_name cluster in
        (send proxy request, carried (server request))

    unfoldable pub grpc_is_subscribed : GrpcProxy → Bytes → Bytes → Bytes → Bool
    unfolding is_subscriber_cached
    grpc_is_subscribed proxy service_name group_name clusters =
        is_subscriber_cached proxy
          (get_service_cache_key (get_group_name service_name group_name) clusters)

    unfoldable pub grpc_subscribe : GrpcProxy → Bytes → Bytes → Bytes → GrpcProxy × Option Service
    unfolding cache_subscriber_for_redo
    grpc_subscribe proxy service_name group_name clusters =
        let request = subscribe_request service_name group_name clusters in
        (
          send (cache_subscriber_for_redo proxy (get_group_name service_name group_name) clusters)
              request,
          carried (server request),
        )

    -- The result says whether there was no error.
    unfoldable pub grpc_unsubscribe : GrpcProxy → Bytes → Bytes → Bytes → GrpcProxy × Bool
    unfolding remove_subscriber_for_redo
    grpc_unsubscribe proxy service_name group_name clusters =
        let request = unsubscribe_request service_name group_name clusters in
        (
          send (remove_subscriber_for_redo proxy (get_group_name service_name group_name) clusters)
              request,
          is_some (success (server request)),
        )

    -- The call of `Subscribe` in `redoSubscribe`, and what follows it.
    unfoldable pub redo_subscription : GrpcProxy → ℕ → Bytes → Bytes → Bytes → GrpcProxy
    unfolding grpc_subscribe process
    redo_subscription c now service_name group_name clusters =
        let (c', service) = grpc_subscribe c service_name group_name clusters in
        elim service [ none ↦ c' | some service ↦ process c' now (some service) ]

    -- One round of `redoSubscribe` on the parts of a key; `none` is the panic of `info[1]`.
    unfoldable pub redo_subscribe_key : GrpcProxy → ℕ → List Bytes → Option GrpcProxy
    redo_subscribe_key c now [] = none
    redo_subscribe_key c now (group_name ∷ []) = none
    redo_subscribe_key c now (group_name ∷ service_name ∷ []) =
        some (redo_subscription c now service_name group_name [])
    redo_subscribe_key c now (group_name ∷ service_name ∷ clusters ∷ _) =
        some (redo_subscription c now service_name group_name clusters)

    pub redo_subscribe_keys : GrpcProxy → ℕ → List Bytes → Option GrpcProxy
    redo_subscribe_keys c now [] = some c
    redo_subscribe_keys c now (key ∷ keys) =
        elim (redo_subscribe_key c now (split_pair at_sign key)) [
          | none ↦ none
          | some c' ↦ redo_subscribe_keys c' now keys
        ]

    pub redo_subscribe : GrpcProxy → ℕ → Option GrpcProxy
    unfolding redo_subscribe_keys
    redo_subscribe c now = redo_subscribe_keys c now (map (λ e. e.0) (items c.subscribes))

    -- One round of `redoRegisterEachService`.
    unfoldable pub redo_register_key : GrpcProxy → List Bytes → Registered → Option GrpcProxy
    unfolding grpc_register_instance grpc_batch_register_instance
    redo_register_key c [] v = none
    redo_register_key c (group_name ∷ []) v = none
    redo_register_key c (group_name ∷ service_name ∷ _) (single instance') =
        some (grpc_register_instance c service_name group_name instance').0
    redo_register_key c (group_name ∷ service_name ∷ _) (batch instances) =
        some (grpc_batch_register_instance c service_name group_name instances).0

    pub redo_register_items : GrpcProxy → Dict Bytes Registered → Option GrpcProxy
    redo_register_items c [] = some c
    redo_register_items c ((k, v) ∷ entries) = elim (redo_register_key c (split_pair at_sign k) v) [
      | none ↦ none
      | some c' ↦ redo_register_items c' entries
    ]

    pub redo_register_each_service : GrpcProxy → Option GrpcProxy
    unfolding redo_register_items
    redo_register_each_service c = redo_register_items c (items c.registered_instance_cached)

    pub on_connected : GrpcProxy → ℕ → Option GrpcProxy
    unfolding redo_subscribe redo_register_each_service
    on_connected c now = elim (redo_subscribe c now) [
      | none ↦ none
      | some c' ↦ redo_register_each_service c'
    ]
