-- ===== src/Naming/Client/Subscribe.antt =====
-- What subscribing and unsubscribing do to the subscribers of a service, and to the server.
use nacos_sdk_go.Common.{
  ℕ, ◌≡◌, refl, ap, ◌∙◌, Bool, true, false, ◌&&◌, List, [], ◌∷◌, ◌++◌, Option, none, some, arith,
  Bytes, bytes_eq, bytes_beq, bytes_beq_iff, length, if◌then◌else◌, All, Bool-cases, inl, inr,
  Option-cases, beq_refl, lookup,
}
use nacos_sdk_go.ConcurrentMap.{ConcurrentMap}
use nacos_sdk_go.Util.{get_group_name, get_service_cache_key, default_group}
use nacos_sdk_go.Model.{Service}
use nacos_sdk_go.Naming.Callbacks.{
  SubscribeCallback, funcs_of, is_subscribed, add_callback_func, remove_callback_func, funcs_of-add,
  funcs_of-remove, keeps,
}
use nacos_sdk_go.Naming.Holder.{
  process_service, store_service, register_callback, deregister_callback, stop_update_if_contain,
  holder_is_subscribed,
}
use nacos_sdk_go.Naming.Holder.Changes.{funcs_of-remove-add}
use nacos_sdk_go.Naming.Grpc.{
  GrpcProxy, Request, Reply, unsubscribe_request, grpc_subscribe, grpc_unsubscribe, process,
  cache_subscriber_for_redo, remove_subscriber_for_redo, is_subscriber_cached,
}
use nacos_sdk_go.Naming.Client.{
  NamingClient, subscribe, unsubscribe, delegate_subscribe, delegate_unsubscribe, wrapper_of,
  with_holder,
}
use nacos_sdk_go.Naming.Choice.{or_default_group}

module _ ⦃cm : ConcurrentMap⦄ where
  -- The subscribers that the client knows.
  abbrev pub subscribers : NamingClient → SubscribeCallback
  subscribers c = c.grpc.service_info_holder.sub_callback

  abbrev subscribers_of : GrpcProxy → SubscribeCallback
  subscribers_of p = p.service_info_holder.sub_callback

  process-subscribers :
      (p : GrpcProxy) (now : ℕ) (service : Option Service)
      → subscribers_of (process p now service) ≡ subscribers_of p
  unfolding process process_service store_service
  process-subscribers p now none = refl
  process-subscribers p now (some service) = ground arith

  module _ (server : Request → Reply) (http_ok : Bool) (now : ℕ) where
    grpc_subscribe-subscribers :
        (p : GrpcProxy) (service_name group_name clusters : Bytes)
        → subscribers_of (grpc_subscribe server p service_name group_name clusters).0
          ≡ subscribers_of p
    unfolding grpc_subscribe cache_subscriber_for_redo
    grpc_subscribe-subscribers p service_name group_name clusters = ground arith

    delegate_subscribe-subscribers :
        (p : GrpcProxy) (service_name group_name clusters : Bytes)
        → subscribers_of
            (delegate_subscribe server http_ok now p service_name group_name clusters).0
          ≡ subscribers_of p
    unfolding delegate_subscribe
    delegate_subscribe-subscribers p service_name group_name clusters =
        let (p', fetched) = grpc_subscribe server p service_name group_name clusters in
        let key = get_service_cache_key (get_group_name service_name group_name) clusters in
        let cached = lookup key p.service_info_holder.service_info_map in
        let e = grpc_subscribe-subscribers p service_name group_name clusters in
        elim (Option-cases fetched) [
          | inl f ↦ ground (arith, f, e, process-subscribers p now cached)
          | inr (service, f) ↦ ground (
            arith,
            f,
            e,
            process-subscribers p now cached,
            process-subscribers p' now (some service),
          )
        ]

    subscribe-subscribers :
        (c : NamingClient) (service_name group_name : Bytes) (clusters : List Bytes) (f : ℕ)
        → subscribers (subscribe server http_ok now c service_name group_name clusters f).0
          ≡ add_callback_func
              (subscribers c)
              (get_group_name service_name (or_default_group group_name))
              []
              (wrapper_of clusters f)
    unfolding subscribe register_callback
    subscribe-subscribers c service_name group_name clusters f =
        let group = or_default_group group_name in
        let name = get_group_name service_name group in
        let c1 =
          with_holder c
            (register_callback c.grpc.service_info_holder name [] (wrapper_of clusters f)) in
        delegate_subscribe-subscribers c1.grpc service_name group []

    unsubscribe-subscribers :
        (c : NamingClient) (service_name group_name : Bytes) (clusters : List Bytes) (f : ℕ)
        → subscribers (unsubscribe server http_ok now c service_name group_name clusters f).0
          ≡ remove_callback_func
              (subscribers c)
              (get_group_name service_name group_name)
              []
              (wrapper_of clusters f)
    unfolding unsubscribe deregister_callback delegate_unsubscribe grpc_unsubscribe
        remove_subscriber_for_redo stop_update_if_contain
    unsubscribe-subscribers c service_name group_name clusters f = ground arith

    -- Unsubscribing takes back a subscription to a service of a named group: every key has the
    -- subscribers that it had before, if the subscriber was not there already.
    pub funcs_of-unsubscribe-subscribe :
        (c : NamingClient) (service_name : Bytes) (b : ℕ) (group : Bytes) (clusters : List Bytes)
        (f : ℕ) (key : Bytes)
        → All
            (λ x. keeps (wrapper_of clusters f) x ≡ true)
            (funcs_of
              (subscribers c)
              (get_service_cache_key (get_group_name service_name (b ∷ group)) []))
        → funcs_of
            (subscribers
              (unsubscribe server http_ok now
                (subscribe server http_ok now c service_name (b ∷ group) clusters f).0
                service_name
                (b ∷ group)
                clusters
                f).0)
            key
          ≡ funcs_of (subscribers c) key
    funcs_of-unsubscribe-subscribe c service_name b group clusters f key h =
        let c1 = (subscribe server http_ok now c service_name (b ∷ group) clusters f).0 in
        let name = get_group_name service_name (b ∷ group) in
        let w = wrapper_of clusters f in
        ap (λ x. funcs_of x key)
          (unsubscribe-subscribers c1 service_name (b ∷ group) clusters f
            ∙ ap (λ x. remove_callback_func x name [] w)
                (subscribe-subscribers c service_name (b ∷ group) clusters f))
        ∙ funcs_of-remove-add (subscribers c) name [] w key h

    default_key-differs :
        (service_name : Bytes)
        → bytes_beq
            (get_service_cache_key (get_group_name service_name []) [])
            (get_service_cache_key (get_group_name service_name default_group) [])
          ≡ false
    unfolding get_group_name get_service_cache_key
    default_key-differs service_name =
        let short = get_service_cache_key (get_group_name service_name []) [] in
        let long = get_service_cache_key (get_group_name service_name default_group) [] in
        elim (Bool-cases (bytes_beq short long)) [
          | inr e ↦ e
          | inl e ↦
              let h : length short ≡ length long = ap length ((bytes_beq_iff short long).0 e) in
              absurd (omega (arith, h))
        ]

    -- Without a group, `Subscribe` takes the default group, and `Unsubscribe` does not: the
    -- subscriber stays.
    unsubscribe_without_group :
        (c : NamingClient) (service_name : Bytes) (clusters : List Bytes) (f : ℕ)
        → let key = get_service_cache_key (get_group_name service_name default_group) [] in
          funcs_of
            (subscribers
              (unsubscribe server http_ok now
                (subscribe server http_ok now c service_name [] clusters f).0
                service_name
                []
                clusters
                f).0)
            key
          ≡ funcs_of (subscribers c) key ++ (wrapper_of clusters f ∷ [])
    unsubscribe_without_group c service_name clusters f =
        let c1 = (subscribe server http_ok now c service_name [] clusters f).0 in
        let key = get_service_cache_key (get_group_name service_name default_group) [] in
        let w = wrapper_of clusters f in
        let e1 = unsubscribe-subscribers c1 service_name [] clusters f in
        let e2 = subscribe-subscribers c service_name [] clusters f in
        let e3 = funcs_of-remove (subscribers c1) (get_group_name service_name []) [] w key in
        let e4 =
          funcs_of-add (subscribers c) (get_group_name service_name default_group) [] w key in
        ap (λ x. funcs_of x key) e1
        ∙ ground (
          arith,
          default_key-differs service_name,
          e3,
          ap (λ x. funcs_of x key) e2,
          e4,
          beq_refl key,
        )

    -- Unsubscribing the last subscriber of a service tells the server and forgets the subscription,
    -- so that it is not repeated on a new connection; while others are left, nothing is sent and the
    -- subscription is kept.
    unsubscribe-sent :
        (c : NamingClient) (service_name group_name : Bytes) (clusters : List Bytes) (f : ℕ)
        → let after = (unsubscribe server http_ok now c service_name group_name clusters f).0 in
          let name = get_group_name service_name group_name in
          let key = get_service_cache_key name [] in
          let others = is_subscribed (subscribers after) name [] in
          (after.grpc.sent ≡ (
            if others
            then c.grpc.sent
            else c.grpc.sent ++ (unsubscribe_request service_name group_name [] ∷ [])))
          × (is_subscriber_cached after.grpc key ≡ (others && is_subscriber_cached c.grpc key))
    unfolding unsubscribe delegate_unsubscribe grpc_unsubscribe remove_subscriber_for_redo
        stop_update_if_contain is_subscriber_cached holder_is_subscribed deregister_callback
    unsubscribe-sent c service_name group_name clusters f =
        let name = get_group_name service_name group_name in
        let key = get_service_cache_key name [] in
        let left = remove_callback_func (subscribers c) name [] (wrapper_of clusters f) in
        elim (Bool-cases (is_subscribed left name [])) [
          | inl e ↦ (ground (arith, e), ground (arith, e))
          | inr e ↦ (
            ground (arith, e),
            ground (arith, e, cm.get-remove c.grpc.subscribes key key, beq_refl key),
          )
        ]
