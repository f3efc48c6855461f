-- ===== src/Naming/Grpc/Redo.antt =====
-- What `OnConnected` sends: every subscription and every registration that is kept, once each.
use mathlib.Core.List.{append_assoc, append-nil}
use nacos_sdk_go.Common.{
  ℕ, ◌≡◌, refl, sym, ◌∙◌, List, [], ◌∷◌, ◌++◌, some, arith, Bytes, All, map, bytes_eq, beq_refl,
}
use nacos_sdk_go.ConcurrentMap.{ConcurrentMap, get, items, set_key}
use nacos_sdk_go.Util.{get_group_name, at_sign}
use nacos_sdk_go.Util.Split.{Lacks}
use nacos_sdk_go.Model.{Instance}
use nacos_sdk_go.Naming.Grpc.{
  GrpcProxy, Request, Reply, Registered, single, batch, subscribe_request,
  register_instance_request, batch_register_request, redo_subscribe_key, redo_subscribe_keys,
  redo_subscribe, redo_register_key, redo_register_items, redo_register_each_service, on_connected,
  redo_subscription, grpc_register_instance, grpc_batch_register_instance,
}
use nacos_sdk_go.Naming.Grpc.Keys.{
  Target, IsPlain, key_of, split_pair-key_of, split_pair-get_group_name, parts,
}

abbrev pub subscription : Target → Request
subscription t = subscribe_request t.service t.group t.clusters

-- A registration, under the key that `CacheInstanceForRedo` gives it.
pub record Registration : Type 0 where
  pub service : Bytes
  pub group : Bytes
  pub value : Registered

abbrev pub entry_of : Registration → Bytes × Registered
entry_of r = (get_group_name r.service r.group, r.value)

abbrev registering : Bytes → Bytes → Registered → Request
registering service group (single instance') = register_instance_request service group instance'
registering service group (batch instances) = batch_register_request service group instances

abbrev pub registration : Registration → Request
registration r = registering r.service r.group r.value

pub record IsPlainName (r : Registration) : Type 0 where
  pub service : Lacks at_sign r.service
  pub group : Lacks at_sign r.group

module _ ⦃cm : ConcurrentMap⦄ (server : Request → Reply) where
  redo_subscription-sent :
      (c : GrpcProxy) (now : ℕ) (t : Target)
      → ((redo_subscription server c now t.service t.group t.clusters).sent
          ≡ c.sent ++ (subscription t ∷ []))
        × ((redo_subscription server c now t.service t.group t.clusters).registered_instance_cached
            ≡ c.registered_instance_cached)
  unfolding redo_subscription
  redo_subscription-sent c now t = (ground arith, ground arith)

  redo_subscribe_key-parts :
      (c : GrpcProxy) (now : ℕ) (service group clusters : Bytes)
      → redo_subscribe_key server c now (group ∷ service ∷ parts clusters)
        ≡ some (redo_subscription server c now service group clusters)
  unfolding redo_subscribe_key
  redo_subscribe_key-parts c now service group [] = refl
  redo_subscribe_key-parts c now service group (b ∷ clusters) = refl

  -- Over keys that name targets the loop ends, sends one request for each, and leaves the
  -- registrations.
  redo_subscribe_keys-sent :
      (c : GrpcProxy) (now : ℕ) (ts : List Target)
      → All IsPlain ts
      → (c' : GrpcProxy) × (redo_subscribe_keys server c now (map key_of ts) ≡ some c')
        × (c'.sent ≡ c.sent ++ map subscription ts)
        × (c'.registered_instance_cached ≡ c.registered_instance_cached)
  unfolding redo_subscribe_keys
  redo_subscribe_keys-sent c now [] p = (c, refl, sym (append-nil c.sent), refl)
  redo_subscribe_keys-sent c now (t ∷ ts) p =
      let c1 = redo_subscription server c now t.service t.group t.clusters in
      let (s1, r1) = redo_subscription-sent c now t in
      let (c', e, s, r) = redo_subscribe_keys-sent c1 now ts p.1 in
      (
        c',
        ground (
          arith,
          split_pair-key_of t p.0,
          redo_subscribe_key-parts c now t.service t.group t.clusters,
          e,
        ),
        s ∙ rw s1 (append_assoc c.sent (subscription t ∷ []) (map subscription ts)),
        r ∙ r1,
      )

  redo_register_key-sent :
      (c : GrpcProxy) (group service : Bytes) (v : Registered)
      → (c' : GrpcProxy) × (redo_register_key server c (group ∷ service ∷ []) v ≡ some c')
        × (c'.sent ≡ c.sent ++ (registering service group v ∷ []))
  unfolding redo_register_key
  redo_register_key-sent c group service (single instance') =
      ((grpc_register_instance server c service group instance').0, refl, refl)
  redo_register_key-sent c group service (batch instances) =
      ((grpc_batch_register_instance server c service group instances).0, refl, refl)

  redo_register_items-sent :
      (c : GrpcProxy) (rs : List Registration)
      → All IsPlainName rs
      → (c' : GrpcProxy) × (redo_register_items server c (map entry_of rs) ≡ some c')
        × (c'.sent ≡ c.sent ++ map registration rs)
  unfolding redo_register_items
  redo_register_items-sent c [] p = (c, refl, sym (append-nil c.sent))
  redo_register_items-sent c (r ∷ rs) p =
      let (c1, e1, s1) = redo_register_key-sent c r.group r.service r.value in
      let (c', e, s) = redo_register_items-sent c1 rs p.1 in
      (
        c',
        ground (arith, split_pair-get_group_name r.service r.group p.0.service p.0.group, e1, e),
        s ∙ rw s1 (append_assoc c.sent (registration r ∷ []) (map registration rs)),
      )

  -- On a new connection every subscription and then every registration that is kept is sent once,
  -- whatever the server answers, where no name has an `@`.
  pub on_connected-sent :
      (c : GrpcProxy) (now : ℕ) (ts : List Target) (rs : List Registration)
      → map (λ e. e.0) (items c.subscribes) ≡ map key_of ts
      → items c.registered_instance_cached ≡ map entry_of rs
      → All IsPlain ts
      → All IsPlainName rs
      → (c' : GrpcProxy) × (on_connected server c now ≡ some c')
        × (c'.sent ≡ c.sent ++ (map subscription ts ++ map registration rs))
  unfolding on_connected redo_subscribe redo_register_each_service
  on_connected-sent c now ts rs ks es pt pr =
      let (c1, e1, s1, r1) = redo_subscribe_keys-sent c now ts pt in
      let (c', e, s) = redo_register_items-sent c1 rs pr in
      (
        c',
        ground (arith, ks, e1, r1, es, e),
        s ∙ rw s1 (append_assoc c.sent (map subscription ts) (map registration rs)),
      )

  -- A second registration for a service takes the place of the first: only the last one is kept,
  -- and only it will be sent again.
  pub register_twice :
      (c : GrpcProxy) (service group : Bytes) (first second : Instance)
      → let c' =
          (grpc_register_instance server
            (grpc_register_instance server c service group first).0
            service
            group
            second).0 in
        get c'.registered_instance_cached (get_group_name service group) ≡ some (single second)
  unfolding grpc_register_instance
  register_twice c service group first second =
      let k = get_group_name service group in
      rw (cm.get-set (set_key c.registered_instance_cached k (single first)) k (single second) k)
        (rw (beq_refl k))
