-- ===== src/Naming/Holder/Changes.antt =====
-- When the subscribers of a service are called: `isServiceInstanceChanged`, the sort under it, and
-- what registering and deregistering a callback changes.
use mathlib.Core.List.{Perm, map-append, append-nil}
use mathlib.Core.List.Perm
use nacos_sdk_go.Common.{
  ℕ, ◌≤◌, ◌≡◌, ◌≢◌, ap, sym, ◌∙◌, Option, none, Bool-cases, inl, inr, Dict, lookup, length, Bool,
  true, false, ◌&&◌, not, List, [], ◌∷◌, ◌++◌, map, some, arith, Bytes, bytes_beq_iff, bytes_eq,
  ◌==◌, if◌then◌else◌, All, filter_by-All', filter_by-append, go_sort-perm,
}
use nacos_sdk_go.ConcurrentMap.{ConcurrentMap}
use nacos_sdk_go.Util.{get_service_cache_key}
use nacos_sdk_go.Model.{
  Service, Instance, instances_equal, instance_equal, metadata_equal, entries_in, entry_beq,
}
use nacos_sdk_go.Naming.Selector.{Wrapper, Notification, notify_listener, selector_equals}
use nacos_sdk_go.Naming.Callbacks.{
  SubscribeCallback, funcs_of, add_callback_func, remove_callback_func, service_changed, keeps,
  funcs_of-add, funcs_of-remove,
}
use nacos_sdk_go.Naming.Holder.{
  Holder, Effect, wrote, notified, gauge, process_service, cache_key_of, is_out_of_date,
  store_service, less, sort_instance, is_service_instance_changed, check_instance_changed,
  changed_effects, register_callback,
}
use nacos_sdk_go.Naming.Holder.Process.{cached, passes}

sort_instance-perm : (xs : List Instance) → Perm (sort_instance xs) xs
unfolding sort_instance
sort_instance-perm xs = go_sort-perm less xs

-- The fields of an instance, but for its metadata.
abbrev pub Face : Type 0
Face = Bytes × Bytes × ℕ × ℕ × Bool × Bool × Bool × Bytes × Bytes × ℕ × ℕ × ℕ

abbrev pub face : Instance → Face
face i = (
  i.instance_id, i.ip, i.port, i.weight, i.healthy, i.enable, i.ephemeral, i.cluster_name,
  i.service_name, i.instance_heart_beat_interval, i.ip_delete_timeout,
  i.instance_heart_beat_time_out,
)

-- Two instances with the same fields, and with metadata of as many entries that have the same values.
abbrev pub Same : Instance → Instance → Type 0
Same a b =
    (face a ≡ face b)
    × (length a.metadata ≡ length b.metadata)
    × ((k v : Bytes) → lookup k a.metadata ≡ some v → lookup k b.metadata ≡ some v)

abbrev pub AllSame : List Instance → List Instance → Type 0
AllSame [] [] = Unit
AllSame [] (y ∷ ys) = ⊥
AllSame (x ∷ xs) [] = ⊥
AllSame (x ∷ xs) (y ∷ ys) = Same x y × AllSame xs ys

entry_beq-some : (o : Option Bytes) (v : Bytes) → entry_beq o v ≡ true → o ≡ some v
unfolding entry_beq
entry_beq-some none v h = cc
entry_beq-some (some w) v h = ap some ((bytes_beq_iff w v).0 h)

entries_in-lookup :
    (n m : Dict Bytes Bytes) (k v : Bytes)
    → entries_in n m ≡ true
    → lookup k n ≡ some v
    → lookup k m ≡ some v
unfolding entries_in lookup
entries_in-lookup [] m k v h e = cc
entries_in-lookup ((j, w) ∷ n) m k v h e = elim (Bool-cases (j == k)) [
  | inl same ↦
      let here = entry_beq-some (lookup j m) w (ground (arith, h)) in
      let found : some w ≡ some v = ground (arith, e, same) in
      ap (λ i. lookup i m) (sym ((bytes_beq_iff j k).0 same)) ∙ (here ∙ found)
  | inr other ↦ entries_in-lookup n m k v (ground (arith, h)) (ground (arith, e, other))
]

instance_equal-Same : (a b : Instance) → instance_equal a b ≡ true → Same a b
unfolding instance_equal metadata_equal
instance_equal-Same a b h = (
  ground (
    arith,
    bytes_beq_iff a.instance_id b.instance_id,
    bytes_beq_iff a.ip b.ip,
    bytes_beq_iff a.cluster_name b.cluster_name,
    bytes_beq_iff a.service_name b.service_name,
  ),
  ground (arith, h),
  λ k v. entries_in-lookup a.metadata b.metadata k v (ground (arith, h)),
)

instances_equal-AllSame : (xs ys : List Instance) → instances_equal xs ys ≡ true → AllSame xs ys
unfolding instances_equal
instances_equal-AllSame [] [] h = tt
instances_equal-AllSame [] (y ∷ ys) h = cc
instances_equal-AllSame (x ∷ xs) [] h = cc
instances_equal-AllSame (x ∷ xs) (y ∷ ys) h =
    (instance_equal-Same x y (ground (arith, h)), instances_equal-AllSame xs ys (ground (arith, h)))

-- Where a service that is not older is taken for unchanged, its hosts and the old ones can each be put
-- in an order in which they are the same one by one, in all their fields and their metadata.
pub unchanged-perm :
    (old_service new_service : Service)
    → old_service.last_ref_time ≤ new_service.last_ref_time
    → is_service_instance_changed old_service new_service ≡ false
    → (xs : List Instance) × (ys : List Instance) × Perm old_service.hosts xs
      × Perm new_service.hosts ys
      × AllSame xs ys
unfolding is_service_instance_changed
unchanged-perm old_service new_service newer h =
    let xs = sort_instance old_service.hosts in
    let ys = sort_instance new_service.hosts in
    let e : instances_equal xs ys ≡ true = ground arith in
    (
      xs,
      ys,
      Perm.symm (sort_instance-perm old_service.hosts),
      Perm.symm (sort_instance-perm new_service.hosts),
      instances_equal-AllSame xs ys e,
    )

-- The order under the sort is not one: of two hosts, each can be `Less` than the other, and then
-- the same two hosts in the other order are taken for a change.
pub reordered_hosts_changed :
    (a b : Instance) (old_service new_service : Service)
    → old_service.hosts ≡ a ∷ b ∷ []
    → new_service.hosts ≡ b ∷ a ∷ []
    → less a b ≡ true
    → less b a ≡ true
    → a.ip ≢ b.ip
    → old_service.last_ref_time ≤ new_service.last_ref_time
    → is_service_instance_changed old_service new_service ≡ true
unfolding is_service_instance_changed sort_instance instances_equal instance_equal
reordered_hosts_changed a b old_service new_service p q ab ba differ newer =
    ground (arith, bytes_beq_iff b.ip a.ip)

-- The subscriber calls among the effects.
pub calls_of : List Effect → List Notification
calls_of [] = []
calls_of (wrote key service ∷ effects) = calls_of effects
calls_of (notified calls ∷ effects) = calls ++ calls_of effects
calls_of (gauge n ∷ effects) = calls_of effects

module _ ⦃cm : ConcurrentMap⦄ where
  -- Whether a service is taken in and differs from what is cached.
  abbrev pub is_news : Holder → Service → Bool
  is_news s service =
      let old_domain = cached s (cache_key_of service) in
      passes s service
      && not (is_out_of_date old_domain service)
      && check_instance_changed old_domain service

  process_calls :
      (s : Holder) (now : ℕ) (service : Service)
      → calls_of (process_service s now (some service)).1 ≡ (
          if is_news s service
          then map (λ w. notify_listener w service) (funcs_of s.sub_callback (cache_key_of service))
          else [])
  unfolding process_service calls_of changed_effects store_service service_changed funcs_of
  process_calls s now service =
      ground (arith, append-nil (service_changed s.sub_callback (cache_key_of service) service))

  -- A registered subscriber is called for the news of its own service, after those registered
  -- before it, and for nothing else.
  pub register-process :
      (s : Holder) (service_name clusters : Bytes) (w : Wrapper) (now : ℕ) (service : Service)
      → calls_of
          (process_service (register_callback s service_name clusters w) now (some service)).1
        ≡ (if is_news s service
              && (get_service_cache_key service_name clusters == cache_key_of service)
            then calls_of (process_service s now (some service)).1
              ++ (notify_listener w service ∷ [])
            else calls_of (process_service s now (some service)).1)
  unfolding register_callback
  register-process s service_name clusters w now service =
      let key = cache_key_of service in
      rw (process_calls (register_callback s service_name clusters w) now service) (
        rw (process_calls s now service) (
          ground (
            arith,
            funcs_of-add s.sub_callback service_name clusters w key,
            map-append (λ (w : Wrapper). notify_listener w service) (funcs_of s.sub_callback key)
                (w ∷ []),
          )))

  keeps_self : (w : Wrapper) → keeps w w ≡ false
  unfolding selector_equals
  keeps_self w = ground (arith, bytes_beq_iff w.selector.cluster_names w.selector.cluster_names)

  -- A subscriber that was not there is gone without a trace after it is removed, and no other is.
  pub funcs_of-remove-add :
      (ed : SubscribeCallback) (service_name clusters : Bytes) (w : Wrapper) (key : Bytes)
      → All (λ x. keeps w x ≡ true) (funcs_of ed (get_service_cache_key service_name clusters))
      → funcs_of
          (remove_callback_func
            (add_callback_func ed service_name clusters w)
            service_name
            clusters
            w)
          key
        ≡ funcs_of ed key
  funcs_of-remove-add ed service_name clusters w key h =
      let k = get_service_cache_key service_name clusters in
      rw
        (
          funcs_of-remove (add_callback_func ed service_name clusters w) service_name clusters w
              key,
          funcs_of-add ed service_name clusters w key,
        )
        (ground (
          arith,
          bytes_beq_iff k key,
          keeps_self w,
          filter_by-append (keeps w) (funcs_of ed k) (w ∷ []),
          filter_by-All' (keeps w) (funcs_of ed k) h,
          append-nil (funcs_of ed k),
        ))
