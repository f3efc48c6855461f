-- ===== src/Naming/Holder/Process.antt =====
-- `ProcessService` over any history of pushes, queries and redone subscriptions.
use nacos_sdk_go.Common.{
  ℕ, suc, ◌≤◌, ◌<◌, ◌≡◌, refl, ◌⊎◌, inl, inr, ◌∙◌, Bool, true, false, ◌&&◌, ◌||◌, not, List, [],
  ◌∷◌, ◌++◌, Option, none, some, arith, Bytes, bytes_beq_iff, bytes_eq, ◌==◌, lookup, lookup-insert,
  length, nat_beq, if◌then◌else◌, Bool-cases, subst,
}
use nacos_sdk_go.ConcurrentMap.{ConcurrentMap}
use nacos_sdk_go.Model.{Service}
use nacos_sdk_go.Naming.Holder.{
  Holder, process_service, cache_key_of, is_out_of_date, store_service,
}

module _ ⦃cm : ConcurrentMap⦄ where
  -- A call of `ProcessService`: the time, and the service or nil.
  abbrev pub Call : Type 0
  Call = ℕ × Option Service

  unfoldable pub run : Holder → List Call → Holder
  run s [] = s
  run s (c ∷ cs) = run (process_service s c.0 c.1).0 cs

  -- 0 for a key that is not cached, else one more than the `LastRefTime` of what is cached.
  abbrev pub version : Option Service → ℕ
  version none = 0
  version (some service) = suc service.last_ref_time

  abbrev pub cached : Holder → Bytes → Option Service
  cached s key = lookup key s.service_info_map

  -- Whether the guard against empty lists lets a service pass.
  abbrev pub passes : Holder → Service → Bool
  passes s service = s.update_cache_when_empty || not (nat_beq (length service.hosts) 0)

  pub process_cached :
      (s : Holder) (now : ℕ) (service : Service) (key : Bytes)
      → cached (process_service s now (some service)).0 key ≡ (
          if passes s service && not (is_out_of_date (cached s (cache_key_of service)) service)
          then (if cache_key_of service == key then some service else cached s key)
          else cached s key)
  unfolding process_service store_service
  process_cached s now service key =
      ground (arith, lookup-insert (cache_key_of service) key service s.service_info_map)

  pub process_policy :
      (s : Holder) (now : ℕ) (o : Option Service)
      → (process_service s now o).0.update_cache_when_empty ≡ s.update_cache_when_empty
  unfolding process_service store_service
  process_policy s now o = ground arith

  step_version :
      (s : Holder) (c : Call) (key : Bytes)
      → version (cached s key) ≤ version (cached (process_service s c.0 c.1).0 key)
  unfolding process_service is_out_of_date
  step_version s (now, none) key = omega arith
  step_version s (now, some service) key = ground (
    arith,
    lookup-insert (cache_key_of service) key service s.service_info_map,
    process_cached s now service key,
    bytes_beq_iff (cache_key_of service) key,
  )

  -- What is cached for a key never gets older, whatever is processed, and never disappears.
  pub version-run :
      (s : Holder) (cs : List Call) (key : Bytes)
      → version (cached s key) ≤ version (cached (run s cs) key)
  unfolding run
  version-run s [] key = omega arith
  version-run s (c ∷ cs) key =
      omega (arith, step_version s c key, version-run (process_service s c.0 c.1).0 cs key)

  run-append : (s : Holder) (cs ds : List Call) → run s (cs ++ ds) ≡ run (run s cs) ds
  unfolding run
  run-append s [] ds = refl
  run-append s (c ∷ cs) ds = run-append (process_service s c.0 c.1).0 cs ds

  run_policy :
      (s : Holder) (cs : List Call) → (run s cs).update_cache_when_empty ≡ s.update_cache_when_empty
  unfolding run
  run_policy s [] = refl
  run_policy s (c ∷ cs) = run_policy (process_service s c.0 c.1).0 cs ∙ process_policy s c.0 c.1

  step_stored :
      (s : Holder) (now : ℕ) (service : Service)
      → passes s service ≡ true
      → suc service.last_ref_time
        ≤ version (cached (process_service s now (some service)).0 (cache_key_of service))
  unfolding is_out_of_date
  step_stored s now service h = ground (
    arith,
    process_cached s now service (cache_key_of service),
    bytes_beq_iff (cache_key_of service) (cache_key_of service),
  )

  -- Whatever else is processed before and after, what is cached for a service that passed the
  -- empty-list guard is at least as new as that service.
  run_newest :
      (s : Holder) (before after : List Call) (now : ℕ) (service : Service)
      → passes s service ≡ true
      → suc service.last_ref_time
        ≤ version (cached (run s (before ++ ((now, some service) ∷ after))) (cache_key_of service))
  unfolding run
  run_newest s before after now service h =
      let s' = run s before in
      let e : passes s' service ≡ true = rw (run_policy s before) h in
      rw (run-append s before ((now, some service) ∷ after)) (
        omega (
          arith,
          step_stored s' now service e,
          version-run (process_service s' now (some service)).0 after (cache_key_of service),
        ))

  -- A service stands among the calls, under the given key.
  abbrev pub Processed : Bytes → Service → List Call → Type 0
  Processed key o [] = ⊥
  Processed key o (c ∷ cs) = ((c.1 ≡ some o) × (cache_key_of o ≡ key)) ⊎ Processed key o cs

  in_date-version :
      (o : Option Service) (service : Service)
      → is_out_of_date o service ≡ false
      → version o < suc service.last_ref_time
  unfolding is_out_of_date
  in_date-version none service h = omega arith
  in_date-version (some old) service h = ground (arith, h)

  -- A step leaves what is cached for a key, or puts a service there that is newer than that.
  pub step-kept_or_newer :
      (s : Holder) (c : Call) (key : Bytes)
      → let old = cached s key in
        let new = cached (process_service s c.0 c.1).0 key in
        (new ≡ old)
        ⊎ ((service : Service) × (c.1 ≡ some service)
            × (cache_key_of service ≡ key)
            × (new ≡ some service)
            × (version old < suc service.last_ref_time))
  unfolding process_service
  step-kept_or_newer s (now, none) key = inl refl
  step-kept_or_newer s (now, some service) key =
      let old = cached s (cache_key_of service) in
      let stored = process_cached s now service key in
      elim (Bool-cases (passes s service && not (is_out_of_date old service))) [
        | inr kept ↦ inl (stored ∙ rw kept refl)
        | inl taken ↦ elim (Bool-cases (cache_key_of service == key)) [
          | inr other ↦ inl (stored ∙ rw (taken, other) refl)
          | inl same ↦
              let k = (bytes_beq_iff (cache_key_of service) key).0 same in
              let newer = in_date-version old service (ground (arith, taken)) in
              inr (
                service,
                refl,
                k,
                stored ∙ rw (taken, same) refl,
                subst (λ j. version (cached s j) < suc service.last_ref_time) k newer,
              )
        ]
      ]

  step_origin :
      (s : Holder) (c : Call) (key : Bytes) (o : Service)
      → cached (process_service s c.0 c.1).0 key ≡ some o
      → (cached s key ≡ some o) ⊎ ((c.1 ≡ some o) × (cache_key_of o ≡ key))
  unfolding process_service
  step_origin s (now, none) key o h = inl h
  step_origin s (now, some service) key o h =
      ground (arith, process_cached s now service key, bytes_beq_iff (cache_key_of service) key)

  -- Nothing is made up: what is cached was cached before, or was processed under its own key.
  run_origin :
      (s : Holder) (cs : List Call) (key : Bytes) (o : Service)
      → cached (run s cs) key ≡ some o
      → (cached s key ≡ some o) ⊎ Processed key o cs
  unfolding run
  run_origin s [] key o h = inl h
  run_origin s (c ∷ cs) key o h = elim (run_origin (process_service s c.0 c.1).0 cs key o h) [
    | inr later ↦ inr (inr later)
    | inl e ↦ elim (step_origin s c key o e) [ inl old ↦ inl old | inr here ↦ inr (inl here) ]
  ]

  -- No service is cached with an empty list of instances.
  unfoldable pub HasHosts : Holder → Type 0
  HasHosts s = (key : Bytes) (o : Service) → cached s key ≡ some o → 0 < length o.hosts

  step-HasHosts :
      (s : Holder) (c : Call)
      → s.update_cache_when_empty ≡ false
      → HasHosts s
      → HasHosts (process_service s c.0 c.1).0
  unfolding HasHosts process_service
  step-HasHosts s (now, none) off v key o h = v key o h
  step-HasHosts s (now, some service) off v key o h =
      ground (arith, process_cached s now service key, v key o)

  -- With `updateCacheWhenEmpty` off, no service is ever cached with an empty list of instances, if none
  -- was before.
  run-HasHosts :
      (s : Holder) (cs : List Call)
      → s.update_cache_when_empty ≡ false
      → HasHosts s
      → HasHosts (run s cs)
  unfolding run
  run-HasHosts s [] off v = v
  run-HasHosts s (c ∷ cs) off v =
      run-HasHosts (process_service s c.0 c.1).0 cs (process_policy s c.0 c.1 ∙ off)
        (step-HasHosts s c off v)
