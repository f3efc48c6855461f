-- ===== src/Naming/Updater.antt =====
-- clients/naming_client/service_info_updater.go: the periodic queries, which run in goroutines
-- beside the loop that starts them. One step of the loop, of a goroutine or of a push is an event.
pub mod Bounded
pub mod Fresh
use nacos_sdk_go.Common.{
  ℕ, suc, zero, ◌+◌, ◌-◌, ◌%◌, ◌^◌, ◌≤◌, ◌<◌, ◌≡◌, refl, Bool, true, false, List, [], ◌∷◌, Option,
  none, some, Bytes, Dict, lookup, insert, arith, length, get_elem?, ltb, if◌then◌else◌, bytes_eq,
}
use nacos_sdk_go.ConcurrentMap.{ConcurrentMap}
use nacos_sdk_go.Util.{Semaphore, new_semaphore, acquire, release}
use nacos_sdk_go.Model.{Service}
use nacos_sdk_go.Naming.Holder.{
  Holder, process_service, cache_key_of, store_service, is_out_of_date,
}

unfoldable pub remove_at {ℓ} : {A : Type ℓ} → List A → ℕ → List A
remove_at [] i = []
remove_at (x ∷ xs) zero = xs
remove_at (x ∷ xs) (suc i) = x ∷ remove_at xs i

module _ ⦃cm : ConcurrentMap⦄ where
  -- `range_left` is what `Range` has yet to visit, of the entries that the map had when it began;
  -- `waiting` is the service for which the loop acquires a place; `queries` are the goroutines that
  -- run, with the service that each one asks for.
  pub record ServiceInfoUpdater : Type 0 where
    pub service_info_holder : Holder
    pub sema : Semaphore
    pub range_left : Dict Bytes Service
    pub waiting : Option Service
    pub queries : List Service

  unfoldable pub new_service_info_updater : Holder → ℕ → ServiceInfoUpdater
  new_service_info_updater holder update_thread_num = record {
    service_info_holder = holder;
    sema = new_semaphore update_thread_num;
    range_left = [];
    waiting = none;
    queries = [];
  }

  -- The difference of the times is one of `uint64`s.
  unfoldable pub is_overdue : Holder → ℕ → Service → Bool
  is_overdue holder now service =
      let last_ref_time : ℕ = elim (lookup (cache_key_of service) holder.update_time_map) [
        | none ↦ 0
        | some time ↦ time
      ] in
      ltb service.cache_millis ((now + (2 ^ 64 - last_ref_time)) % (2 ^ 64))

  -- `updateServiceNow`; no answer is an error.
  unfoldable pub update_service_now :
      (Bytes → Bytes → Bytes → Option Service) → Holder → ℕ → Service → Holder
  update_service_now query holder now service =
      elim (query service.name service.group_name service.clusters) [
        | none ↦ holder
        | some result ↦ (process_service holder now (some result)).0
      ]

  -- The loop takes a new range, or visits the next entry of its range, or
  -- starts the query that it waits for; the i-th goroutine ends with
  -- what the server answers; a service is pushed.
  pub data Event : Type 0 where
    start_range : Event
    visit : ℕ → Event
    start_query : Event
    finish : ℕ → ℕ → (Bytes → Bytes → Bytes → Option Service) → Event
    pushed : ℕ → Option Service → Event

  unfoldable pub visit_entry : ServiceInfoUpdater → ℕ → Service → ServiceInfoUpdater
  visit_entry u now service =
      if is_overdue u.service_info_holder now service
      then record u { waiting = some service }
      else u

  unfoldable pub visit_next :
      ServiceInfoUpdater → ℕ → Dict Bytes Service → Option ServiceInfoUpdater
  unfolding visit_entry
  visit_next u now [] = none
  visit_next u now (entry ∷ entries) =
      some (visit_entry (record u { range_left = entries }) now entry.1)

  -- Without a free place the loop waits, which is no step.
  unfoldable pub begin_query : ServiceInfoUpdater → Service → Option ServiceInfoUpdater
  begin_query u service = elim (acquire u.sema) [
    | none ↦ none
    | some sema ↦ some record u { sema = sema; waiting = none; queries = service ∷ u.queries }
  ]

  unfoldable pub end_query :
      ServiceInfoUpdater
      → ℕ
      → ℕ
      → (Bytes → Bytes → Bytes → Option Service)
      → Service
      → Option ServiceInfoUpdater
  end_query u i now query service = elim (release u.sema) [
    | none ↦ none
    | some sema ↦ some record u {
      service_info_holder = update_service_now query u.service_info_holder now service;
      sema = sema;
      queries = remove_at u.queries i;
    }
  ]

  unfoldable pub next_range : ServiceInfoUpdater → Dict Bytes Service → Option ServiceInfoUpdater
  next_range u [] = some record u { range_left = u.service_info_holder.service_info_map }
  next_range u (entry ∷ entries) = none

  -- An event that cannot happen in a state has no result.
  unfoldable pub updater_step : ServiceInfoUpdater → Event → Option ServiceInfoUpdater
  unfolding next_range visit_next begin_query end_query
  updater_step u start_range = elim u.waiting [ none ↦ next_range u u.range_left | some _ ↦ none ]
  updater_step u (visit now) = elim u.waiting [
    | none ↦ visit_next u now u.range_left
    | some _ ↦ none
  ]
  updater_step u start_query = elim u.waiting [ none ↦ none | some service ↦ begin_query u service ]
  updater_step u (finish i now query) = elim (get_elem? u.queries i) [
    | none ↦ none
    | some service ↦ end_query u i now query service
  ]
  updater_step u (pushed now service) =
      some record u { service_info_holder = (process_service u.service_info_holder now service).0 }

  unfoldable pub async_update_service : ServiceInfoUpdater → List Event → Option ServiceInfoUpdater
  unfolding updater_step
  async_update_service u [] = some u
  async_update_service u (e ∷ es) = elim (updater_step u e) [
    | none ↦ none
    | some u' ↦ async_update_service u' es
  ]
