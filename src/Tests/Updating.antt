-- ===== src/Tests/Updating.antt =====
-- The periodic updater, at concrete inputs.
use nacos_sdk_go.Common.{
  ◌≡◌, ◌≤◌, refl, List, [], ◌∷◌, Option, some, Bytes, arith, length, lookup, insert, bytes_beq,
  bytes_eq,
}
use nacos_sdk_go.Util.{get_group_name, get_service_cache_key, new_semaphore, acquire}
use nacos_sdk_go.Model.{Service}
use nacos_sdk_go.Naming.Holder.{
  Holder, process_service, cache_key_of, store_service, is_out_of_date,
}
use nacos_sdk_go.Naming.Updater.{
  ServiceInfoUpdater, new_service_info_updater, is_overdue, Event, start_range, visit, start_query,
  next_range, begin_query, finish, visit_entry, visit_next, updater_step, async_update_service,
}
use nacos_sdk_go.Naming.Updater.Bounded.{run-Bounded}
use nacos_sdk_go.Tests.Data.{concrete, host_a, service_at, holder}

abbrev old : Service
old = service_at 4 (host_a ∷ [])

abbrev asked_holder : Holder
asked_holder = (process_service holder 1 (some old)).0

abbrev new_answer : Bytes → Bytes → Bytes → Option Service
new_answer name group clusters = some (service_at 9 (host_a ∷ []))

abbrev one_pass : List Event
one_pass = start_range ∷ visit 90_000 ∷ start_query ∷ []

abbrev asking : ServiceInfoUpdater
asking = record (new_service_info_updater asked_holder 5) {
  sema = record { buf_size = 5; used = 1 };
  queries = old ∷ [];
}

run-Bounded_example :
    (length asking.queries ≤ 5)
    × ((u' : ServiceInfoUpdater) × (updater_step asking (finish 0 91_000 new_answer) ≡ some u'))
unfolding async_update_service updater_step next_range begin_query visit_next visit_entry is_overdue
    acquire new_service_info_updater new_semaphore process_service store_service lookup insert
    bytes_beq cache_key_of get_service_cache_key get_group_name is_out_of_date
run-Bounded_example =
    run-Bounded 5 asked_holder one_pass asking 0 91_000 new_answer refl (omega arith)
