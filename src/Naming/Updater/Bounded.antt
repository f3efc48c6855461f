-- ===== src/Naming/Updater/Bounded.antt =====
-- How many queries of the updater run at once.
use nacos_sdk_go.Common.{
  ℕ, suc, zero, ◌≤◌, ◌<◌, ◌≡◌, refl, List, [], ◌∷◌, Dict, Option, some, Bytes, arith, length,
  get_elem?, Option-cases, inl, inr,
}
use nacos_sdk_go.ConcurrentMap.{ConcurrentMap}
use nacos_sdk_go.Util.{new_semaphore, acquire, release}
use nacos_sdk_go.Model.{Service}
use nacos_sdk_go.Naming.Holder.{Holder}
use nacos_sdk_go.Naming.Updater.{
  remove_at, ServiceInfoUpdater, new_service_info_updater, Event, start_range, visit, start_query,
  next_range, begin_query, finish, pushed, visit_entry, visit_next, end_query, updater_step,
  async_update_service,
}

length-remove_at {ℓ} :
    {A : Type ℓ} (xs : List A) (i : ℕ) (x : A)
    → get_elem? xs i ≡ some x
    → suc (length (remove_at xs i)) ≡ length xs
unfolding remove_at
length-remove_at [] i x h = ground (arith, h)
length-remove_at (y ∷ xs) zero x h = refl
length-remove_at (y ∷ xs) (suc i) x h = omega (arith, length-remove_at xs i x h)

get_elem-some {ℓ} :
    {A : Type ℓ} (xs : List A) (i : ℕ) → i < length xs → (x : A) × (get_elem? xs i ≡ some x)
get_elem-some [] i h = ground (arith, h)
get_elem-some (x ∷ xs) zero h = (x, refl)
get_elem-some (x ∷ xs) (suc i) h = get_elem-some xs i (omega (arith, h))

module _ ⦃cm : ConcurrentMap⦄ where
  -- Each running query holds one of the n places.
  abbrev pub HoldsPlaces : ℕ → ServiceInfoUpdater → Type 0
  HoldsPlaces n u = (u.sema.used ≡ length u.queries) × ((u.sema.used ≤ n) × (u.sema.buf_size ≡ n))

  next_range-HoldsPlaces :
      (n : ℕ) (u u' : ServiceInfoUpdater) (entries : Dict Bytes Service)
      → HoldsPlaces n u
      → next_range u entries ≡ some u'
      → HoldsPlaces n u'
  unfolding next_range
  next_range-HoldsPlaces n u u' [] v h = ground (arith, v, h)
  next_range-HoldsPlaces n u u' (entry ∷ entries) v h = ground (arith, h)

  visit_next-HoldsPlaces :
      (n : ℕ) (u u' : ServiceInfoUpdater) (now : ℕ) (entries : Dict Bytes Service)
      → HoldsPlaces n u
      → visit_next u now entries ≡ some u'
      → HoldsPlaces n u'
  unfolding visit_next visit_entry
  visit_next-HoldsPlaces n u u' now [] v h = ground (arith, h)
  visit_next-HoldsPlaces n u u' now (entry ∷ entries) v h = ground (arith, v, h)

  begin_query-HoldsPlaces :
      (n : ℕ) (u u' : ServiceInfoUpdater) (service : Service)
      → HoldsPlaces n u
      → begin_query u service ≡ some u'
      → HoldsPlaces n u'
  unfolding begin_query acquire
  begin_query-HoldsPlaces n u u' service v h = ground (arith, v, h)

  end_query-HoldsPlaces :
      (n : ℕ) (u u' : ServiceInfoUpdater) (i now : ℕ)
      (query : Bytes → Bytes → Bytes → Option Service) (service : Service)
      → HoldsPlaces n u
      → get_elem? u.queries i ≡ some service
      → end_query u i now query service ≡ some u'
      → HoldsPlaces n u'
  unfolding end_query release
  end_query-HoldsPlaces n u u' i now query service v e h =
      ground (arith, v, h, length-remove_at u.queries i service e)

  step-HoldsPlaces :
      (n : ℕ) (u u' : ServiceInfoUpdater) (e : Event)
      → HoldsPlaces n u
      → updater_step u e ≡ some u'
      → HoldsPlaces n u'
  unfolding updater_step
  step-HoldsPlaces n u u' start_range v h = elim (Option-cases u.waiting) [
    | inl e ↦ next_range-HoldsPlaces n u u' u.range_left v (ground (arith, e, h))
    | inr (service, e) ↦ ground (arith, e, h)
  ]
  step-HoldsPlaces n u u' (visit now) v h = elim (Option-cases u.waiting) [
    | inl e ↦ visit_next-HoldsPlaces n u u' now u.range_left v (ground (arith, e, h))
    | inr (service, e) ↦ ground (arith, e, h)
  ]
  step-HoldsPlaces n u u' start_query v h = elim (Option-cases u.waiting) [
    | inl e ↦ ground (arith, e, h)
    | inr (service, e) ↦ begin_query-HoldsPlaces n u u' service v (ground (arith, e, h))
  ]
  step-HoldsPlaces n u u' (finish i now query) v h = elim (Option-cases (get_elem? u.queries i)) [
    | inl e ↦ ground (arith, e, h)
    | inr (service, e) ↦ end_query-HoldsPlaces n u u' i now query service v e (ground (arith, e, h))
  ]
  step-HoldsPlaces n u u' (pushed now service) v h = ground (arith, v, h)

  can_end :
      (n : ℕ) (u : ServiceInfoUpdater) (i now : ℕ) (query : Bytes → Bytes → Bytes → Option Service)
      → HoldsPlaces n u
      → i < length u.queries
      → (u' : ServiceInfoUpdater) × (updater_step u (finish i now query) ≡ some u')
  unfolding updater_step end_query release
  can_end n u i now query v b =
      let (service, e) = get_elem-some u.queries i b in
      elim (Option-cases (updater_step u (finish i now query))) [
        | inl f ↦ absurd (ground (arith, v, b, e, f))
        | inr ended ↦ ended
      ]

  run-HoldsPlaces :
      (n : ℕ) (u u' : ServiceInfoUpdater) (es : List Event)
      → HoldsPlaces n u
      → async_update_service u es ≡ some u'
      → HoldsPlaces n u'
  unfolding async_update_service
  run-HoldsPlaces n u u' [] v h = ground (arith, v, h)
  run-HoldsPlaces n u u' (e ∷ es) v h = elim (Option-cases (updater_step u e)) [
    | inl f ↦ ground (arith, f, h)
    | inr (next, f) ↦
        run-HoldsPlaces n next u' es (step-HoldsPlaces n u next e v f) (ground (arith, f, h))
  ]

  -- However the loop, the queries and the pushes interleave, no more than `updateThreadNum` queries
  -- run at once, and each running query can end: it gives back a place that it holds.
  pub run-Bounded :
      (n : ℕ) (holder : Holder) (es : List Event) (u : ServiceInfoUpdater) (i now : ℕ)
      (query : Bytes → Bytes → Bytes → Option Service)
      → async_update_service (new_service_info_updater holder n) es ≡ some u
      → i < length u.queries
      → (length u.queries ≤ n)
        × ((u' : ServiceInfoUpdater) × (updater_step u (finish i now query) ≡ some u'))
  unfolding new_service_info_updater new_semaphore
  run-Bounded n holder es u i now query h b =
      let v =
        run-HoldsPlaces n (new_service_info_updater holder n) u es (refl, (omega arith, refl)) h in
      (omega (arith, v), can_end n u i now query v b)
