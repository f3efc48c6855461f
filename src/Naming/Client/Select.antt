-- ===== src/Naming/Client/Select.antt =====
-- Which instances the naming client hands out.
use mathlib.Core.List.{Mem, mem-cons_self, mem-cons_of_mem}
use mathlib.Core.List.Perm
use nacos_sdk_go.Common.{
  ℕ, ◌+◌, ◌≤◌, ◌<◌, ◌≡◌, refl, ◌↔◌, Bool, true, false, List, [], ◌∷◌, arith, bytes_eq, length,
  nat_beq, filter_by, mem-filter_by, All, go_sort, go_sort-perm,
}
use nacos_sdk_go.Model.{Instance, Service}
use nacos_sdk_go.Naming.Chooser.{new_chooser, pick, pick_total, int_weight, total_from, lighter}
use nacos_sdk_go.Naming.Choice.{ok, panics, select_healthy, select_one_healthy, selectable}

-- An instance that may be handed out: of the wanted health, enabled, and with a weight.
abbrev pub IsSelectable : Bool → Instance → Type 0
IsSelectable healthy i = (i.healthy ≡ healthy) × (i.enable ≡ true) × (0 < i.weight)

selectable_iff :
    (healthy : Bool) (i : Instance) → (selectable healthy i ≡ true) ↔ IsSelectable healthy i
selectable_iff true i = (λ h. (ground arith, ground arith, ground arith), λ h. ground arith)
selectable_iff false i = (λ h. (ground arith, ground arith, ground arith), λ h. ground arith)

-- `SelectInstances` returns exactly the selectable instances of the service.
pub mem-select_healthy :
    (service : Service) (healthy : Bool) (result : List Instance) (i : Instance)
    → select_healthy service healthy ≡ ok result
    → Mem i result ↔ (Mem i service.hosts × IsSelectable healthy i)
unfolding select_healthy
mem-select_healthy service healthy result i h =
    let e : result ≡ filter_by (selectable healthy) service.hosts = ground arith in
    let m = mem-filter_by (selectable healthy) i service.hosts in
    rw e (
      λ x. ((m.0 x).0, (selectable_iff healthy i).0 (m.0 x).1),
      λ x. m.1 (x.0, (selectable_iff healthy i).1 x.1),
    )

-- `SelectOneHealthyInstance` only ever returns a healthy and enabled instance of the service, with
-- a weight of at least 1.
select_one_healthy_sound :
    (service : Service) (draw : ℕ) (i : Instance)
    → draw < (new_chooser (filter_by (selectable true) service.hosts)).max
    → select_one_healthy service draw ≡ ok i
    → Mem i service.hosts × IsSelectable true i × (1 ≤ int_weight i)
unfolding select_one_healthy
select_one_healthy_sound service draw i d h =
    let eligible = filter_by (selectable true) service.hosts in
    let (j, p, m, w) = pick_total eligible draw d in
    let e : j ≡ i = ground (arith, p) in
    let x = (mem-filter_by (selectable true) i service.hosts).0 (rw e at m) in
    (x.0, (selectable_iff true i).0 x.1, rw e at w)

filter_by-nonempty :
    (p : Instance → Bool) (xs : List Instance)
    → nat_beq (length (filter_by p xs)) 0 ≡ false
    → nat_beq (length xs) 0 ≡ false
filter_by-nonempty p [] h = h
filter_by-nonempty p (x ∷ xs) h = ground arith

-- `SelectOneHealthyInstance` returns an instance for every draw that `rand.Intn` can give, if some
-- instance is selectable.
pub select_one_healthy_total :
    (service : Service) (draw : ℕ)
    → nat_beq (length (filter_by (selectable true) service.hosts)) 0 ≡ false
    → draw < (new_chooser (filter_by (selectable true) service.hosts)).max
    → (i : Instance) × (select_one_healthy service draw ≡ ok i)
unfolding select_one_healthy
select_one_healthy_total service draw some_left d =
    let eligible = filter_by (selectable true) service.hosts in
    let (j, p, m, w) = pick_total eligible draw d in
    (j, ground (arith, p, filter_by-nonempty (selectable true) service.hosts))

total_from_light :
    (running : ℕ) (xs : List Instance)
    → All (λ i. i.weight < 1000) xs
    → total_from running xs ≡ running
unfolding total_from
total_from_light running [] h = refl
total_from_light running (x ∷ xs) h =
    let e : running + int_weight x ≡ running = omega arith in rw e (total_from_light running xs h.1)

All-of_mem :
    (P : Instance → Type 0) (xs : List Instance) → ((i : Instance) → Mem i xs → P i) → All P xs
All-of_mem P [] h = tt
All-of_mem P (x ∷ xs) h = (h x mem-cons_self, All-of_mem P xs (λ i m. h i (mem-cons_of_mem x m)))

-- The total weight of instances that are all lighter than 1 is 0.
light-max :
    (xs : List Instance) → ((i : Instance) → Mem i xs → i.weight < 1000) → (new_chooser xs).max ≡ 0
unfolding new_chooser
light-max xs h = total_from_light 0 (go_sort lighter xs) (
    All-of_mem (λ i. i.weight < 1000) (go_sort lighter xs)
      (λ i m. h i (Perm.subset (go_sort-perm lighter xs) i m)))

-- When the healthy and enabled instances with a weight above 0 all have a weight below 1, and there is
-- one, the call panics: the weights are cut to integers, and `rand.Intn` is called with 0.
pub select_one_healthy_panics :
    (service : Service) (draw : ℕ)
    → nat_beq (length (filter_by (selectable true) service.hosts)) 0 ≡ false
    → ((i : Instance) → Mem i service.hosts → selectable true i ≡ true → i.weight < 1000)
    → select_one_healthy service draw ≡ panics
unfolding select_one_healthy pick
select_one_healthy_panics service draw some_left light =
    let eligible = filter_by (selectable true) service.hosts in
    let e = light-max eligible (λ i m.
      let (here, fits) = (mem-filter_by (selectable true) i service.hosts).0 m in
      light i here fits) in
    ground (arith, some_left, filter_by-nonempty (selectable true) service.hosts, e)
