-- ===== src/Tests/Selecting.antt =====
-- The choice of instances, at concrete inputs.
use mathlib.Core.Bool.{Bool-set}
use mathlib.Core.Logic.Or
use mathlib.Core.List.{Mem, mem-cons, not-mem-nil}
use nacos_sdk_go.Common.{
  ◌≡◌, ◌<◌, ◌↔◌, ap, ltb, ltb→lt, refl, true, [], ◌∷◌, some, arith, go_sort, sort_from, sink,
}
use nacos_sdk_go.Model.{Instance, Service}
use nacos_sdk_go.Naming.Chooser.{new_chooser, pick, pick_by_weight, total_from, lighter}
use nacos_sdk_go.Naming.Choice.{selectable, select_healthy, select_one_healthy, ok, panics}
use nacos_sdk_go.Naming.Client.Select.{
  IsSelectable, mem-select_healthy, select_one_healthy_total, select_one_healthy_panics,
}
use nacos_sdk_go.Tests.Data.{host_a, host_b, light_host, service_at}

abbrev two : Service
two = service_at 4 (host_a ∷ host_b ∷ [])

pick_by_weight_example : pick (new_chooser (host_a ∷ host_b ∷ [])) 2 ≡ some host_a
unfolding go_sort sort_from sink total_from lighter
pick_by_weight_example =
    pick_by_weight (host_a ∷ host_b ∷ []) (host_b ∷ []) [] host_a 2 refl (omega arith) (omega arith)

mem-select_healthy_example :
    Mem host_a (host_a ∷ host_b ∷ []) ↔ (Mem host_a two.hosts × IsSelectable true host_a)
unfolding select_healthy
mem-select_healthy_example = mem-select_healthy two true (host_a ∷ host_b ∷ []) host_a refl

select_one_healthy_total_example : (i : Instance) × (select_one_healthy two 1 ≡ ok i)
unfolding new_chooser go_sort sort_from sink total_from lighter
select_one_healthy_total_example = select_one_healthy_total two 1 refl (omega arith)

abbrev light : Service
light = service_at 4 (light_host ∷ [])

light_hosts : (i : Instance) → Mem i light.hosts → selectable true i ≡ true → i.weight < 1000
light_hosts i m fits = ltb→lt i.weight 1000 (
    Or.elim (Bool-set _ _) (mem-cons.0 m) (λ e. ap (λ (x : Instance). ltb x.weight 1000) e)
      (λ n. absurd (not-mem-nil n)))

select_one_healthy_panics_example : select_one_healthy light 0 ≡ panics
select_one_healthy_panics_example = select_one_healthy_panics light 0 refl light_hosts
