-- ===== src/Naming/Grpc/Keys.antt =====
-- The keys under which the listener keeps registrations and subscriptions, taken apart again.
use mathlib.Core.List.{append_assoc}
use nacos_sdk_go.Common.{◌≡◌, ap, ◌∙◌, List, [], ◌∷◌, ◌++◌, Bytes}
use nacos_sdk_go.Util.{get_group_name, get_service_cache_key, at_sign, spliter}
use nacos_sdk_go.Util.Split.{split_pair, split_pair-append, split_pair-plain, Lacks}

-- A service, its group and its clusters.
pub record Target : Type 0 where
  pub service : Bytes
  pub group : Bytes
  pub clusters : Bytes

abbrev pub key_of : Target → Bytes
key_of t = get_service_cache_key (get_group_name t.service t.group) t.clusters

-- None of the three has an `@`.
pub record IsPlain (t : Target) : Type 0 where
  pub service : Lacks at_sign t.service
  pub group : Lacks at_sign t.group
  pub clusters : Lacks at_sign t.clusters

abbrev pub parts : Bytes → List Bytes
parts [] = []
parts (c ∷ clusters) = (c ∷ clusters) ∷ []

pub split_pair-get_group_name :
    (service group : Bytes)
    → Lacks at_sign service
    → Lacks at_sign group
    → split_pair at_sign (get_group_name service group) ≡ group ∷ service ∷ []
unfolding get_group_name
split_pair-get_group_name service group hs hg =
    split_pair-append at_sign group service hg
    ∙ ap (◌∷◌ group) (split_pair-plain at_sign service hs)

split_cache_key :
    (service group clusters : Bytes)
    → Lacks at_sign service
    → Lacks at_sign group
    → Lacks at_sign clusters
    → split_pair at_sign (get_service_cache_key (get_group_name service group) clusters)
      ≡ group ∷ service ∷ parts clusters
unfolding get_service_cache_key get_group_name
split_cache_key service group [] hs hg hc = split_pair-get_group_name service group hs hg
split_cache_key service group (c ∷ clusters) hs hg hc =
    rw (append_assoc group (spliter ++ service) (spliter ++ (c ∷ clusters))) (
      split_pair-append at_sign group (service ++ (spliter ++ (c ∷ clusters))) hg
      ∙ ap (◌∷◌ group) (
          split_pair-append at_sign service (c ∷ clusters) hs
          ∙ ap (◌∷◌ service) (split_pair-plain at_sign (c ∷ clusters) hc)))

-- `strings.Split(key, "@@")` gives back what the key was made of.
pub split_pair-key_of :
    (t : Target)
    → IsPlain t
    → split_pair at_sign (key_of t) ≡ t.group ∷ t.service ∷ parts t.clusters
split_pair-key_of t p = split_cache_key t.service t.group t.clusters p.service p.group p.clusters
