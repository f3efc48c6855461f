-- ===== src/Rpc/Labels.antt =====
-- common/remote/rpc/rpc_client.go: the labels of a new client, and the map of clients.
use nacos_sdk_go.Common.{
  ◌≡◌, refl, Bool, false, ◌&&◌, not, List, [], ◌∷◌, ◌++◌, Option, none, some, arith, is_some,
  if◌then◌else◌, Bytes, Dict, lookup, insert, delete, Distinct, lookup-insert, lookup-nil, bytes_eq,
  bytes_beq, bytes_beq_iff, codes, nat_beq, length, ◌∙◌, sym, beq_refl,
}
use nacos_sdk_go.Util.Trim.{trim_space}
use nacos_sdk_go.Util.Split.{split_byte}

-- `putAllLabels`, and every other loop that copies one map into another.
unfoldable pub put_all_labels : Dict Bytes Bytes → Dict Bytes Bytes → Dict Bytes Bytes
put_all_labels labels [] = labels
put_all_labels labels ((k, v) ∷ more) = put_all_labels (insert k v labels) more

-- The second loop of `mergeMaps`.
unfoldable pub merge_second :
    Bool → Dict Bytes Bytes → Dict Bytes Bytes → Dict Bytes Bytes → Dict Bytes Bytes
merge_second prefer_first map1 result [] = result
merge_second prefer_first map1 result ((k, v) ∷ map2) =
    merge_second prefer_first map1
      (if prefer_first && is_some (lookup k map1) then result else insert k v result) map2

unfoldable pub merge_maps : Dict Bytes Bytes → Dict Bytes Bytes → Bool → Dict Bytes Bytes
unfolding merge_second
merge_maps map1 map2 prefer_first = merge_second prefer_first map1 (put_all_labels [] map1) map2

-- `mergerAppLabels`, where `preferred` is the lower-cased environment variable.
unfoldable pub merger_app_labels : Bytes → Dict Bytes Bytes → Dict Bytes Bytes → Dict Bytes Bytes
merger_app_labels preferred app_labels env_labels =
    merge_maps app_labels env_labels (not (bytes_beq preferred (codes "env")))

-- One label of `parseLabels`, split at its equal signs.
unfoldable pub add_label : List Bytes → Dict Bytes Bytes → Dict Bytes Bytes
add_label (key ∷ value ∷ []) result = insert (trim_space key) (trim_space value) result
add_label parts result = result

unfoldable pub parse_label_list : List Bytes → Dict Bytes Bytes → Dict Bytes Bytes
parse_label_list [] result = result
parse_label_list (label ∷ labels) result = parse_label_list labels (
    if nat_beq (length (trim_space label)) 0
    then result
    else add_label (split_byte b'=' label) result)

unfoldable pub parse_labels : Bytes → Dict Bytes Bytes
parse_labels raw_labels =
    if nat_beq (length (trim_space raw_labels)) 0
    then []
    else parse_label_list (split_byte b',' raw_labels) []

-- `getAppLabelsFromEnv`, of the two environment variables.
unfoldable pub get_app_labels_from_env : Bytes → Bytes → Dict Bytes Bytes
get_app_labels_from_env gray_label conn_labels =
    let config_map : Dict Bytes Bytes =
      if nat_beq (length gray_label) 0
      then []
      else insert (codes "nacos_config_gray_label") gray_label [] in
    if nat_beq (length conn_labels) 0
    then config_map
    else put_all_labels config_map (parse_labels conn_labels)

unfoldable pub add_prefix_loop : Dict Bytes Bytes → Bytes → Dict Bytes Bytes → Dict Bytes Bytes
add_prefix_loop [] prefix new_map = new_map
add_prefix_loop ((k, v) ∷ m) prefix new_map =
    add_prefix_loop m prefix
      (if nat_beq (length (trim_space k)) 0 then new_map else insert (prefix ++ k) v new_map)

unfoldable pub add_prefix_for_each_key : Dict Bytes Bytes → Bytes → Dict Bytes Bytes
add_prefix_for_each_key m prefix = if nat_beq (length m) 0 then m else add_prefix_loop m prefix []

-- `CreateClient` on the labels of the clients by name; a gRPC client starts without labels.
unfoldable pub create_client :
    Dict Bytes (Dict Bytes Bytes)
    → Bytes
    → Bytes
    → Dict Bytes Bytes
    → Dict Bytes Bytes
    → Dict Bytes Bytes
    → Dict Bytes (Dict Bytes Bytes)
create_client client_map client_name preferred labels app_labels env_labels =
    if is_some (lookup client_name client_map)
    then client_map
    else (let final =
          add_prefix_for_each_key (merger_app_labels preferred app_labels env_labels)
            (codes "app_") in
        insert client_name (put_all_labels (put_all_labels [] final) labels) client_map)

-- `delete(clientMap, r.name)` of `Shutdown`.
unfoldable pub forget_client : Dict Bytes (Dict Bytes Bytes) → Bytes → Dict Bytes (Dict Bytes Bytes)
forget_client client_map name = delete name client_map

-- The value of a key in either of two maps, the first one's if both have it.
abbrev pub first_of : Option Bytes → Option Bytes → Option Bytes
first_of none o = o
first_of (some v) o = some v

pub lookup-put_all_labels :
    (k : Bytes) (labels more : Dict Bytes Bytes)
    → Distinct more
    → lookup k (put_all_labels labels more) ≡ first_of (lookup k more) (lookup k labels)
unfolding put_all_labels lookup
lookup-put_all_labels k labels [] d = refl
lookup-put_all_labels k labels ((j, v) ∷ more) d =
    let rest = lookup-put_all_labels k (insert j v labels) more d.1 in
    ground (arith, rest, lookup-insert j k v labels, bytes_beq_iff j k, d.0)

lookup-merge_second :
    (prefer_first : Bool) (k : Bytes) (map1 result map2 : Dict Bytes Bytes)
    → Distinct map2
    → lookup k (merge_second prefer_first map1 result map2) ≡ (
        if prefer_first && is_some (lookup k map1)
        then lookup k result
        else first_of (lookup k map2) (lookup k result))
unfolding merge_second lookup
lookup-merge_second f k map1 result [] d = ground arith
lookup-merge_second f k map1 result ((j, v) ∷ map2) d =
    let result' : Dict Bytes Bytes =
      if f && is_some (lookup j map1) then result else insert j v result in
    let rest = lookup-merge_second f k map1 result' map2 d.1 in
    ground (arith, rest, lookup-insert j k v result, bytes_beq_iff j k, d.0)

-- `mergeMaps` has the keys of both maps; a key of both has the value of the preferred map.
lookup-merge_maps :
    (k : Bytes) (map1 map2 : Dict Bytes Bytes) (prefer_first : Bool)
    → Distinct map1
    → Distinct map2
    → lookup k (merge_maps map1 map2 prefer_first) ≡ (
        if prefer_first
        then first_of (lookup k map1) (lookup k map2)
        else first_of (lookup k map2) (lookup k map1))
unfolding merge_maps
lookup-merge_maps k map1 map2 prefer_first d1 d2 = ground (
  arith,
  lookup-merge_second prefer_first k map1 (put_all_labels [] map1) map2 d2,
  lookup-put_all_labels k [] map1 d1,
  lookup-nil {V = Bytes} k,
)

bytes_beq-prefix : (p s t : Bytes) → bytes_beq (p ++ s) (p ++ t) ≡ bytes_beq s t
unfolding bytes_beq
bytes_beq-prefix [] s t = refl
bytes_beq-prefix (c ∷ p) s t = ground (arith, bytes_beq-prefix p s t)

-- The key has a byte that is no white space.
abbrev pub IsLabelKey : Bytes → Type 0
IsLabelKey k = nat_beq (length (trim_space k)) 0 ≡ false

lookup-add_prefix_loop :
    (k : Bytes) (m : Dict Bytes Bytes) (prefix : Bytes) (new_map : Dict Bytes Bytes)
    → IsLabelKey k
    → Distinct m
    → lookup (prefix ++ k) (add_prefix_loop m prefix new_map)
      ≡ first_of (lookup k m) (lookup (prefix ++ k) new_map)
unfolding add_prefix_loop lookup
lookup-add_prefix_loop k [] prefix new_map h d = refl
lookup-add_prefix_loop k ((j, v) ∷ m) prefix new_map h d =
    let new_map' : Dict Bytes Bytes =
      if nat_beq (length (trim_space j)) 0 then new_map else insert (prefix ++ j) v new_map in
    let rest = lookup-add_prefix_loop k m prefix new_map' h d.1 in
    ground (
      arith,
      rest,
      lookup-insert (prefix ++ j) (prefix ++ k) v new_map,
      bytes_beq-prefix prefix j k,
      bytes_beq_iff j k,
      d.0,
      h,
    )

-- A label of the new client under a prefixed key is the application's label of that key.
pub lookup-add_prefix :
    (k : Bytes) (m : Dict Bytes Bytes) (prefix : Bytes)
    → IsLabelKey k
    → Distinct m
    → lookup (prefix ++ k) (add_prefix_for_each_key m prefix) ≡ lookup k m
unfolding add_prefix_for_each_key
lookup-add_prefix k [] prefix h d =
    lookup-nil {V = Bytes} (prefix ++ k) ∙ sym (lookup-nil {V = Bytes} k)
lookup-add_prefix k (e ∷ m) prefix h d =
    let rest = lookup-add_prefix_loop k (e ∷ m) prefix [] h d in
    ground (arith, rest, lookup-nil {V = Bytes} (prefix ++ k))

-- A second `CreateClient` of a name changes nothing, whatever its labels are.
pub create_client_again :
    (m : Dict Bytes (Dict Bytes Bytes)) (name p p' : Bytes) (l l' a a' e e' : Dict Bytes Bytes)
    → create_client (create_client m name p l a e) name p' l' a' e' ≡ create_client m name p l a e
unfolding create_client
create_client_again m name p p' l l' a a' e e' =
    let final = add_prefix_for_each_key (merger_app_labels p a e) (codes "app_") in
    let own = put_all_labels (put_all_labels [] final) l in
    ground (arith, lookup-insert name name own m, beq_refl name)
