-- ===== src/Tests/Config.antt =====
-- The configuration client, at concrete inputs.
use nacos_sdk_go.Common.{
  ℕ, zero, suc, ◌≡◌, refl, ap, sym, Bool, true, false, List, [], ◌∷◌, Option, none, some, Bytes,
  arith, codes, is_some, lookup, insert, bytes_beq, bytes_eq,
}
use nacos_sdk_go.ConcurrentMap.{new_map, set_key, get}
use nacos_sdk_go.Util.Trim.{trim_space}
use nacos_sdk_go.Util.{get_config_cache_key}
use nacos_sdk_go.Config.Disk.{Disk, get_failover, read_file}
use nacos_sdk_go.Config.Filter.{ConfigParam, empty_param, request_type}
use nacos_sdk_go.Config.Encryption.{
  Plugin, encryption_filter, get_plugin_by_data_id_prefix, longest_match, encryption_handler,
}
use nacos_sdk_go.Config.Encryption.RoundTrip.{encryption_filter-roundtrip, as_response, Reopens}
use nacos_sdk_go.Config.Client.{
  ConfigClient, CacheData, Query, QueryReply, query_response, get_config_inner, Changed,
  ListenContext,
}
use nacos_sdk_go.Config.Client.Snapshot.{snapshot_serves}
use nacos_sdk_go.Config.Listen.{check_content, cancel_listen_config, run_tasks}
use nacos_sdk_go.Config.Listen.Notify.{check_content_twice, failed_task-IsSynced, IsSynced}
use nacos_sdk_go.Config.Listen.Cancel.{cancel_undone, param_key}
use nacos_sdk_go.Tests.Data.{concrete, shop}

abbrev app : Bytes
app = codes "app"

abbrev text : Bytes
text = codes "a=1"

abbrev disk : Disk
disk = record { files = []; is_broken = false }

abbrev app_data : CacheData
app_data = record {
  is_initializing = false;
  data_id = app;
  group = shop;
  content = [];
  content_type = [];
  encrypted_data_key = [];
  tenant = [];
  listener = 0;
  md5 = [];
  task_id = 1;
  is_sync_with_server = false;
}

abbrev data_key : Bytes
data_key = get_config_cache_key app shop []

abbrev config : ConfigClient
config = record {
  cache_map = new_map;
  listeners = [];
  disk = disk;
  filters = [];
  namespace_id = [];
  cache_dir = [];
  disable_use_snap_shot = false;
  last_all_sync_time = 0;
  notifications = 0;
  calls = [];
  requests = [];
}

abbrev listening : ConfigClient
listening = record config {
  cache_map = set_key new_map data_key app_data;
  listeners = record { callback = 7; last_md5 = [] } ∷ [];
}

abbrev param : ConfigParam
param = record empty_param { data_id = app; group = shop; on_change = 7 }

-- A stand-in for the digest.
abbrev digest : Bytes → Bytes
digest content = b'#' ∷ content

check_content_twice_example :
    check_content digest (check_content digest listening app_data text [] []) app_data text [] []
    ≡ check_content digest listening app_data text [] []
check_content_twice_example =
    check_content_twice digest listening app_data text [] [] [] [] (omega arith)

cancel_undone_example :
    is_some (
      get
        (check_content digest (cancel_listen_config listening param) app_data text [] []).cache_map
        (param_key listening param))
    ≡ true
unfolding lookup insert get_config_cache_key bytes_beq
cancel_undone_example = cancel_undone digest listening param app_data text [] [] refl refl refl

abbrev nothing_limited : Bytes → Bool
nothing_limited key = false

abbrev offline : Query → QueryReply
offline q = QueryReply.no_reply

-- Task 0 has no changes; the request of every other task fails.
abbrev first_task : ℕ → List ListenContext → Option (List Changed)
first_task zero contexts = some []
first_task (suc n) contexts = none

failed_task-IsSynced_example :
    IsSynced
      (run_tasks digest nothing_limited offline first_task listening
        ((0, []) ∷ (1, app_data ∷ []) ∷ [])).0
      data_key
unfolding lookup insert get_config_cache_key bytes_beq
failed_task-IsSynced_example =
    failed_task-IsSynced digest nothing_limited offline first_task listening 0 1 [] (app_data ∷ [])
      data_key (λ xs. refl) (λ xs. refl) (refl, tt) refl

abbrev online : Query → QueryReply
online q = query_response true 0 text [] []

snapshot_serves_example :
    (get_config_inner nothing_limited offline
      (get_config_inner nothing_limited online config param).0
      param).1
    ≡ some (text, [])
unfolding trim_space get_failover read_file lookup
snapshot_serves_example =
    snapshot_serves nothing_limited online offline config param 0 text [] [] refl refl refl refl
      refl refl refl refl refl

-- A cipher that puts a mark before the text.
abbrev unmark : Bytes → Bytes
unmark [] = []
unmark (c ∷ s) = s

abbrev marker : Plugin
marker = record {
  algorithm_name = codes "cipher";
  encrypt = λ p. some (record p { content = b'*' ∷ p.content });
  decrypt = λ p. some (record p { content = unmark p.content });
  generate_secret_key = λ p. some (record p { encrypted_data_key = codes "k" }, codes "k");
  encrypt_secret_key = λ p. some (p, codes "k");
  decrypt_secret_key = λ p. some (p, codes "k");
}

marker-Reopens : Reopens marker
marker-Reopens data_id key_id content sealed b h =
    let e : b'*' ∷ content ≡ sealed.content = ground arith in
    (
      record {
        data_id = data_id;
        content = unmark sealed.content;
        encrypted_data_key = sealed.encrypted_data_key;
        plain_data_key = codes "k";
        key_id = [];
      },
      refl,
      ap unmark (sym e),
    )

abbrev secret : ConfigParam
secret = record empty_param {
  data_id = codes "cipher-app";
  group = shop;
  content = text;
  usage_type = request_type;
}

abbrev sealed_secret : ConfigParam
sealed_secret = record secret { content = b'*' ∷ text; encrypted_data_key = codes "k" }

encryption_filter-roundtrip_example :
    (opened : ConfigParam) × (encryption_filter
        ((codes "cipher", marker) ∷ [])
        (as_response sealed_secret)
      ≡ some opened)
    × (opened.content ≡ text)
unfolding get_plugin_by_data_id_prefix longest_match encryption_filter encryption_handler trim_space
encryption_filter-roundtrip_example =
    encryption_filter-roundtrip ((codes "cipher", marker) ∷ []) marker secret sealed_secret refl
      refl marker-Reopens (omega arith) refl refl
