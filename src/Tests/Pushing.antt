-- ===== src/Tests/Pushing.antt =====
-- Pushes over UDP and HTTP requests, at concrete inputs.
use nacos_sdk_go.Common.{
  ℕ, ◌≡◌, refl, List, [], ◌∷◌, Option, none, some, Bytes, Dict, codes, length, lookup, bytes_eq,
  nat_beq, if◌then◌else◌,
}
use nacos_sdk_go.Naming.Holder.Process.{run}
use nacos_sdk_go.Naming.Push.{Readers, handle_clients}
use nacos_sdk_go.Naming.Push.Served.{calls, answers, handle_clients-run}
use nacos_sdk_go.Server.Http.{
  HttpRequest, HttpResponse, call_config_server, config_headers, access_key_field, secret_key_field,
}
use nacos_sdk_go.Server.Http.Keys.{keys_stay, is_key, lookup_or, own_headers, given}
use nacos_sdk_go.Tests.Data.{concrete, host_a, service_at, holder}

-- A datagram is the type of its push; each one has the same service.
abbrev readers : Readers
readers = record {
  gunzip = λ s. none;
  push_data = λ s.
      if nat_beq (length s) 0
      then none
      else some (record { push_type = s; text = s; last_ref_time = 5 });
  json_to_service = λ s. some (service_at 4 (host_a ∷ []));
}

abbrev datagrams : List (ℕ × Option Bytes)
datagrams = (1, none) ∷ (2, some (codes "dom")) ∷ (3, some []) ∷ (4, some (codes "dump")) ∷ []

handle_clients-run_example :
    ((handle_clients readers holder datagrams).0 ≡ run holder (calls readers datagrams))
    × ((handle_clients readers holder datagrams).1 ≡ answers readers datagrams)
handle_clients-run_example = handle_clients-run readers holder datagrams

abbrev no_agent : HttpRequest → Option HttpResponse
no_agent request = none

abbrev keys : Dict Bytes Bytes
keys = (access_key_field, codes "ak") ∷ (codes "tenant", []) ∷ (secret_key_field, codes "sk") ∷ []

abbrev asked : HttpRequest
asked = record {
  method = codes "GET";
  url = codes "http://10.0.0.1:8848/nacos/v1/cs/configs";
  headers = config_headers keys (codes "7");
  timeout_ms = 3000;
  params = [];
}

keys_stay_example :
    (uid : Bytes) × (some (codes "7") ≡ some uid)
    × (lookup secret_key_field asked.headers ≡ (
        if is_key secret_key_field
        then none
        else lookup_or secret_key_field (own_headers uid) (given secret_key_field keys)))
unfolding call_config_server
keys_stay_example =
    keys_stay no_agent (some (codes "7")) (codes "/v1/cs/configs") (codes "GET")
      (codes "http://10.0.0.1:8848") [] [] keys 3000 asked secret_key_field refl
