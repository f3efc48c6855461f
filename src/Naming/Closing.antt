-- ===== src/Naming/Closing.antt =====
-- clients/naming_client: the closing of a client, its health, and the list of services.
use nacos_sdk_go.Common.{
  ℕ, zero, suc, ◌≡◌, Bool, true, false, ◌||◌, List, [], Option, none, some, arith, Bytes, codes,
  length, nat_beq, ◌==◌, bytes_eq, if◌then◌else◌,
}
use nacos_sdk_go.ConcurrentMap.{ConcurrentMap}
use nacos_sdk_go.Rpc.{RpcClient, is_running, shut_down}
use nacos_sdk_go.Naming.Client.{NamingClient}
use nacos_sdk_go.Naming.Choice.{or_default_group}

-- model.ExpressionSelector.
pub record ExpressionSelector : Type 0 where
  pub selector_type : Bytes
  pub expression : Bytes

-- rpc_request.ServiceListRequest; the service name is always empty.
pub record ServiceListRequest : Type 0 where
  pub namespace : Bytes
  pub group_name : Bytes
  pub page_no : ℕ
  pub page_size : ℕ
  pub selector : Bytes

pub record ServiceList : Type 0 where
  pub count : ℕ
  pub doms : List Bytes

abbrev pub default_namespace_id : Bytes
default_namespace_id = codes "public"

-- The answers to a request for the list of services, and how JSON prints a selector.
module _ (server : ServiceListRequest → Option ServiceList)
    (to_json : ExpressionSelector → Bytes) where
  -- `GetServiceList` of the gRPC proxy, which the delegate calls.
  unfoldable pub get_service_list :
      ℕ → ℕ → Bytes → Bytes → Option ExpressionSelector → Option ServiceList
  get_service_list page_no page_size group_name namespace selector =
      let text : Bytes = elim selector [
        | none ↦ []
        | some e ↦ if e.selector_type == codes "label" then to_json e else []
      ] in
      server (record {
        namespace = namespace;
        group_name = group_name;
        page_no = page_no;
        page_size = page_size;
        selector = text;
      })

  -- `GetAllServicesInfo`, with the namespace of the client's configuration.
  unfoldable pub get_all_services_info : Bytes → ℕ → ℕ → Bytes → Bytes → Option ServiceList
  unfolding get_service_list
  get_all_services_info namespace_id page_no page_size group_name namespace =
      let configured =
        if nat_beq (length namespace_id) 0 then default_namespace_id else namespace_id in
      get_service_list page_no page_size (or_default_group group_name)
        (if nat_beq (length namespace) 0 then configured else namespace)
        (some (record { selector_type = []; expression = [] }))

-- `ServerHealthy` of the HTTP proxy, on the result of its request; `status` reads the field.
unfoldable pub http_server_healthy : (Bytes → Option Bytes) → Option Bytes → Bool
http_server_healthy status none = false
http_server_healthy status (some result) =
    if nat_beq (length result) 0
    then false
    else elim (status result) [ none ↦ false | some s ↦ s == codes "UP" ]

module _ ⦃cm : ConcurrentMap⦄ where
  -- The client with the RPC client under its gRPC proxy, and whether its context is cancelled.
  pub record Session : Type 0 where
    pub client : NamingClient
    pub rpc_client : RpcClient
    pub is_cancelled : Bool

  unfoldable pub server_healthy : (Bytes → Option Bytes) → Option Bytes → Session → Bool
  unfolding http_server_healthy
  server_healthy status result s = is_running s.rpc_client || http_server_healthy status result

  -- `CloseClient` of the client and its proxies.
  unfoldable pub close_client : Session → Session
  close_client s =
      if s.client.is_closed
      then s
      else let client = s.client in
        record s {
          client = record client { is_closed = true };
          rpc_client = shut_down s.rpc_client;
          is_cancelled = true;
        }

  abbrev pub close_times : ℕ → Session → Session
  close_times zero s = s
  close_times (suc n) s = close_client (close_times n s)

  -- However often an open client is closed, its connection is shut down once, and its context is
  -- cancelled.
  close_once :
      (n : ℕ) (s : Session)
      → s.client.is_closed ≡ false
      → ((close_times (suc n) s).rpc_client ≡ shut_down s.rpc_client)
        × ((close_times (suc n) s).is_cancelled ≡ true)
        × ((close_times (suc n) s).client.is_closed ≡ true)
  unfolding close_client
  close_once zero s h = (ground (arith, h), ground (arith, h), ground (arith, h))
  close_once (suc n) s h =
      let (shut, cancelled, closed) = close_once n s h in
      (ground (arith, closed, shut), ground (arith, closed, cancelled), ground (arith, closed))
