-- ===== src/Security/Resources.antt =====
-- common/security/security_proxy.go and common/nacos_server/nacos_server.go: the resource that a
-- request
-- is signed for.
use nacos_sdk_go.Common.{
  ◌≡◌, false, [], ◌∷◌, ◌++◌, none, some, arith, Bytes, Dict, lookup, codes, bytes_eq, bytes_beq,
}
use nacos_sdk_go.Util.{get_group_name, spliter}
use nacos_sdk_go.Util.Trim.{has_substring}
use nacos_sdk_go.Security.Ram.{is_empty}
use nacos_sdk_go.Security.Injector.{
  RequestResource, build_config_resource, build_naming_resource, get_grouped_service_name,
}

-- The requests of the configuration client that have a resource: the tenant, the group and the data id.
pub data ConfigRequest : Type 0 where
  config_query config_publish config_remove : Bytes → Bytes → Bytes → ConfigRequest
  other_config : ConfigRequest

-- Those of the naming client: the namespace, the group and the service name.
pub data NamingRequest : Type 0 where
  instance_request batch_instance_request service_list_request :
      Bytes → Bytes → Bytes → NamingRequest
  service_query_request subscribe_service_request : Bytes → Bytes → Bytes → NamingRequest
  other_naming : NamingRequest

abbrev pub build_config_resource_by_request : ConfigRequest → RequestResource
build_config_resource_by_request (config_query tenant group data_id) =
    build_config_resource tenant group data_id
build_config_resource_by_request (config_publish tenant group data_id) =
    build_config_resource tenant group data_id
build_config_resource_by_request (config_remove tenant group data_id) =
    build_config_resource tenant group data_id
build_config_resource_by_request other_config = build_config_resource [] [] []

abbrev pub build_naming_resource_by_request : NamingRequest → RequestResource
build_naming_resource_by_request (instance_request namespace group service_name) =
    build_naming_resource namespace group service_name
build_naming_resource_by_request (batch_instance_request namespace group service_name) =
    build_naming_resource namespace group service_name
build_naming_resource_by_request (service_list_request namespace group service_name) =
    build_naming_resource namespace group service_name
build_naming_resource_by_request (service_query_request namespace group service_name) =
    build_naming_resource namespace group service_name
build_naming_resource_by_request (subscribe_service_request namespace group service_name) =
    build_naming_resource namespace group service_name
build_naming_resource_by_request other_naming = build_naming_resource [] [] []

-- `params[name]`, which gives no bytes for a name that is not there.
abbrev pub value : Bytes → Dict Bytes Bytes → Bytes
value name params = elim (lookup name params) [ none ↦ [] | some v ↦ v ]

-- The resource in `ReqConfigApi`.
abbrev pub config_api_resource : Dict Bytes Bytes → RequestResource
config_api_resource params =
    build_config_resource (value (codes "tenant") params) (value (codes "group") params)
      (value (codes "dataId") params)

-- The resource in `ReqApi`, with the arguments in the order of the call.
abbrev pub naming_api_resource : Dict Bytes Bytes → RequestResource
naming_api_resource params =
    build_naming_resource (value (codes "namespaceId") params) (value (codes "serviceName") params)
      (value (codes "groupName") params)

-- The first parameters that `RegisterInstance` sends over HTTP.
unfoldable pub register_params : Bytes → Bytes → Bytes → Dict Bytes Bytes
register_params namespace_id service_name group_name =
    (codes "namespaceId", namespace_id)
    ∷ (codes "serviceName", get_group_name service_name group_name)
    ∷ (codes "groupName", group_name)
    ∷ []

full_name_filled : (service group : Bytes) → is_empty (get_group_name service group) ≡ false
unfolding get_group_name
full_name_filled service [] = ground arith
full_name_filled service (c ∷ group) = ground arith

-- Over HTTP an instance is registered under a signature for another service than over gRPC: the
-- group and
-- the service name change places, so that the group follows the full name instead of standing
-- before the
-- service name. This holds for a group and a service name that are not empty and have no `@@`.
pub http_resource_swapped :
    (namespace service group : Bytes)
    → has_substring spliter service ≡ false
    → has_substring spliter group ≡ false
    → is_empty group ≡ false
    → (get_grouped_service_name
          (build_naming_resource_by_request (instance_request namespace group service))
        ≡ get_group_name service group)
      × (get_grouped_service_name (naming_api_resource (register_params namespace service group))
          ≡ get_group_name service group ++ (spliter ++ group))
unfolding get_grouped_service_name get_group_name register_params lookup bytes_beq
http_resource_swapped namespace service group s g e =
    (ground (arith, s, e), ground (arith, g, full_name_filled service group))
