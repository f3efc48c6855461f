-- ===== src/Config/Publish.antt =====
-- clients/config_client/config_client.go: publishing and removing a configuration.
use nacos_sdk_go.Common.{
  Bool, true, [], ◌∷◌, ◌++◌, Option, none, some, Bytes, bytes_eq, nat_eq, nat_beq, length,
  if◌then◌else◌,
}
use nacos_sdk_go.ConcurrentMap.{ConcurrentMap}
use nacos_sdk_go.Util.{default_group}
use nacos_sdk_go.Config.Filter.{ConfigParam, do_filters, request_type}
use nacos_sdk_go.Config.Client.{
  ConfigClient, Answer, no_answer, answer, Request, publish_request, remove_request,
}

module _ ⦃cm : ConcurrentMap⦄ where
  -- `buildResponse`, or the error of the request.
  abbrev pub built : Answer → Option Bool
  built no_answer = none
  built (answer success) = if success then some true else none

  abbrev send : ConfigClient → Request → ConfigClient
  send client request = record client { requests = client.requests ++ (request ∷ []) }

  abbrev grouped : Bytes → Bytes
  grouped group = if nat_beq (length group) 0 then default_group else group

  -- `PublishConfig`; no result is an error.
  unfoldable pub publish_config :
      (Request → Answer) → ConfigClient → ConfigParam → ConfigClient × Option Bool
  publish_config server client param =
      if nat_beq (length param.data_id) 0
      then (client, none)
      else if nat_beq (length param.content) 0
      then (client, none)
      else elim (do_filters client.filters
          (record param { group = grouped param.group; usage_type = request_type })) [
            | none ↦ (client, none)
            | some param' ↦
                (let request = publish_request param' client.namespace_id in
                  (send client request, built (server request)))
          ]

  -- `DeleteConfig`.
  unfoldable pub delete_config :
      (Request → Answer) → ConfigClient → ConfigParam → ConfigClient × Option Bool
  delete_config server client param =
      let request = remove_request (grouped param.group) param.data_id client.namespace_id in
      if nat_beq (length param.data_id) 0
      then (client, none)
      else (send client request, built (server request))
