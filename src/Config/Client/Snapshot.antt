-- ===== src/Config/Client/Snapshot.antt =====
-- What `GetConfig` gives when the server does not answer: the failover file or the snapshot.
use nacos_sdk_go.Common.{
  ℕ, ◌≡◌, Bool, true, false, [], some, Bytes, arith, nat_beq, length, if◌then◌else◌, beq_refl,
  bytes_eq, ◌∙◌, ap,
}
use nacos_sdk_go.ConcurrentMap.{ConcurrentMap}
use nacos_sdk_go.Util.{get_config_cache_key}
use nacos_sdk_go.Util.Trim.{has_prefix}
use nacos_sdk_go.Config.Disk.{
  Disk, read_config_from_file, write_config_to_file, write_encrypted_data_key_to_file, get_failover,
  get_file_name,
}
use nacos_sdk_go.Config.Disk.Snapshots.{
  IsContent, read-write_config, read-write_key, get_failover-write_config, get_failover-write_key,
}
use nacos_sdk_go.Config.Encryption.{cipher_prefix}
use nacos_sdk_go.Config.Filter.{ConfigParam}
use nacos_sdk_go.Config.Client.{
  ConfigClient, Query, QueryReply, query_response, query_config, store_reply, get_config_inner,
  read_snapshot, or_default,
}

module _ ⦃cm : ConcurrentMap⦄ where
  abbrev pub inner_key : ConfigClient → ConfigParam → Bytes
  inner_key client param =
      get_config_cache_key param.data_id (or_default param.group) client.namespace_id

  -- The disk after the snapshots of a response are written.
  abbrev both_written : Disk → Bytes → Bytes → Bytes → Bytes → Disk
  both_written disk key dir content data_key =
      (write_encrypted_data_key_to_file (write_config_to_file disk key dir content).0 key dir
        data_key).0

  both_written-read :
      (disk : Disk) (key dir content data_key : Bytes)
      → disk.is_broken ≡ false
      → IsContent content
      → read_config_from_file (both_written disk key dir content data_key) key dir ≡ some content
  both_written-read disk key dir content data_key b h =
      read-write_key (write_config_to_file disk key dir content).0 key dir data_key
      ∙ (read-write_config disk key key dir content b h
          ∙ ap (λ x. if x then some content else read_config_from_file disk key dir)
              (beq_refl (get_file_name key dir)))

  both_written-failover :
      (disk : Disk) (key dir content data_key : Bytes)
      → get_failover (both_written disk key dir content data_key) key dir
        ≡ get_failover disk key dir
  both_written-failover disk key dir content data_key =
      get_failover-write_key (write_config_to_file disk key dir content).0 key dir data_key
      ∙ get_failover-write_config disk key dir content

  module _ (is_limited : Bytes → Bool) (server : Query → QueryReply) where
    abbrev pub the_query : ConfigClient → ConfigParam → Query
    the_query client param = record {
      data_id = param.data_id;
      group = or_default param.group;
      tenant = client.namespace_id;
      notify = false;
    }

    -- After a `GetConfig` that the server answers with a content, the client gives the same
    -- content when the server no longer answers, provided that the configuration is not encrypted
    -- and has no failover file, that the snapshot may be used, and that the disk works.
    pub snapshot_serves :
        (offline : Query → QueryReply) (client : ConfigClient) (param : ConfigParam) (code : ℕ)
        (content content_type data_key : Bytes)
        → nat_beq (length param.data_id) 0 ≡ false
        → has_prefix cipher_prefix param.data_id ≡ false
        → IsContent content
        → client.disk.is_broken ≡ false
        → client.disable_use_snap_shot ≡ false
        → get_failover client.disk (inner_key client param) client.cache_dir ≡ []
        → is_limited (inner_key client param) ≡ false
        → server (the_query client param) ≡ query_response true code content content_type data_key
        → offline (the_query client param) ≡ QueryReply.no_reply
        → (get_config_inner is_limited offline
            (get_config_inner is_limited server client param).0
            param).1
          ≡ some (content, [])
    unfolding get_config_inner query_config store_reply read_snapshot
    snapshot_serves offline client param code content content_type data_key h1 h2 c b u f l s o =
        let key = inner_key client param in
        ground (
          arith,
          h1,
          h2,
          u,
          f,
          l,
          s,
          o,
          both_written-read client.disk key client.cache_dir content data_key b c,
          both_written-failover client.disk key client.cache_dir content data_key,
        )
