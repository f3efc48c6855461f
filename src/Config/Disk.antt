-- ===== src/Config/Disk.antt =====
-- clients/cache/disk_cache.go: the snapshots of configurations.
pub mod Snapshots
use nacos_sdk_go.Common.{
  ◌≡◌, Bool, true, false, [], ◌++◌, Option, none, some, arith, Bytes, Dict, lookup, insert, delete,
  codes, is_some, nat_beq, length, if◌then◌else◌, lookup-insert, lookup-delete, beq_refl, bytes_eq,
  bytes_beq, bytes_beq_iff, length-append, ap, Bool-cases, inl, inr,
}
use nacos_sdk_go.Util.Trim.{trim_space}

-- The files by their names; when the disk is broken, every access of it fails.
pub record Disk : Type 0 where
  pub files : Dict Bytes Bytes
  pub is_broken : Bool

abbrev pub get_file_name : Bytes → Bytes → Bytes
get_file_name cache_key cache_dir = cache_dir ++ (codes "/" ++ cache_key)

abbrev pub get_encrypted_data_key_dir : Bytes → Bytes
get_encrypted_data_key_dir cache_dir = cache_dir ++ (codes "/" ++ codes "encrypted-data-key")

abbrev pub get_config_encrypted_data_key_file_name : Bytes → Bytes → Bytes
get_config_encrypted_data_key_file_name cache_key cache_dir =
    get_encrypted_data_key_dir cache_dir ++ (codes "/" ++ cache_key)

abbrev pub failover_suffix : Bytes
failover_suffix = codes "_failover"

-- `writeConfigToFile`; the Boolean says whether there was no error. The error of `os.Remove` is
-- a path error, which is never equal to `syscall.ENOENT`.
unfoldable pub write_file : Disk → Bytes → Bytes → Disk × Bool
write_file disk file_name content =
    let is_blank = nat_beq (length (trim_space content)) 0 in
    if disk.is_broken
    then (disk, is_blank)
    else if is_blank
    then (if is_some (lookup file_name disk.files)
        then (record disk { files = insert file_name content (delete file_name disk.files) }, true)
        else (disk, true))
    else (record disk { files = insert file_name content disk.files }, true)

-- `WriteConfigToFile`; the directory cannot be made on a broken disk.
unfoldable pub write_config_to_file : Disk → Bytes → Bytes → Bytes → Disk × Bool
unfolding write_file
write_config_to_file disk cache_key cache_dir content =
    if disk.is_broken
    then (disk, false)
    else write_file disk (get_file_name cache_key cache_dir) content

unfoldable pub write_encrypted_data_key_to_file : Disk → Bytes → Bytes → Bytes → Disk × Bool
unfolding write_file
write_encrypted_data_key_to_file disk cache_key cache_dir content =
    if disk.is_broken
    then (disk, false)
    else write_file disk (get_config_encrypted_data_key_file_name cache_key cache_dir) content

-- `readConfigFromFile`: `none` is an error.
unfoldable pub read_file : Disk → Bytes → Option Bytes
read_file disk file_name = if disk.is_broken then none else lookup file_name disk.files

unfoldable pub read_config_from_file : Disk → Bytes → Bytes → Option Bytes
unfolding read_file
read_config_from_file disk cache_key cache_dir = read_file disk (get_file_name cache_key cache_dir)

-- `ReadEncryptedDataKeyFromFile` gives the empty text for every error.
unfoldable pub read_encrypted_data_key_from_file : Disk → Bytes → Bytes → Bytes
unfolding read_file
read_encrypted_data_key_from_file disk cache_key cache_dir =
    elim (read_file disk (get_config_encrypted_data_key_file_name cache_key cache_dir)) [
      | none ↦ []
      | some content ↦ content
    ]

-- `getFailOverConfig` of the two failover files.
unfoldable pub get_failover : Disk → Bytes → Bytes → Bytes
unfolding read_file
get_failover disk key dir = elim (read_file disk (get_file_name key dir ++ failover_suffix)) [
  | none ↦ []
  | some content ↦ content
]

unfoldable pub get_failover_encrypted_data_key : Disk → Bytes → Bytes → Bytes
unfolding read_file
get_failover_encrypted_data_key disk key dir =
    elim (read_file disk (get_config_encrypted_data_key_file_name key dir ++ failover_suffix)) [
      | none ↦ []
      | some content ↦ content
    ]
