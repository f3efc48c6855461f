-- ===== src/Config/Disk/Snapshots.antt =====
-- What is read from a snapshot after another file was written.
use nacos_sdk_go.Common.{
  ◌≡◌, false, [], ◌++◌, some, arith, Bytes, delete, codes, nat_beq, length, if◌then◌else◌,
  lookup-insert, lookup-delete, beq_refl, bytes_eq, bytes_beq, bytes_beq_iff, length-append, ap,
  Bool-cases, inl, inr,
}
use nacos_sdk_go.Util.Trim.{trim_space}
use nacos_sdk_go.Config.Disk.{
  Disk, failover_suffix, get_config_encrypted_data_key_file_name, get_encrypted_data_key_dir,
  get_failover, get_file_name, read_config_from_file, read_file, write_config_to_file,
  write_encrypted_data_key_to_file, write_file,
}

-- The text has a byte that is no white space.
abbrev pub IsContent : Bytes → Type 0
IsContent content = nat_beq (length (trim_space content)) 0 ≡ false

-- A snapshot that is written to a working disk is read again; the snapshots of other
-- configurations stay as they are.
pub read-write_config :
    (disk : Disk) (key j dir content : Bytes)
    → disk.is_broken ≡ false
    → IsContent content
    → read_config_from_file (write_config_to_file disk key dir content).0 j dir ≡ (
        if bytes_beq (get_file_name key dir) (get_file_name j dir)
        then some content
        else read_config_from_file disk j dir)
unfolding write_config_to_file write_file read_config_from_file read_file
read-write_config disk key j dir content b h =
    ground
      (arith, b, h, lookup-insert (get_file_name key dir) (get_file_name j dir) content disk.files)

-- Writing an empty content over a snapshot leaves an empty snapshot, which is read without an
-- error: the file that was deleted is written again.
cleared_snapshot_stays :
    (disk : Disk) (key dir content : Bytes)
    → read_config_from_file disk key dir ≡ some content
    → read_config_from_file (write_config_to_file disk key dir []).0 key dir ≡ some []
unfolding write_config_to_file write_file read_config_from_file read_file trim_space
cleared_snapshot_stays disk key dir content h =
    let name = get_file_name key dir in
    ground (arith, lookup-insert name name [] (delete name disk.files), beq_refl name)

pub names_differ :
    (key dir : Bytes)
    → bytes_beq (get_config_encrypted_data_key_file_name key dir) (get_file_name key dir) ≡ false
names_differ key dir =
    let long = get_config_encrypted_data_key_file_name key dir in
    let short = get_file_name key dir in
    elim (Bool-cases (bytes_beq long short)) [
      | inr e ↦ e
      | inl e ↦
          let h : length long ≡ length short = ap length ((bytes_beq_iff long short).0 e) in
          let a = length-append (get_encrypted_data_key_dir dir) (codes "/" ++ key) in
          let b = length-append dir (codes "/" ++ codes "encrypted-data-key") in
          let c = length-append dir (codes "/" ++ key) in absurd (omega (arith, h, a, b, c))
    ]

-- Writing the key of the encryption leaves the snapshot of the content as it is.
pub read-write_key :
    (disk : Disk) (key dir content : Bytes)
    → read_config_from_file (write_encrypted_data_key_to_file disk key dir content).0 key dir
      ≡ read_config_from_file disk key dir
unfolding write_encrypted_data_key_to_file write_file read_config_from_file read_file
read-write_key disk key dir content =
    let long = get_config_encrypted_data_key_file_name key dir in
    let short = get_file_name key dir in
    ground (
      arith,
      names_differ key dir,
      lookup-insert long short content disk.files,
      lookup-insert long short content (delete long disk.files),
      lookup-delete long short disk.files,
    )

-- The failover file of a configuration is neither of its two snapshots.
failover_name-content :
    (key dir : Bytes)
    → bytes_beq (get_file_name key dir) (get_file_name key dir ++ failover_suffix) ≡ false
failover_name-content key dir =
    let short = get_file_name key dir in
    elim (Bool-cases (bytes_beq short (short ++ failover_suffix))) [
      | inr e ↦ e
      | inl e ↦
          let h : length short ≡ length (short ++ failover_suffix) =
            ap length ((bytes_beq_iff short (short ++ failover_suffix)).0 e) in
          absurd (omega (arith, h, length-append short failover_suffix))
    ]

failover_name-key :
    (key dir : Bytes)
    → bytes_beq
        (get_config_encrypted_data_key_file_name key dir)
        (get_file_name key dir ++ failover_suffix)
      ≡ false
failover_name-key key dir =
    let long = get_config_encrypted_data_key_file_name key dir in
    let short = get_file_name key dir in
    elim (Bool-cases (bytes_beq long (short ++ failover_suffix))) [
      | inr e ↦ e
      | inl e ↦
          let h : length long ≡ length (short ++ failover_suffix) =
            ap length ((bytes_beq_iff long (short ++ failover_suffix)).0 e) in
          let a = length-append (get_encrypted_data_key_dir dir) (codes "/" ++ key) in
          let b = length-append dir (codes "/" ++ codes "encrypted-data-key") in
          let c = length-append dir (codes "/" ++ key) in
          absurd (omega (arith, h, a, b, c, length-append short failover_suffix))
    ]

-- Writing a snapshot does not touch the failover file.
pub get_failover-write_config :
    (disk : Disk) (key dir content : Bytes)
    → get_failover (write_config_to_file disk key dir content).0 key dir ≡ get_failover disk key dir
unfolding get_failover write_config_to_file write_file read_file
get_failover-write_config disk key dir content =
    let n = get_file_name key dir in
    let f = n ++ failover_suffix in
    ground (
      arith,
      failover_name-content key dir,
      lookup-insert n f content disk.files,
      lookup-insert n f content (delete n disk.files),
      lookup-delete n f disk.files,
    )

pub get_failover-write_key :
    (disk : Disk) (key dir content : Bytes)
    → get_failover (write_encrypted_data_key_to_file disk key dir content).0 key dir
      ≡ get_failover disk key dir
unfolding get_failover write_encrypted_data_key_to_file write_file read_file
get_failover-write_key disk key dir content =
    let n = get_config_encrypted_data_key_file_name key dir in
    let f = get_file_name key dir ++ failover_suffix in
    ground (
      arith,
      failover_name-key key dir,
      lookup-insert n f content disk.files,
      lookup-insert n f content (delete n disk.files),
      lookup-delete n f disk.files,
    )
