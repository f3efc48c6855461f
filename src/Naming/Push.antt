-- ===== src/Naming/Push.antt =====
-- clients/naming_client/naming_http/push_receiver.go: the pushes that a server sends over UDP.
pub mod Served
use nacos_sdk_go.Common.{
  ℕ, zero, suc, ◌+◌, ◌%◌, ◌≡◌, refl, ap, ◌∙◌, Bool, false, ◌||◌, not, List, [], ◌∷◌, Option, none,
  some, arith, Bytes, codes, length, take, ltb, ◌==◌, bytes_eq, if◌then◌else◌, is_some,
  Option-cases, Bool-cases, inl, inr,
}
use nacos_sdk_go.Util.Decimal.{itoa}
use nacos_sdk_go.Util.Trim.{has_prefix}
use nacos_sdk_go.ConcurrentMap.{ConcurrentMap}
use nacos_sdk_go.Model.{Service}
use nacos_sdk_go.Naming.Holder.{Holder, Effect, process_service}
use nacos_sdk_go.Naming.Holder.Process.{Call, run}

pub record PushData : Type 0 where
  pub push_type : Bytes
  pub text : Bytes
  pub last_ref_time : ℕ

-- The answer to a push: a JSON object of three strings.
pub record Ack : Type 0 where
  pub ack_type : Bytes
  pub last_ref_time : Bytes
  pub text : Bytes

abbrev pub gzip_magic : Bytes
gzip_magic = 31 ∷ 139 ∷ []

unfoldable pub is_gzip_file : Bytes → Bool
is_gzip_file text = if ltb (length text) 2 then false else has_prefix gzip_magic text

-- The random ports of `startServer`, and the ones that can be listened on.
module _ (rolls : ℕ → ℕ) (try_listen : ℕ → Bool) where
  -- The loop of `startServer`, with the tries left; no port means that no server is started.
  unfoldable pub start_tries : ℕ → ℕ → Option ℕ
  start_tries zero i = none
  start_tries (suc left) i =
      let port = rolls i % 1000 + 54951 in
      let rest = start_tries left (i + 1) in if try_listen port then some port else rest

  unfoldable pub start_server : Option ℕ
  unfolding start_tries
  start_server = start_tries 3 0

-- The libraries that read a text: of compress/gzip, and `json.Unmarshal` for a push and for a
-- service. No result is an error.
pub record Readers : Type 0 where
  pub gunzip : Bytes → Option Bytes
  pub push_data : Bytes → Option PushData
  pub json_to_service : Bytes → Option Service

-- `ToJsonString` of the cached services: `json.Marshal` of a sync.Map, which has no exported field.
abbrev pub dump_text : Bytes
dump_text = codes "{}"

module _ (readers : Readers) where
  unfoldable pub try_decompress_data : Bytes → Bytes
  unfolding is_gzip_file
  try_decompress_data text =
      if not (is_gzip_file text)
      then text
      else elim (readers.gunzip text) [ none ↦ [] | some s ↦ s ]

  abbrev pub is_service_push : PushData → Bool
  is_service_push p = p.push_type == codes "dom" || p.push_type == codes "service"

  module _ ⦃cm : ConcurrentMap⦄ where
    unfoldable pub push_ack : Holder → PushData → Ack
    push_ack s p =
        if is_service_push p
        then record { ack_type = codes "push-ack"; last_ref_time = itoa p.last_ref_time; text = [] }
        else if p.push_type == codes "dump"
        then record {
          ack_type = codes "dump-ack";
          last_ref_time = itoa p.last_ref_time;
          text = dump_text;
        }
        else record {
          ack_type = codes "unknow-ack";
          last_ref_time = itoa p.last_ref_time;
          text = [];
        }

    -- `ProcessServiceJson` for a push of a service, and the ack.
    unfoldable pub handle_push : Holder → ℕ → PushData → Holder × List Effect × Ack
    unfolding push_ack
    handle_push s now p =
        if is_service_push p
        then (let (s', effects) = process_service s now (readers.json_to_service p.text) in
            (s', effects, push_ack s' p))
        else (s, [], push_ack s p)

    -- `handleClient`, on what `ReadFromUDP` gives, of which it keeps 4024 bytes.
    unfoldable pub handle_client : Holder → ℕ → Option Bytes → Holder × List Effect × Option Ack
    unfolding handle_push try_decompress_data
    handle_client s now none = (s, [], none)
    handle_client s now (some datagram) =
        elim (readers.push_data (try_decompress_data (take 4024 datagram))) [
          | none ↦ (s, [], none)
          | some p ↦ let (s', effects, ack) = handle_push s now p in (s', effects, some ack)
        ]

    -- The loop of `startServer`'s goroutine, over the times and datagrams that come.
    unfoldable pub handle_clients : Holder → List (ℕ × Option Bytes) → Holder × List Ack
    unfolding handle_client
    handle_clients s [] = (s, [])
    handle_clients s ((now, datagram) ∷ datagrams) =
        let (s1, effects, ack) = handle_client s now datagram in
        let (s2, acks) = handle_clients s1 datagrams in
        (s2, elim ack [ none ↦ acks | some a ↦ a ∷ acks ])
