-- ===== src/Naming/Beat.antt =====
-- clients/naming_client/naming_http/beat_reactor.go, and the calls of it in naming_http_proxy.go:
-- the heartbeats of ephemeral instances that are registered over HTTP.
pub mod Stops
use nacos_sdk_go.Common.{
  ℕ, ◌*◌, ◌≡◌, refl, Bool, true, false, List, [], ◌∷◌, ◌++◌, Option, none, some, Bytes, Dict, codes,
  length, get_elem?, set, if◌then◌else◌, ltb, bytes_eq,
}
use nacos_sdk_go.ConcurrentMap.{ConcurrentMap, Shared, new_map, get, set_key, remove}
use nacos_sdk_go.Util.{get_group_name}
use nacos_sdk_go.Util.Decimal.{itoa}
use nacos_sdk_go.Model.{Instance}

-- `BeatInfo.State`.
pub data BeatState : Type 0 where
  state_running state_shutdown : BeatState

-- `period` is in nanoseconds.
pub record BeatInfo : Type 0 where
  pub ip : Bytes
  pub port : ℕ
  pub weight : ℕ
  pub service_name : Bytes
  pub cluster : Bytes
  pub metadata : Dict Bytes Bytes
  pub period : ℕ
  pub state : BeatState

unfoldable pub build_key : Bytes → Bytes → ℕ → Bytes
build_key service_name ip port = service_name ++ (b'#' ∷ (ip ++ (b'#' ∷ itoa port)))

-- Beats are shared by pointer between `beatMap` and the goroutines: `heap` holds them, a pointer is
-- an index, and `threads` are the loops started, each with its key and its beat.
module _ ⦃cm : ConcurrentMap⦄ where
  pub record BeatReactor : Type 0 where
    pub beat_map : Shared ℕ
    pub heap : List BeatInfo
    pub threads : List (Bytes × ℕ)
    pub beat_record_map : Shared ℕ

  unfoldable pub new_beat_reactor : BeatReactor
  new_beat_reactor = record {
    beat_map = new_map;
    heap = [];
    threads = [];
    beat_record_map = new_map;
  }

  -- `atomic.StoreInt32(&beatInfo.State, StateShutdown)`.
  unfoldable pub store_shutdown : BeatReactor → ℕ → BeatReactor
  store_shutdown br p = elim (get_elem? br.heap p) [
    | none ↦ br
    | some info ↦ record br { heap = set br.heap p (record info { state = state_shutdown }) }
  ]

  -- `Metadata = DeepCopyMap(Metadata)` changes no value: maps are values here.
  abbrev pub watch : BeatReactor → Bytes → ℕ → BeatReactor
  watch br k p = record br {
    beat_map = set_key br.beat_map k p;
    threads = br.threads ++ ((k, p) ∷ []);
  }

  -- The caller's `&model.BeatInfo{…}` is a new pointer.
  unfoldable pub add_beat_info : BeatReactor → Bytes → BeatInfo → BeatReactor
  unfolding store_shutdown
  add_beat_info br service_name beat_info =
      let k = build_key service_name beat_info.ip beat_info.port in
      let p = length br.heap in
      let br' = record br { heap = br.heap ++ (beat_info ∷ []) } in
      elim (get br'.beat_map k) [
        | none ↦ watch br' k p
        | some old ↦
            let br'' = store_shutdown br' old in
            watch (record br'' { beat_map = remove br''.beat_map k }) k old
      ]

  unfoldable pub remove_beat_info : BeatReactor → Bytes → Bytes → ℕ → BeatReactor
  unfolding store_shutdown
  remove_beat_info br service_name ip port =
      let k = build_key service_name ip port in
      let br' : BeatReactor = elim (get br.beat_map k) [
        | none ↦ br
        | some p ↦ store_shutdown br p
      ] in
      record br' { beat_map = remove br'.beat_map k }

  -- What a round of `sendInstanceBeat` ends with: the loop returns, or waits for so many
  -- nanoseconds.
  pub data Round : Type 0 where
    stopped : Round
    waits : ℕ → Round

  -- One round at the time `now`. `beat` is what `SendBeat` gives: an error, or an interval in
  -- milliseconds.
  unfoldable pub beat_round : BeatReactor → Bytes → ℕ → ℕ → Option ℕ → BeatReactor × Round
  beat_round br k p now beat = elim (get_elem? br.heap p) [
    | none ↦ (br, stopped)
    | some info ↦ elim info.state [
      | state_shutdown ↦ (br, stopped)
      | state_running ↦ elim beat [
        | none ↦ (br, waits info.period)
        | some interval ↦
            let period = if ltb 0 interval then interval * 1_000_000 else info.period in
            (
              record br {
                heap = set br.heap p (record info { period = period });
                beat_record_map = set_key br.beat_record_map k now;
              },
              waits period,
            )
      ]
    ]
  ]

  -- `RegisterInstance` over HTTP; `ok` says whether the request succeeded, `period` is what the
  -- metadata asks for.
  unfoldable pub http_register_instance :
      BeatReactor → Bytes → Bytes → Instance → Bool → ℕ → BeatReactor × Option Bool
  http_register_instance br service_name group_name instance' false period = (br, none)
  http_register_instance br service_name group_name instance' true period =
      let service_name = get_group_name service_name group_name in
      if instance'.ephemeral
      then (
        add_beat_info br (get_group_name service_name group_name) (record {
          ip = instance'.ip;
          port = instance'.port;
          weight = instance'.weight;
          service_name = get_group_name service_name group_name;
          cluster = instance'.cluster_name;
          metadata = instance'.metadata;
          period = period;
          state = state_running;
        }),
        some true,
      )
      else (br, some true)

  unfoldable pub http_deregister_instance :
      BeatReactor → Bytes → Bytes → Instance → Bool → BeatReactor × Option Bool
  http_deregister_instance br service_name group_name instance' ok =
      let service_name = get_group_name service_name group_name in
      (remove_beat_info br service_name instance'.ip instance'.port, if ok then some true else none)
