-- ===== src/Naming/Beat/Stops.antt =====
-- When a heartbeat runs and when it stops.
use nacos_sdk_go.Common.{
  ℕ, zero, suc, ◌+◌, ◌≡◌, refl, ap, ◌∙◌, Bool, true, false, List, [], ◌∷◌, ◌++◌, Option, none, some,
  arith, Bytes, length, get_elem?, set, bytes_eq, bytes_beq, bytes_beq_iff, beq_refl, length-append,
  Bool-cases, inl, inr,
}
use nacos_sdk_go.ConcurrentMap.{ConcurrentMap, get, remove}
use nacos_sdk_go.Util.{get_group_name, spliter}
use nacos_sdk_go.Util.Decimal.{itoa}
use nacos_sdk_go.Model.{Instance}
use nacos_sdk_go.Naming.Beat.{
  BeatReactor, BeatInfo, state_running, state_shutdown, build_key, add_beat_info, remove_beat_info,
  beat_round, stopped, http_register_instance, http_deregister_instance,
}

module _ {ℓ} {A : Type ℓ} where
  get_elem?-append_length : (xs : List A) (v : A) → get_elem? (xs ++ (v ∷ [])) (length xs) ≡ some v
  get_elem?-append_length [] v = refl
  get_elem?-append_length (x ∷ xs) v = get_elem?-append_length xs v

  get_elem?-append_left :
      (xs : List A) (v : A) (i : ℕ) (x : A)
      → get_elem? xs i ≡ some x
      → get_elem? (xs ++ (v ∷ [])) i ≡ some x
  get_elem?-append_left [] v i x h = cc
  get_elem?-append_left (y ∷ xs) v zero x h = h
  get_elem?-append_left (y ∷ xs) v (suc i) x h = get_elem?-append_left xs v i x h

  get_elem?-set :
      (xs : List A) (i : ℕ) (v x : A) → get_elem? xs i ≡ some x → get_elem? (set xs i v) i ≡ some v
  get_elem?-set [] i v x h = cc
  get_elem?-set (y ∷ xs) zero v x h = refl
  get_elem?-set (y ∷ xs) (suc i) v x h = get_elem?-set xs i v x h

module _ ⦃cm : ConcurrentMap⦄ where
  -- The beat that `beatMap` holds under a key.
  unfoldable pub beat_at : BeatReactor → Bytes → Option BeatInfo
  beat_at br k = elim (get br.beat_map k) [ none ↦ none | some p ↦ get_elem? br.heap p ]

  -- A beat whose key is new is held as it is given.
  pub add_new_beat :
      (br : BeatReactor) (service_name : Bytes) (info : BeatInfo)
      → get br.beat_map (build_key service_name info.ip info.port) ≡ none
      → beat_at (add_beat_info br service_name info) (build_key service_name info.ip info.port)
        ≡ some info
  unfolding beat_at add_beat_info
  add_new_beat br service_name info h =
      let k = build_key service_name info.ip info.port in
      ground (
        arith,
        h,
        beq_refl k,
        cm.get-set br.beat_map k (length br.heap) k,
        get_elem?-append_length br.heap info,
      )

  -- A beat whose key is already there is dropped: the map keeps the old one, now shut down, so the
  -- loop that is started for it, and the old loop, stop at their next round.
  pub add_beat_again :
      (br : BeatReactor) (service_name : Bytes) (info old : BeatInfo) (p now : ℕ) (beat : Option ℕ)
      → let k = build_key service_name info.ip info.port in
        get br.beat_map k ≡ some p
        → get_elem? br.heap p ≡ some old
        → let br' = add_beat_info br service_name info in
          (beat_at br' k ≡ some (record old { state = state_shutdown }))
          × (br'.threads ≡ br.threads ++ ((k, p) ∷ []))
          × ((beat_round br' k p now beat).1 ≡ stopped)
  unfolding beat_at add_beat_info beat_round
  add_beat_again br service_name info old p now beat h g =
      let k = build_key service_name info.ip info.port in
      let a = get_elem?-append_left br.heap info p old g in
      let b =
        get_elem?-set (br.heap ++ (info ∷ [])) p (record old { state = state_shutdown }) old a in
      let s = cm.get-set (remove br.beat_map k) k p k in
      (
        ground (arith, h, a, b, s, beq_refl k),
        ground (arith, h, a, b, s, beq_refl k),
        ground (arith, h, a, b, s, beq_refl k),
      )

  -- A removed beat is gone from the map, and its loop stops at its next round.
  remove_beat_stops :
      (br : BeatReactor) (service_name ip : Bytes) (port p now : ℕ) (old : BeatInfo)
      (beat : Option ℕ)
      → let k = build_key service_name ip port in
        get br.beat_map k ≡ some p
        → get_elem? br.heap p ≡ some old
        → let br' = remove_beat_info br service_name ip port in
          (beat_at br' k ≡ none) × ((beat_round br' k p now beat).1 ≡ stopped)
  unfolding beat_at remove_beat_info beat_round
  remove_beat_stops br service_name ip port p now old beat h g =
      let k = build_key service_name ip port in
      let b = get_elem?-set br.heap p (record old { state = state_shutdown }) old g in
      let s = cm.get-remove br.beat_map k k in
      (ground (arith, h, b, s, g, beq_refl k), ground (arith, h, b, s, g, beq_refl k))

length-build_key :
    (service_name ip : Bytes) (port : ℕ)
    → length (build_key service_name ip port)
      ≡ length service_name + (length ip + (length (itoa port) + 2))
unfolding build_key
length-build_key service_name ip port = omega (
  arith,
  length-append service_name (b'#' ∷ (ip ++ (b'#' ∷ itoa port))),
  length-append ip (b'#' ∷ itoa port),
)

length-get_group_name :
    (service_name group_name : Bytes)
    → length (get_group_name service_name group_name)
      ≡ length group_name + (2 + length service_name)
unfolding get_group_name
length-get_group_name service_name group_name =
    omega (arith, length-append group_name (spliter ++ service_name))

bytes_beq_sym : (a b : Bytes) → bytes_beq b a ≡ bytes_beq a b
bytes_beq_sym a b = ground (arith, bytes_beq_iff a b, bytes_beq_iff b a)

-- The key with the group once, and the key with the group twice.
abbrev pub removed_key : Bytes → Bytes → Instance → Bytes
removed_key service group i = build_key (get_group_name service group) i.ip i.port

abbrev pub registered_key : Bytes → Bytes → Instance → Bytes
registered_key service group i =
    build_key (get_group_name (get_group_name service group) group) i.ip i.port

keys_differ :
    (service group : Bytes) (i : Instance)
    → bytes_beq (removed_key service group i) (registered_key service group i) ≡ false
keys_differ service group i =
    let once = get_group_name service group in
    let twice = get_group_name once group in
    elim (Bool-cases (bytes_beq (removed_key service group i) (registered_key service group i))) [
      | inr e ↦ e
      | inl e ↦ absurd (
          omega (
            arith,
            ap length (
                (bytes_beq_iff (removed_key service group i) (registered_key service group i)).0 e),
            length-build_key once i.ip i.port,
            length-build_key twice i.ip i.port,
            length-get_group_name once group,
          ))
    ]

module _ ⦃cm : ConcurrentMap⦄ where
  remove_beat_other :
      (br : BeatReactor) (service_name ip : Bytes) (port : ℕ) (k : Bytes)
      → get br.beat_map (build_key service_name ip port) ≡ none
      → bytes_beq (build_key service_name ip port) k ≡ false
      → beat_at (remove_beat_info br service_name ip port) k ≡ beat_at br k
  unfolding beat_at remove_beat_info
  remove_beat_other br service_name ip port k h ne =
      let s = cm.get-remove br.beat_map (build_key service_name ip port) k in
      ground (arith, h, ne, s)

  add_beat_other :
      (br : BeatReactor) (service_name : Bytes) (info : BeatInfo) (k : Bytes)
      → get br.beat_map (build_key service_name info.ip info.port) ≡ none
      → bytes_beq (build_key service_name info.ip info.port) k ≡ false
      → get (add_beat_info br service_name info).beat_map k ≡ get br.beat_map k
  unfolding add_beat_info
  add_beat_other br service_name info k h ne =
      let s =
        cm.get-set br.beat_map (build_key service_name info.ip info.port) (length br.heap) k in
      ground (arith, h, ne, s)

  abbrev beat_of : Bytes → Bytes → Instance → ℕ → BeatInfo
  beat_of service group i period = record {
    ip = i.ip;
    port = i.port;
    weight = i.weight;
    service_name = get_group_name (get_group_name service group) group;
    cluster = i.cluster_name;
    metadata = i.metadata;
    period = period;
    state = state_running;
  }

  -- An ephemeral instance that is registered with the HTTP proxy and deregistered again keeps its
  -- heartbeat running, whether the second request succeeds or not, since the beat is removed under
  -- another key than it was added under: when the first request succeeds and no beat was held under
  -- either key. (NamingProxyDelegate itself sends ephemeral instances to the gRPC proxy.)
  pub deregister_keeps_beating :
      (br : BeatReactor) (service group : Bytes) (i : Instance) (ok : Bool) (period : ℕ)
      → i.ephemeral ≡ true
      → get br.beat_map (registered_key service group i) ≡ none
      → get br.beat_map (removed_key service group i) ≡ none
      → let br' = (http_register_instance br service group i true period).0 in
        let br'' = (http_deregister_instance br' service group i ok).0 in
        (info : BeatInfo) × (beat_at br'' (registered_key service group i) ≡ some info)
        × (info.state ≡ state_running)
  unfolding http_register_instance http_deregister_instance
  deregister_keeps_beating br service group i ok period e h g =
      let twice = get_group_name (get_group_name service group) group in
      let info = beat_of service group i period in
      let br' = add_beat_info br twice info in
      let ne = keys_differ service group i in
      let ne' = bytes_beq_sym (removed_key service group i) (registered_key service group i) ∙ ne in
      let gone : get br'.beat_map (removed_key service group i) ≡ none =
        add_beat_other br twice info (removed_key service group i) h ne' ∙ g in
      (
        info,
        rw e (
            remove_beat_other br' (get_group_name service group) i.ip i.port
              (registered_key service group i) gone ne
            ∙ add_new_beat br twice info h),
        refl,
      )
