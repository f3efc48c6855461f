-- ===== src/Naming/Holder/Order.antt =====
-- What a history of `ProcessService` leaves in the cache, and that its order does not matter.
use native.Mathlib.Nat.{ℕ_set}
use mathlib.Core.List.{Perm, foldr}
use mathlib.Core.List.Perm
use nacos_sdk_go.Common.{
  ℕ, suc, ◌≡◌, ◌≤◌, ◌<◌, ◌⊎◌, ◌++◌, inl, inr, refl, Option, sym, ap, ◌∙◌, Bool, ◌&&◌, ◌||◌, not,
  List, [], ◌∷◌, none, some, arith, Bytes, bytes_beq_iff, bytes_eq, ◌==◌, length, nat_beq, leb,
  if◌then◌else◌,
}
use nacos_sdk_go.ConcurrentMap.{ConcurrentMap}
use nacos_sdk_go.Model.{Service}
use nacos_sdk_go.Naming.Holder.{Holder, process_service, cache_key_of, is_out_of_date}
use nacos_sdk_go.Naming.Holder.Process.{
  Call, run, version, cached, process_cached, process_policy, step-kept_or_newer,
}

module _ ⦃cm : ConcurrentMap⦄ where
  -- What a call offers for a key: one more than its service's `LastRefTime`, if the service has that
  -- key and is not kept out as empty, and else 0.
  abbrev pub offer : Bool → Bytes → Call → ℕ
  offer takes_empty key (now, none) = 0
  offer takes_empty key (now, some service) =
      if (takes_empty || not (nat_beq (length service.hosts) 0)) && (cache_key_of service == key)
      then suc service.last_ref_time
      else 0

  abbrev pub larger : ℕ → ℕ → ℕ
  larger a b = if leb a b then b else a

  -- The newest of what the calls offer.
  abbrev pub newest : Bool → Bytes → List Call → ℕ
  newest takes_empty key cs = foldr (λ c n. larger (offer takes_empty key c) n) 0 cs

  step-offer :
      (s : Holder) (c : Call) (key : Bytes)
      → version (cached (process_service s c.0 c.1).0 key)
        ≡ larger (version (cached s key)) (offer s.update_cache_when_empty key c)
  unfolding process_service is_out_of_date
  step-offer s (now, none) key = ground arith
  step-offer s (now, some service) key =
      ground (arith, process_cached s now service key, bytes_beq_iff (cache_key_of service) key)

  larger_assoc : (a b c : ℕ) → larger (larger a b) c ≡ larger a (larger b c)
  larger_assoc a b c = ground arith

  larger_swap : (a b c : ℕ) → larger a (larger b c) ≡ larger b (larger a c)
  larger_swap a b c = ground arith

  run-version :
      (s : Holder) (cs : List Call) (key : Bytes)
      → version (cached (run s cs) key)
        ≡ larger (version (cached s key)) (newest s.update_cache_when_empty key cs)
  unfolding run
  run-version s [] key = ground arith
  run-version s (c ∷ cs) key =
      let s' = (process_service s c.0 c.1).0 in
      run-version s' cs key
      ∙ (ap (λ b. larger (version (cached s' key)) (newest b key cs)) (process_policy s c.0 c.1)
          ∙ (ap (λ n. larger n (newest s.update_cache_when_empty key cs)) (step-offer s c key)
              ∙ larger_assoc (version (cached s key)) (offer s.update_cache_when_empty key c)
                  (newest s.update_cache_when_empty key cs)))

  -- The first of the newest: what was cached before, when no call offers anything newer, or else the
  -- service of a call that is newer than that and than all that was offered before it, and at least
  -- as new as all that was offered after it.
  abbrev pub IsFirstNewest : Holder → Bytes → List Call → Option Service → Type 0
  IsFirstNewest s key cs o =
      ((o ≡ cached s key) × (newest s.update_cache_when_empty key cs ≤ version o))
      ⊎ ((before : List Call) × (after : List Call) × (now : ℕ) × (service : Service) × (cs
            ≡ before ++ ((now, some service) ∷ after))
          × (o ≡ some service)
          × (cache_key_of service ≡ key)
          × (version (cached s key) < version o)
          × (newest s.update_cache_when_empty key before < version o)
          × (newest s.update_cache_when_empty key after ≤ version o))

  run-first :
      (s : Holder) (cs : List Call) (key : Bytes) → IsFirstNewest s key cs (cached (run s cs) key)
  unfolding run
  run-first s [] key = inl (refl, omega arith)
  run-first s ((now, o) ∷ cs) key =
      let s' = (process_service s now o).0 in
      let policy = process_policy s now o in
      let same_rest = ap (λ b. newest b key cs) policy in
      let step = step-offer s (now, o) key in
      elim (run-first s' cs key) [
        | inl (same, most) ↦ elim (step-kept_or_newer s (now, o) key) [
          | inl kept ↦
              inl (
                same ∙ kept,
                ground (arith, same_rest, step, most, ap version same, ap version kept),
              )
          | inr (service, is, k, new, newer) ↦ inr (
            [],
            cs,
            now,
            service,
            ap (λ x. (now, x) ∷ cs) is,
            same ∙ new,
            k,
            ground (arith, newer, ap version (same ∙ new)),
            ground (arith, ap version (same ∙ new)),
            ground (arith, same_rest, most, ap version same),
          )
        ]
        | inr (before, after, t, service, split, now_cached, k, newer, first, last) ↦ inr (
          (now, o) ∷ before,
          after,
          t,
          service,
          ap (λ x. (now, o) ∷ x) split,
          now_cached,
          k,
          ground (arith, step, newer),
          ground (arith, step, newer, first, ap (λ b. newest b key before) policy),
          ground (arith, last, ap (λ b. newest b key after) policy),
        )
      ]

  -- Over any history of calls, one after the other, what is cached for a key is the newest of what
  -- was cached for it before and of what
  -- the calls offered for it, and of several equally new ones the first: it is what was cached before
  -- as it was, or the service of one call as it was given.
  pub run-newest :
      (s : Holder) (cs : List Call) (key : Bytes)
      → (version (cached (run s cs) key)
          ≡ larger (version (cached s key)) (newest s.update_cache_when_empty key cs))
        × IsFirstNewest s key cs (cached (run s cs) key)
  run-newest s cs key = (run-version s cs key, run-first s cs key)

  newest-perm :
      (takes_empty : Bool) (key : Bytes) (cs ds : List Call)
      → Perm cs ds
      → newest takes_empty key cs ≡ newest takes_empty key ds
  newest-perm takes_empty key cs ds p =
      Perm.foldr-eq ℕ_set (λ c n. larger (offer takes_empty key c) n)
        (λ c d n. larger_swap (offer takes_empty key c) (offer takes_empty key d) n) p 0

  -- The order in which pushes, queries and redone subscriptions arrive does not matter: two
  -- histories of
  -- the same calls leave equally new services under every key.
  pub run-perm :
      (s : Holder) (cs ds : List Call) (key : Bytes)
      → Perm cs ds
      → version (cached (run s cs) key) ≡ version (cached (run s ds) key)
  run-perm s cs ds key p =
      run-version s cs key
      ∙ (ap (larger (version (cached s key))) (newest-perm s.update_cache_when_empty key cs ds p)
          ∙ sym (run-version s ds key))
