-- ===== src/Config/Limiter.antt =====
-- clients/config_client/limiter.go: a limiter of requests for each key.
use nacos_sdk_go.Common.{
  ℕ, ◌+◌, ◌≡◌, Bool, false, not, Option, none, some, arith, Bytes, bytes_eq, ◌==◌,
}
use nacos_sdk_go.ConcurrentMap.{ConcurrentMap, Shared, get, set_key}

-- golang.org/x/time/rate: a new limiter, and `AllowN(t, 1)` with the time in milliseconds.
pub record Rate (L : Type 0) : Type 0 where
  pub new_limiter : L
  pub allow : L → ℕ → L × Bool

module _ ⦃cm : ConcurrentMap⦄ {L : Type 0} (rate : Rate L) where
  abbrev pub limiter_of : Option L → L
  limiter_of none = rate.new_limiter
  limiter_of (some limiter) = limiter

  -- `IsLimited` at the time `now`; a limiter is a pointer, so that what `AllowN` does to it is in
  -- the map.
  unfoldable pub is_limited : Shared L → Bytes → ℕ → Shared L × Bool
  is_limited limiters check_key now =
      let (limiter, allowed) = rate.allow (limiter_of (get limiters check_key)) (now + 1000) in
      (set_key limiters check_key limiter, not allowed)

  -- What is asked for one key does not count for another.
  is_limited_apart :
      (limiters : Shared L) (check_key other : Bytes) (now later : ℕ)
      → (check_key == other) ≡ false
      → (is_limited (is_limited limiters check_key now).0 other later).1
        ≡ (is_limited limiters other later).1
  unfolding is_limited
  is_limited_apart limiters check_key other now later d =
      let limiter = (rate.allow (limiter_of (get limiters check_key)) (now + 1000)).0 in
      ground (arith, cm.get-set limiters check_key limiter other, d)
