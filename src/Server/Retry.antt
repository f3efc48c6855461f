-- ===== src/Server/Retry.antt =====
-- Which servers `ReqApi` and `ReqConfigApi` ask before they give up.
use mathlib.Core.List.{Mem, mem-cons_self, mem-cons_of_mem}
use nacos_sdk_go.Common.{
  ℕ, zero, suc, ◌+◌, ◌%◌, ◌<◌, ◌≡◌, ◌≢◌, ◌↔◌, List, [], ◌∷◌, arith, length, get_elem?, Option, none,
  some, ◌⊎◌, inl, inr, Option-cases, is_some, true,
}
use nacos_sdk_go.Server.{ServerConfig, retry_one, retry_all, req_api}

get_elem?-Mem :
    (srvs : List ServerConfig) (i : ℕ) (s : ServerConfig) → get_elem? srvs i ≡ some s → Mem s srvs
get_elem?-Mem [] i s h = ground arith
get_elem?-Mem (x ∷ srvs) zero s h = let e : x ≡ s = ground arith in rw e (mem-cons_self)
get_elem?-Mem (x ∷ srvs) (suc i) s h = mem-cons_of_mem x (get_elem?-Mem srvs i s h)

module _ {A : Type 0} (call : ℕ → ServerConfig → Option A) where
  -- A server and a round whose call gave the result.
  abbrev pub Answered : List ServerConfig → A → Type 0
  Answered srvs a = (i : ℕ) × (s : ServerConfig) × Mem s srvs × (call i s ≡ some a)

  retry_one-Answered :
      (server : ServerConfig) (rounds i : ℕ) (a : A)
      → retry_one call server rounds i ≡ some a
      → Answered (server ∷ []) a
  unfolding retry_one
  retry_one-Answered server zero i a h = ground arith
  retry_one-Answered server (suc rounds) i a h = elim (Option-cases (call i server)) [
    | inl e ↦ retry_one-Answered server rounds (i + 1) a (ground (arith, e))
    | inr (b, e) ↦ (i, server, mem-cons_self, ground (arith, e))
  ]

  retry_all-Answered :
      (srvs : List ServerConfig) (rounds i index : ℕ) (a : A)
      → retry_all call srvs rounds i index ≡ some a
      → Answered srvs a
  unfolding retry_all
  retry_all-Answered srvs zero i index a h = ground arith
  retry_all-Answered srvs (suc rounds) i index a h = elim (Option-cases (get_elem? srvs index)) [
    | inl e ↦ ground arith
    | inr (s, e) ↦ elim (Option-cases (call i s)) [
      | inl f ↦
          retry_all-Answered srvs rounds (i + 1) ((index + i) % length srvs) a
            (ground (arith, e, f))
      | inr (b, f) ↦ (i, s, get_elem?-Mem srvs index s e, ground (arith, e, f))
    ]
  ]

  -- A result is what a call to one of the listed servers gave.
  req_api-Answered :
      (srvs : List ServerConfig) (start : ℕ) (a : A)
      → req_api call srvs start ≡ some a
      → Answered srvs a
  unfolding req_api
  req_api-Answered [] start a h = ground arith
  req_api-Answered (server ∷ []) start a h = retry_one-Answered server 3 0 a h
  req_api-Answered (server ∷ server2 ∷ srvs) start a h =
      retry_all-Answered (server ∷ server2 ∷ srvs) (length (server ∷ server2 ∷ srvs)) 1 start a h

  -- With a single server the request fails exactly when the three calls of it fail.
  pub req_api_single :
      (server : ServerConfig) (start : ℕ)
      → (req_api call (server ∷ []) start ≡ none)
        ↔ ((call 0 server ≡ none) × (call 1 server ≡ none) × (call 2 server ≡ none))
  unfolding req_api retry_one
  req_api_single server start = ground arith

  -- With two servers, one that answers in every round is found, from either start.
  req_api_pair :
      (s t : ServerConfig) (start : ℕ)
      → start < 2
      → ((i : ℕ) → call i s ≢ none) ⊎ ((i : ℕ) → call i t ≢ none)
      → is_some (req_api call (s ∷ t ∷ []) start) ≡ true
  unfolding req_api retry_all
  req_api_pair s t zero h (inl f) = ground (arith, f 1, f 2)
  req_api_pair s t zero h (inr f) = ground (arith, f 1, f 2)
  req_api_pair s t (suc zero) h (inl f) = ground (arith, f 1, f 2)
  req_api_pair s t (suc zero) h (inr f) = ground (arith, f 1, f 2)
  req_api_pair s t (suc (suc n)) h f = absurd (omega arith)

  -- With three servers the rounds ask the first, the second and the first again, when they start at
  -- the first: the request fails if these calls fail, whatever the third server answers.
  third_server_skipped :
      (a b c : ServerConfig)
      → call 1 a ≡ none
      → call 2 b ≡ none
      → call 3 a ≡ none
      → req_api call (a ∷ b ∷ c ∷ []) 0 ≡ none
  unfolding req_api retry_all
  third_server_skipped a b c h1 h2 h3 = ground (arith, h1, h2, h3)
