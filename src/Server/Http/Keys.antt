-- ===== src/Server/Http/Keys.antt =====
-- The keys of an account do not leave the client in the headers of a request.
use nacos_sdk_go.Common.{
  ℕ, ◌≡◌, refl, ◌∙◌, ap, sym, Bool, true, false, ◌||◌, ◌&&◌, not, [], ◌∷◌, Option, none, some,
  arith, Bytes, Dict, lookup, insert, lookup-insert, lookup-nil, codes, ◌==◌, bytes_eq, bytes_beq,
  if◌then◌else◌, bytes_beq_iff, Bool-cases, Option-cases, inl, inr,
}
use nacos_sdk_go.Server.Http.{
  HttpRequest, HttpResponse, access_key_field, secret_key_field, put_headers, client_version,
  content_type, config_headers, call_config_server,
}

abbrev pub is_key : Bytes → Bool
is_key k = k == access_key_field || k == secret_key_field

put_other :
    (j k v : Bytes) (headers : Dict Bytes Bytes)
    → is_key j ≡ true
    → lookup j headers ≡ none
    → lookup j (
        if not (k == access_key_field) && not (k == secret_key_field)
        then insert k v headers
        else headers)
      ≡ none
put_other j k v headers h e = elim (Bool-cases (k == j)) [
  | inl same ↦
      let key : is_key k ≡ true = ap is_key ((bytes_beq_iff k j).0 same) ∙ h in
      ground (arith, e, key)
  | inr other ↦ ground (arith, e, lookup-insert k j v headers, other)
]

lookup-put_headers :
    (j : Bytes) (new_headers headers : Dict Bytes Bytes)
    → is_key j ≡ true
    → lookup j headers ≡ none
    → lookup j (put_headers new_headers headers) ≡ none
unfolding put_headers
lookup-put_headers j [] headers h e = e
lookup-put_headers j ((k, v) ∷ new_headers) headers h e =
    lookup-put_headers j new_headers _ h (put_other j k v headers h e)

insert_fixed :
    (j k v : Bytes) (headers : Dict Bytes Bytes)
    → is_key j ≡ true
    → is_key k ≡ false
    → lookup j headers ≡ none
    → lookup j (insert k v headers) ≡ none
insert_fixed j k v headers h n e = elim (Bool-cases (k == j)) [
  | inl same ↦
      let key : is_key k ≡ true = ap is_key ((bytes_beq_iff k j).0 same) ∙ h in
      absurd (ground (arith, key, n))
  | inr other ↦ lookup-insert k j v headers ∙ rw other e
]

config_headers-key :
    (j uid : Bytes) (new_headers : Dict Bytes Bytes)
    → is_key j ≡ true
    → lookup j (config_headers new_headers uid) ≡ none
unfolding config_headers bytes_beq
config_headers-key j uid new_headers h =
    let h0 = put_headers new_headers [] in
    let h1 = insert (codes "Client-Version") client_version h0 in
    let h2 = insert (codes "User-Agent") client_version h1 in
    let h3 = insert (codes "Connection") (codes "Keep-Alive") h2 in
    let h4 = insert (codes "exConfigInfo") (codes "true") h3 in
    let h5 = insert (codes "RequestId") uid h4 in
    insert_fixed j (codes "Content-Type") content_type h5 h refl (
      insert_fixed j (codes "RequestId") uid h4 h refl (
        insert_fixed j (codes "exConfigInfo") (codes "true") h3 h refl (
          insert_fixed j (codes "Connection") (codes "Keep-Alive") h2 h refl (
            insert_fixed j (codes "User-Agent") client_version h1 h refl (
              insert_fixed j (codes "Client-Version") client_version h0 h refl
                (lookup-put_headers j new_headers [] h (lookup-nil j)))))))

abbrev or_else : Option Bytes → Option Bytes → Option Bytes
or_else none o = o
or_else (some v) o = some v

-- The value that the given headers have for a name; of several, the last.
abbrev pub given : Bytes → Dict Bytes Bytes → Option Bytes
given j [] = none
given j ((k, v) ∷ new_headers) = or_else (given j new_headers) (if k == j then some v else none)

-- The headers that every request has.
abbrev pub own_headers : Bytes → Dict Bytes Bytes
own_headers uid =
    (codes "Content-Type", codes "application/x-www-form-urlencoded;charset=utf-8")
    ∷ (codes "RequestId", uid)
    ∷ (codes "exConfigInfo", codes "true")
    ∷ (codes "Connection", codes "Keep-Alive")
    ∷ (codes "User-Agent", codes "Nacos-Go-Client:v2.3.5")
    ∷ (codes "Client-Version", codes "Nacos-Go-Client:v2.3.5")
    ∷ []

-- The value for a name, or another one when there is none.
abbrev pub lookup_or : Bytes → Dict Bytes Bytes → Option Bytes → Option Bytes
lookup_or j [] o = o
lookup_or j ((k, v) ∷ headers) o = if k == j then some v else lookup_or j headers o

or_else-none : (o : Option Bytes) → or_else o none ≡ o
or_else-none none = refl
or_else-none (some v) = refl

insert_step :
    (j k v : Bytes) (headers : Dict Bytes Bytes) {o : Option Bytes}
    → lookup j headers ≡ o
    → lookup j (insert k v headers) ≡ (if k == j then some v else o)
insert_step j k v headers e = lookup-insert k j v headers ∙ ap (λ x. if k == j then some v else x) e

put_given :
    (j : Bytes) (new_headers headers : Dict Bytes Bytes)
    → is_key j ≡ false
    → lookup j (put_headers new_headers headers) ≡ or_else (given j new_headers) (lookup j headers)
unfolding put_headers
put_given j [] headers n = refl
put_given j ((k, v) ∷ new_headers) headers n =
    let other : k == j ≡ true → is_key k ≡ false =
      λ same. ap is_key ((bytes_beq_iff k j).0 same) ∙ n in
    elim (Bool-cases (k == j)) [
      | inl same ↦ ground (
        arith,
        other same,
        same,
        put_given j new_headers (insert k v headers) n,
        lookup-insert k j v headers,
      )
      | inr differ ↦ ground (
        arith,
        differ,
        put_given j new_headers (insert k v headers) n,
        put_given j new_headers headers n,
        lookup-insert k j v headers,
      )
    ]

config_headers-lookup :
    (j uid : Bytes) (new_headers : Dict Bytes Bytes)
    → is_key j ≡ false
    → lookup j (config_headers new_headers uid)
      ≡ lookup_or j (own_headers uid) (given j new_headers)
unfolding config_headers
config_headers-lookup j uid new_headers n = insert_step j (codes "Content-Type") content_type _ (
    insert_step j (codes "RequestId") uid _ (
      insert_step j (codes "exConfigInfo") (codes "true") _ (
        insert_step j (codes "Connection") (codes "Keep-Alive") _ (
          insert_step j (codes "User-Agent") client_version _ (
            insert_step j (codes "Client-Version") client_version _ (
              put_given j new_headers [] n
              ∙ rw (lookup-nil j) (or_else-none (given j new_headers))))))))

module _ (agent : HttpRequest → Option HttpResponse) (uuid : Option Bytes) where
  -- A request that `callConfigServer` makes over HTTP has no header named accessKey or secretKey,
  -- whatever headers it is given; under any other name it has its own header, if there is one of that
  -- name, and else the one that is given.
  pub keys_stay :
      (api method cur_server context_path : Bytes) (params new_headers : Dict Bytes Bytes)
      (timeout_ms : ℕ) (request : HttpRequest) (name : Bytes)
      → (call_config_server agent uuid api params new_headers method cur_server context_path
          timeout_ms).0
        ≡ some request
      → (uid : Bytes) × (uuid ≡ some uid)
        × (lookup name request.headers ≡ (
            if is_key name
            then none
            else lookup_or name (own_headers uid) (given name new_headers)))
  unfolding call_config_server
  keys_stay api method cur_server context_path params new_headers timeout_ms request name e =
      elim (Option-cases uuid) [
        | inl u ↦ absurd (ground (arith, u, e))
        | inr (uid, u) ↦
            let made : config_headers new_headers uid ≡ request.headers = ground (arith, u, e) in
            (
              uid,
              u,
              ap (lookup name) (sym made) ∙ elim (Bool-cases (is_key name)) [
                | inl key ↦ rw key (config_headers-key name uid new_headers key)
                | inr other ↦ rw other (config_headers-lookup name uid new_headers other)
              ],
            )
      ]
