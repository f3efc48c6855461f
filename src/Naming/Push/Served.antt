-- ===== src/Naming/Push/Served.antt =====
-- What the push receiver of clients/naming_client/naming_http/push_receiver.go makes of the
-- datagrams it
-- gets: a description of them that says nothing of how they are handled.
use nacos_sdk_go.Common.{
  ℕ, ◌≡◌, refl, ap, ◌∙◌, ◌&&◌, List, [], ◌∷◌, Option, none, some, arith, Bytes, codes, take,
  nat_beq, ◌==◌, bytes_eq, if◌then◌else◌, Option-cases, inl, inr,
}
use nacos_sdk_go.Util.Decimal.{itoa}
use nacos_sdk_go.ConcurrentMap.{ConcurrentMap}
use nacos_sdk_go.Model.{Service}
use nacos_sdk_go.Naming.Holder.{Holder, process_service}
use nacos_sdk_go.Naming.Holder.Process.{Call, run}
use nacos_sdk_go.Naming.Push.{
  PushData, Ack, Readers, is_gzip_file, try_decompress_data, push_ack, handle_push, handle_client,
  handle_clients,
}

-- The kinds of pushes: with a service, a request for what is cached, and any other.
pub data PushKind : Type 0 where
  of_service of_dump of_other : PushKind

abbrev pub kind_named : Bytes → PushKind
kind_named name =
    if name == codes "dom"
    then of_service
    else if name == codes "service"
    then of_service
    else if name == codes "dump"
    then of_dump
    else of_other

-- The answer to a push of a kind.
abbrev pub answer : PushKind → ℕ → Ack
answer of_service n = record { ack_type = codes "push-ack"; last_ref_time = itoa n; text = [] }
answer of_dump n = record { ack_type = codes "dump-ack"; last_ref_time = itoa n; text = codes "{}" }
answer of_other n = record { ack_type = codes "unknow-ack"; last_ref_time = itoa n; text = [] }

module _ (readers : Readers) where
  -- The text of a datagram: what gzip makes of one that starts with the bytes 0x1f and 0x8b, nothing if
  -- that is an error, and any other as it is.
  abbrev pub text_of : Bytes → Bytes
  text_of [] = []
  text_of (a ∷ []) = a ∷ []
  text_of (a ∷ b ∷ rest) =
      if nat_beq a 31 && nat_beq b 139
      then elim (readers.gunzip (a ∷ b ∷ rest)) [ none ↦ [] | some text ↦ text ]
      else a ∷ b ∷ rest

  -- The push in the first 4024 bytes of a datagram, if there is one.
  abbrev pub push_in : Option Bytes → Option PushData
  push_in none = none
  push_in (some datagram) = readers.push_data (text_of (take 4024 datagram))

  -- The service in a push.
  abbrev pub service_in : PushKind → Bytes → Option Service
  service_in of_service text = readers.json_to_service text
  service_in of_dump text = none
  service_in of_other text = none

  abbrev pub pushed : Option PushData → Option Service
  pushed none = none
  pushed (some p) = service_in (kind_named p.push_type) p.text

  abbrev pub answered : Option PushData → List Ack → List Ack
  answered none acks = acks
  answered (some p) acks = answer (kind_named p.push_type) p.last_ref_time ∷ acks

  module _ ⦃cm : ConcurrentMap⦄ where
    -- The calls of `ProcessService` that the datagrams ask for, and their answers.
    abbrev pub calls : List (ℕ × Option Bytes) → List Call
    calls [] = []
    calls ((now, datagram) ∷ datagrams) = (now, pushed (push_in datagram)) ∷ calls datagrams

    abbrev pub answers : List (ℕ × Option Bytes) → List Ack
    answers [] = []
    answers ((now, datagram) ∷ datagrams) = answered (push_in datagram) (answers datagrams)

    try_decompress_data-text_of : (text : Bytes) → try_decompress_data readers text ≡ text_of text
    unfolding try_decompress_data is_gzip_file
    try_decompress_data-text_of [] = refl
    try_decompress_data-text_of (a ∷ []) = refl
    try_decompress_data-text_of (a ∷ b ∷ rest) = ground arith

    handle_push-holder :
        (s : Holder) (now : ℕ) (p : PushData)
        → (handle_push readers s now p).0 ≡ (process_service s now (pushed (some p))).0
    unfolding handle_push process_service
    handle_push-holder s now p = ground arith

    handle_push-ack :
        (s : Holder) (now : ℕ) (p : PushData)
        → (handle_push readers s now p).2 ≡ answer (kind_named p.push_type) p.last_ref_time
    unfolding handle_push push_ack
    handle_push-ack s now p = ground arith

    handle_client-served :
        (s : Holder) (now : ℕ) (datagram : Option Bytes) (acks : List Ack)
        → let (s', effects, ack) = handle_client readers s now datagram in
          (s' ≡ (process_service s now (pushed (push_in datagram))).0)
          × ((elim ack [ none ↦ acks | some a ↦ a ∷ acks ]) ≡ answered (push_in datagram) acks)
    unfolding handle_client process_service
    handle_client-served s now none acks = (refl, refl)
    handle_client-served s now (some datagram) acks =
        let text = try_decompress_data-text_of (take 4024 datagram) in
        elim (Option-cases (readers.push_data (text_of (take 4024 datagram)))) [
          | inl e ↦ (ground (arith, text, e), ground (arith, text, e))
          | inr (p, e) ↦ (
            ground (arith, text, e, handle_push-holder s now p),
            ground (arith, text, e, handle_push-ack s now p),
          )
        ]

    -- However datagrams come in, each read up to its first 4024 bytes and unpacked when it is of
    -- gzip, what
    -- they leave in the cache is what `ProcessService` makes of the services in the pushes of the types
    -- dom and service, in the order of their arrival. Such a push is answered by a push-ack, one of the
    -- type dump by a dump-ack with the text {}, and another by an unknow-ack, each with the LastRefTime
    -- of the push; what is no push is not answered; and the answers go out in the order of the
    -- datagrams.
    pub handle_clients-run :
        (s : Holder) (datagrams : List (ℕ × Option Bytes))
        → ((handle_clients readers s datagrams).0 ≡ run s (calls datagrams))
          × ((handle_clients readers s datagrams).1 ≡ answers datagrams)
    unfolding handle_clients run
    handle_clients-run s [] = (refl, refl)
    handle_clients-run s ((now, datagram) ∷ datagrams) =
        let (s', acks) =
          handle_clients readers (handle_client readers s now datagram).0 datagrams in
        let (state, sent) = handle_client-served s now datagram acks in
        let (later, rest) = handle_clients-run (handle_client readers s now datagram).0 datagrams in
        (
          later ∙ ap (λ t. run t (calls datagrams)) state,
          sent ∙ ap (answered (push_in datagram)) rest,
        )
