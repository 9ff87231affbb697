-- ===== src/Apdu/Discovery.antt =====
-- Encoding then decoding, in bridge-core/src/apdu.rs: discovery and change-of-value messages.
use micro_bacnet_bridge.Base.{
  ℕ, ◌==◌, Bool-cases, inl, inr, ◌+◌, ◌<◌, ◌≡◌, refl, ap, arith, List, [], ◌∷◌, ◌++◌, ok, length,
  length-append, take, if◌then◌else◌, Option, none, some, false,
}
use micro_bacnet_bridge.Slice.{IsSlice}
use micro_bacnet_bridge.Slice.Reading.{Reads, Reads-bind, Reads-map}
use micro_bacnet_bridge.Slice.Writing.{Emits, Emits-emit, Emits-⟫, Emits-skip, received}
use micro_bacnet_bridge.Bacnet.{PropertyId, property_code, BacnetValue}
use micro_bacnet_bridge.Bacnet.Values.{IsValue}
use micro_bacnet_bridge.Apdu.Types.{
  IAmData, SubscribeCovRequest, CovNotification, WhoIsRequest, DecodedApdu, who_is, i_am,
  subscribe_cov, unconfirmed_cov_notification,
}
use micro_bacnet_bridge.Apdu.Encode.{
  encode_limits, encode_who_is, encode_i_am, encode_subscribe_cov, encode_entry, encode_entries,
  encode_ucov_notification,
}
use micro_bacnet_bridge.Apdu.Decode.{decode_apdu}
use micro_bacnet_bridge.Apdu.Dispatch.{
  dispatch-subscribe_cov, dispatch-who_is, dispatch-i_am, dispatch-ucov,
}
use micro_bacnet_bridge.Apdu.Messages.{
  i_am_bytes, IsIAm, subscribe_cov_bytes, IsSubscribeCov, entry_bytes, entries_bytes, AreEntries,
  ucov_bytes, IsNotification,
}
use micro_bacnet_bridge.Apdu.WriteLaws.{
  Emits-app_unsigned, Emits-app_enumerated, Emits-context_unsigned, Emits-app_object_id,
  Emits-context_object_id, Emits-opening_tag, Emits-closing_tag, Emits-optional,
}
use micro_bacnet_bridge.Apdu.Requests.{Reads-i_am, Reads-limits, Reads-subscribe_cov}
use micro_bacnet_bridge.Apdu.Wire.{context_uint}
use micro_bacnet_bridge.Apdu.ReadLaws.{IsOptional, Reads-absent_end}
use micro_bacnet_bridge.Apdu.Notifications.{Reads-ucov}
use micro_bacnet_bridge.Apdu.RoundTrip.{confirmed, Emits-bracketed_last}
use micro_bacnet_bridge.Apdu.Decode.{decode_who_is, decode_limits}

Emits-i_am : (iam : IAmData) → Emits (encode_i_am iam) ((0x10 ∷ 0x00 ∷ []) ++ i_am_bytes iam)
unfolding encode_i_am
Emits-i_am iam = Emits-⟫ (Emits-emit 2 (0x10 ∷ 0x00 ∷ []) refl (omega arith)) (
    Emits-⟫ (Emits-app_object_id iam.device_id) (
      Emits-⟫ (Emits-app_unsigned iam.max_apdu)
        (Emits-⟫ (Emits-app_enumerated iam.segmentation) (Emits-app_unsigned iam.vendor_id))))

-- An I-Am announcement that was encoded into a buffer of fewer than 2 ^ 31 bytes is decoded to
-- itself, where its fields are in the ranges of their Rust types and its instance number has 22
-- bits.
pub i_am_round_trip :
    (fuel : ℕ) (iam : IAmData) (buf : List ℕ) {buf' : List ℕ} {n : ℕ}
    → IsIAm iam
    → IsSlice buf
    → encode_i_am iam buf 0 ≡ ok (buf', n)
    → decode_apdu fuel (take n buf') ≡ ok (i_am iam)
i_am_round_trip fuel iam buf v h e =
    received (decode_apdu fuel) (0x10 ∷ 0x00 ∷ []) (i_am_bytes iam) (Emits-i_am iam) buf h e
      (dispatch-i_am fuel (Reads-i_am iam v))

-- Limits are on the wire only where both are given.
abbrev limits_bytes : Option ℕ → Option ℕ → List ℕ
limits_bytes none high = []
limits_bytes (some lo) none = []
limits_bytes (some lo) (some hi) = context_uint 0 lo ++ context_uint 1 hi

abbrev pub sent_limits : Option ℕ → Option ℕ → WhoIsRequest
sent_limits none high = record { low_limit = none; high_limit = none }
sent_limits (some lo) none = record { low_limit = none; high_limit = none }
sent_limits (some lo) (some hi) = record { low_limit = some lo; high_limit = some hi }

Emits-limits : (low high : Option ℕ) → Emits (encode_limits low high) (limits_bytes low high)
unfolding encode_limits
Emits-limits none high = Emits-skip
Emits-limits (some lo) none = Emits-skip
Emits-limits (some lo) (some hi) =
    Emits-⟫ (Emits-context_unsigned 0 lo (omega arith)) (Emits-context_unsigned 1 hi (omega arith))

Emits-who_is :
    (low high : Option ℕ)
    → Emits (encode_who_is low high) ((0x10 ∷ 0x08 ∷ []) ++ limits_bytes low high)
unfolding encode_who_is
Emits-who_is low high =
    Emits-⟫ (Emits-emit 2 (0x10 ∷ 0x08 ∷ []) refl (omega arith)) (Emits-limits low high)

abbrev unbounded : DecodedApdu
unbounded = who_is (record { low_limit = none; high_limit = none })

-- Data that is not empty is read for limits.
limits_run :
    (bs pre : List ℕ) (x : DecodedApdu)
    → Reads decode_limits bs [] x
    → 0 < length bs
    → IsSlice (pre ++ (bs ++ []))
    → decode_who_is (pre ++ (bs ++ [])) (length pre) ≡ ok (x, length pre + length bs)
unfolding decode_who_is
limits_run bs pre x r some_bytes h =
    let test : (length (pre ++ (bs ++ [])) == 0) ≡ false =
      ground (arith, length-append pre (bs ++ []), length-append bs []) in
    rw test (r.run pre h)

absent_limits : Reads decode_limits [] [] unbounded
unfolding decode_limits
absent_limits = Reads-bind _ (Reads-absent_end 0) (Reads-map _ (Reads-absent_end 1))

no_limits_run :
    (pre : List ℕ)
    → IsSlice (pre ++ [])
    → decode_who_is (pre ++ []) (length pre) ≡ ok (unbounded, length pre + 0)
unfolding decode_who_is
no_limits_run pre h = elim (Bool-cases (length (pre ++ []) == 0)) [
  | inl a ↦ rw a (ap (λ (n : ℕ). ok (unbounded, n)) (omega arith))
  | inr a ↦ rw a (absent_limits.run pre h)
]

Reads-who_is :
    (low high : Option ℕ)
    → IsOptional low
    → IsOptional high
    → Reads decode_who_is (limits_bytes low high) [] (who_is (sent_limits low high))
Reads-who_is none high hl hh = record { run = λ pre h. no_limits_run pre h }
Reads-who_is (some lo) none hl hh = record { run = λ pre h. no_limits_run pre h }
Reads-who_is (some lo) (some hi) hl hh = record {
  run = λ pre h.
      limits_run (limits_bytes (some lo) (some hi)) pre _ (Reads-limits lo hi hl hh) (omega arith)
        h;
}

-- A Who-Is request that was encoded into a buffer of fewer than 2 ^ 31 bytes is decoded to the
-- limits that it was encoded with where both are given, and to an unbounded one where either is
-- missing; the limits are 32-bit numbers.
pub who_is_round_trip :
    (fuel : ℕ) (low high : Option ℕ) (buf : List ℕ) {buf' : List ℕ} {n : ℕ}
    → IsOptional low
    → IsOptional high
    → IsSlice buf
    → encode_who_is low high buf 0 ≡ ok (buf', n)
    → decode_apdu fuel (take n buf') ≡ ok (who_is (sent_limits low high))
who_is_round_trip fuel low high buf hl hh h e =
    received (decode_apdu fuel) (0x10 ∷ 0x08 ∷ []) (limits_bytes low high) (Emits-who_is low high)
      buf h e (dispatch-who_is fuel (Reads-who_is low high hl hh))

Emits-subscribe_cov :
    (req : SubscribeCovRequest) (invoke_id : ℕ)
    → Emits
        (encode_subscribe_cov req invoke_id)
        (confirmed invoke_id 0x05 ++ subscribe_cov_bytes req)
unfolding encode_subscribe_cov
Emits-subscribe_cov req invoke_id =
    Emits-⟫ (Emits-emit 4 (confirmed invoke_id 0x05) refl (omega arith)) (
      Emits-⟫ (Emits-context_unsigned 0 req.subscriber_process_id (omega arith)) (
        Emits-⟫ (Emits-context_object_id 1 req.monitored_object (omega arith)) (
          Emits-⟫ (Emits-context_unsigned 2 (if req.issue_confirmed then 1 else 0) (omega arith))
            (Emits-optional 3 req.lifetime (omega arith)))))

-- A SubscribeCOV request that was encoded into a buffer of fewer than 2 ^ 31 bytes is decoded to
-- itself, where its fields are in the ranges of their Rust types and its instance number has 22
-- bits.
pub subscribe_cov_round_trip :
    (fuel : ℕ) (req : SubscribeCovRequest) (invoke_id : ℕ) (buf : List ℕ) {buf' : List ℕ} {n : ℕ}
    → IsSubscribeCov req
    → IsSlice buf
    → encode_subscribe_cov req invoke_id buf 0 ≡ ok (buf', n)
    → decode_apdu fuel (take n buf') ≡ ok (subscribe_cov req invoke_id)
subscribe_cov_round_trip fuel req invoke_id buf v h e =
    received (decode_apdu fuel) (confirmed invoke_id 0x05) (subscribe_cov_bytes req)
      (Emits-subscribe_cov req invoke_id) buf h e
      (dispatch-subscribe_cov fuel invoke_id (Reads-subscribe_cov req invoke_id v))

Emits-entry : (e : PropertyId × BacnetValue) → IsValue e.1 → Emits (encode_entry e) (entry_bytes e)
unfolding encode_entry
Emits-entry (p, v) h =
    Emits-⟫ (Emits-context_unsigned 0 (property_code p) (omega arith))
      (Emits-bracketed_last 2 v (omega arith) h)

Emits-entries :
    (es : List (PropertyId × BacnetValue))
    → AreEntries es
    → Emits (encode_entries es) (entries_bytes es)
unfolding encode_entries
Emits-entries [] h = Emits-skip
Emits-entries (e ∷ es) (hp, hv, hs) = Emits-⟫ (Emits-entry e hv) (Emits-entries es hs)

pub Emits-ucov :
    (n : CovNotification)
    → IsNotification n
    → Emits (encode_ucov_notification n) ((0x10 ∷ 0x02 ∷ []) ++ ucov_bytes n)
unfolding encode_ucov_notification
Emits-ucov n v = Emits-⟫ (Emits-emit 2 (0x10 ∷ 0x02 ∷ []) refl (omega arith)) (
    Emits-⟫ (Emits-context_unsigned 0 n.subscriber_process_id (omega arith)) (
      Emits-⟫ (Emits-context_object_id 1 n.initiating_device (omega arith)) (
        Emits-⟫ (Emits-context_object_id 2 n.monitored_object (omega arith)) (
          Emits-⟫ (Emits-context_unsigned 3 n.time_remaining (omega arith)) (
            Emits-⟫ (Emits-opening_tag 4 (omega arith))
              (Emits-⟫ (Emits-entries n.values v.entries) (Emits-closing_tag 4 (omega arith))))))))

-- A notification of at most eight values that was encoded into a buffer of fewer than 2 ^ 31 bytes
-- is decoded to itself, where the loop over the values has fuel for one turn more than there are
-- values, the fields and values are in the ranges of their Rust types, instance numbers have 22
-- bits, and no property is a known one under its raw code.
pub ucov_round_trip :
    (fuel : ℕ) (notif : CovNotification) (buf : List ℕ) {buf' : List ℕ} {n : ℕ}
    → IsNotification notif
    → length notif.values < fuel
    → IsSlice buf
    → encode_ucov_notification notif buf 0 ≡ ok (buf', n)
    → decode_apdu fuel (take n buf') ≡ ok (unconfirmed_cov_notification notif)
ucov_round_trip fuel notif buf v hf h e =
    received (decode_apdu fuel) (0x10 ∷ 0x02 ∷ []) (ucov_bytes notif) (Emits-ucov notif v) buf h e
      (dispatch-ucov fuel (Reads-ucov fuel notif v hf))
