-- ===== src/Apdu/Requests.antt =====
-- The decoders of the services in bridge-core/src/apdu.rs read the bytes of each message.
use micro_bacnet_bridge.Base.{
  ℕ, ◌^◌, ◌%◌, ◌<◌, ◌≡◌, refl, ap, arith, List, [], ◌++◌, some, none, Option, Bool, true, false,
  if◌then◌else◌, append-nil,
}
use micro_bacnet_bridge.Slice.Decoder.{Decoder, ◌>>=◌, ◌>>◌}
use micro_bacnet_bridge.Slice.Reading.{
  Reads, Reads-bind, Reads-seq, Reads-lift, Reads-map, Reads-pure, Reads-eq,
}
use micro_bacnet_bridge.Bacnet.{
  ObjectId, property_code, BacnetValue, object_id, unsigned_int, enumerated,
}
use micro_bacnet_bridge.Bacnet.Codes.{IsInstance}
use micro_bacnet_bridge.Bacnet.Values.{IsU32, IsValue}
use micro_bacnet_bridge.Apdu.Types.{
  IAmData, ReadPropertyRequest, ReadPropertyAnswer, WritePropertyRequest, SubscribeCovRequest,
  read_property, read_property_ack, write_property, subscribe_cov, i_am, who_is,
}
use micro_bacnet_bridge.Apdu.Read.{
  decode_context_object_id, decode_context_unsigned, decode_app_value, expect_opening_tag,
  expect_closing_tag,
}
use micro_bacnet_bridge.Apdu.Wire.{context_id, context_uint, value_bytes}
use micro_bacnet_bridge.Apdu.Decode.{
  decode_limits, decode_i_am, decode_read_property, decode_read_property_ack, decode_write_property,
  decode_subscribe_cov, required, as_object_id, as_unsigned, as_enumerated, is_nonzero,
}
use micro_bacnet_bridge.Apdu.Messages.{
  i_am_bytes, IsIAm, read_property_bytes, IsReadProperty, read_property_ack_bytes,
  IsReadPropertyAnswer, write_property_bytes, IsWriteProperty, IsOptionalByte, subscribe_cov_bytes,
  IsSubscribeCov, bracketed,
}
use micro_bacnet_bridge.Apdu.ReadLaws.{
  Reads-context_unsigned, Reads-context_object_id, Reads-optional, IsOptional, Reads-absent_end,
  Reads-absent_opening, Reads-opening_tag, Reads-closing_tag,
}
use micro_bacnet_bridge.Apdu.TextLaws.{Reads-app_value}
use mathlib.Core.Option
use mathlib.Core.Path.{subst}

Reads-required {ℓ} : {A : Type ℓ} (x : A) (rest : List ℕ) → Reads (required (some x)) [] rest x
unfolding required
Reads-required x rest = Reads-lift x rest

-- A required field and what goes on with it.
module _ {ℓ} {B : Type ℓ} where
  pub Reads-id :
      (tag : ℕ) (id : ObjectId) (k : ObjectId → Decoder B) {cs rest : List ℕ} {w : B}
      → tag < 15
      → IsInstance id.instance_num
      → Reads (k id) cs rest w
      → Reads
          (decode_context_object_id tag >>= λ o. required o >>= k)
          (context_id tag id ++ cs)
          rest
          w
  Reads-id tag id k ht hi r =
      Reads-bind (λ o. required o >>= k) (Reads-context_object_id tag id _ ht hi)
        (Reads-bind k (Reads-required id _) r)

  pub Reads-uint :
      (tag v : ℕ) (k : ℕ → Decoder B) {cs rest : List ℕ} {w : B}
      → tag < 15
      → IsU32 v
      → Reads (k v) cs rest w
      → Reads
          (decode_context_unsigned tag >>= λ o. required o >>= k)
          (context_uint tag v ++ cs)
          rest
          w
  Reads-uint tag v k ht hv r =
      Reads-bind (λ o. required o >>= k) (Reads-context_unsigned tag v _ ht hv)
        (Reads-bind k (Reads-required v _) r)

  -- A value in brackets.
  pub Reads-bracketed :
      (tag : ℕ) (v : BacnetValue) (k : BacnetValue → Decoder B) {cs rest : List ℕ} {w : B}
      → tag < 15
      → IsValue v
      → Reads (k v) cs rest w
      → Reads
          (expect_opening_tag tag >> (decode_app_value >>= λ x. expect_closing_tag tag >> k x))
          (bracketed tag v cs)
          rest
          w
  Reads-bracketed tag v k ht hv r = Reads-seq (Reads-opening_tag tag _ ht) (
      Reads-bind (λ x. expect_closing_tag tag >> k x) (Reads-app_value v _ hv)
        (Reads-seq (Reads-closing_tag tag _ ht) r))

pub Reads-read_property :
    (req : ReadPropertyRequest) (invoke_id : ℕ)
    → IsReadProperty req
    → Reads
        (decode_read_property invoke_id)
        (read_property_bytes req)
        []
        (read_property req invoke_id)
unfolding decode_read_property
Reads-read_property req invoke_id v = Reads-id 0 req.object_id _ (omega arith) v.id (
    Reads-uint 1 (property_code req.property_id) _ (omega arith) v.property.code (
      rw v.property.canonical (
        Reads-map _
          (Reads-optional 2 req.array_index [] (omega arith) v.index (Reads-absent_end 2)))))

pub Reads-read_property_ack :
    (ack : ReadPropertyAnswer) (invoke_id : ℕ)
    → IsReadPropertyAnswer ack
    → Reads
        (decode_read_property_ack invoke_id)
        (read_property_ack_bytes ack)
        []
        (read_property_ack ack invoke_id)
unfolding decode_read_property_ack
Reads-read_property_ack ack invoke_id v = Reads-id 0 ack.object_id _ (omega arith) v.id (
    Reads-uint 1 (property_code ack.property_id) _ (omega arith) v.property.code (
      rw v.property.canonical (
        Reads-bind _
          (Reads-optional 2 ack.array_index _ (omega arith) v.index
            (Reads-absent_opening 2 3 _ (omega arith) (omega arith)))
          (Reads-bracketed 3 ack.value _ (omega arith) v.value (Reads-pure _ [])))))

byte-IsOptional :
    (o : Option ℕ) → IsOptionalByte o → IsOptional o × (Option.map (λ p. p % 2 ^ 8) o ≡ o)
byte-IsOptional none h = (tt, refl)
byte-IsOptional (some v) h = (omega arith, ap some (omega arith))

pub Reads-write_property :
    (req : WritePropertyRequest) (invoke_id : ℕ)
    → IsWriteProperty req
    → Reads
        (decode_write_property invoke_id)
        (write_property_bytes req)
        []
        (write_property req invoke_id)
unfolding decode_write_property
Reads-write_property req invoke_id v =
    let (fits, kept) = byte-IsOptional req.priority v.priority in
    Reads-id 0 req.object_id _ (omega arith) v.id (
      Reads-uint 1 (property_code req.property_id) _ (omega arith) v.property.code (
        rw v.property.canonical (
          Reads-bind _
            (Reads-optional 2 req.array_index _ (omega arith) v.index
              (Reads-absent_opening 2 3 _ (omega arith) (omega arith)))
            (Reads-bracketed 3 req.value _ (omega arith) v.value (
              Reads-eq (ap (λ p. write_property (record req { priority = p }) invoke_id) kept) (
                Reads-map _
                  (Reads-optional 4 req.priority [] (omega arith) fits (Reads-absent_end 4))))))))

confirmed_flag : (b : Bool) → is_nonzero (some (if b then 1 else 0)) ≡ b
unfolding is_nonzero
confirmed_flag true = refl
confirmed_flag false = refl

confirmed_flag_fits : (b : Bool) → IsU32 (if b then 1 else 0)
confirmed_flag_fits true = omega arith
confirmed_flag_fits false = omega arith

pub Reads-subscribe_cov :
    (req : SubscribeCovRequest) (invoke_id : ℕ)
    → IsSubscribeCov req
    → Reads
        (decode_subscribe_cov invoke_id)
        (subscribe_cov_bytes req)
        []
        (subscribe_cov req invoke_id)
unfolding decode_subscribe_cov
Reads-subscribe_cov req invoke_id v =
    Reads-uint 0 req.subscriber_process_id _ (omega arith) v.process (
      Reads-id 1 req.monitored_object _ (omega arith) v.id (
        Reads-bind _
          (Reads-context_unsigned 2 _ _ (omega arith) (confirmed_flag_fits req.issue_confirmed))
          (rw (confirmed_flag req.issue_confirmed) (
            Reads-map _
              (Reads-optional 3 req.lifetime [] (omega arith) v.lifetime (Reads-absent_end 3))))))

-- A value of one kind, as `decode_i_am` takes it.
module _ {ℓ κ} {A : Type κ} {B : Type ℓ} where
  Reads-value :
      (v : BacnetValue) (f : BacnetValue → Option A) (x : A) (k : A → Decoder B) {cs rest : List ℕ}
      {w : B}
      → f v ≡ some x
      → IsValue v
      → Reads (k x) cs rest w
      → Reads (decode_app_value >>= λ y. required (f y) >>= k) (value_bytes v ++ cs) rest w
  Reads-value v f x k e hv r =
      Reads-bind (λ y. required (f y) >>= k) (Reads-app_value v _ hv)
        (rw e (Reads-bind k (Reads-required x _) r))

  Reads-value_last :
      (v : BacnetValue) (f : BacnetValue → Option A) (x : A) (k : A → Decoder B) {rest : List ℕ}
      {w : B}
      → f v ≡ some x
      → IsValue v
      → Reads (k x) [] rest w
      → Reads (decode_app_value >>= λ y. required (f y) >>= k) (value_bytes v) rest w
  Reads-value_last v f x k {rest} {w} e hv r =
      subst (λ bs. Reads (decode_app_value >>= λ y. required (f y) >>= k) bs rest w)
        (append-nil (value_bytes v)) (Reads-value v f x k e hv r)

cut_fields :
    (iam : IAmData)
    → IsIAm iam
    → i_am
        (record iam { segmentation = iam.segmentation % 2 ^ 8; vendor_id = iam.vendor_id % 2 ^ 16 })
      ≡ i_am iam
cut_fields iam v = ground arith

pub Reads-i_am : (iam : IAmData) → IsIAm iam → Reads decode_i_am (i_am_bytes iam) [] (i_am iam)
unfolding decode_i_am as_object_id as_unsigned as_enumerated
Reads-i_am iam v = Reads-eq (cut_fields iam v) (
    Reads-value (object_id iam.device_id) as_object_id iam.device_id _ refl v.id (
      Reads-value (unsigned_int iam.max_apdu) as_unsigned iam.max_apdu _ refl v.max_apdu (
        Reads-value (enumerated iam.segmentation) as_enumerated iam.segmentation _ refl
          (omega (arith, v.segmentation))
          (Reads-value_last (unsigned_int iam.vendor_id) as_unsigned iam.vendor_id _ refl
            (omega (arith, v.vendor_id)) (Reads-pure _ [])))))

pub Reads-limits :
    (lo hi : ℕ)
    → IsU32 lo
    → IsU32 hi
    → Reads decode_limits
        (context_uint 0 lo ++ context_uint 1 hi)
        []
        (who_is (record { low_limit = some lo; high_limit = some hi }))
unfolding decode_limits
Reads-limits lo hi hl hh =
    Reads-bind _ (Reads-context_unsigned 0 lo _ (omega arith) hl)
      (Reads-map _ (Reads-context_unsigned 1 hi [] (omega arith) hh))
