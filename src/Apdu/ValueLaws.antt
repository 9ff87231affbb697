-- ===== src/Apdu/ValueLaws.antt =====
-- `decode_app_value` of bridge-core/src/apdu.rs reads back each value from its bytes.
use micro_bacnet_bridge.Base.{ℕ, suc, ◌+◌, ◌*◌, ◌<◌, ◌≡◌, ap, ◌∙◌, arith}
use micro_bacnet_bridge.Base.{List, [], ◌∷◌, ◌++◌, Bool-cases, inl, inr, length, length-append}
use micro_bacnet_bridge.Base.{ok}
use micro_bacnet_bridge.Slice.{IsSlice, add_usize, dneed, byte_at}
use micro_bacnet_bridge.Slice.Writing.{snoc, next_index}
use micro_bacnet_bridge.Slice.Reading.{byte_at-here, byte_at-append, dneed-append}
use micro_bacnet_bridge.Bacnet.{
  ObjectId, to_raw, BacnetValue, unsigned_int, signed_int, real, enumerated, object_id,
}
use micro_bacnet_bridge.Bacnet.Codes.{IsInstance, to_raw-lt, from_raw-to_raw}
use micro_bacnet_bridge.Bacnet.Values.{IsU32}
use micro_bacnet_bridge.Apdu.Write.{byte, be_bytes, within_i32}
use micro_bacnet_bridge.Apdu.Read.{
  be32, decode_real, decode_object_id, decode_app_value, app_content,
}
use micro_bacnet_bridge.Apdu.Wire.{sized, uint_bytes, int_bytes}
use micro_bacnet_bridge.Apdu.TagLaws.{
  be_fold, be_fold-uint_bytes, be_fold-be_bytes, length-uint_bytes, decode_tag-app,
  decode_unsigned-content, decode_signed-content, sign_of, int_fold-one, int_fold-two,
}
use micro_bacnet_bridge.Base.Bits.{or_four}

-- A value behind a one-byte tag, once its content is known.
pub app_value_run :
    (pre bs rest : List ℕ) (tag : ℕ) (v : BacnetValue)
    → tag < 15
    → length bs < 5
    → IsSlice (pre ++ (sized (tag * 16) bs ++ rest))
    → app_content (pre ++ (sized (tag * 16) bs ++ rest)) (add_usize (length pre) 1) tag (length bs)
      ≡ ok (v, length pre + suc (length bs))
    → decode_app_value (pre ++ (sized (tag * 16) bs ++ rest)) (length pre)
      ≡ ok (v, length pre + suc (length bs))
unfolding decode_app_value
app_value_run pre bs rest tag v ht hn h e =
    rw (decode_tag-app pre (bs ++ rest) tag (length bs) ht hn h) e

-- `*pos` behind the content.
pub end_index :
    (pre bs rest : List ℕ) (t : ℕ)
    → IsSlice (pre ++ (t ∷ (bs ++ rest)))
    → add_usize (add_usize (length pre) 1) (length bs) ≡ length pre + suc (length bs)
end_index pre bs rest t h =
    omega (arith, length-append pre (t ∷ (bs ++ rest)), length-append bs rest)

pub unsigned_run :
    (pre rest : List ℕ) (v : ℕ)
    → IsU32 v
    → IsSlice (pre ++ (sized 0x20 (uint_bytes v) ++ rest))
    → decode_app_value (pre ++ (sized 0x20 (uint_bytes v) ++ rest)) (length pre)
      ≡ ok (unsigned_int v, length pre + suc (length (uint_bytes v)))
unfolding app_content
unsigned_run pre rest v hv h =
    let bs = uint_bytes v in
    app_value_run pre bs rest 2 (unsigned_int v) (omega arith) (length-uint_bytes v).1 h (
      rw (
        decode_unsigned-content bs pre rest (0x20 + length bs) h,
        be_fold-uint_bytes v hv,
        end_index pre bs rest (0x20 + length bs) h,
      ))

pub enumerated_run :
    (pre rest : List ℕ) (v : ℕ)
    → IsU32 v
    → IsSlice (pre ++ (sized 0x90 (uint_bytes v) ++ rest))
    → decode_app_value (pre ++ (sized 0x90 (uint_bytes v) ++ rest)) (length pre)
      ≡ ok (enumerated v, length pre + suc (length (uint_bytes v)))
unfolding app_content
enumerated_run pre rest v hv h =
    let bs = uint_bytes v in
    app_value_run pre bs rest 9 (enumerated v) (omega arith) (length-uint_bytes v).1 h (
      rw (
        decode_unsigned-content bs pre rest (0x90 + length bs) h,
        be_fold-uint_bytes v hv,
        end_index pre bs rest (0x90 + length bs) h,
      ))

pub object_id_run :
    (pre rest : List ℕ) (id : ObjectId)
    → IsInstance id.instance_num
    → IsSlice (pre ++ (sized 0xC0 (be_bytes (to_raw id)) ++ rest))
    → decode_app_value (pre ++ (sized 0xC0 (be_bytes (to_raw id)) ++ rest)) (length pre)
      ≡ ok (object_id id, length pre + 5)
unfolding app_content decode_object_id
object_id_run pre rest id hi h =
    let bs = be_bytes (to_raw id) in
    app_value_run pre bs rest 12 (object_id id) (omega arith) (omega arith) h (
      rw (
        decode_unsigned-content bs pre rest 0xC4 h,
        be_fold-be_bytes (to_raw id) 0 (to_raw-lt id hi),
        from_raw-to_raw id hi,
        end_index pre bs rest 0xC4 h,
      ))

be32-be_bytes : (v : ℕ) → IsU32 v → be32 (byte v 24) (byte v 16) (byte v 8) (byte v 0) ≡ v
be32-be_bytes v h =
    or_four (byte v 24) (byte v 16) (byte v 8) (byte v 0) (omega arith) (omega arith) (omega arith)
      (omega arith)
    ∙ omega arith

decode_real-append :
    (pre rest : List ℕ) (v : ℕ)
    → IsU32 v
    → IsSlice (pre ++ (be_bytes v ++ rest))
    → decode_real (pre ++ (be_bytes v ++ rest)) (length pre) 4 ≡ ok v
unfolding decode_real byte_at
decode_real-append pre rest v hv h =
    let s = be_bytes v ++ rest in
    let room : dneed (pre ++ s) (length pre) 4 ≡ ok tt =
      ground (arith, dneed-append pre s 4 h, length-append pre s) in
    rw
      (
        room,
        byte_at-here pre (byte v 24) (byte v 16 ∷ byte v 8 ∷ byte v 0 ∷ rest) h,
        byte_at-append pre s 1 h (omega arith),
        byte_at-append pre s 2 h (omega arith),
        byte_at-append pre s 3 h (omega arith),
      )
      (ap ok (be32-be_bytes v hv))

pub real_run :
    (pre rest : List ℕ) (v : ℕ)
    → IsU32 v
    → IsSlice (pre ++ (sized 0x40 (be_bytes v) ++ rest))
    → decode_app_value (pre ++ (sized 0x40 (be_bytes v) ++ rest)) (length pre)
      ≡ ok (real v, length pre + 5)
unfolding app_content
real_run pre rest v hv h =
    let bs = be_bytes v in
    let h' : IsSlice ((pre ++ (0x44 ∷ [])) ++ (bs ++ rest)) =
      rw (snoc pre 0x44 (bs ++ rest)) at h in
    let small : IsSlice pre = omega (arith, length-append pre (0x44 ∷ (bs ++ rest))) in
    let content : decode_real (pre ++ (0x44 ∷ (bs ++ rest))) (add_usize (length pre) 1) 4 ≡ ok v =
      rw (snoc pre 0x44 (bs ++ rest), next_index pre 0x44 small)
        (decode_real-append (pre ++ (0x44 ∷ [])) rest v hv h') in
    app_value_run pre bs rest 4 (real v) (omega arith) (omega arith) h
      (rw (content, end_index pre bs rest 0x44 h))

-- One, two or four bytes of an `i32`.
signed_content_run :
    (pre bs rest : List ℕ) (b v : ℕ)
    → length bs < 4
    → be_fold (b ∷ bs) (sign_of b) ≡ v
    → IsSlice (pre ++ (sized 0x30 (b ∷ bs) ++ rest))
    → decode_app_value (pre ++ (sized 0x30 (b ∷ bs) ++ rest)) (length pre)
      ≡ ok (signed_int v, length pre + suc (suc (length bs)))
unfolding app_content
signed_content_run pre bs rest b v hb e h =
    let t = 0x30 + suc (length bs) in
    app_value_run pre (b ∷ bs) rest 3 (signed_int v) (omega arith) (omega arith) h
      (rw (decode_signed-content bs pre rest t b h, e, end_index pre (b ∷ bs) rest t h))

pub signed_run :
    (pre rest : List ℕ) (v : ℕ)
    → IsU32 v
    → IsSlice (pre ++ (sized 0x30 (int_bytes v) ++ rest))
    → decode_app_value (pre ++ (sized 0x30 (int_bytes v) ++ rest)) (length pre)
      ≡ ok (signed_int v, length pre + suc (length (int_bytes v)))
signed_run pre rest v hv h = elim (Bool-cases (within_i32 128 v)) [
  | inl a ↦
      rw a (
        signed_content_run pre [] rest (byte v 0) v (omega arith) (int_fold-one v hv a) (rw a at h))
  | inr a ↦ elim (Bool-cases (within_i32 32768 v)) [
    | inl b ↦
        rw (a, b)
          (signed_content_run pre (byte v 0 ∷ []) rest (byte v 8) v (omega arith)
            (int_fold-two v hv b) (rw (a, b) at h))
    | inr b ↦
        rw (a, b)
          (signed_content_run pre (byte v 16 ∷ byte v 8 ∷ byte v 0 ∷ []) rest (byte v 24) v
            (omega arith) (be_fold-be_bytes v _ hv) (rw (a, b) at h))
  ]
]
