-- ===== src/Apdu/ReadLaws.antt =====
-- The reading helpers of bridge-core/src/apdu.rs take the bytes of the wire format and nothing more.
use micro_bacnet_bridge.Base.{ℕ, suc, ◌+◌, ◌*◌, ◌<◌, ◌≡◌, ◌≢◌, ap, ◌∙◌, arith}
use micro_bacnet_bridge.Base.{
  List, [], ◌∷◌, ◌++◌, true, false, length, length-append, get_elem?-append,
}
use micro_bacnet_bridge.Base.Bits.{high_nibble, class_bit, low_three}
use micro_bacnet_bridge.Base.{Option, none, some, ok}
use micro_bacnet_bridge.Slice.{IsSlice}
use micro_bacnet_bridge.Slice.Reading.{Reads}
use micro_bacnet_bridge.Bacnet.{ObjectId, to_raw}
use micro_bacnet_bridge.Bacnet.Codes.{IsInstance, to_raw-lt, from_raw-to_raw}
use micro_bacnet_bridge.Bacnet.Values.{IsU32}
use micro_bacnet_bridge.Apdu.Write.{be_bytes}
use micro_bacnet_bridge.Apdu.Read.{
  decode_context_unsigned, decode_context_object_id, expect_bracket, expect_opening_tag,
  expect_closing_tag, is_closing_tag,
}
use micro_bacnet_bridge.Apdu.Wire.{
  sized, context, uint_bytes, context_uint, context_id, opening, closing, optional_bytes,
}
use micro_bacnet_bridge.Apdu.TagLaws.{
  be_fold, be_fold-uint_bytes, be_fold-be_bytes, length-uint_bytes, decode_tag-context,
  decode_tag-bracket, decode_unsigned-content,
}

context_unsigned_run :
    (pre bs rest : List ℕ) (tag : ℕ)
    → tag < 15
    → length bs < 5
    → IsSlice (pre ++ (sized (context tag) bs ++ rest))
    → decode_context_unsigned tag (pre ++ (sized (context tag) bs ++ rest)) (length pre)
      ≡ ok (some (be_fold bs 0), length pre + suc (length bs))
unfolding decode_context_unsigned
context_unsigned_run pre bs rest tag ht hn h = ground (
  arith,
  length-append pre (sized (context tag) bs ++ rest),
  length-append bs rest,
  decode_tag-context pre (bs ++ rest) tag (length bs) ht hn h,
  decode_unsigned-content bs pre rest (context tag + length bs) h,
)

pub Reads-context_unsigned :
    (tag v : ℕ) (rest : List ℕ)
    → tag < 15
    → IsU32 v
    → Reads (decode_context_unsigned tag) (context_uint tag v) rest (some v)
Reads-context_unsigned tag v rest ht hv = record {
  run = λ pre h.
      context_unsigned_run pre (uint_bytes v) rest tag ht (length-uint_bytes v).1 h
      ∙ ap (λ (n : ℕ). ok (some n, length pre + suc (length (uint_bytes v))))
          (be_fold-uint_bytes v hv);
}

context_object_id_run :
    (pre rest : List ℕ) (tag : ℕ) (id : ObjectId)
    → tag < 15
    → IsInstance id.instance_num
    → IsSlice (pre ++ (context_id tag id ++ rest))
    → decode_context_object_id tag (pre ++ (context_id tag id ++ rest)) (length pre)
      ≡ ok (some id, length pre + 5)
unfolding decode_context_object_id
context_object_id_run pre rest tag id ht hi h = ground (
  arith,
  length-append pre (context_id tag id ++ rest),
  length-append (be_bytes (to_raw id)) rest,
  decode_tag-context pre (be_bytes (to_raw id) ++ rest) tag 4 ht (omega arith) h,
  decode_unsigned-content (be_bytes (to_raw id)) pre rest (context tag + 4) h,
  be_fold-be_bytes (to_raw id) 0 (to_raw-lt id hi),
  from_raw-to_raw id hi,
)

pub Reads-context_object_id :
    (tag : ℕ) (id : ObjectId) (rest : List ℕ)
    → tag < 15
    → IsInstance id.instance_num
    → Reads (decode_context_object_id tag) (context_id tag id) rest (some id)
Reads-context_object_id tag id rest ht hi = record {
  run = λ pre h. context_object_id_run pre rest tag id ht hi h;
}

bracket_run :
    (pre rest : List ℕ) (tag n : ℕ)
    → tag < 15
    → 5 < n
    → n < 8
    → IsSlice (pre ++ ((context tag + n) ∷ rest))
    → expect_bracket n tag (pre ++ ((context tag + n) ∷ rest)) (length pre)
      ≡ ok (tt, length pre + 1)
unfolding expect_bracket
bracket_run pre rest tag n ht lo hn h = ground (
  arith,
  length-append pre ((context tag + n) ∷ rest),
  decode_tag-bracket pre rest tag n ht lo hn h,
)

pub Reads-opening_tag :
    (tag : ℕ) (rest : List ℕ) → tag < 15 → Reads (expect_opening_tag tag) (opening tag) rest tt
unfolding expect_opening_tag
Reads-opening_tag tag rest ht =
    let e : tag * 16 + 14 ≡ context tag + 6 = omega arith in
    rw e (record { run = λ pre h. bracket_run pre rest tag 6 ht (omega arith) (omega arith) h })

pub Reads-closing_tag :
    (tag : ℕ) (rest : List ℕ) → tag < 15 → Reads (expect_closing_tag tag) (closing tag) rest tt
unfolding expect_closing_tag
Reads-closing_tag tag rest ht =
    let e : tag * 16 + 15 ≡ context tag + 7 = omega arith in
    rw e (record { run = λ pre h. bracket_run pre rest tag 7 ht (omega arith) (omega arith) h })

-- An optional field that is not there: at the end of the data, or before a bracket of another tag.
absent_end_run :
    (tag : ℕ) (pre : List ℕ)
    → decode_context_unsigned tag (pre ++ []) (length pre) ≡ ok (none, length pre + 0)
unfolding decode_context_unsigned
absent_end_run tag pre = ground (arith, length-append pre [])

pub Reads-absent_end : (tag : ℕ) → Reads (decode_context_unsigned tag) [] [] none
Reads-absent_end tag = record { run = λ pre h. absent_end_run tag pre }

absent_bracket_run :
    (tag other n : ℕ) (pre rest : List ℕ)
    → other < 15
    → other ≢ tag
    → 5 < n
    → n < 8
    → IsSlice (pre ++ ((context other + n) ∷ rest))
    → decode_context_unsigned tag (pre ++ ((context other + n) ∷ rest)) (length pre)
      ≡ ok (none, length pre + 0)
unfolding decode_context_unsigned
absent_bracket_run tag other n pre rest ho ne lo hn h = ground (
  arith,
  length-append pre ((context other + n) ∷ rest),
  decode_tag-bracket pre rest other n ho lo hn h,
)

pub Reads-absent_opening :
    (tag other : ℕ) (rest : List ℕ)
    → other < 15
    → other ≢ tag
    → Reads (decode_context_unsigned tag) [] (opening other ++ rest) none
Reads-absent_opening tag other rest ho ne =
    let e : other * 16 + 14 ≡ context other + 6 = omega arith in
    rw e (record {
      run = λ pre h. absent_bracket_run tag other 6 pre rest ho ne (omega arith) (omega arith) h;
    })

abbrev pub IsOptional : Option ℕ → Type 0
IsOptional none = Unit {0}
IsOptional (some v) = IsU32 v

pub Reads-optional :
    (tag : ℕ) (o : Option ℕ) (rest : List ℕ)
    → tag < 15
    → IsOptional o
    → Reads (decode_context_unsigned tag) [] rest none
    → Reads (decode_context_unsigned tag) (optional_bytes tag o) rest o
Reads-optional tag none rest ht ho absent = absent
Reads-optional tag (some v) rest ht ho absent = Reads-context_unsigned tag v rest ht ho

pub is_closing_tag-closing :
    (pre rest : List ℕ) (tag : ℕ)
    → tag < 15
    → is_closing_tag (pre ++ (closing tag ++ rest)) (length pre) tag ≡ true
unfolding is_closing_tag
is_closing_tag-closing pre rest tag h = ground (
  arith,
  get_elem?-append pre (tag * 16 + 15) rest,
  high_nibble (tag * 16 + 15),
  class_bit (tag * 16 + 15),
  low_three (tag * 16 + 15),
)

pub is_closing_tag-context :
    (pre rest : List ℕ) (tag n num : ℕ)
    → tag < 15
    → n < 5
    → is_closing_tag (pre ++ ((context tag + n) ∷ rest)) (length pre) num ≡ false
unfolding is_closing_tag
is_closing_tag-context pre rest tag n num ht hn = ground (
  arith,
  get_elem?-append pre (context tag + n) rest,
  high_nibble (context tag + n),
  class_bit (context tag + n),
  low_three (context tag + n),
)
