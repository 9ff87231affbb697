-- ===== src/Apdu/TextLaws.antt =====
-- `decode_text`, the character strings of `decode_app_value` in bridge-core/src/apdu.rs, and the
-- law of `decode_app_value` over all values.
use micro_bacnet_bridge.Base.{ℕ, suc, ◌+◌, ◌-◌, ◌≤◌, ◌≡◌, refl, ap, arith}
use micro_bacnet_bridge.Base.{
  if◌then◌else◌, List, [], ◌∷◌, ◌++◌, leb, ltb, leb→le, le→leb, Bool-cases, inl, inr, Bool, true,
  false, length, length-append, append_assoc,
}
use micro_bacnet_bridge.Base.{ok}
use micro_bacnet_bridge.Error.{DecodeError}
use micro_bacnet_bridge.Slice.{IsSlice, add_usize, dneed, slice}
use micro_bacnet_bridge.Slice.Writing.{snoc, next_index}
use micro_bacnet_bridge.Slice.Reading.{Reads, slice-append, byte_at-here, dneed-append}
use micro_bacnet_bridge.Bacnet.{
  BacnetValue, null, boolean, unsigned_int, signed_int, real, char_string, enumerated, object_id,
}
use micro_bacnet_bridge.Bacnet.Values.{IsText, IsValue}
use micro_bacnet_bridge.Apdu.Read.{decode_app_value, app_content, decode_text, truncate_text}
use micro_bacnet_bridge.Apdu.Wire.{sized, text_bytes, value_bytes}
use micro_bacnet_bridge.Apdu.TagLaws.{decode_tag-app, decode_tag-extended}
use micro_bacnet_bridge.Apdu.ValueLaws.{
  app_value_run, end_index, unsigned_run, enumerated_run, object_id_run, real_run, signed_run,
}

truncate_text-eq : (s : List ℕ) → length s ≤ 64 → truncate_text s ≡ s
unfolding truncate_text
truncate_text-eq s h = rw (le→leb (length s) 64 h)

decode_text-append :
    (pre s rest : List ℕ)
    → IsText 64 s
    → IsSlice (pre ++ (0x00 ∷ (s ++ rest)))
    → decode_text (pre ++ (0x00 ∷ (s ++ rest))) (length pre) (length s + 1) ≡ ok s
unfolding decode_text
decode_text-append pre s rest t h =
    let xs = pre ++ (0x00 ∷ (s ++ rest)) in
    let total = length-append pre (0x00 ∷ (s ++ rest)) in
    let small : IsSlice pre = omega (arith, total) in
    let room : dneed xs (length pre) (length s + 1) ≡ ok tt = ground (
      arith,
      dneed-append pre (0x00 ∷ (s ++ rest)) (length s + 1) h,
      total,
      length-append s rest,
      t.fits,
    ) in
    let start = add_usize (length pre) 1 in
    let stop : add_usize start (length s + 1 - 1) ≡ length (pre ++ (0x00 ∷ [])) + length s =
      omega (arith, total, length-append s rest, length-append pre (0x00 ∷ [])) in
    let text : slice {E = DecodeError} xs start (add_usize start (length s + 1 - 1)) ≡ ok s =
      rw (stop, snoc pre 0x00 (s ++ rest), next_index pre 0x00 small)
        (slice-append (pre ++ (0x00 ∷ [])) s rest _ refl) in
    let some_byte : ltb (length s + 1) 1 ≡ false = ground arith in
    rw (some_byte, room, byte_at-here pre 0x00 (s ++ rest) h, text, t.valid)
      (ap ok (truncate_text-eq s t.fits))

-- The same behind a prefix `hd` of tag bytes.
decode_text-content :
    (pre hd s rest : List ℕ) (vpos vlen : ℕ)
    → IsText 64 s
    → IsSlice (pre ++ (hd ++ (0x00 ∷ (s ++ rest))))
    → vpos ≡ length pre + length hd
    → vlen ≡ length s + 1
    → decode_text (pre ++ (hd ++ (0x00 ∷ (s ++ rest)))) vpos vlen ≡ ok s
decode_text-content pre hd s rest vpos vlen t h e n =
    let body = 0x00 ∷ (s ++ rest) in
    let h' : IsSlice ((pre ++ hd) ++ body) = rw (← append_assoc pre hd body) at h in
    let e' : vpos ≡ length (pre ++ hd) = omega (arith, length-append pre hd) in
    rw (n, e', ← append_assoc pre hd body) (decode_text-append (pre ++ hd) s rest t h')

short_text_run :
    (pre s rest : List ℕ)
    → IsText 64 s
    → length s + 1 ≤ 4
    → IsSlice (pre ++ (sized 0x70 (0x00 ∷ s) ++ rest))
    → decode_app_value (pre ++ (sized 0x70 (0x00 ∷ s) ++ rest)) (length pre)
      ≡ ok (char_string s, length pre + suc (suc (length s)))
unfolding app_content
short_text_run pre s rest t short h =
    let tag = 0x70 + suc (length s) in
    let content =
      decode_text-content pre (tag ∷ []) s rest (add_usize (length pre) 1) (suc (length s)) t h
        (omega (arith, length-append pre (tag ∷ 0x00 ∷ (s ++ rest)))) (omega arith) in
    app_value_run pre (0x00 ∷ s) rest 7 (char_string s) (omega arith) (omega arith) h
      (rw (content, end_index pre (0x00 ∷ s) rest tag h))

long_text_run :
    (pre s rest : List ℕ)
    → IsText 64 s
    → IsSlice (pre ++ (0x75 ∷ (length s + 1) ∷ 0x00 ∷ (s ++ rest)))
    → decode_app_value (pre ++ (0x75 ∷ (length s + 1) ∷ 0x00 ∷ (s ++ rest))) (length pre)
      ≡ ok (char_string s, length pre + suc (suc (suc (length s))))
unfolding decode_app_value app_content
long_text_run pre s rest t h =
    let n = length s + 1 in
    let total = length-append pre (0x75 ∷ n ∷ 0x00 ∷ (s ++ rest)) in
    let content =
      decode_text-content pre (0x75 ∷ n ∷ []) s rest (add_usize (length pre) 2) n t h
        (omega (arith, total)) refl in
    let stop : add_usize (add_usize (length pre) 2) n ≡ length pre + suc (suc (suc (length s))) =
      omega (arith, total, length-append s rest) in
    rw (decode_tag-extended pre (0x00 ∷ (s ++ rest)) n (omega (arith, t.fits)) h, content, stop)

text_run :
    (pre s rest : List ℕ)
    → IsText 64 s
    → IsSlice (pre ++ (text_bytes s ++ rest))
    → decode_app_value (pre ++ (text_bytes s ++ rest)) (length pre)
      ≡ ok (char_string s, length pre + length (text_bytes s))
text_run pre s rest t h = elim (Bool-cases (leb (length s + 1) 4)) [
  | inl a ↦ rw a (short_text_run pre s rest t (leb→le _ _ a) (rw a at h))
  | inr a ↦ rw a (long_text_run pre s rest t (rw a at h))
]

null_run :
    (pre rest : List ℕ)
    → IsSlice (pre ++ (0x00 ∷ rest))
    → decode_app_value (pre ++ (0x00 ∷ rest)) (length pre) ≡ ok (null, length pre + 1)
unfolding app_content
null_run pre rest h =
    app_value_run pre [] rest 0 null (omega arith) (omega arith) h
      (rw (end_index pre [] rest 0x00 h))

boolean_run :
    (pre rest : List ℕ) (b : Bool)
    → IsSlice (pre ++ ((if b then 0x11 else 0x10) ∷ rest))
    → decode_app_value (pre ++ ((if b then 0x11 else 0x10) ∷ rest)) (length pre)
      ≡ ok (boolean b, length pre + 1)
unfolding decode_app_value app_content
boolean_run pre rest true h =
    rw (decode_tag-app pre rest 1 1 (omega arith) (omega arith) h)
      (ap (λ (n : ℕ). ok (boolean true, n)) (omega (arith, length-append pre (0x11 ∷ rest))))
boolean_run pre rest false h =
    rw (decode_tag-app pre rest 1 0 (omega arith) (omega arith) h)
      (ap (λ (n : ℕ). ok (boolean false, n)) (omega (arith, length-append pre (0x10 ∷ rest))))

-- Each value of the Rust type is read back from its bytes, whatever follows them.
pub Reads-app_value :
    (v : BacnetValue) (rest : List ℕ) → IsValue v → Reads decode_app_value (value_bytes v) rest v
Reads-app_value null rest h = record { run = λ pre i. null_run pre rest i }
Reads-app_value (boolean b) rest h = record { run = λ pre i. boolean_run pre rest b i }
Reads-app_value (unsigned_int v) rest h = record { run = λ pre i. unsigned_run pre rest v h i }
Reads-app_value (signed_int v) rest h = record { run = λ pre i. signed_run pre rest v h i }
Reads-app_value (real v) rest h = record { run = λ pre i. real_run pre rest v h i }
Reads-app_value (char_string s) rest h = record { run = λ pre i. text_run pre s rest h i }
Reads-app_value (enumerated v) rest h = record { run = λ pre i. enumerated_run pre rest v h i }
Reads-app_value (object_id id) rest h = record { run = λ pre i. object_id_run pre rest id h i }
