-- ===== src/Apdu/Notifications.antt =====
-- The list of values of an unconfirmed COV notification, in bridge-core/src/apdu.rs: the loop of
-- `decode_ucov_notification` reads each pair, and ends.
use micro_bacnet_bridge.Base.{
  ℕ, suc, zero, ◌+◌, ◌≤◌, ◌<◌, ◌≡◌, ap, sym, ◌∙◌, arith, lt→ltb, true, List, [], ◌∷◌, ◌++◌,
  append_assoc, append-nil, ok, length, length-append, ltb,
}
use mathlib.Core.Path.{subst}
use micro_bacnet_bridge.Slice.{IsSlice}
use micro_bacnet_bridge.Slice.Decoder.{Decoder, ◌>>=◌, ◌>>◌, pure}
use micro_bacnet_bridge.Slice.Reading.{
  Reads, Reads-bind, Reads-seq, Reads-map, Reads-pure, Reads-eq,
}
use micro_bacnet_bridge.Bacnet.{PropertyId, property_code, BacnetValue}
use micro_bacnet_bridge.Bacnet.Values.{IsValue}
use micro_bacnet_bridge.Apdu.Types.{CovNotification, unconfirmed_cov_notification, max_values}
use micro_bacnet_bridge.Apdu.Read.{expect_opening_tag, expect_closing_tag}
use micro_bacnet_bridge.Apdu.Wire.{closing, opening, uint_bytes}
use micro_bacnet_bridge.Apdu.Decode.{
  decode_entry, push_value, decode_entries, decode_values, decode_ucov_notification,
}
use micro_bacnet_bridge.Apdu.Messages.{
  IsProperty, entry_bytes, entries_bytes, AreEntries, ucov_bytes, IsNotification,
}
use micro_bacnet_bridge.Apdu.TagLaws.{length-uint_bytes}
use micro_bacnet_bridge.Apdu.ReadLaws.{
  Reads-absent_opening, Reads-opening_tag, Reads-closing_tag, is_closing_tag-closing,
  is_closing_tag-context,
}
use micro_bacnet_bridge.Apdu.Requests.{Reads-id, Reads-uint, Reads-bracketed}

abbrev Entry : Type 0
Entry = PropertyId × BacnetValue

Reads-entry :
    (e : Entry) (rest : List ℕ)
    → IsProperty e.0
    → IsValue e.1
    → Reads decode_entry (entry_bytes e) rest e
unfolding decode_entry
Reads-entry e rest hp hv = Reads-uint 0 (property_code e.0) _ (omega arith) hp.code (
    rw hp.canonical (
      Reads-bind _ (Reads-absent_opening 1 2 _ (omega arith) (omega arith))
        (Reads-bracketed 2 e.1 _ (omega arith) hv (Reads-pure _ rest))))

push_value-room :
    (vs : List Entry) (e : Entry) → length vs < max_values → push_value vs e ≡ vs ++ (e ∷ [])
unfolding push_value
push_value-room vs e h = ground arith

-- The loop stops at the closing tag.
entries_end_run :
    (fuel : ℕ) (vs : List Entry) (pre rest : List ℕ)
    → decode_entries (suc fuel) vs (pre ++ (closing 4 ++ rest)) (length pre) ≡ ok (vs, length pre)
unfolding decode_entries
entries_end_run fuel vs pre rest = rw (is_closing_tag-closing pre rest 4 (omega arith))

-- It goes on at any pair.
entries_step_run :
    (fuel : ℕ) (vs : List Entry) (e : Entry) (pre rest : List ℕ)
    → decode_entries (suc fuel) vs (pre ++ (entry_bytes e ++ rest)) (length pre)
      ≡ (decode_entry >>= λ v. decode_entries fuel (push_value vs v))
          (pre ++ (entry_bytes e ++ rest))
          (length pre)
unfolding decode_entries
entries_step_run fuel vs e pre rest = rw (
    is_closing_tag-context pre _ 0 (length (uint_bytes (property_code e.0))) 4 (omega arith)
      (length-uint_bytes (property_code e.0)).1)

abbrev turn : ℕ → List Entry → Decoder (List Entry)
turn fuel vs = decode_entry >>= λ v. decode_entries fuel (push_value vs v)

Reads-step :
    (fuel : ℕ) (vs : List Entry) (e : Entry) (more rest : List ℕ) {w : List Entry}
    → Reads (turn fuel vs) (entry_bytes e ++ more) rest w
    → Reads (decode_entries (suc fuel) vs) (entry_bytes e ++ more) rest w
Reads-step fuel vs e more rest r =
    let p : entry_bytes e ++ (more ++ rest) ≡ (entry_bytes e ++ more) ++ rest =
      sym (append_assoc (entry_bytes e) more rest) in
    record {
      run = λ pre i.
          subst
            (λ s.
              decode_entries (suc fuel) vs (pre ++ s) (length pre)
              ≡ turn fuel vs (pre ++ s) (length pre))
            p (entries_step_run fuel vs e pre (more ++ rest))
          ∙ r.run pre i;
    }

pub Reads-entries :
    (es : List Entry) (fuel : ℕ) (vs : List Entry) (rest : List ℕ)
    → AreEntries es
    → length es < fuel
    → length vs + length es ≤ max_values
    → Reads (decode_entries fuel vs) (entries_bytes es) (closing 4 ++ rest) (vs ++ es)
Reads-entries es zero vs rest h hf fits = absurd (omega arith)
Reads-entries [] (suc fuel) vs rest h hf fits = Reads-eq (sym (append-nil vs)) (record {
  run = λ pre i. entries_end_run fuel vs pre rest ∙ ap (λ (n : ℕ). ok (vs, n)) (omega arith);
})
Reads-entries (e ∷ es) (suc fuel) vs rest (hp, hv, hs) hf fits =
    let room : push_value vs e ≡ vs ++ (e ∷ []) = push_value-room vs e (omega arith) in
    let later : Reads (decode_entries fuel (vs ++ (e ∷ []))) (entries_bytes es) (closing 4 ++ rest)
        ((vs ++ (e ∷ [])) ++ es) =
      Reads-entries es fuel (vs ++ (e ∷ [])) rest hs (omega arith)
        (omega (arith, length-append vs (e ∷ []))) in
    Reads-step fuel vs e (entries_bytes es) (closing 4 ++ rest) (
      Reads-bind _ (Reads-entry e _ hp hv) (rw room (Reads-eq (append_assoc vs (e ∷ []) es) later)))

-- The list of values in its brackets, at the end of the data.
list_run :
    (fuel : ℕ) (pre bs : List ℕ) (vs : List Entry)
    → Reads
        (expect_opening_tag 4 >> (decode_entries fuel [] >>= λ es. expect_closing_tag 4 >> pure es))
        (opening 4 ++ bs)
        []
        vs
    → IsSlice (pre ++ ((opening 4 ++ bs) ++ []))
    → decode_values fuel (pre ++ ((opening 4 ++ bs) ++ [])) (length pre)
      ≡ ok (vs, length pre + length (opening 4 ++ bs))
unfolding decode_values
list_run fuel pre bs vs r h =
    let before : ltb (length pre) (length (pre ++ ((opening 4 ++ bs) ++ []))) ≡ true =
      lt→ltb _ _ (omega (arith, length-append pre ((opening 4 ++ bs) ++ []))) in
    rw before (r.run pre h)

closing_last : (vs : List Entry) → Reads (expect_closing_tag 4 >> pure vs) (closing 4) [] vs
closing_last vs = Reads-seq (Reads-closing_tag 4 [] (omega arith)) (Reads-pure vs [])

Reads-values :
    (fuel : ℕ) (es : List Entry)
    → AreEntries es
    → length es < fuel
    → length es ≤ max_values
    → Reads (decode_values fuel) (opening 4 ++ (entries_bytes es ++ closing 4)) [] es
Reads-values fuel es h hf fits =
    let inner = Reads-seq (Reads-opening_tag 4 _ (omega arith)) (
      Reads-bind (λ vs. expect_closing_tag 4 >> pure vs)
        (Reads-entries es fuel [] [] h hf (omega arith)) (closing_last es)) in
    record { run = λ pre i. list_run fuel pre (entries_bytes es ++ closing 4) es inner i }

-- A notification of at most eight values is read whole, with fuel for one turn more than its values.
pub Reads-ucov :
    (fuel : ℕ) (n : CovNotification)
    → IsNotification n
    → length n.values < fuel
    → Reads (decode_ucov_notification fuel) (ucov_bytes n) [] (unconfirmed_cov_notification n)
unfolding decode_ucov_notification
Reads-ucov fuel n v hf = Reads-uint 0 n.subscriber_process_id _ (omega arith) v.process (
    Reads-id 1 n.initiating_device _ (omega arith) v.device (
      Reads-id 2 n.monitored_object _ (omega arith) v.monitored (
        Reads-uint 3 n.time_remaining _ (omega arith) v.time
          (Reads-map _ (Reads-values fuel n.values v.entries hf v.fits)))))
