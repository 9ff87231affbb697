-- ===== src/Apdu/Dispatch.antt =====
-- The dispatch of `decode_apdu` in bridge-core/src/apdu.rs on the first bytes of a message.
use micro_bacnet_bridge.Base.{ℕ, ◌≡◌, refl, arith, List, [], ◌∷◌, ◌++◌, ok, false, true}
use micro_bacnet_bridge.Base.{length, length-append, drop-append, leb, le→leb, ltb}
use micro_bacnet_bridge.Slice.{IsSlice, slice_from, dneed, byte_at}
use micro_bacnet_bridge.Slice.Decoder.{Decoder}
use micro_bacnet_bridge.Slice.Reading.{Reads, Reads-start}
use micro_bacnet_bridge.Apdu.Types.{DecodedApdu}
use micro_bacnet_bridge.Apdu.Decode.{
  run_from, decode_apdu, decode_confirmed, decode_unconfirmed, decode_complex_ack, with_service,
  decode_who_is, decode_i_am, decode_ucov_notification, decode_read_property,
  decode_read_property_ack, decode_write_property, decode_subscribe_cov,
}

run_from-append {ℓ} :
    {A : Type ℓ} (d : Decoder A) (hd bs : List ℕ) (x : A) (n : ℕ)
    → Reads d bs [] x
    → IsSlice bs
    → n ≡ length hd
    → run_from d (hd ++ bs) n ≡ ok x
unfolding run_from slice_from
run_from-append d hd bs x n r h e =
    let fits : leb (length hd) (length (hd ++ bs)) ≡ true =
      le→leb _ _ (omega (arith, length-append hd bs)) in
    rw (e, fits, drop-append hd bs, Reads-start r h)

module _ {bs : List ℕ} {x : DecodedApdu} (fuel : ℕ) where
  pub dispatch-read_property :
      (invoke_id : ℕ)
      → Reads (decode_read_property invoke_id) bs [] x
      → IsSlice bs
      → decode_apdu fuel (0x00 ∷ 0x05 ∷ invoke_id ∷ 0x0C ∷ bs) ≡ ok x
  unfolding decode_apdu decode_confirmed byte_at dneed
  dispatch-read_property invoke_id r h =
      let hd : List ℕ = 0x00 ∷ 0x05 ∷ invoke_id ∷ 0x0C ∷ [] in
      let room : ltb (length (hd ++ bs)) 4 ≡ false = ground arith in
      rw (room, run_from-append (decode_read_property invoke_id) hd bs x 4 r h refl)

  pub dispatch-write_property :
      (invoke_id : ℕ)
      → Reads (decode_write_property invoke_id) bs [] x
      → IsSlice bs
      → decode_apdu fuel (0x00 ∷ 0x05 ∷ invoke_id ∷ 0x0F ∷ bs) ≡ ok x
  unfolding decode_apdu decode_confirmed byte_at dneed
  dispatch-write_property invoke_id r h =
      let hd : List ℕ = 0x00 ∷ 0x05 ∷ invoke_id ∷ 0x0F ∷ [] in
      let room : ltb (length (hd ++ bs)) 4 ≡ false = ground arith in
      rw (room, run_from-append (decode_write_property invoke_id) hd bs x 4 r h refl)

  pub dispatch-subscribe_cov :
      (invoke_id : ℕ)
      → Reads (decode_subscribe_cov invoke_id) bs [] x
      → IsSlice bs
      → decode_apdu fuel (0x00 ∷ 0x05 ∷ invoke_id ∷ 0x05 ∷ bs) ≡ ok x
  unfolding decode_apdu decode_confirmed byte_at dneed
  dispatch-subscribe_cov invoke_id r h =
      let hd : List ℕ = 0x00 ∷ 0x05 ∷ invoke_id ∷ 0x05 ∷ [] in
      let room : ltb (length (hd ++ bs)) 4 ≡ false = ground arith in
      rw (room, run_from-append (decode_subscribe_cov invoke_id) hd bs x 4 r h refl)

  pub dispatch-who_is :
      Reads decode_who_is bs [] x → IsSlice bs → decode_apdu fuel (0x10 ∷ 0x08 ∷ bs) ≡ ok x
  unfolding decode_apdu decode_unconfirmed byte_at dneed
  dispatch-who_is r h =
      let hd : List ℕ = 0x10 ∷ 0x08 ∷ [] in
      let room : ltb (length (hd ++ bs)) 2 ≡ false = ground arith in
      rw (room, run_from-append decode_who_is hd bs x 2 r h refl)

  pub dispatch-i_am :
      Reads decode_i_am bs [] x → IsSlice bs → decode_apdu fuel (0x10 ∷ 0x00 ∷ bs) ≡ ok x
  unfolding decode_apdu decode_unconfirmed byte_at dneed
  dispatch-i_am r h =
      let hd : List ℕ = 0x10 ∷ 0x00 ∷ [] in
      let room : ltb (length (hd ++ bs)) 2 ≡ false = ground arith in
      rw (room, run_from-append decode_i_am hd bs x 2 r h refl)

  pub dispatch-ucov :
      Reads (decode_ucov_notification fuel) bs [] x
      → IsSlice bs
      → decode_apdu fuel (0x10 ∷ 0x02 ∷ bs) ≡ ok x
  unfolding decode_apdu decode_unconfirmed byte_at dneed
  dispatch-ucov r h =
      let hd : List ℕ = 0x10 ∷ 0x02 ∷ [] in
      let room : ltb (length (hd ++ bs)) 2 ≡ false = ground arith in
      rw (room, run_from-append (decode_ucov_notification fuel) hd bs x 2 r h refl)

  pub dispatch-read_property_ack :
      (invoke_id : ℕ)
      → Reads (decode_read_property_ack invoke_id) bs [] x
      → IsSlice bs
      → decode_apdu fuel (0x30 ∷ invoke_id ∷ 0x0C ∷ bs) ≡ ok x
  unfolding decode_apdu decode_complex_ack with_service byte_at dneed
  dispatch-read_property_ack invoke_id r h =
      let hd : List ℕ = 0x30 ∷ invoke_id ∷ 0x0C ∷ [] in
      let room : ltb (length (hd ++ bs)) 3 ≡ false = ground arith in
      rw (room, run_from-append (decode_read_property_ack invoke_id) hd bs x 3 r h refl)
