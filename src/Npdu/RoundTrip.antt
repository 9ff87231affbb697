-- ===== src/Npdu/RoundTrip.antt =====
-- What bridge-core/src/npdu.rs promises: the bytes of an NPDU, their number, and reading them back.
use mathlib.Core.Path.{subst}
use micro_bacnet_bridge.Base
use micro_bacnet_bridge.Base.{
  ℕ, ◌+◌, ◌≤◌, ◌<◌, ◌≡◌, refl, sym, ap, ◌∙◌, arith, bit_and, List, [], ◌∷◌, ◌++◌,
}
use micro_bacnet_bridge.Base.{
  append_assoc, Bool, true, false, not, ◌&&◌, ◌||◌, ◌==◌, leb, leb→le, Bool-cases, inl, inr, length,
  length-append, length-take,
}
use micro_bacnet_bridge.Base.{
  take, take-append, drop, drop-append, ltb, if◌then◌else◌, Result, ok, err,
}
use micro_bacnet_bridge.Error.{EncodeError, invalid_value, buffer_too_small}
use micro_bacnet_bridge.Slice.{IsSlice, byte_at, slice_from, store}
use micro_bacnet_bridge.Slice.Reading.{Reads, Reads-bind, Reads-map}
use micro_bacnet_bridge.Slice.Writing.{store-append}
use micro_bacnet_bridge.Npdu.{
  npdu_version, max_mac_len, NpduHeader, control, specifier, npdu_bytes, needed, encode_npdu,
  read_header, decode_npdu,
}
use micro_bacnet_bridge.Npdu.Control.{control_fields}
use micro_bacnet_bridge.Npdu.Fields.{IsSpecifier, IsHops, Reads-specifier, Reads-hops}

-- The headers a decoder can return.
pub record IsNpduHeader (h : NpduHeader) : Type 0 where
  pub version : h.version ≡ npdu_version
  pub priority : h.priority < 4
  pub dest : IsSpecifier h.dest_present h.dest_net h.dest_mac h.dest_mac_len
  pub src : IsSpecifier h.src_present h.src_net h.src_mac h.src_mac_len
  pub hops : IsHops h.dest_present h.hop_count

abbrev pub control_of : NpduHeader → ℕ
control_of h =
    control h.is_network_layer_msg h.dest_present h.src_present h.expecting_reply h.priority

-- What stands between the control byte and the APDU.
abbrev fields : NpduHeader → List ℕ
fields h =
    specifier h.dest_present h.dest_net h.dest_mac h.dest_mac_len
    ++ (specifier h.src_present h.src_net h.src_mac h.src_mac_len
        ++ (if h.dest_present then h.hop_count ∷ [] else []))

Reads-header :
    (h : NpduHeader) (ctrl : ℕ) (rest : List ℕ)
    → IsNpduHeader h
    → not (bit_and ctrl 0x80 == 0) ≡ h.is_network_layer_msg
    → not (bit_and ctrl 0x20 == 0) ≡ h.dest_present
    → not (bit_and ctrl 0x08 == 0) ≡ h.src_present
    → not (bit_and ctrl 0x04 == 0) ≡ h.expecting_reply
    → bit_and ctrl 0x03 ≡ h.priority
    → Reads (read_header h.version ctrl) (fields h) rest h
unfolding read_header
Reads-header h ctrl rest w en ed es er ep =
    rw (en, ed, es, er, ep)
      (Reads-bind _ (Reads-specifier h.dest_present h.dest_net h.dest_mac h.dest_mac_len _ w.dest) (
        Reads-bind _ (Reads-specifier h.src_present h.src_net h.src_mac h.src_mac_len _ w.src) (
          Reads-map (λ hops. record h { hop_count = hops })
            (Reads-hops h.dest_present h.hop_count rest w.hops))))

bytes_of :
    (h : NpduHeader) (apdu : List ℕ)
    → npdu_bytes h apdu ≡ (npdu_version ∷ control_of h ∷ []) ++ (fields h ++ apdu)
unfolding npdu_bytes
bytes_of h apdu =
    let dest = specifier h.dest_present h.dest_net h.dest_mac h.dest_mac_len in
    let src = specifier h.src_present h.src_net h.src_mac h.src_mac_len in
    let hops = if h.dest_present then h.hop_count ∷ [] else [] in
    ap (λ (xs : List ℕ). npdu_version ∷ control_of h ∷ xs)
      (sym (append_assoc dest (src ++ hops) apdu ∙ ap (◌++◌ dest) (append_assoc src hops apdu)))

specifier_len :
    (present : Bool) (net : ℕ) (mac : List ℕ) (len : ℕ)
    → (present ≡ true → len ≤ length mac)
    → length (specifier present net mac len) ≡ (if present then 2 + 1 + len else 0)
specifier_len true net mac len h = omega (arith, length-take len mac, h refl)
specifier_len false net mac len h = refl

pub decode_npdu-bytes :
    (h : NpduHeader) (apdu : List ℕ)
    → IsNpduHeader h
    → IsSlice (npdu_bytes h apdu)
    → decode_npdu (npdu_bytes h apdu) ≡ ok (h, apdu)
unfolding decode_npdu byte_at slice_from
decode_npdu-bytes h apdu w s =
    let (en, ed, es, er, ep) =
      control_fields h.is_network_layer_msg h.dest_present h.src_present h.expecting_reply
        h.priority w.priority in
    let r =
      (Reads-header h (control_of h) apdu w en ed es er ep).run (npdu_version ∷ control_of h ∷ [])
        (rw (bytes_of h apdu) at s) in
    let run =
      subst
        (λ (v : ℕ).
          read_header v (control_of h) (npdu_version ∷ control_of h ∷ (fields h ++ apdu)) 2
          ≡ ok (h, 2 + length (fields h)))
        w.version r in
    rw (bytes_of h apdu, run)
      (ground (arith, drop-append (fields h) apdu, length-append (fields h) apdu))

-- An address of at most seven bytes in an array of seven.
abbrev IsMac : Bool → List ℕ → ℕ → Type 0
IsMac present mac len = (length mac ≡ max_mac_len) × (present ≡ true → len ≤ max_mac_len)

pub needed_lem :
    (h : NpduHeader) (apdu : List ℕ)
    → IsMac h.dest_present h.dest_mac h.dest_mac_len
    → IsMac h.src_present h.src_mac h.src_mac_len
    → needed h apdu ≡ length (npdu_bytes h apdu)
unfolding needed
needed_lem h apdu (dm, dl) (sm, sl) =
    let d =
      specifier_len h.dest_present h.dest_net h.dest_mac h.dest_mac_len
        (λ p. omega (arith, dm, dl p)) in
    let s =
      specifier_len h.src_present h.src_net h.src_mac h.src_mac_len
        (λ p. omega (arith, sm, sl p)) in
    let dest = specifier h.dest_present h.dest_net h.dest_mac h.dest_mac_len in
    let src = specifier h.src_present h.src_net h.src_mac h.src_mac_len in
    let hops = if h.dest_present then h.hop_count ∷ [] else [] in
    rw (bytes_of h apdu) (
      ground (
        arith,
        d,
        s,
        length-append (fields h) apdu,
        length-append dest (src ++ hops),
        length-append src hops,
      ))

encoded_bytes :
    (bs buf : List ℕ)
    → IsSlice buf
    → if◌then◌else◌ {A = Result EncodeError (List ℕ × ℕ)}
        (ltb (length buf) (length bs))
        (err buffer_too_small)
        (Base.◌>>=◌ (store buf 0 bs) (λ buf'. ok (buf', length bs)))
      ≡ (if leb (length bs) (length buf)
          then ok (bs ++ drop (length bs) buf, length bs)
          else err buffer_too_small)
encoded_bytes bs buf s = elim (Bool-cases (leb (length bs) (length buf))) [
  | inl fits ↦ ground (arith, store-append {E = EncodeError} bs [] buf s (leb→le _ _ fits))
  | inr full ↦ ground arith
]

-- Where the addresses are arrays of seven bytes and the buffer has fewer than 2 ^ 31, encoding
-- refuses a specifier whose address is said to be longer than seven bytes, then a buffer that is
-- shorter than the NPDU, and else writes the NPDU's bytes over the start of the buffer; no index
-- is out of bounds.
pub encode_npdu_lem :
    (h : NpduHeader) (apdu buf : List ℕ)
    → length h.dest_mac ≡ max_mac_len
    → length h.src_mac ≡ max_mac_len
    → IsSlice buf
    → encode_npdu h apdu buf ≡ (
        if (h.dest_present && ltb max_mac_len h.dest_mac_len)
          || (h.src_present && ltb max_mac_len h.src_mac_len)
        then err invalid_value
        else if leb (length (npdu_bytes h apdu)) (length buf)
        then ok
            (npdu_bytes h apdu ++ drop (length (npdu_bytes h apdu)) buf, length (npdu_bytes h apdu))
        else err buffer_too_small)
unfolding encode_npdu
encode_npdu_lem h apdu buf dm sm s =
    elim (Bool-cases (h.dest_present && ltb max_mac_len h.dest_mac_len)) [
      | inl long ↦ rw (long) refl
      | inr d ↦ elim (Bool-cases (h.src_present && ltb max_mac_len h.src_mac_len)) [
        | inl long ↦ rw (d, long) refl
        | inr r ↦
            let n =
              needed_lem h apdu (dm, λ p. ground (arith, d, p)) (sm, λ p. ground (arith, r, p)) in
            rw (d, r, n) (simp (encoded_bytes (npdu_bytes h apdu) buf s))
      ]
    ]

-- An NPDU with a header of version 1, a priority below 4, networks of 16 bits, addresses of at
-- most seven bytes with zeros behind them, and nothing in the fields of an absent specifier,
-- encoded into a buffer of fewer than 2 ^ 31 bytes, is decoded to that header and the APDU it was
-- encoded with.
pub npdu_round_trip :
    (h : NpduHeader) (apdu buf : List ℕ) {buf' : List ℕ} {n : ℕ}
    → IsNpduHeader h
    → length h.dest_mac ≡ max_mac_len
    → length h.src_mac ≡ max_mac_len
    → IsSlice buf
    → encode_npdu h apdu buf ≡ ok (buf', n)
    → decode_npdu (take n buf') ≡ ok (h, apdu)
npdu_round_trip h apdu buf {buf'} {n} w dm sm s e =
    let bs = npdu_bytes h apdu in
    let e' = encode_npdu_lem h apdu buf dm sm s in
    let whole : take n buf' ≡ bs = ground (arith, e, e', take-append bs (drop (length bs) buf)) in
    let fits : length bs ≤ length buf = ground (arith, e, e') in
    rw (whole) (decode_npdu-bytes h apdu w (omega arith))
