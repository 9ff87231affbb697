-- ===== src/Syslog/Layout.antt =====
-- The layout of a message of bridge-core/src/syslog.rs, and where a buffer ends it.
use micro_bacnet_bridge.Base.{
  ℕ, suc, ◌+◌, ◌-◌, ◌*◌, ◌/◌, ◌%◌, ◌^◌, ◌≤◌, ◌<◌, ◌≡◌, refl, sym, ◌∙◌, arith,
}
use micro_bacnet_bridge.Base.{
  min, List, [], ◌∷◌, ◌++◌, length, length-append, append_assoc, append-nil, take, length-take,
  length-drop, ◌&&◌,
}
use micro_bacnet_bridge.Base.{
  drop, ltb, leb, leb→le, lt→ltb, le→ltb_false, true, false, Bool-cases, inl, inr, if◌then◌else◌,
}
use micro_bacnet_bridge.Base.{Option, Result, ok, err, ◌>>=◌}
use micro_bacnet_bridge.Error.{EncodeError, buffer_too_small}
use micro_bacnet_bridge.Slice.{IsSlice}
use micro_bacnet_bridge.Slice.Writing.{store-append}
use micro_bacnet_bridge.Text.{decimal, digits}
use micro_bacnet_bridge.Syslog.{
  SyslogSeverity, SyslogFacility, severity_code, facility_code, syslog_pri, header_room, Writer,
  ◌▹◌, write_u8_decimal, write_decimal_u8, write_str, stamp, write_header, write_message,
  format_syslog,
}

-- A writer appends `bs` where the staging vector has room for them.
abbrev filled : List ℕ → List ℕ → Result EncodeError (List ℕ)
filled v bs = if leb (length v + length bs) header_room then ok (v ++ bs) else err buffer_too_small

record Writes (w : Writer) (bs : List ℕ) : Type 0 where
  run : (v : List ℕ) → length v ≤ header_room → w v ≡ filled v bs

Writes-u8 : (b : ℕ) → Writes (write_u8_decimal b) (b ∷ [])
unfolding write_u8_decimal
Writes-u8 b = record { run = λ v h. ground arith }

▹-run :
    (w next : Writer) (bs cs v : List ℕ)
    → w v ≡ filled v bs
    → (length (v ++ bs) ≤ header_room → next (v ++ bs) ≡ filled (v ++ bs) cs)
    → (w ▹ next) v ≡ filled v (bs ++ cs)
unfolding ◌▹◌
▹-run w next bs cs v e k = elim (Bool-cases (leb (length v + length bs) header_room)) [
  | inl fits ↦
      let both : length (v ++ bs) ≤ header_room = ground (arith, fits, length-append v bs) in
      let first : w v ≡ ok (v ++ bs) = e ∙ rw (fits) refl in
      let sizes : length (v ++ bs) + length cs ≡ length v + length (bs ++ cs) =
        omega (arith, length-append v bs, length-append bs cs) in
      rw (first, ◌>>=◌, k both, sizes, append_assoc v bs cs) refl
  | inr full ↦
      let first : w v ≡ err buffer_too_small = e ∙ rw (full) refl in
      let more : leb (length v + length (bs ++ cs)) header_room ≡ false =
        ground (arith, full, length-append bs cs) in
      rw (first, ◌>>=◌, more) refl
]

Writes-▹ :
    {w next : Writer} {bs cs : List ℕ} → Writes w bs → Writes next cs → Writes (w ▹ next) (bs ++ cs)
Writes-▹ {w} {next} {bs} {cs} a b = record {
  run = λ v h. ▹-run w next bs cs v (a.run v h) (λ long. b.run (v ++ bs) long);
}

Writes-then :
    (b : ℕ) {next : Writer} {cs : List ℕ}
    → Writes next cs
    → Writes (write_u8_decimal b ▹ next) (b ∷ cs)
Writes-then b w = Writes-▹ (Writes-u8 b) w

Writes-str : (s : List ℕ) → Writes (write_str s) s
unfolding write_str write_u8_decimal ◌▹◌
Writes-str [] = record { run = λ v h. ground (arith, h, append-nil v) }
Writes-str (b ∷ bs) = record {
  run = λ v h.
      ▹-run (write_u8_decimal b) (write_str bs) (b ∷ []) bs v ((Writes-u8 b).run v h)
        (λ long. (Writes-str bs).run (v ++ (b ∷ [])) long);
}

last_digit : (fuel n : ℕ) → n < 10 → digits (suc fuel) n ≡ (48 + n) ∷ []
unfolding digits
last_digit fuel n h = rw (lt→ltb n 10 h) refl

more_digits :
    (fuel n : ℕ) → 10 ≤ n → digits (suc fuel) n ≡ digits fuel (n / 10) ++ ((48 + n % 10) ∷ [])
unfolding digits
more_digits fuel n h = rw (le→ltb_false n 10 h) refl

decimal_u8 :
    (n : ℕ)
    → n < 256
    → decimal n ≡ (
        if leb 100 n
        then (48 + n / 100) ∷ (48 + n / 10 % 10) ∷ (48 + n % 10) ∷ []
        else if leb 10 n
        then (48 + n / 10) ∷ (48 + n % 10) ∷ []
        else (48 + n) ∷ [])
unfolding decimal
decimal_u8 n h = elim (Bool-cases (leb 100 n)) [
  | inl big ↦
      let l = leb→le 100 n big in
      let hundreds : n / 10 / 10 ≡ n / 100 = omega arith in
      rw
        (
          big,
          more_digits 9 n (omega (arith, l)),
          more_digits 8 (n / 10) (omega (arith, l)),
          last_digit 7 (n / 10 / 10) (omega arith),
          hundreds,
        )
        refl
  | inr small ↦ elim (Bool-cases (leb 10 n)) [
    | inl two ↦
        let l = leb→le 10 n two in
        let s : n < 100 = ground (arith, small) in
        rw (small, two, more_digits 9 n l, last_digit 8 (n / 10) (omega (arith, s))) refl
    | inr one ↦ let s : n < 10 = ground (arith, one) in rw (small, one, last_digit 9 n s) refl
  ]
]

Writes-decimal : (n : ℕ) → n < 256 → Writes (write_decimal_u8 n) (decimal n)
unfolding write_decimal_u8
Writes-decimal n h = rw (decimal_u8 n h) (elim (Bool-cases (leb 100 n)) [
  | inl big ↦ rw (big) (Writes-▹ (Writes-u8 _) (Writes-▹ (Writes-u8 _) (Writes-u8 _)))
  | inr small ↦ elim (Bool-cases (leb 10 n)) [
    | inl two ↦ rw (small, two) (Writes-▹ (Writes-u8 _) (Writes-u8 _))
    | inr one ↦ rw (small, one) (Writes-u8 _)
  ]
])

facility_bound : (f : SyslogFacility) → ltb (facility_code f) 24 ≡ true
unfolding facility_code
facility_bound SyslogFacility.kern = refl
facility_bound _ = refl

severity_bound : (s : SyslogSeverity) → ltb (severity_code s) 8 ≡ true
unfolding severity_code
severity_bound SyslogSeverity.emergency = refl
severity_bound _ = refl

-- The eight bits are enough for the priority value.
pub syslog_pri_lem :
    (f : SyslogFacility) (s : SyslogSeverity)
    → (syslog_pri f s ≡ facility_code f * 8 + severity_code s) × (syslog_pri f s < 192)
unfolding syslog_pri
syslog_pri_lem f s = ground (arith, facility_bound f, severity_bound s)

-- `<PRI>1 TIMESTAMP HOSTNAME APP-NAME - - - `
abbrev pub header_text :
    SyslogFacility → SyslogSeverity → List ℕ → List ℕ → Option (List ℕ) → List ℕ
header_text facility severity hostname app_name timestamp =
    60
    ∷ (decimal (facility_code facility * 8 + severity_code severity)
        ++ (62
            ∷ 49
            ∷ 32
            ∷ (stamp timestamp
                ++ (32
                    ∷ (hostname ++ (32 ∷ (app_name ++ (32 ∷ 45 ∷ 32 ∷ 45 ∷ 32 ∷ 45 ∷ 32 ∷ []))))))))

Writes-header :
    (f : SyslogFacility) (s : SyslogSeverity) (hostname app_name : List ℕ) (t : Option (List ℕ))
    → Writes (write_header f s hostname app_name t) (header_text f s hostname app_name t)
unfolding write_header
Writes-header f s hostname app_name t =
    let (same, small) = syslog_pri_lem f s in
    let pri : Writes (write_decimal_u8 (syslog_pri f s))
        (decimal (facility_code f * 8 + severity_code s)) =
      rw (sym same) (Writes-decimal (syslog_pri f s) (omega (arith, small))) in
    Writes-then 60 (
      Writes-▹ pri (
        Writes-then 62 (
          Writes-then 49 (
            Writes-then 32 (
              Writes-▹ (Writes-str (stamp t)) (
                Writes-then 32 (
                  Writes-▹ (Writes-str hostname) (
                    Writes-then 32
                      (Writes-▹ (Writes-str app_name) (Writes-then 32 (Writes-str _)))))))))))

-- The buffer behind the header and as much of the message as fits.
write_message_lem :
    (hdr msg buf : List ℕ)
    → IsSlice buf
    → length hdr ≤ length buf
    → let n = min (length msg) (length buf - length hdr) in
      write_message hdr msg buf
      ≡ ok (hdr ++ (take n msg ++ drop n (drop (length hdr) buf)), length hdr + n)
unfolding write_message
write_message_lem hdr msg buf h fits =
    let n = min (length msg) (length buf - length hdr) in
    let rest = drop (length hdr) buf in
    let first = store-append {E = EncodeError} hdr [] buf h fits in
    let room : length rest ≡ length buf - length hdr = length-drop (length hdr) buf in
    let size : length (take n msg) ≡ n = omega (arith, length-take n msg) in
    let all : IsSlice (hdr ++ rest) = omega (arith, length-append hdr rest, room) in
    let second =
      store-append {E = EncodeError} (take n msg) hdr rest all (omega (arith, size, room)) in
    let end : (length hdr + n) % 2 ^ 32 ≡ length hdr + n = omega arith in
    rw (le→ltb_false (length buf) (length hdr) fits, first, ◌>>=◌, second, size, end) refl

write_message_short :
    (hdr msg buf : List ℕ)
    → length buf < length hdr
    → write_message hdr msg buf ≡ err buffer_too_small
unfolding write_message
write_message_short hdr msg buf h = rw (lt→ltb (length buf) (length hdr) h) refl

staged_message :
    (hdr msg buf : List ℕ) {r : Result EncodeError (List ℕ)}
    → IsSlice buf
    → r ≡ filled [] hdr
    → let n = min (length msg) (length buf - length hdr) in
      (r >>= λ (hdr' : List ℕ). write_message hdr' msg buf) ≡ (
        if leb (length hdr) header_room && leb (length hdr) (length buf)
        then ok (hdr ++ (take n msg ++ drop n (drop (length hdr) buf)), length hdr + n)
        else err buffer_too_small)
staged_message hdr msg buf {r} h e = elim (Bool-cases (leb (length hdr) header_room)) [
  | inl fits ↦
      let first : r ≡ ok hdr = ground (arith, e, fits) in
      elim (Bool-cases (leb (length hdr) (length buf))) [
        | inl room ↦ rw (first, fits, room) (write_message_lem hdr msg buf h (leb→le _ _ room))
        | inr short ↦
            rw (first, fits, short) (write_message_short hdr msg buf (ground (arith, short)))
      ]
  | inr long ↦
      let first : r ≡ err buffer_too_small = ground (arith, e, long) in rw (first, long) refl
]

-- Into a buffer of fewer than 2 ^ 31 bytes, `format_syslog` writes the header of RFC 5424, whose
-- priority value is eight times the facility and the severity in decimal, and behind it as much of
-- the message as fits, and returns their length; a missing time stamp is a dash. It is refused
-- exactly where the header has more than 512 bytes or more than the buffer; no index is out of
-- bounds.
pub format_syslog_lem :
    (buf : List ℕ) (f : SyslogFacility) (s : SyslogSeverity) (hostname app_name : List ℕ)
    (t : Option (List ℕ)) (msg : List ℕ)
    → IsSlice buf
    → let hdr = header_text f s hostname app_name t in
      let n = min (length msg) (length buf - length hdr) in
      format_syslog buf f s hostname app_name t msg ≡ (
        if leb (length hdr) header_room && leb (length hdr) (length buf)
        then ok (hdr ++ (take n msg ++ drop n (drop (length hdr) buf)), length hdr + n)
        else err buffer_too_small)
unfolding format_syslog
format_syslog_lem buf f s hostname app_name t msg h =
    let hdr = header_text f s hostname app_name t in
    let staged : write_header f s hostname app_name t [] ≡ filled [] hdr =
      (Writes-header f s hostname app_name t).run [] (omega arith) in
    staged_message hdr msg buf h staged
