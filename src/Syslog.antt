-- ===== src/Syslog.antt =====
-- bridge-core/src/syslog.rs: messages for a syslog receiver, as RFC 5424 writes them.
pub mod Layout
use micro_bacnet_bridge.Base.{
  ℕ, ◌+◌, ◌-◌, ◌*◌, ◌/◌, ◌%◌, min, List, [], ◌∷◌, ◌++◌, length, take, ltb,
}
use micro_bacnet_bridge.Base.{leb, if◌then◌else◌, Option, none, some, Result, ok, err, ◌>>=◌}
use micro_bacnet_bridge.Error.{EncodeError, buffer_too_small}
use micro_bacnet_bridge.Slice.{store, add_usize}

pub data SyslogSeverity : Type 0 where
  emergency alert critical error warning notice info debug : SyslogSeverity

pub data SyslogFacility : Type 0 where
  kern user mail daemon auth syslog lpr news uucp cron auth_priv ftp : SyslogFacility
  ntp log_audit log_alert clock local0 local1 local2 local3 : SyslogFacility
  local4 local5 local6 local7 : SyslogFacility

-- `severity as u8` and `facility as u8`
unfoldable pub severity_code : SyslogSeverity → ℕ
severity_code emergency = 0
severity_code alert = 1
severity_code critical = 2
severity_code error = 3
severity_code warning = 4
severity_code notice = 5
severity_code info = 6
severity_code debug = 7

unfoldable pub facility_code : SyslogFacility → ℕ
facility_code kern = 0
facility_code user = 1
facility_code mail = 2
facility_code daemon = 3
facility_code auth = 4
facility_code syslog = 5
facility_code lpr = 6
facility_code news = 7
facility_code uucp = 8
facility_code cron = 9
facility_code auth_priv = 10
facility_code ftp = 11
facility_code ntp = 12
facility_code log_audit = 13
facility_code log_alert = 14
facility_code clock = 15
facility_code local0 = 16
facility_code local1 = 17
facility_code local2 = 18
facility_code local3 = 19
facility_code local4 = 20
facility_code local5 = 21
facility_code local6 = 22
facility_code local7 = 23

-- The product and the sum are `u8`.
unfoldable pub syslog_pri : SyslogFacility → SyslogSeverity → ℕ
unfolding facility_code severity_code
syslog_pri facility severity = (facility_code facility * 8 % 256 + severity_code severity) % 256

-- The bytes of the staging vector.
abbrev pub header_room : ℕ
header_room = 512

-- What appends to the staging vector.
abbrev pub Writer : Type 0
Writer = List ℕ → Result EncodeError (List ℕ)

infixr 6 ◌▹◌
unfoldable pub ◌▹◌ : Writer → Writer → Writer
(w ▹ next) v = w v >>= next

unfoldable pub write_u8_decimal : ℕ → Writer
write_u8_decimal b v =
    if ltb (length v) header_room then ok (v ++ (b ∷ [])) else err buffer_too_small

unfoldable pub write_decimal_u8 : ℕ → Writer
unfolding ◌▹◌ write_u8_decimal
write_decimal_u8 val =
    if leb 100 val
    then write_u8_decimal (48 + val / 100)
      ▹ write_u8_decimal (48 + val / 10 % 10)
      ▹ write_u8_decimal (48 + val % 10)
    else if leb 10 val
    then write_u8_decimal (48 + val / 10) ▹ write_u8_decimal (48 + val % 10)
    else write_u8_decimal (48 + val)

unfoldable pub write_str : List ℕ → Writer
write_str [] v = ok v
write_str (b ∷ bs) v = write_u8_decimal b v >>= write_str bs

-- `timestamp.unwrap_or("-")`
unfoldable pub stamp : Option (List ℕ) → List ℕ
stamp none = 45 ∷ []
stamp (some t) = t

-- The header: `<PRI>1 TIMESTAMP HOSTNAME APP-NAME - - - `.
unfoldable pub write_header :
    SyslogFacility → SyslogSeverity → List ℕ → List ℕ → Option (List ℕ) → Writer
unfolding ◌▹◌ write_u8_decimal write_decimal_u8 write_str stamp syslog_pri
write_header facility severity hostname app_name timestamp =
    write_u8_decimal 60
    ▹ write_decimal_u8 (syslog_pri facility severity)
    ▹ write_u8_decimal 62
    ▹ write_u8_decimal 49
    ▹ write_u8_decimal 32
    ▹ write_str (stamp timestamp)
    ▹ write_u8_decimal 32
    ▹ write_str hostname
    ▹ write_u8_decimal 32
    ▹ write_str app_name
    ▹ write_u8_decimal 32
    ▹ write_str (45 ∷ 32 ∷ 45 ∷ 32 ∷ 45 ∷ 32 ∷ [])

-- The header and as much of the message as fits, over the start of the buffer.
unfoldable pub write_message : List ℕ → List ℕ → List ℕ → Result EncodeError (List ℕ × ℕ)
unfolding store
write_message hdr msg buf = if ltb (length buf) (length hdr) then err buffer_too_small else (do
  buf' ← store buf 0 hdr
  let msg_len = min (length msg) (length buf - length hdr)
  buf'' ← store buf' (length hdr) (take msg_len msg)
  ok (buf'', add_usize (length hdr) msg_len))

unfoldable pub format_syslog :
    List ℕ
    → SyslogFacility
    → SyslogSeverity
    → List ℕ
    → List ℕ
    → Option (List ℕ)
    → List ℕ
    → Result EncodeError (List ℕ × ℕ)
unfolding write_header write_message
format_syslog buf facility severity hostname app_name timestamp msg =
    write_header facility severity hostname app_name timestamp [] >>= λ hdr.
    write_message hdr msg buf
