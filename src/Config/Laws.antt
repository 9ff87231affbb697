-- ===== src/Config/Laws.antt =====
-- What bridge-core/src/config.rs checks of a stored configuration, and which rule a point has.
use micro_bacnet_bridge.Base.{ℕ, ◌≤◌, ◌≡◌, ◌≢◌, ◌⊎◌, ◌↔◌, refl, arith, List, [], ◌∷◌, ◌++◌}
use micro_bacnet_bridge.Base.{Bool, true, false, ◌&&◌, ◌||◌, ◌==◌, All}
use micro_bacnet_bridge.Slice.{bytes_eq}
use micro_bacnet_bridge.Config.{
  magic_number, config_version, device_id_max, Convertor, PointRule, BridgeConfig, is_blank_text,
  is_baud_rate, validate, find_convertor, resolve_rule, first_rule,
}

blank_iff : (s : List ℕ) → (is_blank_text s ≡ false) ↔ (s ≢ [])
blank_iff [] = ground arith
blank_iff (c ∷ s) = ground arith

-- A service that is on has a port and a host.
abbrev pub IsReachable : Bool → ℕ → List ℕ → Type 0
IsReachable enabled port host = enabled ≡ true → (port ≢ 0) × (host ≢ [])

IsReachable-iff :
    (enabled : Bool) (port : ℕ) (host : List ℕ)
    → ((enabled && ((port == 0) || is_blank_text host)) ≡ false) ↔ IsReachable enabled port host
IsReachable-iff enabled port host = ground (arith, blank_iff host)

abbrev pub IsBaudRate : ℕ → Type 0
IsBaudRate rate = (rate ≡ 0) ⊎ (rate ≡ 9600) ⊎ (rate ≡ 19200) ⊎ (rate ≡ 38400) ⊎ (rate ≡ 76800)

IsBaudRate-iff : (rate : ℕ) → (is_baud_rate rate ≡ true) ↔ IsBaudRate rate
unfolding is_baud_rate
IsBaudRate-iff rate = ground arith

-- The fields that a configuration needs to be taken from the flash.
abbrev pub IsValidConfig : BridgeConfig → Type 0
IsValidConfig c =
    (c.magic ≡ magic_number)
    × (c.version ≡ config_version)
    × (c.bacnet.mstp_mac ≤ 127)
    × IsBaudRate c.bacnet.mstp_baud
    × (c.bacnet.device_id ≤ device_id_max)
    × (1 ≤ c.bacnet.max_master)
    × (c.bacnet.max_master ≤ 127)
    × (c.hostname ≢ [])
    × (60 ≤ c.ntp.sync_interval_secs)
    × IsReachable c.syslog.enabled c.syslog.port c.syslog.server
    × IsReachable c.mqtt.enabled c.mqtt.port c.mqtt.broker
    × (c.snmp.enabled ≡ true → c.snmp.community ≢ [])

-- A stored configuration is accepted exactly where its magic number and version are those of this
-- firmware, the address, the baud rate, the device and the highest master of the bus are in their
-- ranges, it has a host name and an interval of at least a minute between the time requests, syslog
-- and MQTT have a port and a host where they are on, and SNMP has a community where it is on.
pub validate_iff : (c : BridgeConfig) → (validate c ≡ true) ↔ IsValidConfig c
unfolding validate
validate_iff c = ground (
  arith,
  IsBaudRate-iff c.bacnet.mstp_baud,
  blank_iff c.hostname,
  IsReachable-iff c.syslog.enabled c.syslog.port c.syslog.server,
  IsReachable-iff c.mqtt.enabled c.mqtt.port c.mqtt.broker,
  blank_iff c.snmp.community,
)

-- The first rule that matches is the one that counts.
pub first_rule-append :
    (config : BridgeConfig) (matches : PointRule → Bool) (before : List PointRule)
    (rule : PointRule) (after : List PointRule)
    → All (λ (r : PointRule). matches r ≡ false) before
    → matches rule ≡ true
    → first_rule config matches (before ++ (rule ∷ after)) ≡ resolve_rule config rule
unfolding first_rule
first_rule-append config matches [] rule after h e = rw (e) refl
first_rule-append config matches (r ∷ before) rule after (n, h) e =
    rw (n) (first_rule-append config matches before rule after h e)

-- So is the first convertor with the identifier.
pub find_convertor-append :
    (id : List ℕ) (before : List Convertor) (c : Convertor) (after : List Convertor)
    → All (λ (other : Convertor). bytes_eq other.id id ≡ false) before
    → bytes_eq c.id id ≡ true
    → find_convertor id (before ++ (c ∷ after)) ≡ c.processors
unfolding find_convertor
find_convertor-append id [] c after h e = rw (e) refl
find_convertor-append id (other ∷ before) c after (n, h) e =
    rw (n) (find_convertor-append id before c after h e)
