-- ===== src/Config.antt =====
-- bridge-core/src/config.rs: the sections of the configuration, their values in a new one, the check of
-- a stored one, and the rules of points.
pub mod Laws
use micro_bacnet_bridge.Base.{ℕ, List, [], ◌∷◌, Bool, true, false, not, ◌&&◌, ◌||◌, ◌==◌, ltb}
use micro_bacnet_bridge.Base.{if◌then◌else◌}
use micro_bacnet_bridge.Slice.{bytes_eq}
use micro_bacnet_bridge.Auth.{UserRole, TokenConfig}
use micro_bacnet_bridge.Pipeline.{PointMode, passthrough, Processor}

abbrev pub magic_number : ℕ
magic_number = 0xBAC0CA1E

abbrev pub config_version : ℕ
config_version = 5

abbrev pub device_id_max : ℕ
device_id_max = 0x003F_FFFE

pub record NetworkConfig : Type 0 where
  pub dhcp : Bool
  pub ip : List ℕ
  pub subnet : List ℕ
  pub gateway : List ℕ
  pub dns : List ℕ

pub record BacnetDeviceConfig : Type 0 where
  pub device_id : ℕ
  pub device_name : List ℕ
  pub mstp_mac : ℕ
  pub mstp_baud : ℕ
  pub max_master : ℕ

pub record UserConfig : Type 0 where
  pub username : List ℕ
  pub password_salt : List ℕ
  pub password_hash : List ℕ
  pub role : UserRole

pub record NtpConfig : Type 0 where
  pub enabled : Bool
  pub use_dhcp_servers : Bool
  pub servers : List (List ℕ)
  pub sync_interval_secs : ℕ

pub record SyslogConfig : Type 0 where
  pub enabled : Bool
  pub server : List ℕ
  pub port : ℕ

pub record MqttConfig : Type 0 where
  pub enabled : Bool
  pub broker : List ℕ
  pub port : ℕ
  pub client_id : List ℕ
  pub username : List ℕ
  pub password : List ℕ
  pub topic_prefix : List ℕ
  pub ha_discovery_enabled : Bool
  pub ha_discovery_prefix : List ℕ
  pub publish_points : List (List ℕ)
  pub tls_enabled : Bool

pub record SnmpConfig : Type 0 where
  pub enabled : Bool
  pub community : List ℕ

pub record TlsConfig : Type 0 where
  pub server_enabled : Bool
  pub https_port : ℕ

pub record OtaConfig : Type 0 where
  pub auto_update : Bool
  pub manifest_url : List ℕ
  pub channel : List ℕ
  pub check_interval_secs : ℕ

pub record Convertor : Type 0 where
  pub id : List ℕ
  pub name : List ℕ
  pub processors : List Processor

pub record PointRule : Type 0 where
  pub device_id : ℕ
  pub object_type : ℕ
  pub object_instance : ℕ
  pub mode : PointMode
  pub convertor_id : List ℕ

pub record BridgeConfig : Type 0 where
  pub magic : ℕ
  pub version : ℕ
  pub provisioned : Bool
  pub network : NetworkConfig
  pub hostname : List ℕ
  pub bacnet : BacnetDeviceConfig
  pub ntp : NtpConfig
  pub syslog : SyslogConfig
  pub mqtt : MqttConfig
  pub snmp : SnmpConfig
  pub tls : TlsConfig
  pub ota : OtaConfig
  pub users : List UserConfig
  pub tokens : List TokenConfig
  pub convertors : List Convertor
  pub points : List PointRule

-- "bacnet-bridge"
abbrev bridge_name : List ℕ
bridge_name = 98 ∷ 97 ∷ 99 ∷ 110 ∷ 101 ∷ 116 ∷ 45 ∷ 98 ∷ 114 ∷ 105 ∷ 100 ∷ 103 ∷ 101 ∷ []

-- "pool.ntp.org"
abbrev ntp_pool : List ℕ
ntp_pool = 112 ∷ 111 ∷ 111 ∷ 108 ∷ 46 ∷ 110 ∷ 116 ∷ 112 ∷ 46 ∷ 111 ∷ 114 ∷ 103 ∷ []

-- "homeassistant"
abbrev ha_prefix : List ℕ
ha_prefix = 104 ∷ 111 ∷ 109 ∷ 101 ∷ 97 ∷ 115 ∷ 115 ∷ 105 ∷ 115 ∷ 116 ∷ 97 ∷ 110 ∷ 116 ∷ []

-- "public"
abbrev public_community : List ℕ
public_community = 112 ∷ 117 ∷ 98 ∷ 108 ∷ 105 ∷ 99 ∷ []

-- "release"
abbrev release_channel : List ℕ
release_channel = 114 ∷ 101 ∷ 108 ∷ 101 ∷ 97 ∷ 115 ∷ 101 ∷ []

unfoldable pub default_network : NetworkConfig
default_network = record {
  dhcp = true;
  ip = 192 ∷ 168 ∷ 1 ∷ 100 ∷ [];
  subnet = 255 ∷ 255 ∷ 255 ∷ 0 ∷ [];
  gateway = 192 ∷ 168 ∷ 1 ∷ 1 ∷ [];
  dns = 8 ∷ 8 ∷ 8 ∷ 8 ∷ [];
}

unfoldable pub default_bacnet : BacnetDeviceConfig
default_bacnet = record {
  device_id = 389999;
  device_name = bridge_name;
  mstp_mac = 1;
  mstp_baud = 19200;
  max_master = 127;
}

unfoldable pub default_ntp : NtpConfig
default_ntp = record {
  enabled = true;
  use_dhcp_servers = true;
  servers = ntp_pool ∷ [];
  sync_interval_secs = 3600;
}

unfoldable pub default_syslog : SyslogConfig
default_syslog = record { enabled = false; server = []; port = 514 }

unfoldable pub default_mqtt : MqttConfig
default_mqtt = record {
  enabled = false;
  broker = [];
  port = 1883;
  client_id = bridge_name;
  username = [];
  password = [];
  topic_prefix = bridge_name;
  ha_discovery_enabled = false;
  ha_discovery_prefix = ha_prefix;
  publish_points = [];
  tls_enabled = false;
}

unfoldable pub default_snmp : SnmpConfig
default_snmp = record { enabled = true; community = public_community }

unfoldable pub default_tls : TlsConfig
default_tls = record { server_enabled = false; https_port = 443 }

unfoldable pub default_ota : OtaConfig
default_ota = record {
  auto_update = false;
  manifest_url = [];
  channel = release_channel;
  check_interval_secs = 3600;
}

unfoldable pub default_bridge_config : BridgeConfig
unfolding default_network default_bacnet default_ntp default_syslog default_mqtt default_snmp
    default_tls default_ota
default_bridge_config = record {
  magic = magic_number;
  version = config_version;
  provisioned = false;
  network = default_network;
  hostname = bridge_name;
  bacnet = default_bacnet;
  ntp = default_ntp;
  syslog = default_syslog;
  mqtt = default_mqtt;
  snmp = default_snmp;
  tls = default_tls;
  ota = default_ota;
  users = [];
  tokens = [];
  convertors = [];
  points = [];
}

-- `String::is_empty`
abbrev pub is_blank_text : List ℕ → Bool
is_blank_text [] = true
is_blank_text (c ∷ s) = false

-- `VALID_BAUD_RATES.contains(&rate)`
unfoldable pub is_baud_rate : ℕ → Bool
is_baud_rate rate =
    (rate == 0) || (rate == 9600) || (rate == 19200) || (rate == 38400) || (rate == 76800)

unfoldable pub validate : BridgeConfig → Bool
unfolding is_baud_rate
validate c =
    if not (c.magic == magic_number) || not (c.version == config_version)
    then false
    else if ltb 127 c.bacnet.mstp_mac
    then false
    else if not (is_baud_rate c.bacnet.mstp_baud)
    then false
    else if ltb device_id_max c.bacnet.device_id
    then false
    else if ltb c.bacnet.max_master 1 || ltb 127 c.bacnet.max_master
    then false
    else if is_blank_text c.hostname
    then false
    else if ltb c.ntp.sync_interval_secs 60
    then false
    else if c.syslog.enabled && ((c.syslog.port == 0) || is_blank_text c.syslog.server)
    then false
    else if c.mqtt.enabled && ((c.mqtt.port == 0) || is_blank_text c.mqtt.broker)
    then false
    else not (c.snmp.enabled && is_blank_text c.snmp.community)

-- The processors of the first convertor with an identifier, and none where there is no such one.
unfoldable pub find_convertor : List ℕ → List Convertor → List Processor
find_convertor id [] = []
find_convertor id (c ∷ convertors) =
    let rest = find_convertor id convertors in if bytes_eq c.id id then c.processors else rest

unfoldable pub resolve_rule : BridgeConfig → PointRule → PointMode × List Processor
unfolding find_convertor
resolve_rule config rule =
    if is_blank_text rule.convertor_id
    then (rule.mode, [])
    else (rule.mode, find_convertor rule.convertor_id config.convertors)

-- The loop over the rules, with its test.
unfoldable pub first_rule :
    BridgeConfig → (PointRule → Bool) → List PointRule → PointMode × List Processor
unfolding resolve_rule
first_rule config matches [] = (passthrough, [])
first_rule config matches (rule ∷ rules) =
    let rest = first_rule config matches rules in
    if matches rule then resolve_rule config rule else rest

unfoldable pub find_point_rule : ℕ → ℕ → BridgeConfig → PointMode × List Processor
unfolding first_rule
find_point_rule object_type object_instance config =
    first_rule config
      (λ rule. (rule.object_type == object_type) && (rule.object_instance == object_instance))
      config.points

unfoldable pub find_point_rule_for_device : ℕ → ℕ → ℕ → BridgeConfig → PointMode × List Processor
unfolding first_rule
find_point_rule_for_device device_id object_type object_instance config =
    first_rule config
      (λ rule.
        (rule.device_id == device_id)
        && (rule.object_type == object_type)
        && (rule.object_instance == object_instance))
      config.points
