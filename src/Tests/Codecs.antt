-- ===== src/Tests/Codecs.antt =====
-- The MQTT, mDNS and syslog codecs of bridge-core/src/{mqtt,mdns,syslog}.rs at concrete inputs.
use micro_bacnet_bridge.Base.{
  ℕ, ◌≡◌, refl, arith, List, [], ◌∷◌, ◌++◌, true, none, take, replicate, ok, err,
}
use micro_bacnet_bridge.Error.{invalid_data, invalid_name_pointer}
use micro_bacnet_bridge.Mqtt.{
  encode_connect, encode_publish, decode_remaining_length, decode_packet_type, decode_connack,
}
use micro_bacnet_bridge.Mqtt.Length.{Answers, decode_remaining_length_lem}
use micro_bacnet_bridge.Mqtt.Broker.{receive_publish, publish_round_trip}
use micro_bacnet_bridge.Mqtt.Discovery.{ha_discovery_topic}
use micro_bacnet_bridge.Syslog.{local0, info, facility_code, severity_code, stamp, format_syslog}
use micro_bacnet_bridge.Syslog.Layout.{format_syslog_lem}
use micro_bacnet_bridge.Text.{decimal}
use micro_bacnet_bridge.Mdns.{write_name, read_name}
use micro_bacnet_bridge.Mdns.Ends.{Ends, read_name-Ends}
use micro_bacnet_bridge.Mdns.RoundTrip.{read_name-write_name}
use micro_bacnet_bridge.Mdns.Records.{encode_a_response, decode_query}

-- The packet of the test `encode_connect_minimal`: a client "test" with a keep-alive of a minute.
connect_sent :
    encode_connect (replicate 18 0) (116 ∷ 101 ∷ 115 ∷ 116 ∷ []) 60 none none
    ≡ ok (
      0x10 ∷ 16 ∷ 0 ∷ 4 ∷ 77 ∷ 81 ∷ 84 ∷ 84 ∷ 4 ∷ 2 ∷ 0 ∷ 60 ∷ 0 ∷ 4 ∷ 116 ∷ 101 ∷ 115 ∷ 116 ∷ [],
      18,
    )
unfolding encode_connect
connect_sent = refl

abbrev published_bytes : List ℕ
published_bytes = 0x31 ∷ 5 ∷ 0 ∷ 1 ∷ 97 ∷ 7 ∷ 8 ∷ 0 ∷ 0 ∷ []

publish_sent : encode_publish (replicate 9 0) (97 ∷ []) (7 ∷ 8 ∷ []) true ≡ ok (published_bytes, 7)
unfolding encode_publish
publish_sent = refl

publish_round_trip_example :
    (receive_publish (take 7 published_bytes) 0 ≡ ok ((0x31, 97 ∷ [], 7 ∷ 8 ∷ []), 7))
    × (decode_packet_type (take 7 published_bytes) ≡ ok (3, 5))
publish_round_trip_example =
    publish_round_trip (replicate 9 0) (97 ∷ []) (7 ∷ 8 ∷ []) true (omega arith) (omega arith)
      publish_sent

-- 321 is 0xC1 0x02; a fifth byte is refused.
two_bytes : decode_remaining_length (0x30 ∷ 0xC1 ∷ 0x02 ∷ []) 1 ≡ ok (321, 3)
unfolding decode_remaining_length
two_bytes = refl

five_bytes : decode_remaining_length (0x80 ∷ 0x80 ∷ 0x80 ∷ 0x80 ∷ 0x01 ∷ []) 0 ≡ err invalid_data
unfolding decode_remaining_length
five_bytes = refl

decode_remaining_length_lem_example :
    Answers 3 1 0 (decode_remaining_length (0x30 ∷ 0xC1 ∷ 0x02 ∷ 7 ∷ []) 1) (0xC1 ∷ 0x02 ∷ 7 ∷ []) 1
decode_remaining_length_lem_example =
    decode_remaining_length_lem (0x30 ∷ []) (0xC1 ∷ 0x02 ∷ 7 ∷ []) (omega arith) (omega arith)

accepted : decode_connack (0x20 ∷ 2 ∷ 0 ∷ 0 ∷ []) ≡ ok true
unfolding decode_connack
accepted = refl

-- homeassistant/sensor/b_analog-input_10/config, with "p" for the prefix
topic :
    ha_discovery_topic [] (112 ∷ []) (98 ∷ []) (116 ∷ []) 10
    ≡ ok (
        112 ∷ 47 ∷ 115 ∷ 101 ∷ 110 ∷ 115 ∷ 111 ∷ 114 ∷ 47 ∷ 98 ∷ 95 ∷ 116 ∷ 95 ∷ 49 ∷ 48 ∷ 47 ∷ 99
        ∷ 111 ∷ 110 ∷ 102 ∷ 105 ∷ 103 ∷ [])
unfolding ha_discovery_topic
topic = refl

-- The name "ab.c" in the domain "local", behind one byte.
abbrev name_written : List ℕ
name_written = 9 ∷ 2 ∷ 97 ∷ 98 ∷ 1 ∷ 99 ∷ 5 ∷ 108 ∷ 111 ∷ 99 ∷ 97 ∷ 108 ∷ 0 ∷ 0 ∷ 0 ∷ []

abbrev host : List ℕ
host = 97 ∷ 98 ∷ 46 ∷ 99 ∷ []

abbrev local_name : List ℕ
local_name = 108 ∷ 111 ∷ 99 ∷ 97 ∷ 108 ∷ []

name_sent : write_name host local_name (9 ∷ replicate 14 0) 1 ≡ ok (name_written, 13)
unfolding write_name
name_sent = refl

read_name-write_name_example : read_name name_written 1 ≡ ok (host ++ (46 ∷ local_name), 13)
unfolding write_name
read_name-write_name_example =
    read_name-write_name host local_name (9 ∷ []) (replicate 14 0)
      (
        (omega arith, omega arith, (omega arith, (omega arith, tt))),
        (
          (omega arith, omega arith, (omega arith, tt)),
          (
            (
              omega arith,
              omega arith,
              (omega arith, (omega arith, (omega arith, (omega arith, (omega arith, tt))))),
            ),
            tt,
          ),
        ),
      )
      (omega arith) (omega arith) name_sent

-- A pointer to itself, and one to a pointer further back.
abbrev looping : List ℕ
looping = 0xC0 ∷ 0 ∷ 0xC0 ∷ 0 ∷ []

loop_refused : read_name looping 2 ≡ err invalid_name_pointer
unfolding read_name
loop_refused = refl

read_name-Ends_example : Ends 4 (read_name looping 2)
read_name-Ends_example =
    read_name-Ends looping 2 (omega arith)
      (omega arith, (omega arith, (omega arith, (omega arith, tt))))

-- The question of the test `decode_query_type_a`, for "a".
query_read :
    decode_query (0 ∷ 0 ∷ 0 ∷ 0 ∷ 0 ∷ 1 ∷ 0 ∷ 0 ∷ 0 ∷ 0 ∷ 0 ∷ 0 ∷ 1 ∷ 97 ∷ 0 ∷ 0 ∷ 1 ∷ 0 ∷ 1 ∷ [])
    ≡ ok (record { name = 97 ∷ []; qtype = 1; qclass = 1 })
unfolding decode_query
query_read = refl

address_sent :
    encode_a_response (97 ∷ []) (10 ∷ 0 ∷ 0 ∷ 1 ∷ []) (replicate 35 0)
    ≡ ok (
      0 ∷ 0 ∷ 0x84 ∷ 0 ∷ 0 ∷ 0 ∷ 0 ∷ 1 ∷ 0 ∷ 0 ∷ 0 ∷ 0 ∷ 1 ∷ 97 ∷ 5 ∷ 108 ∷ 111 ∷ 99 ∷ 97 ∷ 108 ∷ 0
          ∷ 0 ∷ 1 ∷ 0x80 ∷ 1 ∷ 0 ∷ 0 ∷ 0x11 ∷ 0x94 ∷ 0 ∷ 4 ∷ 10 ∷ 0 ∷ 0 ∷ 1 ∷ [],
      35,
    )
unfolding encode_a_response
address_sent = refl

-- "OK!" of the host "h" and the application "a", with room for two bytes of it.
format_syslog_lem_example :
    format_syslog (replicate 21 0) local0 info (104 ∷ []) (97 ∷ []) none (79 ∷ 75 ∷ 33 ∷ [])
    ≡ ok (
      60 ∷ 49 ∷ 51 ∷ 52 ∷ 62 ∷ 49 ∷ 32 ∷ 45 ∷ 32 ∷ 104 ∷ 32 ∷ 97 ∷ 32 ∷ 45 ∷ 32 ∷ 45 ∷ 32 ∷ 45 ∷ 32
          ∷ 79 ∷ 75 ∷ [],
      21,
    )
unfolding facility_code severity_code stamp decimal
format_syslog_lem_example =
    format_syslog_lem (replicate 21 0) local0 info (104 ∷ []) (97 ∷ []) none (79 ∷ 75 ∷ 33 ∷ [])
      (omega arith)
